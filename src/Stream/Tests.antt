-- ===== src/Stream/Tests.antt =====
-- Runs of the loops on a stream with small parts, and their theorems at it.
use net_ninja.Common.{
  ℕ, ◌≤◌, ◌≡◌, refl, sym, List, [], ◌∷◌, ◌++◌, some, arith, length, take, drop, length-take,
  take-append-drop,
}
use Prim.Native.Nat.{min}
use net_ninja.Stream.{Reply, Count, Answer, read_fix_loop, read_fix_size}
use net_ninja.Stream.Whole.{IsPart, IsSource, IsWhole, read_fix_size-IsWhole}
use net_ninja.Stream.Sent.{IsSink}

-- A stream that gives and takes at most two bytes; its state is what is left to read, or was sent.
abbrev read_two : List ℕ → ℕ → Reply × List ℕ
read_two [] n = (Reply.stop 0, [])
read_two (x ∷ s) n = (Reply.got (take (min n 2) (x ∷ s)), drop (min n 2) (x ∷ s))

read_two-IsSource : IsSource read_two (λ s. s)
read_two-IsSource = record { part = go }
  where
    go : (s : List ℕ) (n : ℕ) → 1 ≤ n → IsPart s n (read_two s n).1 (read_two s n).0
    go [] n h = refl
    go (x ∷ s) n h = (
      omega (arith, length-take (min n 2) (x ∷ s)),
      omega (arith, length-take (min n 2) (x ∷ s)),
      sym (take-append-drop (min n 2) (x ∷ s)),
    )

read_fix_run :
    read_fix_size read_two (1 ∷ 2 ∷ 3 ∷ 4 ∷ []) 3 ≡ some (Answer.full 3, 1 ∷ 2 ∷ 3 ∷ [], 4 ∷ [])
unfolding read_fix_size read_fix_loop
read_fix_run = refl

read_fix_size-IsWhole_example :
    IsWhole read_two
      (λ s. s)
      read_two-IsSource
      (1 ∷ 2 ∷ 3 ∷ 4 ∷ [])
      3
      3
      (read_fix_size read_two (1 ∷ 2 ∷ 3 ∷ 4 ∷ []) 3)
read_fix_size-IsWhole_example =
    read_fix_size-IsWhole read_two (λ s. s) read_two-IsSource (1 ∷ 2 ∷ 3 ∷ 4 ∷ []) 3

abbrev write_two : List ℕ → List ℕ → Count × List ℕ
write_two s block = (Count.sent (min 2 (length block)), s ++ take (min 2 (length block)) block)

write_two-IsSink : IsSink write_two (λ s. s)
write_two-IsSink = record { taken = λ s block h. (omega arith, omega arith, refl) }
