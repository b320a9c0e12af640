-- ===== src/Stream/Whole.antt =====
-- readFixSize of src/stream.cpp gives the next bytes of the stream, in whatever parts they come.
use net_ninja.Common.{
  if_true, ℕ, zero, suc, ◌-◌, ◌≤◌, ◌<◌, ◌≡◌, refl, sym, ap, ◌∙◌, ◌⊎◌, inl, inr, List, [], ◌++◌,
  Option, some, arith, ◌==◌, length, length-append, append_assoc, true, false, Bool-cases,
}
use net_ninja.Stream.{Reply, got, stop, Answer, as_int, after_part, read_fix_loop, read_fix_size}

-- What recv(2) documents: at most as many bytes as were asked for, and at least one; the bytes come in
-- their order, and an end or an error takes none.
abbrev pub IsPart : List ℕ → ℕ → List ℕ → Reply → Type 0
IsPart before n after (Reply.got d) = (1 ≤ length d) × (length d ≤ n) × (before ≡ d ++ after)
IsPart before n after (Reply.stop k) = before ≡ after

pub zero_of : (n : ℕ) → n ≤ 0 → (n == 0) ≡ true
zero_of n h = ground arith

pub is_zero : (n : ℕ) → (n == 0) ≡ true → 0 ≡ n
is_zero n e = ground arith

pub not_zero : (n : ℕ) → (n == 0) ≡ false → 1 ≤ n
not_zero n e = ground arith

module _ {State : Type 0} (read : State → ℕ → Reply × State) where
  pub record IsSource (remaining : State → List ℕ) : Type 0 where
    pub part :
        (s : State) (n : ℕ) → 1 ≤ n → IsPart (remaining s) n (remaining (read s n).1) (read s n).0

  module _ (remaining : State → List ℕ) (src : IsSource remaining) where
    -- All bytes that were asked for, or fewer and the int of the last read, which was asked for the
    -- bytes that were missing and left the state.
    abbrev pub IsWhole : State → ℕ → ℕ → Option (Answer × List ℕ × State) → Type 0
    IsWhole s size left r =
        (a : Answer) × (out : List ℕ) × (s' : State) × (r ≡ some (a, out, s'))
        × (remaining s ≡ out ++ remaining s')
        × (((a ≡ Answer.full (as_int size)) × (length out ≡ left))
            ⊎ ((k : ℕ) × (a ≡ Answer.stopped k)
                × (length out < left)
                × ((t : State) × (read t (left - length out) ≡ (Reply.stop k, s')))))

    -- One read, and what the loop does behind it.
    read_one-IsWhole :
        (fuel : ℕ) (s : State) (size left : ℕ)
        → 1 ≤ left
        → left ≤ suc fuel
        → ((t : State) (n : ℕ) → n ≤ fuel → IsWhole t size n (read_fix_loop read fuel t size n))
        → (r : Reply) → (read s left).0 ≡ r
        → IsPart (remaining s) left (remaining (read s left).1) r
        → IsWhole s size left (elim r [
          | got d ↦ after_part d (read_fix_loop read fuel (read s left).1 size (left - length d))
          | stop k ↦ some (Answer.stopped k, [], (read s left).1)
        ])
    read_one-IsWhole fuel s size left o h ih (Reply.got d) q p =
        let (a, out, s', r, b, f) = ih (read s left).1 (left - length d) (shorter p.0 p.1) in
        (
          a,
          d ++ out,
          s',
          ap (after_part d) r,
          p.2 ∙ ap (λ t. d ++ t) b ∙ sym (append_assoc d out (remaining s')),
          elim f [
            | inl (e, l) ↦ inl (e, both out p.1 l)
            | inr (k, e, l, t) ↦
                inr (k, e, fewer out p.1 l, (t.0, ap (read t.0) (missing out p.1 l) ∙ t.1))
          ],
        )
      where
        shorter : 1 ≤ length d → length d ≤ left → left - length d ≤ fuel
        shorter a b = omega arith

        both :
            (out : List ℕ)
            → length d ≤ left
            → length out ≡ left - length d
            → length (d ++ out) ≡ left
        both out a l = omega (arith, length-append d out)

        fewer :
            (out : List ℕ)
            → length d ≤ left
            → length out < left - length d
            → length (d ++ out) < left
        fewer out a l = omega (arith, length-append d out)

        missing :
            (out : List ℕ)
            → length d ≤ left
            → length out < left - length d
            → left - length (d ++ out) ≡ left - length d - length out
        missing out a l = omega (arith, length-append d out)
    read_one-IsWhole fuel s size left o h ih (Reply.stop k) q p = (
      Answer.stopped k,
      [],
      (read s left).1,
      refl,
      p,
      inr (k, refl, o, (s, ap (read s) (omega arith) ∙ ap (λ r. (r, (read s left).1)) q)),
    )

    read_fix_loop-IsWhole :
        (fuel : ℕ) (s : State) (size left : ℕ)
        → left ≤ fuel
        → IsWhole s size left (read_fix_loop read fuel s size left)
    unfolding read_fix_loop
    read_fix_loop-IsWhole zero s size left h = (
      Answer.full (as_int size),
      [],
      s,
      if_true (zero_of left h) _ _,
      refl,
      inl (refl, is_zero left (zero_of left h)),
    )
    read_fix_loop-IsWhole (suc fuel) s size left h = elim (Bool-cases (left == 0)) [
      | inl e ↦ (Answer.full (as_int size), [], s, if_true e _ _, refl, inl (refl, is_zero left e))
      | inr e ↦
          rw (read_fix_loop, e)
            (read_one-IsWhole fuel s size left (not_zero left e) h
              (λ t n l. read_fix_loop-IsWhole fuel t size n l) (read s left).0 refl
              (src.part s left (not_zero left e)))
    ]

    -- For a stream that gives at least one and at most the bytes asked for, in order, `readFixSize`
    -- ends. Either it answers the length and has read exactly that many of the bytes that come next,
    -- or it answers the int of a read that was asked for all the bytes still missing and did not give
    -- any, nothing is read behind that one, and it has read fewer, which no longer are in the stream.
    pub read_fix_size-IsWhole :
        (s : State) (size : ℕ) → IsWhole s size size (read_fix_size read s size)
    unfolding read_fix_size
    read_fix_size-IsWhole s size = read_fix_loop-IsWhole size s size size (omega arith)
