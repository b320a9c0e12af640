-- ===== src/Stream/Sent.antt =====
-- writeFixSize of src/stream.cpp sends the buffer, in whatever parts the stream takes it.
use net_ninja.Common.{
  if_true, ℕ, zero, suc, ◌+◌, ◌≤◌, ◌<◌, ◌≡◌, refl, sym, ap, ◌∙◌, ◌⊎◌, inl, inr, List, ◌++◌, Option,
  some, arith, ◌==◌, length, take, drop, length-drop, take-drop, take-take, take-append-drop,
  append_assoc, append-nil, Bool-cases,
}
use net_ninja.Stream.{Count, sent, failed, Answer, as_int, write_fix_loop, write_fix_size}
use net_ninja.Stream.Whole.{zero_of, is_zero, not_zero}

-- What send(2) documents: at least one and at most all bytes of the block are taken, from its front;
-- an error takes none.
abbrev IsTaken : List ℕ → List ℕ → List ℕ → Count → Type 0
IsTaken before block after (Count.sent n) =
    (1 ≤ n) × (n ≤ length block) × (after ≡ before ++ take n block)
IsTaken before block after (Count.failed k) = after ≡ before

take-drop_add : (n k : ℕ) (xs : List ℕ) → take n xs ++ take k (drop n xs) ≡ take (n + k) xs
take-drop_add n k xs =
    ap (λ t. take n xs ++ t) (take-drop k n xs)
    ∙ ap (λ t. t ++ drop n (take (n + k) xs)) (sym (take-take n (n + k) xs (omega arith)))
    ∙ take-append-drop n (take (n + k) xs)

module _ {State : Type 0} (write : State → List ℕ → Count × State) where
  pub record IsSink (delivered : State → List ℕ) : Type 0 where
    pub taken :
        (s : State) (block : List ℕ)
        → 1 ≤ length block
        → IsTaken (delivered s) block (delivered (write s block).1) (write s block).0

  module _ (delivered : State → List ℕ) (sink : IsSink delivered) where
    -- All of the block, or a part of its front and the int of the last write.
    abbrev pub IsSent : State → ℕ → List ℕ → Option (Answer × State) → Type 0
    IsSent s size block r =
        (a : Answer) × (k : ℕ) × (s' : State) × (r ≡ some (a, s'))
        × (delivered s' ≡ delivered s ++ take k block)
        × (((a ≡ Answer.full (as_int size)) × (k ≡ length block))
            ⊎ ((j : ℕ) × (a ≡ Answer.stopped j) × (k < length block)))

    write_one-IsSent :
        (fuel : ℕ) (s : State) (size : ℕ) (block : List ℕ)
        → 1 ≤ length block
        → length block ≤ suc fuel
        → ((t : State) (l : List ℕ)
            → length l ≤ fuel
            → IsSent t size l (write_fix_loop write fuel t size l))
        → (r : Count) → IsTaken (delivered s) block (delivered (write s block).1) r
        → IsSent s size block (elim r [
          | sent n ↦ write_fix_loop write fuel (write s block).1 size (drop n block)
          | failed k ↦ some (Answer.stopped k, (write s block).1)
        ])
    write_one-IsSent fuel s size block o h ih (Count.sent n) p =
        let (a, k, s', r, b, f) = ih (write s block).1 (drop n block) (shorter p.0 p.1) in
        (
          a,
          n + k,
          s',
          r,
          b
              ∙ ap (λ t. t ++ take k (drop n block)) p.2
              ∙ append_assoc (delivered s) (take n block) (take k (drop n block))
              ∙ ap (λ t. delivered s ++ t) (take-drop_add n k block),
          elim f [ inl (e, l) ↦ inl (e, both k p.1 l) | inr (j, e, l) ↦ inr (j, e, fewer k p.1 l) ],
        )
      where
        shorter : 1 ≤ n → n ≤ length block → length (drop n block) ≤ fuel
        shorter a b = omega (arith, length-drop n block)

        both : (k : ℕ) → n ≤ length block → k ≡ length (drop n block) → n + k ≡ length block
        both k a l = omega (arith, length-drop n block)

        fewer : (k : ℕ) → n ≤ length block → k < length (drop n block) → n + k < length block
        fewer k a l = omega (arith, length-drop n block)
    write_one-IsSent fuel s size block o h ih (Count.failed k) p = (
      Answer.stopped k,
      0,
      (write s block).1,
      refl,
      p ∙ sym (append-nil (delivered s)),
      inr (k, refl, o),
    )

    write_fix_loop-IsSent :
        (fuel : ℕ) (s : State) (size : ℕ) (block : List ℕ)
        → length block ≤ fuel
        → IsSent s size block (write_fix_loop write fuel s size block)
    unfolding write_fix_loop
    write_fix_loop-IsSent zero s size block h = (
      Answer.full (as_int size),
      0,
      s,
      if_true (zero_of (length block) h) _ _,
      sym (append-nil (delivered s)),
      inl (refl, is_zero (length block) (zero_of (length block) h)),
    )
    write_fix_loop-IsSent (suc fuel) s size block h = elim (Bool-cases (length block == 0)) [
      | inl e ↦ (
        Answer.full (as_int size),
        0,
        s,
        if_true e _ _,
        sym (append-nil (delivered s)),
        inl (refl, is_zero (length block) e),
      )
      | inr e ↦
          rw (write_fix_loop, e)
            (write_one-IsSent fuel s size block (not_zero (length block) e) h
              (λ t l k. write_fix_loop-IsSent fuel t size l k) (write s block).0
              (sink.taken s block (not_zero (length block) e)))
    ]

    -- For a stream that takes at least one and at most all bytes of a block, from its front,
    -- `writeFixSize` ends. Either it answers the length and the whole buffer was sent behind what was
    -- sent before, or it answers the int of the last write, and a shorter part of its front was.
    pub write_fix_size-IsSent :
        (s : State) (buffer : List ℕ)
        → IsSent s (length buffer) buffer (write_fix_size write s buffer)
    unfolding write_fix_size
    write_fix_size-IsSent s buffer =
        write_fix_loop-IsSent (length buffer) s (length buffer) buffer (omega arith)
