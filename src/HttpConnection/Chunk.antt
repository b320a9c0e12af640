-- ===== src/HttpConnection/Chunk.antt =====
-- One chunk of a response in src/http/http_connection.cpp.
use net_ninja.Common.{
  ℕ, zero, suc, ◌+◌, ◌-◌, ◌^◌, ◌<◌, ◌≤◌, ◌≡◌, refl, sym, ap, ◌∙◌, inl, inr, false, List, [], ◌++◌,
  Option, none, some, arith, ltb, leb, ◌==◌, if◌then◌else◌, length, take, drop, length-append,
  length-take, length-drop, take-append-drop, append_assoc, Bool-cases, if_true, if_false, some_is,
  leb→le, take-append_add, drop-drop,
}
use net_ninja.Stream.{Reply}
use net_ninja.Stream.Whole.{IsPart, IsSource}
use net_ninja.HttpConnection.{Taken, read_left, take_chunk}

-- The content of a chunk, the two bytes behind it and what follows them.
held_bytes :
    (size : ℕ) (rest more : List ℕ)
    → rest ++ more ≡ take size rest ++ (take 2 (drop size rest) ++ (drop (size + 2) rest ++ more))
held_bytes size rest more =
    ap (λ l. l ++ more) (sym (take-append-drop size rest))
    ∙ append_assoc (take size rest) (drop size rest) more
    ∙ ap (λ l. take size rest ++ (l ++ more)) (sym (take-append-drop 2 (drop size rest)))
    ∙ ap (λ l. take size rest ++ l)
        (append_assoc (take 2 (drop size rest)) (drop 2 (drop size rest)) more)
    ∙ ap (λ l. take size rest ++ (take 2 (drop size rest) ++ (l ++ more))) (drop-drop 2 size rest)

left_body :
    (size : ℕ) (rest body out : List ℕ)
    → length rest + length out ≡ size + 2
    → take (length (body ++ (rest ++ out)) - 2) (body ++ (rest ++ out))
      ≡ body ++ take size (rest ++ out)
left_body size rest body out h =
    ap (λ (n : ℕ). take n (body ++ (rest ++ out)))
      (omega (arith, length-append body (rest ++ out), length-append rest out, h))
    ∙ take-append_add (length body) size body (rest ++ out) refl

left_bytes :
    (size : ℕ) (rest out more more' : List ℕ)
    → (more ≡ out ++ more')
    → rest ++ more ≡ take size (rest ++ out) ++ (drop size (rest ++ out) ++ more')
left_bytes size rest out more more' e =
    ap (λ l. rest ++ l) e
    ∙ sym (append_assoc rest out more')
    ∙ ap (λ l. l ++ more') (sym (take-append-drop size (rest ++ out)))
    ∙ append_assoc (take size (rest ++ out)) (drop size (rest ++ out)) more'

module _ {State : Type 0} (read : State → ℕ → Reply × State) (remaining : State → List ℕ)
    (src : IsSource read remaining) where
  -- As many bytes as are missing, and those the next of the stream; or the stream ended before.
  abbrev IsLeft : State → ℕ → Option (List ℕ) × State → Type 0
  IsLeft s left (none, s') = Unit {0}
  IsLeft s left (some out, s') = (length out ≡ left) × (remaining s ≡ out ++ remaining s')

  size_bounds :
      (buff_size left : ℕ)
      → 0 < buff_size
      → (left == 0) ≡ false
      → let size = if ltb buff_size left then buff_size else left in (1 ≤ size) × (size ≤ left)
  size_bounds buff_size left h k = ground arith

  joined : List ℕ → Option (List ℕ) × State → Option (List ℕ) × State
  joined d r = (elim r.0 [ none ↦ none | some out ↦ some (d ++ out) ], r.1)

  joined-IsLeft :
      (s s' : State) (left : ℕ) (d : List ℕ) (r : Option (List ℕ) × State)
      → length d ≤ left
      → (remaining s ≡ d ++ remaining s')
      → IsLeft s' (left - length d) r
      → IsLeft s left (joined d r)
  unfolding joined
  joined-IsLeft s s' left d (none, t) h e k = tt
  joined-IsLeft s s' left d (some out, t) h e k = (
    omega (arith, length-append d out, k.0, h),
    e ∙ ap (λ l. d ++ l) k.1 ∙ sym (append_assoc d out (remaining t)),
  )

  turn-IsLeft :
      (fuel buff_size : ℕ) (s : State) (left : ℕ)
      → left ≤ suc fuel
      → (left == 0) ≡ false
      → let size = if ltb buff_size left then buff_size else left in
        (size ≤ left)
        → ((d : List ℕ)
            → 1 ≤ length d
            → (r : Option (List ℕ) × State) × (read_left read fuel buff_size
                  (read s size).1
                  (left - length d)
                ≡ some r)
              × IsLeft (read s size).1 (left - length d) r)
        → (reply : Reply) → (read s size).0 ≡ reply
        → IsPart (remaining s) size (remaining (read s size).1) reply
        → (r : Option (List ℕ) × State) × (read_left read (suc fuel) buff_size s left ≡ some r)
          × IsLeft s left r
  unfolding read_left joined
  turn-IsLeft fuel buff_size s left h z fits ih (Reply.got d) e part =
      let (r, run, k) = ih d part.0 in
      (
        joined d r,
        rw (read_left, z, e, run) refl,
        joined-IsLeft s (read s (if ltb buff_size left then buff_size else left)).1 left d r
            (omega (arith, part.1, fits)) part.2 k,
      )
  turn-IsLeft fuel buff_size s left h z fits ih (Reply.stop n) e part = (
    (none, (read s (if ltb buff_size left then buff_size else left)).1),
    rw (read_left, z, e) refl,
    tt,
  )

  read_left-IsLeft :
      (fuel buff_size : ℕ) (s : State) (left : ℕ)
      → left ≤ fuel
      → 0 < buff_size
      → (r : Option (List ℕ) × State) × (read_left read fuel buff_size s left ≡ some r)
        × IsLeft s left r
  unfolding read_left
  read_left-IsLeft zero buff_size s zero h k = ((some [], s), refl, (refl, refl))
  read_left-IsLeft zero buff_size s (suc left) h k = absurd (omega arith)
  read_left-IsLeft (suc fuel) buff_size s left h k = elim (Bool-cases (left == 0)) [
    | inl z ↦ ((some [], s), rw z refl, (ground arith, refl))
    | inr z ↦
        let (low, fits) = size_bounds buff_size left k z in
        let size = if ltb buff_size left then buff_size else left in
        turn-IsLeft fuel buff_size s left h z fits
          (λ d more.
            read_left-IsLeft fuel buff_size (read s size).1 (left - length d) (omega arith) k)
          (read s size).0 refl (src.part s size low)
  ]

  module _ (close : State → State) where
    -- A chunk is its content of the given size and two bytes behind it, which are dropped.
    abbrev pub IsTaken : ℕ → State → ℕ → List ℕ → List ℕ → Taken State → Type 0
    IsTaken buff_size s size rest body (Taken.closed s') = Unit {0}
    IsTaken buff_size s size rest body Taken.threw = 2 ^ 31 - 2 ≤ size
    IsTaken buff_size s size rest body (Taken.chunk body' buffer s') =
        (length buffer < buff_size)
        × ((content : List ℕ) × (tail : List ℕ) × (body' ≡ body ++ content)
            × (length content ≡ size)
            × (length tail ≡ 2)
            × (rest ++ remaining s ≡ content ++ (tail ++ (buffer ++ remaining s'))))

    held-IsTaken :
        (buff_size : ℕ) (s : State) (size : ℕ) (rest body : List ℕ)
        → length rest < buff_size
        → size + 2 ≤ length rest
        → IsTaken buff_size s size rest body
            (Taken.chunk (body ++ take size rest) (drop (size + 2) rest) s)
    held-IsTaken buff_size s size rest body h k = (
      omega (arith, length-drop (size + 2) rest, h),
      (
        take size rest,
        take 2 (drop size rest),
        refl,
        omega (arith, length-take size rest, k),
        omega (arith, length-take 2 (drop size rest), length-drop size rest, k),
        held_bytes size rest (remaining s),
      ),
    )

    left-IsTaken :
        (buff_size : ℕ) (s s' : State) (size : ℕ) (rest body out : List ℕ)
        → 0 < buff_size
        → length rest < size + 2
        → length out ≡ size + 2 - length rest
        → (remaining s ≡ out ++ remaining s')
        → let all = body ++ (rest ++ out) in
          IsTaken buff_size s size rest body (Taken.chunk (take (length all - 2) all) [] s')
    left-IsTaken buff_size s s' size rest body out h k l e = (
      h,
      (
        take size (rest ++ out),
        drop size (rest ++ out),
        left_body size rest body out (omega (arith, k, l)),
        omega (arith, length-take size (rest ++ out), length-append rest out, k, l),
        omega (arith, length-drop size (rest ++ out), length-append rest out, k, l),
        left_bytes size rest out (remaining s) (remaining s') e,
      ),
    )

    missing-IsTaken :
        (buff_size : ℕ) (s : State) (size : ℕ) (rest body : List ℕ) (r : Option (List ℕ) × State)
        → length rest < buff_size
        → length rest < size + 2
        → IsLeft s (size + 2 - length rest) r
        → (t : Taken State) × ((let all : List ℕ → List ℕ = λ out. body ++ (rest ++ out) in
              some (elim r.0 [
                | none ↦ Taken.closed (close r.1)
                | some out ↦ Taken.chunk (take (length (all out) - 2) (all out)) [] r.1
              ]))
            ≡ some t)
          × IsTaken buff_size s size rest body t
    missing-IsTaken buff_size s size rest body (none, s') h k l =
        (Taken.closed (close s'), refl, tt)
    missing-IsTaken buff_size s size rest body (some out, s') h k l =
        (_, refl, left-IsTaken buff_size s s' size rest body out (omega (arith, h)) k l.0 l.1)

    pub take_chunk-IsTaken :
        (buff_size : ℕ) (s : State) (size : ℕ) (rest body : List ℕ)
        → length rest < buff_size
        → (t : Taken State) × (take_chunk read close buff_size s size rest body ≡ some t)
          × IsTaken buff_size s size rest body t
    unfolding take_chunk
    take_chunk-IsTaken buff_size s size rest body h = elim (Bool-cases (leb (2 ^ 31 - 2) size)) [
      | inl a ↦ (Taken.threw, if_true a _ _, leb→le (2 ^ 31 - 2) size a)
      | inr a ↦ elim (Bool-cases (leb (size + 2) (length rest))) [
        | inl b ↦ (
          Taken.chunk (body ++ take size rest) (drop (size + 2) rest) s,
          if_false a _ _ ∙ if_true b _ _,
          held-IsTaken buff_size s size rest body h (leb→le (size + 2) (length rest) b),
        )
        | inr b ↦
            let (r, run, k) =
              read_left-IsLeft (size + 2 - length rest) buff_size s (size + 2 - length rest)
                (omega arith) (omega (arith, h)) in
            let (t, run', taken) =
              missing-IsTaken buff_size s size rest body r h (ground (arith, b)) k in
            (t, if_false a _ _ ∙ if_false b _ _ ∙ some_is run _ _ ∙ run', taken)
      ]
    ]
