-- ===== src/HttpSession/Parsed.antt =====
-- The loop over the head of a request in src/http/http_session.cpp.
use net_ninja.Common.{
  ℕ, zero, suc, ◌+◌, ◌-◌, ◌<◌, ◌≤◌, ◌≡◌, refl, sym, ap, ◌∙◌, inl, inr, ◌⊎◌, ==_iff, Bool, true,
  false, List, [], ◌++◌, some, ◌==◌, if◌then◌else◌, arith, length, drop, length-append, length-drop,
  append_assoc, Bool-cases, if_true, if_false,
}
use mathlib.Core.Path.{subst}
use net_ninja.Stream.{Reply}
use net_ninja.Stream.Whole.{IsPart, IsSource}
use net_ninja.HttpSession.{Head, recv_head}

-- Calls of `execute` one after the other, at least one. Each is given some of the bytes that come next;
-- the next call begins behind those that it says it took.
pub data IsParsed {Parser : Type 0} (execute : Parser → List ℕ → ℕ × Parser)
    : Parser → List ℕ → Parser → List ℕ → Type 0 where
  once :
      (p : Parser) (all after : List ℕ)
      → IsParsed execute p (all ++ after) (execute p all).1 (drop (execute p all).0 all ++ after)
  more :
      (p q : Parser) (all after rest : List ℕ)
      → IsParsed execute (execute p all).1 (drop (execute p all).0 all ++ after) q rest
      → IsParsed execute p (all ++ after) q rest

pub length-IsParsed :
    {Parser : Type 0} (execute : Parser → List ℕ → ℕ × Parser) (p q : Parser) (input rest : List ℕ)
    → IsParsed execute p input q rest
    → length rest ≤ length input
length-IsParsed execute _ _ _ _ (IsParsed.once p all after) = omega (
  arith,
  length-append all after,
  length-append (drop (execute p all).0 all) after,
  length-drop (execute p all).0 all,
)
length-IsParsed execute _ _ _ _ (IsParsed.more p q all after rest h) = omega (
  arith,
  length-IsParsed execute (execute p all).1 q (drop (execute p all).0 all ++ after) rest h,
  length-append all after,
  length-append (drop (execute p all).0 all) after,
  length-drop (execute p all).0 all,
)

module _ {State Parser : Type 0} (read : State → ℕ → Reply × State) (close : State → State)
    (execute : Parser → List ℕ → ℕ × Parser) (has_error is_finished : Parser → Bool)
    (remaining : State → List ℕ) (src : IsSource read remaining) where
  -- The stream was closed: behind a read that gave nothing, or behind a call of `execute` after which
  -- the parser has an error, or left the buffer full.
  abbrev pub IsClosed : State → Parser → List ℕ → ℕ → State → Type 0
  IsClosed s p buffer buff_size s' =
      ((t : State) × (n : ℕ) × (k : ℕ) × ((read t n).0 ≡ Reply.stop k) × (s' ≡ close (read t n).1))
      ⊎ ((q : Parser) × (rest : List ℕ) × (t : State) × IsParsed execute p (buffer ++ remaining s) q
            (rest ++ remaining t)
          × (s' ≡ close t)
          × ((has_error q ≡ true) ⊎ (length rest ≡ buff_size)))

  -- The parser is finished without an error, and what it left of the buffer and of the bytes that the
  -- stream gave stands in the buffer, in front of what the stream still has.
  abbrev pub IsReceived : State → Parser → List ℕ → ℕ → Head State Parser → Type 0
  IsReceived s p buffer buff_size (Head.closed s') = IsClosed s p buffer buff_size s'
  IsReceived s p buffer buff_size (Head.parsed q rest s') =
      (has_error q ≡ false)
      × (is_finished q ≡ true)
      × (length rest < buff_size)
      × IsParsed execute p (buffer ++ remaining s) q (rest ++ remaining s')

  extend-IsReceived :
      (s s' : State) (p : Parser) (buffer all : List ℕ) (buff_size : ℕ) (r : Head State Parser)
      → (buffer ++ remaining s ≡ all ++ remaining s')
      → IsReceived s' (execute p all).1 (drop (execute p all).0 all) buff_size r
      → IsReceived s p buffer buff_size r
  extend-IsReceived s s' p buffer all buff_size (Head.closed t) e (inl h) = inl h
  extend-IsReceived s s' p buffer all buff_size (Head.closed t) e (inr (q, rest, u, h, c, w)) =
      inr (
        q,
        rest,
        u,
        subst (λ l. IsParsed execute p l q (rest ++ remaining u)) (sym e)
            (IsParsed.more p q all (remaining s') (rest ++ remaining u) h),
        c,
        w,
      )
  extend-IsReceived s s' p buffer all buff_size (Head.parsed q rest t) e h = (
    h.0,
    h.1,
    h.2,
    subst (λ l. IsParsed execute p l q (rest ++ remaining t)) (sym e)
        (IsParsed.more p q all (remaining s') (rest ++ remaining t) h.3),
  )

  -- The part of a turn behind the read.
  pub parse-IsReceived :
      (fuel buff_size : ℕ) (s s' : State) (p : Parser) (buffer all : List ℕ)
      → length all ≤ buff_size
      → (buffer ++ remaining s ≡ all ++ remaining s')
      → ((rest : List ℕ)
          → length rest < buff_size
          → (r : Head State Parser) × (recv_head read close execute has_error is_finished fuel
                buff_size s'
                (execute p all).1
                rest
              ≡ some r)
            × IsReceived s' (execute p all).1 rest buff_size r)
      → (r : Head State Parser) × ((if has_error (execute p all).1
            then some (Head.closed (close s'))
            else if length (drop (execute p all).0 all) == buff_size
            then some (Head.closed (close s'))
            else if is_finished (execute p all).1
            then some (Head.parsed (execute p all).1 (drop (execute p all).0 all) s')
            else recv_head read close execute has_error is_finished fuel buff_size s'
                (execute p all).1
                (drop (execute p all).0 all))
          ≡ some r)
        × IsReceived s p buffer buff_size r
  parse-IsReceived fuel buff_size s s' p buffer all fits e ih =
      let seen =
        subst
          (λ l. IsParsed execute p l (execute p all).1 (drop (execute p all).0 all ++ remaining s'))
          (sym e) (IsParsed.once p all (remaining s')) in
      elim (Bool-cases (has_error (execute p all).1)) [
        | inl a ↦ (
          Head.closed (close s'),
          if_true a _ _,
          inr ((execute p all).1, drop (execute p all).0 all, s', seen, refl, inl a),
        )
        | inr a ↦ elim (Bool-cases (length (drop (execute p all).0 all) == buff_size)) [
          | inl b ↦ (
            Head.closed (close s'),
            if_false a _ _ ∙ if_true b _ _,
            inr (
              (execute p all).1,
              drop (execute p all).0 all,
              s',
              seen,
              refl,
              inr (full (length (drop (execute p all).0 all)) buff_size b),
            ),
          )
          | inr b ↦
              let below : length (drop (execute p all).0 all) < buff_size =
                shorter (length-drop (execute p all).0 all) b in
              elim (Bool-cases (is_finished (execute p all).1)) [
                | inl c ↦ (
                  Head.parsed (execute p all).1 (drop (execute p all).0 all) s',
                  if_false a _ _ ∙ if_false b _ _ ∙ if_true c _ _,
                  (
                    a,
                    c,
                    below,
                    subst
                        (λ l.
                          IsParsed execute p l (execute p all).1
                            (drop (execute p all).0 all ++ remaining s'))
                        (sym e) (IsParsed.once p all (remaining s')),
                  ),
                )
                | inr c ↦
                    let (r, run, received) = ih (drop (execute p all).0 all) below in
                    (
                      r,
                      if_false a _ _ ∙ if_false b _ _ ∙ if_false c _ _ ∙ run,
                      extend-IsReceived s s' p buffer all buff_size r e received,
                    )
              ]
        ]
      ]
    where
      full : (m n : ℕ) → (m == n) ≡ true → m ≡ n
      full m n h = (==_iff m n).0 h

      shorter :
          length (drop (execute p all).0 all) ≡ length all - (execute p all).0
          → (length (drop (execute p all).0 all) == buff_size) ≡ false
          → length (drop (execute p all).0 all) < buff_size
      shorter h k = ground arith

  -- A turn of the loop, for an answer of the stream.
  head_turn :
      (fuel buff_size : ℕ) (s : State) (p : Parser) (buffer : List ℕ)
      → length (remaining s) < suc fuel
      → length buffer < buff_size
      → ((p' : Parser) (rest : List ℕ)
          → length rest < buff_size
          → length (remaining (read s (buff_size - length buffer)).1) < fuel
          → (r : Head State Parser) × (recv_head read close execute has_error is_finished fuel
                buff_size
                (read s (buff_size - length buffer)).1
                p'
                rest
              ≡ some r)
            × IsReceived (read s (buff_size - length buffer)).1 p' rest buff_size r)
      → (reply : Reply) → (read s (buff_size - length buffer)).0 ≡ reply
      → IsPart
          (remaining s)
          (buff_size - length buffer)
          (remaining (read s (buff_size - length buffer)).1)
          reply
      → (r : Head State Parser) × (recv_head read close execute has_error is_finished
            (suc fuel)
            buff_size
            s
            p
            buffer
          ≡ some r)
        × IsReceived s p buffer buff_size r
  unfolding recv_head
  head_turn fuel buff_size s p buffer h k ih (Reply.got d) e part =
      let s' = (read s (buff_size - length buffer)).1 in
      let all = buffer ++ d in
      let p' = (execute p all).1 in
      let less : length (remaining s) ≡ length d + length (remaining s') =
        ap length part.2 ∙ length-append d (remaining s') in
      let (r, run, received) =
        parse-IsReceived fuel buff_size s s' p buffer all
          (omega (arith, length-append buffer d, part.1, k))
          (ap (λ l. buffer ++ l) part.2 ∙ sym (append_assoc buffer d (remaining s')))
          (λ rest below. ih p' rest below (omega (arith, less, part.0, h))) in
      (r, rw (recv_head, e) run, received)
  head_turn fuel buff_size s p buffer h k ih (Reply.stop n) e part = (
    Head.closed (close (read s (buff_size - length buffer)).1),
    rw (recv_head, e) refl,
    inl (s, buff_size - length buffer, n, e, refl),
  )

  pub recv_head_loop :
      (fuel buff_size : ℕ) (s : State) (p : Parser) (buffer : List ℕ)
      → length (remaining s) < fuel
      → length buffer < buff_size
      → (r : Head State Parser) × (recv_head read close execute has_error is_finished fuel buff_size
            s p buffer
          ≡ some r)
        × IsReceived s p buffer buff_size r
  recv_head_loop zero buff_size s p buffer h k = absurd (omega arith)
  recv_head_loop (suc fuel) buff_size s p buffer h k =
      head_turn fuel buff_size s p buffer h k
        (λ p' rest below less.
          recv_head_loop fuel buff_size (read s (buff_size - length buffer)).1 p' rest less below)
        (read s (buff_size - length buffer)).0 refl
        (src.part s (buff_size - length buffer) (omega (arith, k)))

  -- For a stream that gives its bytes in order and a parser of any kind, the loop over the head ends
  -- with more fuel than the stream has bytes, and a buffer that is not empty. It closes the stream
  -- only behind a read that gave nothing, an error of the parser or a full buffer. Where it does not, the parser is finished without an error, by calls of `execute` on what the stream gave,
  -- each behind what the ones before took; what they left stands in the buffer and the stream.
  pub recv_head-IsReceived :
      (fuel buff_size : ℕ) (s : State) (p : Parser)
      → length (remaining s) < fuel
      → 0 < buff_size
      → (r : Head State Parser) × (recv_head read close execute has_error is_finished fuel buff_size
            s p []
          ≡ some r)
        × IsReceived s p [] buff_size r
  recv_head-IsReceived fuel buff_size s p h k = recv_head_loop fuel buff_size s p [] h k
