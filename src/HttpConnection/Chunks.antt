-- ===== src/HttpConnection/Chunks.antt =====
-- The chunks of a response in src/http/http_connection.cpp.
use net_ninja.Common.{
  ℕ, zero, suc, ◌<◌, ◌≤◌, ◌≡◌, ap, ◌∙◌, inl, inr, Bool, true, false, List, ◌++◌, some, arith,
  length, length-append, Bool-cases, if_true, if_false, some_is,
}
use mathlib.Core.Path.{subst}
use net_ninja.Stream.{Reply}
use net_ninja.Stream.Whole.{IsSource}
use net_ninja.HttpSession.{Head}
use net_ninja.HttpSession.Parsed.{IsParsed, length-IsParsed, IsReceived}
use net_ninja.HttpConnection.{Response, Taken, set_body, take_chunk, recv_chunk_head, recv_chunks}
use net_ninja.HttpConnection.Chunk.{IsTaken, take_chunk-IsTaken}
use net_ninja.HttpConnection.Parts.{IsChunks, IsChunked, recv_chunk_head-IsReceived, more-IsChunked}

-- What a turn leaves is at least two bytes shorter.
turn_shorter :
    (all content tail left : List ℕ)
    → length (content ++ (tail ++ left)) ≤ length all
    → length tail ≡ 2
    → length left < length all
turn_shorter all content tail left e h =
    omega (arith, e, length-append content (tail ++ left), length-append tail left, h)

module _ {State Parser : Type 0} (read : State → ℕ → Reply × State) (close : State → State)
    (execute : Bool → Parser → List ℕ → ℕ × Parser) (has_error is_finished : Parser → Bool)
    (content_len : Parser → ℕ) (chunks_done : Parser → Bool) (remaining : State → List ℕ)
    (src : IsSource read remaining) where
  -- The chunks from some place on.
  abbrev Goes : ℕ → ℕ → ℕ → State → Parser → List ℕ → List ℕ → Type 0
  Goes fuel head_fuel buff_size s p buffer body =
      (q : Response State Parser) × (recv_chunks read close execute has_error is_finished
          content_len chunks_done fuel head_fuel buff_size s p buffer body
        ≡ some q)
      × IsChunked read close execute has_error is_finished content_len chunks_done remaining src s p
          buffer body q

  taken_turn :
      (fuel head_fuel buff_size : ℕ) (s s' : State) (p p' : Parser) (buffer body rest : List ℕ)
      → length (buffer ++ remaining s) < suc fuel
      → length (buffer ++ remaining s) < head_fuel
      → recv_chunk_head read close execute has_error is_finished head_fuel buff_size s p buffer
        ≡ some (Head.parsed p' rest s')
      → has_error p' ≡ false
      → is_finished p' ≡ true
      → IsParsed (execute true) p (buffer ++ remaining s) p' (rest ++ remaining s')
      → ((s'' : State) (buffer' body' : List ℕ)
          → length (buffer' ++ remaining s'') < fuel
          → length (buffer' ++ remaining s'') < head_fuel
          → length buffer' < buff_size
          → Goes fuel head_fuel buff_size s'' p' buffer' body')
      → (t : Taken State) → take_chunk read close buff_size s' (content_len p') rest body ≡ some t
      → IsTaken read remaining src close buff_size s' (content_len p') rest body t
      → Goes (suc fuel) head_fuel buff_size s p buffer body
  unfolding recv_chunks
  taken_turn fuel head_fuel buff_size s s' p p' buffer body rest h hf run a b e ih
        (Taken.closed s'') run' k =
      (Response.failed s'', some_is run _ _ ∙ some_is run' _ _, tt)
  taken_turn fuel head_fuel buff_size s s' p p' buffer body rest h hf run a b e ih Taken.threw run'
        k =
      (Response.thrown, some_is run _ _ ∙ some_is run' _ _, (p', k))
  taken_turn fuel head_fuel buff_size s s' p p' buffer body rest h hf run a b e ih
        (Taken.chunk body' buffer' s'') run' (low, (content, tail, same, c, d, f)) =
      let left = buffer' ++ remaining s'' in
      let g : IsParsed (execute true) p (buffer ++ remaining s) p' (content ++ (tail ++ left)) =
        subst (λ l. IsParsed (execute true) p (buffer ++ remaining s) p' l) f e in
      let less =
        turn_shorter (buffer ++ remaining s) content tail left
          (length-IsParsed (execute true) p p' (buffer ++ remaining s) (content ++ (tail ++ left))
            g)
          d in
      elim (Bool-cases (chunks_done p')) [
        | inl done ↦ (
          Response.response p' (set_body body') s'',
          some_is run _ _ ∙ some_is run' _ _ ∙ if_true done _ _,
          (
            content,
            buffer',
            IsChunks.last p p' (buffer ++ remaining s) content tail left g a b c d done,
            ap set_body same,
          ),
        )
        | inr going ↦
            let (q, run'', chunked) =
              ih s'' buffer' body' (omega (arith, less, h)) (omega (arith, less, hf)) low in
            (
              q,
              some_is run _ _ ∙ some_is run' _ _ ∙ if_false going _ _ ∙ run'',
              more-IsChunked read close execute has_error is_finished content_len chunks_done
                  remaining src s s'' p p' buffer body content tail buffer' q a b c d going g
                  (subst
                    (λ l.
                      IsChunked read close execute has_error is_finished content_len chunks_done
                        remaining src s'' p' buffer' l q)
                    same chunked),
            )
      ]

  chunk_turn :
      (fuel head_fuel buff_size : ℕ) (s : State) (p : Parser) (buffer body : List ℕ)
      → length (buffer ++ remaining s) < suc fuel
      → length (buffer ++ remaining s) < head_fuel
      → ((s'' : State) (p' : Parser) (buffer' body' : List ℕ)
          → length (buffer' ++ remaining s'') < fuel
          → length (buffer' ++ remaining s'') < head_fuel
          → length buffer' < buff_size
          → Goes fuel head_fuel buff_size s'' p' buffer' body')
      → (r : Head State Parser)
      → recv_chunk_head read close execute has_error is_finished head_fuel buff_size s p buffer
        ≡ some r
      → IsReceived read close
          (execute true)
          has_error
          is_finished
          remaining
          src
          s
          p
          buffer
          buff_size
          r
      → Goes (suc fuel) head_fuel buff_size s p buffer body
  unfolding recv_chunks
  chunk_turn fuel head_fuel buff_size s p buffer body h hf ih (Head.closed s') run k =
      (Response.failed s', some_is run _ _, tt)
  chunk_turn fuel head_fuel buff_size s p buffer body h hf ih (Head.parsed p' rest s') run k =
      let (t, run', taken) =
        take_chunk-IsTaken read remaining src close buff_size s' (content_len p') rest body k.2 in
      taken_turn fuel head_fuel buff_size s s' p p' buffer body rest h hf run k.0 k.1 k.3
        (λ s'' buffer' body'. ih s'' p' buffer' body') t run' taken

  -- For a stream that gives its bytes in order and a parser of any kind, the loop over the chunks ends,
  -- with more fuel in both loops than there are bytes in the buffer and in the stream, and a buffer
  -- that is not full. A response that it gives has the contents of the chunks, in their order and
  -- behind the body so far. The chunks begin at what the buffer held, each one follows the one before
  -- without a byte between, and what is behind the last stands in the buffer and the stream; an exception is thrown only where the 32 bits of the length are
  -- 2 ^ 31 - 2 or more.
  pub recv_chunks-IsChunked :
      (fuel head_fuel buff_size : ℕ) (s : State) (p : Parser) (buffer body : List ℕ)
      → length (buffer ++ remaining s) < fuel
      → length (buffer ++ remaining s) < head_fuel
      → length buffer < buff_size
      → (q : Response State Parser) × (recv_chunks read close execute has_error is_finished
            content_len chunks_done fuel head_fuel buff_size s p buffer body
          ≡ some q)
        × IsChunked read close execute has_error is_finished content_len chunks_done remaining src s
            p buffer body q
  recv_chunks-IsChunked zero head_fuel buff_size s p buffer body h hf k = absurd (omega arith)
  recv_chunks-IsChunked (suc fuel) head_fuel buff_size s p buffer body h hf k =
      let (r, run, received) =
        recv_chunk_head-IsReceived read close execute has_error is_finished remaining src head_fuel
          buff_size s p buffer (omega (arith, length-append buffer (remaining s), hf)) k in
      chunk_turn fuel head_fuel buff_size s p buffer body h hf
        (λ s'' p' buffer' body'.
          recv_chunks-IsChunked fuel head_fuel buff_size s'' p' buffer' body')
        r run received
