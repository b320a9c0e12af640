-- ===== src/HttpConnection/Parts.antt =====
-- What a turn over the chunks of a response takes in src/http/http_connection.cpp.
use net_ninja.Common.{
  ℕ, ◌-◌, ◌^◌, ◌<◌, ◌≤◌, ◌≡◌, refl, ap, ◌∙◌, Bool, true, false, List, [], ◌∷◌, ◌++◌, some, arith,
  ◌==◌, length, append_assoc, if_false,
}
use net_ninja.Stream.{Reply}
use net_ninja.Stream.Whole.{IsSource}
use net_ninja.HttpSession.{Head}
use net_ninja.HttpSession.Parsed.{IsParsed, IsReceived, parse-IsReceived, recv_head_loop}
use net_ninja.HttpConnection.{Response, set_body, recv_chunk_head}

module _ {State Parser : Type 0} (read : State → ℕ → Reply × State) (close : State → State)
    (execute : Bool → Parser → List ℕ → ℕ × Parser) (has_error is_finished : Parser → Bool)
    (remaining : State → List ℕ) (src : IsSource read remaining) where
  pub recv_chunk_head-IsReceived :
      (fuel buff_size : ℕ) (s : State) (p : Parser) (buffer : List ℕ)
      → length (remaining s) < fuel
      → length buffer < buff_size
      → (r : Head State Parser) × (recv_chunk_head read close execute has_error is_finished fuel
            buff_size s p buffer
          ≡ some r)
        × IsReceived read close
            (execute true)
            has_error
            is_finished
            remaining
            src
            s
            p
            buffer
            buff_size
            r
  unfolding recv_chunk_head
  recv_chunk_head-IsReceived fuel buff_size s p [] h k =
      recv_head_loop read close (execute true) has_error is_finished remaining src fuel buff_size s
        p [] h k
  recv_chunk_head-IsReceived fuel buff_size s p (x ∷ buffer) h k =
      let p' = (execute true p (x ∷ buffer)).1 in
      let (r, run, received) =
        parse-IsReceived read close (execute true) has_error is_finished remaining src fuel
          buff_size s s p (x ∷ buffer) (x ∷ buffer) (omega (arith, k)) refl
          (λ rest below.
            recv_head_loop read close (execute true) has_error is_finished remaining src fuel
              buff_size s p' rest h below) in
      let full : (length (x ∷ buffer) == 0) ≡ false = ground arith in
      (r, if_false full _ _ ∙ run, received)

-- Chunks, from a parser and the bytes that come next on: a head that calls of `execute` take, after
-- which the parser is finished without an error, a content of the length that it gives, and two bytes,
-- and the next chunk behind them. The parser says of the last chunk alone that it is the last. With
-- what the chunks hold, the parser behind the last and the bytes that are left.
pub data IsChunks {Parser : Type 0} (execute : Bool → Parser → List ℕ → ℕ × Parser)
    (has_error is_finished : Parser → Bool) (content_len : Parser → ℕ) (chunks_done : Parser → Bool)
    : Parser → List ℕ → List ℕ → Parser → List ℕ → Type 0 where
  last :
      (p q : Parser) (input content tail left : List ℕ)
      → IsParsed (execute true) p input q (content ++ (tail ++ left))
      → has_error q ≡ false
      → is_finished q ≡ true
      → length content ≡ content_len q
      → length tail ≡ 2
      → chunks_done q ≡ true
      → IsChunks execute has_error is_finished content_len chunks_done p input content q left
  more :
      (p q r : Parser) (input content tail middle body left : List ℕ)
      → IsParsed (execute true) p input q (content ++ (tail ++ middle))
      → has_error q ≡ false
      → is_finished q ≡ true
      → length content ≡ content_len q
      → length tail ≡ 2
      → chunks_done q ≡ false
      → IsChunks execute has_error is_finished content_len chunks_done q middle body r left
      → IsChunks execute has_error is_finished content_len chunks_done p input
          (content ++ body)
          r
          left

module _ {State Parser : Type 0} (read : State → ℕ → Reply × State) (close : State → State)
    (execute : Bool → Parser → List ℕ → ℕ × Parser) (has_error is_finished : Parser → Bool)
    (content_len : Parser → ℕ) (chunks_done : Parser → Bool) (remaining : State → List ℕ)
    (src : IsSource read remaining) where
  -- A response holds what the chunks hold, behind the body that it is appended to, and what they leave
  -- stands in the buffer and the stream.
  abbrev pub IsChunked : State → Parser → List ℕ → List ℕ → Response State Parser → Type 0
  IsChunked s p buffer before (Response.failed s') = Unit {0}
  IsChunked s p buffer before Response.thrown = (q : Parser) × (2 ^ 31 - 2 ≤ content_len q)
  IsChunked s p buffer before (Response.response q body s') =
      (held : List ℕ) × (extra : List ℕ) × IsChunks execute has_error is_finished content_len
        chunks_done p (buffer ++ remaining s) held q (extra ++ remaining s')
      × (body ≡ set_body (before ++ held))

  pub more-IsChunked :
      (s s'' : State) (p p' : Parser) (buffer before content tail buffer' : List ℕ)
      (q : Response State Parser)
      → has_error p' ≡ false
      → is_finished p' ≡ true
      → length content ≡ content_len p'
      → length tail ≡ 2
      → chunks_done p' ≡ false
      → IsParsed
          (execute true)
          p
          (buffer ++ remaining s)
          p'
          (content ++ (tail ++ (buffer' ++ remaining s'')))
      → IsChunked s'' p' buffer' (before ++ content) q
      → IsChunked s p buffer before q
  more-IsChunked s s'' p p' buffer before content tail buffer' (Response.failed t) a b c d f e h =
      tt
  more-IsChunked s s'' p p' buffer before content tail buffer' Response.thrown a b c d f e h = h
  more-IsChunked s s'' p p' buffer before content tail buffer' (Response.response r body t) a b c d
        f e (held, extra, chunks, same) =
      (
        content ++ held,
        extra,
        IsChunks.more p p' r (buffer ++ remaining s) content tail (buffer' ++ remaining s'') held
            (extra ++ remaining t) e a b c d f chunks,
        same ∙ ap set_body (append_assoc before content held),
      )
