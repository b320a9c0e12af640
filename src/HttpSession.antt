-- ===== src/HttpSession.antt =====
-- src/http/http_session.cpp: a request is read from the socket of a session, and a response written.
-- `read` and `close` of the stream are parameters, and so is the parser of src/http/http_parser.cpp
-- over the generated one: `execute` gives how many bytes it took, `content_length` what
-- getContentLength says. What stands in the buffer is the list of its bytes that are not parsed. The
-- loop over the head has fuel, and more than the bytes that the stream still gives is enough.
pub mod Parsed
pub mod Body
pub mod Sent
mod Tests
use net_ninja.Common.{
  ℕ, zero, suc, ◌-◌, ◌^◌, Bool, true, false, ◌&&◌, ◌||◌, List, [], ◌++◌, Option, none, some, ◌==◌,
  ltb, leb, if◌then◌else◌, length, take, drop,
}
use net_ninja.Http.{Text}
use net_ninja.Http.Headers.{Sign}
use net_ninja.Http.Messages.{HttpResponse, dump_response}
use net_ninja.Stream.{Count, write_fix_size, Reply, got, stop, Answer, read_fix_size}

-- What the loop over the head leaves: a closed stream, for a null request, or the parser that is
-- finished, the bytes behind the head and the stream.
pub data Head (State Parser : Type 0) : Type 0 where
  closed : State → Head State Parser
  parsed : Parser → List ℕ → State → Head State Parser

-- A null request, or the parser, whose data is the request, with the body that was set.
pub data Request (State Parser : Type 0) : Type 0 where
  failed : State → Request State Parser
  request : Parser → Option (List ℕ) → State → Request State Parser

-- `readFixSize(...) > 0`.
abbrev pub is_positive : Answer → Bool
is_positive (Answer.full n) = ltb 0 n && ltb n (2 ^ 31)
is_positive (Answer.stopped k) = false

module _ {State Parser : Type 0} (read : State → ℕ → Reply × State) (close : State → State) where
  -- The body of `size` bytes, of which the buffer holds the first.
  unfoldable pub read_body : State → Parser → List ℕ → ℕ → Option (Request State Parser)
  read_body s p rest size =
      let got_all = some (Request.request p (some (take size rest)) s) in
      let missing : Option (Request State Parser) =
        elim (read_fix_size read s (size - length rest)) [
          | none ↦ none
          | some r ↦
              if is_positive r.0
              then some (Request.request p (some (take size rest ++ r.1)) r.2)
              else some (Request.failed (close r.2))
        ] in
      if ltb (length rest) size then missing else got_all

  -- Behind the loop. A length is an int64_t there, and one of 2 ^ 63 and more is below zero.
  unfoldable pub recv_body : (Parser → ℕ) → State → Parser → List ℕ → Option (Request State Parser)
  recv_body content_length s p rest =
      let size = content_length p in
      if ltb 0 size && ltb size (2 ^ 63)
      then read_body s p rest size
      else some (Request.request p none s)

  module _ (execute : Parser → List ℕ → ℕ × Parser) (has_error is_finished : Parser → Bool) where
    -- The `do` loop; `buffer` is what stands in it, of `buff_size` bytes.
    unfoldable pub recv_head : ℕ → ℕ → State → Parser → List ℕ → Option (Head State Parser)
    recv_head zero buff_size s p buffer = none
    recv_head (suc fuel) buff_size s p buffer =
        let s' = (read s (buff_size - length buffer)).1 in
        let parse : List ℕ → Option (Head State Parser) = λ all.
          let p' = (execute p all).1 in
          let rest = drop (execute p all).0 all in
          let again = recv_head fuel buff_size s' p' rest in
          if has_error p'
          then some (Head.closed (close s'))
          else if length rest == buff_size
          then some (Head.closed (close s'))
          else if is_finished p'
          then some (Head.parsed p' rest s')
          else again in
        elim (read s (buff_size - length buffer)).0 [
          | got d ↦ parse (buffer ++ d)
          | stop k ↦ some (Head.closed (close s'))
        ]

    unfoldable pub recv_request :
        (Parser → ℕ) → ℕ → ℕ → State → Parser → Option (Request State Parser)
    recv_request content_length fuel buff_size s p = elim (recv_head fuel buff_size s p []) [
      | none ↦ none
      | some h ↦ elim h [
        | closed s' ↦ some (Request.failed s')
        | parsed p' rest s' ↦ recv_body content_length s' p' rest
      ]
    ]

-- `write` of the stream, strcasecmp and the printing of a number are parameters.
module _ {State : Type 0} (write : State → List ℕ → Count × State) (strcasecmp : Text → Text → Sign)
    (decimal : ℕ → Text) where
  unfoldable pub send_response : State → HttpResponse → Option (Answer × State)
  send_response s rsp = write_fix_size write s (dump_response strcasecmp decimal rsp)
