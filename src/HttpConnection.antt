-- ===== src/HttpConnection.antt =====
-- `HttpConnection` of src/http/http_connection.cpp: a request is sent to a server and the response
-- read. As in HttpSession, `read` and `close` of the stream are parameters, and so is the response
-- parser: `execute` with the flag for a chunk, `chunked`, `chunks_done` and the 32 bits of
-- `content_len`. The loops over the head of a chunk and over the chunks have fuel; more than the bytes
-- that are left is enough.
pub mod Chunk
pub mod Parts
pub mod Chunks
pub mod Received
pub mod Requests
pub mod Loop
pub mod Built
pub mod Target
pub mod Answered
mod Tests
use net_ninja.Common.{
  ℕ, zero, suc, ◌+◌, ◌-◌, ◌^◌, Bool, true, false, List, [], ◌∷◌, ◌++◌, Option, none, some, ◌==◌,
  ltb, leb, if◌then◌else◌, length, take, drop,
}
use net_ninja.Stream.{Reply, got, stop}
use net_ninja.HttpSession.{Head, Request, recv_head, recv_body}

-- A null response, a std::length_error or an overflow of `content_len + 2`, or the parser, whose data
-- is the response, with the body that was set.
pub data Response (State Parser : Type 0) : Type 0 where
  failed : State → Response State Parser
  thrown : Response State Parser
  response : Parser → Option (List ℕ) → State → Response State Parser

-- A chunk behind its head: the stream was closed, `append` threw, or the body, the buffer and the
-- stream are those behind the chunk.
pub data Taken (State : Type 0) : Type 0 where
  closed : State → Taken State
  threw : Taken State
  chunk : List ℕ → List ℕ → State → Taken State

-- `if(!body.empty())`.
abbrev pub set_body : List ℕ → Option (List ℕ)
set_body [] = none
set_body (x ∷ body) = some (x ∷ body)

module _ {State : Type 0} (read : State → ℕ → Reply × State) where
  -- `while(left > 0)`, with the bytes that are appended to the body, or none if the stream ends.
  unfoldable pub read_left : ℕ → ℕ → State → ℕ → Option (Option (List ℕ) × State)
  read_left zero buff_size s left = if left == 0 then some (some [], s) else none
  read_left (suc fuel) buff_size s left =
      let size = if ltb buff_size left then buff_size else left in
      let more : Option (Option (List ℕ) × State) = elim (read s size).0 [
        | got d ↦ elim (read_left fuel buff_size (read s size).1 (left - length d)) [
          | none ↦ none
          | some r ↦ some (elim r.0 [ none ↦ none | some out ↦ some (d ++ out) ], r.1)
        ]
        | stop k ↦ some (none, (read s size).1)
      ] in
      if left == 0 then some (some [], s) else more

module _ {State : Type 0} (read : State → ℕ → Reply × State) (close : State → State) where
  -- What follows the loop over the head of a chunk of `size` bytes; the int `size` is its 32 bits.
  unfoldable pub take_chunk : ℕ → State → ℕ → List ℕ → List ℕ → Option (Taken State)
  take_chunk buff_size s size rest body =
      let left = size + 2 - length rest in
      let missing : Option (Taken State) = elim (read_left read left buff_size s left) [
        | none ↦ none
        | some r ↦ some (elim r.0 [
          | none ↦ Taken.closed (close r.1)
          | some out ↦
              let all = body ++ (rest ++ out) in Taken.chunk (take (length all - 2) all) [] r.1
        ])
      ] in
      if leb (2 ^ 31 - 2) size
      then some Taken.threw
      else if leb (size + 2) (length rest)
      then some (Taken.chunk (body ++ take size rest) (drop (size + 2) rest) s)
      else missing

  module _ {Parser : Type 0} (execute : Bool → Parser → List ℕ → ℕ × Parser)
      (has_error is_finished : Parser → Bool) where
    -- The inner `do` loop. What the buffer holds is parsed before the first read; from then on the loop
    -- is the one over the head of a message.
    unfoldable pub recv_chunk_head : ℕ → ℕ → State → Parser → List ℕ → Option (Head State Parser)
    recv_chunk_head fuel buff_size s p buffer =
        let first =
          recv_head read close (execute true) has_error is_finished fuel buff_size s p [] in
        let p' = (execute true p buffer).1 in
        let rest = drop (execute true p buffer).0 buffer in
        let again =
          recv_head read close (execute true) has_error is_finished fuel buff_size s p' rest in
        if length buffer == 0
        then first
        else if has_error p'
        then some (Head.closed (close s))
        else if length rest == buff_size
        then some (Head.closed (close s))
        else if is_finished p'
        then some (Head.parsed p' rest s)
        else again

    module _ (content_len : Parser → ℕ) (chunks_done : Parser → Bool) where
      -- The outer `do` loop.
      unfoldable pub recv_chunks :
          ℕ → ℕ → ℕ → State → Parser → List ℕ → List ℕ → Option (Response State Parser)
      recv_chunks zero head_fuel buff_size s p buffer body = none
      recv_chunks (suc fuel) head_fuel buff_size s p buffer body =
          elim (recv_chunk_head head_fuel buff_size s p buffer) [
            | none ↦ none
            | some h ↦ elim h [
              | Head.closed s' ↦ some (Response.failed s')
              | Head.parsed p' rest s' ↦ elim (take_chunk buff_size s' (content_len p') rest body) [
                | none ↦ none
                | some t ↦ elim t [
                  | Taken.closed s'' ↦ some (Response.failed s'')
                  | threw ↦ some Response.thrown
                  | chunk body' buffer' s'' ↦
                      let more = recv_chunks fuel head_fuel buff_size s'' p' buffer' body' in
                      if chunks_done p'
                      then some (Response.response p' (set_body body') s'')
                      else more
                ]
              ]
            ]
          ]

      unfoldable pub recv_response :
          (Parser → Bool) → (Parser → ℕ) → ℕ → ℕ → State → Parser → Option (Response State Parser)
      recv_response chunked content_length fuel buff_size s p =
          elim (recv_head read close (execute false) has_error is_finished fuel buff_size s p []) [
            | none ↦ none
            | some h ↦ elim h [
              | Head.closed s' ↦ some (Response.failed s')
              | Head.parsed p' rest s' ↦
                  let chunks = recv_chunks fuel fuel buff_size s' p' rest [] in
                  let whole : Option (Response State Parser) =
                    elim (recv_body read close content_length s' p' rest) [
                      | none ↦ none
                      | some q ↦ some (elim q [
                        | Request.failed s'' ↦ Response.failed s''
                        | Request.request p'' body s'' ↦ Response.response p'' body s''
                      ])
                    ] in
                  if chunked p' then chunks else whole
            ]
          ]
