-- ===== src/HttpConnection/Received.antt =====
-- `HttpConnection::recvResponse` of src/http/http_connection.cpp.
use net_ninja.Common.{ℕ, ◌-◌, ◌^◌, ◌≤◌, ◌≡◌, ◌⊎◌, Bool, true, false, List, ◌++◌}
use net_ninja.Stream.{Reply}
use net_ninja.Stream.Whole.{IsSource}
use net_ninja.HttpSession.{Request}
use net_ninja.HttpSession.Parsed.{IsParsed}
use net_ninja.HttpSession.Body.{IsRequest}
use net_ninja.HttpConnection.{Response, set_body}
use net_ninja.HttpConnection.Parts.{IsChunks}

module _ {State Parser : Type 0} (read : State → ℕ → Reply × State) (close : State → State)
    (execute : Bool → Parser → List ℕ → ℕ × Parser) (has_error is_finished : Parser → Bool)
    (content_len : Parser → ℕ) (chunks_done chunked : Parser → Bool) (content_length : Parser → ℕ)
    (remaining : State → List ℕ) (src : IsSource read remaining) where
  -- The body is that of the chunks behind the head, or the one that the head gives the length of.
  abbrev pub IsResponse : State → Parser → Response State Parser → Type 0
  IsResponse s start (Response.failed s') = Unit {0}
  IsResponse s start Response.thrown = (p : Parser) × (2 ^ 31 - 2 ≤ content_len p)
  IsResponse s start (Response.response q body s') =
      ((p : Parser) × (middle : List ℕ) × (held : List ℕ) × (extra : List ℕ) × IsParsed
          (execute false) start (remaining s) p middle
        × (chunked p ≡ true)
        × IsChunks execute has_error is_finished content_len chunks_done p middle held q
            (extra ++ remaining s')
        × (body ≡ set_body held))
      ⊎ IsRequest read close remaining src (execute false) has_error is_finished content_length s
          start (Request.request q body s')

  abbrev answer : Request State Parser → Response State Parser
  answer (Request.failed s') = Response.failed s'
  answer (Request.request p body s') = Response.response p body s'
