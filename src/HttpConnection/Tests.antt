-- ===== src/HttpConnection/Tests.antt =====
-- The client of src/http/http_connection.cpp at concrete inputs: a stream that gives a byte at a time, a
-- parser whose head of a chunk is one digit, and a stream that takes a block at once.
use net_ninja.Common.{
  ℕ, ◌+◌, ◌-◌, ◌≡◌, refl, sym, ap, Bool, true, false, not, List, [], ◌∷◌, ◌++◌, Option, some, none,
  arith, length, take_all, ◌==◌,
}
use net_ninja.Http.{Text, codes}
use net_ninja.Http.Methods.{
  HttpMethod, number, http_method_to_string, s_method_string, http_method_map,
}
use net_ninja.Http.Messages.{
  HttpRequest, new_request, get_header, dump_request, dump_version, dump_connection, dump_headers,
  dump_body, crlf,
}
use net_ninja.Http.Ascii.{compare, compare-IsCompare}
use net_ninja.Stream.{Reply, Count, write_fix_size, write_fix_loop}
use net_ninja.Stream.Sent.{IsSink}
use net_ninja.HttpSession.{recv_head}
use net_ninja.HttpConnection.{
  Response, read_left, take_chunk, recv_chunk_head, recv_chunks, recv_response,
}
use net_ninja.HttpConnection.Requests.{
  Uri, HttpResult, send_request, exchange, request_of, pool_request_of, url_of,
}
use net_ninja.HttpConnection.Loop.{is_kept}
use net_ninja.HttpConnection.Built.{header_of, get_header-request_of}
use net_ninja.HttpConnection.Target.{dump_request-pool_request_of}
use net_ninja.HttpConnection.Answered.{exchange-IsSent}

abbrev read_one : List ℕ → ℕ → Reply × List ℕ
read_one [] n = (Reply.stop 0, [])
read_one (x ∷ s) n = (Reply.got (x ∷ []), s)

-- The length of the chunk, and whether its head was taken.
abbrev Parser : Type 0
Parser = ℕ × Bool

abbrev take_digit : Bool → Parser → List ℕ → ℕ × Parser
take_digit chunk p [] = (0, p)
take_digit chunk p (x ∷ s) = (1, (x - 48, true))

abbrev has_error : Parser → Bool
has_error p = false

abbrev is_finished : Parser → Bool
is_finished p = p.1

abbrev content_len : Parser → ℕ
content_len p = p.0

abbrev chunks_done : Parser → Bool
chunks_done p = p.0 == 0

abbrev bytes : List ℕ
bytes = codes "3abc" ++ 13 ∷ 10 ∷ codes "0" ++ 13 ∷ 10 ∷ codes "x"

abbrev received : Option (Response (List ℕ) Parser)
received =
    recv_response read_one (λ s. []) take_digit has_error is_finished content_len chunks_done
      (λ p. true) content_len 14 8 (codes "9" ++ bytes) (0, false)

received_run : received ≡ some (Response.response (0, true) (some (codes "abc")) (codes "x"))
unfolding recv_response recv_chunks recv_chunk_head recv_head take_chunk read_left
received_run = refl

abbrev digits : ℕ → Text
digits n = (48 + n) ∷ []

abbrev uri : Uri
uri = record { path = codes "/a"; query = codes "b=1"; fragment = []; host = codes "h" }

abbrev headers : List (Text × Text)
headers =
    (codes "Connection", codes "Keep-Alive")
    ∷ (codes "accept", codes "text")
    ∷ (codes "host", [])
    ∷ []

get_header-request_of_example :
    (get_header compare (request_of compare HttpMethod.get uri headers []) (codes "HOST") []
      ≡ header_of compare compare-IsCompare headers (codes "h") (codes "HOST") [])
    × ((request_of compare HttpMethod.get uri headers []).close ≡ not (is_kept compare headers))
    × (get_header compare
          (pool_request_of compare HttpMethod.get (codes "/c") [] (codes "i") headers [])
          (codes "HOST")
          []
        ≡ header_of compare compare-IsCompare headers (codes "i") (codes "HOST") [])
    × ((pool_request_of compare HttpMethod.get (codes "/c") [] (codes "i") headers []).close
        ≡ false)
get_header-request_of_example =
    get_header-request_of compare compare-IsCompare HttpMethod.get uri (codes "/c") [] (codes "i")
      headers [] (codes "HOST") []

dump_request-pool_request_of_example :
    dump_request compare digits
      (pool_request_of compare HttpMethod.get (url_of uri) [] (codes "i") headers [])
    ≡ dump_request compare digits
        (record (request_of compare HttpMethod.get (record uri { host = codes "i" }) headers []) {
          close = false;
        })
dump_request-pool_request_of_example =
    dump_request-pool_request_of compare digits HttpMethod.get uri [] (codes "i") headers []

abbrev write_all : List ℕ → List ℕ → Count × List ℕ
write_all s block = (Count.sent (length block), s ++ block)

write_all-IsSink : IsSink write_all (λ s. s)
write_all-IsSink = record {
  taken = λ s block h.
      (h, omega arith, ap (λ l. s ++ l) (sym (take_all (length block) block (omega arith))));
}

abbrev answer : List ℕ → Option (Response (List ℕ) ℕ)
answer s = some (Response.response 200 none s)

abbrev plain : HttpRequest
plain = new_request 0x11 true

exchanged_run :
    exchange write_all compare digits answer [] plain
    ≡ some (HttpResult.replied 200 none (dump_request compare digits plain))
unfolding exchange send_request write_fix_size write_fix_loop dump_request new_request
    http_method_to_string s_method_string http_method_map dump_version dump_connection dump_headers
    dump_body crlf number
exchanged_run = refl

exchange-IsSent_example :
    (s' : List ℕ) × (s' ≡ [] ++ dump_request compare digits plain)
    × (answer s' ≡ some (Response.response 200 none (dump_request compare digits plain)))
exchange-IsSent_example =
    exchange-IsSent write_all compare digits answer (λ s. s) write_all-IsSink [] plain 200 none
      (dump_request compare digits plain) exchanged_run
