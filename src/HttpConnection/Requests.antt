-- ===== src/HttpConnection/Requests.antt =====
-- The requests that `HttpConnection` and `HttpConnectionPool` of src/http/http_connection.cpp make, and
-- what becomes of them. A Uri is what its getters give.
use net_ninja.Common.{
  ℕ, ◌^◌, Bool, true, false, not, ◌&&◌, List, [], ◌∷◌, ◌++◌, Option, none, some, if◌then◌else◌, ltb,
  ◌==◌,
}
use net_ninja.Http.{Text, codes, c_str}
use net_ninja.Http.Methods.{HttpMethod}
use net_ninja.Http.Headers.{Sign, is_same}
use net_ninja.Http.Messages.{
  HttpRequest, new_request, set_header, is_connection, is_empty, dump_request,
}
use net_ninja.Stream.{Count, Answer, write_fix_size}
use net_ninja.HttpConnection.{Response}

pub record Uri : Type 0 where
  pub path : Text
  pub query : Text
  pub fragment : Text
  pub host : Text

module _ (strcasecmp : Text → Text → Sign) where
  unfoldable pub is_host : Text → Bool
  is_host k = is_same (strcasecmp (c_str k) (codes "host"))

  unfoldable pub is_keep_alive : Text → Bool
  is_keep_alive v = is_same (strcasecmp (c_str v) (codes "keep-alive"))

  -- The body of the loop over the headers; the Boolean is `has_host`.
  unfoldable pub add_header : Text → Text → HttpRequest × Bool → HttpRequest × Bool
  add_header k v (req, has_host) =
      if is_connection strcasecmp k
      then if is_keep_alive v then (record req { close = false }, has_host) else (req, has_host)
      else (
        set_header strcasecmp req k v,
        if not has_host && is_host k then not (is_empty v) else has_host,
      )

  unfoldable pub add_headers : List (Text × Text) → HttpRequest × Bool → HttpRequest × Bool
  add_headers [] s = s
  add_headers ((k, v) ∷ l) s = add_headers l (add_header k v s)

  abbrev pub with_host : Text → HttpRequest × Bool → HttpRequest
  with_host host (req, has_host) =
      if has_host then req else set_header strcasecmp req (codes "Host") host

  -- `HttpConnection::DoRequest`, up to the call with the request.
  unfoldable pub request_of : HttpMethod → Uri → List (Text × Text) → Text → HttpRequest
  request_of method uri headers body =
      let req = record (new_request 0x11 true) {
        path = uri.path;
        query = uri.query;
        fragment = uri.fragment;
        method = method;
      } in
      record (with_host uri.host (add_headers headers (req, false))) { body = body }

  -- `HttpConnectionPool::doRequest` of a url, up to the call with the request.
  unfoldable pub pool_request_of :
      HttpMethod → Text → Text → Text → List (Text × Text) → Text → HttpRequest
  pool_request_of method url vhost host headers body =
      let req = record (new_request 0x11 true) { path = url; method = method; close = false } in
      record (with_host (if is_empty vhost then host else vhost)
        (add_headers headers (req, false))) { body = body }

-- `HttpConnectionPool::doRequest` of a Uri: the url that it passes on.
unfoldable pub url_of : Uri → Text
url_of uri =
    uri.path
    ++ (if is_empty uri.query then [] else codes "?")
    ++ uri.query
    ++ (if is_empty uri.fragment then [] else codes "#")
    ++ uri.fragment

pub data Error : Type 0 where
  invalid_url : Error
  invalid_host : Error
  connect_fail : Error
  send_close_by_peer : Error
  send_socket_error : Error
  timeout : Error
  create_socket_error : Error
  pool_get_connection : Error
  pool_invalid_connection : Error

-- An error, the response of recvResponse, which goes with OK, or the exception that it throws.
pub data HttpResult (State Parser : Type 0) : Type 0 where
  error : Error → HttpResult State Parser
  replied : Parser → Option (List ℕ) → State → HttpResult State Parser
  raised : HttpResult State Parser

-- `rt == 0`, and `rt < 0`, of the int that writeFixSize returns.
abbrev pub is_closed : Answer → Bool
is_closed (Answer.full n) = n == 0
is_closed (Answer.stopped k) = k == 0

abbrev pub is_negative : Answer → Bool
is_negative (Answer.full n) = not (ltb n (2 ^ 31))
is_negative (Answer.stopped k) = not (k == 0)

module _ {State : Type 0} (write : State → List ℕ → Count × State) (strcasecmp : Text → Text → Sign)
    (decimal : ℕ → Text) where
  unfoldable pub send_request : State → HttpRequest → Option (Answer × State)
  send_request s req = write_fix_size write s (dump_request strcasecmp decimal req)

  -- From sendRequest to the end of `DoRequest`. `recv` is recvResponse.
  unfoldable pub exchange :
      {Parser : Type 0}
      → (State → Option (Response State Parser))
      → State
      → HttpRequest
      → Option (HttpResult State Parser)
  exchange {Parser} recv s req = elim (send_request s req) [
    | none ↦ none
    | some r ↦
        let received : Option (HttpResult State Parser) = elim (recv r.1) [
          | none ↦ none
          | some q ↦ some (elim q [
            | Response.failed s' ↦ HttpResult.error Error.timeout
            | Response.thrown ↦ HttpResult.raised
            | Response.response p body s' ↦ HttpResult.replied p body s'
          ])
        ] in
        if is_closed r.0
        then some (HttpResult.error Error.send_close_by_peer)
        else if is_negative r.0
        then some (HttpResult.error Error.send_socket_error)
        else received
  ]

  -- `HttpConnection::DoRequest` of a url: what it is parsed to, whether it has an address, whether a
  -- socket is made for it, and the stream that it is connected to are given.
  unfoldable pub do_request :
      {Parser : Type 0}
      → (State → Option (Response State Parser))
      → Option Uri
      → Bool
      → Bool
      → Option State
      → HttpMethod
      → List (Text × Text)
      → Text
      → Option (HttpResult State Parser)
  do_request recv none address socket connected method headers body =
      some (HttpResult.error Error.invalid_url)
  do_request recv (some uri) false socket connected method headers body =
      some (HttpResult.error Error.invalid_host)
  do_request recv (some uri) true false connected method headers body =
      some (HttpResult.error Error.create_socket_error)
  do_request recv (some uri) true true none method headers body =
      some (HttpResult.error Error.connect_fail)
  do_request recv (some uri) true true (some s) method headers body =
      exchange recv s (request_of strcasecmp method uri headers body)

  -- `HttpConnectionPool::doRequest` of a request: the stream of the connection that the pool gives,
  -- none without a connection, none in it without a socket.
  unfoldable pub do_pool_request :
      {Parser : Type 0}
      → (State → Option (Response State Parser))
      → Option (Option State)
      → HttpRequest
      → Option (HttpResult State Parser)
  do_pool_request recv none req = some (HttpResult.error Error.pool_get_connection)
  do_pool_request recv (some none) req = some (HttpResult.error Error.pool_invalid_connection)
  do_pool_request recv (some (some s)) req = exchange recv s req
