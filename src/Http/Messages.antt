-- ===== src/Http/Messages.antt =====
-- `HttpRequest` and `HttpResponse` of src/http/http.h and src/http/http.cpp. The printing of an
-- unsigned number by a stream is the parameter `decimal`.
use net_ninja.Common.{
  ℕ, ◌/◌, ◌%◌, Bool, true, false, not, ◌&&◌, List, [], ◌∷◌, ◌++◌, if◌then◌else◌, length,
}
use net_ninja.Http.{Text, codes, c_str}
use net_ninja.Http.Methods.{HttpMethod, http_method_to_string}
use net_ninja.Http.Statuses.{HttpStatus, ok_status, http_status_to_string}
use net_ninja.Http.Headers.{Sign, is_same, MapType, assign, erase, get, has}

pub record HttpRequest : Type 0 where
  pub method : HttpMethod
  pub version : ℕ
  pub close : Bool
  pub websocket : Bool
  pub parser_param_flag : ℕ
  pub path : Text
  pub query : Text
  pub fragment : Text
  pub body : Text
  pub headers : MapType
  pub params : MapType
  pub cookies : MapType

pub record HttpResponse : Type 0 where
  pub version : ℕ
  pub close : Bool
  pub websocket : Bool
  pub status : HttpStatus
  pub reason : Text
  pub headers : MapType
  pub body : Text
  pub cookies : List Text

-- `HttpRequest(version, close)`.
unfoldable pub new_request : ℕ → Bool → HttpRequest
new_request version close = record {
  method = HttpMethod.get;
  version = version;
  close = close;
  websocket = false;
  parser_param_flag = 0;
  path = codes "/";
  query = [];
  fragment = [];
  body = [];
  headers = [];
  params = [];
  cookies = [];
}

-- `HttpResponse(version, close)`.
unfoldable pub new_response : ℕ → Bool → HttpResponse
new_response version close = record {
  version = version;
  close = close;
  websocket = false;
  status = ok_status;
  reason = [];
  headers = [];
  body = [];
  cookies = [];
}

unfoldable pub create_response : HttpRequest → HttpResponse
create_response r = new_response r.version r.close

abbrev pub is_empty : Text → Bool
is_empty [] = true
is_empty (x ∷ s) = false

unfoldable pub crlf : Text
crlf = 13 ∷ 10 ∷ []

-- The body with its length, or the end of the head.
unfoldable pub dump_body : (ℕ → Text) → Text → Text
dump_body decimal body =
    if is_empty body
    then crlf
    else codes "content-length: " ++ decimal (length body) ++ crlf ++ crlf ++ body

unfoldable pub dump_connection : Bool → Text
dump_connection close =
    codes "connection: " ++ (if close then codes "close" else codes "keep-alive") ++ crlf

-- `<< (m_version>>4) << "." << (m_version&0x0f)`
unfoldable pub dump_version : (ℕ → Text) → ℕ → Text
dump_version decimal version = decimal (version / 16) ++ codes "." ++ decimal (version % 16)

-- `m_cookies` of a response.
unfoldable pub dump_cookies : List Text → Text
dump_cookies [] = []
dump_cookies (c ∷ l) = codes "Set-Cookie: " ++ c ++ crlf ++ dump_cookies l

module _ (strcasecmp : Text → Text → Sign) where
  unfoldable pub set_header : HttpRequest → Text → Text → HttpRequest
  set_header r k v = record r { headers = assign strcasecmp k v r.headers }

  unfoldable pub set_param : HttpRequest → Text → Text → HttpRequest
  set_param r k v = record r { params = assign strcasecmp k v r.params }

  unfoldable pub set_cookie : HttpRequest → Text → Text → HttpRequest
  set_cookie r k v = record r { cookies = assign strcasecmp k v r.cookies }

  unfoldable pub del_header : HttpRequest → Text → HttpRequest
  del_header r k = record r { headers = erase strcasecmp k r.headers }

  unfoldable pub del_param : HttpRequest → Text → HttpRequest
  del_param r k = record r { params = erase strcasecmp k r.params }

  unfoldable pub del_cookie : HttpRequest → Text → HttpRequest
  del_cookie r k = record r { cookies = erase strcasecmp k r.cookies }

  unfoldable pub get_header : HttpRequest → Text → Text → Text
  get_header r k def = get strcasecmp r.headers k def

  unfoldable pub get_param : HttpRequest → Text → Text → Text
  get_param r k def = get strcasecmp r.params k def

  unfoldable pub get_cookie : HttpRequest → Text → Text → Text
  get_cookie r k def = get strcasecmp r.cookies k def

  unfoldable pub has_header : HttpRequest → Text → Text → Bool × Text
  has_header r k val = has strcasecmp r.headers k val

  unfoldable pub has_param : HttpRequest → Text → Text → Bool × Text
  has_param r k val = has strcasecmp r.params k val

  unfoldable pub has_cookie : HttpRequest → Text → Text → Bool × Text
  has_cookie r k val = has strcasecmp r.cookies k val

  unfoldable pub get_response_header : HttpResponse → Text → Text → Text
  get_response_header r k def = get strcasecmp r.headers k def

  unfoldable pub set_response_header : HttpResponse → Text → Text → HttpResponse
  set_response_header r k v = record r { headers = assign strcasecmp k v r.headers }

  unfoldable pub del_response_header : HttpResponse → Text → HttpResponse
  del_response_header r k = record r { headers = erase strcasecmp k r.headers }

  unfoldable pub is_connection : Text → Bool
  is_connection k = is_same (strcasecmp (c_str k) (codes "connection"))

  -- The loop over the headers; `skip` says whether the one of the connection is left out.
  unfoldable pub dump_headers : Bool → MapType → Text
  dump_headers skip [] = []
  dump_headers skip (e ∷ m) =
      let rest = dump_headers skip m in
      if skip && is_connection e.0 then rest else e.0 ++ codes ": " ++ e.1 ++ crlf ++ rest

  module _ (decimal : ℕ → Text) where
    unfoldable pub dump_request : HttpRequest → Text
    dump_request r =
        http_method_to_string r.method
        ++ codes " "
        ++ r.path
        ++ (if is_empty r.query then [] else codes "?")
        ++ r.query
        ++ (if is_empty r.fragment then [] else codes "#")
        ++ r.fragment
        ++ codes " HTTP/"
        ++ dump_version decimal r.version
        ++ crlf
        ++ dump_connection r.close
        ++ dump_headers true r.headers
        ++ dump_body decimal r.body

    unfoldable pub dump_response : HttpResponse → Text
    dump_response r =
        codes "HTTP/"
        ++ dump_version decimal r.version
        ++ codes " "
        ++ decimal r.status
        ++ codes " "
        ++ (if is_empty r.reason then http_status_to_string r.status else r.reason)
        ++ crlf
        ++ dump_headers (not r.websocket) r.headers
        ++ dump_cookies r.cookies
        ++ (if r.websocket then [] else dump_connection r.close)
        ++ dump_body decimal r.body
