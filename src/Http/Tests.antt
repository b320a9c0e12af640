-- ===== src/Http/Tests.antt =====
-- The messages of src/http/http.cpp at concrete inputs.
use net_ninja.Common.{ℕ, ◌+◌, ◌≡◌, refl, inl, true, false, [], ◌∷◌, ◌++◌, if◌then◌else◌}
use net_ninja.Http.{Text, codes, c_str}
use net_ninja.Http.Ascii.{compare, compare-IsCompare}
use net_ninja.Http.Methods.{
  HttpMethod, http_method_map, number, string_to_http_method, chars_to_http_method, s_method_string,
  http_method_to_string,
}
use net_ninja.Http.Statuses.{http_status_map, description, http_status_to_string}
use net_ninja.Http.Headers.{case_insensitive_less, assign}
use net_ninja.Http.Messages.{
  HttpRequest, HttpResponse, new_request, new_response, crlf, dump_body, dump_connection,
  dump_version, set_header, set_param, set_cookie, del_header, del_param, del_cookie, get_header,
  get_param, get_cookie, get_response_header, set_response_header, del_response_header,
  is_connection, dump_headers, dump_request,
}
use net_ninja.Http.Names.{http_method-http_method_to_string}
use net_ninja.Http.Lookup.{same_key, get_header-set_header}
use net_ninja.Http.Parser.{is_invalid, new_request_parser}
use net_ninja.Http.Parsed.{on_request_line, on_request_line-dump_version}

abbrev digits : ℕ → Text
digits n = (48 + n) ∷ []

abbrev request : HttpRequest
request = set_header compare (new_request 17 true) (codes "Host") (codes "a")

status_run : http_status_to_string 404 ≡ codes "Not Found"
unfolding http_status_map description http_status_to_string
status_run = refl

unknown_run : http_status_to_string 299 ≡ codes "<unknown>"
unfolding http_status_map description http_status_to_string
unknown_run = refl

connection_run : is_connection compare (codes "Connection") ≡ true
unfolding c_str is_connection
connection_run = refl

websocket_run : (new_response 17 false).websocket ≡ false
unfolding new_response
websocket_run = refl

http_method-http_method_to_string_example :
    (string_to_http_method (http_method_to_string HttpMethod.msearch) ≡ HttpMethod.msearch)
    × (chars_to_http_method (http_method_to_string HttpMethod.msearch ++ codes " /")
        ≡ HttpMethod.msearch)
http_method-http_method_to_string_example =
    http_method-http_method_to_string HttpMethod.msearch (codes " /")

dump_run :
    dump_request compare digits request
    ≡ codes "GET / HTTP/1.1"
      ++ crlf
      ++ codes "connection: close"
      ++ crlf
      ++ codes "Host: a"
      ++ crlf
      ++ crlf
unfolding crlf dump_body dump_connection dump_version set_header is_connection dump_headers
    dump_request new_request assign case_insensitive_less c_str http_method_to_string
    s_method_string http_method_map number
dump_run = refl

abbrev key : Text
key = codes "Host"

abbrev name : Text
name = codes "HOST"

abbrev response : HttpResponse
response = new_response 17 false

get_header-set_header_example :
    (get_header compare (set_header compare request key []) name []
      ≡ (if same_key compare name key then [] else get_header compare request name []))
    × (get_param compare (set_param compare request key []) name []
        ≡ (if same_key compare name key then [] else get_param compare request name []))
    × (get_cookie compare (set_cookie compare request key []) name []
        ≡ (if same_key compare name key then [] else get_cookie compare request name []))
    × (get_header compare (del_header compare request key) name []
        ≡ (if same_key compare name key then [] else get_header compare request name []))
    × (get_param compare (del_param compare request key) name []
        ≡ (if same_key compare name key then [] else get_param compare request name []))
    × (get_cookie compare (del_cookie compare request key) name []
        ≡ (if same_key compare name key then [] else get_cookie compare request name []))
    × (get_response_header compare (set_response_header compare response key []) name []
        ≡ (if same_key compare name key then [] else get_response_header compare response name []))
    × (get_response_header compare (del_response_header compare response key) name []
        ≡ (if same_key compare name key then [] else get_response_header compare response name []))
get_header-set_header_example =
    get_header-set_header compare compare-IsCompare request response key [] name []

known_run : is_invalid request.method ≡ false
unfolding new_request set_header
known_run = refl

version_run : request.version ≡ 0x11
unfolding new_request set_header
version_run = refl

on_request_line-dump_version_example :
    let q = on_request_line digits new_request_parser request (codes " HTTP") in
    (q.error ≡ new_request_parser.error)
    × (q.data_request.method ≡ request.method)
    × (q.data_request.path ≡ request.path)
    × (q.data_request.query ≡ request.query)
    × (q.data_request.fragment ≡ request.fragment)
    × (q.data_request.version ≡ request.version)
on_request_line-dump_version_example =
    on_request_line-dump_version digits new_request_parser request (codes " HTTP") known_run
      (inl version_run) refl refl
