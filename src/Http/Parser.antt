-- ===== src/Http/Parser.antt =====
-- The callbacks of src/http/http_parser.cpp, which the generated parsers call with the place of a token
-- in the buffer, as the bytes from there on, and its length. `atoi` is a parameter.
use net_ninja.Common.{ℕ, zero, suc, Bool, true, false, ◌&&◌, [], ◌∷◌, ◌==◌, if◌then◌else◌, take}
use net_ninja.Http.{Text, codes}
use net_ninja.Http.Methods.{HttpMethod, chars_to_http_method}
use net_ninja.Http.Headers.{Sign}
use net_ninja.Http.Messages.{
  HttpRequest, HttpResponse, new_request, new_response, set_header, set_response_header,
}

pub record HttpRequestParser : Type 0 where
  pub data_request : HttpRequest
  pub error : ℕ

pub record HttpResponseParser : Type 0 where
  pub data_response : HttpResponse
  pub error : ℕ

-- The constructors, without the generated parser.
unfoldable pub new_request_parser : HttpRequestParser
new_request_parser = record { data_request = new_request 0x11 true; error = 0 }

unfoldable pub new_response_parser : HttpResponseParser
new_response_parser = record { data_response = new_response 0x11 true; error = 0 }

-- `strncmp(s, t, n) == 0`, for texts without a zero byte.
unfoldable pub same_start : ℕ → Text → Text → Bool
same_start zero s t = true
same_start (suc n) [] [] = true
same_start (suc n) [] (y ∷ t) = false
same_start (suc n) (x ∷ s) [] = false
same_start (suc n) (x ∷ s) (y ∷ t) = x == y && same_start n s t

abbrev pub is_invalid : HttpMethod → Bool
is_invalid HttpMethod.invalid_method = true
is_invalid other = false

unfoldable pub on_request_method : HttpRequestParser → Text → ℕ → HttpRequestParser
on_request_method p at length =
    let m = chars_to_http_method at in
    if is_invalid m
    then record p { error = 1000 }
    else record p { data_request = record p.data_request { method = m } }

unfoldable pub on_request_fragment : HttpRequestParser → Text → ℕ → HttpRequestParser
on_request_fragment p at length = record p {
  data_request = record p.data_request { fragment = take length at };
}

unfoldable pub on_request_path : HttpRequestParser → Text → ℕ → HttpRequestParser
on_request_path p at length = record p {
  data_request = record p.data_request { path = take length at };
}

unfoldable pub on_request_query : HttpRequestParser → Text → ℕ → HttpRequestParser
on_request_query p at length = record p {
  data_request = record p.data_request { query = take length at };
}

unfoldable pub on_request_version : HttpRequestParser → Text → ℕ → HttpRequestParser
on_request_version p at length =
    if same_start length at (codes "HTTP/1.1")
    then record p { data_request = record p.data_request { version = 0x11 } }
    else if same_start length at (codes "HTTP/1.0")
    then record p { data_request = record p.data_request { version = 0x10 } }
    else record p { error = 1001 }

unfoldable pub on_response_reason : HttpResponseParser → Text → ℕ → HttpResponseParser
on_response_reason p at length = record p {
  data_response = record p.data_response { reason = take length at };
}

unfoldable pub on_response_status : (Text → ℕ) → HttpResponseParser → Text → ℕ → HttpResponseParser
on_response_status atoi p at length = record p {
  data_response = record p.data_response { status = atoi at };
}

unfoldable pub on_response_version : HttpResponseParser → Text → ℕ → HttpResponseParser
on_response_version p at length =
    if same_start length at (codes "HTTP/1.1")
    then record p { data_response = record p.data_response { version = 0x11 } }
    else if same_start length at (codes "HTTP/1.0")
    then record p { data_response = record p.data_response { version = 0x10 } }
    else record p { error = 1001 }

module _ (strcasecmp : Text → Text → Sign) where
  unfoldable pub on_request_http_field : HttpRequestParser → Text → ℕ → Text → ℕ → HttpRequestParser
  on_request_http_field p field flen value vlen = if flen == 0 then p else record p {
    data_request = set_header strcasecmp p.data_request (take flen field) (take vlen value);
  }

  unfoldable pub on_response_http_field :
      HttpResponseParser → Text → ℕ → Text → ℕ → HttpResponseParser
  on_response_http_field p field flen value vlen = if flen == 0 then p else record p {
    data_response =
        set_response_header strcasecmp p.data_response (take flen field) (take vlen value);
  }
