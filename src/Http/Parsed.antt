-- ===== src/Http/Parsed.antt =====
-- The callbacks of src/http/http_parser.cpp at what `dump` of src/http/http.cpp prints.
use net_ninja.Common.{ℕ, ◌≡◌, ◌⊎◌, inl, inr, refl, ap, false, [], ◌∷◌, ◌++◌, length, take}
use net_ninja.Http.{Text, codes}
use net_ninja.Http.Methods.{http_method_to_string}
use net_ninja.Http.Messages.{HttpRequest, dump_version}
use net_ninja.Http.Names.{http_method-http_method_to_string}
use net_ninja.Http.Parser.{
  HttpRequestParser, is_invalid, same_start, on_request_method, on_request_version, on_request_path,
  on_request_query, on_request_fragment,
}

take_front : (s t : Text) → take (length s) (s ++ t) ≡ s
take_front [] t = refl
take_front (x ∷ s) t = ap (λ l. x ∷ l) (take_front s t)

-- The parser after the tokens of a request line, in the order in which the line has them.
abbrev pub on_request_line : (ℕ → Text) → HttpRequestParser → HttpRequest → Text → HttpRequestParser
on_request_line decimal p r rest =
    on_request_version
      (on_request_fragment
        (on_request_query
          (on_request_path
            (on_request_method p (http_method_to_string r.method ++ rest)
              (length (http_method_to_string r.method)))
            (r.path ++ rest) (length r.path))
          (r.query ++ rest) (length r.query))
        (r.fragment ++ rest) (length r.fragment))
      (codes "HTTP/" ++ dump_version decimal r.version ++ rest) 8

-- The callbacks read back what is printed of a request's line, whatever stands behind each token, if
-- the method is a known one, the version is 1.1 or 1.0 and the digits 0 and 1 are printed as such. No
-- error is set.
pub on_request_line-dump_version :
    (decimal : ℕ → Text) (p : HttpRequestParser) (r : HttpRequest) (rest : Text)
    → is_invalid r.method ≡ false
    → (r.version ≡ 0x11) ⊎ (r.version ≡ 0x10)
    → decimal 0 ≡ codes "0"
    → decimal 1 ≡ codes "1"
    → let q = on_request_line decimal p r rest in
      (q.error ≡ p.error)
      × (q.data_request.method ≡ r.method)
      × (q.data_request.path ≡ r.path)
      × (q.data_request.query ≡ r.query)
      × (q.data_request.fragment ≡ r.fragment)
      × (q.data_request.version ≡ r.version)
unfolding on_request_version on_request_fragment on_request_query on_request_path on_request_method
    dump_version same_start
on_request_line-dump_version decimal p r rest known (inl v) zero_text one_text =
    rw (v, one_text, (http_method-http_method_to_string r.method rest).1, known)
      (
        refl,
        refl,
        take_front r.path rest,
        take_front r.query rest,
        take_front r.fragment rest,
        refl,
      )
on_request_line-dump_version decimal p r rest known (inr v) zero_text one_text =
    rw (v, zero_text, one_text, (http_method-http_method_to_string r.method rest).1, known)
      (
        refl,
        refl,
        take_front r.path rest,
        take_front r.query rest,
        take_front r.fragment rest,
        refl,
      )
