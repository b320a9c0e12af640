-- ===== src/Http/Methods.antt =====
-- HTTP_METHOD_MAP of src/http/http.h, and the functions over it of src/http/http.cpp.
use net_ninja.Common.{ℕ, Bool, List, [], ◌∷◌, none, some, if◌then◌else◌, get_elem?, map}
use net_ninja.Http.{Text, codes, c_str, same_text, starts_with}

pub data HttpMethod : Type 0 where
  delete get head post put connect options trace copy lock mkcol move propfind proppatch search
        unlock bind rebind unbind acl report mkactivity checkout merge msearch notify subscribe
        unsubscribe patch purge mkcalendar link unlink source invalid_method :
      HttpMethod

-- The lines of the map in order, without their numbers.
unfoldable pub http_method_map : List (HttpMethod × Text)
http_method_map =
    (HttpMethod.delete, codes "DELETE")
    ∷ (HttpMethod.get, codes "GET")
    ∷ (HttpMethod.head, codes "HEAD")
    ∷ (HttpMethod.post, codes "POST")
    ∷ (HttpMethod.put, codes "PUT")
    ∷ (HttpMethod.connect, codes "CONNECT")
    ∷ (HttpMethod.options, codes "OPTIONS")
    ∷ (HttpMethod.trace, codes "TRACE")
    ∷ (HttpMethod.copy, codes "COPY")
    ∷ (HttpMethod.lock, codes "LOCK")
    ∷ (HttpMethod.mkcol, codes "MKCOL")
    ∷ (HttpMethod.move, codes "MOVE")
    ∷ (HttpMethod.propfind, codes "PROPFIND")
    ∷ (HttpMethod.proppatch, codes "PROPPATCH")
    ∷ (HttpMethod.search, codes "SEARCH")
    ∷ (HttpMethod.unlock, codes "UNLOCK")
    ∷ (HttpMethod.bind, codes "BIND")
    ∷ (HttpMethod.rebind, codes "REBIND")
    ∷ (HttpMethod.unbind, codes "UNBIND")
    ∷ (HttpMethod.acl, codes "ACL")
    ∷ (HttpMethod.report, codes "REPORT")
    ∷ (HttpMethod.mkactivity, codes "MKACTIVITY")
    ∷ (HttpMethod.checkout, codes "CHECKOUT")
    ∷ (HttpMethod.merge, codes "MERGE")
    ∷ (HttpMethod.msearch, codes "M-SEARCH")
    ∷ (HttpMethod.notify, codes "NOTIFY")
    ∷ (HttpMethod.subscribe, codes "SUBSCRIBE")
    ∷ (HttpMethod.unsubscribe, codes "UNSUBSCRIBE")
    ∷ (HttpMethod.patch, codes "PATCH")
    ∷ (HttpMethod.purge, codes "PURGE")
    ∷ (HttpMethod.mkcalendar, codes "MKCALENDAR")
    ∷ (HttpMethod.link, codes "LINK")
    ∷ (HttpMethod.unlink, codes "UNLINK")
    ∷ (HttpMethod.source, codes "SOURCE")
    ∷ []

-- The number of an enumerator.
unfoldable pub number : HttpMethod → ℕ
number HttpMethod.delete = 0
number HttpMethod.get = 1
number HttpMethod.head = 2
number HttpMethod.post = 3
number HttpMethod.put = 4
number HttpMethod.connect = 5
number HttpMethod.options = 6
number HttpMethod.trace = 7
number HttpMethod.copy = 8
number HttpMethod.lock = 9
number HttpMethod.mkcol = 10
number HttpMethod.move = 11
number HttpMethod.propfind = 12
number HttpMethod.proppatch = 13
number HttpMethod.search = 14
number HttpMethod.unlock = 15
number HttpMethod.bind = 16
number HttpMethod.rebind = 17
number HttpMethod.unbind = 18
number HttpMethod.acl = 19
number HttpMethod.report = 20
number HttpMethod.mkactivity = 21
number HttpMethod.checkout = 22
number HttpMethod.merge = 23
number HttpMethod.msearch = 24
number HttpMethod.notify = 25
number HttpMethod.subscribe = 26
number HttpMethod.unsubscribe = 27
number HttpMethod.patch = 28
number HttpMethod.purge = 29
number HttpMethod.mkcalendar = 30
number HttpMethod.link = 31
number HttpMethod.unlink = 32
number HttpMethod.source = 33
number HttpMethod.invalid_method = 34

-- The method of the first line of the map whose text passes the test.
unfoldable pub first_method : (Text → Bool) → List (HttpMethod × Text) → HttpMethod
first_method p [] = HttpMethod.invalid_method
first_method p (e ∷ l) = let rest = first_method p l in if p e.1 then e.0 else rest

unfoldable pub string_to_http_method : Text → HttpMethod
string_to_http_method m = first_method (λ s. same_text s (c_str m)) http_method_map

-- `m` runs to the zero byte that ends it.
unfoldable pub chars_to_http_method : Text → HttpMethod
chars_to_http_method m = first_method (λ s. starts_with s m) http_method_map

unfoldable pub s_method_string : List Text
s_method_string = map (λ e. e.1) http_method_map

unfoldable pub http_method_to_string : HttpMethod → Text
http_method_to_string m = elim (get_elem? s_method_string (number m)) [
  | none ↦ codes "<unknown>"
  | some s ↦ s
]
