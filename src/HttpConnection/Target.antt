-- ===== src/HttpConnection/Target.antt =====
-- The url that a connection pool of src/http/http_connection.cpp makes of a Uri.
use net_ninja.Common.{
  ℕ, ◌≡◌, refl, sym, ap, ◌∙◌, inl, inr, Bool, true, false, not, ◌&&◌, List, [], ◌∷◌, append_assoc,
  if◌then◌else◌, Bool-cases, append-nil,
}
use net_ninja.Http.{Text, codes}
use net_ninja.Http.Methods.{HttpMethod}
use net_ninja.Http.Headers.{Sign}
use net_ninja.Http.Messages.{
  HttpRequest, new_request, set_header, is_connection, is_empty, dump_request,
}
use net_ninja.HttpConnection.Requests.{
  Uri, is_host, is_keep_alive, add_header, add_headers, request_of, pool_request_of, url_of,
  with_host,
}

-- The target of a request, changed.
abbrev placed : Text → Text → Text → HttpRequest → HttpRequest
placed path query fragment r = record r { path = path; query = query; fragment = fragment }

-- The request of a pool, for a url.
abbrev moved : Text → HttpRequest → HttpRequest
moved url r = record r { path = url; query = []; fragment = []; close = false }

-- What changes a request apart from its headers.
module _ (strcasecmp : Text → Text → Sign) (change : HttpRequest → HttpRequest)
    (sets : (r : HttpRequest) (k v : Text)
      → set_header strcasecmp (change r) k v ≡ change (set_header strcasecmp r k v))
    (closes : (r : HttpRequest)
      → record (change r) { close = false } ≡ change (record r { close = false })) where
  add_header-change :
      (k v : Text) (r : HttpRequest) (h : Bool)
      → let s = add_header strcasecmp k v (r, h) in
        add_header strcasecmp k v (change r, h) ≡ (change s.0, s.1)
  unfolding add_header
  add_header-change k v r h = elim (Bool-cases (is_connection strcasecmp k)) [
    | inl c ↦ elim (Bool-cases (is_keep_alive strcasecmp v)) [
      | inl a ↦ rw (c, a) (ap (λ (q : HttpRequest). (q, h)) (closes r))
      | inr a ↦ rw (c, a) refl
    ]
    | inr c ↦ rw c (
        ap (λ (q : HttpRequest). (q, if not h && is_host strcasecmp k then not (is_empty v) else h))
          (sets r k v))
  ]

  add_headers-change :
      (l : List (Text × Text)) (r : HttpRequest) (h : Bool)
      → let s = add_headers strcasecmp l (r, h) in
        add_headers strcasecmp l (change r, h) ≡ (change s.0, s.1)
  unfolding add_headers
  add_headers-change [] r h = refl
  add_headers-change ((k, v) ∷ m) r h =
      let s = add_header strcasecmp k v (r, h) in
      ap (add_headers strcasecmp m) (add_header-change k v r h) ∙ add_headers-change m s.0 s.1

  with_host-change :
      (host : Text) (r : HttpRequest) (h : Bool)
      → with_host strcasecmp host (change r, h) ≡ change (with_host strcasecmp host (r, h))
  with_host-change host r true = refl
  with_host-change host r false = sets r (codes "Host") host

  built-change :
      (host : Text) (l : List (Text × Text)) (r : HttpRequest) (h : Bool)
      → with_host strcasecmp host (add_headers strcasecmp l (change r, h))
        ≡ change (with_host strcasecmp host (add_headers strcasecmp l (r, h)))
  built-change host l r h =
      let s = add_headers strcasecmp l (r, h) in
      ap (with_host strcasecmp host) (add_headers-change l r h) ∙ with_host-change host s.0 s.1

module _ (strcasecmp : Text → Text → Sign) (decimal : ℕ → Text) where
  dump_request-moved :
      (uri : Uri) (r : HttpRequest)
      → dump_request strcasecmp decimal (moved (url_of uri) r)
        ≡ dump_request strcasecmp decimal
            (placed uri.path uri.query uri.fragment (record r { close = false }))
  unfolding dump_request url_of
  dump_request-moved uri r = simp (append_assoc, append-nil)

  -- The pool's request for a Uri is printed as the one that `DoRequest` makes of the Uri with the
  -- pool's host, its virtual host if it has one, except that the connection is kept.
  pub dump_request-pool_request_of :
      (method : HttpMethod) (uri : Uri) (vhost host : Text) (headers : List (Text × Text))
      (body : Text)
      → let asked = record uri { host = if is_empty vhost then host else vhost } in
        dump_request strcasecmp decimal
          (pool_request_of strcasecmp method (url_of uri) vhost host headers body)
        ≡ dump_request strcasecmp decimal
            (record (request_of strcasecmp method asked headers body) { close = false })
  unfolding pool_request_of request_of new_request set_header
  dump_request-pool_request_of method uri vhost host headers body =
      let h = if is_empty vhost then host else vhost in
      let n = record (new_request 0x11 true) { method = method } in
      let built = with_host strcasecmp h (add_headers strcasecmp headers (n, false)) in
      ap (λ (q : HttpRequest). dump_request strcasecmp decimal (record q { body = body }))
        (built-change strcasecmp (moved (url_of uri)) (λ r k v. refl) (λ r. refl) h headers n false)
      ∙ dump_request-moved uri (record built { body = body })
      ∙ ap
          (λ (q : HttpRequest).
            dump_request strcasecmp decimal (record q { body = body; close = false }))
          (sym (
            built-change strcasecmp (placed uri.path uri.query uri.fragment) (λ r k v. refl)
              (λ r. refl) h headers n false))
