-- ===== src/HttpConnection/Built.antt =====
-- What the requests of src/http/http_connection.cpp hold.
use net_ninja.Common.{
  ◌≡◌, refl, ◌∙◌, inl, inr, Bool, true, false, not, List, [], if◌then◌else◌, Bool-cases,
}
use net_ninja.Http.{Text, codes}
use net_ninja.Http.Methods.{HttpMethod}
use net_ninja.Http.Headers.{Sign, get, find}
use net_ninja.Http.Messages.{HttpRequest, new_request, set_header, get_header, is_empty}
use net_ninja.Http.Lookup.{IsCompare, same_key}
use net_ninja.HttpConnection.Requests.{Uri, add_headers, request_of, pool_request_of, with_host}
use net_ninja.HttpConnection.Loop.{
  if_same, last_value, has_host, is_kept, get-set, add_headers-close, add_headers-has_host,
  add_headers-get_header,
}

if_not : (b : Bool) → (if b then false else true) ≡ not b
if_not true = refl
if_not false = refl

module _ (strcasecmp : Text → Text → Sign) where
  module _ (laws : IsCompare strcasecmp) where
    host_header :
        (host : Text) (s : HttpRequest × Bool) (key def : Text)
        → get_header strcasecmp (with_host strcasecmp host s) key def ≡ (
            if s.1
            then get_header strcasecmp s.0 key def
            else if same_key strcasecmp key (codes "Host")
            then host
            else get_header strcasecmp s.0 key def)
    host_header host s key def = elim (Bool-cases s.1) [
      | inl h ↦ rw h refl
      | inr h ↦ rw h (get-set strcasecmp laws s.0 (codes "Host") host key def)
    ]

    built_close :
        (headers : List (Text × Text)) (host : Text) (r : HttpRequest)
        → (with_host strcasecmp host (add_headers strcasecmp headers (r, false))).close
          ≡ (if is_kept strcasecmp headers then false else r.close)
    unfolding set_header
    built_close headers host r = elim (Bool-cases (add_headers strcasecmp headers (r, false)).1) [
      | inl h ↦ rw h (add_headers-close strcasecmp headers r false)
      | inr h ↦ rw h (add_headers-close strcasecmp headers r false)
    ]

    -- What is found in a request of these headers and this host.
    abbrev pub header_of : List (Text × Text) → Text → Text → Text → Text
    header_of headers host key def =
        if has_host strcasecmp headers
        then last_value strcasecmp headers key def
        else if same_key strcasecmp key (codes "Host")
        then host
        else last_value strcasecmp headers key def

    built_header :
        (headers : List (Text × Text)) (host : Text) (r : HttpRequest) (key def : Text)
        → r.headers ≡ []
        → get_header strcasecmp
            (with_host strcasecmp host (add_headers strcasecmp headers (r, false)))
            key
            def
          ≡ header_of headers host key def
    unfolding get_header get find
    built_header headers host r key def e =
        host_header host (add_headers strcasecmp headers (r, false)) key def
        ∙ rw
            (
              add_headers-has_host strcasecmp headers r false,
              add_headers-get_header strcasecmp laws headers r false key def,
              e,
            )
            refl

    -- With a comparison as strcasecmp documents it, the request that `DoRequest` makes has for every key
    -- the last value that the headers give for it in any spelling, those of the connection left out; if
    -- no header of the host has a value, the host is that of the Uri, or, for the pool, the virtual host
    -- or else the host. The connection is kept if a header of it says so, and always for the pool.
    pub get_header-request_of :
        (method : HttpMethod) (uri : Uri) (url vhost host : Text) (headers : List (Text × Text))
        (body key def : Text)
        → (get_header strcasecmp (request_of strcasecmp method uri headers body) key def
            ≡ header_of headers uri.host key def)
          × ((request_of strcasecmp method uri headers body).close
              ≡ not (is_kept strcasecmp headers))
          × (get_header strcasecmp
                (pool_request_of strcasecmp method url vhost host headers body)
                key
                def
              ≡ header_of headers (if is_empty vhost then host else vhost) key def)
          × ((pool_request_of strcasecmp method url vhost host headers body).close ≡ false)
    unfolding request_of pool_request_of new_request get_header
    get_header-request_of method uri url vhost host headers body key def = (
      built_header headers uri.host _ key def refl,
      built_close headers uri.host _ ∙ if_not (is_kept strcasecmp headers),
      built_header headers (if is_empty vhost then host else vhost) _ key def refl,
      built_close headers (if is_empty vhost then host else vhost) _
          ∙ if_same (is_kept strcasecmp headers) false,
    )
