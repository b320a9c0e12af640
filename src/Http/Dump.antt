-- ===== src/Http/Dump.antt =====
-- What `dump` of src/http/http.cpp prints of the header "connection".
use net_ninja.Common.{ℕ, ◌≡◌, refl, sym, ap, ◌∙◌, inl, inr, true, false, [], ◌∷◌, Bool-cases}
use net_ninja.Http.{Text, c_str, codes}
use net_ninja.Http.Headers.{Sign, is_same, MapType, equivalent, assign, erase}
use net_ninja.Http.Lookup.{IsCompare, Sign-cases, is_same_eq, assign_cons, equivalent_eq}
use net_ninja.Http.Messages.{
  HttpRequest, HttpResponse, set_header, del_header, set_response_header, del_response_header,
  is_connection, dump_headers, dump_request, dump_response,
}

module _ (strcasecmp : Text → Text → Sign) (laws : IsCompare strcasecmp) where
  same_connection :
      (k l : Text)
      → strcasecmp (c_str k) (c_str l) ≡ Sign.same
      → is_connection strcasecmp k ≡ true
      → is_connection strcasecmp l ≡ true
  unfolding is_connection
  same_connection k l h c =
      ap is_same (sym (laws.same_eq (c_str k) (c_str l) (codes "connection") h)) ∙ c

  dump_headers-assign :
      (k v : Text) (m : MapType)
      → is_connection strcasecmp k ≡ true
      → dump_headers strcasecmp true (assign strcasecmp k v m) ≡ dump_headers strcasecmp true m
  unfolding dump_headers assign
  dump_headers-assign k v [] c = rw c refl
  dump_headers-assign k v (e ∷ m) c = elim (Sign-cases (strcasecmp (c_str k) (c_str e.0))) [
    | inl h ↦ rw (assign_cons strcasecmp laws k v e m, h, c) refl
    | inr (inl h) ↦ rw (assign_cons strcasecmp laws k v e m, h, same_connection k e.0 h c) refl
    | inr (inr h) ↦ rw (assign_cons strcasecmp laws k v e m, h, dump_headers-assign k v m c) refl
  ]

  dump_headers-erase :
      (k : Text) (m : MapType)
      → is_connection strcasecmp k ≡ true
      → dump_headers strcasecmp true (erase strcasecmp k m) ≡ dump_headers strcasecmp true m
  unfolding dump_headers erase
  dump_headers-erase k [] c = refl
  dump_headers-erase k (e ∷ m) c = elim (Bool-cases (equivalent strcasecmp k e.0)) [
    | inl h ↦
        let same =
          is_same_eq (strcasecmp (c_str k) (c_str e.0))
            (sym (equivalent_eq strcasecmp laws k e.0) ∙ h) in
        rw (h, same_connection k e.0 same c) (dump_headers-erase k m c)
    | inr h ↦ rw (h, dump_headers-erase k m c) refl
  ]

  -- With a comparison as strcasecmp documents it, whatever a header "connection", in any case of its
  -- letters, is set to, or if it is deleted, a request is printed alike, and a response too unless it
  -- is one of a websocket.
  pub dump_request-set_header :
      (decimal : ℕ → Text) (r : HttpRequest) (n : HttpResponse) (k v : Text)
      → is_connection strcasecmp k ≡ true
      → n.websocket ≡ false
      → (dump_request strcasecmp decimal (set_header strcasecmp r k v)
          ≡ dump_request strcasecmp decimal r)
        × (dump_request strcasecmp decimal (del_header strcasecmp r k)
            ≡ dump_request strcasecmp decimal r)
        × (dump_response strcasecmp decimal (set_response_header strcasecmp n k v)
            ≡ dump_response strcasecmp decimal n)
        × (dump_response strcasecmp decimal (del_response_header strcasecmp n k)
            ≡ dump_response strcasecmp decimal n)
  unfolding dump_request dump_response set_header del_header set_response_header del_response_header
  dump_request-set_header decimal r n k v c w = (
    rw (dump_headers-assign k v r.headers c) refl,
    rw (dump_headers-erase k r.headers c) refl,
    rw (w, dump_headers-assign k v n.headers c) refl,
    rw (w, dump_headers-erase k n.headers c) refl,
  )
