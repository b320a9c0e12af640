-- ===== src/HttpConnection/Loop.antt =====
-- The loop over the headers of a request in src/http/http_connection.cpp.
use net_ninja.Common.{
  ◌≡◌, refl, ap, ◌∙◌, inl, inr, Bool, true, false, not, ◌&&◌, ◌||◌, List, [], ◌∷◌, if◌then◌else◌,
  Bool-cases, if_true, if_false,
}
use net_ninja.Http.{Text}
use net_ninja.Http.Headers.{Sign}
use net_ninja.Http.Messages.{
  HttpRequest, new_response, set_header, get_header, is_connection, is_empty,
}
use net_ninja.Http.Lookup.{IsCompare, same_key, get_header-set_header}
use net_ninja.HttpConnection.Requests.{is_host, is_keep_alive, add_header, add_headers}

pub if_same : (b x : Bool) → (if b then x else x) ≡ x
if_same true x = refl
if_same false x = refl

module _ (strcasecmp : Text → Text → Sign) where
  -- The last value that is given for a key; the headers of the connection are passed over.
  abbrev pub last_value : List (Text × Text) → Text → Text → Text
  last_value [] l def = def
  last_value ((k, v) ∷ m) l def =
      last_value m l
        (if is_connection strcasecmp k then def else if same_key strcasecmp l k then v else def)

  -- Some header of the host has a value.
  abbrev pub has_host : List (Text × Text) → Bool
  has_host [] = false
  has_host ((k, v) ∷ m) =
      not (is_connection strcasecmp k) && (is_host strcasecmp k && not (is_empty v)) || has_host m

  -- Some header of the connection keeps it.
  abbrev pub is_kept : List (Text × Text) → Bool
  is_kept [] = false
  is_kept ((k, v) ∷ m) = is_connection strcasecmp k && is_keep_alive strcasecmp v || is_kept m

  add_header_kept :
      (k v : Text) (r : HttpRequest) (h : Bool)
      → is_connection strcasecmp k ≡ true
      → is_keep_alive strcasecmp v ≡ true
      → add_header strcasecmp k v (r, h) ≡ (record r { close = false }, h)
  unfolding add_header
  add_header_kept k v r h c a = if_true c _ _ ∙ if_true a _ _

  add_header_passed :
      (k v : Text) (r : HttpRequest) (h : Bool)
      → is_connection strcasecmp k ≡ true
      → is_keep_alive strcasecmp v ≡ false
      → add_header strcasecmp k v (r, h) ≡ (r, h)
  unfolding add_header
  add_header_passed k v r h c a = if_true c _ _ ∙ if_false a _ _

  abbrev seen_host : Text → Text → Bool → Bool
  seen_host k v h = if not h && is_host strcasecmp k then not (is_empty v) else h

  add_header_set :
      (k v : Text) (r : HttpRequest) (h : Bool)
      → is_connection strcasecmp k ≡ false
      → add_header strcasecmp k v (r, h) ≡ (set_header strcasecmp r k v, seen_host k v h)
  unfolding add_header
  add_header_set k v r h c = if_false c _ _

  seen_host_eq :
      (k v : Text) (h b : Bool)
      → (seen_host k v h || b) ≡ (h || ((is_host strcasecmp k && not (is_empty v)) || b))
  seen_host_eq k v true b = refl
  seen_host_eq k v false b = elim (Bool-cases (is_host strcasecmp k)) [
    | inl e ↦ rw e refl
    | inr e ↦ rw e refl
  ]

  pub add_headers-close :
      (l : List (Text × Text)) (r : HttpRequest) (h : Bool)
      → (add_headers strcasecmp l (r, h)).0.close ≡ (if is_kept l then false else r.close)
  unfolding add_headers set_header
  add_headers-close [] r h = refl
  add_headers-close ((k, v) ∷ m) r h = elim (Bool-cases (is_connection strcasecmp k)) [
    | inl c ↦ elim (Bool-cases (is_keep_alive strcasecmp v)) [
      | inl a ↦
          rw (c, a)
            (ap (λ s. (add_headers strcasecmp m s).0.close) (add_header_kept k v r h c a)
              ∙ add_headers-close m (record r { close = false }) h
              ∙ if_same (is_kept m) false)
      | inr a ↦
          rw (c, a)
            (ap (λ s. (add_headers strcasecmp m s).0.close) (add_header_passed k v r h c a)
              ∙ add_headers-close m r h)
    ]
    | inr c ↦ rw (c) (
        ap (λ s. (add_headers strcasecmp m s).0.close) (add_header_set k v r h c)
        ∙ add_headers-close m (set_header strcasecmp r k v) (seen_host k v h))
  ]

  pub add_headers-has_host :
      (l : List (Text × Text)) (r : HttpRequest) (h : Bool)
      → (add_headers strcasecmp l (r, h)).1 ≡ (h || has_host l)
  unfolding add_headers
  add_headers-has_host [] r true = refl
  add_headers-has_host [] r false = refl
  add_headers-has_host ((k, v) ∷ m) r h = elim (Bool-cases (is_connection strcasecmp k)) [
    | inl c ↦ elim (Bool-cases (is_keep_alive strcasecmp v)) [
      | inl a ↦ rw (c) (
          ap (λ s. (add_headers strcasecmp m s).1) (add_header_kept k v r h c a)
          ∙ add_headers-has_host m (record r { close = false }) h)
      | inr a ↦ rw (c) (
          ap (λ s. (add_headers strcasecmp m s).1) (add_header_passed k v r h c a)
          ∙ add_headers-has_host m r h)
    ]
    | inr c ↦ rw (c) (
        ap (λ s. (add_headers strcasecmp m s).1) (add_header_set k v r h c)
        ∙ add_headers-has_host m (set_header strcasecmp r k v) (seen_host k v h)
        ∙ seen_host_eq k v h (has_host m))
  ]

  module _ (laws : IsCompare strcasecmp) where
    pub get-set :
        (r : HttpRequest) (k v l def : Text)
        → get_header strcasecmp (set_header strcasecmp r k v) l def
          ≡ (if same_key strcasecmp l k then v else get_header strcasecmp r l def)
    get-set r k v l def =
        (get_header-set_header strcasecmp laws r (new_response 0x11 true) k v l def).0

    pub add_headers-get_header :
        (l : List (Text × Text)) (r : HttpRequest) (h : Bool) (key def : Text)
        → get_header strcasecmp (add_headers strcasecmp l (r, h)).0 key def
          ≡ last_value l key (get_header strcasecmp r key def)
    unfolding add_headers get_header
    add_headers-get_header [] r h key def = refl
    add_headers-get_header ((k, v) ∷ m) r h key def =
        elim (Bool-cases (is_connection strcasecmp k)) [
          | inl c ↦ elim (Bool-cases (is_keep_alive strcasecmp v)) [
            | inl a ↦ rw (c) (
                ap (λ s. get_header strcasecmp (add_headers strcasecmp m s).0 key def)
                  (add_header_kept k v r h c a)
                ∙ add_headers-get_header m (record r { close = false }) h key def)
            | inr a ↦ rw (c) (
                ap (λ s. get_header strcasecmp (add_headers strcasecmp m s).0 key def)
                  (add_header_passed k v r h c a)
                ∙ add_headers-get_header m r h key def)
          ]
          | inr c ↦ rw (c) (
              ap (λ s. get_header strcasecmp (add_headers strcasecmp m s).0 key def)
                (add_header_set k v r h c)
              ∙ add_headers-get_header m (set_header strcasecmp r k v) (seen_host k v h) key def
              ∙ ap (last_value m key) (get-set r k v key def))
        ]
