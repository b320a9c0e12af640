-- ===== src/Http/Lookup.antt =====
-- The maps of src/http/http.h: what is set is found, whatever the case of the key.
use net_ninja.Common.{
  ◌≡◌, refl, sym, ap, ◌∙◌, ◌⊎◌, inl, inr, Bool, true, false, [], ◌∷◌, Option, none, some, arith,
  if◌then◌else◌, Bool-cases, Option-cases,
}
use net_ninja.Http.{Text, c_str}
use net_ninja.Http.Headers.{
  Sign, is_below, is_same, flip, MapType, case_insensitive_less, equivalent, find, assign, erase,
  get, check_get_as, get_as,
}
use net_ninja.Http.Messages.{
  HttpRequest, HttpResponse, set_header, set_param, set_cookie, del_header, del_param, del_cookie,
  get_header, get_param, get_cookie, get_response_header, set_response_header, del_response_header,
}

-- What strcasecmp documents: the sign turns with the arguments, and texts that it does not tell apart
-- compare alike with any other.
pub record IsCompare (strcasecmp : Text → Text → Sign) : Type 0 where
  pub flip_eq : (s t : Text) → strcasecmp t s ≡ flip (strcasecmp s t)
  pub same_eq : (s t u : Text) → strcasecmp s t ≡ Sign.same → strcasecmp s u ≡ strcasecmp t u
  pub below_trans :
      (s t u : Text)
      → strcasecmp s t ≡ Sign.below
      → strcasecmp t u ≡ Sign.below
      → strcasecmp s u ≡ Sign.below

-- Whether two keys differ in case only.
abbrev pub same_key : (Text → Text → Sign) → Text → Text → Bool
same_key strcasecmp k l = is_same (strcasecmp (c_str k) (c_str l))

abbrev pub by_sign {ℓ} : {A : Type ℓ} → Sign → A → A → A → A
by_sign Sign.below a b c = a
by_sign Sign.same a b c = b
by_sign Sign.above a b c = c

pub Sign-cases : (s : Sign) → (s ≡ Sign.below) ⊎ ((s ≡ Sign.same) ⊎ (s ≡ Sign.above))
Sign-cases Sign.below = inl refl
Sign-cases Sign.same = inr (inl refl)
Sign-cases Sign.above = inr (inr refl)

if_once {ℓ} :
    {A : Type ℓ} (b : Bool) (x y z : A)
    → (if b then x else z) ≡ (if b then x else if b then y else z)
if_once true x y z = refl
if_once false x y z = refl

if_apart {ℓ} :
    {A : Type ℓ} (b c : Bool)
    → (b ≡ true → c ≡ false)
    → (x y z : A) → (if b then x else if c then y else z) ≡ (if c then y else if b then x else z)
if_apart true c h x y z = rw (h refl) refl
if_apart false c h x y z = refl

abbrev or_default : Text → Option Text → Text
or_default def o = elim o [ none ↦ def | some v ↦ v ]

default_if :
    (def : Text) (b : Bool) (o p : Option Text)
    → or_default def (if b then o else p) ≡ (if b then or_default def o else or_default def p)
default_if def true o p = refl
default_if def false o p = refl

pub is_same_eq : (s : Sign) → is_same s ≡ true → s ≡ Sign.same
is_same_eq Sign.below h = cc
is_same_eq Sign.same h = refl
is_same_eq Sign.above h = cc

module _ (strcasecmp : Text → Text → Sign) (laws : IsCompare strcasecmp) where
  pub equivalent_eq : (k l : Text) → equivalent strcasecmp k l ≡ same_key strcasecmp k l
  unfolding equivalent case_insensitive_less
  equivalent_eq k l = rw (laws.flip_eq (c_str k) (c_str l)) (signs (strcasecmp (c_str k) (c_str l)))
    where
      signs :
          (s : Sign)
          → (if is_below s then false else if is_below (flip s) then false else true) ≡ is_same s
      signs Sign.below = refl
      signs Sign.same = refl
      signs Sign.above = refl

  pub find_cons :
      (k : Text) (e : Text × Text) (m : MapType)
      → find strcasecmp k (e ∷ m)
        ≡ (if same_key strcasecmp k e.0 then some e.1 else find strcasecmp k m)
  unfolding find
  find_cons k e m = rw (equivalent_eq k e.0) refl

  -- The three branches of the assignment to a map.
  pub assign_cons :
      (k v : Text) (e : Text × Text) (m : MapType)
      → assign strcasecmp k v (e ∷ m)
        ≡ by_sign
            (strcasecmp (c_str k) (c_str e.0))
            ((k, v) ∷ e ∷ m)
            ((e.0, v) ∷ m)
            (e ∷ assign strcasecmp k v m)
  unfolding assign case_insensitive_less
  assign_cons k v e m =
      rw (laws.flip_eq (c_str k) (c_str e.0)) (branches (strcasecmp (c_str k) (c_str e.0)) _ _ _)
    where
      branches :
          (s : Sign) (a b c : MapType)
          → (if is_below s then a else if is_below (flip s) then c else b) ≡ by_sign s a b c
      branches Sign.below a b c = refl
      branches Sign.same a b c = refl
      branches Sign.above a b c = refl

  -- A key that is the same as a second one is the same as a third where the second is.
  pub same_key_eq :
      (k l n : Text)
      → same_key strcasecmp k l ≡ true
      → same_key strcasecmp k n ≡ same_key strcasecmp l n
  same_key_eq k l n h =
      ap is_same
        (laws.same_eq (c_str k) (c_str l) (c_str n) (is_same_eq (strcasecmp (c_str k) (c_str l)) h))

  pub same_key_sym : (k l : Text) → same_key strcasecmp l k ≡ same_key strcasecmp k l
  same_key_sym k l =
      ap is_same (laws.flip_eq (c_str k) (c_str l)) ∙ turned (strcasecmp (c_str k) (c_str l))
    where
      turned : (s : Sign) → is_same (flip s) ≡ is_same s
      turned Sign.below = refl
      turned Sign.same = refl
      turned Sign.above = refl

  same_key_other :
      (k l n : Text)
      → same_key strcasecmp k l ≡ true
      → same_key strcasecmp n k ≡ same_key strcasecmp n l
  same_key_other k l n h = sym (same_key_sym n k) ∙ same_key_eq k l n h ∙ same_key_sym n l

  same_key_apart :
      (k l n : Text)
      → same_key strcasecmp k n ≡ true
      → same_key strcasecmp l n ≡ false
      → same_key strcasecmp k l ≡ false
  same_key_apart k l n h g = same_key_eq k n l h ∙ same_key_sym l n ∙ g

  -- What is assigned to a key is found under every spelling of it, and no other key changes.
  pub find-assign :
      (k v l : Text) (m : MapType)
      → find strcasecmp l (assign strcasecmp k v m)
        ≡ (if same_key strcasecmp l k then some v else find strcasecmp l m)
  unfolding assign
  find-assign k v l [] = find_cons l (k, v) []
  find-assign k v l (e ∷ m) = elim (Sign-cases (strcasecmp (c_str k) (c_str e.0))) [
    | inl h ↦ rw (assign_cons k v e m, h) (find_cons l (k, v) (e ∷ m))
    | inr (inl h) ↦
        let same : same_key strcasecmp l k ≡ same_key strcasecmp l e.0 =
          same_key_other k e.0 l (ap is_same h) in
        rw (assign_cons k v e m, h, find_cons l (e.0, v) m, find_cons l e m, same)
          (if_once (same_key strcasecmp l e.0) _ _ _)
    | inr (inr h) ↦
        rw
          (
            assign_cons k v e m,
            h,
            find_cons l e (assign strcasecmp k v m),
            find-assign k v l m,
            find_cons l e m,
          )
          (if_apart (same_key strcasecmp l e.0) (same_key strcasecmp l k)
            (λ a. same_key_apart l k e.0 a (ap is_same h)) _ _ _)
  ]

  pub find-erase :
      (k l : Text) (m : MapType)
      → find strcasecmp l (erase strcasecmp k m)
        ≡ (if same_key strcasecmp l k then none else find strcasecmp l m)
  unfolding find erase
  find-erase k l [] = ground arith
  find-erase k l (e ∷ m) = elim (Bool-cases (same_key strcasecmp k e.0)) [
    | inl h ↦
        let same : same_key strcasecmp l k ≡ same_key strcasecmp l e.0 = same_key_other k e.0 l h in
        rw (equivalent_eq k e.0, equivalent_eq l e.0, h, find-erase k l m, same)
          (if_once (same_key strcasecmp l e.0) _ _ _)
    | inr h ↦
        rw (equivalent_eq k e.0, equivalent_eq l e.0, h, equivalent_eq l e.0, find-erase k l m)
          (if_apart (same_key strcasecmp l e.0) (same_key strcasecmp l k)
            (λ a. same_key_apart l k e.0 a h) _ _ _)
  ]

  get-assign :
      (k v l def : Text) (m : MapType)
      → get strcasecmp (assign strcasecmp k v m) l def
        ≡ (if same_key strcasecmp l k then v else get strcasecmp m l def)
  unfolding get
  get-assign k v l def m =
      ap (or_default def) (find-assign k v l m)
      ∙ default_if def (same_key strcasecmp l k) (some v) (find strcasecmp l m)

  get-erase :
      (k l def : Text) (m : MapType)
      → get strcasecmp (erase strcasecmp k m) l def
        ≡ (if same_key strcasecmp l k then def else get strcasecmp m l def)
  unfolding get
  get-erase k l def m =
      ap (or_default def) (find-erase k l m)
      ∙ default_if def (same_key strcasecmp l k) none (find strcasecmp l m)

  -- With a comparison as strcasecmp documents it, the getters of a request, for each of its three
  -- maps, and of a response find what was set, under any spelling of the key in upper and lower case,
  -- and the default where the key was deleted; other keys keep what they have.
  pub get_header-set_header :
      (r : HttpRequest) (n : HttpResponse) (k v l def : Text)
      → (get_header strcasecmp (set_header strcasecmp r k v) l def
          ≡ (if same_key strcasecmp l k then v else get_header strcasecmp r l def))
        × (get_param strcasecmp (set_param strcasecmp r k v) l def
            ≡ (if same_key strcasecmp l k then v else get_param strcasecmp r l def))
        × (get_cookie strcasecmp (set_cookie strcasecmp r k v) l def
            ≡ (if same_key strcasecmp l k then v else get_cookie strcasecmp r l def))
        × (get_header strcasecmp (del_header strcasecmp r k) l def
            ≡ (if same_key strcasecmp l k then def else get_header strcasecmp r l def))
        × (get_param strcasecmp (del_param strcasecmp r k) l def
            ≡ (if same_key strcasecmp l k then def else get_param strcasecmp r l def))
        × (get_cookie strcasecmp (del_cookie strcasecmp r k) l def
            ≡ (if same_key strcasecmp l k then def else get_cookie strcasecmp r l def))
        × (get_response_header strcasecmp (set_response_header strcasecmp n k v) l def
            ≡ (if same_key strcasecmp l k then v else get_response_header strcasecmp n l def))
        × (get_response_header strcasecmp (del_response_header strcasecmp n k) l def
            ≡ (if same_key strcasecmp l k then def else get_response_header strcasecmp n l def))
  unfolding get_response_header set_response_header del_response_header get_header get_param
      get_cookie set_header set_param set_cookie del_header del_param del_cookie
  get_header-set_header r n k v l def = (
    get-assign k v l def r.headers,
    get-assign k v l def r.params,
    get-assign k v l def r.cookies,
    get-erase k l def r.headers,
    get-erase k l def r.params,
    get-erase k l def r.cookies,
    get-assign k v l def n.headers,
    get-erase k l def n.headers,
  )

-- getAs gives what checkGetAs stores, and that is the default where checkGetAs answers false.
pub get_as-check_get_as :
    {V : Type 0} (strcasecmp : Text → Text → Sign) (lexical_cast : Text → Option V) (m : MapType)
    (k : Text) (def : V)
    → let (found, val) = check_get_as strcasecmp lexical_cast m k def in
      (get_as strcasecmp lexical_cast m k def ≡ val) × ((if found then def else val) ≡ def)
unfolding get_as check_get_as
get_as-check_get_as strcasecmp lexical_cast m k def = elim (Option-cases (find strcasecmp k m)) [
  | inl g ↦ rw (get_as, check_get_as, g) (refl, refl)
  | inr (s, g) ↦ elim (Option-cases (lexical_cast s)) [
    | inl h ↦ rw (get_as, check_get_as, g, h) (refl, refl)
    | inr (v, h) ↦ rw (get_as, check_get_as, g, h) (refl, refl)
  ]
]
