-- ===== src/Http/Sorted.antt =====
-- The order of the maps of src/http/http.h, which CaseInsensitiveLess keeps.
use net_ninja.Common.{◌≡◌, ap, ◌∙◌, inl, inr, [], ◌∷◌, Bool-cases}
use net_ninja.Http.{Text, c_str}
use net_ninja.Http.Headers.{Sign, flip, MapType, equivalent, assign, erase}
use net_ninja.Http.Lookup.{IsCompare, by_sign, Sign-cases, assign_cons}

-- Whether the key comes before every key of the map.
abbrev pub IsBefore : (Text → Text → Sign) → Text → MapType → Type 0
IsBefore strcasecmp k [] = Unit {0}
IsBefore strcasecmp k (e ∷ m) =
    (strcasecmp (c_str k) (c_str e.0) ≡ Sign.below) × IsBefore strcasecmp k m

-- The order of a std::map, in which no key is there twice.
abbrev pub IsSorted : (Text → Text → Sign) → MapType → Type 0
IsSorted strcasecmp [] = Unit {0}
IsSorted strcasecmp (e ∷ m) = IsBefore strcasecmp e.0 m × IsSorted strcasecmp m

module _ (strcasecmp : Text → Text → Sign) (laws : IsCompare strcasecmp) where
  IsBefore-trans :
      (k l : Text) (m : MapType)
      → strcasecmp (c_str k) (c_str l) ≡ Sign.below
      → IsBefore strcasecmp l m
      → IsBefore strcasecmp k m
  IsBefore-trans k l [] h b = tt
  IsBefore-trans k l (e ∷ m) h b =
      (laws.below_trans (c_str k) (c_str l) (c_str e.0) h b.0, IsBefore-trans k l m h b.1)

  assign-IsBefore :
      (n k v : Text) (m : MapType)
      → strcasecmp (c_str n) (c_str k) ≡ Sign.below
      → IsBefore strcasecmp n m
      → IsBefore strcasecmp n (assign strcasecmp k v m)
  unfolding assign
  assign-IsBefore n k v [] h b = (h, tt)
  assign-IsBefore n k v (e ∷ m) h b = rw (assign_cons strcasecmp laws k v e m) (
      placed (strcasecmp (c_str k) (c_str e.0)) _ _ _ (h, b) (b.0, b.1)
        (b.0, assign-IsBefore n k v m h b.1))
    where
      placed :
          (s : Sign) (x y z : MapType)
          → IsBefore strcasecmp n x
          → IsBefore strcasecmp n y
          → IsBefore strcasecmp n z
          → IsBefore strcasecmp n (by_sign s x y z)
      placed Sign.below x y z a b c = a
      placed Sign.same x y z a b c = b
      placed Sign.above x y z a b c = c

  erase-IsBefore :
      (n k : Text) (m : MapType)
      → IsBefore strcasecmp n m
      → IsBefore strcasecmp n (erase strcasecmp k m)
  unfolding erase
  erase-IsBefore n k [] b = tt
  erase-IsBefore n k (e ∷ m) b = elim (Bool-cases (equivalent strcasecmp k e.0)) [
    | inl h ↦ rw h (erase-IsBefore n k m b.1)
    | inr h ↦ rw h (b.0, erase-IsBefore n k m b.1)
  ]

  -- With a comparison as strcasecmp documents it, an assignment and an erasure keep the order of the map, and with it that no two of its keys
  -- differ in case only.
  pub assign-IsSorted :
      (k v : Text) (m : MapType)
      → IsSorted strcasecmp m
      → IsSorted strcasecmp (assign strcasecmp k v m) × IsSorted strcasecmp (erase strcasecmp k m)
  unfolding assign erase
  assign-IsSorted k v [] s = ((tt, tt), tt)
  assign-IsSorted k v (e ∷ m) s =
      let (a, b) = assign-IsSorted k v m s.1 in
      (
        elim (Sign-cases (strcasecmp (c_str k) (c_str e.0))) [
          | inl h ↦
              rw (assign_cons strcasecmp laws k v e m, h) ((h, IsBefore-trans k e.0 m h s.0), s)
          | inr (inl h) ↦ rw (assign_cons strcasecmp laws k v e m, h) s
          | inr (inr h) ↦
              let behind : strcasecmp (c_str e.0) (c_str k) ≡ Sign.below =
                laws.flip_eq (c_str k) (c_str e.0) ∙ ap flip h in
              rw (assign_cons strcasecmp laws k v e m, h) (assign-IsBefore e.0 k v m behind s.0, a)
        ],
        elim (Bool-cases (equivalent strcasecmp k e.0)) [
          | inl h ↦ rw h b
          | inr h ↦ rw h (erase-IsBefore e.0 k m s.0, b)
        ],
      )
