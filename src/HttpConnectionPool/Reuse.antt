-- ===== src/HttpConnectionPool/Reuse.antt =====
-- Which connection `getConnection` of src/http/http_connection.cpp hands out, and which `ReleasePtr` keeps.
use net_ninja.Common.{
  ℕ, ◌+◌, ◌≡◌, refl, ap, ◌∙◌, Bool, true, false, not, ◌&&◌, List, [], ◌∷◌, ◌++◌, Option, none, some,
  arith, ltb, length, length-append, All, Bool-cases, ◌⊎◌, inl, inr, ◌≢◌, Option-cases,
}
use net_ninja.HttpConnectionPool.{Pool, age_limit, take_valid, get_connection}

abbrev pub listed : Option ℕ → List ℕ
listed none = []
listed (some p) = p ∷ []

abbrev pub or_else : Option ℕ → Option ℕ → Option ℕ
or_else none created = created
or_else (some p) created = some p

module _ (is_connected : ℕ → Bool) (m : Pool) (now : ℕ) where
  -- A connection that is handed out: connected, and as old as the limit or older.
  abbrev pub is_usable : ℕ → Bool
  is_usable p = is_connected p && not (ltb now (age_limit m p))

  abbrev IsFirst : List ℕ → List ℕ × Option ℕ × List ℕ → Type 0
  IsFirst l r =
      (l ≡ r.0 ++ (listed r.1 ++ r.2))
      × All (λ p. is_usable p ≡ false) r.0
      × All (λ p. is_usable p ≡ true) (listed r.1)

  take_valid-IsFirst : (l : List ℕ) → IsFirst l (take_valid is_connected m now l)
  unfolding take_valid
  take_valid-IsFirst [] = (refl, tt, tt)
  take_valid-IsFirst (p ∷ l) =
      let h = take_valid-IsFirst l in
      elim (Bool-cases (is_connected p)) [
        | inr c ↦ rw c (ap (λ (t : List ℕ). p ∷ t) h.0, (ground arith, h.1), h.2)
        | inl c ↦ elim (Bool-cases (ltb now (age_limit m p))) [
          | inl a ↦ rw (c, a) (ap (λ (t : List ℕ). p ∷ t) h.0, (ground arith, h.1), h.2)
          | inr a ↦ rw (c, a) (refl, tt, (ground arith, tt))
        ]
      ]

  pub take_valid-length :
      (l : List ℕ)
      → length l
        ≡ length (take_valid is_connected m now l).0
          + (length (listed (take_valid is_connected m now l).1)
              + length (take_valid is_connected m now l).2)
  take_valid-length l =
      ap length (take_valid-IsFirst l).0
      ∙ length-append (take_valid is_connected m now l).0 _
      ∙ ap (λ (t : ℕ). length (take_valid is_connected m now l).0 + t)
          (length-append (listed (take_valid is_connected m now l).1)
            (take_valid is_connected m now l).2)

  take_valid-all :
      (l : List ℕ)
      → ((take_valid is_connected m now l).1 ≢ none) ⊎ ((take_valid is_connected m now l).2 ≡ [])
  unfolding take_valid
  take_valid-all [] = inr refl
  take_valid-all (p ∷ l) = ground (arith, take_valid-all l)

  get_connection-found :
      (created : Option ℕ)
      → ((get_connection is_connected m now created).0
          ≡ or_else (take_valid is_connected m now m.conns).1 created)
        × ((get_connection is_connected m now created).1.conns
            ≡ (take_valid is_connected m now m.conns).2)
  unfolding get_connection
  get_connection-found created = elim (Option-cases (take_valid is_connected m now m.conns).1) [
    | inr (p, e) ↦ rw (get_connection, e) (refl, refl)
    | inl e ↦ elim (Option-cases created) [
      | inl c ↦ rw (get_connection, e, c) (refl, refl)
      | inr (p, c) ↦ rw (get_connection, e, c) (refl, refl)
    ]
  ]

  -- `getConnection` hands out the first waiting connection that is connected and has reached the age
  -- limit, and the new one only if there is none; it takes from the list all connections up to
  -- that one, and leaves the others.
  pub get_connection-IsFirst :
      (created : Option ℕ)
      → (invalid : List ℕ) × (found : Option ℕ) × (rest : List ℕ) × (m.conns
          ≡ invalid ++ (listed found ++ rest))
        × All (λ p. is_usable p ≡ false) invalid
        × All (λ p. is_usable p ≡ true) (listed found)
        × ((found ≢ none) ⊎ (rest ≡ []))
        × ((get_connection is_connected m now created).0 ≡ or_else found created)
        × ((get_connection is_connected m now created).1.conns ≡ rest)
  get_connection-IsFirst created =
      let t = take_valid-IsFirst m.conns in
      (
        (take_valid is_connected m now m.conns).0,
        (take_valid is_connected m now m.conns).1,
        (take_valid is_connected m now m.conns).2,
        t.0,
        t.1,
        t.2,
        take_valid-all m.conns,
        (get_connection-found created).0,
        (get_connection-found created).1,
      )
