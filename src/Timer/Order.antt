-- ===== src/Timer/Order.antt =====
-- The comparator is a strict order, and the set it keeps is sorted.
use net_ninja.Common.{ℕ, ◌≡◌, refl, sym, ◌∙◌, ◌⊎◌, inl, inr, ◌≢◌, true, false, List, [], ◌∷◌, arith}
use net_ninja.Timer.{Timer, put, comparator, before, insert, contains, erase}

module _ (store : ℕ → Timer) where
  before_trans :
      (p q r : ℕ) → before store p q ≡ true → before store q r ≡ true → before store p r ≡ true
  unfolding comparator
  before_trans p q r h k = ground arith

  pub before_irrefl : (p : ℕ) → before store p p ≡ false
  unfolding comparator
  before_irrefl p = ground arith

  before_asym : (p q : ℕ) → before store p q ≡ true → before store q p ≡ false
  unfolding comparator
  before_asym p q h = ground arith

  before_total : (p q : ℕ) → before store p q ≡ false → before store q p ≡ false → p ≡ q
  unfolding comparator
  before_total p q h k = ground arith

  abbrev pub IsBelow : ℕ → List ℕ → Type 0
  IsBelow p [] = Unit {0}
  IsBelow p (q ∷ l) = (before store p q ≡ true) × IsBelow p l

  abbrev pub IsSorted : List ℕ → Type 0
  IsSorted [] = Unit {0}
  IsSorted (p ∷ l) = IsBelow p l × IsSorted l

abbrev pub Elem : ℕ → List ℕ → Type 0
Elem p [] = ⊥
Elem p (q ∷ l) = (p ≡ q) ⊎ Elem p l

module _ (store : ℕ → Timer) where
  IsBelow-trans :
      (p q : ℕ) (l : List ℕ) → before store p q ≡ true → IsBelow store q l → IsBelow store p l
  IsBelow-trans p q [] h k = tt
  IsBelow-trans p q (r ∷ l) h k = (before_trans store p q r h k.0, IsBelow-trans p q l h k.1)

  pub IsBelow-Elem : (p q : ℕ) (l : List ℕ) → IsBelow store p l → Elem q l → before store p q ≡ true
  IsBelow-Elem p q [] h e = absurd e
  IsBelow-Elem p q (r ∷ l) h (inl e) = rw e h.0
  IsBelow-Elem p q (r ∷ l) h (inr e) = IsBelow-Elem p q l h.1 e

  IsBelow-insert :
      (q p : ℕ) (l : List ℕ)
      → IsBelow store q l
      → before store q p ≡ true
      → IsBelow store q (insert store p l)
  unfolding insert
  IsBelow-insert q p [] h k = (k, tt)
  IsBelow-insert q p (r ∷ l) h k = ground (arith, IsBelow-insert q p l)

  pub insert-IsSorted : (p : ℕ) (l : List ℕ) → IsSorted store l → IsSorted store (insert store p l)
  unfolding insert
  insert-IsSorted p [] h = (tt, tt)
  insert-IsSorted p (q ∷ l) h =
      ground (arith, insert-IsSorted p l, IsBelow-insert q p l, IsBelow-trans p q l)

  pub Elem-insert_self : (p : ℕ) (l : List ℕ) → Elem p (insert store p l)
  unfolding insert
  Elem-insert_self p [] = inl refl
  Elem-insert_self p (q ∷ l) = ground (arith, Elem-insert_self p l, before_total store p q)

  pub Elem-insert_of : (r p : ℕ) (l : List ℕ) → Elem r l → Elem r (insert store p l)
  unfolding insert
  Elem-insert_of r p [] e = absurd e
  Elem-insert_of r p (q ∷ l) e = ground (arith, Elem-insert_of r p l)

  pub Elem-of-insert : (r p : ℕ) (l : List ℕ) → Elem r (insert store p l) → (r ≡ p) ⊎ Elem r l
  unfolding insert
  Elem-of-insert r p [] e = e
  Elem-of-insert r p (q ∷ l) e = ground (arith, Elem-of-insert r p l)

  IsBelow-erase : (q p : ℕ) (l : List ℕ) → IsBelow store q l → IsBelow store q (erase store p l)
  unfolding erase
  IsBelow-erase q p [] h = tt
  IsBelow-erase q p (r ∷ l) h = ground (arith, IsBelow-erase q p l)

  pub erase-IsSorted : (p : ℕ) (l : List ℕ) → IsSorted store l → IsSorted store (erase store p l)
  unfolding erase
  erase-IsSorted p [] h = tt
  erase-IsSorted p (q ∷ l) h = ground (arith, erase-IsSorted p l, IsBelow-erase q p l)

  pub Elem-of-erase : (r p : ℕ) (l : List ℕ) → Elem r (erase store p l) → Elem r l
  unfolding erase
  Elem-of-erase r p [] e = e
  Elem-of-erase r p (q ∷ l) e = ground (arith, Elem-of-erase r p l)

  pub not-Elem-erase : (p : ℕ) (l : List ℕ) → IsSorted store l → ¬ Elem p (erase store p l)
  unfolding erase
  not-Elem-erase p [] h e = e
  not-Elem-erase p (q ∷ l) h e = ground (
    arith,
    not-Elem-erase p l,
    before_irrefl store p,
    before_asym store q p,
    before_total store p q,
    IsBelow-Elem q p l,
    IsBelow-Elem p p l,
    IsBelow-trans p q l,
  )

  pub Elem-erase_ne : (r p : ℕ) (l : List ℕ) → Elem r l → r ≢ p → Elem r (erase store p l)
  unfolding erase
  Elem-erase_ne r p [] e h = absurd e
  Elem-erase_ne r p (q ∷ l) e h = ground (arith, Elem-erase_ne r p l, before_total store p q)

  pub contains-Elem : (p : ℕ) (l : List ℕ) → contains store p l ≡ true → Elem p l
  unfolding contains
  contains-Elem p [] h = cc
  contains-Elem p (q ∷ l) h = ground (arith, contains-Elem p l, before_total store p q)

  pub Elem-contains : (p : ℕ) (l : List ℕ) → IsSorted store l → Elem p l → contains store p l ≡ true
  unfolding contains
  Elem-contains p [] h e = absurd e
  Elem-contains p (q ∷ l) h e =
      ground
        (arith, Elem-contains p l, before_irrefl store p, before_asym store q p, IsBelow-Elem q p l)

  module _ (p : ℕ) (t : Timer) where
    pub before-put_ne : (q r : ℕ) → q ≢ p → r ≢ p → before (put store p t) q r ≡ before store q r
    unfolding comparator
    before-put_ne q r h k = ground arith

    IsBelow-put :
        (q : ℕ) (l : List ℕ) → q ≢ p → ¬ Elem p l → IsBelow store q l → IsBelow (put store p t) q l
    IsBelow-put q [] h k b = tt
    IsBelow-put q (r ∷ l) h k b =
        (before-put_ne q r h (λ e. k (inl (sym e))) ∙ b.0, IsBelow-put q l h (λ e. k (inr e)) b.1)

    -- An object outside the set may change.
    pub put-IsSorted : (l : List ℕ) → ¬ Elem p l → IsSorted store l → IsSorted (put store p t) l
    put-IsSorted [] k s = tt
    put-IsSorted (q ∷ l) k s = (
      IsBelow-put q l (λ e. k (inl (sym e))) (λ e. k (inr e)) s.0,
      put-IsSorted l (λ e. k (inr e)) s.1,
    )

    module _ (same : t.next ≡ (store p).next) where
      before-put_same : (q r : ℕ) → before (put store p t) q r ≡ before store q r
      unfolding comparator
      before-put_same q r = ground arith

      -- Without a new time, the order does not change.
      pub erase-put_same : (l : List ℕ) → erase (put store p t) p l ≡ erase store p l
      unfolding erase
      erase-put_same [] = refl
      erase-put_same (q ∷ l) = rw (before-put_same q p, before-put_same p q, erase-put_same l) refl

      pub contains-put_same : (l : List ℕ) → contains (put store p t) p l ≡ contains store p l
      unfolding contains
      contains-put_same [] = refl
      contains-put_same (q ∷ l) =
          rw (before-put_same q p, before-put_same p q, contains-put_same l) refl
