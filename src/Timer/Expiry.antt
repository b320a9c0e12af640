-- ===== src/Timer/Expiry.antt =====
-- listExpiredCb of src/timer.cpp: where it splits the set. The loops find the timers that are due,
-- whatever the address of the temporary timer is.
use net_ninja.Common.{
  ℕ, ◌≤◌, ◌<◌, ◌≡◌, refl, ap, ◌⊎◌, inl, inr, ◌≢◌, true, false, List, [], ◌∷◌, arith, leb,
  if◌then◌else◌, All, Bool-cases,
}
use net_ninja.Timer.{Timer, less, comparator, lower_bound, same_time, split_expired}
use net_ninja.Timer.Order.{IsBelow, IsSorted, Elem}

module _ (store : ℕ → Timer) (now : ℕ) where
  -- The timers that are due, and those that are not, in the order of the set.
  unfoldable pub due : List ℕ → List ℕ
  due [] = []
  due (p ∷ l) = let rest = due l in if leb (store p).next now then p ∷ rest else rest

  unfoldable pub later : List ℕ → List ℕ
  later [] = []
  later (p ∷ l) = let rest = later l in if leb (store p).next now then rest else p ∷ rest

  abbrev IsLater : List ℕ → Type 0
  IsLater l = All (λ p. now < (store p).next) l

  abbrev IsNotBefore : List ℕ → Type 0
  IsNotBefore l = All (λ p. now ≤ (store p).next) l

  not_before : (p q : ℕ) → less (store p).next p now q ≡ false → now ≤ (store p).next
  unfolding less
  not_before p q h = ground arith

  is_before : (p q : ℕ) → less (store p).next p now q ≡ true → leb (store p).next now ≡ true
  unfolding less
  is_before p q h = ground arith

  due-IsLater : (l : List ℕ) → IsLater l → due l ≡ []
  unfolding due
  due-IsLater [] h = refl
  due-IsLater (p ∷ l) h = ground (arith, due-IsLater l h.1, h.0)

  later-IsLater : (l : List ℕ) → IsLater l → later l ≡ l
  unfolding later
  later-IsLater [] h = refl
  later-IsLater (p ∷ l) h = ground (arith, later-IsLater l h.1, h.0)

  IsLater-below : (p : ℕ) (l : List ℕ) → now < (store p).next → IsBelow store p l → IsLater l
  unfolding comparator less
  IsLater-below p [] h b = tt
  IsLater-below p (q ∷ l) h b = (ground (arith, b.0), IsLater-below p l h b.1)

  IsNotBefore-below :
      (p : ℕ) (l : List ℕ) → now ≤ (store p).next → IsBelow store p l → IsNotBefore l
  unfolding comparator less
  IsNotBefore-below p [] h b = tt
  IsNotBefore-below p (q ∷ l) h b = (ground (arith, b.0), IsNotBefore-below p l h b.1)

  same_time-eq :
      (l : List ℕ) → IsSorted store l → IsNotBefore l → same_time store now l ≡ (due l, later l)
  unfolding same_time due later
  same_time-eq [] s n = refl
  same_time-eq (p ∷ l) s n =
      ground
        (arith, same_time-eq l s.1 n.1, n.0, due-IsLater l, later-IsLater l, IsLater-below p l, s.0)

  pub due_nil : due [] ≡ []
  unfolding due
  due_nil = refl

  pub later_nil : later [] ≡ []
  unfolding later
  later_nil = refl

  -- When the first is not due, none is.
  pub due-late :
      (p : ℕ) (l : List ℕ) → IsSorted store (p ∷ l) → now < (store p).next → due (p ∷ l) ≡ []
  due-late p l s h = due-IsLater (p ∷ l) (h, IsLater-below p l h s.0)

  pub later-late :
      (p : ℕ) (l : List ℕ) → IsSorted store (p ∷ l) → now < (store p).next → later (p ∷ l) ≡ p ∷ l
  later-late p l s h = later-IsLater (p ∷ l) (h, IsLater-below p l h s.0)

  pub due-early : (p : ℕ) (l : List ℕ) → (store p).next ≤ now → due (p ∷ l) ≢ []
  unfolding due
  due-early p l h e = ground arith

  due_cons :
      (p : ℕ) (l : List ℕ)
      → leb (store p).next now ≡ true
      → ◌≡◌ {A = List ℕ × List ℕ} (p ∷ due l, later l) (due (p ∷ l), later (p ∷ l))
  unfolding due later
  due_cons p l h = rw h refl

  -- In a sorted set, with no rollover, the loops split what is due from what is not.
  pub split_expired-eq :
      (q : ℕ) (l : List ℕ) → IsSorted store l → split_expired store false now q l ≡ (due l, later l)
  unfolding split_expired lower_bound
  split_expired-eq q [] s = same_time-eq [] s tt
  split_expired-eq q (p ∷ l) s = elim (Bool-cases (less (store p).next p now q)) [
    | inl h ↦
        rw (h, ap (λ t. t.0) (split_expired-eq q l s.1), ap (λ t. t.1) (split_expired-eq q l s.1))
          (due_cons p l (is_before p q h))
    | inr h ↦
        rw h
          (same_time-eq (p ∷ l) s (not_before p q h, IsNotBefore-below p l (not_before p q h) s.0))
  ]

  pub Elem-of-due : (r : ℕ) (l : List ℕ) → Elem r (due l) → Elem r l
  unfolding due
  Elem-of-due r [] e = e
  Elem-of-due r (p ∷ l) e = ground (arith, Elem-of-due r l)

  pub Elem-of-later : (r : ℕ) (l : List ℕ) → Elem r (later l) → Elem r l
  unfolding later
  Elem-of-later r [] e = e
  Elem-of-later r (p ∷ l) e = ground (arith, Elem-of-later r l)

  pub Elem-due_or_later : (r : ℕ) (l : List ℕ) → Elem r l → Elem r (due l) ⊎ Elem r (later l)
  unfolding due later
  Elem-due_or_later r [] e = absurd e
  Elem-due_or_later r (p ∷ l) e = ground (arith, Elem-due_or_later r l)

  pub due-IsDue : (r : ℕ) (l : List ℕ) → Elem r (due l) → (store r).next ≤ now
  unfolding due
  due-IsDue r [] e = absurd e
  due-IsDue r (p ∷ l) e = ground (arith, due-IsDue r l)

  pub later-IsLater-Elem : (r : ℕ) (l : List ℕ) → Elem r (later l) → now < (store r).next
  unfolding later
  later-IsLater-Elem r [] e = absurd e
  later-IsLater-Elem r (p ∷ l) e = ground (arith, later-IsLater-Elem r l)

  IsBelow-due : (p : ℕ) (l : List ℕ) → IsBelow store p l → IsBelow store p (due l)
  unfolding due
  IsBelow-due p [] b = tt
  IsBelow-due p (q ∷ l) b = ground (arith, IsBelow-due p l)

  pub due-IsSorted : (l : List ℕ) → IsSorted store l → IsSorted store (due l)
  unfolding due
  due-IsSorted [] s = tt
  due-IsSorted (p ∷ l) s = ground (arith, due-IsSorted l, IsBelow-due p l)

  IsBelow-later : (p : ℕ) (l : List ℕ) → IsBelow store p l → IsBelow store p (later l)
  unfolding later
  IsBelow-later p [] b = tt
  IsBelow-later p (q ∷ l) b = ground (arith, IsBelow-later p l)

  pub later-IsSorted : (l : List ℕ) → IsSorted store l → IsSorted store (later l)
  unfolding later
  later-IsSorted [] s = tt
  later-IsSorted (p ∷ l) s = ground (arith, later-IsSorted l, IsBelow-later p l)
