-- ===== src/Common/Lists.antt =====
-- Lists measured and indexed by native numbers, and a block copied into a list.
use Prim.Native.Nat.{ℕ, zero, suc, ◌+◌, ◌-◌, ◌≤◌, min, max}
use mathlib.Core.Path.{◌≡◌, refl, sym, ap, ◌∙◌}
use mathlib.Core.List.{List, [], ◌∷◌, ◌++◌}
use mathlib.Core.Option.{Option, none, some}
use native.Mathlib.Omega.{arith}

module _ {ℓ} {A : Type ℓ} where
  abbrev pub length : List A → ℕ
  length [] = 0
  length (x ∷ xs) = suc (length xs)

  abbrev pub get_elem? : List A → ℕ → Option A
  get_elem? [] i = none
  get_elem? (x ∷ xs) zero = some x
  get_elem? (x ∷ xs) (suc i) = get_elem? xs i

  abbrev pub set : List A → ℕ → A → List A
  set [] i v = []
  set (x ∷ xs) zero v = v ∷ xs
  set (x ∷ xs) (suc i) v = x ∷ set xs i v

  abbrev pub take : ℕ → List A → List A
  take zero xs = []
  take (suc n) [] = []
  take (suc n) (x ∷ xs) = x ∷ take n xs

  abbrev pub drop : ℕ → List A → List A
  drop zero xs = xs
  drop (suc n) [] = []
  drop (suc n) (x ∷ xs) = drop n xs

  abbrev pub replicate : ℕ → A → List A
  replicate zero a = []
  replicate (suc n) a = a ∷ replicate n a

  abbrev pub All {κ} : (A → Type κ) → List A → Type κ
  All P [] = Unit {κ}
  All P (x ∷ xs) = P x × All P xs

  -- `memcpy` of a block to an offset. What does not fit is dropped.
  unfoldable pub overwrite : List A → ℕ → List A → List A
  overwrite [] n ys = []
  overwrite (x ∷ xs) zero [] = x ∷ xs
  overwrite (x ∷ xs) zero (y ∷ ys) = y ∷ overwrite xs zero ys
  overwrite (x ∷ xs) (suc n) ys = x ∷ overwrite xs n ys

add-suc_left : (n m : ℕ) → suc n + m ≡ suc (n + m)
add-suc_left n m = omega arith

module _ {ℓ} {A : Type ℓ} where
  pub length-append : (xs ys : List A) → length (xs ++ ys) ≡ length xs + length ys
  length-append [] ys = omega arith
  length-append (x ∷ xs) ys = omega (arith, length-append xs ys)

  pub take-append-drop : (n : ℕ) (xs : List A) → take n xs ++ drop n xs ≡ xs
  take-append-drop zero xs = refl
  take-append-drop (suc n) [] = refl
  take-append-drop (suc n) (x ∷ xs) = ap (λ (t : List A). x ∷ t) (take-append-drop n xs)

  pub length-take : (n : ℕ) (xs : List A) → length (take n xs) ≡ min n (length xs)
  length-take zero xs = omega arith
  length-take (suc n) [] = omega arith
  length-take (suc n) (x ∷ xs) = omega (arith, length-take n xs)

  pub length-drop : (n : ℕ) (xs : List A) → length (drop n xs) ≡ length xs - n
  length-drop zero xs = omega arith
  length-drop (suc n) [] = omega arith
  length-drop (suc n) (x ∷ xs) = omega (arith, length-drop n xs)

  pub length-overwrite :
      (xs : List A) (n : ℕ) (ys : List A) → length (overwrite xs n ys) ≡ length xs
  unfolding overwrite
  length-overwrite [] n ys = refl
  length-overwrite (x ∷ xs) zero [] = refl
  length-overwrite (x ∷ xs) zero (y ∷ ys) = ap suc (length-overwrite xs zero ys)
  length-overwrite (x ∷ xs) (suc n) ys = ap suc (length-overwrite xs n ys)

  pub overwrite-nil : (xs : List A) (n : ℕ) → overwrite xs n [] ≡ xs
  unfolding overwrite
  overwrite-nil [] n = refl
  overwrite-nil (x ∷ xs) zero = refl
  overwrite-nil (x ∷ xs) (suc n) = ap (λ (t : List A). x ∷ t) (overwrite-nil xs n)

  -- A block that goes past the end of the first part goes on at the start of the second.
  pub overwrite-append :
      (xs rest : List A) (n m : ℕ) (ys : List A)
      → n + m ≡ length xs
      → overwrite (xs ++ rest) n ys ≡ overwrite xs n (take m ys) ++ overwrite rest 0 (drop m ys)
  unfolding overwrite
  overwrite-append [] rest zero zero ys h = refl
  overwrite-append [] rest zero (suc m) ys h = absurd (omega arith)
  overwrite-append [] rest (suc n) m ys h = absurd (omega arith)
  overwrite-append (x ∷ xs) rest zero zero ys h = absurd (omega arith)
  overwrite-append (x ∷ xs) rest zero (suc m) [] h =
      ap (λ (t : List A). x ∷ (xs ++ t)) (sym (overwrite-nil rest 0))
  overwrite-append (x ∷ xs) rest zero (suc m) (y ∷ ys) h =
      ap (λ (t : List A). y ∷ t) (overwrite-append xs rest zero m ys (omega arith))
  overwrite-append (x ∷ xs) rest (suc n) m ys h =
      ap (λ (t : List A). x ∷ t) (overwrite-append xs rest n m ys (omega arith))

  -- A block that fits the first part leaves the second alone.
  pub overwrite-append_left :
      (xs rest : List A) (n : ℕ) (ys : List A)
      → n + length ys ≤ length xs
      → overwrite (xs ++ rest) n ys ≡ overwrite xs n ys ++ rest
  unfolding overwrite
  overwrite-append_left [] rest n [] h = overwrite-nil rest n
  overwrite-append_left [] rest n (y ∷ ys) h = absurd (omega arith)
  overwrite-append_left (x ∷ xs) rest zero [] h = refl
  overwrite-append_left (x ∷ xs) rest zero (y ∷ ys) h =
      ap (λ (t : List A). y ∷ t) (overwrite-append_left xs rest zero ys (omega arith))
  overwrite-append_left (x ∷ xs) rest (suc n) ys h =
      ap (λ (t : List A). x ∷ t) (overwrite-append_left xs rest n ys (omega arith))

  pub drop-nil : (n : ℕ) → drop {A = A} n [] ≡ []
  drop-nil zero = refl
  drop-nil (suc n) = refl

  pub take-nil : (n : ℕ) → take {A = A} n [] ≡ []
  take-nil zero = refl
  take-nil (suc n) = refl

  take-overwrite_zero :
      (xs : List A) (k s : ℕ) (ys : List A)
      → length ys ≤ length xs
      → k ≡ max s (length ys)
      → take k (overwrite xs 0 ys) ≡ ys ++ drop (length ys) (take s xs)
  unfolding overwrite
  take-overwrite_zero xs k s [] h e =
      rw (overwrite-nil xs 0) (ap (λ (t : ℕ). take t xs) (omega arith))
  take-overwrite_zero [] k s (y ∷ ys) h e = absurd (omega arith)
  take-overwrite_zero (x ∷ xs) zero s (y ∷ ys) h e = absurd (omega arith)
  take-overwrite_zero (x ∷ xs) (suc k) zero (y ∷ ys) h e =
      ap (λ (t : List A). y ∷ t)
        (take-overwrite_zero xs k 0 ys (omega arith) (omega arith)
          ∙ ap (◌++◌ ys) (drop-nil (length ys)))
  take-overwrite_zero (x ∷ xs) (suc k) (suc s) (y ∷ ys) h e =
      ap (λ (t : List A). y ∷ t) (take-overwrite_zero xs k s ys (omega arith) (omega arith))

  -- What the block holds after the copy, up to its old length or to the end of the copy.
  pub take-overwrite :
      (xs : List A) (n k s : ℕ) (ys : List A)
      → n + length ys ≤ length xs
      → k ≡ max s (n + length ys)
      → n ≤ s
      → take k (overwrite xs n ys) ≡ take n (take s xs) ++ (ys ++ drop (n + length ys) (take s xs))
  unfolding overwrite
  take-overwrite xs zero k s ys h e l =
      take-overwrite_zero xs k s ys (omega arith) (omega arith)
      ∙ ap (λ (t : ℕ). ys ++ drop t (take s xs)) (omega arith)
  take-overwrite [] (suc n) k s ys h e l = absurd (omega arith)
  take-overwrite (x ∷ xs) (suc n) zero s ys h e l = absurd (omega arith)
  take-overwrite (x ∷ xs) (suc n) (suc k) zero ys h e l = absurd (omega arith)
  take-overwrite (x ∷ xs) (suc n) (suc k) (suc s) ys h e l = rw (add-suc_left n (length ys)) (
      ap (λ (t : List A). x ∷ t)
        (take-overwrite xs n k s ys (omega arith) (omega arith) (omega arith)))

  pub drop-drop : (m n : ℕ) (xs : List A) → drop m (drop n xs) ≡ drop (n + m) xs
  drop-drop m zero xs = ap (λ (t : ℕ). drop t xs) (omega arith)
  drop-drop m (suc n) [] = rw (drop-nil m, drop-nil (suc n + m))
  drop-drop m (suc n) (x ∷ xs) = rw (add-suc_left n m) (drop-drop m n xs)

  pub take-take : (m n : ℕ) (xs : List A) → m ≤ n → take m (take n xs) ≡ take m xs
  take-take zero n xs h = refl
  take-take (suc m) zero xs h = absurd (omega arith)
  take-take (suc m) (suc n) [] h = refl
  take-take (suc m) (suc n) (x ∷ xs) h = ap (λ (t : List A). x ∷ t) (take-take m n xs (omega arith))

  pub take-drop : (m n : ℕ) (xs : List A) → take m (drop n xs) ≡ drop n (take (n + m) xs)
  take-drop m zero xs = ap (λ (t : ℕ). take t xs) (omega arith)
  take-drop m (suc n) [] = rw (take-nil m, take-nil (suc n + m))
  take-drop m (suc n) (x ∷ xs) = rw (add-suc_left n m) (take-drop m n xs)

  pub take_all : (n : ℕ) (xs : List A) → length xs ≤ n → take n xs ≡ xs
  take_all zero [] h = refl
  take_all zero (x ∷ xs) h = absurd (omega arith)
  take_all (suc n) [] h = refl
  take_all (suc n) (x ∷ xs) h = ap (λ (t : List A). x ∷ t) (take_all n xs (omega arith))

  pub drop_all : (n : ℕ) (xs : List A) → length xs ≤ n → drop n xs ≡ []
  drop_all zero [] h = refl
  drop_all zero (x ∷ xs) h = absurd (omega arith)
  drop_all (suc n) [] h = refl
  drop_all (suc n) (x ∷ xs) h = drop_all n xs (omega arith)

  pub take-append_le : (n : ℕ) (xs ys : List A) → n ≤ length xs → take n (xs ++ ys) ≡ take n xs
  take-append_le zero xs ys h = refl
  take-append_le (suc n) [] ys h = absurd (omega arith)
  take-append_le (suc n) (x ∷ xs) ys h =
      ap (λ (t : List A). x ∷ t) (take-append_le n xs ys (omega arith))

  pub take-append_add :
      (n m : ℕ) (xs ys : List A) → length xs ≡ n → take (n + m) (xs ++ ys) ≡ xs ++ take m ys
  take-append_add zero m [] ys h = ap (λ (t : ℕ). take t ys) (omega arith)
  take-append_add (suc n) m [] ys h = absurd (omega arith)
  take-append_add zero m (x ∷ xs) ys h = absurd (omega arith)
  take-append_add (suc n) m (x ∷ xs) ys h =
      rw (add-suc_left n m) (ap (λ (t : List A). x ∷ t) (take-append_add n m xs ys (omega arith)))

  pub drop-append_le :
      (n : ℕ) (xs ys : List A) → n ≤ length xs → drop n (xs ++ ys) ≡ drop n xs ++ ys
  drop-append_le zero xs ys h = refl
  drop-append_le (suc n) [] ys h = absurd (omega arith)
  drop-append_le (suc n) (x ∷ xs) ys h = drop-append_le n xs ys (omega arith)

  pub drop-append_add :
      (n m : ℕ) (xs ys : List A) → length xs ≡ n → drop (n + m) (xs ++ ys) ≡ drop m ys
  drop-append_add zero m [] ys h = ap (λ (t : ℕ). drop t ys) (omega arith)
  drop-append_add (suc n) m [] ys h = absurd (omega arith)
  drop-append_add zero m (x ∷ xs) ys h = absurd (omega arith)
  drop-append_add (suc n) m (x ∷ xs) ys h =
      rw (add-suc_left n m) (drop-append_add n m xs ys (omega arith))

  pub take-append_over :
      (n size : ℕ) (xs ys : List A)
      → length xs ≡ n
      → n ≤ size
      → take n xs ++ take (size - n) ys ≡ take size (xs ++ ys)
  take-append_over n size xs ys h l =
      ap (λ (t : List A). t ++ take (size - n) ys) (take_all n xs (omega arith))
      ∙ sym (take-append_add n (size - n) xs ys h)
      ∙ ap (λ (t : ℕ). take t (xs ++ ys)) (omega arith)

  -- A copy behind the first part changes the second alone.
  pub overwrite-append_right :
      (xs rest : List A) (n m : ℕ) (ys : List A)
      → length xs ≡ n
      → overwrite (xs ++ rest) (n + m) ys ≡ xs ++ overwrite rest m ys
  unfolding overwrite
  overwrite-append_right [] rest zero m ys h = ap (λ (t : ℕ). overwrite rest t ys) (omega arith)
  overwrite-append_right [] rest (suc n) m ys h = absurd (omega arith)
  overwrite-append_right (x ∷ xs) rest zero m ys h = absurd (omega arith)
  overwrite-append_right (x ∷ xs) rest (suc n) m ys h =
      rw (add-suc_left n m)
        (ap (λ (t : List A). x ∷ t) (overwrite-append_right xs rest n m ys (omega arith)))

  pub length-replicate : (n : ℕ) (a : A) → length (replicate n a) ≡ n
  length-replicate zero a = refl
  length-replicate (suc n) a = ap suc (length-replicate n a)
