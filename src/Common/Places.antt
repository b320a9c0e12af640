-- ===== src/Common/Places.antt =====
-- A place of a list, before and after it is set.
use Prim.Native.Nat.{ℕ, zero, suc, ◌<◌}
use mathlib.Core.Path.{◌≡◌, refl, ap}
use mathlib.Core.Logic.{◌≢◌}
use mathlib.Core.List.{List, [], ◌∷◌, ◌++◌}
use mathlib.Core.Option.{some}
use native.Mathlib.Omega.{arith}
use net_ninja.Common.Lists.{length, get_elem?, set}

module _ {ℓ} {A : Type ℓ} where
  pub length-set : (k : ℕ) (l : List A) (a : A) → length (set l k a) ≡ length l
  length-set k [] a = refl
  length-set zero (b ∷ l) a = refl
  length-set (suc k) (b ∷ l) a = ap suc (length-set k l a)

  pub get-below : (k : ℕ) (l : List A) → k < length l → (a : A) × (get_elem? l k ≡ some a)
  get-below k [] h = absurd (omega arith)
  get-below zero (a ∷ l) h = (a, refl)
  get-below (suc k) (a ∷ l) h = get-below k l (omega arith)

  pub get-set :
      (k : ℕ) (l : List A) (a b : A) → get_elem? l k ≡ some a → get_elem? (set l k b) k ≡ some b
  get-set k [] a b e = cc
  get-set zero (c ∷ l) a b e = refl
  get-set (suc k) (c ∷ l) a b e = get-set k l a b e

  pub get-set_other :
      (k n : ℕ) (l : List A) (b : A) → k ≢ n → get_elem? (set l k b) n ≡ get_elem? l n
  get-set_other k n [] b h = refl
  get-set_other zero zero (c ∷ l) b h = absurd (h refl)
  get-set_other zero (suc n) (c ∷ l) b h = refl
  get-set_other (suc k) zero (c ∷ l) b h = refl
  get-set_other (suc k) (suc n) (c ∷ l) b h = get-set_other k n l b (λ e. h (ap suc e))

  pub get-append_below :
      (k : ℕ) (l r : List A) → k < length l → get_elem? (l ++ r) k ≡ get_elem? l k
  get-append_below k [] r h = absurd (omega arith)
  get-append_below zero (a ∷ l) r h = refl
  get-append_below (suc k) (a ∷ l) r h = get-append_below k l r (omega arith)

  pub get-append_at : (l : List A) (a : A) → get_elem? (l ++ a ∷ []) (length l) ≡ some a
  get-append_at [] a = refl
  get-append_at (b ∷ l) a = get-append_at l a
