-- ===== src/Http/Ascii.antt =====
-- A comparison of texts in ASCII that ignores case, as `strcasecmp` does, for the tests.
use net_ninja.Common.{
  ℕ, ◌+◌, ◌≡◌, refl, sym, ◌⊎◌, inl, inr, ◌&&◌, [], ◌∷◌, arith, if◌then◌else◌, ltb, leb,
}
use net_ninja.Http.{Text}
use net_ninja.Http.Headers.{Sign, flip}
use net_ninja.Http.Lookup.{IsCompare}

abbrev lower : ℕ → ℕ
lower c = if leb b'A' c && leb c b'Z' then c + 32 else c

abbrev sign : ℕ → ℕ → Sign
sign a b = if ltb a b then Sign.below else if ltb b a then Sign.above else Sign.same

abbrev next : Sign → Sign → Sign
next Sign.below s = Sign.below
next Sign.same s = s
next Sign.above s = Sign.above

abbrev pub compare : Text → Text → Sign
compare [] [] = Sign.same
compare [] (y ∷ t) = Sign.below
compare (x ∷ s) [] = Sign.above
compare (x ∷ s) (y ∷ t) = next (sign (lower x) (lower y)) (compare s t)

sign-flip : (a b : ℕ) → sign b a ≡ flip (sign a b)
sign-flip a b = ground arith

next-flip : (s t : Sign) → next (flip s) (flip t) ≡ flip (next s t)
next-flip Sign.below t = refl
next-flip Sign.same t = refl
next-flip Sign.above t = refl

compare-flip : (s t : Text) → compare t s ≡ flip (compare s t)
compare-flip [] [] = refl
compare-flip [] (y ∷ t) = refl
compare-flip (x ∷ s) [] = refl
compare-flip (x ∷ s) (y ∷ t) =
    rw (sign-flip (lower x) (lower y), compare-flip s t)
      (next-flip (sign (lower x) (lower y)) (compare s t))

sign_same : (a b : ℕ) → sign a b ≡ Sign.same → a ≡ b
sign_same a b h = ground arith

next_same : (s t : Sign) → next s t ≡ Sign.same → (s ≡ Sign.same) × (t ≡ Sign.same)
next_same Sign.below t h = cc
next_same Sign.same t h = (refl, h)
next_same Sign.above t h = cc

compare_same : (s t u : Text) → compare s t ≡ Sign.same → compare s u ≡ compare t u
compare_same [] [] u h = refl
compare_same [] (y ∷ t) u h = cc
compare_same (x ∷ s) [] u h = cc
compare_same (x ∷ s) (y ∷ t) [] h = refl
compare_same (x ∷ s) (y ∷ t) (z ∷ u) h =
    let (a, b) = next_same (sign (lower x) (lower y)) (compare s t) h in
    rw (sign_same (lower x) (lower y) a, compare_same s t u b) refl

next_below :
    (s t : Sign) → next s t ≡ Sign.below → (s ≡ Sign.below) ⊎ ((s ≡ Sign.same) × (t ≡ Sign.below))
next_below Sign.below t h = inl refl
next_below Sign.same t h = inr (refl, h)
next_below Sign.above t h = cc

sign_trans : (a b c : ℕ) → sign a b ≡ Sign.below → sign b c ≡ Sign.below → sign a c ≡ Sign.below
sign_trans a b c h k = ground arith

compare_trans :
    (s t u : Text) → compare s t ≡ Sign.below → compare t u ≡ Sign.below → compare s u ≡ Sign.below
compare_trans [] [] u h k = cc
compare_trans [] (y ∷ t) [] h k = cc
compare_trans [] (y ∷ t) (z ∷ u) h k = refl
compare_trans (x ∷ s) [] u h k = cc
compare_trans (x ∷ s) (y ∷ t) [] h k = cc
compare_trans (x ∷ s) (y ∷ t) (z ∷ u) h k =
    elim (next_below (sign (lower x) (lower y)) (compare s t) h) [
      | inl a ↦ elim (next_below (sign (lower y) (lower z)) (compare t u) k) [
        | inl b ↦ rw (sign_trans (lower x) (lower y) (lower z) a b) refl
        | inr (b, l) ↦ rw (sym (sign_same (lower y) (lower z) b), a) refl
      ]
      | inr (a, g) ↦ elim (next_below (sign (lower y) (lower z)) (compare t u) k) [
        | inl b ↦ rw (sign_same (lower x) (lower y) a, b) refl
        | inr (b, l) ↦ rw (sign_same (lower x) (lower y) a, b, compare_trans s t u g l) refl
      ]
    ]

pub compare-IsCompare : IsCompare compare
compare-IsCompare = record {
  flip_eq = compare-flip;
  same_eq = compare_same;
  below_trans = compare_trans;
}
