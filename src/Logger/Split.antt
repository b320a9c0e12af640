-- ===== src/Logger/Split.antt =====
-- The loops of `LogFormatter::init` in src/logger.cpp at a text and at a directive.
use net_ninja.Common.{
  ℕ, suc, ◌+◌, ◌≡◌, refl, sym, ap, ◌∙◌, Bool, true, false, [], ◌∷◌, ◌++◌, arith, append-nil,
  append_assoc, All, length, ◌==◌, length-append, Bool-cases, inl, inr,
}
use net_ninja.Http.{Text, codes}
use net_ninja.Logger.Pattern.{flush, is_end, next_percent, scan_format, scan_name, split}

abbrev pub IsWithout : ℕ → Text → Type 0
IsWithout c t = All (λ x. (x == c) ≡ false) t

module _ (isalpha : ℕ → Bool) where
  -- A directive ends before this text.
  abbrev pub is_stop : Text → Bool
  is_stop [] = true
  is_stop (c ∷ s) = is_end isalpha c

scan_format_end :
    (n : ℕ) (str fmt f s : Text)
    → IsWithout b'}' f
    → scan_format n str fmt (f ++ b'}' ∷ s)
      ≡ record { str = str; fmt = fmt ++ f; fmt_status = 0; n = n + suc (length f) }
unfolding scan_format
scan_format_end n str fmt [] s h = rw (append-nil fmt) (ground arith)
scan_format_end n str fmt (c ∷ f) s (h, k) =
    rw (h, scan_format_end (suc n) str (fmt ++ c ∷ []) f s k, append_assoc fmt (c ∷ []) f)
      (ground arith)

module _ (isalpha : ℕ → Bool) where
  split_skip : (u nstr s : Text) → split isalpha (length u) nstr (u ++ s) ≡ split isalpha 0 nstr s
  unfolding split
  split_skip [] nstr s = refl
  split_skip (c ∷ u) nstr s = split_skip u nstr s

  pub split_text :
      (t nstr s : Text)
      → IsWithout b'%' t
      → split isalpha 0 nstr (t ++ s) ≡ split isalpha 0 (nstr ++ t) s
  unfolding split
  split_text [] nstr s h = rw (append-nil nstr) refl
  split_text (c ∷ t) nstr s (h, k) =
      rw (h, split_text t (nstr ++ c ∷ []) s k, append_assoc nstr (c ∷ []) t) refl

  scan_name_stop :
      (n : ℕ) (str s : Text)
      → is_stop isalpha s ≡ true
      → scan_name isalpha n str s ≡ record { str = str; fmt = []; fmt_status = 0; n = n }
  unfolding scan_name
  scan_name_stop n str [] h = refl
  scan_name_stop n str (c ∷ s) h = rw h refl

  pub split_key :
      (k : ℕ) (nstr s : Text)
      → isalpha k ≡ true
      → (k == b'{') ≡ false
      → (k == b'%') ≡ false
      → is_stop isalpha s ≡ true
      → split isalpha 0 nstr (b'%' ∷ k ∷ s) ≡ (
        flush nstr ++ record { str = k ∷ []; fmt = []; type = 1 } ∷ (split isalpha 0 [] s).0,
        (split isalpha 0 [] s).1,
      )
  unfolding split scan_name
  split_key k nstr s alpha brace percent stop =
      rw (percent, alpha, brace, scan_name_stop 1 (k ∷ []) s stop, split_skip (k ∷ []) [] s) refl

  split_escape :
      (nstr s str fmt : Text) (n : ℕ)
      → next_percent s ≡ false
      → scan_name isalpha 0 [] s ≡ record { str = str; fmt = fmt; fmt_status = 0; n = n }
      → split isalpha 0 nstr (b'%' ∷ s) ≡ (
        flush nstr ++ record { str = str; fmt = fmt; type = 1 } ∷ (split isalpha n [] s).0,
        (split isalpha n [] s).1,
      )
  unfolding split
  split_escape nstr s str fmt n h e = rw (h, e) refl

  is_end_brace : is_end isalpha b'{' ≡ false
  is_end_brace = elim (Bool-cases (isalpha b'{')) [ inl h ↦ rw h refl | inr h ↦ rw h refl ]

  scan_name_date :
      (f s : Text)
      → isalpha b'd' ≡ true
      → IsWithout b'}' f
      → scan_name isalpha 0 [] (codes "d{" ++ f ++ b'}' ∷ s)
        ≡ record { str = codes "d"; fmt = f; fmt_status = 0; n = 2 + suc (length f) }
  unfolding scan_name
  scan_name_date f s alpha h = rw (alpha, is_end_brace) (scan_format_end 2 (codes "d") [] f s h)

  split_skip_date :
      (f s : Text)
      → split isalpha (2 + suc (length f)) [] (codes "d{" ++ f ++ b'}' ∷ s) ≡ split isalpha 0 [] s
  split_skip_date f s =
      ap (λ (k : ℕ). split isalpha k [] (codes "d{" ++ f ++ b'}' ∷ s))
        (omega (arith, length-append f (b'}' ∷ [])))
      ∙ ap
          (λ (t : Text). split isalpha (length (codes "d{" ++ f ++ b'}' ∷ [])) [] (codes "d{" ++ t))
          (sym (append_assoc f (b'}' ∷ []) s))
      ∙ split_skip (codes "d{" ++ f ++ b'}' ∷ []) [] s

  pub split_date :
      (f nstr s : Text)
      → isalpha b'd' ≡ true
      → IsWithout b'}' f
      → split isalpha 0 nstr (codes "%d{" ++ f ++ b'}' ∷ s) ≡ (
        flush nstr ++ record { str = codes "d"; fmt = f; type = 1 } ∷ (split isalpha 0 [] s).0,
        (split isalpha 0 [] s).1,
      )
  split_date f nstr s alpha h = rw (← split_skip_date f s) (
      split_escape nstr (codes "d{" ++ f ++ b'}' ∷ s) (codes "d") f (2 + suc (length f)) refl
        (scan_name_date f s alpha h))
