-- ===== src/Logger/Printed.antt =====
-- The pattern of src/logger.cpp as it is printed from its items.
use net_ninja.Common.{
  ℕ, ◌≡◌, refl, ap, ◌∙◌, Bool, true, false, ◌&&◌, List, [], ◌∷◌, ◌++◌, map, append-nil,
  append_assoc, ◌==◌, ◌||◌, leb, ◌⊎◌, inl, inr, true-false,
}
use net_ninja.Http.{Text, codes, same_text}
use net_ninja.Logger.Pattern.{
  FormatItem, Part, flush, is_empty, scan_name, split, to_item, to_items, new_date_time,
  new_formatter, s_format_items,
}
use net_ninja.Logger.Split.{IsWithout, is_stop, split_text, split_key, split_date}

-- The item as a pattern names it.
abbrev pub print_item : FormatItem → Text
print_item FormatItem.message = codes "%m"
print_item FormatItem.level = codes "%p"
print_item FormatItem.elapse = codes "%r"
print_item FormatItem.name = codes "%c"
print_item FormatItem.thread_id = codes "%t"
print_item FormatItem.fiber_id = codes "%F"
print_item (FormatItem.date_time f) = codes "%d{" ++ f ++ codes "}"
print_item FormatItem.filename = codes "%f"
print_item FormatItem.line = codes "%l"
print_item FormatItem.new_line = codes "%n"
print_item (FormatItem.string s) = s
print_item FormatItem.tab = codes "%T"
print_item FormatItem.thread_name = codes "%N"

abbrev pub print_items : List FormatItem → Text
print_items [] = []
print_items (i ∷ l) = print_item i ++ print_items l

abbrev pub is_string : List FormatItem → Bool
is_string [] = false
is_string (FormatItem.string s ∷ l) = true
is_string (i ∷ l) = false

abbrev pub is_letter : ℕ → Bool
is_letter c = leb b'A' c && leb c b'Z' || leb b'a' c && leb c b'z'

-- `isalpha` of C holds of the letters of ASCII in every locale, and not of the percent sign.
pub record IsAlpha (isalpha : ℕ → Bool) : Type 0 where
  pub letters : (c : ℕ) → is_letter c ≡ true → isalpha c ≡ true
  pub percent : isalpha b'%' ≡ false

module _ (isalpha : ℕ → Bool) where
  -- The texts are not empty, have no percent sign and do not follow one another, the formats of dates
  -- are not empty and have no closing brace, and what follows any other directive ends its name.
  abbrev pub IsPrintable : List FormatItem → Type 0
  IsPrintable [] = Unit
  IsPrintable (FormatItem.string s ∷ l) =
      (is_empty s ≡ false) × IsWithout b'%' s × (is_string l ≡ false) × IsPrintable l
  IsPrintable (FormatItem.date_time f ∷ l) = (is_empty f ≡ false) × IsWithout b'}' f × IsPrintable l
  IsPrintable (i ∷ l) = (is_stop isalpha (print_items l) ≡ true) × IsPrintable l

abbrev part : FormatItem → Part
part (FormatItem.string s) = record { str = s; fmt = []; type = 0 }
part (FormatItem.date_time f) = record { str = codes "d"; fmt = f; type = 1 }
part FormatItem.message = record { str = codes "m"; fmt = []; type = 1 }
part FormatItem.level = record { str = codes "p"; fmt = []; type = 1 }
part FormatItem.elapse = record { str = codes "r"; fmt = []; type = 1 }
part FormatItem.name = record { str = codes "c"; fmt = []; type = 1 }
part FormatItem.thread_id = record { str = codes "t"; fmt = []; type = 1 }
part FormatItem.fiber_id = record { str = codes "F"; fmt = []; type = 1 }
part FormatItem.filename = record { str = codes "f"; fmt = []; type = 1 }
part FormatItem.line = record { str = codes "l"; fmt = []; type = 1 }
part FormatItem.new_line = record { str = codes "n"; fmt = []; type = 1 }
part FormatItem.tab = record { str = codes "T"; fmt = []; type = 1 }
part FormatItem.thread_name = record { str = codes "N"; fmt = []; type = 1 }

module _ (isalpha : ℕ → Bool) where
  split_date_item :
      (f nstr : Text) (l : List FormatItem)
      → isalpha b'd' ≡ true
      → IsWithout b'}' f
      → split isalpha 0 [] (print_items l) ≡ (map part l, false)
      → split isalpha 0 nstr (print_items (FormatItem.date_time f ∷ l))
        ≡ (flush nstr ++ part (FormatItem.date_time f) ∷ map part l, false)
  split_date_item f nstr l alpha h e =
      ap (λ (t : Text). split isalpha 0 nstr (codes "%d{" ++ t))
        (append_assoc f (codes "}") (print_items l))
      ∙ split_date isalpha f nstr (print_items l) alpha h
      ∙ rw e refl

  split_key_item :
      (k : ℕ) (nstr : Text) (l : List FormatItem)
      → isalpha k ≡ true
      → (k == b'{') ≡ false
      → (k == b'%') ≡ false
      → is_stop isalpha (print_items l) ≡ true
      → split isalpha 0 [] (print_items l) ≡ (map part l, false)
      → split isalpha 0 nstr (b'%' ∷ k ∷ print_items l)
        ≡ (flush nstr ++ record { str = k ∷ []; fmt = []; type = 1 } ∷ map part l, false)
  split_key_item k nstr l alpha brace percent stop e =
      rw (split_key isalpha k nstr (print_items l) alpha brace percent stop, e) refl

  -- What follows a text is not a text, so that a pending text is stored as it is.
  split-print_items :
      (nstr : Text) (l : List FormatItem)
      → IsAlpha isalpha
      → IsPrintable isalpha l
      → (is_string l ≡ false) ⊎ (nstr ≡ [])
      → split isalpha 0 nstr (print_items l) ≡ (flush nstr ++ map part l, false)
  unfolding split
  split-print_items nstr [] a p q = rw (append-nil (flush nstr)) refl
  split-print_items nstr (FormatItem.string [] ∷ l) a p q = absurd (true-false refl p.0)
  split-print_items nstr (FormatItem.string (c ∷ s) ∷ l) a p (inl e) = cc
  split-print_items nstr (FormatItem.string (c ∷ s) ∷ l) a (f, w, n, p) (inr e) =
      rw (e, split_text isalpha (c ∷ s) [] (print_items l) w)
        (split-print_items (c ∷ s) l a p (inl n))
  split-print_items nstr (FormatItem.date_time f ∷ l) a (e, w, p) q =
      split_date_item f nstr l (a.letters b'd' refl) w (split-print_items [] l a p (inr refl))
  split-print_items nstr (FormatItem.message ∷ l) a (s, p) q =
      split_key_item b'm' nstr l (a.letters b'm' refl) refl refl s
        (split-print_items [] l a p (inr refl))
  split-print_items nstr (FormatItem.level ∷ l) a (s, p) q =
      split_key_item b'p' nstr l (a.letters b'p' refl) refl refl s
        (split-print_items [] l a p (inr refl))
  split-print_items nstr (FormatItem.elapse ∷ l) a (s, p) q =
      split_key_item b'r' nstr l (a.letters b'r' refl) refl refl s
        (split-print_items [] l a p (inr refl))
  split-print_items nstr (FormatItem.name ∷ l) a (s, p) q =
      split_key_item b'c' nstr l (a.letters b'c' refl) refl refl s
        (split-print_items [] l a p (inr refl))
  split-print_items nstr (FormatItem.thread_id ∷ l) a (s, p) q =
      split_key_item b't' nstr l (a.letters b't' refl) refl refl s
        (split-print_items [] l a p (inr refl))
  split-print_items nstr (FormatItem.new_line ∷ l) a (s, p) q =
      split_key_item b'n' nstr l (a.letters b'n' refl) refl refl s
        (split-print_items [] l a p (inr refl))
  split-print_items nstr (FormatItem.filename ∷ l) a (s, p) q =
      split_key_item b'f' nstr l (a.letters b'f' refl) refl refl s
        (split-print_items [] l a p (inr refl))
  split-print_items nstr (FormatItem.line ∷ l) a (s, p) q =
      split_key_item b'l' nstr l (a.letters b'l' refl) refl refl s
        (split-print_items [] l a p (inr refl))
  split-print_items nstr (FormatItem.fiber_id ∷ l) a (s, p) q =
      split_key_item b'F' nstr l (a.letters b'F' refl) refl refl s
        (split-print_items [] l a p (inr refl))
  split-print_items nstr (FormatItem.thread_name ∷ l) a (s, p) q =
      split_key_item b'N' nstr l (a.letters b'N' refl) refl refl s
        (split-print_items [] l a p (inr refl))
  split-print_items nstr (FormatItem.tab ∷ l) a (s, p) q =
      split_key_item b'T' nstr l (a.letters b'T' refl) refl refl s
        (split-print_items [] l a p (inr refl))

  to_items-part : (l : List FormatItem) → IsPrintable isalpha l → to_items (map part l) ≡ (l, false)
  unfolding to_items to_item new_date_time s_format_items same_text
  to_items-part [] p = refl
  to_items-part (FormatItem.date_time f ∷ l) p = rw (p.0, to_items-part l p.2) refl
  to_items-part (FormatItem.string s ∷ l) p = rw (to_items-part l p.3) refl
  to_items-part (FormatItem.message ∷ l) p = rw (to_items-part l p.1) refl
  to_items-part (FormatItem.level ∷ l) p = rw (to_items-part l p.1) refl
  to_items-part (FormatItem.elapse ∷ l) p = rw (to_items-part l p.1) refl
  to_items-part (FormatItem.name ∷ l) p = rw (to_items-part l p.1) refl
  to_items-part (FormatItem.thread_id ∷ l) p = rw (to_items-part l p.1) refl
  to_items-part (FormatItem.fiber_id ∷ l) p = rw (to_items-part l p.1) refl
  to_items-part (FormatItem.filename ∷ l) p = rw (to_items-part l p.1) refl
  to_items-part (FormatItem.line ∷ l) p = rw (to_items-part l p.1) refl
  to_items-part (FormatItem.new_line ∷ l) p = rw (to_items-part l p.1) refl
  to_items-part (FormatItem.tab ∷ l) p = rw (to_items-part l p.1) refl
  to_items-part (FormatItem.thread_name ∷ l) p = rw (to_items-part l p.1) refl

-- The pattern printed from a list of items is parsed into these items without an error, if the list is
-- printable and `isalpha` holds of the letters of ASCII and not of the percent sign.
pub new_formatter-print_items :
    (isalpha : ℕ → Bool) (l : List FormatItem)
    → IsAlpha isalpha
    → IsPrintable isalpha l
    → new_formatter isalpha (print_items l)
      ≡ record { pattern = print_items l; items = l; is_error = false }
unfolding new_formatter
new_formatter-print_items isalpha l a p =
    rw (split-print_items isalpha [] l a p (inr refl), to_items-part isalpha l p) refl

flush_text :
    (u : Text) (c : ℕ) → flush (u ++ c ∷ []) ≡ record { str = u ++ c ∷ []; fmt = []; type = 0 } ∷ []
flush_text [] c = refl
flush_text (x ∷ u) c = refl

module _ (isalpha : ℕ → Bool) (u : Text) (h : IsWithout b'%' u) where
  -- The escaped percent sign at the end of a pattern without any other is put into the text, and read
  -- once more as a directive without a name: the pattern is an error, for every `isalpha`.
  pub new_formatter-percent :
      ((new_formatter isalpha (u ++ codes "%%")).items
        ≡ FormatItem.string (u ++ codes "%") ∷ FormatItem.string (codes "<<error_format %>>") ∷ [])
      × ((new_formatter isalpha (u ++ codes "%%")).is_error ≡ true)
  unfolding new_formatter split scan_name to_items to_item s_format_items same_text
  new_formatter-percent =
      rw (split_text isalpha u [] (codes "%%") h, flush_text u b'%') (refl, refl)
