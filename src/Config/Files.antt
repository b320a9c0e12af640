-- ===== src/Config/Files.antt =====
-- The files of a configuration in src/config.cpp, loaded again.
use net_ninja.Common.{
  ℕ, ◌≡◌, refl, sym, ap, inl, inr, Bool, true, false, not, ◌&&◌, Option, none, some, List, [], ◌∷◌,
  All, if◌then◌else◌, ◌==◌, Bool-cases, if_true, if_false, ==_iff,
}
use mathlib.Core.Path.{subst}
use net_ninja.Http.{Text, same_text}
use net_ninja.Http.Names.{same_text_eq, same_text_self}
use net_ninja.Config.{Node, load_from_yaml, load_files}

module _ {V : Type 0} (tolower : ℕ → ℕ) (emit : Node → Text) (from_string : V → Text → Option V)
    (decimal : ℕ → Text) (load_file : Text → Option Node) (mtime : Text → ℕ) where
  abbrev after : Bool → List Text → (Text → ℕ) × List (Text × V) → (Text → ℕ) × List (Text × V)
  after force files s =
      (load_files tolower emit from_string decimal load_file mtime force files s).1

  -- The time that was seen last is the one that the file has.
  abbrev pub IsSeen : (Text → ℕ) × List (Text × V) → Text → Type 0
  IsSeen s f = s.0 f ≡ mtime f

  abbrev loaded : Text → (Text → ℕ) × List (Text × V) → (Text → ℕ) × List (Text × V)
  loaded i s = (
    λ f. if same_text f i then mtime i else s.0 f,
    elim (load_file i) [
      | none ↦ s.1
      | some root ↦ (load_from_yaml tolower emit from_string decimal root s.1).1
    ],
  )

  loaded-IsSeen :
      (i f : Text) (s : (Text → ℕ) × List (Text × V)) → IsSeen s f → IsSeen (loaded i s) f
  loaded-IsSeen i f s h = elim (Bool-cases (same_text f i)) [
    | inl e ↦ rw e (ap mtime (sym (same_text_eq f i e)))
    | inr e ↦ rw e h
  ]

  loaded_self : (i : Text) (s : (Text → ℕ) × List (Text × V)) → IsSeen (loaded i s) i
  loaded_self i s = rw (same_text_self i) refl

  skipped_step :
      (force : Bool) (i : Text) (files : List Text) (s : (Text → ℕ) × List (Text × V))
      → (not force && s.0 i == mtime i) ≡ true
      → after force (i ∷ files) s ≡ after force files s
  unfolding load_files
  skipped_step force i files s e =
      ap {A = List Text × ((Text → ℕ) × List (Text × V))} (λ r. r.1) (if_true e _ _)

  loaded_step :
      (force : Bool) (i : Text) (files : List Text) (s : (Text → ℕ) × List (Text × V))
      → (not force && s.0 i == mtime i) ≡ false
      → after force (i ∷ files) s ≡ after force files (loaded i s)
  unfolding load_files
  loaded_step force i files s e =
      ap {A = List Text × ((Text → ℕ) × List (Text × V))} (λ r. r.1) (if_false e _ _)

  -- A file whose time is known stays so.
  after-IsSeen :
      (force : Bool) (files : List Text) (s : (Text → ℕ) × List (Text × V)) (f : Text)
      → IsSeen s f
      → IsSeen (after force files s) f
  unfolding load_files
  after-IsSeen force [] s f h = h
  after-IsSeen force (i ∷ files) s f h = elim (Bool-cases (not force && s.0 i == mtime i)) [
    | inl e ↦
        subst (λ t. IsSeen t f) (sym (skipped_step force i files s e))
          (after-IsSeen force files s f h)
    | inr e ↦
        subst (λ t. IsSeen t f) (sym (loaded_step force i files s e))
          (after-IsSeen force files (loaded i s) f (loaded-IsSeen i f s h))
  ]

  skipped-IsSeen :
      (force : Bool) (i : Text) (s : (Text → ℕ) × List (Text × V))
      → (not force && s.0 i == mtime i) ≡ true
      → IsSeen s i
  skipped-IsSeen true i s h = cc
  skipped-IsSeen false i s h = (==_iff (s.0 i) (mtime i)).0 h

  after-All :
      (force : Bool) (files : List Text) (s : (Text → ℕ) × List (Text × V))
      → All (IsSeen (after force files s)) files
  after-All force [] s = tt
  after-All force (i ∷ files) s = elim (Bool-cases (not force && s.0 i == mtime i)) [
    | inl e ↦
        subst (λ t. All (IsSeen t) (i ∷ files)) (sym (skipped_step force i files s e))
          (after-IsSeen force files s i (skipped-IsSeen force i s e), after-All force files s)
    | inr e ↦
        subst (λ t. All (IsSeen t) (i ∷ files)) (sym (loaded_step force i files s e))
          (
            after-IsSeen force files (loaded i s) i (loaded_self i s),
            after-All force files (loaded i s),
          )
  ]

  after_none :
      (files : List Text) (s : (Text → ℕ) × List (Text × V))
      → All (IsSeen s) files
      → load_files tolower emit from_string decimal load_file mtime false files s ≡ ([], s)
  unfolding load_files
  after_none [] s h = refl
  after_none (i ∷ files) s h = rw ((==_iff (s.0 i) (mtime i)).1 h.0) (after_none files s h.1)

  forced_all :
      (files : List Text) (s : (Text → ℕ) × List (Text × V))
      → (load_files tolower emit from_string decimal load_file mtime true files s).0 ≡ files
  unfolding load_files
  forced_all [] s = refl
  forced_all (i ∷ files) s = ap (λ l. i ∷ l) (forced_all files (loaded i s))

  -- Behind a loading of the files, forced or not, the time of each is known, also of one that could not
  -- be parsed or whose variables threw. If no file has changed, a second loading that is not forced
  -- reads no file, and changes neither a variable nor a time; a forced one reads them all, in order.
  pub load_files-load_files :
      (force : Bool) (files : List Text) (seen : Text → ℕ) (datas : List (Text × V))
      → let s =
          (load_files tolower emit from_string decimal load_file mtime force files
            (seen, datas)).1 in
        All (IsSeen s) files
        × (load_files tolower emit from_string decimal load_file mtime false files s ≡ ([], s))
        × ((load_files tolower emit from_string decimal load_file mtime true files s).0 ≡ files)
  load_files-load_files force files seen datas =
      let s = after force files (seen, datas) in
      let known = after-All force files (seen, datas) in
      (known, after_none files s known, forced_all files s)
