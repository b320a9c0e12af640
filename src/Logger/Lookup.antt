-- ===== src/Logger/Lookup.antt =====
-- The table of loggers of src/logger.cpp: what is found in it.
use net_ninja.Common.{
  ℕ, ◌≡◌, refl, ap, ◌∙◌, inl, inr, Bool, false, none, some, List, [], ◌∷◌, ◌++◌, if◌then◌else◌,
  Bool-cases, Option-cases,
}
use net_ninja.Http.{Text, same_text}
use net_ninja.Http.Names.{same_text_eq, same_text_self}
use net_ninja.Logger.Loggers.{
  Logger, LoggerManager, new_stdout_appender, new_logger, add_appender, find_logger, get_logger,
}
use net_ninja.Logger.Config.{put_logger}

find_logger-name : (n : Text) (l : List Logger) (g : Logger) → find_logger n l ≡ some g → n ≡ g.name
unfolding find_logger
find_logger-name n [] g e = cc
find_logger-name n (h ∷ l) g e = elim (Bool-cases (same_text n h.name)) [
  | inl s ↦
      let f = rw s at e in
      let k : h ≡ g = cc in same_text_eq n h.name s ∙ ap (λ (k : Logger). k.name) k
  | inr s ↦ find_logger-name n l g (rw s at e)
]

pub find_logger-put_logger :
    (n : Text) (g h : Logger) (l : List Logger)
    → n ≡ g.name
    → find_logger n l ≡ some h
    → find_logger n (put_logger n g l) ≡ some g
unfolding find_logger put_logger
find_logger-put_logger n g h [] e f = cc
find_logger-put_logger n g h (k ∷ l) e f = elim (Bool-cases (same_text n k.name)) [
  | inl s ↦ rw (s, ← e, same_text_self n) refl
  | inr s ↦ rw (s, s) (find_logger-put_logger n g h l e (rw s at f))
]

pub find_logger-put_logger_other :
    (n m : Text) (g : Logger) (l : List Logger)
    → m ≡ g.name
    → same_text n m ≡ false
    → find_logger n (put_logger m g l) ≡ find_logger n l
unfolding find_logger put_logger
find_logger-put_logger_other n m g [] e f = refl
find_logger-put_logger_other n m g (k ∷ l) e f = elim (Bool-cases (same_text m k.name)) [
  | inl s ↦ rw (s, ← e, f, ← same_text_eq m k.name s, f) refl
  | inr s ↦ rw (s, find_logger-put_logger_other n m g l e f) refl
]

find_logger-append :
    (n : Text) (g : Logger) (l : List Logger)
    → find_logger n l ≡ none
    → find_logger n (l ++ g ∷ []) ≡ (if same_text n g.name then some g else none)
unfolding find_logger
find_logger-append n g [] e = refl
find_logger-append n g (k ∷ l) e = elim (Bool-cases (same_text n k.name)) [
  | inl s ↦ let f = rw s at e in cc
  | inr s ↦ rw s (find_logger-append n g l (rw s at e))
]

find_logger-append_other :
    (n : Text) (g : Logger) (l : List Logger)
    → same_text n g.name ≡ false
    → find_logger n (l ++ g ∷ []) ≡ find_logger n l
unfolding find_logger
find_logger-append_other n g [] e = rw e refl
find_logger-append_other n g (k ∷ l) e = rw (find_logger-append_other n g l e) refl

-- The logger that `getLogger` finds or makes has the name.
module _ (isalpha : ℕ → Bool) where
  pub get_logger-name : (n : Text) (m : LoggerManager) → n ≡ (get_logger isalpha n m).0.name
  unfolding get_logger new_logger add_appender
  get_logger-name n m = elim (Option-cases (find_logger n m.loggers)) [
    | inl e ↦ rw (get_logger, e) refl
    | inr (g, e) ↦ rw (get_logger, e) (find_logger-name n m.loggers g e)
  ]

  pub find_logger-get_logger :
      (n : Text) (m : LoggerManager)
      → find_logger n (get_logger isalpha n m).1.loggers ≡ some (get_logger isalpha n m).0
  unfolding get_logger new_logger add_appender
  find_logger-get_logger n m = elim (Option-cases (find_logger n m.loggers)) [
    | inl e ↦
        rw
          (
            get_logger,
            e,
            find_logger-append n
                (add_appender (new_stdout_appender m.next_id) (new_logger isalpha n)) m.loggers e,
            same_text_self n,
          )
          refl
    | inr (g, e) ↦ rw (get_logger, e) e
  ]

  pub find_logger-get_logger_other :
      (n k : Text) (m : LoggerManager)
      → same_text n k ≡ false
      → find_logger n (get_logger isalpha k m).1.loggers ≡ find_logger n m.loggers
  unfolding new_logger add_appender get_logger
  find_logger-get_logger_other n k m h = elim (Option-cases (find_logger k m.loggers)) [
    | inl e ↦
        rw (get_logger, e)
          (find_logger-append_other n
            (add_appender (new_stdout_appender m.next_id) (new_logger isalpha k)) m.loggers h)
    | inr (g, e) ↦ rw (get_logger, e) refl
  ]

  -- `getLogger` once more gives the same logger and makes none.
  pub get_logger-get_logger :
      (n : Text) (m : LoggerManager)
      → get_logger isalpha n (get_logger isalpha n m).1 ≡ get_logger isalpha n m
  unfolding get_logger
  get_logger-get_logger n m = rw (get_logger, find_logger-get_logger n m) refl

  -- What `getLogger` finds or makes depends on the loggers of the name alone.
  pub get_logger-formatter :
      (n : Text) (l m : LoggerManager)
      → find_logger n l.loggers ≡ find_logger n m.loggers
      → (get_logger isalpha n l).0.formatter ≡ (get_logger isalpha n m).0.formatter
  unfolding get_logger new_logger add_appender
  get_logger-formatter n l m e = elim (Option-cases (find_logger n m.loggers)) [
    | inl f ↦ rw (get_logger, e, f) refl
    | inr (g, f) ↦ rw (get_logger, e, f) refl
  ]
