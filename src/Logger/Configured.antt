-- ===== src/Logger/Configured.antt =====
-- The loggers of src/logger.cpp after the listener has gone through a configuration.
use net_ninja.Common.{
  ℕ, ◌≡◌, refl, sym, ap, ◌∙◌, ◌⊎◌, inl, inr, Bool, false, none, some, List, [], ◌∷◌, ◌++◌, All,
  Bool-cases, Option-cases,
}
use net_ninja.Http.{Text, same_text}
use net_ninja.Logger.Loggers.{Logger, LoggerManager, find_logger, get_logger}
use net_ninja.Logger.Config.{
  LogDefine, same_define, find_define, on_added, on_changed, with_logger, on_define, on_logs,
}
use net_ninja.Logger.Defined.{defined, on_added-defined, on_changed-defined}
use net_ninja.Logger.Lookup.{
  find_logger-put_logger, find_logger-put_logger_other, get_logger-name, find_logger-get_logger,
  find_logger-get_logger_other, get_logger-formatter,
}

-- The definition is new, or not equal to the old one of its name.
abbrev pub IsChange : List LogDefine → LogDefine → Type 0
IsChange old_value i =
    (find_define i.name old_value ≡ none)
    ⊎ ((x : LogDefine) × (find_define i.name old_value ≡ some x) × (same_define i x ≡ false))

abbrev pub IsUnnamed : Text → List LogDefine → Type 0
IsUnnamed n l = All (λ i. same_text n i.name ≡ false) l

module _ (isalpha : ℕ → Bool) (opens : Text → Bool) where
  find_logger-with_logger :
      (n : Text) (f : Logger × ℕ → Logger × ℕ) (m : LoggerManager)
      → ((s : Logger × ℕ) → s.0.name ≡ (f s).0.name)
      → (id : ℕ) × (find_logger n (with_logger isalpha opens n f m).loggers
          ≡ some (f ((get_logger isalpha n m).0, id)).0)
  unfolding with_logger
  find_logger-with_logger n f m h =
      let s : Logger × ℕ = ((get_logger isalpha n m).0, (get_logger isalpha n m).1.next_id) in
      (
        s.1,
        find_logger-put_logger n (f s).0 s.0 (get_logger isalpha n m).1.loggers
            (get_logger-name isalpha n m ∙ h s) (find_logger-get_logger isalpha n m),
      )

  find_logger-with_logger_other :
      (n k : Text) (f : Logger × ℕ → Logger × ℕ) (m : LoggerManager)
      → ((s : Logger × ℕ) → s.0.name ≡ (f s).0.name)
      → same_text n k ≡ false
      → find_logger n (with_logger isalpha opens k f m).loggers ≡ find_logger n m.loggers
  unfolding with_logger
  find_logger-with_logger_other n k f m h e =
      let s : Logger × ℕ = ((get_logger isalpha k m).0, (get_logger isalpha k m).1.next_id) in
      find_logger-put_logger_other n k (f s).0 (get_logger isalpha k m).1.loggers
        (get_logger-name isalpha k m ∙ h s) e
      ∙ find_logger-get_logger_other isalpha n k m e

  on_added-name : (i : LogDefine) (s : Logger × ℕ) → s.0.name ≡ (on_added isalpha opens i s).0.name
  unfolding defined
  on_added-name i s = rw (on_added-defined isalpha opens i s.0 s.1) refl

  on_changed-name :
      (i : LogDefine) (s : Logger × ℕ) → s.0.name ≡ (on_changed isalpha opens i s).0.name
  unfolding defined
  on_changed-name i s = rw (on_changed-defined isalpha opens i s.0 s.1) refl

  on_define_other :
      (old_value : List LogDefine) (i : LogDefine) (n : Text) (m : LoggerManager)
      → same_text n i.name ≡ false
      → find_logger n (on_define isalpha opens old_value i m).loggers ≡ find_logger n m.loggers
  unfolding on_define
  on_define_other old_value i n m h = elim (Option-cases (find_define i.name old_value)) [
    | inl e ↦
        rw (on_define, e)
          (find_logger-with_logger_other n i.name (on_added isalpha opens i) m (on_added-name i) h)
    | inr (x, e) ↦ elim (Bool-cases (same_define i x)) [
      | inl b ↦ rw (on_define, e, b) refl
      | inr b ↦
          rw (on_define, e, b)
            (find_logger-with_logger_other n i.name (on_changed isalpha opens i) m
              (on_changed-name i) h)
    ]
  ]

  -- A logger that the new configuration does not name is left as it is, also one that the old
  -- configuration names.
  pub on_logs_other :
      (old_value new_value : List LogDefine) (n : Text) (m : LoggerManager)
      → IsUnnamed n new_value
      → find_logger n (on_logs isalpha opens old_value new_value m).loggers
        ≡ find_logger n m.loggers
  unfolding on_logs
  on_logs_other old_value [] n m h = refl
  on_logs_other old_value (i ∷ new_value) n m (h, k) =
      on_logs_other old_value new_value n (on_define isalpha opens old_value i m) k
      ∙ on_define_other old_value i n m h

  on_define-defined :
      (old_value : List LogDefine) (i : LogDefine) (m : LoggerManager)
      → IsChange old_value i
      → (id : ℕ) × (find_logger i.name (on_define isalpha opens old_value i m).loggers
          ≡ some (defined isalpha opens i (get_logger isalpha i.name m).0 id))
  unfolding on_define
  on_define-defined old_value i m (inl e) =
      let (id, f) = find_logger-with_logger i.name (on_added isalpha opens i) m (on_added-name i) in
      (
        id,
        rw (on_define, e)
            (f ∙ rw (on_added-defined isalpha opens i (get_logger isalpha i.name m).0 id) refl),
      )
  on_define-defined old_value i m (inr (x, e, b)) =
      let (id, f) =
        find_logger-with_logger i.name (on_changed isalpha opens i) m (on_changed-name i) in
      (
        id,
        rw (on_define, e, b)
            (f ∙ rw (on_changed-defined isalpha opens i (get_logger isalpha i.name m).0 id) refl),
      )

  defined-formatter :
      (i : LogDefine) (g h : Logger) (id : ℕ)
      → g.name ≡ h.name
      → g.formatter ≡ h.formatter
      → defined isalpha opens i g id ≡ defined isalpha opens i h id
  unfolding defined
  defined-formatter i g h id e f = rw (e, f) refl

  -- The logger of a definition that is new or changed is the one that the definition describes: its
  -- level, its pattern, and its appenders in their order, each with its sink, its level and its
  -- pattern. It keeps the pattern that it had before where the definition gives none or a wrong one,
  -- and has that of `getLogger` if there was no such logger; an appender without a pattern uses that
  -- of its logger. No other definition may have the name.
  pub on_logs-defined :
      (old_value us vs : List LogDefine) (i : LogDefine) (m : LoggerManager)
      → IsChange old_value i
      → IsUnnamed i.name us
      → IsUnnamed i.name vs
      → (id : ℕ) × (find_logger i.name (on_logs isalpha opens old_value (us ++ i ∷ vs) m).loggers
          ≡ some (defined isalpha opens i (get_logger isalpha i.name m).0 id))
  unfolding on_logs
  on_logs-defined old_value [] vs i m c u v =
      let (id, e) = on_define-defined old_value i m c in
      (id, on_logs_other old_value vs i.name (on_define isalpha opens old_value i m) v ∙ e)
  on_logs-defined old_value (k ∷ us) vs i m c (u, us_other) v =
      let m' = on_define isalpha opens old_value k m in
      let (id, e) = on_logs-defined old_value us vs i m' c us_other v in
      (
        id,
        e
            ∙ ap some (
                defined-formatter i (get_logger isalpha i.name m').0 (get_logger isalpha i.name m).0
                  id (sym (get_logger-name isalpha i.name m') ∙ get_logger-name isalpha i.name m)
                  (get_logger-formatter isalpha i.name m' m
                    (on_define_other old_value k i.name m u))),
      )
