-- ===== src/Logger/Defined.antt =====
-- The logger that the listener of src/logger.cpp leaves for a definition.
use net_ninja.Common.{
  Bool, true, false, Bool-cases, inl, inr, refl, ℕ, ◌+◌, ◌≡◌, sym, ap, ◌∙◌, Option, none, some,
  List, [], ◌∷◌, ◌++◌, append-nil, append_assoc, arith, length, if◌then◌else◌,
}
use net_ninja.Http.{Text, codes, same_text}
use net_ninja.Logger.Pattern.{LogFormatter, is_empty, new_formatter}
use net_ninja.Logger.Loggers.{
  Sink, LogAppender, Logger, new_file_appender, new_stdout_appender, set_appender_formatter,
  or_default, add_appender, clear_appenders, set_level, set_formatter, set_pattern,
}
use net_ninja.Logger.Config.{
  LogAppenderDefine, LogDefine, make_appender, add_appenders, set_own_pattern, on_added, on_changed,
}

module _ (isalpha : ℕ → Bool) (opens : Text → Bool) where
  -- A pattern that is given, and is no error.
  abbrev given_pattern : Text → Option LogFormatter
  given_pattern s =
      let f = new_formatter isalpha s in
      if is_empty s then none else if f.is_error then none else some f

  -- What the definition says of an appender: the file of its name, opened once, or else the standard
  -- output, its level, and the formatter of its pattern, or else that of the logger.
  abbrev described_one : ℕ → Option LogFormatter → LogAppenderDefine → LogAppender
  described_one id f a = record {
    id = id;
    sink =
        if same_text a.type (codes "FileLogAppender")
        then Sink.file a.file (opens a.file) 0
        else Sink.stdout;
    level = a.level;
    formatter = elim (given_pattern a.format) [ none ↦ f | some h ↦ some h ];
    has_formatter = elim (given_pattern a.format) [ none ↦ false | some h ↦ true ];
  }

  -- The appenders as they are described, with the formatter of the logger where they have none.
  unfoldable pub described : ℕ → Option LogFormatter → List LogAppenderDefine → List LogAppender
  described id f [] = []
  described id f (a ∷ l) = described_one id f a ∷ described (id + 1) f l

  make_appender-described :
      (id : ℕ) (f : Option LogFormatter) (a : LogAppenderDefine)
      → or_default f (make_appender isalpha opens id a) ≡ described_one id f a
  unfolding make_appender new_file_appender new_stdout_appender set_appender_formatter
  make_appender-described id f a = elim (Bool-cases (same_text a.type (codes "FileLogAppender"))) [
    | inl t ↦ elim (Bool-cases (is_empty a.format)) [
      | inl e ↦ rw (t, e) refl
      | inr e ↦ elim (Bool-cases (new_formatter isalpha a.format).is_error) [
        | inl b ↦ rw (t, e, b) refl
        | inr b ↦ rw (t, e, b) refl
      ]
    ]
    | inr t ↦ elim (Bool-cases (is_empty a.format)) [
      | inl e ↦ rw (t, e) refl
      | inr e ↦ elim (Bool-cases (new_formatter isalpha a.format).is_error) [
        | inl b ↦ rw (t, e, b) refl
        | inr b ↦ rw (t, e, b) refl
      ]
    ]
  ]

  -- The pattern of the definition, unless it is empty or an error.
  unfoldable pub own_formatter : LogDefine → Option LogFormatter → Option LogFormatter
  own_formatter i prior =
      let f = new_formatter isalpha i.formatter in
      if is_empty i.formatter then prior else if f.is_error then prior else some f

  unfoldable pub defined : LogDefine → Logger → ℕ → Logger
  defined i g id = record {
    name = g.name;
    level = i.level;
    appenders = described id (own_formatter i g.formatter) i.appenders;
    formatter = own_formatter i g.formatter;
  }

  add_appenders-described :
      (l : List LogAppenderDefine) (g : Logger) (id : ℕ)
      → add_appenders isalpha opens l (g, id)
        ≡ (record g { appenders = g.appenders ++ described id g.formatter l }, id + length l)
  unfolding add_appenders described add_appender
  add_appenders-described [] g id = rw (append-nil g.appenders) (ground arith)
  add_appenders-described (a ∷ l) g id =
      rw
        (
          add_appenders-described l (add_appender (make_appender isalpha opens id a) g) (id + 1),
          make_appender-described id g.formatter a,
          append_assoc g.appenders (described_one id g.formatter a ∷ [])
              (described (id + 1) g.formatter l),
        )
        (ground arith)

  -- What the appenders are added to.
  abbrev prepared : LogDefine → Logger → Logger
  prepared i g = record {
    name = g.name;
    level = i.level;
    appenders = [];
    formatter = own_formatter i g.formatter;
  }

  cleared-prepared :
      (i : LogDefine) (g : Logger)
      → set_own_pattern isalpha opens i (set_level i.level (clear_appenders g)) ≡ prepared i g
  unfolding own_formatter set_own_pattern set_pattern set_level clear_appenders set_formatter
  cleared-prepared i g = ground arith

  prepared-cleared :
      (i : LogDefine) (g : Logger)
      → clear_appenders (set_own_pattern isalpha opens i (set_level i.level g)) ≡ prepared i g
  unfolding own_formatter set_own_pattern set_pattern set_level clear_appenders set_formatter
  prepared-cleared i g = ground arith

  pub on_added-defined :
      (i : LogDefine) (g : Logger) (id : ℕ)
      → on_added isalpha opens i (g, id) ≡ (defined i g id, id + length i.appenders)
  unfolding on_added defined
  on_added-defined i g id =
      ap (λ h. add_appenders isalpha opens i.appenders (h, id)) (cleared-prepared i g)
      ∙ add_appenders-described i.appenders (prepared i g) id

  pub on_changed-defined :
      (i : LogDefine) (g : Logger) (id : ℕ)
      → on_changed isalpha opens i (g, id) ≡ (defined i g id, id + length i.appenders)
  unfolding on_changed defined
  on_changed-defined i g id =
      ap (λ h. add_appenders isalpha opens i.appenders (h, id)) (prepared-cleared i g)
      ∙ add_appenders-described i.appenders (prepared i g) id

  -- Behind a definition that is new and one that is changed, where the source clears the appenders
  -- first and last, any logger is left the same, and as many numbers are used.
  pub on_added-on_changed :
      (i : LogDefine) (g : Logger) (id : ℕ)
      → on_added isalpha opens i (g, id) ≡ on_changed isalpha opens i (g, id)
  on_added-on_changed i g id = on_added-defined i g id ∙ sym (on_changed-defined i g id)
