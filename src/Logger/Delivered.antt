-- ===== src/Logger/Delivered.antt =====
-- What `Logger::log` of src/logger.cpp writes, where every appender has the formatter that it is to
-- use.
use net_ninja.Common.{
  ℕ, ◌≡◌, refl, sym, ap, ◌∙◌, inl, inr, Bool, true, none, some, List, [], ◌∷◌, ◌++◌, All,
  Bool-cases, if◌then◌else◌, ok, some_is, fault,
}
use net_ninja.Http.{Text}
use net_ninja.Logger.Levels.{LogLevel, reaches}
use net_ninja.Logger.Pattern.{LogFormatter, LogEvent, format}
use net_ninja.Logger.Loggers.{LogAppender, Logger, Write, write, refreshed, log_to, log_to_all, log}

-- The formatter that the appender prints with: its own, or else that of its logger.
abbrev pub in_use : LogFormatter → LogAppender → LogFormatter
in_use f a = if a.has_formatter then elim a.formatter [ none ↦ f | some h ↦ h ] else f

abbrev pub IsServed : LogFormatter → LogAppender → Type 0
IsServed f a = a.formatter ≡ some (in_use f a)

module _ (opens : Text → Bool) (decimal : ℕ → Text) (strftime : ℕ → Text → ℕ → Text)
    (f : LogFormatter) (l : LogLevel) (e : LogEvent) where
  -- What the appenders write that take the level.
  unfoldable pub delivered : List LogAppender → List Write
  delivered [] = []
  delivered (a ∷ r) =
      let rest = delivered r in
      if reaches l a.level
      then write (refreshed opens e.m_time a.sink) (format decimal strftime (in_use f a).items l e)
        ∷ rest
      else rest

  log_to-some :
      (a : LogAppender) (h : LogFormatter)
      → reaches l a.level ≡ true
      → a.formatter ≡ some h
      → log_to opens decimal strftime a l e
        ≡ ok (
          record a { sink = refreshed opens e.m_time a.sink },
          write (refreshed opens e.m_time a.sink) (format decimal strftime h.items l e) ∷ [],
        )
  unfolding log_to
  log_to-some a h r k = rw r (
      some_is k fault (λ f. ok (
        record a { sink = refreshed opens e.m_time a.sink },
        write (refreshed opens e.m_time a.sink) (format decimal strftime f.items l e) ∷ [],
      )))

  delivered_one :
      (a : LogAppender)
      → reaches l a.level ≡ true
      → delivered (a ∷ [])
        ≡ write (refreshed opens e.m_time a.sink) (format decimal strftime (in_use f a).items l e)
          ∷ []
  unfolding delivered
  delivered_one a r = rw r refl

  log_to-delivered :
      (a : LogAppender)
      → IsServed f a
      → (b : LogAppender) × (log_to opens decimal strftime a l e ≡ ok (b, delivered (a ∷ [])))
        × IsServed f b
  unfolding log_to delivered
  log_to-delivered a h = elim (Bool-cases (reaches l a.level)) [
    | inl r ↦ (
      record a { sink = refreshed opens e.m_time a.sink },
      log_to-some a (in_use f a) r h
          ∙ ap (λ w. ok (record a { sink = refreshed opens e.m_time a.sink }, w))
              (sym (delivered_one a r)),
      h,
    )
    | inr r ↦ (a, rw r refl, h)
  ]

  delivered-cons :
      (a : LogAppender) (r : List LogAppender)
      → delivered (a ∷ []) ++ delivered r ≡ delivered (a ∷ r)
  unfolding delivered
  delivered-cons a r = elim (Bool-cases (reaches l a.level)) [
    | inl h ↦ rw h refl
    | inr h ↦ rw h refl
  ]

  log_to_all-delivered :
      (r : List LogAppender)
      → All (IsServed f) r
      → (s : List LogAppender) × (log_to_all opens decimal strftime r l e ≡ ok (s, delivered r))
        × All (IsServed f) s
  unfolding log_to_all delivered
  log_to_all-delivered [] h = ([], refl, tt)
  log_to_all-delivered (a ∷ r) h =
      let (b, p, q) = log_to-delivered a h.0 in
      let (s, u, v) = log_to_all-delivered r h.1 in
      (b ∷ s, rw (p, u, delivered-cons a r) refl, (q, v))

  pub log-delivered :
      (g : Logger)
      → g.formatter ≡ some f
      → All (IsServed f) g.appenders
      → (g' : Logger) × (log opens decimal strftime g l e
          ≡ ok (g', if reaches l g.level then delivered g.appenders else []))
        × (g'.formatter ≡ some f)
        × All (IsServed f) g'.appenders
  unfolding log
  log-delivered g h k = elim (Bool-cases (reaches l g.level)) [
    | inl r ↦
        let (s, u, v) = log_to_all-delivered g.appenders k in
        (record g { appenders = s }, rw (r, u) refl, h, v)
    | inr r ↦ (g, rw r refl, h, k)
  ]
