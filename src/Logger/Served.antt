-- ===== src/Logger/Served.antt =====
-- What `Logger::log` of src/logger.cpp writes, for a logger that its calls have made, where none of
-- them is given a null formatter.
use net_ninja.Common.{
  ℕ, ◌≡◌, refl, ◌⊎◌, inl, inr, Bool, true, false, Option, none, some, List, map, All, if◌then◌else◌,
  ok, ◌==◌,
}
use net_ninja.Http.{Text}
use net_ninja.Logger.Levels.{LogLevel}
use net_ninja.Logger.Pattern.{LogFormatter, LogEvent}
use net_ninja.Logger.Loggers.{
  LogAppender, Logger, Write, new_stdout_appender, new_file_appender, set_appender_formatter, log,
  add_appender, del_appender, clear_appenders, set_level, set_formatter, set_pattern, new_logger,
}
use net_ninja.Logger.Delivered.{IsServed}

-- The appender is new, or has a formatter of its own.
abbrev pub IsFresh : LogAppender → Type 0
IsFresh a =
    ((a.has_formatter ≡ false) × (a.formatter ≡ none))
    ⊎ ((a.has_formatter ≡ true) × ((f : LogFormatter) × (a.formatter ≡ some f)))

-- The appender that is called through its pointer.
abbrev at_appender : ℕ → (LogAppender → LogAppender) → LogAppender → LogAppender
at_appender k f a = if a.id == k then f a else a

-- The calls that change a logger, and those that change an appender that it holds.
pub data IsReachable (isalpha : ℕ → Bool) : Logger → Type 0 where
  made : (name : Text) → IsReachable isalpha (new_logger isalpha name)
  added :
      (a : LogAppender) (g : Logger)
      → IsFresh a
      → IsReachable isalpha g
      → IsReachable isalpha (add_appender a g)
  deleted : (k : ℕ) (g : Logger) → IsReachable isalpha g → IsReachable isalpha (del_appender k g)
  cleared : (g : Logger) → IsReachable isalpha g → IsReachable isalpha (clear_appenders g)
  leveled :
      (l : LogLevel) (g : Logger) → IsReachable isalpha g → IsReachable isalpha (set_level l g)
  patterned :
      (s : Text) (g : Logger)
      → IsReachable isalpha g
      → IsReachable isalpha (set_pattern isalpha s g)
  formatted :
      (f : LogFormatter) (g : Logger)
      → IsReachable isalpha g
      → IsReachable isalpha (set_formatter (some f) g)
  appender_formatted :
      (k : ℕ) (f : LogFormatter) (g : Logger)
      → IsReachable isalpha g
      → IsReachable isalpha (record g {
        appenders = map (at_appender k (set_appender_formatter (some f))) g.appenders;
      })
  appender_leveled :
      (k : ℕ) (l : LogLevel) (g : Logger)
      → IsReachable isalpha g
      → IsReachable isalpha
          (record g { appenders = map (at_appender k (λ a. record a { level = l })) g.appenders })
  logged :
      (opens : Text → Bool) (decimal : ℕ → Text) (strftime : ℕ → Text → ℕ → Text) (l : LogLevel)
      (e : LogEvent) (g g' : Logger) (w : List Write)
      → log opens decimal strftime g l e ≡ ok (g', w)
      → IsReachable isalpha g
      → IsReachable isalpha g'

-- The logger has a formatter, and serves its appenders.
abbrev pub IsServing : Logger → Type 0
IsServing g = (f : LogFormatter) × (g.formatter ≡ some f) × All (IsServed f) g.appenders

new_stdout_appender-IsFresh : (id : ℕ) → IsFresh (new_stdout_appender id)
unfolding new_stdout_appender
new_stdout_appender-IsFresh id = inl (refl, refl)

new_file_appender-IsFresh :
    (opens : Text → Bool) (id : ℕ) (s : Text) → IsFresh (new_file_appender opens id s)
unfolding new_file_appender
new_file_appender-IsFresh opens id s = inl (refl, refl)

set_appender_formatter-IsFresh :
    (f : Option LogFormatter) (a : LogAppender) → IsFresh (set_appender_formatter f a)
unfolding set_appender_formatter
set_appender_formatter-IsFresh none a = inl (refl, refl)
set_appender_formatter-IsFresh (some f) a = inr (refl, (f, refl))
