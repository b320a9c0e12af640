-- ===== src/Logger/Loggers.antt =====
-- `LogAppender`, `Logger` and `LoggerManager` of src/logger.cpp. An appender is held by one logger, as
-- the manager makes them, and the field `m_root` of a logger, which nothing sets, is left out. The
-- locks are not modelled: each operation is one step.
use net_ninja.Common.{
  ℕ, ◌+◌, ◌%◌, ◌^◌, Bool, true, false, Option, none, some, List, [], ◌∷◌, ◌++◌, map, leb, ◌==◌,
  if◌then◌else◌, Outcome, ok, fault, ◌>>=◌,
}
use net_ninja.Http.{Text, codes, same_text}
use net_ninja.Logger.Levels.{LogLevel, reaches}
use net_ninja.Logger.Pattern.{LogFormatter, LogEvent, new_formatter, format}

-- A file has its name, whether the stream is open, and the time at which it was opened last.
pub data Sink : Type 0 where
  stdout : Sink
  file : Text → Bool → ℕ → Sink

-- `id` tells one object from another, where the source compares pointers.
pub record LogAppender : Type 0 where
  pub id : ℕ
  pub sink : Sink
  pub level : LogLevel
  pub formatter : Option LogFormatter
  pub has_formatter : Bool

pub record Logger : Type 0 where
  pub name : Text
  pub level : LogLevel
  pub appenders : List LogAppender
  pub formatter : Option LogFormatter

-- What is written, and where.
pub data Write : Type 0 where
  to_stdout : Text → Write
  to_file : Text → Text → Write

unfoldable pub new_stdout_appender : ℕ → LogAppender
new_stdout_appender id = record {
  id = id;
  sink = Sink.stdout;
  level = LogLevel.debug;
  formatter = none;
  has_formatter = false;
}

unfoldable pub set_appender_formatter : Option LogFormatter → LogAppender → LogAppender
set_appender_formatter none a = record a { formatter = none; has_formatter = false }
set_appender_formatter (some f) a = record a { formatter = some f; has_formatter = true }

-- A stream that is not open takes nothing, and the failure is printed.
abbrev pub write : Sink → Text → Write
write Sink.stdout s = Write.to_stdout s
write (Sink.file filename true t) s = Write.to_file filename s
write (Sink.file filename false t) s = Write.to_stdout (codes "error" ++ 10 ∷ [])

-- `opens` says whether a file can be opened at the time of the call.
module _ (opens : Text → Bool) where
  unfoldable pub new_file_appender : ℕ → Text → LogAppender
  new_file_appender id filename = record {
    id = id;
    sink = Sink.file filename (opens filename) 0;
    level = LogLevel.debug;
    formatter = none;
    has_formatter = false;
  }

  -- A file that was opened three seconds ago or earlier is opened again. `m_lastTime` is a uint64.
  unfoldable pub reopened : ℕ → Text → Bool → ℕ → Sink
  reopened now filename is_open last_time =
      if leb ((last_time + 3) % 2 ^ 64) now
      then Sink.file filename (opens filename) now
      else Sink.file filename is_open last_time

  abbrev pub refreshed : ℕ → Sink → Sink
  refreshed now Sink.stdout = Sink.stdout
  refreshed now (Sink.file filename is_open t) = reopened now filename is_open t

  module _ (decimal : ℕ → Text) (strftime : ℕ → Text → ℕ → Text) where
    -- `FileLogAppender::log` and `StdoutLogAppender::log`. A null formatter is called all the same.
    unfoldable pub log_to : LogAppender → LogLevel → LogEvent → Outcome (LogAppender × List Write)
    log_to a l e =
        let sink' = refreshed e.m_time a.sink in
        if reaches l a.level
        then elim a.formatter [
          | none ↦ fault
          | some f ↦
              ok (record a { sink = sink' }, write sink' (format decimal strftime f.items l e) ∷ [])
        ]
        else ok (a, [])

    unfoldable pub log_to_all :
        List LogAppender → LogLevel → LogEvent → Outcome (List LogAppender × List Write)
    log_to_all [] l e = ok ([], [])
    log_to_all (a ∷ rest) l e =
        log_to a l e >>= λ r. log_to_all rest l e >>= λ q. ok (r.0 ∷ q.0, r.1 ++ q.1)

    unfoldable pub log : Logger → LogLevel → LogEvent → Outcome (Logger × List Write)
    log g l e =
        if reaches l g.level
        then (log_to_all g.appenders l e >>= λ r. ok (record g { appenders = r.0 }, r.1))
        else ok (g, [])

abbrev pub or_default : Option LogFormatter → LogAppender → LogAppender
or_default f a = elim a.formatter [ none ↦ record a { formatter = f } | some h ↦ a ]

unfoldable pub add_appender : LogAppender → Logger → Logger
add_appender a g = record g { appenders = g.appenders ++ or_default g.formatter a ∷ [] }

unfoldable pub erase_appender : ℕ → List LogAppender → List LogAppender
erase_appender k [] = []
erase_appender k (a ∷ l) = let rest = erase_appender k l in if a.id == k then l else a ∷ rest

unfoldable pub del_appender : ℕ → Logger → Logger
del_appender k g = record g { appenders = erase_appender k g.appenders }

unfoldable pub clear_appenders : Logger → Logger
clear_appenders g = record g { appenders = [] }

unfoldable pub set_level : LogLevel → Logger → Logger
set_level l g = record g { level = l }

abbrev pub followed : Option LogFormatter → LogAppender → LogAppender
followed f a = if a.has_formatter then a else record a { formatter = f }

unfoldable pub set_formatter : Option LogFormatter → Logger → Logger
set_formatter f g = record g { formatter = f; appenders = map (followed f) g.appenders }

module _ (isalpha : ℕ → Bool) where
  -- `Logger::setFormatter` of a pattern: one that is an error changes nothing.
  unfoldable pub set_pattern : Text → Logger → Logger
  set_pattern pattern g =
      let f = new_formatter isalpha pattern in if f.is_error then g else set_formatter (some f) g

  unfoldable pub new_logger : Text → Logger
  new_logger name = record {
    name = name;
    level = LogLevel.debug;
    appenders = [];
    formatter = some (
        new_formatter isalpha (codes "%d{%Y-%m-%d %H:%M:%S}%T%t%T%N%T%F%T[%p]%T[%c]%T%f:%l%T%m%n"));
  }

-- `m_loggers`, in the order in which the loggers were made, with the number of the next appender.
pub record LoggerManager : Type 0 where
  pub loggers : List Logger
  pub next_id : ℕ

unfoldable pub find_logger : Text → List Logger → Option Logger
find_logger name [] = none
find_logger name (g ∷ l) =
    let rest = find_logger name l in if same_text name g.name then some g else rest

module _ (isalpha : ℕ → Bool) where
  -- `getLogger`: a new logger writes to the standard output.
  unfoldable pub get_logger : Text → LoggerManager → Logger × LoggerManager
  get_logger name m = elim (find_logger name m.loggers) [
    | some g ↦ (g, m)
    | none ↦
        let g = add_appender (new_stdout_appender m.next_id) (new_logger isalpha name) in
        (g, record { loggers = m.loggers ++ g ∷ []; next_id = m.next_id + 1 })
  ]

  unfoldable pub new_manager : Text → LoggerManager
  new_manager name = record {
    loggers = add_appender (new_stdout_appender 0) (new_logger isalpha name) ∷ [];
    next_id = 1;
  }
