-- ===== src/Logger/Config.antt =====
-- `LogIniter` of src/logger.cpp: the listener that brings the loggers in line with the configuration.
-- A std::set of definitions is its elements, one for each name.
use net_ninja.Common.{
  ℕ, ◌+◌, Bool, true, false, not, ◌&&◌, Option, none, some, List, [], ◌∷◌, ◌==◌, if◌then◌else◌,
}
use net_ninja.Http.{Text, codes, same_text}
use net_ninja.Logger.Levels.{LogLevel, value}
use net_ninja.Logger.Pattern.{is_empty, new_formatter}
use net_ninja.Logger.Loggers.{
  LogAppender, Logger, LoggerManager, new_stdout_appender, new_file_appender,
  set_appender_formatter, add_appender, clear_appenders, set_level, set_pattern, get_logger,
}

pub record LogAppenderDefine : Type 0 where
  pub type : Text
  pub file : Text
  pub level : LogLevel
  pub format : Text
  pub has_file : Bool

pub record LogDefine : Type 0 where
  pub name : Text
  pub formatter : Text
  pub appenders : List LogAppenderDefine
  pub level : LogLevel

-- The operators `==`.
unfoldable pub same_appender_define : LogAppenderDefine → LogAppenderDefine → Bool
same_appender_define a b =
    same_text a.type b.type
    && same_text a.file b.file
    && value a.level == value b.level
    && same_text a.format b.format

unfoldable pub same_appender_defines : List LogAppenderDefine → List LogAppenderDefine → Bool
same_appender_defines [] [] = true
same_appender_defines [] (b ∷ m) = false
same_appender_defines (a ∷ l) [] = false
same_appender_defines (a ∷ l) (b ∷ m) = same_appender_define a b && same_appender_defines l m

unfoldable pub same_define : LogDefine → LogDefine → Bool
same_define a b =
    same_text a.name b.name
    && same_text a.formatter b.formatter
    && same_appender_defines a.appenders b.appenders
    && value a.level == value b.level

-- `set::find`: the order of the set compares names alone.
unfoldable pub find_define : Text → List LogDefine → Option LogDefine
find_define name [] = none
find_define name (i ∷ l) =
    let rest = find_define name l in if same_text name i.name then some i else rest

-- The logger is changed in place.
unfoldable pub put_logger : Text → Logger → List Logger → List Logger
put_logger name g [] = []
put_logger name g (h ∷ l) =
    let rest = put_logger name g l in if same_text name h.name then g ∷ l else h ∷ rest

module _ (isalpha : ℕ → Bool) (opens : Text → Bool) where
  -- The body of the loops over `i.appenders`, up to `addAppender`.
  unfoldable pub make_appender : ℕ → LogAppenderDefine → LogAppender
  make_appender id a =
      let made =
        if same_text a.type (codes "FileLogAppender")
        then new_file_appender opens id a.file
        else new_stdout_appender id in
      let ap = record made { level = a.level } in
      let fmt = new_formatter isalpha a.format in
      if is_empty a.format
      then ap
      else if fmt.is_error
      then ap
      else set_appender_formatter (some fmt) ap

  -- The loops over `i.appenders`. The number is that of the next appender.
  unfoldable pub add_appenders : List LogAppenderDefine → Logger × ℕ → Logger × ℕ
  add_appenders [] s = s
  add_appenders (a ∷ l) (g, id) = add_appenders l (add_appender (make_appender id a) g, id + 1)

  unfoldable pub set_own_pattern : LogDefine → Logger → Logger
  set_own_pattern i g = if is_empty i.formatter then g else set_pattern isalpha i.formatter g

  -- A definition whose name is new.
  unfoldable pub on_added : LogDefine → Logger × ℕ → Logger × ℕ
  on_added i (g, id) =
      add_appenders i.appenders (set_own_pattern i (set_level i.level (clear_appenders g)), id)

  -- A definition that is not equal to the one of its name.
  unfoldable pub on_changed : LogDefine → Logger × ℕ → Logger × ℕ
  on_changed i (g, id) =
      add_appenders i.appenders (clear_appenders (set_own_pattern i (set_level i.level g)), id)

  -- `getLogger`, and the changes through the pointer that it returns.
  unfoldable pub with_logger : Text → (Logger × ℕ → Logger × ℕ) → LoggerManager → LoggerManager
  with_logger name f m =
      let (g, m') = get_logger isalpha name m in
      let (g', id) = f (g, m'.next_id) in
      record { loggers = put_logger name g' m'.loggers; next_id = id }

  unfoldable pub on_define : List LogDefine → LogDefine → LoggerManager → LoggerManager
  on_define old_value i m = elim (find_define i.name old_value) [
    | none ↦ with_logger i.name (on_added i) m
    | some x ↦ if not (same_define i x) then with_logger i.name (on_changed i) m else m
  ]

  unfoldable pub on_logs : List LogDefine → List LogDefine → LoggerManager → LoggerManager
  on_logs old_value [] m = m
  on_logs old_value (i ∷ new_value) m = on_logs old_value new_value (on_define old_value i m)
