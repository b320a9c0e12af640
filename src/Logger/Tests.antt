-- ===== src/Logger/Tests.antt =====
-- The loggers of src/logger.cpp at concrete inputs, with the letters of ASCII.
use net_ninja.Common.{ℕ, ◌+◌, ◌≡◌, refl, inl, Bool, true, false, some, List, [], ◌∷◌}
use net_ninja.Http.{Text, codes, same_text}
use net_ninja.Logger.Levels.{LogLevel}
use net_ninja.Logger.Printed.{
  IsAlpha, IsPrintable, is_letter, print_items, new_formatter-print_items, new_formatter-percent,
}
use net_ninja.Logger.Loggers.{
  Logger, LoggerManager, new_stdout_appender, add_appender, new_logger, find_logger, get_logger,
  new_manager,
}
use net_ninja.Logger.Config.{
  LogAppenderDefine, LogDefine, find_define, on_logs, on_added, on_changed,
}
use net_ninja.Logger.Defined.{defined, on_added-on_changed}
use net_ninja.Logger.Configured.{on_logs_other, on_logs-defined}
use net_ninja.Logger.Pattern.{
  FormatItem, LogEvent, scan_name, scan_format, split, to_item, to_items, new_date_time,
  new_formatter, s_format_items,
}

pattern_run :
    (new_formatter is_letter (codes "%d{%Y} [%p]%T%m%n")).items
    ≡ FormatItem.date_time (codes "%Y")
      ∷ FormatItem.string (codes " [")
      ∷ FormatItem.level
      ∷ FormatItem.string (codes "]")
      ∷ FormatItem.tab
      ∷ FormatItem.message
      ∷ FormatItem.new_line
      ∷ []
unfolding scan_name scan_format split to_item to_items new_date_time new_formatter same_text
    s_format_items
pattern_run = refl

broken_run :
    (new_formatter is_letter (codes "ab%d{x")).items
    ≡ FormatItem.string (codes "<<pattern_error>>") ∷ FormatItem.string (codes "abd{x") ∷ []
unfolding scan_name scan_format split to_item to_items new_date_time new_formatter same_text
    s_format_items
broken_run = refl

percent_run :
    (new_formatter is_letter (codes "5%% %m")).items
    ≡ FormatItem.string (codes "5%")
      ∷ FormatItem.string (codes "<<error_format %>>")
      ∷ FormatItem.string (codes " ")
      ∷ FormatItem.message
      ∷ []
unfolding scan_name scan_format split to_item to_items new_date_time new_formatter same_text
    s_format_items
percent_run = refl

abbrev items : List FormatItem
items =
    FormatItem.date_time (codes "%H:%M")
    ∷ FormatItem.string (codes " [")
    ∷ FormatItem.level
    ∷ FormatItem.string (codes "] ")
    ∷ FormatItem.message
    ∷ FormatItem.new_line
    ∷ []

is_letter-IsAlpha : IsAlpha is_letter
is_letter-IsAlpha = record { letters = λ c h. h; percent = refl }

items-IsPrintable : IsPrintable is_letter items
items-IsPrintable = (
  refl,
  (refl, (refl, (refl, (refl, (refl, tt))))),
  (refl, (refl, (refl, tt)), refl, (refl, (refl, (refl, (refl, tt)), refl, (refl, (refl, tt))))),
)

new_formatter-print_items_example :
    new_formatter is_letter (print_items items)
    ≡ record { pattern = print_items items; items = items; is_error = false }
new_formatter-print_items_example =
    new_formatter-print_items is_letter items is_letter-IsAlpha items-IsPrintable

new_formatter-percent_example :
    ((new_formatter is_letter (codes "5%%")).items
      ≡ FormatItem.string (codes "5%") ∷ FormatItem.string (codes "<<error_format %>>") ∷ [])
    × ((new_formatter is_letter (codes "5%%")).is_error ≡ true)
new_formatter-percent_example = new_formatter-percent is_letter (codes "5") (refl, tt)

abbrev logger : Logger
logger = add_appender (new_stdout_appender 1) (new_logger is_letter (codes "app"))

abbrev event : LogEvent
event = record {
  m_filename = codes "a.cpp";
  m_line = 7;
  m_elapse = 0;
  m_thread_id = 1;
  m_fiber_id = 2;
  m_time = 100;
  m_thread_name = codes "main";
  m_content = codes "hello";
  m_logger_name = codes "app";
}

abbrev digit : ℕ → Text
digit n = (48 + n) ∷ []

abbrev clock : ℕ → Text → ℕ → Text
clock size f t = codes "now"

abbrev any_file : Text → Bool
any_file s = true

abbrev to_file : LogAppenderDefine
to_file = record {
  type = codes "FileLogAppender";
  file = codes "a.log";
  level = LogLevel.error;
  format = codes "%m%n";
  has_file = true;
}

abbrev app : LogDefine
app = record {
  name = codes "app";
  formatter = codes "%p %m%n";
  appenders = to_file ∷ [];
  level = LogLevel.warning;
}

abbrev web : LogDefine
web = record { name = codes "web"; formatter = []; appenders = []; level = LogLevel.info }

abbrev manager : LoggerManager
manager = new_manager is_letter (codes "root")

on_added-on_changed_example :
    on_added is_letter any_file app (logger, 4) ≡ on_changed is_letter any_file app (logger, 4)
on_added-on_changed_example = on_added-on_changed is_letter any_file app logger 4

on_logs_other_example :
    find_logger (codes "root") (on_logs is_letter any_file (web ∷ []) (app ∷ []) manager).loggers
    ≡ find_logger (codes "root") manager.loggers
unfolding same_text
on_logs_other_example =
    on_logs_other is_letter any_file (web ∷ []) (app ∷ []) (codes "root") manager (refl, tt)

on_logs-defined_example :
    (id : ℕ) × (find_logger
        (codes "app")
        (on_logs is_letter any_file [] (web ∷ app ∷ []) manager).loggers
      ≡ some (defined is_letter any_file app (get_logger is_letter (codes "app") manager).0 id))
unfolding same_text find_define
on_logs-defined_example =
    on_logs-defined is_letter any_file [] (web ∷ []) [] app manager (inl refl) (refl, tt) tt
