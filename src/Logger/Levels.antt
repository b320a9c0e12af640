-- ===== src/Logger/Levels.antt =====
-- The levels of src/logger.h.
use net_ninja.Common.{ℕ, Bool, if◌then◌else◌, leb}
use net_ninja.Http.{Text, codes, same_text}

pub data LogLevel : Type 0 where
  unknown : LogLevel
  debug : LogLevel
  info : LogLevel
  warning : LogLevel
  error : LogLevel
  fatal : LogLevel

-- The number of a level in the enumeration.
abbrev pub value : LogLevel → ℕ
value LogLevel.unknown = 0
value LogLevel.debug = 1
value LogLevel.info = 2
value LogLevel.warning = 3
value LogLevel.error = 4
value LogLevel.fatal = 5

-- `level >= least`.
abbrev pub reaches : LogLevel → LogLevel → Bool
reaches level least = leb (value least) (value level)

-- `s_level[level]`, in the dumps of the configuration.
unfoldable pub get_level : LogLevel → Text
get_level LogLevel.unknown = codes "UNKNOW"
get_level LogLevel.debug = codes "DEBUG"
get_level LogLevel.info = codes "INFO"
get_level LogLevel.warning = codes "WARNING"
get_level LogLevel.error = codes "ERROR"
get_level LogLevel.fatal = codes "FATAL"

unfoldable pub from_string : Text → LogLevel
from_string s =
    if same_text s (codes "DEBUG")
    then LogLevel.debug
    else if same_text s (codes "INFO")
    then LogLevel.info
    else if same_text s (codes "WARNING")
    then LogLevel.warning
    else if same_text s (codes "ERROR")
    then LogLevel.error
    else if same_text s (codes "FATAL")
    then LogLevel.fatal
    else LogLevel.fatal

unfoldable pub to_string : LogLevel → Text
to_string LogLevel.debug = codes "DEBUG"
to_string LogLevel.info = codes "INFO"
to_string LogLevel.warning = codes "WARNING"
to_string LogLevel.error = codes "ERROR"
to_string LogLevel.fatal = codes "FATAL"
to_string LogLevel.unknown = codes "UNKNOWN"
