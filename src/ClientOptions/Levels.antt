-- ===== src/ClientOptions/Levels.antt =====
-- The log levels of log.go, which are ints.
use courier_go.Base.{ℤ, pos, negsuc, String, ◌==◌, str_eq, if◌then◌else◌}
use courier_go.ClientOptions.{LogLevel, default, debug, warn, error}

-- LogLevelDefault, LogLevelDebug, LogLevelWarn and LogLevelError
abbrev pub log_level_default : ℤ
log_level_default = pos 0

abbrev pub log_level_debug : ℤ
log_level_debug = pos 1

abbrev pub log_level_warn : ℤ
log_level_warn = pos 2

abbrev pub log_level_error : ℤ
log_level_error = pos 3

-- toPahoLogLevel
unfoldable pub to_paho_log_level : ℤ → LogLevel
to_paho_log_level (negsuc n) = default
to_paho_log_level (pos n) =
    if n == 0
    then default
    else if n == 1
    then debug
    else if n == 2
    then warn
    else if n == 3
    then error
    else default

-- ParseLogLevel
unfoldable pub parse_log_level : String → ℤ
parse_log_level level =
    if str_eq level "none"
    then log_level_default
    else if str_eq level "debug"
    then log_level_debug
    else if str_eq level "warn"
    then log_level_warn
    else if str_eq level "error"
    then log_level_error
    else log_level_default
