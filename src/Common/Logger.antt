-- ===== src/Common/Logger.antt =====
-- The levels of the log: src/common/logger.h and logger.cc. What is written to the standard error
-- stream is a list of lines.
use fn_finder.Base.{ℕ, Bool, List, [], ◌∷◌, ◌++◌, leb, if◌then◌else◌}
use fn_finder.Base.Text.{text}

pub data LogLevel : Type 0 where
  trace : LogLevel
  debug : LogLevel
  info : LogLevel
  warn : LogLevel
  error : LogLevel
  off : LogLevel

abbrev pub level_number : LogLevel → ℕ
level_number trace = 0
level_number debug = 1
level_number info = 2
level_number warn = 3
level_number error = 4
level_number off = 5

abbrev pub is_enabled : (current level : LogLevel) → Bool
is_enabled current level = leb (level_number current) (level_number level)

abbrev pub level_tag : LogLevel → List ℕ
level_tag trace = text "[TRACE]"
level_tag debug = text "[DEBUG]"
level_tag info = text "[INFO ]"
level_tag warn = text "[WARN ]"
level_tag error = text "[ERROR]"
level_tag off = text "[OFF  ]"

-- `Logger::log`: the lines written so far, and the new one behind them.
unfoldable pub log : (current level : LogLevel) → (message : List ℕ) → List (List ℕ) → List (List ℕ)
log current level message lines =
    if is_enabled current level then lines ++ (level_tag level ++ 0x20 ∷ message) ∷ [] else lines
