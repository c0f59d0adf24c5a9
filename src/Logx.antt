-- ===== src/Logx.antt =====
-- internal/logx: `ParseLevel`.
mod Tests
use differ_nvim.Common.{String, Bool, true, false, ◌==◌, if◌then◌else◌}
use differ_nvim.Common.Spaces.{trim_space, is_word}

-- The levels of `slog`.
pub data Level : Type 0 where
  level_debug level_info level_warn level_error : Level

-- The `switch` of `ParseLevel` on the trimmed text.
unfoldable pub level_of : String → Level × Bool
level_of s =
    if s == ""
    then (level_info, true)
    else if is_word s "debug"
    then (level_debug, true)
    else if is_word s "info"
    then (level_info, true)
    else if is_word s "warn"
    then (level_warn, true)
    else if is_word s "warning"
    then (level_warn, true)
    else if is_word s "error"
    then (level_error, true)
    else (level_info, false)

-- `ParseLevel`
unfoldable pub parse_level : String → Level × Bool
unfolding level_of trim_space
parse_level s = level_of (trim_space s)
