-- ===== src/Logx/Tests.antt =====
-- `ParseLevel` on some values of the environment variable.
use differ_nvim.Common.{◌≡◌, refl, true, false}
use differ_nvim.Common.Spaces.{trim_space, is_word}
use differ_nvim.Logx.{level_debug, level_info, level_warn, parse_level}

-- Space around the word and its case do not matter.
debug_level : parse_level " Debug\n" ≡ (level_debug, true)
unfolding parse_level trim_space is_word
debug_level = refl

warning_level : parse_level "WARNING" ≡ (level_warn, true)
unfolding parse_level trim_space is_word
warning_level = refl

no_level : parse_level "" ≡ (level_info, true)
unfolding parse_level trim_space is_word
no_level = refl

-- A value that is not known is reported, and the level is `info`.
other_level : parse_level "loud" ≡ (level_info, false)
unfolding parse_level trim_space is_word
other_level = refl
