-- ===== src/Logging.antt =====
-- pkg/logging/logging.go: the levels by their names. strings.TrimSpace and strings.ToLower are
-- parameters, and so is `SetLevel`, which hands the level to slog.
use askl_golang_indexer.Prelude.{◌||◌, if◌then◌else◌, Text, text_beq, [], Result, ok, err}
use askl_golang_indexer.Prelude.Texts.{bytes}

pub data Level : Type 0 where
  level_debug level_info level_warn level_error : Level

-- The switch; the error keeps the level as it was given.
unfoldable pub level_named : Text → Text → Result Text Level
level_named name level =
    if text_beq name (bytes "debug")
    then ok level_debug
    else if text_beq name (bytes "info") || text_beq name []
    then ok level_info
    else if text_beq name (bytes "warn") || text_beq name (bytes "warning")
    then ok level_warn
    else if text_beq name (bytes "error")
    then ok level_error
    else err level

unfoldable pub parse_level : (Text → Text) → (Text → Text) → Text → Result Text Level
unfolding level_named
parse_level trim_space to_lower level = level_named (to_lower (trim_space level)) level
