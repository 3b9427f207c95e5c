-- ===== src/Cli/Logger.antt =====
-- `init_logger` of both programs: which level a name chooses.
use rust_quote_streamer.Base.{◌==◌, if◌then◌else◌}
use rust_quote_streamer.Text.{Text, codes, to_lowercase, text_key}
use rust_quote_streamer.Platform.{Platform}

pub data LevelFilter : Type 0 where
  error_level warn_level info_level debug_level trace_level : LevelFilter

unfoldable pub level_of : Text → LevelFilter
level_of name =
    if name == codes "error"
    then error_level
    else if name == codes "warn"
    then warn_level
    else if name == codes "info"
    then info_level
    else if name == codes "debug"
    then debug_level
    else if name == codes "trace"
    then trace_level
    else info_level

unfoldable pub log_level : Platform → Text → LevelFilter
unfolding level_of
log_level p level = level_of (to_lowercase p.lower level)
