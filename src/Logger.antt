-- ===== src/Logger.antt =====
-- framework/logger: which cores Init gives to the logger. The encoders, the sinks and the levels that zap reads from a
-- text are zap's and lumberjack's; fmt.Sprintf on the file name is a parameter, since the configuration gives the format.
use xgame.Common.{Bool, Option, none, some, String, List, [], ◌∷◌, ◌++◌, if◌then◌else◌}
use xgame.Go.Fmt.{Arg, text, sprintf}

-- zapcore.Level; `other` is any value without a name.
pub data Level : Type 0 where
  debug_level info_level warn_level error_level dpanic_level panic_level fatal_level other : Level

-- ZapConfig; of the rotation, what the repository reads
pub record ZapConfig : Type 0 where
  pub level : String
  pub enable_console_writer : Bool
  pub enable_file_writer : Bool
  pub filename : String  -- RotateLog.Filename

-- getColorByLevel
unfoldable pub get_color_by_level : Level → String
get_color_by_level debug_level = "\u{1b}[36m"
get_color_by_level info_level = "\u{1b}[32m"
get_color_by_level warn_level = "\u{1b}[33m"
get_color_by_level error_level = "\u{1b}[31m"
get_color_by_level dpanic_level = "\u{1b}[31m"
get_color_by_level panic_level = "\u{1b}[31m"
get_color_by_level fatal_level = "\u{1b}[31m"
get_color_by_level other = "\u{1b}[0m"

-- encodeLevel, over level.CapitalString
abbrev pub encode_level : (Level → String) → Level → String
encode_level capital_string level =
    sprintf "%s%s%s"
      (text (get_color_by_level level) ∷ text (capital_string level) ∷ text "\u{1b}[0m" ∷ [])

-- The functions of zapcore that format a field, and encodeLevel.
pub data Encoder : Type 0 where
  encode_level_func lowercase_level_encoder iso8601_time_encoder string_duration_encoder : Encoder
  seconds_duration_encoder short_caller_encoder : Encoder

-- zapcore.EncoderConfig, the fields that are set
pub record EncoderConfig : Type 0 where
  pub time_key : String
  pub level_key : String
  pub name_key : String
  pub caller_key : String
  pub message_key : String
  pub stacktrace_key : String
  pub line_ending : String
  pub encode_level : Encoder
  pub encode_time : Encoder
  pub encode_duration : Encoder
  pub encode_caller : Encoder

-- What zapcore.NewCore makes of a console encoder for the standard output, and of a JSON encoder for a file.
pub data Core : Type 0 where
  console : EncoderConfig → Level → Core
  file : EncoderConfig → String → Level → Core

abbrev console_config : EncoderConfig
console_config = record {
  time_key = "ts";
  level_key = "level";
  name_key = "logger";
  caller_key = "caller";
  message_key = "msg";
  stacktrace_key = "stacktrace";
  line_ending = "\n";
  encode_level = encode_level_func;
  encode_time = iso8601_time_encoder;
  encode_duration = string_duration_encoder;
  encode_caller = short_caller_encoder;
}

abbrev file_config : EncoderConfig
file_config = record console_config {
  encode_level = lowercase_level_encoder;
  encode_duration = seconds_duration_encoder;
}

-- zap.ParseAtomicLevel, and the level of both cores when it fails.
abbrev level_or_debug : Option Level → Level
level_or_debug none = debug_level
level_or_debug (some level) = level

module _ (parse_level : String → Option Level) where
  -- newConsoleCore
  abbrev pub new_console_core : ZapConfig → Core
  new_console_core config = console console_config (level_or_debug (parse_level config.level))

  -- newFileCore
  abbrev pub new_file_core : ZapConfig → Core
  new_file_core config =
      file file_config config.filename (level_or_debug (parse_level config.level))

  -- The cores of Init, and the configuration as it leaves it.
  unfoldable pub init_cores :
      (String → List Arg → String) → String → String → ZapConfig → List Core × ZapConfig
  init_cores format node_id node_type cfg =
      let first = if cfg.enable_console_writer then new_console_core cfg ∷ [] else [] in
      let named = record cfg {
        filename = format cfg.filename (text node_type ∷ text node_id ∷ []);
      } in
      if cfg.enable_file_writer then (first ++ new_file_core named ∷ [], named) else (first, cfg)

  -- The logger that Init leaves: the old one when there are no cores.
  replaced : List Core → List Core → List Core
  replaced old [] = old
  replaced old (core ∷ cores) = core ∷ cores

  -- Init
  unfoldable pub init :
      (String → List Arg → String) → String → String → ZapConfig → List Core → List Core × ZapConfig
  unfolding replaced
  init format node_id node_type cfg old =
      let (cores, cfg') = init_cores format node_id node_type cfg in (replaced old cores, cfg')
