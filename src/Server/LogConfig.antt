-- ===== src/Server/LogConfig.antt =====
-- convertLegacyLogConfig and applyEnvOverrides of cmd/mcp-server/main.go: the logging configuration
-- that the settings and the environment give. The settings of sampling, masking and OTLP, which are
-- copied field by field, are left out, and so are the fields that only pkg/logging's defaults set.
pub mod Output
use Prim.Native.Char.{Char}
use mcp_memory_core.Base.{
  String, ◌==◌, Bool, ◌||◌, ◌&&◌, not, true, false, Option, none, some, List, [], ◌∷◌,
  if◌then◌else◌,
}
use mcp_memory_core.Base.Dict.{Dict, insert}
use mcp_memory_core.Base.Int.{ℤ, pos, is_above}
use mcp_memory_core.Base.Text.{to_lower}
use mcp_memory_core.Config.{Settings}
use mcp_memory_core.Config.Logging.{LoggingSettings}

pub data LogLevel : Type 0 where
  debug info warn error : LogLevel

pub data LogFormat : Type 0 where
  json plain : LogFormat

pub data LogOutput : Type 0 where
  stdout stderr to_file discard : LogOutput

pub record LogConfig : Type 0 where
  pub level : LogLevel
  pub format : LogFormat
  pub output : LogOutput
  pub file_path : String
  pub component_levels : Dict LogLevel
  pub buffer_size : ℤ
  pub async_logging : Bool
  pub enable_request_id : Bool
  pub enable_tracing : Bool
  pub enable_audit : Bool
  pub audit_file_path : String
  pub enable_stack_trace : Bool
  pub enable_caller : Bool
  pub pretty_print : Bool

abbrev pub default_config : LogConfig
default_config = record {
  level = info;
  format = json;
  output = stdout;
  file_path = "";
  component_levels = [];
  buffer_size = pos 1024;
  async_logging = false;
  enable_request_id = true;
  enable_tracing = false;
  enable_audit = false;
  audit_file_path = "";
  enable_stack_trace = false;
  enable_caller = false;
  pretty_print = false;
}

-- The level that a lower-case name stands for.
unfoldable pub level_named : String → Option LogLevel
level_named s =
    if s == "debug"
    then some debug
    else if s == "info"
    then some info
    else if s == "warn" || s == "warning"
    then some warn
    else if s == "error"
    then some error
    else none

abbrev pub or_level : LogLevel → Option LogLevel → LogLevel
or_level d none = d
or_level d (some l) = l

-- "json" is JSON, and any other text but the empty one is plain text.
abbrev pub format_named : String → LogFormat → LogFormat
format_named s kept = if s == "" then kept else if s == "json" then json else plain

-- strconv.ParseBool
unfoldable pub parse_bool : String → Option Bool
parse_bool s =
    if s == "1" || s == "t" || s == "T" || s == "true" || s == "TRUE" || s == "True"
    then some true
    else if s == "0" || s == "f" || s == "F" || s == "false" || s == "FALSE" || s == "False"
    then some false
    else none

abbrev pub or_flag : Bool → Option Bool → Bool
or_flag d none = d
or_flag d (some b) = b

module _ (u : Char → Char) where
  -- Levels with another name are left out.
  unfoldable pub convert_levels : Dict String → Dict LogLevel → Dict LogLevel
  unfolding to_lower level_named insert
  convert_levels [] converted = converted
  convert_levels ((component, name) ∷ rest) converted =
      convert_levels rest (elim (level_named (to_lower u name)) [
        | some l ↦ insert component l converted
        | none ↦ converted
      ])

  -- The output that the logging settings name, for the transport.
  unfoldable pub output_of : Bool → String → LogOutput → LogOutput
  output_of over_stdio name kept =
      if name == "stdout"
      then (if over_stdio then stderr else stdout)
      else if name == "stderr"
      then stderr
      else if name == "file"
      then to_file
      else kept

  unfoldable pub with_settings : {F : Type 0} → Bool → LoggingSettings F → LogConfig → LogConfig
  unfolding output_of convert_levels
  with_settings over_stdio l c = record c {
    format = format_named l.format c.format;
    output = output_of over_stdio l.output c.output;
    file_path = if l.output == "file" then l.file_path else c.file_path;
    component_levels = convert_levels l.component_levels [];
    buffer_size = if is_above 0 l.buffer_size then l.buffer_size else c.buffer_size;
    async_logging = l.async_logging;
    enable_request_id = l.enable_request_id;
    enable_tracing = l.enable_tracing;
    enable_audit = l.enable_audit;
    audit_file_path = l.audit_file_path;
    enable_stack_trace = l.enable_stack_trace;
    enable_caller = l.enable_caller;
    pretty_print = l.pretty_print;
  }

  -- `env` is os.Getenv.
  unfoldable pub apply_env_overrides : (String → String) → LogConfig → LogConfig
  unfolding to_lower level_named parse_bool output_of
  apply_env_overrides env c = record c {
    level = or_level c.level (level_named (to_lower u (env "MCP_LOG_LEVEL")));
    format = format_named (env "MCP_LOG_FORMAT") c.format;
    output = output_of false (env "MCP_LOG_OUTPUT") c.output;
    file_path =
        if env "MCP_LOG_OUTPUT" == "file" && not (env "MCP_LOG_FILE_PATH" == "")
        then env "MCP_LOG_FILE_PATH"
        else c.file_path;
    async_logging = or_flag c.async_logging (parse_bool (env "MCP_LOG_ASYNC"));
    enable_audit = or_flag c.enable_audit (parse_bool (env "MCP_LOG_AUDIT"));
  }

  abbrev pub start_config : Bool → LogConfig
  start_config over_stdio = record default_config { output = if over_stdio then stderr else stdout }

  abbrev pub configured : {F : Type 0} → Bool → String → Option (LoggingSettings F) → LogConfig
  unfolding with_settings level_named to_lower
  configured over_stdio level none = record (start_config over_stdio) {
    level = if level == "" then info else or_level info (level_named (to_lower u level));
  }
  configured over_stdio level (some l) = with_settings over_stdio l (start_config over_stdio)

  unfoldable pub convert_legacy_log_config :
      {F : Type 0} → (String → String) → Settings F → LogConfig
  unfolding configured apply_env_overrides
  convert_legacy_log_config env cfg =
      apply_env_overrides env (configured (cfg.transport_type == "stdio") cfg.log_level cfg.logging)
