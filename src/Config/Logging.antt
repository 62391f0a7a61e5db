-- ===== src/Config/Logging.antt =====
-- The logging settings of pkg/config/config.go and validateLoggingConfig.
use Prim.Native.Char.{Char}
use mcp_memory_core.Base.{
  String, ◌==◌, Bool, ◌||◌, ◌&&◌, not, Option, none, some, List, [], ◌∷◌, if◌then◌else◌,
}
use mcp_memory_core.Base.Text.{to_lower, trim_space}
use mcp_memory_core.Base.Dict.{Dict}
use mcp_memory_core.Base.Int.{ℤ, pos, is_negative, is_zero}

pub record SamplingSettings (F : Type 0) : Type 0 where
  pub enabled : Bool
  pub rate : F
  pub burst_size : ℤ
  pub always_errors : Bool

pub record MaskingSettings : Type 0 where
  pub enabled : Bool
  pub fields : List String
  pub patterns : List String
  pub mask_emails : Bool
  pub mask_phone_numbers : Bool
  pub mask_credit_cards : Bool
  pub mask_ssn : Bool
  pub mask_api_keys : Bool

pub record OtlpSettings : Type 0 where
  pub enabled : Bool
  pub endpoint : String
  pub headers : Dict String
  pub insecure : Bool
  pub timeout : ℤ
  pub batch_size : ℤ
  pub queue_size : ℤ

pub record LoggingSettings (F : Type 0) : Type 0 where
  pub format : String
  pub output : String
  pub file_path : String
  pub buffer_size : ℤ
  pub async_logging : Bool
  pub enable_request_id : Bool
  pub enable_tracing : Bool
  pub enable_audit : Bool
  pub audit_file_path : String
  pub enable_stack_trace : Bool
  pub enable_caller : Bool
  pub pretty_print : Bool
  pub component_levels : Dict String
  pub sampling : Option (SamplingSettings F)
  pub masking : Option MaskingSettings
  pub otlp : Option OtlpSettings

-- The errors, with the values that their texts show.
pub data LoggingError (F : Type 0) : Type 0 where
  bad_format bad_output : String → LoggingError F
  no_file_path no_endpoint : LoggingError F
  bad_buffer_size bad_burst_size bad_timeout bad_batch_size bad_queue_size : ℤ → LoggingError F
  bad_component_level : String → String → LoggingError F
  bad_rate : F → LoggingError F

infixr 4 ◌or_else◌
-- The first error.
abbrev pub ◌or_else◌ : {E : Type 0} → Option E → Option E → Option E
none or_else b = b
some e or_else b = some e

-- The first alternative's error, if the test says so.
abbrev pub fault : {E : Type 0} → Bool → E → Option E
fault bad e = if bad then some e else none

module _ (u : Char → Char) {F : Type 0} (below_zero above_one : F → Bool) where
  unfoldable pub format_error : LoggingSettings F → Option (LoggingError F)
  unfolding to_lower
  format_error l =
      fault
        (not (l.format == "")
          && not (to_lower u l.format == "json" || to_lower u l.format == "text"))
        (bad_format l.format)

  unfoldable pub output_error : LoggingSettings F → Option (LoggingError F)
  unfolding to_lower trim_space
  output_error l =
      let o = to_lower u l.output in
      fault (not (l.output == "") && not (o == "stdout" || o == "stderr" || o == "file"))
        (bad_output l.output)
      or_else fault (o == "file" && trim_space l.file_path == "") no_file_path

  abbrev is_level : String → Bool
  is_level s = s == "debug" || s == "info" || s == "warn" || s == "error"

  -- A map is visited in an order of its own, so with several bad levels any of them is reported.
  unfoldable pub levels_error : Dict String → Option (LoggingError F)
  unfolding to_lower
  levels_error [] = none
  levels_error ((component, level) ∷ rest) =
      fault (not (is_level (to_lower u level))) (bad_component_level level component)
      or_else levels_error rest

  unfoldable pub sampling_error : Option (SamplingSettings F) → Option (LoggingError F)
  sampling_error none = none
  sampling_error (some s) =
      fault (below_zero s.rate || above_one s.rate) (bad_rate s.rate)
      or_else fault (is_negative s.burst_size) (bad_burst_size s.burst_size)

  unfoldable pub otlp_error : Option OtlpSettings → Option (LoggingError F)
  unfolding trim_space
  otlp_error none = none
  otlp_error (some o) =
      fault (o.enabled && trim_space o.endpoint == "") no_endpoint
      or_else fault (is_negative o.timeout) (bad_timeout o.timeout)
      or_else fault (is_negative o.batch_size) (bad_batch_size o.batch_size)
      or_else fault (is_negative o.queue_size) (bad_queue_size o.queue_size)

  unfoldable pub logging_error : LoggingSettings F → Option (LoggingError F)
  unfolding format_error output_error levels_error sampling_error otlp_error
  logging_error l =
      format_error l
      or_else output_error l
      or_else fault (is_negative l.buffer_size) (bad_buffer_size l.buffer_size)
      or_else levels_error l.component_levels
      or_else sampling_error l.sampling
      or_else otlp_error l.otlp

  unfoldable pub lower_values : Dict String → Dict String
  unfolding to_lower
  lower_values [] = []
  lower_values ((component, level) ∷ rest) = (component, to_lower u level) ∷ lower_values rest

  -- The defaults and normal forms that follow the checks.
  unfoldable pub normalized : LoggingSettings F → LoggingSettings F
  unfolding to_lower trim_space lower_values
  normalized l = record l {
    audit_file_path =
        if l.enable_audit && trim_space l.audit_file_path == ""
        then "audit.log"
        else l.audit_file_path;
    buffer_size = if is_zero l.buffer_size then pos 1024 else l.buffer_size;
    format = to_lower u l.format;
    output = to_lower u l.output;
    component_levels = lower_values l.component_levels;
  }

  abbrev pub checked :
      LoggingSettings F → Option (LoggingError F) → LoggingSettings F × Option (LoggingError F)
  unfolding normalized
  checked l none = (normalized l, none)
  checked l (some e) = (l, some e)

  unfoldable pub validate_logging_config :
      LoggingSettings F → LoggingSettings F × Option (LoggingError F)
  unfolding logging_error normalized
  validate_logging_config l = checked l (logging_error l)
