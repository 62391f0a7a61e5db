-- ===== src/Logging/Otlp.antt =====
-- The validation of the OTLP export's configuration in pkg/logging/config.go. url.Parse is the parameter
-- `parses`. An error is the start of its text.
pub mod Usable
use mcp_memory_core.Base.{
  String, ◌==◌, Bool, true, false, ◌&&◌, not, Option, none, some, if◌then◌else◌,
}
use mcp_memory_core.Base.Int.{ℤ, is_above, is_less, is_negative}
use mcp_memory_core.Base.Text.{trim_space}
use mcp_memory_core.Errors.{GoError, plain}

-- What is validated of the structs.
pub record TlsConfig : Type 0 where
  pub cert_file : String
  pub key_file : String

pub record RetryConfig : Type 0 where
  pub enabled : Bool
  pub initial_interval : ℤ
  pub max_interval : ℤ
  pub max_elapsed_time : ℤ
  pub max_retries : ℤ

pub record OtlpConfig : Type 0 where
  pub enabled : Bool
  pub endpoint : String
  pub protocol : String
  pub timeout : ℤ
  pub batch_size : ℤ
  pub batch_timeout : ℤ
  pub queue_size : ℤ
  pub health_check_interval : ℤ
  pub tls : TlsConfig
  pub retry_config : RetryConfig

-- if failed { return err }, and then the rest.
abbrev pub refuse_if : Bool → String → Option GoError → Option GoError
refuse_if failed message rest = if failed then some (plain message) else rest

unfoldable pub validate_tls : TlsConfig → Option GoError
validate_tls c =
    refuse_if (not (c.cert_file == "") && (c.key_file == ""))
      "keyFile is required when certFile is provided"
      (refuse_if (not (c.key_file == "") && (c.cert_file == ""))
        "certFile is required when keyFile is provided" none)

unfoldable pub validate_retry : RetryConfig → Option GoError
validate_retry c =
    if not c.enabled
    then none
    else refuse_if (not (is_above 0 c.initial_interval)) "initialInterval must be positive" (
        refuse_if (not (is_above 0 c.max_interval)) "maxInterval must be positive" (
          refuse_if (is_less c.max_interval c.initial_interval)
            "initialInterval cannot be greater than maxInterval"
            (refuse_if (not (is_above 0 c.max_elapsed_time)) "maxElapsedTime must be positive"
              (refuse_if (is_negative c.max_retries) "maxRetries must be non-negative" none))))

-- An error of a part gets a prefix.
abbrev pub wrap_part : String → Option GoError → Option GoError → Option GoError
wrap_part prefix none rest = rest
wrap_part prefix (some e) rest = some (plain prefix)

unfoldable pub validate_otlp : (String → Bool) → OtlpConfig → Option GoError
unfolding validate_tls validate_retry trim_space
validate_otlp parses c =
    if not c.enabled
    then none
    else refuse_if (trim_space c.endpoint == "") "endpoint is required when OTLP is enabled" (
        refuse_if (not (parses c.endpoint)) "invalid endpoint URL" (
          refuse_if
            (not (c.protocol == "") && not (c.protocol == "grpc") && not (c.protocol == "http"))
            "protocol must be 'grpc' or 'http'"
            (refuse_if (not (is_above 0 c.timeout)) "timeout must be positive" (
              refuse_if (not (is_above 0 c.batch_size)) "batchSize must be positive" (
                refuse_if (not (is_above 0 c.batch_timeout)) "batchTimeout must be positive" (
                  refuse_if (not (is_above 0 c.queue_size)) "queueSize must be positive" (
                    refuse_if (not (is_above 0 c.health_check_interval))
                      "healthCheckInterval must be positive"
                      (wrap_part "invalid TLS config" (validate_tls c.tls) (
                        wrap_part "invalid retry config" (validate_retry c.retry_config)
                          none)))))))))
