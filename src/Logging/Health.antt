-- ===== src/Logging/Health.antt =====
-- pkg/logging/health.go: the health checker. What is read from the runtime is an argument, and so is
-- fmt's text of a low sample rate. The details of a component, the durations and the percentages of
-- the resources, which nothing reads, are left out, and so are the loop that calls the check and the
-- encoding of the reply.
pub mod Verdict
use Prim.Native.String.{◌++◌}
use mcp_memory_core.Base.{
  ℕ, ◌+◌, String, ◌==◌, Bool, true, false, ◌&&◌, ◌||◌, Option, none, some, List, [], ◌∷◌, ltb,
  length, if◌then◌else◌,
}
use mathlib.Core.List
use mcp_memory_core.Base.Int.{ℤ, pos, is_above, is_less}
use mcp_memory_core.Base.Decimal.{decimal}
use mcp_memory_core.Base.Dict.{Dict, lookup, insert}
use mcp_memory_core.Base.Float.{Floats}
use mcp_memory_core.Logging.Strategy.{SamplingStrategyStats, show_int}
use mcp_memory_core.Logging.Strategy.Advanced.{AdvancedSampler, get_stats}

pub data HealthStatusCode : Type 0 where
  healthy degraded unhealthy unknown : HealthStatusCode

pub record HealthIssue : Type 0 where
  pub component : String
  pub severity : String
  pub message : String
  pub timestamp : ℕ
  pub resolution : String

-- A time that was never set is `none`.
pub record ComponentHealthStatus : Type 0 where
  pub component : String
  pub status : HealthStatusCode
  pub timestamp : ℕ
  pub message : String
  pub consecutive_failures : ℕ
  pub last_success : Option ℕ
  pub last_failure : Option ℕ

pub record OverallHealthStatus : Type 0 where
  pub status : HealthStatusCode
  pub components_healthy : ℕ
  pub components_unhealthy : ℕ
  pub components_unknown : ℕ
  pub total_components : ℕ
  pub issues : List HealthIssue
  pub last_health_check : Option ℕ

-- What the check reads of the configuration.
pub record HealthConfig : Type 0 where
  pub enabled : Bool
  pub memory_threshold_mb : ℤ
  pub goroutine_threshold : ℤ

pub record HealthChecker (F : Type 0) : Type 0 where
  pub has_otlp_handler : Bool
  pub has_metrics_collector : Bool
  pub advanced_sampler : Option (AdvancedSampler F)
  pub config : HealthConfig
  pub overall_health : OverallHealthStatus
  pub component_health : Dict ComponentHealthStatus

-- The megabytes in use and the number of goroutines.
pub record Resources : Type 0 where
  pub memory_usage_mb : ℕ
  pub goroutine_count : ℕ

unfoldable pub new_health_checker : {F : Type 0} → HealthConfig → HealthChecker F
new_health_checker config = record {
  has_otlp_handler = false;
  has_metrics_collector = false;
  advanced_sampler = none;
  config = config;
  overall_health = record {
    status = unknown;
    components_healthy = 0;
    components_unhealthy = 0;
    components_unknown = 0;
    total_components = 0;
    issues = [];
    last_health_check = none;
  };
  component_health = [];
}

module _ {F : Type 0} where
  unfoldable pub register_otlp_handler : HealthChecker F → HealthChecker F
  register_otlp_handler h = record h { has_otlp_handler = true }

  unfoldable pub register_metrics_collector : HealthChecker F → HealthChecker F
  register_metrics_collector h = record h { has_metrics_collector = true }

  unfoldable pub register_advanced_sampler : AdvancedSampler F → HealthChecker F → HealthChecker F
  register_advanced_sampler s h = record h { advanced_sampler = some s }

abbrev pub is_healthy : HealthStatusCode → Bool
is_healthy healthy = true
is_healthy degraded = false
is_healthy unhealthy = false
is_healthy unknown = false

abbrev pub last_of : (ComponentHealthStatus → Option ℕ) → Option ComponentHealthStatus → Option ℕ
last_of field none = none
last_of field (some c) = field c

abbrev pub failures_of : Option ComponentHealthStatus → ℕ
failures_of none = 0
failures_of (some c) = c.consecutive_failures

-- A component's health after a check, from its health before.
unfoldable pub renewed :
    String → HealthStatusCode → String → ℕ → Option ComponentHealthStatus → ComponentHealthStatus
renewed component status message now before = record {
  component = component;
  status = status;
  timestamp = now;
  message = message;
  consecutive_failures = if is_healthy status then 0 else failures_of before + 1;
  last_success = if is_healthy status then some now else last_of (λ c. c.last_success) before;
  last_failure = if is_healthy status then last_of (λ c. c.last_failure) before else some now;
}

unfoldable pub count_status : HealthStatusCode → OverallHealthStatus → OverallHealthStatus
count_status healthy o = record o { components_healthy = o.components_healthy + 1 }
count_status degraded o = record o { components_unhealthy = o.components_unhealthy + 1 }
count_status unhealthy o = record o { components_unhealthy = o.components_unhealthy + 1 }
count_status unknown o = record o { components_unknown = o.components_unknown + 1 }

-- The text of an issue list, as %v prints it.
abbrev pub joined : List String → String
joined [] = ""
joined (x ∷ []) = x
joined (x ∷ y ∷ xs) = x ++ " " ++ joined (y ∷ xs)

abbrev pub system_issue : String → String → ℕ → HealthIssue
system_issue message resolution now = record {
  component = "system";
  severity = "WARNING";
  message = message;
  timestamp = now;
  resolution = resolution;
}

abbrev pub exceeds : ℕ → ℤ → Bool
exceeds n threshold = is_above 0 threshold && is_less threshold (pos n)

-- The issues of the resources, the memory's before the goroutines'.
unfoldable pub resource_issues : HealthConfig → Resources → ℕ → List HealthIssue
resource_issues config r now =
    List.◌++◌
      (if exceeds r.memory_usage_mb config.memory_threshold_mb
        then system_issue
            ("Memory usage ("
              ++ decimal r.memory_usage_mb
              ++ " MB) exceeds threshold ("
              ++ show_int config.memory_threshold_mb
              ++ " MB)")
            "Consider increasing memory limits or optimizing memory usage" now
          ∷ []
        else [])
      (if exceeds r.goroutine_count config.goroutine_threshold
        then system_issue
            ("Goroutine count ("
              ++ decimal r.goroutine_count
              ++ ") exceeds threshold ("
              ++ show_int config.goroutine_threshold
              ++ ")")
            "Check for goroutine leaks or consider increasing threshold" now
          ∷ []
        else [])

unfoldable pub calculate_overall_health : OverallHealthStatus → OverallHealthStatus
calculate_overall_health o = record o {
  status =
      if ltb 0 o.components_unhealthy
      then unhealthy
      else if ltb 0 (length o.issues)
      then degraded
      else if ltb 0 o.components_unknown
      then unknown
      else healthy;
}

module _ {F : Type 0} where
  unfoldable pub update_component_health :
      String → HealthStatusCode → String → ℕ → HealthChecker F → HealthChecker F
  unfolding lookup insert renewed count_status
  update_component_health component status message now h = record h {
    component_health =
        insert component
          (renewed component status message now (lookup component h.component_health))
          h.component_health;
    overall_health = count_status status h.overall_health;
  }

  unfoldable pub check_system_resources : Resources → ℕ → HealthChecker F → HealthChecker F
  unfolding resource_issues
  check_system_resources r now h = record h {
    overall_health = record h.overall_health {
      issues = List.◌++◌ h.overall_health.issues (resource_issues h.config r now);
    };
  }

  -- The comparisons with the handler's figures are disabled in the code, so it never has issues.
  unfoldable pub check_otlp_handler : ℕ → HealthChecker F → HealthChecker F
  unfolding update_component_health
  check_otlp_handler now h =
      if h.has_otlp_handler
      then update_component_health "otlp_handler" healthy "OTLP handler is healthy" now h
      else update_component_health "otlp_handler" unknown "OTLP handler not registered" now h

  unfoldable pub check_metrics_collector : ℕ → HealthChecker F → HealthChecker F
  unfolding update_component_health
  check_metrics_collector now h =
      if h.has_metrics_collector
      then update_component_health "metrics_collector" healthy "Metrics collector is operational"
          now h
      else update_component_health "metrics_collector" unknown "Metrics collector not registered"
          now h

  unfoldable pub check_trace_manager : ℕ → HealthChecker F → HealthChecker F
  unfolding update_component_health
  check_trace_manager now h =
      update_component_health "trace_manager" unknown "Trace manager not yet integrated" now h

module _ {F : Type 0} (fl : Floats F) (low_rate_text : String → F → String) where
  -- The strategies that keep less than one record in a hundred.
  unfoldable pub low_rates : Dict (SamplingStrategyStats F) → List String
  low_rates [] = []
  low_rates ((name, stats) ∷ rest) =
      let others = low_rates rest in
      if fl.less stats.sample_rate (fl.ratio 1 100)
      then low_rate_text name stats.sample_rate ∷ others
      else others

  abbrev pub sampler_health : List String → ℕ → HealthChecker F → HealthChecker F
  unfolding update_component_health
  sampler_health [] now h =
      update_component_health "advanced_sampler" healthy "Advanced sampler is healthy" now h
  sampler_health (x ∷ xs) now h =
      update_component_health "advanced_sampler" degraded
        ("Issues detected: [" ++ joined (x ∷ xs) ++ "]") now h

  abbrev pub checked_sampler : Option (AdvancedSampler F) → ℕ → HealthChecker F → HealthChecker F
  unfolding update_component_health low_rates sampler_health get_stats
  checked_sampler none now h =
      update_component_health "advanced_sampler" unknown "Advanced sampler not registered" now h
  checked_sampler (some s) now h = sampler_health (low_rates (get_stats fl s)) now h

  unfoldable pub check_advanced_sampler : ℕ → HealthChecker F → HealthChecker F
  unfolding checked_sampler
  check_advanced_sampler now h = checked_sampler h.advanced_sampler now h

  abbrev pub started : HealthChecker F → HealthChecker F
  started h = record h {
    overall_health = record h.overall_health {
      components_healthy = 0;
      components_unhealthy = 0;
      components_unknown = 0;
      issues = [];
    };
  }

  abbrev pub concluded : ℕ → HealthChecker F → HealthChecker F
  unfolding calculate_overall_health
  concluded now h = record h {
    overall_health = record (calculate_overall_health h.overall_health) {
      total_components = length h.component_health;
      last_health_check = some now;
    };
  }

  -- The whole check, at one reading of the clock.
  unfoldable pub perform_health_check : Resources → ℕ → HealthChecker F → HealthChecker F
  unfolding check_system_resources check_otlp_handler check_metrics_collector check_trace_manager
      check_advanced_sampler concluded
  perform_health_check r now h = concluded now (
      check_advanced_sampler now (
        check_trace_manager now (
          check_metrics_collector now
            (check_otlp_handler now (check_system_resources r now (started h))))))

-- The status of HTTPHealthHandler's reply.
unfoldable pub health_http_status : HealthStatusCode → ℕ
health_http_status healthy = 200
health_http_status degraded = 200
health_http_status unhealthy = 503
health_http_status unknown = 503
