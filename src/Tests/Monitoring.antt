-- ===== src/Tests/Monitoring.antt =====
-- The error metrics and the health checker of pkg/logging.
use mcp_memory_core.Base.{
  ℕ, ◌+◌, ◌≤◌, ◌≡◌, refl, ◌==◌, ◌&&◌, ◌||◌, true, List, [], ◌∷◌, length, arith, if◌then◌else◌,
  ne_of_test,
}
use mcp_memory_core.Base.Int.{pos, int64}
use mcp_memory_core.Logging.ErrorMetrics.{
  ErrorCall, new_error_metrics, record_all, new_time_window_counter,
}
use mcp_memory_core.Logging.ErrorMetrics.Counts.{count_at, count_at_in, count_calls, counts_exact}
use mcp_memory_core.Logging.ErrorMetrics.Windows.{AreOrdered, increment_all, counter_bounds}
use mcp_memory_core.Logging.Health.{
  HealthChecker, Resources, exceeds, new_health_checker, register_metrics_collector,
  perform_health_check, health_http_status,
}
use mcp_memory_core.Logging.Health.Verdict.{is_sampling_low, check_verdict}
use mcp_memory_core.Tests.Sampling.{percents}

abbrev errors : List ErrorCall
errors =
    record { code = "INTERNAL"; operation = "create"; component = "storage"; now = 5 }
    ∷ record { code = "PANIC"; operation = "create"; component = ""; now = 3 }
    ∷ []

counts_exact_example :
    ((record_all errors new_error_metrics).total_errors ≡ int64 (length errors))
    × (count_at "PANIC" (record_all errors new_error_metrics).error_counts
        ≡ int64 (count_calls (λ e. e.code == "PANIC") errors))
    × (count_at_in "create" "PANIC" (record_all errors new_error_metrics).errors_by_operation
        ≡ int64 (count_calls (λ e. (e.operation == "create") && (e.code == "PANIC")) errors))
    × (count_at_in "create" "PANIC" (record_all errors new_error_metrics).errors_by_component
        ≡ int64 (count_calls (λ e. (e.component == "create") && (e.code == "PANIC")) errors))
counts_exact_example = counts_exact errors "create" "PANIC" (ne_of_test "create" "" refl)

-- Three windows where there is room for two.
abbrev calls : List (ℕ × ℕ)
calls = (12, 1) ∷ (25, 1) ∷ (31, 4) ∷ []

counter_bounds_example :
    (length (increment_all calls (new_time_window_counter 2 10)).windows ≤ 2)
    × AreOrdered (increment_all calls (new_time_window_counter 2 10)).windows
counter_bounds_example = counter_bounds 2 10 calls (omega arith)

abbrev checker : HealthChecker ℕ
unfolding new_health_checker register_metrics_collector
checker = register_metrics_collector (
    new_health_checker
      (record { enabled = true; memory_threshold_mb = pos 1024; goroutine_threshold = pos 1000 }))

abbrev resources : Resources
resources = record { memory_usage_mb = 2000; goroutine_count = 10 }

check_verdict_example :
    ((perform_health_check percents
          (λ n x. n)
          resources
          5
          checker).overall_health.components_healthy
        + (perform_health_check percents
            (λ n x. n)
            resources
            5
            checker).overall_health.components_unhealthy
        + (perform_health_check percents
            (λ n x. n)
            resources
            5
            checker).overall_health.components_unknown
      ≡ 4)
    × (health_http_status
          (perform_health_check percents (λ n x. n) resources 5 checker).overall_health.status
        ≡ (if is_sampling_low percents (λ n x. n) checker.advanced_sampler
            then 503
            else if exceeds resources.memory_usage_mb checker.config.memory_threshold_mb
                || exceeds resources.goroutine_count checker.config.goroutine_threshold
            then 200
            else 503))
check_verdict_example = check_verdict percents (λ n x. n) resources 5 checker
