-- ===== src/Logging/Health/Verdict.antt =====
-- The verdict of a health check (pkg/logging/health.go).
use mcp_memory_core.Base.{
  ℕ, ◌+◌, ◌≤◌, ◌≡◌, ◌∙◌, ap, inl, inr, String, Bool, true, false, ◌||◌, Option, none, some, List,
  [], ◌∷◌, ltb, length, arith, Bool-cases, if◌then◌else◌,
}
use mathlib.Core.List.{◌++◌}
use mcp_memory_core.Base.Float.{Floats}
use mcp_memory_core.Logging.Strategy.Advanced.{AdvancedSampler, get_stats}
use mcp_memory_core.Logging.Health.{
  HealthChecker, HealthIssue, HealthConfig, Resources, OverallHealthStatus, exceeds,
  resource_issues, update_component_health, count_status, check_system_resources,
  check_otlp_handler, check_metrics_collector, check_trace_manager, check_advanced_sampler,
  checked_sampler, sampler_health, low_rates, started, concluded, calculate_overall_health,
  perform_health_check, health_http_status,
}

-- The reply's status for the verdict on a status with these counters.
verdict_lem :
    (o : OverallHealthStatus)
    → 1 ≤ o.components_unknown
    → health_http_status (calculate_overall_health o).status
      ≡ (if ltb 0 o.components_unhealthy then 503 else if ltb 0 (length o.issues) then 200 else 503)
unfolding health_http_status calculate_overall_health
verdict_lem o h = ground arith

two_lists :
    (a b : Bool) (x y : HealthIssue)
    → ltb 0 (length ((if a then x ∷ [] else []) ++ (if b then y ∷ [] else []))) ≡ (a || b)
two_lists true true x y = ground arith
two_lists true false x y = ground arith
two_lists false true x y = ground arith
two_lists false false x y = ground arith

-- There is an issue exactly if a resource exceeds its threshold.
resource_issues_lem :
    (c : HealthConfig) (r : Resources) (now : ℕ)
    → ltb 0 (length (resource_issues c r now)) ≡ (
        exceeds r.memory_usage_mb c.memory_threshold_mb
        || exceeds r.goroutine_count c.goroutine_threshold)
unfolding resource_issues
resource_issues_lem c r now =
    two_lists (exceeds r.memory_usage_mb c.memory_threshold_mb)
      (exceeds r.goroutine_count c.goroutine_threshold) _ _

module _ {F : Type 0} (fl : Floats F) (low_rate_text : String → F → String) where
  -- Some strategy of the sampler keeps less than one record in a hundred.
  abbrev pub is_sampling_low : Option (AdvancedSampler F) → Bool
  is_sampling_low none = false
  is_sampling_low (some s) = ltb 0 (length (low_rates fl low_rate_text (get_stats fl s)))

  -- What a check of one more component leads to, where `bad` is whether the component is unhealthy.
  record IsCounted (bad : Bool) (before after : OverallHealthStatus) : Type 0 where
    total :
        after.components_healthy + after.components_unhealthy + after.components_unknown
        ≡ before.components_healthy + before.components_unhealthy + before.components_unknown + 1
    failing :
        after.components_unhealthy
        ≡ (if bad then before.components_unhealthy + 1 else before.components_unhealthy)
    known : before.components_unknown ≤ after.components_unknown
    kept : after.issues ≡ before.issues

  health-IsCounted :
      (xs : List String) (now : ℕ) (h : HealthChecker F)
      → IsCounted
          (ltb 0 (length xs))
          h.overall_health
          (sampler_health fl low_rate_text xs now h).overall_health
  unfolding sampler_health update_component_health count_status
  health-IsCounted [] now h = ground arith
  health-IsCounted (x ∷ xs) now h = ground arith

  sampler-IsCounted :
      (o : Option (AdvancedSampler F)) (now : ℕ) (h : HealthChecker F)
      → IsCounted
          (is_sampling_low o)
          h.overall_health
          (checked_sampler fl low_rate_text o now h).overall_health
  unfolding checked_sampler update_component_health count_status
  sampler-IsCounted none now h = ground arith
  sampler-IsCounted (some s) now h =
      health-IsCounted (low_rates fl low_rate_text (get_stats fl s)) now h

  -- The check of everything but the sampler.
  abbrev begun : Resources → ℕ → HealthChecker F → HealthChecker F
  begun r now h = check_trace_manager now (
      check_metrics_collector now
        (check_otlp_handler now (check_system_resources r now (started fl low_rate_text h))))

  record IsBegun (r : Resources) (now : ℕ) (h after : HealthChecker F) : Type 0 where
    total :
        after.overall_health.components_healthy + after.overall_health.components_unhealthy
          + after.overall_health.components_unknown
        ≡ 3
    failing : after.overall_health.components_unhealthy ≡ 0
    some_unknown : 1 ≤ after.overall_health.components_unknown
    found : after.overall_health.issues ≡ resource_issues h.config r now
    same : after.advanced_sampler ≡ h.advanced_sampler

  begun-IsBegun : (r : Resources) (now : ℕ) (h : HealthChecker F) → IsBegun r now h (begun r now h)
  unfolding check_system_resources check_otlp_handler check_metrics_collector check_trace_manager
      update_component_health count_status
  begun-IsBegun r now h = elim (Bool-cases h.has_otlp_handler) [
    | inl a ↦ elim (Bool-cases h.has_metrics_collector) [
      | inl b ↦ ground (arith, a, b)
      | inr b ↦ ground (arith, a, b)
    ]
    | inr a ↦ elim (Bool-cases h.has_metrics_collector) [
      | inl b ↦ ground (arith, a, b)
      | inr b ↦ ground (arith, a, b)
    ]
  ]

  -- The three counters of a check add up to the four components. The health endpoint answers 200 exactly
  -- if no strategy of a registered sampler keeps less than one record in a hundred and the memory or
  -- the goroutines exceed their threshold; otherwise, also when nothing is wrong at all, it answers
  -- 503, since the trace manager always counts as unknown.
  pub check_verdict :
      (r : Resources) (now : ℕ) (h : HealthChecker F)
      → ((perform_health_check fl low_rate_text r now h).overall_health.components_healthy
            + (perform_health_check fl low_rate_text r now h).overall_health.components_unhealthy
            + (perform_health_check fl low_rate_text r now h).overall_health.components_unknown
          ≡ 4)
        × (health_http_status (perform_health_check fl low_rate_text r now h).overall_health.status
            ≡ (if is_sampling_low h.advanced_sampler
                then 503
                else if exceeds r.memory_usage_mb h.config.memory_threshold_mb
                    || exceeds r.goroutine_count h.config.goroutine_threshold
                then 200
                else 503))
  unfolding perform_health_check check_advanced_sampler concluded calculate_overall_health
  check_verdict r now h =
      let b = begun r now h in
      let v = begun-IsBegun r now h in
      let w = sampler-IsCounted b.advanced_sampler now b in
      let after = (checked_sampler fl low_rate_text b.advanced_sampler now b).overall_health in
      let low : is_sampling_low b.advanced_sampler ≡ is_sampling_low h.advanced_sampler =
        ap is_sampling_low v.same in
      let issues : after.issues ≡ resource_issues h.config r now = w.kept ∙ v.found in
      (
        omega (arith, w.total, v.total),
        verdict_lem after (omega (arith, w.known, v.some_unknown))
            ∙ ground (
              arith,
              w.failing,
              v.failing,
              low,
              ap (λ l. ltb 0 (length l)) issues,
              resource_issues_lem h.config r now,
            ),
      )
