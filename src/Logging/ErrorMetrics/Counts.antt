-- ===== src/Logging/ErrorMetrics/Counts.antt =====
-- The counts of the error metrics (pkg/logging/error_metrics.go).
use mcp_memory_core.Base.{
  ℕ, ◌+◌, ◌≡◌, ◌≢◌, refl, String, ◌==◌, eq_iff, Bool, true, ◌&&◌, List, [], ◌∷◌, length, arith,
  if◌then◌else◌,
}
use mcp_memory_core.Base.Int.{int64}
use mcp_memory_core.Base.Dict.{Dict, lookup, lookup-insert}
use mcp_memory_core.Logging.ErrorMetrics.{
  ErrorCall, new_error_metrics, count_code, count_in, or_zero, or_empty, record_error, record_all,
}

-- How many of the calls pass the test.
unfoldable pub count_calls : (ErrorCall → Bool) → List ErrorCall → ℕ
count_calls p [] = 0
count_calls p (e ∷ es) = if p e then count_calls p es + 1 else count_calls p es

-- m[code], and m[name][code].
unfoldable pub count_at : String → Dict ℕ → ℕ
count_at code m = or_zero (lookup code m)

unfoldable pub count_at_in : String → String → Dict (Dict ℕ) → ℕ
unfolding count_at
count_at_in name code m = count_at code (or_empty (lookup name m))

at-count_code :
    (j code : String) (m : Dict ℕ)
    → count_at j (count_code code m)
      ≡ (if code == j then int64 (count_at j m + 1) else count_at j m)
unfolding count_code count_at
at-count_code j code m =
    ground (arith, lookup-insert j code (int64 (or_zero (lookup code m) + 1)) m, eq_iff code j)

at-count_in :
    (k j name code : String) (m : Dict (Dict ℕ))
    → k ≢ ""
    → count_at_in k j (count_in name code m)
      ≡ (if (name == k) && (code == j) then int64 (count_at_in k j m + 1) else count_at_in k j m)
unfolding count_in count_at_in
at-count_in k j name code m h = ground (
  arith,
  lookup-insert k name (count_code code (or_empty (lookup name m))) m,
  at-count_code j code (or_empty (lookup name m)),
  eq_iff name k,
  eq_iff name "",
)

enabled_lem : (es : List ErrorCall) → (record_all es new_error_metrics).enabled ≡ true
unfolding record_all record_error new_error_metrics
enabled_lem [] = refl
enabled_lem (e ∷ es) = ground (arith, enabled_lem es)

total_lem :
    (es : List ErrorCall) → (record_all es new_error_metrics).total_errors ≡ int64 (length es)
unfolding record_all record_error new_error_metrics
total_lem [] = refl
total_lem (e ∷ es) = ground (arith, enabled_lem es, total_lem es)

none_at : (j : String) → count_at j new_error_metrics.error_counts ≡ 0
unfolding new_error_metrics count_at lookup
none_at j = refl

none_by_operation : (k j : String) → count_at_in k j new_error_metrics.errors_by_operation ≡ 0
unfolding new_error_metrics count_at_in count_at lookup
none_by_operation k j = refl

none_by_component : (k j : String) → count_at_in k j new_error_metrics.errors_by_component ≡ 0
unfolding new_error_metrics count_at_in count_at lookup
none_by_component k j = refl

code_lem :
    (j : String) (es : List ErrorCall)
    → count_at j (record_all es new_error_metrics).error_counts
      ≡ int64 (count_calls (λ e. e.code == j) es)
unfolding record_all record_error count_calls
code_lem j [] = ground (arith, none_at j)
code_lem j (e ∷ es) = ground (
  arith,
  enabled_lem es,
  code_lem j es,
  at-count_code j e.code (record_all es new_error_metrics).error_counts,
)

operation_lem :
    (k j : String) (es : List ErrorCall)
    → k ≢ ""
    → count_at_in k j (record_all es new_error_metrics).errors_by_operation
      ≡ int64 (count_calls (λ e. (e.operation == k) && (e.code == j)) es)
unfolding record_all record_error count_calls
operation_lem k j [] h = ground (arith, none_by_operation k j)
operation_lem k j (e ∷ es) h = ground (
  arith,
  enabled_lem es,
  operation_lem k j es h,
  at-count_in k j e.operation e.code (record_all es new_error_metrics).errors_by_operation h,
)

component_lem :
    (k j : String) (es : List ErrorCall)
    → k ≢ ""
    → count_at_in k j (record_all es new_error_metrics).errors_by_component
      ≡ int64 (count_calls (λ e. (e.component == k) && (e.code == j)) es)
unfolding record_all record_error count_calls
component_lem k j [] h = ground (arith, none_by_component k j)
component_lem k j (e ∷ es) h = ground (
  arith,
  enabled_lem es,
  component_lem k j es h,
  at-count_in k j e.component e.code (record_all es new_error_metrics).errors_by_component h,
)

-- After any calls of RecordError, the total, the count of each code and the counts of each code by
-- operation and by component, for names that are not empty, are the numbers of the calls with that
-- code and that name, up to the wrap-around of the 64-bit counters.
pub counts_exact :
    (es : List ErrorCall) (name code : String)
    → name ≢ ""
    → ((record_all es new_error_metrics).total_errors ≡ int64 (length es))
      × (count_at code (record_all es new_error_metrics).error_counts
          ≡ int64 (count_calls (λ e. e.code == code) es))
      × (count_at_in name code (record_all es new_error_metrics).errors_by_operation
          ≡ int64 (count_calls (λ e. (e.operation == name) && (e.code == code)) es))
      × (count_at_in name code (record_all es new_error_metrics).errors_by_component
          ≡ int64 (count_calls (λ e. (e.component == name) && (e.code == code)) es))
counts_exact es name code h =
    (total_lem es, code_lem code es, operation_lem name code es h, component_lem name code es h)
