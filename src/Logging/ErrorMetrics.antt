-- ===== src/Logging/ErrorMetrics.antt =====
-- pkg/logging/error_metrics.go: the counts of errors, and their metadata. The counters have 64 bits and
-- times are in nanoseconds. The locks make each method one step.
pub mod Counts
pub mod Windows
use mcp_memory_core.Base.{
  ℕ, zero, suc, ◌+◌, ◌-◌, ◌*◌, ◌%◌, String, ◌==◌, Bool, true, false, ◌||◌, not, Option, none, some,
  List, [], ◌∷◌, any, ltb, leb, eqb, length, if◌then◌else◌,
}
use mathlib.Core.List.{◌++◌}
use mcp_memory_core.Base.Int.{int64, signed}
use mcp_memory_core.Base.Dict.{Dict, lookup, insert}
use mcp_memory_core.Base.Float.{Floats}
use mcp_memory_core.Base.Text.{has_prefix}

pub record TimeWindow : Type 0 where
  pub timestamp : ℕ
  pub count : ℕ

-- Windows, oldest first.
pub record TimeWindowCounter : Type 0 where
  pub windows : List TimeWindow
  pub size : ℕ
  pub interval : ℕ

pub record ErrorMetrics : Type 0 where
  pub error_counts : Dict ℕ
  pub errors_by_operation : Dict (Dict ℕ)
  pub errors_by_component : Dict (Dict ℕ)
  pub error_rates : TimeWindowCounter
  pub total_errors : ℕ
  pub enabled : Bool

unfoldable pub new_time_window_counter : ℕ → ℕ → TimeWindowCounter
new_time_window_counter size interval = record { windows = []; size = size; interval = interval }

-- Sixty windows of a minute.
unfoldable pub new_error_metrics : ErrorMetrics
unfolding new_time_window_counter
new_error_metrics = record {
  error_counts = [];
  errors_by_operation = [];
  errors_by_component = [];
  error_rates = new_time_window_counter 60 60000000000;
  total_errors = 0;
  enabled = true;
}

-- The window is after the time that lies `age` before now.
unfoldable pub is_after : ℕ → ℕ → TimeWindow → Bool
is_after now age w = ltb now (w.timestamp + age)

-- The windows from the first one after the cutoff on; all of them, if there is none such.
unfoldable pub drop_old : ℕ → ℕ → List TimeWindow → List TimeWindow
unfolding is_after
drop_old now age [] = []
drop_old now age (w ∷ ws) =
    let rest = drop_old now age ws in if is_after now age w then w ∷ ws else rest

unfoldable pub clean_old_windows : ℕ → TimeWindowCounter → TimeWindowCounter
unfolding drop_old is_after
clean_old_windows now c =
    if any (is_after now (c.size * c.interval)) c.windows
    then record c { windows = drop_old now (c.size * c.interval) c.windows }
    else c

-- now.Truncate(interval)
abbrev pub truncate : ℕ → ℕ → ℕ
truncate now interval = now - now % interval

-- The last window is at the time or after it.
unfoldable pub is_current : ℕ → List TimeWindow → Bool
is_current start [] = false
is_current start (w ∷ []) = not (ltb w.timestamp start)
is_current start (w ∷ v ∷ ws) = is_current start (v ∷ ws)

unfoldable pub add_to_last : ℕ → List TimeWindow → List TimeWindow
add_to_last n [] = []
add_to_last n (w ∷ []) = record w { count = int64 (w.count + n) } ∷ []
add_to_last n (w ∷ v ∷ ws) = w ∷ add_to_last n (v ∷ ws)

abbrev pub drop_oldest : List TimeWindow → List TimeWindow
drop_oldest [] = []
drop_oldest (w ∷ ws) = ws

-- A window more, in place of the oldest one where there are already as many as there can be.
unfoldable pub add_window : ℕ → ℕ → ℕ → List TimeWindow → List TimeWindow
add_window size start n ws =
    (if leb size (length ws) then drop_oldest ws else ws)
    ++ (record { timestamp = start; count = n } ∷ [])

abbrev pub with_amount : ℕ → ℕ → TimeWindowCounter → TimeWindowCounter
unfolding is_current add_to_last add_window
with_amount start n c = record c {
  windows =
      if is_current start c.windows
      then add_to_last n c.windows
      else add_window c.size start n c.windows;
}

unfoldable pub increment_by : ℕ → ℕ → TimeWindowCounter → TimeWindowCounter
unfolding clean_old_windows with_amount
increment_by now n c = with_amount (truncate now c.interval) n (clean_old_windows now c)

unfoldable pub increment : ℕ → TimeWindowCounter → TimeWindowCounter
unfolding increment_by
increment now c = increment_by now 1 c

-- The sum of the windows after the cutoff, and how many they are.
unfoldable pub sum_after : ℕ → ℕ → List TimeWindow → ℕ × ℕ
unfolding is_after
sum_after now age [] = (0, 0)
sum_after now age (w ∷ ws) =
    let rest = sum_after now age ws in
    if is_after now age w then (int64 (w.count + rest.0), suc rest.1) else rest

-- `seconds` is duration.Seconds().
unfoldable pub get_rate : {F : Type 0} → Floats F → F → ℕ → ℕ → TimeWindowCounter → F
unfolding sum_after
get_rate fl seconds now duration c =
    if eqb (sum_after now duration c.windows).1 0
    then fl.ratio 0 1
    else fl.div (fl.of_int (signed (sum_after now duration c.windows).0)) seconds

unfoldable pub reset_windows : TimeWindowCounter → TimeWindowCounter
reset_windows c = record c { windows = [] }

abbrev pub or_zero : Option ℕ → ℕ
or_zero none = 0
or_zero (some n) = n

abbrev pub or_empty : Option (Dict ℕ) → Dict ℕ
or_empty none = []
or_empty (some m) = m

-- m[code]++
unfoldable pub count_code : String → Dict ℕ → Dict ℕ
unfolding lookup insert
count_code code m = insert code (int64 (or_zero (lookup code m) + 1)) m

-- m[name][code]++ with the inner map made where it is missing; nothing for an empty name.
unfoldable pub count_in : String → String → Dict (Dict ℕ) → Dict (Dict ℕ)
unfolding lookup insert count_code
count_in name code m =
    if name == "" then m else insert name (count_code code (or_empty (lookup name m))) m

-- A call of RecordError and its time.
pub record ErrorCall : Type 0 where
  pub code : String
  pub operation : String
  pub component : String
  pub now : ℕ

unfoldable pub record_error : ErrorCall → ErrorMetrics → ErrorMetrics
unfolding count_code count_in increment
record_error e m = if not m.enabled then m else record m {
  total_errors = int64 (m.total_errors + 1);
  error_counts = count_code e.code m.error_counts;
  errors_by_operation = count_in e.operation e.code m.errors_by_operation;
  errors_by_component = count_in e.component e.code m.errors_by_component;
  error_rates = increment e.now m.error_rates;
}

unfoldable pub reset : ErrorMetrics → ErrorMetrics
unfolding reset_windows
reset m = record m {
  error_counts = [];
  errors_by_operation = [];
  errors_by_component = [];
  total_errors = 0;
  error_rates = reset_windows m.error_rates;
}

unfoldable pub enable : ErrorMetrics → ErrorMetrics
enable m = record m { enabled = true }

unfoldable pub disable : ErrorMetrics → ErrorMetrics
disable m = record m { enabled = false }

-- The metrics after a sequence of calls, the latest first.
unfoldable pub record_all : List ErrorCall → ErrorMetrics → ErrorMetrics
unfolding record_error
record_all [] m = m
record_all (e ∷ es) m = record_error e (record_all es m)

pub data ErrorSeverity : Type 0 where
  low medium high critical : ErrorSeverity

pub data ErrorCategory : Type 0 where
  storage validation business auth transport system : ErrorCategory

pub record ErrorMetadata : Type 0 where
  pub code : String
  pub category : ErrorCategory
  pub severity : ErrorSeverity
  pub source : String
  pub operation : String
  pub component : String

-- hasPrefix of several prefixes.
abbrev pub has_any_prefix : String → List String → Bool
has_any_prefix s prefixes = any (λ p. has_prefix s p) prefixes

unfoldable pub get_error_metadata : String → String → String → ErrorMetadata
unfolding has_prefix
get_error_metadata code operation component =
    let metadata = λ (category : ErrorCategory) (severity : ErrorSeverity) (source : String).
      let made : ErrorMetadata = record {
        code = code;
        category = category;
        severity = severity;
        source = source;
        operation = operation;
        component = component;
      } in
      made in
    if has_any_prefix code ("STORAGE_" ∷ [])
    then metadata storage high "database"
    else if has_any_prefix code ("VALIDATION_" ∷ [])
    then metadata validation low "input"
    else if has_any_prefix code
        ("ENTITY_" ∷ "RELATION_" ∷ "OBSERVATION_" ∷ "INVALID_OPERATION" ∷ "STATE_CONFLICT" ∷ [])
    then metadata business medium "application"
    else if has_any_prefix code ("AUTH_" ∷ [])
    then metadata auth medium "security"
    else if has_any_prefix code ("TRANSPORT_" ∷ [])
    then metadata transport medium "network"
    else if has_any_prefix code (
        "INTERNAL" ∷ "NOT_IMPLEMENTED" ∷ "SERVICE_UNAVAILABLE" ∷ "CONTEXT_" ∷ "PANIC"
        ∷ "CONFIGURATION" ∷ "RESOURCE_EXHAUSTED" ∷ [])
    then metadata system critical "system"
    else metadata system medium "unknown"
