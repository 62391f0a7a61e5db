-- ===== src/Logging/Strategy.antt =====
-- pkg/logging/sampling_strategies.go: the data of the sampling strategies, and what they share. `F` is
-- float64. Times are in nanoseconds, and a call reads the clock once. Each strategy's lock makes
-- each of its methods one step.
pub mod FixedRate
pub mod AdaptiveLoad
pub mod PriorityBased
pub mod TailBased
pub mod Advanced
use Prim.Native.String.{◌++◌}
use mcp_memory_core.Base.{
  ℕ, ◌+◌, ◌-◌, ◌*◌, ◌%◌, String, ◌==◌, Bool, Option, none, some, List, is_some, ltb, if◌then◌else◌,
}
use mcp_memory_core.Base.Int.{ℤ, pos, negsuc, int64, is_above, signed, unsigned}
use mcp_memory_core.Base.Decimal.{decimal}
use mcp_memory_core.Base.Dict.{Dict, lookup}
use mcp_memory_core.Base.Float.{Floats}
use mcp_memory_core.Base.Hash.{offset_basis, write}

-- An `interface{}` of an attribute or of a condition. `other` is a value of a further type, as %v
-- prints it; a float32 is the float64 of the same value.
pub data Datum (F : Type 0) : Type 0 where
  nil : Datum F
  text : String → Datum F
  float64 float32 : F → Datum F
  int int32 int64_of : ℤ → Datum F
  other : String → Datum F

abbrev pub Attrs : Type 0 → Type 0
Attrs F = Dict (Datum F)

-- What ShouldSample is called with, and the time of the call.
pub record Call (F : Type 0) : Type 0 where
  pub level : ℤ
  pub component : String
  pub attrs : Attrs F
  pub now : ℕ

-- A zero time is `none`.
pub record SamplingStrategyStats (F : Type 0) : Type 0 where
  pub name : String
  pub total_evaluated : ℕ
  pub total_sampled : ℕ
  pub total_dropped : ℕ
  pub sample_rate : F
  pub last_evaluation : Option ℕ
  pub last_config_update : Option ℕ
  pub current_threshold : F

pub record SamplingCondition (F : Type 0) : Type 0 where
  pub field : String
  pub operator : String
  pub value : Datum F

pub record PrioritySamplingRule (F : Type 0) : Type 0 where
  pub name : String
  pub conditions : List (SamplingCondition F)
  pub sample_rate : F
  pub priority : ℤ
  pub always_sample : Bool

pub record TailBasedSamplingConfig (F : Type 0) : Type 0 where
  pub enabled : Bool
  pub buffer_size : ℤ
  pub trace_timeout_seconds : ℤ
  pub error_sample_rate : F
  pub slow_trace_sample_rate : F
  pub slow_trace_threshold_ms : ℤ
  pub default_sample_rate : F

-- `adjustment_interval` is in nanoseconds.
pub record AdaptiveLoadConfig (F : Type 0) : Type 0 where
  pub initial_rate : F
  pub min_rate : F
  pub max_rate : F
  pub system_load_threshold : F
  pub memory_threshold_percent : F
  pub adjustment_interval : ℤ

-- What an UpdateConfig is given.
pub data ConfigValue (F : Type 0) : Type 0 where
  rate_value : F → ConfigValue F
  load_value : AdaptiveLoadConfig F → ConfigValue F
  rules_value : List (PrioritySamplingRule F) → ConfigValue F
  tail_value : TailBasedSamplingConfig F → ConfigValue F
  other_value : ConfigValue F

-- time.Duration(n) * time.Second, in 64 bits.
unfoldable pub seconds : ℤ → ℤ
seconds n = signed (int64 (unsigned n * 1000000000))

-- slog.Level.String, where the levels DEBUG, INFO, WARN and ERROR are -4, 0, 4 and 8.
unfoldable pub level_offset : String → ℕ → String
level_offset base n = if ltb 0 n then base ++ "+" ++ decimal n else base

unfoldable pub level_string : ℤ → String
unfolding level_offset
level_string (pos n) =
    if ltb n 4
    then level_offset "INFO" n
    else if ltb n 8
    then level_offset "WARN" (n - 4)
    else level_offset "ERROR" (n - 8)
level_string (negsuc n) =
    if ltb n 4 then level_offset "DEBUG" (3 - n) else "DEBUG-" ++ decimal (n - 3)

-- %v of an integer.
unfoldable pub show_int : ℤ → String
show_int (pos n) = decimal n
show_int (negsuc n) = "-" ++ decimal (n + 1)

module _ {F : Type 0} (fl : Floats F) where
  abbrev pub zero_float : F
  zero_float = fl.of_int (pos 0)

  unfoldable pub no_stats : String → SamplingStrategyStats F
  no_stats name = record {
    name = name;
    total_evaluated = 0;
    total_sampled = 0;
    total_dropped = 0;
    sample_rate = zero_float;
    last_evaluation = none;
    last_config_update = none;
    current_threshold = zero_float;
  }

  -- The count of a decision, without the rate.
  unfoldable pub count : Bool → ℕ → SamplingStrategyStats F → SamplingStrategyStats F
  count kept now s = record s {
    total_evaluated = int64 (s.total_evaluated + 1);
    total_sampled = if kept then int64 (s.total_sampled + 1) else s.total_sampled;
    total_dropped = if kept then s.total_dropped else int64 (s.total_dropped + 1);
    last_evaluation = some now;
  }

  -- The rate of the records that were kept, unless the count of evaluations is not positive.
  unfoldable pub with_rate : SamplingStrategyStats F → SamplingStrategyStats F
  with_rate s =
      if is_above 0 (signed s.total_evaluated)
      then record s {
        sample_rate =
            fl.div (fl.of_int (signed s.total_sampled)) (fl.of_int (signed s.total_evaluated));
      }
      else s

  unfoldable pub tally : Bool → ℕ → SamplingStrategyStats F → SamplingStrategyStats F
  unfolding count with_rate
  tally kept now s = with_rate (count kept now s)

  -- A hash as a number from 0 to 1.
  unfoldable pub normalized : ℕ → F
  normalized hash = fl.div (fl.of_uint hash) (fl.of_uint 18446744073709551615)

  -- fmt.Sprintf("%v", v)
  unfoldable pub show_datum : Datum F → String
  unfolding show_int
  show_datum nil = "<nil>"
  show_datum (text s) = s
  show_datum (float64 x) = fl.show x
  show_datum (float32 x) = fl.show32 x
  show_datum (int z) = show_int z
  show_datum (int32 z) = show_int z
  show_datum (int64_of z) = show_int z
  show_datum (other s) = s

  -- What a trace ID adds to a hash.
  unfoldable pub write_trace : Option (Datum F) → ℕ → ℕ
  unfolding show_datum write
  write_trace none h = h
  write_trace (some v) h = write (show_datum v) h

  -- The hash of the trace ID or, without one, of the time.
  unfoldable pub trace_hash : Attrs F → ℕ → ℕ
  unfolding lookup write_trace write
  trace_hash attrs now =
      if is_some (lookup "trace_id" attrs)
      then write_trace (lookup "trace_id" attrs) offset_basis
      else write (decimal now) offset_basis

  -- The hash of the level, the component and the trace ID.
  unfoldable pub call_hash : Call F → ℕ
  unfolding lookup write_trace write level_string
  call_hash c =
      write_trace (lookup "trace_id" c.attrs)
        (write c.component (write (level_string c.level) offset_basis))
