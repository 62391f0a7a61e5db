-- ===== src/Logging/Strategy/TailBased.antt =====
-- TailBasedSamplingStrategy of pkg/logging/sampling_strategies.go. Its buffer of traces, which nothing
-- fills, holds the spans only by their number.
use mcp_memory_core.Base.{
  ℕ, String, Bool, true, false, Option, none, some, [], ◌∷◌, ltb, ◌+◌, if◌then◌else◌,
}
use mcp_memory_core.Base.Int.{ℤ, pos, negsuc, is_above, is_less}
use mcp_memory_core.Base.Dict.{Dict, lookup}
use mcp_memory_core.Base.Float.{Floats}
use mcp_memory_core.Base.Hash.{offset_basis}
use mcp_memory_core.Logging.Strategy.{
  Datum, int64_of, nil, text, float64, float32, int, int32, other, Call, SamplingStrategyStats,
  TailBasedSamplingConfig, ConfigValue, rate_value, load_value, rules_value, tail_value,
  other_value, seconds, no_stats, tally, normalized, trace_hash, write_trace,
}

pub record TraceBuffer : Type 0 where
  pub trace_id : String
  pub spans : ℕ
  pub start_time : ℕ
  pub has_error : Bool
  pub duration : ℤ
  pub sampled : Bool

pub record TailBased (F : Type 0) : Type 0 where
  pub config : TailBasedSamplingConfig F
  pub trace_buffer : Dict TraceBuffer
  pub stats : SamplingStrategyStats F

abbrev pub tail_based_name : String
tail_based_name = "tail_based"

-- start.Before(now.Add(-timeout))
unfoldable pub is_before_cutoff : ℕ → ℤ → ℕ → Bool
is_before_cutoff now (pos timeout) start = ltb (start + timeout) now
is_before_cutoff now (negsuc n) start = ltb start (now + (n + 1))

unfoldable pub drop_expired : ℕ → ℤ → Dict TraceBuffer → Dict TraceBuffer
unfolding is_before_cutoff
drop_expired now timeout [] = []
drop_expired now timeout ((id, b) ∷ rest) =
    let others = drop_expired now timeout rest in
    if is_before_cutoff now timeout b.start_time then others else (id, b) ∷ others

module _ {F : Type 0} where
  -- The attribute is an int64 above the threshold.
  unfoldable pub is_slow : ℤ → Option (Datum F) → Bool
  is_slow threshold (some (int64_of ms)) = is_less threshold ms
  is_slow threshold none = false
  is_slow threshold (some nil) = false
  is_slow threshold (some (text s)) = false
  is_slow threshold (some (float64 x)) = false
  is_slow threshold (some (float32 x)) = false
  is_slow threshold (some (int z)) = false
  is_slow threshold (some (int32 z)) = false
  is_slow threshold (some (other s)) = false

  -- A tick of cleanupExpiredTraces.
  unfoldable pub cleanup_expired_traces : ℕ → TailBased F → TailBased F
  unfolding drop_expired seconds
  cleanup_expired_traces now t = record t {
    trace_buffer = drop_expired now (seconds t.config.trace_timeout_seconds) t.trace_buffer;
  }

  unfoldable pub update_config : ℕ → ConfigValue F → TailBased F → TailBased F × Option String
  update_config now (tail_value cfg) t =
      (record t { config = cfg; stats = record t.stats { last_config_update = some now } }, none)
  update_config now (rate_value _) t = (t, some "invalid config type for tail-based strategy")
  update_config now (load_value _) t = (t, some "invalid config type for tail-based strategy")
  update_config now (rules_value _) t = (t, some "invalid config type for tail-based strategy")
  update_config now other_value t = (t, some "invalid config type for tail-based strategy")

  unfoldable pub get_stats : TailBased F → SamplingStrategyStats F
  get_stats t = record t.stats { name = tail_based_name }

module _ {F : Type 0} (fl : Floats F) where
  unfoldable pub new_tail_based : TailBasedSamplingConfig F → TailBased F
  unfolding no_stats
  new_tail_based config = record { config = config; trace_buffer = []; stats = no_stats fl "" }

  unfoldable pub apply_default_sampling : TailBasedSamplingConfig F → Call F → Bool
  unfolding is_slow lookup normalized trace_hash write_trace
  apply_default_sampling cfg c =
      if is_above 7 c.level
      then true
      else if is_slow cfg.slow_trace_threshold_ms (lookup "duration_ms" c.attrs)
      then fl.less (normalized fl (write_trace fl (lookup "trace_id" c.attrs) offset_basis))
          cfg.slow_trace_sample_rate
      else fl.less (normalized fl (trace_hash fl c.attrs c.now)) cfg.default_sample_rate

  unfoldable pub should_sample : Call F → TailBased F → TailBased F × Bool
  unfolding apply_default_sampling tally
  should_sample c t = (
    record t { stats = tally fl (apply_default_sampling t.config c) c.now t.stats },
    apply_default_sampling t.config c,
  )

  unfoldable pub reset : TailBased F → TailBased F
  unfolding no_stats
  reset t = record t { trace_buffer = []; stats = no_stats fl tail_based_name }
