-- ===== src/Logging/Strategy/AdaptiveLoad.antt =====
-- AdaptiveLoadSamplingStrategy of pkg/logging/sampling_strategies.go, whose rate follows the load.

pub mod Bounds
use mcp_memory_core.Base.{
  ℕ, ◌-◌, String, Bool, true, false, ◌||◌, not, Option, none, some, if◌then◌else◌,
}
use mcp_memory_core.Base.Int.{ℤ, pos, is_less}
use mcp_memory_core.Base.Float.{Floats, max, min}
use mcp_memory_core.Logging.Strategy.{
  Call, SamplingStrategyStats, AdaptiveLoadConfig, ConfigValue, rate_value, load_value, rules_value,
  tail_value, other_value, no_stats, tally, normalized, call_hash,
}

-- `last_adjust` is `none` while it is the zero time.
pub record AdaptiveLoad (F : Type 0) : Type 0 where
  pub config : AdaptiveLoadConfig F
  pub current_rate : F
  pub stats : SamplingStrategyStats F
  pub last_adjust : Option ℕ

abbrev pub adaptive_load_name : String
adaptive_load_name = "adaptive_load"

-- time.Since(last) < interval: the time since the zero time is the largest Duration.
unfoldable pub is_recent : ℕ → Option ℕ → ℤ → Bool
is_recent now none interval = false
is_recent now (some last) interval = is_less (pos (now - last)) interval

module _ {F : Type 0} (fl : Floats F) where
  unfoldable pub keeps : AdaptiveLoad F → Call F → Bool
  unfolding normalized call_hash
  keeps a c = fl.less (normalized fl (call_hash fl c)) a.current_rate

  -- The rate is read under an earlier lock than the one of the count; no adjustment comes between.
  unfoldable pub should_sample : Call F → AdaptiveLoad F → AdaptiveLoad F × Bool
  unfolding keeps tally
  should_sample c a = (
    record a {
      stats = tally fl (keeps a c) c.now (record a.stats { current_threshold = a.current_rate });
    },
    keeps a c,
  )

  -- The load or the memory in use is above its threshold.
  unfoldable pub is_stressed : F → F → AdaptiveLoadConfig F → Bool
  is_stressed load memory cfg =
      fl.less cfg.system_load_threshold load || fl.less cfg.memory_threshold_percent memory

  unfoldable pub adjusted_rate : F → F → AdaptiveLoad F → F
  unfolding is_stressed max min
  adjusted_rate load memory a =
      if is_stressed load memory a.config
      then max fl (fl.mul a.current_rate (fl.ratio 8 10)) a.config.min_rate
      else min fl (fl.mul a.current_rate (fl.ratio 11 10)) a.config.max_rate

  unfoldable pub adjust_rate : ℕ → F → F → AdaptiveLoad F → AdaptiveLoad F
  unfolding adjusted_rate is_recent
  adjust_rate now load memory a =
      if is_recent now a.last_adjust a.config.adjustment_interval
      then a
      else if fl.eq (adjusted_rate load memory a) a.current_rate
      then record a { current_rate = adjusted_rate load memory a }
      else record a {
        current_rate = adjusted_rate load memory a;
        last_adjust = some now;
        stats = record a.stats { last_config_update = some now };
      }

  unfoldable pub update_config : ℕ → ConfigValue F → AdaptiveLoad F → AdaptiveLoad F × Option String
  update_config now (load_value cfg) a =
      (record a { config = cfg; stats = record a.stats { last_config_update = some now } }, none)
  update_config now (rate_value _) a = (a, some "invalid config type for adaptive load strategy")
  update_config now (rules_value _) a = (a, some "invalid config type for adaptive load strategy")
  update_config now (tail_value _) a = (a, some "invalid config type for adaptive load strategy")
  update_config now other_value a = (a, some "invalid config type for adaptive load strategy")

  unfoldable pub get_stats : AdaptiveLoad F → SamplingStrategyStats F
  get_stats a = record a.stats { name = adaptive_load_name }

  unfoldable pub reset : AdaptiveLoad F → AdaptiveLoad F
  unfolding no_stats
  reset a = record a {
    current_rate = a.config.initial_rate;
    stats = no_stats fl adaptive_load_name;
  }
