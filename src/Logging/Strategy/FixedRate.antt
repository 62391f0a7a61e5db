-- ===== src/Logging/Strategy/FixedRate.antt =====
-- FixedRateSamplingStrategy of pkg/logging/sampling_strategies.go.
use mcp_memory_core.Base.{ℕ, String, Bool, Option, none, some}
use mcp_memory_core.Base.Float.{Floats}
use mcp_memory_core.Logging.Strategy.{
  Call, SamplingStrategyStats, ConfigValue, rate_value, load_value, rules_value, tail_value,
  other_value, no_stats, tally, normalized, call_hash,
}

pub record FixedRate (F : Type 0) : Type 0 where
  pub rate : F
  pub stats : SamplingStrategyStats F

abbrev pub fixed_rate_name : String
fixed_rate_name = "fixed_rate"

module _ {F : Type 0} (fl : Floats F) where
  unfoldable pub hash_attributes : Call F → F
  unfolding normalized call_hash
  hash_attributes c = normalized fl (call_hash fl c)

  unfoldable pub keeps : FixedRate F → Call F → Bool
  unfolding hash_attributes
  keeps f c = fl.less (hash_attributes c) f.rate

  unfoldable pub should_sample : Call F → FixedRate F → FixedRate F × Bool
  unfolding keeps tally
  should_sample c f = (record f { stats = tally fl (keeps f c) c.now f.stats }, keeps f c)

  -- The error is its text.
  unfoldable pub update_config : ℕ → ConfigValue F → FixedRate F → FixedRate F × Option String
  update_config now (rate_value rate) f = (
    record f {
      rate = rate;
      stats = record f.stats { last_config_update = some now; current_threshold = rate };
    },
    none,
  )
  update_config now (load_value _) f = (f, some "invalid config type for fixed rate strategy")
  update_config now (rules_value _) f = (f, some "invalid config type for fixed rate strategy")
  update_config now (tail_value _) f = (f, some "invalid config type for fixed rate strategy")
  update_config now other_value f = (f, some "invalid config type for fixed rate strategy")

  unfoldable pub get_stats : FixedRate F → SamplingStrategyStats F
  get_stats f = record f.stats { name = fixed_rate_name }

  unfoldable pub reset : FixedRate F → FixedRate F
  unfolding no_stats
  reset f = record f { stats = no_stats fl fixed_rate_name }
