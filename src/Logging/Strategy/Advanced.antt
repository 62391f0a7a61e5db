-- ===== src/Logging/Strategy/Advanced.antt =====
-- AdvancedSampler of pkg/logging/sampling_strategies.go: several strategies in one sampler. The pointer
-- to the default strategy is its position. The calls come one after another.
pub mod Kinds
pub mod Decision
pub mod Counts
pub mod Defaults
use mcp_memory_core.Base.{
  ℕ, zero, suc, ◌+◌, ◌*◌, String, Bool, true, false, ◌||◌, not, Option, none, some, List, [], ◌∷◌,
  map, eqb, length, if◌then◌else◌,
}
use mathlib.Core.List.{◌++◌}
use mcp_memory_core.Base.Int.{ℤ, pos, is_above}
use mcp_memory_core.Base.Dict.{Dict, insert}
use mcp_memory_core.Base.Float.{Floats}
use mcp_memory_core.Logging.Strategy.{
  Call, SamplingStrategyStats, SamplingCondition, PrioritySamplingRule, TailBasedSamplingConfig,
  AdaptiveLoadConfig, text, int, seconds, no_stats, tally, zero_float,
}
use mcp_memory_core.Logging.Strategy.Advanced.Kinds.{
  Strategy, fixed_rate, adaptive_load, priority_based, tail_based, is_priority_based, sample_by,
  strategy_name, strategy_stats, adjust,
}
use mcp_memory_core.Logging.Strategy.TailBased.{new_tail_based}

-- StrategyConfigs, which nothing reads, is left out.
pub record AdvancedSamplingConfig (F : Type 0) : Type 0 where
  pub enabled : Bool
  pub default_strategy : String
  pub system_load_threshold : F
  pub memory_threshold_percent : F
  pub adaptive_enabled : Bool
  pub adaptive_interval : ℤ
  pub priority_rules : List (PrioritySamplingRule F)
  pub tail_based_config : TailBasedSamplingConfig F

pub record AdvancedSampler (F : Type 0) : Type 0 where
  pub strategies : List (Strategy F)
  pub default_strategy : ℕ
  pub stats : SamplingStrategyStats F
  pub config : AdvancedSamplingConfig F

pub data Event (F : Type 0) : Type 0 where
  sampling : Call F → Event F
  adjusting : (now : ℕ) (load memory : F) → Event F

-- `append` of a strategy, and append with the new one as the default.
abbrev pub add_strategy : {F : Type 0} → Strategy F → AdvancedSampler F → AdvancedSampler F
add_strategy s a = record a { strategies = a.strategies ++ (s ∷ []) }

abbrev pub add_default : {F : Type 0} → Strategy F → AdvancedSampler F → AdvancedSampler F
add_default s a = record a {
  strategies = a.strategies ++ (s ∷ []);
  default_strategy = length a.strategies;
}

-- There is a rule.
abbrev pub has_rules : {F : Type 0} → List (PrioritySamplingRule F) → Bool
has_rules [] = false
has_rules (r ∷ rs) = true

-- The interval of adaptiveSamplingLoop, in nanoseconds.
unfoldable pub loop_interval : ℤ → ℤ
unfolding seconds
loop_interval n = if is_above 0 (seconds n) then seconds n else pos 30000000000

module _ {F : Type 0} (fl : Floats F) where
  abbrev pub with_fixed_rate : AdvancedSamplingConfig F → AdvancedSampler F
  unfolding no_stats
  with_fixed_rate config = record {
    strategies = fixed_rate (record { rate = fl.ratio 1 1; stats = no_stats fl "" }) ∷ [];
    default_strategy = 0;
    stats = no_stats fl "";
    config = config;
  }

  abbrev pub adaptive_config : AdvancedSamplingConfig F → AdaptiveLoadConfig F
  unfolding seconds
  adaptive_config config = record {
    initial_rate = fl.ratio 1 1;
    min_rate = fl.ratio 1 100;
    max_rate = fl.ratio 1 1;
    system_load_threshold = config.system_load_threshold;
    memory_threshold_percent = config.memory_threshold_percent;
    adjustment_interval = seconds config.adaptive_interval;
  }

  abbrev pub with_adaptive : AdvancedSampler F → AdvancedSampler F
  unfolding adaptive_config no_stats
  with_adaptive a =
      if a.config.adaptive_enabled
      then add_default
          (adaptive_load (record {
            config = adaptive_config a.config;
            current_rate = fl.ratio 1 1;
            stats = no_stats fl "";
            last_adjust = none;
          }))
          a
      else a

  abbrev pub with_priority : AdvancedSampler F → AdvancedSampler F
  unfolding no_stats
  with_priority a =
      if has_rules a.config.priority_rules
      then add_default
          (priority_based (record { rules = a.config.priority_rules; stats = no_stats fl "" })) a
      else a

  abbrev pub with_tail : AdvancedSampler F → AdvancedSampler F
  unfolding new_tail_based
  with_tail a =
      if a.config.tail_based_config.enabled
      then add_strategy (tail_based (new_tail_based fl a.config.tail_based_config)) a
      else a

  -- NewAdvancedSampler, with initializeStrategies.
  unfoldable pub new_advanced_sampler : AdvancedSamplingConfig F → AdvancedSampler F
  unfolding with_fixed_rate with_adaptive with_priority with_tail
  new_advanced_sampler config = with_tail (with_priority (with_adaptive (with_fixed_rate config)))

  -- The decision of the strategy at a position, which changes its statistics.
  unfoldable pub sample_at : ℕ → Call F → List (Strategy F) → List (Strategy F) × Bool
  unfolding sample_by
  sample_at i c [] = ([], false)
  sample_at zero c (s ∷ rest) = ((sample_by fl c s).0 ∷ rest, (sample_by fl c s).1)
  sample_at (suc i) c (s ∷ rest) = (s ∷ (sample_at i c rest).0, (sample_at i c rest).1)

  -- Only a priority-based strategy overrides the decision so far.
  abbrev pub overridden : Strategy F → Bool → Bool → Bool
  unfolding is_priority_based
  overridden s answer so_far = if is_priority_based s then answer else so_far

  -- The loop over the strategies other than the default, where `i` is the position of the first.
  unfoldable pub override_all : ℕ → ℕ → Call F → Bool → List (Strategy F) → List (Strategy F) × Bool
  unfolding overridden sample_by
  override_all i default c kept [] = ([], kept)
  override_all i default c kept (s ∷ rest) =
      let skipped = override_all (i + 1) default c kept rest in
      let called = override_all (i + 1) default c (overridden s (sample_by fl c s).1 kept) rest in
      if eqb i default
      then (s ∷ skipped.0, skipped.1)
      else ((sample_by fl c s).0 ∷ called.0, called.1)

  abbrev pub finished :
      Call F → AdvancedSampler F → List (Strategy F) × Bool → AdvancedSampler F × Bool
  unfolding tally
  finished c a (strategies, kept) =
      (record a { strategies = strategies; stats = tally fl kept c.now a.stats }, kept)

  abbrev pub overrides : Call F → ℕ → List (Strategy F) × Bool → List (Strategy F) × Bool
  unfolding override_all
  overrides c default (strategies, kept) = override_all 0 default c kept strategies

  unfoldable pub should_sample : Call F → AdvancedSampler F → AdvancedSampler F × Bool
  unfolding sample_at overrides finished
  should_sample c a =
      if not a.config.enabled
      then (a, true)
      else finished c a
          (overrides c a.default_strategy (sample_at a.default_strategy c a.strategies))

  -- The samples of the memory and of the goroutines are taken outside; `load` and `memory` are what
  -- is computed from them.
  unfoldable pub adjust_sampling_rates : ℕ → F → F → AdvancedSampler F → AdvancedSampler F
  unfolding adjust
  adjust_sampling_rates now load memory a = record a {
    strategies = map (adjust fl now load memory) a.strategies;
  }

  unfoldable pub stats_of :
      List (Strategy F) → Dict (SamplingStrategyStats F) → Dict (SamplingStrategyStats F)
  unfolding insert strategy_name strategy_stats
  stats_of [] m = m
  stats_of (s ∷ rest) m = stats_of rest (insert (strategy_name s) (strategy_stats fl s) m)

  unfoldable pub get_stats : AdvancedSampler F → Dict (SamplingStrategyStats F)
  unfolding stats_of insert
  get_stats a = stats_of a.strategies (insert "overall" a.stats [])

  unfoldable pub default_rules : List (PrioritySamplingRule F)
  default_rules =
      record {
        name = "always_sample_errors";
        conditions = record { field = "level"; operator = "eq"; value = text "ERROR" } ∷ [];
        sample_rate = zero_float fl;
        priority = pos 1;
        always_sample = true;
      }
      ∷ record {
        name = "sample_slow_requests";
        conditions = record { field = "duration_ms"; operator = "gt"; value = int (pos 1000) } ∷ [];
        sample_rate = fl.ratio 1 2;
        priority = pos 2;
        always_sample = false;
      }
      ∷ []

  unfoldable pub default_advanced_sampling_config : AdvancedSamplingConfig F
  unfolding default_rules
  default_advanced_sampling_config = record {
    enabled = true;
    default_strategy = "fixed_rate";
    system_load_threshold = fl.ratio 8 10;
    memory_threshold_percent = fl.ratio 85 1;
    adaptive_enabled = true;
    adaptive_interval = pos 30;
    priority_rules = default_rules;
    tail_based_config = record {
      enabled = false;
      buffer_size = pos 1000;
      trace_timeout_seconds = pos 300;
      error_sample_rate = fl.ratio 1 1;
      slow_trace_sample_rate = fl.ratio 1 2;
      slow_trace_threshold_ms = pos 1000;
      default_sample_rate = fl.ratio 1 10;
    };
  }

  -- What happens to a sampler: a call, or a tick of adaptiveSamplingLoop.
  unfoldable pub step : Event F → AdvancedSampler F → AdvancedSampler F
  unfolding should_sample adjust_sampling_rates
  step (sampling c) a = (should_sample c a).0
  step (adjusting now load memory) a = adjust_sampling_rates now load memory a

  unfoldable pub run : List (Event F) → AdvancedSampler F → AdvancedSampler F
  unfolding step
  run [] a = a
  run (e ∷ es) a = run es (step e a)

-- How many of the events are calls.
unfoldable pub calls : {F : Type 0} → List (Event F) → ℕ
calls [] = 0
calls (sampling c ∷ es) = calls es + 1
calls (adjusting now load memory ∷ es) = calls es
