-- ===== src/Logging/Strategy/Advanced/Kinds.antt =====
-- The SamplingStrategy interface of pkg/logging/sampling_strategies.go with its four implementations.
use mcp_memory_core.Base.{ℕ, String, Bool, true, false}
use mcp_memory_core.Base.Float.{Floats}
use mcp_memory_core.Logging.Strategy.{Call, SamplingStrategyStats}
use mcp_memory_core.Logging.Strategy.FixedRate as Fixed
use mcp_memory_core.Logging.Strategy.FixedRate.{FixedRate}
use mcp_memory_core.Logging.Strategy.AdaptiveLoad as Adaptive
use mcp_memory_core.Logging.Strategy.AdaptiveLoad.{AdaptiveLoad, adjust_rate}
use mcp_memory_core.Logging.Strategy.PriorityBased as Priority
use mcp_memory_core.Logging.Strategy.PriorityBased.{PriorityBased}
use mcp_memory_core.Logging.Strategy.TailBased as Tail
use mcp_memory_core.Logging.Strategy.TailBased.{TailBased, apply_default_sampling}

pub data Strategy (F : Type 0) : Type 0 where
  fixed_rate : FixedRate F → Strategy F
  adaptive_load : AdaptiveLoad F → Strategy F
  priority_based : PriorityBased F → Strategy F
  tail_based : TailBased F → Strategy F

module _ {F : Type 0} where
  unfoldable pub is_priority_based : Strategy F → Bool
  is_priority_based (fixed_rate f) = false
  is_priority_based (adaptive_load a) = false
  is_priority_based (priority_based p) = true
  is_priority_based (tail_based t) = false

  unfoldable pub strategy_name : Strategy F → String
  strategy_name (fixed_rate f) = Fixed.fixed_rate_name
  strategy_name (adaptive_load a) = Adaptive.adaptive_load_name
  strategy_name (priority_based p) = Priority.priority_based_name
  strategy_name (tail_based t) = Tail.tail_based_name

  -- The statistics as the strategy holds them.
  unfoldable pub held_stats : Strategy F → SamplingStrategyStats F
  held_stats (fixed_rate f) = f.stats
  held_stats (adaptive_load a) = a.stats
  held_stats (priority_based p) = p.stats
  held_stats (tail_based t) = t.stats

module _ {F : Type 0} (fl : Floats F) where
  -- The decision alone.
  unfoldable pub decides : Strategy F → Call F → Bool
  unfolding Fixed.keeps Adaptive.keeps Priority.keeps apply_default_sampling
  decides (fixed_rate f) c = Fixed.keeps fl f c
  decides (adaptive_load a) c = Adaptive.keeps fl a c
  decides (priority_based p) c = Priority.keeps fl p.rules c
  decides (tail_based t) c = apply_default_sampling fl t.config c

  -- ShouldSample
  unfoldable pub sample_by : Call F → Strategy F → Strategy F × Bool
  unfolding Fixed.should_sample Adaptive.should_sample Priority.should_sample Tail.should_sample
  sample_by c (fixed_rate f) =
      (fixed_rate (Fixed.should_sample fl c f).0, (Fixed.should_sample fl c f).1)
  sample_by c (adaptive_load a) =
      (adaptive_load (Adaptive.should_sample fl c a).0, (Adaptive.should_sample fl c a).1)
  sample_by c (priority_based p) =
      (priority_based (Priority.should_sample fl c p).0, (Priority.should_sample fl c p).1)
  sample_by c (tail_based t) =
      (tail_based (Tail.should_sample fl c t).0, (Tail.should_sample fl c t).1)

  -- GetStats
  unfoldable pub strategy_stats : Strategy F → SamplingStrategyStats F
  unfolding Fixed.get_stats Adaptive.get_stats Priority.get_stats Tail.get_stats
  strategy_stats (fixed_rate f) = Fixed.get_stats fl f
  strategy_stats (adaptive_load a) = Adaptive.get_stats fl a
  strategy_stats (priority_based p) = Priority.get_stats fl p
  strategy_stats (tail_based t) = Tail.get_stats t

  -- AdjustRate of an adaptive strategy, which the others do not have.
  unfoldable pub adjust : ℕ → F → F → Strategy F → Strategy F
  unfolding adjust_rate
  adjust now load memory (fixed_rate f) = fixed_rate f
  adjust now load memory (adaptive_load a) = adaptive_load (adjust_rate fl now load memory a)
  adjust now load memory (priority_based p) = priority_based p
  adjust now load memory (tail_based t) = tail_based t
