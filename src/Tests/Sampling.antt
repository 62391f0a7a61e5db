-- ===== src/Tests/Sampling.antt =====
-- The sampling strategies of pkg/logging/sampling_strategies.go, with percentages for float64.
use mcp_memory_core.Base.{
  ℕ, ◌*◌, ◌/◌, ◌≡◌, ◌↔◌, refl, ◌==◌, ◌&&◌, ◌||◌, true, false, none, List, [], ◌∷◌, ltb, leb, eqb,
  arith,
}
use mcp_memory_core.Base.Int.{ℤ, pos, negsuc}
use mcp_memory_core.Base.Float.{Floats}
use mcp_memory_core.Logging.Strategy.{
  Call, AdaptiveLoadConfig, level_string, normalized, trace_hash, text, no_stats,
}
use mcp_memory_core.Logging.Strategy.AdaptiveLoad.{AdaptiveLoad}
use mcp_memory_core.Logging.Strategy.AdaptiveLoad.Bounds.{
  IsOrdered, IsConfigured, IsWithin, Use, resetting, use_all, rate-IsWithin,
}
use mcp_memory_core.Logging.Strategy.AdaptiveLoad.Bounds as Adapting
use mcp_memory_core.Logging.Strategy.PriorityBased.{keeps}
use mcp_memory_core.Logging.Strategy.PriorityBased.First.{IsKeptFirst, keeps_iff}
use mcp_memory_core.Logging.Strategy.Advanced.{
  Event, sampling, adjusting, calls, new_advanced_sampler, default_advanced_sampling_config,
  default_rules, should_sample, run,
}
use mcp_memory_core.Logging.Strategy.Advanced.Decision.{rules_decide}
use mcp_memory_core.Logging.Strategy.Advanced.Counts.{AreCounted, AllCounted, every_strategy_counts}
use mcp_memory_core.Logging.Strategy.Advanced.Defaults.{is_slow_request, default_keeps}

abbrev pub of_int : ℤ → ℕ
of_int (pos n) = n * 100
of_int (negsuc n) = 0

-- A quotient by zero is zero.
abbrev pub percents : Floats ℕ
percents = record {
  less = ltb;
  leq = leb;
  eq = eqb;
  mul = λ x y. x * y / 100;
  div = λ x y. x * 100 / y;
  ratio = λ p q. p * 100 / q;
  of_int = of_int;
  of_uint = λ n. n * 100;
  show = λ x. "";
  show32 = λ x. "";
  parse = λ s. none;
}

abbrev warning : Call ℕ
warning = record {
  level = pos 4;
  component = "storage";
  attrs = ("trace_id", text "t1") ∷ [];
  now = 5;
}

abbrev failure : Call ℕ
failure = record { level = pos 8; component = "storage"; attrs = []; now = 6 }

abbrev events : List (Event ℕ)
events = sampling failure ∷ adjusting 7 90 20 ∷ sampling warning ∷ []

rules_decide_example :
    (should_sample percents warning (
      run percents events
        (new_advanced_sampler percents (default_advanced_sampling_config percents)))).1
    ≡ keeps percents (default_rules percents) warning
unfolding default_advanced_sampling_config default_rules
rules_decide_example =
    rules_decide percents (default_advanced_sampling_config percents) events warning refl refl

warning_dropped : keeps percents (default_rules percents) warning ≡ false
unfolding keeps default_rules
warning_dropped = refl

every_strategy_counts_example :
    AreCounted
      (calls events)
      (run percents events
        (new_advanced_sampler percents (default_advanced_sampling_config percents))).stats
    × AllCounted
        (calls events)
        (run percents events
          (new_advanced_sampler percents (default_advanced_sampling_config percents))).strategies
unfolding default_advanced_sampling_config default_rules
every_strategy_counts_example =
    every_strategy_counts percents (default_advanced_sampling_config percents) events refl

default_keeps_example :
    (should_sample percents failure (
      run percents events
        (new_advanced_sampler percents (default_advanced_sampling_config percents)))).1
    ≡ ((level_string failure.level == "ERROR")
        || (is_slow_request percents failure
            && ltb (normalized percents (trace_hash percents failure.attrs failure.now)) 50))
default_keeps_example = default_keeps percents events failure

keeps_iff_example :
    (keeps percents (default_rules percents) failure ≡ true)
    ↔ IsKeptFirst percents (default_rules percents) failure
keeps_iff_example = keeps_iff percents (default_rules percents) failure

percents-IsOrdered : IsOrdered percents
percents-IsOrdered = record {
  leq_refl = λ x. ground arith;
  leq_trans = λ x y z h k. ground arith;
  leq_of_less = λ x y h. ground arith;
  shrinks = λ x h. ground arith;
  grows = λ x h. ground arith;
}

abbrev load_config : AdaptiveLoadConfig ℕ
load_config = record {
  initial_rate = 100;
  min_rate = 1;
  max_rate = 100;
  system_load_threshold = 80;
  memory_threshold_percent = 8500;
  adjustment_interval = pos 30;
}

abbrev adaptive : AdaptiveLoad ℕ
unfolding no_stats
adaptive = record {
  config = load_config;
  current_rate = 100;
  stats = no_stats percents "";
  last_adjust = none;
}

abbrev uses : List (Use ℕ)
uses =
    Adapting.adjusting 10 90 0
    ∷ Adapting.adjusting 50 90 0
    ∷ Adapting.sampling warning
    ∷ resetting
    ∷ []

rate-IsWithin_example : IsWithin percents load_config (use_all percents uses adaptive).current_rate
unfolding adaptive
rate-IsWithin_example =
    rate-IsWithin percents percents-IsOrdered uses adaptive
      (record { positive = refl; initial_above = refl; initial_below = refl })
      (record { above = refl; below = refl })
