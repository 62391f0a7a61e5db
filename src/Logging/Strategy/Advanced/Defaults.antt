-- ===== src/Logging/Strategy/Advanced/Defaults.antt =====
-- What a sampler with the default configuration keeps (pkg/logging/sampling_strategies.go).
use mcp_memory_core.Base.{
  ◌≡◌, refl, ◌∙◌, ◌==◌, Bool, ◌&&◌, ◌||◌, false, Option, none, some, List, arith,
}
use mcp_memory_core.Base.Int.{pos}
use mcp_memory_core.Base.Dict.{lookup}
use mcp_memory_core.Base.Float.{Floats}
use mcp_memory_core.Logging.Strategy.{Call, level_string, normalized, trace_hash, show_datum}
use mcp_memory_core.Logging.Strategy.PriorityBased.{
  keeps, matches_rule, holds, evaluate_condition, field_value, compare_values, compare_numbers,
  to_float64, or_nil, rule_keeps, should_sample_by_rate,
}
use mcp_memory_core.Logging.Strategy.Advanced.{
  Event, should_sample, run, new_advanced_sampler, default_advanced_sampling_config, default_rules,
}
use mcp_memory_core.Logging.Strategy.Advanced.Decision.{rules_decide}

module _ {F : Type 0} (fl : Floats F) where
  -- The number is above a thousand.
  abbrev pub is_above_1000 : Option F → Bool
  is_above_1000 none = false
  is_above_1000 (some x) = fl.less (fl.of_int (pos 1000)) x

  -- The attribute "duration_ms" is a number, or a text that reads as one, above a thousand.
  unfoldable pub is_slow_request : Call F → Bool
  unfolding lookup to_float64
  is_slow_request c = is_above_1000 (to_float64 fl (or_nil fl (lookup "duration_ms" c.attrs)))

  compare_1000 :
      (o : Option F) → compare_numbers fl "gt" o (some (fl.of_int (pos 1000))) ≡ is_above_1000 o
  unfolding compare_numbers
  compare_1000 none = refl
  compare_1000 (some x) = refl

  default_rules_keep :
      (c : Call F)
      → keeps fl (default_rules fl) c ≡ (
          (level_string c.level == "ERROR")
          || (is_slow_request c
              && fl.less (normalized fl (trace_hash fl c.attrs c.now)) (fl.ratio 1 2)))
  unfolding keeps matches_rule holds evaluate_condition field_value compare_values to_float64
      rule_keeps should_sample_by_rate default_rules show_datum is_slow_request
  default_rules_keep c =
      ground (arith, compare_1000 (to_float64 fl (or_nil fl (lookup "duration_ms" c.attrs))))

  -- A sampler with the default configuration keeps, whatever came before, exactly the records whose
  -- level is printed as ERROR and those of slow requests whose trace ID, or without one the time,
  -- hashes below a half. All others, such as warnings, it drops.
  pub default_keeps :
      (es : List (Event F)) (c : Call F)
      → (should_sample fl c
          (run fl es (new_advanced_sampler fl (default_advanced_sampling_config fl)))).1
        ≡ ((level_string c.level == "ERROR")
            || (is_slow_request c
                && fl.less (normalized fl (trace_hash fl c.attrs c.now)) (fl.ratio 1 2)))
  unfolding default_advanced_sampling_config default_rules
  default_keeps es c =
      rules_decide fl (default_advanced_sampling_config fl) es c refl refl ∙ default_rules_keep c
