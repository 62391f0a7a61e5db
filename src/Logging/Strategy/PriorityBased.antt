-- ===== src/Logging/Strategy/PriorityBased.antt =====
-- PriorityBasedSamplingStrategy of pkg/logging/sampling_strategies.go: the first rule whose conditions
-- hold decides.
pub mod First
use mcp_memory_core.Base.{
  ℕ, String, ◌==◌, Bool, true, false, ◌&&◌, ◌||◌, not, Option, none, some, List, [], ◌∷◌,
  if◌then◌else◌,
}
use mcp_memory_core.Base.Int.{ℤ}
use mcp_memory_core.Base.Dict.{lookup}
use mcp_memory_core.Base.Text.{contains}
use mcp_memory_core.Base.Float.{Floats}
use mcp_memory_core.Logging.Strategy.{
  Datum, nil, text, float64, float32, int, int32, int64_of, other, Attrs, Call,
  SamplingStrategyStats, SamplingCondition, PrioritySamplingRule, ConfigValue, rate_value,
  load_value, rules_value, tail_value, other_value, no_stats, count, tally, normalized, trace_hash,
  show_datum, level_string,
}

pub record PriorityBased (F : Type 0) : Type 0 where
  pub rules : List (PrioritySamplingRule F)
  pub stats : SamplingStrategyStats F

abbrev pub priority_based_name : String
priority_based_name = "priority_based"

module _ {F : Type 0} (fl : Floats F) where
  unfoldable pub to_float64 : Datum F → Option F
  to_float64 nil = none
  to_float64 (text s) = fl.parse s
  to_float64 (float64 x) = some x
  to_float64 (float32 x) = some x
  to_float64 (int z) = some (fl.of_int z)
  to_float64 (int32 z) = some (fl.of_int z)
  to_float64 (int64_of z) = some (fl.of_int z)
  to_float64 (other s) = none

  -- The comparison of two numbers; anything else is false.
  unfoldable pub compare_numbers : String → Option F → Option F → Bool
  compare_numbers operator none expected = false
  compare_numbers operator (some x) none = false
  compare_numbers operator (some x) (some y) =
      if operator == "gt"
      then fl.less y x
      else if operator == "lt"
      then fl.less x y
      else if operator == "gte"
      then fl.leq y x
      else if operator == "lte"
      then fl.leq x y
      else false

  unfoldable pub compare_values : Datum F → String → Datum F → Bool
  unfolding show_datum contains to_float64 compare_numbers
  compare_values v operator expected =
      if operator == "eq"
      then show_datum fl v == show_datum fl expected
      else if operator == "ne"
      then not (show_datum fl v == show_datum fl expected)
      else if operator == "contains"
      then contains (show_datum fl v) (show_datum fl expected)
      else compare_numbers operator (to_float64 v) (to_float64 expected)

  abbrev pub or_nil : Option (Datum F) → Datum F
  or_nil none = nil
  or_nil (some v) = v

  unfoldable pub field_value : String → Call F → Datum F
  unfolding level_string lookup
  field_value name c =
      if name == "level"
      then text (level_string c.level)
      else if name == "component"
      then text c.component
      else or_nil (lookup name c.attrs)

  unfoldable pub evaluate_condition : SamplingCondition F → Call F → Bool
  unfolding field_value compare_values
  evaluate_condition cond c = compare_values (field_value cond.field c) cond.operator cond.value

  unfoldable pub holds : List (SamplingCondition F) → Call F → Bool
  unfolding evaluate_condition
  holds [] c = true
  holds (x ∷ xs) c = evaluate_condition x c && holds xs c

  unfoldable pub matches_rule : PrioritySamplingRule F → Call F → Bool
  unfolding holds
  matches_rule rule c = holds rule.conditions c

  unfoldable pub should_sample_by_rate : F → Attrs F → ℕ → Bool
  unfolding normalized trace_hash
  should_sample_by_rate rate attrs now = fl.less (normalized fl (trace_hash fl attrs now)) rate

  -- What the rule decides on a record that it matches.
  unfoldable pub rule_keeps : PrioritySamplingRule F → Call F → Bool
  unfolding should_sample_by_rate
  rule_keeps rule c = rule.always_sample || should_sample_by_rate rule.sample_rate c.attrs c.now

  -- The loop over the rules.
  unfoldable pub keeps : List (PrioritySamplingRule F) → Call F → Bool
  unfolding matches_rule rule_keeps
  keeps [] c = false
  keeps (rule ∷ rules) c =
      let rest = keeps rules c in if matches_rule rule c then rule_keeps rule c else rest

  unfoldable pub should_sample : Call F → PriorityBased F → PriorityBased F × Bool
  unfolding keeps tally
  should_sample c p =
      (record p { stats = tally fl (keeps p.rules c) c.now p.stats }, keeps p.rules c)

  unfoldable pub update_config :
      ℕ → ConfigValue F → PriorityBased F → PriorityBased F × Option String
  update_config now (rules_value rules) p =
      (record p { rules = rules; stats = record p.stats { last_config_update = some now } }, none)
  update_config now (rate_value _) p = (p, some "invalid config type for priority-based strategy")
  update_config now (load_value _) p = (p, some "invalid config type for priority-based strategy")
  update_config now (tail_value _) p = (p, some "invalid config type for priority-based strategy")
  update_config now other_value p = (p, some "invalid config type for priority-based strategy")

  unfoldable pub get_stats : PriorityBased F → SamplingStrategyStats F
  get_stats p = record p.stats { name = priority_based_name }

  unfoldable pub reset : PriorityBased F → PriorityBased F
  unfolding no_stats
  reset p = record p { stats = no_stats fl priority_based_name }
