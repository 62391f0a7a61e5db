-- ===== src/Tests/Producing.antt =====
-- The loggers and the export's configuration of pkg/logging.
use mcp_memory_core.Base.{
  String, ◌==◌, inl, inr, Bool-cases, eq_of_test, sym, ◌∙◌, false≢true, ◌≡◌, refl, ◌∷◌, ◌↔◌, ◌&&◌,
  not, true, none, [],
}
use mcp_memory_core.Base.Int.{ℤ, pos, neg, is_less}
use mcp_memory_core.Server.LogConfig.{default_config, debug}
use mcp_memory_core.Logging.Factory.{
  Factory, Reachable, starts, follows, updates, new_factory, update_level, get_logger, is_handed_on,
  slog_level, get_level_for_component,
}
use mcp_memory_core.Logging.Factory.Cached.{handed_on_iff}
use mcp_memory_core.Base.Dict.{Dict, lookup, NodupKeys}
use mcp_memory_core.Base.Text.{contains, has_prefix}
use mcp_memory_core.Logging.Level.{LevelHandler, is_under, trim_star, level_for}
use mcp_memory_core.Logging.Level.Order.{Covers, Agrees}
use mcp_memory_core.Logging.Level.Hierarchy.{
  HierarchicalLevelHandler, set_component_hierarchy, logs_hierarchical,
}
use mcp_memory_core.Logging.Level.Dynamic.{
  DynamicLevelHandler, time_based_adjuster, add_level_adjuster, adjust_all, logs_dynamic,
}
use mcp_memory_core.Logging.Level.Overridden.{chained, IsReordered, logs_plain, overrides_restrict}
use mcp_memory_core.Logging.Otlp.{OtlpConfig, validate_otlp}
use mcp_memory_core.Logging.Otlp.Usable.{IsUsable, validate_otlp_iff}

-- The level of the storage is lowered to debug.
abbrev verbose : Factory
unfolding new_factory update_level
verbose = update_level "storage" debug (new_factory default_config)

verbose-Reachable : Reachable default_config verbose
unfolding verbose
verbose-Reachable = follows (new_factory default_config) verbose starts (updates "storage" debug)

handed_on_iff_example :
    is_handed_on verbose.config (get_logger "storage" verbose).1 "" [] (neg 4) ≡ (
      not (is_less (neg 4) (slog_level (get_level_for_component "storage" verbose.config)))
      && not (is_less (neg 4) (slog_level default_config.level)))
handed_on_iff_example =
    handed_on_iff default_config verbose "storage" "" [] (neg 4) verbose-Reachable

abbrev export : OtlpConfig
export = record {
  enabled = true;
  endpoint = "http://localhost:4317";
  protocol = "grpc";
  timeout = pos 30;
  batch_size = pos 100;
  batch_timeout = pos 5;
  queue_size = pos 1000;
  health_check_interval = pos 30;
  tls = record { cert_file = ""; key_file = "" };
  retry_config = record {
    enabled = true;
    initial_interval = pos 1000;
    max_interval = pos 30000;
    max_elapsed_time = pos 300000;
    max_retries = pos 5;
  };
}

validate_otlp_iff_example :
    (validate_otlp (λ s. true) export ≡ none)
    ↔ (export.enabled ≡ true → IsUsable (λ s. true) export)
validate_otlp_iff_example = validate_otlp_iff (λ s. true) export

abbrev by_name : Dict ℤ
by_name = ("storage", neg 4) ∷ ("storage.*", pos 0) ∷ []

-- The same map, visited in the other order.
abbrev by_pattern : Dict ℤ
by_pattern = ("storage.*", pos 0) ∷ ("storage", neg 4) ∷ []

abbrev leveled : LevelHandler
leveled = record { default_level = pos 0; component_levels = by_name }

abbrev visited_otherwise : LevelHandler
visited_otherwise = record { default_level = pos 0; component_levels = by_pattern }

-- The database of the storage may log at debug, by the level of its parent.
abbrev family : HierarchicalLevelHandler
unfolding set_component_hierarchy
family =
    set_component_hierarchy "storage.db" ("storage" ∷ [])
      (record { level_handler = visited_otherwise; hierarchy = [] })

-- Between 9 and 17 o'clock only warnings are wanted.
abbrev by_day : DynamicLevelHandler
unfolding add_level_adjuster time_based_adjuster
by_day =
    add_level_adjuster
      (time_based_adjuster (record { start = pos 9; end = pos 17 } ∷ []) (pos 4) (neg 4) (pos 10))
      (record { level_handler = leveled; level_adjusters = [] })

same_levels : (k : String) → lookup k by_pattern ≡ lookup k by_name
unfolding lookup
same_levels k = elim (Bool-cases ("storage" == k)) [
  | inl same ↦ rw (← eq_of_test "storage" k same) refl
  | inr other ↦ rw other refl
]

by_name-NodupKeys : NodupKeys by_name
unfolding lookup
by_name-NodupKeys = (refl, (refl, tt))

by_pattern-NodupKeys : NodupKeys by_pattern
unfolding lookup
by_pattern-NodupKeys = (refl, (refl, tt))

unmoved : IsReordered leveled leveled
unmoved = record {
  defaults = refl;
  levels = λ k. refl;
  unique = by_name-NodupKeys;
  other_unique = by_name-NodupKeys;
}

moved : IsReordered leveled visited_otherwise
moved = record {
  defaults = refl;
  levels = same_levels;
  unique = by_name-NodupKeys;
  other_unique = by_pattern-NodupKeys;
}

one_pattern : (p : String) (level : ℤ) → Covers "storage.db" by_name p level → level ≡ pos 0
unfolding lookup is_under contains has_prefix trim_star
one_pattern p level (held, under) = elim (Bool-cases ("storage" == p)) [
  | inl same ↦ absurd (false≢true (rw (← eq_of_test "storage" p same) at under))
  | inr other ↦ elim (Bool-cases ("storage.*" == p)) [
    | inl same ↦ cc (rw (other, same) at held)
    | inr none_left ↦ absurd (cc (rw (other, none_left) at held))
  ]
]

agreed : Agrees "storage.db" by_name
agreed p q a b x y = one_pattern p a x ∙ sym (one_pattern q b y)

overrides_restrict_example :
    (logs_hierarchical visited_otherwise family "storage.db" [] (neg 4) true ≡ (
      logs_plain leveled visited_otherwise "storage.db" [] (neg 4) true
      && not (is_less (neg 4) (chained leveled family "storage.db"))))
    × (logs_dynamic visited_otherwise by_day "storage.db" [] (neg 4) true ≡ (
        logs_plain leveled visited_otherwise "storage.db" [] (neg 4) true
        && not (
            is_less
              (neg 4)
              (adjust_all "storage.db" by_day.level_adjusters (level_for "storage.db" leveled)))))
unfolding family by_day
overrides_restrict_example =
    overrides_restrict leveled visited_otherwise visited_otherwise leveled family by_day
      "storage.db" [] (neg 4) true refl agreed (moved, (moved, (unmoved, (moved, (unmoved, tt)))))
