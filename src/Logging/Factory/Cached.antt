-- ===== src/Logging/Factory/Cached.antt =====
-- The cache of the loggers and the level that a logger has (pkg/logging/factory.go).
use mcp_memory_core.Base.{
  ◌≡◌, refl, sym, ◌∙◌, ap, inl, inr, String, ◌==◌, eq_of_test, Bool, true, false, ◌&&◌, not, Option,
  none, some, List, [], arith, Bool-cases, if◌then◌else◌,
}
use mcp_memory_core.Base.Int.{ℤ, is_less}
use mcp_memory_core.Base.Dict.{lookup, insert, lookup-insert, lookup-remove}
use mcp_memory_core.Server.LogConfig.{LogLevel, debug, info, warn, error, LogConfig}
use mcp_memory_core.Logging.Level.{new_level_handler, enabled, handles, extract_component}
use mcp_memory_core.Logging.Level.Order.{level_for-new}
use mcp_memory_core.Logging.Factory.{
  Factory, Logger, Step, gets, updates, Reachable, starts, follows, new_factory, get_logger,
  update_level, got, make_logger, get_level_for_component, is_same_level, slog_level, is_handed_on,
  passes, base_enabled,
}

-- Every cached logger is the one that would be made now, and the configuration's own level has not
-- changed.
record IsFresh (config : LogConfig) (f : Factory) : Type 0 where
  kept : f.config.level ≡ config.level
  cached : (c : String) (l : Logger) → lookup c f.loggers ≡ some l → l ≡ make_logger c f.config

-- Another component's level does not matter to a logger.
other_level :
    (c d : String) (level : LogLevel) (k : LogConfig)
    → (d == c) ≡ false
    → get_level_for_component c (record k { component_levels = insert d level k.component_levels })
      ≡ get_level_for_component c k
unfolding get_level_for_component
other_level c d level k h = ground (arith, lookup-insert c d level k.component_levels, h)

other_logger :
    (c d : String) (level : LogLevel) (k : LogConfig)
    → (d == c) ≡ false
    → make_logger c k
      ≡ make_logger c (record k { component_levels = insert d level k.component_levels })
unfolding make_logger
other_logger c d level k h = rw (other_level c d level k h) refl

update-IsFresh :
    (config : LogConfig) (d : String) (level : LogLevel) (f : Factory)
    → IsFresh config f
    → IsFresh config (update_level d level f)
unfolding update_level
update-IsFresh config d level f v = record {
  kept = v.kept;
  cached = λ c l h. elim (Bool-cases (d == c)) [
    | inl same ↦ absurd (ground (arith, lookup-remove c d f.loggers, same, h))
    | inr other ↦
        v.cached c l (ground (arith, lookup-remove c d f.loggers, other, h))
        ∙ other_logger c d level f.config other
  ];
}

got-IsFresh :
    (config : LogConfig) (d : String) (o : Option Logger) (f : Factory)
    → lookup d f.loggers ≡ o
    → IsFresh config f
    → IsFresh config (got d o f).0 × ((got d o f).1 ≡ make_logger d f.config)
unfolding got
got-IsFresh config d (some l) f h v = (v, v.cached d l h)
got-IsFresh config d none f h v = (
  record {
    kept = v.kept;
    cached = λ c l found. elim (Bool-cases (d == c)) [
      | inl same ↦
          let e : make_logger d f.config ≡ l =
            ground (arith, lookup-insert c d (make_logger d f.config) f.loggers, same, found) in
          sym e ∙ ap (λ k. make_logger k f.config) (eq_of_test d c same)
      | inr other ↦
          v.cached c l
            (ground (arith, lookup-insert c d (make_logger d f.config) f.loggers, other, found))
    ];
  },
  refl,
)

Step-IsFresh : (config : LogConfig) (f g : Factory) → Step f g → IsFresh config f → IsFresh config g
unfolding get_logger
Step-IsFresh config f _ (gets d) v = (got-IsFresh config d (lookup d f.loggers) f refl v).0
Step-IsFresh config f _ (updates d level) v = update-IsFresh config d level f v

Reachable-IsFresh : (config : LogConfig) (f : Factory) → Reachable config f → IsFresh config f
unfolding new_factory lookup
Reachable-IsFresh config _ starts = record { kept = refl; cached = λ c l h. absurd (cc h) }
Reachable-IsFresh config _ (follows f g r h) =
    Step-IsFresh config f g h (Reachable-IsFresh config f r)

and_true : (b : Bool) → (b && true) ≡ b
and_true true = refl
and_true false = refl

-- A level handler without levels of components passes what is not below its own level.
plain_handler :
    (level own : ℤ) (in_context : String) (attrs : List (String × String)) (base : Bool)
    → passes (some (new_level_handler own)) in_context attrs level base
      ≡ (not (is_less level own) && base)
unfolding passes enabled handles
plain_handler level own in_context attrs base =
    let asked = extract_component in_context [] in
    let found = extract_component in_context attrs in
    rw (level_for-new asked own, level_for-new found own) (both (is_less level own))
  where
    both : (b : Bool) → ((if b then false else base) && not b) ≡ (not b && base)
    both true = refl
    both false = and_true base

same_level : (a b : LogLevel) → is_same_level a b ≡ true → a ≡ b
unfolding is_same_level
same_level debug debug h = refl
same_level debug info h = absurd (cc h)
same_level debug warn h = absurd (cc h)
same_level debug error h = absurd (cc h)
same_level info debug h = absurd (cc h)
same_level info info h = refl
same_level info warn h = absurd (cc h)
same_level info error h = absurd (cc h)
same_level warn debug h = absurd (cc h)
same_level warn info h = absurd (cc h)
same_level warn warn h = refl
same_level warn error h = absurd (cc h)
same_level error debug h = absurd (cc h)
same_level error info h = absurd (cc h)
same_level error warn h = absurd (cc h)
same_level error error h = refl

twice : (b : Bool) → b ≡ (b && b)
twice true = refl
twice false = refl

made_handed_on :
    (c : String) (k : LogConfig) (in_context : String) (attrs : List (String × String)) (level : ℤ)
    → is_handed_on k (make_logger c k) in_context attrs level ≡ (
        not (is_less level (slog_level (get_level_for_component c k)))
        && not (is_less level (slog_level k.level)))
unfolding is_handed_on make_logger base_enabled passes
made_handed_on c k in_context attrs level =
    let own = get_level_for_component c k in
    elim (Bool-cases (is_same_level own k.level)) [
      | inl same ↦
          rw (same, same_level own k.level same) (twice (not (is_less level (slog_level k.level))))
      | inr other ↦ rw other (
          plain_handler level (slog_level own) in_context attrs
            (not (is_less level (slog_level k.level))))
    ]

-- Whatever loggers were asked for and whatever levels were updated before, the logger that the factory
-- gives for a component has the component's present level, and a record of it is handed on to the
-- factory's handler exactly if it is neither below that level nor below the level of the
-- configuration. What the sampler and the asynchronous handler inside the factory's handler then drop
-- is not counted here.
pub handed_on_iff :
    (config : LogConfig) (f : Factory) (c in_context : String) (attrs : List (String × String))
    (level : ℤ)
    → Reachable config f
    → is_handed_on f.config (get_logger c f).1 in_context attrs level ≡ (
        not (is_less level (slog_level (get_level_for_component c f.config)))
        && not (is_less level (slog_level config.level)))
unfolding get_logger
handed_on_iff config f c in_context attrs level r =
    let v = Reachable-IsFresh config f r in
    let g = got-IsFresh config c (lookup c f.loggers) f refl v in
    rw (g.1, ← v.kept) (made_handed_on c f.config in_context attrs level)
