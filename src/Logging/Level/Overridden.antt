-- ===== src/Logging/Level/Overridden.antt =====
-- What a logger over the hierarchical or the dynamic level handler (pkg/logging/level.go) writes,
-- beside one over the handler that these embed.
use mcp_memory_core.Base.{
  ◌≡◌, refl, sym, ◌∙◌, All, String, ◌==◌, Bool, true, false, ◌&&◌, not, List, [], ◌∷◌,
  if◌then◌else◌, inl, inr, Option-cases,
}
use mcp_memory_core.Base.Int.{ℤ, is_less}
use mcp_memory_core.Base.Dict.{Dict, lookup, NodupKeys}
use mcp_memory_core.Logging.Level.Order.{Agrees, level_order_free}
use mcp_memory_core.Logging.Level.{
  LevelHandler, or_default, exact_or, level_for, extract_component, enabled, handles,
}
use mcp_memory_core.Logging.Level.Hierarchy.{
  HierarchicalLevelHandler, parent_level, parents_of, hierarchical_level, handle_hierarchical,
  logs_hierarchical,
}
use mcp_memory_core.Logging.Level.Dynamic.{
  DynamicLevelHandler, adjust_all, dynamic_level, handle_dynamic, logs_dynamic,
}

-- The component and its parents, the nearest first.
abbrev pub chain : String → HierarchicalLevelHandler → List String
unfolding lookup
chain component hh = component ∷ parents_of (lookup component hh.hierarchy)

-- The first level in the chain counts, and without one the embedded handler's level.
chain_level :
    (component : String) (hh : HierarchicalLevelHandler)
    → hierarchical_level component hh
      ≡ or_default
          (level_for component hh.level_handler)
          (parent_level (chain component hh) hh.level_handler.component_levels)
unfolding hierarchical_level level_for exact_or parent_level chain
chain_level component hh =
    let levels = hh.level_handler.component_levels in
    let above = parent_level (parents_of (lookup component hh.hierarchy)) levels in
    elim (Option-cases (lookup component levels)) [
      | inl missing ↦ elim (Option-cases above) [
        | inl none_above ↦ rw (missing, none_above) refl
        | inr (level, found) ↦ rw (missing, found) refl
      ]
      | inr (level, found) ↦ rw found refl
    ]

-- The component in the context goes before the attributes.
in_context_first :
    (c : String) (attrs : List (String × String))
    → (c == "") ≡ false
    → extract_component c attrs ≡ c
unfolding extract_component
in_context_first c attrs named = rw named refl

-- Enabled has already asked what Handle of the embedded handler asks.
asked_twice :
    (below inner over : Bool)
    → ((if below then false else inner) && not over)
      ≡ (((if below then false else inner) && not below) && not over)
asked_twice true inner over = refl
asked_twice false true over = refl
asked_twice false false over = refl

-- A record of a logger over the embedded handler is written. The handler is given as Enabled and as
-- Handle find it.
abbrev pub logs_plain :
    LevelHandler → LevelHandler → String → List (String × String) → ℤ → Bool → Bool
unfolding enabled handles
logs_plain asked lh in_context attrs level inner =
    enabled asked in_context level inner && handles lh in_context attrs level

-- The same handler, with its map in another order.
pub record IsReordered (lh other : LevelHandler) : Type 0 where
  pub defaults : other.default_level ≡ lh.default_level
  pub levels : (k : String) → lookup k other.component_levels ≡ lookup k lh.component_levels
  pub unique : NodupKeys lh.component_levels
  pub other_unique : NodupKeys other.component_levels

level_reordered :
    (c : String) (lh other : LevelHandler)
    → Agrees c lh.component_levels
    → IsReordered lh other
    → level_for c other ≡ level_for c lh
level_reordered c lh other agree r = sym (
    level_order_free c lh other r.unique r.other_unique (sym r.defaults) (λ k. sym (r.levels k))
      agree)

parents_reordered :
    (ps : List String) (m m' : Dict ℤ)
    → ((k : String) → lookup k m' ≡ lookup k m)
    → parent_level ps m' ≡ parent_level ps m
unfolding parent_level
parents_reordered [] m m' same = refl
parents_reordered (p ∷ ps) m m' same = rw (same p, parents_reordered ps m m' same) refl

-- The level of the first in the chain of the component and its parents that has one, or else the
-- embedded handler's level.
abbrev pub chained : LevelHandler → HierarchicalLevelHandler → String → ℤ
chained lh hh c = or_default (level_for c lh) (parent_level (chain c hh) lh.component_levels)

chained_level :
    (c : String) (lh : LevelHandler) (hh : HierarchicalLevelHandler)
    → Agrees c lh.component_levels
    → IsReordered lh hh.level_handler
    → hierarchical_level c hh ≡ chained lh hh c
chained_level c lh hh agree r =
    chain_level c hh
    ∙ rw
        (
          level_reordered c lh hh.level_handler agree r,
          parents_reordered (chain c hh) lh.component_levels hh.level_handler.component_levels
              r.levels,
        )
        refl

-- With a component in the context, a logger over the hierarchical or the dynamic handler writes a
-- record exactly if a logger over the embedded handler would write it and it is also not below the
-- overriding level, whatever the order in which each call visits the map of levels, if the patterns
-- that the component falls under have one level. The overriding level is, in the hierarchical handler,
-- the first level in the chain of the component and its parents, or else the embedded handler's level;
-- in the dynamic handler, the embedded handler's level as the adjusters change it, one after the other.
pub overrides_restrict :
    (lh asked plain plain_asked : LevelHandler) (hh : HierarchicalLevelHandler)
    (dh : DynamicLevelHandler) (c : String) (attrs : List (String × String)) (level : ℤ)
    (inner : Bool)
    → (c == "") ≡ false
    → Agrees c lh.component_levels
    → All (IsReordered lh) (asked ∷ plain ∷ plain_asked ∷ hh.level_handler ∷ dh.level_handler ∷ [])
    → (logs_hierarchical asked hh c attrs level inner ≡ (
        logs_plain plain_asked plain c attrs level inner && not (is_less level (chained lh hh c))))
      × (logs_dynamic asked dh c attrs level inner ≡ (
          logs_plain plain_asked plain c attrs level inner
          && not (is_less level (adjust_all c dh.level_adjusters (level_for c lh)))))
unfolding logs_hierarchical handle_hierarchical logs_dynamic handle_dynamic dynamic_level logs_plain
    enabled handles
overrides_restrict lh asked plain plain_asked hh dh c attrs level inner named agree
      (a, (p, (q, (h, (d, _))))) =
    let same = level_reordered c lh in
    let own = is_less level (level_for c lh) in
    rw
      (
        in_context_first c attrs named,
        in_context_first c [] named,
        chained_level c lh hh agree h,
        same asked agree a,
        same plain agree p,
        same plain_asked agree q,
        same dh.level_handler agree d,
      )
      (
        asked_twice own inner (is_less level (chained lh hh c)),
        asked_twice own inner (is_less level (adjust_all c dh.level_adjusters (level_for c lh))),
      )
