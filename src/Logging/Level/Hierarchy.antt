-- ===== src/Logging/Level/Hierarchy.antt =====
-- pkg/logging/level.go: the level handler that asks the parents of a component for a level. The lock
-- makes each method one step. Enabled, WithAttrs and WithGroup are those of the embedded handler.
use mcp_memory_core.Base.{String, Bool, ◌&&◌, not, Option, none, some, List, [], ◌∷◌}
use mcp_memory_core.Base.Int.{ℤ, is_less}
use mcp_memory_core.Base.Dict.{Dict, lookup, insert}
use mcp_memory_core.Logging.Level.{
  LevelHandler, new_level_handler, or_default, wildcard_level, extract_component, enabled,
}

-- `hierarchy` has the parents of a component, the nearest first.
pub record HierarchicalLevelHandler : Type 0 where
  pub level_handler : LevelHandler
  pub hierarchy : Dict (List String)

unfoldable pub new_hierarchical_level_handler : ℤ → HierarchicalLevelHandler
unfolding new_level_handler
new_hierarchical_level_handler level = record {
  level_handler = new_level_handler level;
  hierarchy = [];
}

unfoldable pub set_component_hierarchy :
    String → List String → HierarchicalLevelHandler → HierarchicalLevelHandler
unfolding insert
set_component_hierarchy component parents hh = record hh {
  hierarchy = insert component parents hh.hierarchy;
}

abbrev pub or_next : Option ℤ → Option ℤ → Option ℤ
or_next (some level) next = some level
or_next none next = next

-- The loop over the parents.
unfoldable pub parent_level : List String → Dict ℤ → Option ℤ
unfolding lookup
parent_level [] levels = none
parent_level (parent ∷ parents) levels =
    or_next (lookup parent levels) (parent_level parents levels)

abbrev pub parents_of : Option (List String) → List String
parents_of none = []
parents_of (some parents) = parents

-- getLevelForComponent
unfoldable pub hierarchical_level : String → HierarchicalLevelHandler → ℤ
unfolding lookup parent_level wildcard_level
hierarchical_level component hh =
    let levels = hh.level_handler.component_levels in
    or_default hh.level_handler.default_level (
      or_next (lookup component levels) (
        or_next (parent_level (parents_of (lookup component hh.hierarchy)) levels)
          (wildcard_level component levels)))

-- Whether Handle passes the record on.
unfoldable pub handle_hierarchical :
    HierarchicalLevelHandler → String → List (String × String) → ℤ → Bool
unfolding hierarchical_level extract_component
handle_hierarchical hh in_context attrs level =
    not (is_less level (hierarchical_level (extract_component in_context attrs) hh))

-- A record of a logger over the handler is written: Logger.Log asks Enabled and then calls Handle.
-- `asked` is the embedded handler as Enabled finds it, with its map in another order perhaps, and
-- `inner` the wrapped handler's answer to Enabled.
unfoldable pub logs_hierarchical :
    LevelHandler → HierarchicalLevelHandler → String → List (String × String) → ℤ → Bool → Bool
unfolding enabled handle_hierarchical
logs_hierarchical asked hh in_context attrs level inner =
    enabled asked in_context level inner && handle_hierarchical hh in_context attrs level
