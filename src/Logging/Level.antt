-- ===== src/Logging/Level.antt =====
-- pkg/logging/level.go: the handler that filters records by the level of their component. Levels are
-- slog's integers. Hierarchy and Dynamic have the handlers that embed this one.
pub mod Hierarchy
pub mod Dynamic
pub mod Overridden
pub mod Order
use Prim.Native.Char.{Char, code}
use Prim.Native.String
use mcp_memory_core.Base.{
  String, ◌==◌, Bool, ◌&&◌, not, true, false, Option, none, some, List, [], ◌∷◌, eqb, if◌then◌else◌,
}
use mcp_memory_core.Base.Int.{ℤ, is_less}
use mcp_memory_core.Base.Text.{contains, has_prefix}
use mcp_memory_core.Base.Dict.{Dict, lookup, insert, remove}

pub record LevelHandler : Type 0 where
  pub default_level : ℤ
  pub component_levels : Dict ℤ

unfoldable pub new_level_handler : ℤ → LevelHandler
new_level_handler level = record { default_level = level; component_levels = [] }

-- strings.TrimSuffix(pattern, "*")
unfoldable pub trim_star : String → String
trim_star String.[] = String.[]
trim_star (String.◌∷◌ c String.[]) = if eqb (code c) b'*' then String.[] else String.◌∷◌ c String.[]
trim_star (String.◌∷◌ c (String.◌∷◌ d s)) = String.◌∷◌ c (trim_star (String.◌∷◌ d s))

-- The component falls under the pattern.
unfoldable pub is_under : String → String → Bool
unfolding trim_star contains has_prefix
is_under component pattern = contains pattern "*" && has_prefix component (trim_star pattern)

-- The first pattern that the component falls under, in the order in which one `range` visits the map:
-- the next one may visit it in another order.
unfoldable pub wildcard_level : String → Dict ℤ → Option ℤ
unfolding is_under
wildcard_level component [] = none
wildcard_level component ((pattern, level) ∷ rest) =
    let others = wildcard_level component rest in
    if is_under component pattern then some level else others

abbrev pub or_default : ℤ → Option ℤ → ℤ
or_default d none = d
or_default d (some l) = l

abbrev pub exact_or : String → LevelHandler → Option ℤ → ℤ
unfolding wildcard_level
exact_or component lh (some level) = level
exact_or component lh none =
    or_default lh.default_level (wildcard_level component lh.component_levels)

-- getLevelForComponent
unfoldable pub level_for : String → LevelHandler → ℤ
unfolding lookup exact_or
level_for component lh = exact_or component lh (lookup component lh.component_levels)

-- The value of the first attribute "component".
unfoldable pub component_attr : List (String × String) → String
component_attr [] = ""
component_attr ((key, value) ∷ rest) = if key == "component" then value else component_attr rest

-- `in_context` is the component in the context, or empty.
unfoldable pub extract_component : String → List (String × String) → String
unfolding component_attr
extract_component in_context attrs =
    if not (in_context == "")
    then in_context
    else if not (component_attr attrs == "")
    then component_attr attrs
    else "default"

-- Whether Handle passes the record on.
unfoldable pub handles : LevelHandler → String → List (String × String) → ℤ → Bool
unfolding level_for extract_component
handles lh in_context attrs level =
    not (is_less level (level_for (extract_component in_context attrs) lh))

-- Enabled, which knows no attributes; `inner` is the wrapped handler's answer.
unfoldable pub enabled : LevelHandler → String → ℤ → Bool → Bool
unfolding level_for extract_component
enabled lh in_context level inner =
    if is_less level (level_for (extract_component in_context []) lh) then false else inner

unfoldable pub set_component_level : String → ℤ → LevelHandler → LevelHandler
unfolding insert
set_component_level component level lh = record lh {
  component_levels = insert component level lh.component_levels;
}

unfoldable pub remove_component_level : String → LevelHandler → LevelHandler
unfolding remove
remove_component_level component lh = record lh {
  component_levels = remove component lh.component_levels;
}

unfoldable pub set_default_level : ℤ → LevelHandler → LevelHandler
set_default_level level lh = record lh { default_level = level }

pub record ComponentLevelConfig : Type 0 where
  pub default_level : ℤ
  pub component_levels : Dict ℤ
  pub enabled : Bool

-- The levels of a map are put into another one.
unfoldable pub copy_levels : Dict ℤ → Dict ℤ → Dict ℤ
unfolding insert
copy_levels [] levels = levels
copy_levels ((component, level) ∷ rest) levels = copy_levels rest (insert component level levels)

-- The flag `enabled` of the configuration is not read.
unfoldable pub new_level_handler_with_config : ComponentLevelConfig → LevelHandler
unfolding copy_levels
new_level_handler_with_config config = record {
  default_level = config.default_level;
  component_levels = copy_levels config.component_levels [];
}

unfoldable pub update_config : ComponentLevelConfig → LevelHandler → LevelHandler
unfolding copy_levels
update_config config lh = record lh {
  default_level = config.default_level;
  component_levels = copy_levels config.component_levels [];
}

unfoldable pub get_config : LevelHandler → ComponentLevelConfig
unfolding copy_levels
get_config lh = record {
  default_level = lh.default_level;
  component_levels = copy_levels lh.component_levels [];
  enabled = true;
}
