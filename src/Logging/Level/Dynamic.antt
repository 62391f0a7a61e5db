-- ===== src/Logging/Level/Dynamic.antt =====
-- pkg/logging/level.go: the level handler with adjusters, and the adjusters. Enabled, WithAttrs and
-- WithGroup are those of the embedded handler.
use mcp_memory_core.Base.{
  String, ◌==◌, Bool, ◌&&◌, not, Option, none, some, List, [], ◌∷◌, if◌then◌else◌,
}
use mcp_memory_core.Base.Int.{ℤ, pos, neg, is_less}
use mcp_memory_core.Base.Float.{Floats}
use mcp_memory_core.Base.Dict.{Dict}
use mcp_memory_core.Logging.Level.{
  LevelHandler, new_level_handler, level_for, extract_component, enabled,
}

-- An adjuster by its name and what AdjustLevel returns when it is asked.
pub record LevelAdjuster : Type 0 where
  pub name : String
  pub adjust_level : String → ℤ → ℤ

pub record DynamicLevelHandler : Type 0 where
  pub level_handler : LevelHandler
  pub level_adjusters : List LevelAdjuster

unfoldable pub new_dynamic_level_handler : ℤ → DynamicLevelHandler
unfolding new_level_handler
new_dynamic_level_handler level = record {
  level_handler = new_level_handler level;
  level_adjusters = [];
}

unfoldable pub append_adjuster : LevelAdjuster → List LevelAdjuster → List LevelAdjuster
append_adjuster a [] = a ∷ []
append_adjuster a (b ∷ bs) = b ∷ append_adjuster a bs

unfoldable pub add_level_adjuster : LevelAdjuster → DynamicLevelHandler → DynamicLevelHandler
unfolding append_adjuster
add_level_adjuster a dh = record dh { level_adjusters = append_adjuster a dh.level_adjusters }

-- The first adjuster of the name is left out.
unfoldable pub without_adjuster : String → List LevelAdjuster → List LevelAdjuster
without_adjuster name [] = []
without_adjuster name (a ∷ rest) =
    let others = without_adjuster name rest in if a.name == name then rest else a ∷ others

unfoldable pub remove_level_adjuster : String → DynamicLevelHandler → DynamicLevelHandler
unfolding without_adjuster
remove_level_adjuster name dh = record dh {
  level_adjusters = without_adjuster name dh.level_adjusters;
}

-- The loop over the adjusters.
unfoldable pub adjust_all : String → List LevelAdjuster → ℤ → ℤ
adjust_all component [] level = level
adjust_all component (a ∷ rest) level = adjust_all component rest (a.adjust_level component level)

-- getLevelForComponent
unfoldable pub dynamic_level : String → DynamicLevelHandler → ℤ
unfolding level_for adjust_all
dynamic_level component dh =
    adjust_all component dh.level_adjusters (level_for component dh.level_handler)

-- Whether Handle passes the record on.
unfoldable pub handle_dynamic : DynamicLevelHandler → String → List (String × String) → ℤ → Bool
unfolding dynamic_level extract_component
handle_dynamic dh in_context attrs level =
    not (is_less level (dynamic_level (extract_component in_context attrs) dh))

-- A record of a logger over the handler is written: Logger.Log asks Enabled and then calls Handle.
-- `asked` is the embedded handler as Enabled finds it, with its map in another order perhaps.
unfoldable pub logs_dynamic :
    LevelHandler → DynamicLevelHandler → String → List (String × String) → ℤ → Bool → Bool
unfolding enabled handle_dynamic
logs_dynamic asked dh in_context attrs level inner =
    enabled asked in_context level inner && handle_dynamic dh in_context attrs level

module _ {F : Type 0} (fl : Floats F) where
  -- LoadBasedLevelAdjuster, where getSystemLoad, if it is not nil, returns `load`. The levels Warn and
  -- Debug of slog are 4 and -4.
  unfoldable pub load_based_level : F → F → Option F → ℤ → ℤ
  load_based_level high low none level = level
  load_based_level high low (some load) level =
      if fl.less high load
      then if is_less level (pos 4) then pos 4 else level
      else if fl.less load low
      then if is_less (neg 4) level then neg 4 else level
      else level

  unfoldable pub load_based_adjuster : F → F → Option F → LevelAdjuster
  unfolding load_based_level
  load_based_adjuster high low load = record {
    name = "load_based";
    adjust_level = λ component level. load_based_level high low load level;
  }

pub record TimeRange : Type 0 where
  pub start : ℤ
  pub end : ℤ

-- TimeBasedLevelAdjuster at an hour of the day.
unfoldable pub time_based_level : List TimeRange → ℤ → ℤ → ℤ → ℤ
time_based_level [] business off hour = off
time_based_level (r ∷ rs) business off hour =
    let rest = time_based_level rs business off hour in
    if not (is_less hour r.start) && is_less hour r.end then business else rest

unfoldable pub time_based_adjuster : List TimeRange → ℤ → ℤ → ℤ → LevelAdjuster
unfolding time_based_level
time_based_adjuster hours business off hour = record {
  name = "time_based";
  adjust_level = λ component level. time_based_level hours business off hour;
}

-- ComponentPatternLevelAdjuster; `glob` is filepath.Match, which gives no match with an error.
unfoldable pub pattern_level : (String → String → Bool) → Dict ℤ → String → ℤ → ℤ
pattern_level glob [] component level = level
pattern_level glob ((pattern, own) ∷ patterns) component level =
    let rest = pattern_level glob patterns component level in
    if glob pattern component then own else rest

unfoldable pub pattern_adjuster : (String → String → Bool) → Dict ℤ → LevelAdjuster
unfolding pattern_level
pattern_adjuster glob patterns = record {
  name = "pattern_based";
  adjust_level = pattern_level glob patterns;
}
