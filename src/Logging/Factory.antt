-- ===== src/Logging/Factory.antt =====
-- pkg/logging/factory.go: the loggers of the components and their levels, over the level handler of
-- pkg/logging/level.go. A logger is the handlers that it was made with; the factory's own handler is
-- the base handler of log/slog, wrapped perhaps by the sampler and the asynchronous handler. Enabled
-- of these two is the base handler's, so whether a record is handed on to the factory's handler
-- depends on levels only; whether they then drop it is modelled in Logging/Sampler and Logging/Async.
-- The locks make each method one step.
pub mod Cached
use mcp_memory_core.Base.{
  String, ◌==◌, Bool, true, false, ◌&&◌, not, Option, none, some, List, [], ◌∷◌, if◌then◌else◌,
}
use mcp_memory_core.Base.Int.{ℤ, pos, neg, is_less}
use mcp_memory_core.Base.Dict.{Dict, lookup, insert, remove}
use mcp_memory_core.Server.LogConfig.{LogLevel, debug, info, warn, error, LogConfig}
use mcp_memory_core.Logging.Level.{LevelHandler, new_level_handler, enabled, handles}

-- `handler` is the level handler around the base handler, if there is one.
pub record Logger : Type 0 where
  pub component : String
  pub handler : Option LevelHandler

-- `config` is shared with the caller, who is not supposed to change it.
pub record Factory : Type 0 where
  pub config : LogConfig
  pub loggers : Dict Logger

unfoldable pub slog_level : LogLevel → ℤ
slog_level debug = neg 4
slog_level info = pos 0
slog_level warn = pos 4
slog_level error = pos 8

unfoldable pub is_same_level : LogLevel → LogLevel → Bool
is_same_level debug debug = true
is_same_level info info = true
is_same_level warn warn = true
is_same_level error error = true
is_same_level _ _ = false

abbrev pub or_own : LogLevel → Option LogLevel → LogLevel
or_own d none = d
or_own d (some l) = l

unfoldable pub get_level_for_component : String → LogConfig → LogLevel
unfolding lookup
get_level_for_component component c = or_own c.level (lookup component c.component_levels)

unfoldable pub new_factory : LogConfig → Factory
new_factory config = record { config = config; loggers = [] }

-- A logger with a level handler of its own, if the component's level differs from the configuration's.
unfoldable pub make_logger : String → LogConfig → Logger
unfolding get_level_for_component is_same_level slog_level new_level_handler
make_logger component c = record {
  component = component;
  handler =
      if is_same_level (get_level_for_component component c) c.level
      then none
      else some (new_level_handler (slog_level (get_level_for_component component c)));
}

abbrev pub got : String → Option Logger → Factory → Factory × Logger
unfolding make_logger insert
got component (some l) f = (f, l)
got component none f =
    let l = make_logger component f.config in
    (record f { loggers = insert component l f.loggers }, l)

unfoldable pub get_logger : String → Factory → Factory × Logger
unfolding got lookup
get_logger component f = got component (lookup component f.loggers) f

unfoldable pub update_level : String → LogLevel → Factory → Factory
unfolding insert remove
update_level component level f = record f {
  config = record f.config { component_levels = insert component level f.config.component_levels };
  loggers = remove component f.loggers;
}

-- The base handler's Enabled.
abbrev pub base_enabled : LogConfig → ℤ → Bool
unfolding slog_level
base_enabled c level = not (is_less level (slog_level c.level))

abbrev pub passes : Option LevelHandler → String → List (String × String) → ℤ → Bool → Bool
unfolding enabled handles
passes none in_context attrs level base = base
passes (some h) in_context attrs level base =
    enabled h in_context level base && handles h in_context attrs level

-- A record of the logger is handed on to Handle of the factory's handler: Logger.Log asks Enabled and
-- then calls Handle.
unfoldable pub is_handed_on : LogConfig → Logger → String → List (String × String) → ℤ → Bool
unfolding passes base_enabled
is_handed_on c l in_context attrs level =
    passes l.handler in_context attrs level (base_enabled c level)

pub data Step (f : Factory) : Factory → Type 0 where
  gets : (component : String) → Step f (get_logger component f).0
  updates : (component : String) (level : LogLevel) → Step f (update_level component level f)

pub data Reachable (config : LogConfig) : Factory → Type 0 where
  starts : Reachable config (new_factory config)
  follows : (f g : Factory) → Reachable config f → Step f g → Reachable config g
