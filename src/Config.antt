-- ===== src/Config.antt =====
-- pkg/config/config.go: the settings and their validation. `F` is float64, with the comparisons with
-- 0 and 1 that the validation makes, and `u` the table of unicode.ToLower. The reading of the file
-- and its YAML are left out. A nil map is an empty one.
pub mod Logging
pub mod Checks
pub mod Settled
use Prim.Native.Char.{Char}
use mcp_memory_core.Base.{String, ◌==◌, Bool, ◌||◌, ◌&&◌, not, Option, none, some, if◌then◌else◌}
use mcp_memory_core.Base.Text.{to_lower, trim_space}
use mcp_memory_core.Base.Int.{ℤ, pos, is_negative, is_above, is_zero}
use Logging.{LoggingSettings, LoggingError, validate_logging_config}

pub record TransportSettings : Type 0 where
  pub host : String
  pub port : ℤ
  pub read_timeout : ℤ
  pub write_timeout : ℤ
  pub max_connections : ℤ
  pub enable_cors : Bool
  pub sse_heartbeat_secs : ℤ

-- `wal_mode` is the one field of SqliteSettings.
pub record Settings (F : Type 0) : Type 0 where
  pub storage_type : String
  pub storage_path : String
  pub http_port : ℤ
  pub log_level : String
  pub wal_mode : Bool
  pub transport_type : String
  pub transport : TransportSettings
  pub logging : Option (LoggingSettings F)

-- The errors of Validate, with the values that their texts show.
pub data ConfigError (F : Type 0) : Type 0 where
  bad_log_level bad_storage_type bad_transport_type : String → ConfigError F
  bad_http_port bad_port : ℤ → ConfigError F
  bad_logging : LoggingError F → ConfigError F
  no_storage_path : ConfigError F

abbrev pub is_level : String → Bool
is_level s = s == "debug" || s == "info" || s == "warn" || s == "error"

abbrev pub is_storage : String → Bool
is_storage s = s == "memory" || s == "sqlite" || s == ""

abbrev pub is_transport : String → Bool
is_transport s = s == "stdio" || s == "http" || s == "sse" || s == ""

abbrev pub or_int : ℤ → ℤ → ℤ
or_int d n = if is_zero n then d else n

-- The defaults of the transport's settings.
unfoldable pub with_defaults : TransportSettings → TransportSettings
with_defaults t = record t {
  port = or_int (pos 8080) t.port;
  host = if t.host == "" then "localhost" else t.host;
  read_timeout = or_int (pos 30) t.read_timeout;
  write_timeout = or_int (pos 30) t.write_timeout;
  sse_heartbeat_secs = or_int (pos 30) t.sse_heartbeat_secs;
  max_connections = or_int (pos 100) t.max_connections;
}

module _ (u : Char → Char) {F : Type 0} (below_zero above_one : F → Bool) where
  -- The settings as a step leaves them, and its error.
  abbrev pub Outcome : Type 0
  Outcome = Settings F × Option (ConfigError F)

  infixl 5 ◌&>◌
  abbrev pub ◌&>◌ : Outcome → (Settings F → Outcome) → Outcome
  (s, none) &> f = f s
  (s, some e) &> f = (s, some e)

  unfoldable pub check_log_level : Settings F → Outcome
  unfolding to_lower
  check_log_level s =
      if s.log_level == ""
      then (s, none)
      else if is_level (to_lower u s.log_level)
      then (record s { log_level = to_lower u s.log_level }, none)
      else (s, some (bad_log_level s.log_level))

  unfoldable pub check_storage_type : Settings F → Outcome
  unfolding to_lower
  check_storage_type s =
      if is_storage (to_lower u s.storage_type)
      then (record s { storage_type = to_lower u s.storage_type }, none)
      else (s, some (bad_storage_type s.storage_type))

  unfoldable pub check_transport_type : Settings F → Outcome
  unfolding to_lower
  check_transport_type s =
      let t = to_lower u s.transport_type in
      if is_transport t
      then (record s { transport_type = if t == "" then "stdio" else t }, none)
      else (s, some (bad_transport_type s.transport_type))

  unfoldable pub check_http_port : Settings F → Outcome
  check_http_port s =
      if is_negative s.http_port || is_above 65535 s.http_port
      then (s, some (bad_http_port s.http_port))
      else (s, none)

  abbrev pub logging_checked : Settings F → LoggingSettings F × Option (LoggingError F) → Outcome
  logging_checked s (l, none) = (record s { logging = some l }, none)
  logging_checked s (l, some e) = (record s { logging = some l }, some (bad_logging e))

  abbrev pub check_logging_of : Settings F → Option (LoggingSettings F) → Outcome
  check_logging_of s none = (s, none)
  check_logging_of s (some l) = logging_checked s (validate_logging_config u below_zero above_one l)

  unfoldable pub check_logging : Settings F → Outcome
  unfolding validate_logging_config
  check_logging s = check_logging_of s s.logging

  unfoldable pub check_storage_path : Settings F → Outcome
  unfolding trim_space
  check_storage_path s =
      if s.storage_type == "sqlite" && trim_space s.storage_path == ""
      then (s, some no_storage_path)
      else (s, none)

  -- The defaults after a port out of range are not set.
  unfoldable pub check_transport : Settings F → Outcome
  unfolding with_defaults
  check_transport s =
      if s.transport_type == "http" || s.transport_type == "sse"
      then (let port = or_int (pos 8080) s.transport.port in
          if is_zero port || is_negative port || is_above 65535 port
          then (record s { transport = record s.transport { port = port } }, some (bad_port port))
          else (record s { transport = with_defaults s.transport }, none))
      else (s, none)

  -- Validate writes to the settings, also where it then returns an error.
  unfoldable pub validate : Settings F → Outcome
  unfolding check_log_level check_storage_type check_transport_type check_http_port check_logging
      check_storage_path check_transport
  validate s =
      check_log_level s
      &> check_storage_type
      &> check_transport_type
      &> check_http_port
      &> check_logging
      &> check_storage_path
      &> check_transport
