-- ===== src/Tests/Configuring.antt =====
-- The settings of pkg/config/config.go. Rates are given in percent.
use Prim.Native.Char.{Char}
use mcp_memory_core.Base.{ℕ, ◌≡◌, refl, String, Bool, true, false, none, ltb}
use mcp_memory_core.Base.Int.{pos}
use mcp_memory_core.Base.Text.{to_lower, lower_char, trim_space, trim_left, trim_right, is_space}
use mcp_memory_core.Storage.{Answer, ok}
use mcp_memory_core.Transport.Factory.{Transport}
use mcp_memory_core.Config.{
  Settings, with_defaults, validate, check_log_level, check_storage_type, check_transport_type,
  check_http_port, check_logging, check_storage_path, check_transport,
}
use mcp_memory_core.Config.Settled.{IsSettled, validate-IsSettled}

abbrev id_char : Char → Char
id_char c = c

abbrev below_zero : ℕ → Bool
below_zero n = false

abbrev above_one : ℕ → Bool
above_one n = ltb 100 n

abbrev given : Settings ℕ
given = record {
  storage_type = "SQLite";
  storage_path = "memory.db";
  http_port = pos 0;
  log_level = "INFO";
  wal_mode = true;
  transport_type = "HTTP";
  transport = record {
    host = "";
    port = pos 0;
    read_timeout = pos 0;
    write_timeout = pos 0;
    max_connections = pos 0;
    enable_cors = true;
    sse_heartbeat_secs = pos 0;
  };
  logging = none;
}

abbrev settled : Settings ℕ
settled = record given {
  storage_type = "sqlite";
  log_level = "info";
  transport_type = "http";
  transport = record {
    host = "localhost";
    port = pos 8080;
    read_timeout = pos 30;
    write_timeout = pos 30;
    max_connections = pos 100;
    enable_cors = true;
    sse_heartbeat_secs = pos 30;
  };
}

accepted : validate id_char below_zero above_one given ≡ (settled, none)
unfolding validate check_log_level check_storage_type check_transport_type check_http_port
    check_logging check_storage_path check_transport with_defaults to_lower lower_char trim_space
    trim_left trim_right is_space
accepted = refl

validate-IsSettled_example : IsSettled settled
validate-IsSettled_example = validate-IsSettled id_char below_zero above_one given settled accepted

-- What the SQLite backend's constructor returns is a number here, and the memory backend is 0.
abbrev open_sqlite : String → Bool → Answer ℕ
open_sqlite path wal = ok 1
