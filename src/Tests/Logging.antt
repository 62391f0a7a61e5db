-- ===== src/Tests/Logging.antt =====
-- The stages of pkg/logging, and the logging configuration of cmd/mcp-server/main.go.
use Prim.Native.Char.{Char}
use mcp_memory_core.Base.{ℕ, ◌≡◌, refl, String, ◌==◌, true, false, none, some, if◌then◌else◌}
use mcp_memory_core.Base.Int.{pos}
use mcp_memory_core.Config.{Settings}
use mcp_memory_core.Logging.Sampler.{SamplingConfig, Sampler, Call, new_sampler}
use mcp_memory_core.Logging.Async.{
  Async, Reachable, starts, follows, derives, starts_close, signals, closes_buffer,
  new_async_handler, fresh_handle, derive, start_close, signal_close, close_buffer, handle_at,
  put_handle, flagged, signaled,
}
use mcp_memory_core.Logging.Async.Counts.{Conserves, IsBounded, async_counts}

-- Two records in a burst of one, with percentages for the rate and the random numbers.
abbrev config : SamplingConfig ℕ
config = record { enabled = true; rate = 10; burst_size = pos 1; always_errors = true }

abbrev call : Call ℕ
call = record { level = pos 0; now = 5; draw = 50 }

abbrev used_up : Sampler ℕ
unfolding new_sampler
used_up = record (new_sampler config 3) { counter = 1 }

abbrev at_start : Async String
unfolding new_async_handler
at_start = new_async_handler 2

-- A copy is made, and then the first handler is closed.
abbrev copied : Async String
unfolding at_start derive
copied = derive fresh_handle at_start

abbrev flag_set : Async String
unfolding copied start_close
flag_set = start_close 0 copied

abbrev signal_sent : Async String
unfolding flag_set signal_close
signal_sent = signal_close 0 flag_set

abbrev closed_once : Async String
unfolding signal_sent close_buffer
closed_once = close_buffer 0 signal_sent

closed_once-Reachable : Reachable 2 closed_once
unfolding closed_once signal_sent flag_set copied at_start handle_at put_handle derive start_close
    signal_close close_buffer new_async_handler
closed_once-Reachable =
    let r0 : Reachable 2 copied =
      follows at_start copied starts refl (derives 0 fresh_handle refl) in
    let r1 : Reachable 2 flag_set =
      follows copied flag_set r0 refl (starts_close 0 fresh_handle refl refl) in
    let r2 : Reachable 2 signal_sent =
      follows flag_set signal_sent r1 refl
        (signals 0 (record { closed = true; stage = flagged }) refl refl) in
    follows signal_sent closed_once r2 refl
      (closes_buffer 0 (record { closed = true; stage = signaled }) refl refl)

async_counts_example : Conserves closed_once × IsBounded closed_once
async_counts_example = async_counts 2 closed_once closed_once-Reachable

still_running : closed_once.panicked ≡ false
unfolding closed_once signal_sent flag_set copied at_start derive start_close signal_close
    close_buffer new_async_handler
still_running = refl

buffer_closed : closed_once.buffer_closed ≡ true
unfolding closed_once signal_sent flag_set copied at_start derive start_close signal_close
    close_buffer new_async_handler
buffer_closed = refl

copy_at_1 : handle_at 1 closed_once.handles ≡ some fresh_handle
unfolding closed_once signal_sent flag_set copied at_start handle_at put_handle derive start_close
    signal_close close_buffer new_async_handler
copy_at_1 = refl

abbrev id_char : Char → Char
id_char c = c

abbrev over_stdio : Settings ℕ
over_stdio = record {
  storage_type = "memory";
  storage_path = "";
  http_port = pos 0;
  log_level = "info";
  wal_mode = false;
  transport_type = "stdio";
  transport = record {
    host = "";
    port = pos 0;
    read_timeout = pos 0;
    write_timeout = pos 0;
    max_connections = pos 0;
    enable_cors = false;
    sse_heartbeat_secs = pos 0;
  };
  logging = none;
}

abbrev env : String → String
env name = if name == "MCP_LOG_OUTPUT" then "stdout" else ""
