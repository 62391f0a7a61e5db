-- ===== src/Tests/Transporting.antt =====
-- The sessions and the transports of internal/transport.
use Prim.Native.String.{String}
use mcp_memory_core.Base.{ℕ, ◌+◌, ◌≡◌, refl, true, none, some, List, [], ◌∷◌, length}
use mcp_memory_core.Base.Dict.{NodupKeys, lookup}
use mcp_memory_core.Base.Json.{number}
use mcp_memory_core.Errors.{GoError, app, new, get_code}
use mcp_memory_core.Errors.Codes.{of_string, code_string, find_code, transport_timeout}
use mcp_memory_core.Storage.{Ctx, Answer, ok}
use mcp_memory_core.Transport.Rpc.{JsonRpcRequest, JsonRpcResponse, succeed, success}
use mcp_memory_core.Transport.Session.{
  Session, SessionManager, new_session_manager, create_session, cleanup_expired_sessions,
}
use mcp_memory_core.Transport.Session.Expiry.{survivor, cleanup_exact}
use mcp_memory_core.Transport.Session.Steps.{
  State, Reachable, starts, follows, creates, IsValid, reachable-IsValid,
}
use mcp_memory_core.Transport.Http.{HttpRequest, ensure_session}
use mcp_memory_core.Transport.Http.Sessions.{IsOpened, ensure_session-IsOpened}
use mcp_memory_core.Transport.Stdio.{start, finished}
use mcp_memory_core.Transport.Stdio.Replies.{IsRunOf, start-IsRunOf, count_requests, one_reply_each}

-- A session last used at 10, with a timeout of 5.
abbrev old : Session
old = record { id = "s"; transport = "http"; created_at = 10; last_activity = 10 }

abbrev sessions : SessionManager
sessions = record { sessions = ("s", old) ∷ []; timeout = 5 }

sessions_nodup : NodupKeys sessions.sessions
unfolding lookup
sessions_nodup = (refl, tt)

old_held : lookup "s" sessions.sessions ≡ some old
unfolding lookup
old_held = refl

cleanup_exact_example :
    lookup "s" (cleanup_expired_sessions 16 sessions).sessions
    ≡ survivor 16 5 (lookup "s" sessions.sessions)
cleanup_exact_example = cleanup_exact "s" 16 sessions sessions_nodup

abbrev empty_state : State
unfolding new_session_manager
empty_state = record { manager = new_session_manager 5; pending = []; clock = 3 }

abbrev one_session : State
unfolding empty_state
one_session = record empty_state {
  manager = (create_session (ok "t") "http" 3 empty_state.manager).0;
}

opened : Reachable 5 one_session
unfolding one_session
opened = follows empty_state one_session (starts 3) (creates (ok "t") "http")

reachable-IsValid_example : IsValid one_session.manager one_session.clock
reachable-IsValid_example = reachable-IsValid 5 one_session opened

-- json.Unmarshal that takes every line for the same request, json.Marshal that writes one text, and
-- a handler that counts.
abbrev parse : String → Answer JsonRpcRequest
parse s = ok (record { jsonrpc = "2.0"; id = number "1"; method = "count"; params = none })

abbrev encode : JsonRpcResponse ℕ → Answer String
encode r = ok "{}"

abbrev handler : JsonRpcRequest → ℕ → ℕ × JsonRpcResponse ℕ
handler req n = (1 + n, succeed req.id success)

abbrev got : HttpRequest
got = record {
  http_method = "GET";
  content_type = "application/json";
  session_id = "";
  body = ok "{}";
}

timed_out : GoError
timed_out = app (new transport_timeout "slow")

timeout_named : of_string (code_string (get_code (some timed_out))) ≡ get_code (some timed_out)
unfolding timed_out get_code new code_string of_string find_code
timeout_named = refl

ensure_session-IsOpened_example :
    IsOpened "t" 16 "s" sessions
      (ensure_session (ok "t") 16 "s" sessions).0
      (ensure_session (ok "t") 16 "s" sessions).1
ensure_session-IsOpened_example = ensure_session-IsOpened "t" 16 "s" sessions

abbrev live_ctx : Ctx
live_ctx n = none

abbrev input : List String
input = "{}" ∷ "  " ∷ "{}" ∷ []

start-IsRunOf_example :
    (n : ℕ) × IsRunOf encode parse handler n input 0
      (start encode parse handler live_ctx (λ k. true) none input 0)
start-IsRunOf_example = start-IsRunOf encode parse handler live_ctx (λ k. true) none input 0

one_reply_each_example :
    (length (start encode parse handler live_ctx (λ k. true) none input 0).1.0
      ≡ count_requests encode parse handler input)
    × ((start encode parse handler live_ctx (λ k. true) none input 0).1.1
        ≡ finished encode parse handler none)
one_reply_each_example =
    one_reply_each encode parse handler live_ctx (λ k. true) none input 0 (λ k. refl) (λ k. refl)
      (λ id. ("{}", refl))
