-- ===== src/Transport/Sse/Rpc.antt =====
-- internal/transport/sse.go: the RPC endpoint, the health check and the CORS middleware. The parameters
-- are json.Marshal, json.Unmarshal and the handler of requests.
pub mod Handled
use Prim.Native.String.{◌++◌}
use mcp_memory_core.Base.{
  ℕ, String, ◌==◌, Bool, ◌||◌, not, Option, none, some, List, [], ◌∷◌, length, if◌then◌else◌,
}
use mcp_memory_core.Base.Json.{Value, null}
use mcp_memory_core.Base.Dict.{Dict, insert}
use mcp_memory_core.Storage.{Answer, ok, err}
use mcp_memory_core.Transport.Rpc.{JsonRpcRequest, JsonRpcResponse, new_parse_error}
use mcp_memory_core.Transport.ErrorMapper.{create_fallback_error_response}
use mcp_memory_core.Transport.Http.{HttpRequest, set_all}
use mcp_memory_core.Transport.Session.{Session, SessionManager, get_session}
use mcp_memory_core.Transport.Sse.{SseTransport, send_sse_response}

-- What is written to the client.
pub data SseBody : Type 0 where
  bytes : String → SseBody
  health : ℕ → ℕ → SseBody
  nothing : SseBody

pub record SseReply : Type 0 where
  pub status : ℕ
  pub headers : Dict String
  pub body : SseBody

-- A reply without headers.
abbrev pub bare : ℕ → SseBody → SseReply
bare status body = record { status = status; headers = []; body = body }

-- The number of the connected clients and the time.
unfoldable pub handle_health : {R : Type 0} → ℕ → SseTransport R → SseReply
handle_health now t = record {
  status = 200;
  headers = ("Content-Type", "application/json") ∷ [];
  body = health (length t.clients) now;
}

abbrev pub sse_cors_headers : Dict String
sse_cors_headers =
    ("Access-Control-Allow-Origin", "*")
    ∷ ("Access-Control-Allow-Methods", "POST, GET, OPTIONS")
    ∷ ("Access-Control-Allow-Headers", "Content-Type, X-Session-ID, Last-Event-ID")
    ∷ ("Access-Control-Expose-Headers", "X-Session-ID")
    ∷ []

-- A preflight request never reaches the next handler.
unfoldable pub cors_middleware :
    {T : Type 0} → (HttpRequest → T → T × SseReply) → HttpRequest → T → T × SseReply
unfolding set_all
cors_middleware next r t =
    if r.http_method == "OPTIONS"
    then (t, record { status = 204; headers = sse_cors_headers; body = nothing })
    else (
      (next r t).0,
      record (next r t).1 { headers = set_all (next r t).1.headers sse_cors_headers },
    )

module _ {S P : Type 0} (encode : JsonRpcResponse P → Answer String)
    (parse : String → Answer JsonRpcRequest)
    (handler : JsonRpcRequest → S → S × JsonRpcResponse P) where
  abbrev pub or_empty_bytes : Answer String → String
  or_empty_bytes (ok text) = text
  or_empty_bytes (err e) = ""

  -- json.Encoder ends with a line break; the fallback has none.
  abbrev pub error_bytes : Value → Answer String → String
  unfolding create_fallback_error_response
  error_bytes id (ok text) = text ++ "\n"
  error_bytes id (err e) =
      or_empty_bytes (encode (create_fallback_error_response id "Failed to encode error response"))

  unfoldable pub send_json_error_response : JsonRpcResponse P → ℕ → SseReply
  unfolding error_bytes
  send_json_error_response resp status = record {
    status = status;
    headers = ("Content-Type", "application/json") ∷ [];
    body = bytes (error_bytes resp.id (encode resp));
  }

  abbrev pub Outcome : Type 0
  Outcome = SseTransport (JsonRpcResponse P) × (S × SseReply)

  abbrev pub refused : String → ℕ → SseTransport (JsonRpcResponse P) → S → Outcome
  unfolding send_json_error_response create_fallback_error_response
  refused message status t s =
      (t, (s, send_json_error_response (create_fallback_error_response null message) status))

  abbrev pub accepted :
      String → Answer JsonRpcRequest → SseTransport (JsonRpcResponse P) → S → Outcome
  unfolding send_sse_response new_parse_error
  accepted id (err e) t s = (send_sse_response id new_parse_error t, (s, bare 202 nothing))
  accepted id (ok req) t s = (
    send_sse_response id (handler req s).1 t,
    ((handler req s).0, bare 202 (bytes "{\"status\":\"accepted\"}")),
  )

  abbrev pub with_body :
      HttpRequest → Answer String → SseTransport (JsonRpcResponse P) → S → Outcome
  unfolding refused accepted
  with_body r (err e) t s = refused "Failed to read request body" 400 t s
  with_body r (ok text) t s = accepted r.session_id (parse text) t s

  abbrev pub with_session :
      HttpRequest → SessionManager × Option Session → SseTransport (JsonRpcResponse P) → S → Outcome
  unfolding refused with_body
  with_session r (sm, none) t s =
      refused "Invalid or expired session" 401 (record t { session_manager = sm }) s
  with_session r (sm, some x) t s = with_body r r.body (record t { session_manager = sm }) s

  unfoldable pub handle_rpc : ℕ → HttpRequest → SseTransport (JsonRpcResponse P) → S → Outcome
  unfolding refused with_session get_session
  handle_rpc now r t s =
      if not (r.http_method == "POST")
      then refused "Method not allowed" 405 t s
      else if not (r.content_type == "application/json" || r.content_type == "application/json-rpc")
      then refused "Content-Type must be application/json or application/json-rpc" 400 t s
      else if r.session_id == ""
      then refused "X-Session-ID header required" 400 t s
      else with_session r (get_session r.session_id now t.session_manager) t s
