-- ===== src/Transport/Http.antt =====
-- internal/transport/http.go: the RPC endpoint, over a handler of requests with a state `S` of its
-- own. Logging is left out, and so are the listening socket and the shutdown.
pub mod Sessions
use mcp_memory_core.Base.{
  ℕ, String, ◌==◌, Bool, ◌||◌, not, Option, none, some, List, [], ◌∷◌, if◌then◌else◌,
}
use mcp_memory_core.Base.Json.{Value, null, str, object, get, no_fields}
use mcp_memory_core.Base.Dict.{Dict, insert}
use mcp_memory_core.Errors.{GoError, app, app_error, no_cause}
use mcp_memory_core.Errors.Codes.{of_string}
use mcp_memory_core.Storage.{Answer, ok, err}
use mcp_memory_core.Transport.Rpc.{JsonRpcRequest, JsonRpcError, JsonRpcResponse, new_parse_error}
use mcp_memory_core.Transport.ErrorMapper.{
  to_json_rpc_response, to_http_status_code, create_fallback_error_response,
}
use mcp_memory_core.Transport.Session.{Session, SessionManager, create_session, get_session}

-- `body` is what io.ReadAll makes of the first ten megabytes. An absent header is an empty one.
pub record HttpRequest : Type 0 where
  pub http_method : String
  pub content_type : String
  pub session_id : String
  pub body : Answer String

-- What the endpoints write after the status and the headers.
pub data Body (R : Type 0) : Type 0 where
  rpc : JsonRpcResponse R → Body R
  health : ℕ → Body R
  no_body : Body R

pub record HttpReply (R : Type 0) : Type 0 where
  pub status : ℕ
  pub headers : Dict String
  pub body : Body R

-- The status that the data of an error stands for.
unfoldable pub status_of_data : Value → ℕ
unfolding get of_string to_http_status_code
status_of_data (object fields) = elim (get "error_code" fields) [
  | some (str c) ↦ to_http_status_code (some (app (app_error (of_string c) "" null no_cause [])))
  | _ ↦ 500
]
status_of_data v = 500

-- The status that handleRPC picks for a response.
unfoldable pub response_status : Option JsonRpcError → ℕ
unfolding status_of_data
response_status none = 200
response_status (some e) = status_of_data e.error_data

module _ {R : Type 0} where
  -- `session` is the X-Session-ID header of the reply, if one was set.
  unfoldable pub send_json_response_with_status :
      Option String → JsonRpcResponse R → ℕ → HttpReply R
  send_json_response_with_status none resp status = record {
    status = status;
    headers = ("Content-Type", "application/json") ∷ [];
    body = rpc resp;
  }
  send_json_response_with_status (some id) resp status = record {
    status = status;
    headers = ("X-Session-ID", id) ∷ ("Content-Type", "application/json") ∷ [];
    body = rpc resp;
  }

  unfoldable pub handle_health : ℕ → HttpReply R
  handle_health now = record {
    status = 200;
    headers = ("Content-Type", "application/json") ∷ [];
    body = health now;
  }

-- The session of a request: its new ID, if it needed one.
abbrev pub opened : SessionManager × Answer Session → SessionManager × Answer (Option String)
opened (sm, ok s) = (sm, ok (some s.id))
opened (sm, err e) = (sm, err e)

abbrev pub replaced :
    Answer String → ℕ → SessionManager × Option Session → SessionManager × Answer (Option String)
replaced generated now (sm, none) = opened (create_session generated "http" now sm)
replaced generated now (sm, some s) = (sm, ok none)

-- Get or create the session. `generated` is the ID that a new session would get.
unfoldable pub ensure_session :
    Answer String → ℕ → String → SessionManager → SessionManager × Answer (Option String)
unfolding create_session get_session
ensure_session generated now header sm =
    if header == ""
    then opened (create_session generated "http" now sm)
    else replaced generated now (get_session header now sm)

module _ {S R : Type 0} (parse : String → Answer JsonRpcRequest)
    (handler : JsonRpcRequest → S → S × JsonRpcResponse R) where
  abbrev pub answered : Option String → S × JsonRpcResponse R → S × HttpReply R
  answered session (s, resp) =
      (s, send_json_response_with_status session resp (response_status resp.error))

  abbrev pub in_session :
      JsonRpcRequest
      → S
      → SessionManager × Answer (Option String)
      → SessionManager × (S × HttpReply R)
  in_session req s (sm, ok session) = (sm, answered session (handler req s))
  in_session req s (sm, err e) = (
    sm,
    (
      s,
      send_json_response_with_status none (to_json_rpc_response req.id (some e))
          (to_http_status_code (some e)),
    ),
  )

  abbrev pub parsed :
      Answer String
      → ℕ
      → HttpRequest
      → Answer JsonRpcRequest
      → SessionManager
      → S
      → SessionManager × (S × HttpReply R)
  parsed generated now r (err e) sm s =
      (sm, (s, send_json_response_with_status none new_parse_error 200))
  parsed generated now r (ok req) sm s =
      in_session req s (ensure_session generated now r.session_id sm)

  abbrev pub refused : String → ℕ → SessionManager → S → SessionManager × (S × HttpReply R)
  refused message status sm s = (
    sm,
    (s, send_json_response_with_status none (create_fallback_error_response null message) status),
  )

  abbrev pub with_body :
      Answer String
      → ℕ
      → HttpRequest
      → Answer String
      → SessionManager
      → S
      → SessionManager × (S × HttpReply R)
  with_body generated now r (err e) sm s = refused "Failed to read request body" 400 sm s
  with_body generated now r (ok body) sm s = parsed generated now r (parse body) sm s

  unfoldable pub handle_rpc :
      Answer String → ℕ → HttpRequest → SessionManager → S → SessionManager × (S × HttpReply R)
  unfolding ensure_session send_json_response_with_status response_status
      create_fallback_error_response to_json_rpc_response to_http_status_code new_parse_error
  handle_rpc generated now r sm s =
      if not (r.http_method == "POST")
      then refused "Method not allowed" 405 sm s
      else if not (r.content_type == "application/json" || r.content_type == "application/json-rpc")
      then refused "Content-Type must be application/json or application/json-rpc" 400 sm s
      else with_body generated now r r.body sm s

-- The headers that the CORS middleware sets before the next handler's.
abbrev pub cors_headers : Dict String
cors_headers =
    ("Access-Control-Allow-Origin", "*")
    ∷ ("Access-Control-Allow-Methods", "POST, GET, OPTIONS")
    ∷ ("Access-Control-Allow-Headers", "Content-Type, X-Session-ID")
    ∷ ("Access-Control-Expose-Headers", "X-Session-ID")
    ∷ []

-- w.Header().Set for each header in turn.
unfoldable pub set_all : Dict String → Dict String → Dict String
unfolding insert
set_all [] headers = headers
set_all ((name, value) ∷ rest) headers = set_all rest (insert name value headers)

module _ {T R : Type 0} where
  abbrev pub with_cors : T × HttpReply R → T × HttpReply R
  unfolding set_all
  with_cors (t, reply) = (t, record reply { headers = set_all reply.headers cors_headers })

  -- A preflight request never reaches the next handler.
  unfoldable pub cors_middleware :
      (HttpRequest → T → T × HttpReply R) → HttpRequest → T → T × HttpReply R
  cors_middleware next r t =
      if r.http_method == "OPTIONS"
      then (t, record { status = 204; headers = cors_headers; body = no_body })
      else with_cors (next r t)
