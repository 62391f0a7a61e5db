-- ===== src/Tests/Streaming.antt =====
-- The server-sent events of internal/transport/sse.go.
use mcp_memory_core.Base.{ℕ, ◌≤◌, ◌≡◌, refl, String, none, some, List, [], ◌∷◌, length}
use mathlib.Core.List.{◌++◌}
use mcp_memory_core.Base.Dict.{lookup, insert}
use mcp_memory_core.Base.Json.{null}
use mcp_memory_core.Errors.{plain}
use mcp_memory_core.Storage.{Answer, ok, err}
use mcp_memory_core.Transport.Rpc.{JsonRpcRequest, JsonRpcResponse, no_result, succeed}
use mcp_memory_core.Transport.Http.{HttpRequest}
use mcp_memory_core.Transport.Session.{new_session_manager, create_session, get_session}
use mcp_memory_core.Transport.Sse.{
  SseTransport, Connection, SseEvent, greet, session_frame, registered, serving, hello,
  new_sse_transport, open_connection, register_client, start_serving, send_sse_response,
  take_message, broadcast_event,
}
use mcp_memory_core.Transport.Sse.Steps.{
  Label, quiet, sent, delivered, Reached, begins, follows, opens, registers, starts_serving,
  responds, takes_message,
}
use mcp_memory_core.Transport.Sse.Steps.Queues.{sent_to, delivered_to, waiting}
use mcp_memory_core.Transport.Sse.Steps.Delivery.{queue_delivers}
use mcp_memory_core.Transport.Sse.Steps.Valid.{IsValid}
use mcp_memory_core.Transport.Sse.Steps.Clients.{Reached-IsValid, broadcast_safe}
use mcp_memory_core.Transport.Sse.Rpc.{handle_rpc}
use mcp_memory_core.Transport.Sse.Rpc.Handled.{IsHandled, handle_rpc-IsHandled}

-- A client connects, two responses are sent to it, and it takes the first.
abbrev at_start : SseTransport String
unfolding new_sse_transport
at_start = new_sse_transport

abbrev greeted_client : Connection
greeted_client = greet "s1" "" (session_frame "s1" ∷ [])

abbrev registered_client : Connection
registered_client = record greeted_client { phase = registered }

abbrev serving_client : Connection
serving_client = record (hello registered_client) { phase = serving }

abbrev opened : SseTransport String
unfolding at_start open_connection
opened = open_connection (ok "s1") 5 "" "" at_start

abbrev joined : SseTransport String
unfolding opened register_client
joined = register_client 0 greeted_client opened

abbrev served : SseTransport String
unfolding joined start_serving
served = start_serving 0 registered_client joined

abbrev first_sent : SseTransport String
unfolding served send_sse_response
first_sent = send_sse_response "s1" "a" served

abbrev both_sent : SseTransport String
unfolding first_sent send_sse_response
both_sent = send_sse_response "s1" "b" first_sent

abbrev one_taken : SseTransport String
unfolding both_sent take_message
one_taken = take_message (some "\"a\"") 0 serving_client ("b" ∷ []) both_sent

abbrev labels : List (Label String)
labels = delivered "s1" "a" ∷ sent "s1" "b" ∷ sent "s1" "a" ∷ quiet ∷ quiet ∷ quiet ∷ []

one_taken-Reached : Reached String labels one_taken
unfolding one_taken both_sent first_sent served joined opened at_start open_connection
    register_client start_serving send_sse_response take_message new_sse_transport lookup insert
    create_session new_session_manager
one_taken-Reached =
    let r1 : Reached String (quiet ∷ []) opened =
      follows _ _ at_start opened begins refl (opens (ok "s1") 5 "" "") in
    let r2 : Reached String (quiet ∷ quiet ∷ []) joined =
      follows _ _ opened joined r1 refl (registers 0 greeted_client refl refl) in
    let r3 : Reached String (quiet ∷ quiet ∷ quiet ∷ []) served =
      follows _ _ joined served r2 refl (starts_serving 0 registered_client refl refl) in
    let r4 : Reached String (sent "s1" "a" ∷ quiet ∷ quiet ∷ quiet ∷ []) first_sent =
      follows _ _ served first_sent r3 refl (responds "s1" "a") in
    let r5 : Reached String (sent "s1" "b" ∷ sent "s1" "a" ∷ quiet ∷ quiet ∷ quiet ∷ []) both_sent =
      follows _ _ first_sent both_sent r4 refl (responds "s1" "b") in
    follows _ _ both_sent one_taken r5 refl
      (takes_message 0 serving_client (some "\"a\"") "a" ("b" ∷ []) refl refl refl)

queue_delivers_example :
    (sent_to "s1" labels ≡ delivered_to "s1" labels ++ waiting "s1" one_taken.message_queues)
    × (length (waiting "s1" one_taken.message_queues) ≤ 100)
queue_delivers_example = queue_delivers "s1" labels one_taken one_taken-Reached

Reached-IsValid_example : IsValid one_taken.connections one_taken.clients
Reached-IsValid_example = Reached-IsValid labels one_taken one_taken-Reached

abbrev news : SseEvent
news = record { id = ""; event = "news"; text = "x" }

broadcast_safe_example : (broadcast_event news one_taken).panicked ≡ one_taken.panicked
broadcast_safe_example = broadcast_safe news labels one_taken one_taken-Reached

abbrev request : JsonRpcRequest
request = record { jsonrpc = "2.0"; id = null; method = "tools/list"; params = none }

abbrev posted : HttpRequest
posted = record {
  http_method = "POST";
  content_type = "application/json";
  session_id = "s1";
  body = ok "x";
}

abbrev parse : String → Answer JsonRpcRequest
parse text = ok request

abbrev encode : JsonRpcResponse String → Answer String
encode resp = err (plain "no encoder")

-- A handler that counts its requests.
abbrev count_request : JsonRpcRequest → ℕ → ℕ × JsonRpcResponse String
count_request req n = (1, succeed req.id no_result)

-- A client of the session s1 has connected.
abbrev listening : SseTransport (JsonRpcResponse String)
unfolding new_sse_transport open_connection register_client start_serving
listening =
    start_serving 0 registered_client
      (register_client 0 greeted_client (open_connection (ok "s1") 5 "" "" new_sse_transport))

handle_rpc-IsHandled_example :
    IsHandled encode parse count_request posted listening
      (handle_rpc encode parse count_request 5 posted listening 0).0
      0
      (handle_rpc encode parse count_request 5 posted listening 0).1.0
      (handle_rpc encode parse count_request 5 posted listening 0).1.1
handle_rpc-IsHandled_example = handle_rpc-IsHandled encode parse count_request 5 posted listening 0

request_answered :
    waiting "s1" (handle_rpc encode parse count_request 6 posted listening 0).0.message_queues
    ≡ succeed null no_result ∷ []
unfolding listening handle_rpc waiting new_sse_transport open_connection register_client
    start_serving send_sse_response lookup insert create_session new_session_manager get_session
request_answered = refl
