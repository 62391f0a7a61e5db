-- ===== src/Transport/Sse.antt =====
-- internal/transport/sse.go: the connections of server-sent events, over a handler of requests with a
-- state `S` of its own. A response is any `R`. A pointer to a client is its position among the
-- connections, and a channel is the list of what it holds. Logging, the listening socket and the
-- shutdown of net/http are left out.
pub mod Steps
pub mod Rpc
use Prim.Native.String.{◌++◌}
use mcp_memory_core.Base.{
  ℕ, ◌+◌, String, ◌==◌, Bool, true, false, ◌||◌, Option, none, some, List, [], ◌∷◌, ltb, length,
  get_elem?, set, if◌then◌else◌,
}
use mathlib.Core.List
use mcp_memory_core.Base.Dict.{Dict, lookup, insert, remove}
use mcp_memory_core.Storage.{Answer, ok, err}
use mcp_memory_core.Transport.Session.{
  Session, SessionManager, new_session_manager, create_session, get_session,
}

pub record SseEvent : Type 0 where
  pub id : String
  pub event : String
  pub text : String

-- How far the handler of a connection is: it has its session, it is in the map of the clients, it is
-- in its loop, it has left the map, and it has closed its event channel.
pub data Phase : Type 0 where
  greeted registered serving unregistered gone : Phase

-- An SSEClient with what its handler holds. `written` are the texts written so far, oldest first.
pub record Connection : Type 0 where
  pub session_id : String
  pub last_event_id : String
  pub events : List SseEvent
  pub done_closed : Bool
  pub phase : Phase
  pub written : List String

-- `panicked` is a close of a closed channel or a send on one.
pub record SseTransport (R : Type 0) : Type 0 where
  pub session_manager : SessionManager
  pub connections : List Connection
  pub clients : Dict ℕ
  pub message_queues : Dict (List R)
  pub panicked : Bool

abbrev pub event_capacity : ℕ
event_capacity = 10

abbrev pub queue_capacity : ℕ
queue_capacity = 100

-- A session lasts for half an hour.
unfoldable pub new_sse_transport : {R : Type 0} → SseTransport R
unfolding new_session_manager
new_sse_transport = record {
  session_manager = new_session_manager 1800;
  connections = [];
  clients = [];
  message_queues = [];
  panicked = false;
}

-- The texts that the handler writes.
abbrev pub session_frame : String → String
session_frame id = "event: session\ndata: {\"sessionId\":\"" ++ id ++ "\"}\n\n"

abbrev pub connected_frame : String
connected_frame = "event: connected\ndata: {\"status\":\"connected\"}\n\n"

abbrev pub reconnected_frame : String → String
reconnected_frame id = "event: reconnected\ndata: {\"lastEventId\":\"" ++ id ++ "\"}\n\n"

abbrev pub heartbeat_frame : String
heartbeat_frame = ":heartbeat\n\n"

abbrev pub message_frame : String → String
message_frame json = "event: message\ndata: " ++ json ++ "\n\n"

-- A field of a custom event, which an empty value leaves out.
abbrev pub optional_field : String → String → String
optional_field name value = if value == "" then "" else name ++ ": " ++ value ++ "\n"

unfoldable pub event_frame : SseEvent → String
event_frame e =
    optional_field "id" e.id ++ optional_field "event" e.event ++ "data: " ++ e.text ++ "\n\n"

abbrev pub write : String → Connection → Connection
write frame c = record c { written = List.◌++◌ c.written (frame ∷ []) }

abbrev pub greet : String → String → List String → Connection
greet id last_event_id frames = record {
  session_id = id;
  last_event_id = last_event_id;
  events = [];
  done_closed = false;
  phase = greeted;
  written = frames;
}

abbrev pub hello : Connection → Connection
hello c =
    if c.last_event_id == ""
    then write connected_frame c
    else write (reconnected_frame c.last_event_id) (write connected_frame c)

abbrev pub write_message : Option String → Connection → Connection
write_message none c = c
write_message (some json) c = write (message_frame json) c

-- The event channel is closed.
abbrev pub is_gone : Phase → Bool
is_gone greeted = false
is_gone registered = false
is_gone serving = false
is_gone unregistered = false
is_gone gone = true

module _ {R : Type 0} where
  abbrev pub put : ℕ → Connection → SseTransport R → SseTransport R
  put i c t = record t { connections = set t.connections i c }

  -- A connection with a new session. Where none can be made, the reply is an error event.
  abbrev pub with_session :
      String → SessionManager × Answer Session → SseTransport R → SseTransport R
  with_session last_event_id (sm, ok s) t = record t {
    session_manager = sm;
    connections = List.◌++◌ t.connections (greet s.id last_event_id (session_frame s.id ∷ []) ∷ []);
  }
  with_session last_event_id (sm, err e) t = record t { session_manager = sm }

  abbrev pub with_found :
      Answer String
      → ℕ
      → String
      → String
      → SessionManager × Option Session
      → SseTransport R
      → SseTransport R
  with_found generated now id last_event_id (sm, none) t =
      with_session last_event_id (create_session generated "sse" now sm) t
  with_found generated now id last_event_id (sm, some s) t = record t {
    session_manager = sm;
    connections = List.◌++◌ t.connections (greet id last_event_id [] ∷ []);
  }

  -- The start of handleSSE: get or create the session. An absent header is an empty text.
  unfoldable pub open_connection :
      Answer String → ℕ → String → String → SseTransport R → SseTransport R
  unfolding create_session get_session
  open_connection generated now header last_event_id t =
      if header == ""
      then with_session last_event_id (create_session generated "sse" now t.session_manager) t
      else with_found generated now header last_event_id (get_session header now t.session_manager)
          t

  -- Register the client, in place of another one of the same session.
  unfoldable pub register_client : ℕ → Connection → SseTransport R → SseTransport R
  unfolding insert
  register_client i c t = record (put i (record c { phase = registered }) t) {
    clients = insert c.session_id i t.clients;
  }

  abbrev pub with_queue : String → Option (List R) → Dict (List R) → Dict (List R)
  with_queue id none m = insert id [] m
  with_queue id (some q) m = m

  -- The queue of the session, which may be there from an earlier connection, and the first events.
  unfoldable pub start_serving : ℕ → Connection → SseTransport R → SseTransport R
  unfolding lookup
  start_serving i c t = record (put i (record (hello c) { phase = serving }) t) {
    message_queues =
        with_queue c.session_id (lookup c.session_id t.message_queues) t.message_queues;
  }

  unfoldable pub send_heartbeat : ℕ → Connection → SseTransport R → SseTransport R
  send_heartbeat i c t = put i (write heartbeat_frame c) t

  -- The loop takes a response from the queue of its session; `encoded` is what json.Marshal gives.
  unfoldable pub take_message :
      Option String → ℕ → Connection → List R → SseTransport R → SseTransport R
  unfolding insert
  take_message encoded i c rest t = record (put i (write_message encoded c) t) {
    message_queues = insert c.session_id rest t.message_queues;
  }

  unfoldable pub take_event :
      ℕ → Connection → SseEvent → List SseEvent → SseTransport R → SseTransport R
  unfolding event_frame
  take_event i c e rest t = put i (record (write (event_frame e) c) { events = rest }) t

  -- The first half of the deferred cleanup: delete(t.clients, sessionID).
  unfoldable pub unregister : ℕ → Connection → SseTransport R → SseTransport R
  unfolding remove
  unregister i c t = record (put i (record c { phase = unregistered }) t) {
    clients = remove c.session_id t.clients;
  }

  -- The second half: close(client.EventChannel).
  unfoldable pub close_events : ℕ → Connection → SseTransport R → SseTransport R
  close_events i c t = put i (record c { phase = gone }) t

  abbrev pub queued : R → String → Option (List R) → SseTransport R → SseTransport R
  queued resp id none t = t
  queued resp id (some q) t =
      if ltb (length q) queue_capacity
      then record t { message_queues = insert id (List.◌++◌ q (resp ∷ [])) t.message_queues }
      else t

  -- A response to a session without a queue, or with a full one, is dropped.
  unfoldable pub send_sse_response : String → R → SseTransport R → SseTransport R
  unfolding lookup
  send_sse_response id resp t = queued resp id (lookup id t.message_queues) t

  abbrev pub offered : SseEvent → ℕ → Option Connection → SseTransport R → SseTransport R
  offered e i none t = t
  offered e i (some c) t =
      if is_gone c.phase
      then record t { panicked = true }
      else if ltb (length c.events) event_capacity
      then put i (record c { events = List.◌++◌ c.events (e ∷ []) }) t
      else t

  unfoldable pub offer_all : SseEvent → Dict ℕ → SseTransport R → SseTransport R
  offer_all e [] t = t
  offer_all e ((id, i) ∷ rest) t = offer_all e rest (offered e i (get_elem? t.connections i) t)

  -- BroadcastEvent, under the lock of the clients. A reader that takes an event between two of the
  -- sends is one that took it before.
  unfoldable pub broadcast_event : SseEvent → SseTransport R → SseTransport R
  unfolding offer_all
  broadcast_event e t = offer_all e t.clients t

  abbrev pub closed : ℕ → Option Connection → SseTransport R → SseTransport R
  closed i none t = t
  closed i (some c) t =
      if c.done_closed
      then record t { panicked = true }
      else put i (record c { done_closed = true }) t

  unfoldable pub close_all : Dict ℕ → SseTransport R → SseTransport R
  close_all [] t = t
  close_all ((id, i) ∷ rest) t = close_all rest (closed i (get_elem? t.connections i) t)

  -- Stop, up to the shutdown of the server.
  unfoldable pub stop : SseTransport R → SseTransport R
  unfolding close_all
  stop t = close_all t.clients t
