-- ===== src/Transport/Sse/Steps.antt =====
-- The steps of the server-sent events (internal/transport/sse.go): what the connections' handlers, the
-- RPC endpoint, BroadcastEvent and Stop do, in any order.
pub mod Registry
pub mod Valid
pub mod Clients
pub mod Queues
pub mod Delivery
use mcp_memory_core.Base.{
  ℕ, ◌≡◌, String, ◌==◌, Bool, true, false, Option, none, some, List, [], ◌∷◌, ltb, length,
  get_elem?, if◌then◌else◌,
}
use mathlib.Core.List.{◌++◌}
use mcp_memory_core.Base.Dict.{lookup}
use mcp_memory_core.Storage.{Answer}
use mcp_memory_core.Transport.Session.{SessionManager}
use mcp_memory_core.Transport.Sse.{
  SseTransport, Connection, SseEvent, registered, serving, greeted, unregistered, new_sse_transport,
  open_connection, register_client, start_serving, send_heartbeat, take_message, take_event,
  unregister, close_events, send_sse_response, broadcast_event, stop, queue_capacity,
}

-- What a step does to the responses: `sent` is put into the queue of a session, and `delivered` is
-- taken from it by a connection.
pub data Label (R : Type 0) : Type 0 where
  quiet : Label R
  sent delivered : String → R → Label R

-- Whether a response finds a queue with room.
abbrev pub send_label : {R : Type 0} → String → R → Option (List R) → Label R
send_label id resp none = quiet
send_label id resp (some q) = if ltb (length q) queue_capacity then sent id resp else quiet

-- The sessions change on their own: the other endpoints and the cleanup use them.
pub data Step {R : Type 0} (t : SseTransport R) : Label R → SseTransport R → Type 0 where
  sessions_change : (sm : SessionManager) → Step t quiet (record t { session_manager = sm })
  opens :
      (generated : Answer String) (now : ℕ) (header last_event_id : String)
      → Step t quiet (open_connection generated now header last_event_id t)
  registers :
      (i : ℕ) (c : Connection)
      → get_elem? t.connections i ≡ some c
      → c.phase ≡ greeted
      → Step t quiet (register_client i c t)
  starts_serving :
      (i : ℕ) (c : Connection)
      → get_elem? t.connections i ≡ some c
      → c.phase ≡ registered
      → Step t quiet (start_serving i c t)
  beats :
      (i : ℕ) (c : Connection)
      → get_elem? t.connections i ≡ some c
      → c.phase ≡ serving
      → Step t quiet (send_heartbeat i c t)
  takes_message :
      (i : ℕ) (c : Connection) (encoded : Option String) (resp : R) (rest : List R)
      → get_elem? t.connections i ≡ some c
      → c.phase ≡ serving
      → lookup c.session_id t.message_queues ≡ some (resp ∷ rest)
      → Step t (delivered c.session_id resp) (take_message encoded i c rest t)
  takes_event :
      (i : ℕ) (c : Connection) (e : SseEvent) (rest : List SseEvent)
      → get_elem? t.connections i ≡ some c
      → c.phase ≡ serving
      → c.events ≡ e ∷ rest
      → Step t quiet (take_event i c e rest t)
  leaves :
      (i : ℕ) (c : Connection)
      → get_elem? t.connections i ≡ some c
      → c.phase ≡ serving
      → Step t quiet (unregister i c t)
  closes :
      (i : ℕ) (c : Connection)
      → get_elem? t.connections i ≡ some c
      → c.phase ≡ unregistered
      → Step t quiet (close_events i c t)
  responds :
      (id : String) (resp : R)
      → Step t (send_label id resp (lookup id t.message_queues)) (send_sse_response id resp t)
  broadcasts : (e : SseEvent) → Step t quiet (broadcast_event e t)
  stops : Step t quiet (stop t)

-- A state that is reached by steps with the labels, the latest first. A panic ends the program.
pub data Reached (R : Type 0) : List (Label R) → SseTransport R → Type 0 where
  begins : Reached R [] new_sse_transport
  follows :
      (ls : List (Label R)) (l : Label R) (t u : SseTransport R)
      → Reached R ls t
      → t.panicked ≡ false
      → Step t l u
      → Reached R (l ∷ ls) u
