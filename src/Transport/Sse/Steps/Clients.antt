-- ===== src/Transport/Sse/Steps/Clients.antt =====
-- What the map of the clients holds after any steps, and what a broadcast does
-- (internal/transport/sse.go).
use mcp_memory_core.Base.{
  ℕ, ◌≤◌, ◌≡◌, refl, inl, inr, String, ◌==◌, true, Option, none, some, List, [], ◌∷◌, ltb, length,
  get_elem?, get_elem?-set_self, set, arith, Bool-cases,
}
use mcp_memory_core.Base.Dict.{lookup}
use mcp_memory_core.Storage.{Answer, ok, err}
use mcp_memory_core.Transport.Session.{Session, SessionManager, create_session, get_session}
use mcp_memory_core.Transport.Sse.{
  SseTransport, Connection, SseEvent, registered, serving, unregistered, gone, session_frame,
  new_sse_transport, open_connection, with_session, with_found, register_client, start_serving,
  send_heartbeat, take_message, take_event, unregister, close_events, send_sse_response, queued,
  broadcast_event, stop, hello, write_message, queue_capacity,
}
use mcp_memory_core.Transport.Sse.Steps.{
  Label, Step, sessions_change, opens, registers, starts_serving, beats, takes_message, takes_event,
  leaves, closes, responds, broadcasts, stops, Reached, begins, follows,
}
use mcp_memory_core.Transport.Sse.Steps.Registry.{
  is_live, set-HaveRoom, insert-AllClients, remove-AllClients,
}
use mcp_memory_core.Transport.Sse.Steps.Valid.{
  IsValid, put-IsValid, append-IsValid, offer_all-IsValid, close_all-IsValid, offer_all_clients,
  close_all_clients,
}

module _ {R : Type 0} where
  abbrev Holds : SseTransport R → Type 0
  Holds t = IsValid t.connections t.clients

  with_session-IsValid :
      (last : String) (x : SessionManager × Answer Session) (t : SseTransport R)
      → Holds t
      → Holds (with_session last x t)
  with_session-IsValid last (sm, ok s) t v =
      append-IsValid t.connections t.clients s.id last (session_frame s.id ∷ []) v
  with_session-IsValid last (sm, err e) t v = v

  with_found-IsValid :
      (g : Answer String) (now : ℕ) (id last : String) (x : SessionManager × Option Session)
      (t : SseTransport R)
      → Holds t
      → Holds (with_found g now id last x t)
  with_found-IsValid g now id last (sm, none) t v =
      with_session-IsValid last (create_session g "sse" now sm) t v
  with_found-IsValid g now id last (sm, some s) t v =
      append-IsValid t.connections t.clients id last [] v

  open-IsValid :
      (g : Answer String) (now : ℕ) (header last : String) (t : SseTransport R)
      → Holds t
      → Holds (open_connection g now header last t)
  unfolding open_connection
  open-IsValid g now header last t v = elim (Bool-cases (header == "")) [
    | inl new ↦
        rw new (with_session-IsValid last (create_session g "sse" now t.session_manager) t v)
    | inr old ↦
        rw old (with_found-IsValid g now header last (get_session header now t.session_manager) t v)
  ]

  queued-IsValid :
      (r : R) (id : String) (o : Option (List R)) (t : SseTransport R)
      → Holds t
      → Holds (queued r id o t)
  queued-IsValid r id none t v = v
  queued-IsValid r id (some q) t v = elim (Bool-cases (ltb (length q) queue_capacity)) [
    | inl room ↦ rw room v
    | inr full ↦ rw full v
  ]

  -- A connection that stays as live as it was, with no more events.
  change-IsValid :
      (i : ℕ) (c d : Connection) (t : SseTransport R)
      → get_elem? t.connections i ≡ some c
      → d.session_id ≡ c.session_id
      → (is_live c.phase ≡ true → is_live d.phase ≡ true)
      → length d.events ≤ length c.events
      → Holds t
      → IsValid (set t.connections i d) t.clients
  change-IsValid i c d t h s l few v =
      put-IsValid t.connections t.clients i c d h (record { same = s; live = l })
        (omega (arith, few, v.room i c h)) v

  Step-IsValid : (l : Label R) (t u : SseTransport R) → Step t l u → Holds t → Holds u
  unfolding register_client start_serving send_heartbeat take_message take_event unregister
      close_events send_sse_response broadcast_event stop
  Step-IsValid _ t _ (sessions_change sm) v = v
  Step-IsValid _ t _ (opens g now header last) v = open-IsValid g now header last t v
  Step-IsValid _ t _ (registers i c h p) v =
      let d = record c { phase = registered } in
      let w = change-IsValid i c d t h refl (λ l. refl) (omega arith) v in
      record {
        clients =
            insert-AllClients (set t.connections i d) c.session_id i t.clients
              (record {
                connection = d;
                here = get_elem?-set_self t.connections i d c h;
                same = refl;
                live = refl;
              })
              w.clients;
        room = w.room;
      }
  Step-IsValid _ t _ (starts_serving i c h p) v =
      change-IsValid i c (record (hello c) { phase = serving }) t h (ground arith) (λ l. refl)
        (ground arith) v
  Step-IsValid _ t _ (beats i c h p) v = change-IsValid i c _ t h refl (λ l. l) (omega arith) v
  Step-IsValid _ t _ (takes_message i c encoded r rest h p q) v =
      change-IsValid i c (write_message encoded c) t h (written_same encoded)
        (λ l. rw (written_phase encoded) l) (written_events encoded) v
    where
      written_same : (o : Option String) → (write_message o c).session_id ≡ c.session_id
      written_same none = refl
      written_same (some json) = refl

      written_phase : (o : Option String) → (write_message o c).phase ≡ c.phase
      written_phase none = refl
      written_phase (some json) = refl

      written_events : (o : Option String) → length (write_message o c).events ≤ length c.events
      written_events none = omega arith
      written_events (some json) = omega arith
  Step-IsValid _ t _ (takes_event i c e rest h p q) v =
      change-IsValid i c _ t h refl (λ l. l) (rw q (omega arith)) v
  Step-IsValid _ t _ (leaves i c h p) v = record {
    clients =
        remove-AllClients t.connections i c (record c { phase = unregistered }) t.clients h
          v.clients;
    room =
        set-HaveRoom t.connections i c (record c { phase = unregistered }) h (v.room i c h) v.room;
  }
  Step-IsValid _ t _ (closes i c h p) v =
      change-IsValid i c (record c { phase = gone }) t h refl (λ l. absurd (cc (rw p at l)))
        (omega arith) v
  Step-IsValid _ t _ (responds id r) v = queued-IsValid r id (lookup id t.message_queues) t v
  Step-IsValid _ t _ (broadcasts e) v =
      rw (offer_all_clients e t.clients t) (offer_all-IsValid e t.clients t t.clients v v).0
  Step-IsValid _ t _ stops v =
      rw (close_all_clients t.clients t) (close_all-IsValid t.clients t t.clients v)

  -- However connections come and go, every entry of the map of the clients is a connection of that
  -- session whose handler has not left the map, and no event channel holds more than ten events.
  pub Reached-IsValid :
      (ls : List (Label R)) (t : SseTransport R) → Reached R ls t → IsValid t.connections t.clients
  unfolding new_sse_transport
  Reached-IsValid _ _ begins = record { clients = tt; room = λ i c h. absurd (cc h) }
  Reached-IsValid _ _ (follows ls l t u r calm h) = Step-IsValid l t u h (Reached-IsValid ls t r)

  -- A broadcast never sends on a closed channel, whichever clients have left in the meantime.
  pub broadcast_safe :
      (e : SseEvent) (ls : List (Label R)) (t : SseTransport R)
      → Reached R ls t
      → (broadcast_event e t).panicked ≡ t.panicked
  unfolding broadcast_event
  broadcast_safe e ls t r =
      let v = Reached-IsValid ls t r in (offer_all-IsValid e t.clients t t.clients v v).1
