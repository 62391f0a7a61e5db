-- ===== src/Transport/Sse/Steps/Delivery.antt =====
-- The order of the responses to a session (internal/transport/sse.go).
use mcp_memory_core.Base.{
  ◌≤◌, ◌≡◌, refl, ap, inl, inr, String, ◌==◌, true, Option, none, some, List, [], ◌∷◌, ltb, length,
  length-append, arith, Bool-cases,
}
use mathlib.Core.List.{◌++◌, append_assoc}
use mcp_memory_core.Base.Dict.{Dict, lookup, insert}
use mcp_memory_core.Transport.Sse.{
  SseTransport, new_sse_transport, register_client, start_serving, send_heartbeat, take_message,
  take_event, unregister, close_events, send_sse_response, queued, broadcast_event, stop,
  queue_capacity,
}
use mcp_memory_core.Transport.Sse.Steps.{
  Label, sent, delivered, send_label, Step, sessions_change, opens, registers, starts_serving,
  beats, takes_message, takes_event, leaves, closes, responds, broadcasts, stops, Reached, begins,
  follows,
}
use mcp_memory_core.Transport.Sse.Steps.Queues.{
  IsOrdered, sent_to, delivered_to, waiting, offer_all_queues, close_all_queues, open_queues,
  IsOrdered-at, waiting-insert, waiting-with_queue, waiting_at,
}

module _ {R : Type 0} where
  take-IsOrdered :
      (id j : String) (ls : List (Label R)) (r : R) (rest : List R) (m : Dict (List R))
      → lookup j m ≡ some (r ∷ rest)
      → IsOrdered id ls m
      → IsOrdered id (delivered j r ∷ ls) (insert j rest m)
  unfolding sent_to delivered_to
  take-IsOrdered id j ls r rest m h v = elim (Bool-cases (j == id)) [
    | inl same ↦
        let w = waiting_at id j (r ∷ rest) m same h in
        record {
          ordered =
              rw
                (
                  same,
                  waiting-insert id j rest m,
                  same,
                  append_assoc (delivered_to id ls) (r ∷ []) rest,
                )
                (rw w at v.ordered);
          bounded = rw (waiting-insert id j rest m, same) (omega (arith, rw w at v.bounded));
        }
    | inr other ↦ record {
      ordered = rw (other, waiting-insert id j rest m, other) v.ordered;
      bounded = rw (waiting-insert id j rest m, other) v.bounded;
    }
  ]

  send-IsOrdered :
      (id j : String) (ls : List (Label R)) (r : R) (q : List R) (m : Dict (List R))
      → lookup j m ≡ some q
      → ltb (length q) queue_capacity ≡ true
      → IsOrdered id ls m
      → IsOrdered id (sent j r ∷ ls) (insert j (q ++ (r ∷ [])) m)
  unfolding sent_to delivered_to
  send-IsOrdered id j ls r q m h room v = elim (Bool-cases (j == id)) [
    | inl same ↦
        let w = waiting_at id j q m same h in
        record {
          ordered =
              rw
                (
                  same,
                  waiting-insert id j (q ++ (r ∷ [])) m,
                  same,
                  ← append_assoc (delivered_to id ls) q (r ∷ []),
                )
                (ap (λ (l : List R). l ++ (r ∷ [])) (rw w at v.ordered));
          bounded =
              rw (waiting-insert id j (q ++ (r ∷ [])) m, same)
                (ground (arith, length-append q (r ∷ []), room));
        }
    | inr other ↦ record {
      ordered = rw (other, waiting-insert id j (q ++ (r ∷ [])) m, other) v.ordered;
      bounded = rw (waiting-insert id j (q ++ (r ∷ [])) m, other) v.bounded;
    }
  ]

  respond-IsOrdered :
      (id j : String) (ls : List (Label R)) (r : R) (o : Option (List R)) (t : SseTransport R)
      → lookup j t.message_queues ≡ o
      → IsOrdered id ls t.message_queues
      → IsOrdered id (send_label j r o ∷ ls) (queued r j o t).message_queues
  respond-IsOrdered id j ls r none t h v =
      IsOrdered-at id ls t.message_queues t.message_queues refl v
  respond-IsOrdered id j ls r (some q) t h v = elim (Bool-cases (ltb (length q) queue_capacity)) [
    | inl room ↦ rw room (send-IsOrdered id j ls r q t.message_queues h room v)
    | inr full ↦ rw full (IsOrdered-at id ls t.message_queues t.message_queues refl v)
  ]

  Step-IsOrdered :
      (id : String) (ls : List (Label R)) (l : Label R) (t u : SseTransport R)
      → Step t l u
      → IsOrdered id ls t.message_queues
      → IsOrdered id (l ∷ ls) u.message_queues
  unfolding register_client start_serving send_heartbeat take_message take_event unregister
      close_events send_sse_response broadcast_event stop sent_to delivered_to
  Step-IsOrdered id ls _ t _ (sessions_change sm) v = IsOrdered-at id ls t.message_queues _ refl v
  Step-IsOrdered id ls _ t _ (opens g now header last) v =
      IsOrdered-at id ls t.message_queues _ (open_queues g now header last t) v
  Step-IsOrdered id ls _ t _ (registers i c h p) v = IsOrdered-at id ls t.message_queues _ refl v
  Step-IsOrdered id ls _ t _ (starts_serving i c h p) v =
      let e =
        waiting-with_queue id c.session_id (lookup c.session_id t.message_queues) t.message_queues
          refl in
      record { ordered = rw e v.ordered; bounded = rw e v.bounded }
  Step-IsOrdered id ls _ t _ (beats i c h p) v = IsOrdered-at id ls t.message_queues _ refl v
  Step-IsOrdered id ls _ t _ (takes_message i c encoded r rest h p q) v =
      take-IsOrdered id c.session_id ls r rest t.message_queues q v
  Step-IsOrdered id ls _ t _ (takes_event i c e rest h p q) v =
      IsOrdered-at id ls t.message_queues _ refl v
  Step-IsOrdered id ls _ t _ (leaves i c h p) v = IsOrdered-at id ls t.message_queues _ refl v
  Step-IsOrdered id ls _ t _ (closes i c h p) v = IsOrdered-at id ls t.message_queues _ refl v
  Step-IsOrdered id ls _ t _ (responds j r) v =
      respond-IsOrdered id j ls r (lookup j t.message_queues) t refl v
  Step-IsOrdered id ls _ t _ (broadcasts e) v =
      IsOrdered-at id ls t.message_queues _ (offer_all_queues e t.clients t) v
  Step-IsOrdered id ls _ t _ stops v =
      IsOrdered-at id ls t.message_queues _ (close_all_queues t.clients t) v

  Reached-IsOrdered :
      (id : String) (ls : List (Label R)) (t : SseTransport R)
      → Reached R ls t
      → IsOrdered id ls t.message_queues
  unfolding new_sse_transport sent_to delivered_to waiting lookup
  Reached-IsOrdered id _ _ begins = record { ordered = refl; bounded = omega arith }
  Reached-IsOrdered id _ _ (follows ls l t u r calm h) =
      Step-IsOrdered id ls l t u h (Reached-IsOrdered id ls t r)

  -- Whatever connections, requests, broadcasts and stops interleave, the responses that were put into
  -- the queue of a session are, in order, those that its connections have taken and then those that
  -- wait: none is lost, doubled or given to another session, and at most a hundred wait.
  pub queue_delivers :
      (id : String) (ls : List (Label R)) (t : SseTransport R)
      → Reached R ls t
      → (sent_to id ls ≡ delivered_to id ls ++ waiting id t.message_queues)
        × (length (waiting id t.message_queues) ≤ 100)
  queue_delivers id ls t r = let v = Reached-IsOrdered id ls t r in (v.ordered, v.bounded)
