-- ===== src/Transport/Sse/Steps/Queues.antt =====
-- The responses that were sent to a session, those that were delivered and those that wait
-- (internal/transport/sse.go).
use mcp_memory_core.Base.{
  ℕ, ◌≤◌, ◌≡◌, refl, ◌∙◌, inl, inr, String, ◌==◌, eq_of_test, true, Option, none, some, List, [],
  ◌∷◌, length, get_elem?, arith, Bool-cases, if◌then◌else◌,
}
use mathlib.Core.List.{◌++◌}
use mcp_memory_core.Base.Dict.{Dict, lookup, insert, lookup-insert}
use mcp_memory_core.Storage.{Answer, ok, err}
use mcp_memory_core.Transport.Session.{Session, SessionManager, create_session, get_session}
use mcp_memory_core.Transport.Sse.{
  SseTransport, Connection, SseEvent, open_connection, with_session, with_found, with_queue,
  offer_all, offered, close_all, closed, queue_capacity,
}
use mcp_memory_core.Transport.Sse.Steps.{Label, quiet, sent, delivered}

module _ {R : Type 0} where
  -- The responses of a session that were put into its queue, oldest first, and those that its
  -- connections took.
  unfoldable pub sent_to : String → List (Label R) → List R
  sent_to id [] = []
  sent_to id (quiet ∷ ls) = sent_to id ls
  sent_to id (sent j r ∷ ls) = if j == id then sent_to id ls ++ (r ∷ []) else sent_to id ls
  sent_to id (delivered j r ∷ ls) = sent_to id ls

  unfoldable pub delivered_to : String → List (Label R) → List R
  delivered_to id [] = []
  delivered_to id (quiet ∷ ls) = delivered_to id ls
  delivered_to id (sent j r ∷ ls) = delivered_to id ls
  delivered_to id (delivered j r ∷ ls) =
      if j == id then delivered_to id ls ++ (r ∷ []) else delivered_to id ls

  abbrev pub or_empty : Option (List R) → List R
  or_empty none = []
  or_empty (some q) = q

  -- What waits in the queue of a session; nothing, if it has none.
  unfoldable pub waiting : String → Dict (List R) → List R
  unfolding lookup
  waiting id queues = or_empty (lookup id queues)

  pub offer_all_queues :
      (e : SseEvent) (cs : Dict ℕ) (t : SseTransport R)
      → (offer_all e cs t).message_queues ≡ t.message_queues
  unfolding offer_all
  offer_all_queues e [] t = refl
  offer_all_queues e ((id, i) ∷ cs) t =
      offer_all_queues e cs (offered e i (get_elem? t.connections i) t)
      ∙ offered_queues e i (get_elem? t.connections i) t
    where
      offered_queues :
          (e : SseEvent) (i : ℕ) (o : Option Connection) (t : SseTransport R)
          → (offered e i o t).message_queues ≡ t.message_queues
      offered_queues e i none t = refl
      offered_queues e i (some c) t = ground arith

  pub close_all_queues :
      (cs : Dict ℕ) (t : SseTransport R) → (close_all cs t).message_queues ≡ t.message_queues
  unfolding close_all
  close_all_queues [] t = refl
  close_all_queues ((id, i) ∷ cs) t =
      close_all_queues cs (closed i (get_elem? t.connections i) t)
      ∙ closed_queues i (get_elem? t.connections i) t
    where
      closed_queues :
          (i : ℕ) (o : Option Connection) (t : SseTransport R)
          → (closed i o t).message_queues ≡ t.message_queues
      closed_queues i none t = refl
      closed_queues i (some c) t = ground arith

  pub open_queues :
      (generated : Answer String) (now : ℕ) (header last : String) (t : SseTransport R)
      → (open_connection generated now header last t).message_queues ≡ t.message_queues
  unfolding open_connection
  open_queues generated now header last t = elim (Bool-cases (header == "")) [
    | inl new ↦ rw new (made last (create_session generated "sse" now t.session_manager))
    | inr old ↦ rw old (found (get_session header now t.session_manager))
  ]
    where
      made :
          (last : String) (x : SessionManager × Answer Session)
          → (with_session last x t).message_queues ≡ t.message_queues
      made last (sm, ok s) = refl
      made last (sm, err e) = refl

      found :
          (x : SessionManager × Option Session)
          → (with_found generated now header last x t).message_queues ≡ t.message_queues
      found (sm, none) = made last (create_session generated "sse" now sm)
      found (sm, some s) = refl

  -- The queue of a session holds what was sent and not yet delivered, and at most a hundred responses.
  pub record IsOrdered (id : String) (ls : List (Label R)) (m : Dict (List R)) : Type 0 where
    pub ordered : sent_to id ls ≡ delivered_to id ls ++ waiting id m
    pub bounded : length (waiting id m) ≤ queue_capacity

  pub IsOrdered-at :
      (id : String) (ls : List (Label R)) (m n : Dict (List R))
      → n ≡ m
      → IsOrdered id ls m
      → IsOrdered id (quiet ∷ ls) n
  unfolding sent_to delivered_to
  IsOrdered-at id ls m n e v = rw e (record { ordered = v.ordered; bounded = v.bounded })

  pub waiting-insert :
      (id j : String) (q : List R) (m : Dict (List R))
      → waiting id (insert j q m) ≡ (if j == id then q else waiting id m)
  unfolding waiting
  waiting-insert id j q m = ground (arith, lookup-insert id j q m)

  pub waiting-with_queue :
      (id j : String) (o : Option (List R)) (m : Dict (List R))
      → lookup j m ≡ o
      → waiting id (with_queue j o m) ≡ waiting id m
  unfolding waiting
  waiting-with_queue id j none m h = elim (Bool-cases (j == id)) [
    | inl same ↦
        let e : lookup id m ≡ none = rw (eq_of_test j id same) at h in
        ground (arith, lookup-insert id j [] m, same, e)
    | inr other ↦ ground (arith, lookup-insert id j [] m, other)
  ]
  waiting-with_queue id j (some q) m h = refl

  pub waiting_at :
      (id j : String) (q : List R) (m : Dict (List R))
      → (j == id) ≡ true
      → lookup j m ≡ some q
      → waiting id m ≡ q
  unfolding waiting
  waiting_at id j q m same h =
      let e : lookup id m ≡ some q = rw (eq_of_test j id same) at h in rw e refl
