-- ===== src/Transport/Sse/Steps/Valid.antt =====
-- What keeps the clients and the event channels valid (internal/transport/sse.go): the loops over the
-- clients, and a change of one connection.
use mcp_memory_core.Base.{
  ℕ, ◌≤◌, ◌≡◌, refl, ◌∙◌, inl, inr, String, true, false, Option, none, some, List, [], ◌∷◌, ltb,
  length, length-append, get_elem?, set, arith, Bool-cases,
}
use mathlib.Core.List.{◌++◌}
use mcp_memory_core.Base.Dict.{Dict}
use mcp_memory_core.Transport.Sse.{
  SseTransport, Connection, SseEvent, Phase, greeted, registered, serving, unregistered, gone,
  greet, offer_all, offered, close_all, closed, is_gone, event_capacity,
}
use mcp_memory_core.Transport.Sse.Steps.Registry.{
  is_live, IsClient, AllClients, HaveRoom, IsLike, set-AllClients, set-HaveRoom, append-AllClients,
  append-HaveRoom,
}

-- Every entry of the map is a connection of its session that has not left, and every event channel
-- holds at most ten events.
pub record IsValid (cs : List Connection) (m : Dict ℕ) : Type 0 where
  pub clients : AllClients cs m
  pub room : HaveRoom cs

pub put-IsValid :
    (cs : List Connection) (m : Dict ℕ) (i : ℕ) (c d : Connection)
    → get_elem? cs i ≡ some c
    → IsLike c d
    → length d.events ≤ event_capacity
    → IsValid cs m
    → IsValid (set cs i d) m
put-IsValid cs m i c d h l few v = record {
  clients = set-AllClients cs i c d m h l v.clients;
  room = set-HaveRoom cs i c d h few v.room;
}

pub append-IsValid :
    (cs : List Connection) (m : Dict ℕ) (id last : String) (frames : List String)
    → IsValid cs m
    → IsValid (cs ++ (greet id last frames ∷ [])) m
append-IsValid cs m id last frames v = record {
  clients = append-AllClients cs (greet id last frames ∷ []) m v.clients;
  room = append-HaveRoom cs (greet id last frames) (omega arith) v.room;
}

module _ {R : Type 0} where
  -- A send to a live client does not panic.
  offered-IsValid :
      (e : SseEvent) (i : ℕ) (id : String) (o : Option Connection) (t : SseTransport R) (m : Dict ℕ)
      → get_elem? t.connections i ≡ o
      → IsClient t.connections id i
      → IsValid t.connections m
      → IsValid (offered e i o t).connections m × ((offered e i o t).panicked ≡ t.panicked)
  offered-IsValid e i id none t m h w v = absurd (cc (h, w.here))
  offered-IsValid e i id (some c) t m h w v =
      let x : w.connection ≡ c = cc (h, w.here) in
      let open_ : is_gone c.phase ≡ false = live_open c.phase (rw x at w.live) in
      elim (Bool-cases (ltb (length c.events) event_capacity)) [
        | inl room ↦
            rw (open_, room)
              (
                put-IsValid t.connections m i c (record c { events = c.events ++ (e ∷ []) }) h
                    (record { same = refl; live = λ l. l })
                    (ground (arith, length-append c.events (e ∷ []), room)) v,
                refl,
              )
        | inr full ↦ rw (open_, full) (v, refl)
      ]
    where
      live_open : (p : Phase) → is_live p ≡ true → is_gone p ≡ false
      live_open greeted l = absurd (cc l)
      live_open registered l = refl
      live_open serving l = refl
      live_open unregistered l = absurd (cc l)
      live_open gone l = absurd (cc l)

  pub offer_all-IsValid :
      (e : SseEvent) (cs : Dict ℕ) (t : SseTransport R) (m : Dict ℕ)
      → IsValid t.connections cs
      → IsValid t.connections m
      → IsValid (offer_all e cs t).connections m × ((offer_all e cs t).panicked ≡ t.panicked)
  unfolding offer_all
  offer_all-IsValid e [] t m w v = (v, refl)
  offer_all-IsValid e ((id, i) ∷ cs) t m w v =
      let o = get_elem? t.connections i in
      let rest : IsValid t.connections cs = record { clients = w.clients.1; room = w.room } in
      let a = offered-IsValid e i id o t m refl w.clients.0 v in
      let b = offered-IsValid e i id o t cs refl w.clients.0 rest in
      let c = offer_all-IsValid e cs (offered e i o t) m b.0 a.0 in (c.0, c.1 ∙ a.1)

  closed-IsValid :
      (i : ℕ) (o : Option Connection) (t : SseTransport R) (m : Dict ℕ)
      → get_elem? t.connections i ≡ o
      → IsValid t.connections m
      → IsValid (closed i o t).connections m
  closed-IsValid i none t m h v = v
  closed-IsValid i (some c) t m h v = elim (Bool-cases c.done_closed) [
    | inl done ↦ rw done v
    | inr waiting ↦ rw waiting (
        put-IsValid t.connections m i c (record c { done_closed = true }) h
          (record { same = refl; live = λ l. l }) (v.room i c h) v)
  ]

  pub close_all-IsValid :
      (cs : Dict ℕ) (t : SseTransport R) (m : Dict ℕ)
      → IsValid t.connections m
      → IsValid (close_all cs t).connections m
  unfolding close_all
  close_all-IsValid [] t m v = v
  close_all-IsValid ((id, i) ∷ cs) t m v =
      close_all-IsValid cs (closed i (get_elem? t.connections i) t) m
        (closed-IsValid i (get_elem? t.connections i) t m refl v)

  pub offer_all_clients :
      (e : SseEvent) (cs : Dict ℕ) (t : SseTransport R) → (offer_all e cs t).clients ≡ t.clients
  unfolding offer_all
  offer_all_clients e [] t = refl
  offer_all_clients e ((id, i) ∷ cs) t =
      offer_all_clients e cs (offered e i (get_elem? t.connections i) t)
      ∙ one (get_elem? t.connections i)
    where
      one : (o : Option Connection) → (offered e i o t).clients ≡ t.clients
      one none = refl
      one (some c) = ground arith

  pub close_all_clients : (cs : Dict ℕ) (t : SseTransport R) → (close_all cs t).clients ≡ t.clients
  unfolding close_all
  close_all_clients [] t = refl
  close_all_clients ((id, i) ∷ cs) t =
      close_all_clients cs (closed i (get_elem? t.connections i) t)
      ∙ one (get_elem? t.connections i)
    where
      one : (o : Option Connection) → (closed i o t).clients ≡ t.clients
      one none = refl
      one (some c) = ground arith
