-- ===== src/Transport/Session/Steps.antt =====
-- The session manager of internal/transport/session.go under interleaved calls: each method is one
-- step, and a tick of cleanupExpiredSessions is a step that collects, followed by one step for each
-- session it removes, with any other steps in between.
use mcp_memory_core.Base.{
  ℕ, ◌≤◌, ◌≡◌, refl, subst, inl, inr, eq_of_test, String, ◌==◌, Option, none, some, List, [], ◌∷◌,
  arith, Bool-cases,
}
use mcp_memory_core.Base.Dict.{
  NodupKeys, lookup, insert, lookup-insert, lookup-remove, insert-NodupKeys, remove-NodupKeys,
}
use mcp_memory_core.Storage.{Answer, ok, err}
use mcp_memory_core.Transport.Session.{
  Session, SessionManager, new_session, new_session_manager, collect_expired, remove_session,
  create_session, get_session, touch,
}

-- `pending` are the IDs that a tick has collected and not yet removed.
pub record State : Type 0 where
  pub manager : SessionManager
  pub pending : List String
  pub clock : ℕ

pub data Step (s : State) : State → Type 0 where
  waits : (later : ℕ) → s.clock ≤ later → Step s (record s { clock = later })
  creates :
      (generated : Answer String) (transport : String)
      → Step s (record s { manager = (create_session generated transport s.clock s.manager).0 })
  gets : (id : String) → Step s (record s { manager = (get_session id s.clock s.manager).0 })
  removes : (id : String) → Step s (record s { manager = remove_session id s.manager })
  collects : s.pending ≡ [] → Step s (record s { pending = collect_expired s.clock s.manager })
  sweeps :
      (id : String) (ids : List String)
      → s.pending ≡ id ∷ ids
      → Step s (record s { manager = remove_session id s.manager; pending = ids })

pub data Reachable (timeout : ℕ) : State → Type 0 where
  starts :
      (now : ℕ)
      → Reachable timeout
          (record { manager = new_session_manager timeout; pending = []; clock = now })
  follows : (s t : State) → Reachable timeout s → Step s t → Reachable timeout t

-- The session stands under its own ID and was created, and last used, in the past.
pub record IsDated (now : ℕ) (id : String) (x : Session) : Type 0 where
  pub keyed : x.id ≡ id
  pub ordered : x.created_at ≤ x.last_activity
  pub past : x.last_activity ≤ now

pub record IsValid (m : SessionManager) (now : ℕ) : Type 0 where
  pub nodup : NodupKeys m.sessions
  pub dated : (id : String) (x : Session) → lookup id m.sessions ≡ some x → IsDated now id x

IsDated-at :
    (now : ℕ) (id j : String) (x y : Session)
    → id ≡ j
    → some x ≡ some y
    → IsDated now id x
    → IsDated now j y
IsDated-at now id j x y p h d = subst (IsDated now j) (cc h) (subst (λ k. IsDated now k x) p d)

insert-IsDated :
    (m : SessionManager) (now : ℕ) (id j : String) (x y : Session)
    → IsValid m now
    → IsDated now id x
    → lookup j (insert id x m.sessions) ≡ some y
    → IsDated now j y
insert-IsDated m now id j x y v d h = elim (Bool-cases (id == j)) [
  | inl same ↦
      IsDated-at now id j x y (eq_of_test id j same)
        (ground (arith, lookup-insert j id x m.sessions)) d
  | inr other ↦ v.dated j y (ground (arith, lookup-insert j id x m.sessions))
]

insert-IsValid :
    (m : SessionManager) (now : ℕ) (id : String) (x : Session)
    → IsValid m now
    → IsDated now id x
    → IsValid (record m { sessions = insert id x m.sessions }) now
insert-IsValid m now id x v d = record {
  nodup = insert-NodupKeys id x m.sessions v.nodup;
  dated = λ j y. insert-IsDated m now id j x y v d;
}

remove-IsValid :
    (m : SessionManager) (now : ℕ) (id : String) → IsValid m now → IsValid (remove_session id m) now
unfolding remove_session
remove-IsValid m now id v = record {
  nodup = remove-NodupKeys id m.sessions v.nodup;
  dated = λ j y h. v.dated j y (ground (arith, lookup-remove j id m.sessions));
}

create-IsValid :
    (generated : Answer String) (transport : String) (now : ℕ) (m : SessionManager)
    → IsValid m now
    → IsValid (create_session generated transport now m).0 now
unfolding create_session
create-IsValid (err e) transport now m v = v
create-IsValid (ok id) transport now m v =
    insert-IsValid m now id (new_session id transport now) v
      (record { keyed = refl; ordered = omega arith; past = omega arith })

touch-IsValid :
    (id : String) (now : ℕ) (o : Option Session) (m : SessionManager)
    → lookup id m.sessions ≡ o
    → IsValid m now
    → IsValid (touch id now o m).0 now
touch-IsValid id now none m h v = v
touch-IsValid id now (some x) m h v =
    let d = v.dated id x h in
    insert-IsValid m now id (record x { last_activity = now }) v
      (record { keyed = d.keyed; ordered = omega (arith, d.ordered, d.past); past = omega arith })

wait-IsValid : (m : SessionManager) (now later : ℕ) → now ≤ later → IsValid m now → IsValid m later
wait-IsValid m now later h v = record {
  nodup = v.nodup;
  dated = λ id x found.
      let d = v.dated id x found in
      record { keyed = d.keyed; ordered = d.ordered; past = omega (arith, d.past, h) };
}

Step-IsValid : (s t : State) → Step s t → IsValid s.manager s.clock → IsValid t.manager t.clock
unfolding get_session
Step-IsValid s _ (waits later h) v = wait-IsValid s.manager s.clock later h v
Step-IsValid s _ (creates generated transport) v =
    create-IsValid generated transport s.clock s.manager v
Step-IsValid s _ (gets id) v =
    touch-IsValid id s.clock (lookup id s.manager.sessions) s.manager refl v
Step-IsValid s _ (removes id) v = remove-IsValid s.manager s.clock id v
Step-IsValid s _ (collects h) v = v
Step-IsValid s _ (sweeps id ids h) v = remove-IsValid s.manager s.clock id v

-- However the calls of a session manager and the ticks of its cleanup interleave, no ID stands twice,
-- every session stands under its own ID, and none was used before its creation or in the future,
-- while the clock never runs backwards.
pub reachable-IsValid : (timeout : ℕ) (s : State) → Reachable timeout s → IsValid s.manager s.clock
unfolding new_session_manager lookup
reachable-IsValid timeout _ (starts now) = record { nodup = tt; dated = λ id x h. absurd (cc h) }
reachable-IsValid timeout _ (follows s t r h) = Step-IsValid s t h (reachable-IsValid timeout s r)
