-- ===== src/Transport/Http/Sessions.antt =====
-- The session of a request in handleRPC (internal/transport/http.go).
use mcp_memory_core.Base.{
  ℕ, ◌≡◌, ◌≢◌, refl, inl, inr, String, ◌==◌, eq_iff, ◌⊎◌, eq_of_test, Option, none, some, arith,
  Bool-cases, ne_of_test,
}
use mcp_memory_core.Base.Dict.{lookup, insert, lookup-insert}
use mcp_memory_core.Storage.{Answer, ok}
use mcp_memory_core.Transport.Session.{
  Session, SessionManager, new_session, create_session, get_session, touch,
}
use mcp_memory_core.Transport.Http.{ensure_session, opened, replaced}

-- How a request with a session header comes by its session, where a new ID can be generated.
pub data IsOpened (id : String) (now : ℕ) (header : String) (sm after : SessionManager)
    (reply : Answer (Option String)) : Type 0 where
  used :
      (s : Session)
      → header ≢ ""
      → lookup header sm.sessions ≡ some s
      → lookup header after.sessions ≡ some (record s { last_activity = now })
      → ((k : String) → k ≢ header → lookup k after.sessions ≡ lookup k sm.sessions)
      → reply ≡ ok none
      → IsOpened id now header sm after reply
  made :
      (header ≡ "") ⊎ (lookup header sm.sessions ≡ none)
      → lookup id after.sessions ≡ some (new_session id "http" now)
      → ((k : String) → k ≢ id → lookup k after.sessions ≡ lookup k sm.sessions)
      → reply ≡ ok (some id)
      → IsOpened id now header sm after reply

abbrev Opened :
    String → ℕ → String → SessionManager → SessionManager × Answer (Option String) → Type 0
Opened id now header sm (after, reply) = IsOpened id now header sm after reply

insert_same :
    (k : String) (s : Session) (sm : SessionManager) → lookup k (insert k s sm.sessions) ≡ some s
insert_same k s sm = ground (arith, lookup-insert k k s sm.sessions, eq_iff k k)

insert_other :
    (j k : String) (s : Session) (sm : SessionManager)
    → j ≢ k
    → lookup j (insert k s sm.sessions) ≡ lookup j sm.sessions
insert_other j k s sm h = ground (arith, lookup-insert j k s sm.sessions, eq_iff k j)

create_opens :
    (id : String) (now : ℕ) (header : String) (sm : SessionManager)
    → (header ≡ "") ⊎ (lookup header sm.sessions ≡ none)
    → Opened id now header sm (opened (create_session (ok id) "http" now sm))
unfolding create_session
create_opens id now header sm unnamed =
    let s = new_session id "http" now in
    made unnamed (insert_same id s sm) (λ k h. insert_other k id s sm h) refl

found_opens :
    (id : String) (now : ℕ) (header : String) (sm : SessionManager) (o : Option Session)
    → header ≢ ""
    → lookup header sm.sessions ≡ o
    → Opened id now header sm (replaced (ok id) now (touch header now o sm))
found_opens id now header sm none given h = create_opens id now header sm (inr h)
found_opens id now header sm (some s) given h =
    let t = record s { last_activity = now } in
    used s given h (insert_same header t sm) (λ k. insert_other k header t sm) refl

-- With a working source of IDs, a request whose session header names a session uses that session and
-- marks it active, and a request without a session header, or whose header names no session, gets a
-- new session whose ID goes into the reply's header. No other session changes.
pub ensure_session-IsOpened :
    (id : String) (now : ℕ) (header : String) (sm : SessionManager)
    → IsOpened id now header sm
        (ensure_session (ok id) now header sm).0
        (ensure_session (ok id) now header sm).1
unfolding ensure_session get_session
ensure_session-IsOpened id now header sm = elim (Bool-cases (header == "")) [
  | inl empty ↦ rw empty (create_opens id now header sm (inl (eq_of_test header "" empty)))
  | inr given ↦
      rw given
        (found_opens id now header sm (lookup header sm.sessions) (ne_of_test header "" given) refl)
]
