-- ===== src/Transport/Session/Expiry.antt =====
-- What a tick of cleanupExpiredSessions (internal/transport/session.go) removes.
use mcp_memory_core.Base.{
  ℕ, ◌≡◌, refl, ap, ◌∙◌, String, ◌==◌, eq_iff, Bool, true, false, Option, none, some, List, [], ◌∷◌,
  arith, any, if◌then◌else◌,
}
use mcp_memory_core.Base.Dict.{Dict, NodupKeys, lookup, lookup-remove}
use mcp_memory_core.Transport.Session.{
  Session, SessionManager, is_expired, expired_ids, collect_expired, remove_session, remove_all,
  cleanup_expired_sessions, get_session, touch,
}

-- The ID is in the list.
abbrev pub listed : String → List String → Bool
listed id ids = any (λ k. k == id) ids

pub lookup-remove_all :
    (id : String) (ids : List String) (sm : SessionManager)
    → lookup id (remove_all ids sm).sessions
      ≡ (if listed id ids then none else lookup id sm.sessions)
unfolding remove_all remove_session
lookup-remove_all id [] sm = refl
lookup-remove_all id (k ∷ ks) sm =
    ground (arith, lookup-remove_all id ks (remove_session k sm), lookup-remove id k sm.sessions)

-- What is left of a session after a tick.
abbrev pub survivor : ℕ → ℕ → Option Session → Option Session
survivor now timeout none = none
survivor now timeout (some s) = if is_expired now timeout s then none else some s

-- Whether a session is there and has expired.
abbrev pub has_expired : ℕ → ℕ → Option Session → Bool
has_expired now timeout none = false
has_expired now timeout (some s) = is_expired now timeout s

listed-expired :
    (id : String) (now timeout : ℕ) (m : Dict Session)
    → NodupKeys m
    → listed id (expired_ids now timeout m) ≡ has_expired now timeout (lookup id m)
unfolding expired_ids lookup
listed-expired id now timeout [] h = refl
listed-expired id now timeout ((k, s) ∷ m) h =
    ground
      (arith, eq_iff k id, listed-expired id now timeout m h.1, ap (has_expired now timeout) h.0)

survives :
    (now timeout : ℕ) (o : Option Session)
    → (if has_expired now timeout o then none else o) ≡ survivor now timeout o
survives now timeout none = refl
survives now timeout (some s) = refl

-- A tick that no other call comes between removes exactly the sessions whose last activity is more
-- than the timeout ago, and leaves every other one as it was.
pub cleanup_exact :
    (id : String) (now : ℕ) (sm : SessionManager)
    → NodupKeys sm.sessions
    → lookup id (cleanup_expired_sessions now sm).sessions
      ≡ survivor now sm.timeout (lookup id sm.sessions)
unfolding cleanup_expired_sessions collect_expired
cleanup_exact id now sm h =
    lookup-remove_all id (collect_expired now sm) sm
    ∙ ap (λ gone. if gone then none else lookup id sm.sessions)
        (listed-expired id now sm.timeout sm.sessions h)
    ∙ survives now sm.timeout (lookup id sm.sessions)

touched_some :
    (id : String) (now : ℕ) (o : Option Session) (s : Session) (sm : SessionManager)
    → o ≡ some s
    → (touch id now o sm).1 ≡ some (record s { last_activity = now })
touched_some id now (some t) s sm h = ground arith
touched_some id now none s sm h = cc

-- A session that had expired when the tick collected its ID, and that a client used between the
-- tick's two halves, is removed although the client got it, active as of that use.
pub refreshed_session_removed :
    (id : String) (now used : ℕ) (s : Session) (sm : SessionManager)
    → NodupKeys sm.sessions
    → lookup id sm.sessions ≡ some s
    → is_expired now sm.timeout s ≡ true
    → ((get_session id used sm).1 ≡ some (record s { last_activity = used }))
      × (lookup id (remove_all (collect_expired now sm) (get_session id used sm).0).sessions ≡ none)
unfolding get_session collect_expired
refreshed_session_removed id now used s sm h held expired = (
  touched_some id used (lookup id sm.sessions) s sm held,
  ground (
    arith,
    lookup-remove_all id (collect_expired now sm) (get_session id used sm).0,
    listed-expired id now sm.timeout sm.sessions h,
  ),
)
