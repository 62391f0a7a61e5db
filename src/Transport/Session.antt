-- ===== src/Transport/Session.antt =====
-- internal/transport/session.go: client sessions by ID. Times are Unix seconds that the caller
-- passes in, in place of time.Now(), and so are the random bytes of a new ID (crypto/rand).
-- A session's metadata, which nothing reads, is left out. The lock makes each method one step.
pub mod Expiry
pub mod Steps
use mcp_memory_core.Base.{
  ℕ, ◌+◌, ◌-◌, ◌<◌, String, Bool, true, false, Option, none, some, List, [], ◌∷◌, ltb,
  if◌then◌else◌,
}
use mcp_memory_core.Base.Dict.{Dict, lookup, insert, remove}
use mcp_memory_core.Errors.{GoError}
use mcp_memory_core.Storage.{Answer, ok, err}

pub record Session : Type 0 where
  pub id : String
  pub transport : String
  pub created_at : ℕ
  pub last_activity : ℕ

-- `timeout` is in seconds.
pub record SessionManager : Type 0 where
  pub sessions : Dict Session
  pub timeout : ℕ

unfoldable pub new_session_manager : ℕ → SessionManager
new_session_manager timeout = record { sessions = []; timeout = timeout }

abbrev pub new_session : String → String → ℕ → Session
new_session id transport now = record {
  id = id;
  transport = transport;
  created_at = now;
  last_activity = now;
}

-- `generated` is what generateSessionID returns.
unfoldable pub create_session :
    Answer String → String → ℕ → SessionManager → SessionManager × Answer Session
unfolding insert
create_session (err e) transport now sm = (sm, err e)
create_session (ok id) transport now sm =
    let session = new_session id transport now in
    (record sm { sessions = insert id session sm.sessions }, ok session)

abbrev pub touch : String → ℕ → Option Session → SessionManager → SessionManager × Option Session
touch id now none sm = (sm, none)
touch id now (some s) sm =
    let touched = record s { last_activity = now } in
    (record sm { sessions = insert id touched sm.sessions }, some touched)

-- A session that is found is marked as active.
unfoldable pub get_session : String → ℕ → SessionManager → SessionManager × Option Session
unfolding lookup insert
get_session id now sm = touch id now (lookup id sm.sessions) sm

unfoldable pub remove_session : String → SessionManager → SessionManager
unfolding remove
remove_session id sm = record sm { sessions = remove id sm.sessions }

-- now - LastActivity > timeout: a clock that runs backwards gives a negative age.
abbrev pub is_expired : ℕ → ℕ → Session → Bool
is_expired now timeout s = ltb (s.last_activity + timeout) now

unfoldable pub expired_ids : ℕ → ℕ → Dict Session → List String
expired_ids now timeout [] = []
expired_ids now timeout ((id, s) ∷ rest) =
    let others = expired_ids now timeout rest in
    if is_expired now timeout s then id ∷ others else others

-- The first half of a tick of cleanupExpiredSessions, under the read lock.
unfoldable pub collect_expired : ℕ → SessionManager → List String
unfolding expired_ids
collect_expired now sm = expired_ids now sm.timeout sm.sessions

-- The second half, which takes the lock anew for each session.
unfoldable pub remove_all : List String → SessionManager → SessionManager
unfolding remove_session
remove_all [] sm = sm
remove_all (id ∷ ids) sm = remove_all ids (remove_session id sm)

-- A tick that no other call comes between.
unfoldable pub cleanup_expired_sessions : ℕ → SessionManager → SessionManager
unfolding collect_expired remove_all
cleanup_expired_sessions now sm = remove_all (collect_expired now sm) sm

-- A SessionStore holds values by key.
abbrev pub SessionStore {ℓ} : Type ℓ → Type ℓ
SessionStore V = Dict V

module _ {ℓ} {V : Type ℓ} where
  unfoldable pub new_session_store : SessionStore V
  new_session_store = []

  unfoldable pub set_value : String → V → SessionStore V → SessionStore V
  unfolding insert
  set_value key value s = insert key value s

  unfoldable pub get_value : String → SessionStore V → Option V
  unfolding lookup
  get_value key s = lookup key s

  unfoldable pub delete_value : String → SessionStore V → SessionStore V
  unfolding remove
  delete_value key s = remove key s

  unfoldable pub clear : SessionStore V → SessionStore V
  clear s = []
