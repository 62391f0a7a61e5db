-- ===== src/Transport/Sse/Steps/Registry.antt =====
-- The map of the clients and their event channels (internal/transport/sse.go).
use native.Mathlib.Decide.{ℕ_discrete}
use mcp_memory_core.Base.{
  ℕ, ◌≤◌, ◌≡◌, ◌≢◌, sym, subst, ◌∙◌, inl, inr, String, ◌==◌, eq_of_test, eq_refl, Bool, true, false,
  some, List, [], ◌∷◌, length, get_elem?, set, get_elem?-set_self, get_elem?-set_other,
  get_elem?-append_one, get_elem?-append, All, Bool-cases,
}
use mathlib.Core.List.{◌++◌}
use mcp_memory_core.Base.Dict.{Dict, insert, remove}
use mcp_memory_core.Transport.Sse.{
  Connection, Phase, greeted, registered, serving, unregistered, gone, event_capacity,
}

-- The handler has registered the client and not yet left the map.
abbrev pub is_live : Phase → Bool
is_live greeted = false
is_live registered = true
is_live serving = true
is_live unregistered = false
is_live gone = false

-- The position is that of a live connection of the session.
pub record IsClient (cs : List Connection) (id : String) (i : ℕ) : Type 0 where
  pub connection : Connection
  pub here : get_elem? cs i ≡ some connection
  pub same : connection.session_id ≡ id
  pub live : is_live connection.phase ≡ true

abbrev pub AllClients : List Connection → Dict ℕ → Type 0
AllClients cs m = All (λ (e : String × ℕ). IsClient cs e.0 e.1) m

abbrev pub HaveRoom : List Connection → Type 0
HaveRoom cs = (i : ℕ) (c : Connection) → get_elem? cs i ≡ some c → length c.events ≤ event_capacity

-- A connection as it may change without leaving the map.
pub record IsLike (c d : Connection) : Type 0 where
  pub same : d.session_id ≡ c.session_id
  pub live : is_live c.phase ≡ true → is_live d.phase ≡ true

pub set-IsClient :
    (cs : List Connection) (i : ℕ) (c d : Connection) (id : String) (k : ℕ)
    → get_elem? cs i ≡ some c
    → IsLike c d
    → IsClient cs id k
    → IsClient (set cs i d) id k
set-IsClient cs i c d id k h l v = elim (ℕ_discrete i k) [
  | yes e ↦
      let found : get_elem? cs i ≡ some v.connection = rw e v.here in
      let x : c ≡ v.connection = cc (h, found) in
      record {
        connection = d;
        here = rw (sym e) (get_elem?-set_self cs i d c h);
        same = l.same ∙ rw x v.same;
        live = l.live (rw x v.live);
      }
  | no n ↦ record {
    connection = v.connection;
    here = get_elem?-set_other cs i k d n ∙ v.here;
    same = v.same;
    live = v.live;
  }
]

pub set-AllClients :
    (cs : List Connection) (i : ℕ) (c d : Connection) (m : Dict ℕ)
    → get_elem? cs i ≡ some c
    → IsLike c d
    → AllClients cs m
    → AllClients (set cs i d) m
set-AllClients cs i c d [] h l v = tt
set-AllClients cs i c d ((id, k) ∷ m) h l v =
    (set-IsClient cs i c d id k h l v.0, set-AllClients cs i c d m h l v.1)

pub set-HaveRoom :
    (cs : List Connection) (i : ℕ) (c d : Connection)
    → get_elem? cs i ≡ some c
    → length d.events ≤ event_capacity
    → HaveRoom cs
    → HaveRoom (set cs i d)
set-HaveRoom cs i c d h few v = λ k x found. elim (ℕ_discrete i k) [
  | yes e ↦
      let new : get_elem? (set cs i d) i ≡ some x =
        subst (λ j. get_elem? (set cs i d) j ≡ some x) (sym e) found in
      let y : d ≡ x = cc (new, get_elem?-set_self cs i d c h) in
      subst (λ (z : Connection). length z.events ≤ event_capacity) y few
  | no n ↦ v k x (sym (get_elem?-set_other cs i k d n) ∙ found)
]

pub append-AllClients :
    (cs ds : List Connection) (m : Dict ℕ) → AllClients cs m → AllClients (cs ++ ds) m
append-AllClients cs ds [] v = tt
append-AllClients cs ds ((id, k) ∷ m) v = (
  record {
    connection = v.0.connection;
    here = get_elem?-append cs ds v.0.connection k v.0.here;
    same = v.0.same;
    live = v.0.live;
  },
  append-AllClients cs ds m v.1,
)

pub append-HaveRoom :
    (cs : List Connection) (d : Connection)
    → length d.events ≤ event_capacity
    → HaveRoom cs
    → HaveRoom (cs ++ (d ∷ []))
append-HaveRoom cs d few v = λ k x found. elim (get_elem?-append_one cs d x k found) [
  | inl old ↦ v k x old
  | inr new ↦ subst (λ (z : Connection). length z.events ≤ event_capacity) new.1 few
]

pub insert-AllClients :
    (cs : List Connection) (id : String) (i : ℕ) (m : Dict ℕ)
    → IsClient cs id i
    → AllClients cs m
    → AllClients cs (insert id i m)
unfolding insert
insert-AllClients cs id i [] w v = (w, tt)
insert-AllClients cs id i ((j, k) ∷ m) w v = elim (Bool-cases (j == id)) [
  | inl same ↦ rw same (subst (λ s. IsClient cs s i) (sym (eq_of_test j id same)) w, v.1)
  | inr other ↦ rw other (v.0, insert-AllClients cs id i m w v.1)
]

-- Without the entries of its session, a connection may change as it likes.
pub remove-AllClients :
    (cs : List Connection) (i : ℕ) (c d : Connection) (m : Dict ℕ)
    → get_elem? cs i ≡ some c
    → AllClients cs m
    → AllClients (set cs i d) (remove c.session_id m)
unfolding remove
remove-AllClients cs i c d [] h v = tt
remove-AllClients cs i c d ((j, k) ∷ m) h v = elim (Bool-cases (j == c.session_id)) [
  | inl same ↦ rw same (remove-AllClients cs i c d m h v.1)
  | inr other ↦
      let w = v.0 in
      let apart : i ≢ k = λ e.
        let found : get_elem? cs i ≡ some w.connection = rw e w.here in
        let x : c ≡ w.connection = cc (h, found) in
        let s : c.session_id ≡ j = rw x w.same in
        let t : (j == c.session_id) ≡ true = rw s (eq_refl j) in cc (t, other) in
      rw other (
        record {
          connection = w.connection;
          here = get_elem?-set_other cs i k d apart ∙ w.here;
          same = w.same;
          live = w.live;
        },
        remove-AllClients cs i c d m h v.1,
      )
]
