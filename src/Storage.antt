-- ===== src/Storage.antt =====
-- pkg/mcp/types.go and internal/storage/backend.go: the entities, contexts, and what the server
-- asks of a storage backend.
pub mod Lawful
pub mod Memory
pub mod Sqlite
pub mod Factory
use mcp_memory_core.Base.{
  ℕ, ◌+◌, ◌≡◌, String, ◌==◌, Bool, true, false, Option, none, some, List, [], ◌∷◌, is_some, eqb,
  if◌then◌else◌,
}
use mcp_memory_core.Base.Dict.{Dict}
use mcp_memory_core.Errors.{GoError, plain}

-- A time.Time as its distance from the zero time.
abbrev pub Time : Type 0
Time = ℕ

-- time.Time.IsZero
abbrev pub is_zero : Time → Bool
is_zero t = eqb t 0

pub record Entity : Type 0 where
  pub id : String
  pub name : String
  pub entity_type : String
  pub observations : List String
  pub created_at : Time
  pub updated_at : Time

-- ctx.Err() of a context that is done.
pub data CtxErr : Type 0 where
  canceled deadline_exceeded : CtxErr

-- A context, as what each successive poll of `ctx.Done()` finds during one call.
abbrev pub Ctx : Type 0
Ctx = ℕ → Option CtxErr

-- The context as a callee sees it after the caller has polled it `n` times.
abbrev pub later : ℕ → Ctx → Ctx
later n ctx = λ k. ctx (n + k)

unfoldable pub ctx_error : CtxErr → GoError
ctx_error canceled = plain "context canceled"
ctx_error deadline_exceeded = plain "context deadline exceeded"

-- The results (T, error) of a reading method.
pub data Answer {ℓ} (A : Type ℓ) : Type ℓ where
  ok : A → Answer A
  err : GoError → Answer A

-- The interface Backend. A reading method leaves the state alone.
pub record Backend : Type 1 where
  pub State : Type 0
  pub create_entities : State → Ctx → List Entity → State × Option GoError
  pub get_entity : State → Ctx → String → Answer (Option Entity)
  pub search_entities : State → Ctx → String → Answer (List Entity)
  pub get_statistics : State → Ctx → Answer (Dict ℕ)

-- The last entity of a batch with the given ID.
unfoldable pub last_with : String → List Entity → Option Entity
last_with k [] = none
last_with k (e ∷ es) =
    let rest = last_with k es in if is_some rest then rest else if e.id == k then some e else none

-- Equal in all but the creation time.
pub record SameContent (a b : Entity) : Type 0 where
  pub id : a.id ≡ b.id
  pub name : a.name ≡ b.name
  pub entity_type : a.entity_type ≡ b.entity_type
  pub observations : a.observations ≡ b.observations
  pub updated_at : a.updated_at ≡ b.updated_at
