-- ===== src/Storage/Memory.antt =====
-- internal/storage/memory.go: the in-memory backend. Logging and timers are left out; every method
-- holds the lock for its whole body, so a call is one step. `u` is the table of `unicode.ToLower`.
pub mod Create
pub mod Lawful
pub mod Search
pub mod Statistics
use Prim.Native.Char.{Char}
use Prim.Native.String.{◌++◌}
use mcp_memory_core.Base.{
  ℕ, ◌+◌, String, ◌==◌, Bool, ◌||◌, true, false, Option, none, some, List, [], ◌∷◌, length, any,
  is_some, if◌then◌else◌,
}
use mcp_memory_core.Base.Text.{contains, to_lower, trim_space}
use mcp_memory_core.Base.Dict.{Dict, lookup, insert}
use mcp_memory_core.Errors.Codes.{validation_required, entity_already_exists}
use mcp_memory_core.Errors.{GoError, app, AppError, new}
use mcp_memory_core.Storage.{Entity, Ctx, CtxErr, ctx_error, Answer, ok, err, Backend}

pub record MemoryBackend : Type 0 where
  pub entities : Dict Entity

abbrev pub new_memory_backend : MemoryBackend
new_memory_backend = record { entities = [] }

-- strings.TrimSpace(id) == ""
unfoldable pub is_blank : String → Bool
unfolding trim_space
is_blank id = trim_space id == ""

-- The validation loop, which returns at the first entity that fails.
unfoldable pub validate : Dict Entity → List Entity → Option AppError
unfolding is_blank new
validate m [] = none
validate m (e ∷ es) =
    let rest = validate m es in
    if is_blank e.id
    then some (new validation_required "Entity ID cannot be empty or whitespace-only")
    else if is_some (lookup e.id m)
    then some (new entity_already_exists ("Entity with ID '" ++ e.id ++ "' already exists"))
    else rest

-- The loop that stores the entities.
unfoldable pub store : Dict Entity → List Entity → Dict Entity
unfolding insert
store m [] = m
store m (e ∷ es) = store (insert e.id e m) es

commit : MemoryBackend → List Entity → Option AppError → MemoryBackend × Option GoError
commit m es (some failed) = (m, some (app failed))
commit m es none = (record { entities = store m.entities es }, none)

create_live : MemoryBackend → List Entity → Option CtxErr → MemoryBackend × Option GoError
unfolding commit
create_live m es (some done) = (m, some (ctx_error done))
create_live m es none = commit m es (validate m.entities es)

unfoldable pub create_entities : MemoryBackend → Ctx → List Entity → MemoryBackend × Option GoError
unfolding create_live
create_entities m ctx [] = (m, none)
create_entities m ctx (e ∷ es) = create_live m (e ∷ es) (ctx 0)

-- The early return of the reading methods when the context is done.
abbrev answer_live {ℓ} : {A : Type ℓ} → Option CtxErr → A → Answer A
answer_live (some done) a = err (ctx_error done)
answer_live none a = ok a

unfoldable pub get_entity : MemoryBackend → Ctx → String → Answer (Option Entity)
get_entity m ctx id = answer_live (ctx 0) (lookup id m.entities)

unfoldable pub contains_ignore_case : (Char → Char) → String → String → Bool
contains_ignore_case u s t = contains (to_lower u s) (to_lower u t)

-- The name or some observation contains the query.
unfoldable pub matches : (Char → Char) → String → Entity → Bool
unfolding contains_ignore_case
matches u query e =
    contains_ignore_case u e.name query
    || any (λ obs. contains_ignore_case u obs query) e.observations

unfoldable pub search : (Char → Char) → String → Dict Entity → List Entity
search u query [] = []
search u query ((k, e) ∷ m) =
    let rest = search u query m in if matches u query e then e ∷ rest else rest

unfoldable pub search_entities : (Char → Char) → MemoryBackend → Ctx → String → Answer (List Entity)
search_entities u m ctx query = answer_live (ctx 0) (search u query m.entities)

abbrev count_or_zero : Option ℕ → ℕ
count_or_zero none = 0
count_or_zero (some n) = n

-- typeCounts[t]++, unless t is empty
unfoldable pub bump : String → Dict ℕ → Dict ℕ
unfolding lookup insert
bump t counts = if t == "" then counts else insert t (count_or_zero (lookup t counts) + 1) counts

unfoldable pub type_counts : Dict Entity → Dict ℕ → Dict ℕ
unfolding bump
type_counts [] counts = counts
type_counts ((k, e) ∷ m) counts = type_counts m (bump e.entity_type counts)

unfoldable pub add_types : Dict ℕ → Dict ℕ → Dict ℕ
unfolding insert
add_types [] stats = stats
add_types ((t, n) ∷ counts) stats = add_types counts (insert ("type_" ++ t) n stats)

unfoldable pub statistics : Dict Entity → Dict ℕ
unfolding type_counts add_types
statistics m = add_types (type_counts m []) (("entities", length m) ∷ [])

unfoldable pub get_statistics : MemoryBackend → Ctx → Answer (Dict ℕ)
get_statistics m ctx = answer_live (ctx 0) (statistics m.entities)

unfoldable pub memory_backend : (Char → Char) → Backend
memory_backend u = record {
  State = MemoryBackend;
  create_entities = create_entities;
  get_entity = get_entity;
  search_entities = search_entities u;
  get_statistics = get_statistics;
}
