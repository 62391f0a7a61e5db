-- ===== src/Storage/Memory/Lawful.antt =====
-- The in-memory backend keeps the contract of a backend.
use Prim.Native.Char.{Char}
use mcp_memory_core.Base.{◌≡◌, refl, ap, String, Option, none, some, List, All, arith}
use mcp_memory_core.Base.Dict.{lookup}
use mcp_memory_core.Errors.{GoError}
use mcp_memory_core.Storage.{Entity, Ctx, ok, last_with, SameContent}
use mcp_memory_core.Storage.Lawful.{IsLawful, Implements}
use mcp_memory_core.Storage.Memory.{
  MemoryBackend, new_memory_backend, create_entities, get_entity, search_entities, memory_backend,
}
use mcp_memory_core.Storage.Memory.Create.{
  IsValid, lookup-create, create_atomic, create-IsValid, or_else,
}
use mcp_memory_core.Storage.Memory.Search.{All-weaken, search_sound}

after_failure :
    (m : MemoryBackend) (ctx : Ctx) (es : List Entity) (e : GoError)
    → (create_entities m ctx es).1 ≡ some e
    → (create_entities m ctx es).0 ≡ m
after_failure m ctx es e h = create_atomic m (create_entities m ctx es).0 ctx es e (ground arith)

after_success :
    (m : MemoryBackend) (ctx : Ctx) (es : List Entity) (k : String)
    → (create_entities m ctx es).1 ≡ none
    → lookup k (create_entities m ctx es).0.entities
      ≡ or_else (last_with k es) (lookup k m.entities)
after_success m ctx es k h = lookup-create m (create_entities m ctx es).0 ctx es k (ground arith)

pub found_of_search :
    (u : Char → Char) (m : MemoryBackend) (ctx : Ctx) (query : String) (es : List Entity)
    → IsValid m
    → search_entities u m ctx query ≡ ok es
    → All (λ e. lookup e.id m.entities ≡ some e) es
found_of_search u m ctx query es v h =
    All-weaken es (λ e hit. hit.0) (search_sound u query m ctx es v h)

pub same_after_failure :
    (m : MemoryBackend) (ctx : Ctx) (es : List Entity) (e : GoError) (k : String)
    → (create_entities m ctx es).1 ≡ some e
    → lookup k (create_entities m ctx es).0.entities ≡ lookup k m.entities
same_after_failure m ctx es e k h =
    ap (λ (x : MemoryBackend). lookup k x.entities) (after_failure m ctx es e h)

pub others_kept :
    (m : MemoryBackend) (ctx : Ctx) (es : List Entity) (k : String)
    → (create_entities m ctx es).1 ≡ none
    → last_with k es ≡ none
    → lookup k (create_entities m ctx es).0.entities ≡ lookup k m.entities
others_kept m ctx es k h absent = ground (arith, after_success m ctx es k h)

pub last_stored :
    (m : MemoryBackend) (ctx : Ctx) (es : List Entity) (k : String) (e : Entity)
    → (create_entities m ctx es).1 ≡ none
    → last_with k es ≡ some e
    → (x : Entity) × (lookup k (create_entities m ctx es).0.entities ≡ some x) × SameContent x e
last_stored m ctx es k e h last = (
  e,
  ground (arith, after_success m ctx es k h),
  record { id = refl; name = refl; entity_type = refl; observations = refl; updated_at = refl },
)

pub view_of_get :
    (m : MemoryBackend) (ctx : Ctx) (k : String) (o : Option Entity)
    → get_entity m ctx k ≡ ok o
    → o ≡ lookup k m.entities
unfolding get_entity
view_of_get m ctx k o h = ground arith

-- What a client finds under an ID.
abbrev pub entity_at : MemoryBackend → String → Option Entity
unfolding lookup
entity_at m k = lookup k m.entities

-- The laws of the interface, with the entity map as what a state shows and with the map's
-- well-formedness as the invariant, which the new backend has.
abbrev pub IsEntityMap : (Char → Char) → Type 0
unfolding memory_backend entity_at
IsEntityMap u = IsValid new_memory_backend × Implements (memory_backend u) IsValid entity_at

-- The backend keeps the laws of the interface with the entity map as what a state shows and with the
-- map's well-formedness as the invariant, which the new backend has: every ID has one entry, and every
-- entity stands under its own ID, which is not blank.
pub memory_backend-Implements : (u : Char → Char) → IsEntityMap u
unfolding memory_backend entity_at IsEntityMap
memory_backend-Implements u = (
  record { unique = tt; keyed = tt },
  record {
    create-Inv = create-IsValid;
    create_fails = same_after_failure;
    create_others = others_kept;
    create_stores = last_stored;
    get_views = view_of_get;
    search_views = found_of_search u;
  },
)

-- The contract as the clients know it.
unfoldable pub memory_laws : (u : Char → Char) → IsLawful (memory_backend u)
unfolding memory_backend IsEntityMap
memory_laws u = record { Inv = IsValid; view = entity_at; laws = (memory_backend-Implements u).1 }
