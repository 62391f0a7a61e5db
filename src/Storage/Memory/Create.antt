-- ===== src/Storage/Memory/Create.antt =====
-- CreateEntities of internal/storage/memory.go: all or nothing, and what is found afterwards.
use mcp_memory_core.Base.{
  ◌≡◌, refl, ◌↔◌, ◌⊎◌, inl, inr, String, eq_iff, false, Option, none, some, List, [], ◌∷◌, arith,
  All, Option-cases,
}
use mcp_memory_core.Base.Dict.{Dict, lookup, insert, NodupKeys, lookup-insert, insert-NodupKeys}
use mcp_memory_core.Errors.{GoError}
use mcp_memory_core.Storage.{Entity, Ctx, last_with}
use mcp_memory_core.Storage.Memory.{
  MemoryBackend, is_blank, validate, store, commit, create_live, create_entities,
}

-- `o`, or `p` where it is none
abbrev pub or_else {ℓ} : {A : Type ℓ} → Option A → Option A → Option A
or_else none p = p
or_else (some a) p = some a

lookup-store :
    (k : String) (es : List Entity) (m : Dict Entity)
    → lookup k (store m es) ≡ or_else (last_with k es) (lookup k m)
unfolding store last_with
lookup-store k [] m = refl
lookup-store k (e ∷ es) m =
    ground (arith, lookup-store k es (insert e.id e m), lookup-insert k e.id e m, eq_iff e.id k)

-- After a batch is accepted, each ID of the batch holds the last entity with it, and every other
-- ID holds what it held.
pub lookup-create :
    (m m' : MemoryBackend) (ctx : Ctx) (es : List Entity) (k : String)
    → create_entities m ctx es ≡ (m', none)
    → lookup k m'.entities ≡ or_else (last_with k es) (lookup k m.entities)
unfolding create_entities last_with
lookup-create m m' ctx [] k h = ground arith
lookup-create m m' ctx (e ∷ es) k h = ground (arith, lookup-store k (e ∷ es) m.entities)

-- A batch that fails, whatever the reason, leaves the backend as it was.
pub create_atomic :
    (m m' : MemoryBackend) (ctx : Ctx) (es : List Entity) (failed : GoError)
    → create_entities m ctx es ≡ (m', some failed)
    → m' ≡ m
unfolding create_entities
create_atomic m m' ctx [] failed h = cc
create_atomic m m' ctx (e ∷ es) failed h = ground arith

-- The entity can be stored: its ID is not blank and not taken.
abbrev pub IsFresh : Dict Entity → Entity → Type 0
IsFresh m e = (is_blank e.id ≡ false) × (lookup e.id m ≡ none)

validate_iff : (m : Dict Entity) (es : List Entity) → (validate m es ≡ none) ↔ All (IsFresh m) es
unfolding validate
validate_iff m [] = (λ h. tt, λ h. refl)
validate_iff m (e ∷ es) =
    let ih = validate_iff m es in
    (
      λ h. (ground (arith, Option-cases (lookup e.id m)), ih.0 (ground arith)),
      λ h. ground (arith, ih.1 h.1),
    )

-- A call succeeds exactly on an empty batch, or with a live context and a batch in which every ID
-- is not blank and not taken. Two entities of one batch may share an ID.
pub create_succeeds_iff :
    (m : MemoryBackend) (ctx : Ctx) (es : List Entity)
    → ((create_entities m ctx es).1 ≡ none)
      ↔ ((es ≡ []) ⊎ ((ctx 0 ≡ none) × All (IsFresh m.entities) es))
unfolding create_entities
create_succeeds_iff m ctx [] = (λ h. inl refl, λ h. refl)
create_succeeds_iff m ctx (e ∷ es) =
    let v = validate_iff m.entities (e ∷ es) in
    (
      λ h. inr (ground arith, v.0 (ground arith)),
      elim [ inl h ↦ cc | inr h ↦ ground (arith, v.1 h.1) ],
    )

-- Every entity stands under its own ID, which is not blank.
abbrev pub IsKeyed : Dict Entity → Type 0
IsKeyed [] = Unit
IsKeyed ((k, e) ∷ m) = (e.id ≡ k) × (is_blank k ≡ false) × IsKeyed m

pub record IsValid (m : MemoryBackend) : Type 0 where
  pub unique : NodupKeys m.entities
  pub keyed : IsKeyed m.entities

insert-IsKeyed :
    (e : Entity) (m : Dict Entity) → is_blank e.id ≡ false → IsKeyed m → IsKeyed (insert e.id e m)
unfolding insert
insert-IsKeyed e [] b h = (refl, b, tt)
insert-IsKeyed e ((k, x) ∷ m) b h = ground (arith, eq_iff k e.id, insert-IsKeyed e m b h.2)

store-IsValid :
    (es : List Entity) (m : Dict Entity)
    → All (λ e. is_blank e.id ≡ false) es
    → NodupKeys m
    → IsKeyed m
    → NodupKeys (store m es) × IsKeyed (store m es)
unfolding store
store-IsValid [] m b n h = (n, h)
store-IsValid (e ∷ es) m b n h =
    store-IsValid es (insert e.id e m) b.1 (insert-NodupKeys e.id e m n) (insert-IsKeyed e m b.0 h)

named_of_fresh :
    (m : Dict Entity) (es : List Entity) → All (IsFresh m) es → All (λ e. is_blank e.id ≡ false) es
named_of_fresh m [] h = tt
named_of_fresh m (e ∷ es) h = (h.0.0, named_of_fresh m es h.1)

-- Every call keeps the map's keys distinct, each the ID of its entity and none of them blank.
pub create-IsValid :
    (m : MemoryBackend) (ctx : Ctx) (es : List Entity)
    → IsValid m
    → IsValid (create_entities m ctx es).0
unfolding create_entities
create-IsValid m ctx [] v = v
create-IsValid m ctx (e ∷ es) v = elim (Option-cases (ctx 0)) [
  | inl live ↦ elim (Option-cases (validate m.entities (e ∷ es))) [
    | inl passed ↦
        let fresh = (validate_iff m.entities (e ∷ es)).0 passed in
        let kept =
          store-IsValid (e ∷ es) m.entities (named_of_fresh m.entities (e ∷ es) fresh) v.unique
            v.keyed in
        rw (live, passed, create_entities, create_live, commit)
          (record { unique = kept.0; keyed = kept.1 })
    | inr (failed, x) ↦ rw (live, x, create_entities, create_live, commit) v
  ]
  | inr (done, x) ↦ rw (x, create_entities, create_live) v
]
