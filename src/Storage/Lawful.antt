-- ===== src/Storage/Lawful.antt =====
-- What the clients of the interface Backend (internal/storage/backend.go) rely on. A backend is seen
-- as a partial map from IDs to entities. An implementation may keep the creation time that an ID
-- had before, as the SQLite backend does, so what is stored is compared by its content.
use mcp_memory_core.Base.{◌≡◌, String, Option, none, some, List, All}
use mcp_memory_core.Errors.{GoError}
use mcp_memory_core.Storage.{Entity, Ctx, Backend, ok, last_with, SameContent}

-- The laws, for an invariant `Inv` of the states and the entities `view` that a state shows.
pub record Implements (b : Backend) (Inv : b.State → Type 0)
    (view : b.State → String → Option Entity) : Type 0 where
  pub create-Inv :
      (s : b.State) (ctx : Ctx) (es : List Entity) → Inv s → Inv (b.create_entities s ctx es).0
  pub create_fails :
      (s : b.State) (ctx : Ctx) (es : List Entity) (e : GoError) (k : String)
      → (b.create_entities s ctx es).1 ≡ some e
      → view (b.create_entities s ctx es).0 k ≡ view s k
  pub create_others :
      (s : b.State) (ctx : Ctx) (es : List Entity) (k : String)
      → (b.create_entities s ctx es).1 ≡ none
      → last_with k es ≡ none
      → view (b.create_entities s ctx es).0 k ≡ view s k
  pub create_stores :
      (s : b.State) (ctx : Ctx) (es : List Entity) (k : String) (e : Entity)
      → (b.create_entities s ctx es).1 ≡ none
      → last_with k es ≡ some e
      → (x : Entity) × (view (b.create_entities s ctx es).0 k ≡ some x) × SameContent x e
  pub get_views :
      (s : b.State) (ctx : Ctx) (k : String) (o : Option Entity)
      → b.get_entity s ctx k ≡ ok o
      → o ≡ view s k
  pub search_views :
      (s : b.State) (ctx : Ctx) (query : String) (es : List Entity)
      → Inv s
      → b.search_entities s ctx query ≡ ok es
      → All (λ e. view s e.id ≡ some e) es

-- What a client knows of a backend: the laws, for some invariant and some view.
pub record IsLawful (b : Backend) : Type 1 where
  pub Inv : b.State → Type 0
  pub view : b.State → String → Option Entity
  pub laws : Implements b Inv view
