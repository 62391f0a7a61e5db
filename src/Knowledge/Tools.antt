-- ===== src/Knowledge/Tools.antt =====
-- The tool calls of internal/knowledge/manager.go over a lawful backend.
use mcp_memory_core.Base.{
  ℕ, ◌+◌, ◌≡◌, refl, inl, inr, String, ◌==◌, Option, none, some, List, arith, length, All,
  Bool-cases, Option-cases,
}
use mcp_memory_core.Base.Json.{Fields}
use mcp_memory_core.Errors.{GoError}
use mcp_memory_core.Storage.{Entity, Ctx, later, Answer, ok, err, Backend, last_with, SameContent}
use mcp_memory_core.Storage.Lawful.{IsLawful}
use mcp_memory_core.Knowledge.{
  ToolResult, created, found, entity, Env, encoded, poll, ◌>>=◌, live, storage_failed, string_arg,
}
use mcp_memory_core.Knowledge.Manager.{
  Manager, store_entities, store_prepared, create_batch, handle_create_entities, handle_search,
  handle_get_entity, handle_call_tool,
}

-- A call of the other tools leaves the manager alone.
call_cases {ℓ} :
    (b : Backend) (P : Manager b × Answer ToolResult → Type ℓ) (env : Env) (ctx : Ctx)
    (name : String) (args : Fields) (m : Manager b)
    → P (handle_create_entities b env ctx args m)
    → ((r : Answer ToolResult) → P (m, r))
    → P (handle_call_tool b env ctx name args m)
unfolding handle_call_tool
call_cases b P env ctx name args m creates reads =
    elim (Bool-cases (name == "memory__create_entities")) [
      | inl e ↦ rw e creates
      | inr e ↦ rw e (elim (Bool-cases (name == "memory__search")) [
        | inl e ↦ rw e (reads _)
        | inr e ↦ rw e (elim (Bool-cases (name == "memory__get_entity")) [
          | inl e ↦ rw e (reads _)
          | inr e ↦ rw e (elim (Bool-cases (name == "memory__get_statistics")) [
            | inl e ↦ rw e (reads _)
            | inr e ↦ rw e (reads _)
          ])
        ])
      ])
    ]

encoded-created : (n : ℕ) → encoded (created n) ≡ ok (created n)
unfolding encoded
encoded-created n = refl

module _ (b : Backend) (l : IsLawful b) where
  -- The map of entities that the client sees.
  abbrev pub stored : Manager b → String → Option Entity
  stored m = l.view m.storage

  failed_store_keeps :
      (ctx : Ctx) (es : List Entity) (m : Manager b) (e : GoError) (k : String)
      → (store_entities b ctx es m).1 ≡ err e
      → stored (store_entities b ctx es m).0 k ≡ stored m k
  unfolding store_entities
  failed_store_keeps ctx es m e k h =
      elim (Option-cases (b.create_entities m.storage (later (1 + length es) ctx) es).1) [
        | inl fine ↦ ground (arith, encoded-created (length es))
        | inr (failed, x) ↦ l.laws.create_fails m.storage (later (1 + length es) ctx) es failed k x
      ]

  failed_create_keeps :
      (batch : Answer (List Entity)) (ctx : Ctx) (m : Manager b) (e : GoError) (k : String)
      → (store_prepared b ctx batch m).1 ≡ err e
      → stored (store_prepared b ctx batch m).0 k ≡ stored m k
  failed_create_keeps (ok es) ctx m e k h = failed_store_keeps ctx es m e k h
  failed_create_keeps (err x) ctx m e k h = refl

  -- A tool call that answers an error, whichever tool and whatever the reason, changes no entity.
  pub failed_call_keeps :
      (env : Env) (ctx : Ctx) (name : String) (args : Fields) (m : Manager b) (e : GoError)
      (k : String)
      → (handle_call_tool b env ctx name args m).1 ≡ err e
      → stored (handle_call_tool b env ctx name args m).0 k ≡ stored m k
  unfolding handle_create_entities
  failed_call_keeps env ctx name args m e k =
      call_cases b (λ r. r.1 ≡ err e → stored r.0 k ≡ stored m k) env ctx name args m
        (failed_create_keeps (create_batch b env ctx args) ctx m e k) (λ r h. refl)

encoded_same : (r s : ToolResult) → encoded r ≡ ok s → s ≡ r
unfolding encoded
encoded_same r s h = ground arith

module _ (b : Backend) (l : IsLawful b) where
  answered_entity :
      (a : Answer (Option Entity)) (o : Option Entity) (failed : Option GoError) (text : String)
      (r : ToolResult)
      → ((x : Option Entity) → a ≡ ok x → x ≡ o)
      → live failed (storage_failed text a >>= λ x. encoded (entity x)) ≡ ok r
      → r ≡ entity o
  answered_entity (ok x) o none text r same h = rw (← same x refl) (encoded_same (entity x) r h)
  answered_entity (ok x) o (some e) text r same h = cc
  answered_entity (err e) o none text r same h = cc
  answered_entity (err e) o (some f) text r same h = cc

  -- memory__get_entity, where it succeeds, answers what the backend holds under the ID.
  get_answers :
      (ctx : Ctx) (args : Fields) (m : Manager b) (k : String) (r : ToolResult)
      → string_arg "id" args ≡ ok k
      → handle_get_entity b ctx args m ≡ ok r
      → r ≡ entity (stored b l m k)
  unfolding handle_get_entity
  get_answers ctx args m k r named h =
      answered_entity (b.get_entity m.storage (later 1 ctx) k) (stored b l m k) (poll (ctx 0))
        "Failed to get entity" r (λ x. l.laws.get_views m.storage (later 1 ctx) k x) (rw named at h)

  stored_entity :
      (batch : Answer (List Entity)) (ctx : Ctx) (m : Manager b) (r : ToolResult) (es : List Entity)
      (k : String) (e : Entity)
      → (store_prepared b ctx batch m).1 ≡ ok r
      → batch ≡ ok es
      → last_with k es ≡ some e
      → (x : Entity) × (stored b l (store_prepared b ctx batch m).0 k ≡ some x) × SameContent x e
  unfolding store_entities
  stored_entity (err f) ctx m r es k e h prepared last = cc
  stored_entity (ok xs) ctx m r es k e h prepared last =
      elim (Option-cases (b.create_entities m.storage (later (1 + length xs) ctx) xs).1) [
        | inl fine ↦
            l.laws.create_stores m.storage (later (1 + length xs) ctx) xs k e fine (ground arith)
        | inr (failed, x) ↦ absurd (cc (x, h))
      ]

  -- After memory__create_entities succeeds, memory__get_entity of an ID of the batch, where it
  -- succeeds, answers the last entity of the batch with that ID, up to its creation time.
  pub create_then_get :
      (env : Env) (ctx later_ctx : Ctx) (args query : Fields) (m : Manager b) (r s : ToolResult)
      (es : List Entity) (k : String) (e : Entity)
      → (handle_create_entities b env ctx args m).1 ≡ ok r
      → create_batch b env ctx args ≡ ok es
      → last_with k es ≡ some e
      → string_arg "id" query ≡ ok k
      → handle_get_entity b later_ctx query (handle_create_entities b env ctx args m).0 ≡ ok s
      → (x : Entity) × (s ≡ entity (some x)) × SameContent x e
  unfolding handle_create_entities
  create_then_get env ctx later_ctx args query m r s es k e made prepared last named got =
      let (x, at_k, same) =
        stored_entity (create_batch b env ctx args) ctx m r es k e made prepared last in
      (x, rw (← at_k) (get_answers later_ctx query _ k s named got), same)

  found_stored :
      (a : Answer (List Entity)) (m : Manager b) (failed : Option GoError) (text : String)
      (r : ToolResult)
      → ((xs : List Entity) → a ≡ ok xs → All (λ e. stored b l m e.id ≡ some e) xs)
      → live failed (storage_failed text a >>= λ xs. encoded (found xs (length xs))) ≡ ok r
      → (xs : List Entity) × (r ≡ found xs (length xs)) × All (λ e. stored b l m e.id ≡ some e) xs
  found_stored (ok xs) m none text r all_stored h =
      (xs, encoded_same (found xs (length xs)) r h, all_stored xs refl)
  found_stored (ok xs) m (some e) text r all_stored h = absurd (cc h)
  found_stored (err e) m none text r all_stored h = absurd (cc h)
  found_stored (err e) m (some f) text r all_stored h = absurd (cc h)

  -- memory__search, where it succeeds, answers a list of stored entities and its length.
  pub search_answers :
      (ctx : Ctx) (args : Fields) (m : Manager b) (query : String) (r : ToolResult)
      → l.Inv m.storage
      → string_arg "query" args ≡ ok query
      → handle_search b ctx args m ≡ ok r
      → (xs : List Entity) × (r ≡ found xs (length xs)) × All (λ e. stored b l m e.id ≡ some e) xs
  unfolding handle_search
  search_answers ctx args m query r v named h =
      found_stored (b.search_entities m.storage (later 1 ctx) query) m (poll (ctx 0))
        "Failed to search entities" r (λ xs. l.laws.search_views m.storage (later 1 ctx) query xs v)
        (rw named at h)
