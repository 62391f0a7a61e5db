-- ===== src/Knowledge/Dispatch.antt =====
-- Which tool calls are answered "method not found" (internal/knowledge/manager.go).
use Prim.Native.String.{◌++◌}
use mcp_memory_core.Base.{
  ℕ, suc, ◌+◌, ◌≡◌, refl, ap, ◌≢◌, ◌↔◌, String, ◌==◌, eq_iff, Bool, true, false, Option, none, some,
  List, arith, length, any, Bool-cases, inl, inr,
}
use mcp_memory_core.Base.Json.{Value, str, array, Items, empty, item, Fields, get}
use mcp_memory_core.Errors.Codes.{transport_method_not_found}
use mcp_memory_core.Errors.{GoError, app, plain, get_code, wrap_error, new}
use mcp_memory_core.Storage.{
  Entity, Ctx, CtxErr, canceled, deadline_exceeded, later, Answer, ok, err, Backend,
}
use mcp_memory_core.Knowledge.{
  ToolResult, created, found, entity, statistics, Env, encoded, poll, ◌>>=◌, live, storage_failed,
  string_arg, as_string, as_array, marshals, entities_arg, decoded, prepare, list_tools,
}
use mcp_memory_core.Knowledge.Manager.{
  Manager, created_or_failed, store_entities, store_prepared, create_batch, handle_create_entities,
  handle_search, handle_get_entity, handle_get_statistics, handle_call_tool,
}

-- No error, or one with another code.
abbrev IsOther {ℓ} : {A : Type ℓ} → Answer A → Type 0
IsOther (ok a) = Unit
IsOther (err e) = get_code (some e) ≢ transport_method_not_found

bind-IsOther {ℓ κ} :
    {A : Type ℓ} {B : Type κ} (r : Answer A) (f : A → Answer B)
    → IsOther r
    → ((a : A) → IsOther (f a))
    → IsOther (r >>= f)
bind-IsOther (ok a) f h k = k a
bind-IsOther (err e) f h k = h

live-IsOther {ℓ} :
    {A : Type ℓ} (c : Option CtxErr) (r : Answer A) → IsOther r → IsOther (live (poll c) r)
unfolding poll get_code
live-IsOther none r h = h
live-IsOther (some canceled) r h = λ e. cc
live-IsOther (some deadline_exceeded) r h = λ e. cc

storage_failed-IsOther {ℓ} :
    {A : Type ℓ} (text : String) (r : Answer A) → IsOther (storage_failed text r)
unfolding wrap_error get_code
storage_failed-IsOther text (ok a) = tt
storage_failed-IsOther text (err (plain s)) = λ e. cc
storage_failed-IsOther text (err (app a)) = λ e. cc

encoded-IsOther : (r : ToolResult) → IsOther (encoded r)
unfolding encoded get_code
encoded-IsOther r = elim (Bool-cases (marshals r)) [
  | inl e ↦ rw (e, encoded) tt
  | inr e ↦ rw (e, encoded) (λ h. cc)
]

as_string-IsOther : (name : String) (o : Option Value) → IsOther (as_string name o)
unfolding as_string get_code
as_string-IsOther name none = λ e. cc
as_string-IsOther name (some (str s)) = tt
as_string-IsOther name (some v) = λ e. cc

as_array-IsOther : (name : String) (o : Option Value) → IsOther (as_array name o)
unfolding as_array get_code
as_array-IsOther name none = λ e. cc
as_array-IsOther name (some (array xs)) = tt
as_array-IsOther name (some v) = λ e. cc

decoded-IsOther : (env : Env) (i : ℕ) (d : Answer Entity) → IsOther (decoded env i d)
unfolding wrap_error get_code
decoded-IsOther env i (ok e) = tt
decoded-IsOther env i (err (plain s)) = λ e. cc
decoded-IsOther env i (err (app a)) = λ e. cc

prepare-IsOther : (env : Env) (ctx : Ctx) (i : ℕ) (vs : Items) → IsOther (prepare env ctx i vs)
unfolding prepare
prepare-IsOther env ctx i empty = tt
prepare-IsOther env ctx i (item v vs) =
    bind-IsOther (live (poll (ctx (1 + i))) (decoded env i (env.decode v))) _
      (live-IsOther (ctx (1 + i)) _ (decoded-IsOther env i (env.decode v)))
      (λ e.
        bind-IsOther (prepare env ctx (suc i) vs) _ (prepare-IsOther env ctx (suc i) vs) (λ es. tt))

created-IsOther : (n : ℕ) (o : Option GoError) → IsOther (created_or_failed n o)
unfolding wrap_error get_code
created-IsOther n none = encoded-IsOther (created n)
created-IsOther n (some (plain s)) = λ e. cc
created-IsOther n (some (app a)) = λ e. cc

module _ (b : Backend) where
  store-IsOther :
      (batch : Answer (List Entity)) (ctx : Ctx) (m : Manager b)
      → IsOther batch
      → IsOther (store_prepared b ctx batch m).1
  unfolding store_entities
  store-IsOther (ok es) ctx m h = created-IsOther (length es) _
  store-IsOther (err e) ctx m h = h

  create-IsOther :
      (env : Env) (ctx : Ctx) (args : Fields) (m : Manager b)
      → IsOther (handle_create_entities b env ctx args m).1
  unfolding handle_create_entities create_batch entities_arg
  create-IsOther env ctx args m = store-IsOther (create_batch b env ctx args) ctx m (
      live-IsOther (ctx 0) _ (
        bind-IsOther (entities_arg args) (prepare env ctx 0)
          (as_array-IsOther "entities" (get "entities" args)) (prepare-IsOther env ctx 0)))

  search-IsOther :
      (ctx : Ctx) (args : Fields) (m : Manager b) → IsOther (handle_search b ctx args m)
  unfolding handle_search string_arg
  search-IsOther ctx args m = live-IsOther (ctx 0) _ (
      bind-IsOther (string_arg "query" args) _ (as_string-IsOther "query" (get "query" args))
        λ query.
          bind-IsOther _ _
            (storage_failed-IsOther _ (b.search_entities m.storage (later 1 ctx) query))
            (λ es. encoded-IsOther (found es (length es))))

  get-IsOther :
      (ctx : Ctx) (args : Fields) (m : Manager b) → IsOther (handle_get_entity b ctx args m)
  unfolding handle_get_entity string_arg
  get-IsOther ctx args m = live-IsOther (ctx 0) _ (
      bind-IsOther (string_arg "id" args) _ (as_string-IsOther "id" (get "id" args)) λ id.
        bind-IsOther _ _ (storage_failed-IsOther _ (b.get_entity m.storage (later 1 ctx) id))
          (λ o. encoded-IsOther (entity o)))

  statistics-IsOther : (ctx : Ctx) (m : Manager b) → IsOther (handle_get_statistics b ctx m)
  unfolding handle_get_statistics
  statistics-IsOther ctx m = live-IsOther (ctx 0) _ (
      bind-IsOther _ _ (storage_failed-IsOther _ (b.get_statistics m.storage (later 1 ctx)))
        (λ s. encoded-IsOther (statistics s)))

-- HandleListTools has a tool of the name.
abbrev pub is_listed : String → Bool
is_listed name = any (λ t. t.name == name) list_tools

ne_of_other :
    (r : Answer ToolResult)
    → IsOther r
    → (e : GoError) → r ≡ err e
    → get_code (some e) ≢ transport_method_not_found
ne_of_other (ok a) h e q = absurd (cc q)
ne_of_other (err x) h e q = λ c. h (cc (c, q))

listed-IsOther :
    (b : Backend) (env : Env) (ctx : Ctx) (name : String) (args : Fields) (m : Manager b)
    → is_listed name ≡ true
    → IsOther (handle_call_tool b env ctx name args m).1
unfolding handle_call_tool list_tools
listed-IsOther b env ctx name args m h = elim (Bool-cases (name == "memory__create_entities")) [
  | inl e ↦ rw e (create-IsOther b env ctx args m)
  | inr e₁ ↦ rw e₁ (elim (Bool-cases (name == "memory__search")) [
    | inl e ↦ rw e (search-IsOther b ctx args m)
    | inr e₂ ↦ rw e₂ (elim (Bool-cases (name == "memory__get_entity")) [
      | inl e ↦ rw e (get-IsOther b ctx args m)
      | inr e₃ ↦ rw e₃ (elim (Bool-cases (name == "memory__get_statistics")) [
        | inl e ↦ rw e (statistics-IsOther b ctx m)
        | inr e₄ ↦ absurd (
            ground (
              arith,
              eq_iff name "memory__create_entities",
              eq_iff "memory__create_entities" name,
              eq_iff name "memory__search",
              eq_iff "memory__search" name,
              eq_iff name "memory__get_entity",
              eq_iff "memory__get_entity" name,
              eq_iff name "memory__get_statistics",
              eq_iff "memory__get_statistics" name,
            ))
      ])
    ])
  ])
]

unlisted_call :
    (b : Backend) (env : Env) (ctx : Ctx) (name : String) (args : Fields) (m : Manager b)
    → is_listed name ≡ false
    → (e : GoError) × (handle_call_tool b env ctx name args m ≡ (m, err e))
      × (get_code (some e) ≡ transport_method_not_found)
unfolding handle_call_tool get_code list_tools
unlisted_call b env ctx name args m h = (
  app (new transport_method_not_found ("unknown tool: " ++ name)),
  ground (
    arith,
    eq_iff name "memory__create_entities",
    eq_iff "memory__create_entities" name,
    eq_iff name "memory__search",
    eq_iff "memory__search" name,
    eq_iff name "memory__get_entity",
    eq_iff "memory__get_entity" name,
    eq_iff name "memory__get_statistics",
    eq_iff "memory__get_statistics" name,
  ),
  refl,
)

-- A tool call leaves the manager as it was and answers an error with the code "method not found"
-- exactly when its name is not that of a tool that HandleListTools lists.
pub method_not_found_iff :
    (b : Backend) (env : Env) (ctx : Ctx) (name : String) (args : Fields) (m : Manager b)
    → ((e : GoError) × (handle_call_tool b env ctx name args m ≡ (m, err e))
        × (get_code (some e) ≡ transport_method_not_found))
      ↔ (is_listed name ≡ false)
method_not_found_iff b env ctx name args m = (
  λ (e, answered, missing). elim (Bool-cases (is_listed name)) [
    | inl listed ↦ absurd (
        ne_of_other (handle_call_tool b env ctx name args m).1
          (listed-IsOther b env ctx name args m listed) e (ap (λ r. r.1) answered) missing)
    | inr unlisted ↦ unlisted
  ],
  unlisted_call b env ctx name args m,
)
