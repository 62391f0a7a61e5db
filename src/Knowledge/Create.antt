-- ===== src/Knowledge/Create.antt =====
-- What memory__create_entities makes of its arguments (internal/knowledge/manager.go).
use mcp_memory_core.Base.{
  ℕ, suc, ◌+◌, ◌≡◌, refl, ap, ◌≢◌, eq_iff, Option, none, some, List, [], ◌∷◌, arith, length, All,
}
use mcp_memory_core.Base.Json.{Items, empty, item, Fields}
use mcp_memory_core.Errors.{GoError}
use mcp_memory_core.Storage.{Entity, Ctx, Answer, ok, err, Backend}
use mcp_memory_core.Knowledge.{Env, poll, ◌>>=◌, live, entities_arg, complete, decoded, prepare}
use mcp_memory_core.Knowledge.Manager.{create_batch}

abbrev pub count_items : Items → ℕ
count_items empty = 0
count_items (item v vs) = suc (count_items vs)

-- One round of the loop, where the whole loop succeeds.
round :
    (env : Env) (i : ℕ) (p : Option GoError) (d : Answer Entity) (r : Answer (List Entity))
    (es : List Entity)
    → (live p (decoded env i d) >>= λ e. r >>= λ rest. ok (e ∷ rest)) ≡ ok es
    → (x : Entity) × (rest : List Entity) × (es ≡ complete env i x ∷ rest) × (r ≡ ok rest)
round env i none (ok x) (ok rest) es h = (x, rest, ground arith, refl)
round env i none (ok x) (err e) es h = absurd (cc h)
round env i none (err e) r es h = absurd (cc h)
round env i (some e) (ok x) r es h = absurd (cc h)
round env i (some e) (err f) r es h = absurd (cc h)

-- What a prepared entity satisfies: it has an ID, it is stamped with the time of the call, and it
-- has a creation time.
abbrev pub IsPrepared : Env → Entity → Type 0
IsPrepared env e = (e.id ≢ "") × (e.updated_at ≡ env.now) × (e.created_at ≢ 0)

complete-IsPrepared :
    (env : Env) (i : ℕ) (e : Entity)
    → env.uuid i ≢ ""
    → env.now ≢ 0
    → IsPrepared env (complete env i e)
unfolding complete
complete-IsPrepared env i e named stamped =
    (λ empty_id. ground (arith, eq_iff e.id ""), refl, λ zero_time. ground arith)

module _ (env : Env) (named : (i : ℕ) → env.uuid i ≢ "") (stamped : env.now ≢ 0) where
  IsPrepared-All :
      (ctx : Ctx) (i : ℕ) (vs : Items) (es : List Entity)
      → prepare env ctx i vs ≡ ok es
      → All (IsPrepared env) es × (length es ≡ count_items vs)
  unfolding prepare
  IsPrepared-All ctx i empty [] h = (tt, refl)
  IsPrepared-All ctx i empty (e ∷ es) h = absurd (cc h)
  IsPrepared-All ctx i (item v vs) es h =
      let (x, rest, split, later_ok) =
        round env i (poll (ctx (1 + i))) (env.decode v) (prepare env ctx (suc i) vs) es h in
      let (all_rest, count_rest) = IsPrepared-All ctx (suc i) vs rest later_ok in
      rw split ((complete-IsPrepared env i x (named i) stamped, all_rest), ap suc count_rest)

  batch-IsPrepared :
      (p : Option GoError) (a : Answer Items) (ctx : Ctx) (es : List Entity)
      → live p (a >>= prepare env ctx 0) ≡ ok es
      → (vs : Items) × (a ≡ ok vs) × All (IsPrepared env) es × (length es ≡ count_items vs)
  batch-IsPrepared none (ok vs) ctx es h =
      let (all_es, count) = IsPrepared-All ctx 0 vs es h in (vs, refl, all_es, count)
  batch-IsPrepared none (err e) ctx es h = absurd (cc h)
  batch-IsPrepared (some e) (ok vs) ctx es h = absurd (cc h)
  batch-IsPrepared (some e) (err f) ctx es h = absurd (cc h)

  -- Where the UUIDs are not empty and the clock is past the zero time: a batch that is handed to
  -- the storage has one entity for each element of the argument "entities", each with an ID, with
  -- the call's time as its update time, and with a creation time.
  pub create_batch-IsPrepared :
      (b : Backend) (ctx : Ctx) (args : Fields) (es : List Entity)
      → create_batch b env ctx args ≡ ok es
      → (vs : Items) × (entities_arg args ≡ ok vs)
        × All (IsPrepared env) es
        × (length es ≡ count_items vs)
  unfolding create_batch
  create_batch-IsPrepared b ctx args es h =
      batch-IsPrepared (poll (ctx 0)) (entities_arg args) ctx es h
