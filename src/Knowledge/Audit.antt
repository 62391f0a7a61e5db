-- ===== src/Knowledge/Audit.antt =====
-- The audit trail of memory__create_entities (internal/knowledge/manager.go).
use mathlib.Core.List.{append-nil, append_assoc}
use mcp_memory_core.Base.{◌≡◌, sym, ◌∙◌, some, List, [], ◌∷◌, map, arith}
use mathlib.Core.List.{◌++◌}
use mcp_memory_core.Base.Json.{Fields}
use mcp_memory_core.Storage.{Entity, Ctx, Answer, ok, err, Backend}
use mcp_memory_core.Knowledge.{AuditEvent, Env, entity_created, log_created}
use mcp_memory_core.Knowledge.Manager.{
  Manager, store_entities, store_prepared, create_batch, handle_create_entities,
}

log_created-map :
    (es : List Entity) (log : List AuditEvent) → log_created es log ≡ log ++ map entity_created es
unfolding log_created
log_created-map [] log = sym (append-nil log)
log_created-map (e ∷ es) log =
    log_created-map es (log ++ entity_created e ∷ [])
    ∙ append_assoc log (entity_created e ∷ []) (map entity_created es)

stored_log :
    (b : Backend) (batch : Answer (List Entity)) (ctx : Ctx) (m : Manager b) (log : List AuditEvent)
    (es : List Entity)
    → m.audit ≡ some log
    → batch ≡ ok es
    → (store_prepared b ctx batch m).0.audit ≡ some (log ++ map entity_created es)
unfolding store_entities
stored_log b (ok xs) ctx m log es logs prepared = ground (arith, log_created-map es log)
stored_log b (err e) ctx m log es logs prepared = cc

-- With an audit logger, every batch that reaches the storage adds one event of a successful
-- creation for each of its entities, in order, whether the storage then accepts it or not.
pub audit_before_storage :
    (b : Backend) (env : Env) (ctx : Ctx) (args : Fields) (m : Manager b) (log : List AuditEvent)
    (es : List Entity)
    → m.audit ≡ some log
    → create_batch b env ctx args ≡ ok es
    → (handle_create_entities b env ctx args m).0.audit ≡ some (log ++ map entity_created es)
unfolding handle_create_entities
audit_before_storage b env ctx args m log es logs prepared =
    stored_log b (create_batch b env ctx args) ctx m log es logs prepared
