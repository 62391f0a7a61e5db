-- ===== src/Knowledge/Manager.antt =====
-- The Manager of internal/knowledge/manager.go and its handlers, over any backend `b`.
use mcp_memory_core.Base.{ℕ, ◌+◌, String, ◌==◌, Option, none, some, List, length, if◌then◌else◌}
use Prim.Native.String.{◌++◌}
use mcp_memory_core.Base.Json.{Fields}
use mcp_memory_core.Errors.Codes.{storage_connection, transport_method_not_found}
use mcp_memory_core.Errors.{GoError, app, new, wrap_error}
use mcp_memory_core.Storage.{Entity, Ctx, later, Answer, ok, err, Backend}
use mcp_memory_core.Knowledge.{
  ToolResult, created, found, entity, statistics, AuditEvent, Env, encoded, poll, ◌>>=◌, live,
  storage_failed, string_arg, entities_arg, prepare, log_created,
}

-- `audit` is the log of the audit logger, or none when there is no audit logger.
pub record Manager (b : Backend) : Type 0 where
  pub storage : b.State
  pub audit : Option (List AuditEvent)

abbrev logged : List Entity → Option (List AuditEvent) → Option (List AuditEvent)
logged es none = none
logged es (some log) = some (log_created es log)

abbrev pub created_or_failed : ℕ → Option GoError → Answer ToolResult
created_or_failed n none = encoded (created n)
created_or_failed n (some e) =
    err (app (wrap_error e storage_connection "Failed to create entities"))

module _ (b : Backend) where
  -- The audit events are logged before the storage is called.
  unfoldable pub store_entities : Ctx → List Entity → Manager b → Manager b × Answer ToolResult
  unfolding log_created
  store_entities ctx es m =
      let stored = b.create_entities m.storage (later (1 + length es) ctx) es in
      (
        record m { storage = stored.0; audit = logged es m.audit },
        created_or_failed (length es) stored.1,
      )

  abbrev pub store_prepared : Ctx → Answer (List Entity) → Manager b → Manager b × Answer ToolResult
  store_prepared ctx (err e) m = (m, err e)
  store_prepared ctx (ok es) m = store_entities ctx es m

  unfoldable pub create_batch : Env → Ctx → Fields → Answer (List Entity)
  create_batch env ctx args = live (poll (ctx 0)) (do xs ← entities_arg args; prepare env ctx 0 xs)

  unfoldable pub handle_create_entities :
      Env → Ctx → Fields → Manager b → Manager b × Answer ToolResult
  unfolding create_batch
  handle_create_entities env ctx args m = store_prepared ctx (create_batch env ctx args) m

  unfoldable pub handle_search : Ctx → Fields → Manager b → Answer ToolResult
  unfolding string_arg poll
  handle_search ctx args m = live (poll (ctx 0)) (do
    query ← string_arg "query" args
    es ←
        storage_failed "Failed to search entities" (b.search_entities m.storage (later 1 ctx) query)
    encoded (found es (length es)))

  unfoldable pub handle_get_entity : Ctx → Fields → Manager b → Answer ToolResult
  unfolding string_arg poll
  handle_get_entity ctx args m = live (poll (ctx 0)) (do
    id ← string_arg "id" args
    o ← storage_failed "Failed to get entity" (b.get_entity m.storage (later 1 ctx) id)
    encoded (entity o))

  unfoldable pub handle_get_statistics : Ctx → Manager b → Answer ToolResult
  unfolding poll
  handle_get_statistics ctx m = live (poll (ctx 0)) (do
    stats ← storage_failed "Failed to get statistics" (b.get_statistics m.storage (later 1 ctx))
    encoded (statistics stats))

  unfoldable pub handle_call_tool :
      Env → Ctx → String → Fields → Manager b → Manager b × Answer ToolResult
  unfolding new
  handle_call_tool env ctx name args m =
      if name == "memory__create_entities"
      then handle_create_entities env ctx args m
      else if name == "memory__search"
      then (m, handle_search ctx args m)
      else if name == "memory__get_entity"
      then (m, handle_get_entity ctx args m)
      else if name == "memory__get_statistics"
      then (m, handle_get_statistics ctx m)
      else (m, err (app (new transport_method_not_found ("unknown tool: " ++ name))))
