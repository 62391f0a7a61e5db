-- ===== src/Knowledge.antt =====
-- internal/knowledge/manager.go: the tools, over any storage backend. The response's encoding is
-- checked, and the audit events are kept in the order in which they are logged; other logging and
-- the timers are left out.
pub mod Manager
pub mod Tools
pub mod Create
pub mod Dispatch
pub mod Audit
use Prim.Native.String.{◌++◌}
use mcp_memory_core.Base.{
  ℕ, suc, ◌+◌, ◌*◌, String, ◌==◌, Bool, true, false, ◌&&◌, Option, none, some, List, [], ◌∷◌,
  length, all, is_some, ltb, if◌then◌else◌,
}
use mathlib.Core.List.{◌++◌ as append}
use mcp_memory_core.Base.Dict.{Dict}
use mcp_memory_core.Base.Decimal.{decimal}
use mcp_memory_core.Base.Json.{Value, str, array, Items, empty, item, Fields, get}
use mcp_memory_core.Errors.Codes.{
  context_timeout, context_canceled, validation_invalid, storage_connection, transport_marshal,
  transport_method_not_found,
}
use mcp_memory_core.Errors.{GoError, plain, app, AppError, new, required, invalid, wrap_error}
use mcp_memory_core.Storage.{
  Time, is_zero, Entity, Ctx, CtxErr, canceled, deadline_exceeded, later, Answer, ok, err, Backend,
}

pub record McpTool : Type 0 where
  pub name : String
  pub description : String

unfoldable pub list_tools : List McpTool
list_tools =
    record {
      name = "memory__create_entities";
      description = "Create new entities in the knowledge base";
    }
    ∷ record { name = "memory__search"; description = "Search for entities in the knowledge base" }
    ∷ record {
      name = "memory__get_entity";
      description = "Get a specific entity by ID from the knowledge base";
    }
    ∷ record {
      name = "memory__get_statistics";
      description = "Get statistics about the knowledge base";
    }
    ∷ []

-- The results of the tools: {"success", "count"}, {"entities", "count"}, an entity or null, and the
-- statistics.
pub data ToolResult : Type 0 where
  created : ℕ → ToolResult
  found : List Entity → ℕ → ToolResult
  entity : Option Entity → ToolResult
  statistics : Dict ℕ → ToolResult

-- What AuditLogger.LogEntityCreated writes of an entity. Its Result is always "success".
pub record AuditEvent : Type 0 where
  pub event_type : String
  pub resource_id : String
  pub result : String
  pub entity_type : String
  pub entity_name : String
  pub observations_count : ℕ

-- Code that is not the repository's, and the clock: `mapstructure.Decode` into an Entity, the UUIDs
-- of a call by the position of the entity that needs one, and `time.Now()`.
pub record Env : Type 0 where
  pub decode : Value → Answer Entity
  pub uuid : ℕ → String
  pub now : Time

-- The zero of the year 10000, in nanoseconds from the zero time.
abbrev year_10000 : ℕ
year_10000 = 3652059 * 86400 * 1000000000

unfoldable pub encodes : Entity → Bool
encodes e = ltb e.created_at year_10000 && ltb e.updated_at year_10000

abbrev encodes_option : Option Entity → Bool
encodes_option none = true
encodes_option (some e) = encodes e

-- Whether json.Marshal of the response succeeds: it refuses a time past the year 9999.
unfoldable pub marshals : ToolResult → Bool
unfolding encodes
marshals (created n) = true
marshals (found es n) = all encodes es
marshals (entity o) = encodes_option o
marshals (statistics m) = true

marshal_error : GoError
marshal_error =
    plain
      "json: error calling MarshalJSON for type time.Time: Time.MarshalJSON: year outside of range [0,9999]"

unfoldable pub encoded : ToolResult → Answer ToolResult
unfolding marshals wrap_error marshal_error
encoded r =
    if marshals r
    then ok r
    else err (app (wrap_error marshal_error transport_marshal "Failed to encode response"))

-- The check of the context: `none` to go on.
unfoldable pub poll : Option CtxErr → Option GoError
unfolding new
poll none = none
poll (some deadline_exceeded) = some (app (new context_timeout "Operation timed out"))
poll (some canceled) = some (app (new context_canceled "Operation canceled"))

infixl 5 ◌>>=◌
abbrev pub ◌>>=◌ {ℓ κ} : {A : Type ℓ} {B : Type κ} → Answer A → (A → Answer B) → Answer B
ok a >>= f = f a
err e >>= f = err e

abbrev pub live {ℓ} : {A : Type ℓ} → Option GoError → Answer A → Answer A
live none r = r
live (some e) r = err e

-- An error of the storage, wrapped.
abbrev pub storage_failed {ℓ} : {A : Type ℓ} → String → Answer A → Answer A
storage_failed message (ok a) = ok a
storage_failed message (err e) = err (app (wrap_error e storage_connection message))

-- The type assertion `.(string)` of what the map has under the name.
unfoldable pub as_string : String → Option Value → Answer String
unfolding required invalid
as_string name none = err (app (required name))
as_string name (some (str s)) = ok s
as_string name (some v) = err (app (invalid name "must be a string"))

unfoldable pub string_arg : String → Fields → Answer String
unfolding as_string get
string_arg name args = as_string name (get name args)

-- The type assertion `.([]interface{})`.
unfoldable pub as_array : String → Option Value → Answer Items
unfolding required invalid
as_array name none = err (app (required name))
as_array name (some (array xs)) = ok xs
as_array name (some v) = err (app (invalid name "must be an array"))

unfoldable pub entities_arg : Fields → Answer Items
unfolding as_array get
entities_arg args = as_array "entities" (get "entities" args)

module _ (env : Env) where
  -- The ID and the timestamps of a decoded entity.
  unfoldable pub complete : ℕ → Entity → Entity
  complete i e = record e {
    id = if e.id == "" then env.uuid i else e.id;
    created_at = if is_zero e.created_at then env.now else e.created_at;
    updated_at = env.now;
  }

  abbrev pub decoded : ℕ → Answer Entity → Answer Entity
  decoded i (ok e) = ok (complete i e)
  decoded i (err e) =
      err (app (wrap_error e validation_invalid ("failed to decode entity at index " ++ decimal i)))

  -- The loop over the raw entities from index `i` on, with a poll of the context before each.
  unfoldable pub prepare : Ctx → ℕ → Items → Answer (List Entity)
  unfolding complete poll wrap_error
  prepare ctx i empty = ok []
  prepare ctx i (item v vs) = do
    e ← live (poll (ctx (1 + i))) (decoded i (env.decode v))
    es ← prepare ctx (suc i) vs
    ok (e ∷ es)

-- The audit event of an entity.
unfoldable pub entity_created : Entity → AuditEvent
entity_created e = record {
  event_type = "entity.created";
  resource_id = e.id;
  result = "success";
  entity_type = e.entity_type;
  entity_name = e.name;
  observations_count = length e.observations;
}

unfoldable pub log_created : List Entity → List AuditEvent → List AuditEvent
unfolding entity_created
log_created [] log = log
log_created (e ∷ es) log = log_created es (append log (entity_created e ∷ []))
