-- ===== src/Logging/Audit/Events.antt =====
-- The events that the helpers of pkg/logging/audit.go log.
use Prim.Native.Nat.{◌/◌}
use mcp_memory_core.Base.{◌+◌, String, ◌==◌, Option, none, some, List, [], ◌∷◌, if◌then◌else◌}
use mcp_memory_core.Base.Int.{ℤ, pos, negsuc, neg}
use mcp_memory_core.Base.Json.{Value, str, object, Fields}
use mcp_memory_core.Base.Dict.{Dict}
use mcp_memory_core.Logging.Audit.{AuditEvent, Changes}

-- A struct literal's fields that are not given are zero.
abbrev pub event : String → String → String → String → Dict Value → List String → AuditEvent
event type resource action result details tags = record {
  timestamp = 0;
  event_id = "";
  event_type = type;
  event_source = "";
  request_id = "";
  trace_id = "";
  session_id = "";
  user_id = "";
  actor_ip = "";
  user_agent = "";
  resource = resource;
  resource_id = "";
  action = action;
  result = result;
  duration = pos 0;
  changes = none;
  details = some details;
  tags = tags;
  severity = "";
  risk = "";
  compliance = [];
  checksum = "";
  version = "";
}

unfoldable pub entity_created_event : String → String → Fields → AuditEvent
entity_created_event type id details =
    record (event "entity.created" "entity" "create" "success"
      (("entity_type", str type) ∷ ("details", object details) ∷ [])
      ("data_modification" ∷ "creation" ∷ [])) { resource_id = id }

unfoldable pub entity_updated_event : String → String → Option Changes → AuditEvent
entity_updated_event type id changes =
    record (event "entity.updated" "entity" "update" "success" (("entity_type", str type) ∷ [])
      ("data_modification" ∷ "update" ∷ [])) { resource_id = id; changes = changes }

unfoldable pub entity_deleted_event : String → String → AuditEvent
entity_deleted_event type id =
    record (event "entity.deleted" "entity" "delete" "success" (("entity_type", str type) ∷ [])
      ("data_modification" ∷ "deletion" ∷ [])) { resource_id = id; severity = "critical" }

unfoldable pub relation_created_event : String → String → String → AuditEvent
relation_created_event source target type =
    event "relation.created" "relation" "create" "success"
      (("from_entity", str source) ∷ ("to_entity", str target) ∷ ("relation_type", str type) ∷ [])
      ("data_modification" ∷ "relation" ∷ [])

unfoldable pub observation_added_event : String → String → AuditEvent
observation_added_event id observation =
    record (event "observation.added" "observation" "create" "success"
      (("entity_id", str id) ∷ ("observation", str observation) ∷ [])
      ("data_modification" ∷ "observation" ∷ [])) { resource_id = id }

-- Duration.Milliseconds of nanoseconds.
abbrev pub milliseconds : ℤ → ℤ
milliseconds (pos n) = pos (n / 1000000)
milliseconds (negsuc n) = neg ((n + 1) / 1000000)

unfoldable pub access_attempt_event : String → String → String → ℤ → AuditEvent
access_attempt_event resource action result duration =
    record (event "access.attempt" resource action result [] ("access_control" ∷ [])) {
      details = none;
      duration = milliseconds duration;
      severity = if result == "failure" then "high" else "low";
    }

unfoldable pub security_event : String → String → String → AuditEvent
security_event type description severity =
    record (event type "security" "monitor" "detected" (("description", str description) ∷ [])
      ("security" ∷ "monitoring" ∷ [])) { severity = severity }
