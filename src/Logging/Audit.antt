-- ===== src/Logging/Audit.antt =====
-- pkg/logging/audit.go: the audit logger and its files. The metrics, which only count, are left out, and
-- so is the compression of a rotated file, which does nothing. The lock makes each method one step.
pub mod Files
pub mod Events
pub mod Checked
pub mod Outcome
use Prim.Native.String.{◌++◌}
use mcp_memory_core.Base.{
  ℕ, zero, suc, eqb, String, ◌==◌, Bool, true, false, ◌||◌, not, Option, none, some, List, [], ◌∷◌,
  map, if◌then◌else◌,
}
use mcp_memory_core.Base.Int.{ℤ, pos, is_above}
use mcp_memory_core.Base.Json.{Value, str}
use mcp_memory_core.Base.Dict.{Dict}
use mcp_memory_core.Errors.{GoError, plain}
use mcp_memory_core.Storage.{Answer, ok, err}
use mcp_memory_core.Logging.Masker.{Pattern, masked_value, mask_string}
use mcp_memory_core.Logging.Audit.Files.{AuditFiles, write_line, check_rotation}

-- A map that is nil is `none`.
pub record Changes : Type 0 where
  pub before : Option (Dict Value)
  pub after : Option (Dict Value)
  pub fields : List String

-- A zero time is 0.
pub record AuditEvent : Type 0 where
  pub timestamp : ℕ
  pub event_id : String
  pub event_type : String
  pub event_source : String
  pub request_id : String
  pub trace_id : String
  pub session_id : String
  pub user_id : String
  pub actor_ip : String
  pub user_agent : String
  pub resource : String
  pub resource_id : String
  pub action : String
  pub result : String
  pub duration : ℤ
  pub changes : Option Changes
  pub details : Option (Dict Value)
  pub tags : List String
  pub severity : String
  pub risk : String
  pub compliance : List String
  pub checksum : String
  pub version : String

-- What Log reads of the configuration.
pub record AuditConfig : Type 0 where
  pub enabled : Bool
  pub file_path : String
  pub max_file_size : ℤ
  pub max_files : ℤ
  pub enable_masking : Bool
  pub required_fields : List String

-- `masker` is what MaskString makes of a text, if there is a masker.
pub record AuditLogger : Type 0 where
  pub files : AuditFiles
  pub config : AuditConfig
  pub masker : Option (String → String)

-- What the context holds, with an empty text for what it does not hold.
pub record RequestContext : Type 0 where
  pub request_id : String
  pub trace_id : String
  pub session_id : String
  pub user_id : String

unfoldable pub with_defaults : AuditConfig → AuditConfig
with_defaults c = record c {
  file_path = if c.file_path == "" then "audit.log" else c.file_path;
  max_file_size = if is_above 0 c.max_file_size then c.max_file_size else pos 104857600;
  max_files = if is_above 0 c.max_files then c.max_files else pos 10;
}

-- A disabled logger is nil. The first argument are the files, if the log can be opened, `predefined`
-- the patterns of the masker.
unfoldable pub new_audit_logger :
    (List ℕ → String) → Answer AuditFiles → List Pattern → AuditConfig → Answer (Option AuditLogger)
unfolding with_defaults mask_string
new_audit_logger decode (ok files) predefined c =
    if not c.enabled
    then ok none
    else ok (
        some (record {
          files = files;
          config = with_defaults c;
          masker = if c.enable_masking then some (mask_string decode predefined) else none;
        }))
new_audit_logger decode (err e) predefined c = if not c.enabled then ok none else err e

unfoldable pub determine_severity : AuditEvent → String
determine_severity e =
    if e.action == "delete" || e.action == "destroy"
    then "critical"
    else if e.result == "failure" || e.result == "error"
    then "high"
    else if e.action == "create" || e.action == "update"
    then "medium"
    else "low"

abbrev pub or_text : String → String → String
or_text given otherwise = if given == "" then otherwise else given

abbrev pub or_time : ℕ → ℕ → ℕ
or_time zero now = now
or_time (suc t) now = suc t

-- `generated` is GenerateID.
unfoldable pub enrich_event : RequestContext → ℕ → String → AuditEvent → AuditEvent
unfolding determine_severity
enrich_event ctx now generated e = record e {
  timestamp = or_time e.timestamp now;
  event_id = or_text e.event_id generated;
  request_id = or_text e.request_id ctx.request_id;
  trace_id = or_text e.trace_id ctx.trace_id;
  session_id = or_text e.session_id ctx.session_id;
  user_id = or_text e.user_id ctx.user_id;
  event_source = or_text e.event_source "mcp-memory-core";
  severity = or_text e.severity (determine_severity e);
}

-- The event lacks the field. Any other name is not checked.
unfoldable pub is_missing : AuditEvent → String → Bool
is_missing e name =
    if name == "timestamp"
    then eqb e.timestamp 0
    else if name == "event_type"
    then e.event_type == ""
    else if name == "resource"
    then e.resource == ""
    else if name == "action"
    then e.action == ""
    else if name == "result"
    then e.result == ""
    else false

unfoldable pub validate_event : AuditEvent → List String → Option GoError
unfolding is_missing
validate_event e [] = none
validate_event e (name ∷ names) =
    let rest = validate_event e names in
    if is_missing e name then some (plain ("required field '" ++ name ++ "' is missing")) else rest

abbrev pub mask_map : (String → String) → Option (Dict Value) → Option (Dict Value)
mask_map mask none = none
mask_map mask (some m) = some (map (λ (e : String × Value). (e.0, masked_value mask e.1)) m)

abbrev pub mask_changes : (String → String) → Option Changes → Option Changes
mask_changes mask none = none
mask_changes mask (some c) =
    some (record c { before = mask_map mask c.before; after = mask_map mask c.after })

unfoldable pub mask_event : Option (String → String) → AuditEvent → AuditEvent
mask_event none e = e
mask_event (some mask) e = record e {
  details = mask_map mask e.details;
  changes = mask_changes mask e.changes;
}

-- The parameters: json.Marshal, and the SHA-256 digest of a text in hexadecimal.
module _ (marshal : AuditEvent → Answer String) (digest : String → String) where
  abbrev pub digest_or_empty : Answer String → String
  digest_or_empty (ok text) = digest text
  digest_or_empty (err e) = ""

  unfoldable pub calculate_checksum : AuditEvent → String
  calculate_checksum e = digest_or_empty (marshal (record e { checksum = "" }))

  abbrev pub is_digest : String → Answer String → Bool
  is_digest expected (ok text) = expected == digest text
  is_digest expected (err e) = false

  unfoldable pub verify_checksum : AuditEvent → Bool
  verify_checksum e = is_digest e.checksum (marshal (record e { checksum = "" }))

  -- The checksum is taken before the version is set.
  unfoldable pub sealed : AuditEvent → AuditEvent
  unfolding calculate_checksum
  sealed e = record e { checksum = calculate_checksum e; version = "1.0" }

  -- The event as it is written.
  unfoldable pub stored_event : RequestContext → ℕ → String → AuditEvent → AuditLogger → AuditEvent
  unfolding sealed mask_event enrich_event
  stored_event ctx now generated e al =
      sealed (mask_event al.masker (enrich_event ctx now generated e))

  -- After the write of a line; an error of the rotation is only printed.
  abbrev pub wrote : AuditFiles × Bool → AuditLogger → AuditLogger × Option GoError
  unfolding check_rotation
  wrote (files, false) al =
      (record al { files = files }, some (plain "failed to write audit event"))
  wrote (files, true) al =
      (record al { files = check_rotation al.config.max_file_size al.config.max_files files }, none)

  abbrev pub encoded : Answer String → AuditLogger → AuditLogger × Option GoError
  unfolding wrote write_line
  encoded (err e) al = (al, some (plain "failed to write audit event"))
  encoded (ok line) al = wrote (write_line line al.files) al

  abbrev pub validated : Option GoError → AuditEvent → AuditLogger → AuditLogger × Option GoError
  unfolding encoded
  validated (some e) stored al = (al, some (plain "audit event validation failed"))
  validated none stored al = encoded (marshal stored) al

  -- Log. The errors are told apart by the start of their texts.
  unfoldable pub log :
      RequestContext → ℕ → String → AuditEvent → AuditLogger → AuditLogger × Option GoError
  unfolding validated validate_event enrich_event stored_event
  log ctx now generated e al =
      validated (validate_event (enrich_event ctx now generated e) al.config.required_fields)
        (stored_event ctx now generated e al) al

-- FilterAuditEvents
unfoldable pub filter_audit_events : List AuditEvent → (AuditEvent → Bool) → List AuditEvent
filter_audit_events [] keep = []
filter_audit_events (e ∷ es) keep =
    let rest = filter_audit_events es keep in if keep e then e ∷ rest else rest

-- ReadAuditLog, with json.Decoder as the decoding of each line.
unfoldable pub read_audit_log :
    (String → Answer AuditEvent) → List String → Answer (List AuditEvent)
read_audit_log decode [] = ok []
read_audit_log decode (line ∷ lines) = elim (decode line) [
  | err e ↦ err (plain "failed to decode audit event")
  | ok event ↦ elim (read_audit_log decode lines) [
    | err e ↦ err e
    | ok events ↦ ok (event ∷ events)
  ]
]
