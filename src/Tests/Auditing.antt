-- ===== src/Tests/Auditing.antt =====
-- The audit logger of pkg/logging/audit.go and the masking of pkg/logging/masker.go.
use Prim.Native.String.{String, ◌++◌}
use mcp_memory_core.Base.{
  ℕ, ◌+◌, ◌≡◌, ◌≢◌, ◌≤◌, ◌<◌, ◌↔◌, List, leb, refl, true, false, none, some, [], ◌∷◌, eqb, arith,
  if◌then◌else◌, length,
}
use mcp_memory_core.Base.Int.{pos}
use mcp_memory_core.Storage.{Answer, ok, err}
use mcp_memory_core.Base.Hash.{utf8, write, offset_basis}
use mcp_memory_core.Base.Decimal.{decimal}
use mcp_memory_core.Errors.{plain}
use mcp_memory_core.Logging.Masker.{between, matched, replace_all, bytes_of, first, after}
use mcp_memory_core.Logging.Masker.Shown.{LookAlike, done, same, like, long, replace_all-Alike}
use mcp_memory_core.Logging.Audit.Files.{AuditFiles, rotate}
use mcp_memory_core.Logging.Audit.Files.Rotation.{rotate_shifts}
use mcp_memory_core.Logging.Audit.{
  AuditEvent, AuditLogger, RequestContext, log, stored_event, verify_checksum, mask_event,
  enrich_event,
}
use mcp_memory_core.Logging.Audit.Checked.{stored_verifies_iff}
use mcp_memory_core.Logging.Audit.Outcome.{failed_rotation_ends_log}
use mcp_memory_core.Logging.Audit.Events.{entity_deleted_event}

-- The old second file is deleted at the next rotation of three.
abbrev files : AuditFiles
files = record {
  log = some ("c" ∷ []);
  rotated = λ i. if eqb i 1 then some ("b" ∷ []) else if eqb i 2 then some ("a" ∷ []) else none;
  is_open = true;
  can_stat = true;
  can_close = true;
  can_rename = true;
  can_open = true;
  can_move = λ i. true;
  cut_short = λ line. none;
  size = λ lines. length lines;
}

rotate_shifts_example :
    ((rotate (pos 3) files).log ≡ some [])
    × ((rotate (pos 3) files).rotated 1 ≡ some ("c" ∷ []))
    × ((k : ℕ) → 1 ≤ k → k + 1 < 3 → (rotate (pos 3) files).rotated (k + 1) ≡ files.rotated k)
    × ((k : ℕ) → 3 ≤ k → k ≢ 1 → (rotate (pos 3) files).rotated k ≡ files.rotated k)
rotate_shifts_example =
    rotate_shifts 3 files ("c" ∷ []) (omega arith) refl refl refl refl (λ i. refl)

abbrev logger : AuditLogger
logger = record {
  files = files;
  config = record {
    enabled = true;
    file_path = "audit.log";
    max_file_size = pos 100;
    max_files = pos 3;
    enable_masking = false;
    required_fields = "timestamp" ∷ "resource" ∷ [];
  };
  masker = none;
}

abbrev context : RequestContext
context = record { request_id = "r"; trace_id = "t"; session_id = ""; user_id = "" }

abbrev deleted : AuditEvent
unfolding entity_deleted_event
deleted = entity_deleted_event "person" "e1"

-- An encoding of some fields, which fails like json.Marshal for a year after 9999.
abbrev marshal : AuditEvent → Answer String
marshal e =
    if leb e.timestamp 253402300799
    then ok (e.event_id ++ "," ++ e.resource_id ++ "," ++ e.checksum ++ "," ++ e.version)
    else err (plain "year outside of range")

abbrev digest : String → String
unfolding write
digest s = decimal (write s offset_basis)

abbrev before_text : String
before_text = "id,e1,,"

abbrev later_text : String
later_text = "id,e1,,1.0"

stored_verifies_iff_example :
    ((verify_checksum marshal digest (stored_event marshal digest context 5 "id" deleted logger)
        ≡ true)
      ↔ (digest before_text ≡ digest later_text))
    × (deleted.version ≡ "1.0" → before_text ≡ later_text)
unfolding deleted mask_event enrich_event
stored_verifies_iff_example =
    stored_verifies_iff marshal digest context 5 "id" deleted logger before_text later_text refl
      refl

abbrev stuck : AuditLogger
stuck = record logger { files = record files { can_rename = false } }

failed_rotation_ends_log_example :
    ((log marshal digest context 5 "id" deleted
        (record stuck { files = rotate (pos 3) stuck.files })).0
      ≡ record stuck { files = rotate (pos 3) stuck.files })
    × ((log marshal digest context 5 "id" deleted
          (record stuck { files = rotate (pos 3) stuck.files })).1
        ≢ none)
failed_rotation_ends_log_example =
    failed_rotation_ends_log marshal digest (pos 3) stuck context 5 "id" deleted refl refl

-- Two addresses, in which ä has two bytes.
abbrev ann : List ℕ
unfolding bytes_of
ann = bytes_of "äann@example.org"

abbrev other : List ℕ
unfolding bytes_of
other = bytes_of "äabc@exbmple.org"

alike : LookAlike ann other
unfolding ann other bytes_of utf8 first after
alike = long refl refl refl

replace_all-Alike_example :
    replace_all (between (b' ' ∷ []) ∷ matched ann ∷ [])
    ≡ replace_all (between (b' ' ∷ []) ∷ matched other ∷ [])
replace_all-Alike_example =
    replace_all-Alike (between (b' ' ∷ []) ∷ matched ann ∷ [])
      (between (b' ' ∷ []) ∷ matched other ∷ [])
      (same (b' ' ∷ []) (matched ann ∷ []) (matched other ∷ []) (like ann other [] [] alike done))
