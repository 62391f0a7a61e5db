-- ===== src/Logging/Audit/Outcome.antt =====
-- When Log of pkg/logging/audit.go succeeds, and what a failed rotation leads to.
use mcp_memory_core.Base.{
  ℕ, ◌≡◌, ◌≢◌, refl, String, Bool, true, false, Option, none, some, arith, if◌then◌else◌,
}
use mcp_memory_core.Errors.{GoError}
use mcp_memory_core.Storage.{Answer, ok, err}
use mcp_memory_core.Base.Int.{ℤ}
use mcp_memory_core.Logging.Audit.Files.{extended, write_open, write_line, rotate, check_rotation}
use mcp_memory_core.Logging.Audit.{
  AuditEvent, AuditLogger, RequestContext, stored_event, enrich_event, log, validated, encoded,
  wrote, validate_event,
}
use mcp_memory_core.Logging.Audit.Checked.{HasFields, valid_fields}

module _ (marshal : AuditEvent → Answer String) (digest : String → String) where
  -- The log has got the line, and then its rotation was checked.
  abbrev pub gained : String → AuditLogger → AuditLogger
  gained line al = record al {
    files = check_rotation al.config.max_file_size al.config.max_files (extended line al.files);
  }

  -- What Log leads to: an error and no change, where the event lacks a required field, cannot be encoded
  -- or the log's file is closed; an error and a part of the line in the log, where the operating system
  -- fails to write it; else one more line in the log.
  pub data IsLogged (ctx : RequestContext) (now : ℕ) (id : String) (e : AuditEvent)
      (al after : AuditLogger) (reply : Option GoError) : Type 0 where
    incomplete :
        (HasFields (enrich_event ctx now id e) al.config.required_fields → ⊥)
        → after ≡ al
        → reply ≢ none
        → IsLogged ctx now id e al after reply
    unencoded :
        (x : GoError)
        → marshal (stored_event marshal digest ctx now id e al) ≡ err x
        → after ≡ al
        → reply ≢ none
        → IsLogged ctx now id e al after reply
    unwritable :
        al.files.is_open ≡ false → after ≡ al → reply ≢ none → IsLogged ctx now id e al after reply
    cut :
        (line part : String)
        → al.files.is_open ≡ true
        → marshal (stored_event marshal digest ctx now id e al) ≡ ok line
        → al.files.cut_short line ≡ some part
        → after ≡ record al { files = extended part al.files }
        → reply ≢ none
        → IsLogged ctx now id e al after reply
    written :
        (line : String)
        → HasFields (enrich_event ctx now id e) al.config.required_fields
        → al.files.is_open ≡ true
        → marshal (stored_event marshal digest ctx now id e al) ≡ ok line
        → al.files.cut_short line ≡ none
        → after ≡ gained line al
        → reply ≡ none
        → IsLogged ctx now id e al after reply

  abbrev Logs :
      RequestContext → ℕ → String → AuditEvent → AuditLogger → AuditLogger × Option GoError → Type 0
  Logs ctx now id e al (after, reply) = IsLogged ctx now id e al after reply

  open-Logs :
      (ctx : RequestContext) (now : ℕ) (id : String) (e : AuditEvent) (al : AuditLogger)
      (line : String) (o : Option String)
      → al.files.cut_short line ≡ o
      → al.files.is_open ≡ true
      → HasFields (enrich_event ctx now id e) al.config.required_fields
      → marshal (stored_event marshal digest ctx now id e al) ≡ ok line
      → Logs ctx now id e al (wrote marshal digest (write_open line o al.files) al)
  unfolding wrote
  open-Logs ctx now id e al line none c h f m = written line f h m c refl refl
  open-Logs ctx now id e al line (some part) c h f m = cut line part h m c refl (λ n. cc n)

  line-Logs :
      (ctx : RequestContext) (now : ℕ) (id : String) (e : AuditEvent) (al : AuditLogger)
      (line : String) (b : Bool)
      → al.files.is_open ≡ b
      → HasFields (enrich_event ctx now id e) al.config.required_fields
      → marshal (stored_event marshal digest ctx now id e al) ≡ ok line
      → Logs ctx now id e al (
          wrote marshal digest
            (if b then write_open line (al.files.cut_short line) al.files else (al.files, false))
            al)
  unfolding wrote
  line-Logs ctx now id e al line true h f m =
      open-Logs ctx now id e al line (al.files.cut_short line) refl h f m
  line-Logs ctx now id e al line false h f m = unwritable h refl (λ n. cc n)

  encoded-Logs :
      (ctx : RequestContext) (now : ℕ) (id : String) (e : AuditEvent) (al : AuditLogger)
      (a : Answer String)
      → HasFields (enrich_event ctx now id e) al.config.required_fields
      → marshal (stored_event marshal digest ctx now id e al) ≡ a
      → Logs ctx now id e al (encoded marshal digest a al)
  unfolding encoded write_line
  encoded-Logs ctx now id e al (err x) f h = unencoded x h refl (λ n. cc n)
  encoded-Logs ctx now id e al (ok line) f h =
      line-Logs ctx now id e al line al.files.is_open refl f h

  validated-Logs :
      (ctx : RequestContext) (now : ℕ) (id : String) (e : AuditEvent) (al : AuditLogger)
      (o : Option GoError)
      → validate_event (enrich_event ctx now id e) al.config.required_fields ≡ o
      → Logs ctx now id e al
          (validated marshal digest o (stored_event marshal digest ctx now id e al) al)
  unfolding validated
  validated-Logs ctx now id e al (some x) h =
      incomplete
        (λ f. cc (h, (valid_fields (enrich_event ctx now id e) al.config.required_fields).1 f)) refl
        (λ n. cc n)
  validated-Logs ctx now id e al none h =
      encoded-Logs ctx now id e al (marshal (stored_event marshal digest ctx now id e al))
        ((valid_fields (enrich_event ctx now id e) al.config.required_fields).0 h) refl

  pub log-IsLogged :
      (ctx : RequestContext) (now : ℕ) (id : String) (e : AuditEvent) (al : AuditLogger)
      → IsLogged ctx now id e al
          (log marshal digest ctx now id e al).0
          (log marshal digest ctx now id e al).1
  unfolding log
  log-IsLogged ctx now id e al =
      validated-Logs ctx now id e al
        (validate_event (enrich_event ctx now id e) al.config.required_fields) refl

  closed_fails :
      (al after : AuditLogger) (ctx : RequestContext) (now : ℕ) (id : String) (e : AuditEvent)
      (reply : Option GoError)
      → al.files.is_open ≡ false
      → IsLogged ctx now id e al after reply
      → (after ≡ al) × (reply ≢ none)
  closed_fails al after ctx now id e reply h (incomplete f k n) = (k, n)
  closed_fails al after ctx now id e reply h (unencoded x m k n) = (k, n)
  closed_fails al after ctx now id e reply h (unwritable o k n) = (k, n)
  closed_fails al after ctx now id e reply h (cut line part o m c k n) = absurd (cc (h, o))
  closed_fails al after ctx now id e reply h (written line f o m c k n) = absurd (cc (h, o))

  -- A rotation that has closed the log and then cannot rename it leaves the logger with a closed file:
  -- every later event is refused with an error and the logger never changes again.
  pub failed_rotation_ends_log :
      (max : ℤ) (al : AuditLogger) (ctx : RequestContext) (now : ℕ) (id : String) (e : AuditEvent)
      → al.files.can_close ≡ true
      → al.files.can_rename ≡ false
      → ((log marshal digest ctx now id e (record al { files = rotate max al.files })).0
          ≡ record al { files = rotate max al.files })
        × ((log marshal digest ctx now id e (record al { files = rotate max al.files })).1 ≢ none)
  unfolding rotate
  failed_rotation_ends_log max al ctx now id e close rename =
      let shut = record al { files = rotate max al.files } in
      closed_fails shut (log marshal digest ctx now id e shut).0 ctx now id e
        (log marshal digest ctx now id e shut).1 (ground (arith, close, rename))
        (log-IsLogged ctx now id e shut)
