-- ===== src/Logging/Audit/Checked.antt =====
-- What becomes of an event that is logged (pkg/logging/audit.go).
use mcp_memory_core.Base.{
  ℕ, ◌≡◌, ◌↔◌, refl, ap, sym, ◌∙◌, String, eq_iff, true, Option, none, some, List, [], ◌∷◌, all,
  not, arith,
}
use mcp_memory_core.Storage.{Answer, ok}
use mcp_memory_core.Logging.Audit.{
  AuditEvent, AuditLogger, RequestContext, calculate_checksum, verify_checksum, sealed,
  stored_event, mask_event, enrich_event, validate_event, is_missing,
}

-- Every required field that Log knows is set.
abbrev pub HasFields : AuditEvent → List String → Type 0
unfolding is_missing
HasFields e names = all (λ name. not (is_missing e name)) names ≡ true

pub valid_fields :
    (e : AuditEvent) (names : List String) → (validate_event e names ≡ none) ↔ HasFields e names
unfolding validate_event HasFields
valid_fields e [] = (λ h. refl, λ h. refl)
valid_fields e (name ∷ names) = ground (arith, valid_fields e names)

module _ (marshal : AuditEvent → Answer String) (digest : String → String) where
  -- The event as Log completes and masks it, before it is sealed.
  abbrev pub unsealed : RequestContext → ℕ → String → AuditEvent → AuditLogger → AuditEvent
  unfolding mask_event enrich_event
  unsealed ctx now id e al = mask_event al.masker (enrich_event ctx now id e)

  -- The encoding that the checksum is taken of, and the one that it is compared with.
  abbrev pub encoded_before : AuditEvent → Answer String
  encoded_before e = marshal (record e { checksum = "" })

  abbrev pub encoded_later : AuditEvent → Answer String
  encoded_later e = marshal (record e { checksum = ""; version = "1.0" })

  sealed_verifies :
      (e : AuditEvent) (s t : String)
      → encoded_before e ≡ ok s
      → encoded_later e ≡ ok t
      → (verify_checksum marshal digest (sealed marshal digest e) ≡ true) ↔ (digest s ≡ digest t)
  unfolding sealed calculate_checksum verify_checksum
  sealed_verifies e s t before later = rw (before, later) (eq_iff (digest s) (digest t))

  stored_version :
      (ctx : RequestContext) (now : ℕ) (id : String) (e : AuditEvent) (m : Option (String → String))
      → (mask_event m (enrich_event ctx now id e)).version ≡ e.version
  unfolding mask_event enrich_event
  stored_version ctx now id e none = refl
  stored_version ctx now id e (some mask) = refl

  -- Log takes the checksum of the encoding with the caller's version and then sets the version to
  -- "1.0". So where both encodings of the completed and masked event succeed, the checksum of the event
  -- as it is written is valid exactly if the two encodings have the same digest, and they are the same
  -- text if the caller had already set the version to "1.0".
  pub stored_verifies_iff :
      (ctx : RequestContext) (now : ℕ) (id : String) (e : AuditEvent) (al : AuditLogger)
      (s t : String)
      → encoded_before (unsealed ctx now id e al) ≡ ok s
      → encoded_later (unsealed ctx now id e al) ≡ ok t
      → ((verify_checksum marshal digest (stored_event marshal digest ctx now id e al) ≡ true)
          ↔ (digest s ≡ digest t))
        × (e.version ≡ "1.0" → s ≡ t)
  unfolding stored_event unsealed
  stored_verifies_iff ctx now id e al s t before later =
      let p = mask_event al.masker (enrich_event ctx now id e) in
      (
        sealed_verifies p s t before later,
        λ h.
            let v : p.version ≡ "1.0" = stored_version ctx now id e al.masker ∙ h in
            let same : record p { checksum = "" } ≡ record p { checksum = ""; version = "1.0" } =
              ap (λ x. record p { checksum = ""; version = x }) v in
            ok_inj s t (sym before ∙ ap marshal same ∙ later),
      )
    where
      ok_inj : (a b : String) → ok a ≡ ok b → a ≡ b
      ok_inj a b h = cc h
