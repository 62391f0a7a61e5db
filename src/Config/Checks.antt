-- ===== src/Config/Checks.antt =====
-- What each check of Validate (pkg/config/config.go) establishes where it passes.
use Prim.Native.Char.{Char}
use mcp_memory_core.Base.{
  ℕ, zero, suc, ne_of_test, ◌≡◌, ◌≢◌, refl, sym, ap, subst, inl, inr, String, ◌==◌, Bool, ◌||◌,
  ◌&&◌, not, true, false, Option, none, some, arith, Bool-cases, if◌then◌else◌,
}
use mcp_memory_core.Base.Text.{trim_space, to_lower}
use mcp_memory_core.Base.Int.{ℤ, pos, negsuc, is_zero, is_negative, is_above}
use mcp_memory_core.Config.{
  Settings, TransportSettings, ConfigError, bad_storage_type, bad_transport_type, bad_http_port,
  bad_port, no_storage_path, Outcome, ◌&>◌, or_int, is_transport, is_storage, with_defaults,
  check_storage_type, check_transport_type, check_http_port, check_logging_of, logging_checked,
  check_storage_path, check_transport,
}
use mcp_memory_core.Config.Logging.{LoggingSettings, LoggingError, validate_logging_config}

-- A port that a server can listen on.
abbrev pub is_port : ℤ → Bool
is_port n = not (is_zero n || is_negative n || is_above 65535 n)

-- The settings of a transport that listens.
pub record IsListening (t : TransportSettings) : Type 0 where
  pub port : is_port t.port ≡ true
  pub host : t.host ≢ ""
  pub read : is_zero t.read_timeout ≡ false
  pub write : is_zero t.write_timeout ≡ false
  pub heartbeat : is_zero t.sse_heartbeat_secs ≡ false
  pub connections : is_zero t.max_connections ≡ false

module _ (u : Char → Char) {F : Type 0} (below_zero above_one : F → Bool) where
  abbrev pub Done : Outcome u below_zero above_one → Settings F → Type 0
  Done o t = o ≡ (t, none)

  -- A sequence succeeds only if both its parts do.
  pub both :
      (o : Outcome u below_zero above_one) (f : Settings F → Outcome u below_zero above_one)
      (t : Settings F)
      → Done (◌&>◌ u below_zero above_one o f) t
      → (s : Settings F) × Done o s × Done (f s) t
  both (s, none) f t h = (s, refl, h)
  both (s, some e) f t h = absurd (cc h)

  -- A check that passed.
  passed :
      (b : Bool) (x s t : Settings F) (e : ConfigError F)
      → Done (if b then (x, none) else (s, some e)) t
      → (b ≡ true) × (x ≡ t)
  passed true x s t e h = (refl, cc h)
  passed false x s t e h = absurd (cc h)

  not_refused :
      (b : Bool) (x s t : Settings F) (e : ConfigError F)
      → Done (if b then (s, some e) else (x, none)) t
      → (b ≡ false) × (x ≡ t)
  not_refused true x s t e h = absurd (cc h)
  not_refused false x s t e h = (refl, cc h)

  pub storage-Done :
      (s t : Settings F)
      → Done (check_storage_type u below_zero above_one s) t
      → is_storage t.storage_type ≡ true
  unfolding check_storage_type
  storage-Done s t h =
      let lowered = record s { storage_type = to_lower u s.storage_type } in
      let (allowed, same) =
        passed (is_storage lowered.storage_type) lowered s t (bad_storage_type s.storage_type) h in
      subst (λ x. is_storage x.storage_type ≡ true) same allowed

  abbrev pub is_named_transport : String → Bool
  is_named_transport k = k == "stdio" || k == "http" || k == "sse"

  named_transport :
      (k : String)
      → is_transport k ≡ true
      → is_named_transport (if k == "" then "stdio" else k) ≡ true
  named_transport k h = elim (Bool-cases (k == "")) [
    | inl empty ↦ rw empty refl
    | inr given ↦ rw given (ground arith)
  ]

  pub transport-Done :
      (s t : Settings F)
      → Done (check_transport_type u below_zero above_one s) t
      → (is_named_transport t.transport_type ≡ true) × (t.storage_type ≡ s.storage_type)
  unfolding check_transport_type
  transport-Done s t h =
      let k = to_lower u s.transport_type in
      let named = record s { transport_type = if k == "" then "stdio" else k } in
      let (allowed, same) =
        passed (is_transport k) named s t (bad_transport_type s.transport_type) h in
      (
        subst (λ x. is_named_transport x.transport_type ≡ true) same (named_transport k allowed),
        sym (ap (λ x. x.storage_type) same),
      )

  pub port-Done : (s t : Settings F) → Done (check_http_port u below_zero above_one s) t → t ≡ s
  unfolding check_http_port
  port-Done s t h =
      sym
        (not_refused (is_negative s.http_port || is_above 65535 s.http_port) s s t
          (bad_http_port s.http_port) h).1

  logging-Done :
      (s t : Settings F) (r : LoggingSettings F × Option (LoggingError F))
      → Done (logging_checked u below_zero above_one s r) t
      → (l : LoggingSettings F) × (t ≡ record s { logging = some l })
  logging-Done s t (l, none) h = (l, cc h)
  logging-Done s t (l, some e) h = absurd (cc h)

  -- The fields that the check of the logging settings leaves alone.
  abbrev pub SameCore : Settings F → Settings F → Type 0
  SameCore s t = (t.transport_type ≡ s.transport_type) × (t.storage_type ≡ s.storage_type)

  pub log-Done :
      (s t : Settings F) (o : Option (LoggingSettings F))
      → Done (check_logging_of u below_zero above_one s o) t
      → SameCore s t
  log-Done s t none h =
      let same : t ≡ s = cc h in (ap (λ x. x.transport_type) same, ap (λ x. x.storage_type) same)
  log-Done s t (some l) h =
      let (m, same) = logging-Done s t (validate_logging_config u below_zero above_one l) h in
      (ap (λ x. x.transport_type) same, ap (λ x. x.storage_type) same)

  pub path-Done :
      (s t : Settings F)
      → Done (check_storage_path u below_zero above_one s) t
      → (t ≡ s) × ((s.storage_type == "sqlite" && trim_space s.storage_path == "") ≡ false)
  unfolding check_storage_path
  path-Done s t h =
      let (fine, same) =
        not_refused (s.storage_type == "sqlite" && trim_space s.storage_path == "") s s t
          no_storage_path h in
      (sym same, fine)

  given_host : (h : String) → (if h == "" then "localhost" else h) ≢ ""
  given_host h e = elim (Bool-cases (h == "")) [
    | inl empty ↦ absurd (cc (e, empty))
    | inr given ↦ ne_of_test h "" given (rw given at e)
  ]

  nonzero : (d : ℕ) (n : ℤ) → is_zero (or_int (pos (suc d)) n) ≡ false
  nonzero d (pos zero) = refl
  nonzero d (pos (suc n)) = refl
  nonzero d (negsuc n) = refl

  port_of_test :
      (n : ℤ) → (is_zero n || is_negative n || is_above 65535 n) ≡ false → is_port n ≡ true
  port_of_test n h = rw h refl

  defaults-IsListening :
      (t : TransportSettings)
      → is_port (or_int (pos 8080) t.port) ≡ true
      → IsListening (with_defaults t)
  unfolding with_defaults
  defaults-IsListening t h = record {
    port = h;
    host = given_host t.host;
    read = nonzero 29 t.read_timeout;
    write = nonzero 29 t.write_timeout;
    heartbeat = nonzero 29 t.sse_heartbeat_secs;
    connections = nonzero 99 t.max_connections;
  }

  pub listen-Done :
      (s t : Settings F)
      → Done (check_transport u below_zero above_one s) t
      → SameCore s t
        × (t.storage_path ≡ s.storage_path)
        × ((s.transport_type == "http" || s.transport_type == "sse") ≡ true
            → IsListening t.transport)
  unfolding check_transport
  listen-Done s t h = elim (Bool-cases (s.transport_type == "http" || s.transport_type == "sse")) [
    | inl listens ↦
        let port = or_int (pos 8080) s.transport.port in
        let (fine, same) =
          not_refused (is_zero port || is_negative port || is_above 65535 port)
            (record s { transport = with_defaults s.transport })
            (record s { transport = record s.transport { port = port } }) t (bad_port port)
            (rw listens at h) in
        (
          (sym (ap (λ x. x.transport_type) same), sym (ap (λ x. x.storage_type) same)),
          sym (ap (λ x. x.storage_path) same),
          λ _.
              subst (λ x. IsListening x.transport) same
                (defaults-IsListening s.transport (port_of_test port fine)),
        )
    | inr local ↦
        let same = ap (λ o. o.0) (rw local at h) in
        (
          (sym (ap (λ x. x.transport_type) same), sym (ap (λ x. x.storage_type) same)),
          sym (ap (λ x. x.storage_path) same),
          λ listens. absurd (cc (local, listens)),
        )
  ]
