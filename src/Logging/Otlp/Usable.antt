-- ===== src/Logging/Otlp/Usable.antt =====
-- Which configurations of the OTLP export pass the validation of pkg/logging/config.go.
use mcp_memory_core.Base.{
  ◌≡◌, ◌≢◌, ◌↔◌, refl, ◌⊎◌, inl, inr, String, ◌==◌, eq_iff, Bool, true, false, ◌&&◌, not, none,
  arith, Bool-cases,
}
use mcp_memory_core.Base.Int.{is_above, is_less, is_negative}
use mcp_memory_core.Base.Text.{trim_space}
use mcp_memory_core.Logging.Otlp.{
  TlsConfig, RetryConfig, OtlpConfig, validate_tls, validate_retry, validate_otlp,
}

-- The certificate and its key are given together.
abbrev pub ArePaired : TlsConfig → Type 0
ArePaired c = (c.cert_file ≡ "") ↔ (c.key_file ≡ "")

-- The intervals are positive and in order, and the number of retries is not negative.
pub record CanRetry (c : RetryConfig) : Type 0 where
  pub initial : is_above 0 c.initial_interval ≡ true
  pub maximal : is_above 0 c.max_interval ≡ true
  pub ordered : is_less c.max_interval c.initial_interval ≡ false
  pub elapsed : is_above 0 c.max_elapsed_time ≡ true
  pub retries : is_negative c.max_retries ≡ false

pub record IsUsable (parses : String → Bool) (c : OtlpConfig) : Type 0 where
  pub given : trim_space c.endpoint ≢ ""
  pub parsed : parses c.endpoint ≡ true
  pub known : (c.protocol ≡ "") ⊎ ((c.protocol ≡ "grpc") ⊎ (c.protocol ≡ "http"))
  pub timeout : is_above 0 c.timeout ≡ true
  pub batch_size : is_above 0 c.batch_size ≡ true
  pub batch_timeout : is_above 0 c.batch_timeout ≡ true
  pub queue_size : is_above 0 c.queue_size ≡ true
  pub interval : is_above 0 c.health_check_interval ≡ true
  pub paired : ArePaired c.tls
  pub retrying : c.retry_config.enabled ≡ true → CanRetry c.retry_config

tls_iff : (c : TlsConfig) → (validate_tls c ≡ none) ↔ ArePaired c
unfolding validate_tls
tls_iff c = (
  λ h. (
    λ e. ground (arith, h, e, eq_iff c.cert_file "", eq_iff c.key_file ""),
    λ e. ground (arith, h, e, eq_iff c.cert_file "", eq_iff c.key_file ""),
  ),
  λ p. ground (arith, p.0, p.1, eq_iff c.cert_file "", eq_iff c.key_file ""),
)

retry_iff : (c : RetryConfig) → (validate_retry c ≡ none) ↔ (c.enabled ≡ true → CanRetry c)
unfolding validate_retry
retry_iff c = (
  λ h on. record {
    initial = ground (arith, h, on);
    maximal = ground (arith, h, on);
    ordered = ground (arith, h, on);
    elapsed = ground (arith, h, on);
    retries = ground (arith, h, on);
  },
  λ k. elim (Bool-cases c.enabled) [
    | inl on ↦
        let v = k on in ground (arith, on, v.initial, v.maximal, v.ordered, v.elapsed, v.retries)
    | inr off ↦ ground (arith, off)
  ],
)

protocol_iff :
    (p : String)
    → ((not (p == "") && not (p == "grpc") && not (p == "http")) ≡ false)
      ↔ ((p ≡ "") ⊎ ((p ≡ "grpc") ⊎ (p ≡ "http")))
protocol_iff p = (
  λ h. elim (Bool-cases (p == "")) [
    | inl a ↦ inl ((eq_iff p "").0 a)
    | inr a ↦ elim (Bool-cases (p == "grpc")) [
      | inl b ↦ inr (inl ((eq_iff p "grpc").0 b))
      | inr b ↦ inr (inr (ground (arith, h, a, b, eq_iff p "http")))
    ]
  ],
  λ h. elim h [
    | inl a ↦ ground (arith, a, eq_iff p "")
    | inr (inl b) ↦ ground (arith, b, eq_iff p "grpc")
    | inr (inr c) ↦ ground (arith, c, eq_iff p "http")
  ],
)

module _ (parses : String → Bool) (c : OtlpConfig) where
  -- The tests of an enabled configuration, before those of its parts.
  passed-IsUsable : c.enabled ≡ true → validate_otlp parses c ≡ none → IsUsable parses c
  unfolding validate_otlp
  passed-IsUsable on h = record {
    given = λ e. ground (arith, h, on, e, eq_iff (trim_space c.endpoint) "");
    parsed = ground (arith, h, on);
    known = (protocol_iff c.protocol).0 (ground (arith, h, on));
    timeout = ground (arith, h, on);
    batch_size = ground (arith, h, on);
    batch_timeout = ground (arith, h, on);
    queue_size = ground (arith, h, on);
    interval = ground (arith, h, on);
    paired = (tls_iff c.tls).0 (ground (arith, h, on));
    retrying = (retry_iff c.retry_config).0 (ground (arith, h, on));
  }

  usable_passes : c.enabled ≡ true → IsUsable parses c → validate_otlp parses c ≡ none
  unfolding validate_otlp
  usable_passes on v =
      let empty : (trim_space c.endpoint == "") ≡ false =
        ground (arith, v.given, eq_iff (trim_space c.endpoint) "") in
      let named = (protocol_iff c.protocol).1 v.known in
      rw
        (
          on,
          empty,
          v.parsed,
          named,
          v.timeout,
          v.batch_size,
          v.batch_timeout,
          v.queue_size,
          v.interval,
          (tls_iff c.tls).1 v.paired,
          (retry_iff c.retry_config).1 v.retrying,
        )
        refl

  -- A configuration of the export passes the validation exactly if the export is off or the endpoint,
  -- the protocol, the sizes and times, the certificate and the retries are usable.
  pub validate_otlp_iff : (validate_otlp parses c ≡ none) ↔ (c.enabled ≡ true → IsUsable parses c)
  unfolding validate_otlp
  validate_otlp_iff = (
    λ h on. passed-IsUsable on h,
    λ k. elim (Bool-cases c.enabled) [ inl on ↦ usable_passes on (k on) | inr off ↦ rw off refl ],
  )
