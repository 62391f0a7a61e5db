-- ===== src/Config/Settled.antt =====
-- What Validate (pkg/config/config.go) establishes.
use Prim.Native.Char.{Char}
use mcp_memory_core.Base.{◌≡◌, ◌≢◌, String, ◌==◌, Bool, ◌||◌, ◌&&◌, true, false, none}
use mcp_memory_core.Base.Text.{trim_space}
use mcp_memory_core.Config.{
  Settings, is_storage, validate, check_log_level, check_storage_type, check_transport_type,
  check_http_port, check_logging, check_storage_path, check_transport,
}
use mcp_memory_core.Config.Checks.{
  IsListening, both, storage-Done, transport-Done, port-Done, log-Done, path-Done, listen-Done,
  SameCore, is_named_transport,
}

pub record IsSettled {F : Type 0} (s : Settings F) : Type 0 where
  pub transport_type :
      (s.transport_type == "stdio" || s.transport_type == "http" || s.transport_type == "sse")
      ≡ true
  pub storage_type : is_storage s.storage_type ≡ true
  pub storage_path : s.storage_type ≡ "sqlite" → trim_space s.storage_path ≢ ""
  pub listening :
      (s.transport_type == "http" || s.transport_type == "sse") ≡ true → IsListening s.transport

module _ (u : Char → Char) {F : Type 0} (below_zero above_one : F → Bool) where
  not_blank :
      (k p : String)
      → (k == "sqlite" && trim_space p == "") ≡ false
      → k ≡ "sqlite"
      → trim_space p ≢ ""
  not_blank k p h sqlite blank = absurd (cc (h, sqlite, blank))

  settled :
      (s2 s3 s4 s5 s6 t : Settings F)
      → is_storage s2.storage_type ≡ true
      → (is_named_transport u below_zero above_one s3.transport_type ≡ true)
        × (s3.storage_type ≡ s2.storage_type)
      → s4 ≡ s3
      → SameCore u below_zero above_one s4 s5
      → (s6 ≡ s5) × ((s5.storage_type == "sqlite" && trim_space s5.storage_path == "") ≡ false)
      → SameCore u below_zero above_one s6 t
        × (t.storage_path ≡ s6.storage_path)
        × ((s6.transport_type == "http" || s6.transport_type == "sse") ≡ true
            → IsListening t.transport)
      → IsSettled t
  settled s2 s3 s4 s5 s6 t a (b, c) d (e, f) (g, h) ((i, j), k, l) = record {
    transport_type = rw (i, g, e, d) b;
    storage_type = rw (j, g, f, d, c) a;
    storage_path = not_blank t.storage_type t.storage_path (rw (j, k, g) h);
    listening = λ listens. l (rw i at listens);
  }

  -- Settings that Validate accepts name one of the three transports, and one of the two backends or
  -- none, the SQLite one with a path that is not blank; and a transport that listens has a port
  -- between 1 and 65535, a host, and no limit or interval that is 0.
  pub validate-IsSettled :
      (s t : Settings F) → validate u below_zero above_one s ≡ (t, none) → IsSettled t
  unfolding validate check_logging
  validate-IsSettled s t h =
      let (s6, h6, last) =
        both u below_zero above_one _ (check_transport u below_zero above_one) t h in
      let (s5, h5, path) =
        both u below_zero above_one _ (check_storage_path u below_zero above_one) s6 h6 in
      let (s4, h4, logs) =
        both u below_zero above_one _ (check_logging u below_zero above_one) s5 h5 in
      let (s3, h3, port) =
        both u below_zero above_one _ (check_http_port u below_zero above_one) s4 h4 in
      let (s2, h2, transport) =
        both u below_zero above_one _ (check_transport_type u below_zero above_one) s3 h3 in
      let (s1, h1, storage) =
        both u below_zero above_one (check_log_level u below_zero above_one s)
          (check_storage_type u below_zero above_one) s2 h2 in
      settled s2 s3 s4 s5 s6 t (storage-Done u below_zero above_one s1 s2 storage)
        (transport-Done u below_zero above_one s2 s3 transport)
        (port-Done u below_zero above_one s3 s4 port)
        (log-Done u below_zero above_one s4 s5 s4.logging logs)
        (path-Done u below_zero above_one s5 s6 path) (listen-Done u below_zero above_one s6 t last)
