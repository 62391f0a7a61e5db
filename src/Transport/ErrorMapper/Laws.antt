-- ===== src/Transport/ErrorMapper/Laws.antt =====
-- How the two mappings of internal/transport/error_mapper.go relate to JSON-RPC and to
-- pkg/errors/http.go.
use Prim.Native.Nat.{◌≤◌}
use mcp_memory_core.Base.{◌<◌, ◌≡◌, refl, ◌≢◌, ◌⊎◌, inl, inr, arith}
use mcp_memory_core.Base.Int.{ℤ, pos, negsuc}
use mcp_memory_core.Errors.Codes.{
  ErrorCode, storage_not_found, transport_invalid_json, transport_marshal, transport_unmarshal,
  transport_timeout, service_unavailable, resource_exhausted, panic, configuration,
}
use mcp_memory_core.Errors.Http.{http_status_from_code}
use mcp_memory_core.Transport.Rpc.{parse_error, method_not_found, invalid_params, internal_error}
use mcp_memory_core.Transport.ErrorMapper.{json_rpc_code, rpc_status}

-- Between -32099 and -32000, which JSON-RPC leaves to the application.
abbrev pub IsApplicationCode : ℤ → Type 0
IsApplicationCode (pos n) = ⊥
IsApplicationCode (negsuc n) = (31999 ≤ n) × (n ≤ 32098)

-- Every error code maps to one of four codes that JSON-RPC defines, which "Invalid Request" is not,
-- or to a code of the application's range.
pub json_rpc_code_cases :
    (c : ErrorCode)
    → (json_rpc_code c ≡ parse_error)
      ⊎ (json_rpc_code c ≡ method_not_found)
      ⊎ (json_rpc_code c ≡ invalid_params)
      ⊎ (json_rpc_code c ≡ internal_error)
      ⊎ IsApplicationCode (json_rpc_code c)
unfolding json_rpc_code
json_rpc_code_cases storage_not_found = ground arith
json_rpc_code_cases _ = ground arith

-- Where the JSON-RPC transport answers an HTTP status other than 200, the status is a client error
-- or a server error as the one of HTTPStatusFromCode is.
pub status_class :
    (c : ErrorCode)
    → rpc_status c ≢ 200
    → ((400 ≤ rpc_status c)
        × (rpc_status c < 500)
        × (400 ≤ http_status_from_code c)
        × (http_status_from_code c < 500))
      ⊎ ((500 ≤ rpc_status c)
          × (rpc_status c < 600)
          × (500 ≤ http_status_from_code c)
          × (http_status_from_code c < 600))
unfolding rpc_status http_status_from_code
status_class storage_not_found h = absurd (h refl)
status_class transport_invalid_json h = inl (omega arith)
status_class transport_marshal h = inl (omega arith)
status_class transport_unmarshal h = inl (omega arith)
status_class transport_timeout h = inl (omega arith)
status_class service_unavailable h = inr (omega arith)
status_class resource_exhausted h = inl (omega arith)
status_class panic h = inr (omega arith)
status_class configuration h = inr (omega arith)
status_class _ h = absurd (h refl)
