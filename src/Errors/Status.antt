-- ===== src/Errors/Status.antt =====
-- The HTTP status of errors.
use mcp_memory_core.Base.{◌≤◌, ◌<◌, ◌≡◌, refl, ◌⊎◌, true, false, some, arith}
use mcp_memory_core.Errors.Codes.{ErrorCode, custom, storage_not_found}
use mcp_memory_core.Errors.{GoError, app, plain, get_code, get_message, internal_error}
use mcp_memory_core.Errors.Http.{
  http_status_from_code, http_status_code, to_http_error, is_client_error, is_server_error,
}

status_range : (c : ErrorCode) → (400 ≤ http_status_from_code c) × (http_status_from_code c < 600)
unfolding http_status_from_code
status_range storage_not_found = omega arith
status_range (custom s) = ground arith
status_range _ = omega arith

-- Every error is a client error or a server error by its status, and never both.
pub client_or_server :
    (e : GoError)
    → ((is_client_error (some e) ≡ true) × (is_server_error (some e) ≡ false))
      ⊎ ((is_client_error (some e) ≡ false) × (is_server_error (some e) ≡ true))
unfolding is_client_error is_server_error http_status_code
client_or_server e = ground (arith, status_range (get_code (some e)))

-- The HTTP error of an error has the status, the code and the client-safe message that the readers
-- HTTPStatusCode, GetCode and GetMessage give.
pub to_http_error-readers :
    (e : GoError)
    → ((to_http_error (some e)).status ≡ http_status_code (some e))
      × ((to_http_error (some e)).code ≡ get_code (some e))
      × ((to_http_error (some e)).message ≡ get_message (some e))
unfolding to_http_error http_status_code get_code get_message internal_error
to_http_error-readers (plain s) = (refl, refl, refl)
to_http_error-readers (app a) = (refl, refl, refl)
