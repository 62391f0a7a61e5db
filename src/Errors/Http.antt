-- ===== src/Errors/Http.antt =====
-- pkg/errors/http.go: the HTTP status of an error.
use mcp_memory_core.Base.{ℕ, String, Bool, ◌&&◌, Option, none, some, leb, ltb, if◌then◌else◌}
use mcp_memory_core.Base.Text.{has_prefix}
use mcp_memory_core.Base.Json.{Value, null}
use mcp_memory_core.Errors.Codes.{
  ErrorCode, custom, validation_required, validation_invalid, validation_format, validation_range,
  validation_size, validation_type, validation_constraint, transport_invalid_json,
  transport_invalid_params, storage_invalid_query, auth_unauthorized, auth_token_invalid,
  auth_token_expired, auth_forbidden, auth_insufficient_scope, entity_not_found, relation_not_found,
  observation_not_found, storage_not_found, transport_method_not_found, entity_already_exists,
  relation_already_exists, storage_conflict, state_conflict, validation_duplicate,
  storage_constraint, storage_timeout, transport_timeout, context_timeout, invalid_operation,
  transport_marshal, transport_unmarshal, resource_exhausted, internal, panic, storage_connection,
  storage_transaction, storage_initialization, configuration, not_implemented, service_unavailable,
  context_canceled,
}
use mcp_memory_core.Errors.{
  GoError, AppError, app, plain, code_of, message_of, details_of, get_code, internal_error,
}

-- The `default` of the switch: the status by the code's prefix.
status_by_prefix : String → ℕ
unfolding has_prefix
status_by_prefix s =
    if has_prefix s "VALIDATION_"
    then 400
    else if has_prefix s "AUTH_"
    then 401
    else if has_prefix s "STORAGE_"
    then 500
    else if has_prefix s "TRANSPORT_"
    then 400
    else 500

unfoldable pub http_status_from_code : ErrorCode → ℕ
unfolding status_by_prefix
http_status_from_code validation_required = 400
http_status_from_code validation_invalid = 400
http_status_from_code validation_format = 400
http_status_from_code validation_range = 400
http_status_from_code validation_size = 400
http_status_from_code validation_type = 400
http_status_from_code validation_constraint = 400
http_status_from_code transport_invalid_json = 400
http_status_from_code transport_invalid_params = 400
http_status_from_code storage_invalid_query = 400
http_status_from_code auth_unauthorized = 401
http_status_from_code auth_token_invalid = 401
http_status_from_code auth_token_expired = 401
http_status_from_code auth_forbidden = 403
http_status_from_code auth_insufficient_scope = 403
http_status_from_code entity_not_found = 404
http_status_from_code relation_not_found = 404
http_status_from_code observation_not_found = 404
http_status_from_code storage_not_found = 404
http_status_from_code transport_method_not_found = 404
http_status_from_code entity_already_exists = 409
http_status_from_code relation_already_exists = 409
http_status_from_code storage_conflict = 409
http_status_from_code state_conflict = 409
http_status_from_code validation_duplicate = 409
http_status_from_code storage_constraint = 409
http_status_from_code storage_timeout = 408
http_status_from_code transport_timeout = 408
http_status_from_code context_timeout = 408
http_status_from_code invalid_operation = 422
http_status_from_code transport_marshal = 422
http_status_from_code transport_unmarshal = 422
http_status_from_code resource_exhausted = 429
http_status_from_code internal = 500
http_status_from_code panic = 500
http_status_from_code storage_connection = 500
http_status_from_code storage_transaction = 500
http_status_from_code storage_initialization = 500
http_status_from_code configuration = 500
http_status_from_code not_implemented = 501
http_status_from_code service_unavailable = 503
http_status_from_code context_canceled = 499
http_status_from_code (custom s) = status_by_prefix s

unfoldable pub http_status_code : Option GoError → ℕ
unfolding http_status_from_code get_code
http_status_code none = 200
http_status_code (some e) = http_status_from_code (get_code (some e))

pub record HttpError : Type 0 where
  pub status : ℕ
  pub code : ErrorCode
  pub message : String
  pub details : Value

abbrev from_app : AppError → HttpError
from_app e = record {
  status = http_status_from_code (code_of e);
  code = code_of e;
  message = message_of e;
  details = details_of e;
}

-- Internal of an error that is not nil is never nil.
abbrev from_internal : Option AppError → HttpError
from_internal none = record { status = 200; code = custom ""; message = "OK"; details = null }
from_internal (some e) = from_app e

unfoldable pub to_http_error : Option GoError → HttpError
to_http_error none = record { status = 200; code = custom ""; message = "OK"; details = null }
to_http_error (some (app e)) = from_app e
to_http_error (some (plain s)) = from_internal (internal_error (some (plain s)))

unfoldable pub is_client_error : Option GoError → Bool
unfolding http_status_code
is_client_error err = leb 400 (http_status_code err) && ltb (http_status_code err) 500

unfoldable pub is_server_error : Option GoError → Bool
unfolding http_status_code
is_server_error err = leb 500 (http_status_code err) && ltb (http_status_code err) 600
