-- ===== src/Transport/ErrorMapper.antt =====
-- internal/transport/error_mapper.go: JSON-RPC codes and HTTP statuses of errors.
pub mod Laws
use Prim.Native.String.{◌++◌}
use mcp_memory_core.Base.{ℕ, String, ◌==◌, Option, none, some, if◌then◌else◌}
use mcp_memory_core.Base.Int.{ℤ, neg, pos}
use mcp_memory_core.Base.Json.{Value, null, str, object, field, no_fields}
use mcp_memory_core.Errors.Codes.{
  ErrorCode, custom, code_string, transport_method_not_found, transport_invalid_params,
  transport_invalid_json, transport_marshal, transport_unmarshal, transport_timeout,
  validation_required, validation_invalid, validation_format, validation_range,
  validation_duplicate, validation_size, validation_type, validation_constraint, internal, panic,
  context_canceled, context_timeout, service_unavailable, resource_exhausted, configuration,
  entity_not_found, relation_not_found, observation_not_found, entity_already_exists,
  relation_already_exists, invalid_operation, state_conflict, auth_unauthorized, auth_token_invalid,
  auth_token_expired, auth_forbidden, auth_insufficient_scope, storage_not_found, storage_conflict,
  storage_constraint, storage_timeout, storage_connection, storage_transaction,
  storage_invalid_query, storage_initialization, not_implemented,
}
use mcp_memory_core.Errors.{GoError, plain, error_text, get_code, get_message, get_internal}
use mcp_memory_core.Transport.Rpc.{
  JsonRpcError, JsonRpcResponse, success, fail, succeed, internal_error as internal_error_code,
}

-- The switch of ToJSONRPCError.
unfoldable pub json_rpc_code : ErrorCode → ℤ
json_rpc_code transport_method_not_found = neg 32601
json_rpc_code transport_invalid_params = neg 32602
json_rpc_code transport_invalid_json = neg 32700
json_rpc_code transport_marshal = neg 32700
json_rpc_code transport_unmarshal = neg 32700
json_rpc_code transport_timeout = neg 32603
json_rpc_code validation_required = neg 32602
json_rpc_code validation_invalid = neg 32602
json_rpc_code validation_format = neg 32602
json_rpc_code validation_range = neg 32602
json_rpc_code validation_duplicate = neg 32602
json_rpc_code validation_size = neg 32602
json_rpc_code validation_type = neg 32602
json_rpc_code validation_constraint = neg 32602
json_rpc_code internal = neg 32603
json_rpc_code panic = neg 32603
json_rpc_code context_canceled = neg 32603
json_rpc_code context_timeout = neg 32603
json_rpc_code service_unavailable = neg 32603
json_rpc_code resource_exhausted = neg 32603
json_rpc_code configuration = neg 32603
json_rpc_code entity_not_found = neg 32001
json_rpc_code relation_not_found = neg 32001
json_rpc_code observation_not_found = neg 32001
json_rpc_code entity_already_exists = neg 32002
json_rpc_code relation_already_exists = neg 32002
json_rpc_code invalid_operation = neg 32003
json_rpc_code state_conflict = neg 32003
json_rpc_code auth_unauthorized = neg 32004
json_rpc_code auth_token_invalid = neg 32004
json_rpc_code auth_token_expired = neg 32004
json_rpc_code auth_forbidden = neg 32005
json_rpc_code auth_insufficient_scope = neg 32005
json_rpc_code storage_not_found = neg 32001
json_rpc_code storage_conflict = neg 32003
json_rpc_code storage_constraint = neg 32003
json_rpc_code storage_timeout = neg 32603
json_rpc_code storage_connection = neg 32603
json_rpc_code storage_transaction = neg 32603
json_rpc_code storage_invalid_query = neg 32603
json_rpc_code storage_initialization = neg 32603
json_rpc_code not_implemented = neg 32601
json_rpc_code (custom s) = neg 32000

-- The data of an error: {"error_code": code}.
abbrev pub error_code_data : String → Value
error_code_data code = object (field "error_code" (str code) no_fields)

unfoldable pub to_json_rpc_error : Option GoError → JsonRpcError
unfolding json_rpc_code get_code get_message code_string
to_json_rpc_error none = record { code = pos 0; message = ""; error_data = null }
to_json_rpc_error (some e) = record {
  code = json_rpc_code (get_code (some e));
  message = get_message (some e);
  error_data = error_code_data (code_string (get_code (some e)));
}

unfoldable pub to_json_rpc_response : {R : Type 0} → Value → Option GoError → JsonRpcResponse R
unfolding to_json_rpc_error
to_json_rpc_response id none = succeed id success
to_json_rpc_response id (some e) = record (fail id (neg 0) "" null) {
  error = some (to_json_rpc_error (some e));
}

-- The switch of ToHTTPStatusCode; the last clause is its default.
unfoldable pub rpc_status : ErrorCode → ℕ
rpc_status transport_invalid_json = 400
rpc_status transport_marshal = 400
rpc_status transport_unmarshal = 400
rpc_status transport_timeout = 408
rpc_status service_unavailable = 503
rpc_status resource_exhausted = 429
rpc_status panic = 500
rpc_status configuration = 500
rpc_status _ = 200

unfoldable pub to_http_status_code : Option GoError → ℕ
unfolding rpc_status get_code
to_http_status_code none = 200
to_http_status_code (some e) = rpc_status (get_code (some e))

unfoldable pub create_fallback_error_response : {R : Type 0} → Value → String → JsonRpcResponse R
create_fallback_error_response id message =
    fail id internal_error_code (if message == "" then "An unexpected error occurred" else message)
      (error_code_data "FALLBACK_ERROR")

unfoldable pub safe_error_message : Option GoError → String
unfolding get_message
safe_error_message none = ""
safe_error_message (some e) =
    if get_message (some e) == "" then "An internal error occurred" else get_message (some e)

abbrev with_internal : String → Option GoError → String
with_internal text none = text
with_internal text (some e) = text ++ " internal=" ++ error_text e

unfoldable pub loggable_error : Option GoError → Option GoError
unfolding get_code get_message get_internal code_string
loggable_error none = none
loggable_error (some e) = some (
    plain (
      with_internal
        ("error_code=" ++ code_string (get_code (some e)) ++ " message=" ++ get_message (some e))
        (get_internal (some e))))
