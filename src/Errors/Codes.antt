-- ===== src/Errors/Codes.antt =====
-- The error codes of pkg/errors/errors.go. `custom` is any other text converted to an ErrorCode, as
-- internal/transport/http.go does with what it finds in a reply.
use mcp_memory_core.Base.{String, ◌==◌, List, [], ◌∷◌, if◌then◌else◌}

pub data ErrorCode : Type 0 where
  storage_not_found storage_conflict storage_timeout storage_connection storage_transaction
        storage_constraint storage_invalid_query storage_initialization :
      ErrorCode
  validation_required validation_invalid validation_format validation_range validation_duplicate
        validation_size validation_type validation_constraint :
      ErrorCode
  entity_not_found entity_already_exists relation_not_found relation_already_exists
        observation_not_found invalid_operation state_conflict :
      ErrorCode
  auth_unauthorized auth_forbidden auth_token_invalid auth_token_expired auth_insufficient_scope :
      ErrorCode
  transport_marshal transport_unmarshal transport_invalid_json transport_method_not_found
        transport_invalid_params transport_timeout :
      ErrorCode
  internal not_implemented service_unavailable context_canceled context_timeout panic configuration
        resource_exhausted :
      ErrorCode
  custom : String → ErrorCode

-- string(code)
unfoldable pub code_string : ErrorCode → String
code_string storage_not_found = "STORAGE_NOT_FOUND"
code_string storage_conflict = "STORAGE_CONFLICT"
code_string storage_timeout = "STORAGE_TIMEOUT"
code_string storage_connection = "STORAGE_CONNECTION"
code_string storage_transaction = "STORAGE_TRANSACTION"
code_string storage_constraint = "STORAGE_CONSTRAINT"
code_string storage_invalid_query = "STORAGE_INVALID_QUERY"
code_string storage_initialization = "STORAGE_INITIALIZATION"
code_string validation_required = "VALIDATION_REQUIRED"
code_string validation_invalid = "VALIDATION_INVALID"
code_string validation_format = "VALIDATION_FORMAT"
code_string validation_range = "VALIDATION_RANGE"
code_string validation_duplicate = "VALIDATION_DUPLICATE"
code_string validation_size = "VALIDATION_SIZE"
code_string validation_type = "VALIDATION_TYPE"
code_string validation_constraint = "VALIDATION_CONSTRAINT"
code_string entity_not_found = "ENTITY_NOT_FOUND"
code_string entity_already_exists = "ENTITY_ALREADY_EXISTS"
code_string relation_not_found = "RELATION_NOT_FOUND"
code_string relation_already_exists = "RELATION_ALREADY_EXISTS"
code_string observation_not_found = "OBSERVATION_NOT_FOUND"
code_string invalid_operation = "INVALID_OPERATION"
code_string state_conflict = "STATE_CONFLICT"
code_string auth_unauthorized = "AUTH_UNAUTHORIZED"
code_string auth_forbidden = "AUTH_FORBIDDEN"
code_string auth_token_invalid = "AUTH_TOKEN_INVALID"
code_string auth_token_expired = "AUTH_TOKEN_EXPIRED"
code_string auth_insufficient_scope = "AUTH_INSUFFICIENT_SCOPE"
code_string transport_marshal = "TRANSPORT_MARSHAL"
code_string transport_unmarshal = "TRANSPORT_UNMARSHAL"
code_string transport_invalid_json = "TRANSPORT_INVALID_JSON"
code_string transport_method_not_found = "TRANSPORT_METHOD_NOT_FOUND"
code_string transport_invalid_params = "TRANSPORT_INVALID_PARAMS"
code_string transport_timeout = "TRANSPORT_TIMEOUT"
code_string internal = "INTERNAL_ERROR"
code_string not_implemented = "NOT_IMPLEMENTED"
code_string service_unavailable = "SERVICE_UNAVAILABLE"
code_string context_canceled = "CONTEXT_CANCELED"
code_string context_timeout = "CONTEXT_TIMEOUT"
code_string panic = "PANIC_RECOVERED"
code_string configuration = "CONFIGURATION_ERROR"
code_string resource_exhausted = "RESOURCE_EXHAUSTED"
code_string (custom s) = s

-- The constants of the package, with their texts.
abbrev pub named_codes : List ErrorCode
named_codes =
    storage_not_found ∷ storage_conflict ∷ storage_timeout ∷ storage_connection
    ∷ storage_transaction ∷ storage_constraint ∷ storage_invalid_query ∷ storage_initialization
    ∷ validation_required ∷ validation_invalid ∷ validation_format ∷ validation_range
    ∷ validation_duplicate ∷ validation_size ∷ validation_type ∷ validation_constraint
    ∷ entity_not_found ∷ entity_already_exists ∷ relation_not_found ∷ relation_already_exists
    ∷ observation_not_found ∷ invalid_operation ∷ state_conflict ∷ auth_unauthorized
    ∷ auth_forbidden ∷ auth_token_invalid ∷ auth_token_expired ∷ auth_insufficient_scope
    ∷ transport_marshal ∷ transport_unmarshal ∷ transport_invalid_json ∷ transport_method_not_found
    ∷ transport_invalid_params ∷ transport_timeout ∷ internal ∷ not_implemented
    ∷ service_unavailable ∷ context_canceled ∷ context_timeout ∷ panic ∷ configuration
    ∷ resource_exhausted ∷ []

unfoldable pub find_code : String → List ErrorCode → ErrorCode
unfolding code_string
find_code s [] = custom s
find_code s (c ∷ cs) = if code_string c == s then c else find_code s cs

-- ErrorCode(s)
unfoldable pub of_string : String → ErrorCode
unfolding find_code
of_string s = find_code s named_codes
