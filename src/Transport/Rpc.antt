-- ===== src/Transport/Rpc.antt =====
-- internal/transport/transport.go: JSON-RPC requests and responses. `R` is what a result holds.
use Prim.Native.String.{◌++◌}
use mcp_memory_core.Base.{String, Option, none, some}
use mcp_memory_core.Base.Int.{ℤ, neg}
use mcp_memory_core.Base.Json.{Value, null, str, Fields}

-- A missing `id` and a null one are both nil; so are a missing and a null `params`.
pub record JsonRpcRequest : Type 0 where
  pub jsonrpc : String
  pub id : Value
  pub method : String
  pub params : Option Fields

pub record JsonRpcError : Type 0 where
  pub code : ℤ
  pub message : String
  pub error_data : Value

-- `success` is the map {"success": true} of ToJSONRPCResponse.
pub data Result (R : Type 0) : Type 0 where
  no_result success : Result R
  payload : R → Result R

pub record JsonRpcResponse (R : Type 0) : Type 0 where
  pub jsonrpc : String
  pub id : Value
  pub result : Result R
  pub error : Option JsonRpcError

abbrev pub parse_error : ℤ
parse_error = neg 32700

abbrev pub invalid_request : ℤ
invalid_request = neg 32600

abbrev pub method_not_found : ℤ
method_not_found = neg 32601

abbrev pub invalid_params : ℤ
invalid_params = neg 32602

abbrev pub internal_error : ℤ
internal_error = neg 32603

module _ {R : Type 0} where
  -- A response with an error and no result.
  abbrev pub fail : Value → ℤ → String → Value → JsonRpcResponse R
  fail id code message details = record {
    jsonrpc = "2.0";
    id = id;
    result = no_result;
    error = some (record { code = code; message = message; error_data = details });
  }

  -- A response with a result and no error.
  abbrev pub succeed : Value → Result R → JsonRpcResponse R
  succeed id result = record { jsonrpc = "2.0"; id = id; result = result; error = none }

  unfoldable pub new_parse_error : JsonRpcResponse R
  new_parse_error = fail null parse_error "Parse error" (str "Invalid JSON format")

  unfoldable pub new_invalid_request_error : Value → String → JsonRpcResponse R
  new_invalid_request_error id details = fail id invalid_request "Invalid Request" (str details)

  unfoldable pub new_method_not_found_error : Value → String → JsonRpcResponse R
  new_method_not_found_error id method =
      fail id method_not_found "Method not found"
        (str ("Method '" ++ method ++ "' is not supported"))

  unfoldable pub new_internal_error : Value → String → JsonRpcResponse R
  new_internal_error id message = fail id internal_error "Internal error" (str message)
