-- ===== src/Server/Validate.antt =====
-- validateRequest of cmd/mcp-server/main.go.
use Prim.Native.String
use Prim.Native.String.{◌++◌}
use mcp_memory_core.Base.{String, ◌==◌, Bool, ◌||◌, not, Option, none, some, ltb, if◌then◌else◌}
use mcp_memory_core.Base.Text.{contains}
use mcp_memory_core.Base.Json.{Value, null, str}
use mcp_memory_core.Transport.Rpc.{JsonRpcRequest, JsonRpcResponse, fail, invalid_request}

abbrev pub is_nil : Value → Bool
is_nil null = Bool.true
is_nil v = Bool.false

-- The check of the method's format.
unfoldable pub is_odd_method : String → Bool
is_odd_method s =
    ltb 100 (String.len s)
    || contains s ".."
    || contains s "//"
    || contains s "\0"
    || contains s "\n"
    || contains s "\t"

module _ {R : Type 0} where
  abbrev reject : Value → String → Option (JsonRpcResponse R)
  reject id reason = some (fail id invalid_request "Invalid Request" (str reason))

  -- The answer to a nil request.
  unfoldable pub nil_request : JsonRpcResponse R
  nil_request = fail null invalid_request "Invalid Request" (str "Request cannot be null")

  unfoldable pub validate_request : Option JsonRpcRequest → Option (JsonRpcResponse R)
  unfolding nil_request is_odd_method
  validate_request none = some nil_request
  validate_request (some req) =
      if not (req.jsonrpc == "2.0")
      then reject req.id "Invalid or missing 'jsonrpc' field, must be '2.0'"
      else if req.method == ""
      then reject req.id "Missing or empty 'method' field"
      else if is_nil req.id
      then reject null "Missing 'id' field - notifications are not supported"
      else if is_odd_method req.method
      then reject req.id ("Invalid method format: '" ++ req.method ++ "'")
      else none
