-- ===== src/Server/Call.antt =====
-- HandleRequest, handleToolsList and handleToolsCall of cmd/mcp-server/main.go.
use Prim.Native.Char.{Char}
use Prim.Native.String.{◌++◌}
use mcp_memory_core.Base.{String, ◌==◌, not, Option, none, some, if◌then◌else◌}
use mcp_memory_core.Base.Text.{has_prefix}
use mcp_memory_core.Base.Json.{Value, null, str, object, Fields, no_fields, get}
use mcp_memory_core.Storage.{Ctx, Answer, ok, err, Backend}
use mcp_memory_core.Knowledge.{ToolResult, Env, list_tools}
use mcp_memory_core.Knowledge.Manager.{Manager, handle_call_tool}
use mcp_memory_core.Transport.Rpc.{
  JsonRpcRequest, JsonRpcResponse, payload, fail, succeed, method_not_found, invalid_params,
  internal_error,
}
use mcp_memory_core.Server.{Server, Payload, tools, tool_result}
use mcp_memory_core.Server.Names.{is_valid_tool_name}
use mcp_memory_core.Server.Sanitize.{error_message}
use mcp_memory_core.Server.Validate.{validate_request, nil_request}

abbrev pub Response : Type 0
Response = JsonRpcResponse Payload

abbrev pub bad_params : Value → String → Response
bad_params id reason = fail id invalid_params "Invalid params" (str reason)

abbrev pub not_initialized : Value → Response
not_initialized id = fail id internal_error "Internal error" (str "Server not properly initialized")

-- The name of the tool, or the reason why there is none.
pub data Checked (A : Type 0) : Type 0 where
  accept : A → Checked A
  refuse : String → Checked A

infixl 5 ◌>>=◌
abbrev pub ◌>>=◌ : {A B : Type 0} → Checked A → (A → Checked B) → Checked B
accept a >>= f = f a
refuse reason >>= f = refuse reason

unfoldable pub tool_name : Option Value → Checked String
tool_name none = refuse "Missing 'name' field in params"
tool_name (some (str name)) =
    if name == "" then refuse "Field 'name' cannot be empty" else accept name
tool_name (some v) = refuse "Field 'name' must be a string"

-- nil arguments are an empty map.
unfoldable pub arguments : Option Value → Checked Fields
arguments none = accept no_fields
arguments (some null) = accept no_fields
arguments (some (object args)) = accept args
arguments (some v) = refuse "Field 'arguments' must be an object"

unfoldable pub check_name : String → Fields → Checked (String × Fields)
unfolding is_valid_tool_name has_prefix
check_name name args =
    if not (is_valid_tool_name name)
    then refuse "Field 'name' contains invalid characters or unknown tool"
    else if not (has_prefix name "memory__")
    then refuse "Unknown tool name"
    else accept (name, args)

-- The checks of handleToolsCall on the params, up to the call of the tool.
unfoldable pub check_params : Option Fields → Checked (String × Fields)
unfolding tool_name arguments check_name get
check_params none = refuse "Missing 'params' field for tools/call method"
check_params (some params) = do
  name ← tool_name (get "name" params)
  args ← arguments (get "arguments" params)
  check_name name args

module _ (u : Char → Char) (b : Backend) where
  abbrev pub tool_response : Value → Answer ToolResult → Response
  tool_response id (ok r) = succeed id (payload (tool_result r))
  tool_response id (err e) = fail id internal_error (error_message u e) null

  abbrev pub call_checked :
      Env → Ctx → Value → Checked (String × Fields) → Manager b → Server b × Response
  call_checked env ctx id (refuse reason) m = (record { manager = some m }, bad_params id reason)
  call_checked env ctx id (accept (name, args)) m =
      let called = handle_call_tool b env ctx name args m in
      (record { manager = some called.0 }, tool_response id called.1)

  abbrev pub call_tool : Env → Ctx → JsonRpcRequest → Option (Manager b) → Server b × Response
  call_tool env ctx req none = (record { manager = none }, not_initialized req.id)
  call_tool env ctx req (some m) = call_checked env ctx req.id (check_params req.params) m

  unfoldable pub handle_tools_call : Env → Ctx → JsonRpcRequest → Server b → Server b × Response
  handle_tools_call env ctx req s = call_tool env ctx req s.manager

  abbrev pub tools_response : Value → Option (Manager b) → Response
  tools_response id none = not_initialized id
  tools_response id (some m) = succeed id (payload (tools list_tools))

  unfoldable pub handle_tools_list : JsonRpcRequest → Server b → Response
  handle_tools_list req s = tools_response req.id s.manager

  unfoldable pub dispatch : Env → Ctx → JsonRpcRequest → Server b → Server b × Response
  unfolding handle_tools_list handle_tools_call
  dispatch env ctx req s =
      if req.method == "tools/list"
      then (s, handle_tools_list req s)
      else if req.method == "tools/call"
      then handle_tools_call env ctx req s
      else (
        s,
        fail req.id method_not_found "Method not found"
            (str ("Method '" ++ req.method ++ "' is not supported")),
      )

  abbrev pub validated :
      Env → Ctx → JsonRpcRequest → Option Response → Server b → Server b × Response
  validated env ctx req (some rejected) s = (s, rejected)
  validated env ctx req none s = dispatch env ctx req s

  -- A nil request never passes the validation.
  unfoldable pub handle_request : Env → Ctx → Option JsonRpcRequest → Server b → Server b × Response
  unfolding validate_request nil_request dispatch
  handle_request env ctx none s = (s, nil_request)
  handle_request env ctx (some req) s = validated env ctx req (validate_request (some req)) s
