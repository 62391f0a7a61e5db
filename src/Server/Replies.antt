-- ===== src/Server/Replies.antt =====
-- The replies of HandleRequest (cmd/mcp-server/main.go).
use Prim.Native.Char.{Char}
use mcp_memory_core.Base.{
  ◌≡◌, refl, ap, ◌≢◌, ◌↔◌, ◌⊎◌, Bool, inl, inr, String, ◌==◌, eq_iff, true, false, Option, none,
  some, arith, Bool-cases, Option-cases,
}
use mcp_memory_core.Base.Int.{ℤ}
use mcp_memory_core.Base.Json.{Value, str, null, boolean, Fields}
use mcp_memory_core.Storage.{Ctx, Answer, ok, err, Backend}
use mcp_memory_core.Knowledge.{ToolResult, Env, list_tools}
use mcp_memory_core.Knowledge.Manager.{Manager, handle_call_tool}
use mcp_memory_core.Transport.Rpc.{
  JsonRpcRequest, JsonRpcError, payload, fail, succeed, invalid_request, method_not_found,
  invalid_params, internal_error,
}
use mcp_memory_core.Server.{Server, Payload, tools, tool_result}
use mcp_memory_core.Server.Sanitize.{error_message}
use mcp_memory_core.Server.Validate.{is_nil, is_odd_method, validate_request}
use mcp_memory_core.Server.Call.{
  Response, Checked, accept, refuse, check_params, tool_response, call_checked, call_tool,
  tools_response, dispatch, validated, handle_request,
}

-- The error codes that the server uses.
abbrev pub IsServerCode : ℤ → Type 0
IsServerCode c =
    (c ≡ invalid_request) ⊎ (c ≡ method_not_found) ⊎ (c ≡ invalid_params) ⊎ (c ≡ internal_error)

-- nil or a text.
abbrev pub is_note : Value → Bool
is_note null = true
is_note (str s) = true
is_note v = false

-- A JSON-RPC 2.0 response to the ID: a result and no error, or an error and no result.
pub data IsReply (id : Value) (r : Response) : Type 0 where
  result : (x : Payload) → r ≡ succeed id (payload x) → IsReply id r
  failure :
      (c : ℤ) (m : String) (d : Value)
      → IsServerCode c
      → is_note d ≡ true
      → r ≡ fail id c m d
      → IsReply id r

null_of_nil : (v : Value) → is_nil v ≡ true → v ≡ null
null_of_nil null h = refl
null_of_nil (boolean b) h = cc
null_of_nil _ h = cc

-- The request meets every condition of validateRequest.
pub record IsWellFormed (req : JsonRpcRequest) : Type 0 where
  pub version : req.jsonrpc ≡ "2.0"
  pub named : req.method ≢ ""
  pub identified : req.id ≢ null
  pub plain_method : is_odd_method req.method ≡ false

-- The data of a response's error.
abbrev data_in : Option JsonRpcError → Value
data_in none = null
data_in (some e) = e.error_data

reject_reply :
    (req : JsonRpcRequest) (r : Response)
    → validate_request (some req) ≡ some r
    → r ≡ fail req.id invalid_request "Invalid Request" (data_in r.error)
unfolding validate_request
reject_reply req r h = ground (arith, null_of_nil req.id)

reject_note :
    (req : JsonRpcRequest) (r : Response)
    → validate_request (some req) ≡ some r
    → is_note (data_in r.error) ≡ true
unfolding validate_request
reject_note req r h = ground arith

well_formed_passes :
    (req : JsonRpcRequest) → IsWellFormed req → validate_request {R = Payload} (some req) ≡ none
unfolding validate_request
well_formed_passes req w =
    ground (arith, eq_iff req.jsonrpc "2.0", eq_iff req.method "", null_of_nil req.id)

passed-IsWellFormed :
    (req : JsonRpcRequest) → validate_request {R = Payload} (some req) ≡ none → IsWellFormed req
unfolding validate_request
passed-IsWellFormed req h = record {
  version = ground (arith, eq_iff req.jsonrpc "2.0");
  named = λ e. ground (arith, eq_iff req.method "");
  identified = λ e. ground (arith, ap is_nil e);
  plain_method = ground arith;
}

tool-IsReply :
    (u : Char → Char) (b : Backend) (id : Value) (a : Answer ToolResult)
    → IsReply id (tool_response u b id a)
tool-IsReply u b id (ok r) = result (tool_result r) refl
tool-IsReply u b id (err e) =
    failure internal_error (error_message u e) null (inr (inr (inr refl))) refl refl

module _ (u : Char → Char) (b : Backend) (env : Env) (ctx : Ctx) where
  checked-IsReply :
      (id : Value) (c : Checked (String × Fields)) (m : Manager b)
      → IsReply id (call_checked u b env ctx id c m).1
  checked-IsReply id (refuse reason) m = failure invalid_params _ _ (inr (inr (inl refl))) refl refl
  checked-IsReply id (accept (name, args)) m =
      tool-IsReply u b id (handle_call_tool b env ctx name args m).1

  call-IsReply :
      (req : JsonRpcRequest) (m : Option (Manager b))
      → IsReply req.id (call_tool u b env ctx req m).1
  call-IsReply req none = failure internal_error _ _ (inr (inr (inr refl))) refl refl
  call-IsReply req (some m) = checked-IsReply req.id (check_params req.params) m

  list-IsReply : (id : Value) (m : Option (Manager b)) → IsReply id (tools_response u b id m)
  list-IsReply id none = failure internal_error _ _ (inr (inr (inr refl))) refl refl
  list-IsReply id (some m) = result (tools list_tools) refl

  dispatch-IsReply :
      (req : JsonRpcRequest) (s : Server b) → IsReply req.id (dispatch u b env ctx req s).1
  unfolding dispatch
  dispatch-IsReply req s = elim (Bool-cases (req.method == "tools/list")) [
    | inl lists ↦ rw lists (list-IsReply req.id s.manager)
    | inr others ↦ rw others (elim (Bool-cases (req.method == "tools/call")) [
      | inl calls ↦ rw calls (call-IsReply req s.manager)
      | inr unknown ↦ rw unknown (failure method_not_found _ _ (inr (inl refl)) refl refl)
    ])
  ]

  -- Every request gets a JSON-RPC 2.0 response with the request's own ID, and with a result or one of
  -- the error codes -32600, -32601, -32602 and -32603, never both and never neither. The data of an
  -- error is nil or a text.
  pub handle_request-IsReply :
      (req : JsonRpcRequest) (s : Server b)
      → IsReply req.id (handle_request u b env ctx (some req) s).1
  unfolding handle_request
  handle_request-IsReply req s = elim (Option-cases (validate_request {R = Payload} (some req))) [
    | inl passed ↦ rw (passed, handle_request, validated) (dispatch-IsReply req s)
    | inr (r, rejected) ↦
        rw (rejected, handle_request, validated)
          (failure invalid_request _ _ (inl refl) (reject_note req r rejected)
            (reject_reply req r rejected))
  ]

-- A request passes the validation exactly if its version is "2.0", its method and its ID are given,
-- and no character of its method is one that the validation refuses.
pub validate_request-IsWellFormed :
    (req : JsonRpcRequest) → (validate_request {R = Payload} (some req) ≡ none) ↔ IsWellFormed req
validate_request-IsWellFormed req = (passed-IsWellFormed req, well_formed_passes req)
