-- ===== src/Server/Safety.antt =====
-- What the requests of cmd/mcp-server/main.go do to the entities, over a lawful backend.
use Prim.Native.Char.{Char}
use mcp_memory_core.Base.{
  ◌≡◌, refl, inl, inr, String, ◌==◌, true, Option, none, some, is_some, Bool-cases, Option-cases,
}
use mcp_memory_core.Base.Json.{Value, Fields}
use mcp_memory_core.Errors.{GoError}
use mcp_memory_core.Storage.{Entity, Ctx, Answer, ok, err, Backend}
use mcp_memory_core.Storage.Lawful.{IsLawful}
use mcp_memory_core.Knowledge.{ToolResult, Env}
use mcp_memory_core.Knowledge.Manager.{Manager, handle_call_tool}
use mcp_memory_core.Knowledge.Tools.{stored, failed_call_keeps}
use mcp_memory_core.Transport.Rpc.{JsonRpcRequest}
use mcp_memory_core.Server.{Server, Payload}
use mcp_memory_core.Server.Validate.{validate_request}
use mcp_memory_core.Server.Call.{
  Response, Checked, accept, refuse, check_params, tool_response, call_checked, call_tool,
  handle_tools_call, dispatch, validated, handle_request,
}

module _ (u : Char → Char) (b : Backend) (l : IsLawful b) (env : Env) (ctx : Ctx) where
  -- The entity that a client sees under an ID; none before the server has a manager.
  abbrev pub served : Option (Manager b) → String → Option Entity
  served none k = none
  served (some m) k = stored b l m k

  -- A property of the manager after a request and of the response.
  abbrev Outcome {ℓ} : (Option (Manager b) → Response → Type ℓ) → Server b × Response → Type ℓ
  Outcome P (s, r) = P s.manager r

  checked_cases {ℓ} :
      (P : Option (Manager b) → Response → Type ℓ) (id : Value) (c : Checked (String × Fields))
      (m : Manager b)
      → ((r : Response) → P (some m) r)
      → ((name : String) (args : Fields)
          → Outcome P (call_checked u b env ctx id (accept (name, args)) m))
      → Outcome P (call_checked u b env ctx id c m)
  checked_cases P id (refuse reason) m idle called = idle _
  checked_cases P id (accept (name, args)) m idle called = called name args

  call_cases {ℓ} :
      (P : Option (Manager b) → Response → Type ℓ) (req : JsonRpcRequest) (o : Option (Manager b))
      → ((r : Response) → P o r)
      → ((name : String) (args : Fields) (m : Manager b)
          → o ≡ some m
          → Outcome P (call_checked u b env ctx req.id (accept (name, args)) m))
      → Outcome P (call_tool u b env ctx req o)
  call_cases P req none idle called = idle _
  call_cases P req (some m) idle called =
      checked_cases P req.id (check_params req.params) m idle (λ name args. called name args m refl)

  dispatch_cases {ℓ} :
      (P : Option (Manager b) → Response → Type ℓ) (req : JsonRpcRequest) (s : Server b)
      → ((r : Response) → P s.manager r)
      → ((name : String) (args : Fields) (m : Manager b)
          → s.manager ≡ some m
          → Outcome P (call_checked u b env ctx req.id (accept (name, args)) m))
      → Outcome P (dispatch u b env ctx req s)
  unfolding dispatch handle_tools_call
  dispatch_cases P req s idle called = elim (Bool-cases (req.method == "tools/list")) [
    | inl lists ↦ rw lists (idle _)
    | inr others ↦ rw others (elim (Bool-cases (req.method == "tools/call")) [
      | inl calls ↦ rw calls (call_cases P req s.manager idle called)
      | inr unknown ↦ rw unknown (idle _)
    ])
  ]

  -- A request either leaves the server as it is or calls a tool whose name and arguments passed the
  -- checks.
  request_cases {ℓ} :
      (P : Option (Manager b) → Response → Type ℓ) (req : JsonRpcRequest) (s : Server b)
      → ((r : Response) → P s.manager r)
      → ((name : String) (args : Fields) (m : Manager b)
          → s.manager ≡ some m
          → Outcome P (call_checked u b env ctx req.id (accept (name, args)) m))
      → Outcome P (handle_request u b env ctx (some req) s)
  unfolding handle_request
  request_cases P req s idle called =
      elim (Option-cases (validate_request {R = Payload} (some req))) [
        | inl passed ↦ rw (passed, handle_request, validated) (dispatch_cases P req s idle called)
        | inr (r, rejected) ↦ rw (rejected, handle_request, validated) (idle r)
      ]

  failed_tool_keeps :
      (id : Value) (m n : Manager b) (a : Answer ToolResult) (k : String)
      → ((e : GoError) → a ≡ err e → stored b l n k ≡ stored b l m k)
      → is_some (tool_response u b id a).error ≡ true
      → stored b l n k ≡ stored b l m k
  failed_tool_keeps id m n (ok r) k keeps h = absurd (cc h)
  failed_tool_keeps id m n (err e) k keeps h = keeps e refl

  -- A request that gets an error response, for whatever reason, changes no entity.
  pub failed_request_keeps :
      (req : JsonRpcRequest) (s : Server b) (k : String)
      → is_some (handle_request u b env ctx (some req) s).1.error ≡ true
      → served (handle_request u b env ctx (some req) s).0.manager k ≡ served s.manager k
  failed_request_keeps req s k =
      request_cases (λ m r. is_some r.error ≡ true → served m k ≡ served s.manager k) req s
        (λ r h. refl)
        (λ name args m given h. rw given (
          failed_tool_keeps req.id m (handle_call_tool b env ctx name args m).0
            (handle_call_tool b env ctx name args m).1 k
            (λ e. failed_call_keeps b l env ctx name args m e k) h))
