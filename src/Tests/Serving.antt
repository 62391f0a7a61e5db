-- ===== src/Tests/Serving.antt =====
-- The server of cmd/mcp-server/main.go over the in-memory backend.
use Prim.Native.Char.{Char}
use mcp_memory_core.Base.{◌≡◌, refl, true, none, some, [], is_some}
use mcp_memory_core.Base.Text.{contains, has_prefix}
use mcp_memory_core.Base.Json.{number}
use mcp_memory_core.Errors.{GoError, plain, app, wrap_error}
use mcp_memory_core.Errors.Codes.{storage_connection}
use mcp_memory_core.Storage.{Ctx, ok, Backend}
use mcp_memory_core.Storage.Memory.{memory_backend, new_memory_backend}
use mcp_memory_core.Storage.Memory.Lawful.{memory_laws}
use mcp_memory_core.Knowledge.{Env}
use mcp_memory_core.Transport.Rpc.{JsonRpcRequest}
use mcp_memory_core.Server.{Server}
use mcp_memory_core.Server.Call.{handle_request, dispatch}
use mcp_memory_core.Server.Validate.{validate_request, is_odd_method}
use mcp_memory_core.Server.Replies.{IsReply, handle_request-IsReply}
use mcp_memory_core.Server.Safety.{served, failed_request_keeps}
use mcp_memory_core.Server.Sanitize.{error_message}
use mcp_memory_core.Server.Sanitize.Secrets.{IsClean, error_message-IsClean}

abbrev id_char : Char → Char
id_char c = c

abbrev memory : Backend
memory = memory_backend id_char

abbrev live_ctx : Ctx
live_ctx n = none

abbrev env : Env
env = record {
  decode = λ v. ok (record {
    id = "a1";
    name = "Ann";
    entity_type = "person";
    observations = [];
    created_at = 0;
    updated_at = 0;
  });
  uuid = λ i. "u";
  now = 9;
}

abbrev server : Server memory
unfolding memory_backend
server = record { manager = some (record { storage = new_memory_backend; audit = none }) }

-- No such method.
abbrev forget : JsonRpcRequest
forget = record { jsonrpc = "2.0"; id = number "1"; method = "tools/forget"; params = none }

handle_request-IsReply_example :
    IsReply (number "1") (handle_request id_char memory env live_ctx (some forget) server).1
handle_request-IsReply_example = handle_request-IsReply id_char memory env live_ctx forget server

forget_fails :
    is_some (handle_request id_char memory env live_ctx (some forget) server).1.error ≡ true
unfolding handle_request dispatch validate_request is_odd_method contains has_prefix
forget_fails = refl

failed_request_keeps_example :
    served id_char memory
      (memory_laws id_char)
      env
      live_ctx
      (handle_request id_char memory env live_ctx (some forget) server).0.manager
      "a1"
    ≡ served id_char memory (memory_laws id_char) env live_ctx server.manager "a1"
failed_request_keeps_example =
    failed_request_keeps id_char memory (memory_laws id_char) env live_ctx forget server "a1"
      forget_fails

-- A storage error that names a password.
abbrev leaky : GoError
unfolding wrap_error
leaky =
    app (wrap_error (plain "dial: password=hunter2") storage_connection "Failed to create entities")

error_message-IsClean_example : IsClean id_char (error_message id_char leaky)
error_message-IsClean_example = error_message-IsClean id_char leaky
