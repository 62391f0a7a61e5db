-- ===== src/Server/Status.antt =====
-- The HTTP status under which the replies of cmd/mcp-server/main.go leave handleRPC
-- (internal/transport/http.go).
use Prim.Native.Char.{Char}
use mcp_memory_core.Base.{◌≡◌, refl, true, some, is_some, if◌then◌else◌}
use mcp_memory_core.Base.Json.{Value, null, str}
use mcp_memory_core.Storage.{Ctx, Backend}
use mcp_memory_core.Knowledge.{Env}
use mcp_memory_core.Transport.Rpc.{JsonRpcRequest}
use mcp_memory_core.Transport.Http.{response_status, status_of_data}
use mcp_memory_core.Server.{Server}
use mcp_memory_core.Server.Call.{Response, handle_request}
use mcp_memory_core.Server.Replies.{IsReply, result, failure, is_note, handle_request-IsReply}

note_status : (d : Value) → is_note d ≡ true → status_of_data d ≡ 500
unfolding status_of_data
note_status null h = refl
note_status (str s) h = refl
note_status _ h = absurd (cc h)

reply_status :
    (id : Value) (r : Response)
    → IsReply id r
    → response_status r.error ≡ (if is_some r.error then 500 else 200)
unfolding response_status
reply_status id r (result x h) = rw h refl
reply_status id r (failure c m d code note h) = rw h (note_status d note)

-- Over HTTP, every reply of the server that holds an error goes out with the status 500, also where
-- the client's request is at fault, and every reply that holds a result with the status 200.
pub server_status :
    (u : Char → Char) (b : Backend) (env : Env) (ctx : Ctx) (req : JsonRpcRequest) (s : Server b)
    → response_status (handle_request u b env ctx (some req) s).1.error
      ≡ (if is_some (handle_request u b env ctx (some req) s).1.error then 500 else 200)
server_status u b env ctx req s = reply_status req.id _ (handle_request-IsReply u b env ctx req s)
