-- ===== src/Transport/Factory.antt =====
-- internal/transport/factory.go: the transport that the settings name.
use Prim.Native.String.{◌++◌}
use mcp_memory_core.Base.{◌==◌, ◌||◌, if◌then◌else◌}
use mcp_memory_core.Errors.{plain}
use mcp_memory_core.Storage.{Answer, ok, err}
use mcp_memory_core.Config.{Settings, TransportSettings}

pub data Transport : Type 0 where
  stdio : Transport
  http sse : TransportSettings → Transport

unfoldable pub create_transport : {F : Type 0} → Settings F → Answer Transport
create_transport cfg =
    if cfg.transport_type == "stdio" || cfg.transport_type == ""
    then ok stdio
    else if cfg.transport_type == "http"
    then ok (http cfg.transport)
    else if cfg.transport_type == "sse"
    then ok (sse cfg.transport)
    else err (plain ("unsupported transport type: " ++ cfg.transport_type))
