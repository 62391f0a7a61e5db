-- ===== src/Storage/Factory/Started.antt =====
-- Settings that pkg/config/config.go accepts, in the factories of internal/storage/factory.go and
-- internal/transport/factory.go.
use Prim.Native.Char.{Char}
use mcp_memory_core.Transport.Factory.{Transport, stdio, http, sse}
use mcp_memory_core.Config.Checks.{IsListening}

-- The transport that was made, if it listens, has usable settings.
abbrev pub IsUsable : Transport → Type 0
IsUsable stdio = Unit
IsUsable (http t) = IsListening t
IsUsable (sse t) = IsListening t
