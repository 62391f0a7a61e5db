-- ===== src/Server.antt =====
-- cmd/mcp-server/main.go: the JSON-RPC server over any storage backend. `u` is the table of
-- `unicode.ToLower`. Logging and the recovery from panics are left out.
pub mod Names
pub mod Sanitize
pub mod Validate
pub mod Call
pub mod Replies
pub mod Safety
pub mod Status
pub mod LogConfig
use mcp_memory_core.Base.{Option, List}
use mcp_memory_core.Storage.{Backend}
use mcp_memory_core.Knowledge.{McpTool, ToolResult}
use mcp_memory_core.Knowledge.Manager.{Manager}

-- What a result holds: {"tools": …}, or the result of a tool.
pub data Payload : Type 0 where
  tools : List McpTool → Payload
  tool_result : ToolResult → Payload

-- `manager` may be nil.
pub record Server (b : Backend) : Type 0 where
  pub manager : Option (Manager b)
