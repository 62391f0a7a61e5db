-- ===== src/Tests/Failing.antt =====
-- The errors of pkg/errors.
use mcp_memory_core.Errors.{GoError, plain}

abbrev disk_full : GoError
disk_full = plain "disk full"
