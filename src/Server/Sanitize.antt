-- ===== src/Server/Sanitize.antt =====
-- sanitizeErrorString of cmd/mcp-server/main.go, and the message that handleToolsCall makes of a
-- tool's error.
pub mod Secrets
use Prim.Native.Char.{Char}
use Prim.Native.String.{◌++◌}
use mcp_memory_core.Base.{String, Bool, ◌||◌, Option, none, some, if◌then◌else◌}
use mcp_memory_core.Base.Text.{contains, to_lower}
use mcp_memory_core.Errors.{
  GoError, AppError, plain, app, Cause, no_cause, cause, error_text, message_of, cause_of,
}

-- The tests in order, on the message in lower case.
unfoldable pub friendly : String → String
friendly s =
    if contains s "database" || contains s "sql"
    then "Storage operation failed"
    else if contains s "memory" || contains s "allocation"
    then "Memory operation failed"
    else if contains s "permission" || contains s "access"
    then "Access denied"
    else if contains s "connection" || contains s "network"
    then "Connection error"
    else if contains s "timeout"
    then "Operation timed out"
    else if contains s "not found"
    then "Requested resource not found"
    else if contains s "invalid" || contains s "malformed"
    then "Invalid input provided"
    else "Internal server error"

unfoldable pub sanitize_error_string : (Char → Char) → String → String
unfolding friendly
sanitize_error_string u s = friendly (to_lower u s)

abbrev with_cause : String → Cause → String
with_cause text no_cause = text
with_cause text (cause e) = text ++ ": " ++ error_text e

-- The error's text, with that of the internal error of an application error.
unfoldable pub full_text : GoError → String
unfolding error_text
full_text (plain s) = s
full_text (app e) = with_cause (message_of e) (cause_of e)

unfoldable pub needs_sanitization : String → Bool
needs_sanitization s =
    contains s "password"
    || contains s "secret"
    || contains s "token"
    || contains s "key"
    || contains s "database connection"

unfoldable pub error_message : (Char → Char) → GoError → String
unfolding full_text needs_sanitization
error_message u e =
    if needs_sanitization (to_lower u (full_text e))
    then sanitize_error_string u (full_text e)
    else "Internal error: " ++ error_text e
