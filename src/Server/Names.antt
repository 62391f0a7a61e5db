-- ===== src/Server/Names.antt =====
-- isValidToolName of cmd/mcp-server/main.go.
use Prim.Native.Char.{Char, code}
use Prim.Native.String
use mcp_memory_core.Base.{String, ◌==◌, Bool, ◌&&◌, ◌||◌, true, false, ltb, leb, eqb, if◌then◌else◌}

-- A letter, a digit, an underscore or a hyphen.
unfoldable pub is_name_char : Char → Bool
is_name_char r =
    (leb b'a' (code r) && leb (code r) b'z')
    || (leb b'A' (code r) && leb (code r) b'Z')
    || (leb b'0' (code r) && leb (code r) b'9')
    || eqb (code r) b'_'
    || eqb (code r) b'-'

all_name_chars : String → Bool
unfolding is_name_char
all_name_chars String.[] = true
all_name_chars (String.◌∷◌ r s) = is_name_char r && all_name_chars s

-- `len` counts the bytes.
unfoldable pub is_valid_tool_name : String → Bool
unfolding all_name_chars
is_valid_tool_name name =
    if name == "" || ltb 100 (String.len name) then false else all_name_chars name
