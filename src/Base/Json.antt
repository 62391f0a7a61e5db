-- ===== src/Base/Json.antt =====
-- Go's `interface{}` as the program meets it: what encoding/json decodes into, and what its replies
-- hold. Numbers keep their literal's text, since the code never computes with one.
use Prim.Native.String.{String}
use mathlib.Core.Bool.{Bool}
use mathlib.Core.Option.{Option, none, some}
use text.Mathlib.Text.{◌==◌}
use mcp_memory_core.Base.Tests.{if◌then◌else◌}

mutual
  pub data Value : Type 0 where
    null : Value
    boolean : Bool → Value
    number str : String → Value
    array : Items → Value
    object : Fields → Value

  pub data Items : Type 0 where
    empty : Items
    item : Value → Items → Items

  pub data Fields : Type 0 where
    no_fields : Fields
    field : String → Value → Fields → Fields

-- m[k] of a map[string]interface{}
unfoldable pub get : String → Fields → Option Value
get k no_fields = none
get k (field j v fs) = if j == k then some v else get k fs
