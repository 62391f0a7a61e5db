-- ===== src/Base/Float.antt =====
-- float64 as a type `F` with the operations that the program uses. Nothing is assumed of them here:
-- a NaN may be among the values.
use Prim.Native.Nat.{ℕ}
use Prim.Native.String.{String}
use mathlib.Core.Bool.{Bool}
use mathlib.Core.Option.{Option}
use mcp_memory_core.Base.Int.{ℤ}
use mcp_memory_core.Base.Tests.{if◌then◌else◌}

-- `ratio p q` is the constant p/q, `of_int` and `of_uint` are conversions, `show` and `show32` are
-- fmt's %v, and `parse` is strconv.ParseFloat, where it gives no error.
pub record Floats (F : Type 0) : Type 0 where
  pub less : F → F → Bool
  pub leq : F → F → Bool
  pub eq : F → F → Bool
  pub mul : F → F → F
  pub div : F → F → F
  pub ratio : ℕ → ℕ → F
  pub of_int : ℤ → F
  pub of_uint : ℕ → F
  pub show : F → String
  pub show32 : F → String
  pub parse : String → Option F

module _ {F : Type 0} (fl : Floats F) where
  -- math.Max and math.Min of numbers.
  unfoldable pub max : F → F → F
  max x y = if fl.less y x then x else y

  unfoldable pub min : F → F → F
  min x y = if fl.less x y then x else y
