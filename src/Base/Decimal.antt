-- ===== src/Base/Decimal.antt =====
-- fmt's %d of a number that is not negative.
use Prim.Native.Nat.{ℕ, zero, suc, ◌+◌, ◌/◌, ◌%◌}
use Prim.Native.String.{String, [], ◌∷◌, char_at}
use mathlib.Core.Path.{◌≡◌, refl}
use mcp_memory_core.Base.Tests.{ltb, if◌then◌else◌}

-- `fuel` bounds the number of digits.
digits : ℕ → ℕ → String → String
digits zero n acc = acc
digits (suc fuel) n acc =
    let shown = char_at "0123456789" (n % 10) ∷ acc in
    let rest = digits fuel (n / 10) shown in if ltb n 10 then shown else rest

unfoldable pub decimal : ℕ → String
unfolding digits
decimal n = digits (n + 1) n []

decimal_1204 : decimal 1204 ≡ "1204"
unfolding decimal
decimal_1204 = refl
