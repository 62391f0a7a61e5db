-- ===== src/Base/Text.antt =====
-- Go's `strings` functions that the program calls, over texts as lists of Unicode scalar values.
-- `unicode.ToLower` beyond ASCII is a table `u` that the functions take.
pub mod Search
pub mod Occurs
use Prim.Native.Nat.{ℕ, ◌-◌}
use Prim.Native.Char.{Char, code}
use Prim.Native.String.{String, [], ◌∷◌, char_at}
use mathlib.Core.Bool.{Bool, true, false, ◌&&◌, ◌||◌}
use mcp_memory_core.Base.Tests.{ltb, leb, eqb, if◌then◌else◌}

-- strings.HasPrefix(s, p)
unfoldable pub has_prefix : String → String → Bool
has_prefix s [] = true
has_prefix [] (d ∷ p) = false
has_prefix (c ∷ s) (d ∷ p) = eqb (code c) (code d) && has_prefix s p

-- strings.Contains(s, p)
unfoldable pub contains : String → String → Bool
contains [] p = has_prefix [] p
contains (c ∷ s) p = has_prefix (c ∷ s) p || contains s p

-- unicode.ToLower: ASCII by its alphabet, the rest by the table.
unfoldable pub lower_char : (Char → Char) → Char → Char
lower_char u c =
    if leb b'A' (code c) && leb (code c) b'Z'
    then char_at "abcdefghijklmnopqrstuvwxyz" (code c - b'A')
    else if ltb (code c) 128
    then c
    else u c

-- strings.ToLower
unfoldable pub to_lower : (Char → Char) → String → String
unfolding lower_char
to_lower u [] = []
to_lower u (c ∷ s) = lower_char u c ∷ to_lower u s

-- unicode.IsSpace
unfoldable pub is_space : Char → Bool
is_space c =
    (leb 9 n && leb n 13)
    || eqb n 32
    || eqb n 0x85
    || eqb n 0xa0
    || eqb n 0x1680
    || (leb 0x2000 n && leb n 0x200a)
    || eqb n 0x2028
    || eqb n 0x2029
    || eqb n 0x202f
    || eqb n 0x205f
    || eqb n 0x3000
  where
    n : ℕ
    n = code c

unfoldable pub trim_left : String → String
unfolding is_space
trim_left [] = []
trim_left (c ∷ s) = let rest = trim_left s in if is_space c then rest else c ∷ s

abbrev snoc_trimmed : Char → String → String
snoc_trimmed c [] = if is_space c then [] else c ∷ []
snoc_trimmed c (d ∷ s) = c ∷ d ∷ s

unfoldable pub trim_right : String → String
unfolding is_space
trim_right [] = []
trim_right (c ∷ s) = snoc_trimmed c (trim_right s)

-- strings.TrimSpace
unfoldable pub trim_space : String → String
unfolding trim_left trim_right
trim_space s = trim_left (trim_right s)
