-- ===== src/Base/Text/Search.antt =====
-- `contains` and `to_lower` of concatenations.
use Prim.Native.Char.{Char, code}
use Prim.Native.String.{String, [], ◌∷◌, ◌++◌}
use mathlib.Core.Path.{◌≡◌, refl, ap}
use mathlib.Core.Bool.{Bool, true, false, not, ◌&&◌}
use native.Mathlib.Omega.{arith}
use text.Mathlib.TextLemmas.{cons-append, nil-append}
use mcp_memory_core.Base.Tests.{eqb}
use mcp_memory_core.Base.Text.{has_prefix, contains, lower_char, to_lower}

pub to_lower-append :
    (u : Char → Char) (s t : String) → to_lower u (s ++ t) ≡ to_lower u s ++ to_lower u t
unfolding to_lower
to_lower-append u [] t = rw (nil-append t, nil-append (to_lower u t))
to_lower-append u (c ∷ s) t =
    rw (cons-append c s t, cons-append (lower_char u c) (to_lower u s) (to_lower u t))
      (ap (◌∷◌ (lower_char u c)) (to_lower-append u s t))

has_prefix_nil : (s : String) → has_prefix s [] ≡ true
unfolding has_prefix
has_prefix_nil [] = refl
has_prefix_nil (c ∷ s) = refl

has_prefix-append : (s t p : String) → has_prefix s p ≡ true → has_prefix (s ++ t) p ≡ true
unfolding has_prefix
has_prefix-append s t [] h = has_prefix_nil (s ++ t)
has_prefix-append [] t (d ∷ p) h = cc
has_prefix-append (c ∷ s) t (d ∷ p) h =
    rw (cons-append c s t) (ground (arith, has_prefix-append s t p))

contains_nil : (s : String) → contains s [] ≡ true
unfolding contains has_prefix
contains_nil [] = refl
contains_nil (c ∷ s) = refl

-- What a text contains, its extensions contain.
pub contains-append_left : (s t p : String) → contains s p ≡ true → contains (s ++ t) p ≡ true
unfolding contains has_prefix
contains-append_left [] t [] h = contains_nil ([] ++ t)
contains-append_left [] t (d ∷ p) h = cc
contains-append_left (c ∷ s) t p h =
    rw (cons-append c s t)
      (ground (arith, contains-append_left s t p, has_prefix-append (c ∷ s) t p, cons-append c s t))

-- As far as both go, the texts agree.
abbrev pub agree : String → String → Bool
agree [] p = true
agree (c ∷ s) [] = true
agree (c ∷ s) (d ∷ p) = eqb (code c) (code d) && agree s p

-- The pattern starts nowhere in the text, whatever follows.
abbrev pub is_clear : String → String → Bool
is_clear [] p = true
is_clear (c ∷ s) p = not (agree (c ∷ s) p) && is_clear s p

prefix_agrees : (s t p : String) → agree s p ≡ false → has_prefix (s ++ t) p ≡ false
unfolding has_prefix
prefix_agrees [] t p h = cc
prefix_agrees (c ∷ s) t [] h = cc
prefix_agrees (c ∷ s) t (d ∷ p) h = rw (cons-append c s t) (ground (arith, prefix_agrees s t p))

-- A clear text in front adds no occurrence of the pattern.
pub contains-clear : (s t p : String) → is_clear s p ≡ true → contains (s ++ t) p ≡ contains t p
unfolding contains
contains-clear [] t p h = rw (nil-append t) refl
contains-clear (c ∷ s) t p h =
    rw (cons-append c s t)
      (ground (arith, contains-clear s t p, prefix_agrees (c ∷ s) t p, cons-append c s t))
