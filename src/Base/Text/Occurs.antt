-- ===== src/Base/Text/Occurs.antt =====
-- `contains` finds the texts that occur in a text.
use Prim.Native.String.{String, [], ◌∷◌, ◌++◌}
use mathlib.Core.Path.{◌≡◌, refl, ap, sym, ◌∙◌}
use mathlib.Core.Bool.{true}
use mathlib.Core.Logic.{inl, inr}
use native.Mathlib.Omega.{arith}
use text.Mathlib.TextEquality.{Char-path}
use text.Mathlib.TextLemmas.{cons-append, nil-append}
use mcp_memory_core.Base.Tests.{Bool-cases}
use mcp_memory_core.Base.Text.{has_prefix, contains}

-- `p` stands somewhere in `s`.
abbrev pub Occurs : String → String → Type 0
Occurs p s = (before after : String) × (s ≡ before ++ (p ++ after))

prefix_rest : (s p : String) → has_prefix s p ≡ true → (after : String) × (s ≡ p ++ after)
unfolding has_prefix
prefix_rest s [] h = (s, sym (nil-append s))
prefix_rest [] (d ∷ p) h = absurd (cc h)
prefix_rest (c ∷ s) (d ∷ p) h =
    let (after, e) = prefix_rest s p (ground arith) in
    let same : c ≡ d = Char-path c d (ground arith) in
    (after, ap (λ x. x ∷ s) same ∙ (ap (◌∷◌ d) e ∙ sym (cons-append d p after)))

rest_prefix : (p after : String) → has_prefix (p ++ after) p ≡ true
unfolding has_prefix
rest_prefix [] after = prefix_nil ([] ++ after)
  where
    prefix_nil : (s : String) → has_prefix s [] ≡ true
    prefix_nil [] = refl
    prefix_nil (c ∷ s) = refl
rest_prefix (c ∷ p) after = rw (cons-append c p after) (ground (arith, rest_prefix p after))

pub contains-Occurs : (s p : String) → contains s p ≡ true → Occurs p s
unfolding contains
contains-Occurs [] p h =
    let (after, e) = prefix_rest [] p h in ([], after, e ∙ sym (nil-append (p ++ after)))
contains-Occurs (c ∷ s) p h = elim (Bool-cases (has_prefix (c ∷ s) p)) [
  | inl here ↦
      let (after, e) = prefix_rest (c ∷ s) p here in ([], after, e ∙ sym (nil-append (p ++ after)))
  | inr later ↦
      let (before, after, e) = contains-Occurs s p (ground arith) in
      (c ∷ before, after, ap (◌∷◌ c) e ∙ sym (cons-append c before (p ++ after)))
]

starts_contains : (s p : String) → has_prefix s p ≡ true → contains s p ≡ true
unfolding contains
starts_contains [] p h = h
starts_contains (c ∷ s) p h = rw h refl

placed_contains : (before after p : String) → contains (before ++ (p ++ after)) p ≡ true
unfolding contains
placed_contains [] after p =
    rw (nil-append (p ++ after)) (starts_contains (p ++ after) p (rest_prefix p after))
placed_contains (c ∷ before) after p =
    rw (cons-append c before (p ++ after)) (ground (arith, placed_contains before after p))

pub Occurs-contains : (s p : String) → Occurs p s → contains s p ≡ true
Occurs-contains s p (before, after, e) = rw e (placed_contains before after p)
