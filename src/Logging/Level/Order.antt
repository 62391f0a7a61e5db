-- ===== src/Logging/Level/Order.antt =====
-- The level of a component (pkg/logging/level.go) and the order of the map of levels.
use mcp_memory_core.Base.{
  ◌≡◌, refl, sym, ap, ◌∙◌, inl, inr, String, ◌==◌, eq_iff, true, Option, none, some, [], ◌∷◌, arith,
  Bool-cases, Option-cases, eq_of_test,
}
use mcp_memory_core.Base.Int.{ℤ}
use mcp_memory_core.Base.Dict.{Dict, NodupKeys, lookup}
use mcp_memory_core.Logging.Level.{
  LevelHandler, is_under, wildcard_level, exact_or, level_for, new_level_handler, wildcard_level,
}

-- A pattern of the map that the component falls under, with its level.
abbrev pub Covers : String → Dict ℤ → String → ℤ → Type 0
Covers component m pattern level =
    (lookup pattern m ≡ some level) × (is_under component pattern ≡ true)

later-Covers :
    (component k : String) (n : ℤ) (m : Dict ℤ) (p : String) (level : ℤ)
    → lookup k m ≡ none
    → Covers component m p level
    → Covers component ((k, n) ∷ m) p level
unfolding lookup
later-Covers component k n m p level fresh (held, under) =
    (ground (arith, eq_iff k p, fresh, held), under)

wildcard-Covers :
    (component : String) (m : Dict ℤ) (level : ℤ)
    → NodupKeys m
    → wildcard_level component m ≡ some level
    → (p : String) × Covers component m p level
unfolding wildcard_level lookup
wildcard-Covers component [] level nodup h = absurd (cc h)
wildcard-Covers component ((k, n) ∷ m) level nodup h = elim (Bool-cases (is_under component k)) [
  | inl under ↦ (k, (ground (arith, eq_iff k k), under))
  | inr not_under ↦
      let (p, covers) = wildcard-Covers component m level nodup.1 (rw not_under at h) in
      (p, later-Covers component k n m p level nodup.0 covers)
]

-- A pattern that covers the component is found, or another.
wildcard_some :
    (component : String) (m : Dict ℤ) (p : String) (level : ℤ)
    → Covers component m p level
    → (other : ℤ) × (wildcard_level component m ≡ some other)
unfolding wildcard_level lookup
wildcard_some component [] p level (held, under) = absurd (cc held)
wildcard_some component ((k, n) ∷ m) p level (held, under) =
    elim (Bool-cases (is_under component k)) [
      | inl here ↦ (n, rw here refl)
      | inr not_here ↦ elim (Bool-cases (k == p)) [
        | inl same ↦ absurd (cc (not_here, under, eq_of_test k p same))
        | inr other ↦
            let (found, at) = wildcard_some component m p level (rw other at held, under) in
            (found, rw not_here at)
      ]
    ]

-- The patterns of the map that the component falls under have one level.
abbrev pub Agrees : String → Dict ℤ → Type 0
Agrees component m =
    (p q : String) (a b : ℤ) → Covers component m p a → Covers component m q b → a ≡ b

wildcard_same :
    (component : String) (m m' : Dict ℤ)
    → NodupKeys m
    → NodupKeys m'
    → ((k : String) → lookup k m ≡ lookup k m')
    → Agrees component m
    → wildcard_level component m ≡ wildcard_level component m'
wildcard_same component m m' nodup nodup' same agree =
    elim (Option-cases (wildcard_level component m)) [
      | inl missing ↦ elim (Option-cases (wildcard_level component m')) [
        | inl missing' ↦ missing ∙ sym missing'
        | inr (x, found') ↦
            let (p, (held, under)) = wildcard-Covers component m' x nodup' found' in
            let (y, found) = wildcard_some component m p x (same p ∙ held, under) in
            absurd (cc (found, missing))
      ]
      | inr (x, found) ↦
          let (p, (held, under)) = wildcard-Covers component m x nodup found in
          let (y, found') = wildcard_some component m' p x (sym (same p) ∙ held, under) in
          let (q, (held', under')) = wildcard-Covers component m' y nodup' found' in
          found ∙ ap some (agree p q x y (held, under) (same q ∙ held', under')) ∙ sym found'
    ]

exact_same :
    (component : String) (lh lh' : LevelHandler) (o : Option ℤ)
    → lh.default_level ≡ lh'.default_level
    → wildcard_level component lh.component_levels ≡ wildcard_level component lh'.component_levels
    → exact_or component lh o ≡ exact_or component lh' o
unfolding exact_or
exact_same component lh lh' (some level) d w = refl
exact_same component lh lh' none d w = rw (d, w) refl

-- The level of a component does not depend on the order in which the map of levels is visited,
-- where the patterns that the component falls under have one level.
pub level_order_free :
    (component : String) (lh lh' : LevelHandler)
    → NodupKeys lh.component_levels
    → NodupKeys lh'.component_levels
    → lh.default_level ≡ lh'.default_level
    → ((k : String) → lookup k lh.component_levels ≡ lookup k lh'.component_levels)
    → Agrees component lh.component_levels
    → level_for component lh ≡ level_for component lh'
unfolding level_for
level_order_free component lh lh' nodup nodup' same_default same agree = rw (same component) (
    exact_same component lh lh' (lookup component lh'.component_levels) same_default
      (wildcard_same component lh.component_levels lh'.component_levels nodup nodup' same agree))

-- A new handler has one level for all components.
pub level_for-new :
    (component : String) (level : ℤ) → level_for component (new_level_handler level) ≡ level
unfolding level_for exact_or new_level_handler wildcard_level lookup
level_for-new component level = refl
