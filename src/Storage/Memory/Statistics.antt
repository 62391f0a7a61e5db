-- ===== src/Storage/Memory/Statistics.antt =====
-- GetStatistics of internal/storage/memory.go: the counts are exact.
use Prim.Native.String.{◌++◌}
use Prim.Native.String.{compare}
use Prim.Native.String.compare.{cons-cons}
use text.Mathlib.Text.{is_eq}
use text.Mathlib.TextLemmas.{append_cancel_left, cons-append}
use mcp_memory_core.Base.{
  ℕ, ◌+◌, ◌≡◌, refl, ◌≢◌, ap, ◌∙◌, String, ◌==◌, eq_iff, false, Option, none, some, [], ◌∷◌, arith,
  length, Bool-cases, inl, inr, eqb, if◌then◌else◌,
}
use mcp_memory_core.Base.Dict.{Dict, lookup, insert, lookup-insert, NodupKeys, insert-NodupKeys}
use mcp_memory_core.Storage.{Entity}
use mcp_memory_core.Storage.Memory.{count_or_zero, bump, type_counts, add_types, statistics}
use mcp_memory_core.Storage.Memory.Create.{or_else}

-- How many entities have the type.
abbrev pub count_type : String → Dict Entity → ℕ
count_type t [] = 0
count_type t ((k, e) ∷ m) = if e.entity_type == t then count_type t m + 1 else count_type t m

-- What typeCounts[t] holds once `n` more entities of the type have been counted.
abbrev counted : ℕ → Option ℕ → Option ℕ
counted n none = if eqb n 0 then none else some n
counted n (some k) = some (k + n)

lookup-bump :
    (t s : String) (counts : Dict ℕ)
    → t ≢ ""
    → lookup t (bump s counts)
      ≡ (if s == t then some (count_or_zero (lookup t counts) + 1) else lookup t counts)
unfolding bump
lookup-bump t s counts h =
    ground (
      arith,
      eq_iff s t,
      eq_iff s "",
      lookup-insert t s (count_or_zero (lookup s counts) + 1) counts,
    )

lookup-type_counts :
    (t : String) (m : Dict Entity) (counts : Dict ℕ)
    → t ≢ ""
    → lookup t (type_counts m counts) ≡ counted (count_type t m) (lookup t counts)
unfolding type_counts
lookup-type_counts t [] counts h = ground arith
lookup-type_counts t ((k, e) ∷ m) counts h = ground (
  arith,
  lookup-type_counts t m (bump e.entity_type counts) h,
  lookup-bump t e.entity_type counts h,
)

bump-NodupKeys : (t : String) (counts : Dict ℕ) → NodupKeys counts → NodupKeys (bump t counts)
unfolding bump
bump-NodupKeys t counts n = elim (Bool-cases (t == "")) [
  | inl e ↦ rw e n
  | inr e ↦ rw e (insert-NodupKeys t (count_or_zero (lookup t counts) + 1) counts n)
]

type_counts-NodupKeys :
    (m : Dict Entity) (counts : Dict ℕ) → NodupKeys counts → NodupKeys (type_counts m counts)
unfolding type_counts
type_counts-NodupKeys [] counts n = n
type_counts-NodupKeys ((k, e) ∷ m) counts n =
    type_counts-NodupKeys m (bump e.entity_type counts) (bump-NodupKeys e.entity_type counts n)

same_type_key : (s t : String) → (("type_" ++ s) == ("type_" ++ t)) ≡ (s == t)
same_type_key s t = elim (Bool-cases (s == t)) [
  | inl e ↦ ground (arith, eq_iff s t, eq_iff ("type_" ++ s) ("type_" ++ t))
  | inr e ↦
      ground
        (arith, eq_iff s t, eq_iff ("type_" ++ s) ("type_" ++ t), append_cancel_left "type_" s t)
]

lookup-add_types :
    (t : String) (counts stats : Dict ℕ)
    → NodupKeys counts
    → lookup ("type_" ++ t) (add_types counts stats)
      ≡ or_else (lookup t counts) (lookup ("type_" ++ t) stats)
unfolding add_types lookup
lookup-add_types t [] stats n = refl
lookup-add_types t ((s, c) ∷ counts) stats n = ground (
  arith,
  lookup-add_types t counts (insert ("type_" ++ s) c stats) n.1,
  lookup-insert ("type_" ++ t) ("type_" ++ s) c stats,
  same_type_key s t,
  eq_iff s t,
)

entities_key : (t : String) → (("type_" ++ t) == "entities") ≡ false
entities_key t =
    ap (λ s. is_eq (compare s "entities")) (cons-append "t" "ype_" t)
    ∙ ap is_eq (cons-cons "t" "e" ("ype_" ++ t) "ntities")

lookup-add_types_entities :
    (counts stats : Dict ℕ) → lookup "entities" (add_types counts stats) ≡ lookup "entities" stats
unfolding add_types
lookup-add_types_entities [] stats = refl
lookup-add_types_entities ((s, c) ∷ counts) stats = ground (
  arith,
  lookup-add_types_entities counts (insert ("type_" ++ s) c stats),
  lookup-insert "entities" ("type_" ++ s) c stats,
  entities_key s,
)

-- The key "entities" has the number of stored entities. For every type but the empty one, its key
-- has the number of entities of that type, and is missing when there is none.
pub statistics_exact :
    (m : Dict Entity) (t : String)
    → t ≢ ""
    → (lookup "entities" (statistics m) ≡ some (length m))
      × (lookup ("type_" ++ t) (statistics m)
          ≡ (if eqb (count_type t m) 0 then none else some (count_type t m)))
unfolding statistics lookup
statistics_exact m t h = (
  lookup-add_types_entities (type_counts m []) (("entities", length m) ∷ []),
  ground (
    arith,
    lookup-add_types t (type_counts m []) (("entities", length m) ∷ [])
        (type_counts-NodupKeys m [] tt),
    lookup-type_counts t m [] h,
    entities_key t,
    eq_iff "entities" ("type_" ++ t),
    eq_iff ("type_" ++ t) "entities",
  ),
)
