-- ===== src/Storage/Memory/Search.antt =====
-- SearchEntities of internal/storage/memory.go: which entities a query finds.
use mathlib.Core.List.{Mem, mem-cons_self, mem-cons_of_mem}
use Prim.Native.Char.{Char}
use mcp_memory_core.Base.{
  ◌≡◌, refl, subst, ◌⊎◌, ap, any, String, ◌==◌, eq_iff, true, none, some, List, [], ◌∷◌, arith, map,
  All, Bool-cases, inl, inr,
}
use mcp_memory_core.Base.Text.Occurs.{Occurs, contains-Occurs, Occurs-contains}
use mcp_memory_core.Base.Text.{contains, has_prefix, to_lower}
use mcp_memory_core.Base.Dict.{Dict, lookup, NodupKeys}
use mcp_memory_core.Storage.{Entity, Ctx, ok}
use mcp_memory_core.Storage.Memory.{
  MemoryBackend, contains_ignore_case, matches, search, search_entities,
}
use mcp_memory_core.Storage.Memory.Create.{IsKeyed, IsValid}

pub All-weaken :
    {P Q : Entity → Type 0} (xs : List Entity) → ((e : Entity) → P e → Q e) → All P xs → All Q xs
All-weaken [] f h = tt
All-weaken (x ∷ xs) f h = (f x h.0, All-weaken xs f h.1)

-- Some text of the list has the property.
abbrev pub Some : (String → Type 0) → List String → Type 0
Some P [] = ⊥
Some P (t ∷ ts) = P t ⊎ Some P ts

-- The lower-case query occurs in the lower-case name of the entity or in one of its observations.
abbrev pub Mentions : (Char → Char) → String → Entity → Type 0
Mentions u query e = Some (λ t. Occurs (to_lower u query) (to_lower u t)) (e.name ∷ e.observations)

any_mentions :
    (u : Char → Char) (query : String) (ts : List String)
    → any (λ t. contains_ignore_case u t query) ts ≡ true
    → Some (λ t. Occurs (to_lower u query) (to_lower u t)) ts
unfolding contains_ignore_case
any_mentions u query [] h = absurd (cc h)
any_mentions u query (t ∷ ts) h = elim (Bool-cases (contains_ignore_case u t query)) [
  | inl here ↦ inl (contains-Occurs (to_lower u t) (to_lower u query) here)
  | inr later ↦ inr (any_mentions u query ts (rw later at h))
]

mentions_any :
    (u : Char → Char) (query : String) (ts : List String)
    → Some (λ t. Occurs (to_lower u query) (to_lower u t)) ts
    → any (λ t. contains_ignore_case u t query) ts ≡ true
unfolding contains_ignore_case
mentions_any u query [] h = absurd h
mentions_any u query (t ∷ ts) (inl occurs) =
    rw (Occurs-contains (to_lower u t) (to_lower u query) occurs) refl
mentions_any u query (t ∷ ts) (inr later) = ground (arith, mentions_any u query ts later)

matches-Mentions :
    (u : Char → Char) (query : String) (e : Entity) → matches u query e ≡ true → Mentions u query e
unfolding matches
matches-Mentions u query e h = any_mentions u query (e.name ∷ e.observations) h

Mentions-matches :
    (u : Char → Char) (query : String) (e : Entity) → Mentions u query e → matches u query e ≡ true
unfolding matches
Mentions-matches u query e h = mentions_any u query (e.name ∷ e.observations) h

-- Stored under its own ID, and matched by the query.
abbrev pub IsHit : (Char → Char) → String → Dict Entity → Entity → Type 0
IsHit u query m e = (lookup e.id m ≡ some e) × Mentions u query e

later-IsHit :
    (u : Char → Char) (query k : String) (x : Entity) (m : Dict Entity)
    → lookup k m ≡ none
    → (e : Entity) → IsHit u query m e
    → IsHit u query ((k, x) ∷ m) e
unfolding lookup
later-IsHit u query k x m fresh e h = (ground (arith, eq_iff k e.id), h.1)

search_hits :
    (u : Char → Char) (query : String) (m : Dict Entity)
    → NodupKeys m
    → IsKeyed m
    → All (IsHit u query m) (search u query m)
unfolding search
search_hits u query [] n h = tt
search_hits u query ((k, e) ∷ m) n h =
    let rest =
      All-weaken (search u query m) (later-IsHit u query k e m n.0)
        (search_hits u query m n.1 h.2) in
    elim (Bool-cases (matches u query e)) [
      | inl hit ↦
          rw hit
            ((unfold lookup in ground (arith, eq_iff k e.id), matches-Mentions u query e hit), rest)
      | inr miss ↦ rw miss rest
    ]

-- Every entity that a search of a valid backend answers is stored under its ID, and the query occurs in
-- its name or in one of its observations, all of them in lower case.
pub search_sound :
    (u : Char → Char) (query : String) (m : MemoryBackend) (ctx : Ctx) (es : List Entity)
    → IsValid m
    → search_entities u m ctx query ≡ ok es
    → All (IsHit u query m.entities) es
unfolding search_entities
search_sound u query m ctx es v h =
    let found : search u query m.entities ≡ es = ground arith in
    subst (All (IsHit u query m.entities)) found (search_hits u query m.entities v.unique v.keyed)

matched_found :
    (u : Char → Char) (query k : String) (m : Dict Entity) (e : Entity)
    → lookup k m ≡ some e
    → matches u query e ≡ true
    → Mem e (search u query m)
unfolding search lookup
matched_found u query k [] e h hit = cc
matched_found u query k ((j, x) ∷ m) e h hit = elim (Bool-cases (j == k)) [
  | inl same ↦
      let x-eq : x ≡ e = ground arith in
      let x_hit : matches u query x ≡ true = rw x-eq hit in rw (x_hit, x-eq) mem-cons_self
  | inr other ↦
      let rest = matched_found u query k m e (ground arith) hit in
      elim (Bool-cases (matches u query x)) [
        | inl x_hit ↦ rw x_hit (mem-cons_of_mem _ rest)
        | inr miss ↦ rw miss rest
      ]
]

-- With a context that is not done, a search succeeds, and it answers every stored entity in whose name
-- or observations the query occurs, all of them in lower case.
pub search_complete :
    (u : Char → Char) (query k : String) (m : MemoryBackend) (ctx : Ctx) (e : Entity)
    → ctx 0 ≡ none
    → lookup k m.entities ≡ some e
    → Mentions u query e
    → (es : List Entity) × (search_entities u m ctx query ≡ ok es) × Mem e es
unfolding search_entities
search_complete u query k m ctx e live h mentioned = (
  search u query m.entities,
  rw live refl,
  matched_found u query k m.entities e h (Mentions-matches u query e mentioned),
)

contains-empty : (s : String) → contains s "" ≡ true
unfolding contains has_prefix
contains-empty String.[] = refl
contains-empty (String.◌∷◌ c s) = refl

matches-empty : (u : Char → Char) (e : Entity) → matches u "" e ≡ true
unfolding matches to_lower
matches-empty u e = rw (contains-empty (to_lower u e.name)) refl

-- The empty query finds every entity, in the order in which the map is visited.
pub search-empty : (u : Char → Char) (m : Dict Entity) → search u "" m ≡ map (λ (k, e). e) m
unfolding search
search-empty u [] = refl
search-empty u ((k, e) ∷ m) = rw (matches-empty u e) (ap (◌∷◌ e) (search-empty u m))
