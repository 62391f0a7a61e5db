-- ===== src/Storage/Sqlite/Reads.antt =====
-- What the reading methods of internal/storage/sqlite.go answer.
use Prim.Native.String.{◌++◌}
use mcp_memory_core.Base.{
  ◌≡◌, refl, inl, inr, Bool-cases, ap, ◌∙◌, subst, String, ◌==◌, Option, none, some, List, [], ◌∷◌,
  All, arith,
}
use mcp_memory_core.Errors.{GoError}
use mcp_memory_core.Storage.{Entity, Ctx, Answer, ok, err, SameContent}
use mcp_memory_core.Storage.Sqlite.{
  search_entities, some_entity, found_row, found_rows, decode_rows, scanned, ◌and_then◌,
  decoded_row, observations_of, entity_with,
}
use mcp_memory_core.Storage.Sqlite.Driver.{SqlDriver, IsDriver, Row, Rows}
use mcp_memory_core.Storage.Sqlite.Insert.{Holds}

module _ (d : SqlDriver) (l : IsDriver d) where
  abbrev pub readable : Row → Answer (List String) → Option Entity
  readable r (ok observations) = some (entity_with d r observations)
  readable r (err e) = none

  -- The entity of a row, if its observations can be read.
  unfoldable pub entity_in : Option Row → Option Entity
  unfolding observations_of
  entity_in none = none
  entity_in (some r) = readable r (observations_of d r)

  -- What a client sees under an ID.
  unfoldable pub stored : d.Db → String → Option Entity
  unfolding entity_in
  stored db k = entity_in (l.table db k)

  pub Holds-readable :
      (e : Entity) (r : Row)
      → Holds d l e r
      → (x : Entity) × (entity_in (some r) ≡ some x)
        × (SameContent x e × (x.created_at ≡ r.created_at))
  unfolding entity_in observations_of
  Holds-readable e r h =
      let text_given = l.marshal_text e.observations h.text h.marshals in
      let back = l.round_trip e.observations h.text h.marshals in
      (
        record e { created_at = r.created_at },
        rw (h.row, text_given, back) refl,
        (
          record {
            id = refl;
            name = refl;
            entity_type = refl;
            observations = refl;
            updated_at = refl;
          },
          refl,
        ),
      )

  decoded_views :
      (message : String) (r : Row) (a : Answer (List String)) (o : Option Entity)
      → some_entity d (decoded_row d message r a) ≡ ok o
      → o ≡ readable r a
  unfolding decoded_row
  decoded_views message r (ok observations) o h = ground arith
  decoded_views message r (err e) o h = absurd (cc h)

  pub found_views :
      (a : Answer (Option Row)) (row : Option Row) (o : Option Entity)
      → ((r : Option Row) → a ≡ ok r → r ≡ row)
      → found_row d a ≡ ok o
      → o ≡ entity_in row
  unfolding found_row entity_in
  found_views (ok none) row o reads h =
      let is_none : o ≡ none = ground arith in is_none ∙ ap entity_in (reads none refl)
  found_views (ok (some r)) row o reads h =
      decoded_views "Failed to unmarshal observations" r (observations_of d r) o h
      ∙ ap entity_in (reads (some r) refl)
  found_views (err e) row o reads h = absurd (cc h)

  both :
      (a : Answer Entity) (rest : Answer (List Entity)) (es : List Entity)
      → ◌and_then◌ d a rest ≡ ok es
      → (x : Entity) × (xs : List Entity) × (a ≡ ok x) × (rest ≡ ok xs) × (es ≡ x ∷ xs)
  both (ok x) (ok xs) es h = (x, xs, refl, refl, ground arith)
  both (ok x) (err e) es h = absurd (cc h)
  both (err e) rest es h = absurd (cc h)

  decoded_entity :
      (message : String) (r : Row) (a : Answer (List String)) (x : Entity)
      → decoded_row d message r a ≡ ok x
      → (readable r a ≡ some x) × (r.id ≡ x.id)
  unfolding decoded_row
  decoded_entity message r (ok observations) x h =
      let same : entity_with d r observations ≡ x = ground arith in
      (ap some same, ap (λ (e : Entity). e.id) same)
  decoded_entity message r (err e) x h = absurd (cc h)

  scanned_views :
      (db : d.Db) (a : Answer Row) (x : Entity)
      → ((r : Row) → a ≡ ok r → l.table db r.id ≡ some r)
      → scanned d a ≡ ok x
      → stored db x.id ≡ some x
  unfolding scanned stored entity_in
  scanned_views db (ok r) x reads h =
      let (read, same) =
        decoded_entity "Failed to unmarshal observations from search results" r
          (observations_of d r) x h in
      subst (λ k. entity_in (l.table db k) ≡ some x) same (ap entity_in (reads r refl) ∙ read)
  scanned_views db (err e) x reads h = absurd (cc h)

  rows_view :
      (db : d.Db) (scans : List (Answer Row)) (failed : Option GoError) (es : List Entity)
      → All (λ a. (r : Row) → a ≡ ok r → l.table db r.id ≡ some r) scans
      → decode_rows d scans failed ≡ ok es
      → All (λ e. stored db e.id ≡ some e) es
  unfolding decode_rows
  rows_view db [] none [] reads h = tt
  rows_view db [] none (x ∷ xs) reads h = absurd (cc h)
  rows_view db [] (some e) es reads h = absurd (cc h)
  rows_view db (a ∷ scans) failed es reads h =
      let (x, xs, first, others, split) = both (scanned d a) (decode_rows d scans failed) es h in
      rw split (scanned_views db a x reads.0 first, rows_view db scans failed xs reads.1 others)

  found_rows_view :
      (db : d.Db) (a : Answer (Rows Row)) (es : List Entity)
      → ((rows : Rows Row)
          → a ≡ ok rows
          → All (λ a. (r : Row) → a ≡ ok r → l.table db r.id ≡ some r) rows.scans)
      → found_rows d a ≡ ok es
      → All (λ e. stored db e.id ≡ some e) es
  unfolding found_rows
  found_rows_view db (ok rows) es reads h =
      rows_view db rows.scans rows.failed es (reads rows refl) h
  found_rows_view db (err e) es reads h = absurd (cc h)

  pub search_view :
      (db : d.Db) (ctx : Ctx) (query : String) (es : List Entity)
      → search_entities d db ctx query ≡ ok es
      → All (λ e. stored db e.id ≡ some e) es
  unfolding search_entities
  search_view db ctx query es h = elim (Bool-cases (query == "")) [
    | inl empty ↦ found_rows_view db (d.select_all db ctx) es (l.all_table db ctx) (rw empty at h)
    | inr given ↦
        found_rows_view db (d.select_like db ctx ("%" ++ query ++ "%")) es
          (l.like_table db ctx ("%" ++ query ++ "%")) (rw given at h)
  ]
