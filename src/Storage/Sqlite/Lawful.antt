-- ===== src/Storage/Sqlite/Lawful.antt =====
-- The SQLite backend keeps the contract of a backend, over a driver that keeps its own.
use mcp_memory_core.Base.{
  ◌≡◌, refl, inl, inr, Option-cases, ap, ◌∙◌, String, Option, none, some, List, arith,
}
use mcp_memory_core.Errors.{GoError}
use mcp_memory_core.Storage.{Entity, Ctx, Answer, ok, err, last_with}
use mcp_memory_core.Storage.Lawful.{Implements}
use mcp_memory_core.Storage.Sqlite.{sqlite_backend, create_entities, get_entity, observations_of}
use mcp_memory_core.Storage.Sqlite.Driver.{SqlDriver, IsDriver, Row}
use mcp_memory_core.Storage.Sqlite.Insert.{Updates}
use mcp_memory_core.Storage.Sqlite.Create.{create_entities-Updates, create_fails_whole}
use mcp_memory_core.Storage.Sqlite.Reads.{
  Holds-readable, found_views, search_view, stored, entity_in, readable,
}

module _ (d : SqlDriver) (l : IsDriver d) where
  split_fails :
      (db : d.Db) (r : d.Db × Option GoError) (e : GoError) → r.1 ≡ some e → r ≡ (r.0, some e)
  split_fails db (db', o) e h = ap (λ x. (db', x)) h

  split_ok : (db : d.Db) (r : d.Db × Option GoError) → r.1 ≡ none → r ≡ (r.0, none)
  split_ok db (db', o) h = ap (λ x. (db', x)) h

  -- The laws of the interface in every state, with the entities that the table's rows decode to as
  -- what a state shows.
  abbrev pub IsEntityTable : Type 0
  unfolding sqlite_backend stored
  IsEntityTable = Implements (sqlite_backend d) (λ db. Unit) (stored d l)

  -- Over a driver that keeps its laws, the SQLite backend keeps the laws of the interface in every
  -- state, with the entities that the table's rows decode to as what a state shows: a failed batch
  -- changes nothing, an accepted one stores the last entity under each of its IDs up to the creation
  -- time, and what is read or found is stored.
  pub sqlite_backend-Implements : IsEntityTable
  unfolding IsEntityTable sqlite_backend get_entity stored entity_in
  sqlite_backend-Implements = record {
    create-Inv = λ db ctx es h. tt;
    create_fails = λ db ctx es e k h. ap (entity_in d l) (
        create_fails_whole d l k ctx es db (create_entities d db ctx es).0 e
          (split_fails db (create_entities d db ctx es) e h));
    create_others = λ db ctx es k h absent. ap (entity_in d l) (
        (create_entities-Updates d l k ctx es db (create_entities d db ctx es).0
            (split_ok db (create_entities d db ctx es) h)).absent
          absent);
    create_stores = λ db ctx es k e h last.
        let (r, there, holds) =
          (create_entities-Updates d l k ctx es db (create_entities d db ctx es).0
              (split_ok db (create_entities d db ctx es) h)).present
            e last in
        let (x, read, same) = Holds-readable d l e r holds in
        (x, ap (entity_in d l) there ∙ read, same.0);
    get_views = λ db ctx k o h.
        found_views d l (d.select_id db ctx k) (l.table db k) o (λ r. l.select_table db ctx k r) h;
    search_views = λ db ctx query es v h. search_view d l db ctx query es h;
  }

  read_row :
      (r : Row) (a : Answer (List String)) (x : Entity)
      → readable d l r a ≡ some x
      → r.created_at ≡ x.created_at
  read_row r (ok observations) x h = ground arith
  read_row r (err e) x h = absurd (cc h)

  row_of_entity :
      (o : Option Row) (x : Entity)
      → entity_in d l o ≡ some x
      → (r : Row) × (o ≡ some r) × (r.created_at ≡ x.created_at)
  unfolding entity_in
  row_of_entity (some r) x h = (r, refl, read_row r (observations_of d r) x h)
  row_of_entity none x h = absurd (cc h)

  same_time :
      (r r' : Row) (o : Option Row) → o ≡ some r → o ≡ some r' → r.created_at ≡ r'.created_at
  same_time r r' o h k = let same : r ≡ r' = cc (h, k) in ap (λ (x : Row). x.created_at) same

  updated_keeps_time :
      (k : String) (es : List Entity) (before after : Option Row) (old : Entity)
      → Updates d l k es before after
      → entity_in d l before ≡ some old
      → (x : Entity) × (entity_in d l after ≡ some x) × (x.created_at ≡ old.created_at)
  updated_keeps_time k es before after old u h = elim (Option-cases (last_with k es)) [
    | inl absent ↦ (old, ap (entity_in d l) (u.absent absent) ∙ h, refl)
    | inr (e, last) ↦
        let (row, before_row, old_time) = row_of_entity before old h in
        let (r, there, holds) = u.present e last in
        let (r', there', kept) = u.keeps row before_row in
        let (x, read, same) = Holds-readable d l e r holds in
        (
          x,
          ap (entity_in d l) there ∙ read,
          same.1 ∙ same_time r r' after there there' ∙ kept ∙ old_time,
        )
  ]

  -- An entity that is stored keeps its creation time through every batch that is accepted, whether
  -- or not the batch has a new entity with its ID.
  pub created_at_kept :
      (ctx : Ctx) (es : List Entity) (db db' : d.Db) (k : String) (old : Entity)
      → create_entities d db ctx es ≡ (db', none)
      → stored d l db k ≡ some old
      → (x : Entity) × (stored d l db' k ≡ some x) × (x.created_at ≡ old.created_at)
  unfolding stored
  created_at_kept ctx es db db' k old h held =
      updated_keeps_time k es (l.table db k) (l.table db' k) old
        (create_entities-Updates d l k ctx es db db' h) held
