-- ===== src/Storage/Sqlite.antt =====
-- internal/storage/sqlite.go: the SQLite backend, over a driver. Logging is left out, and so are the
-- opening of the database and its schema. The calls of the driver poll the context one after another.
pub mod Driver
pub mod Insert
pub mod Create
pub mod Reads
pub mod Lawful
use Prim.Native.String.{◌++◌}
use mcp_memory_core.Base.{
  ℕ, suc, ◌+◌, String, ◌==◌, Bool, true, false, Option, none, some, List, [], ◌∷◌, if◌then◌else◌,
}
use mcp_memory_core.Base.Text.{contains, trim_space}
use mcp_memory_core.Base.Dict.{Dict, insert}
use mcp_memory_core.Errors.{GoError, app, new, wrap_error, error_text}
use mcp_memory_core.Errors.Codes.{
  ErrorCode, storage_connection, storage_invalid_query, storage_conflict, storage_transaction,
  validation_required,
}
use mcp_memory_core.Storage.{Entity, Ctx, later, Answer, ok, err, Backend}
use Driver.{SqlDriver, Row, Rows}

-- errors.Wrap and errors.Wrapf of an error that is not nil.
abbrev pub wrapped : ErrorCode → String → GoError → GoError
unfolding wrap_error
wrapped code message e = app (wrap_error e code message)

abbrev pub row_of : Entity → String → Row
row_of e observations = record {
  id = e.id;
  name = e.name;
  entity_type = e.entity_type;
  observations = observations;
  created_at = e.created_at;
  updated_at = e.updated_at;
}

-- The error of an INSERT.
unfoldable pub insert_error : String → GoError → GoError
unfolding wrapped contains error_text
insert_error id e =
    if contains (error_text e) "UNIQUE constraint failed"
    then wrapped storage_conflict ("Entity with ID " ++ id ++ " already exists") e
    else wrapped storage_invalid_query ("Failed to insert entity " ++ id) e

module _ (d : SqlDriver) where
  abbrev pub executed :
      String → (d.Tx → d.Tx × Option GoError) → d.Tx × Option GoError → d.Tx × Option GoError
  unfolding insert_error
  executed id rest (tx, some e) = (tx, some (insert_error id e))
  executed id rest (tx, none) = rest tx

  abbrev pub marshaled :
      Ctx → Entity → (d.Tx → d.Tx × Option GoError) → Answer String → d.Tx → d.Tx × Option GoError
  unfolding wrapped executed
  marshaled ctx e rest (err f) tx = (
    tx,
    some (wrapped storage_invalid_query ("Failed to marshal observations for entity " ++ e.id) f),
  )
  marshaled ctx e rest (ok text) tx = executed e.id rest (d.upsert tx ctx (row_of e text))

  -- The loop over the entities.
  unfoldable pub insert_all : Ctx → List Entity → d.Tx → d.Tx × Option GoError
  unfolding trim_space new marshaled
  insert_all ctx [] tx = (tx, none)
  insert_all ctx (e ∷ es) tx =
      if trim_space e.id == ""
      then (tx, some (app (new validation_required "Entity ID cannot be empty or whitespace-only")))
      else marshaled ctx e (λ after. insert_all (later 1 ctx) es after) (d.marshal e.observations)
          tx

  abbrev pub committed : d.Db × Option GoError → d.Db × Option GoError
  unfolding wrapped
  committed (db, none) = (db, none)
  committed (db, some e) =
      (db, some (wrapped storage_transaction "Failed to commit database transaction" e))

  -- A transaction that fails is rolled back.
  abbrev pub inserted : d.Db → d.Tx × Option GoError → d.Db × Option GoError
  unfolding committed
  inserted db (tx, some e) = (db, some e)
  inserted db (tx, none) = committed (d.commit db tx)

  abbrev pub prepared : Ctx → List Entity → d.Db → d.Tx → Option GoError → d.Db × Option GoError
  unfolding wrapped inserted insert_all
  prepared ctx es db tx (some e) =
      (db, some (wrapped storage_invalid_query "Failed to prepare insert statement" e))
  prepared ctx es db tx none = inserted db (insert_all (later 2 ctx) es tx)

  abbrev pub begun : Ctx → List Entity → d.Db → Answer d.Tx → d.Db × Option GoError
  unfolding wrapped prepared
  begun ctx es db (err e) = (db, some (wrapped storage_connection "Failed to begin transaction" e))
  begun ctx es db (ok tx) = prepared ctx es db tx (d.prepare tx (later 1 ctx))

  unfoldable pub create_entities : d.Db → Ctx → List Entity → d.Db × Option GoError
  unfolding begun
  create_entities db ctx [] = (db, none)
  create_entities db ctx (e ∷ es) = begun ctx (e ∷ es) db (d.begin db ctx)

  abbrev pub entity_with : Row → List String → Entity
  entity_with r observations = record {
    id = r.id;
    name = r.name;
    entity_type = r.entity_type;
    observations = observations;
    created_at = r.created_at;
    updated_at = r.updated_at;
  }

  -- An empty text stands for no observations.
  unfoldable pub observations_of : Row → Answer (List String)
  observations_of r = if r.observations == "" then ok [] else d.unmarshal r.observations

  abbrev pub decoded_row : String → Row → Answer (List String) → Answer Entity
  unfolding wrapped
  decoded_row message r (ok observations) = ok (entity_with r observations)
  decoded_row message r (err e) = err (wrapped storage_invalid_query message e)

  abbrev pub some_entity : Answer Entity → Answer (Option Entity)
  some_entity (ok e) = ok (some e)
  some_entity (err e) = err e

  abbrev pub found_row : Answer (Option Row) → Answer (Option Entity)
  unfolding wrapped decoded_row observations_of
  found_row (err e) = err (wrapped storage_connection "Failed to scan entity from database" e)
  found_row (ok none) = ok none
  found_row (ok (some r)) =
      some_entity (decoded_row "Failed to unmarshal observations" r (observations_of r))

  unfoldable pub get_entity : d.Db → Ctx → String → Answer (Option Entity)
  unfolding found_row
  get_entity db ctx id = found_row (d.select_id db ctx id)

  infixr 4 ◌and_then◌
  abbrev pub ◌and_then◌ : Answer Entity → Answer (List Entity) → Answer (List Entity)
  err e and_then rest = err e
  ok x and_then err e = err e
  ok x and_then ok xs = ok (x ∷ xs)

  abbrev pub scanned : Answer Row → Answer Entity
  unfolding wrapped decoded_row observations_of
  scanned (err e) = err (wrapped storage_connection "Failed to scan entity from search results" e)
  scanned (ok r) =
      decoded_row "Failed to unmarshal observations from search results" r (observations_of r)

  unfoldable pub decode_rows : List (Answer Row) → Option GoError → Answer (List Entity)
  unfolding scanned wrapped
  decode_rows [] none = ok []
  decode_rows [] (some e) = err (wrapped storage_connection "Error iterating over search results" e)
  decode_rows (a ∷ rest) failed = scanned a and_then decode_rows rest failed

  abbrev pub found_rows : Answer (Rows Row) → Answer (List Entity)
  unfolding wrapped decode_rows
  found_rows (err e) = err (wrapped storage_connection "Failed to query entities" e)
  found_rows (ok rows) = decode_rows rows.scans rows.failed

  unfoldable pub search_entities : d.Db → Ctx → String → Answer (List Entity)
  unfolding found_rows
  search_entities db ctx query =
      if query == ""
      then found_rows (d.select_all db ctx)
      else found_rows (d.select_like db ctx ("%" ++ query ++ "%"))

  unfoldable pub type_stats : List (Answer (String × ℕ)) → Option GoError → Dict ℕ → Answer (Dict ℕ)
  unfolding insert wrapped
  type_stats [] none stats = ok stats
  type_stats [] (some e) stats =
      err (wrapped storage_connection "Error iterating over entity type statistics" e)
  type_stats (ok (t, n) ∷ rest) failed stats =
      type_stats rest failed (if t == "" then stats else insert ("type_" ++ t) n stats)
  type_stats (err e ∷ rest) failed stats =
      err (wrapped storage_connection "Failed to scan entity type count" e)

  abbrev pub grouped : ℕ → Answer (Rows (String × ℕ)) → Answer (Dict ℕ)
  unfolding wrapped type_stats
  grouped total (err e) = err (wrapped storage_connection "Failed to query entity counts by type" e)
  grouped total (ok rows) = type_stats rows.scans rows.failed (("entities", total) ∷ [])

  abbrev pub counted : d.Db → Ctx → Answer ℕ → Answer (Dict ℕ)
  unfolding wrapped grouped
  counted db ctx (err e) = err (wrapped storage_connection "Failed to get total entity count" e)
  counted db ctx (ok total) = grouped total (d.count_types db (later 1 ctx))

  unfoldable pub get_statistics : d.Db → Ctx → Answer (Dict ℕ)
  unfolding counted
  get_statistics db ctx = counted db ctx (d.count db ctx)

  unfoldable pub sqlite_backend : Backend
  sqlite_backend = record {
    State = d.Db;
    create_entities = create_entities;
    get_entity = get_entity;
    search_entities = search_entities;
    get_statistics = get_statistics;
  }
