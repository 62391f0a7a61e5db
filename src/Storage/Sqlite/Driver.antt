-- ===== src/Storage/Sqlite/Driver.antt =====
-- database/sql with the SQLite driver, and encoding/json on lists of texts, as
-- internal/storage/sqlite.go uses them. They are not the repository's code: what they do is a
-- parameter, and what the backend relies on is IsDriver.
use mcp_memory_core.Base.{◌≡◌, String, ◌==◌, ℕ, false, Option, none, some, List, All, if◌then◌else◌}
use mcp_memory_core.Errors.{GoError}
use mcp_memory_core.Storage.{Time, Ctx, Answer, ok}

-- A row of the table "entities", with the observations as JSON text.
pub record Row : Type 0 where
  pub id : String
  pub name : String
  pub entity_type : String
  pub observations : String
  pub created_at : Time
  pub updated_at : Time

-- The rows of a SELECT: what each scan gives, and the error of the iteration, if any.
pub record Rows (A : Type 0) : Type 0 where
  pub scans : List (Answer A)
  pub failed : Option GoError

-- `Db` are the databases and `Tx` the open transactions. `upsert` is the prepared INSERT with its
-- ON CONFLICT clause.
pub record SqlDriver : Type 1 where
  pub Db : Type 0
  pub Tx : Type 0
  pub begin : Db → Ctx → Answer Tx
  pub prepare : Tx → Ctx → Option GoError
  pub upsert : Tx → Ctx → Row → Tx × Option GoError
  pub commit : Db → Tx → Db × Option GoError
  pub select_id : Db → Ctx → String → Answer (Option Row)
  pub select_all : Db → Ctx → Answer (Rows Row)
  pub select_like : Db → Ctx → String → Answer (Rows Row)
  pub count : Db → Ctx → Answer ℕ
  pub count_types : Db → Ctx → Answer (Rows (String × ℕ))
  pub marshal : List String → Answer String
  pub unmarshal : String → Answer (List String)

-- What ON CONFLICT(id) DO UPDATE leaves: everything is replaced but the creation time.
abbrev pub upserted : Option Row → Row → Row
upserted none row = row
upserted (some old) row = record row { created_at = old.created_at }

-- Tables are read by the primary key, a transaction sees its own writes, a commit publishes them or
-- leaves the table as it was, and JSON texts are read back as they were written.
pub record IsDriver (d : SqlDriver) : Type 1 where
  pub table : d.Db → String → Option Row
  pub tx_table : d.Tx → String → Option Row
  pub begin_table :
      (db : d.Db) (ctx : Ctx) (tx : d.Tx) (k : String)
      → d.begin db ctx ≡ ok tx
      → tx_table tx k ≡ table db k
  pub upsert_table :
      (tx tx' : d.Tx) (ctx : Ctx) (row : Row) (k : String)
      → d.upsert tx ctx row ≡ (tx', none)
      → tx_table tx' k
        ≡ (if row.id == k then some (upserted (tx_table tx k) row) else tx_table tx k)
  pub commit_table :
      (db db' : d.Db) (tx : d.Tx) (k : String)
      → d.commit db tx ≡ (db', none)
      → table db' k ≡ tx_table tx k
  pub commit_fails :
      (db db' : d.Db) (tx : d.Tx) (e : GoError) (k : String)
      → d.commit db tx ≡ (db', some e)
      → table db' k ≡ table db k
  pub select_table :
      (db : d.Db) (ctx : Ctx) (k : String) (o : Option Row)
      → d.select_id db ctx k ≡ ok o
      → o ≡ table db k
  pub all_table :
      (db : d.Db) (ctx : Ctx) (rows : Rows Row)
      → d.select_all db ctx ≡ ok rows
      → All (λ a. (r : Row) → a ≡ ok r → table db r.id ≡ some r) rows.scans
  pub like_table :
      (db : d.Db) (ctx : Ctx) (pattern : String) (rows : Rows Row)
      → d.select_like db ctx pattern ≡ ok rows
      → All (λ a. (r : Row) → a ≡ ok r → table db r.id ≡ some r) rows.scans
  pub marshal_text : (xs : List String) (s : String) → d.marshal xs ≡ ok s → (s == "") ≡ false
  pub round_trip : (xs : List String) (s : String) → d.marshal xs ≡ ok s → d.unmarshal s ≡ ok xs
