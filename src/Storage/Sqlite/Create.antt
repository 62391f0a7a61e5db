-- ===== src/Storage/Sqlite/Create.antt =====
-- CreateEntities of internal/storage/sqlite.go: what the table holds afterwards.
use mcp_memory_core.Base.{◌≡◌, refl, sym, subst, ap, ◌∙◌, String, Option, none, some, List, [], ◌∷◌}
use mcp_memory_core.Errors.{GoError}
use mcp_memory_core.Storage.{Entity, Ctx, later, Answer, ok, err, last_with}
use mcp_memory_core.Storage.Sqlite.{
  insert_all, inserted, committed, prepared, begun, create_entities,
}
use mcp_memory_core.Storage.Sqlite.Driver.{SqlDriver, IsDriver}
use mcp_memory_core.Storage.Sqlite.Insert.{Updates, insert_all-Updates}

module _ (d : SqlDriver) (l : IsDriver d) where
  committed-Updates :
      (k : String) (es : List Entity) (db db' : d.Db) (tx : d.Tx) (r : d.Db × Option GoError)
      → d.commit db tx ≡ r
      → committed d r ≡ (db', none)
      → Updates d l k es (l.table db k) (l.tx_table tx k)
      → Updates d l k es (l.table db k) (l.table db' k)
  unfolding committed
  committed-Updates k es db db' tx (last, none) c h u =
      subst (Updates d l k es (l.table db k))
        (sym (l.commit_table db last tx k c) ∙ ap (λ x. l.table x k) (ap (λ p. p.0) h)) u
  committed-Updates k es db db' tx (last, some e) c h u = absurd (cc h)

  inserted-Updates :
      (k : String) (ctx : Ctx) (es : List Entity) (db db' : d.Db) (tx : d.Tx)
      (r : d.Tx × Option GoError)
      → insert_all d ctx es tx ≡ r
      → l.tx_table tx k ≡ l.table db k
      → inserted d db r ≡ (db', none)
      → Updates d l k es (l.table db k) (l.table db' k)
  unfolding inserted
  inserted-Updates k ctx es db db' tx (last, none) go same h =
      committed-Updates k es db db' last (d.commit db last) refl h (
        subst (λ o. Updates d l k es o (l.tx_table last k)) same
          (insert_all-Updates d l k ctx es tx last go))
  inserted-Updates k ctx es db db' tx (last, some e) go same h = absurd (cc h)

  prepared-Updates :
      (k : String) (ctx : Ctx) (es : List Entity) (db db' : d.Db) (tx : d.Tx) (o : Option GoError)
      → l.tx_table tx k ≡ l.table db k
      → prepared d ctx es db tx o ≡ (db', none)
      → Updates d l k es (l.table db k) (l.table db' k)
  unfolding prepared
  prepared-Updates k ctx es db db' tx none same h =
      inserted-Updates k (later 2 ctx) es db db' tx (insert_all d (later 2 ctx) es tx) refl same h
  prepared-Updates k ctx es db db' tx (some e) same h = absurd (cc h)

  begun-Updates :
      (k : String) (ctx : Ctx) (es : List Entity) (db db' : d.Db) (a : Answer d.Tx)
      → d.begin db ctx ≡ a
      → begun d ctx es db a ≡ (db', none)
      → Updates d l k es (l.table db k) (l.table db' k)
  unfolding begun
  begun-Updates k ctx es db db' (ok tx) b h =
      prepared-Updates k ctx es db db' tx (d.prepare tx (later 1 ctx)) (l.begin_table db ctx tx k b)
        h
  begun-Updates k ctx es db db' (err e) b h = absurd (cc h)

  -- A batch that is accepted puts the last entity of the batch with an ID under that ID, leaves every
  -- other ID as it was, and keeps the creation time of every row that was there before.
  pub create_entities-Updates :
      (k : String) (ctx : Ctx) (es : List Entity) (db db' : d.Db)
      → create_entities d db ctx es ≡ (db', none)
      → Updates d l k es (l.table db k) (l.table db' k)
  unfolding create_entities last_with
  create_entities-Updates k ctx [] db db' h =
      let same : db ≡ db' = ap (λ p. p.0) h in
      record {
        absent = λ e. ap (λ x. l.table x k) (sym same);
        present = λ e none_there. absurd (cc none_there);
        keeps = λ old b. (old, ap (λ x. l.table x k) (sym same) ∙ b, refl);
      }
  create_entities-Updates k ctx (e ∷ es) db db' h =
      begun-Updates k ctx (e ∷ es) db db' (d.begin db ctx) refl h

  committed_keeps :
      (k : String) (db db' : d.Db) (tx : d.Tx) (r : d.Db × Option GoError) (e : GoError)
      → d.commit db tx ≡ r
      → committed d r ≡ (db', some e)
      → l.table db' k ≡ l.table db k
  unfolding committed
  committed_keeps k db db' tx (last, none) e c h = absurd (cc h)
  committed_keeps k db db' tx (last, some f) e c h =
      ap (λ x. l.table x k) (sym (ap (λ p. p.0) h)) ∙ l.commit_fails db last tx f k c

  inserted_keeps :
      (k : String) (db db' : d.Db) (r : d.Tx × Option GoError) (e : GoError)
      → inserted d db r ≡ (db', some e)
      → l.table db' k ≡ l.table db k
  unfolding inserted
  inserted_keeps k db db' (tx, none) e h = committed_keeps k db db' tx (d.commit db tx) e refl h
  inserted_keeps k db db' (tx, some f) e h = ap (λ p. l.table p.0 k) (sym h)

  prepared_keeps :
      (k : String) (ctx : Ctx) (es : List Entity) (db db' : d.Db) (tx : d.Tx) (o : Option GoError)
      (e : GoError)
      → prepared d ctx es db tx o ≡ (db', some e)
      → l.table db' k ≡ l.table db k
  unfolding prepared
  prepared_keeps k ctx es db db' tx none e h =
      inserted_keeps k db db' (insert_all d (later 2 ctx) es tx) e h
  prepared_keeps k ctx es db db' tx (some f) e h = ap (λ p. l.table p.0 k) (sym h)

  begun_keeps :
      (k : String) (ctx : Ctx) (es : List Entity) (db db' : d.Db) (a : Answer d.Tx) (e : GoError)
      → begun d ctx es db a ≡ (db', some e)
      → l.table db' k ≡ l.table db k
  unfolding begun
  begun_keeps k ctx es db db' (ok tx) e h =
      prepared_keeps k ctx es db db' tx (d.prepare tx (later 1 ctx)) e h
  begun_keeps k ctx es db db' (err f) e h = ap (λ p. l.table p.0 k) (sym h)

  -- A batch that fails leaves every row as it was.
  pub create_fails_whole :
      (k : String) (ctx : Ctx) (es : List Entity) (db db' : d.Db) (e : GoError)
      → create_entities d db ctx es ≡ (db', some e)
      → l.table db' k ≡ l.table db k
  unfolding create_entities
  create_fails_whole k ctx [] db db' e h = ap (λ p. l.table p.0 k) (sym h)
  create_fails_whole k ctx (x ∷ es) db db' e h =
      begun_keeps k ctx (x ∷ es) db db' (d.begin db ctx) e h
