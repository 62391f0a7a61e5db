-- ===== src/Storage/Sqlite/Insert.antt =====
-- The loop of CreateEntities in internal/storage/sqlite.go: what the transaction holds afterwards.
use mcp_memory_core.Base.{
  ◌≡◌, refl, sym, subst, ap, ◌∙◌, inl, inr, String, ◌==◌, true, false, Option, none, some, List, [],
  ◌∷◌, Bool-cases, Option-cases,
}
use mcp_memory_core.Base.Text.{trim_space}
use mcp_memory_core.Errors.{GoError}
use mcp_memory_core.Storage.{Entity, Ctx, later, Answer, ok, err, last_with}
use mcp_memory_core.Storage.Sqlite.{row_of, insert_all, marshaled, executed}
use mcp_memory_core.Storage.Sqlite.Driver.{SqlDriver, IsDriver, Row, upserted}

module _ (d : SqlDriver) (l : IsDriver d) where
  -- A row that holds the entity, with some creation time.
  pub record Holds (e : Entity) (r : Row) : Type 0 where
    pub text : String
    pub marshals : d.marshal e.observations ≡ ok text
    pub row : r ≡ record (row_of e text) { created_at = r.created_at }

  -- The rows under an ID before and after a batch: the last entity of the batch with the ID is there,
  -- or else the row is the same; and a row that was there keeps its creation time.
  pub record Updates (k : String) (es : List Entity) (before after : Option Row) : Type 0 where
    pub absent : last_with k es ≡ none → after ≡ before
    pub present : (e : Entity) → last_with k es ≡ some e → (r : Row) × (after ≡ some r) × Holds e r
    pub keeps :
        (old : Row)
        → before ≡ some old
        → (r : Row) × (after ≡ some r) × (r.created_at ≡ old.created_at)

  executes :
      (id : String) (rest : d.Tx → d.Tx × Option GoError) (r : d.Tx × Option GoError) (last : d.Tx)
      → executed d id rest r ≡ (last, none)
      → (after : d.Tx) × (r ≡ (after, none)) × (rest after ≡ (last, none))
  unfolding executed
  executes id rest (tx, none) last h = (tx, refl, h)
  executes id rest (tx, some e) last h = absurd (cc h)

  -- One INSERT that went through.
  inserts :
      (ctx : Ctx) (e : Entity) (rest : d.Tx → d.Tx × Option GoError) (a : Answer String)
      (tx last : d.Tx)
      → marshaled d ctx e rest a tx ≡ (last, none)
      → (text : String) × (after : d.Tx) × (a ≡ ok text)
        × (d.upsert tx ctx (row_of e text) ≡ (after, none))
        × (rest after ≡ (last, none))
  unfolding marshaled
  inserts ctx e rest (err f) tx last h = absurd (cc h)
  inserts ctx e rest (ok text) tx last h =
      let (after, up, go) = executes e.id rest (d.upsert tx ctx (row_of e text)) last h in
      (text, after, refl, up, go)

  upserted-Holds :
      (e : Entity) (text : String) (before : Option Row)
      → d.marshal e.observations ≡ ok text
      → Holds e (upserted before (row_of e text))
  upserted-Holds e text none h = record { text = text; marshals = h; row = refl }
  upserted-Holds e text (some old) h = record { text = text; marshals = h; row = refl }

  last_of_others :
      (k : String) (e : Entity) (es : List Entity)
      → (e.id == k) ≡ false
      → last_with k (e ∷ es) ≡ last_with k es
  unfolding last_with
  last_of_others k e es other = elim (Option-cases (last_with k es)) [
    | inl none_there ↦ rw (none_there, other) refl
    | inr (x, there) ↦ rw there refl
  ]

  last_of_rest :
      (k : String) (e x : Entity) (es : List Entity)
      → last_with k es ≡ some x
      → last_with k (e ∷ es) ≡ some x
  unfolding last_with
  last_of_rest k e x es there = rw there refl

  last_is_first :
      (k : String) (e : Entity) (es : List Entity)
      → (e.id == k) ≡ true
      → last_with k es ≡ none
      → last_with k (e ∷ es) ≡ some e
  unfolding last_with
  last_is_first k e es same none_there = rw (none_there, same) refl

  first-Updates :
      (k : String) (e : Entity) (es : List Entity) (text : String) (before mid after : Option Row)
      → d.marshal e.observations ≡ ok text
      → (e.id == k) ≡ true
      → mid ≡ some (upserted before (row_of e text))
      → Updates k es mid after
      → Updates k (e ∷ es) before after
  first-Updates k e es text before mid after h same m u = record {
    absent = λ none_there. elim (Option-cases (last_with k es)) [
      | inl none_left ↦ absurd (cc (last_is_first k e es same none_left, none_there))
      | inr (y, there) ↦ absurd (cc (last_of_rest k e y es there, none_there))
    ];
    present = λ x last. elim (Option-cases (last_with k es)) [
      | inl none_there ↦ (
        upserted before (row_of e text),
        u.absent none_there ∙ m,
        subst (λ y. Holds y (upserted before (row_of e text)))
            (cc (last_is_first k e es same none_there, last)) (upserted-Holds e text before h),
      )
      | inr (y, there) ↦ u.present x (there ∙ sym (last_of_rest k e y es there) ∙ last)
    ];
    keeps = λ old b. u.keeps (record (row_of e text) { created_at = old.created_at }) (rw b at m);
  }

  other-Updates :
      (k : String) (e : Entity) (es : List Entity) (before mid after : Option Row)
      → (e.id == k) ≡ false
      → mid ≡ before
      → Updates k es mid after
      → Updates k (e ∷ es) before after
  other-Updates k e es before mid after other m u =
      let same = last_of_others k e es other in
      record {
        absent = λ h. u.absent (sym same ∙ h) ∙ m;
        present = λ x h. u.present x (sym same ∙ h);
        keeps = λ old b. u.keeps old (m ∙ b);
      }

  pub insert_all-Updates :
      (k : String) (ctx : Ctx) (es : List Entity) (tx last : d.Tx)
      → insert_all d ctx es tx ≡ (last, none)
      → Updates k es (l.tx_table tx k) (l.tx_table last k)
  unfolding insert_all last_with
  insert_all-Updates k ctx [] tx last h = record {
    absent = λ e. ap (λ p. l.tx_table p.0 k) (sym h);
    present = λ e none_there. absurd (cc none_there);
    keeps = λ old b. (old, ap (λ p. l.tx_table p.0 k) (sym h) ∙ b, refl);
  }
  insert_all-Updates k ctx (e ∷ es) tx last h = elim (Bool-cases (trim_space e.id == "")) [
    | inl blank ↦ absurd (cc (rw blank at h))
    | inr named ↦
        let (text, after, m, up, go) =
          inserts ctx e (λ after. insert_all d (later 1 ctx) es after) (d.marshal e.observations) tx
            last (rw named at h) in
        let u = insert_all-Updates k (later 1 ctx) es after last go in
        let held = l.upsert_table tx after ctx (row_of e text) k up in
        elim (Bool-cases (e.id == k)) [
          | inl same ↦
              first-Updates k e es text (l.tx_table tx k) (l.tx_table after k) (l.tx_table last k) m
                same (rw same at held) u
          | inr other ↦
              other-Updates k e es (l.tx_table tx k) (l.tx_table after k) (l.tx_table last k) other
                (rw other at held) u
        ]
  ]
