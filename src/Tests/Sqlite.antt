-- ===== src/Tests/Sqlite.antt =====
-- The backend of internal/storage/sqlite.go over a driver that keeps its tables as association
-- lists and never fails, with an encoding of the observations of its own.
use Prim.Native.Char.{Char, code}
use Prim.Native.String.{char_at}
use mathlib.Core.List.{◌++◌ as append}
use mcp_memory_core.Base.{
  ◌≡◌, refl, sym, ap, subst, inl, inr, Bool-cases, eq_of_test, String, ◌==◌, none, some, List, [],
  ◌∷◌, length, All, if◌then◌else◌, Option, Bool, true, false, ◌||◌, ◌&&◌, eqb, arith,
}
use mcp_memory_core.Base.Dict.{Dict, lookup, insert, lookup-insert}
use mcp_memory_core.Base.Text.{trim_space, trim_left, trim_right, is_space}
use mcp_memory_core.Errors.{plain}
use mcp_memory_core.Storage.{Entity, Ctx, Answer, ok, err}
use mcp_memory_core.Storage.Sqlite.{create_entities, insert_all, observations_of}
use mcp_memory_core.Storage.Sqlite.Driver.{SqlDriver, IsDriver, Row, Rows, upserted}
use mcp_memory_core.Storage.Sqlite.Reads.{entity_in, stored}
use mcp_memory_core.Storage.Sqlite.Lawful.{
  IsEntityTable, created_at_kept, sqlite_backend-Implements,
}

-- A write under the row's own ID, which keeps the creation time.
upsert : Dict Row → Row → Dict Row
unfolding insert lookup
upsert m row = insert row.id (upserted (lookup row.id m) row) m

ok_inj : {A : Type 0} (a b : A) → ok a ≡ ok b → a ≡ b
ok_inj a b h = cc h

abbrev dot : Char
dot = char_at "." 0

abbrev comma : Char
comma = char_at "," 0

-- A list of texts as one text of pairs: a point and a character, two commas at the end of a text, and
-- a bracket at the end of the list.
write_text : String → String → String
write_text String.[] rest = String.◌∷◌ comma (String.◌∷◌ comma rest)
write_text (String.◌∷◌ c s) rest = String.◌∷◌ dot (String.◌∷◌ c (write_text s rest))

write_all : List String → String
unfolding write_text
write_all [] = "]"
write_all (s ∷ ss) = write_text s (write_all ss)

-- The character is put before the first text.
abbrev put_char : Char → Option (List String) → Option (List String)
put_char c none = none
put_char c (some []) = none
put_char c (some (s ∷ ss)) = some (String.◌∷◌ c s ∷ ss)

abbrev put_text : Option (List String) → Option (List String)
put_text none = none
put_text (some ss) = some ("" ∷ ss)

read_all : String → Option (List String)
read_all String.[] = none
read_all (String.◌∷◌ m String.[]) = some []
read_all (String.◌∷◌ m (String.◌∷◌ c rest)) =
    let others = read_all rest in if eqb (code m) b'.' then put_char c others else put_text others

read-write_text :
    (s rest : String) (ss : List String)
    → read_all rest ≡ some ss
    → read_all (write_text s rest) ≡ some (s ∷ ss)
unfolding read_all write_text
read-write_text String.[] rest ss h = rw h refl
read-write_text (String.◌∷◌ c s) rest ss h = rw (read-write_text s rest ss h) refl

read-write : (ss : List String) → read_all (write_all ss) ≡ some ss
unfolding write_all read_all
read-write [] = refl
read-write (s ∷ ss) = read-write_text s (write_all ss) ss (read-write ss)

not_empty : (c : Char) (s : String) → (String.◌∷◌ c s == "") ≡ false
not_empty c s = elim (Bool-cases (String.◌∷◌ c s == "")) [
  | inl same ↦ let e : String.◌∷◌ c s ≡ "" = eq_of_test (String.◌∷◌ c s) "" same in absurd (cc e)
  | inr other ↦ other
]

write_text-ne : (s rest : String) → (write_text s rest == "") ≡ false
unfolding write_text
write_text-ne String.[] rest = not_empty comma (String.◌∷◌ comma rest)
write_text-ne (String.◌∷◌ c s) rest = not_empty dot (String.◌∷◌ c (write_text s rest))

write_all-ne : (ss : List String) → (write_all ss == "") ≡ false
unfolding write_all
write_all-ne [] = refl
write_all-ne (s ∷ ss) = write_text-ne s (write_all ss)

marshal : List String → Answer String
unfolding write_all
marshal ss = ok (write_all ss)

abbrev read_or_fail : Option (List String) → Answer (List String)
read_or_fail none = err (plain "invalid text")
read_or_fail (some ss) = ok ss

unmarshal : String → Answer (List String)
unfolding read_all
unmarshal s = read_or_fail (read_all s)

marshal_lem : (xs : List String) (s : String) → marshal xs ≡ ok s → s ≡ write_all xs
unfolding marshal
marshal_lem xs s h = sym (ok_inj (write_all xs) s h)

-- LIKE without regard to case: a percent sign stands for any text. `f` is the rest of the pattern.
abbrev some_suffix : (String → Bool) → String → Bool
some_suffix f String.[] = f ""
some_suffix f (String.◌∷◌ c s) = f (String.◌∷◌ c s) || some_suffix f s

abbrev starts : Char → (String → Bool) → String → Bool
starts c f String.[] = false
starts c f (String.◌∷◌ d s) = eqb (code c) (code d) && f s

is_like : String → String → Bool
is_like String.[] s = s == ""
is_like (String.◌∷◌ c p) s =
    if eqb (code c) b'%' then some_suffix (is_like p) s else starts c (is_like p) s

-- The rows of the table that pass the test, where `keys` are the keys to look under.
abbrev kept_row : (Row → Bool) → String → Option Row → List (Answer Row)
kept_row keep k none = []
kept_row keep k (some r) = if r.id == k && keep r then ok r ∷ [] else []

rows_at : (Row → Bool) → Dict Row → Dict Row → List (Answer Row)
unfolding lookup
rows_at keep db [] = []
rows_at keep db ((k, r) ∷ keys) = append (kept_row keep k (lookup k db)) (rows_at keep db keys)

abbrev Stored : Dict Row → Answer Row → Type 0
Stored db a = (r : Row) → a ≡ ok r → lookup r.id db ≡ some r

append-All :
    (db : Dict Row) (xs ys : List (Answer Row))
    → All (Stored db) xs
    → All (Stored db) ys
    → All (Stored db) (append xs ys)
append-All db [] ys h k = k
append-All db (x ∷ xs) ys h k = (h.0, append-All db xs ys h.1 k)

kept_row-All :
    (keep : Row → Bool) (db : Dict Row) (k : String) (o : Option Row)
    → lookup k db ≡ o
    → All (Stored db) (kept_row keep k o)
kept_row-All keep db k none h = tt
kept_row-All keep db k (some r) h = elim (Bool-cases (r.id == k && keep r)) [
  | inl kept ↦
      let same : (r.id == k) ≡ true = ground (arith, kept) in
      let at : lookup r.id db ≡ some r =
        subst (λ j. lookup j db ≡ some r) (sym (eq_of_test r.id k same)) h in
      rw kept (λ x e. subst (λ (y : Row). lookup y.id db ≡ some y) (ok_inj r x e) at, tt)
  | inr left_out ↦ rw left_out tt
]

rows_at-All : (keep : Row → Bool) (db keys : Dict Row) → All (Stored db) (rows_at keep db keys)
unfolding rows_at
rows_at-All keep db [] = tt
rows_at-All keep db ((k, r) ∷ keys) =
    append-All db (kept_row keep k (lookup k db)) (rows_at keep db keys)
      (kept_row-All keep db k (lookup k db) refl) (rows_at-All keep db keys)

abbrev rows_of : (Row → Bool) → Dict Row → Rows Row
unfolding rows_at
rows_of keep db = record { scans = rows_at keep db db; failed = none }

abbrev no_rows : {A : Type 0} → Rows A
no_rows = record { scans = []; failed = none }

abbrev driver : SqlDriver
unfolding upsert marshal unmarshal lookup rows_of is_like
driver = record {
  Db = Dict Row;
  Tx = Dict Row;
  begin = λ db ctx. ok db;
  prepare = λ tx ctx. none;
  upsert = λ tx ctx row. (upsert tx row, none);
  commit = λ db tx. (tx, none);
  select_id = λ db ctx k. ok (lookup k db);
  select_all = λ db ctx. ok (rows_of (λ r. true) db);
  select_like = λ db ctx pattern. ok (rows_of (λ r. is_like pattern r.name) db);
  count = λ db ctx. ok (length db);
  count_types = λ db ctx. ok no_rows;
  marshal = marshal;
  unmarshal = unmarshal;
}

upsert_at :
    (m m' : Dict Row) (row : Row) (k : String)
    → upsert m row ≡ m'
    → lookup k m' ≡ (if row.id == k then some (upserted (lookup k m) row) else lookup k m)
unfolding upsert
upsert_at m m' row k h = elim (Bool-cases (row.id == k)) [
  | inl same ↦
      rw (← h, lookup-insert k row.id (upserted (lookup row.id m) row) m, same)
        (ap (λ j. some (upserted (lookup j m) row)) (eq_of_test row.id k same))
  | inr other ↦ rw (← h, lookup-insert k row.id (upserted (lookup row.id m) row) m, other) refl
]

rows_of-All :
    (db : Dict Row) (keep : Row → Bool) (rows : Rows Row)
    → ok (rows_of keep db) ≡ ok rows
    → All (λ a. (r : Row) → a ≡ ok r → lookup r.id db ≡ some r) rows.scans
unfolding rows_of
rows_of-All db keep rows h =
    subst (λ (rs : Rows Row). All (Stored db) rs.scans) (ok_inj (rows_of keep db) rows h)
      (rows_at-All keep db db)

driver-IsDriver : IsDriver driver
unfolding driver marshal unmarshal rows_of is_like
driver-IsDriver = record {
  table = λ db k. lookup k db;
  tx_table = λ tx k. lookup k tx;
  begin_table = λ db ctx tx k h. ap (lookup k) (sym (ok_inj db tx h));
  upsert_table = λ tx tx' ctx row k h. upsert_at tx tx' row k (ap (λ p. p.0) h);
  commit_table = λ db db' tx k h. ap (λ p. lookup k p.0) (sym h);
  commit_fails = λ db db' tx e k h. absurd (cc h);
  select_table = λ db ctx k o h. sym (ok_inj (lookup k db) o h);
  all_table = λ db ctx rows h. rows_of-All db (λ r. true) rows h;
  like_table = λ db ctx pattern rows h. rows_of-All db (λ r. is_like pattern r.name) rows h;
  marshal_text = λ xs s h. rw (marshal_lem xs s h) (write_all-ne xs);
  round_trip = λ xs s h. rw (marshal_lem xs s h, read-write xs) refl;
}

sqlite_backend-Implements_example : IsEntityTable driver driver-IsDriver
sqlite_backend-Implements_example = sqlite_backend-Implements driver driver-IsDriver

abbrev live_ctx : Ctx
live_ctx n = none

abbrev old_row : Row
old_row = record {
  id = "1";
  name = "Ann";
  entity_type = "person";
  observations = "]";
  created_at = 5;
  updated_at = 5;
}

abbrev old : Entity
old = record {
  id = "1";
  name = "Ann";
  entity_type = "person";
  observations = [];
  created_at = 5;
  updated_at = 5;
}

-- The same ID once more, later.
abbrev renamed : Entity
renamed = record old { name = "Anna"; observations = "tea" ∷ []; created_at = 9; updated_at = 9 }

abbrev before : driver.Db
unfolding driver
before = ("1", old_row) ∷ []

abbrev after : driver.Db
unfolding driver
after = ("1", record old_row { name = "Anna"; observations = ".t.e.a,,]"; updated_at = 9 }) ∷ []

accepted : create_entities driver before live_ctx (renamed ∷ []) ≡ (after, none)
unfolding before after create_entities insert_all driver trim_space trim_left trim_right is_space
    upsert marshal write_all write_text lookup insert
accepted = refl

old-stored : stored driver driver-IsDriver before "1" ≡ some old
unfolding stored entity_in observations_of before driver driver-IsDriver lookup
old-stored = refl

created_at_kept_example :
    (x : Entity) × (stored driver driver-IsDriver after "1" ≡ some x)
    × (x.created_at ≡ old.created_at)
created_at_kept_example =
    created_at_kept driver driver-IsDriver live_ctx (renamed ∷ []) before after "1" old accepted
      old-stored
