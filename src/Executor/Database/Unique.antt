-- ===== src/Executor/Database/Unique.antt =====
-- INSERT: the values of the columns that are a primary key or unique.
use agent_db.Prelude.{
  ℕ, suc, ◌≡◌, ◌≢◌, get_elem?, some, Bool, true, false, ◌||◌, none, List, [], ◌∷◌, get_or,
  if◌then◌else◌,
}
use agent_db.Outcome.{Outcome, ok}
use agent_db.Executor.Database.Reads.{Unchanged}
use agent_db.Storage.Value.{Floats, sprint_value}
use agent_db.Storage.Row.{ColumnDef, TableSchema, Rid, Row, Cell}
use agent_db.Storage.Heap.{insert_row}
use agent_db.Executor.Database.{Database, Action, done, heap_of, Checked, wrong, duplicate, scan}
use agent_db.Executor.Database.Insert.{check_unique}

module _ (K : Floats) where
  -- two values of a column of which one is nil or whose texts are not equal
  abbrev pub Differ : Cell K → Cell K → Type 0
  Differ none w = Unit
  Differ (some v) none = Unit
  Differ (some v) (some w) = sprint_value K (some v) ≢ sprint_value K (some w)

  -- the values of the rows in the column
  abbrev pub AllDiffer : ℕ → Cell K → List (Row K) → Type 0
  AllDiffer i v [] = Unit
  AllDiffer i v (row ∷ rows) = Differ (get_or row.values i none) v × AllDiffer i v rows

  -- The checks of the columns from `i` on that a row passes, with a scan of the table for each column
  -- that is unique.
  data Distinct (fuel : ℕ) (schema : TableSchema) (values : List (Cell K))
      : List ColumnDef → ℕ → Database → Database → Type 0 where
    at_end : (i : ℕ) (db : Database) → Distinct fuel schema values [] i db db
    unchecked :
        (c : ColumnDef) (cs : List ColumnDef) (i : ℕ) (db db' : Database)
        → (c.primary_key || c.unique) ≡ false
        → Distinct fuel schema values cs (suc i) db db'
        → Distinct fuel schema values (c ∷ cs) i db db'
    scanned :
        (c : ColumnDef) (cs : List ColumnDef) (i : ℕ) (db db1 db' : Database) (rows : List (Row K))
        → (c.primary_key || c.unique) ≡ true
        → scan K fuel schema db ≡ (ok rows, db1)
        → AllDiffer i (get_or values i none) rows
        → Distinct fuel schema values cs (suc i) db1 db'
        → Distinct fuel schema values (c ∷ cs) i db db'

  -- the check of one column, with what it does behind the scan
  abbrev behind_scan :
      ℕ → TableSchema → List ColumnDef → ℕ → List (Cell K) → Bool → Action (Checked (Unit {0}))
  behind_scan fuel schema cs i values found =
      if found then done (wrong duplicate) else check_unique K fuel schema cs (suc i) values

  -- a scan of the table, on a state whose pages are those of `db`, that finds no row with the text of
  -- the new row's value in the column
  pub record Scanned (fuel : ℕ) (schema : TableSchema) (i : ℕ) (v : Cell K) (db : Database)
      : Type 0 where
    pub at : Database
    pub same_pages : Unchanged db at
    pub rows : List (Row K)
    pub scanned : (scan K fuel schema at).0 ≡ ok rows
    pub differ : AllDiffer i v rows

  -- What an INSERT that succeeds did.
  pub record Inserted (fuel : ℕ) (schema : TableSchema) (values : List (Cell K)) (db db' : Database)
      : Type 0 where
    pub distinct :
        (k : ℕ) (c : ColumnDef)
        → get_elem? schema.columns k ≡ some c
        → (c.primary_key || c.unique) ≡ true
        → Scanned fuel schema k (get_or values k none) db
    pub checked_at : Database
    pub same_pages : Unchanged db checked_at
    pub rid : Rid
    pub stored : (insert_row K fuel (heap_of schema checked_at) values).0 ≡ ok rid
    pub left :
        db'
        ≡ record checked_at { pool = (insert_row K fuel (heap_of schema checked_at) values).1.pool }
