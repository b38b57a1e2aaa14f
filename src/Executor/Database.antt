-- ===== src/Executor/Database.antt =====
-- pkg/executor/executor.go and pkg/catalog/catalog.go: the state of the executor and its statements.
-- Tables share one buffer pool, so that the map of tables has their schemas. An action is a call that
-- reads and changes the state. Whether the catalog's file can be written is up to the environment.
-- Trees of indexes are left out: an index is its name. Messages are error values.
pub mod Create
pub mod Insert
pub mod Select
pub mod Change
pub mod Execute
pub mod Reads
pub mod Durable
pub mod Unique
pub mod Tables
use agent_db.Prelude.{ℕ, Bool, true, false, Option, none, some, List, [], ◌∷◌, if◌then◌else◌}
use agent_db.Outcome.{Outcome, ok, err, panic, deadlock, Error}
use agent_db.Int64.{ℤ}
use agent_db.Sql.Text.{Bytes, same}
use agent_db.Storage.BufferPool.{BufferPool}
use agent_db.Storage.Value.{Floats}
use agent_db.Storage.Row.{TableSchema, Row, Cell}
use agent_db.Storage.Heap.{HeapFile, scan_full}

-- a map from names, with at most one entry for a name
abbrev pub Names {ℓ} : Type ℓ → Type ℓ
Names A = List (Bytes × A)

unfoldable pub lookup {ℓ} : {A : Type ℓ} → Names A → Bytes → Option A
lookup [] name = none
lookup ((k, v) ∷ m) name = let rest = lookup m name in if same k name then some v else rest

-- delete(m, name)
unfoldable pub remove {ℓ} : {A : Type ℓ} → Names A → Bytes → Names A
remove [] name = []
remove ((k, v) ∷ m) name = let rest = remove m name in if same k name then rest else (k, v) ∷ rest

-- m[name] = v
abbrev pub put {ℓ} : {A : Type ℓ} → Names A → Bytes → A → Names A
put m name v = (name, v) ∷ remove m name

pub record Database : Type 0 where
  pub schemas : Names TableSchema
  pub tables : Names TableSchema
  pub indexes : List Bytes
  pub pool : BufferPool
  pub save_fails : Names TableSchema → Bool

pub data QueryError : Type 0 where
  no_table no_column table_exists save_failed unknown_type value_count not_literal wrong_value :
      QueryError
  duplicate not_int index_failed syntax internal : QueryError
  storage : Error → QueryError

abbrev pub Action {ℓ} : Type ℓ → Type ℓ
Action A = Database → Outcome A × Database

-- the call that goes on with the result of another one
abbrev pub then_call {ℓ κ} :
    {A : Type ℓ} {B : Type κ} → Outcome A × Database → (A → Action B) → Outcome B × Database
then_call (ok a, db) f = f a db
then_call (err e, db) f = (err e, db)
then_call (panic, db) f = (panic, db)
then_call (deadlock, db) f = (deadlock, db)

infixl 5 ◌>>=◌
abbrev pub ◌>>=◌ {ℓ κ} : {A : Type ℓ} {B : Type κ} → Action A → (A → Action B) → Action B
(m >>= f) db = then_call (m db) f

abbrev pub done {ℓ} : {A : Type ℓ} → A → Action A
done a db = (ok a, db)

-- a value that the code computes from the state
abbrev pub lifted {ℓ} : {A : Type ℓ} → Outcome A → Action A
lifted r db = (r, db)

abbrev pub get_tables : Action (Names TableSchema)
get_tables db = (ok db.tables, db)

-- the heap file of a table
abbrev pub heap_of : TableSchema → Database → HeapFile
heap_of schema db = record { schema = schema; pool = db.pool; locked = false }

-- a method of a heap file
abbrev pub on_heap {ℓ} : {A : Type ℓ} → TableSchema → (HeapFile → Outcome A × HeapFile) → Action A
on_heap schema method db =
    ((method (heap_of schema db)).0, record db { pool = (method (heap_of schema db)).1.pool })

-- the call without its error, `none`
abbrev pub or_none {ℓ} : {A : Type ℓ} → Outcome A × Database → Outcome (Option A) × Database
or_none (ok a, db) = (ok (some a), db)
or_none (err e, db) = (ok none, db)
or_none (panic, db) = (panic, db)
or_none (deadlock, db) = (deadlock, db)

-- the call with its error as a value
pub data Checked {ℓ} (A : Type ℓ) : Type ℓ where
  fine : A → Checked A
  wrong : QueryError → Checked A

abbrev pub checked {ℓ} : {A : Type ℓ} → Outcome A × Database → Outcome (Checked A) × Database
checked (ok a, db) = (ok (fine a), db)
checked (err e, db) = (ok (wrong (storage e)), db)
checked (panic, db) = (panic, db)
checked (deadlock, db) = (deadlock, db)

module _ (K : Floats) where
  -- the statements' results: an error, the count of rows with the last id, or columns and rows
  pub data QueryResult : Type 0 where
    failed : QueryError → QueryResult
    affected : ℕ → Option ℤ → QueryResult
    selected : List Bytes → List (List (Cell K)) → QueryResult

  -- the rest of a statement behind a check
  abbrev pub or_failed {ℓ} :
      {A : Type ℓ} → Checked A → (A → Action QueryResult) → Action QueryResult
  or_failed (fine a) next = next a
  or_failed (wrong e) next = done (failed e)

  -- e.Tables[name], or the error
  abbrev pub with_table : Bytes → (TableSchema → Action QueryResult) → Action QueryResult
  with_table name next db = elim (lookup db.tables name) [
    | none ↦ (ok (failed no_table), db)
    | some schema ↦ next schema db
  ]

  abbrev pub scan : ℕ → TableSchema → Action (List (Row K))
  scan fuel schema = on_heap schema (scan_full K fuel)
