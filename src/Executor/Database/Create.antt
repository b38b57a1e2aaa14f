-- ===== src/Executor/Database/Create.antt =====
-- pkg/executor/executor.go: CREATE TABLE and DROP TABLE; pkg/catalog/catalog.go: AddTable, RemoveTable.
use agent_db.Prelude.{
  ℕ, zero, suc, true, false, not, Option, none, some, List, [], ◌∷◌, ◌++◌, ltb, ◌==◌, if◌then◌else◌,
}
use agent_db.Outcome.{Outcome, ok, err, panic, deadlock}
use agent_db.Sql.Text.{Bytes, codes, is, to_upper}
use agent_db.Sql.Ast.{CreateTableStatement, DropTableStatement}
use agent_db.Sql.Ast
use agent_db.Storage.Page.{Page, read_header, new_page}
use agent_db.Storage.BufferPool.{BufferPool, fetch_page, unpin_page, update_page, flush_all}
use agent_db.Storage.Value.{Floats, ColumnType, type_int, type_float, type_text, type_bool}
use agent_db.Storage.Row.{ColumnDef, TableSchema}
use agent_db.Storage.Heap.{table_id}
use agent_db.Executor.Query.{has_prefix}
use agent_db.Executor.Database.{
  lookup, remove, put, Database, no_table, table_exists, save_failed, unknown_type, Action, ◌>>=◌,
  Checked, fine, wrong, checked, QueryResult, failed, affected, or_failed,
}

unfoldable pub column_type : Bytes → Option ColumnType
column_type name =
    let upper = to_upper name in
    if is upper "INT"
    then some type_int
    else if is upper "FLOAT"
    then some type_float
    else if is upper "TEXT"
    then some type_text
    else if is upper "BOOL"
    then some type_bool
    else none

unfoldable pub create_column : Ast.ColumnDef → ColumnType → ColumnDef
create_column col t = record {
  name = col.name;
  col_type = t;
  nullable = not col.not_null;
  primary_key = col.primary_key;
  auto_increment = col.auto_increment;
  unique = col.unique;
  default = col.default;
  check = col.check;
  references = col.references;
}

unfoldable pub create_columns : List Ast.ColumnDef → Option (List ColumnDef)
create_columns [] = some []
create_columns (col ∷ cols) = elim (column_type col.col_type) [
  | none ↦ none
  | some t ↦ elim (create_columns cols) [
    | none ↦ none
    | some columns ↦ some (create_column col t ∷ columns)
  ]
]

-- Catalog.Save
abbrev pub save : Action (Checked (Unit {0}))
save db = (ok (if db.save_fails db.schemas then wrong save_failed else fine tt), db)

-- Catalog.AddTable: the schema stays in the catalog also if it is not saved
unfoldable pub add_table : TableSchema → Action (Checked (Unit {0}))
add_table schema db = elim (lookup db.schemas schema.name) [
  | some old ↦ (ok (wrong table_exists), db)
  | none ↦ save (record db { schemas = put db.schemas schema.name schema })
]

-- Catalog.RemoveTable
unfoldable pub remove_table : Bytes → Action (Checked (Unit {0}))
remove_table name db = elim (lookup db.schemas name) [
  | none ↦ (ok (wrong no_table), db)
  | some old ↦ save (record db { schemas = remove db.schemas name })
]

-- the loops of clearPagesByTableID. The first one collects the pages of the table from `pid` on.
unfoldable pub collect_page :
    Outcome Page × BufferPool
    → ℕ
    → ℕ
    → (BufferPool → List ℕ → Outcome (List ℕ) × BufferPool)
    → List ℕ
    → Outcome (List ℕ) × BufferPool
collect_page (ok p, bp) table pid next pids =
    next (unpin_page bp pid false)
      (if (read_header p).table_id == table then pids ++ pid ∷ [] else pids)
collect_page (err e, bp) table pid next pids = next bp pids
collect_page (panic, bp) table pid next pids = (panic, bp)
collect_page (deadlock, bp) table pid next pids = (deadlock, bp)

unfoldable pub collect_pages : ℕ → ℕ → ℕ → ℕ → BufferPool → List ℕ → Outcome (List ℕ) × BufferPool
collect_pages zero table total pid bp pids = (deadlock, bp)
collect_pages (suc fuel) table total pid bp pids = elim (ltb pid total) [
  | false ↦ (ok pids, bp)
  | true ↦
      collect_page (fetch_page bp pid) table pid (λ b. collect_pages fuel table total (suc pid) b)
        pids
]

-- the second one makes them empty
unfoldable pub clear_page :
    Outcome Page × BufferPool
    → ℕ
    → (BufferPool → Outcome (Unit {0}) × BufferPool)
    → Outcome (Unit {0}) × BufferPool
clear_page (ok p, bp) pid next = next (
    unpin_page (update_page bp pid (record p { bytes = (new_page pid).bytes; dirty = true })) pid
      true)
clear_page (err e, bp) pid next = (err e, bp)
clear_page (panic, bp) pid next = (panic, bp)
clear_page (deadlock, bp) pid next = (deadlock, bp)

unfoldable pub clear_pages : List ℕ → BufferPool → Outcome (Unit {0}) × BufferPool
clear_pages [] bp = (ok tt, bp)
clear_pages (pid ∷ pids) bp = clear_page (fetch_page bp pid) pid (clear_pages pids)

abbrev pub clear_collected : Outcome (List ℕ) × BufferPool → Outcome (Unit {0}) × BufferPool
clear_collected (ok pids, bp) = clear_pages pids bp
clear_collected (err e, bp) = (err e, bp)
clear_collected (panic, bp) = (panic, bp)
clear_collected (deadlock, bp) = (deadlock, bp)

abbrev pub with_database {ℓ} :
    {A : Type ℓ} → Database → Outcome A × BufferPool → Outcome A × Database
with_database db (r, bp) = (r, record db { pool = bp })

unfoldable pub clear_pages_by_table_id : ℕ → ℕ → Action (Unit {0})
clear_pages_by_table_id fuel table db =
    with_database db
      (clear_collected (collect_pages fuel table db.pool.disk.page_count 1 db.pool []))

-- the names of the indexes without those of the table
unfoldable pub drop_indexes : Bytes → List Bytes → List Bytes
drop_indexes table [] = []
drop_indexes table (name ∷ names) =
    let rest = drop_indexes table names in
    if has_prefix name (table ++ codes ".") then rest else name ∷ rest

module _ (K : Floats) where
  -- the table in e.Tables
  abbrev pub register : TableSchema → Action (QueryResult K)
  register schema db =
      (ok (affected 1 none), record db { tables = put db.tables schema.name schema })

  unfoldable pub execute_create : CreateTableStatement → Action (QueryResult K)
  execute_create stmt db = elim (create_columns stmt.columns) [
    | none ↦ (ok (failed unknown_type), db)
    | some columns ↦
        let schema : TableSchema = record { name = stmt.table; columns = columns } in
        (do added ← add_table schema; or_failed K added (λ _. register schema)) db
  ]

  -- steps 4 to 6 of executeDrop; an error of the flush is ignored
  abbrev pub forget_table : Bytes → Action (QueryResult K)
  forget_table name db =
      let db' : Database = record db {
        tables = remove db.tables name;
        indexes = drop_indexes name db.indexes;
      } in
      (ok (affected 0 none), record db' { pool = (flush_all db'.pool).1 })

  unfoldable pub execute_drop : ℕ → DropTableStatement → Action (QueryResult K)
  execute_drop fuel stmt db = elim (lookup db.tables stmt.table) [
    | none ↦ (ok (if stmt.if_exists then affected 0 none else failed no_table), db)
    | some schema ↦
        (do
          cleared ← (λ d. checked (clear_pages_by_table_id fuel (table_id schema) d))
          or_failed K cleared (λ _. do
            removed ← remove_table stmt.table
            or_failed K removed (λ _. forget_table stmt.table)))
          db
  ]
