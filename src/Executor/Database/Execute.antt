-- ===== src/Executor/Database/Execute.antt =====
-- pkg/executor/executor.go: CREATE INDEX and Execute.
use agent_db.Prelude.{
  ℕ, Bool, true, false, not, ◌&&◌, none, some, List, [], ◌∷◌, ◌++◌, get_elem?, if◌then◌else◌,
}
use agent_db.Outcome.{Outcome, ok, err, panic, deadlock}
use agent_db.Int64.{ℤ}
use agent_db.Sql.Text.{Bytes, codes, Result, same}
use agent_db.Sql.Text
use agent_db.Sql.Ast.{
  Statement, CreateIndexStatement, select, insert, create_table, create_index, delete, update,
  drop_table,
}
use agent_db.Sql.Parse.{parse}
use agent_db.Storage.BufferPool.{flush_all}
use agent_db.Storage.Value.{Floats, ColumnType, type_int, type_float, type_text, type_bool}
use agent_db.Executor.Query.{find_column_index}
use agent_db.Executor.Database.{
  Database, no_column, not_int, index_failed, syntax, internal, Action, ◌>>=◌, done, QueryResult,
  failed, affected, selected, with_table, scan,
}
use agent_db.Executor.Database.Create.{execute_create, execute_drop}
use agent_db.Executor.Database.Insert.{execute_insert}
use agent_db.Executor.Database.Select.{Sort, execute_select}
use agent_db.Executor.Database.Change.{execute_delete, execute_update}

abbrev pub is_int : ColumnType → Bool
is_int type_int = true
is_int type_float = false
is_int type_text = false
is_int type_bool = false

-- what the calls of Execute take from outside: random numbers, whether the file of an index can be
-- opened, and whether a transaction is active
pub record Setting : Type 0 where
  pub fuel : ℕ
  pub ids : ℕ → ℤ
  pub index_opens : Bytes → Bytes → Bool
  pub in_transaction : Bool

-- strings that are in a list once
abbrev pub add_name : List Bytes → Bytes → List Bytes
add_name [] name = name ∷ []
add_name (n ∷ names) name = if same n name then n ∷ names else n ∷ add_name names name

module _ (K : Floats) (S : Sort) (env : Setting) where
  open env use {fuel, ids, index_opens, in_transaction}

  abbrev pub add_index : Bytes → Action (QueryResult K)
  add_index name db = (ok (affected 1 none), record db { indexes = add_name db.indexes name })

  unfoldable pub execute_create_index : CreateIndexStatement → Action (QueryResult K)
  execute_create_index stmt = with_table K stmt.table (λ schema.
      elim (find_column_index schema stmt.column) [
        | none ↦ done (failed no_column)
        | some i ↦ elim (get_elem? schema.columns i) [
          | none ↦ λ db. (panic, db)
          | some c ↦
              if not (is_int c.col_type)
              then done (failed not_int)
              else if not (index_opens stmt.table stmt.column)
              then done (failed index_failed)
              else do rows ← scan K fuel schema; add_index (stmt.table ++ codes "." ++ stmt.column)
        ]
      ])

  unfoldable pub execute_statement : Statement → Action (QueryResult K)
  execute_statement (select s) = execute_select K S fuel s
  execute_statement (insert s) = execute_insert K fuel ids s
  execute_statement (create_table s) = execute_create K s
  execute_statement (create_index s) = execute_create_index s
  execute_statement (delete s) = execute_delete K fuel s
  execute_statement (update s) = execute_update K fuel s
  execute_statement (drop_table s) = execute_drop K fuel s

  -- SELECT returns before the flush
  abbrev pub is_select : Statement → Bool
  is_select (select s) = true
  is_select _ = false

  abbrev pub is_failed : QueryResult K → Bool
  is_failed (failed e) = true
  is_failed (affected n id) = false
  is_failed (selected columns rows) = false

  abbrev pub flushed : Database → Database
  flushed db = record db { pool = (flush_all db.pool).1 }

  -- the end of Execute: the flush, whose error is only logged, and the recovery from a panic
  unfoldable pub finish :
      Bool → Outcome (QueryResult K) × Database → Outcome (QueryResult K) × Database
  finish reads (ok r, db) =
      (ok r, if not reads && (not in_transaction && not (is_failed r)) then flushed db else db)
  finish reads (err e, db) = (err e, db)
  finish reads (panic, db) = (ok (failed internal), db)
  finish reads (deadlock, db) = (deadlock, db)

  abbrev pub parsed : Result Statement → Action (QueryResult K)
  parsed (Text.ok stmt) db = finish (is_select stmt) (execute_statement stmt db)
  parsed (Text.err e) db = (ok (failed syntax), db)
  parsed Text.hangs db = (deadlock, db)

  -- Execute of a query
  unfoldable pub execute : Bytes → Action (QueryResult K)
  execute query = parsed (parse fuel query)
