-- ===== src/Executor/Database/Change.antt =====
-- pkg/executor/executor.go: DELETE and UPDATE. The rows of a scan have a value for each column.
use agent_db.Prelude.{
  ℕ, suc, Bool, false, not, ◌&&◌, ◌||◌, Option, none, some, List, [], ◌∷◌, get_elem?, get_or, set,
  ◌==◌, if◌then◌else◌,
}
use agent_db.Outcome.{Outcome, ok, err, panic, deadlock}
use agent_db.Sql.Text.{Bytes}
use agent_db.Sql.Ast.{DeleteStatement, UpdateStatement, UpdatePair, BinaryOp}
use agent_db.Sql.Ast
use agent_db.Storage.Value.{Floats, parse_value}
use agent_db.Storage.Row.{ColumnDef, TableSchema, Rid, Row, Cell}
use agent_db.Storage.Heap.{delete_row, update_row}
use agent_db.Executor.Query.{find_column_index, filter_rows}
use agent_db.Executor.Database.{
  duplicate, Action, ◌>>=◌, done, lifted, on_heap, or_none, Checked, fine, wrong, QueryResult,
  affected, or_failed, with_table, scan,
}
use agent_db.Executor.Database.Insert.{same_values}

module _ (K : Floats) where
  -- the rows of a table behind WHERE
  unfoldable pub matching_rows : ℕ → TableSchema → Option BinaryOp → Action (List (Row K))
  matching_rows fuel schema none = scan K fuel schema
  matching_rows fuel schema (some cond) = do
    rows ← scan K fuel schema
    lifted (filter_rows K rows schema cond)

  abbrev pub counted {ℓ} : {A : Type ℓ} → Option A → ℕ → ℕ
  counted none n = n
  counted (some _) n = suc n

  -- the loop of executeDelete: an error of a row is skipped
  unfoldable pub delete_rows : TableSchema → List (Row K) → ℕ → Action ℕ
  delete_rows schema [] n = done n
  delete_rows schema (row ∷ rows) n = do
    gone ← (λ d. or_none (on_heap schema (λ h. delete_row h row.rid) d))
    delete_rows schema rows (counted gone n)

  unfoldable pub execute_delete : ℕ → DeleteStatement → Action (QueryResult K)
  execute_delete fuel stmt = with_table K stmt.table (λ schema. do
    rows ← matching_rows fuel schema stmt.condition
    n ← delete_rows schema rows 0
    done (affected n none))

  -- one assignment of an UPDATE: one that cannot be done is skipped
  unfoldable pub set_cell : TableSchema → UpdatePair → List (Cell K) → Outcome (List (Cell K))
  set_cell schema upd values = elim (find_column_index schema upd.column) [
    | none ↦ ok values
    | some i ↦ elim upd.value [
      | Ast.identifier n ↦ ok values
      | Ast.literal v ↦ elim (get_elem? schema.columns i) [
        | none ↦ panic
        | some c ↦ elim (parse_value K v c.col_type) [
          | ok parsed ↦ ok (set values i (some parsed))
          | err e ↦ ok values
          | panic ↦ panic
          | deadlock ↦ deadlock
        ]
      ]
    ]
  ]

  unfoldable pub set_cells : TableSchema → List UpdatePair → List (Cell K) → Outcome (List (Cell K))
  set_cells schema [] values = ok values
  set_cells schema (upd ∷ upds) values = elim (set_cell schema upd values) [
    | ok next ↦ set_cells schema upds next
    | err e ↦ err e
    | panic ↦ panic
    | deadlock ↦ deadlock
  ]

  abbrev pub same_rid : Rid → Rid → Bool
  same_rid a b = (a.page_id == b.page_id) && (a.slot_id == b.slot_id)

  -- another row that has the value in the column
  unfoldable pub other_has_value : Rid → ℕ → Cell K → List (Row K) → Bool
  other_has_value rid i v [] = false
  other_has_value rid i v (row ∷ rows) =
      (not (same_rid row.rid rid) && same_values K (get_or row.values i none) v)
      || other_has_value rid i v rows

  -- the check of uniqueness of an updated column
  unfoldable pub check_column :
      ℕ → TableSchema → Rid → ℕ → ColumnDef → List (Cell K) → Action (Checked (Unit {0}))
  check_column fuel schema rid i c values =
      if c.primary_key || c.unique
      then (do
        rows ← scan K fuel schema
        done (
            if other_has_value rid i (get_or values i none) rows then wrong duplicate else fine tt))
      else done (fine tt)

  abbrev pub column_of : TableSchema → Bytes → Option (ℕ × ColumnDef)
  column_of schema name = elim (find_column_index schema name) [
    | none ↦ none
    | some i ↦ elim (get_elem? schema.columns i) [ none ↦ none | some c ↦ some (i, c) ]
  ]

  abbrev pub check_named :
      ℕ → TableSchema → Rid → Option (ℕ × ColumnDef) → List (Cell K) → Action (Checked (Unit {0}))
  check_named fuel schema rid none values = done (fine tt)
  check_named fuel schema rid (some (i, c)) values = check_column fuel schema rid i c values

  abbrev pub unless_wrong :
      Checked (Unit {0}) → Action (Checked (Unit {0})) → Action (Checked (Unit {0}))
  unless_wrong (fine _) next = next
  unless_wrong (wrong e) next = done (wrong e)

  unfoldable pub check_updates :
      ℕ → TableSchema → Rid → List UpdatePair → List (Cell K) → Action (Checked (Unit {0}))
  check_updates fuel schema rid [] values = done (fine tt)
  check_updates fuel schema rid (upd ∷ upds) values = do
    one ← check_named fuel schema rid (column_of schema upd.column) values
    unless_wrong one (check_updates fuel schema rid upds values)

  -- the loop of executeUpdate over the rows: the rows before a duplicate stay updated
  unfoldable pub update_rows :
      ℕ → TableSchema → List UpdatePair → List (Row K) → ℕ → Action (QueryResult K)
  update_rows fuel schema upds [] n = done (affected n none)
  update_rows fuel schema upds (row ∷ rows) n = do
    values ← lifted (set_cells schema upds row.values)
    unique ← check_updates fuel schema row.rid upds values
    or_failed K unique (λ _. do
      stored ← (λ d. or_none (on_heap schema (λ h. update_row K fuel h row.rid values) d))
      update_rows fuel schema upds rows (counted stored n))

  unfoldable pub execute_update : ℕ → UpdateStatement → Action (QueryResult K)
  execute_update fuel stmt = with_table K stmt.table (λ schema. do
    rows ← matching_rows fuel schema stmt.condition
    update_rows fuel schema stmt.updates rows 0)
