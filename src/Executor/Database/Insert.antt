-- ===== src/Executor/Database/Insert.antt =====
-- pkg/executor/executor.go: INSERT. The random numbers of GenerateID are a parameter.
use agent_db.Prelude.{
  ℕ, suc, ◌-◌, Bool, false, ◌&&◌, ◌||◌, Option, none, some, List, [], ◌∷◌, length, get_elem?,
  get_or, set, take, drop, ltb, ◌==◌, if◌then◌else◌,
}
use mathlib.Core.List.{reverse}
use agent_db.Outcome.{Outcome, ok, err, panic, deadlock}
use agent_db.Int64.{ℤ}
use agent_db.Int32.{to_int32}
use agent_db.Sql.Text.{Bytes, codes, same, is, to_upper}
use agent_db.Sql.Ast.{InsertStatement, Expression}
use agent_db.Sql.Ast
use agent_db.Storage.Value.{Floats, ColumnType, int32, parse_value, sprint_value}
use agent_db.Storage.Row.{ColumnDef, TableSchema, Row, Cell}
use agent_db.Storage.Heap.{insert_row}
use agent_db.Executor.Query.{has_prefix, find_column_index}
use agent_db.Executor.Database.{
  no_column, value_count, not_literal, wrong_value, duplicate, Action, ◌>>=◌, done, lifted, on_heap,
  Checked, fine, wrong, checked, QueryResult, affected, or_failed, with_table, scan,
}

-- strings.HasPrefix and HasSuffix of a text of one character
abbrev pub quoted_by : Bytes → Bytes → Bool
quoted_by mark val = has_prefix val mark && has_prefix (reverse val) mark

-- val[1 : len(val)-1] of a quoted text; a text of one mark is a panic
unfoldable pub unquote : Bytes → Outcome Bytes
unquote val =
    if quoted_by (codes "'") val || quoted_by (b'"' ∷ []) val
    then (if ltb (length val) 2 then panic else ok (take (length val - 2) (drop 1 val)))
    else ok val

module _ (K : Floats) where
  -- the value of an unquoted literal
  unfoldable pub parse_cell : Bytes → ColumnType → Outcome (Checked (Cell K))
  parse_cell val t =
      if is (to_upper val) "NULL" then ok (fine none) else elim (parse_value K val t) [
        | ok v ↦ ok (fine (some v))
        | err e ↦ ok (wrong wrong_value)
        | panic ↦ panic
        | deadlock ↦ deadlock
      ]

  unfoldable pub literal_cell : Expression → ColumnType → Outcome (Checked (Cell K))
  literal_cell (Ast.identifier n) t = ok (wrong not_literal)
  literal_cell (Ast.literal v) t = elim (unquote v) [
    | ok val ↦ parse_cell val t
    | err e ↦ err e
    | panic ↦ panic
    | deadlock ↦ deadlock
  ]

  -- the loop over all columns, as many as values
  unfoldable pub all_cells : List ColumnDef → List Expression → Outcome (Checked (List (Cell K)))
  all_cells (c ∷ cs) (e ∷ es) = elim (literal_cell e c.col_type) [
    | ok (fine cell) ↦ elim (all_cells cs es) [
      | ok (fine cells) ↦ ok (fine (cell ∷ cells))
      | ok (wrong x) ↦ ok (wrong x)
      | err x ↦ err x
      | panic ↦ panic
      | deadlock ↦ deadlock
    ]
    | ok (wrong x) ↦ ok (wrong x)
    | err x ↦ err x
    | panic ↦ panic
    | deadlock ↦ deadlock
  ]
  all_cells _ _ = ok (fine [])

  -- the loop over the named columns, as many as values
  unfoldable pub named_cells :
      TableSchema → List Bytes → List Expression → List (Cell K) → Outcome (Checked (List (Cell K)))
  named_cells schema (name ∷ names) (e ∷ es) values = elim (find_column_index schema name) [
    | none ↦ ok (wrong no_column)
    | some i ↦ elim (get_elem? schema.columns i) [
      | none ↦ panic
      | some c ↦ elim (literal_cell e c.col_type) [
        | ok (fine cell) ↦ named_cells schema names es (set values i cell)
        | ok (wrong x) ↦ ok (wrong x)
        | err x ↦ err x
        | panic ↦ panic
        | deadlock ↦ deadlock
      ]
    ]
  ]
  named_cells schema _ _ values = ok (fine values)

  -- the values of a named insert before its loop, and the last id
  unfoldable pub generated : (ℕ → ℤ) → List ColumnDef → ℕ → Option ℤ → List (Cell K) × Option ℤ
  generated ids [] i last = ([], last)
  generated ids (c ∷ cs) i last =
      let last' = if c.auto_increment then some (ids i) else last in
      let (cells, end) = generated ids cs (suc i) last' in
      ((if c.auto_increment then some (int32 (to_int32 (ids i))) else none) ∷ cells, end)

  -- the values of the new row
  unfoldable pub insert_cells :
      (ℕ → ℤ) → TableSchema → InsertStatement → Outcome (Checked (List (Cell K)))
  insert_cells ids schema stmt =
      if length stmt.columns == 0
      then (if length stmt.values == length schema.columns
          then all_cells schema.columns stmt.values
          else ok (wrong value_count))
      else if length stmt.columns == length stmt.values
      then named_cells schema stmt.columns stmt.values (generated ids schema.columns 0 none).0
      else ok (wrong value_count)

  abbrev pub last_insert_id : (ℕ → ℤ) → TableSchema → InsertStatement → Option ℤ
  last_insert_id ids schema stmt =
      if length stmt.columns == 0 then none else (generated ids schema.columns 0 none).1

  -- two values that are not nil and have the same text
  unfoldable pub same_values : Cell K → Cell K → Bool
  same_values none w = false
  same_values (some v) none = false
  same_values (some v) (some w) = same (sprint_value K (some v)) (sprint_value K (some w))

  -- a row that has the value in the column
  unfoldable pub has_value : ℕ → Cell K → List (Row K) → Bool
  has_value i v [] = false
  has_value i v (row ∷ rows) = same_values (get_or row.values i none) v || has_value i v rows

  -- the check of uniqueness, from the column `i` on
  unfoldable pub check_unique :
      ℕ → TableSchema → List ColumnDef → ℕ → List (Cell K) → Action (Checked (Unit {0}))
  check_unique fuel schema [] i values = done (fine tt)
  check_unique fuel schema (c ∷ cs) i values =
      let rest = check_unique fuel schema cs (suc i) values in
      if c.primary_key || c.unique
      then (do
        rows ← scan K fuel schema
        if has_value i (get_or values i none) rows then done (wrong duplicate) else rest)
      else rest

  abbrev pub insert_values_into :
      ℕ → (ℕ → ℤ) → TableSchema → InsertStatement → List (Cell K) → Action (QueryResult K)
  insert_values_into fuel ids schema stmt values = do
    unique ← check_unique fuel schema schema.columns 0 values
    or_failed K unique (λ _. do
      stored ← (λ d. checked (on_heap schema (λ h. insert_row K fuel h values) d))
      or_failed K stored (λ rid. done (affected 1 (last_insert_id ids schema stmt))))

  unfoldable pub execute_insert : ℕ → (ℕ → ℤ) → InsertStatement → Action (QueryResult K)
  execute_insert fuel ids stmt = with_table K stmt.table (λ schema. do
    values ← lifted (insert_cells ids schema stmt)
    or_failed K values (insert_values_into fuel ids schema stmt))
