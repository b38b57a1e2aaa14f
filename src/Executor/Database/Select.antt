-- ===== src/Executor/Database/Select.antt =====
-- pkg/executor/executor.go: SELECT on one table; pkg/executor/join.go: the look-up and the scans of the
-- tables of a join. Go's sort is a parameter. The rows of a scan have a value for each column.
use agent_db.Prelude.{
  ℕ, suc, Bool, true, false, Option, none, some, List, [], ◌∷◌, map, length, ltb, if◌then◌else◌,
}
use agent_db.Outcome.{Outcome, ok, err, panic, deadlock}
use agent_db.Int64.{ℤ, pos, negsuc}
use agent_db.Sql.Text.{Bytes, is}
use agent_db.Sql.Ast.{SelectStatement, JoinClause, BinaryOp}
use agent_db.Storage.Value.{Floats, Value, text, sprint_value}
use agent_db.Storage.Row.{ColumnDef, TableSchema, Row, Cell}
use agent_db.Executor.Join.{Cells, Tables, at_index}
use agent_db.Executor.Present.{execute_join}
use agent_db.Executor.Query.{
  compare_texts, is_before, find_column_index, apply_limit_offset, filter_rows, apply_order_by,
  Computed, result, no_column, compute_aggregates,
}
use agent_db.Executor.Database.{
  Database, QueryError, Action, ◌>>=◌, done, lifted, Checked, fine, wrong, QueryResult, failed,
  selected, or_failed, with_table, scan,
}
use agent_db.Executor.Database

-- Go's sort.Slice
pub record Sort : Type 1 where
  pub sort_slice : {A : Type 0} → (A → A → Bool) → List A → List A

module _ (K : Floats) (S : Sort) where
  open K use {Float, parse, less}

  -- the rows behind WHERE
  abbrev pub where_rows : TableSchema → Option BinaryOp → List (Row K) → Outcome (List (Row K))
  where_rows schema none rows = ok rows
  where_rows schema (some cond) rows = filter_rows K rows schema cond

  -- the columns of the result: their names and their indices
  unfoldable pub select_columns : TableSchema → List Bytes → Checked (List (Bytes × ℕ))
  select_columns schema [] = fine []
  select_columns schema (name ∷ names) = elim (find_column_index schema name) [
    | none ↦ wrong Database.no_column
    | some i ↦ elim (select_columns schema names) [
      | fine columns ↦ fine ((name, i) ∷ columns)
      | wrong e ↦ wrong e
    ]
  ]

  abbrev pub schema_columns : List ColumnDef → ℕ → List (Bytes × ℕ)
  schema_columns [] i = []
  schema_columns (c ∷ cs) i = (c.name, i) ∷ schema_columns cs (suc i)

  abbrev pub selects_all : List Bytes → Bool
  selects_all (c ∷ []) = is c "*"
  selects_all _ = false

  unfoldable pub result_columns : TableSchema → List Bytes → Checked (List (Bytes × ℕ))
  result_columns schema columns =
      if selects_all columns
      then fine (schema_columns schema.columns 0)
      else select_columns schema columns

  unfoldable pub result_cells : List (Cell K) → List (Bytes × ℕ) → Outcome (List (Cell K))
  result_cells values [] = ok []
  result_cells values ((name, i) ∷ columns) = elim (at_index values i) [
    | ok v ↦ elim (result_cells values columns) [
      | ok vs ↦ ok (v ∷ vs)
      | err e ↦ err e
      | panic ↦ panic
      | deadlock ↦ deadlock
    ]
    | err e ↦ err e
    | panic ↦ panic
    | deadlock ↦ deadlock
  ]

  unfoldable pub result_rows : List (Row K) → List (Bytes × ℕ) → Outcome (List (List (Cell K)))
  result_rows [] columns = ok []
  result_rows (row ∷ rows) columns = elim (result_cells row.values columns) [
    | ok r ↦ elim (result_rows rows columns) [
      | ok rs ↦ ok (r ∷ rs)
      | err e ↦ err e
      | panic ↦ panic
      | deadlock ↦ deadlock
    ]
    | err e ↦ err e
    | panic ↦ panic
    | deadlock ↦ deadlock
  ]

  -- the value of an aggregate as a cell: a missing column is its message
  abbrev pub computed_cell : Computed K → Cell K
  computed_cell (result v) = v
  computed_cell (no_column name) = some (text name)

  -- the result of the aggregates, in the order of the statement: Go's maps have no order
  abbrev pub aggregate_rows : List (Bytes × Computed K) → List (List (Cell K))
  aggregate_rows [] = []
  aggregate_rows ((key, v) ∷ m) = (computed_cell v ∷ []) ∷ aggregate_rows m

  abbrev pub aggregate_names : List (Bytes × Computed K) → List Bytes
  aggregate_names [] = []
  aggregate_names ((key, v) ∷ m) = key ∷ aggregate_names m

  -- the guard of applyLimitOffset
  abbrev pub limits : ℤ → ℤ → Bool
  limits (pos limit) offset = true
  limits (negsuc _) (pos offset) = ltb 0 offset
  limits (negsuc _) (negsuc _) = false

  -- ORDER BY and LIMIT
  unfoldable pub presented : TableSchema → SelectStatement → List (Row K) → List (Row K)
  presented schema stmt rows =
      let sorted =
        if is stmt.order_by ""
        then rows
        else apply_order_by K S.sort_slice rows schema stmt.order_by stmt.order_dir in
      if limits stmt.limit stmt.offset
      then apply_limit_offset sorted stmt.limit stmt.offset
      else sorted

  abbrev pub projected : List (Row K) → List (Bytes × ℕ) → Action (QueryResult K)
  projected rows columns = do
    cells ← lifted (result_rows rows columns)
    done (selected (map (λ (c : Bytes × ℕ). c.0) columns) cells)

  -- executeSelect behind WHERE
  unfoldable pub select_rows : TableSchema → SelectStatement → List (Row K) → Action (QueryResult K)
  select_rows schema stmt rows =
      let computed = compute_aggregates K rows schema stmt.aggregates [] in
      if ltb 0 (length stmt.aggregates)
      then done (selected (aggregate_names computed) (aggregate_rows computed))
      else or_failed K (result_columns schema stmt.columns) (projected (presented schema stmt rows))

  -- the cells of a join
  abbrev pub cells : Cells
  cells = record {
    Cell = Value Float;
    Float = Float;
    sprint = sprint_value K;
    of_text = text;
    parse_float = parse;
    less_float = less;
    less_text = λ s t. is_before (compare_texts s t);
    sort_slice = S.sort_slice;
  }

  abbrev pub column_names : TableSchema → List Bytes
  column_names schema = map (λ (c : ColumnDef). c.name) schema.columns

  abbrev pub row_values : List (Row K) → List (List (Cell K))
  row_values rows = map (λ (r : Row K). r.values) rows

  -- the tables of a join, by the names in the statement
  abbrev pub join_tables : Bytes → TableSchema → Bytes → TableSchema → Tables cells
  join_tables left_name left right_name right = record {
    left_name = left_name;
    left_columns = column_names left;
    right_name = right_name;
    right_columns = column_names right;
  }

  unfoldable pub select_join :
      ℕ → TableSchema → SelectStatement → JoinClause → Action (QueryResult K)
  select_join fuel left stmt clause = with_table K clause.table (λ right. do
    left_rows ← scan K fuel left
    right_rows ← scan K fuel right
    joined ← lifted (
        execute_join cells (join_tables stmt.table left clause.table right) stmt clause
          (row_values left_rows) (row_values right_rows))
    done (selected joined.0 joined.1))

  -- executeSelect without a join, behind the look-up
  abbrev pub select_one : ℕ → SelectStatement → TableSchema → Action (QueryResult K)
  select_one fuel stmt schema = do
    rows ← scan K fuel schema
    kept ← lifted (where_rows schema stmt.condition rows)
    select_rows schema stmt kept

  abbrev pub select_from : ℕ → SelectStatement → TableSchema → Action (QueryResult K)
  select_from fuel stmt schema = elim stmt.join [
    | some clause ↦ select_join fuel schema stmt clause
    | none ↦ select_one fuel stmt schema
  ]

  unfoldable pub execute_select : ℕ → SelectStatement → Action (QueryResult K)
  execute_select fuel stmt = with_table K stmt.table (select_from fuel stmt)
