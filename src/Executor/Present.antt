-- ===== src/Executor/Present.antt =====
-- pkg/executor/join.go: what executeJoin does with the joined rows: WHERE, ORDER BY, LIMIT and the
-- columns of the result.
pub mod Limit
use agent_db.Prelude.{
  ℕ, zero, suc, ◌+◌, ◌-◌, ◌^◌, Bool, true, false, not, ◌&&◌, ◌||◌, Option, none, some, List, [],
  ◌∷◌, ◌++◌, map, length, get_elem?, get_or, take, drop, ltb, leb, ◌==◌, if◌then◌else◌,
}
use agent_db.Outcome.{Outcome, ok, err, panic, deadlock, ◌>>=◌}
use agent_db.Int64.{ℤ, pos, negsuc, ltz, add64}
use agent_db.Sql.Text.{Bytes, codes, same, is}
use agent_db.Sql.Ast.{BinaryOp, Expression, SelectStatement, JoinClause}
use agent_db.Sql.Ast
use agent_db.Executor.Join.{
  Cells, Row, JoinedRow, Tables, equal_fold, split_dot, strip_table, find_name, at_index, join_left,
}

module _ (K : Cells) where
  open K use {Cell, Float, sprint, of_text, parse_float, less_float, less_text, sort_slice}

  -- the first column of a list with a name that passes, with its value
  unfoldable pub pick :
      (Bytes → Bool) → List Bytes → Row K → Outcome (Option Cell) → Outcome (Option Cell)
  pick p columns values otherwise = elim (find_name p columns) [
    | none ↦ otherwise
    | some i ↦ at_index values i
  ]

  -- getJoinValue of an identifier, split at its first dot
  unfoldable pub identifier_value : JoinedRow K → Bytes → Bytes → Outcome (Option Cell)
  identifier_value row table column =
      let named : Bytes → Bool = λ n. equal_fold n column in
      let right : Outcome (Option Cell) =
        if is table "" || equal_fold table row.right_name
        then pick named row.right_columns row.right_values (ok none)
        else ok none in
      if is table "" || equal_fold table row.left_name
      then pick named row.left_columns row.left_values right
      else right

  unfoldable pub get_join_value : JoinedRow K → Expression → Outcome (Option Cell)
  get_join_value row (Ast.literal v) = ok (some (of_text v))
  get_join_value row (Ast.identifier name) = elim (split_dot name) [
    | none ↦ identifier_value row [] name
    | some (table, column) ↦ identifier_value row table column
  ]

  unfoldable pub compare_join_values : Option Cell → Option Cell → Bytes → Bool
  compare_join_values left right op =
      let left_str = sprint left in
      let right_str = sprint right in
      if is op "="
      then same left_str right_str
      else if is op "!=" || is op "<>"
      then not (same left_str right_str)
      else if is op ">"
      then less_text right_str left_str
      else if is op "<"
      then less_text left_str right_str
      else if is op ">="
      then not (less_text left_str right_str)
      else if is op "<="
      then not (less_text right_str left_str)
      else false

  unfoldable pub evaluate_where_for_join : JoinedRow K → BinaryOp → Outcome Bool
  evaluate_where_for_join row cond = do
    left ← get_join_value row cond.left
    right ← get_join_value row cond.right
    ok (compare_join_values left right cond.operator)

  unfoldable pub filter_joined_rows : List (JoinedRow K) → BinaryOp → Outcome (List (JoinedRow K))
  filter_joined_rows [] cond = ok []
  filter_joined_rows (row ∷ rows) cond = do
    keep ← evaluate_where_for_join row cond
    rest ← filter_joined_rows rows cond
    ok (if keep then row ∷ rest else rest)

  -- getColumnValue; a row without the value in range does not occur in a sort of joined rows
  unfoldable pub get_column_value : JoinedRow K → Bytes → Option Cell
  get_column_value row name =
      let named : Bytes → Bool = λ n. equal_fold n (strip_table name) || equal_fold n name in
      elim (find_name named row.left_columns) [
        | some i ↦ get_or row.left_values i none
        | none ↦ elim (find_name named row.right_columns) [
          | some i ↦ get_or row.right_values i none
          | none ↦ none
        ]
      ]

  -- the order of sortJoinedRows: as floats if both texts are floats, else as texts
  unfoldable pub sorts_before : Bytes → Bool → JoinedRow K → JoinedRow K → Bool
  sorts_before order_by desc a b =
      let s = sprint (get_column_value a order_by) in
      let t = sprint (get_column_value b order_by) in
      let by_text = if desc then less_text t s else less_text s t in
      elim (parse_float s) [
        | none ↦ by_text
        | some x ↦ elim (parse_float t) [
          | none ↦ by_text
          | some y ↦ if desc then less_float y x else less_float x y
        ]
      ]

  unfoldable pub sort_joined_rows : List (JoinedRow K) → Bytes → Bytes → List (JoinedRow K)
  sort_joined_rows rows order_by order_dir =
      sort_slice (sorts_before order_by (is order_dir "DESC")) rows

  -- rows[start:end]
  abbrev pub slice : {A : Type 0} → List A → ℤ → ℤ → Outcome (List A)
  slice rows (pos start) (pos end) =
      if leb start end && leb end (length rows)
      then ok (take (end - start) (drop start rows))
      else panic
  slice rows _ _ = panic

  unfoldable pub limit_joined_rows : List (JoinedRow K) → ℤ → ℤ → Outcome (List (JoinedRow K))
  limit_joined_rows rows limit offset =
      let len = pos (length rows) in
      let sum = add64 offset limit in
      let end = if not (ltz limit (pos 0)) && ltz sum len then sum else len in
      if not (ltz offset len) then ok [] else slice rows offset end

  -- the guard of the LIMIT
  limit_rows : List (JoinedRow K) → ℤ → ℤ → Outcome (List (JoinedRow K))
  limit_rows rows limit offset =
      if not (ltz limit (pos 0)) || ltz (pos 0) offset
      then limit_joined_rows rows limit offset
      else ok rows

  -- one row of the result
  result_row : JoinedRow K → List Bytes → Outcome (Row K)
  result_row row [] = ok []
  result_row row (name ∷ names) = do
    value ← get_join_value row (Ast.identifier name)
    rest ← result_row row names
    ok (value ∷ rest)

  result_rows : List (JoinedRow K) → List Bytes → Outcome (List (Row K))
  unfolding result_row
  result_rows [] names = ok []
  result_rows (row ∷ rows) names = do
    values ← result_row row names
    rest ← result_rows rows names
    ok (values ∷ rest)

  abbrev all_columns : List Bytes → Bool
  all_columns (c ∷ []) = is c "*"
  all_columns _ = false

  -- the names of the columns of the result
  column_names : Tables K → List Bytes → List Bytes
  column_names t columns =
      if all_columns columns
      then map (λ c. t.left_name ++ codes "." ++ c) t.left_columns
        ++ map (λ c. t.right_name ++ codes "." ++ c) t.right_columns
      else columns

  abbrev where_rows : List (JoinedRow K) → Option BinaryOp → Outcome (List (JoinedRow K))
  where_rows rows none = ok rows
  where_rows rows (some cond) = filter_joined_rows rows cond

  unfoldable pub execute_join :
      Tables K
      → SelectStatement
      → JoinClause
      → List (Row K)
      → List (Row K)
      → Outcome (List Bytes × List (Row K))
  unfolding limit_rows result_rows column_names
  execute_join t stmt clause left_rows right_rows = do
    joined ← join_left K t clause.condition clause.join_type right_rows left_rows []
    kept ← where_rows joined stmt.condition
    let sorted =
        if is stmt.order_by "" then kept else sort_joined_rows kept stmt.order_by stmt.order_dir
    limited ← limit_rows sorted stmt.limit stmt.offset
    let names = column_names t stmt.columns
    rows ← result_rows limited names
    ok (names, rows)
