-- ===== src/Executor/Query.antt =====
-- pkg/executor/executor.go: what executeSelect does with the rows of one table: WHERE, ORDER BY, LIMIT
-- and the aggregates. Floats and Go's sort are parameters. Texts are folded as ASCII.
pub mod Window
use agent_db.Prelude.{
  ℕ, zero, suc, ◌+◌, ◌-◌, Bool, true, false, not, ◌&&◌, ◌||◌, Option, none, some, List, [], ◌∷◌,
  ◌++◌, map, length, get_elem?, get_or, take, drop, ltb, leb, ◌==◌, if◌then◌else◌,
}
use agent_db.Outcome.{Outcome, ok, err, panic, deadlock, ◌>>=◌}
use agent_db.Int64.{ℤ, pos, negsuc}
use agent_db.Sql.Text.{Bytes, codes, same, is, to_upper}
use agent_db.Sql.Ast.{BinaryOp, Expression, Aggregate}
use agent_db.Sql.Ast
use agent_db.Storage.Value.{Floats, Value, int, int32, int64, float32, float64, sprint_value}
use agent_db.Storage.Row.{ColumnDef, TableSchema, Row, Cell}
use agent_db.Executor.Join.{equal_fold, find_name, at_index}

-- the order of strings.Compare: -1, 0 or 1
pub data Order : Type 0 where
  before equal behind : Order

unfoldable pub compare_texts : Bytes → Bytes → Order
compare_texts [] [] = equal
compare_texts [] (d ∷ t) = before
compare_texts (c ∷ s) [] = behind
compare_texts (c ∷ s) (d ∷ t) =
    let rest = compare_texts s t in if ltb c d then before else if ltb d c then behind else rest

abbrev pub is_before : Order → Bool
is_before before = true
is_before equal = false
is_before behind = false

abbrev pub is_behind : Order → Bool
is_behind before = false
is_behind equal = false
is_behind behind = true

unfoldable pub has_prefix : Bytes → Bytes → Bool
has_prefix s [] = true
has_prefix [] (d ∷ t) = false
has_prefix (c ∷ s) (d ∷ t) = (c == d) && has_prefix s t

-- strings.Contains
unfoldable pub contains_text : Bytes → Bytes → Bool
contains_text [] t = has_prefix [] t
contains_text (c ∷ s) t = has_prefix (c ∷ s) t || contains_text s t

-- findColumnIndex
abbrev pub find_column_index : TableSchema → Bytes → Option ℕ
find_column_index schema name =
    find_name (λ n. equal_fold n name) (map (λ (c : ColumnDef). c.name) schema.columns)

-- applyLimitOffset
unfoldable pub apply_limit : {A : Type 0} → List A → ℤ → List A
apply_limit rows (pos limit) = if ltb limit (length rows) then take limit rows else rows
apply_limit rows (negsuc _) = rows

unfoldable pub apply_limit_offset : {A : Type 0} → List A → ℤ → ℤ → List A
apply_limit_offset rows limit (pos offset) =
    if leb (length rows) offset
    then []
    else apply_limit (if ltb 0 offset then drop offset rows else rows) limit
apply_limit_offset rows limit (negsuc _) = apply_limit rows limit

module _ (K : Floats) where
  open K use {Float, of_int, parse, less, add, div}

  -- compareStrings: as floats if both texts are floats
  unfoldable pub compare_strings : Bytes → Bytes → Order
  compare_strings a b = elim (parse a) [
    | none ↦ compare_texts a b
    | some x ↦ elim (parse b) [
      | none ↦ compare_texts a b
      | some y ↦ if less x y then before else if less y x then behind else equal
    ]
  ]

  unfoldable pub compare_cell : Bytes → Bytes → Bytes → Bool
  compare_cell op left_str right_str =
      let order = compare_strings left_str right_str in
      if is op "="
      then same left_str right_str
      else if is op "!=" || is op "<>"
      then not (same left_str right_str)
      else if is op ">"
      then is_behind order
      else if is op "<"
      then is_before order
      else if is op ">="
      then not (is_before order)
      else if is op "<="
      then not (is_behind order)
      else if is op "LIKE"
      then contains_text left_str right_str
      else false

  -- evaluateCondition; a row without the column's value would be a panic
  unfoldable pub evaluate_condition : List (Cell K) → TableSchema → BinaryOp → Outcome Bool
  evaluate_condition values schema cond = elim cond.left [
    | Ast.literal v ↦ ok false
    | Ast.identifier name ↦ elim (find_column_index schema name) [
      | none ↦ ok false
      | some i ↦ elim (at_index values i) [
        | ok cell ↦ elim cond.right [
          | Ast.identifier n ↦ ok false
          | Ast.literal v ↦ ok (compare_cell cond.operator (sprint_value K cell) v)
        ]
        | err e ↦ err e
        | panic ↦ panic
        | deadlock ↦ deadlock
      ]
    ]
  ]

  unfoldable pub filter_rows : List (Row K) → TableSchema → BinaryOp → Outcome (List (Row K))
  filter_rows [] schema cond = ok []
  filter_rows (row ∷ rows) schema cond = do
    keep ← evaluate_condition row.values schema cond
    rest ← filter_rows rows schema cond
    ok (if keep then row ∷ rest else rest)

  -- the order of applyOrderBy on the column `i`
  unfoldable pub row_less : ℕ → Bool → Row K → Row K → Bool
  row_less i desc x y =
      let a = sprint_value K (get_or x.values i none) in
      let b = sprint_value K (get_or y.values i none) in
      let by_text = if desc then is_behind (compare_texts a b) else is_before (compare_texts a b) in
      elim (parse a) [
        | none ↦ by_text
        | some na ↦ elim (parse b) [
          | none ↦ by_text
          | some nb ↦ if desc then less nb na else less na nb
        ]
      ]

  unfoldable pub apply_order_by :
      ((Row K → Row K → Bool) → List (Row K) → List (Row K))
      → List (Row K)
      → TableSchema
      → Bytes
      → Bytes
      → List (Row K)
  apply_order_by sort_slice rows schema order_by order_dir =
      elim (find_column_index schema order_by) [
        | none ↦ rows
        | some i ↦ sort_slice (row_less i (is order_dir "DESC")) rows
      ]

  -- toFloat64
  unfoldable pub to_float64 : Value Float → Float
  to_float64 (int n) = of_int n
  to_float64 (int32 n) = of_int n
  to_float64 (int64 n) = of_int n
  to_float64 (float32 x) = x
  to_float64 (float64 x) = x
  to_float64 _ = of_int (pos 0)

  -- the values of a column that are there and not nil
  abbrev pub cell_at : List (Cell K) → ℕ → List (Value Float)
  cell_at values i = elim (get_or values i none) [ none ↦ [] | some v ↦ v ∷ [] ]

  unfoldable pub column_values : List (Row K) → ℕ → List (Value Float)
  column_values [] i = []
  column_values (row ∷ rows) i = cell_at row.values i ++ column_values rows i

  unfoldable pub sum_values : Float → List (Value Float) → Float
  sum_values sum [] = sum
  sum_values sum (v ∷ vs) = sum_values (add sum (to_float64 v)) vs

  -- the loops of MIN and MAX, from the value so far
  unfoldable pub min_value : Option (Value Float) → List (Value Float) → Option (Value Float)
  min_value m [] = m
  min_value none (v ∷ vs) = min_value (some v) vs
  min_value (some m) (v ∷ vs) =
      min_value (some (if less (to_float64 v) (to_float64 m) then v else m)) vs

  unfoldable pub max_value : Option (Value Float) → List (Value Float) → Option (Value Float)
  max_value m [] = m
  max_value none (v ∷ vs) = max_value (some v) vs
  max_value (some m) (v ∷ vs) =
      max_value (some (if less (to_float64 m) (to_float64 v) then v else m)) vs

  -- what an aggregate gives: a value, or the message that there is no such column
  pub data Computed : Type 0 where
    result : Cell K → Computed
    no_column : Bytes → Computed

  -- the switch over the function, for the values of its column; another name gives no result
  unfoldable pub aggregate_value : Bytes → List (Value Float) → Option Computed
  aggregate_value func vs =
      let count = length vs in
      let sum = sum_values (of_int (pos 0)) vs in
      if is func "COUNT"
      then some (result (some (int64 (pos count))))
      else if is func "SUM"
      then some (result (some (float64 sum)))
      else if is func "AVG"
      then some (
          result
            (some (float64 (if ltb 0 count then div sum (of_int (pos count)) else of_int (pos 0)))))
      else if is func "MIN"
      then some (result (min_value none vs))
      else if is func "MAX"
      then some (result (max_value none vs))
      else none

  unfoldable pub compute_aggregate : List (Row K) → TableSchema → Aggregate → Option Computed
  compute_aggregate rows schema agg =
      let func = to_upper agg.func in
      if is func "COUNT" && is agg.column "*"
      then some (result (some (int64 (pos (length rows)))))
      else elim (find_column_index schema agg.column) [
        | none ↦ some (no_column agg.column)
        | some i ↦ aggregate_value func (column_values rows i)
      ]

  -- result[key] = v, in a map as a list of keys and values
  unfoldable pub put_result : List (Bytes × Computed) → Bytes → Computed → List (Bytes × Computed)
  put_result [] key v = (key, v) ∷ []
  put_result ((k, w) ∷ m) key v =
      let rest = put_result m key v in if same k key then (k, v) ∷ m else (k, w) ∷ rest

  unfoldable pub compute_aggregates :
      List (Row K)
      → TableSchema
      → List Aggregate
      → List (Bytes × Computed)
      → List (Bytes × Computed)
  compute_aggregates rows schema [] m = m
  compute_aggregates rows schema (agg ∷ aggs) m =
      let key = agg.func ++ codes "(" ++ agg.column ++ codes ")" in
      compute_aggregates rows schema aggs
        (elim (compute_aggregate rows schema agg) [ none ↦ m | some v ↦ put_result m key v ])
