-- ===== src/Executor/Join.antt =====
-- pkg/executor/join.go: the loops of executeJoin, behind the scans of the two tables. What a cell holds, its text
-- by `%v`, the reading of a text as a float and Go's sort are parameters. Texts are folded as ASCII.
pub mod Rows
use agent_db.Prelude.{
  ℕ, zero, suc, ◌+◌, ◌-◌, ◌^◌, Bool, true, false, not, ◌&&◌, ◌||◌, Option, none, some, List, [],
  ◌∷◌, ◌++◌, map, length, get_elem?, get_or, take, drop, replicate, ltb, leb, ◌==◌, if◌then◌else◌,
}
use agent_db.Outcome.{Outcome, ok, err, panic, deadlock, ◌>>=◌}
use agent_db.Int64.{ℤ, pos, negsuc}
use agent_db.Sql.Text.{Bytes, codes, same, is, to_upper}
use agent_db.Sql.Ast.{JoinType, inner_join, left_join, right_join, BinaryOp, Expression}
use agent_db.Sql.Ast

-- the cells of a row, and the library's functions on them
pub record Cells : Type 1 where
  pub Cell : Type 0
  pub Float : Type 0
  pub sprint : Option Cell → Bytes
  pub of_text : Bytes → Cell
  pub parse_float : Bytes → Option Float
  pub less_float : Float → Float → Bool
  pub less_text : Bytes → Bytes → Bool
  pub sort_slice : {A : Type 0} → (A → A → Bool) → List A → List A

-- strings.EqualFold
abbrev pub equal_fold : Bytes → Bytes → Bool
equal_fold s t = same (to_upper s) (to_upper t)

-- strings.Index for the dot, as the texts before and behind it
unfoldable pub split_dot : Bytes → Option (Bytes × Bytes)
split_dot [] = none
split_dot (c ∷ s) =
    let rest = split_dot s in
    if c == b'.'
    then some ([], s)
    else elim rest [ none ↦ none | some (pre, post) ↦ some (c ∷ pre, post) ]

unfoldable pub strip_table : Bytes → Bytes
strip_table name = elim (split_dot name) [ none ↦ name | some (table, column) ↦ column ]

-- the index of the first name that passes a test
unfoldable pub find_name : (Bytes → Bool) → List Bytes → Option ℕ
find_name p [] = none
find_name p (n ∷ ns) =
    let rest = find_name p ns in
    if p n then some 0 else elim rest [ none ↦ none | some i ↦ some (suc i) ]

-- an index into a slice
abbrev pub at_index {ℓ} : {A : Type ℓ} → List A → ℕ → Outcome A
at_index xs i = elim (get_elem? xs i) [ none ↦ panic | some x ↦ ok x ]

module _ (K : Cells) where
  open K use {Cell, Float, sprint, of_text, parse_float, less_float, less_text, sort_slice}

  -- the values of a row; nil is `none`
  abbrev pub Row : Type 0
  Row = List (Option Cell)

  pub record JoinedRow : Type 0 where
    pub left_values : Row
    pub left_columns : List Bytes
    pub right_values : Row
    pub right_columns : List Bytes
    pub left_name : Bytes
    pub right_name : Bytes

  -- the tables of a join: their names and columns
  pub record Tables : Type 0 where
    pub left_name : Bytes
    pub left_columns : List Bytes
    pub right_name : Bytes
    pub right_columns : List Bytes

  -- two cells that are not nil and have the same text
  unfoldable pub equal_cells : Option Cell → Option Cell → Bool
  equal_cells none b = false
  equal_cells (some a) none = false
  equal_cells (some a) (some b) = same (sprint (some a)) (sprint (some b))

  -- the end of evaluateJoinCondition, with both columns found
  unfoldable pub same_cells : Row → Row → ℕ → ℕ → Outcome Bool
  same_cells left right i j = do
    left_val ← at_index left i
    right_val ← at_index right j
    ok (equal_cells left_val right_val)

  abbrev pub both : Option ℕ → Option ℕ → Option (ℕ × ℕ)
  both none j = none
  both (some i) none = none
  both (some i) (some j) = some (i, j)

  -- the indices of the columns that a condition compares
  unfoldable pub join_columns : Tables → Expression → Expression → Option (ℕ × ℕ)
  join_columns t (Ast.identifier l) (Ast.identifier r) =
      both (find_name (λ n. equal_fold n (strip_table l)) t.left_columns)
        (find_name (λ n. equal_fold n (strip_table r)) t.right_columns)
  join_columns t _ _ = none

  unfoldable pub evaluate_join_condition : Row → Row → Tables → BinaryOp → Outcome Bool
  evaluate_join_condition left right t cond = elim (join_columns t cond.left cond.right) [
    | none ↦ ok false
    | some (i, j) ↦ same_cells left right i j
  ]

  abbrev pub joined_row : Tables → Row → Row → JoinedRow
  joined_row t left right = record {
    left_values = left;
    left_columns = t.left_columns;
    right_values = right;
    right_columns = t.right_columns;
    left_name = t.left_name;
    right_name = t.right_name;
  }

  -- the inner loop: what was joined, and `matched`
  unfoldable pub join_right :
      Tables → BinaryOp → Row → List Row → List JoinedRow × Bool → Outcome (List JoinedRow × Bool)
  join_right t cond left [] found = ok found
  join_right t cond left (right ∷ rights) (joined, matched) = do
    fits ← evaluate_join_condition left right t cond
    join_right t cond left rights
        (if fits then (joined ++ joined_row t left right ∷ [], true) else (joined, matched))

  abbrev pub null_right : Tables → Row
  null_right t = replicate (length t.right_columns) none

  abbrev pub is_left : JoinType → Bool
  is_left inner_join = false
  is_left left_join = true
  is_left right_join = false

  -- the outer loop
  unfoldable pub join_left :
      Tables → BinaryOp → JoinType → List Row → List Row → List JoinedRow → Outcome (List JoinedRow)
  join_left t cond kind rights [] joined = ok joined
  join_left t cond kind rights (left ∷ lefts) joined = do
    (joined', matched) ← join_right t cond left rights (joined, false)
    join_left t cond kind rights lefts (
        if not matched && is_left kind
        then joined' ++ joined_row t left (null_right t) ∷ []
        else joined')
