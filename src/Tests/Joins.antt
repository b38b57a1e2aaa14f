-- ===== src/Tests/Joins.antt =====
-- Joins of two small tables, with numbers as cells.
use agent_db.Prelude.{
  ℕ, ◌≡◌, refl, false, Option, none, some, List, [], ◌∷◌, ◌++◌, length, arith, ltb, take, drop,
}
use agent_db.Outcome.{ok, panic}
use agent_db.Int64.{pos}
use agent_db.Sql.Text.{Bytes, codes}
use agent_db.Sql.Ast.{left_join, BinaryOp}
use agent_db.Sql.Ast
use agent_db.Executor.Join.{Cells, Row, JoinedRow, Tables, joined_row, join_left}
use agent_db.Executor.Join.Rows.{all_joins, join_left-all_joins}
use agent_db.Executor.Present.{limit_joined_rows}
use agent_db.Executor.Present.Limit.{limit_joined_rows-window, limit_joined_rows-wraps}

abbrev text : Option ℕ → Bytes
text none = codes "<nil>"
text (some n) = n ∷ []

abbrev numbers : Cells
numbers = record {
  Cell = ℕ;
  Float = ℕ;
  sprint = text;
  of_text = λ s. length s;
  parse_float = λ s. none;
  less_float = ltb;
  less_text = λ s t. false;
  sort_slice = λ less xs. xs;
}

abbrev tables : Tables numbers
tables = record {
  left_name = codes "a";
  left_columns = codes "id" ∷ [];
  right_name = codes "b";
  right_columns = codes "aid" ∷ codes "x" ∷ [];
}

abbrev on_id : BinaryOp
on_id = record {
  left = Ast.identifier (codes "a.id");
  operator = codes "=";
  right = Ast.identifier (codes "b.aid");
}

abbrev lefts : List (Row numbers)
lefts = (some 1 ∷ []) ∷ (some 2 ∷ []) ∷ []

abbrev rights : List (Row numbers)
rights = (some 1 ∷ some 10 ∷ []) ∷ (none ∷ some 20 ∷ []) ∷ (some 1 ∷ none ∷ []) ∷ []

join_left-all_joins_example :
    join_left numbers tables on_id left_join rights lefts []
    ≡ ok ([] ++ all_joins numbers tables on_id left_join lefts rights)
join_left-all_joins_example =
    join_left-all_joins numbers tables on_id left_join lefts rights [] (refl, (refl, tt))
      (refl, (refl, (refl, tt)))

abbrev pair : JoinedRow numbers
pair = joined_row numbers tables (some 1 ∷ []) (some 1 ∷ some 10 ∷ [])

abbrev pairs : List (JoinedRow numbers)
pairs = pair ∷ pair ∷ pair ∷ []

limit_joined_rows-window_example :
    limit_joined_rows numbers pairs (pos 1) (pos 1) ≡ ok (take 1 (drop 1 pairs))
limit_joined_rows-window_example = limit_joined_rows-window numbers pairs 1 1 (omega arith)

limit_joined_rows-wraps_example :
    limit_joined_rows numbers pairs (pos 9223372036854775807) (pos 1) ≡ panic
limit_joined_rows-wraps_example =
    limit_joined_rows-wraps numbers pairs 9223372036854775807 1 (omega arith) (omega arith)
      (omega arith) (omega arith)
