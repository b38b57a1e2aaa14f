-- ===== src/Sql/Select/RightJoin.antt =====
-- RIGHT JOIN is not parsed.
use agent_db.Prelude.{ℕ, suc, ◌≡◌, refl, none, List, [], ◌∷◌}
use agent_db.Int64.{pos, negsuc}
use agent_db.Sql.Text.{ok, Bytes, codes, same}
use agent_db.Sql.Lexer.{Token, keyword, identifier, operator}
use agent_db.Sql.Ast.{SelectStatement}
use agent_db.Sql.Tokens.{skip, name, kind_is}
use agent_db.Sql.Select.{
  parse_select, select_columns, select_column, select_tail, parse_join, parse_where, parse_order,
  parse_number,
}
use Prim.Native.String.{String}

abbrev pub word : String → Token
word s = record { kind = keyword; value = codes s }

-- all rows of a table
abbrev pub plain : Bytes → SelectStatement
plain table = record {
  table = table;
  columns = codes "*" ∷ [];
  aggregates = [];
  condition = none;
  join = none;
  order_by = [];
  order_dir = [];
  limit = negsuc 0;
  offset = pos 0;
}

-- A SELECT of all columns of a table with RIGHT behind its name succeeds as the SELECT without a
-- join, whatever follows: the test before the join names JOIN, INNER and LEFT only.
pub select-right_join :
    (fuel : ℕ) (table : Bytes) (rest : List Token)
    → parse_select (suc (suc fuel)) (
        word "SELECT"
        ∷ record { kind = operator; value = codes "*" }
        ∷ word "FROM"
        ∷ record { kind = identifier; value = table }
        ∷ word "RIGHT"
        ∷ rest)
      ≡ ok (plain table, word "RIGHT" ∷ rest)
unfolding parse_select select_columns select_column select_tail parse_join parse_where parse_order
    parse_number skip name kind_is same
select-right_join fuel table rest = refl
