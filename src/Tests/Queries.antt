-- ===== src/Tests/Queries.antt =====
-- The SQL front end at concrete inputs.
use agent_db.Prelude.{◌++◌, ◌≡◌, ◌≢◌, refl, none, some, [], ◌∷◌, arith}
use agent_db.Int64.{pos}
use agent_db.Sql.Text.{ok, hangs, codes, same, to_upper, contains, atoi}
use agent_db.Sql.Lexer.{
  operator, lex, tokenize, lex_one, lex_string, span, word_token, keyword_list,
}
use agent_db.Sql.Lexer.Returns.{lex-returns}
use agent_db.Sql.Ast
use agent_db.Sql.Ast.{
  BinaryOp, SelectStatement, InsertStatement, DeleteStatement, UpdateStatement, UpdatePair,
  DropTableStatement, CreateIndexStatement,
}
use agent_db.Sql.Print.{word, ident, quoted, mark, print_insert, print_update}
use agent_db.Sql.Tokens.{skip, name, kind_is, parse_expression, parse_condition}
use agent_db.Sql.Select.{
  parse_select, select_columns, select_column, select_tail, parse_join, parse_where, parse_order,
  parse_number,
}
use agent_db.Sql.Select.RightJoin.{plain, select-right_join}
use agent_db.Sql.Insert.{parse_insert, insert_columns}
use agent_db.Sql.Insert.Lists.{insert_columns-hangs, parse_insert-print}
use agent_db.Sql.Change.Print.{parse-print_update}
use agent_db.Sql.Parse.{parse, parse_statement}

-- SELECT * FROM t WHERE id >= 10
one_query :
    parse 20 (codes "SELECT * FROM t WHERE id >= 10 LIMIT 5")
    ≡ ok (
        Ast.select (record {
          table = codes "t";
          columns = codes "*" ∷ [];
          aggregates = [];
          condition = some (record {
            left = Ast.identifier (codes "id");
            operator = codes ">=";
            right = Ast.literal (codes "10");
          });
          join = none;
          order_by = [];
          order_dir = [];
          limit = pos 5;
          offset = pos 0;
        }))
unfolding parse lex tokenize lex_one lex_string span word_token keyword_list parse_statement skip
    name kind_is parse_expression parse_condition parse_select select_columns select_column
    select_tail parse_join parse_where parse_order parse_number same to_upper contains atoi
one_query = refl

lex-returns_example : lex (codes "select 'a") ≢ hangs
lex-returns_example = lex-returns (codes "select 'a")

select-right_join_example :
    parse_select 2 (
      word "SELECT"
      ∷ record { kind = operator; value = codes "*" }
      ∷ word "FROM"
      ∷ ident (codes "a")
      ∷ word "RIGHT"
      ∷ word "JOIN"
      ∷ ident (codes "b")
      ∷ [])
    ≡ ok (plain (codes "a"), word "RIGHT" ∷ word "JOIN" ∷ ident (codes "b") ∷ [])
select-right_join_example = select-right_join 0 (codes "a") (word "JOIN" ∷ ident (codes "b") ∷ [])

insert_columns-hangs_example : insert_columns 1000 [] (ident (codes "a") ∷ []) ≡ hangs
insert_columns-hangs_example =
    insert_columns-hangs 1000 [] (ident (codes "a") ∷ []) (unfold same in (refl, tt))

abbrev row : InsertStatement
row = record {
  table = codes "t";
  columns = codes "a" ∷ codes "b" ∷ [];
  values = Ast.literal (codes "1") ∷ Ast.literal (codes "x") ∷ [];
}

-- a value that is a quoted parenthesis ends the list, and the value behind it is lost
parse_insert-print_example :
    parse_insert 9
      (print_insert row ++ quoted (codes ")") ∷ mark "," ∷ quoted (codes "y") ∷ mark ")" ∷ [])
    ≡ ok (row, mark "," ∷ quoted (codes "y") ∷ mark ")" ∷ [])
parse_insert-print_example =
    parse_insert-print 9 row (quoted (codes ")")) (mark "," ∷ quoted (codes "y") ∷ mark ")" ∷ [])
      (unfold same in refl) (omega arith) (omega arith) (unfold same in (refl, (refl, tt)))
      (unfold same in (refl, (refl, tt)))

abbrev one : BinaryOp
one = record {
  left = Ast.identifier (codes "id");
  operator = codes "=";
  right = Ast.literal (codes "1");
}

abbrev set_a : UpdatePair
set_a = record { column = codes "a"; value = Ast.literal (codes "2") }

parse-print_update_example :
    parse_statement 2 (
      print_update
        (record { table = codes "t"; updates = set_a ∷ set_a ∷ []; condition = some one }))
    ≡ ok (
      Ast.update (record { table = codes "t"; updates = set_a ∷ set_a ∷ []; condition = some one }),
      [],
    )
parse-print_update_example =
    parse-print_update 2 (codes "t") set_a (set_a ∷ []) (some one) (omega arith)

abbrev by_id : CreateIndexStatement
by_id = record { index_name = codes "i"; table = codes "t"; column = codes "id" }
