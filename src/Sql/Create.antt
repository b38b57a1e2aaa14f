-- ===== src/Sql/Create.antt =====
-- pkg/parser/parser.go: parseCreate, parseCreateTable and parseCreateIndex.
use agent_db.Prelude.{
  ℕ, zero, suc, Bool, true, false, not, ◌||◌, Option, none, some, List, [], ◌∷◌, ◌++◌,
  if◌then◌else◌,
}
use agent_db.Sql.Text.{ok, err, hangs, expected, Bytes, codes, is, join}
use agent_db.Sql.Lexer.{keyword, identifier}
use agent_db.Sql.Ast.{Expression, ColumnDef, CreateTableStatement, CreateIndexStatement, Statement}
use agent_db.Sql.Ast
use agent_db.Sql.Tokens.{
  Parser, spin, ◌>>=◌, ◌>>◌, pure, fail, kind_is, current, next, skip, name, parse_expression,
}
use agent_db.Sql.Insert.{is_comma}

-- the words of a CHECK up to the parenthesis
unfoldable pub check_words : ℕ → List Bytes → Parser (List Bytes)
check_words zero parts = spin
check_words (suc fuel) parts =
    let loop = check_words fuel in
    do t ← current; if is t.value ")" then pure parts else (do next; loop (parts ++ t.value ∷ []))

-- the value of a DEFAULT: an error of parseExpression is dropped, and a name is no literal
unfoldable pub default_value : Bytes → Parser Bytes
default_value before ts = elim (parse_expression ts) [
  | ok (Ast.literal v, ts') ↦ ok (v, ts')
  | ok (Ast.identifier v, ts') ↦ ok (before, ts')
  | err e ↦ ok (before, ts)
  | hangs ↦ hangs
]

any_token : Parser Bytes
any_token = do t ← current; next; pure t.value

references : Parser Bytes
unfolding any_token
references = do
  table ← any_token
  skip "("
  column ← any_token
  skip ")"
  pure (table ++ codes "(" ++ column ++ codes ")")

-- one constraint, whose keyword is the current token; `none` is `goto done`
unfoldable pub column_constraint : ℕ → ColumnDef → Parser (Option ColumnDef)
unfolding references
column_constraint fuel col = do
  t ← current
  if is t.value "PRIMARY_KEY"
      then (do next; pure (some (record col { primary_key = true; not_null = true })))
      else if is t.value "NOT_NULL"
      then (do next; pure (some (record col { not_null = true })))
      else if is t.value "UNIQUE"
      then (do next; pure (some (record col { unique = true })))
      else if is t.value "DEFAULT"
      then (do
        next
        value ← default_value col.default
        pure (some (record col { default = value })))
      else if is t.value "CHECK"
      then (do
        next
        skip "("
        parts ← check_words fuel []
        next
        pure (some (record col { check = join parts })))
      else if is t.value "REFERENCES"
      then (do next; target ← references; pure (some (record col { references = target })))
      else if is t.value "AUTOINCREMENT"
      then (do next; pure (some (record col { auto_increment = true })))
      else pure none

unfoldable pub column_constraints : ℕ → ColumnDef → Parser ColumnDef
column_constraints zero col = spin
column_constraints (suc fuel) col =
    let loop = column_constraints fuel in
    do
      t ← current
      if is t.value "," || is t.value ")" then pure col else (do
        more ← column_constraint fuel col
        elim more [ none ↦ pure col | some col' ↦ loop col' ])

-- the name, the type and the constraints of one column
unfoldable pub parse_column : ℕ → Parser ColumnDef
parse_column fuel = do
  col_name ← name
  t ← current
  if not (kind_is t.kind keyword || kind_is t.kind identifier) then fail expected else (do
    next
    column_constraints fuel (record {
      name = col_name;
      col_type = t.value;
      not_null = false;
      primary_key = false;
      auto_increment = false;
      unique = false;
      default = [];
      check = [];
      references = [];
    }))

unfoldable pub table_columns : ℕ → List ColumnDef → Parser (List ColumnDef)
table_columns zero columns = spin
table_columns (suc fuel) columns =
    let loop = table_columns fuel in
    do
      t ← current
      if is t.value ")"
          then pure columns
          else if is_comma t
          then (do next; loop columns)
          else (do col ← parse_column fuel; loop (columns ++ col ∷ []))

if_not_exists : Parser Bool
if_not_exists = do
  t ← current
  if is t.value "IF" then (do next; skip "NOT"; skip "EXISTS"; pure true) else pure false

unfoldable pub parse_create_table : ℕ → Parser CreateTableStatement
unfolding if_not_exists
parse_create_table fuel = do
  next
  absent ← if_not_exists
  table ← name
  skip "("
  columns ← table_columns fuel []
  next
  pure (record { table = table; columns = columns; if_not_exists = absent })

unfoldable pub parse_create_index : Parser CreateIndexStatement
parse_create_index = do
  next
  index_name ← name
  skip "ON"
  table ← name
  skip "("
  column ← name
  skip ")"
  pure (record { index_name = index_name; table = table; column = column })

unfoldable pub parse_create : ℕ → Parser Statement
parse_create fuel = do
  next
  t ← current
  if is t.value "TABLE"
      then (do s ← parse_create_table fuel; pure (Ast.create_table s))
      else if is t.value "INDEX"
      then (do s ← parse_create_index; pure (Ast.create_index s))
      else fail expected
