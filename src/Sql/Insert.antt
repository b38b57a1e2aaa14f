-- ===== src/Sql/Insert.antt =====
-- pkg/parser/parser.go: parseInsert.
pub mod Lists
use agent_db.Prelude.{
  ℕ, zero, suc, Bool, true, false, ◌&&◌, Option, List, [], ◌∷◌, ◌++◌, if◌then◌else◌,
}
use agent_db.Sql.Text.{Bytes, is}
use agent_db.Sql.Lexer.{identifier, punctuation, Token}
use agent_db.Sql.Ast.{Expression, InsertStatement}
use agent_db.Sql.Tokens.{
  Parser, spin, ◌>>=◌, ◌>>◌, pure, kind_is, current, next, skip, name, parse_expression,
}

abbrev pub is_comma : Token → Bool
is_comma t = kind_is t.kind punctuation && is t.value ","

-- the loop over the names of the columns
unfoldable pub insert_columns : ℕ → List Bytes → Parser (List Bytes)
insert_columns zero columns = spin
insert_columns (suc fuel) columns =
    let loop = insert_columns fuel in
    do
      t ← current
      if is t.value ")" then pure columns else (do
        next
        loop (
            if is_comma t
            then columns
            else if kind_is t.kind identifier
            then columns ++ t.value ∷ []
            else columns))

-- the loop over the values
unfoldable pub insert_values : ℕ → List Expression → Parser (List Expression)
insert_values zero values = spin
insert_values (suc fuel) values =
    let loop = insert_values fuel in
    do
      t ← current
      if is t.value ")"
          then pure values
          else if is_comma t
          then (do next; loop values)
          else (do value ← parse_expression; loop (values ++ value ∷ []))

unfoldable pub column_names : ℕ → Parser (List Bytes)
column_names fuel = do
  t ← current
  if is t.value "("
      then (do next; columns ← insert_columns fuel []; next; pure columns)
      else pure []

unfoldable pub parse_insert : ℕ → Parser InsertStatement
unfolding column_names
parse_insert fuel = do
  next
  skip "INTO"
  table ← name
  columns ← column_names fuel
  skip "VALUES"
  skip "("
  values ← insert_values fuel []
  next
  pure (record { table = table; columns = columns; values = values })
