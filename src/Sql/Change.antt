-- ===== src/Sql/Change.antt =====
-- pkg/parser/parser.go: parseDelete, parseUpdate and parseDrop.
pub mod Print
use agent_db.Prelude.{ℕ, zero, suc, Bool, true, false, Option, List, [], ◌∷◌, ◌++◌, if◌then◌else◌}
use agent_db.Sql.Text.{is}
use agent_db.Sql.Lexer.{Token}
use agent_db.Sql.Ast.{DeleteStatement, UpdateStatement, UpdatePair, DropTableStatement}
use agent_db.Sql.Tokens.{
  Parser, spin, ◌>>=◌, ◌>>◌, pure, current, next, skip, name, parse_expression,
}
use agent_db.Sql.Select.{parse_where}

unfoldable pub parse_delete : Parser DeleteStatement
parse_delete = do
  next
  skip "FROM"
  table ← name
  condition ← parse_where
  pure (record { table = table; condition = condition })

-- the loop over the pairs of SET
unfoldable pub update_pairs : ℕ → List UpdatePair → Parser (List UpdatePair)
update_pairs zero updates = spin
update_pairs (suc fuel) updates =
    let loop = update_pairs fuel in
    do
      column ← name
      skip "="
      value ← parse_expression
      let updates' = updates ++ record { column = column; value = value } ∷ []
      t ← current
      if is t.value "," then (do next; loop updates') else pure updates'

unfoldable pub parse_update : ℕ → Parser UpdateStatement
parse_update fuel = do
  next
  table ← name
  skip "SET"
  updates ← update_pairs fuel []
  condition ← parse_where
  pure (record { table = table; updates = updates; condition = condition })

drop_if_exists : Parser Bool
drop_if_exists = do
  t ← current
  if is t.value "IF" then (do next; skip "EXISTS"; pure true) else pure false

unfoldable pub parse_drop : Parser DropTableStatement
unfolding drop_if_exists
parse_drop = do
  next
  skip "TABLE"
  if_exists ← drop_if_exists
  table ← name
  pure (record { table = table; if_exists = if_exists })
