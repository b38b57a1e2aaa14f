-- ===== src/Sql/Parse.antt =====
-- pkg/parser/parser.go: Parse.
use agent_db.Prelude.{ℕ, not, List, [], ◌∷◌, if◌then◌else◌}
use agent_db.Sql.Text.{Result, ok, err, hangs, no_command, unknown_command, empty_query, Bytes, is}
use agent_db.Sql.Lexer.{keyword, Token, lex}
use agent_db.Sql.Ast.{Statement, select, insert, delete, update, drop_table}
use agent_db.Sql.Tokens.{Parser, ◌>>=◌, pure, fail, kind_is, current}
use agent_db.Sql.Select.{parse_select}
use agent_db.Sql.Insert.{parse_insert}
use agent_db.Sql.Create.{parse_create}
use agent_db.Sql.Change.{parse_delete, parse_update, parse_drop}

-- the switch over the first token
unfoldable pub parse_statement : ℕ → Parser Statement
parse_statement fuel = do
  t ← current
  if not (kind_is t.kind keyword)
      then fail no_command
      else if is t.value "SELECT"
      then (do s ← parse_select fuel; pure (select s))
      else if is t.value "INSERT"
      then (do s ← parse_insert fuel; pure (insert s))
      else if is t.value "CREATE"
      then parse_create fuel
      else if is t.value "DELETE"
      then (do s ← parse_delete; pure (delete s))
      else if is t.value "UPDATE"
      then (do s ← parse_update fuel; pure (update s))
      else if is t.value "DROP"
      then (do s ← parse_drop; pure (drop_table s))
      else fail unknown_command

-- the tokens behind the statement are not looked at
statement_of : Result (Statement × List Token) → Result Statement
statement_of (ok (s, ts)) = ok s
statement_of (err e) = err e
statement_of hangs = hangs

parse_tokens : ℕ → Result (List Token) → Result Statement
unfolding statement_of
parse_tokens fuel (ok []) = err empty_query
parse_tokens fuel (ok (t ∷ ts)) = statement_of (parse_statement fuel (t ∷ ts))
parse_tokens fuel (err e) = err e
parse_tokens fuel hangs = hangs

unfoldable pub parse : ℕ → Bytes → Result Statement
unfolding parse_tokens
parse fuel input = parse_tokens fuel (lex input)
