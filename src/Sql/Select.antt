-- ===== src/Sql/Select.antt =====
-- pkg/parser/parser.go: parseSelect and parseAggregate.
pub mod RightJoin
use agent_db.Prelude.{
  ℕ, zero, suc, Bool, true, false, not, ◌&&◌, ◌||◌, Option, none, some, List, [], ◌∷◌, ◌++◌,
  if◌then◌else◌,
}
use agent_db.Int64.{ℤ, pos, negsuc}
use agent_db.Sql.Text.{expected, bad_number, Bytes, codes, same, is, atoi}
use agent_db.Sql.Lexer.{eof_token, identifier, number, Token}
use agent_db.Sql.Ast.{
  BinaryOp, JoinType, inner_join, left_join, right_join, Aggregate, JoinClause, SelectStatement,
}
use agent_db.Sql.Tokens.{
  Parser, spin, ◌>>=◌, ◌>>◌, pure, fail, kind_is, current, next, skip, name, parse_condition,
}

unfoldable pub parse_aggregate : Parser Aggregate
parse_aggregate = do
  f ← current
  next
  skip "("
  t ← current
  if not (is t.value "*" || kind_is t.kind identifier) then fail expected else (do
    next
    skip ")"
    pure (record { func = f.value; column = if is t.value "*" then codes "*" else t.value }))

abbrev is_aggregate : Bytes → Bool
is_aggregate v = is v "COUNT" || (is v "SUM" || (is v "AVG" || (is v "MIN" || is v "MAX")))

-- one round of the loop over the columns
unfoldable pub select_column : List Bytes × List Aggregate → Parser (List Bytes × List Aggregate)
select_column (columns, aggregates) = do
  t ← current
  if is_aggregate t.value
      then (do
        agg ← parse_aggregate
        pure (
          columns ++ (agg.func ++ codes "(" ++ agg.column ++ codes ")") ∷ [],
          aggregates ++ agg ∷ [],
        ))
      else (do
        next
        pure (
          if kind_is t.kind identifier || is t.value "*" then columns ++ t.value ∷ [] else columns,
          aggregates,
        ))

unfoldable pub select_columns :
    ℕ → List Bytes × List Aggregate → Parser (List Bytes × List Aggregate)
select_columns zero found = spin
select_columns (suc fuel) found =
    let loop = select_columns fuel in
    do
      t ← current
      if kind_is t.kind eof_token || is t.value "FROM"
          then pure found
          else (do found' ← select_column found; loop found')

-- the keyword before JOIN
join_kind : Parser JoinType
join_kind = do
  t ← current
  if is t.value "LEFT"
      then (do next; pure left_join)
      else if is t.value "RIGHT"
      then (do next; pure right_join)
      else if is t.value "INNER"
      then (do next; pure inner_join)
      else pure inner_join

unfoldable pub parse_join : Parser (Option JoinClause)
unfolding join_kind
parse_join = do
  t ← current
  if is t.value "JOIN" || (is t.value "INNER" || is t.value "LEFT")
      then (do
        join_type ← join_kind
        skip "JOIN"
        table ← name
        skip "ON"
        condition ← parse_condition
        pure (some (record { join_type = join_type; table = table; condition = condition })))
      else pure none

unfoldable pub parse_where : Parser (Option BinaryOp)
parse_where = do
  t ← current
  if is t.value "WHERE"
      then (do next; condition ← parse_condition; pure (some condition))
      else pure none

-- the column and the direction; both are empty without an ORDER BY
unfoldable pub parse_order : Parser (Bytes × Bytes)
parse_order = do
  t ← current
  if is t.value "ORDER"
      then (do
        next
        skip "BY"
        column ← name
        dir ← current
        if is dir.value "ASC" || is dir.value "DESC"
            then (do next; pure (column, dir.value))
            else pure (column, codes "ASC"))
      else pure ([], [])

-- LIMIT and OFFSET, with the value without them
unfoldable pub parse_number : Bytes → ℤ → Parser ℤ
parse_number word absent = do
  t ← current
  if not (same t.value word) then pure absent else (do
    next
    n ← current
    if not (kind_is n.kind number)
        then fail expected
        else elim (atoi n.value) [ none ↦ fail bad_number | some v ↦ (do next; pure (pos v)) ])

-- what follows the name of the table
unfoldable pub select_tail : List Bytes × List Aggregate → Bytes → Parser SelectStatement
select_tail (columns, aggregates) table = do
  join ← parse_join
  condition ← parse_where
  (order_by, order_dir) ← parse_order
  limit ← parse_number (codes "LIMIT") (negsuc 0)
  offset ← parse_number (codes "OFFSET") (pos 0)
  pure (record {
    table = table;
    columns = columns;
    aggregates = aggregates;
    condition = condition;
    join = join;
    order_by = order_by;
    order_dir = order_dir;
    limit = limit;
    offset = offset;
  })

unfoldable pub parse_select : ℕ → Parser SelectStatement
parse_select fuel = do
  next
  found ← select_columns fuel ([], [])
  skip "FROM"
  table ← name
  select_tail found table
