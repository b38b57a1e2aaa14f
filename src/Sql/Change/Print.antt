-- ===== src/Sql/Change/Print.antt =====
-- DELETE, UPDATE, DROP TABLE and CREATE INDEX parse back from their tokens.
use agent_db.Prelude.{
  ℕ, zero, suc, ◌<◌, ◌≡◌, refl, ◌∙◌, ap, false, Option, none, some, List, [], ◌∷◌, ◌++◌,
  append_assoc, arith, length, Bool-cases, inl, inr,
}
use agent_db.Sql.Text.{ok, Bytes, same, is}
use agent_db.Sql.Lexer.{Token, operator}
use agent_db.Sql.Ast.{
  Expression, BinaryOp, Statement, DeleteStatement, UpdatePair, UpdateStatement, DropTableStatement,
  CreateIndexStatement,
}
use agent_db.Sql.Ast
use agent_db.Sql.Tokens.{skip, name, kind_is, parse_expression, parse_condition}
use agent_db.Sql.Select.{parse_where}
use agent_db.Sql.Change.{parse_delete, parse_update, parse_drop, update_pairs, drop_if_exists}
use agent_db.Sql.Create.{parse_create, parse_create_index}
use agent_db.Sql.Parse.{parse_statement}
use agent_db.Sql.Print.{
  expression, more, condition, where_clause, pair, print_delete, print_update, print_drop,
  print_create_index,
}

expression_back :
    (e : Expression) (ts : List Token) → parse_expression (expression e ∷ ts) ≡ ok (e, ts)
unfolding parse_expression
expression_back (Ast.literal v) ts = refl
expression_back (Ast.identifier v) ts = refl

condition_back : (b : BinaryOp) (ts : List Token) → parse_condition (condition b ++ ts) ≡ ok (b, ts)
unfolding parse_condition kind_is
condition_back b ts =
    rw
      (expression_back b.left
        (record { kind = operator; value = b.operator } ∷ expression b.right ∷ ts))
      (rw (expression_back b.right ts) refl)

where_back : (w : Option BinaryOp) → parse_where (where_clause w) ≡ ok (w, [])
unfolding parse_where same
where_back none = refl
where_back (some b) = rw (condition_back b []) refl

-- the pairs end where a WHERE or nothing follows
pairs_back :
    (fuel : ℕ) (before : List UpdatePair) (u : UpdatePair) (us : List UpdatePair)
    (w : Option BinaryOp)
    → length us < fuel
    → update_pairs fuel before (pair u ++ more pair us ++ where_clause w)
      ≡ ok (before ++ u ∷ us, where_clause w)
unfolding update_pairs skip name kind_is same
pairs_back zero before u us w h = absurd (omega arith)
pairs_back (suc fuel) before u [] none h = rw (expression_back u.value []) refl
pairs_back (suc fuel) before u [] (some b) h =
    rw (expression_back u.value (where_clause (some b))) refl
pairs_back (suc fuel) before u (v ∷ us) w h =
    rw (expression_back u.value (more pair (v ∷ us) ++ where_clause w)) (
      pairs_back fuel (before ++ u ∷ []) v us w (omega arith)
      ∙ ap (λ all. ok (all, where_clause w)) (append_assoc before (u ∷ []) (v ∷ us)))

-- An UPDATE with at least one pair parses back from its tokens, with fuel for each pair.
pub parse-print_update :
    (fuel : ℕ) (table : Bytes) (u : UpdatePair) (us : List UpdatePair) (w : Option BinaryOp)
    → length us < fuel
    → parse_statement fuel
        (print_update (record { table = table; updates = u ∷ us; condition = w }))
      ≡ ok (Ast.update (record { table = table; updates = u ∷ us; condition = w }), [])
unfolding parse_statement parse_update skip name kind_is same
parse-print_update fuel table u us w h = rw (pairs_back fuel [] u us w h) (rw (where_back w) refl)

-- A DELETE, with or without a condition, parses back from its tokens.
pub parse-print_delete :
    (fuel : ℕ) (s : DeleteStatement) → parse_statement fuel (print_delete s) ≡ ok (Ast.delete s, [])
unfolding parse_statement parse_delete skip name kind_is same
parse-print_delete fuel s = rw (where_back s.condition) refl

-- A DROP TABLE, with or without IF EXISTS, of a table not named IF parses back from its tokens.
pub parse-print_drop :
    (fuel : ℕ) (s : DropTableStatement)
    → is s.table "IF" ≡ false
    → parse_statement fuel (print_drop s) ≡ ok (Ast.drop_table s, [])
unfolding parse_statement parse_drop drop_if_exists skip name kind_is same
parse-print_drop fuel s h = elim (Bool-cases s.if_exists) [
  | inl e ↦ rw e refl
  | inr e ↦ rw e (rw h refl)
]

-- A CREATE INDEX parses back from its tokens.
pub parse-print_create_index :
    (fuel : ℕ) (s : CreateIndexStatement)
    → parse_statement fuel (print_create_index s) ≡ ok (Ast.create_index s, [])
unfolding parse_statement parse_create parse_create_index skip name kind_is same
parse-print_create_index fuel s = refl
