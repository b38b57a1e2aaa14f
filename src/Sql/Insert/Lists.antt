-- ===== src/Sql/Insert/Lists.antt =====
-- The lists of an INSERT.
use agent_db.Prelude.{
  ℕ, zero, suc, ◌*◌, ◌<◌, ◌≡◌, refl, sym, ◌∙◌, ap, true, false, List, [], ◌∷◌, ◌++◌, append_assoc,
  append-nil, arith, length,
}
use agent_db.Sql.Text.{ok, hangs, Bytes, same, is}
use agent_db.Sql.Lexer.{Token}
use agent_db.Sql.Ast.{Expression, InsertStatement}
use agent_db.Sql.Ast
use agent_db.Sql.Print.{ident, mark, word, expression, more, separated, print_insert}
use agent_db.Sql.Tokens.{skip, name, kind_is, parse_expression}
use agent_db.Sql.Insert.{insert_columns, insert_values, parse_insert}
use agent_db.Index.Node.Search.{All}

-- With no closing parenthesis among the tokens the loop over the columns does not end: it goes on
-- past the last token for ever.
pub insert_columns-hangs :
    (fuel : ℕ) (columns : List Bytes) (ts : List Token)
    → All (λ (t : Token). is t.value ")" ≡ false) ts
    → insert_columns fuel columns ts ≡ hangs
unfolding insert_columns same
insert_columns-hangs zero columns ts h = refl
insert_columns-hangs (suc fuel) columns [] h = insert_columns-hangs fuel _ [] tt
insert_columns-hangs (suc fuel) columns (t ∷ ts) h = rw h.0 (insert_columns-hangs fuel _ ts h.1)

-- a text that the loops take for the closing parenthesis
abbrev pub Closes : Bytes → Type 0
Closes v = is v ")" ≡ true

abbrev pub Stays : Bytes → Type 0
Stays v = is v ")" ≡ false

abbrev pub StaysValue : Expression → Type 0
StaysValue (Ast.literal v) = Stays v
StaysValue (Ast.identifier v) = Stays v

module _ (close : Token) (rest : List Token) (closes : Closes close.value) where
  more_columns :
      (fuel : ℕ) (before cs : List Bytes)
      → 2 * length cs < fuel
      → All Stays cs
      → insert_columns fuel before (more (λ c. ident c ∷ []) cs ++ close ∷ rest)
        ≡ ok (before ++ cs, close ∷ rest)
  unfolding insert_columns same kind_is
  more_columns zero before cs h s = absurd (omega arith)
  more_columns (suc fuel) before [] h s =
      rw closes (ap (λ cs. ok (cs, close ∷ rest)) (sym (append-nil before)))
  more_columns (suc zero) before (c ∷ cs) h s = absurd (omega arith)
  more_columns (suc (suc fuel)) before (c ∷ cs) h s = rw s.0 (
      more_columns fuel (before ++ c ∷ []) cs (omega arith) s.1
      ∙ ap (λ all. ok (all, close ∷ rest)) (append_assoc before (c ∷ []) cs))

  more_values :
      (fuel : ℕ) (before vs : List Expression)
      → 2 * length vs < fuel
      → All StaysValue vs
      → insert_values fuel before (more (λ v. expression v ∷ []) vs ++ close ∷ rest)
        ≡ ok (before ++ vs, close ∷ rest)
  unfolding insert_values same kind_is parse_expression
  more_values zero before vs h s = absurd (omega arith)
  more_values (suc fuel) before [] h s =
      rw closes (ap (λ vs. ok (vs, close ∷ rest)) (sym (append-nil before)))
  more_values (suc zero) before (v ∷ vs) h s = absurd (omega arith)
  more_values (suc (suc fuel)) before (Ast.literal v ∷ vs) h s = rw s.0 (
      more_values fuel (before ++ (Ast.literal v) ∷ []) vs (omega arith) s.1
      ∙ ap (λ all. ok (all, close ∷ rest)) (append_assoc before ((Ast.literal v) ∷ []) vs))
  more_values (suc (suc fuel)) before (Ast.identifier v ∷ vs) h s = rw s.0 (
      more_values fuel (before ++ (Ast.identifier v) ∷ []) vs (omega arith) s.1
      ∙ ap (λ all. ok (all, close ∷ rest)) (append_assoc before ((Ast.identifier v) ∷ []) vs))

  -- the whole list, of which the first part has no comma before it
  separated_columns :
      (fuel : ℕ) (cs : List Bytes)
      → 2 * length cs < fuel
      → All Stays cs
      → insert_columns fuel [] (separated (λ c. ident c ∷ []) cs ++ close ∷ rest)
        ≡ ok (cs, close ∷ rest)
  unfolding insert_columns same kind_is
  separated_columns fuel [] h s = more_columns fuel [] [] h s
  separated_columns zero (c ∷ cs) h s = absurd (omega arith)
  separated_columns (suc fuel) (c ∷ cs) h s =
      rw s.0 (more_columns fuel (c ∷ []) cs (omega arith) s.1)

  pub separated_values :
      (fuel : ℕ) (vs : List Expression)
      → 2 * length vs < fuel
      → All StaysValue vs
      → insert_values fuel [] (separated (λ v. expression v ∷ []) vs ++ close ∷ rest)
        ≡ ok (vs, close ∷ rest)
  unfolding insert_values same kind_is parse_expression
  separated_values fuel [] h s = more_values fuel [] [] h s
  separated_values zero (v ∷ vs) h s = absurd (omega arith)
  separated_values (suc fuel) (Ast.literal v ∷ vs) h s =
      rw s.0 (more_values fuel (Ast.literal v ∷ []) vs (omega arith) s.1)
  separated_values (suc fuel) (Ast.identifier v ∷ vs) h s =
      rw s.0 (more_values fuel (Ast.identifier v ∷ []) vs (omega arith) s.1)

-- An INSERT, printed up to its last value, parses back to itself at the first token whose text is a
-- closing parenthesis, be it the punctuation or a quoted string; what is behind that token is left.
-- No column and no value may be that text; the fuel is enough when it exceeds twice each list.
pub parse_insert-print :
    (fuel : ℕ) (i : InsertStatement) (close : Token) (rest : List Token)
    → Closes close.value
    → 2 * length i.columns < fuel
    → 2 * length i.values < fuel
    → All Stays i.columns
    → All StaysValue i.values
    → parse_insert fuel (print_insert i ++ close ∷ rest) ≡ ok (i, rest)
unfolding parse_insert skip name same kind_is
parse_insert-print fuel i close rest closes cols vals s t =
    let assoc =
      append_assoc (separated (λ c. ident c ∷ []) i.columns)
        (mark ")" ∷ word "VALUES" ∷ mark "(" ∷ separated (λ v. expression v ∷ []) i.values)
        (close ∷ rest) in
    rw assoc (
      rw
        (separated_columns (mark ")")
          (word "VALUES" ∷ mark "(" ∷ separated (λ v. expression v ∷ []) i.values ++ close ∷ rest)
          refl fuel i.columns cols s)
        (rw (separated_values close rest closes fuel i.values vals t) refl))
