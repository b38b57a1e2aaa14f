-- ===== src/Sql/Tokens.antt =====
-- pkg/parser/parser.go: the position in the tokens, expressions and conditions. The state of a
-- parser is the tokens from its position on; past the end the current token is the empty EOF token.
use agent_db.Prelude.{Bool, true, false, not, ◌&&◌, List, [], ◌∷◌, drop, if◌then◌else◌}
use Prim.Native.String.{String}
use agent_db.Sql.Text.{Result, ok, err, hangs, SqlError, expected, bad_expression, Bytes, is}
use agent_db.Sql.Lexer.{
  TokenType, eof_token, keyword, identifier, number, string, operator, punctuation, Token,
}
use agent_db.Sql.Ast.{Expression, BinaryOp}
use agent_db.Sql.Ast

abbrev pub Parser : Type 0 → Type 0
Parser A = List Token → Result (A × List Token)

abbrev pub continue :
    {A B : Type 0} → Result (A × List Token) → (A → Parser B) → Result (B × List Token)
continue (ok (a, ts)) f = f a ts
continue (err e) f = err e
continue hangs f = hangs

infixl 5 ◌>>=◌ ◌>>◌
abbrev pub ◌>>=◌ : {A B : Type 0} → Parser A → (A → Parser B) → Parser B
◌>>=◌ m f ts = continue (m ts) f

abbrev pub ◌>>◌ : {A B : Type 0} → Parser A → Parser B → Parser B
m >> n = m >>= λ _. n

abbrev pub pure : {A : Type 0} → A → Parser A
pure a ts = ok (a, ts)

abbrev pub fail : {A : Type 0} → SqlError → Parser A
fail e ts = err e

unfoldable pub kind_is : TokenType → TokenType → Bool
kind_is eof_token eof_token = true
kind_is keyword keyword = true
kind_is identifier identifier = true
kind_is number number = true
kind_is string string = true
kind_is operator operator = true
kind_is punctuation punctuation = true
kind_is _ _ = false

abbrev pub eof : Token
eof = record { kind = eof_token; value = [] }

abbrev pub head : List Token → Token
head [] = eof
head (t ∷ ts) = t

-- a loop without fuel
abbrev pub spin : {A : Type 0} → Parser A
spin ts = hangs

abbrev pub current : Parser Token
current ts = ok (head ts, ts)

abbrev pub next : Parser (Unit {0})
next ts = ok (tt, drop 1 ts)

-- p.current().Value != "..." is an error, else the token is passed over
unfoldable pub skip : String → Parser (Unit {0})
skip value = do t ← current; if is t.value value then next else fail expected

-- p.current().Type != TokenIdentifier is an error, else the token is passed over
unfoldable pub name : Parser Bytes
name = do t ← current; if kind_is t.kind identifier then (do next; pure t.value) else fail expected

unfoldable pub parse_expression : Parser Expression
parse_expression = do
  tok ← current
  elim tok.kind [
    | number ↦ (do next; pure (Ast.literal tok.value))
    | string ↦ (do next; pure (Ast.literal tok.value))
    | identifier ↦ (do next; pure (Ast.identifier tok.value))
    | _ ↦ fail bad_expression
  ]

unfoldable pub parse_condition : Parser BinaryOp
parse_condition = do
  left ← parse_expression
  op ← current
  if not (kind_is op.kind operator) && not (is op.value "LIKE") then fail expected else (do
    next
    right ← parse_expression
    pure (record { left = left; operator = op.value; right = right }))
