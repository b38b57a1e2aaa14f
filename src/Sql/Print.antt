-- ===== src/Sql/Print.antt =====
-- Statements as tokens, to be parsed back.
use Prim.Native.String.{String}
use agent_db.Prelude.{Option, none, some, List, [], ◌∷◌, ◌++◌, if◌then◌else◌}
use agent_db.Sql.Text.{Bytes, codes}
use agent_db.Sql.Lexer.{Token, keyword, identifier, operator, punctuation, string}
use agent_db.Sql.Ast.{
  Expression, BinaryOp, InsertStatement, DeleteStatement, UpdatePair, UpdateStatement,
  DropTableStatement, CreateIndexStatement,
}
use agent_db.Sql.Ast

abbrev pub word : String → Token
word s = record { kind = keyword; value = codes s }

abbrev pub mark : String → Token
mark s = record { kind = punctuation; value = codes s }

abbrev pub ident : Bytes → Token
ident s = record { kind = identifier; value = s }

abbrev pub quoted : Bytes → Token
quoted s = record { kind = string; value = s }

abbrev pub expression : Expression → Token
expression (Ast.literal v) = quoted v
expression (Ast.identifier v) = ident v

-- a list with commas between its parts
abbrev pub more {ℓ} : {A : Type ℓ} → (A → List Token) → List A → List Token
more f [] = []
more f (x ∷ xs) = mark "," ∷ f x ++ more f xs

abbrev pub separated {ℓ} : {A : Type ℓ} → (A → List Token) → List A → List Token
separated f [] = []
separated f (x ∷ xs) = f x ++ more f xs

abbrev pub condition : BinaryOp → List Token
condition b =
    expression b.left ∷ record { kind = operator; value = b.operator } ∷ expression b.right ∷ []

abbrev pub where_clause : Option BinaryOp → List Token
where_clause none = []
where_clause (some b) = word "WHERE" ∷ condition b

abbrev pub pair : UpdatePair → List Token
pair u = ident u.column ∷ record { kind = operator; value = codes "=" } ∷ expression u.value ∷ []

abbrev pub print_delete : DeleteStatement → List Token
print_delete s = word "DELETE" ∷ word "FROM" ∷ ident s.table ∷ where_clause s.condition

abbrev pub print_update : UpdateStatement → List Token
print_update s =
    word "UPDATE" ∷ ident s.table ∷ word "SET" ∷ separated pair s.updates
    ++ where_clause s.condition

abbrev pub print_drop : DropTableStatement → List Token
print_drop s =
    word "DROP" ∷ word "TABLE" ∷ (if s.if_exists then word "IF" ∷ word "EXISTS" ∷ [] else [])
    ++ ident s.table ∷ []

abbrev pub print_create_index : CreateIndexStatement → List Token
print_create_index s =
    word "CREATE"
    ∷ word "INDEX"
    ∷ ident s.index_name
    ∷ word "ON"
    ∷ ident s.table
    ∷ mark "("
    ∷ ident s.column
    ∷ mark ")"
    ∷ []

-- an INSERT up to its last value
abbrev pub print_insert : InsertStatement → List Token
print_insert s =
    word "INSERT" ∷ word "INTO" ∷ ident s.table ∷ mark "(" ∷ separated (λ c. ident c ∷ []) s.columns
    ++ mark ")" ∷ word "VALUES" ∷ mark "(" ∷ separated (λ v. expression v ∷ []) s.values
