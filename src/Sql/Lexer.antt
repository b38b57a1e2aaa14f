-- ===== src/Sql/Lexer.antt =====
-- pkg/parser/lexer.go. The state of the lexer is the input from its position on.
pub mod Returns
use agent_db.Prelude.{
  ℕ, zero, suc, Bool, true, false, not, ◌&&◌, ◌||◌, List, [], ◌∷◌, ◌++◌, drop, length, ltb, leb,
  ◌==◌, ◌+◌, if◌then◌else◌,
}
use agent_db.Sql.Text.{
  Result, ok, err, hangs, unclosed_string, bad_char, ◌>>=◌, Bytes, codes, same, is, between,
  is_digit, to_upper, contains,
}

pub data TokenType : Type 0 where
  eof_token keyword identifier number string operator punctuation : TokenType

pub record Token : Type 0 where
  pub kind : TokenType
  pub value : Bytes

unfoldable pub keyword_list : List Bytes
keyword_list =
    codes "SELECT"
    ∷ codes "FROM"
    ∷ codes "WHERE"
    ∷ codes "INSERT"
    ∷ codes "INTO"
    ∷ codes "VALUES"
    ∷ codes "CREATE"
    ∷ codes "TABLE"
    ∷ codes "DROP"
    ∷ codes "INDEX"
    ∷ codes "ON"
    ∷ codes "INT"
    ∷ codes "TEXT"
    ∷ codes "FLOAT"
    ∷ codes "BOOL"
    ∷ codes "AND"
    ∷ codes "OR"
    ∷ codes "NOT"
    ∷ codes "NULL"
    ∷ codes "PRIMARY"
    ∷ codes "KEY"
    ∷ codes "UNIQUE"
    ∷ codes "DEFAULT"
    ∷ codes "CHECK"
    ∷ codes "REFERENCES"
    ∷ codes "UPDATE"
    ∷ codes "SET"
    ∷ codes "DELETE"
    ∷ codes "JOIN"
    ∷ codes "INNER"
    ∷ codes "LEFT"
    ∷ codes "RIGHT"
    ∷ codes "ORDER"
    ∷ codes "BY"
    ∷ codes "ASC"
    ∷ codes "DESC"
    ∷ codes "LIMIT"
    ∷ codes "OFFSET"
    ∷ codes "COUNT"
    ∷ codes "SUM"
    ∷ codes "AVG"
    ∷ codes "MIN"
    ∷ codes "MAX"
    ∷ codes "IF"
    ∷ codes "EXISTS"
    ∷ codes "AUTOINCREMENT"
    ∷ codes "LIKE"
    ∷ []

member : Bytes → List Bytes → Bool
member w [] = false
member w (k ∷ ks) = same w k || member w ks

-- the longest prefix whose bytes pass, and what follows it
unfoldable pub span : (ℕ → Bool) → Bytes → Bytes × Bytes
span p [] = ([], [])
span p (c ∷ s) = let (pre, post) = span p s in if p c then (c ∷ pre, post) else ([], c ∷ s)

abbrev pub is_space : ℕ → Bool
is_space c = (c == b' ') || ((c == 9) || ((c == 10) || (c == 13)))

abbrev pub starts_with : (ℕ → Bool) → Bytes → Bool
starts_with p [] = false
starts_with p (c ∷ s) = p c

abbrev pub is_word_start : ℕ → Bool
is_word_start c = between b'a' b'z' c || (between b'A' b'Z' c || ((c == b'_') || (c == b'*')))

abbrev pub is_word : ℕ → Bool
is_word c =
    between b'a' b'z' c
    || (between b'A' b'Z' c || (is_digit c || ((c == b'_') || ((c == b'.') || (c == b'*')))))

abbrev pub is_number : ℕ → Bool
is_number c = is_digit c || (c == b'.')

abbrev pub is_quote : ℕ → Bool
is_quote c = (c == 39) || (c == 34)

-- the token of a word: a literal, a keyword in capitals, the star, or a name
unfoldable pub word_token : Bytes → Token
unfolding member
word_token w =
    let upper = to_upper w in
    if is upper "TRUE" || (is upper "FALSE" || is upper "NULL")
    then record { kind = string; value = w }
    else if not (contains b'.' w) && member upper keyword_list
    then record { kind = keyword; value = upper }
    else if is w "*"
    then record { kind = operator; value = codes "*" }
    else record { kind = identifier; value = w }

-- a quoted string up to its closing quote; a number; a word
unfoldable pub lex_string : Bytes × Bytes → Result (List Token × Bytes)
lex_string (inside, []) = err unclosed_string
lex_string (inside, q ∷ rest) = ok (record { kind = string; value = inside } ∷ [], rest)

abbrev lex_number : ℕ → Bytes × Bytes → Result (List Token × Bytes)
lex_number c (more, rest) = ok (record { kind = number; value = c ∷ more } ∷ [], rest)

abbrev lex_word : ℕ → Bytes × Bytes → Result (List Token × Bytes)
lex_word c (more, rest) = ok (word_token (c ∷ more) ∷ [], rest)

-- One round of the loop of `tokenize` at the byte `c` with `s` behind it: the tokens it appends,
-- at most one, and what is left.
unfoldable pub lex_one : ℕ → Bytes → Result (List Token × Bytes)
lex_one c s =
    if is_space c
    then ok ([], s)
    else if (c == b'-') && starts_with (λ d. d == b'-') s
    then ok ([], (span (λ d. not (d == 10)) s).1)
    else if is_quote c
    then lex_string (span (λ d. not (d == c)) s)
    else if is_digit c || ((c == b'.') && starts_with is_digit s)
    then lex_number c (span is_number s)
    else if is_word_start c
    then lex_word c (span is_word s)
    else if (c == b'=') || ((c == b'>') || ((c == b'<') || (c == b'!')))
    then if starts_with (λ d. d == b'=') s
      then ok (record { kind = operator; value = c ∷ b'=' ∷ [] } ∷ [], drop 1 s)
      else ok (record { kind = operator; value = c ∷ [] } ∷ [], s)
    else if (c == 40) || ((c == 41) || ((c == b',') || (c == b';')))
    then ok (record { kind = punctuation; value = c ∷ [] } ∷ [], s)
    else err bad_char

-- the loop of `tokenize`
unfoldable pub tokenize : ℕ → Bytes → Result (List Token)
tokenize zero s = hangs
tokenize (suc fuel) [] = ok []
tokenize (suc fuel) (c ∷ s) =
    let loop = tokenize fuel in do (one, rest) ← lex_one c s; tokens ← loop rest; ok (one ++ tokens)

-- a round takes at least one byte, so the length is enough fuel
unfoldable pub lex : Bytes → Result (List Token)
lex input = tokenize (suc (length input)) input
