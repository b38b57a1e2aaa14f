-- ===== src/Sql/Lexer/Returns.antt =====
-- The lexer always ends.
use agent_db.Prelude.{
  ℕ, zero, suc, ◌≤◌, ◌<◌, ◌≢◌, refl, Bool, not, List, [], ◌∷◌, ◌++◌, arith, length, length-drop,
  ◌==◌,
}
use agent_db.Sql.Text.{Result, ok, err, hangs, ◌>>=◌, Bytes}
use agent_db.Sql.Lexer.{Token, span, lex_string, lex_one, is_number, is_word, tokenize, lex}

length-span : (p : ℕ → Bool) (s : Bytes) → length (span p s).1 ≤ length s
unfolding span
length-span p [] = omega arith
length-span p (c ∷ s) = ground (arith, length-span p s)

-- a result that leaves at most n bytes
abbrev Leaves : ℕ → Result (List Token × Bytes) → Type 0
Leaves n (ok (one, rest)) = length rest ≤ n
Leaves n (err e) = Unit
Leaves n hangs = ⊥

lex_string-Leaves : (n : ℕ) (s : Bytes × Bytes) → length s.1 ≤ n → Leaves n (lex_string s)
unfolding lex_string
lex_string-Leaves n (inside, []) h = tt
lex_string-Leaves n (inside, q ∷ rest) h = omega arith

lex_one-Leaves : (c : ℕ) (s : Bytes) → Leaves (length s) (lex_one c s)
unfolding lex_one
lex_one-Leaves c s = ground (
  arith,
  length-drop 1 s,
  length-span (λ d. not (d == 10)) s,
  length-span is_number s,
  length-span is_word s,
  lex_string-Leaves (length s) (span (λ d. not (d == c)) s) (length-span (λ d. not (d == c)) s),
)

after :
    (fuel n : ℕ) (r : Result (List Token × Bytes))
    → n < fuel
    → Leaves n r
    → ((rest : Bytes) → length rest < fuel → tokenize fuel rest ≢ hangs)
    → (r >>= λ x. tokenize fuel x.1 >>= λ tokens. ok (x.0 ++ tokens)) ≢ hangs
after fuel n (ok (one, rest)) h l returns =
    appended (tokenize fuel rest) (returns rest (omega arith))
  where
    appended : (t : Result (List Token)) → t ≢ hangs → (t >>= λ tokens. ok (one ++ tokens)) ≢ hangs
    appended (ok ts) ends = λ e. cc
    appended (err e) ends = λ e. cc
    appended hangs ends = λ e. ends refl
after fuel n (err e) h l returns = λ e. cc
after fuel n hangs h l returns = absurd l

tokenize-returns : (fuel : ℕ) (s : Bytes) → length s < fuel → tokenize fuel s ≢ hangs
unfolding tokenize
tokenize-returns zero s h = absurd (omega arith)
tokenize-returns (suc fuel) [] h = λ e. cc
tokenize-returns (suc fuel) (c ∷ s) h =
    after fuel (length s) (lex_one c s) (omega arith) (lex_one-Leaves c s)
      (λ rest. tokenize-returns fuel rest)

-- Lex returns its tokens or an error on every input: its loop ends.
pub lex-returns : (input : Bytes) → lex input ≢ hangs
unfolding lex
lex-returns input = tokenize-returns (suc (length input)) input (omega arith)
