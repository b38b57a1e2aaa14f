-- ===== src/Sql/Text.antt =====
-- What pkg/parser uses of Go's texts: bytes, their comparison, ToUpper, Contains, Join and Atoi;
-- and the result of the front end, where `hangs` is a loop that has not ended on its fuel.
use Prim.Native.Char.{code}
use Prim.Native.String.{String}
use agent_db.Prelude.{
  ℕ, ◌+◌, ◌-◌, ◌*◌, ◌^◌, Bool, true, false, ◌&&◌, ◌||◌, Option, none, some, List, [], ◌∷◌, ◌++◌,
  map, ltb, leb, ◌==◌, if◌then◌else◌,
}

pub data SqlError : Type 0 where
  unclosed_string bad_char empty_query no_command unknown_command : SqlError
  expected bad_number bad_expression : SqlError

pub data Result {ℓ} (A : Type ℓ) : Type ℓ where
  ok : A → Result A
  err : SqlError → Result A
  hangs : Result A

infixl 5 ◌>>=◌
abbrev pub ◌>>=◌ {ℓ κ} : {A : Type ℓ} {B : Type κ} → Result A → (A → Result B) → Result B
ok a >>= f = f a
err e >>= f = err e
hangs >>= f = hangs

-- a Go string, as its bytes
abbrev pub Bytes : Type 0
Bytes = List ℕ

abbrev pub codes : String → Bytes
codes String.[] = []
codes (String.◌∷◌ c s) = code c ∷ codes s

unfoldable pub same : Bytes → Bytes → Bool
same [] [] = true
same (c ∷ s) (d ∷ t) = (c == d) && same s t
same _ _ = false

-- a comparison with a constant
abbrev pub is : Bytes → String → Bool
is s t = same s (codes t)

abbrev pub between : ℕ → ℕ → ℕ → Bool
between a b c = leb a c && leb c b

abbrev pub is_digit : ℕ → Bool
is_digit c = between b'0' b'9' c

-- strings.ToUpper on ASCII
unfoldable pub to_upper : Bytes → Bytes
to_upper s = map (λ c. if between b'a' b'z' c then c - 32 else c) s

-- strings.Contains for one byte
unfoldable pub contains : ℕ → Bytes → Bool
contains d [] = false
contains d (c ∷ s) = (c == d) || contains d s

-- strings.Join(parts, " ")
unfoldable pub join : List Bytes → Bytes
join [] = []
join (s ∷ []) = s
join (s ∷ t ∷ ts) = s ++ b' ' ∷ join (t ∷ ts)

digits : ℕ → Bytes → Option ℕ
digits n [] = some n
digits n (c ∷ s) = if is_digit c then digits (n * 10 + (c - b'0')) s else none

-- strconv.Atoi on the text of a number token, which has no sign: an int64 or an error
unfoldable pub atoi : Bytes → Option ℕ
unfolding digits
atoi [] = none
atoi (c ∷ s) = elim (digits 0 (c ∷ s)) [
  | none ↦ none
  | some n ↦ if ltb n (2 ^ 63) then some n else none
]
