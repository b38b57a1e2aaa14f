-- ===== src/Storage/Value.antt =====
-- The values of a row, `interface{}` in pkg/storage/row.go, and what the code does with one: its
-- text by `%v`, its conversions, ParseValue. Floats are a parameter.
use agent_db.Prelude.{
  ℕ, zero, suc, ◌+◌, ◌-◌, ◌*◌, ◌/◌, ◌%◌, ◌^◌, Bool, true, false, ◌||◌, Option, none, some, [], ◌∷◌,
  map, ltb, leb, ◌==◌, if◌then◌else◌,
}
use agent_db.Outcome.{Outcome, ok, err, bad_value}
use agent_db.Int64.{ℤ, pos, negsuc}
use agent_db.Int32.{to_int32}
use agent_db.Sql.Text.{Bytes, codes, is, between, is_digit}

-- float64, and what the code uses of it; a float32 is the float64 of the same number
pub record Floats : Type 1 where
  pub Float : Type 0
  pub of_int : ℤ → Float
  pub to_int32 : Float → ℤ
  pub bits : Float → ℕ
  pub of_bits : ℕ → Float
  pub sprint : Float → Bytes
  pub sprint32 : Float → Bytes
  pub parse : Bytes → Option Float
  pub less : Float → Float → Bool
  pub add : Float → Float → Float
  pub div : Float → Float → Float

pub data ColumnType : Type 0 where
  type_int type_float type_text type_bool : ColumnType

-- a value that is not nil
pub data Value (F : Type 0) : Type 0 where
  int int32 int64 : ℤ → Value F
  float32 float64 : F → Value F
  bool : Bool → Value F
  text : Bytes → Value F

-- the decimal digits of a number, on fuel that exceeds it
unfoldable pub decimal_digits : ℕ → ℕ → Bytes → Bytes
decimal_digits zero n behind = behind
decimal_digits (suc fuel) n behind =
    let digit = b'0' + n % 10 in
    let more = decimal_digits fuel (n / 10) (digit ∷ behind) in
    if ltb n 10 then digit ∷ behind else more

unfoldable pub decimal : ℤ → Bytes
unfolding decimal_digits
decimal (pos n) = decimal_digits (suc n) n []
decimal (negsuc n) = b'-' ∷ decimal_digits (suc (suc n)) (suc n) []

-- strings.ToLower on ASCII
unfoldable pub to_lower : Bytes → Bytes
to_lower s = map (λ c. if between b'A' b'Z' c then c + 32 else c) s

-- the digits of strconv.Atoi
unfoldable pub read_digits : ℕ → Bytes → Option ℕ
read_digits n [] = some n
read_digits n (c ∷ s) = if is_digit c then read_digits (n * 10 + (c - b'0')) s else none

-- strconv.Atoi behind the sign, for a number up to `limit`
unfoldable pub read_decimal : ℕ → Bytes → Option ℕ
read_decimal limit [] = none
read_decimal limit (c ∷ s) = elim (read_digits 0 (c ∷ s)) [
  | none ↦ none
  | some n ↦ if leb n limit then some n else none
]

-- strconv.Atoi: a sign is allowed, and a number out of the range of int64 is an error
unfoldable pub parse_int : Bytes → Option ℤ
unfolding read_decimal read_digits
parse_int [] = none
parse_int (c ∷ s) =
    if c == b'-'
    then elim (read_decimal (2 ^ 63) s) [
      | none ↦ none
      | some zero ↦ some (pos 0)
      | some (suc n) ↦ some (negsuc n)
    ]
    else elim (read_decimal (2 ^ 63 - 1) (if c == b'+' then s else c ∷ s)) [
      | none ↦ none
      | some n ↦ some (pos n)
    ]

module _ (K : Floats) where
  open K use {Float, of_int, sprint, sprint32, parse}

  -- fmt.Sprintf("%v", v), nil included
  unfoldable pub sprint_value : Option (Value Float) → Bytes
  sprint_value none = codes "<nil>"
  sprint_value (some (int n)) = decimal n
  sprint_value (some (int32 n)) = decimal n
  sprint_value (some (int64 n)) = decimal n
  sprint_value (some (float32 x)) = sprint32 x
  sprint_value (some (float64 x)) = sprint x
  sprint_value (some (bool b)) = if b then codes "true" else codes "false"
  sprint_value (some (text s)) = s

  -- toInt32
  unfoldable pub value_int32 : Value Float → ℤ
  value_int32 (int n) = to_int32 n
  value_int32 (int32 n) = n
  value_int32 (float64 x) = K.to_int32 x
  value_int32 _ = pos 0

  -- the conversion of a FLOAT column in SerializeRow
  unfoldable pub value_float : Value Float → Float
  value_float (float64 x) = x
  value_float (float32 x) = x
  value_float (int n) = of_int n
  value_float _ = of_int (pos 0)

  abbrev pub value_bool : Value Float → Bool
  value_bool (bool b) = b
  value_bool _ = false

  parse_bool : Bytes → Outcome (Value Float)
  parse_bool lower =
      if is lower "true" || (is lower "1" || is lower "t")
      then ok (bool true)
      else if is lower "false" || (is lower "0" || is lower "f")
      then ok (bool false)
      else err bad_value

  -- ParseValue
  unfoldable pub parse_value : Bytes → ColumnType → Outcome (Value Float)
  unfolding parse_bool
  parse_value s type_int = elim (parse_int s) [
    | none ↦ err bad_value
    | some n ↦ ok (int32 (to_int32 n))
  ]
  parse_value s type_float = elim (parse s) [ none ↦ err bad_value | some x ↦ ok (float64 x) ]
  parse_value s type_bool = parse_bool (to_lower s)
  parse_value s type_text = ok (text s)
