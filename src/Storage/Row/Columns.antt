-- ===== src/Storage/Row/Columns.antt =====
-- The bytes of a row column by column: what each takes, and how those of a list of columns begin.
use agent_db.Prelude.{
  ℕ, ◌+◌, ◌<◌, ◌≡◌, refl, ap, ◌∙◌, Bool, none, some, List, [], ◌∷◌, ◌++◌, arith, length,
  length-append, length-replicate, take, take-append, drop-append,
}
use agent_db.Bytes.{le_bytes, length-le_bytes}
use agent_db.Int64.{ℤ}
use agent_db.Int32.{InRange32}
use agent_db.Sql.Text.{Bytes}
use agent_db.Storage.Value.{
  Floats, ColumnType, type_int, type_float, type_text, type_bool, int32, float64, bool, text,
  sprint_value,
}
use agent_db.Storage.Row.{
  ColumnDef, fixed_size, u16, slice, Cell, put_column, put_columns, Part, value, at,
}

-- a slice is the part that stands there
pub slice_at :
    (xs ys zs : Bytes) (p n : ℕ) → p ≡ length xs → n ≡ length ys → slice (xs ++ (ys ++ zs)) p n ≡ ys
slice_at xs ys zs p n hp hn = ap (take n) (drop-append xs (ys ++ zs) hp) ∙ take-append ys zs hn

module _ (K : Floats) where
  open K use {Float, bits, of_bits}

  -- a value of the column's type, as the parser and the reader make it, or nil
  pub data Typed : ColumnType → Cell K → Type 0 where
    is_missing : (t : ColumnType) → Typed t none
    is_int : {n : ℤ} → InRange32 n → Typed type_int (some (int32 n))
    is_float : {x : Float} → Typed type_float (some (float64 x))
    is_bool : {b : Bool} → Typed type_bool (some (bool b))
    is_text : {s : Bytes} → Typed type_text (some (text s))

  abbrev pub AllTyped : List ColumnDef → List (Cell K) → Type 0
  AllTyped [] [] = Unit
  AllTyped (c ∷ cs) (v ∷ vs) = Typed c.col_type v × AllTyped cs vs
  AllTyped _ _ = ⊥

  -- the bytes of the texts, each with its length
  abbrev pub text_size : Cell K → ℕ
  text_size (some (text s)) = 2 + length s
  text_size v = 0

  abbrev pub texts_size : List (Cell K) → ℕ
  texts_size [] = 0
  texts_size (v ∷ vs) = text_size v + texts_size vs

  abbrev pub part : Cell K → ℕ → Part K
  part (some (text s)) offset = at offset
  part v offset = value v

  abbrev pub parts : List (Cell K) → ℕ → List (Part K)
  parts [] offset = []
  parts (v ∷ vs) offset = part v offset ∷ parts vs (offset + text_size v)

  pub length-put_column :
      {t : ColumnType} {v : Cell K} (o : ℕ)
      → Typed t v
      → (length (put_column K t v o).0 ≡ fixed_size t)
        × (length (put_column K t v o).2 ≡ text_size v)
  unfolding put_column sprint_value
  length-put_column o (is_missing t) = (length-replicate (fixed_size t) 0, refl)
  length-put_column o (is_int {n} h) = (length-le_bytes 4 _, refl)
  length-put_column o (is_float {x}) = (length-le_bytes 8 _, refl)
  length-put_column o (is_bool {b}) = (refl, refl)
  length-put_column o (is_text {s}) = (
    length-le_bytes 2 o,
    omega
        (arith, length-append (le_bytes 2 (u16 (length s))) s, length-le_bytes 2 (u16 (length s))),
  )

  abbrev pub fixeds : List ColumnDef → List (Cell K) → ℕ → Bytes
  fixeds cs vs o = (put_columns K cs vs o).0

  abbrev pub strs : List ColumnDef → List (Cell K) → ℕ → Bytes
  strs cs vs o = (put_columns K cs vs o).2

  no_wrap : (o n m : ℕ) → o + n + m < 65536 → u16 (o + u16 n) ≡ o + n
  no_wrap o n m h = omega arith

  module _ (c : ColumnDef) (cs : List ColumnDef) (v : Cell K) (vs : List (Cell K)) (o : ℕ)
      (t : Typed c.col_type v) (small : o + text_size v + texts_size vs < 65536) where
    abbrev fixed : Bytes
    fixed = (put_column K c.col_type v o).0

    abbrev str : Bytes
    str = (put_column K c.col_type v o).2

    next : u16 (o + u16 (length str)) ≡ o + text_size v
    next =
        ap (λ (n : ℕ). u16 (o + u16 n)) (length-put_column o t).1
        ∙ no_wrap o (text_size v) (texts_size vs) small

    pub fixeds-cons : fixeds (c ∷ cs) (v ∷ vs) o ≡ fixed ++ fixeds cs vs (o + text_size v)
    unfolding put_columns
    fixeds-cons = ap (λ (m : ℕ). fixed ++ fixeds cs vs m) next

    pub strs-cons : strs (c ∷ cs) (v ∷ vs) o ≡ str ++ strs cs vs (o + text_size v)
    unfolding put_columns
    strs-cons = ap (λ (m : ℕ). str ++ strs cs vs m) next
