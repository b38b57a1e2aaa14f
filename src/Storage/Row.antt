-- ===== src/Storage/Row.antt =====
-- pkg/storage/row.go: SerializeRow and DeserializeRow. A row's bytes are the null bitmap, the fixed
-- part of each column, an offset of two bytes for each column, and the texts.
pub mod Bitmap
pub mod Columns
pub mod Fixed
pub mod RoundTrip
pub mod Texts
use agent_db.Prelude.{
  ℕ, zero, suc, ◌+◌, ◌-◌, ◌*◌, ◌/◌, ◌%◌, ◌^◌, Bool, true, false, not, ◌&&◌, ◌||◌, Option, none,
  some, List, [], ◌∷◌, ◌++◌, map, length, get_elem?, get_or, take, drop, replicate, ltb, leb, ◌==◌,
  if◌then◌else◌,
}
use agent_db.Outcome.{Outcome, ok, err, panic, deadlock, column_count, short_data, ◌>>=◌}
use agent_db.Bytes.{le_bytes, le_value}
use agent_db.Int32.{to_word32, of_word32}
use agent_db.Sql.Text.{Bytes}
use agent_db.Storage.Value.{
  Floats, ColumnType, type_int, type_float, type_text, type_bool, Value, int32, float64, bool, text,
  sprint_value, value_int32, value_float, value_bool,
}

pub record ColumnDef : Type 0 where
  pub name : Bytes
  pub col_type : ColumnType
  pub nullable : Bool
  pub primary_key : Bool
  pub auto_increment : Bool
  pub unique : Bool
  pub default : Bytes
  pub check : Bytes
  pub references : Bytes

pub record TableSchema : Type 0 where
  pub name : Bytes
  pub columns : List ColumnDef

pub record Rid : Type 0 where
  pub page_id : ℕ
  pub slot_id : ℕ

-- colFixedSize
abbrev pub fixed_size : ColumnType → ℕ
fixed_size type_int = 4
fixed_size type_float = 8
fixed_size type_bool = 1
fixed_size type_text = 2

abbrev pub bitmap_size : ℕ → ℕ
bitmap_size columns = (columns + 7) / 8

-- the bits `1 << j` of the byte `k` of the bitmap, for the columns that are null
abbrev pub bit : Bool → ℕ
bit b = if b then 1 else 0

unfoldable pub bitmap_byte : (ℕ → Bool) → ℕ → ℕ
bitmap_byte nulls k =
    bit (nulls (8 * k))
    + (2 * bit (nulls (8 * k + 1))
        + (4 * bit (nulls (8 * k + 2))
            + (8 * bit (nulls (8 * k + 3))
                + (16 * bit (nulls (8 * k + 4))
                    + (32 * bit (nulls (8 * k + 5))
                        + (64 * bit (nulls (8 * k + 6)) + 128 * bit (nulls (8 * k + 7))))))))

-- n bytes from the byte `k` on
unfoldable pub bitmap : (ℕ → Bool) → ℕ → ℕ → List ℕ
bitmap nulls k zero = []
bitmap nulls k (suc n) = bitmap_byte nulls k ∷ bitmap nulls (suc k) n

-- nullBitmap[i/8] & (1 << (i%8)) != 0
unfoldable pub null_bit : List ℕ → ℕ → Bool
null_bit bytes i = ltb (i / 8) (length bytes) && ((get_or bytes (i / 8) 0 / 2 ^ (i % 8)) % 2 == 1)

abbrev pub u16 : ℕ → ℕ
u16 n = n % 65536

-- data[pos:pos+n]
abbrev pub slice : List ℕ → ℕ → ℕ → List ℕ
slice bs pos n = take n (drop pos bs)

module _ (K : Floats) where
  open K use {Float, bits, of_bits}

  abbrev pub Cell : Type 0
  Cell = Option (Value Float)

  pub record Row : Type 0 where
    pub rid : Rid
    pub values : List Cell

  abbrev pub is_nil : Cell → Bool
  is_nil none = true
  is_nil (some v) = false

  -- `v == nil` for the value `i`; no bit is set behind the values
  abbrev pub is_null : List Cell → ℕ → Bool
  is_null values i = elim (get_elem? values i) [ none ↦ false | some v ↦ is_nil v ]

  -- what a column appends: its fixed part, its offset and its text, for the texts' length so far
  unfoldable pub put_column : ColumnType → Cell → ℕ → Bytes × ℕ × Bytes
  put_column t none var_offset = (replicate (fixed_size t) 0, 0, [])
  put_column type_int (some v) var_offset = (le_bytes 4 (to_word32 (value_int32 K v)), 0, [])
  put_column type_float (some v) var_offset = (le_bytes 8 (bits (value_float K v)), 0, [])
  put_column type_bool (some v) var_offset = (bit (value_bool K v) ∷ [], 0, [])
  put_column type_text (some v) var_offset =
      let str = sprint_value K (some v) in
      (le_bytes 2 var_offset, var_offset, le_bytes 2 (u16 (length str)) ++ str)

  -- the loop over the columns, which have as many values
  unfoldable pub put_columns : List ColumnDef → List Cell → ℕ → Bytes × List ℕ × Bytes
  put_columns (c ∷ cs) (v ∷ vs) var_offset =
      let (fixed, offset, str) = put_column c.col_type v var_offset in
      let (fixeds, offsets, strs) = put_columns cs vs (u16 (var_offset + u16 (length str))) in
      (fixed ++ fixeds, offset ∷ offsets, str ++ strs)
  put_columns _ _ var_offset = ([], [], [])

  abbrev pub offset_bytes : List ℕ → Bytes
  offset_bytes [] = []
  offset_bytes (o ∷ os) = le_bytes 2 o ++ offset_bytes os

  -- the parts put together
  abbrev pub row_bytes : List Cell → Bytes × List ℕ × Bytes → Bytes
  row_bytes values (fixed, offsets, strs) =
      bitmap (is_null values) 0 (bitmap_size (length values))
      ++ (fixed ++ (offset_bytes offsets ++ strs))

  unfoldable pub serialize_row : List Cell → TableSchema → Outcome Bytes
  serialize_row values schema =
      if length values == length schema.columns
      then ok (row_bytes values (put_columns schema.columns values 0))
      else err column_count

  -- a value that was read, or a text's offset
  pub data Part : Type 0 where
    value : Cell → Part
    at : ℕ → Part

  unfoldable pub get_column : ColumnType → Bytes → Part
  get_column type_int bs = value (some (int32 (of_word32 (le_value bs))))
  get_column type_float bs = value (some (float64 (of_bits (le_value bs))))
  get_column type_bool bs = value (some (bool (le_value bs == 1)))
  get_column type_text bs = at (le_value bs)

  -- the first loop of DeserializeRow, from the column `i` at `pos`: the parts and the end
  unfoldable pub get_columns : Bytes → List ℕ → List ColumnDef → ℕ → ℕ → Outcome (List Part × ℕ)
  get_columns bs nulls [] i pos = ok ([], pos)
  get_columns bs nulls (c ∷ cs) i pos =
      let size = fixed_size c.col_type in
      let rest = get_columns bs nulls cs (suc i) (pos + size) in
      if null_bit nulls i
      then (do (parts, end) ← rest; ok (value none ∷ parts, end))
      else if ltb (length bs) (pos + size)
      then err short_data
      else (do (parts, end) ← rest; ok (get_column c.col_type (slice bs pos size) ∷ parts, end))

  -- the second loop: the text of a part, left nil where the bytes do not have it
  unfoldable pub get_text : Bytes → ℕ → Part → Cell
  get_text bs var_pos (value v) = v
  get_text bs var_pos (at offset) =
      let start = var_pos + offset in
      let len = le_value (slice bs start 2) in
      if ltb (length bs) (start + 2)
      then none
      else if ltb (length bs) (start + 2 + len)
      then none
      else some (text (slice bs (start + 2) len))

  -- the values of the row
  unfoldable pub deserialize_row : Bytes → TableSchema → Outcome (List Cell)
  deserialize_row bs schema =
      let columns = length schema.columns in
      let size = bitmap_size columns in
      if length bs == 0
      then err short_data
      else if ltb (length bs) size
      then err short_data
      else (do
        (parts, end) ← get_columns bs (take size bs) schema.columns 0 size
        ok (map (get_text bs (end + columns * 2)) parts))
