-- ===== src/Storage/Row/RoundTrip.antt =====
-- A row that fits its schema is read back from its bytes.
use agent_db.Prelude.{
  ℕ, suc, ◌+◌, ◌*◌, ◌^◌, ◌<◌, ◌≡◌, refl, sym, ap, ◌∙◌, true, false, List, [], ◌∷◌, ◌++◌, map,
  append_assoc, append-nil, arith, length, length-append, take, take-append, ltb, ◌==◌,
}
use agent_db.Outcome.{ok}
use agent_db.Sql.Text.{Bytes}
use agent_db.Storage.Value.{Floats}
use agent_db.Storage.Row.{
  ColumnDef, TableSchema, bitmap_size, bitmap, null_bit, Cell, is_null, put_columns, offset_bytes,
  row_bytes, serialize_row, get_columns, get_text, deserialize_row,
}
use agent_db.Storage.Row.Bitmap.{length-bitmap, null_bit-bitmap}
use agent_db.Storage.Row.Columns.{AllTyped, texts_size, parts, fixeds, strs}
use agent_db.Storage.Row.Fixed.{Agrees, get-put_columns}
use agent_db.Storage.Row.Texts.{get_texts, length-offsets}

module _ (K : Floats) where
  open K use {Float, bits, of_bits}

  length-AllTyped :
      (cs : List ColumnDef) (vs : List (Cell K)) → AllTyped K cs vs → length vs ≡ length cs
  length-AllTyped [] [] t = refl
  length-AllTyped [] (v ∷ vs) t = absurd t
  length-AllTyped (c ∷ cs) [] t = absurd t
  length-AllTyped (c ∷ cs) (v ∷ vs) t = ap suc (length-AllTyped cs vs t.1)

  -- the bits of the bitmap, for the columns from `i` on
  bits-Agrees :
      (nulls : List ℕ) (i : ℕ) (vs : List (Cell K))
      → ((k : ℕ) → k < length vs → null_bit nulls (i + k) ≡ is_null K vs k)
      → Agrees K nulls i vs
  bits-Agrees nulls i [] h = tt
  bits-Agrees nulls i (v ∷ vs) h = (
    ap (null_bit nulls) (omega arith) ∙ h 0 (omega arith),
    bits-Agrees nulls (suc i) vs
        (λ k l. ap (null_bit nulls) (omega arith) ∙ h (suc k) (omega arith)),
  )

  module _ (back : (x : Float) → of_bits (bits x) ≡ x) (word : (x : Float) → bits x < 2 ^ 64) where
    module _ (schema : TableSchema) (vs : List (Cell K)) (t : AllTyped K schema.columns vs)
        (some_columns : 0 < length vs) (small : texts_size K vs < 65536) where
      abbrev cs : List ColumnDef
      cs = schema.columns

      abbrev size : ℕ
      size = bitmap_size (length cs)

      abbrev nulls : Bytes
      nulls = bitmap (is_null K vs) 0 (bitmap_size (length vs))

      abbrev offs : Bytes
      offs = offset_bytes K (put_columns K cs vs 0).1

      abbrev row : Bytes
      row = row_bytes K vs (put_columns K cs vs 0)

      same : length vs ≡ length cs
      same = length-AllTyped cs vs t

      same_size : size ≡ length nulls
      same_size =
          ap bitmap_size (sym same) ∙ sym (length-bitmap (is_null K vs) 0 (bitmap_size (length vs)))

      taken : take size row ≡ nulls
      taken = take-append nulls _ same_size

      columns_back :
          get_columns K row (take size row) cs 0 size
          ≡ ok (parts K vs 0, size + length (fixeds K cs vs 0))
      columns_back =
          get-put_columns K back word row (take size row) cs vs 0 size 0 nulls
            (offs ++ strs K cs vs 0) refl same_size t
            (bits-Agrees (take size row) 0 vs (λ k l.
              ap (λ (b : Bytes). null_bit b (0 + k)) taken
              ∙ null_bit-bitmap (is_null K vs) (bitmap_size (length vs)) (0 + k) (omega arith)
              ∙ ap (is_null K vs) (omega arith)))
            (omega arith)

      texts_back :
          map (get_text K row (size + length (fixeds K cs vs 0) + length cs * 2)) (parts K vs 0)
          ≡ vs
      texts_back =
          get_texts K row (size + length (fixeds K cs vs 0) + length cs * 2) 0 cs vs
            (nulls ++ (fixeds K cs vs 0 ++ offs)) [] (simp (append_assoc, append-nil))
            (omega (
              arith,
              same_size,
              length-append nulls (fixeds K cs vs 0 ++ offs),
              length-append (fixeds K cs vs 0) offs,
              length-offsets K cs vs 0 t,
            ))
            t (omega arith)

      not_empty : (length row == 0) ≡ false
      not_empty = ground (
        arith,
        length-append nulls (fixeds K cs vs 0 ++ (offs ++ strs K cs vs 0)),
        same,
        same_size,
      )

      long : ltb (length row) size ≡ false
      long =
          ground
            (arith, length-append nulls (fixeds K cs vs 0 ++ (offs ++ strs K cs vs 0)), same_size)

      -- A row whose values are of the types of its columns, at least one, or nil, and whose texts with
      -- their lengths take less than 65536 bytes, is serialised, and its bytes give its values back.
      pub deserialize-serialize_row :
          (bs : Bytes) × (serialize_row K vs schema ≡ ok bs) × (deserialize_row K bs schema ≡ ok vs)
      unfolding serialize_row deserialize_row
      deserialize-serialize_row = (
        row,
        (let test : (length vs == length cs) ≡ true = ground (arith, same) in rw test refl),
        rw not_empty (rw long (rw columns_back (ap ok texts_back))),
      )
