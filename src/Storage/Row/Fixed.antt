-- ===== src/Storage/Row/Fixed.antt =====
-- The fixed part of a row is read back, the null bits given.
use agent_db.Prelude.{
  ℕ, suc, ◌+◌, ◌^◌, ◌≤◌, ◌<◌, ◌≡◌, refl, sym, ap, ◌∙◌, true, false, none, some, List, [], ◌∷◌, ◌++◌,
  append_assoc, arith, length, length-append, ltb,
}
use agent_db.Outcome.{ok}
use agent_db.Bytes.{le_value, le_value-le_bytes}
use agent_db.Int64.{ℤ}
use agent_db.Int32.{to_word32, of_word32, to_word32-lt, of_word32-to_word32}
use agent_db.Sql.Text.{Bytes}
use agent_db.Storage.Value.{Floats, ColumnType, int32, float64, value_int32, value_float}
use agent_db.Storage.Row.{
  ColumnDef, fixed_size, null_bit, slice, Cell, is_nil, put_column, put_columns, Part, value, at,
  get_column, get_columns,
}
use agent_db.Storage.Row.Columns.{
  slice_at, Typed, is_missing, is_int, is_float, is_bool, is_text, AllTyped, text_size, texts_size,
  part, parts, length-put_column, fixeds, fixeds-cons,
}

module _ (K : Floats) where
  open K use {Float, bits, of_bits}

  -- the null bits of the columns from `i` on
  abbrev pub Agrees : List ℕ → ℕ → List (Cell K) → Type 0
  Agrees nulls i [] = Unit
  Agrees nulls i (v ∷ vs) = (null_bit nulls i ≡ is_nil K v) × Agrees nulls (suc i) vs

  module _ (back : (x : Float) → of_bits (bits x) ≡ x) (word : (x : Float) → bits x < 2 ^ 64) where
    abbrev val : Cell K → Part K
    val = value

    abbrev offset_part : ℕ → Part K
    offset_part = at

    get-put_column :
        {t : ColumnType} {v : Cell K} (o : ℕ)
        → Typed K t v
        → o < 65536
        → (is_nil K v ≡ false)
        → get_column K t (put_column K t v o).0 ≡ part K v o
    unfolding put_column get_column value_int32 value_float le_value
    get-put_column o (is_missing t) l e = absurd (ground arith)
    get-put_column o (is_int {n} h) l e =
        ap (λ (w : ℕ). val (some (int32 (of_word32 w))))
          (le_value-le_bytes 4 (to_word32 n) (omega (arith, to_word32-lt n)))
        ∙ ap (λ (z : ℤ). val (some (int32 z))) (of_word32-to_word32 n h)
    get-put_column o (is_float {x}) l e =
        ap (λ (w : ℕ). val (some (float64 (of_bits w))))
          (le_value-le_bytes 8 (bits x) (omega (arith, word x)))
        ∙ ap (λ (y : Float). val (some (float64 y))) (back x)
    get-put_column o (is_bool {b = true}) l e = refl
    get-put_column o (is_bool {b = false}) l e = refl
    get-put_column o (is_text {s}) l e = ap offset_part (le_value-le_bytes 2 o (omega arith))

    get_one :
        (bs : Bytes) (nulls : List ℕ) (c : ColumnDef) (cs : List ColumnDef) (v : Cell K)
        (i p o end : ℕ) (ps : List (Part K))
        → Typed K c.col_type v
        → o < 65536
        → null_bit nulls i ≡ is_nil K v
        → p + fixed_size c.col_type ≤ length bs
        → slice bs p (fixed_size c.col_type) ≡ (put_column K c.col_type v o).0
        → get_columns K bs nulls cs (suc i) (p + fixed_size c.col_type) ≡ ok (ps, end)
        → get_columns K bs nulls (c ∷ cs) i p ≡ ok (part K v o ∷ ps, end)
    unfolding get_columns
    get_one bs nulls c cs none i p o end ps t l a room there rest = rw a (rw rest refl)
    get_one bs nulls c cs (some v) i p o end ps t l a room there rest =
        let long : ltb (length bs) (p + fixed_size c.col_type) ≡ false = ground arith in
        rw a (
          rw long (
            rw rest (
              ap (λ (q : Part K). ok (q ∷ ps, end))
                (ap (get_column K c.col_type) there ∙ get-put_column o t l refl))))

    pub get-put_columns :
        (bs : Bytes) (nulls : List ℕ) (cs : List ColumnDef) (vs : List (Cell K)) (i p o : ℕ)
        (pre post : Bytes)
        → bs ≡ pre ++ (fixeds K cs vs o ++ post)
        → p ≡ length pre
        → AllTyped K cs vs
        → Agrees nulls i vs
        → o + texts_size K vs < 65536
        → get_columns K bs nulls cs i p ≡ ok (parts K vs o, p + length (fixeds K cs vs o))
    get-put_columns bs nulls [] [] i p o pre post e hp t a l =
        unfold get_columns put_columns in ap (λ (n : ℕ). ok ([], n)) (omega arith)
    get-put_columns bs nulls [] (v ∷ vs) i p o pre post e hp t a l = absurd t
    get-put_columns bs nulls (c ∷ cs) [] i p o pre post e hp t a l = absurd t
    get-put_columns bs nulls (c ∷ cs) (v ∷ vs) i p o pre post e hp t a l =
        let small : o + text_size K v + texts_size K vs < 65536 = omega arith in
        let size = (length-put_column K o t.0).0 in
        let f : Bytes = (put_column K c.col_type v o).0 in
        let o' : ℕ = o + text_size K v in
        let cons = fixeds-cons K c cs v vs o t.0 small in
        let split : bs ≡ pre ++ (f ++ (fixeds K cs vs o' ++ post)) =
          e
          ∙ ap (λ (x : Bytes). pre ++ (x ++ post)) cons
          ∙ ap (λ (x : Bytes). pre ++ x) (append_assoc f (fixeds K cs vs o') post) in
        let rest =
          get-put_columns bs nulls cs vs (suc i) (p + fixed_size c.col_type) o' (pre ++ f) post
            (split ∙ sym (append_assoc pre f (fixeds K cs vs o' ++ post)))
            (omega (arith, length-append pre f, size)) t.1 a.1 small in
        get_one bs nulls c cs v i p o _ (parts K vs o') t.0 (omega arith) a.0
          (omega (
            arith,
            ap (length {A = ℕ}) split,
            length-append pre (f ++ (fixeds K cs vs o' ++ post)),
            length-append f (fixeds K cs vs o' ++ post),
            size,
          ))
          (ap (λ (x : Bytes). slice x p (fixed_size c.col_type)) split
            ∙ slice_at pre f (fixeds K cs vs o' ++ post) p (fixed_size c.col_type) hp (sym size))
          rest
        ∙ ap (λ (n : ℕ). ok (part K v o ∷ parts K vs o', n))
            (omega (arith, ap (length {A = ℕ}) cons, length-append f (fixeds K cs vs o'), size))
