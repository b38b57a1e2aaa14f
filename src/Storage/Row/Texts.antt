-- ===== src/Storage/Row/Texts.antt =====
-- The texts of a row are read back from behind its fixed part and its offsets.
use agent_db.Prelude.{
  ℕ, ◌+◌, ◌*◌, ◌≤◌, ◌<◌, ◌≡◌, refl, sym, ap, ◌∙◌, false, some, List, [], ◌∷◌, ◌++◌, map,
  append_assoc, arith, length, length-append, ltb,
}
use agent_db.Bytes.{le_bytes, le_value, le_value-le_bytes, length-le_bytes}
use agent_db.Sql.Text.{Bytes}
use agent_db.Storage.Value.{Floats, ColumnType, text, sprint_value}
use agent_db.Storage.Row.{
  ColumnDef, u16, slice, Cell, put_column, put_columns, offset_bytes, get_text,
}
use agent_db.Storage.Row.Columns.{
  slice_at, Typed, is_missing, is_int, is_float, is_bool, is_text, AllTyped, text_size, texts_size,
  part, parts, length-put_column, strs, strs-cons,
}

module _ (K : Floats) where
  open K use {Float, bits, of_bits}

  -- the texts behind `base`, from the offset `o` on
  get_one_text :
      (bs : Bytes) (vp o : ℕ) {t : ColumnType} {v : Cell K} (pre post : Bytes)
      → Typed K t v
      → bs ≡ pre ++ ((put_column K t v o).2 ++ post)
      → vp + o ≡ length pre
      → text_size K v < 65536
      → get_text K bs vp (part K v o) ≡ v
  unfolding get_text put_column sprint_value
  get_one_text bs vp o pre post (is_missing t) e hp l = refl
  get_one_text bs vp o pre post (is_int {n} h) e hp l = refl
  get_one_text bs vp o pre post (is_float {x}) e hp l = refl
  get_one_text bs vp o pre post (is_bool {b}) e hp l = refl
  get_one_text bs vp o pre post (is_text {s}) e hp l =
      let head : Bytes = le_bytes 2 (u16 (length s)) in
      let split : bs ≡ pre ++ (head ++ (s ++ post)) =
        e ∙ ap (λ (x : Bytes). pre ++ x) (append_assoc head s post) in
      let size = length-le_bytes 2 (u16 (length s)) in
      let len : le_value (slice bs (vp + o) 2) ≡ length s =
        ap le_value (
          ap (λ (x : Bytes). slice x (vp + o) 2) split
          ∙ slice_at pre head (s ++ post) (vp + o) 2 hp (sym size))
        ∙ le_value-le_bytes 2 (u16 (length s)) (omega arith)
        ∙ omega arith in
      let body : slice bs (vp + o + 2) (length s) ≡ s =
        ap (λ (x : Bytes). slice x (vp + o + 2) (length s))
          (split ∙ sym (append_assoc pre head (s ++ post)))
        ∙ slice_at (pre ++ head) s post (vp + o + 2) (length s)
            (omega (arith, length-append pre head, size)) refl in
      let all = ap (length {A = ℕ}) split ∙ length-append pre (head ++ (s ++ post)) in
      let room : vp + o + 2 + length s ≤ length bs =
        omega (arith, all, length-append head (s ++ post), length-append s post, size) in
      let far : ltb (length bs) (vp + o + 2) ≡ false = ground (arith, room) in
      let farther : ltb (length bs) (vp + o + 2 + length s) ≡ false = ground (arith, room) in
      rw len (rw far (rw farther (ap (λ (x : Bytes). some (text x)) body)))

  pub get_texts :
      (bs : Bytes) (vp o : ℕ) (cs : List ColumnDef) (vs : List (Cell K)) (pre post : Bytes)
      → bs ≡ pre ++ (strs K cs vs o ++ post)
      → vp + o ≡ length pre
      → AllTyped K cs vs
      → o + texts_size K vs < 65536
      → map (get_text K bs vp) (parts K vs o) ≡ vs
  get_texts bs vp o [] [] pre post e hp t l = refl
  get_texts bs vp o [] (v ∷ vs) pre post e hp t l = absurd t
  get_texts bs vp o (c ∷ cs) [] pre post e hp t l = absurd t
  get_texts bs vp o (c ∷ cs) (v ∷ vs) pre post e hp t l =
      let small : o + text_size K v + texts_size K vs < 65536 = omega arith in
      let s : Bytes = (put_column K c.col_type v o).2 in
      let o' : ℕ = o + text_size K v in
      let split : bs ≡ pre ++ (s ++ (strs K cs vs o' ++ post)) =
        e
        ∙ ap (λ (x : Bytes). pre ++ (x ++ post)) (strs-cons K c cs v vs o t.0 small)
        ∙ ap (λ (x : Bytes). pre ++ x) (append_assoc s (strs K cs vs o') post) in
      let rest =
        get_texts bs vp o' cs vs (pre ++ s) post
          (split ∙ sym (append_assoc pre s (strs K cs vs o' ++ post)))
          (omega (arith, length-append pre s, (length-put_column K o t.0).1)) t.1 small in
      cc (get_one_text bs vp o pre (strs K cs vs o' ++ post) t.0 split hp (omega arith), rest)

  pub length-offsets :
      (cs : List ColumnDef) (vs : List (Cell K)) (o : ℕ)
      → AllTyped K cs vs
      → length (offset_bytes K (put_columns K cs vs o).1) ≡ length cs * 2
  unfolding put_columns
  length-offsets [] [] o t = refl
  length-offsets [] (v ∷ vs) o t = absurd t
  length-offsets (c ∷ cs) [] o t = absurd t
  length-offsets (c ∷ cs) (v ∷ vs) o t =
      let next : ℕ = u16 (o + u16 (length (put_column K c.col_type v o).2)) in
      omega (
        arith,
        length-offsets cs vs next t.1,
        length-le_bytes 2 (put_column K c.col_type v o).1,
        length-append (le_bytes 2 (put_column K c.col_type v o).1)
            (offset_bytes K (put_columns K cs vs next).1),
      )
