-- ===== src/Storage/Heap/Lookup.antt =====
-- GetRow of a row that InsertRow stored.
use agent_db.Prelude.{
  ℕ, ◌+◌, ◌*◌, ◌^◌, ◌%◌, ◌≤◌, ◌<◌, ◌≡◌, refl, sym, ap, ◌∙◌, ◌⊎◌, inl, inr, Bool-cases, false, some,
  List, [], ◌∷◌, arith, length, ◌==◌, if◌then◌else◌,
}
use mathlib.Core.Path.{subst}
use agent_db.Outcome.{Outcome, ok, err, Error, io, all_pinned, deadlock, short_data}
use agent_db.Sql.Text.{Bytes}
use agent_db.Storage.Page.{Page}
use agent_db.Storage.Disk.ReadBack.{clip, IsPlain}
use agent_db.Storage.BufferPool.{BufferPool, fetch_page, fetch_cached}
use agent_db.Storage.BufferPool.Frames.{frame_of_page}
use agent_db.Storage.BufferPool.Invariant.{view_cached, view}
use agent_db.Storage.BufferPool.Invariant
use agent_db.Storage.Value.{Floats}
use agent_db.Storage.Row.{TableSchema, Rid, Cell, serialize_row, deserialize_row}
use agent_db.Storage.Row.Columns.{AllTyped, texts_size}
use agent_db.Storage.Row.RoundTrip.{deserialize-serialize_row}
use agent_db.Storage.Heap.{
  HeapFile, hash_string, table_id, insert_bytes, insert_row, inserted_into, with_pool, get_row,
  get_fetched, read_row,
}
use agent_db.Storage.Heap.Written.{Sane, row_at_page, ok_inj}
use agent_db.Storage.Heap.Write.{Stored}
use agent_db.Storage.Heap.Insert.{Inserting, stored, refused, insert_bytes-Inserting}

hash_string-lt : (h : ℕ) (s : Bytes) → h < 2 ^ 32 → hash_string h s < 2 ^ 32
unfolding hash_string
hash_string-lt h [] l = l
hash_string-lt h (c ∷ s) l = hash_string-lt ((h * 31 + c) % 2 ^ 32) s (omega arith)

-- a fetch of a page that the pool holds
fetch_page_held :
    (bp : BufferPool) (id i : ℕ)
    → Invariant.IsValid bp
    → bp.page_map id ≡ some i
    → (p : Page) × ((fetch_page bp id).0 ≡ ok p) × (view bp id ≡ ok (clip p.bytes)) × (p.id ≡ id)
unfolding fetch_page fetch_cached
fetch_page_held bp id i v m =
    let (p, here, own) = v.mapped id i m in
    let (f, at, has) = frame_of_page bp.frames i p here in
    (
      p,
      rw (m, fetch_page) (rw (at, fetch_cached) (rw has refl)),
      ap (view bp) (sym own) ∙ view_cached bp i p v here,
      own,
    )

module _ (K : Floats) where
  open K use {Float, bits, of_bits}

  get_row_free :
      (h : HeapFile) (rid : Rid)
      → h.locked ≡ false
      → get_row K h rid ≡ with_pool h (get_fetched K (fetch_page h.pool rid.page_id) h.schema rid)
  unfolding get_row
  get_row_free h rid e =
      ap
        (λ b.
          if b
          then (deadlock, h)
          else with_pool h (get_fetched K (fetch_page h.pool rid.page_id) h.schema rid))
        e

  insert_row_free :
      (fuel : ℕ) (h : HeapFile) (vs : List (Cell K)) (bs : List ℕ)
      → h.locked ≡ false
      → serialize_row K vs h.schema ≡ ok bs
      → insert_row K fuel h vs ≡ with_pool h (insert_bytes fuel h.pool (table_id h.schema) bs)
  unfolding insert_row inserted_into
  insert_row_free fuel h vs bs e s =
      ap (λ b. if b then (deadlock, h) else inserted_into fuel h (serialize_row K vs h.schema)) e
      ∙ ap (inserted_into fuel h) s

  -- GetRow of a stored row gives what its bytes give
  get_row-Stored :
      (bp : BufferPool) (bs : List ℕ) (rid : Rid) (h : HeapFile)
      → Stored bp bs rid h.pool
      → h.locked ≡ false
      → (get_row K h rid).0 ≡ deserialize_row K bs h.schema
  unfolding get_row get_fetched read_row
  get_row-Stored bp bs rid h t free =
      let (p, e, seen, own) = fetch_page_held h.pool rid.page_id t.frame t.sane.valid t.mapped in
      let row =
        sym (
          row_at_page h.pool rid.page_id p rid.slot_id seen own
            (t.sane.well_formed rid.page_id t.plain (clip p.bytes) seen))
        ∙ t.stored in
      ap (λ o. o.0) (get_row_free h rid free)
      ∙ ap
          (λ (o : Outcome Page).
            (get_fetched K (o, (fetch_page h.pool rid.page_id).1) h.schema rid).0)
          e
      ∙ rw (row, read_row) refl

  -- What InsertRow gives: a row id under which GetRow finds the row, or an error of the pool.
  pub data InsertedRow (h : HeapFile) (values : List (Cell K))
      : Outcome Rid × HeapFile → Type 0 where
    row_stored :
        (rid : Rid) (h' : HeapFile) (bs : List ℕ)
        → Stored h.pool bs rid h'.pool
        → h'.schema ≡ h.schema
        → h'.locked ≡ false
        → (get_row K h' rid).0 ≡ ok values
        → InsertedRow h values (ok rid, h')
    row_refused :
        (e : Error) (h' : HeapFile)
        → (e ≡ io) ⊎ (e ≡ all_pinned)
        → ((id : ℕ) → IsPlain id → view h'.pool id ≡ view h.pool id)
        → InsertedRow h values (err e, h')

  module _ (back : (x : Float) → of_bits (bits x) ≡ x) (word : (x : Float) → bits x < 2 ^ 64) where
    not_empty :
        (bs : List ℕ) (schema : TableSchema) (vs : List (Cell K))
        → deserialize_row K bs schema ≡ ok vs
        → 0 < length bs
    unfolding deserialize_row
    not_empty bs schema vs h = elim (Bool-cases (length bs == 0)) [
      | inl e ↦
          let bad : deserialize_row K bs schema ≡ err short_data = rw e refl in
          absurd (ground (arith, bad))
      | inr e ↦ ground arith
    ]

    with_pool-InsertedRow :
        (h : HeapFile) (vs : List (Cell K)) (bs : List ℕ) (r : Outcome Rid × BufferPool)
        → h.locked ≡ false
        → deserialize_row K bs h.schema ≡ ok vs
        → Inserting h.pool bs r
        → InsertedRow h vs (r.0, record h { pool = r.1 })
    with_pool-InsertedRow h vs bs r free e (stored rid bp' t) =
        let h' : HeapFile = record h { pool = bp' } in
        row_stored rid h' bs t refl free (get_row-Stored h.pool bs rid h' t free ∙ e)
    with_pool-InsertedRow h vs bs r free e (refused x bp' which v same) = row_refused x _ which same

    -- On a heap file with a sane pool and a free mutex, InsertRow of values of the columns' types,
    -- at least one, whose bytes fit on a new page, stores the row: GetRow gives it back, the pool stays sane, and
    -- every other row is as before. Or it gives an error of the pool, and every page is as before.
    pub get_row-insert_row :
        (fuel : ℕ) (h : HeapFile) (vs : List (Cell K)) (bs : List ℕ)
        → 2 ^ 51 ≤ fuel
        → h.locked ≡ false
        → Sane h.pool
        → AllTyped K h.schema.columns vs
        → 0 < length vs
        → texts_size K vs < 65536
        → serialize_row K vs h.schema ≡ ok bs
        → length bs + 4 ≤ 4072
        → InsertedRow h vs (insert_row K fuel h vs)
    get_row-insert_row fuel h vs bs l free sane typed some_columns small e fit =
        let (bs', e', again) =
          deserialize-serialize_row K back word h.schema vs typed some_columns small in
        let same : bs' ≡ bs = ok_inj (sym e' ∙ e) in
        let reads : deserialize_row K bs h.schema ≡ ok vs =
          subst (λ b. deserialize_row K b h.schema ≡ ok vs) same again in
        subst (InsertedRow h vs) (sym (insert_row_free fuel h vs bs free e)) (
          with_pool-InsertedRow h vs bs (insert_bytes fuel h.pool (table_id h.schema) bs) free reads
            (insert_bytes-Inserting fuel h.pool (table_id h.schema) bs l sane
              (hash_string-lt 0 h.schema.name (omega arith)) (not_empty bs h.schema vs reads) fit))
