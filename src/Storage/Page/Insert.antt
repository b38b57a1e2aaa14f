-- ===== src/Storage/Page/Insert.antt =====
-- `InsertRow` on a well-formed page.
use native.Mathlib.Decide.{dec_lt}
use agent_db.Prelude.{
  ℕ, ◌+◌, ◌-◌, ◌*◌, ◌≤◌, ◌<◌, ◌≡◌, refl, sym, ◌∙◌, ap, ◌⊎◌, inl, inr, true, List, arith, length,
  ltb, if◌then◌else◌,
}
use agent_db.Outcome.{ok, err, panic, too_long, no_space}
use agent_db.Bytes.{
  Buf, write, read, get_uint, put_uint, put_apart, get-put_self, get-put_ne, get_congr, write_below,
  write_above, read-write_self, read_congr,
}
use agent_db.Storage.Page.{
  Page, PageHeader, Slot, read_header, write_header, set_slot, get_row, insert_row, slot_offset,
  u16, free_space, can_fit, grown,
}
use agent_db.Storage.Page.Header.{Fits, id-write_header, read-write_header, write_header_above}
use agent_db.Storage.Page.Layout.{
  IsValid, SlotFits, slot_at, rows, rows-le, row_of, get_row-row_of, slot_at_congr, row_of_congr,
  free_space_lem,
}

pub set_slot_lem :
    (p : Page) (i : ℕ) (s : Slot)
    → i < 1018
    → set_slot p i s
      ≡ ok (record p {
        bytes = put_uint (put_uint p.bytes (24 + i * 4) 2 s.offset) (24 + i * 4 + 2) 2 s.length;
      })
unfolding set_slot
set_slot_lem p i s h =
    let at : slot_offset i ≡ 24 + i * 4 = omega arith in
    let second : u16 (24 + i * 4 + 2) ≡ 24 + i * 4 + 2 = omega arith in
    rw (at, second) (ground arith)

-- what an insert of `bs` does to a page with room for it
pub record Inserted (p : Page) (bs : List ℕ) (p' : Page) : Type 0 where
  pub valid : IsValid p'
  pub header : read_header p' ≡ grown (read_header p) ((read_header p).free_space_end - length bs)
  pub same_id : p'.id ≡ p.id
  pub dirty : p'.dirty ≡ true
  pub slot :
      slot_at p' (rows p)
      ≡ record { offset = (read_header p).free_space_end - length bs; length = length bs }
  pub stored : 0 < length bs → get_row p' (rows p) ≡ ok bs
  pub kept : (i : ℕ) → i < rows p → get_row p' i ≡ get_row p i

module _ (p : Page) (bs : List ℕ) (v : IsValid p) (fit : length bs + 4 ≤ free_space p) where
  abbrev new_end : ℕ
  new_end = (read_header p).free_space_end - length bs

  abbrev slot_pos : ℕ
  slot_pos = 24 + rows p * 4

  abbrev copied : Buf
  copied = write p.bytes new_end bs

  abbrev slotted : Buf
  slotted = put_uint (put_uint copied slot_pos 2 new_end) (slot_pos + 2) 2 (length bs)

  abbrev result : Page
  result = record (write_header (record p { bytes = slotted }) (grown (read_header p) new_end)) {
    dirty = true;
  }

  room_lem : slot_pos + length bs + 4 ≤ (read_header p).free_space_end
  room_lem = omega (arith, free_space_lem p v)

  can_fit_lem : can_fit p (length bs) ≡ true
  unfolding can_fit
  can_fit_lem = ground (arith, room_lem, v.inside)

  insert_row-result : insert_row p bs ≡ ok (rows p, result)
  unfolding insert_row
  insert_row-result =
      let small : u16 (length bs) ≡ length bs = omega (arith, room_lem, v.inside) in
      let end_eq : u16 ((read_header p).free_space_end + 65536 - length bs) ≡ new_end =
        omega (arith, room_lem, v.inside) in
      rw (small, can_fit_lem, end_eq)
        (ground (
          arith,
          room_lem,
          v.inside,
          set_slot_lem (record p { bytes = copied }) (rows p)
              (record { offset = new_end; length = length bs }) (omega (arith, room_lem, v.inside)),
        ))

  -- bytes outside the header, the new slot and the new row
  untouched :
      (j : ℕ)
      → 24 ≤ j
      → (j < slot_pos) ⊎ (slot_pos + 4 ≤ j)
      → (j < new_end) ⊎ (new_end + length bs ≤ j)
      → result.bytes j ≡ p.bytes j
  untouched j a b c =
      write_header_above (record p { bytes = slotted }) _ j a
      ∙ put_apart _ _ 2 _ j (ground arith)
      ∙ put_apart _ _ 2 _ j (ground arith)
      ∙ row_apart c
    where
      row_apart : (j < new_end) ⊎ (new_end + length bs ≤ j) → copied j ≡ p.bytes j
      row_apart (inl h) = write_below p.bytes new_end j bs h
      row_apart (inr h) = write_above p.bytes new_end j bs h

  grown-Fits : Fits (grown (read_header p) new_end)
  grown-Fits = record {
    page_id = v.fits.page_id;
    table_id = v.fits.table_id;
    free_space_off = omega arith;
    free_space_end = omega (arith, v.fits.free_space_end);
    row_count = omega arith;
    flags = v.fits.flags;
    checksum = v.fits.checksum;
  }

  same_id_lem : result.id ≡ p.id
  same_id_lem = id-write_header (record p { bytes = slotted }) (grown (read_header p) new_end)

  result-header : read_header result ≡ grown (read_header p) new_end
  unfolding read_header
  result-header =
      read-write_header (record p { bytes = slotted }) (grown (read_header p) new_end) grown-Fits

  new_slot : slot_at result (rows p) ≡ record { offset = new_end; length = length bs }
  unfolding slot_at
  new_slot = λ k. record { offset = first k; length = second k }
    where
      apart : (o : ℕ) → slot_pos ≤ o → get_uint result.bytes o 2 ≡ get_uint slotted o 2
      apart o h =
          get_congr result.bytes slotted o 2
            (λ j a b. write_header_above (record p { bytes = slotted }) _ j (omega arith))

      first : get_uint result.bytes slot_pos 2 ≡ new_end
      first =
          apart slot_pos (omega arith)
          ∙ get-put_ne _ (slot_pos + 2) 2 (length bs) slot_pos 2 (inl (omega arith))
          ∙ get-put_self copied slot_pos 2 new_end (omega (arith, v.inside))

      second : get_uint result.bytes (slot_pos + 2) 2 ≡ length bs
      second =
          apart (slot_pos + 2) (omega arith)
          ∙ get-put_self _ (slot_pos + 2) 2 (length bs) (omega (arith, room_lem, v.inside))

  old_slot : (i : ℕ) → i < rows p → slot_at result i ≡ slot_at p i
  old_slot i h =
      slot_at_congr result p i
        (λ j a b. untouched j (omega arith) (inl (omega arith)) (inl (omega (arith, room_lem))))

  count_lem : rows result ≡ rows p + 1
  count_lem = ap (λ (h : PageHeader). h.row_count) result-header ∙ omega (arith, rows-le p v)

  end_lem : (read_header result).free_space_end ≡ new_end
  end_lem = ap (λ (h : PageHeader). h.free_space_end) result-header

  off_lem : (read_header result).free_space_off ≡ 24 + (rows p + 1) * 4
  off_lem = ap (λ (h : PageHeader). h.free_space_off) result-header ∙ omega (arith, rows-le p v)

  stored_lem : (i : ℕ) → i < rows result → SlotFits new_end (slot_at result i)
  stored_lem i h = elim (dec_lt i (rows p)) [
    | yes old ↦ rw (old_slot i old) (widen (v.stored i old))
    | no new ↦
        let e : i ≡ rows p = omega (arith, count_lem) in
        rw (e, new_slot) (inr (omega arith, omega (arith, room_lem, v.inside)))
  ]
    where
      widen : {s : Slot} → SlotFits (read_header p).free_space_end s → SlotFits new_end s
      widen (inl empty) = inl empty
      widen (inr (a, b)) = inr (omega arith, b)

  result-IsValid : IsValid result
  result-IsValid = record {
    fits = rw result-header grown-Fits;
    page_id = ap (λ (h : PageHeader). h.page_id) result-header ∙ v.page_id ∙ sym same_id_lem;
    slots = rw (count_lem, off_lem) refl;
    room = rw (off_lem, end_lem) (omega (arith, room_lem));
    inside = rw end_lem (omega (arith, v.inside));
    stored = rw end_lem stored_lem;
  }

  result-kept : (i : ℕ) → i < rows p → get_row result i ≡ get_row p i
  result-kept i h =
      get_row-row_of result i result-IsValid (omega (arith, count_lem))
      ∙ ap (row_of result) (old_slot i h)
      ∙ row_of_congr result p (slot_at p i) _ (v.stored i h) (λ j a.
        untouched j (omega (arith, room_lem)) (inr (omega (arith, room_lem)))
          (inr (omega (arith, room_lem))))
      ∙ sym (get_row-row_of p i v h)

  row_bytes : read result.bytes new_end (length bs) ≡ bs
  row_bytes =
      read_congr result.bytes copied new_end (length bs) (λ j a b.
        write_header_above (record p { bytes = slotted }) _ j (omega (arith, room_lem))
        ∙ put_apart _ (slot_pos + 2) 2 _ j (inr (omega (arith, room_lem)))
        ∙ put_apart _ slot_pos 2 _ j (inr (omega (arith, room_lem))))
      ∙ read-write_self p.bytes new_end bs

  whole : 0 < length bs → row_of result (record { offset = new_end; length = length bs }) ≡ ok bs
  unfolding row_of
  whole h = ground (arith, row_bytes)

  result-stored : 0 < length bs → get_row result (rows p) ≡ ok bs
  result-stored h =
      get_row-row_of result (rows p) result-IsValid (omega (arith, count_lem))
      ∙ ap (row_of result) new_slot
      ∙ whole h

  insert_row-Inserted : Inserted p bs result
  insert_row-Inserted = record {
    valid = result-IsValid;
    header = result-header;
    same_id = same_id_lem;
    dirty = refl;
    slot = new_slot;
    stored = result-stored;
    kept = result-kept;
  }

-- On a well-formed page a row that fits with its slot is stored: the result is the next slot, and
-- the new page is well-formed, marked dirty, gives the row back (unless it is empty), and reads
-- every earlier slot as before.
pub insert_row_fits :
    (p : Page) (bs : List ℕ)
    → IsValid p
    → length bs + 4 ≤ free_space p
    → (p' : Page) × (insert_row p bs ≡ ok (rows p, p')) × Inserted p bs p'
insert_row_fits p bs v fit =
    (result p bs v fit, insert_row-result p bs v fit, insert_row-Inserted p bs v fit)

-- Without room for the row and its slot nothing is stored: a row of up to 65531 bytes is refused
-- for lack of space, one of more than 65535 bytes for its length.
pub insert_row_refuses :
    (p : Page) (bs : List ℕ)
    → IsValid p
    → free_space p < length bs + 4
    → (length bs ≤ 65531) ⊎ (65535 < length bs)
    → insert_row p bs ≡ (if ltb 65535 (length bs) then err too_long else err no_space)
unfolding insert_row can_fit
insert_row_refuses p bs v full (inl h) = ground arith
insert_row_refuses p bs v full (inr h) = ground arith

-- For a row of 65532 to 65535 bytes on a well-formed page with at least 4 free bytes, the sum `rowSize + SlotSize` wraps to less than 4, so that
-- the room test passes and the slice bounds panic.
pub insert_row_wraps :
    (p : Page) (bs : List ℕ)
    → IsValid p
    → 4 ≤ free_space p
    → 65532 ≤ length bs
    → length bs ≤ 65535
    → insert_row p bs ≡ panic
unfolding insert_row can_fit
insert_row_wraps p bs v room low high = ground (arith, v.inside, v.room, free_space_lem p v)
