-- ===== src/Storage/Page/Delete.antt =====
-- `DeleteRow` on a well-formed page, and the empty page.
use agent_db.Prelude.{
  ℕ, ◌+◌, ◌*◌, ◌^◌, ◌≤◌, ◌<◌, ◌≡◌, ◌≢◌, refl, sym, ◌∙◌, ap, ◌⊎◌, inl, inr, true, arith,
}
use native.Mathlib.Decide.{ℕ_discrete}
use agent_db.Outcome.{ok, err, deleted}
use agent_db.Bytes.{Buf, get_uint, put_uint, put_apart, get-put_self, get-put_ne, get_congr}
use agent_db.Storage.Page.{
  Page, PageHeader, read_header, write_header, new_page, get_row, delete_row,
}
use agent_db.Storage.Page.Header.{Fits, read-write_header}
use agent_db.Storage.Page.Layout.{
  IsValid, SlotFits, slot_at, rows, rows-le, row_of, get_row-row_of, slot_at_congr, row_of_congr,
}
use agent_db.Storage.Page.Insert.{set_slot_lem}

pub record Deleted (p : Page) (i : ℕ) (p' : Page) : Type 0 where
  pub valid : IsValid p'
  pub header : read_header p' ≡ read_header p
  pub same_id : p'.id ≡ p.id
  pub dirty : p'.dirty ≡ true
  pub gone : get_row p' i ≡ err deleted
  pub kept : (j : ℕ) → j < rows p → j ≢ i → get_row p' j ≡ get_row p j

module _ (p : Page) (i : ℕ) (v : IsValid p) (used : i < rows p) where
  abbrev cleared : Buf
  cleared = put_uint (put_uint p.bytes (24 + i * 4) 2 0) (24 + i * 4 + 2) 2 0

  abbrev result : Page
  result = record p { bytes = cleared; dirty = true }

  delete_row-result : delete_row p i ≡ ok result
  unfolding delete_row
  delete_row-result =
      ground
        (arith, set_slot_lem p i (record { offset = 0; length = 0 }) (omega (arith, rows-le p v)))

  untouched : (j : ℕ) → (j < 24 + i * 4) ⊎ (24 + i * 4 + 4 ≤ j) → result.bytes j ≡ p.bytes j
  untouched j h =
      put_apart _ (24 + i * 4 + 2) 2 0 j (ground arith)
      ∙ put_apart p.bytes (24 + i * 4) 2 0 j (ground arith)

  field : (o n : ℕ) → o + n ≤ 24 → get_uint result.bytes o n ≡ get_uint p.bytes o n
  field o n h = get_congr result.bytes p.bytes o n (λ j a b. untouched j (inl (omega arith)))

  result-header : read_header result ≡ read_header p
  unfolding read_header
  result-header = λ k. record {
    page_id = field 0 8 (omega arith) k;
    table_id = field 8 4 (omega arith) k;
    free_space_off = field 12 2 (omega arith) k;
    free_space_end = field 14 2 (omega arith) k;
    row_count = field 16 2 (omega arith) k;
    flags = field 18 2 (omega arith) k;
    checksum = field 20 4 (omega arith) k;
  }

  empty_slot : slot_at result i ≡ record { offset = 0; length = 0 }
  unfolding slot_at
  empty_slot = λ k. record {
    offset =
        (get-put_ne (put_uint p.bytes (24 + i * 4) 2 0) (24 + i * 4 + 2) 2 0 (24 + i * 4) 2
              (inl (omega arith))
            ∙ get-put_self p.bytes (24 + i * 4) 2 0 (omega arith))
          k;
    length = get-put_self (put_uint p.bytes (24 + i * 4) 2 0) (24 + i * 4 + 2) 2 0 (omega arith) k;
  }

  other_slot : (j : ℕ) → j ≢ i → slot_at result j ≡ slot_at p j
  other_slot j ne = slot_at_congr result p j (λ k a b. untouched k (grind arith))

  count_lem : rows result ≡ rows p
  count_lem = ap (λ (h : PageHeader). h.row_count) result-header

  result-IsValid : IsValid result
  result-IsValid = record {
    fits = rw result-header v.fits;
    page_id = rw result-header v.page_id;
    slots = rw (result-header, count_lem) v.slots;
    room = rw result-header v.room;
    inside = rw result-header v.inside;
    stored = rw (result-header, count_lem) stored_lem;
  }
    where
      stored_lem : (j : ℕ) → j < rows p → SlotFits (read_header p).free_space_end (slot_at result j)
      stored_lem j h = elim (ℕ_discrete j i) [
        | yes e ↦ rw (e, empty_slot) (inl refl)
        | no ne ↦ rw (other_slot j ne) (v.stored j h)
      ]

  result-kept : (j : ℕ) → j < rows p → j ≢ i → get_row result j ≡ get_row p j
  result-kept j h ne =
      get_row-row_of result j result-IsValid (rw count_lem h)
      ∙ ap (row_of result) (other_slot j ne)
      ∙ row_of_congr result p (slot_at p j) _ (v.stored j h)
          (λ k a. untouched k (inr (omega (arith, v.slots, v.room))))
      ∙ sym (get_row-row_of p j v h)

  result-gone : get_row result i ≡ err deleted
  unfolding row_of
  result-gone =
      get_row-row_of result i result-IsValid (rw count_lem used) ∙ ap (row_of result) empty_slot

-- On a well-formed page a used slot is deleted: the new page is well-formed, has the same header,
-- reads the slot as deleted, and reads every other slot as before.
pub delete_row_used :
    (p : Page) (i : ℕ)
    → IsValid p
    → i < rows p
    → (p' : Page) × (delete_row p i ≡ ok p') × Deleted p i p'
delete_row_used p i v h = (
  result p i v h,
  delete_row-result p i v h,
  record {
    valid = result-IsValid p i v h;
    header = result-header p i v h;
    same_id = refl;
    dirty = refl;
    gone = result-gone p i v h;
    kept = result-kept p i v h;
  },
)

new_header-Fits :
    (id : ℕ)
    → id < 2 ^ 64
    → Fits (record {
      page_id = id;
      table_id = 0;
      free_space_off = 24;
      free_space_end = 4096;
      row_count = 0;
      flags = 0;
      checksum = 0;
    })
new_header-Fits id h = omega arith

pub new_page-header :
    (id : ℕ)
    → id < 2 ^ 64
    → read_header (new_page id) ≡ record {
      page_id = id;
      table_id = 0;
      free_space_off = 24;
      free_space_end = 4096;
      row_count = 0;
      flags = 0;
      checksum = 0;
    }
unfolding new_page
new_page-header id h = read-write_header _ _ (new_header-Fits id h)

pub id-new_page : (id : ℕ) → (new_page id).id ≡ id
unfolding new_page write_header
id-new_page id = refl

rows-new_page : (id : ℕ) → id < 2 ^ 64 → rows (new_page id) ≡ 0
rows-new_page id h = ap (λ (k : PageHeader). k.row_count) (new_page-header id h)

-- A new page is well-formed and holds no row.
pub new_page-IsValid : (id : ℕ) → id < 2 ^ 64 → IsValid (new_page id) × (rows (new_page id) ≡ 0)
new_page-IsValid id h =
    let e = new_page-header id h in
    let no_rows = rows-new_page id h in
    (
      record {
        fits = rw e (new_header-Fits id h);
        page_id = rw e (sym (id-new_page id));
        slots = rw e (omega (arith, no_rows));
        room = rw e (omega arith);
        inside = rw e (omega arith);
        stored = λ i k. absurd (omega (arith, no_rows));
      },
      no_rows,
    )
