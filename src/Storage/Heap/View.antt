-- ===== src/Storage/Heap/View.antt =====
-- The pages of a heap file as a client of the buffer pool sees them, and the rows on them.
use agent_db.Prelude.{
  ℕ, ◌+◌, ◌-◌, ◌*◌, ◌^◌, ◌≤◌, ◌<◌, ◌≡◌, refl, sym, ap, ◌∙◌, ◌⊎◌, inl, inr, true, false, Bool-cases,
  List, arith, ltb, leb, if◌then◌else◌,
}
use mathlib.Core.Path.{subst}
use agent_db.Outcome.{Outcome, ok, err, no_slot, ◌>>=◌}
use agent_db.Bytes.{Buf, get_congr, read_congr}
use agent_db.Storage.Page.{Page, PageHeader, Slot, read_header, get_row, free_space, u16}
use agent_db.Storage.Page.Header.{Fits, write_header_above, read-write_header, id-write_header}
use agent_db.Storage.Page.Layout.{
  IsValid, SlotFits, rows, slot_at, slot_at_congr, row_of, row_of_congr, get_row-row_of, rows-le,
}
use agent_db.Storage.Disk.ReadBack.{IsPlain}
use agent_db.Storage.BufferPool.{BufferPool}
use agent_db.Storage.BufferPool.Invariant.{view}
use agent_db.Storage.Row.{Rid}
use agent_db.Storage.Heap.{set_table}

-- the bytes of a page as a page
abbrev pub as_page : ℕ → Buf → Page
as_page id b = record { bytes = b; id = id; dirty = false }

-- every page that a client can fetch is well-formed
abbrev pub WellFormed : BufferPool → Type 0
WellFormed bp = (id : ℕ) → IsPlain id → (b : Buf) → view bp id ≡ ok b → IsValid (as_page id b)

-- the bytes of a row: what `GetRow` finds in the slot of the page
unfoldable pub row_at : BufferPool → Rid → Outcome (List ℕ)
row_at bp rid = do b ← view bp rid.page_id; get_row (as_page rid.page_id b) rid.slot_id

pub le_or_lt : (m n : ℕ) → (m ≤ n) ⊎ (n < m)
le_or_lt m n = elim (Bool-cases (leb m n)) [
  | inl e ↦ inl (ground arith)
  | inr e ↦ inr (ground arith)
]

-- behind the slots there is no row
pub get_row_past : (p : Page) (i : ℕ) → rows p ≤ i → get_row p i ≡ err no_slot
unfolding get_row
get_row_past p i h = let past : leb (rows p) i ≡ true = ground arith in rw past refl

-- a page is well-formed if its header and its slots are
module _ (q : Page) (h : PageHeader) (e : read_header q ≡ h) where
  off : (read_header q).free_space_off ≡ h.free_space_off
  off = ap (λ (k : PageHeader). k.free_space_off) e

  end : (read_header q).free_space_end ≡ h.free_space_end
  end = ap (λ (k : PageHeader). k.free_space_end) e

  pub count : rows q ≡ h.row_count
  count = ap (λ (k : PageHeader). k.row_count) e

  pub header-IsValid :
      Fits h
      → h.page_id ≡ q.id
      → h.free_space_off ≡ 24 + h.row_count * 4
      → h.free_space_off ≤ h.free_space_end
      → h.free_space_end ≤ 4096
      → ((i : ℕ) → i < h.row_count → SlotFits h.free_space_end (slot_at q i))
      → IsValid q
  header-IsValid fits own slots room inside stored = record {
    fits = subst Fits (sym e) fits;
    page_id = ap (λ (k : PageHeader). k.page_id) e ∙ own;
    slots = omega (arith, off, count, slots);
    room = omega (arith, off, end, room);
    inside = omega (arith, end, inside);
    stored =
        λ i l. subst (λ n. SlotFits n (slot_at q i)) (sym end) (stored i (omega (arith, count, l)));
  }

pub free_space_header : (p q : Page) → read_header p ≡ read_header q → free_space p ≡ free_space q
unfolding free_space
free_space_header p q e =
    ap
      (λ (h : PageHeader).
        if ltb h.free_space_end h.free_space_off
        then 0
        else u16 (h.free_space_end - h.free_space_off))
      e

-- two pages with the same bytes
module _ (p q : Page) (same_id : p.id ≡ q.id)
    (same : (j : ℕ) → j < 4096 → p.bytes j ≡ q.bytes j) where
  field : (off n : ℕ) → off + n ≤ 24 → (j : ℕ) → off ≤ j → j < off + n → p.bytes j ≡ q.bytes j
  field off n h j a b = same j (omega arith)

  pub header_same : read_header p ≡ read_header q
  unfolding read_header
  header_same = λ i. record {
    page_id = get_congr p.bytes q.bytes 0 8 (field 0 8 (omega arith)) i;
    table_id = get_congr p.bytes q.bytes 8 4 (field 8 4 (omega arith)) i;
    free_space_off = get_congr p.bytes q.bytes 12 2 (field 12 2 (omega arith)) i;
    free_space_end = get_congr p.bytes q.bytes 14 2 (field 14 2 (omega arith)) i;
    row_count = get_congr p.bytes q.bytes 16 2 (field 16 2 (omega arith)) i;
    flags = get_congr p.bytes q.bytes 18 2 (field 18 2 (omega arith)) i;
    checksum = get_congr p.bytes q.bytes 20 4 (field 20 4 (omega arith)) i;
  }

  module _ (v : IsValid p) where
    slot_same : (i : ℕ) → i < rows p → slot_at p i ≡ slot_at q i
    slot_same i h = slot_at_congr p q i (λ j a b. same j (omega (arith, rows-le p v)))

    pub same-IsValid : IsValid q
    same-IsValid =
        header-IsValid q (read_header p) (sym header_same) v.fits (v.page_id ∙ same_id) v.slots
          v.room v.inside
          (λ i h. subst (SlotFits (read_header p).free_space_end) (slot_same i h) (v.stored i h))

    row_of_same : (s : Slot) (e : ℕ) → SlotFits e s → row_of p s ≡ row_of q s
    unfolding row_of
    row_of_same s e fit =
        ground
          (arith, read_congr p.bytes q.bytes s.offset s.length (λ j a b. same j (ground arith)))

    pub get_row_same : (i : ℕ) → get_row p i ≡ get_row q i
    get_row_same i =
        let counts = count p (read_header q) header_same in
        elim (le_or_lt (rows p) i) [
          | inl h ↦ get_row_past p i h ∙ sym (get_row_past q i (omega (arith, counts, h)))
          | inr h ↦
              get_row-row_of p i v h
              ∙ row_of_same (slot_at p i) (read_header p).free_space_end (v.stored i h)
              ∙ ap (row_of q) (slot_same i h)
              ∙ sym (get_row-row_of q i same-IsValid (omega (arith, counts, h)))
        ]

-- the number of the table changes nothing else
module _ (p : Page) (table : ℕ) (v : IsValid p) (small : table < 2 ^ 32) where
  abbrev named : PageHeader
  named = record (read_header p) { table_id = table }

  named-Fits : Fits named
  named-Fits = record {
    page_id = v.fits.page_id;
    table_id = small;
    free_space_off = v.fits.free_space_off;
    free_space_end = v.fits.free_space_end;
    row_count = v.fits.row_count;
    flags = v.fits.flags;
    checksum = v.fits.checksum;
  }

  pub header-set_table : read_header (set_table p table) ≡ named
  unfolding set_table
  header-set_table = read-write_header p named named-Fits

  pub id-set_table : (set_table p table).id ≡ p.id
  unfolding set_table
  id-set_table = id-write_header p named

  above : (j : ℕ) → 24 ≤ j → (set_table p table).bytes j ≡ p.bytes j
  unfolding set_table
  above j h = write_header_above p named j h

  slot_above : (i : ℕ) → slot_at (set_table p table) i ≡ slot_at p i
  slot_above i = slot_at_congr (set_table p table) p i (λ j a b. above j (omega arith))

  pub set_table-IsValid : IsValid (set_table p table)
  set_table-IsValid =
      header-IsValid (set_table p table) named header-set_table named-Fits
        (v.page_id ∙ sym id-set_table) v.slots v.room v.inside
        (λ i h. subst (SlotFits (read_header p).free_space_end) (sym (slot_above i)) (v.stored i h))

  pub free_space-set_table : free_space (set_table p table) ≡ free_space p
  unfolding free_space
  free_space-set_table =
      ap
        (λ (h : PageHeader).
          if ltb h.free_space_end h.free_space_off
          then 0
          else u16 (h.free_space_end - h.free_space_off))
        header-set_table

  pub rows-set_table : rows (set_table p table) ≡ rows p
  rows-set_table = count (set_table p table) named header-set_table

  pub get_row-set_table : (i : ℕ) → get_row (set_table p table) i ≡ get_row p i
  get_row-set_table i = elim (le_or_lt (rows p) i) [
    | inl h ↦
        get_row_past (set_table p table) i (omega (arith, rows-set_table, h))
        ∙ sym (get_row_past p i h)
    | inr h ↦
        get_row-row_of (set_table p table) i set_table-IsValid (omega (arith, rows-set_table, h))
        ∙ ap (row_of (set_table p table)) (slot_above i)
        ∙ row_of_congr (set_table p table) p (slot_at p i) (read_header p).free_space_end
            (v.stored i h) (λ j l. above j (omega (arith, v.slots, v.room, l)))
        ∙ sym (get_row-row_of p i v h)
  ]
