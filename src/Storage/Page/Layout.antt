-- ===== src/Storage/Page/Layout.antt =====
-- The layout of a well-formed page, and what `get_row` returns on one.
use agent_db.Prelude.{ℕ, ◌+◌, ◌*◌, ◌≤◌, ◌<◌, ◌≡◌, ◌⊎◌, List, arith, ◌==◌, if◌then◌else◌}
use agent_db.Outcome.{Outcome, ok, err, deleted}
use agent_db.Bytes.{read, get_uint, get_congr, read_congr}
use agent_db.Storage.Page.{Page, Slot, read_header, get_slot, get_row, slot_offset, u16, free_space}
use agent_db.Storage.Page.Header.{Fits}

-- the slot, read with no bounds check
unfoldable pub slot_at : Page → ℕ → Slot
slot_at p i = record {
  offset = get_uint p.bytes (24 + i * 4) 2;
  length = get_uint p.bytes (24 + i * 4 + 2) 2;
}

abbrev pub rows : Page → ℕ
rows p = (read_header p).row_count

-- a slot is empty, or its row lies between the free space and the end of the page
abbrev pub SlotFits : ℕ → Slot → Type 0
SlotFits space_end s = (s.length ≡ 0) ⊎ ((space_end ≤ s.offset) × (s.offset + s.length ≤ 4096))

pub record IsValid (p : Page) : Type 0 where
  pub fits : Fits (read_header p)
  pub page_id : (read_header p).page_id ≡ p.id
  pub slots : (read_header p).free_space_off ≡ 24 + rows p * 4
  pub room : (read_header p).free_space_off ≤ (read_header p).free_space_end
  pub inside : (read_header p).free_space_end ≤ 4096
  pub stored : (i : ℕ) → i < rows p → SlotFits (read_header p).free_space_end (slot_at p i)

pub get_slot-slot_at : (p : Page) (i : ℕ) → i < 1018 → get_slot p i ≡ ok (slot_at p i)
unfolding get_slot slot_at
get_slot-slot_at p i h =
    let at : slot_offset i ≡ 24 + i * 4 = omega arith in
    let second : u16 (24 + i * 4 + 2) ≡ 24 + i * 4 + 2 = omega arith in
    rw (at, second) (ground arith)

-- what `get_row` returns for a slot that was used
unfoldable pub row_of : Page → Slot → Outcome (List ℕ)
row_of p s = if s.length == 0 then err deleted else ok (read p.bytes s.offset s.length)

-- There is room for at most 1018 slots.
pub rows-le : (p : Page) → IsValid p → rows p ≤ 1018
rows-le p v = omega (arith, v.slots, v.room, v.inside)

-- On a well-formed page a used slot is read with no panic.
pub get_row-row_of :
    (p : Page) (i : ℕ) → IsValid p → i < rows p → get_row p i ≡ row_of p (slot_at p i)
unfolding get_row row_of
get_row-row_of p i v h =
    rw (get_slot-slot_at p i (omega (arith, rows-le p v))) (ground (arith, v.stored i))

-- Slots read alike where the two cells do.
pub slot_at_congr :
    (p q : Page) (i : ℕ)
    → ((j : ℕ) → 24 + i * 4 ≤ j → j < 24 + i * 4 + 4 → p.bytes j ≡ q.bytes j)
    → slot_at p i ≡ slot_at q i
unfolding slot_at
slot_at_congr p q i h = λ k. record {
  offset = get_congr p.bytes q.bytes (24 + i * 4) 2 (λ j a b. h j (omega arith) (omega arith)) k;
  length =
      get_congr p.bytes q.bytes (24 + i * 4 + 2) 2 (λ j a b. h j (omega arith) (omega arith)) k;
}

-- Rows read alike where the bytes behind the free space do.
pub row_of_congr :
    (p q : Page) (s : Slot) (space_end : ℕ)
    → SlotFits space_end s
    → ((j : ℕ) → space_end ≤ j → p.bytes j ≡ q.bytes j)
    → row_of p s ≡ row_of q s
unfolding row_of
row_of_congr p q s e fit h =
    ground (arith, read_congr p.bytes q.bytes s.offset s.length (λ j a b. h j (ground arith)))

-- the header of a well-formed page, as the number of free bytes
pub free_space_lem :
    (p : Page) → IsValid p → free_space p + (24 + rows p * 4) ≡ (read_header p).free_space_end
unfolding free_space
free_space_lem p v = ground (arith, v.slots, v.room, v.inside)
