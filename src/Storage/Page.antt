-- ===== src/Storage/Page.antt =====
-- pkg/storage/page.go: a slotted page of 4096 bytes. The header is in bytes 0 to 23, the slots
-- grow up from byte 24, the rows grow down from the end. Numbers of type uint16 wrap at 65536,
-- and a slice whose bounds leave the array is a panic.
pub mod Header
pub mod Layout
pub mod Insert
pub mod Delete
use agent_db.Prelude.{
  ℕ, suc, ◌+◌, ◌-◌, ◌*◌, ◌%◌, ◌≡◌, Bool, true, false, ◌&&◌, List, length, ltb, leb, ◌==◌,
  if◌then◌else◌,
}
use agent_db.Outcome.{Outcome, ok, err, panic, too_long, no_space, no_slot, deleted, ◌>>=◌}
use agent_db.Bytes.{Buf, zeros, write, read, get_uint, put_uint}

abbrev pub page_size : ℕ
page_size = 4096

abbrev pub header_size : ℕ
header_size = 24

abbrev pub slot_size : ℕ
slot_size = 4

-- uint16 arithmetic
abbrev pub u16 : ℕ → ℕ
u16 n = n % 65536

pub record Page : Type 0 where
  pub bytes : Buf
  pub id : ℕ
  pub dirty : Bool

pub record PageHeader : Type 0 where
  pub page_id : ℕ
  pub table_id : ℕ
  pub free_space_off : ℕ
  pub free_space_end : ℕ
  pub row_count : ℕ
  pub flags : ℕ
  pub checksum : ℕ

pub record Slot : Type 0 where
  pub offset : ℕ
  pub length : ℕ

unfoldable pub read_header : Page → PageHeader
read_header p = record {
  page_id = get_uint p.bytes 0 8;
  table_id = get_uint p.bytes 8 4;
  free_space_off = get_uint p.bytes 12 2;
  free_space_end = get_uint p.bytes 14 2;
  row_count = get_uint p.bytes 16 2;
  flags = get_uint p.bytes 18 2;
  checksum = get_uint p.bytes 20 4;
}

-- the seven writes, in the order of the source
header_bytes : Buf → PageHeader → Buf
header_bytes d h =
    let d1 = put_uint d 0 8 h.page_id in
    let d2 = put_uint d1 8 4 h.table_id in
    let d3 = put_uint d2 12 2 h.free_space_off in
    let d4 = put_uint d3 14 2 h.free_space_end in
    let d5 = put_uint d4 16 2 h.row_count in
    let d6 = put_uint d5 18 2 h.flags in put_uint d6 20 4 h.checksum

unfoldable pub write_header : Page → PageHeader → Page
unfolding header_bytes
write_header p h = record p { bytes = header_bytes p.bytes h }

unfoldable pub new_page : ℕ → Page
new_page page_id =
    write_header (record { bytes = zeros; id = page_id; dirty = false })
      (record {
        page_id = page_id;
        table_id = 0;
        free_space_off = header_size;
        free_space_end = page_size;
        row_count = 0;
        flags = 0;
        checksum = 0;
      })

-- the bounds check of p.Data[lo:hi]
abbrev pub in_bounds : ℕ → ℕ → Bool
in_bounds lo hi = leb lo hi && leb hi page_size

-- the two uint16 cells of a slot lie in the page
abbrev pub slot_offset : ℕ → ℕ
slot_offset slot_id = u16 (header_size + u16 (slot_id * slot_size))

abbrev pub slot_in_bounds : ℕ → Bool
slot_in_bounds offset =
    in_bounds offset (u16 (offset + 2)) && in_bounds (u16 (offset + 2)) (u16 (offset + 4))

unfoldable pub get_slot : Page → ℕ → Outcome Slot
get_slot p slot_id =
    let offset = slot_offset slot_id in
    if slot_in_bounds offset
    then ok (record {
      offset = get_uint p.bytes offset 2;
      length = get_uint p.bytes (u16 (offset + 2)) 2;
    })
    else panic

unfoldable pub set_slot : Page → ℕ → Slot → Outcome Page
set_slot p slot_id s =
    let offset = slot_offset slot_id in
    if slot_in_bounds offset
    then ok (record p {
      bytes = put_uint (put_uint p.bytes offset 2 s.offset) (u16 (offset + 2)) 2 s.length;
    })
    else panic

unfoldable pub free_space : Page → ℕ
free_space p =
    let h = read_header p in
    if ltb h.free_space_end h.free_space_off then 0 else u16 (h.free_space_end - h.free_space_off)

unfoldable pub can_fit : Page → ℕ → Bool
can_fit p row_size = leb (u16 (row_size + slot_size)) (free_space p)

-- copy(p.Data[newEnd:newEnd+rowSize], data)
copy_row : Page → ℕ → ℕ → List ℕ → Outcome Page
copy_row p new_end row_size bs =
    if in_bounds new_end (u16 (new_end + row_size))
    then ok (record p { bytes = write p.bytes new_end bs })
    else panic

-- the header after a row of the slot `slot_id` was stored at `new_end`
abbrev pub grown : PageHeader → ℕ → PageHeader
grown h new_end =
    let row_count = u16 (h.row_count + 1) in
    record h {
      row_count = row_count;
      free_space_end = new_end;
      free_space_off = u16 (header_size + u16 (row_count * slot_size));
    }

unfoldable pub insert_row : Page → List ℕ → Outcome (ℕ × Page)
unfolding copy_row
insert_row p bs =
    if ltb 65535 (length bs)
    then err too_long
    else let row_size = u16 (length bs) in
      if can_fit p row_size
      then (do
        let h = read_header p
        let slot_id = h.row_count
        let new_end = u16 (h.free_space_end + 65536 - row_size)
        p1 ← copy_row p new_end row_size bs
        p2 ← set_slot p1 slot_id (record { offset = new_end; length = row_size })
        ok (slot_id, record (write_header p2 (grown h new_end)) { dirty = true }))
      else err no_space

unfoldable pub get_row : Page → ℕ → Outcome (List ℕ)
get_row p slot_id = if leb (read_header p).row_count slot_id then err no_slot else do
  slot ← get_slot p slot_id
  if slot.length == 0
      then err deleted
      else if in_bounds slot.offset (u16 (slot.offset + slot.length))
      then ok (read p.bytes slot.offset slot.length)
      else panic

unfoldable pub delete_row : Page → ℕ → Outcome Page
delete_row p slot_id = if leb (read_header p).row_count slot_id then err no_slot else do
  p1 ← set_slot p slot_id (record { offset = 0; length = 0 })
  ok (record p1 { dirty = true })
