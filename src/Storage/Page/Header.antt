-- ===== src/Storage/Page/Header.antt =====
-- The header of a page through its writes.
use agent_db.Prelude.{ℕ, ◌+◌, ◌^◌, ◌≤◌, ◌<◌, ◌≡◌, refl, inl, inr, arith}
use agent_db.Bytes.{Buf, get_uint, put_uint, put_apart, get-put_self, get-put_ne}
use agent_db.Storage.Page.{Page, PageHeader, read_header, write_header, header_bytes}

-- every field fits its width
pub record Fits (h : PageHeader) : Type 0 where
  pub page_id : h.page_id < 2 ^ 64
  pub table_id : h.table_id < 2 ^ 32
  pub free_space_off : h.free_space_off < 65536
  pub free_space_end : h.free_space_end < 65536
  pub row_count : h.row_count < 65536
  pub flags : h.flags < 65536
  pub checksum : h.checksum < 2 ^ 32

header_bytes_above : (d : Buf) (h : PageHeader) (i : ℕ) → 24 ≤ i → header_bytes d h i ≡ d i
unfolding header_bytes
header_bytes_above d h i p = rw (
  put_apart _ 20 4 _ i (inr (omega arith)),
  put_apart _ 18 2 _ i (inr (omega arith)),
  put_apart _ 16 2 _ i (inr (omega arith)),
  put_apart _ 14 2 _ i (inr (omega arith)),
  put_apart _ 12 2 _ i (inr (omega arith)),
  put_apart _ 8 4 _ i (inr (omega arith)),
  put_apart _ 0 8 _ i (inr (omega arith)),
)

-- A header write leaves the rest of the page alone.
pub write_header_above :
    (p : Page) (h : PageHeader) (i : ℕ) → 24 ≤ i → (write_header p h).bytes i ≡ p.bytes i
unfolding write_header
write_header_above p h i q = header_bytes_above p.bytes h i q

-- a header field is not disturbed by the writes of the fields behind it
later :
    (d : Buf) (off k v o n : ℕ) → o + n ≤ off → get_uint (put_uint d off k v) o n ≡ get_uint d o n
later d off k v o n h = get-put_ne d off k v o n (inl h)

module _ (d : Buf) (h : PageHeader) (f : Fits h) where
  page_id_field : get_uint (header_bytes d h) 0 8 ≡ h.page_id
  unfolding header_bytes
  page_id_field =
      rw
        (
          later _ 20 4 _ 0 8 (omega arith),
          later _ 18 2 _ 0 8 (omega arith),
          later _ 16 2 _ 0 8 (omega arith),
          later _ 14 2 _ 0 8 (omega arith),
          later _ 12 2 _ 0 8 (omega arith),
          later _ 8 4 _ 0 8 (omega arith),
        )
        (get-put_self _ 0 8 h.page_id f.page_id)

  table_id_field : get_uint (header_bytes d h) 8 4 ≡ h.table_id
  unfolding header_bytes
  table_id_field =
      rw
        (
          later _ 20 4 _ 8 4 (omega arith),
          later _ 18 2 _ 8 4 (omega arith),
          later _ 16 2 _ 8 4 (omega arith),
          later _ 14 2 _ 8 4 (omega arith),
          later _ 12 2 _ 8 4 (omega arith),
        )
        (get-put_self _ 8 4 h.table_id f.table_id)

  free_space_off_field : get_uint (header_bytes d h) 12 2 ≡ h.free_space_off
  unfolding header_bytes
  free_space_off_field =
      rw
        (
          later _ 20 4 _ 12 2 (omega arith),
          later _ 18 2 _ 12 2 (omega arith),
          later _ 16 2 _ 12 2 (omega arith),
          later _ 14 2 _ 12 2 (omega arith),
        )
        (get-put_self _ 12 2 h.free_space_off f.free_space_off)

  free_space_end_field : get_uint (header_bytes d h) 14 2 ≡ h.free_space_end
  unfolding header_bytes
  free_space_end_field =
      rw
        (
          later _ 20 4 _ 14 2 (omega arith),
          later _ 18 2 _ 14 2 (omega arith),
          later _ 16 2 _ 14 2 (omega arith),
        )
        (get-put_self _ 14 2 h.free_space_end f.free_space_end)

  row_count_field : get_uint (header_bytes d h) 16 2 ≡ h.row_count
  unfolding header_bytes
  row_count_field =
      rw (later _ 20 4 _ 16 2 (omega arith), later _ 18 2 _ 16 2 (omega arith))
        (get-put_self _ 16 2 h.row_count f.row_count)

  flags_field : get_uint (header_bytes d h) 18 2 ≡ h.flags
  unfolding header_bytes
  flags_field = rw (later _ 20 4 _ 18 2 (omega arith)) (get-put_self _ 18 2 h.flags f.flags)

  checksum_field : get_uint (header_bytes d h) 20 4 ≡ h.checksum
  unfolding header_bytes
  checksum_field = get-put_self _ 20 4 h.checksum f.checksum

-- What was written is read back, field by field.
pub read-write_header : (p : Page) (h : PageHeader) → Fits h → read_header (write_header p h) ≡ h
unfolding read_header write_header
read-write_header p h f = λ i. record {
  page_id = page_id_field p.bytes h f i;
  table_id = table_id_field p.bytes h f i;
  free_space_off = free_space_off_field p.bytes h f i;
  free_space_end = free_space_end_field p.bytes h f i;
  row_count = row_count_field p.bytes h f i;
  flags = flags_field p.bytes h f i;
  checksum = checksum_field p.bytes h f i;
}

pub id-write_header : (p : Page) (h : PageHeader) → (write_header p h).id ≡ p.id
unfolding write_header
id-write_header p h = refl
