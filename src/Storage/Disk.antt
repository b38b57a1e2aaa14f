-- ===== src/Storage/Disk.antt =====
-- pkg/storage/disk_manager.go and index_adapter.go: pages in the database file. The file is its
-- content and its size. Whether a read or a write at an offset fails is up to the environment,
-- and a write that fails has changed nothing. Directories, opening and closing are left out.
pub mod ReadBack
use agent_db.Prelude.{
  ℕ, suc, ◌+◌, ◌-◌, ◌*◌, ◌/◌, ◌%◌, ◌^◌, min, max, ◌≡◌, Bool, true, false, not, ◌&&◌, ◌||◌, ltb, leb,
  ◌==◌, if◌then◌else◌,
}
use agent_db.Outcome.{Outcome, ok, err, panic, io, ◌>>=◌}
use agent_db.Bytes.{Buf}
use agent_db.Storage.Page.{Page, page_size, read_header, new_page}

-- The bytes at and past `size` do not count.
pub record DbFile : Type 0 where
  pub content : Buf
  pub size : ℕ
  pub read_fails : ℕ → Bool
  pub write_fails : ℕ → Bool

pub record DiskManager : Type 0 where
  pub file : DbFile
  pub page_count : ℕ

-- the part of `NewDiskManager` behind the opening of the file
unfoldable pub open_disk : DbFile → DiskManager
open_disk file =
    let page_count = file.size / page_size in
    record { file = file; page_count = if page_count == 0 then 1 else page_count }

-- int64(pageID * PageSize), as the bits of the product; an offset from 2^63 is negative
abbrev pub offset : ℕ → ℕ
offset page_id = page_id * page_size % 2 ^ 64

abbrev pub is_negative : ℕ → Bool
is_negative off = leb (2 ^ 63) off

-- file.ReadAt into a zeroed page: what the file does not have stays zero
pub read_at : DbFile → ℕ → ℕ → Page
read_at file off page_id = record {
  bytes = λ i. if ltb i page_size && ltb (off + i) file.size then file.content (off + i) else 0;
  id = page_id;
  dirty = false;
}

unfoldable pub read_page : DiskManager → ℕ → Outcome Page
unfolding read_at
read_page dm page_id =
    let off = offset page_id in
    if is_negative off || dm.file.read_fails off
    then err io
    else let n = min page_size (dm.file.size - off) in
      let page = read_at dm.file off page_id in
      if n == 0 || not ((read_header page).page_id == page_id)
      then ok (new_page page_id)
      else ok page

-- file.WriteAt of a whole page; the gap behind the old end reads as zeros
pub write_at : DbFile → ℕ → Buf → DbFile
write_at file off bytes = record file {
  content = λ i.
      if leb off i && ltb i (off + page_size)
      then bytes (i - off)
      else if ltb i file.size
      then file.content i
      else 0;
  size = max file.size (off + page_size);
}

-- the disk and the page, no longer dirty
unfoldable pub write_page : DiskManager → Page → Outcome (DiskManager × Page)
unfolding write_at
write_page dm page =
    let off = offset page.id in
    if is_negative off || dm.file.write_fails off
    then err io
    else ok (
      record {
        file = write_at dm.file off page.bytes;
        page_count = if leb dm.page_count page.id then (page.id + 1) % 2 ^ 64 else dm.page_count;
      },
      record page { dirty = false },
    )

unfoldable pub allocate_page : DiskManager → ℕ × DiskManager
allocate_page dm = (dm.page_count, record dm { page_count = (dm.page_count + 1) % 2 ^ 64 })

-- IndexDiskAdapter: an index reads and writes bare bytes
unfoldable pub adapter_read : DiskManager → ℕ → Outcome Buf
adapter_read dm page_id = do page ← read_page dm page_id; ok page.bytes

unfoldable pub adapter_write : DiskManager → ℕ → Buf → Outcome DiskManager
adapter_write dm page_id bytes = do
  (dm', page) ← write_page dm (record { bytes = bytes; id = page_id; dirty = true })
  ok dm'
