-- ===== src/Storage/Disk/ReadBack.antt =====
-- A page that was written is read back, and a write leaves the other pages alone.
use agent_db.Prelude.{
  ℕ, ◌+◌, ◌-◌, ◌*◌, ◌%◌, ◌^◌, ◌≤◌, ◌<◌, ◌≡◌, ◌≢◌, refl, sym, ◌∙◌, ap, fun_ext, ◌⊎◌, Bool, false,
  arith, ltb, leb, ◌==◌, if◌then◌else◌,
}
use agent_db.Outcome.{ok, err, io}
use agent_db.Bytes.{Buf, zeros, get_congr, get_uint}
use agent_db.Storage.Page.{Page, page_size, read_header, new_page}
use agent_db.Storage.Disk.{DbFile, DiskManager, offset, read_at, read_page, write_at, write_page}

-- the array as a page of 4096 bytes
abbrev pub clip : Buf → Buf
clip d i = if ltb i page_size then d i else 0

pub header_congr :
    (p q : Page)
    → ((i : ℕ) → i < 4096 → p.bytes i ≡ q.bytes i)
    → (read_header p).page_id ≡ (read_header q).page_id
unfolding read_header
header_congr p q h = get_congr p.bytes q.bytes 0 8 (λ i a b. h i (omega arith))

-- page ids whose offset does not wrap
abbrev pub IsPlain : ℕ → Type 0
IsPlain page_id = (0 < page_id) × (page_id < 2 ^ 51)

-- the ids of the file's pages are plain
abbrev pub Counted : DiskManager → Type 0
Counted dm = (0 < dm.page_count) × (dm.page_count ≤ 2 ^ 51)

-- the file has no fewer pages than before
abbrev pub Grown : DiskManager → DiskManager → Type 0
Grown dm dm' = Counted dm → Counted dm' × (dm.page_count ≤ dm'.page_count)

offset_plain : (i : ℕ) → IsPlain i → offset i ≡ i * 4096
offset_plain i h = omega arith

zero_header :
    (id : ℕ) (b : Bool) → (read_header (record { bytes = zeros; id = id; dirty = b })).page_id ≡ 0
unfolding read_header get_uint
zero_header id b = refl

-- Behind the end of the file there are zeros, whose header has the page id 0: the test `n == 0`
-- only matters for that page.
pub read_page_lem :
    (dm : DiskManager) (id : ℕ)
    → IsPlain id
    → read_page dm id ≡ (
        if dm.file.read_fails (id * 4096)
        then err io
        else if (read_header (read_at dm.file (id * 4096) id)).page_id == id
        then ok (read_at dm.file (id * 4096) id)
        else ok (new_page id))
unfolding read_page
read_page_lem dm id plain = let at = offset_plain id plain in rw at (ground (arith, empty))
  where
    empty : dm.file.size ≤ id * 4096 → (read_header (read_at dm.file (id * 4096) id)).page_id ≡ 0
    empty h =
        header_congr (read_at dm.file (id * 4096) id)
          (record { bytes = zeros; id = id; dirty = false }) (λ i _. unfold read_at in ground arith)
        ∙ zero_header id false

module _ (dm : DiskManager) (p : Page) (plain : IsPlain p.id) where
  abbrev off : ℕ
  off = p.id * 4096

  abbrev after : DbFile
  after = write_at dm.file off p.bytes

  read_at-write_at_self : (id : ℕ) → (read_at after off id).bytes ≡ clip p.bytes
  unfolding read_at write_at
  read_at-write_at_self id =
      fun_ext λ i. let e : off + i - off ≡ i = omega arith in ground (arith, ap p.bytes e)

  read_at-write_at_ne :
      (id : ℕ) → id ≢ p.id → read_at after (id * 4096) id ≡ read_at dm.file (id * 4096) id
  unfolding read_at write_at
  read_at-write_at_ne id ne = λ k. record { bytes = same k; id = id; dirty = false }
    where
      apart : (id * 4096 + 4096 ≤ off) ⊎ (off + 4096 ≤ id * 4096)
      apart = grind arith

      same : (read_at after (id * 4096) id).bytes ≡ (read_at dm.file (id * 4096) id).bytes
      same = fun_ext λ i. ground (arith, apart)

-- the page, clean and with the bytes of its array
abbrev pub stored_page : Page → Page
stored_page p = record p { bytes = clip p.bytes; dirty = false }

pub write_page-file :
    (dm dm' : DiskManager) (p p' : Page)
    → IsPlain p.id
    → write_page dm p ≡ ok (dm', p')
    → (dm'.file ≡ write_at dm.file (p.id * 4096) p.bytes) × (p' ≡ record p { dirty = false })
unfolding write_page
write_page-file dm dm' p p' plain h = let at = offset_plain p.id plain in ground (arith, at)

-- After a write of a page with its own id in its header, a read of that id returns its bytes and
-- a read of any other id what it returned before.
pub read-write_page :
    (dm dm' : DiskManager) (p p' : Page)
    → IsPlain p.id
    → (read_header p).page_id ≡ p.id
    → dm.file.read_fails (p.id * 4096) ≡ false
    → write_page dm p ≡ ok (dm', p')
    → (read_page dm' p.id ≡ ok (stored_page p))
      × ((id : ℕ) → IsPlain id → id ≢ p.id → read_page dm' id ≡ read_page dm id)
unfolding write_at
read-write_page dm dm' p p' plain head sound h =
    let (file, _) = write_page-file dm dm' p p' plain h in
    (
      read_page_lem dm' p.id plain ∙ rw file (rw sound (ground (arith, same_head, same_page))),
      λ id q ne.
          read_page_lem dm' id q
          ∙ rw file (rw (read_at-write_at_ne dm p plain id ne) refl)
          ∙ sym (read_page_lem dm id q),
    )
  where
    same_bytes :
        (read_at (write_at dm.file (p.id * 4096) p.bytes) (p.id * 4096) p.id).bytes ≡ clip p.bytes
    same_bytes = read_at-write_at_self dm p plain p.id

    same_page : read_at (write_at dm.file (p.id * 4096) p.bytes) (p.id * 4096) p.id ≡ stored_page p
    same_page = unfold read_at in λ k. record { bytes = same_bytes k; id = p.id; dirty = false }

    same_head :
        (read_header (read_at (write_at dm.file (p.id * 4096) p.bytes) (p.id * 4096) p.id)).page_id
        ≡ p.id
    same_head = header_congr _ p (λ i l. rw same_bytes (ground arith)) ∙ head

pub write_page-read_fails :
    (dm dm' : DiskManager) (p p' : Page)
    → IsPlain p.id
    → write_page dm p ≡ ok (dm', p')
    → dm'.file.read_fails ≡ dm.file.read_fails
unfolding write_at
write_page-read_fails dm dm' p p' plain h =
    ap (λ (f : DbFile). f.read_fails) (write_page-file dm dm' p p' plain h).0

pub id-read_at : (file : DbFile) (at id : ℕ) → (read_at file at id).id ≡ id
unfolding read_at
id-read_at file at id = refl

-- no write to the file fails
abbrev pub Writable : DiskManager → Type 0
Writable dm = (k : ℕ) → dm.file.write_fails k ≡ false

pub write_page-Writable :
    (dm : DiskManager) (p : Page)
    → IsPlain p.id
    → Writable dm
    → (dm' : DiskManager) × (p' : Page) × (write_page dm p ≡ ok (dm', p')) × Writable dm'
unfolding write_page write_at
write_page-Writable dm p plain w =
    let at = offset_plain p.id plain in
    (
      record {
        file = write_at dm.file (p.id * 4096) p.bytes;
        page_count = if leb dm.page_count p.id then (p.id + 1) % 2 ^ 64 else dm.page_count;
      },
      record p { dirty = false },
      rw at (ground (arith, w (p.id * 4096))),
      w,
    )

-- After a write of bytes that do not begin with the page's id, a read gives an empty page.
pub read-write_page_foreign :
    (dm dm' : DiskManager) (p p' : Page)
    → IsPlain p.id
    → (read_header p).page_id ≢ p.id
    → dm.file.read_fails (p.id * 4096) ≡ false
    → write_page dm p ≡ ok (dm', p')
    → read_page dm' p.id ≡ ok (new_page p.id)
unfolding write_at
read-write_page_foreign dm dm' p p' plain foreign sound h =
    let (file, _) = write_page-file dm dm' p p' plain h in
    read_page_lem dm' p.id plain ∙ rw file (rw sound (ground (arith, same_head)))
  where
    same_head :
        (read_header (read_at (write_at dm.file (p.id * 4096) p.bytes) (p.id * 4096) p.id)).page_id
        ≡ (read_header p).page_id
    same_head = header_congr _ p (λ i l. rw (read_at-write_at_self dm p plain p.id) (ground arith))

-- A write counts the page.
pub write_page-Grown :
    (dm dm' : DiskManager) (p p' : Page)
    → IsPlain p.id
    → write_page dm p ≡ ok (dm', p')
    → Grown dm dm'
unfolding write_page
write_page-Grown dm dm' p p' plain h c = (ground (arith, plain.1), ground (arith, plain.1))
