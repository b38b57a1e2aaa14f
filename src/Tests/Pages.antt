-- ===== src/Tests/Pages.antt =====
-- Pages and the disk at concrete inputs.
use agent_db.Prelude.{
  ℕ, ◌<◌, ◌≡◌, ◌≢◌, refl, ap, false, List, [], ◌∷◌, arith, length, replicate, length-replicate,
}
use agent_db.Outcome.{ok, err, panic, deleted, ◌>>=◌}
use agent_db.Bytes.{zeros, get_uint, put_uint}
use agent_db.Storage.Page.{
  Page, PageHeader, read_header, write_header, new_page, free_space, insert_row, get_row,
  delete_row, get_slot, set_slot, can_fit,
}
use agent_db.Storage.Page.Layout.{IsValid, rows}
use agent_db.Storage.Page.Insert.{Inserted, insert_row_fits, insert_row_wraps}
use agent_db.Storage.Page.Delete.{Deleted, delete_row_used, new_page-IsValid}
use agent_db.Storage.Disk.{DbFile, DiskManager, read_page, write_page, write_at}
use agent_db.Storage.Disk.ReadBack.{IsPlain, stored_page, read-write_page}

program : Unit {0}
unfolding read_header write_header new_page free_space insert_row get_row delete_row get_slot
    set_slot can_fit get_uint put_uint
program = tt

abbrev hello : List ℕ
hello = 104 ∷ 101 ∷ 108 ∷ 108 ∷ 111 ∷ []

stores_hello : (insert_row (new_page 1) hello >>= λ (i, p). get_row p i) ≡ ok hello
unfolding program
stores_hello = refl

deletes_hello :
    (do (i, p) ← insert_row (new_page 1) hello; q ← delete_row p i; get_row q i) ≡ err deleted
unfolding program
deletes_hello = refl

fresh-IsValid : IsValid (new_page 1)
fresh-IsValid = (new_page-IsValid 1 (omega arith)).0

fresh_space : free_space (new_page 1) ≡ 4072
unfolding program
fresh_space = refl

insert_row_fits_example :
    (p : Page) × (insert_row (new_page 1) hello ≡ ok (rows (new_page 1), p))
    × Inserted (new_page 1) hello p
insert_row_fits_example =
    insert_row_fits (new_page 1) hello fresh-IsValid (omega (arith, fresh_space))

big : ℕ → List ℕ
big n = replicate n 0

length-big : (n : ℕ) → length (big n) ≡ n
unfolding big
length-big n = length-replicate n 0

insert_row_wraps_example : insert_row (new_page 1) (big 65533) ≡ panic
insert_row_wraps_example =
    insert_row_wraps (new_page 1) (big 65533) fresh-IsValid (omega (arith, fresh_space))
      (omega (arith, length-big 65533)) (omega (arith, length-big 65533))

stored :
    (p : Page) × (insert_row (new_page 1) hello ≡ ok (rows (new_page 1), p))
    × Inserted (new_page 1) hello p
stored = insert_row_fits (new_page 1) hello fresh-IsValid (omega (arith, fresh_space))

stored_rows : 0 < rows stored.0
stored_rows =
    let counted = ap (λ (h : PageHeader). h.row_count) stored.2.header in
    omega (arith, counted, (new_page-IsValid 1 (omega arith)).1)

delete_row_used_example : (q : Page) × (delete_row stored.0 0 ≡ ok q) × Deleted stored.0 0 q
delete_row_used_example = delete_row_used stored.0 0 stored.2.valid stored_rows

abbrev header : PageHeader
header = record {
  page_id = 3;
  table_id = 77;
  free_space_off = 28;
  free_space_end = 4000;
  row_count = 1;
  flags = 0;
  checksum = 9;
}

abbrev file : DbFile
file = record { content = zeros; size = 0; read_fails = λ _. false; write_fails = λ _. false }

abbrev disk : DiskManager
disk = record { file = file; page_count = 1 }

-- the disk after page 1 was written
abbrev after : DiskManager
after = record disk { file = write_at file 4096 (new_page 1).bytes; page_count = 2 }

writes : write_page disk (new_page 1) ≡ ok (after, record (new_page 1) { dirty = false })
unfolding write_page program
writes = refl

read-write_page_example :
    (read_page after (new_page 1).id ≡ ok (stored_page (new_page 1)))
    × ((id : ℕ) → IsPlain id → id ≢ (new_page 1).id → read_page after id ≡ read_page disk id)
unfolding program
read-write_page_example =
    read-write_page disk after (new_page 1) (record (new_page 1) { dirty = false }) (omega arith)
      refl refl writes
