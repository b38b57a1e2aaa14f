-- ===== src/Storage/Heap/Start.antt =====
-- The pool of a database with no pages yet.
use agent_db.Prelude.{
  ℕ, ◌-◌, ◌≡◌, refl, sym, ap, ◌∙◌, inl, inr, true, ◌||◌, Bool-cases, min, arith, ◌==◌,
}
use mathlib.Core.Path.{subst}
use agent_db.Outcome.{ok, err, io}
use agent_db.Bytes.{Buf}
use agent_db.Storage.Page.{new_page, free_space, read_header, PageHeader}
use agent_db.Storage.Page.Layout.{IsValid, free_space_lem}
use agent_db.Storage.Page.Delete.{new_page-IsValid, new_page-header, id-new_page}
use agent_db.Storage.Disk.{DbFile, DiskManager, open_disk, read_page, offset, is_negative}
use agent_db.Storage.Disk.ReadBack.{clip, IsPlain}
use agent_db.Storage.BufferPool.{new_buffer_pool}
use agent_db.Storage.BufferPool.Invariant.{disk_bytes, new_buffer_pool-IsValid}
use agent_db.Storage.Heap.View.{as_page, same-IsValid, free_space_header, header_same}
use agent_db.Storage.Heap.Written.{Sane, ok_inj, clip_same}

module _ (file : DbFile) (empty : file.size ≡ 0) where
  abbrev disk : DiskManager
  disk = open_disk file

  -- a page behind the end of the file is new
  read_empty :
      (id : ℕ) (b : Buf) → IsPlain id → disk_bytes disk id ≡ ok b → b ≡ clip (new_page id).bytes
  unfolding disk_bytes read_page open_disk
  read_empty id b plain h =
      elim (Bool-cases (is_negative (offset id) || file.read_fails (offset id))) [
        | inl e ↦
            let bad : disk_bytes disk id ≡ err io = rw (e, disk_bytes) refl in
            absurd (ground (arith, bad, h))
        | inr e ↦
            let nothing : (min 4096 (file.size - offset id) == 0) ≡ true = ground (arith, empty) in
            let page : disk_bytes disk id ≡ ok (clip (new_page id).bytes) =
              rw (e, disk_bytes) (rw nothing refl) in
            sym (ok_inj (sym page ∙ h))
      ]

  new-clip-IsValid : (id : ℕ) → IsPlain id → IsValid (as_page id (clip (new_page id).bytes))
  new-clip-IsValid id plain =
      same-IsValid (new_page id) (as_page id (clip (new_page id).bytes)) (id-new_page id)
        (λ j l. sym (clip_same id (new_page id) j l)) (new_page-IsValid id (omega arith)).0

  new_room : (id : ℕ) → IsPlain id → free_space (as_page id (clip (new_page id).bytes)) ≡ 4072
  new_room id plain =
      let (v, none_there) = new_page-IsValid id (omega arith) in
      let end : (read_header (new_page id)).free_space_end ≡ 4096 =
        ap (λ (h : PageHeader). h.free_space_end) (new_page-header id (omega arith)) in
      free_space_header (as_page id (clip (new_page id).bytes)) (new_page id) (
        header_same (as_page id (clip (new_page id).bytes)) (new_page id) (sym (id-new_page id))
          (clip_same id (new_page id)))
      ∙ omega (arith, free_space_lem (new_page id) v, none_there, end)

  -- A new pool on an empty file is sane, with the page 1 as the next one.
  pub open_disk-Sane :
      (capacity : ℕ) → Sane (new_buffer_pool capacity (open_disk file)) × (disk.page_count ≡ 1)
  unfolding open_disk new_buffer_pool
  open_disk-Sane capacity =
      let (v, seen) = new_buffer_pool-IsValid capacity disk in
      let one : disk.page_count ≡ 1 = ground (arith, empty) in
      (
        record {
          valid = v;
          well_formed = λ id p b h.
              subst (λ c. IsValid (as_page id c)) (sym (read_empty id b p (sym (seen id) ∙ h)))
                (new-clip-IsValid id p);
          fresh = λ id p l b h.
              ap (λ c. free_space (as_page id c)) (read_empty id b p (sym (seen id) ∙ h))
              ∙ new_room id p;
          counted = (omega (arith, one), omega (arith, one));
        },
        one,
      )
