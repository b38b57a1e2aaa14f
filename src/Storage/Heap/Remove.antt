-- ===== src/Storage/Heap/Remove.antt =====
-- DeleteRow: a row is no longer found, and the other rows are.
use agent_db.Prelude.{
  ℕ, ◌<◌, ◌≡◌, ◌≢◌, refl, sym, ap, ◌∙◌, ◌⊎◌, inl, inr, true, false, some, get_elem?, List, arith,
  if◌then◌else◌,
}
use mathlib.Core.Path.{subst}
use native.Mathlib.Decide.{ℕ_discrete}
use agent_db.Outcome.{Outcome, ok, err, deadlock, Error, io, all_pinned, deleted}
use agent_db.Storage.Page.{Page, get_row}
use agent_db.Storage.Page.Layout.{rows}
use agent_db.Storage.Page.Delete.{delete_row_used}
use agent_db.Storage.Disk.ReadBack.{IsPlain}
use agent_db.Storage.BufferPool.{BufferPool, Frame, fetch_page, update_page, unpin_page}
use agent_db.Storage.BufferPool.Invariant.{IsValid, SameView, view}
use agent_db.Storage.BufferPool.Fetch.{Fetched, got, busy, failed, fetch_page-Fetched}
use agent_db.Storage.Row.{Rid}
use agent_db.Storage.Heap.{HeapFile, clear_row, delete_fetched, delete_row, unpinned, with_pool}
use agent_db.Storage.Heap.View.{row_at, get_row_past, le_or_lt}
use agent_db.Storage.Heap.Search.{Held, got-Held}
use agent_db.Storage.Heap.Written.{
  Sane, page-IsValid, row_before, row_after, row_other, written-Sane, row_at_congr,
}
use agent_db.Storage.Heap.Insert.{SameView-Sane}

-- What a deletion gives: the row is gone and every other row is as before, or an error of the pool.
pub data Removing (bp : BufferPool) (rid : Rid) : Outcome (Unit {0}) × BufferPool → Type 0 where
  removed :
      (bp' : BufferPool)
      → Sane bp'
      → row_at bp' rid ≡ err deleted
      → ((r : Rid) (xs : List ℕ)
          → IsPlain r.page_id
          → (r.page_id ≢ rid.page_id) ⊎ (r.slot_id ≢ rid.slot_id)
          → row_at bp r ≡ ok xs
          → row_at bp' r ≡ ok xs)
      → Removing bp rid (ok tt, bp')
  refused :
      (e : Error) (bp' : BufferPool)
      → (e ≡ io) ⊎ (e ≡ all_pinned)
      → IsValid bp'
      → ((id : ℕ) → IsPlain id → view bp' id ≡ view bp id)
      → Removing bp rid (err e, bp')

-- a slot with a row is in use
pub used_slot : (p : Page) (slot : ℕ) (xs : List ℕ) → get_row p slot ≡ ok xs → slot < rows p
used_slot p slot xs h = elim (le_or_lt (rows p) slot) [
  | inl past ↦ absurd (ground (arith, get_row_past p slot past))
  | inr l ↦ l
]

module _ (bp : BufferPool) (sane : Sane bp) (rid : Rid) (plain : IsPlain rid.page_id) (xs : List ℕ)
    (there : row_at bp rid ≡ ok xs) (inside : rid.page_id < bp.disk.page_count) where
  module _ (p : Page) (bp1 : BufferPool) (i : ℕ) (f : Frame) (v : IsValid bp1) (s : SameView bp1 bp)
      (own : p.id ≡ rid.page_id) (at : get_elem? bp1.frames i ≡ some f)
      (has : f.page ≡ some p) where
    abbrev pub pid : ℕ
    pid = rid.page_id

    pub sane1 : Sane bp1
    sane1 = SameView-Sane bp1 bp v s sane

    pub held : Held bp1 pid p
    held = got-Held bp1 pid p i f v own at has

    pub row_here : get_row p rid.slot_id ≡ ok xs
    row_here =
        sym (row_before bp1 sane1 pid plain p held rid.slot_id)
        ∙ row_at_congr bp1 bp rid (s.same pid plain)
        ∙ there

    pub inside1 : pid < bp1.disk.page_count
    inside1 = omega (arith, (s.counted sane.counted).1, inside)

    -- the rows other than `rid`, behind a write that keeps the other rows of the page
    pub others_kept :
        (bp' : BufferPool) (p2 : Page)
        → ((slot : ℕ) → row_at bp' (record { page_id = pid; slot_id = slot }) ≡ get_row p2 slot)
        → ((r : Rid) → r.page_id ≢ pid → row_at bp' r ≡ row_at bp1 r)
        → ((j : ℕ) → j < rows p → j ≢ rid.slot_id → get_row p2 j ≡ get_row p j)
        → (r : Rid) (ys : List ℕ) → IsPlain r.page_id
        → (r.page_id ≢ pid) ⊎ (r.slot_id ≢ rid.slot_id)
        → row_at bp r ≡ ok ys
        → row_at bp' r ≡ ok ys
    others_kept bp' p2 after other keeps r ys plain' ne h = elim (ℕ_discrete r.page_id pid) [
      | no apart ↦ other r apart ∙ row_at_congr bp1 bp r (s.same r.page_id plain') ∙ h
      | yes e ↦
          let old : get_row p r.slot_id ≡ ok ys =
            sym (row_before bp1 sane1 pid plain p held r.slot_id)
            ∙ row_at_congr bp1 bp (record { page_id = pid; slot_id = r.slot_id }) (s.same pid plain)
            ∙ subst (λ k. row_at bp (record { page_id = k; slot_id = r.slot_id }) ≡ ok ys) e h in
          let apart : r.slot_id ≢ rid.slot_id = ground (arith, ne) in
          subst (λ k. row_at bp' (record { page_id = k; slot_id = r.slot_id }) ≡ ok ys) (sym e)
            (after r.slot_id ∙ keeps r.slot_id (used_slot p r.slot_id ys old) apart ∙ old)
    ]

    delete_got : Removing bp rid (delete_fetched (ok p, bp1) rid)
    unfolding delete_fetched clear_row
    delete_got =
        let vp = page-IsValid bp1 sane1 pid plain p held in
        let (p2, e, gone) =
          delete_row_used p rid.slot_id vp (used_slot p rid.slot_id xs row_here) in
        let after = row_after bp1 sane1 pid plain p held p2 gone.valid gone.same_id gone.dirty in
        let cleared : clear_row bp1 pid p rid.slot_id ≡ (ok tt, update_page bp1 pid p2) =
          rw (e, clear_row) refl in
        let result : delete_fetched (ok p, bp1) rid
            ≡ (ok tt, unpin_page (update_page bp1 pid p2) pid true) =
          ap (λ (o : Outcome (Unit {0}) × BufferPool). unpinned o pid true) cleared in
        subst (Removing bp rid) (sym result) (
          removed _
            (written-Sane bp1 sane1 pid plain p held p2 gone.valid gone.same_id gone.dirty inside1)
            (after rid.slot_id ∙ gone.gone)
            (others_kept _ p2 after
              (row_other bp1 sane1 pid plain p held p2 gone.valid gone.same_id gone.dirty)
              gone.kept))

  delete_fetched-Removing :
      (r : Outcome Page × BufferPool)
      → Fetched bp rid.page_id r
      → Removing bp rid (delete_fetched r rid)
  unfolding delete_fetched
  delete_fetched-Removing r (got p bp1 i f v s own at has pinned) =
      delete_got p bp1 i f v s own at has
  delete_fetched-Removing r (busy bp1 v s) = refused all_pinned bp1 (inr refl) v s.same
  delete_fetched-Removing r (failed bp1 v s) = refused io bp1 (inl refl) v s.same

-- On a heap file with a sane pool and a free mutex, DeleteRow of a row of the file removes it: the
-- pool stays sane, the row reads as deleted and every other row as before. Or it gives an error of
-- the pool, and every page is as before.
pub delete_row-Removing :
    (h : HeapFile) (rid : Rid) (xs : List ℕ)
    → h.locked ≡ false
    → Sane h.pool
    → IsPlain rid.page_id
    → rid.page_id < h.pool.disk.page_count
    → row_at h.pool rid ≡ ok xs
    → (bp' : BufferPool) × (r : Outcome (Unit {0})) × (delete_row h rid
        ≡ (r, record h { pool = bp' }))
      × Removing h.pool rid (r, bp')
unfolding delete_row
delete_row-Removing h rid xs free sane plain inside there = (
  (delete_fetched (fetch_page h.pool rid.page_id) rid).1,
  (delete_fetched (fetch_page h.pool rid.page_id) rid).0,
  ap
      (λ b.
        if b
        then (deadlock, h)
        else with_pool h (delete_fetched (fetch_page h.pool rid.page_id) rid))
      free,
  delete_fetched-Removing h.pool sane rid plain xs there inside (fetch_page h.pool rid.page_id)
      (fetch_page-Fetched h.pool rid.page_id plain sane.valid),
)
