-- ===== src/Storage/Heap/Update.antt =====
-- UpdateRow: the row moves to another slot of its page; where it has no room there, the call waits
-- for ever, with the old row gone.
use agent_db.Prelude.{
  ℕ, ◌+◌, ◌≤◌, ◌<◌, ◌≡◌, ◌≢◌, refl, sym, ap, ◌∙◌, ◌⊎◌, inl, inr, true, false, some, get_elem?, List,
  arith, length, if◌then◌else◌,
}
use mathlib.Core.Path.{subst}
use agent_db.Outcome.{Outcome, ok, err, deadlock, Error, io, all_pinned, deleted, no_space}
use agent_db.Storage.Page.{Page, get_row, free_space}
use agent_db.Storage.Page
use agent_db.Storage.Page.Layout.{rows}
use agent_db.Storage.Page.Delete.{Deleted, delete_row_used}
use agent_db.Storage.Page.Insert.{Inserted, insert_row_fits, insert_row_refuses}
use agent_db.Storage.Disk.ReadBack.{IsPlain}
use agent_db.Storage.BufferPool.{BufferPool, Frame, fetch_page, update_page, unpin_page}
use agent_db.Storage.BufferPool.Frames.{page_at-some}
use agent_db.Storage.BufferPool.Invariant.{IsValid, SameView, view}
use agent_db.Storage.BufferPool.Fetch.{Fetched, got, busy, failed, fetch_page-Fetched}
use agent_db.Storage.Value.{Floats}
use agent_db.Storage.Row.{Rid, Cell, serialize_row}
use agent_db.Storage.Heap.{
  HeapFile, insert_row, inserted_again, replace_row, update_fetched, update_end, update_locked,
  update_row,
}
use agent_db.Storage.Heap.View.{row_at, le_or_lt}
use agent_db.Storage.Heap.Search.{Held}
use agent_db.Storage.Heap.Written.{
  Sane, page-IsValid, row_after, row_other, written-Sane, update-update_page,
}
use agent_db.Storage.Heap.Remove.{held, sane1, row_here, inside1, others_kept, used_slot}

module _ (K : Floats) where
  -- What an update gives: the new row in another slot of the page, the old one gone; or a call that
  -- waits for the mutex that it holds; or an error of the pool.
  pub data Updating (h : HeapFile) (rid : Rid) (bs : List ℕ)
      : Outcome (Unit {0}) × HeapFile → Type 0 where
    moved :
        (h' : HeapFile) (slot : ℕ)
        → h'.locked ≡ false
        → Sane h'.pool
        → slot ≢ rid.slot_id
        → row_at h'.pool rid ≡ err deleted
        → row_at h'.pool (record { page_id = rid.page_id; slot_id = slot }) ≡ ok bs
        → ((r : Rid) (xs : List ℕ)
            → IsPlain r.page_id
            → (r.page_id ≢ rid.page_id) ⊎ (r.slot_id ≢ rid.slot_id)
            → row_at h.pool r ≡ ok xs
            → row_at h'.pool r ≡ ok xs)
        → Updating h rid bs (ok tt, h')
    stuck :
        (h' : HeapFile) (p : Page)
        → h'.locked ≡ true
        → get_row p rid.slot_id ≡ err deleted
        → free_space p < length bs + 4
        → ((bp : BufferPool) × (h'.pool ≡ update_page bp rid.page_id p))
        → Updating h rid bs (deadlock, h')
    refused :
        (e : Error) (h' : HeapFile)
        → (e ≡ io) ⊎ (e ≡ all_pinned)
        → ((id : ℕ) → IsPlain id → view h'.pool id ≡ view h.pool id)
        → Updating h rid bs (err e, h')

  -- InsertRow while the mutex is held
  insert_row_locked :
      (fuel : ℕ) (h : HeapFile) (vs : List (Cell K))
      → h.locked ≡ true
      → insert_row K fuel h vs ≡ (deadlock, h)
  unfolding insert_row
  insert_row_locked fuel h vs e = rw e refl

  module _ (fuel : ℕ) (h : HeapFile) (rid : Rid) (vs : List (Cell K)) (bs xs : List ℕ)
      (free : h.locked ≡ false) (sane : Sane h.pool) (plain : IsPlain rid.page_id)
      (inside : rid.page_id < h.pool.disk.page_count) (there : row_at h.pool rid ≡ ok xs)
      (ser : serialize_row K vs h.schema ≡ ok bs) (some_bytes : 0 < length bs)
      (fit : length bs + 4 ≤ 4072) where
    module _ (p : Page) (bp1 : BufferPool) (i : ℕ) (f : Frame) (v : IsValid bp1)
        (s : SameView bp1 h.pool) (own : p.id ≡ rid.page_id) (at : get_elem? bp1.frames i ≡ some f)
        (has : f.page ≡ some p) where
      abbrev pid : ℕ
      pid = rid.page_id

      good : Sane bp1
      good = sane1 h.pool sane rid plain xs there inside p bp1 i f v s own at has

      here : Held bp1 pid p
      here = held h.pool sane rid plain xs there inside p bp1 i f v s own at has

      used : rid.slot_id < rows p
      used =
          used_slot p rid.slot_id xs
            (row_here h.pool sane rid plain xs there inside p bp1 i f v s own at has)

      module _ (p1 : Page) (del : Page.delete_row p rid.slot_id ≡ ok p1)
          (gone : Deleted p rid.slot_id p1) where
        same_rows : rows p1 ≡ rows p
        same_rows = ap (λ (k : Page.PageHeader). k.row_count) gone.header

        -- the heap file behind the deletion, with its mutex held
        abbrev h1 : HeapFile
        h1 = record h { pool = update_page bp1 pid p1; locked = true }

        fetched-replace :
            update_fetched K fuel (record h { pool = bp1; locked = true }) rid p vs
            ≡ replace_row K fuel h1 pid p1 bs vs
        unfolding update_fetched
        fetched-replace = rw (del, update_fetched) (rw ser refl)

        update_stuck :
            free_space p1 < length bs + 4
            → Updating h rid bs (update_locked K fuel h (ok p, bp1) rid vs)
        unfolding update_locked update_end replace_row
        update_stuck full =
            let refuses : Page.insert_row p1 bs ≡ err no_space =
              insert_row_refuses p1 bs gone.valid full (inl (omega (arith, fit)))
              ∙ ground (arith, fit) in
            let waits : replace_row K fuel h1 pid p1 bs vs ≡ (deadlock, h1.pool) =
              rw (refuses, replace_row)
                (ap (inserted_again K) (insert_row_locked fuel h1 vs refl)) in
            let result = ap (λ o. update_end K o pid h) (fetched-replace ∙ waits) in
            subst (Updating h rid bs) (sym result) (stuck h1 p1 refl gone.gone full (bp1, refl))

        module _ (p2 : Page) (ins : Page.insert_row p1 bs ≡ ok (rows p1, p2))
            (new : Inserted p1 bs p2) where
          same_page : p2.id ≡ p.id
          same_page = new.same_id ∙ gone.same_id

          written-once : update_page h1.pool pid p2 ≡ update_page bp1 pid p2
          written-once =
              update-update_page bp1 pid i p1 p2 f
                (ap bp1.page_map (sym own) ∙ v.cached i p (page_at-some bp1.frames i f at ∙ has)) at

          abbrev h2 : HeapFile
          h2 = record h { pool = unpin_page (update_page bp1 pid p2) pid true }

          after :
              (slot : ℕ)
              → row_at h2.pool (record { page_id = pid; slot_id = slot }) ≡ get_row p2 slot
          after = row_after bp1 good pid plain p here p2 new.valid same_page new.dirty

          update_moved : Updating h rid bs (update_locked K fuel h (ok p, bp1) rid vs)
          unfolding update_locked update_end replace_row
          update_moved =
              let goes : replace_row K fuel h1 pid p1 bs vs ≡ (ok tt, update_page bp1 pid p2) =
                rw (ins, replace_row) (ap (λ (b : BufferPool). (ok tt, b)) written-once) in
              let result = ap (λ o. update_end K o pid h) (fetched-replace ∙ goes) in
              subst (Updating h rid bs) (sym result) (
                moved h2 (rows p1) free
                  (written-Sane bp1 good pid plain p here p2 new.valid same_page new.dirty
                    (inside1 h.pool sane rid plain xs there inside p bp1 i f v s own at has))
                  (λ e. omega (arith, e, used, same_rows))
                  (after rid.slot_id
                    ∙ new.kept rid.slot_id (omega (arith, used, same_rows))
                    ∙ gone.gone)
                  (after (rows p1) ∙ new.stored some_bytes)
                  (others_kept h.pool sane rid plain xs there inside p bp1 i f v s own at has
                    h2.pool p2 after
                    (row_other bp1 good pid plain p here p2 new.valid same_page new.dirty)
                    (λ j l ne. new.kept j (omega (arith, l, same_rows)) ∙ gone.kept j l ne)))

      update_got : Updating h rid bs (update_locked K fuel h (ok p, bp1) rid vs)
      update_got =
          let (p1, del, gone) =
            delete_row_used p rid.slot_id (page-IsValid bp1 good pid plain p here) used in
          elim (le_or_lt (length bs + 4) (free_space p1)) [
            | inl room ↦
                let (p2, ins, new) = insert_row_fits p1 bs gone.valid room in
                update_moved p1 del gone p2 ins new
            | inr full ↦ update_stuck p1 del gone full
          ]

    locked-Updating :
        (r : Outcome Page × BufferPool)
        → Fetched h.pool rid.page_id r
        → Updating h rid bs (update_locked K fuel h r rid vs)
    unfolding update_locked
    locked-Updating r (got p bp1 i f v s own at has pinned) = update_got p bp1 i f v s own at has
    locked-Updating r (busy bp1 v s) = refused all_pinned _ (inr refl) s.same
    locked-Updating r (failed bp1 v s) = refused io _ (inl refl) s.same

    -- UpdateRow of a row of a heap file with a sane pool and a free mutex, by values whose bytes,
    -- at least one, fit on a new page, has three ends. The old row is gone, its page has the new row in another slot, and
    -- every other row is as before; the pool is sane. Or the page without the old row has no room for
    -- the new one: then the call waits for ever for the mutex that it holds. Or the pool gives an error,
    -- and every page is as before.
    pub update_row-Updating : Updating h rid bs (update_row K fuel h rid vs)
    unfolding update_row
    update_row-Updating =
        let open_ : update_row K fuel h rid vs
            ≡ update_locked K fuel h (fetch_page h.pool rid.page_id) rid vs =
          ap
            (λ b.
              if b
              then (deadlock, h)
              else update_locked K fuel h (fetch_page h.pool rid.page_id) rid vs)
            free in
        subst (Updating h rid bs) (sym open_) (
          locked-Updating (fetch_page h.pool rid.page_id)
            (fetch_page-Fetched h.pool rid.page_id plain sane.valid))
