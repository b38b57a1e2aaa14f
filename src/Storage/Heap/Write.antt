-- ===== src/Storage/Heap/Write.antt =====
-- The end of InsertRow: a row is written to a page that the pool holds.
use agent_db.Prelude.{
  ℕ, ◌+◌, ◌^◌, ◌≤◌, ◌<◌, ◌≡◌, refl, sym, ap, ◌∙◌, inl, inr, true, some, List, arith, length,
}
use mathlib.Core.Path.{subst}
use native.Mathlib.Decide.{ℕ_discrete}
use agent_db.Outcome.{ok, err, no_slot}
use agent_db.Storage.Page.{Page, get_row, free_space}
use agent_db.Storage.Page
use agent_db.Storage.Page.Layout.{IsValid, rows}
use agent_db.Storage.Page.Insert.{Inserted, insert_row_fits}
use agent_db.Storage.Disk.ReadBack.{IsPlain}
use agent_db.Storage.BufferPool.{BufferPool, unpin_page, update_page}
use agent_db.Storage.BufferPool.Frames.{frame_of_page}
use agent_db.Storage.Row.{Rid}
use agent_db.Storage.Heap.{set_table, put_data}
use agent_db.Storage.Heap.View.{
  row_at, le_or_lt, set_table-IsValid, id-set_table, free_space-set_table, get_row-set_table,
  get_row_past,
}
use agent_db.Storage.Heap.Written.{
  Sane, row_before, row_after, row_other, written_mapped, written-Sane, update-update_page,
}
use agent_db.Storage.Heap.Search.{Held}

-- A row was stored: under a row id that was free, in the pool, and every other row is as before.
pub record Stored (bp : BufferPool) (bs : List ℕ) (rid : Rid) (bp' : BufferPool) : Type 0 where
  pub sane : Sane bp'
  pub free : row_at bp rid ≡ err no_slot
  pub stored : row_at bp' rid ≡ ok bs
  pub kept :
      (r : Rid) (xs : List ℕ) → IsPlain r.page_id → row_at bp r ≡ ok xs → row_at bp' r ≡ ok xs
  pub plain : IsPlain rid.page_id
  pub frame : ℕ
  pub mapped : bp'.page_map rid.page_id ≡ some frame

-- the page `q` is `p` up to the number of its table
pub record Alike (p q : Page) : Type 0 where
  pub valid : IsValid q
  pub same_id : q.id ≡ p.id
  pub space : free_space q ≡ free_space p
  pub same_rows : (i : ℕ) → get_row q i ≡ get_row p i

pub Alike-refl : (p : Page) → IsValid p → Alike p p
Alike-refl p v = record { valid = v; same_id = refl; space = refl; same_rows = λ i. refl }

pub Alike-set_table :
    (p q : Page) (table : ℕ) → table < 2 ^ 32 → Alike p q → Alike p (set_table q table)
Alike-set_table p q table small a = record {
  valid = set_table-IsValid q table a.valid small;
  same_id = id-set_table q table a.valid small ∙ a.same_id;
  space = free_space-set_table q table a.valid small ∙ a.space;
  same_rows = λ i. get_row-set_table q table a.valid small i ∙ a.same_rows i;
}

module _ (bp : BufferPool) (sane : Sane bp) (pid : ℕ) (plain : IsPlain pid) (p : Page)
    (held : Held bp pid p) where
  module _ (table : ℕ) (small : table < 2 ^ 32) (bs : List ℕ) (some_bytes : 0 < length bs)
      (fit : length bs + 4 ≤ free_space p) (q : Page) (alike : Alike p q) (pool : BufferPool)
      (same_update : (x : Page) → update_page pool pid x ≡ update_page bp pid x) where
    abbrev p1 : Page
    p1 = set_table q table

    named : Alike p p1
    named = Alike-set_table p q table small alike

    inserted : (p2 : Page) × (Page.insert_row p1 bs ≡ ok (rows p1, p2)) × Inserted p1 bs p2
    inserted = insert_row_fits p1 bs named.valid (omega (arith, named.space, fit))

    abbrev rid : Rid
    rid = record { page_id = pid; slot_id = rows p1 }

    module _ (p2 : Page) (e : Page.insert_row p1 bs ≡ ok (rows p1, p2))
        (ins : Inserted p1 bs p2) where
      abbrev bp2 : BufferPool
      bp2 = unpin_page (update_page bp pid p2) pid true

      put_data-bp2 : put_data pool table pid q bs ≡ (ok rid, bp2)
      unfolding put_data
      put_data-bp2 =
          let (old, at, own) = sane.valid.mapped pid held.frame held.mapped in
          let (f, there, has) = frame_of_page bp.frames held.frame old at in
          rw (e, put_data)
            (ap (λ (b : BufferPool). (ok rid, unpin_page b pid true))
              (ap (λ (b : BufferPool). update_page b pid p2) (same_update p1)
                ∙ update-update_page bp pid held.frame p1 p2 f held.mapped there))

      same_page : p2.id ≡ p.id
      same_page = ins.same_id ∙ named.same_id

      before : (slot : ℕ) → row_at bp (record { page_id = pid; slot_id = slot }) ≡ get_row p1 slot
      before slot = row_before bp sane pid plain p held slot ∙ sym (named.same_rows slot)

      after : (slot : ℕ) → row_at bp2 (record { page_id = pid; slot_id = slot }) ≡ get_row p2 slot
      after slot = row_after bp sane pid plain p held p2 ins.valid same_page ins.dirty slot

      still_here : (slot : ℕ) (xs : List ℕ) → get_row p1 slot ≡ ok xs → get_row p2 slot ≡ ok xs
      still_here slot xs h = elim (le_or_lt (rows p1) slot) [
        | inl past ↦ absurd (ground (arith, get_row_past p1 slot past))
        | inr l ↦ ins.kept slot l ∙ h
      ]

      still :
          (r : Rid) (xs : List ℕ) → IsPlain r.page_id → row_at bp r ≡ ok xs → row_at bp2 r ≡ ok xs
      still r xs plain' h = elim (ℕ_discrete r.page_id pid) [
        | yes is_pid ↦
            subst (λ k. row_at bp2 (record { page_id = k; slot_id = r.slot_id }) ≡ ok xs)
              (sym is_pid)
              (after r.slot_id
                ∙ still_here r.slot_id xs (
                    sym (before r.slot_id)
                    ∙ subst (λ k. row_at bp (record { page_id = k; slot_id = r.slot_id }) ≡ ok xs)
                        is_pid h))
        | no ne ↦ row_other bp sane pid plain p held p2 ins.valid same_page ins.dirty r ne ∙ h
      ]

      bp2-Stored : pid < bp.disk.page_count → Stored bp bs rid bp2
      bp2-Stored used = record {
        sane = written-Sane bp sane pid plain p held p2 ins.valid same_page ins.dirty used;
        free = before (rows p1) ∙ get_row_past p1 (rows p1) (omega arith);
        stored = after (rows p1) ∙ ins.stored some_bytes;
        kept = still;
        plain = plain;
        frame = held.frame;
        mapped = written_mapped bp sane pid plain p held p2 ins.valid same_page ins.dirty;
      }

    -- The row is stored on the page.
    pub put_data-Stored :
        pid < bp.disk.page_count
        → (r : Rid) × (bp' : BufferPool) × (put_data pool table pid q bs ≡ (ok r, bp'))
          × Stored bp bs r bp'
    put_data-Stored used =
        let (p2, e, ins) = inserted in
        (rid, bp2 p2 e ins, put_data-bp2 p2 e ins, bp2-Stored p2 e ins used)
