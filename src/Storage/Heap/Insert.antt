-- ===== src/Storage/Heap/Insert.antt =====
-- InsertRow and GetRow: a row that is stored is read back.
use agent_db.Prelude.{
  ℕ, ◌+◌, ◌^◌, ◌≤◌, ◌<◌, ◌≡◌, refl, sym, ap, ◌∙◌, ◌⊎◌, inl, inr, true, Option, some, get_elem?,
  List, arith, length,
}
use mathlib.Core.Path.{subst}
use agent_db.Outcome.{Outcome, ok, err, Error, io, all_pinned}
use agent_db.Storage.Page.{Page, free_space, can_fit, u16}
use agent_db.Storage.Disk.{allocate_page, read_page}
use agent_db.Storage.Disk.ReadBack.{clip, IsPlain}
use agent_db.Storage.BufferPool.{BufferPool, Frame, update_page}
use agent_db.Storage.BufferPool.Frames.{page_at, page_at-some}
use agent_db.Storage.BufferPool.Invariant.{IsValid, SameView, Sound, view, disk_bytes}
use agent_db.Storage.BufferPool.Fetch.{Fetched, got, busy, failed}
use agent_db.Storage.Row.{Rid}
use agent_db.Storage.Heap.{suits, set_table, put_data, put_new, put_found, insert_bytes}
use agent_db.Storage.Heap.View.{as_page, free_space_header, header_same}
use agent_db.Storage.Heap.Search.{
  Held, got-Held, Searched, found, absent, spent, find_page-Searched, fetch_page_next,
}
use agent_db.Storage.Heap.Written.{Sane, page-IsValid, update-update_page, row_at_congr, clip_same}
use agent_db.Storage.Heap.Write.{Stored, Alike-refl, Alike-set_table, put_data-Stored}

-- What an insertion gives: the id of the stored row, or an error of the pool with every page as
-- before. It does not panic, and it returns.
pub data Inserting (bp : BufferPool) (bs : List ℕ) : Outcome Rid × BufferPool → Type 0 where
  stored : (rid : Rid) (bp' : BufferPool) → Stored bp bs rid bp' → Inserting bp bs (ok rid, bp')
  refused :
      (e : Error) (bp' : BufferPool)
      → (e ≡ io) ⊎ (e ≡ all_pinned)
      → IsValid bp'
      → ((id : ℕ) → IsPlain id → view bp' id ≡ view bp id)
      → Inserting bp bs (err e, bp')

-- a pool with the same pages as a sane one, and no smaller file
pub SameView-Sane : (a b : BufferPool) → IsValid a → SameView a b → Sane b → Sane a
SameView-Sane a b v s sane = record {
  valid = v;
  well_formed = λ id p d h. sane.well_formed id p d (sym (s.same id p) ∙ h);
  fresh = λ id p l d h.
      sane.fresh id p (omega (arith, (s.counted sane.counted).1, l)) d (sym (s.same id p) ∙ h);
  counted = (s.counted sane.counted).0;
}

Stored-SameView :
    (a b : BufferPool) (bs : List ℕ) (rid : Rid) (bp' : BufferPool)
    → ((id : ℕ) → IsPlain id → view a id ≡ view b id)
    → Stored a bs rid bp'
    → Stored b bs rid bp'
Stored-SameView a b bs rid bp' s t = record {
  sane = t.sane;
  free = sym (row_at_congr a b rid (s rid.page_id t.plain)) ∙ t.free;
  stored = t.stored;
  kept = λ r xs p h. t.kept r xs p (row_at_congr a b r (s r.page_id p) ∙ h);
  plain = t.plain;
  frame = t.frame;
  mapped = t.mapped;
}

-- a page that passes the test of the search has room for the row
suits_fit :
    (table : ℕ) (p : Page) (bs : List ℕ)
    → length bs + 4 ≤ 4072
    → suits table (u16 (length bs)) p ≡ true
    → length bs + 4 ≤ free_space p
unfolding suits can_fit
suits_fit table p bs l h = ground arith

module _ (bp : BufferPool) (table : ℕ) (bs : List ℕ) (small : table < 2 ^ 32)
    (some_bytes : 0 < length bs) (fit : length bs + 4 ≤ 4072) where
  -- the row goes to a page that was found
  put_old :
      (bp1 : BufferPool) (id : ℕ) (p : Page)
      → Sane bp1
      → ((id : ℕ) → IsPlain id → view bp1 id ≡ view bp id)
      → IsPlain id
      → id < bp1.disk.page_count
      → Held bp1 id p
      → suits table (u16 (length bs)) p ≡ true
      → Inserting bp bs (put_data bp1 table id p bs)
  put_old bp1 id p sane same plain l held fits =
      let v = page-IsValid bp1 sane id plain p held in
      let (r, bp', e, t) =
        put_data-Stored bp1 sane id plain p held table small bs some_bytes
          (suits_fit table p bs fit fits) p (Alike-refl p v) bp1 (λ x. refl) l in
      subst (Inserting bp bs) (sym e) (stored r bp' (Stored-SameView bp1 bp bs r bp' same t))

  module _ (bp1 : BufferPool) (sane : Sane bp1)
      (same : (id : ℕ) → IsPlain id → view bp1 id ≡ view bp id) where
    abbrev pid : ℕ
    pid = bp1.disk.page_count

    -- the pool behind AllocatePage
    abbrev bpa : BufferPool
    bpa = record bp1 { disk = (allocate_page bp1.disk).1 }

    bpa-view : (id : ℕ) → view bpa id ≡ view bp1 id
    unfolding view disk_bytes read_page allocate_page
    bpa-view id = refl

    bpa-Sound : (p : Page) → Sound bp1.disk p → Sound bpa.disk p
    unfolding disk_bytes read_page allocate_page
    bpa-Sound p s = record {
      plain = s.plain;
      header = s.header;
      readable = s.readable;
      clean = s.clean;
    }

    bpa-IsValid : IsValid bpa
    bpa-IsValid =
        let v = sane.valid in
        record {
          mapped = v.mapped;
          cached = v.cached;
          sound = λ i p at. bpa-Sound p (v.sound i p at);
          listed = v.listed;
        }

    bpa-pages : pid < 2 ^ 51 → bpa.disk.page_count ≡ pid + 1
    unfolding allocate_page
    bpa-pages l = omega arith

    bpa-Sane : pid < 2 ^ 51 → Sane bpa
    bpa-Sane l = record {
      valid = bpa-IsValid;
      well_formed = λ id p d h. sane.well_formed id p d (sym (bpa-view id) ∙ h);
      fresh =
          λ id p m d h. sane.fresh id p (omega (arith, bpa-pages l, m)) d (sym (bpa-view id) ∙ h);
      counted = (omega (arith, bpa-pages l), omega (arith, bpa-pages l));
    }

    module _ (p : Page) (bp2 : BufferPool) (i : ℕ) (f : Frame) (v : IsValid bp2)
        (s : SameView bp2 bpa) (own : p.id ≡ pid) (at : get_elem? bp2.frames i ≡ some f)
        (has : f.page ≡ some p) where
      here : page_at bp2.frames i ≡ some p
      here = page_at-some bp2.frames i f at ∙ has

      new-IsPlain : IsPlain pid
      new-IsPlain = subst IsPlain own (v.sound i p here).plain

      new-Sane : Sane bp2
      new-Sane = SameView-Sane bp2 bpa v s (bpa-Sane new-IsPlain.1)

      held : Held bp2 pid p
      held = got-Held bp2 pid p i f v own at has

      room : free_space p ≡ 4072
      room =
          free_space_header p (as_page pid (clip p.bytes))
            (sym (header_same (as_page pid (clip p.bytes)) p (sym own) (clip_same pid p)))
          ∙ sane.fresh pid new-IsPlain (omega arith) (clip p.bytes)
              (sym (bpa-view pid) ∙ sym (s.same pid new-IsPlain) ∙ held.seen)

      used : pid < bp2.disk.page_count
      used = omega (arith, (s.counted (bpa-Sane new-IsPlain.1).counted).1, bpa-pages new-IsPlain.1)

      put_got : Inserting bp bs (put_new (ok p, bp2) table pid bs)
      unfolding put_new
      put_got =
          let vp = page-IsValid bp2 new-Sane pid new-IsPlain p held in
          let q : Page = set_table p table in
          let mapped = ap bp2.page_map (sym own) ∙ v.cached i p here in
          let (r, bp', e, t) =
            put_data-Stored bp2 new-Sane pid new-IsPlain p held table small bs some_bytes
              (omega (arith, room, fit)) q (Alike-set_table p p table small (Alike-refl p vp))
              (update_page bp2 pid q) (λ x. update-update_page bp2 pid i q x f mapped at) used in
          subst (Inserting bp bs) (sym e) (
            stored r bp' (
              Stored-SameView bp2 bp bs r bp' (λ id pl. s.same id pl ∙ bpa-view id ∙ same id pl) t))

    -- the row goes to the new page, once that is fetched
    put_new-Inserting :
        (r : Outcome Page × BufferPool)
        → Fetched bpa pid r
        → Inserting bp bs (put_new r table pid bs)
    unfolding put_new
    put_new-Inserting r (got p bp2 i f v s own at has pinned) = put_got p bp2 i f v s own at has
    put_new-Inserting r (busy bp2 v s) =
        refused all_pinned bp2 (inr refl) v (λ id p. s.same id p ∙ bpa-view id ∙ same id p)
    put_new-Inserting r (failed bp2 v s) =
        refused io bp2 (inl refl) v (λ id p. s.same id p ∙ bpa-view id ∙ same id p)

  put_found-Inserting :
      (fuel : ℕ)
      → 2 ^ 51 ≤ fuel
      → (r : Outcome (Option (ℕ × Page)) × BufferPool) → Sane bp
      → Searched bp table (u16 (length bs)) fuel 1 r
      → Inserting bp bs (put_found r table bs)
  unfolding put_found allocate_page
  put_found-Inserting fuel l r sane (found id p bp1 v s plain used held fits) =
      put_old bp1 id p (SameView-Sane bp1 bp v s sane) s.same plain used held fits
  put_found-Inserting fuel l r sane (absent bp1 v s) =
      let sane1 = SameView-Sane bp1 bp v s sane in
      let (low, high) = sane1.counted in
      put_new-Inserting bp1 sane1 s.same _
        (fetch_page_next _ _ (bpa-IsValid bp1 sane1 s.same) low high)
  put_found-Inserting fuel l r sane (spent bp1 h) = absurd (omega (arith, l, h))

-- InsertRow behind the serialisation, of a row that is not empty and fits on a new page: on a sane pool the row is
-- stored under a new id, and the pool is sane again with every other row as before; or there is an
-- error of the pool, and every page is as before. Fuel of 2^51 is enough for any file.
pub insert_bytes-Inserting :
    (fuel : ℕ) (bp : BufferPool) (table : ℕ) (bs : List ℕ)
    → 2 ^ 51 ≤ fuel
    → Sane bp
    → table < 2 ^ 32
    → 0 < length bs
    → length bs + 4 ≤ 4072
    → Inserting bp bs (insert_bytes fuel bp table bs)
unfolding insert_bytes
insert_bytes-Inserting fuel bp table bs l sane small some_bytes fit =
    put_found-Inserting bp table bs small some_bytes fit fuel l _ sane (
      find_page-Searched fuel bp table (u16 (length bs)) 1 sane.valid sane.counted (omega arith)
        (omega arith))
