-- ===== src/Storage/BufferPool/Evict.antt =====
-- `evictPage`: a page leaves the pool, and no page changes for a client.
use mathlib.Core.List.{reverse}
use agent_db.Prelude.{
  ℕ, ◌+◌, ◌≡◌, refl, ap, fun_ext, ◌∙◌, ◌⊎◌, inl, inr, Bool, false, none, some, List, [], ◌∷◌, arith,
  get_elem?, get_elem?-set_self, lt_of_get_elem?, leb, ◌||◌, ◌%◌, ◌^◌, ◌==◌, if◌then◌else◌,
  Bool-cases,
}
use agent_db.Outcome.{Outcome, ok, err, io, all_pinned}
use agent_db.Bytes.{Buf}
use agent_db.Storage.Page.{Page}
use agent_db.Storage.Disk.{DiskManager, write_page, write_at, is_negative, offset}
use agent_db.Storage.Disk.ReadBack.{
  clip, read-write_page, write_page-Grown, write_page-file, write_page-read_fails,
}
use agent_db.Storage.BufferPool.{BufferPool, Frame, drop_page, evict_frame, evict_loop, evict_page}
use agent_db.Storage.BufferPool.Frames.{page_at, page_at-some, frame_of_page, In, In-reverse}
use agent_db.Storage.BufferPool.Invariant.{
  disk_bytes, Sound, IsValid, SameView, Settled, drop_page-IsValid,
}

-- what an eviction may do: free a frame, find every page pinned, or fail to write a page
pub data Evicted (bp : BufferPool) : Outcome (Unit {0}) × BufferPool → Type 0 where
  freed :
      (bp' : BufferPool) (i : ℕ) (f : Frame)
      → IsValid bp'
      → SameView bp' bp
      → get_elem? bp'.frames i ≡ some f
      → f.page ≡ none
      → ((id : ℕ) → bp.page_map id ≡ none → bp'.page_map id ≡ none)
      → Evicted bp (ok tt, bp')
  busy : Evicted bp (err all_pinned, bp)
  failed : Evicted bp (err io, bp)

clip-clip : (d : Buf) → clip (clip d) ≡ clip d
clip-clip d = fun_ext λ i. ground arith

pub clean-Settled : (dm : DiskManager) (p : Page) → Sound dm p → p.dirty ≡ false → Settled dm p dm
clean-Settled dm p s c = record {
  back = s.clean c;
  others = λ id _ _. refl;
  faults = λ off. refl;
  counted = λ c. (c, omega arith);
}

pub written-Settled :
    (dm dm' : DiskManager) (p p' : Page)
    → Sound dm p
    → write_page dm p ≡ ok (dm', p')
    → Settled dm p dm'
unfolding disk_bytes
written-Settled dm dm' p p' s h =
    let (back, others) = read-write_page dm dm' p p' s.plain s.header s.readable h in
    record {
      back = rw back (ap ok (clip-clip p.bytes));
      others = λ id plain ne. rw (others id plain ne) refl;
      faults = λ off. ap (λ (g : ℕ → Bool). g off) (write_page-read_fails dm dm' p p' s.plain h);
      counted = write_page-Grown dm dm' p p' s.plain h;
    }

-- a write succeeds, or fails with an I/O error
pub write_page-cases :
    (dm : DiskManager) (p : Page)
    → (write_page dm p ≡ err io)
      ⊎ ((dm' : DiskManager) × (p' : Page) × (write_page dm p ≡ ok (dm', p')))
unfolding write_page
write_page-cases dm p =
    elim (Bool-cases (is_negative (offset p.id) || dm.file.write_fails (offset p.id))) [
      | inl e ↦ inl (rw e refl)
      | inr e ↦ inr (
        record {
          file = write_at dm.file (offset p.id) p.bytes;
          page_count = if leb dm.page_count p.id then (p.id + 1) % 2 ^ 64 else dm.page_count;
        },
        record p { dirty = false },
        rw e refl,
      )
    ]

module _ (bp : BufferPool) (v : IsValid bp) (i : ℕ) (f : Frame) (p : Page)
    (at : get_elem? bp.frames i ≡ some f) (has : f.page ≡ some p) where
  drop_page-Evicted :
      (dm : DiskManager)
      → Settled bp.disk p dm
      → Evicted bp (ok tt, drop_page (record bp { disk = dm }) i f p)
  unfolding drop_page
  drop_page-Evicted dm settled =
      let (valid, same) = drop_page-IsValid bp i f p v at has dm settled in
      freed _ i (record f { page = none }) valid same
        (get_elem?-set_self bp.frames i _ (lt_of_get_elem? bp.frames i at)) refl
        (λ id h. ground arith)

  evict_frame-Evicted : Evicted bp (evict_frame bp i f)
  unfolding evict_frame write_page drop_page
  evict_frame-Evicted =
      rw (has, evict_frame)
        (elim (Bool-cases p.dirty) [
          | inl d ↦ rw d (elim (write_page-cases bp.disk p) [
            | inl e ↦ rw e failed
            | inr (dm, p', e) ↦ rw e (
                rw (write_page-file bp.disk dm p p' s.plain e).1
                  (drop_page-Evicted dm (written-Settled bp.disk dm p p' s e)))
          ])
          | inr c ↦ rw c (drop_page-Evicted bp.disk (clean-Settled bp.disk p s c))
        ])
    where
      s : Sound bp.disk p
      s = v.sound i p (page_at-some bp.frames i f at ∙ has)

evict_loop-Evicted :
    (bp : BufferPool) (l : List ℕ)
    → IsValid bp
    → ((i : ℕ) → In i l → (p : Page) × (page_at bp.frames i ≡ some p))
    → Evicted bp (evict_loop bp l)
unfolding evict_loop
evict_loop-Evicted bp [] v h = busy
evict_loop-Evicted bp (i ∷ l) v h =
    let (p, here) = h i (inl refl) in
    let (f, at, has) = frame_of_page bp.frames i p here in
    rw (at, evict_loop)
      (elim (Bool-cases (f.pin_count == 0)) [
        | inl e ↦ rw e (evict_frame-Evicted bp v i f p at has)
        | inr e ↦ rw e (evict_loop-Evicted bp l v (λ j m. h j (inr m)))
      ])

-- An eviction from a valid pool frees a frame and keeps what a client sees, or changes nothing:
-- then every listed page is pinned or a write failed. It never panics.
pub evict_page-Evicted : (bp : BufferPool) → IsValid bp → Evicted bp (evict_page bp)
unfolding evict_page
evict_page-Evicted bp v =
    evict_loop-Evicted bp (reverse bp.lru_list) v (λ i m. v.listed i (In-reverse i bp.lru_list m))
