-- ===== src/Storage/BufferPool/Invariant.antt =====
-- The invariant of the buffer pool, and the pages as a client of the pool sees them.
use agent_db.Prelude.{
  ℕ, zero, suc, ◌*◌, ◌≡◌, ◌≢◌, refl, sym, ap, ◌∙◌, inl, inr, false, Option, none, some, List, arith,
  get_elem?, replicate, ◌==◌, if◌then◌else◌, Option-cases,
}
use native.Mathlib.Decide.{ℕ_discrete}
use agent_db.Outcome.{Outcome, ok, panic, ◌>>=◌}
use agent_db.Bytes.{Buf}
use agent_db.Storage.Page.{Page, read_header}
use agent_db.Storage.Disk.{DiskManager, read_page}
use agent_db.Storage.Disk.ReadBack.{clip, IsPlain, Grown}
use agent_db.Storage.BufferPool.{BufferPool, Frame, new_buffer_pool, drop_page}
use agent_db.Storage.BufferPool.Frames.{page_at, page_at-some, page_at-set, In, In-without}

-- the bytes that a read of the disk gives
unfoldable pub disk_bytes : DiskManager → ℕ → Outcome Buf
disk_bytes dm id = do p ← read_page dm id; ok (clip p.bytes)

abbrev pub cached_bytes : Option Page → Outcome Buf
cached_bytes none = panic
cached_bytes (some p) = ok (clip p.bytes)

-- the bytes of a page as `FetchPage` gives them: the cached page, or else the page on disk
unfoldable pub view : BufferPool → ℕ → Outcome Buf
view bp id = elim (bp.page_map id) [
  | none ↦ disk_bytes bp.disk id
  | some i ↦ cached_bytes (page_at bp.frames i)
]

-- a cached page has its own id in its header and can be read from the disk; a clean one is the
-- page on the disk
pub record Sound (dm : DiskManager) (p : Page) : Type 0 where
  pub plain : IsPlain p.id
  pub header : (read_header p).page_id ≡ p.id
  pub readable : dm.file.read_fails (p.id * 4096) ≡ false
  pub clean : p.dirty ≡ false → disk_bytes dm p.id ≡ ok (clip p.bytes)

pub record IsValid (bp : BufferPool) : Type 0 where
  pub mapped :
      (id i : ℕ)
      → bp.page_map id ≡ some i
      → (p : Page) × (page_at bp.frames i ≡ some p) × (p.id ≡ id)
  pub cached : (i : ℕ) (p : Page) → page_at bp.frames i ≡ some p → bp.page_map p.id ≡ some i
  pub sound : (i : ℕ) (p : Page) → page_at bp.frames i ≡ some p → Sound bp.disk p
  pub listed : (i : ℕ) → In i bp.lru_list → (p : Page) × (page_at bp.frames i ≡ some p)

-- two pools that give a client the same pages
pub record SameView (a b : BufferPool) : Type 0 where
  pub same : (id : ℕ) → IsPlain id → view a id ≡ view b id
  pub readable : (id : ℕ) → a.disk.file.read_fails id ≡ b.disk.file.read_fails id
  pub counted : Grown b.disk a.disk

pub view-none :
    (bp : BufferPool) (id : ℕ) → bp.page_map id ≡ none → view bp id ≡ disk_bytes bp.disk id
unfolding view
view-none bp id h = rw (h, view) refl

pub view-some :
    (bp : BufferPool) (id i : ℕ)
    → bp.page_map id ≡ some i
    → view bp id ≡ cached_bytes (page_at bp.frames i)
unfolding view
view-some bp id i h = rw (h, view) refl

pub view_cached :
    (bp : BufferPool) (i : ℕ) (p : Page)
    → IsValid bp
    → page_at bp.frames i ≡ some p
    → view bp p.id ≡ ok (clip p.bytes)
view_cached bp i p v h = view-some bp p.id i (v.cached i p h) ∙ ap cached_bytes h

page_at-replicate :
    (n i : ℕ) → page_at (replicate n (record { page = none; pin_count = 0 })) i ≡ none
unfolding page_at
page_at-replicate zero i = refl
page_at-replicate (suc n) zero = refl
page_at-replicate (suc n) (suc i) = page_at-replicate n i

-- A new pool is valid, and a client sees the pages on the disk.
pub new_buffer_pool-IsValid :
    (capacity : ℕ) (disk : DiskManager)
    → IsValid (new_buffer_pool capacity disk)
      × ((id : ℕ) → view (new_buffer_pool capacity disk) id ≡ disk_bytes disk id)
unfolding new_buffer_pool view
new_buffer_pool-IsValid capacity disk = (
  record {
    mapped = λ id i h. absurd (ground arith);
    cached = λ i p h. absurd (ground (arith, page_at-replicate capacity i));
    sound = λ i p h. absurd (ground (arith, page_at-replicate capacity i));
    listed = λ i h. absurd h;
  },
  λ id. refl,
)

-- A step that keeps the page of every frame, the map and the disk keeps all of this.
pub pages_kept :
    (bp : BufferPool) (frames : List Frame) (lru : List ℕ)
    → IsValid bp
    → ((i : ℕ) → page_at frames i ≡ page_at bp.frames i)
    → ((i : ℕ) → In i lru → (p : Page) × (page_at bp.frames i ≡ some p))
    → IsValid (record bp { frames = frames; lru_list = lru })
      × SameView (record bp { frames = frames; lru_list = lru }) bp
pages_kept bp frames lru v h l = (
  record {
    mapped = λ id i m. let (p, at, e) = v.mapped id i m in (p, h i ∙ at, e);
    cached = λ i p at. v.cached i p (sym (h i) ∙ at);
    sound = λ i p at. v.sound i p (sym (h i) ∙ at);
    listed = λ i m. let (p, at) = l i m in (p, h i ∙ at);
  },
  record {
    same = λ id _. elim (Option-cases (bp.page_map id)) [
      | inl e ↦ view-none _ id e ∙ sym (view-none bp id e)
      | inr (i, e) ↦ view-some _ id i e ∙ ap cached_bytes (h i) ∙ sym (view-some bp id i e)
    ];
    readable = λ id. refl;
    counted = λ c. (c, omega arith);
  },
)

-- The disk after a page was written, or as it is for a clean page: the page is on it, and all
-- else reads as before.
pub record Settled (dm : DiskManager) (p : Page) (dm' : DiskManager) : Type 0 where
  pub back : disk_bytes dm' p.id ≡ ok (clip p.bytes)
  pub others : (id : ℕ) → IsPlain id → id ≢ p.id → disk_bytes dm' id ≡ disk_bytes dm id
  pub faults : (k : ℕ) → dm'.file.read_fails k ≡ dm.file.read_fails k
  pub counted : Grown dm dm'

module _ (bp : BufferPool) (i : ℕ) (f : Frame) (p : Page) (v : IsValid bp)
    (at : get_elem? bp.frames i ≡ some f) (has : f.page ≡ some p) where
  here : page_at bp.frames i ≡ some p
  here = page_at-some bp.frames i f at ∙ has

  -- no other frame holds a page with the id
  distinct : (j : ℕ) (p' : Page) → i ≢ j → page_at bp.frames j ≡ some p' → p'.id ≢ p.id
  distinct j p' ne h = λ e. ground (arith, v.cached j p' h, v.cached i p here, ap bp.page_map e)

  module _ (dm : DiskManager) (settled : Settled bp.disk p dm) where
    abbrev evicted : BufferPool
    evicted = drop_page (record bp { disk = dm }) i f p

    pages : (j : ℕ) → page_at evicted.frames j ≡ (if i == j then none else page_at bp.frames j)
    unfolding drop_page
    pages j = page_at-set bp.frames i (record f { page = none }) f j at

    pages_other :
        (j : ℕ) (p' : Page)
        → page_at evicted.frames j ≡ some p'
        → (i ≢ j) × (page_at bp.frames j ≡ some p')
    pages_other j p' h = ground (arith, pages j)

    map_other : (id j : ℕ) → evicted.page_map id ≡ some j → (id ≢ p.id) × (bp.page_map id ≡ some j)
    unfolding drop_page
    map_other id j h = ground arith

    evicted_mapped :
        (id j : ℕ)
        → evicted.page_map id ≡ some j
        → (p' : Page) × (page_at evicted.frames j ≡ some p') × (p'.id ≡ id)
    evicted_mapped id j h =
        let (ne, old) = map_other id j h in
        let (p', at', e) = v.mapped id j old in (p', ground (arith, pages j, here), e)

    evicted-Sound : (j : ℕ) (p' : Page) → page_at evicted.frames j ≡ some p' → Sound dm p'
    evicted-Sound j p' h =
        let (ne, old) = pages_other j p' h in
        let s = v.sound j p' old in
        record {
          plain = s.plain;
          header = s.header;
          readable = settled.faults _ ∙ s.readable;
          clean = λ c. settled.others p'.id s.plain (distinct j p' ne old) ∙ s.clean c;
        }

    evicted_cached :
        (j : ℕ) (p' : Page) → page_at evicted.frames j ≡ some p' → evicted.page_map p'.id ≡ some j
    unfolding drop_page
    evicted_cached j p' h =
        let (ne, old) = pages_other j p' h in
        ground (arith, distinct j p' ne old, v.cached j p' old)

    evicted_listed :
        (j : ℕ) → In j evicted.lru_list → (p' : Page) × (page_at evicted.frames j ≡ some p')
    unfolding drop_page
    evicted_listed j h =
        let (old, ne) = In-without i j bp.lru_list h in
        let (p', at') = v.listed j old in (p', ground (arith, pages j))

    view_self : view evicted p.id ≡ view bp p.id
    unfolding drop_page
    view_self =
        view-none evicted p.id (ground arith) ∙ settled.back ∙ sym (view_cached bp i p v here)

    view_other : (id : ℕ) → IsPlain id → id ≢ p.id → view evicted id ≡ view bp id
    unfolding drop_page
    view_other id plain ne = elim (Option-cases (bp.page_map id)) [
      | inl e ↦
          view-none evicted id (ground arith) ∙ settled.others id plain ne ∙ sym (view-none bp id e)
      | inr (j, e) ↦
          let (p', at', same) = v.mapped id j e in
          view-some evicted id j (ground arith)
          ∙ ap cached_bytes (ground (arith, pages j, here))
          ∙ sym (view-some bp id j e)
    ]

    evicted-view : (id : ℕ) → IsPlain id → view evicted id ≡ view bp id
    evicted-view id plain = elim (ℕ_discrete id p.id) [
      | yes e ↦ ap (view evicted) e ∙ view_self ∙ ap (view bp) (sym e)
      | no ne ↦ view_other id plain ne
    ]

    -- Evicting a page that is on the disk keeps what a client sees.
    pub drop_page-IsValid : IsValid evicted × SameView evicted bp
    unfolding drop_page
    drop_page-IsValid = (
      record {
        mapped = evicted_mapped;
        cached = evicted_cached;
        sound = evicted-Sound;
        listed = evicted_listed;
      },
      record { same = evicted-view; readable = settled.faults; counted = settled.counted },
    )
