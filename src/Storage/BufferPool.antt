-- ===== src/Storage/BufferPool.antt =====
-- pkg/storage/buffer_pool.go: frames that cache pages, the map from page ids to frames, and the
-- LRU list with the most recent frame first. A list element is known by its frame, which stands
-- in the list once; so `LRUNode` is not a field. Callers hold pages by pointer: `update_page` is
-- a write through such a pointer.
pub mod Frames
pub mod Invariant
pub mod Evict
pub mod Change
pub mod Fetch
pub mod Flush
use mathlib.Core.List.{reverse}
use agent_db.Prelude.{
  ℕ, zero, suc, ◌+◌, ◌-◌, Bool, true, false, not, ◌&&◌, ◌||◌, Option, none, some, List, [], ◌∷◌,
  get_elem?, set, replicate, ◌==◌, if◌then◌else◌,
}
use agent_db.Outcome.{Outcome, ok, err, panic, deadlock, all_pinned}
use agent_db.Storage.Page.{Page}
use agent_db.Storage.Disk.{DiskManager, read_page, write_page}

pub record Frame : Type 0 where
  pub page : Option Page
  pub pin_count : ℕ

pub record BufferPool : Type 0 where
  pub frames : List Frame
  pub page_map : ℕ → Option ℕ
  pub lru_list : List ℕ
  pub disk : DiskManager
  pub capacity : ℕ

unfoldable pub new_buffer_pool : ℕ → DiskManager → BufferPool
new_buffer_pool capacity disk = record {
  frames = replicate capacity (record { page = none; pin_count = 0 });
  page_map = λ _. none;
  lru_list = [];
  disk = disk;
  capacity = capacity;
}

-- m[k] = v, and delete(m, k) at `none`
abbrev pub update : (ℕ → Option ℕ) → ℕ → Option ℕ → ℕ → Option ℕ
update m k v j = if j == k then v else m j

-- lruList.Remove of the element of a frame
pub without : ℕ → List ℕ → List ℕ
without i [] = []
without i (j ∷ l) = let rest = without i l in if i == j then rest else j ∷ rest

-- the loop of findFreeFrame, from frame `i`; `none` is -1
unfoldable pub find_free : List Frame → ℕ → Option ℕ
find_free [] i = none
find_free (f ∷ fs) i =
    let rest = find_free fs (suc i) in elim f.page [ none ↦ some i | some _ ↦ rest ]

-- the end of evictPage: out of the map, the list and the frame
unfoldable pub drop_page : BufferPool → ℕ → Frame → Page → BufferPool
drop_page bp idx f p = record bp {
  page_map = update bp.page_map p.id none;
  lru_list = without idx bp.lru_list;
  frames = set bp.frames idx (record f { page = none });
}

-- the body of the loop of evictPage, at an unpinned frame
unfoldable pub evict_frame : BufferPool → ℕ → Frame → Outcome (Unit {0}) × BufferPool
evict_frame bp idx f = elim f.page [
  | none ↦ (panic, bp)
  | some p ↦
      if p.dirty
      then elim (write_page bp.disk p) [
        | ok (disk, p') ↦ (ok tt, drop_page (record bp { disk = disk }) idx f p')
        | err e ↦ (err e, bp)
        | panic ↦ (panic, bp)
        | deadlock ↦ (deadlock, bp)
      ]
      else (ok tt, drop_page bp idx f p)
]

-- the loop of evictPage over the list, from its back
unfoldable pub evict_loop : BufferPool → List ℕ → Outcome (Unit {0}) × BufferPool
evict_loop bp [] = (err all_pinned, bp)
evict_loop bp (idx ∷ rest) =
    let next = evict_loop bp rest in
    elim (get_elem? bp.frames idx) [
      | none ↦ (panic, bp)
      | some f ↦ if f.pin_count == 0 then evict_frame bp idx f else next
    ]

unfoldable pub evict_page : BufferPool → Outcome (Unit {0}) × BufferPool
evict_page bp = evict_loop bp (reverse bp.lru_list)

-- if frame.Page != nil { delete(bp.pageMap, frame.Page.ID) }
abbrev pub forget : (ℕ → Option ℕ) → Option Page → ℕ → Option ℕ
forget m none = m
forget m (some p) = update m p.id none

-- steps 3 and 4 of FetchPage, for the frame `idx`
unfoldable pub load_page : BufferPool → ℕ → ℕ → Outcome Page × BufferPool
load_page bp page_id idx = elim (read_page bp.disk page_id) [
  | err e ↦ (err e, bp)
  | panic ↦ (panic, bp)
  | deadlock ↦ (deadlock, bp)
  | ok page ↦ elim (get_elem? bp.frames idx) [
    | none ↦ (panic, bp)
    | some f ↦ (
      ok page,
      record bp {
        frames = set bp.frames idx (record { page = some page; pin_count = 1 });
        lru_list = idx ∷ bp.lru_list;
        page_map = update (forget bp.page_map f.page) page_id (some idx);
      },
    )
  ]
]

-- step 1 of FetchPage: the page is in the frame `idx`. A frame of the map with no page would be
-- a nil pointer.
unfoldable pub fetch_cached : BufferPool → ℕ → Outcome Page × BufferPool
fetch_cached bp idx = elim (get_elem? bp.frames idx) [
  | none ↦ (panic, bp)
  | some f ↦ elim f.page [
    | none ↦ (panic, bp)
    | some p ↦ (
      ok p,
      record bp {
        frames = set bp.frames idx (record f { pin_count = f.pin_count + 1 });
        lru_list = idx ∷ without idx bp.lru_list;
      },
    )
  ]
]

-- step 2 again, behind a successful evictPage; bp.frames[-1] is a panic
unfoldable pub load_evicted : Outcome (Unit {0}) × BufferPool → ℕ → Outcome Page × BufferPool
load_evicted (r, bp) page_id = elim r [
  | ok _ ↦ elim (find_free bp.frames 0) [ none ↦ (panic, bp) | some idx ↦ load_page bp page_id idx ]
  | err e ↦ (err e, bp)
  | panic ↦ (panic, bp)
  | deadlock ↦ (deadlock, bp)
]

unfoldable pub fetch_page : BufferPool → ℕ → Outcome Page × BufferPool
fetch_page bp page_id = elim (bp.page_map page_id) [
  | some idx ↦ fetch_cached bp idx
  | none ↦ elim (find_free bp.frames 0) [
    | some idx ↦ load_page bp page_id idx
    | none ↦ load_evicted (evict_page bp) page_id
  ]
]

abbrev mark : Bool → Option Page → Option Page
mark dirty none = none
mark dirty (some p) = some (if dirty then record p { dirty = true } else p)

-- a page map that names no frame, or a frame without a page, does not occur in a valid pool; Go would
-- panic there
unfoldable pub unpin_page : BufferPool → ℕ → Bool → BufferPool
unpin_page bp page_id dirty = elim (bp.page_map page_id) [
  | none ↦ bp
  | some idx ↦ elim (get_elem? bp.frames idx) [
    | none ↦ bp
    | some f ↦ record bp {
      frames = set bp.frames idx (record { page = mark dirty f.page; pin_count = f.pin_count - 1 });
    }
  ]
]

-- the loop of FlushAll over the frames: what was written stays written when a write fails
unfoldable pub flush_frames :
    DiskManager → List Frame → Outcome (Unit {0}) × DiskManager × List Frame
flush_frames dm [] = (ok tt, dm, [])
flush_frames dm (f ∷ fs) = elim f.page [
  | none ↦ let (r, dm', fs') = flush_frames dm fs in (r, dm', f ∷ fs')
  | some p ↦
      if p.dirty
      then elim (write_page dm p) [
        | ok (dm1, p') ↦
            let (r, dm', fs') = flush_frames dm1 fs in (r, dm', record f { page = some p' } ∷ fs')
        | err e ↦ (err e, dm, f ∷ fs)
        | panic ↦ (panic, dm, f ∷ fs)
        | deadlock ↦ (deadlock, dm, f ∷ fs)
      ]
      else let (r, dm', fs') = flush_frames dm fs in (r, dm', f ∷ fs')
]

unfoldable pub flush_all : BufferPool → Outcome (Unit {0}) × BufferPool
flush_all bp =
    let (r, disk, frames) = flush_frames bp.disk bp.frames in
    (r, record bp { disk = disk; frames = frames })

-- what clients of the pool (heap.go, executor.go) do to a page through the pointer that FetchPage gave
-- them; not a method of the pool
unfoldable pub update_page : BufferPool → ℕ → Page → BufferPool
update_page bp page_id p = elim (bp.page_map page_id) [
  | none ↦ bp
  | some idx ↦ elim (get_elem? bp.frames idx) [
    | none ↦ bp
    | some f ↦ record bp { frames = set bp.frames idx (record f { page = some p }) }
  ]
]
