-- ===== src/Storage/Heap/Search.antt =====
-- The search of InsertRow for a page.
use agent_db.Prelude.{
  ℕ, zero, suc, ◌+◌, ◌^◌, ◌≤◌, ◌<◌, ◌≡◌, refl, sym, ap, ◌∙◌, inl, inr, Bool, true, false,
  Bool-cases, get_elem?, Option, none, some, Option-cases, arith, ltb,
}
use mathlib.Core.Path.{subst}
use native.Mathlib.Decide.{ℕ_discrete}
use agent_db.Outcome.{Outcome, ok, err, deadlock, io}
use agent_db.Storage.Page.{Page}
use agent_db.Storage.Disk.{DiskManager, read_page}
use agent_db.Storage.Disk.ReadBack.{clip, IsPlain, Counted}
use agent_db.Storage.BufferPool.{
  BufferPool, Frame, fetch_page, unpin_page, load_page, load_evicted, find_free, evict_page,
}
use agent_db.Storage.BufferPool.Frames.{page_at-some, find_free-none}
use agent_db.Storage.BufferPool.Invariant.{view, IsValid, SameView, view_cached}
use agent_db.Storage.BufferPool.Evict.{Evicted, evict_page-Evicted}
use agent_db.Storage.BufferPool.Fetch.{
  Fetched, got, busy, failed, fetch_page-Fetched, SameView-trans, SameView-refl,
}
use agent_db.Storage.BufferPool.Change.{unpin_page-IsValid}
use agent_db.Storage.Heap.{find_page, search_page, suits}

pub disk-unpin_page :
    (bp : BufferPool) (id : ℕ) (dirty : Bool) → (unpin_page bp id dirty).disk ≡ bp.disk
unfolding unpin_page
disk-unpin_page bp id dirty = elim (Option-cases (bp.page_map id)) [
  | inl e ↦ rw (e, unpin_page) refl
  | inr (i, e) ↦
      rw (e, unpin_page)
        (elim (Option-cases (get_elem? bp.frames i)) [
          | inl none_there ↦ rw none_there refl
          | inr (f, there) ↦ rw there refl
        ])
]

pub unpin_page-SameView :
    (bp : BufferPool) (id : ℕ)
    → IsValid bp
    → IsValid (unpin_page bp id false) × SameView (unpin_page bp id false) bp
unpin_page-SameView bp id v =
    let (valid, same) = unpin_page-IsValid bp id false v in
    (
      valid,
      record {
        same = λ j _. same j;
        readable = λ j. ap (λ (d : DiskManager). d.file.read_fails j) (disk-unpin_page bp id false);
        counted = λ c. rw (disk-unpin_page bp id false) (c, omega arith);
      },
    )

-- a page that is in the pool, as a fetch leaves it
pub record Held (bp : BufferPool) (pid : ℕ) (p : Page) : Type 0 where
  pub own : p.id ≡ pid
  pub frame : ℕ
  pub mapped : bp.page_map pid ≡ some frame
  pub seen : view bp pid ≡ ok (clip p.bytes)

pub got-Held :
    (bp : BufferPool) (pid : ℕ) (p : Page) (i : ℕ) (f : Frame)
    → IsValid bp
    → p.id ≡ pid
    → get_elem? bp.frames i ≡ some f
    → f.page ≡ some p
    → Held bp pid p
got-Held bp pid p i f v own at has =
    let here = page_at-some bp.frames i f at ∙ has in
    record {
      own = own;
      frame = i;
      mapped = ap bp.page_map (sym own) ∙ v.cached i p here;
      seen = ap (view bp) (sym own) ∙ view_cached bp i p v here;
    }

-- What the search may give: a page of the file that is in the pool and suits, or none; or its fuel
-- is spent. The pool gives a client the same pages.
pub data Searched (bp : BufferPool) (table size : ℕ) (fuel pid : ℕ)
    : Outcome (Option (ℕ × Page)) × BufferPool → Type 0 where
  found :
      (id : ℕ) (p : Page) (bp' : BufferPool)
      → IsValid bp'
      → SameView bp' bp
      → IsPlain id
      → id < bp'.disk.page_count
      → Held bp' id p
      → suits table size p ≡ true
      → Searched bp table size fuel pid (ok (some (id, p)), bp')
  absent :
      (bp' : BufferPool)
      → IsValid bp'
      → SameView bp' bp
      → Searched bp table size fuel pid (ok none, bp')
  spent : (bp' : BufferPool) → fuel + pid ≤ 2 ^ 51 → Searched bp table size fuel pid (deadlock, bp')

Searched-suc :
    (a b : BufferPool) {table size fuel pid : ℕ} {r : Outcome (Option (ℕ × Page)) × BufferPool}
    → SameView a b
    → Searched a table size fuel (suc pid) r
    → Searched b table size (suc fuel) pid r
Searched-suc a b h (found id p bp' v s plain l held fits) =
    found id p bp' v (SameView-trans s h) plain l held fits
Searched-suc a b h (absent bp' v s) = absent bp' v (SameView-trans s h)
Searched-suc a b h (spent bp' l) = spent bp' (omega arith)

-- the body of the search, for a way to go on that does the same
search_page-Searched :
    (fuel : ℕ) (bp : BufferPool) (table size pid : ℕ) (r : Outcome Page × BufferPool)
    (next : BufferPool → Outcome (Option (ℕ × Page)) × BufferPool)
    → IsPlain pid
    → Counted bp.disk
    → pid < bp.disk.page_count
    → Fetched bp pid r
    → ((b : BufferPool) → IsValid b → SameView b bp → Searched b table size fuel (suc pid) (next b))
    → Searched bp table size (suc fuel) pid (search_page r table size pid next)
unfolding search_page
search_page-Searched fuel bp table size pid r next plain c l (got p bp' i f v s own at has pinned)
      rest =
    elim (Bool-cases (suits table size p)) [
      | inl e ↦ rw e (
          found pid p bp' v s plain (omega (arith, l, (s.counted c).1))
            (got-Held bp' pid p i f v own at has) e)
      | inr e ↦
          let (v', s') = unpin_page-SameView bp' pid v in
          let same = SameView-trans s' s in rw e (Searched-suc _ bp same (rest _ v' same))
    ]
search_page-Searched fuel bp table size pid r next plain c l (busy bp' v s) rest =
    Searched-suc bp' bp s (rest bp' v s)
search_page-Searched fuel bp table size pid r next plain c l (failed bp' v s) rest =
    Searched-suc bp' bp s (rest bp' v s)

-- The search from a page of the file on finds a page that suits, in the pool, or finds that there is
-- none; fuel for the rest of the file is enough.
pub find_page-Searched :
    (fuel : ℕ) (bp : BufferPool) (table size pid : ℕ)
    → IsValid bp
    → Counted bp.disk
    → 0 < pid
    → pid ≤ 2 ^ 51
    → Searched bp table size fuel pid (find_page fuel bp table size pid)
unfolding find_page
find_page-Searched zero bp table size pid v c p0 l = spent bp (omega arith)
find_page-Searched (suc fuel) bp table size pid v c p0 l =
    elim (Bool-cases (ltb pid bp.disk.page_count)) [
      | inr e ↦ rw (e, find_page) (absent bp v (SameView-refl bp))
      | inl e ↦
          let plain : IsPlain pid = (p0, ground (arith, c.1)) in
          rw (e, find_page)
            (search_page-Searched fuel bp table size pid (fetch_page bp pid)
              (λ b. find_page fuel b table size (suc pid)) plain c (ground arith)
              (fetch_page-Fetched bp pid plain v)
              (λ b v' s.
                find_page-Searched fuel b table size (suc pid) v' (s.counted c).0 (omega arith)
                  (omega (arith, plain.1))))
    ]

-- the first page behind the largest file: its offset is negative
read_page_far : (dm : DiskManager) → read_page dm (2 ^ 51) ≡ err io
unfolding read_page
read_page_far dm = refl

load_page_far : (bp : BufferPool) (i : ℕ) → load_page bp (2 ^ 51) i ≡ (err io, bp)
unfolding load_page
load_page_far bp i = rw (read_page_far bp.disk, load_page) refl

absent_far : (bp : BufferPool) → IsValid bp → bp.page_map (2 ^ 51) ≡ none
absent_far bp v = elim (Option-cases (bp.page_map (2 ^ 51))) [
  | inl e ↦ e
  | inr (i, e) ↦
      let (p, at, own) = v.mapped (2 ^ 51) i e in
      absurd (omega (arith, (v.sound i p at).plain.1, own))
]

load_evicted_far :
    (bp : BufferPool) (r : Outcome (Unit {0}) × BufferPool)
    → IsValid bp
    → Evicted bp r
    → Fetched bp (2 ^ 51) (load_evicted r (2 ^ 51))
unfolding load_evicted
load_evicted_far bp r v (Evicted.freed bp1 k g v1 same at free gone) =
    elim (Option-cases (find_free bp1.frames 0)) [
      | inl e ↦ absurd (find_free-none bp1.frames 0 e k g at free)
      | inr (i, e) ↦ rw (e, load_evicted) (rw (load_page_far bp1 i) (failed bp1 v1 same))
    ]
load_evicted_far bp r v Evicted.busy = busy bp v (SameView-refl bp)
load_evicted_far bp r v Evicted.failed = failed bp v (SameView-refl bp)

fetch_page_far : (bp : BufferPool) → IsValid bp → Fetched bp (2 ^ 51) (fetch_page bp (2 ^ 51))
unfolding fetch_page
fetch_page_far bp v =
    rw (absent_far bp v, fetch_page)
      (elim (Option-cases (find_free bp.frames 0)) [
        | inl e ↦ rw e (load_evicted_far bp (evict_page bp) v (evict_page-Evicted bp v))
        | inr (i, e) ↦ rw e (rw (load_page_far bp i) (failed bp v (SameView-refl bp)))
      ])

-- a fetch of a page of the file or of the next one
pub fetch_page_next :
    (bp : BufferPool) (id : ℕ)
    → IsValid bp
    → 0 < id
    → id ≤ 2 ^ 51
    → Fetched bp id (fetch_page bp id)
fetch_page_next bp id v h l = elim (ℕ_discrete id (2 ^ 51)) [
  | yes e ↦ subst (λ k. Fetched bp k (fetch_page bp k)) (sym e) (fetch_page_far bp v)
  | no ne ↦ fetch_page-Fetched bp id (h, omega arith) v
]
