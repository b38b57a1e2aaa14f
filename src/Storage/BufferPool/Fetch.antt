-- ===== src/Storage/BufferPool/Fetch.antt =====
-- `FetchPage`: a client gets its page pinned in a frame, and no page changes for it.
use agent_db.Prelude.{
  ℕ, ◌+◌, ◌*◌, ◌<◌, ◌≡◌, ◌≢◌, refl, sym, ap, ◌∙◌, ◌⊎◌, inl, inr, false, none, some, ◌∷◌, arith,
  get_elem?, set, get_elem?-set_self, lt_of_get_elem?, ◌==◌, if◌then◌else◌, Option-cases,
  Bool-cases,
}
use native.Mathlib.Decide.{ℕ_discrete}
use agent_db.Outcome.{Outcome, ok, err, io, all_pinned}
use agent_db.Storage.Page.{Page, PageHeader, read_header, new_page}
use agent_db.Storage.Page.Delete.{new_page-header, id-new_page}
use agent_db.Storage.Disk.{DiskManager, read_page, read_at}
use agent_db.Storage.Disk.ReadBack.{clip, IsPlain, read_page_lem, id-read_at}
use agent_db.Storage.BufferPool.{
  BufferPool, Frame, find_free, load_page, fetch_cached, load_evicted, fetch_page, evict_page,
  without, update,
}
use agent_db.Storage.BufferPool.Frames.{
  page_at, page_at-some, page_at-set, frame_of_page, find_free-some, find_free-none, In, In-without,
}
use agent_db.Storage.BufferPool.Invariant.{
  disk_bytes, cached_bytes, view, view-none, view-some, Sound, IsValid, SameView, pages_kept,
}
use agent_db.Storage.BufferPool.Evict.{Evicted, evict_page-Evicted}

-- what a fetch may do: return the page, pinned, or an error
pub data Fetched (bp : BufferPool) (id : ℕ) : Outcome Page × BufferPool → Type 0 where
  got :
      (p : Page) (bp' : BufferPool) (i : ℕ) (f : Frame)
      → IsValid bp'
      → SameView bp' bp
      → p.id ≡ id
      → get_elem? bp'.frames i ≡ some f
      → f.page ≡ some p
      → 0 < f.pin_count
      → Fetched bp id (ok p, bp')
  busy : (bp' : BufferPool) → IsValid bp' → SameView bp' bp → Fetched bp id (err all_pinned, bp')
  failed : (bp' : BufferPool) → IsValid bp' → SameView bp' bp → Fetched bp id (err io, bp')

-- a read succeeds with a sound page, or fails with an I/O error
pub read_page-cases :
    (dm : DiskManager) (id : ℕ)
    → IsPlain id
    → (read_page dm id ≡ err io)
      ⊎ ((p : Page) × (read_page dm id ≡ ok p) × (p.id ≡ id) × Sound dm p)
read_page-cases dm id plain = elim (Bool-cases (dm.file.read_fails (id * 4096))) [
  | inl e ↦ inl (read_page_lem dm id plain ∙ rw e refl)
  | inr ne ↦ elim (Bool-cases ((read_header there).page_id == id)) [
    | inl h ↦ inr (
        sound ne there (read_page_lem dm id plain ∙ rw (ne, h) refl) (id-read_at _ _ _)
          (ground arith))
    | inr h ↦ inr (
        sound ne (new_page id) (read_page_lem dm id plain ∙ rw (ne, h) refl) (id-new_page id)
          (ap (λ (k : PageHeader). k.page_id) (new_page-header id (omega arith))))
  ]
]
  where
    there : Page
    there = read_at dm.file (id * 4096) id

    sound :
        dm.file.read_fails (id * 4096) ≡ false
        → (p : Page) → read_page dm id ≡ ok p
        → p.id ≡ id
        → (read_header p).page_id ≡ id
        → (p : Page) × (read_page dm id ≡ ok p) × (p.id ≡ id) × Sound dm p
    sound ok_read p e same head = (
      p,
      e,
      same,
      record {
        plain = rw same plain;
        header = head ∙ sym same;
        readable = rw same ok_read;
        clean = λ _. unfold disk_bytes in rw (same, e) refl;
      },
    )

fetch_cached-Fetched :
    (bp : BufferPool) (id i : ℕ)
    → IsValid bp
    → bp.page_map id ≡ some i
    → Fetched bp id (fetch_cached bp i)
unfolding fetch_cached
fetch_cached-Fetched bp id i v h =
    let (p, here, same) = v.mapped id i h in
    let (f, at, has) = frame_of_page bp.frames i p here in
    let g : Frame = record f { pin_count = f.pin_count + 1 } in
    let (valid, kept) =
      pages_kept bp (set bp.frames i g) (i ∷ without i bp.lru_list) v
        (λ j.
          page_at-set bp.frames i g f j at
          ∙ ground (arith, page_at-some bp.frames i f at, ap (page_at bp.frames) {x = i} {y = j}))
        (touched p here) in
    rw (at, fetch_cached)
      (rw has (
        got p _ i g valid kept same
          (get_elem?-set_self bp.frames i g (lt_of_get_elem? bp.frames i at)) has (omega arith)))
  where
    touched :
        (p : Page)
        → page_at bp.frames i ≡ some p
        → (j : ℕ) → In j (i ∷ without i bp.lru_list)
        → (q : Page) × (page_at bp.frames j ≡ some q)
    touched p here j (inl e) = (p, rw e here)
    touched p here j (inr m) = v.listed j (In-without i j bp.lru_list m).0

module _ (bp : BufferPool) (id : ℕ) (v : IsValid bp) (new : bp.page_map id ≡ none) (i : ℕ)
    (f : Frame) (at : get_elem? bp.frames i ≡ some f) (free : f.page ≡ none) (p : Page)
    (same : p.id ≡ id) (s : Sound bp.disk p)
    (bytes : disk_bytes bp.disk id ≡ ok (clip p.bytes)) where
  abbrev frame : Frame
  frame = record { page = some p; pin_count = 1 }

  abbrev loaded : BufferPool
  loaded = record bp {
    frames = set bp.frames i frame;
    lru_list = i ∷ bp.lru_list;
    page_map = update bp.page_map id (some i);
  }

  empty : page_at bp.frames i ≡ none
  empty = page_at-some bp.frames i f at ∙ free

  pages : (j : ℕ) → page_at loaded.frames j ≡ (if i == j then some p else page_at bp.frames j)
  pages j = page_at-set bp.frames i frame f j at

  loaded_mapped :
      (id' j : ℕ)
      → loaded.page_map id' ≡ some j
      → (q : Page) × (page_at loaded.frames j ≡ some q) × (q.id ≡ id')
  loaded_mapped id' j h = elim (ℕ_discrete id' id) [
    | yes e ↦ (p, ground (arith, pages j), same ∙ sym e)
    | no ne ↦
        let (q, here, e) = v.mapped id' j (ground arith) in (q, ground (arith, pages j, empty), e)
  ]

  old_page :
      (j : ℕ) (q : Page)
      → page_at loaded.frames j ≡ some q
      → i ≢ j
      → (page_at bp.frames j ≡ some q) × (q.id ≢ id)
  old_page j q h ne =
      let old : page_at bp.frames j ≡ some q = ground (arith, pages j) in
      (old, λ e. ground (arith, v.cached j q old, ap bp.page_map e))

  loaded_cached :
      (j : ℕ) (q : Page) → page_at loaded.frames j ≡ some q → loaded.page_map q.id ≡ some j
  loaded_cached j q h = elim (ℕ_discrete i j) [
    | yes e ↦ ground (arith, pages j, same, ap (λ (r : Page). r.id) {x = p} {y = q})
    | no ne ↦ let (old, other) = old_page j q h ne in ground (arith, v.cached j q old)
  ]

  loaded-Sound : (j : ℕ) (q : Page) → page_at loaded.frames j ≡ some q → Sound bp.disk q
  loaded-Sound j q h = elim (ℕ_discrete i j) [
    | yes e ↦ let is_p : p ≡ q = ground (arith, pages j) in rw (← is_p) s
    | no ne ↦ v.sound j q (old_page j q h ne).0
  ]

  loaded_listed : (j : ℕ) → In j loaded.lru_list → (q : Page) × (page_at loaded.frames j ≡ some q)
  loaded_listed j (inl e) = (p, ground (arith, pages j))
  loaded_listed j (inr m) = let (q, old) = v.listed j m in (q, ground (arith, pages j, empty))

  loaded-view : (id' : ℕ) → view loaded id' ≡ view bp id'
  loaded-view id' = elim (ℕ_discrete id' id) [
    | yes e ↦
        view-some loaded id' i (ground arith)
        ∙ ap cached_bytes {y = some p} (ground (arith, pages i))
        ∙ sym bytes
        ∙ sym (view-none bp id new)
        ∙ ap (view bp) (sym e)
    | no ne ↦ elim (Option-cases (bp.page_map id')) [
      | inl e ↦ view-none loaded id' (ground arith) ∙ sym (view-none bp id' e)
      | inr (j, e) ↦
          let (q, here, _) = v.mapped id' j e in
          view-some loaded id' j (ground arith)
          ∙ ap cached_bytes (ground (arith, pages j, empty))
          ∙ sym (view-some bp id' j e)
    ]
  ]

  loaded-Fetched : Fetched bp id (ok p, loaded)
  loaded-Fetched =
      got p loaded i frame
        (record {
          mapped = loaded_mapped;
          cached = loaded_cached;
          sound = loaded-Sound;
          listed = loaded_listed;
        })
        (record {
          same = λ j _. loaded-view j;
          readable = λ _. refl;
          counted = λ c. (c, omega arith);
        })
        same (get_elem?-set_self bp.frames i frame (lt_of_get_elem? bp.frames i at)) refl
        (omega arith)

load_page-Fetched :
    (bp : BufferPool) (id i : ℕ) (f : Frame)
    → IsPlain id
    → IsValid bp
    → bp.page_map id ≡ none
    → get_elem? bp.frames i ≡ some f
    → f.page ≡ none
    → Fetched bp id (load_page bp id i)
unfolding load_page
load_page-Fetched bp id i f plain v new at free = elim (read_page-cases bp.disk id plain) [
  | inl e ↦
      rw (e, load_page)
        (failed bp v
          (record { same = λ _ _. refl; readable = λ _. refl; counted = λ c. (c, omega arith) }))
  | inr (p, e, same, s) ↦
      rw (e, load_page)
        (rw at (
          rw free
            (loaded-Fetched bp id v new i f at free p same s (unfold disk_bytes in rw e refl))))
]

pub SameView-trans : {a b c : BufferPool} → SameView a b → SameView b c → SameView a c
SameView-trans h k = record {
  same = λ id p. h.same id p ∙ k.same id p;
  readable = λ id. h.readable id ∙ k.readable id;
  counted = λ c. let (d, l) = k.counted c in let (d', l') = h.counted d in (d', omega arith);
}

pub SameView-refl : (a : BufferPool) → SameView a a
SameView-refl a = record {
  same = λ _ _. refl;
  readable = λ _. refl;
  counted = λ c. (c, omega arith);
}

-- a fetch from a pool that gives a client the same pages
Fetched-SameView :
    (a b : BufferPool) (id : ℕ) {r : Outcome Page × BufferPool}
    → SameView a b
    → Fetched a id r
    → Fetched b id r
Fetched-SameView a b id h (got p c i f v k same at has pinned) =
    got p c i f v (SameView-trans k h) same at has pinned
Fetched-SameView a b id h (busy c v k) = busy c v (SameView-trans k h)
Fetched-SameView a b id h (failed c v k) = failed c v (SameView-trans k h)

-- behind an eviction there is a free frame, and the page is still not in the map
load_evicted-Fetched :
    (bp : BufferPool) (id : ℕ) (r : Outcome (Unit {0}) × BufferPool)
    → IsPlain id
    → IsValid bp
    → bp.page_map id ≡ none
    → Evicted bp r
    → Fetched bp id (load_evicted r id)
unfolding load_evicted
load_evicted-Fetched bp id r plain v new (Evicted.freed bp1 k g v1 same at free absent) =
    elim (Option-cases (find_free bp1.frames 0)) [
      | inl e ↦ absurd (find_free-none bp1.frames 0 e k g at free)
      | inr (i, e) ↦
          let (j, is_j, f, here, empty) = find_free-some bp1.frames 0 i e in
          let is_i : j ≡ i = omega arith in
          rw (e, load_evicted)
            (Fetched-SameView bp1 bp id same
              (load_page-Fetched bp1 id i f plain v1 (absent id new) (rw is_i at here) empty))
    ]
load_evicted-Fetched bp id r plain v new Evicted.busy = busy bp v (SameView-refl bp)
load_evicted-Fetched bp id r plain v new Evicted.failed = failed bp v (SameView-refl bp)

-- A fetch of a page from a valid pool, with a page id from 1 whose offset does not wrap, returns
-- the page under its id and pinned in a frame, or the error that every page is pinned, or an I/O
-- error. In each case the pool stays valid, and every page that a client could fetch has the
-- bytes that it had before: an eviction loses no write. It never panics.
pub fetch_page-Fetched :
    (bp : BufferPool) (id : ℕ) → IsPlain id → IsValid bp → Fetched bp id (fetch_page bp id)
unfolding fetch_page
fetch_page-Fetched bp id plain v = elim (Option-cases (bp.page_map id)) [
  | inr (i, e) ↦ rw (e, fetch_page) (fetch_cached-Fetched bp id i v e)
  | inl new ↦ elim (Option-cases (find_free bp.frames 0)) [
    | inl e ↦
        rw (new, fetch_page)
          (rw e (load_evicted-Fetched bp id (evict_page bp) plain v new (evict_page-Evicted bp v)))
    | inr (i, e) ↦
        let (j, is_j, f, here, empty) = find_free-some bp.frames 0 i e in
        let is_i : j ≡ i = omega arith in
        rw (new, fetch_page)
          (rw e (load_page-Fetched bp id i f plain v new (rw is_i at here) empty))
  ]
]
