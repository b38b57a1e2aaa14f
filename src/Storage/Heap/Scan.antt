-- ===== src/Storage/Heap/Scan.antt =====
-- ScanFull changes no page.
use agent_db.Prelude.{ℕ, zero, suc, ◌<◌, inl, inr, false, Bool-cases, List, [], ◌++◌, arith, ltb}
use agent_db.Outcome.{Outcome, ok, err, panic, deadlock}
use agent_db.Storage.Page.{Page}
use agent_db.Storage.Disk.ReadBack.{IsPlain, Counted}
use agent_db.Storage.BufferPool.{BufferPool, fetch_page, unpin_page}
use agent_db.Storage.BufferPool.Invariant.{IsValid, SameView}
use agent_db.Storage.BufferPool.Fetch.{
  Fetched, got, busy, failed, fetch_page-Fetched, SameView-trans, SameView-refl,
}
use agent_db.Storage.Value.{Floats}
use agent_db.Storage.Row.{TableSchema, Row}
use agent_db.Storage.Heap.{scan_found, scan_next, scan_page, scan_pages, scan_full}
use agent_db.Storage.Heap.Search.{unpin_page-SameView}

-- a pool behind a call that only reads
abbrev pub ReadOnly : BufferPool → BufferPool → Type 0
ReadOnly bp bp' = IsValid bp' × SameView bp' bp

pub ReadOnly-trans : (a b c : BufferPool) → SameView b a → ReadOnly b c → ReadOnly a c
ReadOnly-trans a b c s (v, t) = (v, SameView-trans t s)

module _ (K : Floats) where
  abbrev pub Next : Type 0
  Next = BufferPool → List (Row K) → Outcome (List (Row K)) × BufferPool

  scan_found-ReadOnly :
      (o : Outcome (List (Row K))) (a bp : BufferPool) (pid : ℕ) (next : Next) (rows : List (Row K))
      → ReadOnly a bp
      → ((b : BufferPool) (l : List (Row K)) → ReadOnly a b → ReadOnly a (next b l).1)
      → ReadOnly a (scan_found K o bp pid next rows).1
  unfolding scan_found
  scan_found-ReadOnly (ok found) a bp pid next rows r rest =
      rest (unpin_page bp pid false) (rows ++ found)
        (ReadOnly-trans a bp (unpin_page bp pid false) r.1 (unpin_page-SameView bp pid r.0))
  scan_found-ReadOnly (err e) a bp pid next rows r rest = r
  scan_found-ReadOnly panic a bp pid next rows r rest = r
  scan_found-ReadOnly deadlock a bp pid next rows r rest = r

  scan_next-ReadOnly :
      (f : Outcome Page × BufferPool) (a bp : BufferPool) (schema : TableSchema) (pid : ℕ)
      (next : Next) (rows : List (Row K))
      → SameView bp a
      → Fetched bp pid f
      → ((b : BufferPool) (l : List (Row K)) → ReadOnly a b → ReadOnly a (next b l).1)
      → ReadOnly a (scan_next K f schema pid next rows).1
  unfolding scan_next
  scan_next-ReadOnly f a bp schema pid next rows s (got p bp' i g v t own at has pinned) rest =
      scan_found-ReadOnly (scan_page K schema pid p) a bp' pid next rows (v, SameView-trans t s)
        rest
  scan_next-ReadOnly f a bp schema pid next rows s (busy bp' v t) rest =
      rest bp' rows (v, SameView-trans t s)
  scan_next-ReadOnly f a bp schema pid next rows s (failed bp' v t) rest =
      rest bp' rows (v, SameView-trans t s)

  scan_pages-ReadOnly :
      (fuel : ℕ) (schema : TableSchema) (a bp : BufferPool) (pid : ℕ) (rows : List (Row K))
      → Counted a.disk
      → ReadOnly a bp
      → 0 < pid
      → ReadOnly a (scan_pages K fuel schema bp pid rows).1
  unfolding scan_pages
  scan_pages-ReadOnly zero schema a bp pid rows c r l = r
  scan_pages-ReadOnly (suc fuel) schema a bp pid rows c r l =
      elim (Bool-cases (ltb pid bp.disk.page_count)) [
        | inr e ↦ rw (e, scan_pages) r
        | inl e ↦
            let plain : IsPlain pid = (l, ground (arith, (r.1.counted c).0.1)) in
            rw (e, scan_pages)
              (scan_next-ReadOnly (fetch_page bp pid) a bp schema pid
                (λ b found. scan_pages K fuel schema b (suc pid) found) rows r.1
                (fetch_page-Fetched bp pid plain r.0)
                (λ b found s.
                  scan_pages-ReadOnly fuel schema a b (suc pid) found c s (omega arith)))
      ]

  -- A scan leaves every page as it is for a client of the pool.
  pub scan_full-ReadOnly :
      (fuel : ℕ) (schema : TableSchema) (bp : BufferPool)
      → IsValid bp
      → Counted bp.disk
      → ReadOnly bp
          (scan_full K fuel (record { schema = schema; pool = bp; locked = false })).1.pool
  unfolding scan_full
  scan_full-ReadOnly fuel schema bp v c =
      scan_pages-ReadOnly fuel schema bp bp 1 [] c (v, SameView-refl bp) (omega arith)
