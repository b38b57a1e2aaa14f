-- ===== src/Storage/Heap.antt =====
-- pkg/storage/heap.go: a table as the pages that carry its number. The heap file's disk manager is
-- the one of its buffer pool. `locked` says that the mutex of the file is held by the running call;
-- to take it once more waits for ever. Loops over the pages run on fuel and give `deadlock` without.
-- A rune of a table's name is taken as its byte.
pub mod View
pub mod Search
pub mod Written
pub mod Write
pub mod Insert
pub mod Start
pub mod Lookup
pub mod Remove
pub mod Scan
pub mod Update
use agent_db.Prelude.{
  ℕ, zero, suc, ◌+◌, ◌*◌, ◌^◌, ◌%◌, Bool, true, false, ◌&&◌, ◌||◌, Option, none, some, List, [],
  ◌∷◌, ◌++◌, length, ltb, ◌==◌, if◌then◌else◌,
}
use agent_db.Outcome.{Outcome, ok, err, panic, deadlock}
use agent_db.Sql.Text.{Bytes}
use agent_db.Storage.Page.{Page, read_header, write_header, can_fit, u16}
use agent_db.Storage.Page
use agent_db.Storage.Disk.{allocate_page}
use agent_db.Storage.BufferPool.{BufferPool, fetch_page, unpin_page, update_page}
use agent_db.Storage.Value.{Floats}
use agent_db.Storage.Row.{TableSchema, Rid, Row, Cell, serialize_row, deserialize_row}

pub record HeapFile : Type 0 where
  pub schema : TableSchema
  pub pool : BufferPool
  pub locked : Bool

-- hashString, from the number so far
unfoldable pub hash_string : ℕ → Bytes → ℕ
hash_string h [] = h
hash_string h (c ∷ s) = hash_string ((h * 31 + c) % 2 ^ 32) s

abbrev pub table_id : TableSchema → ℕ
table_id schema = hash_string 0 schema.name

-- a page of the table, or one that no table has, with room
unfoldable pub suits : ℕ → ℕ → Page → Bool
suits table size p =
    let header = read_header p in
    (header.table_id == table || (header.table_id == 0 && header.row_count == 0)) && can_fit p size

-- the body of the search of InsertRow: a page that suits stays pinned; else `next` goes on
unfoldable pub search_page :
    Outcome Page × BufferPool
    → ℕ
    → ℕ
    → ℕ
    → (BufferPool → Outcome (Option (ℕ × Page)) × BufferPool)
    → Outcome (Option (ℕ × Page)) × BufferPool
search_page (ok p, bp) table size pid next =
    if suits table size p then (ok (some (pid, p)), bp) else next (unpin_page bp pid false)
search_page (err e, bp) table size pid next = next bp
search_page (panic, bp) table size pid next = (panic, bp)
search_page (deadlock, bp) table size pid next = (deadlock, bp)

-- the search from the page `pid`
unfoldable pub find_page : ℕ → BufferPool → ℕ → ℕ → ℕ → Outcome (Option (ℕ × Page)) × BufferPool
find_page zero bp table size pid = (deadlock, bp)
find_page (suc fuel) bp table size pid = elim (ltb pid bp.disk.page_count) [
  | false ↦ (ok none, bp)
  | true ↦
      search_page (fetch_page bp pid) table size pid (λ b. find_page fuel b table size (suc pid))
]

-- header.TableID = h.TableID() and writeHeader
unfoldable pub set_table : Page → ℕ → Page
set_table p table = write_header p (record (read_header p) { table_id = table })

-- the end of InsertRow: the row goes to the pinned page
unfoldable pub put_data : BufferPool → ℕ → ℕ → Page → List ℕ → Outcome Rid × BufferPool
put_data bp table pid p bs =
    let p1 = set_table p table in
    let bp1 = update_page bp pid p1 in
    elim (Page.insert_row p1 bs) [
      | ok (slot_id, p2) ↦ (
        ok (record { page_id = pid; slot_id = slot_id }),
        unpin_page (update_page bp1 pid p2) pid true,
      )
      | err e ↦ (err e, unpin_page bp1 pid false)
      | panic ↦ (panic, bp1)
      | deadlock ↦ (deadlock, bp1)
    ]

-- a new page of the table, once it is fetched
unfoldable pub put_new : Outcome Page × BufferPool → ℕ → ℕ → List ℕ → Outcome Rid × BufferPool
put_new (r, bp) table pid bs = elim r [
  | ok p ↦ let p' = set_table p table in put_data (update_page bp pid p') table pid p' bs
  | err e ↦ (err e, bp)
  | panic ↦ (panic, bp)
  | deadlock ↦ (deadlock, bp)
]

-- InsertRow behind its search
unfoldable pub put_found :
    Outcome (Option (ℕ × Page)) × BufferPool → ℕ → List ℕ → Outcome Rid × BufferPool
put_found (r, bp) table bs = elim r [
  | ok none ↦
      let pid = (allocate_page bp.disk).0 in
      put_new (fetch_page (record bp { disk = (allocate_page bp.disk).1 }) pid) table pid bs
  | ok (some (pid, p)) ↦ put_data bp table pid p bs
  | err e ↦ (err e, bp)
  | panic ↦ (panic, bp)
  | deadlock ↦ (deadlock, bp)
]

-- InsertRow behind the serialisation
unfoldable pub insert_bytes : ℕ → BufferPool → ℕ → List ℕ → Outcome Rid × BufferPool
insert_bytes fuel bp table bs = put_found (find_page fuel bp table (u16 (length bs)) 1) table bs

abbrev pub with_pool {ℓ} : {A : Type ℓ} → HeapFile → Outcome A × BufferPool → Outcome A × HeapFile
with_pool h (r, bp) = (r, record h { pool = bp })

-- defer UnpinPage of a page that was fetched
abbrev pub unpinned {ℓ} : {A : Type ℓ} → Outcome A × BufferPool → ℕ → Bool → Outcome A × BufferPool
unpinned (r, bp) pid dirty = (r, unpin_page bp pid dirty)

-- DeleteRow on the pinned page
unfoldable pub clear_row : BufferPool → ℕ → Page → ℕ → Outcome (Unit {0}) × BufferPool
clear_row bp pid p slot_id = elim (Page.delete_row p slot_id) [
  | ok p' ↦ (ok tt, update_page bp pid p')
  | err e ↦ (err e, bp)
  | panic ↦ (panic, bp)
  | deadlock ↦ (deadlock, bp)
]

unfoldable pub delete_fetched : Outcome Page × BufferPool → Rid → Outcome (Unit {0}) × BufferPool
delete_fetched (r, bp) rid = elim r [
  | ok p ↦ unpinned (clear_row bp rid.page_id p rid.slot_id) rid.page_id true
  | err e ↦ (err e, bp)
  | panic ↦ (panic, bp)
  | deadlock ↦ (deadlock, bp)
]

unfoldable pub delete_row : HeapFile → Rid → Outcome (Unit {0}) × HeapFile
delete_row h rid =
    if h.locked
    then (deadlock, h)
    else with_pool h (delete_fetched (fetch_page h.pool rid.page_id) rid)

-- InsertRow of a row that was serialised
unfoldable pub inserted_into : ℕ → HeapFile → Outcome Bytes → Outcome Rid × HeapFile
inserted_into fuel h (ok bs) = with_pool h (insert_bytes fuel h.pool (table_id h.schema) bs)
inserted_into fuel h (err e) = (err e, h)
inserted_into fuel h panic = (panic, h)
inserted_into fuel h deadlock = (deadlock, h)

module _ (K : Floats) where
  unfoldable pub insert_row : ℕ → HeapFile → List (Cell K) → Outcome Rid × HeapFile
  insert_row fuel h values =
      if h.locked then (deadlock, h) else inserted_into fuel h (serialize_row K values h.schema)

  -- the row of a slot on a page that was fetched
  unfoldable pub read_row : TableSchema → Page → ℕ → Outcome (List (Cell K))
  read_row schema p slot_id = elim (Page.get_row p slot_id) [
    | ok bs ↦ deserialize_row K bs schema
    | err e ↦ err e
    | panic ↦ panic
    | deadlock ↦ deadlock
  ]

  unfoldable pub get_fetched :
      Outcome Page × BufferPool → TableSchema → Rid → Outcome (List (Cell K)) × BufferPool
  get_fetched (r, bp) schema rid = elim r [
    | ok p ↦ (read_row schema p rid.slot_id, unpin_page bp rid.page_id false)
    | err e ↦ (err e, bp)
    | panic ↦ (panic, bp)
    | deadlock ↦ (deadlock, bp)
  ]

  unfoldable pub get_row : HeapFile → Rid → Outcome (List (Cell K)) × HeapFile
  get_row h rid =
      if h.locked
      then (deadlock, h)
      else with_pool h (get_fetched (fetch_page h.pool rid.page_id) h.schema rid)

  -- the inner loop of ScanFull: n slots from `slot_id` on, without those that give an error
  unfoldable pub scan_slots : TableSchema → ℕ → Page → ℕ → ℕ → Outcome (List (Row K))
  scan_slots schema pid p zero slot_id = ok []
  scan_slots schema pid p (suc n) slot_id =
      let rest = scan_slots schema pid p n (suc slot_id) in
      elim (read_row schema p slot_id) [
        | ok values ↦ elim rest [
          | ok rows ↦
              ok (
                record { rid = record { page_id = pid; slot_id = slot_id }; values = values }
                ∷ rows)
          | err e ↦ err e
          | panic ↦ panic
          | deadlock ↦ deadlock
        ]
        | err e ↦ rest
        | panic ↦ panic
        | deadlock ↦ deadlock
      ]

  -- the rows of a page that was fetched, none if it is of another table
  unfoldable pub scan_page : TableSchema → ℕ → Page → Outcome (List (Row K))
  scan_page schema pid p =
      let header = read_header p in
      if header.table_id == table_id schema
      then scan_slots schema pid p header.row_count 0
      else ok []

  -- the end of the body of the outer loop, behind the rows of the page
  unfoldable pub scan_found :
      Outcome (List (Row K))
      → BufferPool
      → ℕ
      → (BufferPool → List (Row K) → Outcome (List (Row K)) × BufferPool)
      → List (Row K)
      → Outcome (List (Row K)) × BufferPool
  scan_found (ok found) bp pid next rows = next (unpin_page bp pid false) (rows ++ found)
  scan_found (err e) bp pid next rows = (err e, bp)
  scan_found panic bp pid next rows = (panic, bp)
  scan_found deadlock bp pid next rows = (deadlock, bp)

  -- the body of the outer loop of ScanFull
  unfoldable pub scan_next :
      Outcome Page × BufferPool
      → TableSchema
      → ℕ
      → (BufferPool → List (Row K) → Outcome (List (Row K)) × BufferPool)
      → List (Row K)
      → Outcome (List (Row K)) × BufferPool
  scan_next (ok p, bp) schema pid next rows = scan_found (scan_page schema pid p) bp pid next rows
  scan_next (err e, bp) schema pid next rows = next bp rows
  scan_next (panic, bp) schema pid next rows = (panic, bp)
  scan_next (deadlock, bp) schema pid next rows = (deadlock, bp)

  -- the loop from the page `pid`, behind `rows`
  unfoldable pub scan_pages :
      ℕ → TableSchema → BufferPool → ℕ → List (Row K) → Outcome (List (Row K)) × BufferPool
  scan_pages zero schema bp pid rows = (deadlock, bp)
  scan_pages (suc fuel) schema bp pid rows = elim (ltb pid bp.disk.page_count) [
    | false ↦ (ok rows, bp)
    | true ↦
        scan_next (fetch_page bp pid) schema pid
          (λ b found. scan_pages fuel schema b (suc pid) found) rows
  ]

  unfoldable pub scan_full : ℕ → HeapFile → Outcome (List (Row K)) × HeapFile
  scan_full fuel h =
      if h.locked then (deadlock, h) else with_pool h (scan_pages fuel h.schema h.pool 1 [])

  -- the return of InsertRow inside UpdateRow
  abbrev pub inserted_again : Outcome Rid × HeapFile → Outcome (Unit {0}) × BufferPool
  inserted_again (ok rid, h) = (ok tt, h.pool)
  inserted_again (err e, h) = (err e, h.pool)
  inserted_again (panic, h) = (panic, h.pool)
  inserted_again (deadlock, h) = (deadlock, h.pool)

  -- UpdateRow behind the serialisation: the pinned page without the old row takes the new one, or
  -- InsertRow is called, with the mutex held
  unfoldable pub replace_row :
      ℕ → HeapFile → ℕ → Page → List ℕ → List (Cell K) → Outcome (Unit {0}) × BufferPool
  replace_row fuel h pid p bs values = elim (Page.insert_row p bs) [
    | ok (slot_id, p') ↦ (ok tt, update_page h.pool pid p')
    | err e ↦ inserted_again (insert_row fuel h values)
    | panic ↦ (panic, h.pool)
    | deadlock ↦ (deadlock, h.pool)
  ]

  -- UpdateRow behind the fetch, up to its deferred calls
  unfoldable pub update_fetched :
      ℕ → HeapFile → Rid → Page → List (Cell K) → Outcome (Unit {0}) × BufferPool
  update_fetched fuel h rid p values = elim (Page.delete_row p rid.slot_id) [
    | ok p' ↦
        let h' = record h { pool = update_page h.pool rid.page_id p' } in
        elim (serialize_row K values h.schema) [
          | ok bs ↦ replace_row fuel h' rid.page_id p' bs values
          | err e ↦ (err e, h'.pool)
          | panic ↦ (panic, h'.pool)
          | deadlock ↦ (deadlock, h'.pool)
        ]
    | err e ↦ (err e, h.pool)
    | panic ↦ (panic, h.pool)
    | deadlock ↦ (deadlock, h.pool)
  ]

  -- a call that waits for ever does not reach its deferred calls
  unfoldable pub update_end :
      Outcome (Unit {0}) × BufferPool → ℕ → HeapFile → Outcome (Unit {0}) × HeapFile
  update_end (deadlock, bp) pid h = (deadlock, record h { pool = bp; locked = true })
  update_end (r, bp) pid h = (r, record h { pool = unpin_page bp pid true })

  unfoldable pub update_locked :
      ℕ → HeapFile → Outcome Page × BufferPool → Rid → List (Cell K) → Outcome (Unit {0}) × HeapFile
  update_locked fuel h (r, bp) rid values = elim r [
    | ok p ↦
        update_end (update_fetched fuel (record h { pool = bp; locked = true }) rid p values)
          rid.page_id h
    | err e ↦ (err e, record h { pool = bp })
    | panic ↦ (panic, record h { pool = bp })
    | deadlock ↦ (deadlock, record h { pool = bp })
  ]

  unfoldable pub update_row : ℕ → HeapFile → Rid → List (Cell K) → Outcome (Unit {0}) × HeapFile
  update_row fuel h rid values =
      if h.locked
      then (deadlock, h)
      else update_locked fuel h (fetch_page h.pool rid.page_id) rid values
