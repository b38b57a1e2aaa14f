-- ===== src/Tests/Pool.antt =====
-- The buffer pool at concrete inputs.
use agent_db.Prelude.{ℕ, ◌≡◌, ◌≢◌, some, refl, true, false, arith}
use agent_db.Outcome.{Outcome, ok}
use agent_db.Bytes.{zeros, get_uint, put_uint}
use agent_db.Storage.Page.{Page, new_page, read_header, write_header}
use agent_db.Storage.Disk.{DbFile, DiskManager, read_page, write_page}
use agent_db.Storage.Disk.ReadBack.{IsPlain, clip}
use agent_db.Storage.BufferPool.{
  BufferPool, new_buffer_pool, fetch_page, unpin_page, update_page, flush_all, evict_page,
  evict_loop, evict_frame, drop_page, load_page, load_evicted, fetch_cached, find_free,
}
use agent_db.Storage.BufferPool.Invariant.{IsValid, view, disk_bytes, new_buffer_pool-IsValid}
use agent_db.Storage.BufferPool.Fetch.{Fetched, got, busy, failed, fetch_page-Fetched}
use agent_db.Storage.BufferPool.Change.{update_page-view, unpin_page-IsValid}
use agent_db.Storage.BufferPool.Flush.{flush_all_durable}

abbrev file : DbFile
file = record { content = zeros; size = 0; read_fails = λ _. false; write_fails = λ _. false }

abbrev disk : DiskManager
disk = record { file = file; page_count = 1 }

abbrev pool : BufferPool
pool = new_buffer_pool 1 disk

pool-IsValid : IsValid pool
pool-IsValid = (new_buffer_pool-IsValid 1 disk).0

fetch_page-Fetched_example : Fetched pool 1 (fetch_page pool 1)
fetch_page-Fetched_example = fetch_page-Fetched pool 1 (omega arith) pool-IsValid

-- one frame: page 2 takes the place of page 1 once that is unpinned
second_page : (fetch_page (unpin_page (fetch_page pool 1).1 1 true) 2).0 ≡ ok (new_page 2)
unfolding fetch_page unpin_page new_buffer_pool read_page write_page new_page read_header
    write_header get_uint put_uint load_page load_evicted fetch_cached find_free evict_page
    evict_loop evict_frame drop_page
second_page = refl

flush_all_durable_example :
    (bp' : BufferPool) × (flush_all pool ≡ (ok tt, bp'))
    × ((id : ℕ) → IsPlain id → disk_bytes bp'.disk id ≡ view pool id)
flush_all_durable_example =
    flush_all_durable pool pool-IsValid (unfold new_buffer_pool in λ k. refl)

Fetched-IsValid :
    (bp : BufferPool) (id : ℕ) (r : Outcome Page × BufferPool) → Fetched bp id r → IsValid r.1
Fetched-IsValid bp id r (got p bp' i f v s e at has pinned) = v
Fetched-IsValid bp id r (busy bp' v s) = v
Fetched-IsValid bp id r (failed bp' v s) = v

-- the pool with page 1 in its frame
abbrev with_page : BufferPool
with_page = (fetch_page pool 1).1

with_page-IsValid : IsValid with_page
with_page-IsValid =
    Fetched-IsValid pool 1 (fetch_page pool 1)
      (fetch_page-Fetched pool 1 (omega arith) pool-IsValid)

page_one : with_page.page_map 1 ≡ some 0
unfolding fetch_page new_buffer_pool read_page new_page read_header write_header get_uint put_uint
    load_page load_evicted fetch_cached find_free
page_one = refl

abbrev other : Page
other = record (new_page 1) { dirty = true }

other_header : (read_header other).page_id ≡ 1
unfolding new_page read_header write_header get_uint put_uint
other_header = refl

other_id : other.id ≡ 1
unfolding new_page write_header
other_id = refl

update_page-view_example :
    IsValid (update_page with_page 1 other)
    × (view (update_page with_page 1 other) 1 ≡ ok (clip other.bytes))
    × ((j : ℕ) → j ≢ 1 → view (update_page with_page 1 other) j ≡ view with_page j)
update_page-view_example =
    update_page-view with_page with_page-IsValid 1 0 page_one other other_id other_header refl

unpin_page-IsValid_example :
    IsValid (unpin_page with_page 1 true)
    × ((j : ℕ) → view (unpin_page with_page 1 true) j ≡ view with_page j)
unpin_page-IsValid_example = unpin_page-IsValid with_page 1 true with_page-IsValid
