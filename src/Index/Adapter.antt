-- ===== src/Index/Adapter.antt =====
-- A node of the index written and read through `IndexDiskAdapter`.
use agent_db.Prelude.{◌*◌, ◌≡◌, ◌≢◌, refl, sym, ◌∙◌, false, true}
use agent_db.Outcome.{ok}
use agent_db.Bytes.{Buf}
use agent_db.Storage.Page.{Page, read_header, new_page}
use agent_db.Storage.Disk.{DiskManager, adapter_read, adapter_write}
use agent_db.Storage.Disk.ReadBack.{IsPlain, Writable, write_page-Writable, read-write_page_foreign}
use agent_db.Index.Node.{Node}
use agent_db.Index.BTree.{NodeDisk}
use agent_db.Index.Codec.{serialize}
use agent_db.Index.Codec.RoundTrip.{Storable, prefix, serialize-prefix}
use agent_db.Storage.Disk.{allocate_page}

-- IndexDiskAdapter implements the interface of the index
pub index_disk : NodeDisk
index_disk = record {
  State = DiskManager;
  allocate_page = allocate_page;
  read_page = adapter_read;
  write_page = adapter_write;
}

-- ReadPage of the disk manager takes the first eight bytes for the page's id. So a node that is
-- saved through the adapter is read back as an empty page, unless its first eight bytes (its type,
-- its number of keys and the low bytes of its next link) happen to be its own page id.
pub adapter_loses_node :
    (dm : DiskManager) (n : Node)
    → Storable n
    → IsPlain n.page_id
    → Writable dm
    → dm.file.read_fails (n.page_id * 4096) ≡ false
    → prefix n ≢ n.page_id
    → (d : Buf) × (dm' : DiskManager) × (serialize n ≡ ok d)
      × (adapter_write dm n.page_id d ≡ ok dm')
      × (adapter_read dm' n.page_id ≡ ok (new_page n.page_id).bytes)
unfolding adapter_write adapter_read
adapter_loses_node dm n s plain writable sound foreign =
    let (d, run, head) = serialize-prefix n s in
    let p : Page = record { bytes = d; id = n.page_id; dirty = true } in
    let (dm', p', wrote, _) = write_page-Writable dm p plain writable in
    let other : (read_header p).page_id ≢ n.page_id =
      λ e. foreign (sym head ∙ (unfold read_header in e)) in
    (
      d,
      dm',
      run,
      rw wrote refl,
      rw (read-write_page_foreign dm dm' p p' plain other sound wrote) refl,
    )
