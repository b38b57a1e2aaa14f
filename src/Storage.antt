-- ===== src/Storage.antt =====
-- pkg/storage: pages, the file of pages, the buffer pool, rows and heap files.
pub mod Page
pub mod Disk
pub mod BufferPool
pub mod Heap
pub mod Value
pub mod Row
