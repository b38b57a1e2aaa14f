-- ===== src/Index.antt =====
-- pkg/index: the nodes of a B+ tree, and the tree over a disk.
pub mod Node
pub mod Codec
pub mod BTree
pub mod Adapter
