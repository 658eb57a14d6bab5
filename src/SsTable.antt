-- ===== src/SsTable.antt =====
-- sstable/: the on-disk sorted tables.
pub mod Libraries
pub mod Entry
pub mod Sorted
pub mod Block
pub mod Bloom
pub mod SstableList
pub mod Iterator
pub mod Index
pub mod Writer
pub mod Reader
