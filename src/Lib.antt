-- ===== src/Lib.antt =====
-- WispDB, an embedded log-structured merge tree for time series: a model of its storage layers and
-- the theorems about them.
--
-- A write goes to the write-ahead log and to the memtable, which is a skiplist ordered by the key
-- (series id, timestamp). A full memtable is frozen and written to a sorted table on disk, whose
-- log segments are then reclaimed; tables are merged by the compactor. A read looks at the
-- memtables and then at the tables, the newest first, and a Bloom filter of a table says which
-- series it may hold.
--
-- Files and the code that they are about, by paths from the repository's root:
-- - Base and its children: lists, Boolean tests, little-endian integers, CRC-32, two's complement,
--   Go's results and sort.Slice.
-- - Key: the key and the comparator of skiplist/skiplist.go. Key.Order: its order laws.
-- - Rows: the abstract view that the layers share, a sequence of rows in strictly ascending order
--   of their keys with `find` and `upsert`.
-- - Skiplist: skiplist/skiplist.go. Nodes live at addresses of an explicit heap; `put` is Insert,
--   `insert` is the method of that name. Skiplist.Cells has the invariant IsSkiplist: every level is
--   a chain through the cells that are tall enough, the keys ascend, and no address is shared.
-- - MemTable: memtable/memtable.go.
-- - Wal.Payload, Wal.Segment, Wal.Log: wal/wal.go, from the bytes of a record over the bytes of a
--   segment to the directory of segments. Wal.Log.Laws has the invariant LogHolds.
-- - SsTable.Entry, SsTable.Block: sstable/sstable.go, sstable/block.go, and the readers of a block in
--   sstable/reader.go.
-- - SsTable.Bloom: sstable/bloom.go.
-- - SsTable.SstableList: sstable/sstable_list.go. A table is a pointer into the objects, so that the
--   list and its snapshots share them. SsTable.SstableList.Counts has the invariant IsCounted: the
--   reference count of each table is the number of references of the list and of those who hold it,
--   and its reader is open exactly while there is one.
-- - SsTable.Index: the index of a table in sstable/reader.go and sstable/writer.go, its encoding and
--   the search of findBlock, with sort.Search as its loop.
-- - SsTable.Writer: sstable/writer.go. SsTable.Writer.Layout has the invariant IsWriter: a header, the
--   blocks one behind the other, and an index of them. SsTable.Reader: sstable/reader.go, from the
--   footer to Get and readBlock. SsTable.Reader.Search, Open and Table: what it finds in a file that
--   the writer has closed.
-- - SsTable.Libraries: what is relied on of snappy and murmur3.
-- - SsTable.Iterator: sstable/iterator.go, over what readBlock gives for each entry of the index.
-- - Compactor: the merge of compactor/compact.go. An iterator stands as the entries that it has still
--   to yield, and the writer as the entries that are added to it.
-- - Engine: wisp.go, Insert, Delete, Get and Flush. Engine.Open: CreateWispWithConfig, Recover, Close
--   and the table list's Load. Engine.Compact: Compact with compactor/compact.go's CompactAll and
--   CompactRange, and Engine.Pending: a compaction in two steps, with other operations between.
--   Engine.Scan: Scan and its iterator. Engine.View says what an engine stands for, Engine.State has the
--   invariant IsWisp, and Engine.Flush, Prepare, Write, Settle, Open.Recover, Open.Crash,
--   Compact.Laws (with Compact.Merge and Finish) and Scan.Sources are about one operation each.
--   Engine.Actions and Engine.History put them together: the map from keys to values that a client sees.
-- - Tests: small inputs.
--
-- Numbers: an `uint64` or `uint32` is a natural number with its wrap-around written out, an `int64`
-- an integer in range, and an `int32` count wraps at its ends. Where a theorem needs that a value
-- fits it says so.
--
-- Fuel: a walk along a level of the skiplist has one round more than there are nodes, which is
-- enough since it never meets a node twice; the loop over a segment or a block has one round more
-- than there are bytes, each round taking at least one; the binary search has a round for each
-- entry; the merge and the scan have as many rounds as there are entries, of which each round takes
-- one; the loop that makes room in the memtable has three rounds, a flush, a freeze and a last test.
-- Go's panics (a nil dereference, an index or a slice out of range, a panic of snappy) are `none` or an
-- error of the model's own; none is met where a theorem says that an operation succeeds. The size of a
-- block is an `uint32` that wraps, and Encode slices its buffer by it, so that the writer may panic on
-- entries of GiB sizes or with a block size near 4 GiB. The theorems ask for a block size below 2 GiB
-- wherever a memtable is written to a table; entries that went through the log are small enough, and a
-- compaction has its own block size.
--
-- Not modelled: failures of system calls, file names and directories other than a log's segments,
-- locks and interleavings (an operation of the engine but a compaction runs by itself, and a method
-- of the layers below is one step; one compaction is on its way at a time), the difference between
-- a nil and an empty byte slice. A crash keeps what was written: the loss of what the system has
-- not synced is not modelled, nor a crash within the write of a table or within the removal of
-- segments. snappy and murmur3 are libraries: the codec is a parameter whose encoding panics on
-- what is too large and whose decoding inverts it, and the hash function is one, as are the float computations of a filter's sizes.
-- NewPath is not modelled.
pub mod Base
pub mod Key
pub mod Rows
pub mod Skiplist
pub mod MemTable
pub mod Wal
pub mod SsTable
pub mod Compactor
pub mod Engine
mod Tests
