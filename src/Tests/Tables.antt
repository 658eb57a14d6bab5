-- ===== src/Tests/Tables.antt =====
-- The files of sstable/ on small inputs.
use mathlib.Core.Path.{subst}
use mathlib.Core.Option.{none-ne-some, some-injective}
use wisp_db.Base.{
  ℕ, zero, suc, ◌*◌, ◌+◌, ◌^◌, ◌<◌, ◌≡◌, refl, true, false, some, List, [], ◌∷◌, ◌++◌, arith,
  get_elem?, All, replicate,
}
use wisp_db.Base.Int.{pos, negsuc}
use wisp_db.Base.Result.{ok, err}
use wisp_db.Key.{Key, key_lt}
use wisp_db.SsTable.Entry.{Entry, IsEntry, find_entry}
use wisp_db.SsTable.Reader.{block_error}
use wisp_db.SsTable.Block
use wisp_db.SsTable.Block.{empty_block, encode_entries, read_block, find_entry_in_block}
use wisp_db.SsTable.Block.Encode.{total_size}
use wisp_db.SsTable.Block.Laws.{
  add_each, read_block-encode, read_block-encode_entries, find_entry_in_block-read_block,
}
use wisp_db.SsTable.Bloom.{BloomFilter, new_bloom_filter, add_all, may_contain}
use wisp_db.SsTable.Bloom.Laws.{IsBloom, new_bloom_filter-IsBloom, add_all-may_contain}
use wisp_db.SsTable.Index.{IndexEntry, find_block}
use wisp_db.SsTable.Index.Laws.{IsAscendingIndex, last_not_above, find_block-last_not_above}
use wisp_db.SsTable.Iterator
use wisp_db.SsTable.Iterator.{new_iterator}
use wisp_db.SsTable.Iterator.Laws.{readable, iterate-readable}
use wisp_db.SsTable.SstableList
use wisp_db.SsTable.SstableList.{
  SstableFile, SstableList, get_tables, release_tables, replace_tables, close, new_sstable_file,
  is_old,
}
use wisp_db.SsTable.SstableList.Counts.{count, HasRefs, IsCounted}
use wisp_db.SsTable.SstableList.Laws.{get_tables-IsCounted, release_tables-IsCounted}
use wisp_db.SsTable.SstableList.Replace.{AreListed, Replaced, replace_tables-IsCounted}
use wisp_db.SsTable.SstableList.Order.{snapshot-IsOpen}

abbrev first_entry : Entry
first_entry = record { series_id = 1; timestamp = negsuc 2; deleted = false; value = 5 ∷ 6 ∷ [] }

abbrev second_entry : Entry
second_entry = record { series_id = 1; timestamp = pos 3; deleted = true; value = [] }

entries-IsEntry : All IsEntry (first_entry ∷ second_entry ∷ [])
entries-IsEntry = (
  (omega arith, (omega arith, omega arith), omega arith),
  ((omega arith, (omega arith, omega arith), omega arith), tt),
)

entries-total_size : total_size (first_entry ∷ second_entry ∷ []) < 2 ^ 32
unfolding total_size
entries-total_size = omega arith

-- In a buffer that is there already, and is larger than the block.
read_block-encode_example :
    (bytes : List ℕ) × (buf : List ℕ) × (Block.encode
        (replicate 60 7)
        (add_each empty_block (first_entry ∷ second_entry ∷ []))
      ≡ ok (bytes, buf))
    × (read_block bytes ≡ ok (first_entry ∷ second_entry ∷ []))
read_block-encode_example =
    read_block-encode (replicate 60 7) (first_entry ∷ second_entry ∷ []) entries-IsEntry
      entries-total_size

abbrev wanted : Key
wanted = record { series_id = 1; timestamp = pos 3 }

find_entry_in_block-read_block_example :
    find_entry_in_block wanted (encode_entries (first_entry ∷ second_entry ∷ []))
    ≡ ok (find_entry wanted (first_entry ∷ second_entry ∷ []))
find_entry_in_block-read_block_example =
    find_entry_in_block-read_block wanted (encode_entries (first_entry ∷ second_entry ∷ []))
      (first_entry ∷ second_entry ∷ [])
      (read_block-encode_entries (first_entry ∷ second_entry ∷ []) entries-IsEntry)

abbrev pair_hash : ℕ → ℕ × ℕ
pair_hash k = (k + 3, 5)

abbrev filter : BloomFilter
filter = record { bits = 0 ∷ 0 ∷ []; num_bits = 10; num_hashes = 3 }

add_all-may_contain_example :
    (b : BloomFilter) × (add_all pair_hash filter (4 ∷ 9 ∷ []) ≡ ok b)
    × IsBloom b
    × All (λ k. may_contain pair_hash b k ≡ ok true) (4 ∷ 9 ∷ [])
add_all-may_contain_example =
    add_all-may_contain pair_hash filter (4 ∷ 9 ∷ []) ((omega arith, omega arith), omega arith)

new_bloom_filter-IsBloom_example : IsBloom (new_bloom_filter (λ n. 10) (λ m n. 7) 100)
new_bloom_filter-IsBloom_example =
    new_bloom_filter-IsBloom (λ n. 10) (λ m n. 7) 100 (λ n. omega arith)

-- Two tables of the list, and one that the compaction has written.
abbrev compacting : SstableList.SstableList
compacting = record {
  files = new_sstable_file 10 1 ∷ new_sstable_file 11 2 ∷ new_sstable_file 12 3 ∷ [];
  disk = 10 ∷ 11 ∷ 12 ∷ [];
  tables = 1 ∷ 0 ∷ [];
  next_gen = 3;
}

compacting-IsCounted : IsCounted compacting (2 ∷ [])
unfolding count new_sstable_file
compacting-IsCounted zero f at =
    subst (λ g. HasRefs g 1) (some-injective (new_sstable_file 10 1) f at) (refl, refl)
compacting-IsCounted (suc zero) f at =
    subst (λ g. HasRefs g 1) (some-injective (new_sstable_file 11 2) f at) (refl, refl)
compacting-IsCounted (suc (suc zero)) f at =
    subst (λ g. HasRefs g 1) (some-injective (new_sstable_file 12 3) f at) (refl, refl)
compacting-IsCounted (suc (suc (suc p))) f at = absurd (none-ne-some f at)

compacting-AreListed : AreListed (1 ∷ 0 ∷ []) compacting
unfolding count new_sstable_file is_old
compacting-AreListed zero = refl
compacting-AreListed (suc zero) = refl
compacting-AreListed (suc (suc zero)) = refl
compacting-AreListed (suc (suc (suc p))) = ground arith

replace_tables-IsCounted_example :
    Replaced (1 ∷ 0 ∷ []) (some 2) [] compacting (replace_tables (1 ∷ 0 ∷ []) (some 2) compacting)
replace_tables-IsCounted_example =
    replace_tables-IsCounted (1 ∷ 0 ∷ []) (some 2) [] compacting compacting-AreListed
      compacting-IsCounted

get_tables-IsCounted_example :
    IsCounted (get_tables compacting).1 ((get_tables compacting).0 ++ 2 ∷ [])
get_tables-IsCounted_example =
    get_tables-IsCounted compacting (2 ∷ []) (omega arith) compacting-IsCounted

release_tables-IsCounted_example : IsCounted (release_tables (2 ∷ []) compacting) []
release_tables-IsCounted_example =
    release_tables-IsCounted (2 ∷ []) [] compacting compacting-IsCounted

snapshot-AreListed : AreListed (1 ∷ 0 ∷ []) (get_tables compacting).1
unfolding count new_sstable_file is_old get_tables SstableList.incr_ref SstableList.next_int32
snapshot-AreListed zero = refl
snapshot-AreListed (suc zero) = refl
snapshot-AreListed (suc (suc zero)) = refl
snapshot-AreListed (suc (suc (suc p))) = ground arith

-- A table of the snapshot after the replacement.
abbrev unlinked_table : SstableFile
unlinked_table = record {
  path = 10;
  gen = 1;
  reader = true;
  ref_count = pos 1;
  unlinked = true;
  closed = false;
}

unlinked_there :
    get_elem? (replace_tables (1 ∷ 0 ∷ []) (some 2) (get_tables compacting).1).1.files 0
    ≡ some unlinked_table
unfolding replace_tables get_tables is_old new_sstable_file SstableList.incr_ref
    SstableList.next_int32 SstableList.decr_ref SstableList.prev_int32
unlinked_there = refl

in_snapshot : 0 < count 0 (get_tables compacting).0
unfolding count get_tables new_sstable_file SstableList.incr_ref
in_snapshot = omega arith

snapshot-IsOpen_example : unlinked_table.reader ≡ true
snapshot-IsOpen_example =
    snapshot-IsOpen (1 ∷ 0 ∷ []) (some 2) [] compacting (omega arith) compacting-IsCounted
      snapshot-AreListed 0 unlinked_table in_snapshot unlinked_there

-- A block of the table cannot be read: what stands behind it is not seen.
iterate-readable_example :
    Iterator.iterate 5 (
      new_iterator (
        ok (first_entry ∷ [])
        ∷ ok []
        ∷ err (block_error Block.corrupt_entry)
        ∷ ok (second_entry ∷ [])
        ∷ []))
    ≡ first_entry ∷ []
unfolding readable
iterate-readable_example =
    iterate-readable 5
      (ok (first_entry ∷ [])
        ∷ ok []
        ∷ err (block_error Block.corrupt_entry)
        ∷ ok (second_entry ∷ [])
        ∷ [])
      (omega arith)

abbrev block_at : ℕ → IndexEntry
block_at t = record { series_id = 1; timestamp = pos t; offset = 12 + 100 * t; size = 100 }

abbrev three_blocks : List IndexEntry
three_blocks = block_at 0 ∷ block_at 2 ∷ block_at 9 ∷ []

three_blocks-IsAscending : IsAscendingIndex three_blocks
unfolding IsAscendingIndex key_lt
three_blocks-IsAscending = ((refl, (refl, tt)), ((refl, tt), (tt, tt)))

find_block-last_not_above_example :
    find_block wanted three_blocks ≡ last_not_above wanted three_blocks
find_block-last_not_above_example =
    find_block-last_not_above wanted three_blocks three_blocks-IsAscending
