-- ===== src/SsTable/Index.antt =====
-- sstable/reader.go and sstable/writer.go: the index of a table, with its search for the block that
-- can hold a key, and its encoding.
pub mod Laws
pub mod RoundTrip
use wisp_db.Base.{
  ℕ, zero, suc, ◌+◌, ◌-◌, ◌/◌, Bool, true, false, Option, none, some, List, [], ◌∷◌, ltb, ◌==◌,
  if◌then◌else◌, length, get_elem?, ◌%◌, ◌++◌, drop, slice,
}
use wisp_db.Base.Int.{ℤ, pos, ltb_ℤ, to_uint64, to_int64}
use wisp_db.Base.Bytes.{put_le, get_le}
use wisp_db.Base.Result.{Result, ok, err}
use wisp_db.Key.{Key}
use wisp_db.SsTable.Entry.{Entry, compare_entries}

pub record IndexEntry : Type 0 where
  pub series_id : ℕ
  pub timestamp : ℤ
  pub offset : ℕ
  pub size : ℕ

-- The entry of a key alone.
abbrev pub bare_entry : ℕ → ℤ → Entry
bare_entry series_id timestamp = record {
  series_id = series_id;
  timestamp = timestamp;
  deleted = false;
  value = [];
}

-- sort.Search: `for i < j { h := (i+j)/2; if !f(h) { i = h+1 } else { j = h } }; return i`.
pub search : ℕ → (ℕ → Bool) → ℕ → ℕ → ℕ
search zero f i j = i
search (suc fuel) f i j =
    let h = (i + j) / 2 in
    let right = search fuel f (h + 1) j in
    let left = search fuel f i h in if ltb i j then (if f h then left else right) else i

-- The test of the search: the entry is strictly greater than the target.
pub is_greater : Key → Option IndexEntry → Bool
is_greater k none = false
is_greater k (some e) =
    ltb_ℤ (pos 0)
      (compare_entries (bare_entry e.series_id e.timestamp) (bare_entry k.series_id k.timestamp))

at_previous : ℕ → List IndexEntry → Option IndexEntry
at_previous zero index = none
at_previous (suc i) index = get_elem? index i

-- findBlock.
pub find_block : Key → List IndexEntry → Option IndexEntry
unfolding at_previous
find_block k index =
    if length index == 0
    then none
    else at_previous
        (search (length index) (λ i. is_greater k (get_elem? index i)) 0 (length index)) index

pub data IndexError : Type 0 where
  corrupt_index_size : IndexError

-- writeIndex: 28 bytes for each entry.
unfoldable pub encode_index_entry : IndexEntry → List ℕ
encode_index_entry e =
    put_le 8 e.series_id
    ++ (put_le 8 (to_uint64 e.timestamp) ++ (put_le 8 e.offset ++ put_le 4 e.size))

unfoldable pub encode_index : List IndexEntry → List ℕ
encode_index [] = []
encode_index (e ∷ es) = encode_index_entry e ++ encode_index es

-- readIndex.
unfoldable pub index_entry_at : List ℕ → IndexEntry
index_entry_at bytes = record {
  series_id = get_le (slice 0 8 bytes);
  timestamp = to_int64 (get_le (slice 8 16 bytes));
  offset = get_le (slice 16 24 bytes);
  size = get_le (slice 24 28 bytes);
}

read_entries : ℕ → List ℕ → List IndexEntry
read_entries zero bytes = []
read_entries (suc count) bytes =
    let rest = read_entries count (drop 28 bytes) in index_entry_at bytes ∷ rest

pub read_index : List ℕ → Result IndexError (List IndexEntry)
unfolding read_entries
read_index bytes =
    if length bytes % 28 == 0
    then ok (read_entries (length bytes / 28) bytes)
    else err corrupt_index_size
