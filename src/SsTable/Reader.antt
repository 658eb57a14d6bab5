-- ===== src/SsTable/Reader.antt =====
-- sstable/reader.go: opening a table's file, and looking a key up. `decompress` is snappy.Decode,
-- `none` its error. A file is its bytes; the sizes that a footer gives are not bounded by memory.
pub mod Search
pub mod Open
pub mod Table
use wisp_db.Base.{
  ℕ, ◌+◌, ◌-◌, ◌%◌, ◌^◌, Bool, true, false, not, Option, none, some, List, [], ◌∷◌, ltb, leb, ◌==◌,
  if◌then◌else◌, length, take, drop, slice, get_or,
}
use wisp_db.Base.Bytes.{get_le, crc32}
use wisp_db.Base.Result.{Panic, Result, ok, err, ◌>>=◌, map_err}
use wisp_db.Key.{Key}
use wisp_db.SsTable.Entry.{Entry}
use wisp_db.SsTable.Block.{BlockError, find_entry_in_block}
use wisp_db.SsTable.Block
use wisp_db.SsTable.Bloom.{BloomFilter, decode_bloom_filter, may_contain}
use wisp_db.SsTable.Index.{IndexEntry, find_block, read_index}
use wisp_db.SsTable.Writer.{magic, version, footer_size}

pub data ReadError : Type 0 where
  too_small invalid_magic unsupported_version read_failed : ReadError
  corrupt_index corrupt_bloom checksum_mismatch snappy_failed : ReadError
  block_error : BlockError → ReadError
  panic : Panic → ReadError

-- `file` is what the open file holds.
pub record Reader : Type 0 where
  pub file : List ℕ
  pub index : List IndexEntry
  pub entry_count : ℕ
  pub bloom_filter : Option BloomFilter

-- ReadAt fills the whole buffer or gives an error; an `int64` offset may be negative.
unfoldable pub read_at : List ℕ → ℕ → ℕ → Result ReadError (List ℕ)
read_at file offset size =
    if leb (2 ^ 63) offset
    then err read_failed
    else if size == 0
    then ok []
    else if ltb (length file) (offset + size)
    then err read_failed
    else ok (slice offset (offset + size) file)

-- What verifyChecksum reads: the bytes of the section, as far as the file has them.
unfoldable pub section : List ℕ → ℕ → List ℕ
section file size = if leb (2 ^ 63) size then [] else take size file

-- readIndex and readBloomFilter.
unfoldable pub load_index : List ℕ → ℕ → ℕ → Result ReadError (List IndexEntry)
load_index file offset size =
    if not (size % 28 == 0)
    then err corrupt_index
    else read_at file offset size >>= λ bytes. map_err (λ e. corrupt_index) (read_index bytes)

unfoldable pub load_bloom_filter : List ℕ → ℕ → ℕ → Result ReadError (Option BloomFilter)
load_bloom_filter file offset size =
    if size == 0
    then ok none
    else read_at file offset size >>= λ bytes.
        map_err (λ e. corrupt_bloom) (decode_bloom_filter bytes) >>= λ b. ok (some b)

-- readFooter, for the 52 bytes of the footer.
read_footer : List ℕ → List ℕ → Result ReadError Reader
read_footer file bytes =
    let index_offset = get_le (slice 8 16 bytes) in
    let index_size = get_le (slice 16 24 bytes) in
    let bloom_offset = get_le (slice 24 32 bytes) in
    let bloom_size = get_le (slice 32 40 bytes) in
    let entry_count = get_le (slice 40 48 bytes) in
    let checksum = get_le (slice 48 52 bytes) in
    let checksum_size =
      if ltb 0 bloom_size
      then (bloom_offset + bloom_size) % 2 ^ 64
      else (index_offset + index_size) % 2 ^ 64 in
    let loaded = load_index file index_offset index_size >>= λ index.
    load_bloom_filter file bloom_offset bloom_size >>= λ bloom.
    if crc32 (section file checksum_size) == checksum
    then ok (record { file = file; index = index; entry_count = entry_count; bloom_filter = bloom })
    else err checksum_mismatch in
    if not (get_le (slice 0 4 bytes) == magic)
    then err invalid_magic
    else if not (get_or bytes 4 0 == version)
    then err unsupported_version
    else loaded

-- OpenReader.
pub open_reader : List ℕ → Result ReadError Reader
unfolding read_footer
open_reader file =
    if ltb (length file) footer_size
    then err too_small
    else read_footer file (slice (length file - footer_size) (length file) file)

-- What Get returns, as the values that it gives to `value`, `found` and `deleted`.
pub data Answer : Type 0 where
  missing deleted : Answer
  present : List ℕ → Answer

unfoldable pub answer : Option (List ℕ × Bool) → Answer
answer none = missing
answer (some (value, true)) = deleted
answer (some (value, false)) = present value

of_snappy : Option (List ℕ) → Result ReadError (List ℕ)
of_snappy none = err snappy_failed
of_snappy (some bytes) = ok bytes

module _ (decompress : List ℕ → Option (List ℕ)) where
  -- The bytes that readBlock and findEntryInBlock work on.
  unfoldable pub block_data : List ℕ → IndexEntry → Result ReadError (List ℕ)
  unfolding of_snappy
  block_data file e = read_at file e.offset e.size >>= λ bytes. of_snappy (decompress bytes)

  unfoldable pub read_block : Reader → IndexEntry → Result ReadError (List Entry)
  read_block r e = block_data r.file e >>= λ bytes. map_err block_error (Block.read_block bytes)

  -- The block that findBlock gives, searched.
  unfoldable pub search_block :
      List ℕ → Key → Option IndexEntry → Result ReadError (Option (List ℕ × Bool))
  search_block file k none = ok none
  search_block file k (some e) =
      block_data file e >>= λ bytes. map_err block_error (find_entry_in_block k bytes)

  module _ (hashfunc : ℕ → ℕ × ℕ) where
    -- MayContain: without a filter every series could be there.
    filter_allows : Option BloomFilter → ℕ → Result ReadError Bool
    filter_allows none series_id = ok true
    filter_allows (some b) series_id = map_err panic (may_contain hashfunc b series_id)

    unfoldable pub reader_may_contain : Reader → ℕ → Result ReadError Bool
    unfolding filter_allows
    reader_may_contain r series_id = filter_allows r.bloom_filter series_id

    unfoldable pub get : Reader → Key → Result ReadError Answer
    get r k =
        let found = search_block r.file k (find_block k r.index) >>= λ o. ok (answer o) in
        reader_may_contain r k.series_id >>= λ allowed. if allowed then found else ok missing
