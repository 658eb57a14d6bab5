-- ===== src/SsTable/Writer.antt =====
-- sstable/writer.go. What NewWriter's MultiWriter sends to the file and to the checksum is `out`;
-- the footer goes to the file only. `compress` is snappy.Encode, with `none` where it panics. Failures
-- of the system's writes are left out.
pub mod Layout
use wisp_db.Base.{
  ℕ, Option, ◌+◌, ◌%◌, ◌^◌, Bool, true, false, not, ◌&&◌, List, [], ◌∷◌, ◌++◌, ltb, ◌==◌,
  if◌then◌else◌, length,
}
use wisp_db.Base.Int.{ℤ}
use wisp_db.Base.Bytes.{put_le, crc32}
use wisp_db.Base.Result.{Panic, Result, ok, err, ◌>>=◌}
use wisp_db.SsTable.Entry.{Entry}
use wisp_db.SsTable.Block
use wisp_db.SsTable.Block.{empty_block, entry_encoded_size, encode_with_compression}
use wisp_db.SsTable.Bloom
use wisp_db.SsTable.Bloom.{BloomFilter, new_bloom_filter, add_all}
use wisp_db.SsTable.Index.{IndexEntry, encode_index}

abbrev pub magic : ℕ
magic = 0x57495350

abbrev pub version : ℕ
version = 1

abbrev pub footer_size : ℕ
footer_size = 52

pub record Writer : Type 0 where
  pub out : List ℕ
  pub block_size : ℕ
  pub current_block : Block.Block
  pub block_buf : List ℕ
  pub index : List IndexEntry
  pub entry_count : ℕ
  pub offset : ℕ
  pub bloom_keys : List ℕ

-- writeHeader: twelve bytes, of which the last three are reserved.
unfoldable pub header : ℕ → List ℕ
header block_size = put_le 4 magic ++ (version ∷ (put_le 4 block_size ++ 0 ∷ 0 ∷ 0 ∷ []))

-- A write of bytes, which moves the offset.
unfoldable pub write_bytes : List ℕ → Writer → Writer
write_bytes bytes w = record w { out = w.out ++ bytes; offset = (w.offset + length bytes) % 2 ^ 64 }

-- NewWriter.
unfoldable pub new_writer : ℕ → Writer
new_writer block_size = write_bytes (header block_size) (record {
  out = [];
  block_size = block_size;
  current_block = empty_block;
  block_buf = [];
  index = [];
  entry_count = 0;
  offset = 0;
  bloom_keys = [];
})

-- writeFooter.
unfoldable pub footer : ℕ → ℕ → ℕ → ℕ → ℕ → ℕ → List ℕ
footer index_offset index_size bloom_offset bloom_size entry_count checksum =
    put_le 4 magic
    ++ (version
        ∷ 0
        ∷ 0
        ∷ 0
        ∷ (put_le 8 index_offset
            ++ (put_le 8 index_size
                ++ (put_le 8 bloom_offset
                    ++ (put_le 8 bloom_size ++ (put_le 8 entry_count ++ put_le 4 checksum))))))

is_empty : List Entry → Bool
is_empty [] = true
is_empty (e ∷ es) = false

-- The test and the write of Add.
overflows : Entry → Writer → Bool
unfolding is_empty
overflows e w =
    not (is_empty w.current_block.entries)
    && ltb w.block_size ((w.current_block.size + entry_encoded_size e) % 2 ^ 32)

append_entry : Entry → Writer → Writer
append_entry e w = record w {
  current_block = Block.add w.current_block e;
  entry_count = (w.entry_count + 1) % 2 ^ 64;
  bloom_keys = w.bloom_keys ++ e.series_id ∷ [];
}

-- The block's data, its index entry, and a new block; `buf` is the buffer that Encode leaves.
block_flushed : Entry → List ℕ × List ℕ → Writer → Writer
block_flushed first (data', buf) w =
    let written = write_bytes data' w in
    record written {
      index =
          w.index
          ++ record {
            series_id = first.series_id;
            timestamp = first.timestamp;
            offset = w.offset;
            size = length data' % 2 ^ 32;
          }
            ∷ [];
      current_block = empty_block;
      block_buf = buf;
    }

module _ (compress : List ℕ → Option (List ℕ)) where
  -- flushBlock, for the entries of the current block.
  flush_entries : List Entry → Writer → Result Panic Writer
  unfolding block_flushed
  flush_entries [] w = ok w
  flush_entries (first ∷ es) w =
      encode_with_compression compress w.block_buf w.current_block >>= λ r.
      ok (block_flushed first r w)

  unfoldable pub flush_block : Writer → Result Panic Writer
  unfolding flush_entries
  flush_block w = flush_entries w.current_block.entries w

  -- Add.
  unfoldable pub add : Writer → Entry → Result Panic Writer
  unfolding overflows append_entry
  add w e = (if overflows e w then flush_block w else ok w) >>= λ w'. ok (append_entry e w')

  -- The writer after all of the entries, in order.
  unfoldable pub add_entries : Writer → List Entry → Result Panic Writer
  add_entries w [] = ok w
  add_entries w (e ∷ es) = add w e >>= λ w'. add_entries w' es

module _ (hashfunc : ℕ → ℕ × ℕ) (bits_for : ℕ → ℕ) (hashes_for : ℕ → ℕ → ℕ) where
  -- buildBloomFilter.
  unfoldable pub build_bloom_filter : Writer → Result Panic BloomFilter
  build_bloom_filter w =
      add_all hashfunc (new_bloom_filter bits_for hashes_for w.entry_count) w.bloom_keys

-- The index, the filter and the footer behind the blocks: what Close writes to the file.
unfoldable pub bloom_bytes : BloomFilter → List ℕ
bloom_bytes b = if length b.bits == 0 then [] else Bloom.encode b

unfoldable pub sealed_file : Writer → BloomFilter → List ℕ
sealed_file w b =
    let with_index = write_bytes (encode_index w.index) w in
    let with_bloom = write_bytes (bloom_bytes b) with_index in
    let bloom_offset = if length b.bits == 0 then 0 else with_index.offset in
    with_bloom.out
    ++ footer w.offset (length (encode_index w.index)) bloom_offset (length (bloom_bytes b))
        w.entry_count (crc32 with_bloom.out)

-- Close: the bytes of the file.
module _ (compress : List ℕ → Option (List ℕ)) (hashfunc : ℕ → ℕ × ℕ) (bits_for : ℕ → ℕ)
    (hashes_for : ℕ → ℕ → ℕ) where
  unfoldable pub close : Writer → Result Panic (List ℕ)
  close w = flush_block compress w >>= λ flushed.
      build_bloom_filter hashfunc bits_for hashes_for flushed >>= λ b. ok (sealed_file flushed b)

  -- A table of these entries, as a flush writes it.
  unfoldable pub write_table : ℕ → List Entry → Result Panic (List ℕ)
  write_table block_size entries =
      add_entries compress (new_writer block_size) entries >>= λ w. close w
