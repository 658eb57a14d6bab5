-- ===== src/SsTable/Block.antt =====
-- sstable/block.go, and the two readers of a block in sstable/reader.go, over the bytes that are
-- there after decompression.
pub mod Rounds
pub mod Encode
pub mod Ends
pub mod Laws
use wisp_db.Base.{
  ℕ, zero, suc, ◌+◌, ◌-◌, ◌%◌, ◌^◌, ◌≡◌, Bool, true, false, not, ◌||◌, Option, none, some, List, [],
  ◌∷◌, ◌++◌, ltb, ◌==◌, if◌then◌else◌, length, take, drop, slice, get_or, replicate,
}
use wisp_db.Base.Int.{to_uint64, to_int64}
use wisp_db.Base.Bytes.{put_le, get_le}
use wisp_db.Base.Result.{
  Result, ok, err, ◌>>=◌, Panic, index_out_of_range, slice_out_of_range, library_panic,
}
use wisp_db.Key.{Key, key_eq}
use wisp_db.SsTable.Entry.{Entry}

pub record Block : Type 0 where
  pub entries : List Entry
  pub size : ℕ

abbrev pub empty_block : Block
empty_block = record { entries = []; size = 0 }

unfoldable pub entry_encoded_size : Entry → ℕ
entry_encoded_size e = (4 + 8 + 8 + 1 + 4 + length e.value) % 2 ^ 32

unfoldable pub add : Block → Entry → Block
add b e = record { entries = b.entries ++ e ∷ []; size = (b.size + entry_encoded_size e) % 2 ^ 32 }

-- The writes into `dst`, of exactly the encoded size, in the order of their offsets.
unfoldable pub encode_entry : Entry → List ℕ
encode_entry e =
    put_le 4 (entry_encoded_size e - 4)
    ++ (put_le 8 e.series_id
        ++ (put_le 8 (to_uint64 e.timestamp)
            ++ ((if e.deleted then 1 else 0) ∷ (put_le 4 (length e.value) ++ e.value))))

unfoldable pub encode_entries : List Entry → List ℕ
encode_entries [] = []
encode_entries (e ∷ es) = encode_entry e ++ encode_entries es

-- The loop of Encode over the buffer, of its whole capacity: a slice for each entry, which panics out
-- of range, and the writes into it, which need 25 bytes and take no more of the value than fits.
unfoldable pub encode_loop : List Entry → ℕ → List ℕ → Result Panic (List ℕ)
encode_loop [] offset buf = ok buf
encode_loop (e ∷ es) offset buf =
    let size = entry_encoded_size e in
    let end = (offset + size) % 2 ^ 32 in
    let next =
      encode_loop es end (take offset buf ++ (take size (encode_entry e) ++ drop end buf)) in
    if ltb (length buf) end || ltb end offset
    then err slice_out_of_range
    else if ltb size 25
    then err index_out_of_range
    else next

-- Encode: the first `b.Size` bytes of the buffer, and the buffer that is kept for the next block.
-- `scratch` is the one that is there, of its whole capacity; one that is too small is replaced.
unfoldable pub encode : List ℕ → Block → Result Panic (List ℕ × List ℕ)
encode scratch b =
    encode_loop b.entries 0 (if ltb (length scratch) b.size then replicate b.size 0 else scratch)
    >>= λ buf. ok (take b.size buf, buf)

-- snappy.Encode, `none` where it panics.
of_compress : List ℕ → Option (List ℕ) → Result Panic (List ℕ × List ℕ)
of_compress buf none = err library_panic
of_compress buf (some bytes) = ok (bytes, buf)

-- EncodeWithCompression, with the buffer that is kept.
unfoldable pub encode_with_compression :
    (List ℕ → Option (List ℕ)) → List ℕ → Block → Result Panic (List ℕ × List ℕ)
unfolding of_compress
encode_with_compression compress scratch b =
    encode scratch b >>= λ r. of_compress r.1 (compress r.0)

pub data BlockError : Type 0 where
  corrupt_length corrupt_entry corrupt_value out_of_fuel : BlockError

-- The entry at the front of `bytes`, of `entry_length` bytes.
unfoldable pub key_at : List ℕ → Key
key_at bytes = record {
  series_id = get_le (slice 0 8 bytes);
  timestamp = to_int64 (get_le (slice 8 16 bytes));
}

unfoldable pub deleted_at : List ℕ → Bool
deleted_at bytes = not (get_or bytes 16 0 == 0)

unfoldable pub value_at : ℕ → List ℕ → Result BlockError (List ℕ)
value_at entry_length bytes =
    let value_length = get_le (slice 17 21 bytes) in
    let value_end = 21 + value_length in
    if ltb entry_length value_end then err corrupt_value else ok (slice 21 value_end bytes)

entry_at : ℕ → List ℕ → Result BlockError Entry
entry_at entry_length bytes = value_at entry_length bytes >>= λ value. ok (record {
  series_id = (key_at bytes).series_id;
  timestamp = (key_at bytes).timestamp;
  deleted = deleted_at bytes;
  value = value;
})

-- The loop of readBlock, over the bytes from `pos` on.
pub read_loop : ℕ → List ℕ → Result BlockError (List Entry)
read_loop zero bytes = err out_of_fuel
read_loop (suc fuel) bytes =
    let entry_length = get_le (take 4 bytes) in
    let rest = drop 4 bytes in
    let next = entry_at entry_length rest >>= λ e.
    read_loop fuel (drop entry_length rest) >>= λ es. ok (e ∷ es) in
    if length bytes == 0
    then ok []
    else if ltb (length bytes) 4
    then err corrupt_length
    else if ltb (length rest) entry_length || ltb entry_length 21
    then err corrupt_entry
    else next

-- readBlock.
unfoldable pub read_block : List ℕ → Result BlockError (List Entry)
unfolding entry_at
read_block bytes = read_loop (suc (length bytes)) bytes

-- The loop of findEntryInBlock, which decodes no entry but the one that it looks for.
pub find_loop : ℕ → Key → List ℕ → Result BlockError (Option (List ℕ × Bool))
find_loop zero k bytes = err out_of_fuel
find_loop (suc fuel) k bytes =
    let entry_length = get_le (take 4 bytes) in
    let rest = drop 4 bytes in
    let next = find_loop fuel k (drop entry_length rest) in
    let here = value_at entry_length rest >>= λ value. ok (some (value, deleted_at rest)) in
    if length bytes == 0
    then ok none
    else if ltb (length bytes) 4
    then err corrupt_length
    else if ltb (length rest) entry_length || ltb entry_length 21
    then err corrupt_entry
    else if key_eq (key_at rest) k
    then here
    else next

-- findEntryInBlock.
unfoldable pub find_entry_in_block : Key → List ℕ → Result BlockError (Option (List ℕ × Bool))
find_entry_in_block k bytes = find_loop (suc (length bytes)) k bytes
