-- ===== src/Wal/Payload.antt =====
-- wal/wal.go: the payload of one record, its framing and its decoding.
pub mod RoundTrip
use wisp_db.Base.{
  ℕ, ◌+◌, ◌*◌, ◌^◌, ◌<◌, ◌≤◌, Bool, true, false, not, List, [], ◌∷◌, ◌++◌, ltb, ◌==◌, if◌then◌else◌,
  length, take, drop, slice, get_or,
}
use wisp_db.Base.Int.{ℤ, IsInt64, to_uint64, to_int64}
use wisp_db.Base.Bytes.{put_le, get_le, crc32}
use wisp_db.Base.Result.{Result, ok, err}

pub record WalRecord : Type 0 where
  pub timestamp : ℤ
  pub series_id : ℕ
  pub deleted : Bool
  pub value : List ℕ

-- The errors that the log's own code makes; `out_of_fuel` is none of Go's, and is never met.
pub data WalError : Type 0 where
  payload_too_short payload_truncated too_large eof unexpected_eof checksum_mismatch : WalError
  closed out_of_fuel : WalError

abbrev pub record_header_size : ℕ
record_header_size = 8

abbrev pub max_record_size : ℕ
max_record_size = 64 * 2 ^ 20

abbrev pub payload_header_size : ℕ
payload_header_size = 8 + 1 + 4 + 8

unfoldable pub payload_encoded_size : WalRecord → ℕ
payload_encoded_size r = payload_header_size + length r.value

-- The writes into `dst` in the order of their offsets; `dst` has exactly the room for them.
unfoldable pub encode_payload : WalRecord → List ℕ
encode_payload r =
    put_le 8 (to_uint64 r.timestamp)
    ++ ((if r.deleted then 1 else 0)
        ∷ (put_le 4 (length r.value) ++ (put_le 8 r.series_id ++ r.value)))

unfoldable pub deserialize_payload : List ℕ → Result WalError WalRecord
deserialize_payload data' =
    let timestamp = to_int64 (get_le (slice 0 8 data')) in
    let deleted = not (get_or data' 8 0 == 0) in
    let value_len = get_le (slice 9 13 data') in
    let series_id = get_le (slice 13 21 data') in
    let value_end = payload_header_size + value_len in
    if ltb (length data') payload_header_size
    then err payload_too_short
    else if ltb (length data') value_end
    then err payload_truncated
    else ok (record {
      timestamp = timestamp;
      series_id = series_id;
      deleted = deleted;
      value = slice payload_header_size value_end data';
    })

-- putRecordHeader: the checksum and the length of the payload.
unfoldable pub record_header : List ℕ → List ℕ
record_header payload = put_le 4 (crc32 payload) ++ put_le 4 (length payload)

-- The bytes that AppendRecord writes.
unfoldable pub encode_record : WalRecord → List ℕ
encode_record r = record_header (encode_payload r) ++ encode_payload r

-- The values that Go's types can hold, and a value whose length an `uint32` can hold.
abbrev pub IsRecord : WalRecord → Type 0
IsRecord r = (r.series_id < 2 ^ 64) × IsInt64 r.timestamp × (length r.value < 2 ^ 32)
