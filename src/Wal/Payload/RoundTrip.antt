-- ===== src/Wal/Payload/RoundTrip.antt =====
-- The encoding and the decoding of a payload, together.
use wisp_db.Base.{
  ◌+◌, ◌-◌, ◌≡◌, refl, Bool, true, false, not, arith, le→ltb, ◌==◌, if◌then◌else◌, length, slice,
  get_or, take_all,
}
use wisp_db.Base.Int.{to_uint64, to_uint64-lt, to_int64-to_uint64}
use wisp_db.Base.Bytes.{put_le, get_le-put_le_uint32, get_le-put_le_uint64}
use wisp_db.Base.Result.{ok}
use wisp_db.Wal.Payload.{
  WalRecord, IsRecord, encode_payload, deserialize_payload, payload_header_size,
}

pub length-encode_payload : (r : WalRecord) → length (encode_payload r) ≡ 21 + length r.value
unfolding encode_payload put_le
length-encode_payload r = omega arith

-- The fixed fields stand where the reader looks for them.
encode_timestamp : (r : WalRecord) → slice 0 8 (encode_payload r) ≡ put_le 8 (to_uint64 r.timestamp)
unfolding encode_payload put_le
encode_timestamp r = refl

encode_deleted : (r : WalRecord) → get_or (encode_payload r) 8 0 ≡ (if r.deleted then 1 else 0)
unfolding encode_payload put_le
encode_deleted r = refl

encode_length : (r : WalRecord) → slice 9 13 (encode_payload r) ≡ put_le 4 (length r.value)
unfolding encode_payload put_le
encode_length r = refl

encode_series_id : (r : WalRecord) → slice 13 21 (encode_payload r) ≡ put_le 8 r.series_id
unfolding encode_payload put_le
encode_series_id r = refl

encode_value :
    (r : WalRecord)
    → slice payload_header_size (payload_header_size + length r.value) (encode_payload r) ≡ r.value
unfolding encode_payload put_le
encode_value r = take_all r.value (21 + length r.value - 21) (omega arith)

deleted_flag : (b : Bool) → not ((if b then 1 else 0) == 0) ≡ b
deleted_flag true = refl
deleted_flag false = refl

-- The payload of a record that Go's types can hold decodes to the record.
pub deserialize-encode :
    (r : WalRecord) → IsRecord r → deserialize_payload (encode_payload r) ≡ ok r
unfolding deserialize_payload
deserialize-encode r h = rw (
  encode_timestamp r,
  encode_deleted r,
  encode_length r,
  encode_series_id r,
  get_le-put_le_uint64 (to_uint64 r.timestamp) (to_uint64-lt r.timestamp),
  get_le-put_le_uint64 r.series_id h.0,
  get_le-put_le_uint32 (length r.value) h.2,
  to_int64-to_uint64 r.timestamp h.1,
  length-encode_payload r,
  le→ltb (21 + length r.value) 21 (omega arith),
  le→ltb (21 + length r.value) (21 + length r.value) (omega arith),
  encode_value r,
  deleted_flag r.deleted,
)
