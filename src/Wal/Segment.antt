-- ===== src/Wal/Segment.antt =====
-- wal/wal.go: replaySegment, over the bytes of the file that it reads.
pub mod Rounds
pub mod RoundTrip
pub mod Damage
use wisp_db.Base.{
  ℕ, zero, suc, Bool, true, false, not, List, [], ◌∷◌, ◌++◌, ltb, ◌==◌, if◌then◌else◌, length, take,
  drop,
}
use wisp_db.Base.Bytes.{get_le, crc32}
use wisp_db.Base.Result.{Result, ok, err, ◌>>=◌}
use wisp_db.Wal.Payload.{
  WalRecord, WalError, too_large, eof, unexpected_eof, checksum_mismatch, out_of_fuel,
  record_header_size, max_record_size, deserialize_payload, encode_record,
}

-- A whole payload has been read: its checksum, and what it decodes to.
unfoldable pub check_payload : ℕ → List ℕ → Result WalError WalRecord
check_payload checksum payload =
    if not (crc32 payload == checksum) then err checksum_mismatch else deserialize_payload payload

-- The loop, over the bytes that the reader has not reached. io.ReadFull gives EOF where it reads no
-- byte, and ErrUnexpectedEOF where it reads some.
pub replay_loop : ℕ → List ℕ → Bool → List WalRecord → Result WalError (List WalRecord)
replay_loop zero bytes tolerate records = err out_of_fuel
replay_loop (suc fuel) bytes tolerate records =
    let header = take record_header_size bytes in
    let rest = drop record_header_size bytes in
    let checksum = get_le (take 4 header) in
    let size = get_le (drop 4 header) in
    let next = check_payload checksum (take size rest) >>= λ r.
    replay_loop fuel (drop size rest) tolerate (records ++ r ∷ []) in
    if length bytes == 0
    then ok records
    else if ltb (length bytes) record_header_size
    then (if tolerate then ok records else err unexpected_eof)
    else if ltb max_record_size size
    then err too_large
    else if ltb (length rest) size
    then (if tolerate then ok records else if length rest == 0 then err eof else err unexpected_eof)
    else next

-- Each record takes eight bytes at least, so the rounds are enough.
unfoldable pub replay_segment : List ℕ → Bool → Result WalError (List WalRecord)
replay_segment bytes tolerate = replay_loop (suc (length bytes)) bytes tolerate []

-- The file after its records were appended in order.
unfoldable pub encode_records : List WalRecord → List ℕ
encode_records [] = []
encode_records (r ∷ rs) = encode_record r ++ encode_records rs
