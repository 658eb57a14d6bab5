-- ===== src/Wal/Segment/Rounds.antt =====
-- One round of the replay loop, for each way that it can go.
use wisp_db.Base.{
  ℕ, suc, ◌+◌, ◌^◌, ◌≤◌, ◌<◌, ◌≡◌, refl, Bool, List, [], ◌∷◌, ◌++◌, arith, le→ltb, lt→ltb, ◌==◌,
  ne→==, if◌then◌else◌, length, take, drop,
}
use wisp_db.Base.Bytes.{put_le, get_le, crc32, crc32-lt, get_le-put_le_uint32}
use wisp_db.Base.Result.{ok, err, ◌>>=◌}
use wisp_db.Wal.Payload.{WalRecord, record_header, max_record_size, too_large, unexpected_eof, eof}
use wisp_db.Wal.Segment.{replay_loop, check_payload}

-- Reading the fields of a header back.
header_checksum : (p bytes : List ℕ) → get_le (take 4 (take 8 (record_header p ++ bytes))) ≡ crc32 p
unfolding record_header put_le
header_checksum p bytes = unfold put_le in get_le-put_le_uint32 (crc32 p) (crc32-lt p)

header_size :
    (p bytes : List ℕ)
    → length p < 2 ^ 32
    → get_le (drop 4 (take 8 (record_header p ++ bytes))) ≡ length p
unfolding record_header put_le
header_size p bytes h = unfold put_le in get_le-put_le_uint32 (length p) h

header_rest : (p bytes : List ℕ) → drop 8 (record_header p ++ bytes) ≡ bytes
unfolding record_header put_le
header_rest p bytes = refl

length-record_header : (p bytes : List ℕ) → length (record_header p ++ bytes) ≡ 8 + length bytes
unfolding record_header put_le
length-record_header p bytes = omega arith

module _ (fuel : ℕ) (p bytes : List ℕ) (tolerate : Bool) (records : List WalRecord)
    (short : length p < 2 ^ 32) where
  -- After a header for `p`, with enough bytes behind it, the payload is what is there.
  pub round_whole :
      length p ≤ max_record_size
      → length p ≤ length bytes
      → replay_loop (suc fuel) (record_header p ++ bytes) tolerate records ≡ (
          check_payload (crc32 p) (take (length p) bytes) >>= λ r.
          replay_loop fuel (drop (length p) bytes) tolerate (records ++ r ∷ []))
  unfolding replay_loop
  round_whole fits enough = rw (
    header_checksum p bytes,
    header_size p bytes short,
    header_rest p bytes,
    length-record_header p bytes,
    ne→== (8 + length bytes) 0 (omega arith),
    le→ltb (8 + length bytes) 8 (omega arith),
    le→ltb max_record_size (length p) fits,
    le→ltb (length bytes) (length p) enough,
  )

  pub round_too_large :
      max_record_size < length p
      → replay_loop (suc fuel) (record_header p ++ bytes) tolerate records ≡ err too_large
  unfolding replay_loop
  round_too_large big = rw (
    header_size p bytes short,
    length-record_header p bytes,
    ne→== (8 + length bytes) 0 (omega arith),
    le→ltb (8 + length bytes) 8 (omega arith),
    lt→ltb max_record_size (length p) big,
  )

  pub round_torn :
      length p ≤ max_record_size
      → length bytes < length p
      → replay_loop (suc fuel) (record_header p ++ bytes) tolerate records ≡ (
          if tolerate
          then ok records
          else if length bytes == 0
          then err eof
          else err unexpected_eof)
  unfolding replay_loop
  round_torn fits few = rw (
    header_size p bytes short,
    header_rest p bytes,
    length-record_header p bytes,
    ne→== (8 + length bytes) 0 (omega arith),
    le→ltb (8 + length bytes) 8 (omega arith),
    le→ltb max_record_size (length p) fits,
    lt→ltb (length bytes) (length p) few,
  )

pub round_end :
    (fuel : ℕ) (tolerate : Bool) (records : List WalRecord)
    → replay_loop (suc fuel) [] tolerate records ≡ ok records
unfolding replay_loop
round_end fuel tolerate records = refl

pub round_torn_header :
    (fuel : ℕ) (bytes : List ℕ) (tolerate : Bool) (records : List WalRecord)
    → 0 < length bytes
    → length bytes < 8
    → replay_loop (suc fuel) bytes tolerate records
      ≡ (if tolerate then ok records else err unexpected_eof)
unfolding replay_loop
round_torn_header fuel bytes tolerate records some_byte few =
    rw (ne→== (length bytes) 0 (omega arith), lt→ltb (length bytes) 8 few)
