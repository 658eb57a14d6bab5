-- ===== src/Tests/Logs.antt =====
-- wal/wal.go on small inputs.
use wisp_db.Base.{
  ℕ, zero, suc, ap, ◌+◌, ◌≡◌, ◌≢◌, refl, true, false, none, List, [], ◌∷◌, ◌++◌, arith, length,
  take,
}
use wisp_db.Base.Int.{pos, negsuc}
use wisp_db.Base.Bytes.{crc32, put_le}
use wisp_db.Base.Result.{ok, err}
use wisp_db.Wal.Payload.{
  WalRecord, checksum_mismatch, too_large, out_of_fuel, encode_payload, record_header,
  encode_record,
}
use wisp_db.Wal.Segment.{encode_records, replay_segment}
use wisp_db.Wal.Segment.RoundTrip.{
  IsLogged, replay-encode_records, replay_torn, length-encode_record,
}
use wisp_db.Wal.Segment.Damage.{
  replay_corrupt, replay_oversized, replay_after_torn, spliced, replay-ne-out_of_fuel,
}
use wisp_db.Wal.Log.{
  Wal, append_record, rotate, replay, remove_segments_up_to, create_wal_with_segment_size, reset,
}
use wisp_db.Wal.Log.Files.{Chunks, files_of}
use wisp_db.Wal.Log.Laws.{LogHolds, LogHas, held_records, append_record-LogHas, rotate-LogHolds}
use wisp_db.Wal.Log.Reclaim.{replay-remove_segments_up_to}
use wisp_db.Wal.Log.Reset.{reset-LogHas}
use wisp_db.Wal.Log.Reopen.{create-LogHas}

abbrev reading : WalRecord
reading = record { timestamp = negsuc 9; series_id = 3; deleted = false; value = 1 ∷ 2 ∷ [] }

abbrev deletion : WalRecord
deletion = record { timestamp = pos 4; series_id = 3; deleted = true; value = [] }

reading-IsLogged : IsLogged reading
reading-IsLogged = ((omega arith, (omega arith, omega arith), omega arith), omega arith)

deletion-IsLogged : IsLogged deletion
deletion-IsLogged = ((omega arith, (omega arith, omega arith), omega arith), omega arith)

replay-encode_records_example :
    replay_segment (encode_records (reading ∷ deletion ∷ [])) false ≡ ok (reading ∷ deletion ∷ [])
replay-encode_records_example =
    replay-encode_records (reading ∷ deletion ∷ []) false
      (reading-IsLogged, (deletion-IsLogged, tt))

replay_torn_example :
    replay_segment (encode_records (reading ∷ []) ++ take 12 (encode_record deletion)) true
    ≡ ok (reading ∷ [])
replay_torn_example =
    replay_torn (reading ∷ []) deletion 12 true (reading-IsLogged, tt) deletion-IsLogged
      (omega arith) (omega arith)

-- One flipped byte.
other_checksum : crc32 (2 ∷ []) ≢ crc32 (1 ∷ [])
unfolding crc32
other_checksum e = omega (arith, e)

replay_corrupt_example :
    replay_segment
      (encode_records (reading ∷ []) ++ (record_header (1 ∷ []) ++ (2 ∷ [] ++ [])))
      true
    ≡ err checksum_mismatch
replay_corrupt_example =
    replay_corrupt (reading ∷ []) (1 ∷ []) (2 ∷ []) [] true (reading-IsLogged, tt) (omega arith)
      refl other_checksum

-- A value of a length, which no check computes.
unfoldable long_value : ℕ → List ℕ
long_value zero = []
long_value (suc n) = 7 ∷ long_value n

length-long_value : (n : ℕ) → length (long_value n) ≡ n
unfolding long_value
length-long_value zero = refl
length-long_value (suc n) = ap suc (length-long_value n)

abbrev too_long : WalRecord
too_long = record {
  timestamp = pos 0;
  series_id = 1;
  deleted = false;
  value = long_value 0x4000000;
}

replay_oversized_example :
    replay_segment (encode_records (reading ∷ []) ++ (encode_record too_long ++ [])) false
    ≡ err too_large
replay_oversized_example =
    replay_oversized (reading ∷ []) too_long [] false (reading-IsLogged, tt)
      (omega arith, (omega arith, omega arith), omega (arith, length-long_value 0x4000000))
      (omega (arith, length-long_value 0x4000000)) (omega (arith, length-long_value 0x4000000))

spliced_checksum :
    crc32 (spliced deletion 0 (encode_record reading)) ≢ crc32 (encode_payload deletion)
unfolding crc32 encode_payload encode_record record_header put_le
spliced_checksum e = omega (arith, e)

replay_after_torn_example :
    replay_segment
      (encode_records (reading ∷ [])
        ++ (take (8 + 0) (encode_record deletion) ++ encode_record reading))
      true
    ≡ err checksum_mismatch
replay_after_torn_example =
    replay_after_torn (reading ∷ []) deletion 0 (encode_record reading) true (reading-IsLogged, tt)
      deletion-IsLogged (omega arith) (omega (arith, length-encode_record reading)) spliced_checksum

replay-ne-out_of_fuel_example : replay_segment (1 ∷ 2 ∷ 3 ∷ []) false ≢ err out_of_fuel
replay-ne-out_of_fuel_example = replay-ne-out_of_fuel (1 ∷ 2 ∷ 3 ∷ []) false

-- A log with one sealed segment.
abbrev sealed_part : Chunks
sealed_part = (1, reading ∷ []) ∷ []

abbrev two_segments : Wal
two_segments = record {
  directory = record {
    segments = files_of (sealed_part ++ (2, deletion ∷ []) ∷ []);
    legacy = none;
  };
  max_segment_size = 40;
  segment_id = 2;
  size = 29;
  is_open = true;
}

two_segments-LogHolds : LogHolds two_segments sealed_part (deletion ∷ [])
two_segments-LogHolds = record {
  files = refl;
  ascending = (tt, tt);
  below = (omega arith, tt);
  logged = ((reading-IsLogged, tt), ((deletion-IsLogged, tt), tt));
}

two_segments-LogHas : LogHas two_segments (reading ∷ deletion ∷ [])
two_segments-LogHas = record {
  sealed = sealed_part;
  active = deletion ∷ [];
  holds = two_segments-LogHolds;
  is_open = refl;
  records = refl;
}

-- The append rotates, since the active segment would pass its 40 bytes.
append_record-LogHas_example :
    ((append_record reading two_segments).0 ≡ ok tt)
    × LogHas (append_record reading two_segments).1 (reading ∷ deletion ∷ reading ∷ [])
    × (replay (append_record reading two_segments).1 ≡ ok (reading ∷ deletion ∷ reading ∷ []))
append_record-LogHas_example =
    append_record-LogHas two_segments (reading ∷ deletion ∷ []) reading two_segments-LogHas
      reading-IsLogged (omega arith)

rotate-LogHolds_example :
    LogHolds (rotate two_segments).1 (sealed_part ++ (2, deletion ∷ []) ∷ []) []
    × ((rotate two_segments).1.segment_id ≡ 3)
    × ((rotate two_segments).1.is_open ≡ true)
    × ((rotate two_segments).0 ≡ 2)
rotate-LogHolds_example =
    rotate-LogHolds two_segments sealed_part (deletion ∷ []) two_segments-LogHolds (omega arith)

replay-remove_segments_up_to_example :
    replay (remove_segments_up_to 2 two_segments) ≡ ok (deletion ∷ [])
replay-remove_segments_up_to_example =
    replay-remove_segments_up_to 2 two_segments sealed_part (deletion ∷ []) two_segments-LogHolds

create-LogHas_example :
    LogHas
      (create_wal_with_segment_size two_segments.directory 100)
      (held_records sealed_part (deletion ∷ []))
    × ((create_wal_with_segment_size two_segments.directory 100).segment_id ≡ 2)
create-LogHas_example =
    create-LogHas two_segments sealed_part (deletion ∷ []) 100 two_segments-LogHolds

reset-LogHas_example : LogHas (reset two_segments) [] × ((reset two_segments).segment_id ≡ 1)
reset-LogHas_example = reset-LogHas two_segments sealed_part (deletion ∷ []) two_segments-LogHolds
