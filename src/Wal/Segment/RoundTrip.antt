-- ===== src/Wal/Segment/RoundTrip.antt =====
-- Replay of the records of a segment, whole and with a torn tail.
use mathlib.Core.List.{append-nil, append_assoc}
use wisp_db.Base.{
  ℕ, zero, suc, ◌+◌, ◌-◌, ◌≤◌, ◌<◌, ◌≡◌, refl, ap, ◌∙◌, Bool, inl, inr, List, [], ◌∷◌, ◌++◌, arith,
  ltb, ltb→lt, ltb→le, ◌==◌, ==-refl, ne→==, if◌then◌else◌, length, length-append, take,
  take-append, drop-append, All, take-append_ge, take-append_le, length-take, Bool-cases,
}
use wisp_db.Base.Bytes.{put_le, crc32}
use wisp_db.Base.Result.{Result, ok, err}
use wisp_db.Wal.Payload.{
  WalRecord, WalError, IsRecord, encode_payload, encode_record, record_header, max_record_size,
  unexpected_eof, eof,
}
use wisp_db.Wal.Payload.RoundTrip.{length-encode_payload, deserialize-encode}
use wisp_db.Wal.Segment.{replay_loop, replay_segment, check_payload, encode_records}
use wisp_db.Wal.Segment.Rounds.{round_whole, round_torn, round_end, round_torn_header}

-- A record that the readers accept.
abbrev pub IsLogged : WalRecord → Type 0
IsLogged r = IsRecord r × (21 + length r.value ≤ max_record_size)

pub length-encode_record : (r : WalRecord) → length (encode_record r) ≡ 29 + length r.value
unfolding encode_record record_header put_le
length-encode_record r = omega (arith, length-encode_payload r)

pub length-header : (p : List ℕ) → length (record_header p) ≡ 8
unfolding record_header put_le
length-header p = refl

check_payload-encode :
    (r : WalRecord)
    → IsRecord r
    → check_payload (crc32 (encode_payload r)) (encode_payload r) ≡ ok r
unfolding check_payload
check_payload-encode r h = rw (==-refl (crc32 (encode_payload r)), deserialize-encode r h)

-- One record read, with what follows it left.
round_record :
    (fuel : ℕ) (r : WalRecord) (tail : List ℕ) (tolerate : Bool) (records : List WalRecord)
    → IsLogged r
    → replay_loop (suc fuel) (encode_record r ++ tail) tolerate records
      ≡ replay_loop fuel tail tolerate (records ++ r ∷ [])
unfolding encode_record
round_record fuel r tail tolerate records h =
    let p = encode_payload r in
    let size = length-encode_payload r in
    let long : length p ≤ length (p ++ tail) = omega (arith, length-append p tail) in
    rw append_assoc (
      round_whole fuel p (p ++ tail) tolerate records (omega (arith, h.1)) (omega (arith, h.1)) long
      ∙ rw (take-append p tail, drop-append p tail, check_payload-encode r h.0))

-- Whole records are read in order, in front of any bytes.
pub loop_records :
    (rs : List WalRecord) (tail : List ℕ) (fuel : ℕ) (tolerate : Bool) (records : List WalRecord)
    → All IsLogged rs
    → length (encode_records rs ++ tail) < fuel
    → (fuel' : ℕ) × (length tail < fuel')
      × (replay_loop fuel (encode_records rs ++ tail) tolerate records
          ≡ replay_loop fuel' tail tolerate (records ++ rs))
unfolding encode_records
loop_records [] tail fuel tolerate records h f = (fuel, f, rw append-nil)
loop_records (r ∷ rs) tail zero tolerate records h f = absurd (omega arith)
loop_records (r ∷ rs) tail (suc fuel) tolerate records h f =
    let whole = append_assoc (encode_record r) (encode_records rs) tail in
    let rest = encode_records rs ++ tail in
    let shorter : length rest < fuel =
      omega
        (arith, ap length whole, length-append (encode_record r) rest, length-encode_record r) in
    let (fuel', few, e) = loop_records rs tail fuel tolerate (records ++ r ∷ []) h.1 shorter in
    (
      fuel',
      few,
      rw whole (round_record fuel r rest tolerate records h.0)
          ∙ e
          ∙ ap (replay_loop fuel' tail tolerate) (append_assoc records (r ∷ []) rs),
    )

-- The same, from the start of the segment.
pub replay_records :
    (rs : List WalRecord) (tail : List ℕ) (tolerate : Bool)
    → All IsLogged rs
    → (fuel : ℕ) × (length tail ≤ fuel)
      × (replay_segment (encode_records rs ++ tail) tolerate
          ≡ replay_loop (suc fuel) tail tolerate rs)
unfolding replay_segment
replay_records rs tail tolerate h =
    go (loop_records rs tail (suc (length (encode_records rs ++ tail))) tolerate [] h (omega arith))
  where
    go :
        ((fuel' : ℕ) × (length tail < fuel')
          × (replay_loop
                (suc (length (encode_records rs ++ tail)))
                (encode_records rs ++ tail)
                tolerate
                []
              ≡ replay_loop fuel' tail tolerate rs))
        → (fuel : ℕ) × (length tail ≤ fuel)
          × (replay_loop
                (suc (length (encode_records rs ++ tail)))
                (encode_records rs ++ tail)
                tolerate
                []
              ≡ replay_loop (suc fuel) tail tolerate rs)
    go (zero, few, e) = absurd (omega arith)
    go (suc fuel, few, e) = (fuel, omega arith, e)

-- Replay of records within the size limit, encoded one behind the other, gives them back in order,
-- whichever segment it is.
pub replay-encode_records :
    (rs : List WalRecord) (tolerate : Bool)
    → All IsLogged rs
    → replay_segment (encode_records rs) tolerate ≡ ok rs
replay-encode_records rs tolerate h =
    let (fuel, few, e) = replay_records rs [] tolerate h in
    (rw append-nil at e) ∙ round_end fuel tolerate rs

-- What a reader makes of the first bytes of a record, behind whole ones.
abbrev pub torn_result : Bool → ℕ → List WalRecord → Result WalError (List WalRecord)
torn_result tolerate n rs =
    if tolerate then ok rs else if n == 8 then err eof else err unexpected_eof

round_torn_record :
    (fuel : ℕ) (r : WalRecord) (n : ℕ) (tolerate : Bool) (rs : List WalRecord)
    → IsLogged r
    → 0 < n
    → n < 29 + length r.value
    → replay_loop (suc fuel) (take n (encode_record r)) tolerate rs ≡ torn_result tolerate n rs
unfolding encode_record
round_torn_record fuel r n tolerate rs h some_byte torn =
    let p = encode_payload r in
    let size = length-encode_payload r in
    let header = length-header p in
    elim (Bool-cases (ltb n 8)) [
      | inl few ↦
          let n8 = ltb→lt n 8 few in
          let front = take-append_le (record_header p) p n (omega arith) in
          let long : length (take n (record_header p)) ≡ n =
            length-take n (record_header p) (omega arith) in
          rw (front, ne→== n 8 (omega arith))
            (round_torn_header fuel (take n (record_header p)) tolerate rs (omega arith)
              (omega arith))
      | inr many ↦
          let n8 = ltb→le n 8 many in
          let front = take-append_ge (record_header p) p n (omega arith) in
          let body = take (n - length (record_header p)) p in
          let long : length body ≡ n - length (record_header p) =
            length-take (n - length (record_header p)) p (omega arith) in
          let at_header : (length body == 0) ≡ (n == 8) = ground arith in
          rw front (
            round_torn fuel p body tolerate rs (omega (arith, h.1)) (omega (arith, h.1))
              (omega arith)
            ∙ ap (λ b. if tolerate then ok rs else if b then err eof else err unexpected_eof)
                at_header)
    ]

-- A segment of records within the size limit, and behind them a record cut short to at least one
-- byte: replay gives the whole records if the torn tail is tolerated, and an end-of-file error if
-- not.
pub replay_torn :
    (rs : List WalRecord) (r : WalRecord) (n : ℕ) (tolerate : Bool)
    → All IsLogged rs
    → IsLogged r
    → 0 < n
    → n < 29 + length r.value
    → replay_segment (encode_records rs ++ take n (encode_record r)) tolerate
      ≡ torn_result tolerate n rs
replay_torn rs r n tolerate hs h some_byte torn =
    let (fuel, few, e) = replay_records rs (take n (encode_record r)) tolerate hs in
    e ∙ round_torn_record fuel r n tolerate rs h some_byte torn
