-- ===== src/Wal/Segment/Damage.antt =====
-- Replay of damaged segments, and its fuel.
use mathlib.Core.List.{append_assoc}
use wisp_db.Base.{
  ℕ, zero, suc, ◌+◌, ◌-◌, ◌^◌, ◌≤◌, ◌<◌, ◌≡◌, ◌≢◌, refl, sym, ap, ◌∙◌, Bool, inl, inr, List, [],
  ◌∷◌, ◌++◌, arith, ltb, ltb→le, ne→==, length, length-append, take, drop, take-append, All,
  take-append_ge, take-append-drop, length-take, length-drop, Bool-cases,
}
use wisp_db.Base.Bytes.{get_le, crc32}
use wisp_db.Base.Result.{Result, ok, err, ◌>>=◌}
use wisp_db.Wal.Payload.{
  WalRecord, WalError, IsRecord, encode_payload, encode_record, record_header, max_record_size,
  too_large, checksum_mismatch, out_of_fuel, deserialize_payload, record_header_size,
}
use wisp_db.Wal.Payload.RoundTrip.{length-encode_payload}
use wisp_db.Wal.Segment.{replay_loop, replay_segment, check_payload, encode_records}
use wisp_db.Wal.Segment.Rounds.{round_whole, round_too_large}
use wisp_db.Wal.Segment.RoundTrip.{IsLogged, replay_records, length-header}

-- Where a payload within the size limit was stored behind whole records, and bytes of its length
-- but of another checksum stand, replay gives the checksum error, in any segment.
pub replay_corrupt :
    (rs : List WalRecord) (p q rest : List ℕ) (tolerate : Bool)
    → All IsLogged rs
    → length p ≤ max_record_size
    → length q ≡ length p
    → crc32 q ≢ crc32 p
    → replay_segment (encode_records rs ++ (record_header p ++ (q ++ rest))) tolerate
      ≡ err checksum_mismatch
unfolding check_payload
replay_corrupt rs p q rest tolerate hs fits size differs =
    let (fuel, few, e) = replay_records rs (record_header p ++ (q ++ rest)) tolerate hs in
    let enough : length p ≤ length (q ++ rest) = omega (arith, length-append q rest) in
    e
    ∙ round_whole fuel p (q ++ rest) tolerate rs (omega arith) fits enough
    ∙ rw (← size, take-append q rest, ne→== (crc32 q) (crc32 p) differs) refl

-- A record whose payload is over the size limit but fits its `uint32` length, encoded behind whole
-- records: replay gives an error, whatever follows it.
pub replay_oversized :
    (rs : List WalRecord) (r : WalRecord) (rest : List ℕ) (tolerate : Bool)
    → All IsLogged rs
    → IsRecord r
    → max_record_size < 21 + length r.value
    → 21 + length r.value < 2 ^ 32
    → replay_segment (encode_records rs ++ (encode_record r ++ rest)) tolerate ≡ err too_large
unfolding encode_record
replay_oversized rs r rest tolerate hs h big short =
    let p = encode_payload r in
    let size = length-encode_payload r in
    let (fuel, few, e) = replay_records rs ((record_header p ++ p) ++ rest) tolerate hs in
    e
    ∙ ap (λ l. replay_loop (suc fuel) l tolerate rs) (append_assoc (record_header p) p rest)
    ∙ round_too_large fuel p (p ++ rest) tolerate rs (omega arith) (omega arith)

-- What stands in the place of the payload when records are appended behind a torn one.
abbrev pub spliced : WalRecord → ℕ → List ℕ → List ℕ
spliced r m more = take m (encode_payload r) ++ take (21 + length r.value - m) more

-- Bytes appended behind a torn record, enough of them to fill its payload, with another checksum in
-- the end: replay gives the checksum error, and not the records in front.
pub replay_after_torn :
    (rs : List WalRecord) (r : WalRecord) (m : ℕ) (more : List ℕ) (tolerate : Bool)
    → All IsLogged rs
    → IsLogged r
    → m < 21 + length r.value
    → 21 + length r.value ≤ m + length more
    → crc32 (spliced r m more) ≢ crc32 (encode_payload r)
    → replay_segment (encode_records rs ++ (take (8 + m) (encode_record r) ++ more)) tolerate
      ≡ err checksum_mismatch
unfolding encode_record
replay_after_torn rs r m more tolerate hs h torn enough differs =
    let p = encode_payload r in
    let size = length-encode_payload r in
    let header = length-header p in
    let left = 21 + length r.value - m in
    let q = spliced r m more in
    let front : take (8 + m) (record_header p ++ p) ≡ record_header p ++ take m p =
      take-append_ge (record_header p) p (8 + m) (omega arith)
      ∙ ap (λ n. record_header p ++ take n p) (omega arith) in
    let filled : take m p ++ more ≡ q ++ drop left more =
      ap (λ l. take m p ++ l) (sym (take-append-drop left more))
      ∙ sym (append_assoc (take m p) (take left more) (drop left more)) in
    let long : length q ≡ length p = omega (
      arith,
      length-append (take m p) (take left more),
      length-take m p (omega arith),
      length-take left more (omega arith),
    ) in
    let shape : take (8 + m) (record_header p ++ p) ++ more
        ≡ record_header p ++ (q ++ drop left more) =
      ap (λ l. l ++ more) front
      ∙ append_assoc (record_header p) (take m p) more
      ∙ ap (λ l. record_header p ++ l) filled in
    rw shape (replay_corrupt rs p q (drop left more) tolerate hs (omega (arith, h.1)) long differs)

deserialize-ne-out_of_fuel : (bytes : List ℕ) → deserialize_payload bytes ≢ err out_of_fuel
unfolding deserialize_payload
deserialize-ne-out_of_fuel bytes = ground arith

check-ne-out_of_fuel :
    (checksum : ℕ) (bytes : List ℕ) → check_payload checksum bytes ≢ err out_of_fuel
unfolding check_payload
check-ne-out_of_fuel checksum bytes = ground (arith, deserialize-ne-out_of_fuel bytes)

bind-ne :
    {A B : Type 0} (m : Result WalError A) (f : A → Result WalError B)
    → m ≢ err out_of_fuel
    → ((a : A) → f a ≢ err out_of_fuel)
    → (m >>= f) ≢ err out_of_fuel
bind-ne (ok a) f h k = k a
bind-ne (err e) f h k = λ x. h cc

loop-ne-out_of_fuel :
    (fuel : ℕ) (bytes : List ℕ) (tolerate : Bool) (records : List WalRecord)
    → length bytes < fuel
    → replay_loop fuel bytes tolerate records ≢ err out_of_fuel
unfolding replay_loop
loop-ne-out_of_fuel zero bytes tolerate records f = absurd (omega arith)
loop-ne-out_of_fuel (suc fuel) bytes tolerate records f =
    let rest = drop record_header_size bytes in
    let size = get_le (drop 4 (take record_header_size bytes)) in
    let checksum = get_le (take 4 (take record_header_size bytes)) in
    elim (Bool-cases (ltb (length bytes) record_header_size)) [
      | inl few ↦ rw few (ground arith)
      | inr many ↦
          let shorter : length (drop size rest) < fuel = omega (
            arith,
            length-drop size rest,
            length-drop record_header_size bytes,
            ltb→le (length bytes) record_header_size many,
          ) in
          ground (
            arith,
            bind-ne (check_payload checksum (take size rest))
                (λ r. replay_loop fuel (drop size rest) tolerate (records ++ r ∷ []))
                (check-ne-out_of_fuel checksum (take size rest))
                (λ r.
                  loop-ne-out_of_fuel fuel (drop size rest) tolerate (records ++ r ∷ []) shorter),
          )
    ]

-- Whatever bytes a segment holds, its replay ends within its fuel.
pub replay-ne-out_of_fuel :
    (bytes : List ℕ) (tolerate : Bool) → replay_segment bytes tolerate ≢ err out_of_fuel
unfolding replay_segment
replay-ne-out_of_fuel bytes tolerate =
    loop-ne-out_of_fuel (suc (length bytes)) bytes tolerate [] (omega arith)
