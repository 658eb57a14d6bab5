-- ===== src/SsTable/Block/Rounds.antt =====
-- An encoded entry, read back.
use wisp_db.Base.{
  ℕ, suc, ◌+◌, ◌-◌, ◌%◌, ◌^◌, ◌≡◌, refl, ap, ◌∙◌, Bool, true, false, not, List, ◌∷◌, ◌++◌, arith,
  le→ltb, ◌==◌, ne→==, if◌then◌else◌, length, length-append, take, drop, slice, take-append,
  drop-append, drop_add,
}
use wisp_db.Base.Int.{to_uint64, to_int64, to_uint64-lt, to_int64-to_uint64}
use wisp_db.Base.Bytes.{put_le, get_le, get_le-put_le_uint32, get_le-put_le_uint64}
use wisp_db.Base.Result.{ok, ◌>>=◌}
use wisp_db.SsTable.Entry.{Entry, IsEntry, entry_key}
use wisp_db.SsTable.Block.{
  entry_encoded_size, encode_entry, key_at, deleted_at, value_at, entry_at, read_loop,
}

pub length-encode_entry : (e : Entry) → length (encode_entry e) ≡ 25 + length e.value
unfolding encode_entry put_le
length-encode_entry e = omega arith

-- What stands behind the length of the entry.
body : Entry → List ℕ → List ℕ
body e tail = drop 4 (encode_entry e ++ tail)

deleted_flag : (b : Bool) → not ((if b then 1 else 0) == 0) ≡ b
deleted_flag true = refl
deleted_flag false = refl

module _ (e : Entry) (tail : List ℕ) (h : IsEntry e) where
  entry_length : get_le (take 4 (encode_entry e ++ tail)) ≡ 21 + length e.value
  unfolding encode_entry entry_encoded_size put_le
  entry_length =
      let size : (4 + 8 + 8 + 1 + 4 + length e.value) % 2 ^ 32 - 4 ≡ 21 + length e.value =
        omega (arith, h.2) in
      unfold put_le in
      (get_le-put_le_uint32 ((4 + 8 + 8 + 1 + 4 + length e.value) % 2 ^ 32 - 4) (omega (arith, h.2))
        ∙ size)

  key_back : key_at (body e tail) ≡ entry_key e
  unfolding key_at body encode_entry put_le
  key_back =
      unfold put_le in
      λ i. record {
        series_id = get_le-put_le_uint64 e.series_id h.0 i;
        timestamp =
            (ap to_int64 (get_le-put_le_uint64 (to_uint64 e.timestamp) (to_uint64-lt e.timestamp))
                ∙ to_int64-to_uint64 e.timestamp h.1)
              i;
      }

  deleted_back : deleted_at (body e tail) ≡ e.deleted
  unfolding deleted_at body encode_entry put_le
  deleted_back = deleted_flag e.deleted

  value_length_back : get_le (slice 17 21 (body e tail)) ≡ length e.value
  unfolding body encode_entry put_le
  value_length_back = unfold put_le in get_le-put_le_uint32 (length e.value) (omega (arith, h.2))

  value_slice : slice 21 (21 + length e.value) (body e tail) ≡ e.value
  unfolding body encode_entry put_le
  value_slice =
      let n : 21 + length e.value - 21 ≡ length e.value = omega arith in
      rw n (take-append e.value tail)

  value_back : value_at (21 + length e.value) (body e tail) ≡ ok e.value
  unfolding value_at
  value_back = rw (
    value_length_back,
    le→ltb (21 + length e.value) (21 + length e.value) (omega arith),
    value_slice,
  )

  behind_header : drop 21 (body e tail) ≡ e.value ++ tail
  unfolding body encode_entry put_le
  behind_header = refl

  rest_back : drop (21 + length e.value) (body e tail) ≡ tail
  rest_back =
      drop_add 21 (length e.value) (body e tail)
      ∙ ap (drop (length e.value)) behind_header
      ∙ drop-append e.value tail

  length-body : length (body e tail) ≡ 21 + length e.value + length tail
  unfolding body encode_entry put_le
  length-body = omega (arith, length-append e.value tail)

  long : length (encode_entry e ++ tail) ≡ 25 + length e.value + length tail
  long = omega (arith, length-append (encode_entry e) tail, length-encode_entry e)

  entry_back : entry_at (21 + length e.value) (body e tail) ≡ ok e
  unfolding entry_at
  entry_back = rw (value_back, key_back, deleted_back)

  -- One round of each reader, at an encoded entry.
  pub read_round :
      (fuel : ℕ)
      → read_loop (suc fuel) (encode_entry e ++ tail) ≡ (read_loop fuel tail >>= λ es. ok (e ∷ es))
  unfolding read_loop body
  read_round fuel = rw (
    entry_length,
    long,
    ne→== (25 + length e.value + length tail) 0 (omega arith),
    le→ltb (25 + length e.value + length tail) 4 (omega arith),
    length-body,
    le→ltb (21 + length e.value + length tail) (21 + length e.value) (omega arith),
    le→ltb (21 + length e.value) 21 (omega arith),
    entry_back,
    rest_back,
  )
