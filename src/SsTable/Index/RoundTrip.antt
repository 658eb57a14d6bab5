-- ===== src/SsTable/Index/RoundTrip.antt =====
-- An encoded index, read back.
use wisp_db.Base.{
  ℕ, ◌*◌, ◌/◌, ◌%◌, ◌<◌, ◌^◌, ◌≡◌, refl, ap, ◌∙◌, List, [], ◌∷◌, ◌++◌, arith, length, drop, All,
}
use wisp_db.Base.Int.{to_uint64, to_int64, to_uint64-lt, to_int64-to_uint64, IsInt64}
use wisp_db.Base.Bytes.{put_le, get_le-put_le_uint32, get_le-put_le_uint64}
use wisp_db.Base.Result.{ok}
use wisp_db.SsTable.Index.{
  IndexEntry, encode_index_entry, encode_index, index_entry_at, read_entries, read_index,
}

-- The values that Go's types can hold.
abbrev pub IsIndexEntry : IndexEntry → Type 0
IsIndexEntry e =
    (e.series_id < 2 ^ 64) × IsInt64 e.timestamp × (e.offset < 2 ^ 64) × (e.size < 2 ^ 32)

entry_back :
    (e : IndexEntry) (tail : List ℕ)
    → IsIndexEntry e
    → index_entry_at (encode_index_entry e ++ tail) ≡ e
unfolding index_entry_at encode_index_entry put_le
entry_back e tail h =
    unfold put_le in
    λ i. record {
      series_id = get_le-put_le_uint64 e.series_id h.0 i;
      timestamp =
          (ap to_int64 (get_le-put_le_uint64 (to_uint64 e.timestamp) (to_uint64-lt e.timestamp))
              ∙ to_int64-to_uint64 e.timestamp h.1)
            i;
      offset = get_le-put_le_uint64 e.offset h.2 i;
      size = get_le-put_le_uint32 e.size h.3 i;
    }

drop_entry : (e : IndexEntry) (tail : List ℕ) → drop 28 (encode_index_entry e ++ tail) ≡ tail
unfolding encode_index_entry put_le
drop_entry e tail = refl

pub length-encode_index : (es : List IndexEntry) → length (encode_index es) ≡ 28 * length es
unfolding encode_index encode_index_entry put_le
length-encode_index [] = omega arith
length-encode_index (e ∷ es) = let r = length-encode_index es in omega (arith, r)

read_entries-encode_index :
    (es : List IndexEntry) → All IsIndexEntry es → read_entries (length es) (encode_index es) ≡ es
unfolding read_entries encode_index
read_entries-encode_index [] h = refl
read_entries-encode_index (e ∷ es) h =
    rw (entry_back e (encode_index es) h.0, drop_entry e (encode_index es))
      (ap (◌∷◌ e) (read_entries-encode_index es h.1))

-- An index of entries that Go's types can hold, encoded, is read back whole.
pub read_index-encode_index :
    (es : List IndexEntry) → All IsIndexEntry es → read_index (encode_index es) ≡ ok es
unfolding read_index
read_index-encode_index es h =
    let n = length-encode_index es in
    let whole : length (encode_index es) % 28 ≡ 0 = omega (arith, n) in
    let count : length (encode_index es) / 28 ≡ length es = omega (arith, n) in
    rw (whole, count) (ap ok (read_entries-encode_index es h))
