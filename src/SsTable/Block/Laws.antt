-- ===== src/SsTable/Block/Laws.antt =====
-- The encoding of a block in sstable/block.go and its two readers in sstable/reader.go, together.
use mathlib.Core.List.{append_assoc, append-nil}
use wisp_db.Base.{
  ℕ, zero, suc, ◌+◌, ◌^◌, ◌<◌, ◌≡◌, refl, sym, ap, ◌∙◌, ◌||◌, some, inl, inr, List, [], ◌∷◌, ◌++◌,
  arith, ltb, ◌==◌, if◌then◌else◌, length, length-append, take, drop, All, Bool-cases,
}
use wisp_db.Base.Bytes.{get_le}
use wisp_db.Base.Result.{ok, ◌>>=◌, bind_ok}
use wisp_db.Key.{Key, key_eq}
use wisp_db.SsTable.Entry.{Entry, IsEntry, entry_key, find_entry, find_entry-cons}
use wisp_db.SsTable.Block.{
  Block, empty_block, add, encode, encode_entry, encode_entries, key_at, deleted_at, value_at,
  entry_at, read_loop, read_block, find_loop, find_entry_in_block,
}
use wisp_db.SsTable.Block.Encode.{total_size, total_size-append, add-size, encode-encode_entries}
use wisp_db.SsTable.Block.Rounds.{length-encode_entry, read_round}

read_loop-encode_entries :
    (es : List Entry) (fuel : ℕ)
    → All IsEntry es
    → length (encode_entries es) < fuel
    → read_loop fuel (encode_entries es) ≡ ok es
unfolding read_loop encode_entries
read_loop-encode_entries es zero h f = absurd (omega arith)
read_loop-encode_entries [] (suc fuel) h f = refl
read_loop-encode_entries (e ∷ es) (suc fuel) h f =
    let shorter : length (encode_entries es) < fuel =
      omega (arith, length-append (encode_entry e) (encode_entries es), length-encode_entry e) in
    read_round e (encode_entries es) h.0 fuel
    ∙ ap (λ r. r >>= λ more. ok (e ∷ more)) (read_loop-encode_entries es fuel h.1 shorter)

pub read_block-encode_entries :
    (es : List Entry) → All IsEntry es → read_block (encode_entries es) ≡ ok es
unfolding read_block
read_block-encode_entries es h = read_loop-encode_entries es _ h (omega arith)

-- Add of each of the entries, in order.
unfoldable pub add_each : Block → List Entry → Block
add_each b [] = b
add_each b (e ∷ es) = add_each (add b e) es

add_each-size :
    (es : List Entry) (b : Block)
    → b.size ≡ total_size b.entries
    → total_size b.entries + total_size es < 2 ^ 32
    → ((add_each b es).size ≡ total_size (b.entries ++ es))
      × ((add_each b es).entries ≡ b.entries ++ es)
unfolding add_each
add_each-size [] b is lt = let nil = append-nil b.entries in (is ∙ ap total_size (sym nil), sym nil)
add_each-size (e ∷ es) b is lt =
    let here : total_size (e ∷ es) ≡ 25 + length e.value + total_size es =
      unfold total_size in refl in
    let grown : total_size (add b e).entries ≡ total_size b.entries + (25 + length e.value) =
      unfold add in
      (total_size-append b.entries (e ∷ [])
        ∙ ap (λ n. total_size b.entries + n) (unfold total_size in omega arith)) in
    let size = add-size b e is (omega (arith, is, lt, here)) in
    let rest = add_each-size es (add b e) size (omega (arith, grown, lt, here)) in
    let shift : (add b e).entries ++ es ≡ b.entries ++ e ∷ es =
      unfold add in append_assoc b.entries (e ∷ []) es in
    (rest.0 ∙ ap total_size shift, rest.1 ∙ shift)

-- Entries that Go's types can hold, whose encoded sizes are together below 4 GiB, are added to an
-- empty block one after the other. Whatever buffer is there, Encode of the block does not panic,
-- and its bytes are read back as the entries.
pub read_block-encode :
    (scratch : List ℕ) (es : List Entry)
    → All IsEntry es
    → total_size es < 2 ^ 32
    → (bytes : List ℕ) × (buf : List ℕ) × (encode scratch (add_each empty_block es)
        ≡ ok (bytes, buf))
      × (read_block bytes ≡ ok es)
read_block-encode scratch es h lt =
    let b = add_each empty_block es in
    let (size, entries) =
      add_each-size es empty_block (unfold total_size in refl)
        (unfold total_size in omega (arith, lt)) in
    let done =
      encode-encode_entries scratch b (size ∙ ap total_size (sym entries))
        (omega (arith, ap total_size entries, lt)) in
    (
      encode_entries b.entries,
      done.0,
      done.1,
      ap (λ l. read_block (encode_entries l)) entries ∙ read_block-encode_entries es h,
    )

-- Where the front entry decodes, its value does.
entry_at_ok :
    (n : ℕ) (bytes : List ℕ) (e : Entry)
    → entry_at n bytes ≡ ok e
    → (value_at n bytes ≡ ok e.value)
      × (key_at bytes ≡ entry_key e)
      × (deleted_at bytes ≡ e.deleted)
unfolding entry_at
entry_at_ok n bytes e h =
    let (v, at, is) = bind_ok (value_at n bytes) _ h in
    let same : ◌≡◌ {A = Entry}
        (record {
          series_id = (key_at bytes).series_id;
          timestamp = (key_at bytes).timestamp;
          deleted = deleted_at bytes;
          value = v;
        })
        e =
      cc in
    (
      at ∙ ap (λ (x : Entry). ok x.value) same,
      ap entry_key same,
      ap (λ (x : Entry). x.deleted) same,
    )

-- The front entry is the answer, or the answer is behind it.
find_front :
    (k : Key) (n fuel : ℕ) (rest : List ℕ) (e : Entry) (es : List Entry)
    → value_at n rest ≡ ok e.value
    → key_at rest ≡ entry_key e
    → deleted_at rest ≡ e.deleted
    → find_loop fuel k (drop n rest) ≡ ok (find_entry k es)
    → (if key_eq (key_at rest) k
        then (value_at n rest >>= λ value. ok (some (value, deleted_at rest)))
        else find_loop fuel k (drop n rest))
      ≡ ok (find_entry k (e ∷ es))
find_front k n fuel rest e es value key deleted behind =
    rw (find_entry-cons k e es, key)
      (elim (Bool-cases (key_eq (entry_key e) k)) [
        | inl y ↦ rw (y, value, deleted)
        | inr y ↦ rw (y, behind)
      ])

find_loop-read_loop :
    (k : Key) (fuel : ℕ) (bytes : List ℕ) (es : List Entry)
    → read_loop fuel bytes ≡ ok es
    → find_loop fuel k bytes ≡ ok (find_entry k es)
unfolding read_loop find_loop
find_loop-read_loop k zero bytes es h = cc
find_loop-read_loop k (suc fuel) bytes es h =
    let n = get_le (take 4 bytes) in
    let rest = drop 4 bytes in
    elim (Bool-cases (length bytes == 0)) [
      | inl z ↦
          let none_left : ok [] ≡ ok es = rw z at h in
          let nil : [] ≡ es = cc in rw (z, ← nil) (unfold find_entry in refl)
      | inr z ↦ elim (Bool-cases (ltb (length bytes) 4)) [
        | inl few ↦ let failed = rw (z, few) at h in cc
        | inr few ↦ elim (Bool-cases (ltb (length rest) n || ltb n 21)) [
          | inl bad ↦ let failed = rw (z, few, bad) at h in cc
          | inr bad ↦
              let (e, at, more) = bind_ok (entry_at n rest) _ (rw (z, few, bad) at h) in
              let (es', at', is) = bind_ok (read_loop fuel (drop n rest)) _ more in
              let (value, key, deleted) = entry_at_ok n rest e at in
              let whole : e ∷ es' ≡ es = cc in
              let behind = find_loop-read_loop k fuel (drop n rest) es' at' in
              rw (z, few, bad)
                (find_front k n fuel rest e es' value key deleted behind
                  ∙ ap (λ l. ok (find_entry k l)) whole)
        ]
      ]
    ]

-- On any bytes that readBlock decodes, findEntryInBlock gives the first entry of the key, or
-- nothing if there is none.
pub find_entry_in_block-read_block :
    (k : Key) (bytes : List ℕ) (es : List Entry)
    → read_block bytes ≡ ok es
    → find_entry_in_block k bytes ≡ ok (find_entry k es)
unfolding read_block find_entry_in_block
find_entry_in_block-read_block k bytes es h = find_loop-read_loop k (suc (length bytes)) bytes es h
