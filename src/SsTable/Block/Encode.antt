-- ===== src/SsTable/Block/Encode.antt =====
-- Encode of sstable/block.go, for a block whose size is the sum of its entries' sizes.
use mathlib.Core.List.{append_assoc}
use wisp_db.Base.{
  ℕ, ◌+◌, ◌%◌, ◌^◌, ◌≤◌, ◌<◌, ◌≡◌, refl, sym, ap, ◌∙◌, false, inl, inr, some, Option, List, [], ◌∷◌,
  ◌++◌, arith, ltb, le→ltb, Bool-cases, ltb→le, length, length-append, take, drop, take_all,
  take-append, drop-append, drop_add, length-drop, length-replicate, replicate,
}
use wisp_db.Base.Result.{ok, ◌>>=◌}
use wisp_db.SsTable.Entry.{Entry}
use wisp_db.SsTable.Block.{
  Block, entry_encoded_size, encode_entry, encode_entries, encode_loop, encode,
  encode_with_compression, of_compress, add,
}
use wisp_db.SsTable.Block.Rounds.{length-encode_entry}

-- The sizes of the entries together.
unfoldable pub total_size : List Entry → ℕ
total_size [] = 0
total_size (e ∷ es) = 25 + length e.value + total_size es

pub length-encode_entries : (es : List Entry) → length (encode_entries es) ≡ total_size es
unfolding encode_entries total_size
length-encode_entries [] = refl
length-encode_entries (e ∷ es) = omega (
  arith,
  length-append (encode_entry e) (encode_entries es),
  length-encode_entry e,
  length-encode_entries es,
)

pub total_size-append : (xs ys : List Entry) → total_size (xs ++ ys) ≡ total_size xs + total_size ys
unfolding total_size
total_size-append [] ys = omega arith
total_size-append (x ∷ xs) ys = omega (arith, total_size-append xs ys)

-- Add where an `uint32` holds the sum.
pub add-size :
    (b : Block) (e : Entry)
    → b.size ≡ total_size b.entries
    → b.size + (25 + length e.value) < 2 ^ 32
    → (add b e).size ≡ total_size (add b e).entries
unfolding add entry_encoded_size total_size
add-size b e h fits = omega (arith, h, fits, total_size-append b.entries (e ∷ []))

encode_loop_lem :
    (es : List Entry) (pre rest : List ℕ)
    → total_size es ≤ length rest
    → length pre + total_size es < 2 ^ 32
    → encode_loop es (length pre) (pre ++ rest)
      ≡ ok (pre ++ (encode_entries es ++ drop (total_size es) rest))
unfolding encode_loop encode_entries total_size
encode_loop_lem [] pre rest le lt = refl
encode_loop_lem (e ∷ es) pre rest le lt =
    let n = 25 + length e.value in
    let size : entry_encoded_size e ≡ n = unfold entry_encoded_size in omega (arith, lt) in
    let end : (length pre + n) % 2 ^ 32 ≡ length pre + n = omega (arith, lt) in
    let bytes = encode_entry e in
    let long = length-encode_entry e in
    let room : ltb (length (pre ++ rest)) (length pre + n) ≡ false =
      le→ltb _ _ (omega (arith, length-append pre rest, le)) in
    let forward : ltb (length pre + n) (length pre) ≡ false = le→ltb _ _ (omega arith) in
    let wide : ltb n 25 ≡ false = le→ltb n 25 (omega arith) in
    let whole : take n bytes ≡ bytes = take_all bytes n (omega (arith, long)) in
    let before : take (length pre) (pre ++ rest) ≡ pre = take-append pre rest in
    let behind : drop (length pre + n) (pre ++ rest) ≡ drop n rest =
      drop_add (length pre) n (pre ++ rest) ∙ ap (drop n) (drop-append pre rest) in
    let at : length (pre ++ bytes) ≡ length pre + n =
      omega (arith, length-append pre bytes, long) in
    let next =
      encode_loop_lem es (pre ++ bytes) (drop n rest) (omega (arith, length-drop n rest, le))
        (omega (arith, at, lt)) in
    rw (size, end, room, forward, wide, whole, before, behind)
      (ap (encode_loop es (length pre + n)) (sym (append_assoc pre bytes (drop n rest)))
        ∙ ap (λ o. encode_loop es o ((pre ++ bytes) ++ drop n rest)) (sym at)
        ∙ next
        ∙ ap ok (
            append_assoc pre bytes (encode_entries es ++ drop (total_size es) (drop n rest))
            ∙ ap (λ l. pre ++ l)
                (sym (append_assoc bytes (encode_entries es) (drop (total_size es) (drop n rest)))
                  ∙ ap (λ l. (bytes ++ encode_entries es) ++ l)
                      (sym (drop_add n (total_size es) rest)))))

-- Encode of a block of its right size, whatever buffer is there, gives its entries.
pub encode-encode_entries :
    (scratch : List ℕ) (b : Block)
    → b.size ≡ total_size b.entries
    → total_size b.entries < 2 ^ 32
    → (buf : List ℕ) × (encode scratch b ≡ ok (encode_entries b.entries, buf))
unfolding encode
encode-encode_entries scratch b is lt = elim (Bool-cases (ltb (length scratch) b.size)) [
  | inl small ↦
      rw small (go (replicate b.size 0) (omega (arith, is, length-replicate {A = ℕ} b.size 0)))
  | inr large ↦ rw large (go scratch (omega (arith, is, ltb→le (length scratch) b.size large)))
]
  where
    go :
        (buf : List ℕ)
        → total_size b.entries ≤ length buf
        → (buf' : List ℕ) × (◌>>=◌ {B = List ℕ × List ℕ}
              (encode_loop b.entries 0 buf)
              (λ l. ok (take b.size l, l))
            ≡ ok (encode_entries b.entries, buf'))
    go buf le =
        let done = encode_entries b.entries ++ drop (total_size b.entries) buf in
        let runs : encode_loop b.entries 0 buf ≡ ok done =
          encode_loop_lem b.entries [] buf le (omega (arith, lt)) in
        let size : b.size ≡ length (encode_entries b.entries) =
          is ∙ sym (length-encode_entries b.entries) in
        (
          done,
          rw (runs, size)
              (ap (λ l. ok (l, done))
                (take-append (encode_entries b.entries) (drop (total_size b.entries) buf))),
        )

pub encode_with_compression_lem :
    (compress : List ℕ → Option (List ℕ)) (scratch : List ℕ) (b : Block) (c : List ℕ)
    → b.size ≡ total_size b.entries
    → total_size b.entries < 2 ^ 32
    → compress (encode_entries b.entries) ≡ some c
    → (buf : List ℕ) × (encode_with_compression compress scratch b ≡ ok (c, buf))
unfolding encode_with_compression of_compress
encode_with_compression_lem compress scratch b c is lt e =
    let r = encode-encode_entries scratch b is lt in (r.0, rw (r.1, e) refl)
