-- ===== src/SsTable/Writer/Layout.antt =====
-- What the writer has written: a header, the blocks one behind the other, and an index of them.
use mathlib.Core.Path.{subst}
use mathlib.Core.List.{append-nil, append_assoc, map-append}
use wisp_db.Base.{
  ltb, ltb→le, inl, inr, Bool-cases, not, ◌&&◌, Option, none, some, ℕ, ◌+◌, ◌%◌, ◌^◌, ◌<◌, ◌≡◌,
  refl, sym, ap, ◌∙◌, false, List, [], ◌∷◌, ◌++◌, map, arith, length, length-append, All,
  All-append,
}
use wisp_db.Base.Bytes.{put_le}
use wisp_db.SsTable.Entry.{Entry}
use wisp_db.SsTable.Block
use wisp_db.SsTable.Block.Encode.{
  total_size, length-encode_entries, add-size, encode_with_compression_lem,
}
use wisp_db.SsTable.Libraries.{Snappy}
use wisp_db.Base.Result.{Result, ok, Panic}
use wisp_db.SsTable.Block.{entry_encoded_size, empty_block, encode_entries, encode_with_compression}
use wisp_db.SsTable.Index.{IndexEntry}
use wisp_db.SsTable.Writer.{
  Writer, header, write_bytes, new_writer, block_flushed, flush_entries, flush_block, is_empty,
  overflows, append_entry, add, add_entries,
}

abbrev pub NonEmpty : List Entry → Type 0
NonEmpty es = 0 < length es

abbrev pub joined : List (List Entry) → List Entry
joined [] = []
joined (b ∷ bs) = b ++ joined bs

pub joined-append : (xs ys : List (List Entry)) → joined (xs ++ ys) ≡ joined xs ++ joined ys
joined-append [] ys = refl
joined-append (b ∷ xs) ys =
    ap (λ l. b ++ l) (joined-append xs ys) ∙ sym (append_assoc b (joined xs) (joined ys))

module _ (compress : List ℕ → List ℕ) where
  abbrev pub block_bytes : List Entry → List ℕ
  block_bytes es = compress (encode_entries es)

  abbrev pub data_of : List (List Entry) → List ℕ
  data_of [] = []
  data_of (b ∷ bs) = block_bytes b ++ data_of bs

  abbrev pub located : ℕ → List Entry → List Entry → List IndexEntry → List IndexEntry
  located offset b [] rest = rest
  located offset b (e ∷ es) rest =
      record {
        series_id = e.series_id;
        timestamp = e.timestamp;
        offset = offset % 2 ^ 64;
        size = length (block_bytes b) % 2 ^ 32;
      }
      ∷ rest

  -- The index of blocks of which the first stands at an offset.
  abbrev pub index_of : ℕ → List (List Entry) → List IndexEntry
  index_of offset [] = []
  index_of offset (b ∷ bs) = located offset b b (index_of (offset + length (block_bytes b)) bs)

  data_of-append : (xs ys : List (List Entry)) → data_of (xs ++ ys) ≡ data_of xs ++ data_of ys
  data_of-append [] ys = refl
  data_of-append (b ∷ xs) ys =
      ap (λ l. block_bytes b ++ l) (data_of-append xs ys)
      ∙ sym (append_assoc (block_bytes b) (data_of xs) (data_of ys))

  located-append :
      (offset : ℕ) (b es : List Entry) (xs ys : List IndexEntry)
      → located offset b es (xs ++ ys) ≡ located offset b es xs ++ ys
  located-append offset b [] xs ys = refl
  located-append offset b (e ∷ es) xs ys = refl

  index_of-append :
      (offset : ℕ) (xs ys : List (List Entry))
      → index_of offset (xs ++ ys)
        ≡ index_of offset xs ++ index_of (offset + length (data_of xs)) ys
  index_of-append offset [] ys = let e : offset + 0 ≡ offset = omega arith in rw e
  index_of-append offset (b ∷ xs) ys =
      let here = offset + length (block_bytes b) in
      let e : offset + length (block_bytes b ++ data_of xs) ≡ here + length (data_of xs) =
        omega (arith, length-append (block_bytes b) (data_of xs)) in
      rw e (
        ap (located offset b b) (index_of-append here xs ys)
        ∙ located-append offset b b (index_of here xs) (index_of (here + length (data_of xs)) ys))

-- What snappy gives, where it does not panic.
or_empty : Option (List ℕ) → List ℕ
or_empty none = []
or_empty (some c) = c

unfoldable pub encoded : Snappy → List ℕ → List ℕ
unfolding or_empty
encoded snappy bytes = or_empty (snappy.compress bytes)

-- The entries and the block size whose sums an `uint32` and snappy take.
abbrev pub IsSmall : Entry → Type 0
IsSmall e = 25 + length e.value < 2 ^ 31

-- The bytes that stand for a block are decoded to its entries' bytes.
abbrev pub Decodes : (List ℕ → List ℕ) → (List ℕ → Option (List ℕ)) → List Entry → Type 0
Decodes c d b = d (block_bytes c b) ≡ some (encode_entries b)

pub length-header : (block_size : ℕ) → length (header block_size) ≡ 12
unfolding header put_le
length-header block_size = refl

module _ (snappy : Snappy) where
  abbrev c : List ℕ → List ℕ
  c = encoded snappy

  -- The writer has been given these entries.
  pub record IsWriter (w : Writer) (es : List Entry) : Type 0 where
    pub blocks : List (List Entry)
    pub out : w.out ≡ header w.block_size ++ data_of (encoded snappy) blocks
    pub index : w.index ≡ index_of (encoded snappy) 12 blocks
    pub offset : w.offset ≡ length w.out % 2 ^ 64
    pub filled : All NonEmpty blocks
    pub decodes : All (Decodes (encoded snappy) snappy.decompress) blocks
    pub entries : joined blocks ++ w.current_block.entries ≡ es
    pub size : w.current_block.size ≡ total_size w.current_block.entries
    pub small : w.current_block.size < 2 ^ 31
    pub block_size : w.block_size < 2 ^ 31
    pub keys : w.bloom_keys ≡ map (λ e. e.series_id) es
    pub counted : w.entry_count < 2 ^ 64

  pub new_writer-IsWriter :
      (block_size : ℕ) → block_size < 2 ^ 31 → IsWriter (new_writer block_size) []
  unfolding new_writer write_bytes header put_le total_size
  new_writer-IsWriter block_size lt = record {
    blocks = [];
    out = sym (append-nil (header block_size));
    index = refl;
    offset = refl;
    filled = tt;
    decodes = tt;
    entries = refl;
    size = refl;
    small = omega arith;
    block_size = lt;
    keys = refl;
    counted = omega arith;
  }

  -- A block of less than 2 GiB is encoded, and decoded to what it was.
  encode_with_compression-encoded :
      (scratch : List ℕ) (b : Block.Block)
      → b.size ≡ total_size b.entries
      → b.size < 2 ^ 31
      → (buf : List ℕ) × (encode_with_compression snappy.compress scratch b
          ≡ ok (block_bytes (encoded snappy) b.entries, buf))
        × Decodes (encoded snappy) snappy.decompress b.entries
  unfolding encoded or_empty
  encode_with_compression-encoded scratch b size small =
      let z =
        snappy.encodes (encode_entries b.entries)
          (omega (arith, length-encode_entries b.entries, size, small)) in
      let r =
        encode_with_compression_lem snappy.compress scratch b z.0 size (omega (arith, size, small))
          z.1 in
      (r.0, rw (z.1) r.1, rw (z.1) (snappy.inverse (encode_entries b.entries) z.0 z.1))

  -- What the flush of a block gives.
  pub record IsFlushed (es : List Entry) (result : Result Panic Writer) : Type 0 where
    pub after : Writer
    pub returns : result ≡ ok after
    pub valid : IsWriter after es
    pub ended : after.current_block.entries ≡ []

  flush_entries-IsFlushed :
      (w : Writer) (es cur : List Entry)
      → w.current_block.entries ≡ cur
      → IsWriter w es
      → IsFlushed es (flush_entries snappy.compress cur w)
  unfolding flush_entries block_flushed write_bytes total_size
  flush_entries-IsFlushed w es [] e v = record { after = w; returns = refl; valid = v; ended = e }
  flush_entries-IsFlushed w es (first ∷ cur) e v =
      let b = first ∷ cur in
      let run = encode_with_compression-encoded w.block_buf w.current_block v.size v.small in
      let written = block_bytes c w.current_block.entries in
      let same : written ≡ block_bytes c b = ap (block_bytes c) e in
      let long = length-append (header w.block_size) (data_of c v.blocks) in
      let out_length = ap length v.out in
      let twelve = length-header w.block_size in
      let at_end : w.offset ≡ (12 + length (data_of c v.blocks)) % 2 ^ 64 =
        v.offset ∙ ap (λ n. n % 2 ^ 64) (out_length ∙ omega (arith, long, twelve)) in
      let longer = length-append w.out written in
      record {
        after = block_flushed first (written, run.0) w;
        returns = rw (run.1) refl;
        ended = refl;
        valid = record {
          blocks = v.blocks ++ b ∷ [];
          out =
              ap (λ o. o ++ written) v.out
              ∙ append_assoc (header w.block_size) (data_of c v.blocks) written
              ∙ ap (λ o. header w.block_size ++ o)
                  (ap (λ o. data_of c v.blocks ++ o) (same ∙ sym (append-nil (block_bytes c b)))
                    ∙ sym (data_of-append c v.blocks (b ∷ [])));
          index =
              (λ i.
                v.index i
                ++ record {
                  series_id = first.series_id;
                  timestamp = first.timestamp;
                  offset = at_end i;
                  size = length (same i) % 2 ^ 32;
                }
                  ∷ [])
              ∙ sym (index_of-append c 12 v.blocks (b ∷ []));
          offset = omega (arith, v.offset, longer);
          filled = All-append NonEmpty v.blocks (b ∷ []) v.filled (omega arith, tt);
          decodes =
              All-append (Decodes c snappy.decompress) v.blocks (b ∷ []) v.decodes
                (subst (Decodes c snappy.decompress) e run.2, tt);
          entries =
              append-nil (joined (v.blocks ++ b ∷ []))
              ∙ joined-append v.blocks (b ∷ [])
              ∙ ap (λ l. joined v.blocks ++ l) (append-nil b ∙ sym e)
              ∙ v.entries;
          size = refl;
          small = omega arith;
          block_size = v.block_size;
          keys = v.keys;
          counted = v.counted;
        };
      }

  pub flush_block-IsFlushed :
      (w : Writer) (es : List Entry) → IsWriter w es → IsFlushed es (flush_block snappy.compress w)
  unfolding flush_block
  flush_block-IsFlushed w es v = flush_entries-IsFlushed w es w.current_block.entries refl v

  append_entry-IsWriter :
      (w : Writer) (es : List Entry) (e : Entry)
      → IsWriter w es
      → w.current_block.size + (25 + length e.value) < 2 ^ 31
      → IsWriter (append_entry e w) (es ++ e ∷ [])
  unfolding append_entry Block.add entry_encoded_size
  append_entry-IsWriter w es e v lt = record {
    blocks = v.blocks;
    out = v.out;
    index = v.index;
    offset = v.offset;
    filled = v.filled;
    decodes = v.decodes;
    entries =
        sym (append_assoc (joined v.blocks) w.current_block.entries (e ∷ []))
        ∙ ap (λ l. l ++ e ∷ []) v.entries;
    size = add-size w.current_block e v.size (omega (arith, lt));
    small = omega (arith, lt);
    block_size = v.block_size;
    keys = ap (λ l. l ++ e.series_id ∷ []) v.keys ∙ sym (map-append (λ e. e.series_id) es (e ∷ []));
    counted = omega arith;
  }

  -- Where Add flushes nothing, the entry fits: the block is empty, or stays within its size.
  no_overflow :
      (w : Writer) (e : Entry) (cur : List Entry)
      → w.current_block.entries ≡ cur
      → w.current_block.size ≡ total_size w.current_block.entries
      → w.current_block.size < 2 ^ 31
      → w.block_size < 2 ^ 31
      → IsSmall e
      → (not (is_empty cur)
          && ltb w.block_size ((w.current_block.size + entry_encoded_size e) % 2 ^ 32))
        ≡ false
      → w.current_block.size + (25 + length e.value) < 2 ^ 31
  unfolding is_empty entry_encoded_size
  no_overflow w e [] is size small block_size lt fits =
      let zero_size : total_size w.current_block.entries ≡ 0 =
        ap total_size is ∙ (unfold total_size in refl) in
      omega (arith, size, zero_size, lt)
  no_overflow w e (x ∷ xs) is size small block_size lt fits =
      let le =
        ltb→le w.block_size
          ((w.current_block.size + (4 + 8 + 8 + 1 + 4 + length e.value) % 2 ^ 32) % 2 ^ 32) fits in
      omega (arith, le, small, block_size, lt)

  -- What Add gives.
  pub record IsAdded (es : List Entry) (result : Result Panic Writer) : Type 0 where
    pub after : Writer
    pub returns : result ≡ ok after
    pub valid : IsWriter after es

  add-IsAdded :
      (w : Writer) (es : List Entry) (e : Entry)
      → IsWriter w es
      → IsSmall e
      → IsAdded (es ++ e ∷ []) (add snappy.compress w e)
  unfolding add overflows total_size
  add-IsAdded w es e v lt = elim (Bool-cases (overflows e w)) [
    | inl full ↦
        let f = flush_block-IsFlushed w es v in
        let none_left : f.after.current_block.size ≡ 0 = f.valid.size ∙ ap total_size f.ended in
        record {
          after = append_entry e f.after;
          returns = rw (full, f.returns) refl;
          valid = append_entry-IsWriter f.after es e f.valid (omega (arith, none_left, lt));
        }
    | inr room ↦ record {
      after = append_entry e w;
      returns = rw room refl;
      valid =
          append_entry-IsWriter w es e v
            (no_overflow w e w.current_block.entries refl v.size v.small v.block_size lt room);
    }
  ]

  pub add_entries-IsAdded :
      (es before : List Entry) (w : Writer)
      → IsWriter w before
      → All IsSmall es
      → IsAdded (before ++ es) (add_entries snappy.compress w es)
  unfolding add_entries
  add_entries-IsAdded [] before w v h = record {
    after = w;
    returns = refl;
    valid = subst (IsWriter w) (sym (append-nil before)) v;
  }
  add_entries-IsAdded (e ∷ es) before w v h =
      let a = add-IsAdded w before e v h.0 in
      let r = add_entries-IsAdded es (before ++ e ∷ []) a.after a.valid h.1 in
      record {
        after = r.after;
        returns = rw (a.returns) r.returns;
        valid = subst (IsWriter r.after) (append_assoc before (e ∷ []) es) r.valid;
      }
