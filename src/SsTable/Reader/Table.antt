-- ===== src/SsTable/Reader/Table.antt =====
-- A table from its entries to its file and back: what the reader finds in the file that the writer
-- has closed.
use mathlib.Core.Path.{subst}
use mathlib.Core.Bool.{true≢false}
use mathlib.Core.List.{append-nil, append_assoc}
use wisp_db.Base.{
  ℕ, ◌+◌, ◌^◌, ◌<◌, ◌≡◌, refl, sym, ap, ◌∙◌, Bool, true, false, inl, inr, Option, none, List, [],
  ◌∷◌, ◌++◌, map, arith, if◌then◌else◌, Bool-cases, length, length-append, All, All-split,
}
use wisp_db.Base.Result.{Result, ok, ◌>>=◌, map_err, ok-injective, Panic}
use wisp_db.Key.{Key, key_lt, key_eq}
use wisp_db.Key.Order.{key_eq→eq}
use wisp_db.SsTable.Libraries.{Snappy, Filters}
use wisp_db.SsTable.Entry.{Entry, IsEntry, IsStored, entry_key, find_entry}
use wisp_db.SsTable.Sorted.{IsAscendingEntries, IsAscendingEntries-append, AllAbove}
use wisp_db.SsTable.Bloom.{BloomFilter, new_bloom_filter, add_all, may_contain}
use wisp_db.SsTable.Bloom.Laws.{IsBloom, new_bloom_filter-IsBloom, add_all-may_contain}
use wisp_db.SsTable.Bloom.Sizes.{new_bloom_filter_bounds, add_all_sizes, may_contain_total}
use wisp_db.SsTable.Index.{IndexEntry, encode_index, find_block}
use wisp_db.SsTable.Index.Laws.{
  index_key, IsAscendingIndex, last_not_above, find_block-last_not_above,
}
use wisp_db.SsTable.Index.RoundTrip.{IsIndexEntry}
use wisp_db.SsTable.Block
use wisp_db.SsTable.Block.{encode_entries}
use wisp_db.SsTable.Block.Laws.{read_block-encode_entries}
use wisp_db.SsTable.Bloom
use wisp_db.SsTable.Writer.{
  Writer, header, new_writer, build_bloom_filter, sealed_file, close, write_table,
}
use wisp_db.SsTable.Writer.Layout.{
  NonEmpty, joined, block_bytes, data_of, index_of, IsWriter, length-header, new_writer-IsWriter,
  flush_block-IsFlushed, add_entries-IsAdded, Decodes, encoded, IsSmall,
}
use wisp_db.SsTable.Reader.{
  Reader, ReadError, open_reader, answer, missing, get, panic, filter_allows, search_block,
  reader_may_contain, block_data, read_block,
}
use wisp_db.SsTable.Iterator.Laws.{readable}
use wisp_db.SsTable.Reader.Search.{block_data_written, search_block-index_of}
use wisp_db.SsTable.Reader.Open.{opened, foot, open_reader-sealed_file, sealed_file-append}

module _ (compress : List ℕ → List ℕ) where
  index_of-above :
      (k : Key) (bs : List (List Entry)) (offset : ℕ)
      → All NonEmpty bs
      → AllAbove k (joined bs)
      → All (λ f. key_lt k (index_key f) ≡ true) (index_of compress offset bs)
  index_of-above k [] offset n h = tt
  index_of-above k ([] ∷ bs) offset n h = absurd (omega (arith, n.0))
  index_of-above k ((x ∷ xs) ∷ bs) offset n h =
      (h.0, index_of-above k bs _ n.1 (All-split _ xs (joined bs) h.1).1)

  index_of-IsAscendingIndex :
      (bs : List (List Entry)) (offset : ℕ)
      → All NonEmpty bs
      → IsAscendingEntries (joined bs)
      → IsAscendingIndex (index_of compress offset bs)
  unfolding IsAscendingIndex
  index_of-IsAscendingIndex [] offset n asc = tt
  index_of-IsAscendingIndex ([] ∷ bs) offset n asc = absurd (omega (arith, n.0))
  index_of-IsAscendingIndex ((x ∷ xs) ∷ bs) offset n asc =
      let parts = IsAscendingEntries-append (x ∷ xs) (joined bs) asc in
      (index_of-above (entry_key x) bs _ n.1 parts.2.0, index_of-IsAscendingIndex bs _ n.1 parts.1)

  index_of-IsIndexEntry :
      (bs : List (List Entry)) (offset : ℕ)
      → All (All IsEntry) bs
      → All IsIndexEntry (index_of compress offset bs)
  index_of-IsIndexEntry [] offset h = tt
  index_of-IsIndexEntry ([] ∷ bs) offset h = index_of-IsIndexEntry bs _ h.1
  index_of-IsIndexEntry ((x ∷ xs) ∷ bs) offset h =
      ((h.0.0.0, h.0.0.1, omega arith, omega arith), index_of-IsIndexEntry bs _ h.1)

All-joined {ℓ} : (P : Entry → Type ℓ) (bs : List (List Entry)) → All P (joined bs) → All (All P) bs
All-joined P [] h = tt
All-joined P (b ∷ bs) h = let r = All-split P b (joined bs) h in (r.0, All-joined P bs r.1)

-- A key of a series that the filter excludes is not there.
excluded :
    (hashfunc : ℕ → ℕ × ℕ) (b : BloomFilter) (k : Key) (es : List Entry)
    → All (λ s. may_contain hashfunc b s ≡ ok true) (map (λ e. e.series_id) es)
    → may_contain hashfunc b k.series_id ≡ ok false
    → find_entry k es ≡ none
unfolding find_entry
excluded hashfunc b k [] h n = refl
excluded hashfunc b k (x ∷ xs) h n = elim (Bool-cases (key_eq (entry_key x) k)) [
  | inl e ↦
      let yes : may_contain hashfunc b k.series_id ≡ ok true =
        sym (ap (λ l. may_contain hashfunc b l.series_id) (key_eq→eq (entry_key x) k e)) ∙ h.0 in
      absurd (true≢false (ok-injective true false (sym yes ∙ n)))
  | inr e ↦ rw e (excluded hashfunc b k xs h.1 n)
]

stored-IsEntry : (es : List Entry) → All IsStored es → All IsEntry es
stored-IsEntry [] h = tt
stored-IsEntry (e ∷ es) h = ((h.0.0, h.0.1, omega (arith, h.0.2)), stored-IsEntry es h.1)

stored-IsSmall : (es : List Entry) → All IsStored es → All IsSmall es
stored-IsSmall [] h = tt
stored-IsSmall (e ∷ es) h = (h.0.2, stored-IsSmall es h.1)

module _ (snappy : Snappy) (filters : Filters) where
  -- The reader is what opening its file gives, and answers and yields what stands in these entries.
  pub record IsTable (r : Reader) (es : List Entry) : Type 0 where
    pub finds :
        (k : Key) → get snappy.decompress filters.hashfunc r k ≡ ok (answer (find_entry k es))
    pub reopens : open_reader r.file ≡ ok r
    pub yields : readable (map (read_block snappy.decompress r) r.index) ≡ es

  unfoldable pub write : ℕ → List Entry → Result Panic (List ℕ)
  write block_size es =
      write_table snappy.compress filters.hashfunc filters.bits_for filters.hashes_for block_size es

  read_block_written :
      (r : Reader) (b : List Entry) (entry : IndexEntry)
      → block_data snappy.decompress r.file entry ≡ ok (encode_entries b)
      → All IsEntry b
      → read_block snappy.decompress r entry ≡ ok b
  unfolding read_block map_err
  read_block_written r b entry data_is valid =
      let back : Block.read_block (encode_entries b) ≡ ok b = read_block-encode_entries b valid in
      rw (data_is, back) refl

  yields_cons :
      (d : Result ReadError (List Entry)) (b rest : List Entry)
      (ds : List (Result ReadError (List Entry)))
      → d ≡ ok b
      → readable ds ≡ rest
      → readable (d ∷ ds) ≡ b ++ rest
  unfolding readable
  yields_cons d b rest ds e f = ap (λ x. readable (x ∷ ds)) e ∙ ap (λ l. b ++ l) f

  yields_blocks :
      (r : Reader) (bs : List (List Entry)) (pre post : List ℕ)
      → r.file ≡ pre ++ (data_of (encoded snappy) bs ++ post)
      → length r.file < 2 ^ 32
      → All NonEmpty bs
      → All (Decodes (encoded snappy) snappy.decompress) bs
      → All (All IsEntry) bs
      → readable (map (read_block snappy.decompress r) (index_of (encoded snappy) (length pre) bs))
        ≡ joined bs
  unfolding readable
  yields_blocks r [] pre post whole short n decodes valid = refl
  yields_blocks r ([] ∷ bs) pre post whole short n decodes valid = absurd (omega (arith, n.0))
  yields_blocks r ((x ∷ xs) ∷ bs) pre post whole short n decodes valid =
      let c = encoded snappy in
      let b = block_bytes c (x ∷ xs) in
      let here_file = whole ∙ ap (λ l. pre ++ l) (append_assoc b (data_of c bs) post) in
      let next_file = here_file ∙ sym (append_assoc pre b (data_of c bs ++ post)) in
      let next : length (pre ++ b) ≡ length pre + length b = length-append pre b in
      let behind = yields_blocks r bs (pre ++ b) post next_file short n.1 decodes.1 valid.1 in
      let k : Key = entry_key x in
      let data_is =
        block_data_written c snappy.decompress k r.file pre (data_of c bs ++ post) (x ∷ xs) _
          here_file short refl refl decodes.0 in
      let here = read_block_written r (x ∷ xs) _ data_is valid.0 in
      yields_cons _ (x ∷ xs) (joined bs) _ here (
        subst (λ i. readable (map (read_block snappy.decompress r) (index_of c i bs)) ≡ joined bs)
          next behind)

  -- The reader of the sealed file, from what the writer and the filter are.
  module _ (w : Writer) (es : List Entry) (v : IsWriter snappy w es)
      (ended : w.current_block.entries ≡ []) (b : BloomFilter) (bloom : IsBloom b)
      (reports : All (λ s. may_contain filters.hashfunc b s ≡ ok true) (map (λ e. e.series_id) es))
      (valid : All IsEntry es) (asc : IsAscendingEntries es) where
    abbrev sealed : List ℕ
    sealed = sealed_file w b

    all_joined : joined v.blocks ≡ es
    all_joined =
        sym (append-nil (joined v.blocks)) ∙ ap (λ l. joined v.blocks ++ l) (sym ended) ∙ v.entries

    layout :
        sealed
        ≡ header w.block_size
          ++ (data_of (encoded snappy) v.blocks
              ++ (encode_index w.index ++ (Bloom.encode b ++ foot w b)))
    layout =
        sealed_file-append w b (omega (arith, bloom.0.0, bloom.0.1))
        ∙ ap (λ o. o ++ (encode_index w.index ++ (Bloom.encode b ++ foot w b))) v.out
        ∙ append_assoc (header w.block_size) (data_of (encoded snappy) v.blocks)
            (encode_index w.index ++ (Bloom.encode b ++ foot w b))

    blocks_valid : All (All IsEntry) v.blocks
    blocks_valid = All-joined IsEntry v.blocks (subst (All IsEntry) (sym all_joined) valid)

    blocks_asc : IsAscendingEntries (joined v.blocks)
    blocks_asc = subst IsAscendingEntries (sym all_joined) asc

    found :
        (k : Key)
        → length sealed < 2 ^ 32
        → search_block snappy.decompress sealed k (find_block k w.index) ≡ ok (find_entry k es)
    found k short =
        let by_walk : find_block k w.index
            ≡ last_not_above k (index_of (encoded snappy) 12 v.blocks) =
          ap (find_block k) v.index
          ∙ find_block-last_not_above k (index_of (encoded snappy) 12 v.blocks)
              (index_of-IsAscendingIndex (encoded snappy) v.blocks 12 v.filled blocks_asc) in
        ap (search_block snappy.decompress sealed k) by_walk
        ∙ subst
            (λ i.
              search_block snappy.decompress sealed k
                (last_not_above k (index_of (encoded snappy) i v.blocks))
              ≡ ok (find_entry k (joined v.blocks)))
            (length-header w.block_size)
            (search_block-index_of (encoded snappy) snappy.decompress k v.blocks sealed
              (header w.block_size) _ layout short v.filled v.decodes blocks_valid blocks_asc)
        ∙ ap (λ l. ok (find_entry k l)) all_joined

    answers :
        (k : Key) (o : Option (List ℕ × Bool)) (m : Result Panic Bool) (a : Bool)
        → m ≡ ok a
        → (a ≡ false → o ≡ none)
        → (map_err panic m >>= λ allowed. if allowed then ok (answer o) else ok missing)
          ≡ ok (answer o)
    unfolding map_err answer
    answers k o m true e gone =
        ap (λ x. map_err panic x >>= λ allowed. if allowed then ok (answer o) else ok missing) e
    answers k o m false e gone =
        ap (λ x. map_err panic x >>= λ allowed. if allowed then ok (answer o) else ok missing) e
        ∙ ap (λ x. ok (answer x)) (sym (gone refl))

    opened-IsTable :
        length sealed < 2 ^ 32
        → open_reader sealed ≡ ok (opened w b sealed)
        → IsTable (opened w b sealed) es
    unfolding get reader_may_contain filter_allows
    opened-IsTable short opens = record {
      reopens = opens;
      finds = λ k.
          let allowed = may_contain_total filters.hashfunc b k.series_id bloom in
          rw (found k short) (
            answers k (find_entry k es) (may_contain filters.hashfunc b k.series_id) allowed.0
              allowed.1 (λ e. excluded filters.hashfunc b k es reports (allowed.1 ∙ ap ok e)));
      yields =
          ap (λ i. readable (map (read_block snappy.decompress (opened w b sealed)) i)) v.index
          ∙ subst
              (λ i.
                readable (
                  map (read_block snappy.decompress (opened w b sealed))
                    (index_of (encoded snappy) i v.blocks))
                ≡ joined v.blocks)
              (length-header w.block_size)
              (yields_blocks (opened w b sealed) v.blocks (header w.block_size) _ layout short
                v.filled v.decodes blocks_valid)
          ∙ all_joined;
    }

  -- The writer closes a file, without a panic, for entries in ascending order that Go's types can
  -- hold, if the block size and the encoded entries are below 2 GiB; if the file is shorter than 4
  -- GiB, it opens, and its reader answers for every key what the entries have under it, and yields
  -- them in order.
  pub write_table-open_reader :
      (block_size : ℕ) (es : List Entry)
      → block_size < 2 ^ 31
      → All IsStored es
      → IsAscendingEntries es
      → (file : List ℕ) × (write block_size es ≡ ok file)
        × (length file < 2 ^ 32 → (r : Reader) × (open_reader file ≡ ok r) × IsTable r es)
  unfolding write write_table close build_bloom_filter
  write_table-open_reader block_size es small stored asc =
      let valid = stored-IsEntry es stored in
      let added =
        add_entries-IsAdded snappy es [] (new_writer block_size)
          (new_writer-IsWriter snappy block_size small) (stored-IsSmall es stored) in
      let flushed = flush_block-IsFlushed snappy added.after es added.valid in
      let w = flushed.after in
      let v = flushed.valid in
      let ended = flushed.ended in
      let fresh = new_bloom_filter filters.bits_for filters.hashes_for w.entry_count in
      let b = add_all-may_contain filters.hashfunc fresh w.bloom_keys (
        new_bloom_filter-IsBloom filters.bits_for filters.hashes_for w.entry_count
          filters.bits_fit) in
      let sizes = add_all_sizes filters.hashfunc w.bloom_keys fresh b.0 b.1 in
      let bounds =
        new_bloom_filter_bounds filters.bits_for filters.hashes_for w.entry_count filters.bits_fit
          filters.hashes_fit in
      let reports = subst (All (λ s. may_contain filters.hashfunc b.0 s ≡ ok true)) v.keys b.3 in
      (
        sealed_file w b.0,
        rw (added.returns, flushed.returns, b.1) refl,
        λ short.
            let opens =
              open_reader-sealed_file w b.0 v.offset
                (subst (All IsIndexEntry) (sym v.index) (
                  index_of-IsIndexEntry (encoded snappy) v.blocks 12
                    (blocks_valid w es v ended b.0 b.2 reports valid asc)))
                v.counted (omega (arith, sizes.0, bounds.0)) (omega (arith, sizes.1, bounds.1))
                (omega (arith, b.2.0.0, b.2.0.1)) short in
            (
              opened w b.0 (sealed_file w b.0),
              opens,
              opened-IsTable w es v ended b.0 b.2 reports valid asc short opens,
            ),
      )
