-- ===== src/SsTable/Reader/Search.antt =====
-- Reading at an offset, and the search of the written blocks.
use mathlib.Core.Path.{subst}
use mathlib.Core.Option.{none-ne-some}
use mathlib.Core.List.{append_assoc}
use wisp_db.Base.{
  ℕ, suc, ◌+◌, ◌-◌, ◌%◌, ◌^◌, ◌<◌, ◌≡◌, refl, sym, ap, ◌∙◌, true, false, inl, inr, Option, none,
  some, List, [], ◌∷◌, ◌++◌, arith, ltb, leb, le→ltb, ◌==◌, if◌then◌else◌, Bool-cases, length,
  length-append, slice, take-append, drop-append, All,
}
use wisp_db.Base.Result.{ok, map_err, ok-injective}
use wisp_db.Key.{Key, key_lt}
use wisp_db.SsTable.Entry.{Entry, IsEntry, entry_key, find_entry}
use wisp_db.SsTable.Sorted.{
  IsAscendingEntries, IsAscendingEntries-append, AllAbove, AllAbove-trans, find_entry-AllAbove,
  find_entry-append, find_entry-append_none, find_entry_below,
}
use wisp_db.SsTable.Block.{encode_entries, find_entry_in_block}
use wisp_db.SsTable.Block.Laws.{read_block-encode_entries, find_entry_in_block-read_block}
use wisp_db.SsTable.Index.{IndexEntry}
use wisp_db.SsTable.Index.Laws.{last_not_above, later}
use wisp_db.SsTable.Writer.Layout.{NonEmpty, joined, block_bytes, data_of, index_of, Decodes}
use wisp_db.SsTable.Reader.{read_at, block_data, of_snappy, search_block}

pub slice_middle :
    (pre mid post : List ℕ)
    → slice (length pre) (length pre + length mid) (pre ++ (mid ++ post)) ≡ mid
slice_middle pre mid post =
    let n : length pre + length mid - length pre ≡ length mid = omega arith in
    rw (n, drop-append pre (mid ++ post)) (take-append mid post)

-- Bytes that stand behind others are what is read at their length.
pub read_at_lem :
    (pre mid post : List ℕ)
    → length pre < 2 ^ 63
    → read_at (pre ++ (mid ++ post)) (length pre) (length mid) ≡ ok mid
unfolding read_at
read_at_lem pre [] post h = let e : leb (2 ^ 63) (length pre) ≡ false = ground (arith, h) in rw e
read_at_lem pre (b ∷ mid) post h =
    let e : leb (2 ^ 63) (length pre) ≡ false = ground (arith, h) in
    let n : (suc (length mid) == 0) ≡ false = ground arith in
    let a = length-append pre (b ∷ mid ++ post) in
    let c = length-append mid post in
    let fits : ltb (length (pre ++ (b ∷ mid ++ post))) (length pre + suc (length mid)) ≡ false =
      le→ltb _ _ (omega (arith, a, c)) in
    rw (e, n, fits) (ap ok (slice_middle pre (b ∷ mid) post))

find-encode :
    (k : Key) (b : List Entry)
    → All IsEntry b
    → find_entry_in_block k (encode_entries b) ≡ ok (find_entry k b)
find-encode k b h =
    find_entry_in_block-read_block k (encode_entries b) b (read_block-encode_entries b h)

module _ (compress : List ℕ → List ℕ) (decompress : List ℕ → Option (List ℕ)) (k : Key) where
  -- The data of the block at an index entry.
  pub block_data_written :
      (file pre post : List ℕ) (b : List Entry) (entry : IndexEntry)
      → file ≡ pre ++ (block_bytes compress b ++ post)
      → length file < 2 ^ 32
      → entry.offset ≡ length pre % 2 ^ 64
      → entry.size ≡ length (block_bytes compress b) % 2 ^ 32
      → Decodes compress decompress b
      → block_data decompress file entry ≡ ok (encode_entries b)
  unfolding block_data of_snappy
  block_data_written file pre post b entry whole short at size decodes =
      let bytes = block_bytes compress b in
      let a = length-append pre (bytes ++ post) in
      let c = length-append bytes post in
      let l = ap length whole in
      let offset_is : entry.offset ≡ length pre = omega (arith, at, short, a, c, l) in
      let size_is : entry.size ≡ length bytes = omega (arith, size, short, a, c, l) in
      rw (
        whole,
        offset_is,
        size_is,
        read_at_lem pre bytes post (omega (arith, short, a, c, l)),
        decodes,
      )

  heads_above :
      (x : Entry) (ys b : List Entry)
      → All (λ y. AllAbove (entry_key y) (x ∷ ys)) b
      → All (λ y. key_lt (entry_key y) (entry_key x) ≡ true) b
  heads_above x ys [] h = tt
  heads_above x ys (y ∷ b) h = (h.0.0, heads_above x ys b h.1)

  -- The entries of a block stand below the blocks behind it.
  passed :
      (b : List Entry) (offset : ℕ) (bs : List (List Entry)) (f : IndexEntry)
      → All NonEmpty bs
      → All (λ x. AllAbove (entry_key x) (joined bs)) b
      → last_not_above k (index_of compress offset bs) ≡ some f
      → find_entry k b ≡ none
  unfolding last_not_above
  passed b offset [] f n above e = absurd (none-ne-some f e)
  passed b offset ([] ∷ bs) f n above e = absurd (omega (arith, n.0))
  passed b offset ((x ∷ xs) ∷ bs) f n above e = elim (Bool-cases (key_lt k (entry_key x))) [
    | inl t ↦ absurd (none-ne-some f (rw t at e))
    | inr t ↦ find_entry_below k (entry_key x) b (heads_above x (xs ++ joined bs) b above) t
  ]

  -- One block in front of others, by what the search of the others gives.
  search_front :
      (file : List ℕ) (x : Entry) (xs : List Entry) (bs : List (List Entry)) (here : IndexEntry)
      (o : Option IndexEntry)
      → IsAscendingEntries (x ∷ xs ++ joined bs)
      → search_block decompress file k (some here) ≡ ok (find_entry k (x ∷ xs))
      → search_block decompress file k o ≡ ok (find_entry k (joined bs))
      → ((f : IndexEntry) → o ≡ some f → find_entry k (x ∷ xs) ≡ none)
      → search_block decompress file k (if key_lt k (entry_key x) then none else later o here)
        ≡ ok (find_entry k (x ∷ xs ++ joined bs))
  unfolding search_block later IsAscendingEntries
  search_front file x xs bs here o asc at_here behind gone =
      elim (Bool-cases (key_lt k (entry_key x))) [
        | inl t ↦
            let above : AllAbove k (x ∷ xs ++ joined bs) =
              (t, AllAbove-trans k (entry_key x) (xs ++ joined bs) t asc.0) in
            rw (t, find_entry-AllAbove k (x ∷ xs ++ joined bs) above) refl
        | inr t ↦ rw t (go o refl)
      ]
    where
      go :
          (p : Option IndexEntry)
          → o ≡ p
          → search_block decompress file k (later p here) ≡ ok (find_entry k (x ∷ xs ++ joined bs))
      go none e =
          let nothing : find_entry k (joined bs) ≡ none =
            ok-injective (find_entry k (joined bs)) none
              (sym behind ∙ ap (search_block decompress file k) e) in
          at_here ∙ ap ok (sym (find_entry-append_none k (x ∷ xs) (joined bs) nothing))
      go (some f) e =
          ap (search_block decompress file k) (sym e)
          ∙ behind
          ∙ ap ok (sym (find_entry-append k (x ∷ xs) (joined bs) (gone f e)))

  found_in :
      (file : List ℕ) (b : List Entry) (entry : IndexEntry)
      → block_data decompress file entry ≡ ok (encode_entries b)
      → All IsEntry b
      → search_block decompress file k (some entry) ≡ ok (find_entry k b)
  unfolding search_block map_err
  found_in file b entry data_is valid = rw (data_is, find-encode k b valid)

  -- The search of the index of the written blocks gives what is in them.
  pub search_block-index_of :
      (bs : List (List Entry)) (file pre post : List ℕ)
      → file ≡ pre ++ (data_of compress bs ++ post)
      → length file < 2 ^ 32
      → All NonEmpty bs
      → All (Decodes compress decompress) bs
      → All (All IsEntry) bs
      → IsAscendingEntries (joined bs)
      → search_block decompress file k (last_not_above k (index_of compress (length pre) bs))
        ≡ ok (find_entry k (joined bs))
  unfolding last_not_above
  search_block-index_of [] file pre post whole short n decodes valid asc =
      unfold search_block find_entry in refl
  search_block-index_of ([] ∷ bs) file pre post whole short n decodes valid asc =
      absurd (omega (arith, n.0))
  search_block-index_of ((x ∷ xs) ∷ bs) file pre post whole short n decodes valid asc =
      let b = block_bytes compress (x ∷ xs) in
      let parts = IsAscendingEntries-append (x ∷ xs) (joined bs) asc in
      let here_file = whole ∙ ap (λ l. pre ++ l) (append_assoc b (data_of compress bs) post) in
      let next_file = here_file ∙ sym (append_assoc pre b (data_of compress bs ++ post)) in
      let next : length (pre ++ b) ≡ length pre + length b = length-append pre b in
      let behind =
        search_block-index_of bs file (pre ++ b) post next_file short n.1 decodes.1 valid.1
          parts.1 in
      search_front file x xs bs _ (last_not_above k (index_of compress (length pre + length b) bs))
        asc
        (found_in file (x ∷ xs) _
          (block_data_written file pre (data_of compress bs ++ post) (x ∷ xs) _ here_file short refl
            refl decodes.0)
          valid.0)
        (subst
          (λ i.
            search_block decompress file k (last_not_above k (index_of compress i bs))
            ≡ ok (find_entry k (joined bs)))
          next behind)
        (λ f e. passed (x ∷ xs) (length pre + length b) bs f n.1 parts.2 e)
