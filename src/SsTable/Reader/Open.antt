-- ===== src/SsTable/Reader/Open.antt =====
-- Opening the file that the writer has closed.
use mathlib.Core.Path.{subst}
use mathlib.Core.List.{append_assoc}
use wisp_db.Base.{
  ℕ, ◌+◌, ◌-◌, ◌%◌, ◌^◌, ◌<◌, ◌≡◌, refl, sym, ap, ◌∙◌, true, false, some, List, ◌++◌, arith, ltb,
  leb, ne→==, lt→ltb, le→ltb, ==-refl, ◌==◌, if◌then◌else◌, length, length-append, slice, get_or,
  take_all, take-append, drop-append, All,
}
use wisp_db.Base.Bytes.{put_le, crc32, crc32-lt, get_le-put_le_uint32, get_le-put_le_uint64}
use wisp_db.Base.Result.{ok, err, ◌>>=◌, map_err}
use wisp_db.SsTable.Bloom
use wisp_db.SsTable.Bloom.{BloomFilter, decode_bloom_filter}
use wisp_db.SsTable.Bloom.Laws.{decode-encode, length-encode}
use wisp_db.SsTable.Index.{IndexEntry, encode_index}
use wisp_db.SsTable.Index.RoundTrip.{IsIndexEntry, length-encode_index, read_index-encode_index}
use wisp_db.SsTable.Writer.{Writer, magic, version, footer, write_bytes, bloom_bytes, sealed_file}
use wisp_db.SsTable.Reader.{
  checksum_mismatch, Reader, section, load_index, load_bloom_filter, read_footer, open_reader,
}
use wisp_db.SsTable.Reader.Search.{read_at_lem}

module _ (io is bo bs count checksum : ℕ) where
  abbrev whole : List ℕ
  whole = footer io is bo bs count checksum

  footer_length : length whole ≡ 52
  unfolding footer put_le
  footer_length = refl

  footer_magic : slice 0 4 whole ≡ put_le 4 magic
  unfolding footer put_le
  footer_magic = refl

  footer_version : get_or whole 4 0 ≡ version
  unfolding footer put_le
  footer_version = refl

  footer_index_offset : slice 8 16 whole ≡ put_le 8 io
  unfolding footer put_le
  footer_index_offset = refl

  footer_index_size : slice 16 24 whole ≡ put_le 8 is
  unfolding footer put_le
  footer_index_size = refl

  footer_bloom_offset : slice 24 32 whole ≡ put_le 8 bo
  unfolding footer put_le
  footer_bloom_offset = refl

  footer_bloom_size : slice 32 40 whole ≡ put_le 8 bs
  unfolding footer put_le
  footer_bloom_size = refl

  footer_count : slice 40 48 whole ≡ put_le 8 count
  unfolding footer put_le
  footer_count = refl

  footer_checksum : slice 48 52 whole ≡ put_le 4 checksum
  unfolding footer put_le
  footer_checksum = refl

  -- What the reader makes of a footer whose fields fit.
  read_footer-footer :
      (file : List ℕ)
      → (io < 2 ^ 64)
        × (is < 2 ^ 64)
        × (bo < 2 ^ 64)
        × (bs < 2 ^ 64)
        × (count < 2 ^ 64)
        × (checksum < 2 ^ 32)
      → read_footer file whole ≡ (
          load_index file io is >>= λ index. load_bloom_filter file bo bs >>= λ bloom.
          if crc32 (section file (if ltb 0 bs then (bo + bs) % 2 ^ 64 else (io + is) % 2 ^ 64))
            == checksum
          then ok (record { file = file; index = index; entry_count = count; bloom_filter = bloom })
          else err checksum_mismatch)
  unfolding read_footer
  read_footer-footer file h = rw (
    footer_magic,
    footer_version,
    footer_index_offset,
    footer_index_size,
    footer_bloom_offset,
    footer_bloom_size,
    footer_count,
    footer_checksum,
    get_le-put_le_uint64 io h.0,
    get_le-put_le_uint64 is h.1,
    get_le-put_le_uint64 bo h.2,
    get_le-put_le_uint64 bs h.3,
    get_le-put_le_uint64 count h.4,
    get_le-put_le_uint32 checksum h.5,
    get_le-put_le_uint32 magic (omega arith),
  )

load_index_lem :
    (pre post : List ℕ) (es : List IndexEntry)
    → length pre < 2 ^ 63
    → All IsIndexEntry es
    → load_index (pre ++ (encode_index es ++ post)) (length pre) (length (encode_index es)) ≡ ok es
unfolding load_index map_err
load_index_lem pre post es h valid =
    let n = length-encode_index es in
    let whole_entries : length (encode_index es) % 28 ≡ 0 = omega (arith, n) in
    rw (whole_entries, read_at_lem pre (encode_index es) post h, read_index-encode_index es valid)

load_bloom_filter_lem :
    (pre post : List ℕ) (b : BloomFilter)
    → length pre < 2 ^ 63
    → b.num_bits < 2 ^ 64
    → b.num_hashes < 2 ^ 32
    → load_bloom_filter (pre ++ (Bloom.encode b ++ post)) (length pre) (length (Bloom.encode b))
      ≡ ok (some b)
unfolding load_bloom_filter map_err
load_bloom_filter_lem pre post b h bits hashes =
    let n = length-encode b in
    let some_bytes : (length (Bloom.encode b) == 0) ≡ false =
      ne→== _ _ (λ e. absurd (omega (arith, e, n))) in
    rw (some_bytes, read_at_lem pre (Bloom.encode b) post h, decode-encode b bits hashes)

section_front : (xs ys : List ℕ) → length xs < 2 ^ 63 → section (xs ++ ys) (length xs) ≡ xs
unfolding section
section_front xs ys h =
    let e : leb (2 ^ 63) (length xs) ≡ false = ground (arith, h) in rw (e, take-append xs ys)

module _ (w : Writer) (b : BloomFilter) where
  abbrev pub body : List ℕ
  body = (w.out ++ encode_index w.index) ++ Bloom.encode b

  abbrev pub foot : List ℕ
  foot =
      footer w.offset (length (encode_index w.index))
        ((w.offset + length (encode_index w.index)) % 2 ^ 64) (length (Bloom.encode b))
        w.entry_count (crc32 body)

  sealed_file-body : 0 < length b.bits → sealed_file w b ≡ body ++ foot
  unfolding sealed_file bloom_bytes write_bytes
  sealed_file-body h = rw (ne→== (length b.bits) 0 (λ e. absurd (omega (arith, e, h)))) refl

  cut_footer : slice (length (body ++ foot) - 52) (length (body ++ foot)) (body ++ foot) ≡ foot
  cut_footer =
      let n = length-append body foot in
      let m : length foot ≡ 52 = footer_length _ _ _ _ _ _ in
      let e : length (body ++ foot) - 52 ≡ length body = omega (arith, n, m) in
      rw (e, drop-append body foot) (take_all foot _ (omega (arith, n, m)))

  -- The fields of the reader are those that the writer had.
  abbrev pub opened : List ℕ → Reader
  opened file = record {
    file = file;
    index = w.index;
    entry_count = w.entry_count;
    bloom_filter = some b;
  }

  open_body :
      w.offset ≡ length w.out % 2 ^ 64
      → All IsIndexEntry w.index
      → w.entry_count < 2 ^ 64
      → b.num_bits < 2 ^ 64
      → b.num_hashes < 2 ^ 32
      → length (body ++ foot) < 2 ^ 32
      → open_reader (body ++ foot) ≡ ok (opened (body ++ foot))
  unfolding open_reader
  open_body at valid counted bits hashes short =
      let idx = encode_index w.index in
      let bl = Bloom.encode b in
      let n = length-append body foot in
      let n1 = length-append (w.out ++ idx) bl in
      let n2 = length-append w.out idx in
      let m : length foot ≡ 52 = footer_length _ _ _ _ _ _ in
      let big = length-encode b in
      let offset_is : w.offset ≡ length w.out = omega (arith, at, short, n, n1, n2) in
      let bloom_at : (w.offset + length idx) % 2 ^ 64 ≡ length (w.out ++ idx) =
        omega (arith, at, short, n, n1, n2) in
      let size_is : ((w.offset + length idx) % 2 ^ 64 + length bl) % 2 ^ 64 ≡ length body =
        omega (arith, at, short, n, n1, n2) in
      let split_bloom = append_assoc (w.out ++ idx) bl foot in
      let split_index = split_bloom ∙ append_assoc w.out idx (bl ++ foot) in
      let index_read : load_index (body ++ foot) w.offset (length idx) ≡ ok w.index =
        ap (λ o. load_index (body ++ foot) o (length idx)) offset_is
        ∙ ap (λ f. load_index f (length w.out) (length idx)) split_index
        ∙ load_index_lem w.out (bl ++ foot) w.index (omega (arith, short, n, n1, n2)) valid in
      let bloom_read : load_bloom_filter (body ++ foot) ((w.offset + length idx) % 2 ^ 64)
            (length bl)
          ≡ ok (some b) =
        ap (λ o. load_bloom_filter (body ++ foot) o (length bl)) bloom_at
        ∙ ap (λ f. load_bloom_filter f (length (w.out ++ idx)) (length bl)) split_bloom
        ∙ load_bloom_filter_lem (w.out ++ idx) foot b (omega (arith, short, n, n1, n2)) bits
            hashes in
      let positive : ltb 0 (length bl) ≡ true = lt→ltb 0 (length bl) (omega (arith, big)) in
      let checked : section (body ++ foot) (length body) ≡ body =
        section_front body foot (omega (arith, short, n)) in
      rw (
        le→ltb (length (body ++ foot)) 52 (omega (arith, n, m)),
        cut_footer,
        read_footer-footer w.offset (length idx) ((w.offset + length idx) % 2 ^ 64) (length bl)
            w.entry_count (crc32 body) (body ++ foot)
            (
              omega (arith, short, n, n1, n2, offset_is),
              omega (arith, short, n, n1, n2),
              omega arith,
              omega (arith, short, n, n1, n2),
              counted,
              crc32-lt body,
            ),
        index_read,
        bloom_read,
        positive,
        size_is,
        checked,
        ==-refl (crc32 body),
      )

  -- Opening the sealed file gives back the index and the filter.
  pub open_reader-sealed_file :
      w.offset ≡ length w.out % 2 ^ 64
      → All IsIndexEntry w.index
      → w.entry_count < 2 ^ 64
      → b.num_bits < 2 ^ 64
      → b.num_hashes < 2 ^ 32
      → 0 < length b.bits
      → length (sealed_file w b) < 2 ^ 32
      → open_reader (sealed_file w b) ≡ ok (opened (sealed_file w b))
  open_reader-sealed_file at valid counted bits hashes some_bits short =
      let e = sealed_file-body some_bits in
      subst (λ f. open_reader f ≡ ok (opened f)) (sym e)
        (open_body at valid counted bits hashes (subst (λ f. length f < 2 ^ 32) e short))

  pub sealed_file-append :
      0 < length b.bits
      → sealed_file w b ≡ w.out ++ (encode_index w.index ++ (Bloom.encode b ++ foot))
  sealed_file-append some_bits =
      sealed_file-body some_bits
      ∙ append_assoc (w.out ++ encode_index w.index) (Bloom.encode b) foot
      ∙ append_assoc w.out (encode_index w.index) (Bloom.encode b ++ foot)
