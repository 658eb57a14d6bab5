-- ===== src/SsTable/Bloom/Laws.antt =====
-- The well-formedness of a filter, over its creation, Add, MayContain and its encoding.
use wisp_db.Base.{
  ℕ, ◌+◌, ◌*◌, ◌/◌, ◌%◌, ◌^◌, ◌≤◌, ◌<◌, ◌≡◌, refl, true, List, [], ◌∷◌, arith, ltb, ne→==, le→ltb,
  ◌==◌, if◌then◌else◌, length, drop, slice, replicate, length-replicate, All,
}
use wisp_db.Base.Bytes.{put_le, get_le-put_le_uint32, get_le-put_le_uint64}
use wisp_db.Base.Result.{ok}
use wisp_db.SsTable.Bloom.{
  BloomFilter, new_bloom_filter, add, add_all, may_contain, encode, decode_bloom_filter,
}
use wisp_db.SsTable.Bloom.Bits.{Fits, IsCovered, IsCovered-mono, contain-IsCovered, add_loop-Adds}

-- No index of the filter is out of range, and some hash is taken.
abbrev pub IsBloom : BloomFilter → Type 0
IsBloom b = Fits b.num_bits b.bits × (0 < b.num_hashes)

-- The filter that NewBloomFilter makes is well formed, if the number of bits that is computed for
-- it is never within 8 of 2^64.
pub new_bloom_filter-IsBloom :
    (bits_for : ℕ → ℕ) (hashes_for : ℕ → ℕ → ℕ) (keys : ℕ)
    → ((n : ℕ) → bits_for n + 8 ≤ 2 ^ 64)
    → IsBloom (new_bloom_filter bits_for hashes_for keys)
unfolding new_bloom_filter
new_bloom_filter-IsBloom bits_for hashes_for keys h =
    let clamp : (x : ℕ) → 0 < (if ltb x 1 then 1 else x) = λ x. ground arith in
    let k = if keys == 0 then 1 else keys in
    let n = if ltb (bits_for k) 1 then 1 else bits_for k in
    let below : n + 8 ≤ 2 ^ 64 = ground (arith, h k) in
    let size : n ≤ 8 * length (replicate ((n + 7) % 2 ^ 64 / 8) 0) =
      omega (arith, below, length-replicate {A = ℕ} ((n + 7) % 2 ^ 64 / 8) 0) in
    ((clamp (bits_for k), size), clamp (hashes_for n k))

module _ (hashfunc : ℕ → ℕ × ℕ) where
  -- The key's bits are set.
  abbrev Covers : BloomFilter → ℕ → Type 0
  Covers b key = IsCovered b.num_hashes 0 (hashfunc key) b.num_bits b.bits

  may_contain-Covers :
      (b : BloomFilter) (key : ℕ) → IsBloom b → Covers b key → may_contain hashfunc b key ≡ ok true
  unfolding may_contain
  may_contain-Covers b key h c = rw (
    ne→== b.num_bits 0 (λ e. absurd (omega (arith, e, h.0.0))),
    ne→== b.num_hashes 0 (λ e. absurd (omega (arith, e, h.1))),
    contain-IsCovered b.num_hashes 0 (hashfunc key) b.num_bits b.bits c,
  )

  -- What Add of a key does to a filter.
  abbrev Added : BloomFilter → ℕ → BloomFilter → Type 0
  Added b key b' =
      (add hashfunc b key ≡ ok b')
      × IsBloom b'
      × Covers b' key
      × ((k : ℕ) → Covers b k → Covers b' k)

  add-Added : (b : BloomFilter) (key : ℕ) → IsBloom b → (b' : BloomFilter) × Added b key b'
  unfolding add
  add-Added b key h =
      let r = add_loop-Adds b.num_hashes 0 (hashfunc key) b.num_bits b.bits h.0 in
      (
        record { bits = r.0; num_bits = b.num_bits; num_hashes = b.num_hashes },
        (
          rw (r.1),
          ((h.0.0, omega (arith, h.0.1, r.2.0)), h.1),
          r.2.1,
          λ k c. IsCovered-mono b.num_hashes 0 (hashfunc k) b.num_bits b.bits r.0 r.2.2 c,
        ),
      )

  add_all-Covers :
      (b : BloomFilter) (keys : List ℕ)
      → IsBloom b
      → (b' : BloomFilter) × (add_all hashfunc b keys ≡ ok b')
        × IsBloom b'
        × All (Covers b') keys
        × ((k : ℕ) → Covers b k → Covers b' k)
  unfolding add_all
  add_all-Covers b [] h = (b, refl, h, tt, λ k c. c)
  add_all-Covers b (key ∷ keys) h =
      let a = add-Added b key h in
      let r = add_all-Covers a.0 keys a.1.1 in
      (r.0, rw (a.1.0) r.1, r.2, (r.4 key a.1.2, r.3), λ k c. r.4 k (a.1.3 k c))

  All-may_contain :
      (b : BloomFilter) (keys : List ℕ)
      → IsBloom b
      → All (Covers b) keys
      → All (λ k. may_contain hashfunc b k ≡ ok true) keys
  All-may_contain b [] h c = tt
  All-may_contain b (key ∷ keys) h c =
      (may_contain-Covers b key h c.0, All-may_contain b keys h c.1)

-- Adding keys to a well-formed filter never panics, and the well-formed filter it gives reports
-- each of the keys as possibly present, whatever the hash function.
pub add_all-may_contain :
    (hashfunc : ℕ → ℕ × ℕ) (b : BloomFilter) (keys : List ℕ)
    → IsBloom b
    → (b' : BloomFilter) × (add_all hashfunc b keys ≡ ok b')
      × IsBloom b'
      × All (λ k. may_contain hashfunc b' k ≡ ok true) keys
add_all-may_contain hashfunc b keys h =
    let r = add_all-Covers hashfunc b keys h in
    (r.0, r.1, r.2, All-may_contain hashfunc r.0 keys r.2 r.3)

pub length-encode : (b : BloomFilter) → length (encode b) ≡ 12 + length b.bits
unfolding encode put_le
length-encode b = omega arith

encode_num_bits : (b : BloomFilter) → slice 0 8 (encode b) ≡ put_le 8 b.num_bits
unfolding encode put_le
encode_num_bits b = refl

encode_num_hashes : (b : BloomFilter) → slice 8 12 (encode b) ≡ put_le 4 b.num_hashes
unfolding encode put_le
encode_num_hashes b = refl

encode_bits : (b : BloomFilter) → drop 12 (encode b) ≡ b.bits
unfolding encode put_le
encode_bits b = refl

-- A filter whose sizes Go's types can hold comes back whole from its encoding.
pub decode-encode :
    (b : BloomFilter)
    → b.num_bits < 2 ^ 64
    → b.num_hashes < 2 ^ 32
    → decode_bloom_filter (encode b) ≡ ok b
unfolding decode_bloom_filter
decode-encode b hn hk = rw (
  length-encode b,
  le→ltb (12 + length b.bits) 12 (omega arith),
  encode_num_bits b,
  encode_num_hashes b,
  encode_bits b,
  get_le-put_le_uint64 b.num_bits hn,
  get_le-put_le_uint32 b.num_hashes hk,
)
