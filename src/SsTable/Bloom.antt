-- ===== src/SsTable/Bloom.antt =====
-- sstable/bloom.go. `hashfunc` is murmur3, a library, and stands as the parameter `hashfunc`; an
-- index outside `Bits` and a remainder by zero are Go's panics.
pub mod Bits
pub mod Laws
pub mod Sizes
use wisp_db.Base.{
  ℕ, zero, suc, ◌+◌, ◌*◌, ◌/◌, ◌%◌, ◌^◌, ◌≡◌, Bool, true, false, ◌||◌, Option, none, some, List, [],
  ◌∷◌, ◌++◌, ltb, ◌==◌, if◌then◌else◌, length, get_elem?, set, take, drop, slice, replicate,
}
use wisp_db.Base.Bytes.{put_le, get_le}
use wisp_db.Base.Result.{Result, ok, err, ◌>>=◌, Panic, index_out_of_range, divide_by_zero}

pub record BloomFilter : Type 0 where
  pub bits : List ℕ
  pub num_bits : ℕ
  pub num_hashes : ℕ

pub data BloomError : Type 0 where
  corrupt_bloom_filter : BloomError

-- `b & (1 << k) != 0` and `b | 1 << k`.
pub test_bit : ℕ → ℕ → Bool
test_bit zero b = b % 2 == 1
test_bit (suc k) b = test_bit k (b / 2)

pub set_bit : ℕ → ℕ → ℕ
set_bit zero b = if b % 2 == 1 then b else b + 1
set_bit (suc k) b = b % 2 + 2 * set_bit k (b / 2)

-- The float computations of the sizes are `bits_for`, of the number of keys, and `hashes_for`, of
-- the bits and the keys, at the rate that the code has put in range.
unfoldable pub new_bloom_filter : (ℕ → ℕ) → (ℕ → ℕ → ℕ) → ℕ → BloomFilter
new_bloom_filter bits_for hashes_for expected_keys =
    let keys = if expected_keys == 0 then 1 else expected_keys in
    let num_bits = if ltb (bits_for keys) 1 then 1 else bits_for keys in
    let num_hashes = if ltb (hashes_for num_bits keys) 1 then 1 else hashes_for num_bits keys in
    record {
      bits = replicate ((num_bits + 7) % 2 ^ 64 / 8) 0;
      num_bits = num_bits;
      num_hashes = num_hashes;
    }

unfoldable pub position : ℕ × ℕ → ℕ → ℕ → ℕ
position h i num_bits = (h.0 + i * h.1 % 2 ^ 64) % 2 ^ 64 % num_bits

unfoldable pub write_bit : Option ℕ → ℕ → List ℕ → Result Panic (List ℕ)
write_bit none p bits = err index_out_of_range
write_bit (some b) p bits = ok (set bits (p / 8) (set_bit (p % 8) b))

pub read_bit : Option ℕ → ℕ → Result Panic Bool
read_bit none p = err index_out_of_range
read_bit (some b) p = ok (test_bit (p % 8) b)

-- The loop of Add for the `k` hashes from number `i` on.
unfoldable pub add_loop : ℕ → ℕ → ℕ × ℕ → ℕ → List ℕ → Result Panic (List ℕ)
add_loop zero i h n bits = ok bits
add_loop (suc k) i h n bits =
    let p = position h i n in
    let next =
      write_bit (get_elem? bits (p / 8)) p bits >>= λ bits'. add_loop k (suc i) h n bits' in
    if n == 0 then err divide_by_zero else next

-- The loop of MayContain.
pub contain_loop : ℕ → ℕ → ℕ × ℕ → ℕ → List ℕ → Result Panic Bool
contain_loop zero i h n bits = ok true
contain_loop (suc k) i h n bits =
    let p = position h i n in
    let rest = contain_loop k (suc i) h n bits in
    read_bit (get_elem? bits (p / 8)) p >>= λ here. if here then rest else ok false

module _ (hashfunc : ℕ → ℕ × ℕ) where
  unfoldable pub add : BloomFilter → ℕ → Result Panic BloomFilter
  add b key = add_loop b.num_hashes 0 (hashfunc key) b.num_bits b.bits >>= λ bits.
      ok (record { bits = bits; num_bits = b.num_bits; num_hashes = b.num_hashes })

  unfoldable pub may_contain : BloomFilter → ℕ → Result Panic Bool
  may_contain b key =
      if b.num_bits == 0 || b.num_hashes == 0
      then ok false
      else contain_loop b.num_hashes 0 (hashfunc key) b.num_bits b.bits

  -- The writer's calls of Add, one for each entry.
  unfoldable pub add_all : BloomFilter → List ℕ → Result Panic BloomFilter
  add_all b [] = ok b
  add_all b (key ∷ keys) = add b key >>= λ b'. add_all b' keys

unfoldable pub encode : BloomFilter → List ℕ
encode b = put_le 8 b.num_bits ++ (put_le 4 b.num_hashes ++ b.bits)

unfoldable pub decode_bloom_filter : List ℕ → Result BloomError BloomFilter
decode_bloom_filter bytes =
    if ltb (length bytes) 12
    then err corrupt_bloom_filter
    else ok (record {
      bits = drop 12 bytes;
      num_bits = get_le (slice 0 8 bytes);
      num_hashes = get_le (slice 8 12 bytes);
    })
