-- ===== src/SsTable/Bloom/Sizes.antt =====
-- The sizes of a filter, and the loop of MayContain.
use wisp_db.Base.{
  ℕ, zero, suc, ◌+◌, ◌/◌, ◌%◌, ◌^◌, ◌≤◌, ◌<◌, ◌≡◌, refl, sym, ap, ◌∙◌, Bool, true, false, ◌||◌, inl,
  inr, List, [], ◌∷◌, arith, ltb, ◌==◌, if◌then◌else◌, Bool-cases,
}
use wisp_db.Base.Result.{ok, bind_ok, ok-injective}
use wisp_db.SsTable.Bloom.{
  BloomFilter, test_bit, read_bit, position, contain_loop, add_loop, new_bloom_filter, add, add_all,
  may_contain,
}
use wisp_db.SsTable.Bloom.Bits.{Fits, position-in_range, get_elem?-lt}
use wisp_db.SsTable.Bloom.Laws.{IsBloom}

pub new_bloom_filter_bounds :
    (bits_for : ℕ → ℕ) (hashes_for : ℕ → ℕ → ℕ) (keys : ℕ)
    → ((n : ℕ) → bits_for n + 8 ≤ 2 ^ 64)
    → ((m n : ℕ) → hashes_for m n < 2 ^ 32)
    → ((new_bloom_filter bits_for hashes_for keys).num_bits < 2 ^ 64)
      × ((new_bloom_filter bits_for hashes_for keys).num_hashes < 2 ^ 32)
unfolding new_bloom_filter
new_bloom_filter_bounds bits_for hashes_for keys hb hh =
    let k = if keys == 0 then 1 else keys in
    let n = if ltb (bits_for k) 1 then 1 else bits_for k in
    (ground (arith, hb k), ground (arith, hh n k))

add_sizes :
    (hashfunc : ℕ → ℕ × ℕ) (b b' : BloomFilter) (key : ℕ)
    → add hashfunc b key ≡ ok b'
    → (b'.num_bits ≡ b.num_bits) × (b'.num_hashes ≡ b.num_hashes)
unfolding add
add_sizes hashfunc b b' key e =
    let (bits, at, is) = bind_ok (add_loop b.num_hashes 0 (hashfunc key) b.num_bits b.bits) _ e in
    let same = ok-injective (record b { bits = bits }) b' is in
    (sym (ap (λ c. c.num_bits) same), sym (ap (λ c. c.num_hashes) same))

pub add_all_sizes :
    (hashfunc : ℕ → ℕ × ℕ) (keys : List ℕ) (b b' : BloomFilter)
    → add_all hashfunc b keys ≡ ok b'
    → (b'.num_bits ≡ b.num_bits) × (b'.num_hashes ≡ b.num_hashes)
unfolding add_all
add_all_sizes hashfunc [] b b' e =
    let same = ok-injective b b' e in
    (sym (ap (λ c. c.num_bits) same), sym (ap (λ c. c.num_hashes) same))
add_all_sizes hashfunc (key ∷ keys) b b' e =
    let (c, at, is) = bind_ok (add hashfunc b key) _ e in
    let s = add_sizes hashfunc b c key at in
    let r = add_all_sizes hashfunc keys c b' is in (r.0 ∙ s.0, r.1 ∙ s.1)

contain_loop_total :
    (k i : ℕ) (h : ℕ × ℕ) (n : ℕ) (bits : List ℕ)
    → Fits n bits
    → (answer : Bool) × (contain_loop k i h n bits ≡ ok answer)
unfolding contain_loop read_bit
contain_loop_total zero i h n bits fits = (true, refl)
contain_loop_total (suc k) i h n bits fits =
    let p = position h i n in
    let b = get_elem?-lt bits (p / 8) (position-in_range h i n bits fits) in
    let r = contain_loop_total k (suc i) h n bits fits in
    elim (Bool-cases (test_bit (p % 8) b.0)) [
      | inl t ↦ (r.0, rw (b.1, t) r.1)
      | inr t ↦ (false, rw (b.1, t))
    ]

pub may_contain_total :
    (hashfunc : ℕ → ℕ × ℕ) (b : BloomFilter) (key : ℕ)
    → IsBloom b
    → (answer : Bool) × (may_contain hashfunc b key ≡ ok answer)
unfolding may_contain
may_contain_total hashfunc b key h =
    let r = contain_loop_total b.num_hashes 0 (hashfunc key) b.num_bits b.bits h.0 in
    elim (Bool-cases (b.num_bits == 0 || b.num_hashes == 0)) [
      | inl t ↦ (false, rw t)
      | inr t ↦ (r.0, rw t r.1)
    ]
