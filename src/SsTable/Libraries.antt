-- ===== src/SsTable/Libraries.antt =====
-- The libraries that sstable/ calls, with the laws that it relies on: snappy, and murmur3 with the
-- float computations of the size of a filter.
use wisp_db.Base.{ℕ, ◌+◌, ◌/◌, ◌^◌, ◌≤◌, ◌<◌, ◌≡◌, Option, some, List, length}

-- Encode and Decode of snappy. Encode panics, which is `none`, on what its MaxEncodedLen says is too
-- large, and not where `32 + n + n / 6` is an `uint32`; what it encodes is decoded.
pub record Snappy : Type 0 where
  pub compress : List ℕ → Option (List ℕ)
  pub decompress : List ℕ → Option (List ℕ)
  pub encodes :
      (bytes : List ℕ)
      → 32 + length bytes + length bytes / 6 < 2 ^ 32
      → (c : List ℕ) × (compress bytes ≡ some c)
  pub inverse : (bytes c : List ℕ) → compress bytes ≡ some c → decompress c ≡ some bytes

-- Sum128 of murmur3, and the number of bits and of hashes: an `uint64` with room for the bytes that
-- hold them, and an `uint32`.
pub record Filters : Type 0 where
  pub hashfunc : ℕ → ℕ × ℕ
  pub bits_for : ℕ → ℕ
  pub hashes_for : ℕ → ℕ → ℕ
  pub bits_fit : (keys : ℕ) → bits_for keys + 8 ≤ 2 ^ 64
  pub hashes_fit : (bits keys : ℕ) → hashes_for bits keys < 2 ^ 32
