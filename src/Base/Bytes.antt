-- ===== src/Base/Bytes.antt =====
-- Little-endian integers in byte sequences (encoding/binary), and CRC-32 (hash/crc32).
use Prim.Native.Nat.{ℕ, zero, suc, ◌+◌, ◌*◌, ◌/◌, ◌%◌, ◌^◌, ◌<◌, bit_xor}
use mathlib.Core.Path.{◌≡◌, refl, ap}
use mathlib.Core.List.{List, [], ◌∷◌}
use native.Mathlib.Omega.{arith}
use wisp_db.Base.Tests.{◌==◌, if◌then◌else◌}
use wisp_db.Base.Lists.{length, All}

abbrev pub IsByte : ℕ → Type 0
IsByte b = b < 256

-- PutUint32, PutUint64 write 4 and 8 bytes, the least significant first.
unfoldable pub put_le : ℕ → ℕ → List ℕ
put_le zero v = []
put_le (suc k) v = v % 256 ∷ put_le k (v / 256)

-- Uint32, Uint64.
unfoldable pub get_le : List ℕ → ℕ
get_le [] = 0
get_le (b ∷ bs) = b + 256 * get_le bs

pub length-put_le : (k v : ℕ) → length (put_le k v) ≡ k
unfolding put_le
length-put_le zero v = refl
length-put_le (suc k) v = ap suc (length-put_le k (v / 256))

pub put_le-IsByte : (k v : ℕ) → All IsByte (put_le k v)
unfolding put_le
put_le-IsByte zero v = tt
put_le-IsByte (suc k) v = (omega arith, put_le-IsByte k (v / 256))

pub get_le-put_le_uint32 : (v : ℕ) → v < 2 ^ 32 → get_le (put_le 4 v) ≡ v
unfolding get_le put_le
get_le-put_le_uint32 v h = omega arith

pub get_le-put_le_uint64 : (v : ℕ) → v < 2 ^ 64 → get_le (put_le 8 v) ≡ v
unfolding get_le put_le
get_le-put_le_uint64 v h = omega arith

-- The reflected polynomial of the IEEE table, one bit at a time.
crc_bits : ℕ → ℕ → ℕ
crc_bits zero c = c
crc_bits (suc k) c = crc_bits k (if c % 2 == 1 then bit_xor (c / 2) 0xEDB88320 else c / 2)

crc_update : ℕ → List ℕ → ℕ
crc_update c [] = c
crc_update c (b ∷ bs) = crc_update (crc_bits 8 (bit_xor c b)) bs

-- ChecksumIEEE.
unfoldable pub crc32 : List ℕ → ℕ
unfolding crc_bits crc_update
crc32 bs = bit_xor (crc_update 0xFFFFFFFF bs) 0xFFFFFFFF % 2 ^ 32

pub crc32-lt : (bs : List ℕ) → crc32 bs < 2 ^ 32
unfolding crc32
crc32-lt bs = omega arith

-- The check value of the standard, for the text "123456789".
crc32_check : crc32 (49 ∷ 50 ∷ 51 ∷ 52 ∷ 53 ∷ 54 ∷ 55 ∷ 56 ∷ 57 ∷ []) ≡ 0xCBF43926
unfolding crc32
crc32_check = refl
