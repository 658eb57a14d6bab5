-- ===== src/Key.antt =====
-- skiplist/skiplist.go: the key `(SeriesID, Timestamp)` of every layer, and its comparator.
pub mod Order
use wisp_db.Base.{ℕ, ◌<◌, ◌^◌, Bool, ◌&&◌, ltb, ◌==◌, if◌then◌else◌}
use wisp_db.Base.Int.{ℤ, pos, negsuc, ltb_ℤ, eqb_ℤ, IsInt64}

-- A `uint64` and an `int64`.
pub record Key : Type 0 where
  pub series_id : ℕ
  pub timestamp : ℤ

unfoldable pub compare : Key → Key → ℤ
compare a b =
    if ltb a.series_id b.series_id
    then negsuc 0
    else if ltb b.series_id a.series_id
    then pos 1
    else if ltb_ℤ a.timestamp b.timestamp
    then negsuc 0
    else if ltb_ℤ b.timestamp a.timestamp
    then pos 1
    else pos 0

-- `comparator(a, b) < 0`, the test of the skiplist's walks.
unfoldable pub key_lt : Key → Key → Bool
unfolding compare
key_lt a b = ltb_ℤ (compare a b) (pos 0)

-- Go's `==` on the struct.
unfoldable pub key_eq : Key → Key → Bool
key_eq a b = (a.series_id == b.series_id) && eqb_ℤ a.timestamp b.timestamp
