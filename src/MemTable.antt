-- ===== src/MemTable.antt =====
-- memtable/memtable.go: the write buffer over a skiplist. `none` is a panic of the skiplist, which
-- `MemTable.Laws` rules out.
pub mod Laws
use wisp_db.Base.{
  ℕ, ◌+◌, ◌*◌, ◌%◌, ◌^◌, Bool, true, false, ◌||◌, not, Option, none, some, List, [], leb, ◌==◌,
  if◌then◌else◌, length,
}
use wisp_db.Base.Int.{ℤ}
use wisp_db.Key.{Key}
use wisp_db.Skiplist
use wisp_db.Skiplist.{Skiplist, ◌>>=◌}

pub record MemTable : Type 0 where
  pub skiplist : Skiplist
  pub size : ℕ
  pub mutable : Bool
  pub flush_threshold : ℕ

abbrev pub default_flush_threshold : ℕ
default_flush_threshold = 4 * 1024 * 1024

unfoldable pub create_mem_table_with_threshold : ℕ → MemTable
create_mem_table_with_threshold flush_threshold = record {
  skiplist = Skiplist.new_skiplist 16;
  size = 0;
  mutable = true;
  flush_threshold = if flush_threshold == 0 then default_flush_threshold else flush_threshold;
}

pub create_mem_table : MemTable
create_mem_table = create_mem_table_with_threshold default_flush_threshold

abbrev pub key_of : ℕ → ℤ → Key
key_of series_id timestamp = record { series_id = series_id; timestamp = timestamp }

-- The table after, and whether the write was taken. `draws` are the skiplist's random draws.
pub put : MemTable → ℕ → ℤ → List ℕ → List Bool → Option (Bool × MemTable)
put m series_id timestamp value draws = if not m.mutable then some (false, m) else do
  s ← Skiplist.put m.skiplist (key_of series_id timestamp) value draws
  some (true, record m { skiplist = s; size = (m.size + (8 + 8 + length value)) % 2 ^ 64 })

pub delete : MemTable → ℕ → ℤ → List Bool → Option (Bool × MemTable)
delete m series_id timestamp draws = if not m.mutable then some (false, m) else do
  s ← Skiplist.delete m.skiplist (key_of series_id timestamp) draws
  some (true, record m { skiplist = s; size = (m.size + (8 + 8 + 1)) % 2 ^ 64 })

-- `none` inside is Go's `found == false`.
pub lookup : MemTable → ℕ → ℤ → Option (Option (List ℕ × Bool))
lookup m series_id timestamp = Skiplist.lookup m.skiplist (key_of series_id timestamp)

unfoldable pub live_value : Option (List ℕ × Bool) → Option (List ℕ)
live_value none = none
live_value (some (value, deleted)) = if deleted then none else some value

pub get : MemTable → ℕ → ℤ → Option (Option (List ℕ))
unfolding live_value
get m series_id timestamp = do
  found ← Skiplist.lookup m.skiplist (key_of series_id timestamp)
  some (live_value found)

unfoldable pub is_full : MemTable → Bool
is_full m = leb m.flush_threshold m.size

pub freeze : MemTable → MemTable
freeze m = record m { mutable = false }

-- A loop over `Iterator()`: the entries in the order in which it yields them.
pub entries : MemTable → Option (List (Key × List ℕ × Bool))
entries m = do
  start ← Skiplist.iterator m.skiplist
  Skiplist.iterate (1 + m.skiplist.length) m.skiplist.nodes start
