-- ===== src/SsTable/Entry.antt =====
-- sstable/sstable.go and sstable/reader.go: the entries of a table, and their order.
use wisp_db.Base.{
  ◌≡◌, refl, ℕ, ◌+◌, ◌<◌, ◌^◌, Bool, Option, none, some, List, [], ◌∷◌, if◌then◌else◌, length,
}
use wisp_db.Base.Int.{ℤ, IsInt64}
use wisp_db.Key.{Key, compare, key_eq}

pub record Entry : Type 0 where
  pub series_id : ℕ
  pub timestamp : ℤ
  pub deleted : Bool
  pub value : List ℕ

abbrev pub entry_key : Entry → Key
entry_key e = record { series_id = e.series_id; timestamp = e.timestamp }

-- compareEntries makes the tests of the skiplist's comparator, on the same two fields.
unfoldable pub compare_entries : Entry → Entry → ℤ
compare_entries a b = compare (entry_key a) (entry_key b)

-- The values that Go's types can hold; the encoded size is an `uint32`.
abbrev pub IsEntry : Entry → Type 0
IsEntry e = (e.series_id < 2 ^ 64) × IsInt64 e.timestamp × (25 + length e.value < 2 ^ 32)

-- Those that are below 2 GiB when they are encoded.
abbrev pub IsStored : Entry → Type 0
IsStored e = (e.series_id < 2 ^ 64) × IsInt64 e.timestamp × (25 + length e.value < 2 ^ 31)

-- The first entry of a key: its value and its mark.
unfoldable pub find_entry : Key → List Entry → Option (List ℕ × Bool)
find_entry k [] = none
find_entry k (e ∷ es) =
    if key_eq (entry_key e) k then some (e.value, e.deleted) else find_entry k es

pub find_entry-cons :
    (k : Key) (e : Entry) (es : List Entry)
    → find_entry k (e ∷ es)
      ≡ (if key_eq (entry_key e) k then some (e.value, e.deleted) else find_entry k es)
unfolding find_entry
find_entry-cons k e es = refl
