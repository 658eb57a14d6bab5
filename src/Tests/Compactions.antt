-- ===== src/Tests/Compactions.antt =====
-- compactor/compact.go on two small tables.
use wisp_db.Base.{ℕ, ◌≡◌, refl, Bool, true, false, List, [], ◌∷◌, All, arith}
use wisp_db.Base.Int.{pos}
use wisp_db.Key.{Key, key_lt}
use wisp_db.SsTable.Entry.{Entry, find_entry}
use wisp_db.Compactor.{compact_entries}
use wisp_db.SsTable.Sorted.{IsAscendingEntries}
use wisp_db.Compactor.Compact.{
  DistinctTables, newest_in, visible, compact_entries-newest, compact_entries-IsAscendingEntries,
}

abbrev at_time : ℕ → Bool → List ℕ → Entry
at_time t deleted value = record {
  series_id = 1;
  timestamp = pos t;
  deleted = deleted;
  value = value;
}

abbrev two_tables : List (ℕ × List Entry)
two_tables =
    (2, at_time 1 false (8 ∷ []) ∷ at_time 3 true [] ∷ [])
    ∷ (1, at_time 1 false (7 ∷ []) ∷ at_time 2 false (6 ∷ []) ∷ [])
    ∷ []

two_tables-IsAscending : All (λ t. IsAscendingEntries t.1) two_tables
unfolding IsAscendingEntries key_lt
two_tables-IsAscending = (((refl, tt), (tt, tt)), (((refl, tt), (tt, tt)), tt))

two_tables-Distinct : DistinctTables two_tables
unfolding DistinctTables
two_tables-Distinct = ((λ e. omega (arith, e), tt), (tt, tt))

abbrev rewritten : Key
rewritten = record { series_id = 1; timestamp = pos 1 }

compact_entries-newest_example :
    find_entry rewritten (compact_entries true two_tables)
    ≡ visible true (newest_in rewritten two_tables)
compact_entries-newest_example =
    compact_entries-newest rewritten true two_tables two_tables-IsAscending two_tables-Distinct

compact_entries-IsAscendingEntries_example : IsAscendingEntries (compact_entries true two_tables)
compact_entries-IsAscendingEntries_example =
    compact_entries-IsAscendingEntries true two_tables two_tables-IsAscending
