-- ===== src/Tests/Skiplists.antt =====
-- skiplist/skiplist.go and memtable/memtable.go on small inputs.
use wisp_db.Base.{◌≡◌, refl, true, false, some, [], ◌∷◌, arith}
use wisp_db.Base.Int.{pos, negsuc}
use wisp_db.Key.{Key}
use wisp_db.Rows.{Rows, find, upsert}
use wisp_db.Skiplist.{new_skiplist, insert, lookup}
use wisp_db.Skiplist.Cells.{rows_of}
use wisp_db.Skiplist.Insert.{Inserted}
use wisp_db.Skiplist.Refines.{new_skiplist-IsSkiplist, insert-Inserted, lookup-find}
use wisp_db.Skiplist.Iterate.{entries_of}
use wisp_db.MemTable.{
  MemTable, create_mem_table_with_threshold, put, get, live_value, key_of, entries,
}
use wisp_db.MemTable.Laws.{Written, create-IsMemTable, put-Written, get-rows, entries-rows}

abbrev early : Key
early = record { series_id = 1; timestamp = negsuc 4 }

abbrev late : Key
late = record { series_id = 1; timestamp = pos 5 }

insert-Inserted_example :
    Inserted
      (new_skiplist 4)
      []
      (record { key = late; value = 10 ∷ 20 ∷ []; deleted = false })
      (insert (new_skiplist 4) late (10 ∷ 20 ∷ []) false (true ∷ true ∷ false ∷ []))
insert-Inserted_example =
    insert-Inserted (new_skiplist 4) [] (new_skiplist-IsSkiplist 4 (omega arith)) late
      (10 ∷ 20 ∷ []) false (true ∷ true ∷ false ∷ [])

-- A list of one row.
abbrev one :
    Inserted
      (new_skiplist 4)
      []
      (record { key = late; value = 10 ∷ 20 ∷ []; deleted = false })
      (insert (new_skiplist 4) late (10 ∷ 20 ∷ []) false (true ∷ true ∷ false ∷ []))
one =
    insert-Inserted (new_skiplist 4) [] (new_skiplist-IsSkiplist 4 (omega arith)) late
      (10 ∷ 20 ∷ []) false (true ∷ true ∷ false ∷ [])

lookup-find_example : lookup one.state late ≡ some (find late (rows_of one.cells))
lookup-find_example = lookup-find one.state one.cells one.valid late

abbrev empty_table : MemTable
empty_table = create_mem_table_with_threshold 100

open_table : empty_table.mutable ≡ true
unfolding create_mem_table_with_threshold
open_table = refl

put-Written_example :
    Written empty_table
      (upsert (record { key = key_of 7 (pos 5); value = 1 ∷ 2 ∷ []; deleted = false }) [])
      18
      (put empty_table 7 (pos 5) (1 ∷ 2 ∷ []) (true ∷ false ∷ []))
put-Written_example =
    put-Written empty_table [] (create-IsMemTable 100) 7 (pos 5) (1 ∷ 2 ∷ []) (true ∷ false ∷ [])
      open_table

-- A table of one row.
abbrev written :
    Written empty_table
      (upsert (record { key = key_of 7 (pos 5); value = 1 ∷ 2 ∷ []; deleted = false }) [])
      18
      (put empty_table 7 (pos 5) (1 ∷ 2 ∷ []) (true ∷ false ∷ []))
written =
    put-Written empty_table [] (create-IsMemTable 100) 7 (pos 5) (1 ∷ 2 ∷ []) (true ∷ false ∷ [])
      open_table

abbrev one_row : Rows
one_row = upsert (record { key = key_of 7 (pos 5); value = 1 ∷ 2 ∷ []; deleted = false }) []

get-rows_example : get written.table 7 (pos 5) ≡ some (live_value (find (key_of 7 (pos 5)) one_row))
get-rows_example = get-rows written.table one_row written.stands 7 (pos 5)

entries-rows_example : entries written.table ≡ some (entries_of one_row)
entries-rows_example = entries-rows written.table one_row written.stands
