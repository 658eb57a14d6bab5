-- ===== src/MemTable/Laws.antt =====
-- The memtable of memtable/memtable.go against a sorted sequence of rows.
use wisp_db.Base.{
  ℕ, suc, ◌+◌, ◌%◌, ◌^◌, ◌≡◌, refl, ap, ◌∙◌, Bool, true, false, Option, some, List, [], length,
  arith,
}
use wisp_db.Base.Int.{ℤ}
use wisp_db.Rows.{Rows, find, upsert}
use wisp_db.Skiplist.Cells.{Cells, rows_of, IsSkiplist}
use wisp_db.Skiplist.Refines.{put-Inserted, delete-Inserted, lookup-find, new_skiplist-IsSkiplist}
use wisp_db.Skiplist.Iterate.{entries_of, iterate-rows}
use wisp_db.MemTable.{
  MemTable, key_of, put, delete, lookup, get, live_value, freeze, entries,
  create_mem_table_with_threshold,
}

-- The table stands for these rows.
pub record IsMemTable (m : MemTable) (rows : Rows) : Type 0 where
  pub cells : Cells
  pub valid : IsSkiplist m.skiplist cells
  pub rows_are : rows_of cells ≡ rows

-- A write that was taken, and the table after it.
pub record Written (m : MemTable) (rows : Rows) (added : ℕ) (result : Option (Bool × MemTable))
    : Type 0 where
  pub table : MemTable
  pub returns : result ≡ some (true, table)
  pub stands : IsMemTable table rows
  pub size : table.size ≡ (m.size + added) % 2 ^ 64
  pub mutable : table.mutable ≡ true
  pub threshold : table.flush_threshold ≡ m.flush_threshold

pub create-IsMemTable : (threshold : ℕ) → IsMemTable (create_mem_table_with_threshold threshold) []
unfolding create_mem_table_with_threshold
create-IsMemTable threshold = record {
  cells = [];
  valid = new_skiplist-IsSkiplist 16 (omega arith);
  rows_are = refl;
}

module _ (m : MemTable) (rows : Rows) (v : IsMemTable m rows) (series_id : ℕ) (timestamp : ℤ) where
  -- On a memtable that stands for some rows and is not frozen, Put is taken, whatever the draws:
  -- the table then stands for the rows with the new one put in, is still not frozen, keeps its
  -- threshold, and has grown by 16 and the length of the value, modulo 2^64.
  pub put-Written :
      (value : List ℕ) (draws : List Bool)
      → m.mutable ≡ true
      → Written m
          (upsert
            (record { key = key_of series_id timestamp; value = value; deleted = false })
            rows)
          (16 + length value)
          (put m series_id timestamp value draws)
  unfolding put
  put-Written value draws open_table =
      let r = put-Inserted m.skiplist v.cells v.valid (key_of series_id timestamp) value draws in
      record {
        table = record m { skiplist = r.state; size = (m.size + (8 + 8 + length value)) % 2 ^ 64 };
        returns = rw (open_table, r.returns);
        stands = record {
          cells = r.cells;
          valid = r.valid;
          rows_are = r.rows ∙ ap (upsert _) v.rows_are;
        };
        size = omega arith;
        mutable = open_table;
        threshold = refl;
      }

  -- On a memtable that stands for some rows and is not frozen, Delete is taken, whatever the draws:
  -- the table then stands for the rows with a tombstone put in, is still not frozen, keeps its
  -- threshold, and has grown by 17, modulo 2^64.
  pub delete-Written :
      (draws : List Bool)
      → m.mutable ≡ true
      → Written m
          (upsert (record { key = key_of series_id timestamp; value = []; deleted = true }) rows)
          17
          (delete m series_id timestamp draws)
  unfolding delete
  delete-Written draws open_table =
      let r = delete-Inserted m.skiplist v.cells v.valid (key_of series_id timestamp) draws in
      record {
        table = record m { skiplist = r.state; size = (m.size + (8 + 8 + 1)) % 2 ^ 64 };
        returns = rw (open_table, r.returns);
        stands = record {
          cells = r.cells;
          valid = r.valid;
          rows_are = r.rows ∙ ap (upsert _) v.rows_are;
        };
        size = omega arith;
        mutable = open_table;
        threshold = refl;
      }

  pub lookup-rows : lookup m series_id timestamp ≡ some (find (key_of series_id timestamp) rows)
  unfolding lookup
  lookup-rows =
      lookup-find m.skiplist v.cells v.valid (key_of series_id timestamp)
      ∙ ap (λ r. some (find (key_of series_id timestamp) r)) v.rows_are

  -- On a memtable that stands for some rows, Get gives the value of the row of the key, and nothing
  -- where there is none or where it is a tombstone.
  pub get-rows :
      get m series_id timestamp ≡ some (live_value (find (key_of series_id timestamp) rows))
  unfolding get
  get-rows = rw (lookup-find m.skiplist v.cells v.valid (key_of series_id timestamp), v.rows_are)

-- A frozen table refuses every Put and every Delete, and stays as it is.
pub frozen_refuses :
    (m : MemTable) (series_id : ℕ) (timestamp : ℤ) (value : List ℕ) (draws : List Bool)
    → (put (freeze m) series_id timestamp value draws ≡ some (false, freeze m))
      × (delete (freeze m) series_id timestamp draws ≡ some (false, freeze m))
unfolding put delete freeze
frozen_refuses m series_id timestamp value draws = (refl, refl)

pub freeze-IsMemTable :
    (m : MemTable) (rows : Rows) → IsMemTable m rows → IsMemTable (freeze m) rows
unfolding freeze
freeze-IsMemTable m rows v = record { cells = v.cells; valid = v.valid; rows_are = v.rows_are }

-- On a memtable that stands for some rows, a loop over its iterator ends and yields the rows, in
-- order.
pub entries-rows :
    (m : MemTable) (rows : Rows) → IsMemTable m rows → entries m ≡ some (entries_of rows)
unfolding entries
entries-rows m rows v =
    let one : 1 + m.skiplist.length ≡ suc m.skiplist.length = omega arith in
    rw one (iterate-rows m.skiplist v.cells v.valid) ∙ ap (λ r. some (entries_of r)) v.rows_are
