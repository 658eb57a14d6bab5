-- ===== src/Engine/Compact.antt =====
-- Compact of wisp.go, and CompactAll, CompactRange and CompactSSTables of compactor/compact.go: the
-- entries of the tables are merged, written to one table, and that one replaces them. The entries of
-- a table are what its iterator yields.
pub mod Layers
pub mod Replace
pub mod Merge
pub mod Finish
pub mod Laws
use wisp_db.Base.{
  ℕ, ◌+◌, ◌%◌, ◌^◌, Bool, true, false, ◌||◌, Option, none, some, List, [], ◌∷◌, ◌++◌, map, ◌==◌,
  if◌then◌else◌,
}
use wisp_db.Base.Sort.{sort_by}
use wisp_db.Base.Result.{Result, ok, err, ◌>>=◌, map_err}
use wisp_db.Compactor.{compact_entries}
use wisp_db.SsTable.Entry.{Entry}
use wisp_db.SsTable.Iterator.Laws.{readable}
use wisp_db.SsTable.Libraries.{Snappy, Filters}
use wisp_db.SsTable.Reader.{Reader, open_reader, read_block}
use wisp_db.SsTable.Writer.{write_table}
use wisp_db.Engine.{
  Wisp, Tables, EngineError, read_error, writer_panic, Outcome, default_block_size, by_newest,
}

pub has_gen : ℕ → Tables → Bool
has_gen gen [] = false
has_gen gen (t ∷ ts) = t.0 == gen || has_gen gen ts

unfoldable pub kept_tables : Tables → Tables → Tables
unfolding has_gen
kept_tables olds [] = []
kept_tables olds (t ∷ ts) =
    if has_gen t.0 olds then kept_tables olds ts else t ∷ kept_tables olds ts

-- ReplaceTables. The path of a table is made of its generation.
unfoldable pub tables_replaced : Tables → Tables → Tables → Tables
unfolding kept_tables
tables_replaced olds new ts = sort_by by_newest (kept_tables olds ts ++ new)

module _ (snappy : Snappy) (filters : Filters) where
  unfoldable pub table_entries : Reader → List Entry
  table_entries r = readable (map (read_block snappy.decompress r) r.index)

  -- The output of the merge: no file where it has no entry.
  pub compacted : List Entry → Result EngineError (Option Reader)
  compacted [] = ok none
  compacted (e ∷ es) =
      map_err writer_panic (
        write_table snappy.compress filters.hashfunc filters.bits_for filters.hashes_for
          default_block_size (e ∷ es))
      >>= λ file. map_err read_error (open_reader file) >>= λ r. ok (some r)

  -- CompactSSTables.
  unfoldable pub compact_sstables : Bool → Tables → Result EngineError (Option Reader)
  unfolding compacted
  compact_sstables is_major tables =
      compacted (compact_entries is_major (map (λ t. (t.0, table_entries t.1)) tables))

  replaced : ℕ → Tables → Wisp → Result EngineError (Option Reader) → Outcome
  unfolding tables_replaced
  replaced gen olds w (err e) = (err e, w)
  replaced gen olds w (ok none) = (ok tt, record w { tables = tables_replaced olds [] w.tables })
  replaced gen olds w (ok (some r)) =
      (ok tt, record w { tables = tables_replaced olds ((gen, r) ∷ []) w.tables })

  -- The merge of the tables to the one of a generation, which replaces them; the engine is the one
  -- that is there after the merge.
  unfoldable pub finish_compaction : Bool → ℕ → Tables → Wisp → Outcome
  unfolding replaced
  finish_compaction is_major gen olds w = replaced gen olds w (compact_sstables is_major olds)

  -- CompactRange.
  unfoldable pub compact_range : Bool → Tables → Wisp → Outcome
  compact_range is_major [] w = (ok tt, w)
  compact_range is_major (t ∷ ts) w =
      let gen = (w.next_gen + 1) % 2 ^ 64 in
      finish_compaction is_major gen (t ∷ ts) (record w { next_gen = gen })

  -- CompactAll.
  unfoldable pub compact_all : Bool → Wisp → Outcome
  compact_all is_major w = compact_range is_major w.tables w

  -- Compact.
  unfoldable pub compact : Wisp → Outcome
  compact w = compact_all true w
