-- ===== src/Engine.antt =====
-- wisp.go: the engine over the log, the two memtables and the tables. Each operation runs by itself,
-- without a second one between its locked sections. `tables` is what GetTables gives, a generation
-- with its reader. The log's rotation and the memtable's creation do not fail, as no system call does.
pub mod Open
pub mod View
pub mod State
pub mod Order
pub mod Flush
pub mod Prepare
pub mod Applied
pub mod Write
pub mod Settle
pub mod Pending
pub mod Compact
pub mod Scan
pub mod Actions
pub mod History
use wisp_db.Base.{
  ℕ, zero, suc, ◌+◌, ◌%◌, ◌^◌, Bool, true, false, not, ◌&&◌, Option, none, some, List, [], ◌∷◌,
  ◌++◌, map, ltb, ◌==◌, if◌then◌else◌,
}
use wisp_db.Base.Int.{ℤ}
use wisp_db.Base.Result.{Panic, Result, ok, err, ◌>>=◌, map_err}
use wisp_db.Base.Sort.{sort_by}
use wisp_db.Key.{Key}
use wisp_db.MemTable
use wisp_db.MemTable.{
  MemTable, create_mem_table_with_threshold, default_flush_threshold, freeze, is_full,
}
use wisp_db.SsTable.Entry.{Entry}
use wisp_db.SsTable.Libraries.{Snappy, Filters}
use wisp_db.SsTable.Writer.{write_table}
use wisp_db.SsTable.Reader.{
  Reader, ReadError, open_reader, Answer, missing, deleted, present, answer,
}
use wisp_db.SsTable.Reader
use wisp_db.Wal.Payload.{WalRecord, WalError}
use wisp_db.Wal.Log.{
  Wal, Directory, rotate, append_record, remove_segments_up_to, replay,
  create_wal_with_segment_size, default_max_segment_size,
}
use wisp_db.Wal.Log

-- `out_of_fuel` is none of Go's, and is never met; `panicked` is a panic of the skiplist.
pub data EngineError : Type 0 where
  put_refused delete_refused replay_refused panicked out_of_fuel : EngineError
  wal_error : WalError → EngineError
  read_error : ReadError → EngineError
  writer_panic : Panic → EngineError

abbrev pub default_block_size : ℕ
default_block_size = 4096

abbrev pub Tables : Type 0
Tables = List (ℕ × Reader)

pub record Wisp : Type 0 where
  pub wal : Wal
  pub mutable : MemTable
  pub immutable : Option MemTable
  pub immutable_wal_segment : ℕ
  pub tables : Tables
  pub next_gen : ℕ
  pub threshold : ℕ
  pub block_size : ℕ

-- What an operation returns, and the engine after it.
abbrev pub Outcome : Type 0
Outcome = Result EngineError (Unit {0}) × Wisp

-- `if err := …; err != nil { return err }`.
unfoldable pub and_then : Outcome → (Wisp → Outcome) → Outcome
and_then (ok u, w) f = f w
and_then (err e, w) f = (err e, w)

-- freezeMutableLocked.
unfoldable pub freeze_mutable : Wisp → Wisp
freeze_mutable w = record w {
  immutable = some (freeze w.mutable);
  immutable_wal_segment = (rotate w.wal).0;
  wal = (rotate w.wal).1;
  mutable = create_mem_table_with_threshold w.threshold;
}

-- The table list's Add, of a table whose generation NextGen gave, so that it does not raise that.
unfoldable pub by_newest : ℕ × Reader → ℕ × Reader → Bool
by_newest a b = ltb b.0 a.0

unfoldable pub add_table : ℕ → Reader → Wisp → Wisp
unfolding by_newest
add_table gen reader w = record w { tables = sort_by by_newest (w.tables ++ (gen, reader) ∷ []) }

-- The last locked section of flushImmutable, with the segments that it reclaims.
unfoldable pub finish_flush : Wisp → Wisp
finish_flush w = record w {
  immutable = none;
  wal =
      if ltb 0 w.immutable_wal_segment
      then remove_segments_up_to w.immutable_wal_segment w.wal
      else w.wal;
}

unfoldable pub entry_of_row : Key × List ℕ × Bool → Entry
entry_of_row (k, value, gone) = record {
  series_id = k.series_id;
  timestamp = k.timestamp;
  deleted = gone;
  value = value;
}

-- AppendRecord's record, put into a memtable, as Insert, Delete and Recover do it.
unfoldable pub apply_record : WalRecord → List Bool → MemTable → Option (Bool × MemTable)
apply_record r draws m =
    if r.deleted
    then MemTable.delete m r.series_id r.timestamp draws
    else MemTable.put m r.series_id r.timestamp r.value draws

applied : EngineError → Option (Bool × MemTable) → Result EngineError MemTable
applied refused none = err panicked
applied refused (some (false, m)) = err refused
applied refused (some (true, m)) = ok m

-- A found value or tombstone ends the search.
pick : Answer → Result EngineError Answer → Result EngineError Answer
pick missing rest = rest
pick deleted rest = ok deleted
pick (present value) rest = ok (present value)

from_memtable :
    Option (Option (List ℕ × Bool)) → Result EngineError Answer → Result EngineError Answer
from_memtable none rest = err panicked
from_memtable (some none) rest = rest
from_memtable (some (some v)) rest = ok (answer (some v))

look : Key → Option MemTable → Result EngineError Answer → Result EngineError Answer
unfolding from_memtable
look k none rest = rest
look k (some m) rest = from_memtable (MemTable.lookup m k.series_id k.timestamp) rest

module _ (snappy : Snappy) (filters : Filters) where
  -- The writer and the reader of flushImmutable, for the rows of the memtable's iterator.
  pub rows_table : ℕ → Option (List (Key × List ℕ × Bool)) → Result EngineError Reader
  unfolding entry_of_row
  rows_table block_size none = err panicked
  rows_table block_size (some rows) =
      map_err writer_panic (
        write_table snappy.compress filters.hashfunc filters.bits_for filters.hashes_for block_size
          (map entry_of_row rows))
      >>= λ file. map_err read_error (open_reader file)

  landed : ℕ → Wisp → Result EngineError Reader → Outcome
  landed gen w (err e) = (err e, w)
  landed gen w (ok reader) = (ok tt, finish_flush (add_table gen reader w))

  flush_of : Option MemTable → Wisp → Outcome
  unfolding rows_table landed
  flush_of none w = (ok tt, w)
  flush_of (some m) w =
      let gen = (w.next_gen + 1) % 2 ^ 64 in
      landed gen (record w { next_gen = gen }) (rows_table w.block_size (MemTable.entries m))

  -- flushImmutable, of the immutable memtable if there is one.
  unfoldable pub flush_immutable : Wisp → Outcome
  unfolding flush_of
  flush_immutable w = flush_of w.immutable w

  flush_or_freeze : Option MemTable → Wisp → Outcome
  flush_or_freeze none w = (ok tt, freeze_mutable w)
  flush_or_freeze (some m) w = flush_immutable w

  -- prepareMutableMemTableLocked.
  prepare_loop : ℕ → Wisp → Outcome
  unfolding flush_or_freeze
  prepare_loop zero w = (err out_of_fuel, w)
  prepare_loop (suc fuel) w =
      let next = and_then (flush_or_freeze w.immutable w) (λ w'. prepare_loop fuel w') in
      if is_full w.mutable then next else (ok tt, w)

  unfoldable pub prepare_mutable : Wisp → Outcome
  unfolding prepare_loop
  prepare_mutable w = prepare_loop 3 w

  -- What Insert and Delete do behind the preparation: the log, the memtable, and a flush.
  stored : Wisp → Result EngineError MemTable → Outcome
  stored w (err e) = (err e, w)
  stored w (ok m) = flush_immutable (record w { mutable = m })

  logged : EngineError → WalRecord → List Bool → Wisp → Result WalError (Unit {0}) → Outcome
  unfolding stored applied
  logged refused r draws w (err e) = (err (wal_error e), w)
  logged refused r draws w (ok u) = stored w (applied refused (apply_record r draws w.mutable))

  unfoldable pub log_and_apply : EngineError → WalRecord → List Bool → Wisp → Outcome
  unfolding logged
  log_and_apply refused r draws w =
      let a = append_record r w.wal in logged refused r draws (record w { wal = a.1 }) a.0

  unfoldable pub insert : Wisp → ℕ → ℤ → List ℕ → List Bool → Outcome
  insert w series_id timestamp value draws = and_then (prepare_mutable w) (λ w'.
      log_and_apply put_refused
        (record { timestamp = timestamp; series_id = series_id; deleted = false; value = value })
        draws w')

  unfoldable pub delete : Wisp → ℕ → ℤ → List Bool → Outcome
  delete w series_id timestamp draws = and_then (prepare_mutable w) (λ w'.
      log_and_apply delete_refused
        (record { timestamp = timestamp; series_id = series_id; deleted = true; value = [] }) draws
        w')

  -- Flush.
  flush_from : Option MemTable → Wisp → Outcome
  flush_from (some m) w = flush_immutable w
  flush_from none w =
      if ltb 0 w.mutable.size && not (is_full w.mutable)
      then flush_immutable (freeze_mutable w)
      else (ok tt, w)

  unfoldable pub flush : Wisp → Outcome
  unfolding flush_from
  flush w = flush_from w.immutable w

  -- The loop of Get over the tables, and its looks into the memtables.
  search_tables : Key → Tables → Result EngineError Answer
  unfolding pick
  search_tables k [] = ok missing
  search_tables k ((gen, reader) ∷ tables) =
      let rest = search_tables k tables in
      map_err read_error (Reader.get snappy.decompress filters.hashfunc reader k) >>= λ a.
      pick a rest

  unfoldable pub get : Wisp → Key → Result EngineError Answer
  unfolding look search_tables
  get w k = look k (some w.mutable) (look k w.immutable (search_tables k w.tables))
