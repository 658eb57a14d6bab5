-- ===== src/Engine/Open.antt =====
-- wisp.go: opening an engine, with the table list's Load and the replay of the log; closing it; and what
-- a crash leaves on the disk.
pub mod Recover
pub mod Crash
use wisp_db.Base.{
  ℕ, suc, ◌+◌, Bool, true, false, Option, none, some, List, [], ◌∷◌, map, ltb, ◌==◌, if◌then◌else◌,
}
use wisp_db.Base.Result.{Result, ok, err, ◌>>=◌, map_err}
use wisp_db.Base.Sort.{sort_by}
use wisp_db.MemTable.{MemTable, create_mem_table_with_threshold, default_flush_threshold}
use wisp_db.SsTable.Libraries.{Snappy, Filters}
use wisp_db.SsTable.Reader.{Reader, ReadError, open_reader}
use wisp_db.Wal.Payload.{WalRecord, WalError}
use wisp_db.Wal.Log.{Directory, replay, create_wal_with_segment_size, default_max_segment_size}
use wisp_db.Wal.Log
use wisp_db.Engine.{
  Wisp, Tables, EngineError, replay_refused, wal_error, read_error, Outcome, and_then, by_newest,
  default_block_size, apply_record, applied, flush,
}

-- Recover: the records of the log into the mutable memtable, in order.
put_back : Wisp → Result EngineError MemTable → Outcome
put_back w (err e) = (err e, w)
put_back w (ok m) = (ok tt, record w { mutable = m })

replayed : List WalRecord → (ℕ → List Bool) → Wisp → Outcome
unfolding applied put_back
replayed [] draws w = (ok tt, w)
replayed (r ∷ rs) draws w =
    and_then (put_back w (applied replay_refused (apply_record r (draws 0) w.mutable)))
      (λ w'. replayed rs (λ i. draws (suc i)) w')

of_replay : (ℕ → List Bool) → Wisp → Result WalError (List WalRecord) → Outcome
unfolding replayed
of_replay draws w (err e) = (err (wal_error e), w)
of_replay draws w (ok rs) = replayed rs draws w

unfoldable pub recover : Wisp → (ℕ → List Bool) → Outcome
unfolding of_replay
recover w draws = of_replay draws w (replay w.wal)

-- What is on the disk: the directory of the log, and the files of the tables with the generations of
-- their names.
pub record Disk : Type 0 where
  pub wal : Directory
  pub tables : List (ℕ × List ℕ)

-- The table list's Load.
load_tables : List (ℕ × List ℕ) → Result ReadError Tables
load_tables [] = ok []
load_tables ((gen, file) ∷ files) =
    let rest = load_tables files in
    open_reader file >>= λ reader. rest >>= λ tables. ok ((gen, reader) ∷ tables)

max_gen : List (ℕ × List ℕ) → ℕ → ℕ
max_gen [] n = n
max_gen ((gen, file) ∷ files) n = max_gen files (if ltb n gen then gen else n)

-- The configuration, less the paths; a zero stands for the default.
pub record WispConfig : Type 0 where
  pub block_size : ℕ
  pub mem_table_flush_threshold : ℕ
  pub wal_max_segment_size : ℕ

unfoldable pub finished : Outcome → Result EngineError Wisp
finished (ok u, w) = ok w
finished (err e, w) = err e

-- CreateWispWithConfig.
unfoldable pub create_wisp_with_config :
    WispConfig → Disk → (ℕ → List Bool) → Result EngineError Wisp
unfolding load_tables max_gen finished
create_wisp_with_config config disk draws =
    let threshold =
      if config.mem_table_flush_threshold == 0
      then default_flush_threshold
      else config.mem_table_flush_threshold in
    let max_segment_size =
      if config.wal_max_segment_size == 0
      then default_max_segment_size
      else config.wal_max_segment_size in
    map_err read_error (load_tables disk.tables) >>= λ tables. finished (
      recover
        (record {
          wal = create_wal_with_segment_size disk.wal max_segment_size;
          mutable = create_mem_table_with_threshold threshold;
          immutable = none;
          immutable_wal_segment = 0;
          tables = sort_by by_newest tables;
          next_gen = max_gen disk.tables 0;
          threshold = threshold;
          block_size = if config.block_size == 0 then default_block_size else config.block_size;
        })
        draws)

-- What a crash leaves.
unfoldable pub disk_of : Wisp → Disk
disk_of w = record { wal = w.wal.directory; tables = map (λ t. (t.0, t.1.file)) w.tables }

-- Close: an engine that is closed is not used again, so its log is closed rather than nil.
module _ (snappy : Snappy) (filters : Filters) where
  pub close : Wisp → Outcome
  close w =
      and_then (flush snappy filters w)
        (λ w'. (ok tt, record w' { wal = Log.close w'.wal; tables = [] }))
