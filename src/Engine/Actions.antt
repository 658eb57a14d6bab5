-- ===== src/Engine/Actions.antt =====
-- What a client does with the engine of wisp.go, one action after the other, and the map from keys to
-- values that it expects.
use wisp_db.Base.{
  ℕ, ◌+◌, ◌^◌, ◌<◌, ◌≡◌, Bool, true, false, Option, none, some, List, [], ◌∷◌, map, if◌then◌else◌,
  length,
}
use wisp_db.Base.Result.{Result, ok, ◌>>=◌}
use wisp_db.Key.{Key, key_eq}
use wisp_db.MemTable
use wisp_db.MemTable.{MemTable, live_value}
use wisp_db.SsTable.Libraries.{Snappy, Filters}
use wisp_db.SsTable.Reader.{Answer, missing, deleted, present}
use wisp_db.SsTable.Reader.Table.{write}
use wisp_db.Wal.Segment.RoundTrip.{IsLogged}
use wisp_db.Engine.{Wisp, EngineError, insert, delete, flush, default_block_size, entry_of_row}
use wisp_db.Engine.Pending.{Pending, begin_compaction, end_compaction, OutputFits}
use wisp_db.Engine.Open.{WispConfig, Disk, finished, create_wisp_with_config, disk_of}
use wisp_db.Engine.State.{Room}
use wisp_db.Engine.Compact.{compact_all}
use wisp_db.Engine.Compact.Merge.{merged}

-- What a client does, with the draws of the skiplist; `reopen` is a crash, and then an engine that is
-- opened on what the disk has.
pub data Action : Type 0 where
  put : Key → List ℕ → List Bool → Action
  remove : Key → List Bool → Action
  flush_now : Action
  compact_now : Bool → Action
  compaction_begins : Bool → Action
  compaction_ends : Action
  reopen : WispConfig → (ℕ → List Bool) → Action

abbrev pub Values : Type 0
Values = Key → Option (List ℕ)

-- The map after an action, and after a sequence of them.
abbrev pub effect : Action → Values → Values
effect (put k value draws) m l = if key_eq k l then some value else m l
effect (remove k draws) m l = if key_eq k l then none else m l
effect flush_now m l = m l
effect (compact_now is_major) m l = m l
effect (compaction_begins is_major) m l = m l
effect compaction_ends m l = m l
effect (reopen config draws) m l = m l

abbrev pub effects : List Action → Values → Values
effects [] m = m
effects (a ∷ rest) m = effects rest (effect a m)

-- The value that an answer gives.
abbrev pub value_in : Answer → Option (List ℕ)
value_in missing = none
value_in deleted = none
value_in (present value) = some value

abbrev pub empty_disk : Disk
empty_disk = record { wal = record { segments = []; legacy = none }; tables = [] }

-- An engine with the compaction that is on its way.
abbrev pub State : Type 0
State = Wisp × Option Pending

-- What an operation leaves, with a compaction.
abbrev pub with_pending : Option Pending → Result EngineError Wisp → Result EngineError State
with_pending o r = r >>= λ w. ok (w, o)

module _ (snappy : Snappy) (filters : Filters) where
  unfoldable pub perform : State → Action → Result EngineError State
  perform s (put k value draws) =
      with_pending s.1 (finished (insert snappy filters s.0 k.series_id k.timestamp value draws))
  perform s (remove k draws) =
      with_pending s.1 (finished (delete snappy filters s.0 k.series_id k.timestamp draws))
  perform s flush_now = with_pending s.1 (finished (flush snappy filters s.0))
  perform s (compact_now is_major) =
      with_pending s.1 (finished (compact_all snappy filters is_major s.0))
  perform s (compaction_begins is_major) = ok (begin_compaction is_major s.0.tables s.0)
  perform s compaction_ends = with_pending none (finished (end_compaction snappy filters s.1 s.0))
  perform s (reopen config draws) =
      with_pending none (create_wisp_with_config config (disk_of s.0) draws)

  unfoldable pub run : State → List Action → Result EngineError State
  run s [] = ok s
  run s (a ∷ rest) = perform s a >>= λ s'. run s' rest

  -- The block size is below 2 GiB, and the table of a memtable is shorter than 4 GiB.
  abbrev pub MemTableFits : ℕ → Option MemTable → Type 0
  MemTableFits block_size none = Unit {0}
  MemTableFits block_size (some m) =
      (block_size < 2 ^ 31)
      × ((rows : List (Key × List ℕ × Bool)) (file : List ℕ)
          → MemTable.entries m ≡ some rows
          → write snappy filters block_size (map entry_of_row rows) ≡ ok file
          → length file < 2 ^ 32)

  -- What a write or a flush needs: nothing runs out.
  abbrev pub CanFlush : Wisp → Type 0
  CanFlush w =
      Room w × MemTableFits w.block_size (some w.mutable) × MemTableFits w.block_size w.immutable

  -- Only one compaction is on its way at a time.
  abbrev pub CanPerform : State → Action → Type 0
  CanPerform s (put k value draws) =
      CanFlush s.0
      × IsLogged (record {
        timestamp = k.timestamp;
        series_id = k.series_id;
        deleted = false;
        value = value;
      })
  CanPerform s (remove k draws) =
      CanFlush s.0
      × IsLogged
          (record { timestamp = k.timestamp; series_id = k.series_id; deleted = true; value = [] })
  CanPerform s flush_now = CanFlush s.0
  CanPerform s (compact_now is_major) =
      (s.1 ≡ none)
      × (s.0.next_gen + 1 < 2 ^ 64)
      × ((file : List ℕ)
          → write snappy filters default_block_size (merged snappy filters is_major s.0.tables)
            ≡ ok file
          → length file < 2 ^ 32)
  CanPerform s (compaction_begins is_major) = (s.1 ≡ none) × (s.0.next_gen + 1 < 2 ^ 64)
  CanPerform s compaction_ends = OutputFits snappy filters s.1
  CanPerform s (reopen config draws) = Unit {0}

  -- Nothing runs out on the way.
  abbrev pub CanRun : State → List Action → Type 0
  CanRun s [] = Unit {0}
  CanRun s (a ∷ rest) = CanPerform s a × ((s' : State) → perform s a ≡ ok s' → CanRun s' rest)
