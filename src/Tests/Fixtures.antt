-- ===== src/Tests/Fixtures.antt =====
-- An engine of wisp.go with one table and one row in the mutable memtable.
use mathlib.Core.Path.{subst}
use wisp_db.Base.{
  ℕ, ◌+◌, ◌^◌, ◌<◌, ◌≡◌, refl, sym, ap, true, false, none, some, List, [], ◌∷◌, ◌++◌, arith, length,
  All,
}
use wisp_db.Base.Int.{pos}
use wisp_db.Base.Result.{Result, ok, err}
use wisp_db.Key.{Key}
use wisp_db.Rows.{upsert}
use wisp_db.MemTable.{create_mem_table_with_threshold}
use wisp_db.MemTable.Laws.{create-IsMemTable}
use wisp_db.SsTable.Entry.{Entry, IsStored}
use wisp_db.SsTable.Sorted.{IsAscendingEntries}
use wisp_db.SsTable.Libraries.{Snappy, Filters}
use wisp_db.SsTable.Reader.{Reader}
use wisp_db.SsTable.Reader.Table.{IsTable, write, write_table-open_reader}
use wisp_db.Base.Bytes.{put_le}
use wisp_db.SsTable.Block
use wisp_db.SsTable.Bloom
use wisp_db.SsTable.Bloom.{add_all, add_loop, write_bit, new_bloom_filter, position}
use wisp_db.SsTable.Index.{encode_index, encode_index_entry}
use wisp_db.SsTable.Writer.{
  write_table, close, flush_block, add_entries, add, new_writer, write_bytes, header,
  build_bloom_filter, sealed_file, bloom_bytes, footer,
}
use wisp_db.Wal.Payload.{WalRecord}
use wisp_db.Wal.Segment.RoundTrip.{IsLogged}
use wisp_db.Wal.Log.{create_wal_with_segment_size, append_record}
use wisp_db.Wal.Log.Append.{append_record-Appended}
use wisp_db.Wal.Log.Reopen.{create_empty-LogHas, create_empty_segment}
use wisp_db.Engine.{Wisp, apply_record, entry_of_row}
use wisp_db.Engine.Open.{WispConfig}
use wisp_db.Engine.View.{Contents, upserts, row_of_record, entries_from}
use wisp_db.Engine.State.{LogSplit, IsWisp, Fits, Room}
use wisp_db.Engine.Applied.{Applied, apply_record-Applied, log_appended}

abbrev pub snappy : Snappy
snappy = record {
  compress = λ b. some b;
  decompress = λ b. some b;
  encodes = λ b h. (b, refl);
  inverse = λ b c e. sym e;
}

abbrev pub filters : Filters
filters = record {
  hashfunc = λ s. (s + 3, 5);
  bits_for = λ n. 10;
  hashes_for = λ m n. 3;
  bits_fit = λ n. omega arith;
  hashes_fit = λ m n. omega arith;
}

abbrev pub old_entry : Entry
old_entry = record { series_id = 1; timestamp = pos 3; deleted = false; value = 5 ∷ 6 ∷ [] }

abbrev pub bytes_of : {E : Type 0} → Result E (List ℕ) → List ℕ
bytes_of (ok bytes) = bytes
bytes_of (err e) = []

unfoldable pub length_of : ℕ → List Entry → ℕ
length_of block_size es = length (bytes_of (write snappy filters block_size es))

pub bounded :
    (block_size : ℕ) (es : List Entry) (file : List ℕ)
    → write snappy filters block_size es ≡ ok file
    → length_of block_size es < 2 ^ 32
    → length file < 2 ^ 32
unfolding length_of
bounded block_size es file e h = subst (λ r. length (bytes_of r) < 2 ^ 32) e h

pub old_entries-IsStored : All IsStored (old_entry ∷ [])
old_entries-IsStored = ((omega arith, (omega arith, omega arith), omega arith), tt)

pub old_entries-IsAscending : IsAscendingEntries (old_entry ∷ [])
unfolding IsAscendingEntries
old_entries-IsAscending = (tt, tt)

pub old_length : length_of 64 (old_entry ∷ []) < 2 ^ 32
unfolding length_of write write_table close flush_block add_entries add new_writer write_bytes
    header put_le build_bloom_filter add_all Bloom.add add_loop write_bit sealed_file bloom_bytes
    footer Bloom.encode encode_index encode_index_entry Block.encode Block.encode_with_compression
    Block.encode_loop Block.encode_entries Block.encode_entry Block.add new_bloom_filter
    Block.entry_encoded_size position
old_length = omega arith

pub old_table : (r : Reader) × IsTable snappy filters r (old_entry ∷ [])
old_table =
    let made =
      write_table-open_reader snappy filters 64 (old_entry ∷ []) (omega arith) old_entries-IsStored
        old_entries-IsAscending in
    let back = made.2 (bounded 64 (old_entry ∷ []) made.0 made.1 old_length) in (back.0, back.2)

-- An engine with the table, before a write.
abbrev pub before : Wisp
before = record {
  wal = create_wal_with_segment_size (record { segments = []; legacy = none }) 4096;
  mutable = create_mem_table_with_threshold 100;
  immutable = none;
  immutable_wal_segment = 0;
  tables = (1, old_table.0) ∷ [];
  next_gen = 1;
  threshold = 100;
  block_size = 64;
}

abbrev pub before_contents : Contents
before_contents = record { mutable = []; immutable = []; layers = (old_entry ∷ []) ∷ [] }

pub before_log : LogSplit before before_contents
unfolding upserts
before_log =
    let log = create_empty-LogHas 4096 in
    record {
      olds = [];
      news = log.sealed;
      active = log.active;
      holds = log.holds;
      is_open = log.is_open;
      positive = subst (λ i. 0 < i) (sym (create_empty_segment 4096)) (omega arith);
      split = refl;
      immutable = refl;
      mutable = ap (λ rs. upserts rs []) (sym log.records);
    }

abbrev pub new_record : WalRecord
new_record = record { timestamp = pos 4; series_id = 1; deleted = false; value = 7 ∷ [] }

pub before_open : before.mutable.mutable ≡ true
unfolding create_mem_table_with_threshold
before_open = refl

abbrev pub put_first :
    Applied before.mutable [] new_record (apply_record new_record [] before.mutable)
put_first = apply_record-Applied before.mutable [] new_record [] (create-IsMemTable 100) before_open

-- The engine after a write.
abbrev pub engine : Wisp
engine = record before { wal = (append_record new_record before.wal).1; mutable = put_first.table }

abbrev pub contents : Contents
contents = record before_contents { mutable = row_of_record new_record ∷ [] }

pub new_record-IsLogged : IsLogged new_record
new_record-IsLogged = ((omega arith, (omega arith, omega arith), omega arith), omega arith)

pub first_segment : before.wal.segment_id ≡ 1
first_segment = create_empty_segment 4096

pub engine-IsWisp : IsWisp snappy filters engine contents
unfolding upsert
engine-IsWisp = record {
  holds = record {
    mutable = put_first.stands;
    open_table = put_first.mutable;
    immutable = refl;
    mutable_rows = ((omega arith, (omega arith, omega arith), omega arith), tt);
    immutable_rows = tt;
    tables = (old_table.1, tt);
    layers = ((old_entries-IsStored, old_entries-IsAscending), tt);
    gens = (omega arith, tt);
  };
  log =
      log_appended before before_contents new_record put_first.table before_log new_record-IsLogged
        (omega (arith, first_segment));
}

pub engine-Room : Room engine
engine-Room =
    let log = before_log in
    let a =
      append_record-Appended before.wal (log.olds ++ log.news) log.active new_record log.holds
        log.is_open new_record-IsLogged (omega (arith, first_segment)) in
    (omega arith, omega (arith, a.1.segment, first_segment))

pub new_length : length_of 64 (entries_from contents.mutable) < 2 ^ 32
unfolding length_of entry_of_row write write_table close flush_block add_entries add new_writer
    write_bytes header put_le build_bloom_filter add_all Bloom.add add_loop write_bit sealed_file
    bloom_bytes footer Bloom.encode encode_index encode_index_entry Block.encode
    Block.encode_with_compression Block.encode_loop Block.encode_entries Block.encode_entry
    Block.add new_bloom_filter Block.entry_encoded_size position
new_length = omega arith

pub engine-Fits : Fits snappy filters 64 contents.mutable
engine-Fits = (omega arith, λ file e. bounded 64 (entries_from contents.mutable) file e new_length)

abbrev pub asked : Key
asked = record { series_id = 1; timestamp = pos 3 }

abbrev pub config : WispConfig
config = record { block_size = 64; mem_table_flush_threshold = 100; wal_max_segment_size = 4096 }
