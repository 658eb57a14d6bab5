-- ===== src/Tests/Engines.antt =====
-- The operations of wisp.go on an engine with one table and one row in the mutable memtable.
use mathlib.Core.Bool.{true≢false}
use wisp_db.Base.{
  ℕ, ◌+◌, ◌%◌, ◌^◌, ◌<◌, ◌≡◌, refl, sym, ap, ◌∙◌, true, false, List, [], ◌∷◌, arith, ltb, length,
}
use wisp_db.Base.Int.{pos}
use wisp_db.Base.Result.{ok}
use wisp_db.MemTable
use wisp_db.MemTable.{freeze, MemTable, create_mem_table_with_threshold}
use wisp_db.MemTable.Laws.{freeze-IsMemTable}
use wisp_db.SsTable.Reader.{Reader, open_reader}
use wisp_db.SsTable.Reader.Table.{IsTable, write, write_table-open_reader}
use wisp_db.Base.Bytes.{put_le}
use wisp_db.SsTable.Block
use wisp_db.SsTable.Bloom
use wisp_db.SsTable.Bloom.{add_all, add_loop, write_bit, new_bloom_filter, position}
use wisp_db.SsTable.Index.{encode_index, encode_index_entry}
use wisp_db.SsTable.Writer.{
  write_table, close, flush_block, add_entries, add, new_writer, write_bytes, header,
  build_bloom_filter, sealed_file, bloom_bytes, footer,
}
use wisp_db.SsTable.Reader.{answer}
use wisp_db.Compactor.{compact_entries, merge_loop, fill, total, push_next, pop, is_last}
use wisp_db.Engine.{
  and_then, rows_table, add_table, default_block_size, freeze_mutable, flush_immutable,
  prepare_mutable, insert, flush, get,
}
use wisp_db.Engine.Open.{create_wisp_with_config, disk_of}
use wisp_db.Engine.Open.Recover.{Recovered, create-Recovered}
use wisp_db.Engine.Open.Crash.{between-Recovered}
use wisp_db.Engine.View.{entries_from, view, get-view}
use wisp_db.Engine.State.{ImmutableFits}
use wisp_db.Engine.Flush.{rows_table-IsTable, Flushed, flush_immutable-Flushed}
use wisp_db.Engine.Prepare.{Prepared, prepare_mutable-Prepared, frozen_contents, freeze-IsWisp}
use wisp_db.Engine.Write.{Stored, insert-Stored}
use wisp_db.Engine.Settle.{Kept, flush-Kept}
use wisp_db.Engine.Compact.{compact_all, finish_compaction, table_entries}
use wisp_db.Engine.Compact.Merge.{merged}
use wisp_db.Engine.Compact.Finish.{Compacted}
use wisp_db.Engine.Compact.Laws.{compact_all-Compacted, compaction_around_flush-Compacted}
use wisp_db.Engine.Scan.{scan}
use wisp_db.Engine.Scan.Sources.{Scanned, scan-Scanned}
use wisp_db.Tests.Fixtures.{
  snappy, filters, old_entry, length_of, bounded, old_entries-IsStored, old_entries-IsAscending,
  old_table, put_first, engine, contents, engine-IsWisp, engine-Room, engine-Fits, asked, config,
}

write_table-open_reader_example :
    (file : List ℕ) × (write snappy filters 64 (old_entry ∷ []) ≡ ok file)
    × (length file < 2 ^ 32
        → (r : Reader) × (open_reader file ≡ ok r) × IsTable snappy filters r (old_entry ∷ []))
write_table-open_reader_example =
    write_table-open_reader snappy filters 64 (old_entry ∷ []) (omega arith) old_entries-IsStored
      old_entries-IsAscending

get-view_example : get snappy filters engine asked ≡ ok (answer (view contents asked))
get-view_example = get-view snappy filters engine contents asked engine-IsWisp.holds

insert-Stored_example :
    Stored snappy filters engine contents
      (record { key = asked; value = 9 ∷ []; deleted = false })
      (insert snappy filters engine 1 (pos 3) (9 ∷ []) (true ∷ []))
insert-Stored_example =
    insert-Stored snappy filters engine contents asked (9 ∷ []) (true ∷ []) engine-IsWisp
      engine-Room tt engine-Fits
      ((omega arith, (omega arith, omega arith), omega arith), omega arith)

flush-Kept_example : Kept snappy filters engine contents (flush snappy filters engine)
flush-Kept_example =
    flush-Kept snappy filters engine contents engine-IsWisp engine-Room tt engine-Fits

prepare_mutable-Prepared_example :
    Prepared snappy filters engine contents (prepare_mutable snappy filters engine)
prepare_mutable-Prepared_example =
    prepare_mutable-Prepared snappy filters engine contents engine-IsWisp engine-Room tt engine-Fits

-- The engine when its memtable is frozen.
frozen_gens : (freeze_mutable engine).next_gen + 1 < 2 ^ 64
unfolding freeze_mutable
frozen_gens = omega arith

frozen_fits :
    ImmutableFits snappy filters
      (freeze_mutable engine).block_size
      (freeze_mutable engine).immutable
      contents.mutable
unfolding freeze_mutable
frozen_fits = engine-Fits

flush_immutable-Flushed_example :
    Flushed snappy filters
      (freeze_mutable engine)
      (frozen_contents contents)
      (flush_immutable snappy filters (freeze_mutable engine))
flush_immutable-Flushed_example =
    flush_immutable-Flushed snappy filters (freeze_mutable engine) (frozen_contents contents)
      (freeze-IsWisp snappy filters engine contents refl (omega (arith, engine-Room.1))
        engine-IsWisp)
      frozen_gens frozen_fits

-- The table of the frozen memtable.
frozen_table :
    (r : Reader) × (rows_table snappy filters 64 (MemTable.entries (freeze engine.mutable)) ≡ ok r)
    × IsTable snappy filters r (entries_from contents.mutable)
frozen_table =
    rows_table-IsTable snappy filters 64 (freeze engine.mutable) contents.mutable
      (freeze-IsMemTable engine.mutable contents.mutable engine-IsWisp.holds.mutable)
      engine-IsWisp.holds.mutable_rows engine-Fits

between-Recovered_example : Recovered snappy filters (frozen_contents contents) (
    create_wisp_with_config config
      (disk_of (
        add_table
          (((freeze_mutable engine).next_gen + 1) % 2 ^ 64)
          frozen_table.0
          (record (freeze_mutable engine) {
            next_gen = ((freeze_mutable engine).next_gen + 1) % 2 ^ 64;
          })))
      (λ i. []))
unfolding freeze_mutable
between-Recovered_example =
    between-Recovered snappy filters config (freeze_mutable engine) (frozen_contents contents)
      (freeze engine.mutable) frozen_table.0 (λ i. [])
      (freeze-IsWisp snappy filters engine contents refl (omega (arith, engine-Room.1))
        engine-IsWisp)
      refl frozen_gens engine-Fits frozen_table.1

create-Recovered_example :
    Recovered snappy filters contents (create_wisp_with_config config (disk_of engine) (λ i. []))
create-Recovered_example =
    create-Recovered snappy filters config engine contents (λ i. []) engine-IsWisp

merged_entries : merged snappy filters true engine.tables ≡ old_entry ∷ []
unfolding merged table_entries compact_entries merge_loop fill total push_next pop is_last
merged_entries = ap (λ es. compact_entries true ((1, es) ∷ [])) old_table.1.yields

merged_length : length_of 4096 (old_entry ∷ []) < 2 ^ 32
unfolding length_of write write_table close flush_block add_entries add new_writer write_bytes
    header put_le build_bloom_filter add_all Bloom.add add_loop write_bit sealed_file bloom_bytes
    footer Bloom.encode encode_index encode_index_entry Block.encode Block.encode_with_compression
    Block.encode_loop Block.encode_entries Block.encode_entry Block.add new_bloom_filter
    Block.entry_encoded_size position
merged_length = omega arith

merged_bounded :
    (file : List ℕ)
    → write snappy filters default_block_size (merged snappy filters true engine.tables) ≡ ok file
    → length file < 2 ^ 32
merged_bounded file e =
    bounded 4096 (old_entry ∷ []) file (ap (write snappy filters 4096) (sym merged_entries) ∙ e)
      merged_length

compact_all-Compacted_example :
    Compacted snappy filters engine contents (compact_all snappy filters true engine)
compact_all-Compacted_example =
    compact_all-Compacted snappy filters true engine contents engine-IsWisp (omega arith)
      merged_bounded

compaction_around_flush-Compacted_example :
    Compacted snappy filters (freeze_mutable engine) (frozen_contents contents) (
      and_then
        (flush_immutable snappy filters (record (freeze_mutable engine) {
          next_gen = ((freeze_mutable engine).next_gen + 1) % 2 ^ 64;
        }))
        (λ w.
          finish_compaction snappy filters true
            (((freeze_mutable engine).next_gen + 1) % 2 ^ 64)
            (freeze_mutable engine).tables
            w))
unfolding freeze_mutable
compaction_around_flush-Compacted_example =
    compaction_around_flush-Compacted snappy filters true (freeze_mutable engine)
      (frozen_contents contents)
      (freeze-IsWisp snappy filters engine contents refl (omega (arith, engine-Room.1))
        engine-IsWisp)
      (omega arith) engine-Fits merged_bounded

grown : (ltb 0 engine.mutable.size ≡ false) → contents.mutable ≡ []
unfolding create_mem_table_with_threshold
grown e =
    let is : ltb 0 engine.mutable.size ≡ true = ap (ltb 0) put_first.size in
    absurd (true≢false (sym is ∙ e))

scan-Scanned_example :
    Scanned snappy filters contents 1 (pos 0) (pos 9) (scan snappy filters engine 1 (pos 0) (pos 9))
scan-Scanned_example =
    scan-Scanned snappy filters engine contents 1 (pos 0) (pos 9) engine-IsWisp engine-Room tt grown
