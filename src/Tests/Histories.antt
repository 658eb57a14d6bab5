-- ===== src/Tests/Histories.antt =====
-- A sequence of operations of wisp.go on a new engine.
use mathlib.Core.Path.{subst}
use mathlib.Core.Option.{some-injective}
use wisp_db.Base.{◌^◌, ◌<◌, ◌≡◌, refl, sym, ap, ◌∙◌, true, none, some, List, [], ◌∷◌, map, arith}
use wisp_db.Base.Result.{ok, ◌>>=◌, map_err, ok-injective}
use wisp_db.MemTable.Laws.{create-IsMemTable, entries-rows}
use wisp_db.SsTable.Reader.Table.{write}
use wisp_db.Base.Bytes.{put_le}
use wisp_db.SsTable.Block
use wisp_db.SsTable.Bloom
use wisp_db.SsTable.Bloom.{add_all, add_loop, write_bit, new_bloom_filter, position}
use wisp_db.SsTable.Index.{encode_index, encode_index_entry}
use wisp_db.SsTable.Writer.{
  write_table, close, flush_block, add_entries, add, new_writer, write_bytes, header,
  build_bloom_filter, sealed_file, bloom_bytes, footer,
}
use wisp_db.Wal.Log.Laws.{replay-LogHas}
use wisp_db.Wal.Log.Reopen.{create_empty-LogHas}
use wisp_db.SsTable.Reader.{Answer}
use wisp_db.Engine.Actions.{
  Action, State, put, reopen, compaction_begins, compaction_ends, perform, effects, value_in,
  empty_disk, MemTableFits, CanRun, run,
}
use wisp_db.Engine.History.{run-effects}
use wisp_db.Base.Sort.{sort_by}
use wisp_db.Engine.{Wisp, entry_of_row, get}
use wisp_db.Engine.Open.{create_wisp_with_config, recover, finished}
use wisp_db.Engine.Pending.{begin_compaction, end_compaction}
use wisp_db.Tests.Fixtures.{
  snappy, filters, length_of, bounded, before, first_segment, asked, config,
}

-- A new engine.
abbrev fresh : Wisp
fresh = record before { tables = []; next_gen = 0 }

opens_fresh : create_wisp_with_config config empty_disk (λ i. []) ≡ ok fresh
unfolding create_wisp_with_config recover finished sort_by map_err
opens_fresh = rw (replay-LogHas fresh.wal [] (create_empty-LogHas 4096)) refl

empty_length : length_of 64 [] < 2 ^ 32
unfolding length_of write write_table close flush_block add_entries add new_writer write_bytes
    header put_le build_bloom_filter add_all Bloom.add add_loop write_bit sealed_file bloom_bytes
    footer Bloom.encode encode_index encode_index_entry Block.encode Block.encode_with_compression
    Block.encode_loop Block.encode_entries Block.encode_entry Block.add new_bloom_filter
    Block.entry_encoded_size position
empty_length = omega arith

fresh_fits : MemTableFits snappy filters 64 (some fresh.mutable)
fresh_fits = (
  omega arith,
  λ rows file e made.
      let none_there : [] ≡ rows =
        some-injective [] rows (sym (entries-rows fresh.mutable [] (create-IsMemTable 100)) ∙ e) in
      bounded 64 [] file
        (ap (λ rs. write snappy filters 64 (map entry_of_row rs)) none_there ∙ made) empty_length,
)

-- A compaction in two steps, a write, a crash and an opening, and once more a crash.
abbrev writes : List Action
writes = put asked (9 ∷ []) (true ∷ []) ∷ reopen config (λ i. []) ∷ reopen config (λ i. []) ∷ []

abbrev actions : List Action
actions = compaction_begins true ∷ compaction_ends ∷ writes

can_write : CanRun snappy filters (fresh, none) writes
can_write = (
  (
    ((omega arith, omega (arith, first_segment)), fresh_fits, tt),
    ((omega arith, (omega arith, omega arith), omega arith), omega arith),
  ),
  λ s p. (tt, λ t q. (tt, λ u r. tt)),
)

-- Without tables a compaction does nothing.
starts :
    (s : State)
    → perform snappy filters (fresh, none) (compaction_begins true) ≡ ok s
    → (fresh, none) ≡ s
unfolding perform begin_compaction
starts s e = ok-injective (fresh, none) s e

finishes :
    (s : State) → perform snappy filters (fresh, none) compaction_ends ≡ ok s → (fresh, none) ≡ s
unfolding perform end_compaction finished
finishes s e = ok-injective (fresh, none) s e

can_run :
    (w : Wisp)
    → create_wisp_with_config config empty_disk (λ i. []) ≡ ok w
    → CanRun snappy filters (w, none) actions
can_run w e =
    let same : fresh ≡ w = ok-injective fresh w (sym opens_fresh ∙ e) in
    subst (λ u. CanRun snappy filters (u, none) actions) same
      (
        (refl, omega arith),
        λ s p.
            subst (λ x. CanRun snappy filters x (compaction_ends ∷ writes)) (starts s p)
              (tt, λ t q. subst (λ x. CanRun snappy filters x writes) (finishes t q) can_write),
      )

run-effects_example :
    (s : State) × ((create_wisp_with_config config empty_disk (λ i. []) >>= λ w.
    run snappy filters (w, none) actions)
      ≡ ok s)
    × ((a : Answer) × (get snappy filters s.0 asked ≡ ok a)
        × (value_in a ≡ effects actions (λ l. none) asked))
run-effects_example = run-effects snappy filters config (λ i. []) actions asked can_run
