-- ===== src/Engine/Compact/Laws.antt =====
-- Compactions of wisp.go's engine, alone and around a flush, and what is read after them.
use mathlib.Core.Path.{subst}
use wisp_db.Base.{
  ℕ, ◌+◌, ◌%◌, ◌^◌, ◌<◌, ◌≡◌, refl, sym, ap, ◌∙◌, Bool, List, [], ◌∷◌, arith, length,
}
use wisp_db.Base.Result.{ok}
use wisp_db.MemTable.{live_value}
use wisp_db.SsTable.Libraries.{Snappy, Filters}
use wisp_db.SsTable.Reader.Table.{write}
use wisp_db.Engine.{Wisp, Tables, and_then, flush_immutable, default_block_size}
use wisp_db.Engine.View.{Contents, BelowGen, TablesHold}
use wisp_db.Engine.State.{IsWisp, ImmutableFits}
use wisp_db.Engine.Flush.{flush_immutable-Flushed}
use wisp_db.Engine.Compact.{finish_compaction, compact_range, compact_all}
use wisp_db.Engine.Compact.Merge.{merged}
use wisp_db.Engine.Compact.Finish.{Compacted, finish_compaction-Compacted, drawn-IsWisp}

module _ (snappy : Snappy) (filters : Filters) where
  -- A compaction of the tables of a well-formed engine whose output is shorter than 4 GiB succeeds,
  -- while the generations last, and leaves the engine well formed; under every key, the value that
  -- is not deleted is what it was, or there is none as before.
  pub compact_all-Compacted :
      (is_major : Bool) (w : Wisp) (c : Contents)
      → IsWisp snappy filters w c
      → w.next_gen + 1 < 2 ^ 64
      → ((file : List ℕ)
          → write snappy filters default_block_size (merged snappy filters is_major w.tables)
            ≡ ok file
          → length file < 2 ^ 32)
      → Compacted snappy filters w c (compact_all snappy filters is_major w)
  unfolding compact_all compact_range
  compact_all-Compacted is_major w c v room fits = go w.tables refl
    where
      go :
          (ts : Tables)
          → w.tables ≡ ts
          → Compacted snappy filters w c (compact_range snappy filters is_major ts w)
      go [] e = record { after = w; contents = c; returns = refl; valid = v; same_live = λ k. refl }
      go (t ∷ ts) e =
          let gen = (w.next_gen + 1) % 2 ^ 64 in
          let gen_is : gen ≡ w.next_gen + 1 = omega (arith, room) in
          let d =
            finish_compaction-Compacted snappy filters is_major (record w { next_gen = gen }) c gen
              [] (t ∷ ts) [] c.layers (drawn-IsWisp snappy filters w c gen gen_is v) e refl tt
              (subst (λ us. TablesHold snappy filters us c.layers) e v.holds.tables) tt
              (subst (BelowGen gen) e (subst (λ n. BelowGen n w.tables) (sym gen_is) v.holds.gens))
              (omega arith)
              (subst
                (λ us.
                  (file : List ℕ)
                  → write snappy filters default_block_size (merged snappy filters is_major us)
                    ≡ ok file
                  → length file < 2 ^ 32)
                e fits) in
          record {
            after = d.after;
            contents = d.contents;
            returns = d.returns;
            valid = d.valid;
            same_live = d.same_live;
          }

  -- A compaction with a flush between its first step, which takes the tables and draws the
  -- generation, and its last, which replaces the tables: on a well-formed engine, whose immutable
  -- memtable makes a table shorter than 4 GiB, with a block size below 2 GiB, as the compaction
  -- does with its own, and while generations last, both succeed, and leave the engine well formed;
  -- under every key, the value that is not deleted is what it was, or there is none as before.
  pub compaction_around_flush-Compacted :
      (is_major : Bool) (w : Wisp) (c : Contents)
      → IsWisp snappy filters w c
      → w.next_gen + 2 < 2 ^ 64
      → ImmutableFits snappy filters w.block_size w.immutable c.immutable
      → ((file : List ℕ)
          → write snappy filters default_block_size (merged snappy filters is_major w.tables)
            ≡ ok file
          → length file < 2 ^ 32)
      → Compacted snappy filters w c (
          and_then
            (flush_immutable snappy filters (record w { next_gen = (w.next_gen + 1) % 2 ^ 64 }))
            (λ w'.
              finish_compaction snappy filters is_major ((w.next_gen + 1) % 2 ^ 64) w.tables w'))
  unfolding and_then
  compaction_around_flush-Compacted is_major w c v room fits_old fits =
      let gen = (w.next_gen + 1) % 2 ^ 64 in
      let gen_is : gen ≡ w.next_gen + 1 = omega (arith, room) in
      let f =
        flush_immutable-Flushed snappy filters (record w { next_gen = gen }) c
          (drawn-IsWisp snappy filters w c gen gen_is v) (omega (arith, gen_is, room)) fits_old in
      let g = f.grown in
      let d =
        finish_compaction-Compacted snappy filters is_major f.after f.contents gen g.fronts w.tables
          g.newer c.layers f.valid g.tables g.layers g.hold v.holds.tables g.gens
          (subst (λ n. BelowGen n w.tables) (sym gen_is) v.holds.gens) g.next_gen fits in
      record {
        after = d.after;
        contents = d.contents;
        returns =
            ap (λ o. and_then o (λ w'. finish_compaction snappy filters is_major gen w.tables w'))
              f.returns
            ∙ d.returns;
        valid = d.valid;
        same_live = λ k. d.same_live k ∙ ap live_value (f.same_view k);
      }
