-- ===== src/Engine/Compact/Finish.antt =====
-- The last step of a compaction: the tables that it took, behind those that were added since, are
-- replaced by its output.
use mathlib.Core.Path.{subst}
use wisp_db.Base.{
  ℕ, ◌+◌, ◌^◌, ◌≤◌, ◌<◌, ◌≡◌, refl, sym, ap, ◌∙◌, Bool, List, [], ◌∷◌, ◌++◌, arith, length, All,
  All-append, All-split,
}
use wisp_db.Base.Result.{ok, map_err}
use wisp_db.Key.{Key}
use wisp_db.MemTable.{live_value}
use wisp_db.SsTable.Entry.{Entry}
use wisp_db.SsTable.Libraries.{Snappy, Filters}
use wisp_db.SsTable.Reader.Table.{write, write_table-open_reader}
use wisp_db.Engine.{Wisp, Tables, Outcome, default_block_size}
use wisp_db.Engine.View.{Contents, Layers, IsLayer, BelowGen, TablesHold, view}
use wisp_db.Engine.State.{IsWisp, TablesHold-append}
use wisp_db.Engine.Order.{BelowGen-mono}
use wisp_db.Engine.Compact.{
  compacted, compact_sstables, tables_replaced, replaced, finish_compaction,
}
use wisp_db.Engine.Compact.Layers.{layers_after}
use wisp_db.Engine.Compact.Replace.{tables_replaced-fronts, BelowGen-fronts}
use wisp_db.Engine.Compact.Merge.{merged-IsLayer, merged-find_layers, merged-view, merged}

module _ (snappy : Snappy) (filters : Filters) where
  -- What a compaction gives.
  pub record Compacted (w : Wisp) (c : Contents) (result : Outcome) : Type 0 where
    pub after : Wisp
    pub contents : Contents
    pub returns : result ≡ (ok tt, after)
    pub valid : IsWisp snappy filters after contents
    pub same_live : (k : Key) → live_value (view contents k) ≡ live_value (view c k)

  layers_replaced :
      (w : Wisp) (c : Contents) (gen : ℕ) (ts : Tables) (ls : Layers)
      → IsWisp snappy filters w c
      → TablesHold snappy filters ts ls
      → All IsLayer ls
      → BelowGen (gen + 1) ts
      → IsWisp snappy filters (record w { next_gen = gen; tables = ts }) (record c { layers = ls })
  layers_replaced w c gen ts ls v tables layers gens = record {
    holds = record {
      mutable = v.holds.mutable;
      open_table = v.holds.open_table;
      immutable = v.holds.immutable;
      mutable_rows = v.holds.mutable_rows;
      immutable_rows = v.holds.immutable_rows;
      tables = tables;
      layers = layers;
      gens = gens;
    };
    log = record {
      olds = v.log.olds;
      news = v.log.news;
      active = v.log.active;
      holds = v.log.holds;
      is_open = v.log.is_open;
      positive = v.log.positive;
      split = v.log.split;
      immutable = v.log.immutable;
      mutable = v.log.mutable;
    };
  }

  -- Output for tables behind newer ones.
  replaced-IsWisp :
      (w : Wisp) (c : Contents) (gen : ℕ) (fronts olds : Tables) (newer : Layers) (es : List Entry)
      → IsWisp snappy filters w c
      → w.tables ≡ fronts ++ olds
      → TablesHold snappy filters fronts newer
      → All IsLayer newer
      → All (λ t. gen < t.0) fronts
      → BelowGen gen olds
      → gen ≤ w.next_gen
      → IsLayer es
      → ((file : List ℕ)
          → write snappy filters default_block_size es ≡ ok file
          → length file < 2 ^ 32)
      → (after : Wisp) × (replaced snappy filters gen olds w (compacted snappy filters es)
          ≡ (ok tt, after))
        × IsWisp snappy filters after (record c { layers = newer ++ layers_after es })
  unfolding replaced compacted write map_err
  replaced-IsWisp w c gen fronts olds newer es v e hold layers gens below le layer fits =
      go es layer fits
    where
      stands :
          (news : Tables) (ls : Layers)
          → BelowGen (gen + 1) news
          → TablesHold snappy filters news ls
          → All IsLayer ls
          → IsWisp snappy filters
              (record w { tables = tables_replaced olds news w.tables })
              (record c { layers = newer ++ ls })
      stands news ls b h valid =
          let split : BelowGen (w.next_gen + 1) (fronts ++ olds) =
            subst (BelowGen (w.next_gen + 1)) e v.holds.gens in
          let lt : gen < w.next_gen + 1 = omega (arith, le) in
          let now : tables_replaced olds news w.tables ≡ fronts ++ news =
            ap (tables_replaced olds news) e
            ∙ tables_replaced-fronts (w.next_gen + 1) gen fronts olds news split below gens lt b in
          layers_replaced w c w.next_gen (tables_replaced olds news w.tables) (newer ++ ls) v
            (subst (λ ts. TablesHold snappy filters ts (newer ++ ls)) (sym now)
              (TablesHold-append snappy filters fronts news newer ls hold h))
            (All-append IsLayer newer ls layers valid)
            (subst (BelowGen (w.next_gen + 1)) (sym now)
              (BelowGen-fronts (w.next_gen + 1) gen fronts olds news split gens lt b))

      go :
          (xs : List Entry)
          → IsLayer xs
          → ((file : List ℕ)
              → write snappy filters default_block_size xs ≡ ok file
              → length file < 2 ^ 32)
          → (after : Wisp) × (replaced snappy filters gen olds w (compacted snappy filters xs)
              ≡ (ok tt, after))
            × IsWisp snappy filters after (record c { layers = newer ++ layers_after xs })
      go [] l f =
          (record w { tables = tables_replaced olds [] w.tables }, refl, stands [] [] tt tt tt)
      go (x ∷ xs) l f =
          let made =
            write_table-open_reader snappy filters default_block_size (x ∷ xs) (omega arith) l.0
              l.1 in
          let back = made.2 (f made.0 made.1) in
          (
            record w { tables = tables_replaced olds ((gen, back.0) ∷ []) w.tables },
            rw (made.1, back.1),
            stands ((gen, back.0) ∷ []) ((x ∷ xs) ∷ []) (omega arith, tt) (back.2, tt) (l, tt),
          )

  -- The end of a compaction of tables behind those that were added since, all of later generations
  -- than its own: if its output is shorter than 4 GiB it succeeds, and leaves the engine well
  -- formed; under every key, the value that is not deleted is what it was, or there is none as
  -- before.
  pub finish_compaction-Compacted :
      (is_major : Bool) (w : Wisp) (c : Contents) (gen : ℕ) (fronts olds : Tables)
      (newer older : Layers)
      → IsWisp snappy filters w c
      → w.tables ≡ fronts ++ olds
      → c.layers ≡ newer ++ older
      → TablesHold snappy filters fronts newer
      → TablesHold snappy filters olds older
      → All (λ t. gen < t.0) fronts
      → BelowGen gen olds
      → gen ≤ w.next_gen
      → ((file : List ℕ)
          → write snappy filters default_block_size (merged snappy filters is_major olds) ≡ ok file
          → length file < 2 ^ 32)
      → Compacted w c (finish_compaction snappy filters is_major gen olds w)
  unfolding finish_compaction compact_sstables merged
  finish_compaction-Compacted is_major w c gen fronts olds newer older v e f hold hold_old gens
        below le fits =
      let es = merged snappy filters is_major olds in
      let valid = All-split IsLayer newer older (subst (All IsLayer) f v.holds.layers) in
      let r =
        replaced-IsWisp w c gen fronts olds newer es v e hold valid.0 gens below le
          (merged-IsLayer snappy filters is_major olds older hold_old valid.1) fits in
      record {
        after = r.0;
        contents = record c { layers = newer ++ layers_after es };
        returns = r.1;
        valid = r.2;
        same_live = λ k.
            merged-view snappy filters c newer older (layers_after es) k f
              (merged-find_layers snappy filters is_major gen olds older k hold_old valid.1 below);
      }

  -- The engine of which a generation was drawn.
  pub drawn-IsWisp :
      (w : Wisp) (c : Contents) (gen : ℕ)
      → gen ≡ w.next_gen + 1
      → IsWisp snappy filters w c
      → IsWisp snappy filters (record w { next_gen = gen }) c
  drawn-IsWisp w c gen e v =
      layers_replaced w c gen w.tables c.layers v v.holds.tables v.holds.layers
        (BelowGen-mono (w.next_gen + 1) (gen + 1) w.tables (omega (arith, e)) v.holds.gens)
