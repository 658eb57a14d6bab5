-- ===== src/Engine/Flush.antt =====
-- flushImmutable of wisp.go: the immutable memtable becomes a table, and its segments are reclaimed.
use mathlib.Core.Path.{subst}
use wisp_db.Base.{
  ℕ, ◌+◌, ◌%◌, ◌^◌, ◌≤◌, ◌<◌, ◌≡◌, refl, sym, ap, ◌∙◌, Bool, true, false, Option, none, some, [],
  ◌∷◌, ◌++◌, arith, ltb, lt→ltb, if◌then◌else◌, All,
}
use wisp_db.Base.Result.{ok, map_err}
use wisp_db.Key.{Key}
use wisp_db.Rows.{Rows, find, IsSorted}
use wisp_db.MemTable
use wisp_db.MemTable.{MemTable}
use wisp_db.MemTable.Laws.{IsMemTable, entries-rows}
use wisp_db.SsTable.Libraries.{Snappy, Filters}
use wisp_db.SsTable.Reader.{Reader}
use wisp_db.SsTable.Reader.Table.{IsTable, write, write_table-open_reader}
use wisp_db.Wal.Log.{remove_segments_up_to}
use wisp_db.Wal.Log.Laws.{LogHolds}
use wisp_db.Wal.Log.Reclaim.{remove_segments_up_to_handle, remove_segments_up_to-LogHolds}
use wisp_db.Engine.{
  Wisp, Outcome, add_table, finish_flush, rows_table, landed, flush_of, flush_immutable,
}
use wisp_db.Engine.View.{
  Contents, BelowGen, TablesHold, ImmutableHolds, view, over, find_layers, entries_from,
  find_entry-entries_from, entries_from-IsAscendingEntries, entries_from-IsStored, upserts, IsRow,
}
use wisp_db.Engine.State.{LogSplit, Split, IsWisp, Fits, ImmutableFits, Grown}
use wisp_db.Engine.Order.{sort_by-BelowGen, kept_above_news}

pub rows-IsSorted : (m : MemTable) (rows : Rows) → IsMemTable m rows → IsSorted rows
rows-IsSorted m rows v = subst IsSorted v.rows_are v.valid.sorted

module _ (snappy : Snappy) (filters : Filters) where
  pub rows_table-IsTable :
      (block_size : ℕ) (m : MemTable) (rows : Rows)
      → IsMemTable m rows
      → All IsRow rows
      → Fits snappy filters block_size rows
      → (reader : Reader) × (rows_table snappy filters block_size (MemTable.entries m) ≡ ok reader)
        × IsTable snappy filters reader (entries_from rows)
  unfolding rows_table write map_err
  rows_table-IsTable block_size m rows v valid fits =
      let made =
        write_table-open_reader snappy filters block_size (entries_from rows) fits.0
          (entries_from-IsStored rows valid)
          (entries_from-IsAscendingEntries rows (rows-IsSorted m rows v)) in
      let back = made.2 (fits.1 made.0 made.1) in
      (back.0, rw (entries-rows m rows v, made.1, back.1), back.2)

  -- The contents after a flush.
  abbrev pub flushed_contents : Option MemTable → Contents → Contents
  flushed_contents none c = c
  flushed_contents (some m) c = record c {
    immutable = [];
    layers = entries_from c.immutable ∷ c.layers;
  }

  flushed_view :
      (m : Option MemTable) (c : Contents) (k : Key) → view (flushed_contents m c) k ≡ view c k
  unfolding view find_layers over find
  flushed_view none c k = refl
  flushed_view (some m) c k =
      ap (λ o. over (find k c.mutable) (over o (find_layers k c.layers)))
        (find_entry-entries_from k c.immutable)

  -- What a flush gives.
  pub record Flushed (w : Wisp) (c : Contents) (result : Outcome) : Type 0 where
    pub after : Wisp
    pub contents : Contents
    pub returns : result ≡ (ok tt, after)
    pub valid : IsWisp snappy filters after contents
    pub same_view : (k : Key) → view contents k ≡ view c k
    pub mutable : after.mutable ≡ w.mutable
    pub mutable_rows : contents.mutable ≡ c.mutable
    pub immutable : after.immutable ≡ none
    pub immutable_rows : contents.immutable ≡ []
    pub settings : (after.threshold ≡ w.threshold) × (after.block_size ≡ w.block_size)
    pub next_gen : after.next_gen ≤ w.next_gen + 1
    pub segment : after.wal.segment_id ≡ w.wal.segment_id
    pub grown : Grown snappy filters w c after contents

  -- The engine when the table is in the list, and the memtable is still there.
  pub add_table-IsWisp :
      (w : Wisp) (c : Contents) (m : MemTable) (gen : ℕ) (reader : Reader)
      → w.immutable ≡ some m
      → gen ≡ w.next_gen + 1
      → IsTable snappy filters reader (entries_from c.immutable)
      → IsWisp snappy filters w c
      → IsWisp snappy filters
          (add_table gen reader (record w { next_gen = gen }))
          (record c { layers = entries_from c.immutable ∷ c.layers })
  unfolding add_table
  add_table-IsWisp w c m gen reader e g table v =
      let held : IsMemTable m c.immutable =
        subst (λ o. ImmutableHolds o c.immutable) e v.holds.immutable in
      let below : BelowGen gen w.tables = subst (λ n. BelowGen n w.tables) (sym g) v.holds.gens in
      let sorted = sort_by-BelowGen (gen, reader) w.tables below in
      record {
        holds = record {
          mutable = v.holds.mutable;
          open_table = v.holds.open_table;
          immutable = v.holds.immutable;
          mutable_rows = v.holds.mutable_rows;
          immutable_rows = v.holds.immutable_rows;
          tables =
              subst (λ ts. TablesHold snappy filters ts (entries_from c.immutable ∷ c.layers))
                (sym sorted) (table, v.holds.tables);
          layers = (
            (
              entries_from-IsStored c.immutable v.holds.immutable_rows,
              entries_from-IsAscendingEntries c.immutable (rows-IsSorted m c.immutable held),
            ),
            v.holds.layers,
          );
          gens = subst (BelowGen (gen + 1)) (sym sorted) (omega arith, below);
        };
        log = record {
          olds = v.log.olds;
          news = v.log.news;
          active = v.log.active;
          holds = v.log.holds;
          is_open = v.log.is_open;
          positive = v.log.positive;
          split = v.log.split;
          immutable = v.log.immutable;
          mutable = v.log.mutable;
        };
      }

  -- The segments of the memtable are gone.
  finish_log :
      (w : Wisp) (c : Contents) (m : MemTable)
      → w.immutable ≡ some m
      → LogSplit w c
      → LogSplit (finish_flush w) (record c { immutable = [] })
  unfolding finish_flush upserts
  finish_log w c m e v =
      let s : Split (some m) w.immutable_wal_segment w.wal.segment_id v.olds v.news =
        subst (λ o. Split o w.immutable_wal_segment w.wal.segment_id v.olds v.news) e v.split in
      let seg = w.immutable_wal_segment in
      let removes = lt→ltb 0 seg s.0 in
      let kept = remove_segments_up_to-LogHolds seg w.wal (v.olds ++ v.news) v.active v.holds in
      let handle = remove_segments_up_to_handle seg w.wal in
      rw removes (record {
        olds = [];
        news = v.news;
        active = v.active;
        holds =
            subst (λ cs. LogHolds (remove_segments_up_to seg w.wal) cs v.active)
              (kept_above_news seg v.olds v.news s.1 s.2) kept;
        is_open = handle.1 ∙ v.is_open;
        positive = subst (λ i. 0 < i) (sym handle.0) v.positive;
        split = refl;
        immutable = refl;
        mutable = v.mutable;
      })

  finish-IsWisp :
      (w : Wisp) (c : Contents) (m : MemTable)
      → w.immutable ≡ some m
      → IsWisp snappy filters w c
      → IsWisp snappy filters (finish_flush w) (record c { immutable = [] })
  unfolding finish_flush
  finish-IsWisp w c m e v = record {
    holds = record {
      mutable = v.holds.mutable;
      open_table = v.holds.open_table;
      immutable = refl;
      mutable_rows = v.holds.mutable_rows;
      immutable_rows = tt;
      tables = v.holds.tables;
      layers = v.holds.layers;
      gens = v.holds.gens;
    };
    log = finish_log w c m e v.log;
  }

  -- On an engine that is well formed, a flush of an immutable memtable whose table is shorter than
  -- 4 GiB, with a block size below 2 GiB, succeeds, while the generations last: nothing is left to
  -- flush, its segments are reclaimed, the engine is well formed again, and every key has what it
  -- had.
  pub flush_immutable-Flushed :
      (w : Wisp) (c : Contents)
      → IsWisp snappy filters w c
      → w.next_gen + 1 < 2 ^ 64
      → ImmutableFits snappy filters w.block_size w.immutable c.immutable
      → Flushed w c (flush_immutable snappy filters w)
  unfolding flush_immutable flush_of landed finish_flush add_table
  flush_immutable-Flushed w c v room fits = go w.immutable refl
    where
      go : (o : Option MemTable) → w.immutable ≡ o → Flushed w c (flush_of snappy filters o w)
      go none e = record {
        after = w;
        contents = c;
        returns = refl;
        valid = v;
        same_view = λ k. refl;
        mutable = refl;
        mutable_rows = refl;
        immutable = e;
        immutable_rows = subst (λ o. ImmutableHolds o c.immutable) e v.holds.immutable;
        settings = (refl, refl);
        next_gen = omega arith;
        segment = refl;
        grown = record {
          fronts = [];
          newer = [];
          tables = refl;
          layers = refl;
          hold = tt;
          gens = tt;
          next_gen = omega arith;
        };
      }
      go (some m) e =
          let held : IsMemTable m c.immutable =
            subst (λ o. ImmutableHolds o c.immutable) e v.holds.immutable in
          let small : Fits snappy filters w.block_size c.immutable =
            subst (λ o. ImmutableFits snappy filters w.block_size o c.immutable) e fits in
          let t = rows_table-IsTable w.block_size m c.immutable held v.holds.immutable_rows small in
          let gen = (w.next_gen + 1) % 2 ^ 64 in
          let gen_is : gen ≡ w.next_gen + 1 = omega (arith, room) in
          record {
            after = finish_flush (add_table gen t.0 (record w { next_gen = gen }));
            contents = flushed_contents (some m) c;
            returns = rw (t.1);
            valid =
                finish-IsWisp (add_table gen t.0 (record w { next_gen = gen })) _ m e
                  (add_table-IsWisp w c m gen t.0 e gen_is t.2 v);
            same_view = flushed_view (some m) c;
            mutable = refl;
            mutable_rows = refl;
            immutable = refl;
            immutable_rows = refl;
            settings = (refl, refl);
            next_gen = omega (arith, gen_is);
            segment = segment_kept (ltb 0 w.immutable_wal_segment);
            grown = record {
              fronts = (gen, t.0) ∷ [];
              newer = entries_from c.immutable ∷ [];
              tables =
                  sort_by-BelowGen (gen, t.0) w.tables
                    (subst (λ n. BelowGen n w.tables) (sym gen_is) v.holds.gens);
              layers = refl;
              hold = (t.2, tt);
              gens = (omega (arith, gen_is), tt);
              next_gen = omega (arith, gen_is);
            };
          }
        where
          segment_kept :
              (b : Bool)
              → (if b
                  then remove_segments_up_to w.immutable_wal_segment w.wal
                  else w.wal).segment_id
                ≡ w.wal.segment_id
          segment_kept true = (remove_segments_up_to_handle w.immutable_wal_segment w.wal).0
          segment_kept false = refl
