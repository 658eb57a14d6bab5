-- ===== src/Engine/Open/Recover.antt =====
-- Opening an engine of wisp.go on what another one has left on the disk.
use mathlib.Core.Path.{subst}
use mathlib.Core.List.{append_assoc}
use wisp_db.Base.{
  ℕ, suc, ◌+◌, ◌≤◌, ◌<◌, ◌≡◌, refl, sym, ap, ◌∙◌, Bool, true, none, List, [], ◌∷◌, ◌++◌, map, arith,
  ltb, ◌==◌, if◌then◌else◌, All, All-append,
}
use wisp_db.Base.Sort.{sort_by, insert_sorted}
use wisp_db.Base.Result.{Result, ok, ◌>>=◌, map_err}
use wisp_db.Key.{Key}
use wisp_db.Rows.{Rows, find, upsert}
use wisp_db.MemTable.{MemTable, create_mem_table_with_threshold, default_flush_threshold}
use wisp_db.MemTable.Laws.{IsMemTable, create-IsMemTable}
use wisp_db.SsTable.Libraries.{Snappy, Filters}
use wisp_db.Wal.Payload.{WalRecord}
use wisp_db.Wal.Segment.RoundTrip.{IsLogged}
use wisp_db.Wal.Log.{create_wal_with_segment_size, default_max_segment_size}
use wisp_db.Wal.Log.Files.{Chunks, records_of, records_of-append, AllLogged}
use wisp_db.Wal.Log.Laws.{LogHas, held_records, replay-LogHas}
use wisp_db.Wal.Log.Reopen.{create-LogHas, create_empty-LogHas, create_empty_segment}
use wisp_db.Engine.{
  Wisp, Tables, EngineError, read_error, and_then, by_newest, applied, default_block_size,
}
use wisp_db.Engine.Open.{
  put_back, replayed, of_replay, recover, Disk, load_tables, max_gen, WispConfig, finished,
  create_wisp_with_config, disk_of,
}
use wisp_db.Engine.View.{
  Contents, Layers, TablesHold, BelowGen, IsRow, IsLayer, ImmutableHolds, view, over, over_assoc,
  find_layers, upserts, upserts-append, find-upserts, row_of_record,
}
use wisp_db.Engine.State.{LogSplit, Split, IsWisp}
use wisp_db.Engine.Order.{insert_last}
use wisp_db.Engine.Applied.{apply_record-Applied, row_of_record-IsRow, All-upsert}

-- The records are put into the memtable, one after the other.
replayed_lem :
    (rs : List WalRecord) (draws : ℕ → List Bool) (w : Wisp) (rows : Rows)
    → IsMemTable w.mutable rows
    → w.mutable.mutable ≡ true
    → (m : MemTable) × (replayed rs draws w ≡ (ok tt, record w { mutable = m }))
      × IsMemTable m (upserts rs rows)
      × (m.mutable ≡ true)
unfolding replayed upserts put_back applied and_then
replayed_lem [] draws w rows v open_table = (w.mutable, refl, v, open_table)
replayed_lem (r ∷ rs) draws w rows v open_table =
    let a = apply_record-Applied w.mutable rows r (draws 0) v open_table in
    let rest =
      replayed_lem rs (λ i. draws (suc i)) (record w { mutable = a.table })
        (upsert (row_of_record r) rows) a.stands a.mutable in
    (rest.0, rw (a.returns) rest.1, rest.2, rest.3)

All-upserts :
    (rs : List WalRecord) (rows : Rows)
    → All IsLogged rs
    → All IsRow rows
    → All IsRow (upserts rs rows)
unfolding upserts
All-upserts [] rows h v = v
All-upserts (r ∷ rs) rows h v =
    All-upserts rs (upsert (row_of_record r) rows) h.1
      (All-upsert IsRow (row_of_record r) rows (row_of_record-IsRow r h.0) v)

sorted_tables : (n : ℕ) (ts : Tables) → BelowGen n ts → sort_by by_newest ts ≡ ts
unfolding sort_by
sorted_tables n [] h = refl
sorted_tables n (t ∷ ts) h =
    ap (insert_sorted by_newest t) (sorted_tables t.0 ts h.1) ∙ insert_last t ts h.1

max_gen-least : (fs : List (ℕ × List ℕ)) (n : ℕ) → n ≤ max_gen fs n
unfolding max_gen
max_gen-least [] n = omega arith
max_gen-least (f ∷ fs) n =
    let r = max_gen-least fs (if ltb n f.0 then f.0 else n) in ground (arith, r)

max_gen-BelowGen :
    (n : ℕ) (ts : Tables)
    → BelowGen n ts
    → BelowGen (max_gen (map (λ t. (t.0, t.1.file)) ts) 0 + 1) ts
unfolding max_gen
max_gen-BelowGen n [] h = tt
max_gen-BelowGen n (t ∷ ts) h =
    let r = max_gen-least (map (λ t. (t.0, t.1.file)) ts) (if ltb 0 t.0 then t.0 else 0) in
    (ground (arith, r), h.1)

module _ (snappy : Snappy) (filters : Filters) where
  load_tables_lem :
      (ts : Tables) (ls : Layers)
      → TablesHold snappy filters ts ls
      → load_tables (map (λ t. (t.0, t.1.file)) ts) ≡ ok ts
  unfolding load_tables
  load_tables_lem [] [] h = refl
  load_tables_lem [] (es ∷ ls) h = absurd h
  load_tables_lem (t ∷ ts) [] h = absurd h
  load_tables_lem (t ∷ ts) (es ∷ ls) h = rw (h.0.reopens, load_tables_lem ts ls h.1)

  -- What opening gives.
  pub record Recovered (c : Contents) (result : Result EngineError Wisp) : Type 0 where
    pub after : Wisp
    pub contents : Contents
    pub returns : result ≡ ok after
    pub valid : IsWisp snappy filters after contents
    pub same_view : (k : Key) → view contents k ≡ view c k

  -- Replaying everything is the same as the mutable rows in front of the immutable ones.
  replayed_view :
      (w : Wisp) (c : Contents) (v : LogSplit w c) (k : Key)
      → over
          (find k (upserts (held_records (v.olds ++ v.news) v.active) []))
          (find_layers k c.layers)
        ≡ view c k
  unfolding view
  replayed_view w c v k =
      let old = records_of v.olds in
      let recent = records_of v.news ++ v.active in
      let split : held_records (v.olds ++ v.news) v.active ≡ old ++ recent =
        ap (λ l. l ++ v.active) (records_of-append v.olds v.news)
        ∙ append_assoc old (records_of v.news) v.active in
      let both : find k (upserts (held_records (v.olds ++ v.news) v.active) [])
          ≡ over (find k c.mutable) (find k c.immutable) =
        ap (λ rs. find k (upserts rs [])) split
        ∙ ap (find k) (upserts-append old recent [])
        ∙ find-upserts k recent (upserts old [])
        ∙ ap (λ r. over (find k r) (find k (upserts old []))) (sym v.mutable)
        ∙ ap (λ r. over (find k c.mutable) (find k r)) (sym v.immutable) in
      ap (λ o. over o (find_layers k c.layers)) both
      ∙ over_assoc (find k c.mutable) (find k c.immutable) (find_layers k c.layers)

  -- The engine when the tables are loaded, and nothing is replayed.
  abbrev loaded : WispConfig → Disk → Tables → Wisp
  loaded config disk tables =
      let threshold =
        if config.mem_table_flush_threshold == 0
        then default_flush_threshold
        else config.mem_table_flush_threshold in
      let max_segment_size =
        if config.wal_max_segment_size == 0
        then default_max_segment_size
        else config.wal_max_segment_size in
      record {
        wal = create_wal_with_segment_size disk.wal max_segment_size;
        mutable = create_mem_table_with_threshold threshold;
        immutable = none;
        immutable_wal_segment = 0;
        tables = tables;
        next_gen = max_gen disk.tables 0;
        threshold = threshold;
        block_size = if config.block_size == 0 then default_block_size else config.block_size;
      }

  create-loaded :
      (config : WispConfig) (disk : Disk) (tables : Tables) (draws : ℕ → List Bool)
      → load_tables disk.tables ≡ ok tables
      → sort_by by_newest tables ≡ tables
      → create_wisp_with_config config disk draws
        ≡ finished (recover (loaded config disk tables) draws)
  unfolding create_wisp_with_config map_err
  create-loaded config disk tables draws loads sorted =
      ap
        (λ r. map_err read_error r >>= λ ts.
          finished (recover (loaded config disk (sort_by by_newest ts)) draws))
        loads
      ∙ ap (λ ts. finished (recover (loaded config disk ts) draws)) sorted

  -- Recovery of an engine whose log has these records, and whose tables hold these layers.
  recover-IsWisp :
      (w : Wisp) (rs : List WalRecord) (layers : Layers) (draws : ℕ → List Bool)
      → LogHas w.wal rs
      → All IsLogged rs
      → 0 < w.wal.segment_id
      → IsMemTable w.mutable []
      → w.mutable.mutable ≡ true
      → w.immutable ≡ none
      → TablesHold snappy filters w.tables layers
      → All IsLayer layers
      → BelowGen (w.next_gen + 1) w.tables
      → (after : Wisp) × (finished (recover w draws) ≡ ok after)
        × IsWisp snappy filters after
            (record { mutable = upserts rs []; immutable = []; layers = layers })
  unfolding recover of_replay finished upserts
  recover-IsWisp w rs layers draws log logged positive empty open_table e tables valid gens =
      let m = replayed_lem rs draws w [] empty open_table in
      (
        record w { mutable = m.0 },
        rw (replay-LogHas w.wal rs log, m.1),
        record {
          holds = record {
            mutable = m.2;
            open_table = m.3;
            immutable = subst (λ o. ImmutableHolds o []) (sym e) refl;
            mutable_rows = All-upserts rs [] logged tt;
            immutable_rows = tt;
            tables = tables;
            layers = valid;
            gens = gens;
          };
          log = record {
            olds = [];
            news = log.sealed;
            active = log.active;
            holds = log.holds;
            is_open = log.is_open;
            positive = positive;
            split =
                subst (λ o. Split o w.immutable_wal_segment w.wal.segment_id [] log.sealed) (sym e)
                  refl;
            immutable = refl;
            mutable = ap (λ l. upserts l []) (sym log.records);
          };
        },
      )

  -- Opening an engine on the disk of a well-formed one, whatever the configuration, succeeds, and
  -- the engine is well formed: every key has what it had, though what was in memory is gone.
  pub create-Recovered :
      (config : WispConfig) (w : Wisp) (c : Contents) (draws : ℕ → List Bool)
      → IsWisp snappy filters w c
      → Recovered c (create_wisp_with_config config (disk_of w) draws)
  unfolding disk_of view find over create_mem_table_with_threshold
  create-Recovered config w c draws v =
      let held = held_records (v.log.olds ++ v.log.news) v.log.active in
      let base = loaded config (disk_of w) w.tables in
      let log =
        create-LogHas w.wal (v.log.olds ++ v.log.news) v.log.active
          (if config.wal_max_segment_size == 0
            then default_max_segment_size
            else config.wal_max_segment_size)
          v.log.holds in
      let r =
        recover-IsWisp base held c.layers draws log.0
          (logged_records (v.log.olds ++ v.log.news) v.log.holds.logged)
          (subst (λ i. 0 < i) (sym log.1) v.log.positive) (create-IsMemTable base.threshold) refl
          refl v.holds.tables v.holds.layers
          (max_gen-BelowGen (w.next_gen + 1) w.tables v.holds.gens) in
      record {
        after = r.0;
        contents = record { mutable = upserts held []; immutable = []; layers = c.layers };
        returns =
            create-loaded config (disk_of w) w.tables draws
              (load_tables_lem w.tables c.layers v.holds.tables)
              (sorted_tables (w.next_gen + 1) w.tables v.holds.gens)
            ∙ r.1;
        valid = r.2;
        same_view = replayed_view w c v.log;
      }
    where
      logged_records :
          (cs : Chunks)
          → AllLogged (cs ++ (w.wal.segment_id, v.log.active) ∷ [])
          → All IsLogged (held_records cs v.log.active)
      logged_records [] h = h.0
      logged_records (x ∷ cs) h =
          subst (All IsLogged) (sym (append_assoc x.1 (records_of cs) v.log.active))
            (All-append IsLogged x.1 (records_of cs ++ v.log.active) h.0 (logged_records cs h.1))

  -- Opening an engine on an empty disk succeeds; it is well formed, and has nothing under any key.
  pub create_empty-Recovered :
      (config : WispConfig) (draws : ℕ → List Bool)
      → Recovered
          (record { mutable = []; immutable = []; layers = [] })
          (create_wisp_with_config config
            (record { wal = record { segments = []; legacy = none }; tables = [] })
            draws)
  unfolding create_mem_table_with_threshold load_tables sort_by upserts
  create_empty-Recovered config draws =
      let disk : Disk = record { wal = record { segments = []; legacy = none }; tables = [] } in
      let base = loaded config disk [] in
      let size =
        if config.wal_max_segment_size == 0
        then default_max_segment_size
        else config.wal_max_segment_size in
      let r =
        recover-IsWisp base [] [] draws (create_empty-LogHas size) tt
          (subst (λ i. 0 < i) (sym (create_empty_segment size)) (omega arith))
          (create-IsMemTable base.threshold) refl refl tt tt tt in
      record {
        after = r.0;
        contents = record { mutable = []; immutable = []; layers = [] };
        returns = create-loaded config disk [] draws refl refl ∙ r.1;
        valid = r.2;
        same_view = λ k. refl;
      }
