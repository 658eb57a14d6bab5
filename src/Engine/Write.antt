-- ===== src/Engine/Write.antt =====
-- Insert and Delete of wisp.go: the log, the mutable memtable, and what is read then.
use wisp_db.Base.{
  ℕ, ◌+◌, ◌^◌, ◌<◌, ◌≡◌, refl, ap, ◌∙◌, Bool, true, false, some, List, [], ◌++◌, arith,
  if◌then◌else◌,
}
use wisp_db.Base.Result.{ok}
use wisp_db.Key.{Key, key_eq}
use wisp_db.Rows.{Row, find, upsert, find-upsert}
use wisp_db.SsTable.Libraries.{Snappy, Filters}
use wisp_db.Wal.Payload.{WalRecord}
use wisp_db.Wal.Segment.RoundTrip.{IsLogged}
use wisp_db.Wal.Log.{append_record}
use wisp_db.Wal.Log.Append.{append_record-Appended}
use wisp_db.Engine.{
  Wisp, EngineError, put_refused, delete_refused, Outcome, and_then, applied, stored, logged,
  log_and_apply, insert, delete, prepare_mutable,
}
use wisp_db.Engine.View.{Contents, IsRow, view, over, find_layers, row_of_record}
use wisp_db.Engine.State.{IsWisp, Fits, ImmutableFits, Room, Grown, Grown-same, Grown-trans}
use wisp_db.Engine.Flush.{flush_immutable-Flushed}
use wisp_db.Engine.Prepare.{prepare_mutable-Prepared}
use wisp_db.Engine.Applied.{All-upsert, apply_record-Applied, row_of_record-IsRow, log_appended}

upsert-view :
    (c : Contents) (n : Row) (k : Key)
    → view (record c { mutable = upsert n c.mutable }) k
      ≡ (if key_eq n.key k then some (n.value, n.deleted) else view c k)
unfolding view over
upsert-view c n k =
    ap (λ o. over o (over (find k c.immutable) (find_layers k c.layers)))
      (find-upsert k n c.mutable)
    ∙ go (key_eq n.key k)
  where
    go :
        (b : Bool)
        → over
            (if b then some (n.value, n.deleted) else find k c.mutable)
            (over (find k c.immutable) (find_layers k c.layers))
          ≡ (if b then some (n.value, n.deleted) else view c k)
    go true = refl
    go false = refl

module _ (snappy : Snappy) (filters : Filters) where
  -- A write that was taken, and what is read after it.
  pub record Stored (w : Wisp) (c : Contents) (n : Row) (result : Outcome) : Type 0 where
    pub after : Wisp
    pub contents : Contents
    pub returns : result ≡ (ok tt, after)
    pub valid : IsWisp snappy filters after contents
    pub reads :
        (k : Key)
        → view contents k ≡ (if key_eq n.key k then some (n.value, n.deleted) else view c k)
    pub grown : Grown snappy filters w c after contents

  log_and_apply-Stored :
      (refused : EngineError) (r : WalRecord) (draws : List Bool) (w : Wisp) (c : Contents)
      → IsWisp snappy filters w c
      → IsLogged r
      → w.wal.segment_id + 1 < 2 ^ 64
      → w.next_gen + 1 < 2 ^ 64
      → ImmutableFits snappy filters w.block_size w.immutable c.immutable
      → Stored w c (row_of_record r) (log_and_apply snappy filters refused r draws w)
  unfolding log_and_apply logged stored applied
  log_and_apply-Stored refused r draws w c v h segments gens fits =
      let a =
        append_record-Appended w.wal (v.log.olds ++ v.log.news) v.log.active r v.log.holds
          v.log.is_open h segments in
      let m = apply_record-Applied w.mutable c.mutable r draws v.holds.mutable v.holds.open_table in
      let w' : Wisp = record w { wal = (append_record r w.wal).1; mutable = m.table } in
      let c' : Contents = record c { mutable = upsert (row_of_record r) c.mutable } in
      let v' : IsWisp snappy filters w' c' = record {
        holds = record {
          mutable = m.stands;
          open_table = m.mutable;
          immutable = v.holds.immutable;
          mutable_rows =
              All-upsert IsRow (row_of_record r) c.mutable (row_of_record-IsRow r h)
                v.holds.mutable_rows;
          immutable_rows = v.holds.immutable_rows;
          tables = v.holds.tables;
          layers = v.holds.layers;
          gens = v.holds.gens;
        };
        log = log_appended w c r m.table v.log h segments;
      } in
      let f = flush_immutable-Flushed snappy filters w' c' v' gens fits in
      record {
        after = f.after;
        contents = f.contents;
        returns = rw (a.0, m.returns) f.returns;
        valid = f.valid;
        reads = λ k. f.same_view k ∙ upsert-view c (row_of_record r) k;
        grown =
            Grown-trans snappy filters w c w' c' f.after f.contents
              (Grown-same snappy filters w c w' c' refl refl refl) f.grown;
      }

  prepared-Stored :
      (w : Wisp) (c : Contents) (refused : EngineError) (r : WalRecord) (draws : List Bool)
      → IsWisp snappy filters w c
      → Room w
      → ImmutableFits snappy filters w.block_size w.immutable c.immutable
      → Fits snappy filters w.block_size c.mutable
      → IsLogged r
      → Stored w c (row_of_record r) (
          and_then
            (prepare_mutable snappy filters w)
            (λ w'. log_and_apply snappy filters refused r draws w'))
  unfolding and_then
  prepared-Stored w c refused r draws v room fits_old fits_new h =
      let p = prepare_mutable-Prepared snappy filters w c v room fits_old fits_new in
      let s =
        log_and_apply-Stored refused r draws p.after p.contents p.valid h
          (omega (arith, p.segment, room.1)) (omega (arith, p.next_gen, room.0)) p.fits in
      let n = row_of_record r in
      record {
        after = s.after;
        contents = s.contents;
        returns =
            ap (λ o. and_then o (λ w'. log_and_apply snappy filters refused r draws w')) p.returns
            ∙ s.returns;
        valid = s.valid;
        reads = λ k.
            s.reads k
            ∙ ap (λ o. if key_eq n.key k then some (n.value, n.deleted) else o) (p.same_view k);
        grown =
            Grown-trans snappy filters w c p.after p.contents s.after s.contents p.grown s.grown;
      }

  -- On a well-formed engine, whose block size is below 2 GiB and whose two memtables make tables
  -- shorter than 4 GiB, and while generations and segments last, Insert of a value within the log's
  -- limit succeeds, whatever it has to freeze and to flush, and leaves the engine well formed: the
  -- key then has the value, and every other key what it had.
  pub insert-Stored :
      (w : Wisp) (c : Contents) (k : Key) (value : List ℕ) (draws : List Bool)
      → IsWisp snappy filters w c
      → Room w
      → ImmutableFits snappy filters w.block_size w.immutable c.immutable
      → Fits snappy filters w.block_size c.mutable
      → IsLogged (record {
        timestamp = k.timestamp;
        series_id = k.series_id;
        deleted = false;
        value = value;
      })
      → Stored w c
          (record { key = k; value = value; deleted = false })
          (insert snappy filters w k.series_id k.timestamp value draws)
  unfolding insert
  insert-Stored w c k value draws v room fits_old fits_new h =
      prepared-Stored w c put_refused
        (record {
          timestamp = k.timestamp;
          series_id = k.series_id;
          deleted = false;
          value = value;
        })
        draws v room fits_old fits_new h

  pub delete-Stored :
      (w : Wisp) (c : Contents) (k : Key) (draws : List Bool)
      → IsWisp snappy filters w c
      → Room w
      → ImmutableFits snappy filters w.block_size w.immutable c.immutable
      → Fits snappy filters w.block_size c.mutable
      → IsLogged
          (record { timestamp = k.timestamp; series_id = k.series_id; deleted = true; value = [] })
      → Stored w c
          (record { key = k; value = []; deleted = true })
          (delete snappy filters w k.series_id k.timestamp draws)
  unfolding delete
  delete-Stored w c k draws v room fits_old fits_new h =
      prepared-Stored w c delete_refused
        (record { timestamp = k.timestamp; series_id = k.series_id; deleted = true; value = [] })
        draws v room fits_old fits_new h
