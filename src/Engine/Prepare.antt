-- ===== src/Engine/Prepare.antt =====
-- Freezing the mutable memtable, and the loop that makes room in it.
use mathlib.Core.Path.{subst}
use mathlib.Core.List.{append-nil}
use wisp_db.Base.{
  ℕ, suc, ◌+◌, ◌^◌, ◌≤◌, ◌<◌, ◌≡◌, refl, sym, ap, ◌∙◌, true, false, inl, inr, Option, none, some,
  [], ◌∷◌, ◌++◌, arith, Bool-cases, All, All-append,
}
use wisp_db.Base.Result.{ok}
use wisp_db.Key.{Key}
use wisp_db.Rows.{find}
use wisp_db.MemTable.{MemTable, is_full, create_mem_table_with_threshold}
use wisp_db.MemTable.Laws.{create-IsMemTable, freeze-IsMemTable}
use wisp_db.SsTable.Libraries.{Snappy, Filters}
use wisp_db.Wal.Log.{rotate}
use wisp_db.Wal.Log.Files.{Chunk, Chunks, records_of, records_of-append}
use wisp_db.Wal.Log.Laws.{LogHolds, rotate-LogHolds}
use wisp_db.Engine.{
  Wisp, Outcome, and_then, freeze_mutable, flush_or_freeze, prepare_loop, prepare_mutable,
}
use wisp_db.Engine.View.{Contents, ImmutableHolds, view, over, find_layers, upserts}
use wisp_db.Engine.State.{
  LogSplit, Split, IsWisp, Fits, ImmutableFits, Room, Grown, Grown-same, Grown-trans,
}
use wisp_db.Engine.Flush.{flush_immutable-Flushed}

abbrev pub frozen_contents : Contents → Contents
frozen_contents c = record { mutable = []; immutable = c.mutable; layers = c.layers }

pub frozen_view :
    (c : Contents) (k : Key) → c.immutable ≡ [] → view (frozen_contents c) k ≡ view c k
unfolding view over find
frozen_view c k e =
    ap (λ r. over (find k c.mutable) (over (find k r) (find_layers k c.layers))) (sym e)

freeze-LogSplit :
    (w : Wisp) (c : Contents)
    → w.immutable ≡ none
    → w.wal.segment_id + 1 < 2 ^ 64
    → LogSplit w c
    → LogSplit (freeze_mutable w) (frozen_contents c)
unfolding freeze_mutable upserts
freeze-LogSplit w c e room v =
    let none_old : v.olds ≡ [] =
      subst (λ o. Split o w.immutable_wal_segment w.wal.segment_id v.olds v.news) e v.split in
    let last : Chunk = (w.wal.segment_id, v.active) in
    let olds = (v.olds ++ v.news) ++ last ∷ [] in
    let (holds, id, is_open, sealed_id) =
      rotate-LogHolds w.wal (v.olds ++ v.news) v.active v.holds room in
    let records : records_of olds ≡ records_of v.news ++ v.active =
      records_of-append (v.olds ++ v.news) (last ∷ [])
      ∙ ap (λ l. records_of (v.olds ++ v.news) ++ l) (append-nil v.active)
      ∙ ap (λ os. records_of (os ++ v.news) ++ v.active) none_old in
    record {
      olds = olds;
      news = [];
      active = [];
      holds = subst (λ cs. LogHolds (rotate w.wal).1 cs []) (sym (append-nil olds)) holds;
      is_open = is_open;
      positive = omega (arith, id);
      split = (
        omega (arith, sealed_id, v.positive),
        All-append _ (v.olds ++ v.news) (last ∷ [])
            (at_most sealed_id (v.olds ++ v.news) v.holds.below) (omega (arith, sealed_id), tt),
        tt,
        omega (arith, sealed_id, id),
      );
      immutable = v.mutable ∙ ap (λ rs. upserts rs []) (sym records);
      mutable = refl;
    }
  where
    at_most :
        (rotate w.wal).0 ≡ w.wal.segment_id
        → (cs : Chunks) → All (λ d. d.0 < w.wal.segment_id) cs
        → All (λ d. d.0 ≤ (rotate w.wal).0) cs
    at_most e [] h = tt
    at_most e (d ∷ cs) h = (omega (arith, e, h.0), at_most e cs h.1)

module _ (snappy : Snappy) (filters : Filters) where
  pub freeze-IsWisp :
      (w : Wisp) (c : Contents)
      → w.immutable ≡ none
      → w.wal.segment_id + 1 < 2 ^ 64
      → IsWisp snappy filters w c
      → IsWisp snappy filters (freeze_mutable w) (frozen_contents c)
  unfolding freeze_mutable create_mem_table_with_threshold
  freeze-IsWisp w c e room v = record {
    holds = record {
      mutable = create-IsMemTable w.threshold;
      open_table = refl;
      immutable = freeze-IsMemTable w.mutable c.mutable v.holds.mutable;
      mutable_rows = tt;
      immutable_rows = v.holds.mutable_rows;
      tables = v.holds.tables;
      layers = v.holds.layers;
      gens = v.holds.gens;
    };
    log = freeze-LogSplit w c e room v.log;
  }

  fresh_not_full : (threshold : ℕ) → is_full (create_mem_table_with_threshold threshold) ≡ false
  unfolding create_mem_table_with_threshold is_full
  fresh_not_full threshold = ground arith

  -- What the preparation of a write gives: room in the mutable memtable.
  pub record Prepared (w : Wisp) (c : Contents) (result : Outcome) : Type 0 where
    pub after : Wisp
    pub contents : Contents
    pub returns : result ≡ (ok tt, after)
    pub valid : IsWisp snappy filters after contents
    pub same_view : (k : Key) → view contents k ≡ view c k
    pub has_room : is_full after.mutable ≡ false
    pub fits : ImmutableFits snappy filters after.block_size after.immutable contents.immutable
    pub next_gen : after.next_gen ≤ w.next_gen + 1
    pub segment : after.wal.segment_id ≤ w.wal.segment_id + 1
    pub grown : Grown snappy filters w c after contents

  prepare_ready :
      (fuel : ℕ) (w : Wisp)
      → is_full w.mutable ≡ false
      → prepare_loop snappy filters (suc fuel) w ≡ (ok tt, w)
  unfolding prepare_loop
  prepare_ready fuel w e = rw e

  prepare_full :
      (fuel : ℕ) (w : Wisp)
      → is_full w.mutable ≡ true
      → prepare_loop snappy filters (suc fuel) w
        ≡ and_then
            (flush_or_freeze snappy filters w.immutable w)
            (λ w'. prepare_loop snappy filters fuel w')
  unfolding prepare_loop
  prepare_full fuel w e = rw e

  prepare_by_freeze :
      (fuel : ℕ) (w : Wisp)
      → is_full w.mutable ≡ true
      → w.immutable ≡ none
      → prepare_loop snappy filters (suc (suc fuel)) w ≡ (ok tt, freeze_mutable w)
  unfolding and_then flush_or_freeze freeze_mutable
  prepare_by_freeze fuel w full e =
      prepare_full (suc fuel) w full
      ∙ ap
          (λ o.
            and_then (flush_or_freeze snappy filters o w)
              (λ w'. prepare_loop snappy filters (suc fuel) w'))
          e
      ∙ prepare_ready fuel (freeze_mutable w) (fresh_not_full w.threshold)

  by_freeze :
      (fuel : ℕ) (w : Wisp) (c : Contents)
      → is_full w.mutable ≡ true
      → w.immutable ≡ none
      → IsWisp snappy filters w c
      → w.wal.segment_id + 1 < 2 ^ 64
      → Fits snappy filters w.block_size c.mutable
      → Prepared w c (prepare_loop snappy filters (suc (suc fuel)) w)
  unfolding freeze_mutable
  by_freeze fuel w c full e v room fits =
      let nothing : c.immutable ≡ [] =
        subst (λ o. ImmutableHolds o c.immutable) e v.holds.immutable in
      let (holds, id, is_open, sealed_id) =
        rotate-LogHolds w.wal (v.log.olds ++ v.log.news) v.log.active v.log.holds room in
      record {
        after = freeze_mutable w;
        contents = frozen_contents c;
        returns = prepare_by_freeze fuel w full e;
        valid = freeze-IsWisp w c e room v;
        same_view = λ k. frozen_view c k nothing;
        has_room = fresh_not_full w.threshold;
        fits = fits;
        next_gen = omega arith;
        segment = omega (arith, id);
        grown = Grown-same snappy filters w c (freeze_mutable w) (frozen_contents c) refl refl refl;
      }

  by_flush :
      (w : Wisp) (c : Contents) (m : MemTable)
      → is_full w.mutable ≡ true
      → w.immutable ≡ some m
      → IsWisp snappy filters w c
      → Room w
      → ImmutableFits snappy filters w.block_size w.immutable c.immutable
      → Fits snappy filters w.block_size c.mutable
      → Prepared w c (prepare_loop snappy filters 3 w)
  unfolding flush_or_freeze and_then by_freeze
  by_flush w c m full e v room fits_old fits_new =
      let f = flush_immutable-Flushed snappy filters w c v (omega (arith, room.0)) fits_old in
      let next =
        by_freeze 0 f.after f.contents (ap is_full f.mutable ∙ full) f.immutable f.valid
          (omega (arith, room.1, f.segment))
          (subst (λ n. Fits snappy filters n f.contents.mutable) (sym f.settings.1)
            (subst (Fits snappy filters w.block_size) (sym f.mutable_rows) fits_new)) in
      record {
        after = next.after;
        contents = next.contents;
        returns =
            prepare_full 2 w full
            ∙ ap
                (λ o.
                  and_then (flush_or_freeze snappy filters o w)
                    (λ w'. prepare_loop snappy filters 2 w'))
                e
            ∙ ap (λ r. and_then r (λ w'. prepare_loop snappy filters 2 w')) f.returns
            ∙ next.returns;
        valid = next.valid;
        same_view = λ k. next.same_view k ∙ f.same_view k;
        has_room = next.has_room;
        fits = next.fits;
        next_gen = omega (arith, next.next_gen, f.next_gen);
        segment = omega (arith, next.segment, f.segment);
        grown =
            Grown-trans snappy filters w c f.after f.contents next.after next.contents f.grown
              next.grown;
      }

  -- The loop that makes room ends within three rounds: on a well-formed engine, whose block size is
  -- below 2 GiB and whose two memtables make tables shorter than 4 GiB, and while generations and
  -- segments last, it succeeds, the mutable memtable then is not full, the engine is well formed
  -- again, and every key has what it had.
  pub prepare_mutable-Prepared :
      (w : Wisp) (c : Contents)
      → IsWisp snappy filters w c
      → Room w
      → ImmutableFits snappy filters w.block_size w.immutable c.immutable
      → Fits snappy filters w.block_size c.mutable
      → Prepared w c (prepare_mutable snappy filters w)
  unfolding prepare_mutable
  prepare_mutable-Prepared w c v room fits_old fits_new = elim (Bool-cases (is_full w.mutable)) [
    | inr e ↦ record {
      after = w;
      contents = c;
      returns = prepare_ready 2 w e;
      valid = v;
      same_view = λ k. refl;
      has_room = e;
      fits = fits_old;
      next_gen = omega arith;
      segment = omega arith;
      grown = Grown-same snappy filters w c w c refl refl refl;
    }
    | inl e ↦ by_immutable w.immutable refl e
  ]
    where
      by_immutable :
          (o : Option MemTable)
          → w.immutable ≡ o
          → is_full w.mutable ≡ true
          → Prepared w c (prepare_loop snappy filters 3 w)
      by_immutable none q e = by_freeze 1 w c e q v (omega (arith, room.1)) fits_new
      by_immutable (some m) q e = by_flush w c m e q v room fits_old fits_new
