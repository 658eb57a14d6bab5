-- ===== src/Engine/Scan/Snapshot.antt =====
-- snapshotForScan of wisp.go.
use mathlib.Core.Path.{subst}
use wisp_db.Base.{
  ℕ, suc, ◌+◌, ◌^◌, ◌<◌, ◌≡◌, refl, sym, ap, ◌∙◌, true, false, ◌&&◌, inl, inr, Option, none, some,
  [], arith, ltb, if◌then◌else◌, Bool-cases,
}
use wisp_db.Base.Result.{ok}
use wisp_db.Key.{Key}
use wisp_db.MemTable.{MemTable}
use wisp_db.SsTable.Libraries.{Snappy, Filters}
use wisp_db.Engine.{Wisp, Outcome, and_then, freeze_mutable, flush_immutable}
use wisp_db.Engine.View.{Contents, ImmutableHolds, view}
use wisp_db.Engine.State.{IsWisp, ImmutableFits, Room}
use wisp_db.Engine.Flush.{flush_immutable-Flushed}
use wisp_db.Engine.Prepare.{frozen_contents, frozen_view, freeze-IsWisp}
use wisp_db.Engine.Scan.{flush_loop, is_some, snapshot_for_scan}

module _ (snappy : Snappy) (filters : Filters) where
  pub record Snapshot (c : Contents) (result : Outcome) : Type 0 where
    pub after : Wisp
    pub contents : Contents
    pub returns : result ≡ (ok tt, after)
    pub valid : IsWisp snappy filters after contents
    pub same_view : (k : Key) → view contents k ≡ view c k
    pub empty : contents.mutable ≡ []

  abbrev finish : Wisp → Outcome
  finish w = (ok tt, if ltb 0 w.mutable.size then freeze_mutable w else w)

  loop_ends :
      (fuel : ℕ) (w : Wisp)
      → (ltb 0 w.mutable.size && is_some w.immutable) ≡ false
      → flush_loop snappy filters (suc fuel) w ≡ (ok tt, w)
  unfolding flush_loop
  loop_ends fuel w e = rw e

  loop_flushes :
      (fuel : ℕ) (w : Wisp)
      → (ltb 0 w.mutable.size && is_some w.immutable) ≡ true
      → flush_loop snappy filters (suc fuel) w
        ≡ and_then (flush_immutable snappy filters w) (λ w'. flush_loop snappy filters fuel w')
  unfolding flush_loop
  loop_flushes fuel w e = rw e

  by_freeze :
      (w : Wisp) (c : Contents)
      → IsWisp snappy filters w c
      → w.immutable ≡ none
      → ltb 0 w.mutable.size ≡ true
      → w.wal.segment_id + 1 < 2 ^ 64
      → Snapshot c (finish w)
  by_freeze w c v e size room =
      let nothing = subst (λ o. ImmutableHolds o c.immutable) e v.holds.immutable in
      record {
        after = freeze_mutable w;
        contents = frozen_contents c;
        returns = ap (λ b. (ok tt, if b then freeze_mutable w else w)) size;
        valid = freeze-IsWisp snappy filters w c e room v;
        same_view = λ k. frozen_view c k nothing;
        empty = refl;
      }

  -- The loop ends within two rounds: on a well-formed engine, whose two memtables make tables shorter
  -- than 4 GiB, and while generations and segments last, the snapshot is taken.
  pub snapshot_for_scan-Snapshot :
      (w : Wisp) (c : Contents)
      → IsWisp snappy filters w c
      → Room w
      → ImmutableFits snappy filters w.block_size w.immutable c.immutable
      → (ltb 0 w.mutable.size ≡ false → c.mutable ≡ [])
      → Snapshot c (snapshot_for_scan snappy filters w)
  unfolding snapshot_for_scan and_then is_some
  snapshot_for_scan-Snapshot w c v room fits counted = elim (Bool-cases (ltb 0 w.mutable.size)) [
    | inr e ↦
        let ends = loop_ends 1 w (ap (λ b. b && is_some w.immutable) e) in
        record {
          after = w;
          contents = c;
          returns =
              ap (λ o. and_then o finish) ends
              ∙ ap (λ b. (ok tt, if b then freeze_mutable w else w)) e;
          valid = v;
          same_view = λ k. refl;
          empty = counted e;
        }
    | inl e ↦ by_immutable w.immutable refl e
  ]
    where
      by_immutable :
          (o : Option MemTable)
          → w.immutable ≡ o
          → ltb 0 w.mutable.size ≡ true
          → Snapshot c (and_then (flush_loop snappy filters 2 w) finish)
      by_immutable none q e =
          let ends = loop_ends 1 w ((λ i. e i && is_some (q i))) in
          subst (Snapshot c) (sym (ap (λ o. and_then o finish) ends))
            (by_freeze w c v q e (omega (arith, room.1)))
      by_immutable (some m) q e =
          let f = flush_immutable-Flushed snappy filters w c v (omega (arith, room.0)) fits in
          let size : ltb 0 f.after.mutable.size ≡ true = ap (λ t. ltb 0 t.size) f.mutable ∙ e in
          let ends = loop_ends 0 f.after (λ i. size i && is_some (f.immutable i)) in
          let s =
            by_freeze f.after f.contents f.valid f.immutable size
              (omega (arith, room.1, f.segment)) in
          let all : and_then (flush_loop snappy filters 2 w) finish ≡ finish f.after =
            ap (λ o. and_then o finish)
              (loop_flushes 1 w (λ i. e i && is_some (q i))
                ∙ ap (λ o. and_then o (λ w'. flush_loop snappy filters 1 w')) f.returns
                ∙ ends) in
          record {
            after = s.after;
            contents = s.contents;
            returns = all ∙ s.returns;
            valid = s.valid;
            same_view = λ k. s.same_view k ∙ f.same_view k;
            empty = s.empty;
          }
