-- ===== src/Engine/Settle.antt =====
-- Flush: the immutable memtable, or else the mutable one unless it is full, becomes a table.
use mathlib.Core.Path.{subst}
use wisp_db.Base.{
  ◌≡◌, refl, sym, ◌∙◌, ◌&&◌, not, inl, inr, Option, none, some, arith, ltb, if◌then◌else◌,
  Bool-cases,
}
use wisp_db.Base.Result.{ok}
use wisp_db.Key.{Key}
use wisp_db.MemTable.{MemTable, is_full}
use wisp_db.SsTable.Libraries.{Snappy, Filters}
use wisp_db.Engine.{Wisp, Outcome, freeze_mutable, flush_immutable, flush, flush_from}
use wisp_db.Engine.View.{Contents, ImmutableHolds, view}
use wisp_db.Engine.State.{IsWisp, Fits, ImmutableFits, Room, Grown, Grown-same, Grown-trans}
use wisp_db.Engine.Flush.{flush_immutable-Flushed}
use wisp_db.Engine.Prepare.{frozen_contents, frozen_view, freeze-IsWisp}

module _ (snappy : Snappy) (filters : Filters) where
  -- An operation that succeeded and changed nothing that is read.
  pub record Kept (w : Wisp) (c : Contents) (result : Outcome) : Type 0 where
    pub after : Wisp
    pub contents : Contents
    pub returns : result ≡ (ok tt, after)
    pub valid : IsWisp snappy filters after contents
    pub same_view : (k : Key) → view contents k ≡ view c k
    pub grown : Grown snappy filters w c after contents

  -- On a well-formed engine, whose block size is below 2 GiB and whose two memtables make tables
  -- shorter than 4 GiB, and while generations and segments last, Flush succeeds, leaves the engine
  -- well formed, and every key has what it had.
  pub flush-Kept :
      (w : Wisp) (c : Contents)
      → IsWisp snappy filters w c
      → Room w
      → ImmutableFits snappy filters w.block_size w.immutable c.immutable
      → Fits snappy filters w.block_size c.mutable
      → Kept w c (flush snappy filters w)
  unfolding flush freeze_mutable
  flush-Kept w c v room fits_old fits_new = go w.immutable refl
    where
      frozen : w.immutable ≡ none → Kept w c (flush_immutable snappy filters (freeze_mutable w))
      frozen e =
          let nothing = subst (λ o. ImmutableHolds o c.immutable) e v.holds.immutable in
          let f =
            flush_immutable-Flushed snappy filters (freeze_mutable w) (frozen_contents c)
              (freeze-IsWisp snappy filters w c e (omega (arith, room.1)) v) (omega (arith, room.0))
              fits_new in
          record {
            after = f.after;
            contents = f.contents;
            returns = f.returns;
            valid = f.valid;
            same_view = λ k. f.same_view k ∙ frozen_view c k nothing;
            grown =
                Grown-trans snappy filters w c (freeze_mutable w) (frozen_contents c) f.after
                  f.contents
                  (Grown-same snappy filters w c (freeze_mutable w) (frozen_contents c) refl refl
                    refl)
                  f.grown;
          }

      go : (o : Option MemTable) → w.immutable ≡ o → Kept w c (flush_from snappy filters o w)
      go (some m) e =
          let f = flush_immutable-Flushed snappy filters w c v (omega (arith, room.0)) fits_old in
          record {
            after = f.after;
            contents = f.contents;
            returns = f.returns;
            valid = f.valid;
            same_view = f.same_view;
            grown = f.grown;
          }
      go none e = elim (Bool-cases (ltb 0 w.mutable.size && not (is_full w.mutable))) [
        | inl t ↦
            subst
              (λ b.
                Kept w c
                  (if b then flush_immutable snappy filters (freeze_mutable w) else (ok tt, w)))
              (sym t) (frozen e)
        | inr t ↦
            subst
              (λ b.
                Kept w c
                  (if b then flush_immutable snappy filters (freeze_mutable w) else (ok tt, w)))
              (sym t)
              (record {
                after = w;
                contents = c;
                returns = refl;
                valid = v;
                same_view = λ k. refl;
                grown = Grown-same snappy filters w c w c refl refl refl;
              })
      ]
