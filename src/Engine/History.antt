-- ===== src/Engine/History.antt =====
-- The engine of wisp.go as a map from keys to values, over sequences of actions.
use mathlib.Core.Path.{subst}
use wisp_db.Base.{
  ℕ, ◌≡◌, refl, sym, ap, ◌∙◌, Bool, true, false, Option, none, some, List, [], ◌∷◌, if◌then◌else◌,
}
use wisp_db.Base.Result.{ok, ◌>>=◌}
use wisp_db.Key.{Key, key_eq}
use wisp_db.Rows.{Rows, find}
use wisp_db.MemTable.{MemTable, live_value}
use wisp_db.MemTable.Laws.{IsMemTable, entries-rows}
use wisp_db.SsTable.Libraries.{Snappy, Filters}
use wisp_db.SsTable.Reader.{Answer, answer}
use wisp_db.Engine.{Wisp, get}
use wisp_db.Engine.Pending.{
  Pending, begin_compaction, IsPending, IsPending-Grown, begin_compaction-IsPending,
  end_compaction-Compacted,
}
use wisp_db.Engine.Open.{WispConfig, finished, create_wisp_with_config}
use wisp_db.Engine.View.{Contents, Hit, ImmutableHolds, view, over, find_layers, get-view}
use wisp_db.Engine.State.{IsWisp, Fits, ImmutableFits}
use wisp_db.Engine.Write.{insert-Stored, delete-Stored}
use wisp_db.Engine.Settle.{flush-Kept}
use wisp_db.Engine.Compact.Laws.{compact_all-Compacted}
use wisp_db.Engine.Open.Recover.{create-Recovered, create_empty-Recovered}
use wisp_db.Engine.Actions.{
  Action, put, remove, flush_now, compact_now, compaction_begins, compaction_ends, reopen, Values,
  effect, effects, value_in, empty_disk, State, perform, run, MemTableFits, CanFlush, CanPerform,
  CanRun,
}

module _ (snappy : Snappy) (filters : Filters) where
  -- The engine stands for the map.
  pub record IsMap (s : State) (m : Values) : Type 0 where
    pub contents : Contents
    pub valid : IsWisp snappy filters s.0 contents
    pub pending : IsPending snappy filters s.1 s.0 contents
    pub values : (k : Key) → live_value (view contents k) ≡ m k

  Fits-rows :
      (block_size : ℕ) (m : MemTable) (rows : Rows)
      → IsMemTable m rows
      → MemTableFits snappy filters block_size (some m)
      → Fits snappy filters block_size rows
  Fits-rows block_size m rows v fits = (fits.0, λ file e. fits.1 _ file (entries-rows m rows v) e)

  ImmutableFits-Fits :
      (block_size : ℕ) (o : Option MemTable) (rows : Rows)
      → ImmutableHolds o rows
      → MemTableFits snappy filters block_size o
      → ImmutableFits snappy filters block_size o rows
  ImmutableFits-Fits block_size none rows h fits = tt
  ImmutableFits-Fits block_size (some m) rows h fits = Fits-rows block_size m rows h fits

  live_if :
      (b : Bool) (v : List ℕ × Bool) (o : Hit)
      → live_value (if b then some v else o) ≡ (if b then live_value (some v) else live_value o)
  live_if true v o = refl
  live_if false v o = refl

  CanFlush-ImmutableFits :
      (w : Wisp) (m : Values) (o : Option Pending) (v : IsMap (w, o) m)
      → CanFlush snappy filters w
      → ImmutableFits snappy filters w.block_size w.immutable v.contents.immutable
  CanFlush-ImmutableFits w m o v can =
      ImmutableFits-Fits w.block_size w.immutable v.contents.immutable v.valid.holds.immutable can.2

  CanFlush-Fits :
      (w : Wisp) (m : Values) (o : Option Pending) (v : IsMap (w, o) m)
      → CanFlush snappy filters w
      → Fits snappy filters w.block_size v.contents.mutable
  CanFlush-Fits w m o v can =
      Fits-rows w.block_size w.mutable v.contents.mutable v.valid.holds.mutable can.1

  -- Each action that nothing stops succeeds, and has its effect on the map.
  perform-IsMap :
      (s : State) (m : Values) (a : Action)
      → IsMap s m
      → CanPerform snappy filters s a
      → (s' : State) × (perform snappy filters s a ≡ ok s') × IsMap s' (effect a m)
  unfolding perform finished live_value
  perform-IsMap (w, o) m (put k value draws) v can =
      let r =
        insert-Stored snappy filters w v.contents k value draws v.valid can.0.0
          (CanFlush-ImmutableFits w m o v can.0) (CanFlush-Fits w m o v can.0) can.1 in
      (
        (r.after, o),
        rw (r.returns),
        record {
          contents = r.contents;
          valid = r.valid;
          pending =
              IsPending-Grown snappy filters o w v.contents r.after r.contents v.pending r.grown;
          values = λ l.
              ap live_value (r.reads l)
              ∙ live_if (key_eq k l) (value, false) (view v.contents l)
              ∙ ap (λ h. if key_eq k l then some value else h) (v.values l);
        },
      )
  perform-IsMap (w, o) m (remove k draws) v can =
      let r =
        delete-Stored snappy filters w v.contents k draws v.valid can.0.0
          (CanFlush-ImmutableFits w m o v can.0) (CanFlush-Fits w m o v can.0) can.1 in
      (
        (r.after, o),
        rw (r.returns),
        record {
          contents = r.contents;
          valid = r.valid;
          pending =
              IsPending-Grown snappy filters o w v.contents r.after r.contents v.pending r.grown;
          values = λ l.
              ap live_value (r.reads l)
              ∙ live_if (key_eq k l) ([], true) (view v.contents l)
              ∙ ap (λ h. if key_eq k l then none else h) (v.values l);
        },
      )
  perform-IsMap (w, o) m flush_now v can =
      let r =
        flush-Kept snappy filters w v.contents v.valid can.0 (CanFlush-ImmutableFits w m o v can)
          (CanFlush-Fits w m o v can) in
      (
        (r.after, o),
        rw (r.returns),
        record {
          contents = r.contents;
          valid = r.valid;
          pending =
              IsPending-Grown snappy filters o w v.contents r.after r.contents v.pending r.grown;
          values = λ l. ap live_value (r.same_view l) ∙ v.values l;
        },
      )
  perform-IsMap (w, o) m (compact_now is_major) v can =
      let r = compact_all-Compacted snappy filters is_major w v.contents v.valid can.1 can.2 in
      (
        (r.after, o),
        rw (r.returns),
        record {
          contents = r.contents;
          valid = r.valid;
          pending = subst (λ p. IsPending snappy filters p r.after r.contents) (sym can.0) tt;
          values = λ l. r.same_live l ∙ v.values l;
        },
      )
  perform-IsMap (w, o) m (compaction_begins is_major) v can =
      let r =
        begin_compaction-IsPending snappy filters is_major w v.contents w.tables refl v.valid
          can.1 in
      (
        begin_compaction is_major w.tables w,
        refl,
        record { contents = v.contents; valid = r.0; pending = r.1; values = v.values },
      )
  perform-IsMap (w, o) m compaction_ends v can =
      let r = end_compaction-Compacted snappy filters o w v.contents v.valid v.pending can in
      (
        (r.after, none),
        rw (r.returns),
        record {
          contents = r.contents;
          valid = r.valid;
          pending = tt;
          values = λ l. r.same_live l ∙ v.values l;
        },
      )
  perform-IsMap (w, o) m (reopen config draws) v can =
      let r = create-Recovered snappy filters config w v.contents draws v.valid in
      (
        (r.after, none),
        rw (r.returns),
        record {
          contents = r.contents;
          valid = r.valid;
          pending = tt;
          values = λ l. ap live_value (r.same_view l) ∙ v.values l;
        },
      )

  run-IsMap :
      (s : State) (m : Values) (actions : List Action)
      → IsMap s m
      → CanRun snappy filters s actions
      → (s' : State) × (run snappy filters s actions ≡ ok s') × IsMap s' (effects actions m)
  unfolding run
  run-IsMap s m [] v can = (s, refl, v)
  run-IsMap s m (a ∷ rest) v can =
      let p = perform-IsMap s m a v can.0 in
      let r = run-IsMap p.0 (effect a m) rest p.2 (can.1 p.0 p.1) in (r.0, rw (p.1) r.1, r.2)

  get-IsMap :
      (s : State) (m : Values) (k : Key)
      → IsMap s m
      → (a : Answer) × (get snappy filters s.0 k ≡ ok a) × (value_in a ≡ m k)
  unfolding answer live_value
  get-IsMap s m k v = (
    answer (view v.contents k),
    get-view snappy filters s.0 v.contents k v.valid.holds,
    go (view v.contents k) ∙ v.values k,
  )
    where
      go : (o : Hit) → value_in (answer o) ≡ live_value o
      go none = refl
      go (some (value, true)) = refl
      go (some (value, false)) = refl

  -- An engine that is opened on an empty disk, and then used by any sequence of Insert, Delete,
  -- Flush, compactions, one at a time but with other actions between its two steps, and crashes
  -- with a reopening, in which the block size is below 2 GiB when something is written or flushed,
  -- no table reaches 4 GiB, no record the log's limit, and neither generations nor segments run
  -- out: every one of the actions succeeds, and Get then finds under each key the value that was
  -- inserted last, unless it was deleted since.
  pub run-effects :
      (config : WispConfig) (draws : ℕ → List Bool) (actions : List Action) (k : Key)
      → ((w : Wisp)
          → create_wisp_with_config config empty_disk draws ≡ ok w
          → CanRun snappy filters (w, none) actions)
      → (s : State) × ((create_wisp_with_config config empty_disk draws >>= λ w.
            run snappy filters (w, none) actions)
          ≡ ok s)
        × ((a : Answer) × (get snappy filters s.0 k ≡ ok a)
            × (value_in a ≡ effects actions (λ l. none) k))
  unfolding live_value view over find find_layers
  run-effects config draws actions k can =
      let made = create_empty-Recovered snappy filters config draws in
      let start : IsMap (made.after, none) (λ l. none) = record {
        contents = made.contents;
        valid = made.valid;
        pending = tt;
        values = λ l. ap live_value (made.same_view l);
      } in
      let r =
        run-IsMap (made.after, none) (λ l. none) actions start (can made.after made.returns) in
      (
        r.0,
        ap (λ o. o >>= λ w. run snappy filters (w, none) actions) made.returns ∙ r.1,
        get-IsMap r.0 (effects actions (λ l. none)) k r.2,
      )
