-- ===== src/Engine/Open/Crash.antt =====
-- A crash within a flush, when its table is on the disk and the segments are not reclaimed yet.
use mathlib.Core.Path.{subst}
use wisp_db.Base.{
  ℕ, ◌+◌, ◌%◌, ◌^◌, ◌<◌, ◌≡◌, refl, sym, ap, ◌∙◌, Bool, none, some, List, ◌∷◌, arith,
}
use wisp_db.Base.Result.{ok, ok-injective}
use wisp_db.Key.{Key}
use wisp_db.Rows.{find}
use wisp_db.MemTable
use wisp_db.MemTable.{MemTable}
use wisp_db.MemTable.Laws.{IsMemTable}
use wisp_db.SsTable.Libraries.{Snappy, Filters}
use wisp_db.SsTable.Reader.{Reader}
use wisp_db.SsTable.Reader.Table.{IsTable}
use wisp_db.Engine.{Wisp, add_table, rows_table}
use wisp_db.Engine.View.{
  Contents, Hit, ImmutableHolds, view, over, find_layers, entries_from, find_entry-entries_from,
}
use wisp_db.Engine.State.{IsWisp, Fits}
use wisp_db.Engine.Flush.{add_table-IsWisp, rows_table-IsTable}
use wisp_db.Engine.Open.{WispConfig, create_wisp_with_config, disk_of}
use wisp_db.Engine.Open.Recover.{Recovered, create-Recovered}

-- A layer that stands twice is seen once.
over_twice : (a b : Hit) → over a (over a b) ≡ over a b
unfolding over
over_twice none b = refl
over_twice (some v) b = refl

twice_view :
    (c : Contents) (k : Key)
    → view (record c { layers = entries_from c.immutable ∷ c.layers }) k ≡ view c k
unfolding view find_layers
twice_view c k =
    ap (λ o. over (find k c.mutable) (over (find k c.immutable) (over o (find_layers k c.layers))))
      (find_entry-entries_from k c.immutable)
    ∙ ap (over (find k c.mutable)) (over_twice (find k c.immutable) (find_layers k c.layers))

module _ (snappy : Snappy) (filters : Filters) where
  -- A crash within a flush of a well-formed engine with a block size below 2 GiB, after its table,
  -- shorter than 4 GiB, has been added and before the segments are reclaimed: the engine that is
  -- opened on the disk is well formed, and every key has what it had.
  pub between-Recovered :
      (config : WispConfig) (w : Wisp) (c : Contents) (m : MemTable) (reader : Reader)
      (draws : ℕ → List Bool)
      → IsWisp snappy filters w c
      → w.immutable ≡ some m
      → w.next_gen + 1 < 2 ^ 64
      → Fits snappy filters w.block_size c.immutable
      → rows_table snappy filters w.block_size (MemTable.entries m) ≡ ok reader
      → Recovered snappy filters c (
          create_wisp_with_config config
            (disk_of (
              add_table
                ((w.next_gen + 1) % 2 ^ 64)
                reader
                (record w { next_gen = (w.next_gen + 1) % 2 ^ 64 })))
            draws)
  between-Recovered config w c m reader draws v e room fits made =
      let gen = (w.next_gen + 1) % 2 ^ 64 in
      let held : IsMemTable m c.immutable =
        subst (λ o. ImmutableHolds o c.immutable) e v.holds.immutable in
      let t =
        rows_table-IsTable snappy filters w.block_size m c.immutable held v.holds.immutable_rows
          fits in
      let table : IsTable snappy filters reader (entries_from c.immutable) =
        subst (λ r. IsTable snappy filters r (entries_from c.immutable))
          (ok-injective t.0 reader (sym t.1 ∙ made)) t.2 in
      let r =
        create-Recovered snappy filters config (add_table gen reader (record w { next_gen = gen }))
          _ draws
          (add_table-IsWisp snappy filters w c m gen reader e (omega (arith, room)) table v) in
      record {
        after = r.after;
        contents = r.contents;
        returns = r.returns;
        valid = r.valid;
        same_view = λ k. r.same_view k ∙ twice_view c k;
      }
