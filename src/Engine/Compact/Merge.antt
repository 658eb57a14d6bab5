-- ===== src/Engine/Compact/Merge.antt =====
-- The output of a merge of tables, against the layers that they hold.
use mathlib.Core.Path.{subst}
use wisp_db.Base.{ℕ, ◌≡◌, refl, sym, ap, ◌∙◌, Bool, List, [], ◌∷◌, ◌++◌, map, All}
use wisp_db.Key.{Key}
use wisp_db.Rows.{find}
use wisp_db.MemTable.{live_value}
use wisp_db.Compactor.{compact_entries}
use wisp_db.Compactor.Compact.{
  newest_in, compact_entries-newest, compact_entries-IsAscendingEntries,
}
use wisp_db.Compactor.Members.{compact_entries-All}
use wisp_db.SsTable.Entry.{Entry, IsStored}
use wisp_db.SsTable.Sorted.{IsAscendingEntries}
use wisp_db.SsTable.Libraries.{Snappy, Filters}
use wisp_db.Engine.{Tables}
use wisp_db.Engine.View.{Contents, Layers, IsLayer, BelowGen, TablesHold, view, find_layers}
use wisp_db.Engine.Compact.{table_entries}
use wisp_db.Engine.Compact.Layers.{
  layers_after, layers_after-find, live_over, live_visible, layers-IsStored,
  layers-IsAscendingEntries, Descending, newest_in-find_layers, Descending-DistinctTables,
  find_layers-append,
}

module _ (snappy : Snappy) (filters : Filters) where
  abbrev pub tables_read : Tables → List (ℕ × List Entry)
  tables_read ts = map (λ t. (t.0, table_entries snappy filters t.1)) ts

  pub tables_read-Descending : (n : ℕ) (ts : Tables) → BelowGen n ts → Descending n (tables_read ts)
  tables_read-Descending n [] h = tt
  tables_read-Descending n (t ∷ ts) h = (h.0, tables_read-Descending t.0 ts h.1)

  -- The tables' entries are the layers.
  pub tables_read-layers :
      (ts : Tables) (ls : Layers)
      → TablesHold snappy filters ts ls
      → map (λ t. table_entries snappy filters t.1) ts ≡ ls
  unfolding table_entries
  tables_read-layers [] [] h = refl
  tables_read-layers [] (es ∷ ls) h = absurd h
  tables_read-layers (x ∷ ts) [] h = absurd h
  tables_read-layers (x ∷ ts) (es ∷ ls) h = λ i. h.0.yields i ∷ tables_read-layers ts ls h.1 i

  pub seconds_read :
      (ts : Tables)
      → map (λ t. t.1) (tables_read ts) ≡ map (λ t. table_entries snappy filters t.1) ts
  seconds_read [] = refl
  seconds_read (x ∷ ts) = ap (λ l. table_entries snappy filters x.1 ∷ l) (seconds_read ts)

  pub tables_read-All {ℓ} :
      (P : List Entry → Type ℓ) (ts : Tables) (ls : Layers)
      → TablesHold snappy filters ts ls
      → All P ls
      → All (λ t. P t.1) (tables_read ts)
  unfolding table_entries
  tables_read-All P [] [] t h = tt
  tables_read-All P [] (es ∷ ls) t h = absurd t
  tables_read-All P (x ∷ ts) [] t h = absurd t
  tables_read-All P (x ∷ ts) (es ∷ ls) t h =
      (subst P (sym t.0.yields) h.0, tables_read-All P ts ls t.1 h.1)

  unfoldable pub merged : Bool → Tables → List Entry
  merged is_major ts = compact_entries is_major (tables_read ts)

  -- The output of a merge of tables.
  pub merged-IsLayer :
      (is_major : Bool) (ts : Tables) (ls : Layers)
      → TablesHold snappy filters ts ls
      → All IsLayer ls
      → IsLayer (merged is_major ts)
  unfolding merged
  merged-IsLayer is_major ts ls hold valid = (
    compact_entries-All IsStored is_major (tables_read ts)
        (tables_read-All (All IsStored) ts ls hold (layers-IsStored ls valid)),
    compact_entries-IsAscendingEntries is_major (tables_read ts)
        (tables_read-All IsAscendingEntries ts ls hold (layers-IsAscendingEntries ls valid)),
  )

  pub merged-find_layers :
      (is_major : Bool) (gen : ℕ) (ts : Tables) (ls : Layers) (k : Key)
      → TablesHold snappy filters ts ls
      → All IsLayer ls
      → BelowGen gen ts
      → live_value (find_layers k (layers_after (merged is_major ts)))
        ≡ live_value (find_layers k ls)
  unfolding merged
  merged-find_layers is_major gen ts ls k hold valid below =
      let read = tables_read ts in
      let gens = tables_read-Descending gen ts below in
      let found =
        compact_entries-newest k is_major read
          (tables_read-All IsAscendingEntries ts ls hold (layers-IsAscendingEntries ls valid))
          (Descending-DistinctTables gen read gens) in
      ap live_value (layers_after-find k (compact_entries is_major read) ∙ found)
      ∙ live_visible is_major (newest_in k read)
      ∙ ap live_value (newest_in-find_layers k gen read gens).1
      ∙ ap (λ ls'. live_value (find_layers k ls')) (seconds_read ts ∙ tables_read-layers ts ls hold)

  -- The merge changes no live value behind newer layers.
  pub merged-view :
      (c : Contents) (newer older now : Layers) (k : Key)
      → c.layers ≡ newer ++ older
      → live_value (find_layers k now) ≡ live_value (find_layers k older)
      → live_value (view (record c { layers = newer ++ now }) k) ≡ live_value (view c k)
  unfolding view
  merged-view c newer older now k e same =
      let layers : live_value (find_layers k (newer ++ now))
          ≡ live_value (find_layers k (newer ++ older)) =
        ap live_value (find_layers-append k newer now)
        ∙ live_over (find_layers k newer) _ _ same
        ∙ ap live_value (sym (find_layers-append k newer older)) in
      live_over (find k c.mutable) _ _ (
        live_over (find k c.immutable) _ _
          (layers ∙ ap (λ ls. live_value (find_layers k ls)) (sym e)))
