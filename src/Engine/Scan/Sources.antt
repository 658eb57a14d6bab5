-- ===== src/Engine/Scan/Sources.antt =====
-- The rows that a scan of wisp.go yields.
use mathlib.Core.Path.{subst}
use mathlib.Core.Bool.{true≢false}
use wisp_db.Base.{
  ℕ, suc, ◌+◌, ◌-◌, ◌≤◌, ◌<◌, ◌≡◌, refl, sym, ap, ◌∙◌, Bool, true, false, not, ◌&&◌, ◌||◌, inl, inr,
  Option, none, some, List, [], ◌∷◌, map, arith, ltb, ◌==◌, if◌then◌else◌, Bool-cases, length, All,
}
use wisp_db.Base.Int.{ℤ, ltb_ℤ}
use wisp_db.Base.Result.{Result, ok}
use wisp_db.Key.{Key, key_eq}
use wisp_db.Key.Order.{key_eq→eq}
use wisp_db.Rows.{find}
use wisp_db.MemTable.{MemTable, live_value}
use wisp_db.MemTable.Laws.{entries-rows}
use wisp_db.Compactor
use wisp_db.Compactor.{HeapItem, merge_loop, compact_entries}
use wisp_db.Compactor.Newest
use wisp_db.Compactor.Newest.{IsItem}
use wisp_db.Compactor.Compact.{
  visible, newest_in, fill-IsItem, compact_entries-newest, compact_entries-IsAscendingEntries,
}
use wisp_db.SsTable.Entry.{Entry, entry_key, find_entry}
use wisp_db.SsTable.Sorted.{IsAscendingEntries, AllAbove}
use wisp_db.SsTable.Libraries.{Snappy, Filters}
use wisp_db.Engine.{Wisp, EngineError}
use wisp_db.Engine.View.{
  Contents, Hit, ImmutableHolds, Layers, view, over, find_layers, entries_from,
  find_entry-entries_from, entries_from-IsAscendingEntries,
}
use wisp_db.Engine.State.{IsWisp, ImmutableFits, Room}
use wisp_db.Engine.Flush.{rows-IsSorted}
use wisp_db.Engine.Compact.{table_entries}
use wisp_db.Engine.Compact.Layers.{
  Descending, newest_in-find_layers, Descending-DistinctTables, value_of, layers-IsAscendingEntries,
}
use wisp_db.Engine.Compact.Merge.{tables_read-layers}
use wisp_db.Engine.Scan.{
  ScanItem, ScanIterator, outside, total, push_next, fill, iterate, new_scan, sources_of,
  opened_scan, scan,
}
use wisp_db.Engine.Scan.Rounds.{as_items, Small, in_range, rounds, rounds-merge_loop}
use wisp_db.Engine.Scan.Yields.{pairs, iterate-rounds}
use wisp_db.Engine.Scan.Snapshot.{snapshot_for_scan-Snapshot}

-- The sources as the tables of a compaction.
numbered : ℕ → ℕ → Layers → List (ℕ × List Entry)
numbered n i [] = []
numbered n i (es ∷ ls) = (n - i, es) ∷ numbered n (suc i) ls

fill-as_items : (n i : ℕ) (ls : Layers) → Compactor.fill (numbered n i ls) ≡ as_items n (fill i ls)
unfolding numbered fill push_next Compactor.fill Compactor.push_next
fill-as_items n i [] = refl
fill-as_items n i ([] ∷ ls) = fill-as_items n (suc i) ls
fill-as_items n i ((e ∷ es) ∷ ls) =
    ap (λ l. record { entry = e; gen = n - i; rest = es } ∷ l) (fill-as_items n (suc i) ls)

total-as_items : (n : ℕ) (xs : List ScanItem) → Compactor.total (as_items n xs) ≡ total xs
unfolding total Compactor.total
total-as_items n [] = refl
total-as_items n (x ∷ xs) = ap (λ t. suc (length x.rest) + t) (total-as_items n xs)

numbered-Descending :
    (n m i : ℕ) (ls : Layers) → n - i < m → i + length ls ≤ n → Descending m (numbered n i ls)
unfolding numbered
numbered-Descending n m i [] h f = tt
numbered-Descending n m i (es ∷ []) h f = (h, tt)
numbered-Descending n m i (es ∷ (l ∷ ls)) h f =
    (h, numbered-Descending n (n - i) (suc i) (l ∷ ls) (omega (arith, f)) (omega (arith, f)))

numbered-seconds : (n i : ℕ) (ls : Layers) → map (λ t. t.1) (numbered n i ls) ≡ ls
unfolding numbered
numbered-seconds n i [] = refl
numbered-seconds n i (es ∷ ls) = ap (λ l. es ∷ l) (numbered-seconds n (suc i) ls)

numbered-All {ℓ} :
    (P : List Entry → Type ℓ) (n i : ℕ) (ls : Layers)
    → All P ls
    → All (λ t. P t.1) (numbered n i ls)
unfolding numbered
numbered-All P n i [] h = tt
numbered-All P n i (es ∷ ls) h = (h.0, numbered-All P n (suc i) ls h.1)

fill-Small : (n i : ℕ) (ls : Layers) → i + length ls ≤ n → Small n (fill i ls)
unfolding fill push_next
fill-Small n i [] h = tt
fill-Small n i ([] ∷ ls) h = fill-Small n (suc i) ls (omega (arith, h))
fill-Small n i ((e ∷ es) ∷ ls) h = (omega (arith, h), fill-Small n (suc i) ls (omega (arith, h)))

module _ (out : Key → Bool) where
  in_range-inside : (es : List Entry) → All (λ e. out (entry_key e) ≡ false) (in_range out es)
  unfolding in_range
  in_range-inside [] = tt
  in_range-inside (e ∷ es) = elim (Bool-cases (out (entry_key e))) [
    | inl o ↦ rw o (in_range-inside es)
    | inr o ↦ rw o (o, in_range-inside es)
  ]

  in_range-above : (k : Key) (es : List Entry) → AllAbove k es → AllAbove k (in_range out es)
  unfolding in_range
  in_range-above k [] h = tt
  in_range-above k (e ∷ es) h = elim (Bool-cases (out (entry_key e))) [
    | inl o ↦ rw o (in_range-above k es h.1)
    | inr o ↦ rw o (h.0, in_range-above k es h.1)
  ]

  in_range-IsAscendingEntries :
      (es : List Entry) → IsAscendingEntries es → IsAscendingEntries (in_range out es)
  unfolding in_range IsAscendingEntries
  in_range-IsAscendingEntries [] h = tt
  in_range-IsAscendingEntries (e ∷ es) h = elim (Bool-cases (out (entry_key e))) [
    | inl o ↦ rw o (in_range-IsAscendingEntries es h.1)
    | inr o ↦ rw o (in_range-above (entry_key e) es h.0, in_range-IsAscendingEntries es h.1)
  ]

  find_entry-in_range :
      (k : Key) (es : List Entry) → out k ≡ false → find_entry k (in_range out es) ≡ find_entry k es
  unfolding in_range find_entry
  find_entry-in_range k [] h = refl
  find_entry-in_range k (e ∷ es) h = elim (Bool-cases (out (entry_key e))) [
    | inl o ↦ elim (Bool-cases (key_eq (entry_key e) k)) [
      | inl s ↦ absurd (true≢false (sym o ∙ ap out (key_eq→eq (entry_key e) k s) ∙ h))
      | inr s ↦ rw (o, s) (find_entry-in_range k es h)
    ]
    | inr o ↦ rw o (
        ap (λ t. if key_eq (entry_key e) k then some (e.value, e.deleted) else t)
          (find_entry-in_range k es h))
  ]

-- What is shown of a live value.
abbrev pub shown : Option (List ℕ) → Hit
shown none = none
shown (some value) = some (value, false)

shown-visible : (o : Newest.Hit) → visible true o ≡ shown (live_value (value_of o))
unfolding visible live_value value_of
shown-visible none = refl
shown-visible (some (g, (v, true))) = refl
shown-visible (some (g, (v, false))) = refl

-- The series and the two inclusive bounds of a scan.
unfoldable pub in_bounds : ℕ → ℤ → ℤ → Key → Bool
in_bounds series_id start_ts end_ts k =
    (k.series_id == series_id)
    && (not (ltb_ℤ k.timestamp start_ts) && not (ltb_ℤ end_ts k.timestamp))

-- A scan from its start: the client takes these rows.
pub record Yields (c : Contents) (series_id : ℕ) (start_ts end_ts : ℤ) (it : ScanIterator)
    : Type 0 where
  pub rows : List Entry
  pub taken : (fuel : ℕ) → total it.heap ≤ fuel → iterate fuel it ≡ pairs rows
  pub ascending : IsAscendingEntries rows
  pub inside : All (λ e. in_bounds series_id start_ts end_ts (entry_key e) ≡ true) rows
  pub complete :
      (k : Key)
      → in_bounds series_id start_ts end_ts k ≡ true
      → find_entry k rows ≡ shown (live_value (view c k))

bounds_cases :
    (a b c : Bool)
    → ((a && (not b && not c)) ≡ true → (not a || (b || c)) ≡ false)
      × ((not a || (b || c)) ≡ false → (a && (not b && not c)) ≡ true)
bounds_cases true true c = ((λ e. absurd (true≢false (sym e))), (λ e. absurd (true≢false e)))
bounds_cases true false true = ((λ e. absurd (true≢false (sym e))), (λ e. absurd (true≢false e)))
bounds_cases true false false = ((λ e. refl), (λ e. refl))
bounds_cases false b c = ((λ e. absurd (true≢false (sym e))), (λ e. absurd (true≢false e)))

module _ (ls : Layers) (series_id : ℕ) (start_ts end_ts : ℤ)
    (sorted : All IsAscendingEntries ls) where
  abbrev start : ScanIterator
  start = new_scan ls series_id start_ts end_ts

  abbrev tables_of : List (ℕ × List Entry)
  tables_of = numbered (length ls) 0 ls

  all_rows : List Entry
  all_rows = in_range (outside start) (compact_entries true tables_of)

  rounds-all_rows : rounds (total (fill 0 ls)) (outside start) none (fill 0 ls) ≡ all_rows
  unfolding all_rows compact_entries
  rounds-all_rows =
      let n = length ls in
      let same = fill-as_items n 0 ls in
      let items : All IsItem (as_items n (fill 0 ls)) =
        subst (All IsItem) same
          (fill-IsItem tables_of (numbered-All IsAscendingEntries n 0 ls sorted)) in
      rounds-merge_loop (total (fill 0 ls)) n (outside start) none none (fill 0 ls)
        (fill-Small n 0 ls (omega arith)) items tt (λ k i b. refl)
      ∙ ap (λ f. in_range (outside start) (merge_loop f true none (as_items n (fill 0 ls))))
          (sym (total-as_items n (fill 0 ls)))
      ∙ ap (λ xs. in_range (outside start) (merge_loop (Compactor.total xs) true none xs))
          (sym same)

  find_entry-all_rows :
      (k : Key)
      → outside start k ≡ false
      → find_entry k all_rows ≡ shown (live_value (find_layers k ls))
  unfolding all_rows
  find_entry-all_rows k inside =
      let n = length ls in
      let gens : Descending (suc n) tables_of =
        numbered-Descending n (suc n) 0 ls (omega arith) (omega arith) in
      find_entry-in_range (outside start) k (compact_entries true tables_of) inside
      ∙ compact_entries-newest k true tables_of (numbered-All IsAscendingEntries n 0 ls sorted)
          (Descending-DistinctTables (suc n) tables_of gens)
      ∙ shown-visible (newest_in k tables_of)
      ∙ ap (λ o. shown (live_value o)) (newest_in-find_layers k (suc n) tables_of gens).1
      ∙ ap (λ l. shown (live_value (find_layers k l))) (numbered-seconds n 0 ls)

  new_scan-Yields :
      (c : Contents)
      → ((k : Key) → find_layers k ls ≡ view c k)
      → Yields c series_id start_ts end_ts start
  unfolding new_scan outside in_bounds all_rows
  new_scan-Yields c same = record {
    rows = all_rows;
    taken = λ fuel enough. iterate-rounds fuel start enough ∙ ap pairs rounds-all_rows;
    ascending = in_range-IsAscendingEntries (outside start) (compact_entries true tables_of) (
        compact_entries-IsAscendingEntries true tables_of
          (numbered-All IsAscendingEntries (length ls) 0 ls sorted));
    inside = bounded all_rows (in_range-inside (outside start) (compact_entries true tables_of));
    complete = λ k within.
        find_entry-all_rows k ((bounds_cases _ _ _).0 within)
        ∙ ap (λ o. shown (live_value o)) (same k);
  }
    where
      bounded :
          (es : List Entry)
          → All (λ e. outside start (entry_key e) ≡ false) es
          → All (λ e. in_bounds series_id start_ts end_ts (entry_key e) ≡ true) es
      bounded [] h = tt
      bounded (e ∷ es) h = ((bounds_cases _ _ _).1 h.0, bounded es h.1)

module _ (snappy : Snappy) (filters : Filters) where
  sources_of-view :
      (w : Wisp) (c : Contents)
      → IsWisp snappy filters w c
      → c.mutable ≡ []
      → (ls : Layers) × (sources_of snappy filters w.immutable w.tables ≡ ok ls)
        × All IsAscendingEntries ls
        × ((k : Key) → find_layers k ls ≡ view c k)
  unfolding sources_of view over find find_layers find_entry
  sources_of-view w c v empty = go w.immutable v.holds.immutable
    where
      layers : map (λ t. table_entries snappy filters t.1) w.tables ≡ c.layers
      layers = tables_read-layers snappy filters w.tables c.layers v.holds.tables

      sorted : All IsAscendingEntries c.layers
      sorted = layers-IsAscendingEntries c.layers v.holds.layers

      in_front :
          (k : Key) (o : Hit) → o ≡ find k c.immutable → over o (find_layers k c.layers) ≡ view c k
      in_front k o e =
          ap (λ p. over p (find_layers k c.layers)) e
          ∙ ap (λ r. over (find k r) (over (find k c.immutable) (find_layers k c.layers)))
              (sym empty)

      go :
          (o : Option MemTable)
          → ImmutableHolds o c.immutable
          → (ls : Layers) × (sources_of snappy filters o w.tables ≡ ok ls)
            × All IsAscendingEntries ls
            × ((k : Key) → find_layers k ls ≡ view c k)
      go none h = (
        [] ∷ c.layers,
        ap (λ l. ok ([] ∷ l)) layers,
        (unfold IsAscendingEntries in tt, sorted),
        λ k. in_front k none (ap (find k) (sym h)),
      )
      go (some m) h = (
        entries_from c.immutable ∷ c.layers,
        rw (entries-rows m c.immutable h) (ap (λ l. ok (entries_from c.immutable ∷ l)) layers),
        (entries_from-IsAscendingEntries c.immutable (rows-IsSorted m c.immutable h), sorted),
        λ k.
            in_front k (find_entry k (entries_from c.immutable))
              (find_entry-entries_from k c.immutable),
      )

  -- What Scan gives.
  pub record Scanned (c : Contents) (series_id : ℕ) (start_ts end_ts : ℤ)
      (result : Result EngineError ScanIterator × Wisp) : Type 0 where
    pub after : Wisp
    pub contents : Contents
    pub iterator : ScanIterator
    pub returns : result ≡ (ok iterator, after)
    pub valid : IsWisp snappy filters after contents
    pub same_view : (k : Key) → view contents k ≡ view c k
    pub yields : Yields c series_id start_ts end_ts iterator

  -- On a well-formed engine, whose immutable memtable, if there is one, makes a table shorter than
  -- 4 GiB with a block size below 2 GiB, whose mutable one is empty if its size is 0, and while
  -- generations and segments last, Scan succeeds and changes nothing that is read. A client that
  -- calls Next until it gives nothing more takes rows of the series within the two bounds, in
  -- strictly ascending order of their keys: one for each key that has a value that is not deleted,
  -- with this value, and none for another key.
  pub scan-Scanned :
      (w : Wisp) (c : Contents) (series_id : ℕ) (start_ts end_ts : ℤ)
      → IsWisp snappy filters w c
      → Room w
      → ImmutableFits snappy filters w.block_size w.immutable c.immutable
      → (ltb 0 w.mutable.size ≡ false → c.mutable ≡ [])
      → Scanned c series_id start_ts end_ts (scan snappy filters w series_id start_ts end_ts)
  unfolding scan opened_scan
  scan-Scanned w c series_id start_ts end_ts v room fits counted =
      let s = snapshot_for_scan-Snapshot snappy filters w c v room fits counted in
      let sources = sources_of-view s.after s.contents s.valid s.empty in
      record {
        after = s.after;
        contents = s.contents;
        iterator = new_scan sources.0 series_id start_ts end_ts;
        returns = rw (s.returns, sources.1) refl;
        valid = s.valid;
        same_view = s.same_view;
        yields =
            new_scan-Yields sources.0 series_id start_ts end_ts sources.2 c
              (λ k. sources.3 k ∙ s.same_view k);
      }
