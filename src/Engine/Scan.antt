-- ===== src/Engine/Scan.antt =====
-- wisp.go: Scan and its iterator. A source is the memtable, of index 0, or a table; its iterator is the
-- entries that it has still to yield. The heap gives a least item; the items' generation, which nothing
-- reads, is left out.
pub mod Rounds
pub mod Yields
pub mod Snapshot
pub mod Sources
use wisp_db.Base.{
  ℕ, zero, suc, ◌+◌, Bool, true, false, not, ◌&&◌, ◌||◌, Option, none, some, List, [], ◌∷◌, map,
  ltb, ◌==◌, if◌then◌else◌, length,
}
use wisp_db.Base.Int.{ℤ, pos, ltb_ℤ, eqb_ℤ}
use wisp_db.Base.Result.{Result, ok, err, ◌>>=◌}
use wisp_db.Key.{Key, key_eq}
use wisp_db.MemTable
use wisp_db.MemTable.{MemTable}
use wisp_db.Compactor.{is_last}
use wisp_db.SsTable.Entry.{Entry, entry_key}
use wisp_db.SsTable.Libraries.{Snappy, Filters}
use wisp_db.Engine.{
  Wisp, Tables, EngineError, panicked, out_of_fuel, Outcome, and_then, freeze_mutable,
  flush_immutable, entry_of_row,
}
use wisp_db.Engine.Compact.{table_entries}

pub record ScanItem : Type 0 where
  pub entry : Entry
  pub source_idx : ℕ
  pub rest : List Entry

-- Less: by key, and the smaller index first.
unfoldable pub less : ScanItem → ScanItem → Bool
less a b =
    if not (a.entry.series_id == b.entry.series_id)
    then ltb a.entry.series_id b.entry.series_id
    else if not (eqb_ℤ a.entry.timestamp b.entry.timestamp)
    then ltb_ℤ a.entry.timestamp b.entry.timestamp
    else ltb a.source_idx b.source_idx

-- heap.Pop: a least item, and the others.
pub pop : ScanItem → List ScanItem → ScanItem × List ScanItem
pop x [] = (x, [])
pop x (y ∷ ys) = let r = pop y ys in if less r.0 x then (r.0, x ∷ r.1) else (x, y ∷ ys)

-- The push of the next entry of a source, if there is one.
pub push_next : ℕ → List Entry → List ScanItem → List ScanItem
push_next source [] items = items
push_next source (e ∷ es) items = record { entry = e; source_idx = source; rest = es } ∷ items

pub record ScanIterator : Type 0 where
  pub heap : List ScanItem
  pub series_id : ℕ
  pub start_ts : ℤ
  pub end_ts : ℤ
  pub last_key : Option Key
  pub valid : Bool
  pub current_key : Key
  pub current_val : List ℕ

-- The first two tests of Next: the key is not in the range.
unfoldable pub outside : ScanIterator → Key → Bool
outside it k =
    not (k.series_id == it.series_id)
    || (ltb_ℤ k.timestamp it.start_ts || ltb_ℤ it.end_ts k.timestamp)

pub total : List ScanItem → ℕ
total [] = 0
total (x ∷ xs) = suc (length x.rest) + total xs

-- The loop of Next: each round pops an item, and pushes the next entry of its source.
pub next_loop : ℕ → List ScanItem → ScanIterator → Bool × ScanIterator
next_loop zero items it = (false, record it { heap = items; valid = false })
next_loop (suc fuel) [] it = (false, record it { heap = []; valid = false })
next_loop (suc fuel) (x ∷ xs) it =
    let popped = pop x xs in
    let e = popped.0.entry in
    let k = entry_key e in
    let items = push_next popped.0.source_idx popped.0.rest popped.1 in
    let skipped = next_loop fuel items it in
    let behind = next_loop fuel items (record it { last_key = some k }) in
    let found = record it {
      heap = items;
      last_key = some k;
      valid = true;
      current_key = k;
      current_val = e.value;
    } in
    if outside it k || is_last it.last_key k
    then skipped
    else if e.deleted
    then behind
    else (true, found)

pub next : ScanIterator → Bool × ScanIterator
unfolding total
next it = next_loop (total it.heap) it.heap it

-- `for it.Next() { use(it.Entry()) }`.
pub iterate : ℕ → ScanIterator → List (Key × List ℕ)
iterate zero it = []
iterate (suc fuel) it =
    let r = next it in
    let rest = iterate fuel r.1 in if r.0 then (r.1.current_key, r.1.current_val) ∷ rest else []

-- The heap that Scan fills.
pub fill : ℕ → List (List Entry) → List ScanItem
fill source [] = []
fill source (es ∷ rest) = push_next source es (fill (suc source) rest)

new_scan : List (List Entry) → ℕ → ℤ → ℤ → ScanIterator
new_scan sources series_id start_ts end_ts = record {
  heap = fill 0 sources;
  series_id = series_id;
  start_ts = start_ts;
  end_ts = end_ts;
  last_key = none;
  valid = false;
  current_key = record { series_id = 0; timestamp = pos 0 };
  current_val = [];
}

is_some : Option MemTable → Bool
is_some none = false
is_some (some m) = true

module _ (snappy : Snappy) (filters : Filters) where
  -- snapshotForScan.
  flush_loop : ℕ → Wisp → Outcome
  flush_loop zero w = (err out_of_fuel, w)
  flush_loop (suc fuel) w =
      let next = and_then (flush_immutable snappy filters w) (λ w'. flush_loop fuel w') in
      if ltb 0 w.mutable.size && is_some w.immutable then next else (ok tt, w)

  unfoldable pub snapshot_for_scan : Wisp → Outcome
  unfolding flush_loop is_some
  snapshot_for_scan w =
      and_then (flush_loop 2 w)
        (λ w'. (ok tt, if ltb 0 w'.mutable.size then freeze_mutable w' else w'))

  sources_of : Option MemTable → Tables → Result EngineError (List (List Entry))
  sources_of none tables = ok ([] ∷ map (λ t. table_entries snappy filters t.1) tables)
  sources_of (some m) tables = with_rows (MemTable.entries m)
    where
      with_rows : Option (List (Key × List ℕ × Bool)) → Result EngineError (List (List Entry))
      with_rows none = err panicked
      with_rows (some rows) =
          ok (map entry_of_row rows ∷ map (λ t. table_entries snappy filters t.1) tables)

  opened_scan : ℕ → ℤ → ℤ → Outcome → Result EngineError ScanIterator × Wisp
  unfolding sources_of new_scan
  opened_scan series_id start_ts end_ts (err e, w) = (err e, w)
  opened_scan series_id start_ts end_ts (ok u, w) = (
    sources_of w.immutable w.tables >>= λ sources. ok (new_scan sources series_id start_ts end_ts),
    w,
  )

  -- Scan.
  unfoldable pub scan : Wisp → ℕ → ℤ → ℤ → Result EngineError ScanIterator × Wisp
  unfolding opened_scan
  scan w series_id start_ts end_ts = opened_scan series_id start_ts end_ts (snapshot_for_scan w)
