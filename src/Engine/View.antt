-- ===== src/Engine/View.antt =====
-- What an engine stands for: under each key the newest entry of the mutable memtable, the immutable
-- one and the tables, the newest first.
use wisp_db.Base.{
  ℕ, ◌+◌, ◌^◌, ◌<◌, ◌≡◌, refl, sym, ap, ◌∙◌, Bool, true, false, Option, none, some, List, [], ◌∷◌,
  ◌++◌, map, if◌then◌else◌, length, All,
}
use wisp_db.Base.Int.{IsInt64}
use wisp_db.Base.Result.{Result, ok, map_err}
use wisp_db.Key.{Key, key_eq}
use wisp_db.Rows.{Row, Rows, find, upsert, find-upsert, IsSorted, Above}
use wisp_db.MemTable.{MemTable}
use wisp_db.MemTable.Laws.{IsMemTable, lookup-rows}
use wisp_db.Skiplist.Iterate.{entries_of}
use wisp_db.SsTable.Entry.{Entry, IsStored, find_entry}
use wisp_db.SsTable.Sorted.{IsAscendingEntries, AllAbove}
use wisp_db.SsTable.Libraries.{Snappy, Filters}
use wisp_db.SsTable.Reader.{Answer, answer}
use wisp_db.SsTable.Reader.Table.{IsTable}
use wisp_db.Wal.Payload.{WalRecord}
use wisp_db.Engine.{
  Wisp, Tables, EngineError, get, search_tables, look, from_memtable, pick, entry_of_row,
}

abbrev pub Hit : Type 0
Hit = Option (List ℕ × Bool)

-- What a layer has under a key, in front of another.
unfoldable pub over : Hit → Hit → Hit
over none b = b
over (some a) b = some a

pub over_assoc : (a b c : Hit) → over (over a b) c ≡ over a (over b c)
unfolding over
over_assoc none b c = refl
over_assoc (some a) b c = refl

-- The rows that records of the log stand for.
abbrev pub row_of_record : WalRecord → Row
row_of_record r = record {
  key = record { series_id = r.series_id; timestamp = r.timestamp };
  value = if r.deleted then [] else r.value;
  deleted = r.deleted;
}

unfoldable pub upserts : List WalRecord → Rows → Rows
upserts [] rows = rows
upserts (r ∷ rs) rows = upserts rs (upsert (row_of_record r) rows)

find-upsert-over :
    (k : Key) (n : Row) (rows : Rows)
    → find k (upsert n rows) ≡ over (find k (upsert n [])) (find k rows)
unfolding over find
find-upsert-over k n rows =
    find-upsert k n rows
    ∙ by_key (key_eq n.key k)
    ∙ ap (λ o. over o (find k rows)) (sym (find-upsert k n []))
  where
    by_key :
        (b : Bool)
        → (if b then some (n.value, n.deleted) else find k rows)
          ≡ over (if b then some (n.value, n.deleted) else none) (find k rows)
    by_key true = refl
    by_key false = refl

pub find-upserts :
    (k : Key) (rs : List WalRecord) (rows : Rows)
    → find k (upserts rs rows) ≡ over (find k (upserts rs [])) (find k rows)
unfolding upserts over find
find-upserts k [] rows = refl
find-upserts k (r ∷ rs) rows =
    let n = row_of_record r in
    let behind = find k (upserts rs []) in
    find-upserts k rs (upsert n rows)
    ∙ ap (over behind) (find-upsert-over k n rows)
    ∙ sym (over_assoc behind (find k (upsert n [])) (find k rows))
    ∙ ap (λ o. over o (find k rows)) (sym (find-upserts k rs (upsert n [])))

pub upserts-append :
    (xs ys : List WalRecord) (rows : Rows) → upserts (xs ++ ys) rows ≡ upserts ys (upserts xs rows)
unfolding upserts
upserts-append [] ys rows = refl
upserts-append (x ∷ xs) ys rows = upserts-append xs ys (upsert (row_of_record x) rows)

-- The rows of a memtable as the entries of a table.
abbrev pub entries_from : Rows → List Entry
entries_from rows = map entry_of_row (entries_of rows)

pub find_entry-entries_from :
    (k : Key) (rows : Rows) → find_entry k (entries_from rows) ≡ find k rows
unfolding find_entry find entry_of_row
find_entry-entries_from k [] = refl
find_entry-entries_from k (r ∷ rows) =
    ap (λ o. if key_eq r.key k then some (r.value, r.deleted) else o)
      (find_entry-entries_from k rows)

pub entries_from-IsAscendingEntries :
    (rows : Rows) → IsSorted rows → IsAscendingEntries (entries_from rows)
unfolding IsAscendingEntries entry_of_row
entries_from-IsAscendingEntries [] h = tt
entries_from-IsAscendingEntries (r ∷ rows) h =
    (go rows h.0, entries_from-IsAscendingEntries rows h.1)
  where
    go : (rs : Rows) → Above r.key rs → AllAbove r.key (entries_from rs)
    go [] a = tt
    go (x ∷ rs) a = (a.0, go rs a.1)

-- A row that Go's types can hold, and whose entry is below 2 GiB.
abbrev pub IsRow : Row → Type 0
IsRow r = (r.key.series_id < 2 ^ 64) × IsInt64 r.key.timestamp × (25 + length r.value < 2 ^ 31)

pub entries_from-IsStored : (rows : Rows) → All IsRow rows → All IsStored (entries_from rows)
unfolding entry_of_row
entries_from-IsStored [] h = tt
entries_from-IsStored (r ∷ rows) h = (h.0, entries_from-IsStored rows h.1)

abbrev pub Layers : Type 0
Layers = List (List Entry)

unfoldable pub find_layers : Key → Layers → Hit
find_layers k [] = none
find_layers k (es ∷ ls) = over (find_entry k es) (find_layers k ls)

-- What an engine holds: the rows of the two memtables, the entries of the tables, and the records of
-- the log that the immutable memtable and the mutable one stand for.
pub record Contents : Type 0 where
  pub mutable : Rows
  pub immutable : Rows
  pub layers : Layers

unfoldable pub view : Contents → Key → Hit
view c k = over (find k c.mutable) (over (find k c.immutable) (find_layers k c.layers))

abbrev pub IsLayer : List Entry → Type 0
IsLayer es = All IsStored es × IsAscendingEntries es

-- Generations that descend strictly, below a bound.
abbrev pub BelowGen : ℕ → Tables → Type 0
BelowGen n [] = Unit {0}
BelowGen n (t ∷ ts) = (t.0 < n) × BelowGen t.0 ts

abbrev pub ImmutableHolds : Option MemTable → Rows → Type 0
ImmutableHolds none rows = rows ≡ []
ImmutableHolds (some m) rows = IsMemTable m rows

pick-over :
    (a b : Hit) (rest : Result EngineError Answer)
    → rest ≡ ok (answer b)
    → pick (answer a) rest ≡ ok (answer (over a b))
unfolding pick answer over
pick-over none b rest e = e
pick-over (some (v, true)) b rest e = refl
pick-over (some (v, false)) b rest e = refl

look-over :
    (k : Key) (m : Option MemTable) (rows : Rows) (rest : Result EngineError Answer) (o : Hit)
    → ImmutableHolds m rows
    → rest ≡ ok (answer o)
    → look k m rest ≡ ok (answer (over (find k rows) o))
unfolding look over find
look-over k none rows rest o h e = e ∙ ap (λ r. ok (answer (over (find k r) o))) (sym h)
look-over k (some m) rows rest o h e =
    ap (λ l. from_memtable l rest) (lookup-rows m rows h k.series_id k.timestamp) ∙ go (find k rows)
  where
    go : (f : Hit) → from_memtable (some f) rest ≡ ok (answer (over f o))
    go none = e
    go (some v) = refl

module _ (snappy : Snappy) (filters : Filters) where
  abbrev pub TablesHold : Tables → Layers → Type 0
  TablesHold [] [] = Unit {0}
  TablesHold [] (es ∷ ls) = ⊥
  TablesHold (t ∷ ts) [] = ⊥
  TablesHold (t ∷ ts) (es ∷ ls) = IsTable snappy filters t.1 es × TablesHold ts ls

  -- The engine without its log.
  pub record Holds (w : Wisp) (c : Contents) : Type 0 where
    pub mutable : IsMemTable w.mutable c.mutable
    pub open_table : w.mutable.mutable ≡ true
    pub immutable : ImmutableHolds w.immutable c.immutable
    pub mutable_rows : All IsRow c.mutable
    pub immutable_rows : All IsRow c.immutable
    pub tables : TablesHold w.tables c.layers
    pub layers : All IsLayer c.layers
    pub gens : BelowGen (w.next_gen + 1) w.tables

  search_tables-find_layers :
      (k : Key) (ts : Tables) (ls : Layers)
      → TablesHold ts ls
      → search_tables snappy filters k ts ≡ ok (answer (find_layers k ls))
  unfolding search_tables find_layers map_err answer
  search_tables-find_layers k [] [] h = refl
  search_tables-find_layers k [] (es ∷ ls) h = absurd h
  search_tables-find_layers k (t ∷ ts) [] h = absurd h
  search_tables-find_layers k (t ∷ ts) (es ∷ ls) h =
      let rest = search_tables-find_layers k ts ls h.1 in
      rw (h.0.finds k) (pick-over (find_entry k es) (find_layers k ls) _ rest)

  -- On an engine that holds some contents, Get never fails, and gives what the newest of the layers
  -- that has the key has under it: its value, or that it is deleted.
  pub get-view :
      (w : Wisp) (c : Contents) (k : Key)
      → Holds w c
      → get snappy filters w k ≡ ok (answer (view c k))
  unfolding get view
  get-view w c k h = look-over k (some w.mutable) c.mutable _ _ h.mutable (
      look-over k w.immutable c.immutable _ _ h.immutable
        (search_tables-find_layers k w.tables c.layers h.tables))
