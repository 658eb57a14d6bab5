-- ===== src/Engine/State.antt =====
-- The invariant of an engine: its contents, and its log, in which the records of the immutable
-- memtable stand in front of those of the mutable one.
use mathlib.Core.List.{append_assoc}
use wisp_db.Base.{
  ℕ, ◌+◌, ◌^◌, ◌≤◌, ◌<◌, ◌≡◌, sym, ap, ◌∙◌, true, Option, none, some, List, [], ◌∷◌, ◌++◌, arith,
  length, All, All-append,
}
use wisp_db.Base.Result.{ok}
use wisp_db.Rows.{Rows}
use wisp_db.MemTable.{MemTable}
use wisp_db.SsTable.Libraries.{Snappy, Filters}
use wisp_db.SsTable.Reader.Table.{write}
use wisp_db.Wal.Payload.{WalRecord}
use wisp_db.Wal.Log.Files.{Chunks, records_of}
use wisp_db.Wal.Log.Laws.{LogHolds}
use wisp_db.Engine.{Wisp, Tables}
use wisp_db.Engine.View.{Contents, Holds, Layers, TablesHold, entries_from, upserts}

-- The segments of the immutable memtable are those up to the one that its freeze sealed,
-- below the active one.
abbrev pub Split : Option MemTable → ℕ → ℕ → Chunks → Chunks → Type 0
Split none seg id olds news = olds ≡ []
Split (some m) seg id olds news =
    (0 < seg) × All (λ c. c.0 ≤ seg) olds × All (λ c. seg < c.0) news × (seg < id)

pub record LogSplit (w : Wisp) (c : Contents) : Type 0 where
  pub olds : Chunks
  pub news : Chunks
  pub active : List WalRecord
  pub holds : LogHolds w.wal (olds ++ news) active
  pub is_open : w.wal.is_open ≡ true
  pub positive : 0 < w.wal.segment_id
  pub split : Split w.immutable w.immutable_wal_segment w.wal.segment_id olds news
  pub immutable : c.immutable ≡ upserts (records_of olds) []
  pub mutable : c.mutable ≡ upserts (records_of news ++ active) []

module _ (snappy : Snappy) (filters : Filters) where
  pub record IsWisp (w : Wisp) (c : Contents) : Type 0 where
    pub holds : Holds snappy filters w c
    pub log : LogSplit w c

  -- The block size is below 2 GiB, and the table of these rows is shorter than 4 GiB.
  abbrev pub Fits : ℕ → Rows → Type 0
  Fits block_size rows =
      (block_size < 2 ^ 31)
      × ((file : List ℕ)
          → write snappy filters block_size (entries_from rows) ≡ ok file
          → length file < 2 ^ 32)

  -- So is the one of the immutable memtable, if there is one.
  abbrev pub ImmutableFits : ℕ → Option MemTable → Rows → Type 0
  ImmutableFits block_size none rows = Unit {0}
  ImmutableFits block_size (some m) rows = Fits block_size rows

  -- The tables before, and in front of them newer ones.
  pub record Grown (w : Wisp) (c : Contents) (after : Wisp) (contents : Contents) : Type 0 where
    pub fronts : Tables
    pub newer : Layers
    pub tables : after.tables ≡ fronts ++ w.tables
    pub layers : contents.layers ≡ newer ++ c.layers
    pub hold : TablesHold snappy filters fronts newer
    pub gens : All (λ t. w.next_gen < t.0) fronts
    pub next_gen : w.next_gen ≤ after.next_gen

  pub Grown-same :
      (w : Wisp) (c : Contents) (after : Wisp) (contents : Contents)
      → after.tables ≡ w.tables
      → contents.layers ≡ c.layers
      → after.next_gen ≡ w.next_gen
      → Grown w c after contents
  Grown-same w c after contents e f g = record {
    fronts = [];
    newer = [];
    tables = e;
    layers = f;
    hold = tt;
    gens = tt;
    next_gen = omega (arith, g);
  }

  pub TablesHold-append :
      (xs ys : Tables) (ls ms : Layers)
      → TablesHold snappy filters xs ls
      → TablesHold snappy filters ys ms
      → TablesHold snappy filters (xs ++ ys) (ls ++ ms)
  TablesHold-append [] ys [] ms h k = k
  TablesHold-append [] ys (es ∷ ls) ms h k = absurd h
  TablesHold-append (t ∷ xs) ys [] ms h k = absurd h
  TablesHold-append (t ∷ xs) ys (es ∷ ls) ms h k = (h.0, TablesHold-append xs ys ls ms h.1 k)

  -- Newer tables are above a smaller generation too.
  pub All-newer : (m n : ℕ) (ts : Tables) → m ≤ n → All (λ t. n < t.0) ts → All (λ t. m < t.0) ts
  All-newer m n [] le h = tt
  All-newer m n (t ∷ ts) le h = (omega (arith, h.0, le), All-newer m n ts le h.1)

  pub Grown-trans :
      (w : Wisp) (c : Contents) (w' : Wisp) (c' : Contents) (after : Wisp) (contents : Contents)
      → Grown w c w' c'
      → Grown w' c' after contents
      → Grown w c after contents
  Grown-trans w c w' c' after contents g h = record {
    fronts = h.fronts ++ g.fronts;
    newer = h.newer ++ g.newer;
    tables =
        h.tables
        ∙ ap (λ ts. h.fronts ++ ts) g.tables
        ∙ sym (append_assoc h.fronts g.fronts w.tables);
    layers =
        h.layers ∙ ap (λ ls. h.newer ++ ls) g.layers ∙ sym (append_assoc h.newer g.newer c.layers);
    hold = TablesHold-append h.fronts g.fronts h.newer g.newer h.hold g.hold;
    gens =
        All-append (λ t. w.next_gen < t.0) h.fronts g.fronts
          (All-newer w.next_gen w'.next_gen h.fronts g.next_gen h.gens) g.gens;
    next_gen = omega (arith, g.next_gen, h.next_gen);
  }

-- Neither the generations nor the segments run out in the next operation.
abbrev pub Room : Wisp → Type 0
Room w = (w.next_gen + 2 < 2 ^ 64) × (w.wal.segment_id + 2 < 2 ^ 64)
