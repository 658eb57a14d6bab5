-- ===== src/Engine/Pending.antt =====
-- A compaction in two steps, as CompactAll takes no lock: the first takes the tables and draws the
-- generation of the output, and the last has them replaced by it. Other operations run between.
use mathlib.Core.List.{append_assoc}
use wisp_db.Base.{
  ℕ, ◌+◌, ◌%◌, ◌^◌, ◌≤◌, ◌<◌, ◌≡◌, refl, sym, ap, ◌∙◌, Bool, Option, none, some, List, [], ◌∷◌,
  ◌++◌, arith, length, All, All-append,
}
use mathlib.Core.Path.{subst}
use wisp_db.Base.Result.{ok}
use wisp_db.SsTable.Libraries.{Snappy, Filters}
use wisp_db.SsTable.Reader.Table.{write}
use wisp_db.Engine.{Wisp, Tables, Outcome, default_block_size}
use wisp_db.Engine.View.{Contents, Layers, TablesHold, BelowGen}
use wisp_db.Engine.State.{IsWisp, Grown, TablesHold-append, All-newer}
use wisp_db.Engine.Compact.{finish_compaction}
use wisp_db.Engine.Compact.Merge.{merged}
use wisp_db.Engine.Compact.Finish.{Compacted, finish_compaction-Compacted, drawn-IsWisp}

-- The tables that a compaction took, and the generation of its output.
pub record Pending : Type 0 where
  pub is_major : Bool
  pub gen : ℕ
  pub olds : Tables

-- The first step, of the tables of an engine. Without tables there is nothing to do.
unfoldable pub begin_compaction : Bool → Tables → Wisp → Wisp × Option Pending
begin_compaction is_major [] w = (w, none)
begin_compaction is_major (t ∷ ts) w =
    let gen = (w.next_gen + 1) % 2 ^ 64 in
    (record w { next_gen = gen }, some (record { is_major = is_major; gen = gen; olds = t ∷ ts }))

module _ (snappy : Snappy) (filters : Filters) where
  -- The last step.
  unfoldable pub end_compaction : Option Pending → Wisp → Outcome
  end_compaction none w = (ok tt, w)
  end_compaction (some p) w = finish_compaction snappy filters p.is_major p.gen p.olds w

  -- The output is shorter than 4 GiB.
  abbrev pub OutputFits : Option Pending → Type 0
  OutputFits none = Unit {0}
  OutputFits (some p) =
      (file : List ℕ)
      → write snappy filters default_block_size (merged snappy filters p.is_major p.olds) ≡ ok file
      → length file < 2 ^ 32

  -- The tables that were taken stand behind those that were added since.
  pub record IsBehind (p : Pending) (w : Wisp) (c : Contents) : Type 0 where
    pub fronts : Tables
    pub newer : Layers
    pub older : Layers
    pub tables : w.tables ≡ fronts ++ p.olds
    pub layers : c.layers ≡ newer ++ older
    pub hold : TablesHold snappy filters fronts newer
    pub hold_olds : TablesHold snappy filters p.olds older
    pub gens : All (λ t. p.gen < t.0) fronts
    pub below : BelowGen p.gen p.olds
    pub next_gen : p.gen ≤ w.next_gen

  abbrev pub IsPending : Option Pending → Wisp → Contents → Type 0
  IsPending none w c = Unit {0}
  IsPending (some p) w c = IsBehind p w c

  -- What only adds tables keeps it.
  pub IsPending-Grown :
      (o : Option Pending) (w : Wisp) (c : Contents) (after : Wisp) (contents : Contents)
      → IsPending o w c
      → Grown snappy filters w c after contents
      → IsPending o after contents
  IsPending-Grown none w c after contents h g = tt
  IsPending-Grown (some p) w c after contents h g = record {
    fronts = g.fronts ++ h.fronts;
    newer = g.newer ++ h.newer;
    older = h.older;
    tables =
        g.tables ∙ ap (λ ts. g.fronts ++ ts) h.tables ∙ sym (append_assoc g.fronts h.fronts p.olds);
    layers =
        g.layers ∙ ap (λ ls. g.newer ++ ls) h.layers ∙ sym (append_assoc g.newer h.newer h.older);
    hold = TablesHold-append snappy filters g.fronts h.fronts g.newer h.newer g.hold h.hold;
    hold_olds = h.hold_olds;
    gens =
        All-append (λ t. p.gen < t.0) g.fronts h.fronts
          (All-newer snappy filters p.gen w.next_gen g.fronts h.next_gen g.gens) h.gens;
    below = h.below;
    next_gen = omega (arith, h.next_gen, g.next_gen);
  }

  -- The first step changes nothing that is read.
  pub begin_compaction-IsPending :
      (is_major : Bool) (w : Wisp) (c : Contents) (ts : Tables)
      → w.tables ≡ ts
      → IsWisp snappy filters w c
      → w.next_gen + 1 < 2 ^ 64
      → IsWisp snappy filters (begin_compaction is_major ts w).0 c
        × IsPending (begin_compaction is_major ts w).1 (begin_compaction is_major ts w).0 c
  unfolding begin_compaction
  begin_compaction-IsPending is_major w c [] e v room = (v, tt)
  begin_compaction-IsPending is_major w c (t ∷ ts) e v room =
      let gen = (w.next_gen + 1) % 2 ^ 64 in
      let gen_is : gen ≡ w.next_gen + 1 = omega (arith, room) in
      (
        drawn-IsWisp snappy filters w c gen gen_is v,
        record {
          fronts = [];
          newer = [];
          older = c.layers;
          tables = e;
          layers = refl;
          hold = tt;
          hold_olds = subst (λ us. TablesHold snappy filters us c.layers) e v.holds.tables;
          gens = tt;
          below =
              subst (BelowGen gen) e (subst (λ n. BelowGen n w.tables) (sym gen_is) v.holds.gens);
          next_gen = omega arith;
        },
      )

  pub end_compaction-Compacted :
      (o : Option Pending) (w : Wisp) (c : Contents)
      → IsWisp snappy filters w c
      → IsPending o w c
      → OutputFits o
      → Compacted snappy filters w c (end_compaction o w)
  unfolding end_compaction
  end_compaction-Compacted none w c v h fits = record {
    after = w;
    contents = c;
    returns = refl;
    valid = v;
    same_live = λ k. refl;
  }
  end_compaction-Compacted (some p) w c v h fits =
      finish_compaction-Compacted snappy filters p.is_major w c p.gen h.fronts p.olds h.newer
        h.older v h.tables h.layers h.hold h.hold_olds h.gens h.below h.next_gen fits
