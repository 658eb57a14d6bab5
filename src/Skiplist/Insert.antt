-- ===== src/Skiplist/Insert.antt =====
-- `insert` of a key that no node has: the new node is linked in, and the invariant is kept.
use wisp_db.Base.{
  ℕ, suc, ◌+◌, ◌-◌, ◌≤◌, ◌<◌, ◌≡◌, refl, sym, ap, Bool, false, ◌∙◌, some, List, ◌∷◌, ◌++◌, arith,
  ltb, lt→ltb, le→ltb, ==-refl, if◌then◌else◌, get_elem?, length, All, Option, replicate,
  length-replicate,
}
use wisp_db.Key.{Key, key_eq}
use wisp_db.Rows.{Row, upsert, upsert-IsSorted}
use mathlib.Core.Path.{subst}
use wisp_db.Skiplist.{Ptr, null, Heap, Skiplist, write, raise_update, insert_node}
use wisp_db.Skiplist.Cells.{
  Cell, Cells, row_of, rows_of, last_at, before, after, has, Chain, Distinct, IsSkiplist, TallBelow,
  head_cell, before-append-after, Chain-drop,
}
use wisp_db.Skiplist.Partly.{Partly, Chain-frame}
use wisp_db.Skiplist.Link.{link_loop-Partly, Partly-Chain}
use wisp_db.Skiplist.Splits.{
  Distinct-apart, Distinct-take, Distinct-put, has_of_below, All-take, All-drop, All-put, All-mono,
  length-put, Chain-Before, upsert_new,
}
use wisp_db.Skiplist.Height.{get_elem?-replicate, raised}

-- A run of `insert` that returned, the state after it, and what that stands for.
pub record Inserted (s : Skiplist) (cs : Cells) (row : Row) (result : Option Skiplist)
    : Type 0 where
  pub state : Skiplist
  pub cells : Cells
  pub returns : result ≡ some state
  pub valid : IsSkiplist state cells
  pub rows : rows_of cells ≡ upsert row (rows_of cs)
  pub max_level : state.max_level ≡ s.max_level

module _ (s : Skiplist) (cs : Cells) (v : IsSkiplist s cs) (k : Key) where
  pub pre-Chain : Chain s.nodes (head_cell s ∷ before k cs ++ after k cs)
  pre-Chain = subst (λ l. Chain s.nodes (head_cell s ∷ l)) (sym (before-append-after k cs)) v.chain

  pub pre-Distinct : Distinct (head_cell s ∷ before k cs ++ after k cs)
  pre-Distinct = subst (λ l. Distinct (head_cell s ∷ l)) (sym (before-append-after k cs)) v.distinct

  pub pre_below : All (λ c. c.ptr < s.fresh) (head_cell s ∷ before k cs ++ after k cs)
  pre_below =
      subst (λ l. All (λ c. c.ptr < s.fresh) (head_cell s ∷ l)) (sym (before-append-after k cs))
        v.below

  fresh_out : has s.fresh (head_cell s ∷ before k cs ++ after k cs) ≡ false
  fresh_out = has_of_below s.fresh (head_cell s ∷ before k cs ++ after k cs) pre_below

  fresh_out_pre : has s.fresh (head_cell s ∷ before k cs) ≡ false
  fresh_out_pre =
      has_of_below s.fresh (head_cell s ∷ before k cs)
        (All-take (λ c. c.ptr < s.fresh) (head_cell s ∷ before k cs) (after k cs) pre_below)

  fresh_out_post : has s.fresh (after k cs) ≡ false
  fresh_out_post =
      has_of_below s.fresh (after k cs)
        (All-drop (λ c. c.ptr < s.fresh) (head_cell s ∷ before k cs) (after k cs) pre_below)

  module _ (value : List ℕ) (deleted : Bool) (level : ℕ) where
    abbrev new_cell : Cell
    new_cell = record { ptr = s.fresh; key = k; value = value; deleted = deleted; height = level }

    abbrev allocated : Heap
    allocated =
        write s.nodes s.fresh
          (record { key = k; value = value; deleted = deleted; forward = replicate level null })

    allocated-Chain : Chain allocated (head_cell s ∷ before k cs ++ after k cs)
    allocated-Chain =
        Chain-frame s.nodes allocated (head_cell s ∷ before k cs ++ after k cs)
          (λ q m.
            ground (arith, fresh_out, ap (λ r. has r (head_cell s ∷ before k cs ++ after k cs))))
          pre-Chain

    linking_start : Partly allocated 0 new_cell (head_cell s ∷ before k cs) (after k cs)
    linking_start = record {
      befores =
          Chain-Before allocated new_cell (after k cs) (head_cell s ∷ before k cs) allocated-Chain;
      new = record {
        node = record { key = k; value = value; deleted = deleted; forward = replicate level null };
        at = rw (==-refl s.fresh);
        key = refl;
        value = refl;
        deleted = refl;
        height = length-replicate level null;
        forward = λ i p. rw (le→ltb i 0 (omega arith)) (get_elem?-replicate level i p);
      };
      afters = Chain-drop allocated (head_cell s ∷ before k cs) (after k cs) allocated-Chain;
    }

    -- The invariant after a new node is linked in.
    inserted_valid :
        (g : Heap)
        → (0 < level) × (level ≤ s.max_level)
        → Partly g level new_cell (head_cell s ∷ before k cs) (after k cs)
        → ((d : Cell) (ds : Cells) → after k cs ≡ d ∷ ds → key_eq d.key k ≡ false)
        → IsSkiplist
            (record s {
              nodes = g;
              fresh = suc s.fresh;
              curr_top_level = if ltb s.curr_top_level level then level else s.curr_top_level;
              length = s.length + 1;
            })
            (before k cs ++ new_cell ∷ after k cs)
    inserted_valid g fits linked fresh_key = record {
      chain = Partly-Chain g new_cell (head_cell s ∷ before k cs) (after k cs) linked;
      distinct =
          Distinct-put new_cell (head_cell s ∷ before k cs) (after k cs)
            (omega (arith, pre_below.0)) fresh_out pre-Distinct;
      below =
          All-put (λ c. c.ptr < suc s.fresh) new_cell (head_cell s ∷ before k cs) (after k cs)
            (omega arith)
            (All-mono (λ c. c.ptr < s.fresh) _ (head_cell s ∷ before k cs ++ after k cs)
              (λ c x. omega arith) pre_below);
      sorted =
          rw (upsert_new new_cell cs fresh_key)
            (upsert-IsSorted (row_of new_cell) (rows_of cs) v.sorted);
      heights = All-put _ new_cell (before k cs) (after k cs) (ground arith) (
          rw (before-append-after k cs)
            (All-mono (TallBelow s) _ cs (λ c x. ground arith) v.heights));
      top = ground (arith, v.top);
      counted = omega (
        arith,
        length-put new_cell (before k cs) (after k cs),
        ap length (before-append-after k cs),
        v.counted,
      );
    }

    -- `insert` with no node of the key: a new node is linked in.
    pub insert_node-Inserted :
        (update : List Ptr)
        → (0 < level) × (level ≤ s.max_level)
        → length update ≡ s.max_level
        → ((j : ℕ)
            → j < s.curr_top_level
            → get_elem? update j ≡ some (last_at j s.head (before k cs)))
        → ((d : Cell) (ds : Cells) → after k cs ≡ d ∷ ds → key_eq d.key k ≡ false)
        → Inserted s cs (row_of new_cell) (insert_node s k value deleted level update)
    unfolding insert_node
    insert_node-Inserted update fits size below fresh_key =
        let (g, returns, linked) =
          link_loop-Partly level 0 allocated new_cell (head_cell s ∷ before k cs) (after k cs)
            (if ltb s.curr_top_level level
              then raise_update (level - s.curr_top_level) s.curr_top_level s.head update
              else update)
            linking_start (omega arith)
            (Distinct-take (head_cell s ∷ before k cs) (after k cs) pre-Distinct) fresh_out_pre
            fresh_out_post
            (λ q. Distinct-apart q (head_cell s ∷ before k cs) (after k cs) pre-Distinct)
            (λ j p. rw (lt→ltb j s.max_level (omega arith)) refl)
            (λ j p.
              raised s cs v k level fits.1 update size below j p
              ∙ ap (λ b. some (last_at j (if b then s.head else s.fresh) (before k cs)))
                  (sym (lt→ltb j s.max_level (omega arith)))) in
        record {
          state = record s {
            nodes = g;
            fresh = suc s.fresh;
            curr_top_level = if ltb s.curr_top_level level then level else s.curr_top_level;
            length = s.length + 1;
          };
          cells = before k cs ++ new_cell ∷ after k cs;
          returns = rw returns;
          valid = inserted_valid g fits linked fresh_key;
          rows = upsert_new new_cell cs fresh_key;
          max_level = refl;
        }
