-- ===== src/Skiplist/Overwrite.antt =====
-- `insert` of a key that a node has: its value is overwritten in place.
use wisp_db.Base.{
  ℕ, suc, ◌<◌, ◌≡◌, refl, sym, ap, ◌≢◌, Bool, true, ◌∙◌, ◌||◌, List, [], ◌∷◌, ◌++◌, arith, ltb,
  ◌==◌, ==-refl, if◌then◌else◌, length, All,
}
use mathlib.Core.List.{map-append}
use wisp_db.Key.{Key, key_eq}
use wisp_db.Key.Order.{key_eq→eq}
use wisp_db.Rows.{upsert, upsert-IsSorted}
use mathlib.Core.Path.{subst}
use wisp_db.Skiplist.{Ptr, Heap, Skiplist, write, overwrite}
use wisp_db.Skiplist.Cells.{
  Cell, Cells, row_of, rows_of, first, before, after, has, Holds, Chain, Distinct, IsSkiplist,
  TallBelow, head_cell, before-append-after, Chain-drop, Chain-drop,
}
use wisp_db.Skiplist.Partly.{Chain-frame, Holds-same}
use wisp_db.Skiplist.Splits.{has-append, upsert_old}
use wisp_db.Skiplist.Insert.{Inserted}

-- Replacing a cell by one at the same address and of the same height keeps what the cells link.
module _ (d e : Cell) (at : e.ptr ≡ d.ptr) (height : e.height ≡ d.height) where
  first-replace : (i : ℕ) (xs ds : Cells) → first i (xs ++ d ∷ ds) ≡ first i (xs ++ e ∷ ds)
  first-replace i [] ds = rw (at, height)
  first-replace i (c ∷ xs) ds =
      ap (λ r. if ltb i c.height then c.ptr else r) (first-replace i xs ds)

  has-replace : (q : Ptr) (xs ds : Cells) → has q (xs ++ d ∷ ds) ≡ has q (xs ++ e ∷ ds)
  has-replace q [] ds = rw at
  has-replace q (c ∷ xs) ds = ap (λ r. (c.ptr == q) || r) (has-replace q xs ds)

  Distinct-replace : (xs ds : Cells) → Distinct (xs ++ d ∷ ds) → Distinct (xs ++ e ∷ ds)
  Distinct-replace [] ds di = rw at di
  Distinct-replace (c ∷ xs) ds di =
      (di.0, rw (← has-replace c.ptr xs ds) di.1, Distinct-replace xs ds di.2)

  All-replace {κ} :
      (P : Cell → Type κ) (xs ds : Cells)
      → (P d → P e)
      → All P (xs ++ d ∷ ds)
      → All P (xs ++ e ∷ ds)
  All-replace P [] ds f h = (f h.0, h.1)
  All-replace P (c ∷ xs) ds f h = (h.0, All-replace P xs ds f h.1)

  length-replace : (xs ds : Cells) → length (xs ++ e ∷ ds) ≡ length (xs ++ d ∷ ds)
  length-replace [] ds = refl
  length-replace (c ∷ xs) ds = ap suc (length-replace xs ds)

  Chain-replace :
      (h g : Heap) (xs ds : Cells)
      → Distinct (xs ++ d ∷ ds)
      → ((q : Ptr) → q ≢ d.ptr → g q ≡ h q)
      → (Holds h d (λ i. first i ds) → Holds g e (λ i. first i ds))
      → Chain h (xs ++ d ∷ ds)
      → Chain g (xs ++ e ∷ ds)
  Chain-replace h g [] ds di same held ch =
      (held ch.0, Chain-frame h g ds (λ q m. same q (λ x. ground (arith, rw x at m, di.1))) ch.1)
  Chain-replace h g (c ∷ xs) ds di same held ch = (
    Holds-same g _ ch.0
        (same c.ptr
          (λ x. ground (arith, has-append d.ptr xs (d ∷ ds), rw x at di.1, ==-refl d.ptr)))
        (λ i p. first-replace i xs ds),
    Chain-replace h g xs ds di.2 same held ch.1,
  )

-- The node found is written with the new value and mark; nothing else changes.
module _ (s : Skiplist) (cs : Cells) (v : IsSkiplist s cs) (k : Key) (d : Cell) (ds : Cells)
    (found : after k cs ≡ d ∷ ds) (is_key : key_eq d.key k ≡ true) (value : List ℕ)
    (deleted : Bool) where
  abbrev changed : Cell
  changed = record d { value = value; deleted = deleted }

  split : before k cs ++ d ∷ ds ≡ cs
  split = rw (← found) (before-append-after k cs)

  split-Chain : Chain s.nodes (head_cell s ∷ before k cs ++ d ∷ ds)
  split-Chain = subst (λ l. Chain s.nodes (head_cell s ∷ l)) (sym split) v.chain

  split-Distinct : Distinct (head_cell s ∷ before k cs ++ d ∷ ds)
  split-Distinct = subst (λ l. Distinct (head_cell s ∷ l)) (sym split) v.distinct

  held : Holds s.nodes d (λ i. first i ds)
  held = (Chain-drop s.nodes (head_cell s ∷ before k cs) (d ∷ ds) split-Chain).0

  rows_changed :
      rows_of (before k cs ++ changed ∷ ds)
      ≡ upsert (record { key = k; value = value; deleted = deleted }) (rows_of cs)
  rows_changed =
      map-append row_of (before k cs) (changed ∷ ds)
      ∙ ap
          (λ q.
            rows_of (before k cs)
            ++ record { key = q; value = value; deleted = deleted } ∷ rows_of ds)
          (key_eq→eq d.key k is_key)
      ∙ upsert_old (record { key = k; value = value; deleted = deleted }) cs d ds found is_key

  pub overwrite-Inserted :
      Inserted s cs
        (record { key = k; value = value; deleted = deleted })
        (overwrite s d.ptr value deleted)
  unfolding overwrite
  overwrite-Inserted = record {
    state = record s { nodes = g };
    cells = before k cs ++ changed ∷ ds;
    returns = rw held.at;
    valid = record {
      chain =
          Chain-replace d changed refl refl s.nodes g (head_cell s ∷ before k cs) ds split-Distinct
            (λ q ne. ground arith)
            (λ x. record {
              node = record held.node { value = value; deleted = deleted };
              at = rw (==-refl d.ptr);
              key = held.key;
              value = refl;
              deleted = refl;
              height = held.height;
              forward = held.forward;
            })
            split-Chain;
      distinct = Distinct-replace d changed refl refl (head_cell s ∷ before k cs) ds split-Distinct;
      below =
          All-replace d changed refl refl (λ c. c.ptr < s.fresh) (head_cell s ∷ before k cs) ds
            (λ x. x)
            (subst (λ l. All (λ c. c.ptr < s.fresh) (head_cell s ∷ l)) (sym split) v.below);
      sorted = rw rows_changed (upsert-IsSorted _ (rows_of cs) v.sorted);
      heights =
          All-replace d changed refl refl (TallBelow s) (before k cs) ds (λ x. x)
            (subst (All (TallBelow s)) (sym split) v.heights);
      top = v.top;
      counted =
          v.counted
          ∙ sym (ap length split)
          ∙ sym (length-replace d changed refl refl (before k cs) ds);
    };
    rows = rows_changed;
    max_level = refl;
  }
    where
      g : Heap
      g = write s.nodes d.ptr (record held.node { value = value; deleted = deleted })
