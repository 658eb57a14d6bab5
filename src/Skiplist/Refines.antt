-- ===== src/Skiplist/Refines.antt =====
-- The skiplist of skiplist/skiplist.go against a sorted sequence of rows.
use wisp_db.Base.{
  ℕ, suc, ◌-◌, ◌≤◌, ◌<◌, ◌≡◌, refl, sym, inl, inr, Bool, true, false, ◌∙◌, some, none, List, [],
  ◌∷◌, arith, lt→ltb, ◌==◌, if◌then◌else◌, Bool-cases, get_elem?, length, All, replicate,
  length-replicate,
}
use mathlib.Core.Path.{subst}
use wisp_db.Key.{Key, key_lt, key_eq}
use wisp_db.Key.Order.{key_eq_of_not_lt}
use wisp_db.Rows.{IsSorted, find, find-Above, Above-trans}
use wisp_db.Skiplist.{
  Ptr, null, Node, Skiplist, new_skiplist, generate_random_level, predecessors, insert, insert_node,
  is_match, overwrite, put, delete, search_loop, search_node, lookup, ◌>>=◌,
}
use wisp_db.Skiplist.Cells.{
  Cell, Cells, rows_of, first, last_at, before, after, Holds, IsSkiplist, TallBelow, head_cell,
  before-append-after, Chain-drop, Distinct-drop,
}
use wisp_db.Skiplist.Descend.{Collected, descend-Collected, search_loop-last_at}
use wisp_db.Skiplist.Splits.{leads_after, All-drop, after_head, find_split}
use wisp_db.Skiplist.Walk.{IsSorted-drop}
use wisp_db.Skiplist.Height.{generate_random_level_bounds, get_elem?-replicate}
use wisp_db.Skiplist.Insert.{Inserted, pre-Chain, pre-Distinct, insert_node-Inserted}
use wisp_db.Skiplist.Overwrite.{overwrite-Inserted}

-- A new skiplist stands for no rows.
pub new_skiplist-IsSkiplist : (m : ℕ) → 0 < m → IsSkiplist (new_skiplist m) []
unfolding new_skiplist
new_skiplist-IsSkiplist m h = record {
  chain = (
    record {
      node = _;
      at = refl;
      key = refl;
      value = refl;
      deleted = refl;
      height = length-replicate m null;
      forward = get_elem?-replicate m;
    },
    tt,
  );
  distinct = (omega arith, refl, tt);
  below = (omega arith, tt);
  sorted = tt;
  heights = tt;
  top = omega arith;
  counted = refl;
}

module _ (s : Skiplist) (cs : Cells) (v : IsSkiplist s cs) (k : Key) where
  pred-leads :
      (node : Node) × (s.nodes (last_at 0 s.head (before k cs)) ≡ some node)
      × (get_elem? node.forward 0 ≡ some (first 0 (after k cs)))
  pred-leads =
      let deep = lt→ltb 0 s.max_level (omega (arith, v.top)) in
      subst
        (λ b.
          (node : Node) × (s.nodes (last_at 0 (if b then s.head else s.head) (before k cs))
            ≡ some node)
          × (get_elem? node.forward 0 ≡ some (first 0 (after k cs))))
        deep
        (leads_after s.nodes (head_cell s) (head_cell s ∷ before k cs) (after k cs) s.head
          (pre-Chain s cs v k) (rw deep))

  heights_after : All (TallBelow s) (after k cs)
  heights_after =
      All-drop (TallBelow s) (before k cs) (after k cs) (rw (before-append-after k cs) v.heights)

  -- Of a node that is present the heap tells the key.
  match_cons :
      (d : Cell) (ds : Cells)
      → after k cs ≡ d ∷ ds
      → (first 0 (after k cs) ≡ d.ptr)
        × ((d.ptr == null) ≡ false)
        × Holds s.nodes d (λ i. first i ds)
        × (is_match s.nodes d.ptr k ≡ some (key_eq d.key k))
  unfolding is_match
  match_cons d ds e =
      let ch =
        (rw e at
          (Chain-drop s.nodes (head_cell s ∷ before k cs) (after k cs) (pre-Chain s cs v k))) in
      let ne =
        (rw e at
          (Distinct-drop (head_cell s ∷ before k cs) (after k cs) (pre-Distinct s cs v k))).0 in
      let tall = (rw e at heights_after).0 in
      let live : (d.ptr == null) ≡ false = ground arith in
      (rw (e, lt→ltb 0 d.height tall.0), live, ch.0, rw (live, ch.0.at, ch.0.key))

  collected :
      Collected s.curr_top_level k (head_cell s) cs (replicate s.max_level null) (predecessors s k)
  unfolding predecessors
  collected =
      descend-Collected s.nodes k (suc s.length) s.curr_top_level (head_cell s) cs
        (replicate s.max_level null) v.chain v.distinct v.sorted (omega (arith, v.top))
        (rw (length-replicate s.max_level null) (omega (arith, v.top))) (omega (arith, v.counted))

  -- On a valid skiplist of some cells, insertion of a key with a value and a mark returns, whatever
  -- the random draws: it keeps the invariant, and the rows after it are the rows before it with the
  -- new row put in, or in the place of the one with its key.
  pub insert-Inserted :
      (value : List ℕ) (deleted : Bool) (draws : List Bool)
      → Inserted s cs
          (record { key = k; value = value; deleted = deleted })
          (insert s k value deleted draws)
  unfolding insert is_match
  insert-Inserted value deleted draws =
      let u = collected in
      let n = pred-leads in
      let level = generate_random_level s.max_level draws in
      let fits = generate_random_level_bounds s.max_level draws (omega (arith, v.top)) in
      let size = u.size ∙ length-replicate s.max_level null in
      rw (u.returns, u.below 0 (omega (arith, v.top)), n.1, n.2)
        (go (after k cs) refl (first 0 (after k cs)) refl level u.update fits size u.below)
    where
      go :
          (tail : Cells)
          → after k cs ≡ tail
          → (next : Ptr) → first 0 (after k cs) ≡ next
          → (level : ℕ) (update : List Ptr) → (0 < level) × (level ≤ s.max_level)
          → length update ≡ s.max_level
          → ((j : ℕ)
              → j < s.curr_top_level
              → get_elem? update j ≡ some (last_at j s.head (before k cs)))
          → Inserted s cs
              (record { key = k; value = value; deleted = deleted })
              (is_match s.nodes next k >>= λ found.
                if found
                then overwrite s next value deleted
                else insert_node s k value deleted level update)
      go [] e next is level update fits size below =
          let nil : next ≡ null = rw e at (sym is) in
          rw nil (
            insert_node-Inserted s cs v k value deleted level update fits size below (λ d ds x. cc))
      go (d ∷ ds) e next is level update fits size below =
          let m = match_cons d ds e in
          let at : next ≡ d.ptr = sym is ∙ m.0 in
          rw (at, m.3)
            (elim (Bool-cases (key_eq d.key k)) [
              | inl y ↦ rw y (overwrite-Inserted s cs v k d ds e y value deleted)
              | inr n ↦ rw n (
                  insert_node-Inserted s cs v k value deleted level update fits size below
                    (λ d' ds' x.
                      let same : d ∷ ds ≡ d' ∷ ds' = sym e ∙ x in
                      let one : d ≡ d' = cc in rw (← one) n))
            ])

  pub put-Inserted :
      (value : List ℕ) (draws : List Bool)
      → Inserted s cs (record { key = k; value = value; deleted = false }) (put s k value draws)
  unfolding put
  put-Inserted value draws = insert-Inserted value false draws

  pub delete-Inserted :
      (draws : List Bool)
      → Inserted s cs (record { key = k; value = []; deleted = true }) (delete s k draws)
  unfolding delete
  delete-Inserted draws = insert-Inserted [] true draws

  reached :
      search_loop (suc s.length) s.nodes k s.curr_top_level s.head
      ≡ some (last_at 0 s.head (before k cs))
  reached =
      let levels : s.curr_top_level ≡ suc (s.curr_top_level - 1) = omega (arith, v.top) in
      subst
        (λ t. search_loop (suc s.length) s.nodes k t s.head ≡ some (last_at 0 s.head (before k cs)))
        (sym levels)
        (search_loop-last_at s.nodes k (suc s.length) (s.curr_top_level - 1) (head_cell s) cs
          v.chain v.distinct v.sorted (omega (arith, v.top)) (omega (arith, v.counted)))

  -- Behind the key's place there is nothing under the key but a first cell with it.
  find-after :
      (d : Cell) (ds : Cells)
      → after k cs ≡ d ∷ ds
      → find k (rows_of cs) ≡ (if key_eq d.key k then some (d.value, d.deleted) else none)
  unfolding find
  find-after d ds e = elim (Bool-cases (key_eq d.key k)) [
    | inl y ↦ rw (find_split k cs, e, y)
    | inr n ↦
        let sorted : IsSorted (rows_of (d ∷ ds)) =
          rw e at
            (IsSorted-drop (before k cs) (after k cs) (rw (before-append-after k cs) v.sorted)) in
        let behind = after_head k cs d ds e in
        let above : key_lt k d.key ≡ true = ground (arith, key_eq_of_not_lt d.key k) in
        let none_left =
          find-Above k (rows_of ds) (Above-trans k d.key (rows_of ds) above sorted.0) in
        rw (find_split k cs, e, n, none_left)
  ]

  -- On a valid skiplist, Lookup returns, and gives what is stored under the key in the rows, or
  -- nothing.
  pub lookup-find : lookup s k ≡ some (find k (rows_of cs))
  unfolding lookup search_node is_match
  lookup-find =
      let n = pred-leads in
      rw (reached, n.1, n.2) (go (after k cs) refl (first 0 (after k cs)) refl)
    where
      go :
          (tail : Cells)
          → after k cs ≡ tail
          → (next : Ptr) → first 0 (after k cs) ≡ next
          → ((is_match s.nodes next k >>= λ found. some (if found then next else null)) >>= λ p.
              if p == null
              then some none
              else (s.nodes p >>= λ n. some (some (n.value, n.deleted))))
            ≡ some (find k (rows_of cs))
      go [] e next is =
          let nil : next ≡ null = rw e at (sym is) in
          rw (nil, find_split k cs, e) (unfold find in refl)
      go (d ∷ ds) e next is =
          let m = match_cons d ds e in
          let at : next ≡ d.ptr = sym is ∙ m.0 in
          rw (at, m.3, find-after d ds e)
            (elim (Bool-cases (key_eq d.key k)) [
              | inl y ↦ rw (y, m.1, m.2.at, m.2.value, m.2.deleted)
              | inr n ↦ rw n
            ])
