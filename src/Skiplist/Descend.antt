-- ===== src/Skiplist/Descend.antt =====
-- `insert` collects, for each level, the last node before the key; `Search` ends at the last of all.
use wisp_db.Base.{
  ℕ, zero, suc, ◌≤◌, ◌<◌, ◌≡◌, refl, sym, ap, inl, inr, ◌∙◌, some, List, [], ◌∷◌, arith, ltb,
  Bool-cases, get_elem?, length, Option, set, length-set, get_elem?-set_self, get_elem?-set_ne,
  ltb→lt, ltb→le,
}
use wisp_db.Key.{Key}
use wisp_db.Rows.{IsSorted}
use wisp_db.Skiplist.{Ptr, Heap, descend, search_loop}
use wisp_db.Skiplist.Cells.{Cell, Cells, rows_of, last_at, before, Chain, Distinct, last_at_settled}
use wisp_db.Skiplist.Walk.{Reached, walk-Reached}

-- Below level `i` the array holds the last nodes before the key, and from there on what it had.
pub record Collected (i : ℕ) (k : Key) (c : Cell) (cs : Cells) (old : List Ptr)
    (result : Option (List Ptr)) : Type 0 where
  pub update : List Ptr
  pub returns : result ≡ some update
  pub below : (j : ℕ) → j < i → get_elem? update j ≡ some (last_at j c.ptr (before k cs))
  pub above : (j : ℕ) → i ≤ j → get_elem? update j ≡ get_elem? old j
  pub size : length update ≡ length old

-- One level's walk, and the levels below it from where that walk stopped.
Collected-next :
    (h : Heap) (k : Key) (i : ℕ) (c : Cell) (cs : Cells) (old : List Ptr) {walked : Option Ptr}
    {result : Option (List Ptr)} (r : Reached h i k c cs walked)
    → i < length old
    → Collected i k r.cell r.rest (set old i r.cell.ptr) result
    → Collected (suc i) k c cs old result
Collected-next h k i c cs old r room low = record {
  update = low.update;
  returns = low.returns;
  below = λ j p. elim (Bool-cases (ltb j i)) [
    | inl e ↦ low.below j (ltb→lt j i e) ∙ ap some (r.same j (omega arith))
    | inr e ↦
        let last : j ≡ i = omega (arith, ltb→le j i e) in
        let settled = last_at_settled i r.cell.ptr (before k r.rest) r.settled in
        rw last (
          low.above i (omega arith)
          ∙ get_elem?-set_self old i r.cell.ptr room
          ∙ ap some (sym settled ∙ r.same i (omega arith)))
  ];
  above = λ j p. low.above j (omega arith) ∙ get_elem?-set_ne old i j r.cell.ptr (omega arith);
  size = low.size ∙ length-set old i r.cell.ptr;
}

module _ (h : Heap) (k : Key) (fuel : ℕ) where
  pub descend-Collected :
      (i : ℕ) (c : Cell) (cs : Cells) (old : List Ptr)
      → Chain h (c ∷ cs)
      → Distinct (c ∷ cs)
      → IsSorted (rows_of cs)
      → i ≤ c.height
      → i ≤ length old
      → length cs < fuel
      → Collected i k c cs old (descend fuel h k i c.ptr old)
  unfolding descend
  descend-Collected zero c cs old ch di so high room f = record {
    update = old;
    returns = refl;
    below = λ j p. absurd (omega arith);
    above = λ j p. refl;
    size = refl;
  }
  descend-Collected (suc i) c cs old ch di so high room f =
      let r = walk-Reached h i k cs [] c fuel ch di so high refl tt f in
      let old' = set old i r.cell.ptr in
      rw r.stops (
        Collected-next h k i c cs old r room (
          descend-Collected i r.cell r.rest old' r.chain r.distinct r.sorted (omega (arith, r.high))
            (rw (length-set old i r.cell.ptr) (omega arith)) (omega (arith, r.shorter))))

  pub search_loop-last_at :
      (i : ℕ) (c : Cell) (cs : Cells)
      → Chain h (c ∷ cs)
      → Distinct (c ∷ cs)
      → IsSorted (rows_of cs)
      → suc i ≤ c.height
      → length cs < fuel
      → search_loop fuel h k (suc i) c.ptr ≡ some (last_at 0 c.ptr (before k cs))
  unfolding search_loop
  search_loop-last_at zero c cs ch di so high f =
      let r = walk-Reached h 0 k cs [] c fuel ch di so high refl tt f in
      rw r.stops (
        ap some
          (sym (last_at_settled 0 r.cell.ptr (before k r.rest) r.settled) ∙ r.same 0 (omega arith)))
  search_loop-last_at (suc i) c cs ch di so high f =
      let r = walk-Reached h (suc i) k cs [] c fuel ch di so high refl tt f in
      rw r.stops (
        search_loop-last_at i r.cell r.rest r.chain r.distinct r.sorted (omega (arith, r.high))
          (omega (arith, r.shorter))
        ∙ ap some (r.same 0 (omega arith)))
