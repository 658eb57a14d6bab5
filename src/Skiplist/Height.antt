-- ===== src/Skiplist/Height.antt =====
-- The height of a new node, and the array of predecessors on all of its levels.
use wisp_db.Base.{
  ℕ, zero, suc, ◌+◌, ◌-◌, ◌≤◌, ◌<◌, ◌≡◌, refl, inl, inr, Bool, true, false, ◌&&◌, not, some, List,
  [], ◌∷◌, arith, ltb, ltb→lt, ltb→le, if◌then◌else◌, Bool-cases, get_elem?, length, replicate,
  get_elem?-set, length-set, set,
}
use wisp_db.Key.{Key}
use wisp_db.Skiplist.{Ptr, null, Skiplist, random_loop, generate_random_level, raise_update}
use wisp_db.Skiplist.Cells.{
  Cells, last_at, any_above, before, after, IsSkiplist, TallBelow, before-append-after,
  last_at_settled,
}
use wisp_db.Skiplist.Splits.{All-take, All-mono, any_above_none}

random_loop_bounds :
    (m : ℕ) (draws : List Bool) (level : ℕ)
    → level ≤ m
    → (level ≤ random_loop m draws level) × (random_loop m draws level ≤ m)
unfolding random_loop
random_loop_bounds m [] level h = omega arith
random_loop_bounds m (b ∷ draws) level h = elim (Bool-cases (b && ltb level m)) [
  | inl e ↦ let r = random_loop_bounds m draws (level + 1) (ground arith) in rw e (omega (arith, r))
  | inr e ↦ rw e (omega arith)
]

-- With a positive maximum, the height of a new node is at least 1 and at most the maximum, whatever
-- the draws.
pub generate_random_level_bounds :
    (m : ℕ) (draws : List Bool)
    → 0 < m
    → (0 < generate_random_level m draws) × (generate_random_level m draws ≤ m)
unfolding generate_random_level
generate_random_level_bounds m draws h = random_loop_bounds m draws 1 h

-- What filling the array up to the new level gives.
raise_update_lem :
    (count from : ℕ) (p : Ptr) (update : List Ptr) (j : ℕ)
    → from + count ≤ length update
    → get_elem? (raise_update count from p update) j
      ≡ (if not (ltb j from) && ltb j (from + count) then some p else get_elem? update j)
unfolding raise_update
raise_update_lem zero from p update j room = ground arith
raise_update_lem (suc count) from p update j room = ground (
  arith,
  length-set update from p,
  raise_update_lem count (suc from) p (set update from p) j,
  get_elem?-set update from j p,
)

pub get_elem?-replicate : (n i : ℕ) → i < n → get_elem? (replicate n null) i ≡ some null
get_elem?-replicate zero i h = absurd (omega arith)
get_elem?-replicate (suc n) zero h = refl
get_elem?-replicate (suc n) (suc i) h = get_elem?-replicate n i (omega arith)

-- The array that the linking loop uses holds the predecessor on every level of the new node.
module _ (s : Skiplist) (cs : Cells) (v : IsSkiplist s cs) (k : Key) (level : ℕ)
    (fits : level ≤ s.max_level) (update : List Ptr) (size : length update ≡ s.max_level)
    (below : (j : ℕ)
      → j < s.curr_top_level
      → get_elem? update j ≡ some (last_at j s.head (before k cs))) where
  top_settled : (j : ℕ) → s.curr_top_level ≤ j → any_above j (before k cs) ≡ false
  top_settled j h = any_above_none j (before k cs) (
      All-mono (TallBelow s) _ (before k cs) (λ c x. omega arith)
        (All-take (TallBelow s) (before k cs) (after k cs)
          (rw (before-append-after k cs) v.heights)))

  pub raised :
      (j : ℕ)
      → j < level
      → get_elem?
          (if ltb s.curr_top_level level
            then raise_update (level - s.curr_top_level) s.curr_top_level s.head update
            else update)
          j
        ≡ some (last_at j s.head (before k cs))
  raised j h = elim (Bool-cases (ltb s.curr_top_level level)) [
    | inr e ↦ rw e (below j (omega (arith, ltb→le s.curr_top_level level e)))
    | inl e ↦
        let lem =
          raise_update_lem (level - s.curr_top_level) s.curr_top_level s.head update j
            (omega (arith, ltb→lt s.curr_top_level level e)) in
        rw (e, lem)
          (elim (Bool-cases (ltb j s.curr_top_level)) [
            | inl low ↦ rw low (below j (ltb→lt j s.curr_top_level low))
            | inr up ↦
                let settled =
                  last_at_settled j s.head (before k cs)
                    (top_settled j (ltb→le j s.curr_top_level up)) in
                let inside : ltb j (s.curr_top_level + (level - s.curr_top_level)) ≡ true =
                  ground arith in
                rw (up, inside, settled)
          ])
  ]
