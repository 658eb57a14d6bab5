-- ===== src/Compactor/Merge.antt =====
-- The rounds of the merge: what is left after each, and the order of the output.
use mathlib.Core.Path.{subst}
use wisp_db.Base.{
  ℕ, zero, suc, ◌+◌, ◌≡◌, refl, sym, Bool, true, false, ◌&&◌, inl, inr, Option, some, List, [], ◌∷◌,
  arith, if◌then◌else◌, Bool-cases, All, length,
}
use wisp_db.Key.{Key, key_lt, key_eq}
use wisp_db.Key.Order.{key_eq→eq}
use wisp_db.SsTable.Entry.{Entry, entry_key}
use wisp_db.Compactor.{HeapItem, less, pop, push_next, is_last, merge_loop, total}
use wisp_db.Compactor.Heap.{key_of, pop-All, pop-least}
use wisp_db.Compactor.Newest.{DistinctGens, IsItem, not_below, above_of}
use wisp_db.SsTable.Sorted.{IsAscendingEntries, AllAbove, AllAbove-trans}

total-pop :
    (x : HeapItem) (xs : List HeapItem) → total ((pop x xs).0 ∷ (pop x xs).1) ≡ total (x ∷ xs)
unfolding total pop
total-pop x [] = refl
total-pop x (y ∷ ys) = elim (Bool-cases (less (pop y ys).0 x)) [
  | inl e ↦ let r = total-pop y ys in rw e (omega (arith, r))
  | inr e ↦ rw e refl
]

total-push_next :
    (g : ℕ) (es : List Entry) (js : List HeapItem)
    → total (push_next g es js) ≡ length es + total js
unfolding total push_next
total-push_next g [] js = omega arith
total-push_next g (e ∷ es) js = refl

-- No item stands below the key.
abbrev pub NoneBelow : Key → List HeapItem → Type 0
NoneBelow k js = All (λ j. key_lt (key_of j) k ≡ false) js

not_below_trans : (a b c : Key) → key_lt b a ≡ false → key_lt c b ≡ false → key_lt c a ≡ false
unfolding key_lt
not_below_trans a b c h k = ground arith

not_below_of_lt : (a b : Key) → key_lt a b ≡ true → key_lt b a ≡ false
unfolding key_lt
not_below_of_lt a b h = ground arith

-- What the round that pops `p` pushes back keeps the items in order, and above it.
module _ (p : HeapItem) (js : List HeapItem) where
  push_next-All {ℓ} :
      (P : HeapItem → Type ℓ)
      → ((e : Entry) (es : List Entry)
          → p.rest ≡ e ∷ es
          → P (record { entry = e; gen = p.gen; rest = es }))
      → All P js
      → All P (push_next p.gen p.rest js)
  unfolding push_next
  push_next-All P top h = go p.rest refl
    where
      go : (r : List Entry) → p.rest ≡ r → All P (push_next p.gen r js)
      go [] e = h
      go (x ∷ xs) e = (top x xs e, h)

  pub push_next-IsItem : IsItem p → All IsItem js → All IsItem (push_next p.gen p.rest js)
  unfolding IsAscendingEntries
  push_next-IsItem s h = push_next-All IsItem (λ e es same. subst IsAscendingEntries same s.1) h

  pub push_next-NoneBelow :
      IsItem p → All (λ j. less j p ≡ false) js → NoneBelow (key_of p) (push_next p.gen p.rest js)
  unfolding IsAscendingEntries
  push_next-NoneBelow s h =
      push_next-All (λ j. key_lt (key_of j) (key_of p) ≡ false)
        (λ e es same.
          not_below_of_lt (key_of p) (entry_key e) (subst (AllAbove (key_of p)) same s.0).0)
        (go js h)
    where
      go : (ks : List HeapItem) → All (λ j. less j p ≡ false) ks → NoneBelow (key_of p) ks
      go [] h = tt
      go (k ∷ ks) h = (not_below p k h.0, go ks h.1)

  pub push_next-DistinctGens : DistinctGens (p ∷ js) → DistinctGens (push_next p.gen p.rest js)
  unfolding DistinctGens push_next
  push_next-DistinctGens h = go p.rest
    where
      go : (r : List Entry) → DistinctGens (push_next p.gen r js)
      go [] = h.1
      go (x ∷ xs) = h

key_eq_symm : (a b : Key) (r : Bool) → key_eq a b ≡ r → key_eq b a ≡ r
unfolding key_eq
key_eq_symm a b true h = ground arith
key_eq_symm a b false h = ground arith

-- The items after a round.
unfoldable pub left : HeapItem → List HeapItem → List HeapItem
left x xs = push_next (pop x xs).0.gen (pop x xs).0.rest (pop x xs).1

pub total-left : (x : HeapItem) (xs : List HeapItem) → total (x ∷ xs) ≡ suc (total (left x xs))
unfolding left
total-left x xs =
    let p = (pop x xs).0 in
    let js = (pop x xs).1 in
    let a = total-pop x xs in
    let b = total-push_next p.gen p.rest js in
    let c : total (p ∷ js) ≡ suc (length p.rest) + total js = unfold total in refl in
    omega (arith, a, b, c)

pub merge_loop-AllAbove :
    (fuel : ℕ) (m : Bool) (l : Key) (items : List HeapItem)
    → All IsItem items
    → NoneBelow l items
    → AllAbove l (merge_loop fuel m (some l) items)
unfolding merge_loop left is_last
merge_loop-AllAbove zero m l items s n = tt
merge_loop-AllAbove (suc fuel) m l [] s n = tt
merge_loop-AllAbove (suc fuel) m l (x ∷ xs) s n =
    let p = (pop x xs).0 in
    let items = pop-All IsItem x xs s.0 s.1 in
    let below = pop-All (λ j. key_lt (key_of j) l ≡ false) x xs n.0 n.1 in
    let least = push_next-NoneBelow p (pop x xs).1 items.0 (pop-least x xs) in
    let left_items = push_next-IsItem p (pop x xs).1 items.0 items.1 in
    go p (left x xs) below.0 least (λ k h. merge_loop-AllAbove fuel m k (left x xs) left_items h)
  where
    go :
        (p : HeapItem) (rest : List HeapItem)
        → key_lt (key_of p) l ≡ false
        → NoneBelow (key_of p) rest
        → ((k : Key) → NoneBelow k rest → AllAbove k (merge_loop fuel m (some k) rest))
        → AllAbove l (
            if key_eq l (key_of p)
            then merge_loop fuel m (some l) rest
            else if p.entry.deleted && m
            then merge_loop fuel m (some (key_of p)) rest
            else p.entry ∷ merge_loop fuel m (some (key_of p)) rest)
    go p rest b h ih = elim (Bool-cases (key_eq l (key_of p))) [
      | inl e ↦ rw e (ih l (subst (λ k. NoneBelow k rest) (sym (key_eq→eq l (key_of p) e)) h))
      | inr e ↦
          let above = above_of l (key_of p) b (key_eq_symm l (key_of p) false e) in
          let behind =
            AllAbove-trans l (key_of p) (merge_loop fuel m (some (key_of p)) rest) above
              (ih (key_of p) h) in
          elim (Bool-cases (p.entry.deleted && m)) [
            | inl d ↦ rw (e, d) behind
            | inr d ↦ rw (e, d) (above, behind)
          ]
    ]

pub merge_loop-IsAscendingEntries :
    (fuel : ℕ) (m : Bool) (last : Option Key) (items : List HeapItem)
    → All IsItem items
    → IsAscendingEntries (merge_loop fuel m last items)
unfolding merge_loop left IsAscendingEntries
merge_loop-IsAscendingEntries zero m last items s = tt
merge_loop-IsAscendingEntries (suc fuel) m last [] s = tt
merge_loop-IsAscendingEntries (suc fuel) m last (x ∷ xs) s =
    let p = (pop x xs).0 in
    let items = pop-All IsItem x xs s.0 s.1 in
    let left_items = push_next-IsItem p (pop x xs).1 items.0 items.1 in
    let least = push_next-NoneBelow p (pop x xs).1 items.0 (pop-least x xs) in
    let skipped = merge_loop-IsAscendingEntries fuel m last (left x xs) left_items in
    let behind = merge_loop-IsAscendingEntries fuel m (some (key_of p)) (left x xs) left_items in
    let above = merge_loop-AllAbove fuel m (key_of p) (left x xs) left_items least in
    elim (Bool-cases (is_last last (key_of p))) [
      | inl l ↦ rw l skipped
      | inr l ↦ elim (Bool-cases (p.entry.deleted && m)) [
        | inl d ↦ rw (l, d) behind
        | inr d ↦ rw (l, d) (above, behind)
      ]
    ]
