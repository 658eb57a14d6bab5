-- ===== src/Compactor/Compact.antt =====
-- The output of a compaction: its entries and their order.
use wisp_db.Base.{
  ℕ, zero, suc, ◌≤◌, ◌≡◌, ◌≢◌, refl, sym, ap, ◌∙◌, Bool, true, false, ◌&&◌, inl, inr, Option, none,
  some, List, [], ◌∷◌, arith, if◌then◌else◌, Bool-cases, All,
}
use wisp_db.Key.{Key, key_eq}
use wisp_db.Key.Order.{key_eq→eq}
use wisp_db.SsTable.Entry.{Entry, find_entry, find_entry-cons}
use wisp_db.Compactor.{HeapItem, pop, push_next, is_last, merge_loop, fill, total, compact_entries}
use wisp_db.Compactor.Heap.{key_of, pop-All, pop-least}
use wisp_db.Compactor.Merge.{
  total-left, push_next-IsItem, push_next-DistinctGens, push_next-NoneBelow, left,
  merge_loop-AllAbove, merge_loop-IsAscendingEntries,
}
use wisp_db.Compactor.Newest.{
  Hit, hit, better, newest, DistinctGens, pop-DistinctGens, newest-pop, IsItem, newest_popped,
  newest-push_next,
}
use wisp_db.SsTable.Sorted.{IsAscendingEntries, find_entry-AllAbove}

-- What a merge shows of the newest entry of a key: a major one drops the tombstones.
unfoldable pub visible : Bool → Hit → Option (List ℕ × Bool)
visible m none = none
visible m (some a) = if a.1.1 && m then none else some a.1

-- A round, by what the rest of the merge shows.
round :
    (k : Key) (m : Bool) (last : Option Key) (p : HeapItem) (o : Hit) (skipped behind : List Entry)
    → is_last last k ≡ false
    → (key_eq (key_of p) k ≡ true
        → (o ≡ some (p.gen, (p.entry.value, p.entry.deleted))) × (find_entry k behind ≡ none))
    → (key_eq (key_of p) k ≡ false
        → (find_entry k skipped ≡ visible m o) × (find_entry k behind ≡ visible m o))
    → find_entry k (
        if is_last last (key_of p)
        then skipped
        else if p.entry.deleted && m
        then behind
        else p.entry ∷ behind)
      ≡ visible m o
unfolding visible
round k m last p o skipped behind fresh same other = elim (Bool-cases (key_eq (key_of p) k)) [
  | inl e ↦
      let not_last : is_last last (key_of p) ≡ false =
        ap (is_last last) (key_eq→eq (key_of p) k e) ∙ fresh in
      let newest_o = (same e).0 in
      elim (Bool-cases (p.entry.deleted && m)) [
        | inl d ↦ rw (not_last, d, newest_o, (same e).1) (rw d refl)
        | inr d ↦ rw (not_last, d, newest_o, find_entry-cons k p.entry behind, e) (rw d refl)
      ]
  | inr e ↦ elim (Bool-cases (is_last last (key_of p))) [
    | inl l ↦ rw l (other e).0
    | inr l ↦ elim (Bool-cases (p.entry.deleted && m)) [
      | inl d ↦ rw (l, d) (other e).1
      | inr d ↦ rw (l, d, find_entry-cons k p.entry behind, e) (other e).1
    ]
  ]
]

merge_loop-newest :
    (k : Key) (fuel : ℕ) (m : Bool) (last : Option Key) (items : List HeapItem)
    → All IsItem items
    → DistinctGens items
    → total items ≤ fuel
    → is_last last k ≡ false
    → find_entry k (merge_loop fuel m last items) ≡ visible m (newest k items)
unfolding merge_loop left
merge_loop-newest k zero m last [] s g enough fresh = unfold newest visible find_entry in refl
merge_loop-newest k zero m last (x ∷ xs) s g enough fresh =
    let one_less = total-left x xs in absurd (omega (arith, enough, one_less))
merge_loop-newest k (suc fuel) m last [] s g enough fresh = unfold newest visible find_entry in refl
merge_loop-newest k (suc fuel) m last (x ∷ xs) s g enough fresh =
    let p = (pop x xs).0 in
    let js = (pop x xs).1 in
    let items = pop-All IsItem x xs s.0 s.1 in
    let gens = pop-DistinctGens x xs g in
    let left_items = push_next-IsItem p js items.0 items.1 in
    let left_gens = push_next-DistinctGens p js gens in
    let least = push_next-NoneBelow p js items.0 (pop-least x xs) in
    let one_less = total-left x xs in
    let fewer : total (left x xs) ≤ fuel = omega (arith, enough, one_less) in
    let all_found = newest-pop k x xs g in
    round k m last p (newest k (x ∷ xs)) (merge_loop fuel m last (left x xs))
      (merge_loop fuel m (some (key_of p)) (left x xs)) fresh
      (λ e.
        let here : key_of p ≡ k = key_eq→eq (key_of p) k e in
        (
          sym all_found
              ∙ ap (λ q. newest q (p ∷ js)) (sym here)
              ∙ newest_popped p js (pop-least x xs) items.1,
          ap (λ q. find_entry q (merge_loop fuel m (some (key_of p)) (left x xs))) (sym here)
              ∙ find_entry-AllAbove (key_of p) _
                  (merge_loop-AllAbove fuel m (key_of p) (left x xs) left_items least),
        ))
      (λ e.
        let same = ap (visible m) (newest-push_next k p js e ∙ all_found) in
        (
          merge_loop-newest k fuel m last (left x xs) left_items left_gens fewer fresh ∙ same,
          merge_loop-newest k fuel m (some (key_of p)) (left x xs) left_items left_gens fewer
                (unfold is_last in e)
              ∙ same,
        ))

-- The tables' generations are all different.
unfoldable pub DistinctTables : List (ℕ × List Entry) → Type 0
DistinctTables [] = Unit
DistinctTables (t ∷ ts) = All (λ u. t.0 ≢ u.0) ts × DistinctTables ts

-- The entry of a key in the newest of the tables that have one.
unfoldable pub newest_in : Key → List (ℕ × List Entry) → Hit
newest_in k [] = none
newest_in k ((gen, entries) ∷ tables) = better (hit gen (find_entry k entries)) (newest_in k tables)

newest-fill : (k : Key) (ts : List (ℕ × List Entry)) → newest k (fill ts) ≡ newest_in k ts
unfolding newest newest_in fill push_next find_entry hit better
newest-fill k [] = refl
newest-fill k ((gen, []) ∷ ts) = newest-fill k ts
newest-fill k ((gen, e ∷ es) ∷ ts) =
    ap (better (hit gen (find_entry k (e ∷ es)))) (newest-fill k ts)

pub fill-IsItem :
    (ts : List (ℕ × List Entry)) → All (λ t. IsAscendingEntries t.1) ts → All IsItem (fill ts)
unfolding fill push_next
fill-IsItem [] h = tt
fill-IsItem ((gen, []) ∷ ts) h = fill-IsItem ts h.1
fill-IsItem ((gen, e ∷ es) ∷ ts) h = (h.0, fill-IsItem ts h.1)

fill-All {ℓ} :
    (P : ℕ → Type ℓ) (ts : List (ℕ × List Entry))
    → All (λ t. P t.0) ts
    → All (λ j. P j.gen) (fill ts)
unfolding fill push_next
fill-All P [] h = tt
fill-All P ((gen, []) ∷ ts) h = fill-All P ts h.1
fill-All P ((gen, e ∷ es) ∷ ts) h = (h.0, fill-All P ts h.1)

fill-DistinctGens : (ts : List (ℕ × List Entry)) → DistinctTables ts → DistinctGens (fill ts)
unfolding fill push_next DistinctGens DistinctTables
fill-DistinctGens [] h = tt
fill-DistinctGens ((gen, []) ∷ ts) h = fill-DistinctGens ts h.1
fill-DistinctGens ((gen, e ∷ es) ∷ ts) h =
    (fill-All (λ g. gen ≢ g) ts h.0, fill-DistinctGens ts h.1)

-- Compaction of tables of different generations, each in strictly ascending order of its keys: its
-- output has, under every key, the entry of the newest table that has one, and nothing where none
-- has one, or where a major compaction meets a tombstone.
pub compact_entries-newest :
    (k : Key) (is_major : Bool) (tables : List (ℕ × List Entry))
    → All (λ t. IsAscendingEntries t.1) tables
    → DistinctTables tables
    → find_entry k (compact_entries is_major tables) ≡ visible is_major (newest_in k tables)
unfolding compact_entries
compact_entries-newest k is_major tables sorted distinct =
    merge_loop-newest k (total (fill tables)) is_major none (fill tables)
      (fill-IsItem tables sorted) (fill-DistinctGens tables distinct) (omega arith)
      (unfold is_last in refl)
    ∙ ap (visible is_major) (newest-fill k tables)

-- Compaction of tables that are each in strictly ascending order of their keys gives entries in
-- strictly ascending order.
pub compact_entries-IsAscendingEntries :
    (is_major : Bool) (tables : List (ℕ × List Entry))
    → All (λ t. IsAscendingEntries t.1) tables
    → IsAscendingEntries (compact_entries is_major tables)
unfolding compact_entries
compact_entries-IsAscendingEntries is_major tables sorted =
    merge_loop-IsAscendingEntries (total (fill tables)) is_major none (fill tables)
      (fill-IsItem tables sorted)
