-- ===== src/Compactor/Newest.antt =====
-- The newest entry of a key among the tables, and what a pop of the heap leaves of it.
use mathlib.Core.Path.{subst}
use mathlib.Core.Bool.{true≢false}
use wisp_db.Base.{
  ℕ, ◌≤◌, ◌≡◌, ◌≢◌, refl, sym, ap, ◌∙◌, Bool, true, false, ◌&&◌, ◌||◌, inl, inr, Option, none, some,
  List, [], ◌∷◌, arith, ltb, if◌then◌else◌, Bool-cases, All, ltb→le,
}
use wisp_db.Key.{Key, key_lt, key_eq}
use wisp_db.Key.Order.{key_eq_refl, key_eq_of_not_lt}
use wisp_db.SsTable.Sorted.{IsAscendingEntries, AllAbove-trans, find_entry-AllAbove}
use wisp_db.SsTable.Entry.{Entry, find_entry, find_entry-cons}
use wisp_db.Compactor.{HeapItem, less, pop, push_next}
use wisp_db.Compactor.Heap.{key_of, less_of_keys, pop-All}

-- A generation with a value and a mark.
abbrev pub Hit : Type 0
Hit = Option (ℕ × (List ℕ × Bool))

unfoldable pub hit : ℕ → Option (List ℕ × Bool) → Hit
hit g none = none
hit g (some v) = some (g, v)

-- Of two, the one of the larger generation.
unfoldable pub better : Hit → Hit → Hit
better none o = o
better (some a) none = some a
better (some a) (some b) = if ltb a.0 b.0 then some b else some a

better_swap :
    (g h : ℕ) (o p : Option (List ℕ × Bool)) (c : Hit)
    → g ≢ h
    → better (hit g o) (better (hit h p) c) ≡ better (hit h p) (better (hit g o) c)
unfolding better hit
better_swap g h none p c ne = refl
better_swap g h (some v) none c ne = refl
better_swap g h (some v) (some w) none ne = ground arith
better_swap g h (some v) (some w) (some c) ne = ground arith

unfoldable pub newest : Key → List HeapItem → Hit
newest k [] = none
newest k (x ∷ xs) = better (hit x.gen (find_entry k (x.entry ∷ x.rest))) (newest k xs)

unfoldable pub DistinctGens : List HeapItem → Type 0
DistinctGens [] = Unit
DistinctGens (x ∷ xs) = All (λ j. x.gen ≢ j.gen) xs × DistinctGens xs

pub pop-DistinctGens :
    (x : HeapItem) (xs : List HeapItem)
    → DistinctGens (x ∷ xs)
    → DistinctGens ((pop x xs).0 ∷ (pop x xs).1)
unfolding pop DistinctGens
pop-DistinctGens x [] h = h
pop-DistinctGens x (y ∷ ys) h = elim (Bool-cases (less (pop y ys).0 x)) [
  | inl e ↦
      let r = pop-DistinctGens y ys h.1 in
      let a = pop-All (λ j. x.gen ≢ j.gen) y ys h.0.0 h.0.1 in
      rw e ((λ s. a.0 (sym s), r.0), (a.1, r.1))
  | inr e ↦ rw e h
]

pub newest-pop :
    (k : Key) (x : HeapItem) (xs : List HeapItem)
    → DistinctGens (x ∷ xs)
    → newest k ((pop x xs).0 ∷ (pop x xs).1) ≡ newest k (x ∷ xs)
unfolding pop newest DistinctGens
newest-pop k x [] h = refl
newest-pop k x (y ∷ ys) h = elim (Bool-cases (less (pop y ys).0 x)) [
  | inl e ↦
      let r = newest-pop k y ys h.1 in
      let a = pop-All (λ j. x.gen ≢ j.gen) y ys h.0.0 h.0.1 in
      let p = (pop y ys).0 in
      rw e (
        better_swap p.gen x.gen (find_entry k (p.entry ∷ p.rest)) (find_entry k (x.entry ∷ x.rest))
          (newest k (pop y ys).1) (λ s. a.0 (sym s))
        ∙ ap (better (hit x.gen (find_entry k (x.entry ∷ x.rest)))) r)
  | inr e ↦ rw e refl
]

abbrev pub IsItem : HeapItem → Type 0
IsItem x = IsAscendingEntries (x.entry ∷ x.rest)

-- A hit of at most this generation, if any.
abbrev AtMost : ℕ → Hit → Type 0
AtMost g none = Unit {0}
AtMost g (some v) = v.0 ≤ g

better-AtMost : (g : ℕ) (a b : Hit) → AtMost g a → AtMost g b → AtMost g (better a b)
unfolding better
better-AtMost g none b h k = k
better-AtMost g (some a) none h k = h
better-AtMost g (some a) (some b) h k = elim (Bool-cases (ltb a.0 b.0)) [
  | inl e ↦ rw e k
  | inr e ↦ rw e h
]

better_kept :
    (g : ℕ) (v : List ℕ × Bool) (o : Hit) → AtMost g o → better (some (g, v)) o ≡ some (g, v)
unfolding better
better_kept g v none h = refl
better_kept g v (some b) h = ground arith

-- What the order says of an item that is not less.
older : (p j : HeapItem) → less j p ≡ false → key_eq (key_of j) (key_of p) ≡ true → j.gen ≤ p.gen
older p j least same = ltb→le p.gen j.gen (
    both (key_lt (key_of j) (key_of p)) (key_eq (key_of j) (key_of p)) (ltb p.gen j.gen) same
      (sym (less_of_keys j p) ∙ least))
  where
    both : (a b c : Bool) → b ≡ true → a || (b && c) ≡ false → c ≡ false
    both true b c s h = absurd (true≢false h)
    both false true c s h = h
    both false false c s h = absurd (true≢false (sym s))

pub not_below : (p j : HeapItem) → less j p ≡ false → key_lt (key_of j) (key_of p) ≡ false
not_below p j least = both (key_lt (key_of j) (key_of p)) _ (sym (less_of_keys j p) ∙ least)
  where
    both : (a b : Bool) → a || b ≡ false → a ≡ false
    both true b h = absurd (true≢false h)
    both false b h = refl

pub above_of : (a b : Key) → key_lt b a ≡ false → key_eq b a ≡ false → key_lt a b ≡ true
above_of a b h ne = elim (Bool-cases (key_lt a b)) [
  | inl e ↦ e
  | inr e ↦ absurd (true≢false (sym (key_eq_of_not_lt b a h e) ∙ ne))
]

hit-AtMost :
    (p j : HeapItem)
    → less j p ≡ false
    → IsItem j
    → AtMost p.gen (hit j.gen (find_entry (key_of p) (j.entry ∷ j.rest)))
unfolding IsAscendingEntries
hit-AtMost p j least sorted = elim (Bool-cases (key_eq (key_of j) (key_of p))) [
  | inl e ↦
      let same : find_entry (key_of p) (j.entry ∷ j.rest) ≡ some (j.entry.value, j.entry.deleted) =
        rw (find_entry-cons (key_of p) j.entry j.rest, e) refl in
      subst (λ o. AtMost p.gen (hit j.gen o)) (sym same) (unfold hit in older p j least e)
  | inr e ↦
      let above = above_of (key_of p) (key_of j) (not_below p j least) e in
      let none_there : find_entry (key_of p) (j.entry ∷ j.rest) ≡ none =
        find_entry-AllAbove (key_of p) (j.entry ∷ j.rest)
          (above, AllAbove-trans (key_of p) (key_of j) j.rest above sorted.0) in
      subst (λ o. AtMost p.gen (hit j.gen o)) (sym none_there) (unfold hit in tt)
]

newest-AtMost :
    (p : HeapItem) (js : List HeapItem)
    → All (λ j. less j p ≡ false) js
    → All IsItem js
    → AtMost p.gen (newest (key_of p) js)
unfolding newest
newest-AtMost p [] h s = tt
newest-AtMost p (j ∷ js) h s =
    better-AtMost p.gen (hit j.gen (find_entry (key_of p) (j.entry ∷ j.rest)))
      (newest (key_of p) js) (hit-AtMost p j h.0 s.0) (newest-AtMost p js h.1 s.1)

-- The popped item has the newest entry of its key.
pub newest_popped :
    (p : HeapItem) (js : List HeapItem)
    → All (λ j. less j p ≡ false) js
    → All IsItem js
    → newest (key_of p) (p ∷ js) ≡ some (p.gen, (p.entry.value, p.entry.deleted))
unfolding newest
newest_popped p js h s =
    rw (find_entry-cons (key_of p) p.entry p.rest, key_eq_refl (key_of p))
      (unfold hit in
        better_kept p.gen (p.entry.value, p.entry.deleted) (newest (key_of p) js)
          (newest-AtMost p js h s))

-- Other keys are found in what the pop leaves.
pub newest-push_next :
    (k : Key) (p : HeapItem) (js : List HeapItem)
    → key_eq (key_of p) k ≡ false
    → newest k (push_next p.gen p.rest js) ≡ newest k (p ∷ js)
unfolding newest push_next find_entry hit better
newest-push_next k p js ne = go p.rest ∙ ap (λ o. better (hit p.gen o) (newest k js)) (sym behind)
  where
    behind : find_entry k (p.entry ∷ p.rest) ≡ find_entry k p.rest
    behind = rw (find_entry-cons k p.entry p.rest, ne) refl

    go :
        (es : List Entry)
        → newest k (push_next p.gen es js) ≡ better (hit p.gen (find_entry k es)) (newest k js)
    go [] = refl
    go (e ∷ es) = refl
