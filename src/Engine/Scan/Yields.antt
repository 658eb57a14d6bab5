-- ===== src/Engine/Scan/Yields.antt =====
-- The calls of the scan's Next, against the rounds of its loop.
use wisp_db.Base.{
  ℕ, zero, suc, ◌+◌, ◌≤◌, ◌≡◌, refl, sym, ap, ◌∙◌, Bool, true, false, ◌||◌, inl, inr, Option, some,
  List, [], ◌∷◌, map, arith, if◌then◌else◌, Bool-cases, length,
}
use wisp_db.Key.{Key}
use wisp_db.SsTable.Entry.{Entry, entry_key}
use wisp_db.Compactor.{is_last}
use wisp_db.Engine.Scan.{
  ScanItem, ScanIterator, less, pop, push_next, outside, total, next_loop, next, iterate,
}
use wisp_db.Engine.Scan.Rounds.{rounds}

total-pop :
    (x : ScanItem) (xs : List ScanItem) → total ((pop x xs).0 ∷ (pop x xs).1) ≡ total (x ∷ xs)
unfolding total pop
total-pop x [] = refl
total-pop x (y ∷ ys) = elim (Bool-cases (less (pop y ys).0 x)) [
  | inl e ↦ let r = total-pop y ys in rw e (omega (arith, r))
  | inr e ↦ rw e refl
]

total-push_next :
    (source : ℕ) (es : List Entry) (js : List ScanItem)
    → total (push_next source es js) ≡ length es + total js
unfolding total push_next
total-push_next source [] js = omega arith
total-push_next source (e ∷ es) js = refl

-- The items after a round.
abbrev left : ScanItem → List ScanItem → List ScanItem
left x xs = push_next (pop x xs).0.source_idx (pop x xs).0.rest (pop x xs).1

total-left : (x : ScanItem) (xs : List ScanItem) → total (x ∷ xs) ≡ suc (total (left x xs))
unfolding total
total-left x xs =
    let a : suc (length (pop x xs).0.rest) + total (pop x xs).1 ≡ total (x ∷ xs) = total-pop x xs in
    let b = total-push_next (pop x xs).0.source_idx (pop x xs).0.rest (pop x xs).1 in
    omega (arith, a, b)

-- What a client takes of an entry.
abbrev pub pairs : List Entry → List (Key × List ℕ)
pairs es = map (λ e. (entry_key e, e.value)) es

-- Rounds enough are enough.
rounds_enough :
    (f g : ℕ) (out : Key → Bool) (last : Option Key) (items : List ScanItem)
    → total items ≤ f
    → total items ≤ g
    → rounds f out last items ≡ rounds g out last items
unfolding rounds total
rounds_enough zero zero out last items hf hg = refl
rounds_enough zero (suc g) out last [] hf hg = refl
rounds_enough (suc f) zero out last [] hf hg = refl
rounds_enough (suc f) (suc g) out last [] hf hg = refl
rounds_enough zero (suc g) out last (x ∷ xs) hf hg = absurd (omega arith)
rounds_enough (suc f) zero out last (x ∷ xs) hf hg = absurd (omega arith)
rounds_enough (suc f) (suc g) out last (x ∷ xs) hf hg =
    let less' = total-left x xs in
    let e = (pop x xs).0.entry in
    let skipped =
      rounds_enough f g out last (left x xs) (omega (arith, less', hf))
        (omega (arith, less', hg)) in
    let behind =
      rounds_enough f g out (some (entry_key e)) (left x xs) (omega (arith, less', hf))
        (omega (arith, less', hg)) in
    λ i.
      if out (entry_key e) || is_last last (entry_key e)
      then skipped i
      else if e.deleted
      then behind i
      else e ∷ behind i

-- What a call of Next gives.
record Yielded (it : ScanIterator) (items : List ScanItem) (all : List Entry)
    (result : Bool × ScanIterator) : Type 0 where
  first : pairs all ≡ (
      if result.0
      then (result.1.current_key, result.1.current_val)
        ∷ pairs (rounds (total result.1.heap) (outside it) result.1.last_key result.1.heap)
      else [])
  fewer : result.0 ≡ true → suc (total result.1.heap) ≤ total items
  same_range : outside result.1 ≡ outside it

next_loop-Yielded :
    (fuel : ℕ) (items : List ScanItem) (it : ScanIterator)
    → total items ≤ fuel
    → Yielded it items (rounds fuel (outside it) it.last_key items) (next_loop fuel items it)
unfolding next_loop rounds outside
next_loop-Yielded zero items it h = record { first = refl; fewer = λ e. cc; same_range = refl }
next_loop-Yielded (suc fuel) [] it h = record { first = refl; fewer = λ e. cc; same_range = refl }
next_loop-Yielded (suc fuel) (x ∷ xs) it h =
    let one_less = total-left x xs in
    let e = (pop x xs).0.entry in
    let k = entry_key e in
    let items = left x xs in
    let enough : total items ≤ fuel = omega (arith, one_less, h) in
    by_tests (outside it k || is_last it.last_key k) e.deleted one_less
      (next_loop-Yielded fuel items it enough)
      (next_loop-Yielded fuel items (record it { last_key = some k }) enough)
      (rounds_enough fuel (total items) (outside it) (some k) items enough (omega arith))
  where
    popped : Entry
    popped = (pop x xs).0.entry

    marked : ScanIterator
    marked = record it { last_key = some (entry_key popped) }

    found : ScanIterator
    found = record it {
      heap = left x xs;
      last_key = some (entry_key popped);
      valid = true;
      current_key = entry_key popped;
      current_val = popped.value;
    }

    by_tests :
        (s d : Bool)
        → total (x ∷ xs) ≡ suc (total (left x xs))
        → Yielded it
            (left x xs)
            (rounds fuel (outside it) it.last_key (left x xs))
            (next_loop fuel (left x xs) it)
        → Yielded marked
            (left x xs)
            (rounds fuel (outside it) (some (entry_key popped)) (left x xs))
            (next_loop fuel (left x xs) marked)
        → rounds fuel (outside it) (some (entry_key popped)) (left x xs)
          ≡ rounds (total (left x xs)) (outside it) (some (entry_key popped)) (left x xs)
        → Yielded it
            (x ∷ xs)
            (if s
              then rounds fuel (outside it) it.last_key (left x xs)
              else if d
              then rounds fuel (outside it) (some (entry_key popped)) (left x xs)
              else popped ∷ rounds fuel (outside it) (some (entry_key popped)) (left x xs))
            (if s
              then next_loop fuel (left x xs) it
              else if d
              then next_loop fuel (left x xs) marked
              else (true, found))
    by_tests true d one_less skipped behind same = record {
      first = skipped.first;
      fewer = λ e. omega (arith, one_less, skipped.fewer e);
      same_range = skipped.same_range;
    }
    by_tests false true one_less skipped behind same = record {
      first = behind.first;
      fewer = λ e. omega (arith, one_less, behind.fewer e);
      same_range = behind.same_range;
    }
    by_tests false false one_less skipped behind same = record {
      first = ap (λ es. (entry_key popped, popped.value) ∷ pairs es) same;
      fewer = λ e. omega (arith, one_less);
      same_range = refl;
    }

after_next :
    (fuel : ℕ) (it : ScanIterator) (all : List Entry) (r : Bool × ScanIterator)
    → Yielded it it.heap all r
    → total it.heap ≤ suc fuel
    → (total r.1.heap ≤ fuel
        → iterate fuel r.1 ≡ pairs (rounds (total r.1.heap) (outside r.1) r.1.last_key r.1.heap))
    → (if r.0 then (r.1.current_key, r.1.current_val) ∷ iterate fuel r.1 else []) ≡ pairs all
after_next fuel it all (false, it') y h rest = sym y.first
after_next fuel it all (true, it') y h rest =
    let fewer = y.fewer refl in
    ap (λ l. (it'.current_key, it'.current_val) ∷ l)
      (rest (omega (arith, fewer, h))
        ∙ ap (λ out. pairs (rounds (total it'.heap) out it'.last_key it'.heap)) y.same_range)
    ∙ sym y.first

-- A client that calls Next until it gives nothing more has the entries of the rounds.
pub iterate-rounds :
    (fuel : ℕ) (it : ScanIterator)
    → total it.heap ≤ fuel
    → iterate fuel it ≡ pairs (rounds (total it.heap) (outside it) it.last_key it.heap)
unfolding iterate next rounds
iterate-rounds zero it h =
    ap pairs (rounds_enough zero (total it.heap) (outside it) it.last_key it.heap h (omega arith))
iterate-rounds (suc fuel) it h =
    after_next fuel it (rounds (total it.heap) (outside it) it.last_key it.heap) (next it)
      (next_loop-Yielded (total it.heap) it.heap it (omega arith)) h
      (iterate-rounds fuel (next it).1)
