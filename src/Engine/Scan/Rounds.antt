-- ===== src/Engine/Scan/Rounds.antt =====
-- The rounds of the scan's loop, against those of a major compaction.
use mathlib.Core.Path.{subst}
use mathlib.Core.Bool.{true≢false}
use wisp_db.Base.{
  ℕ, zero, suc, ◌-◌, ◌≤◌, ◌≡◌, refl, sym, ap, ◌∙◌, Bool, true, false, ◌&&◌, ◌||◌, inl, inr, Option,
  none, some, List, [], ◌∷◌, map, arith, ltb, if◌then◌else◌, Bool-cases, All,
}
use wisp_db.Key.{Key, key_lt, key_eq}
use wisp_db.SsTable.Entry.{Entry, entry_key}
use wisp_db.Key.Order.{key_eq→eq}
use wisp_db.Compactor.Heap.{key_of, pop-All, pop-least}
use wisp_db.Compactor.Newest.{IsItem}
use wisp_db.Compactor.Merge.{NoneBelow, push_next-IsItem, push_next-NoneBelow}
use wisp_db.Compactor
use wisp_db.Compactor.{HeapItem, is_last, merge_loop}
use wisp_db.Engine.Scan.{ScanItem, less, pop, push_next}

-- The entries that the calls of Next find from here on.
unfoldable pub rounds : ℕ → (Key → Bool) → Option Key → List ScanItem → List Entry
rounds zero out last items = []
rounds (suc fuel) out last [] = []
rounds (suc fuel) out last (x ∷ xs) =
    let popped = pop x xs in
    let e = popped.0.entry in
    let k = entry_key e in
    let items = push_next popped.0.source_idx popped.0.rest popped.1 in
    let skipped = rounds fuel out last items in
    let behind = rounds fuel out (some k) items in
    if out k || is_last last k then skipped else if e.deleted then behind else e ∷ behind

-- The item of a compaction, in which a smaller index is a larger generation.
abbrev pub as_item : ℕ → ScanItem → HeapItem
as_item n x = record { entry = x.entry; gen = n - x.source_idx; rest = x.rest }

abbrev pub as_items : ℕ → List ScanItem → List HeapItem
as_items n xs = map (as_item n) xs

less-as_item :
    (n : ℕ) (a b : ScanItem)
    → a.source_idx ≤ n
    → b.source_idx ≤ n
    → Compactor.less (as_item n a) (as_item n b) ≡ less a b
unfolding Compactor.less less
less-as_item n a b ha hb =
    let e : ltb (n - b.source_idx) (n - a.source_idx) ≡ ltb a.source_idx b.source_idx =
      ground (arith, ha, hb) in
    rw e refl

abbrev pub Small : ℕ → List ScanItem → Type 0
Small n xs = All (λ x. x.source_idx ≤ n) xs

pop-as_item :
    (n : ℕ) (x : ScanItem) (xs : List ScanItem)
    → x.source_idx ≤ n
    → Small n xs
    → (Compactor.pop (as_item n x) (as_items n xs)
        ≡ (as_item n (pop x xs).0, as_items n (pop x xs).1))
      × ((pop x xs).0.source_idx ≤ n)
      × Small n (pop x xs).1
unfolding pop Compactor.pop
pop-as_item n x [] h hs = (refl, h, tt)
pop-as_item n x (y ∷ ys) h hs =
    let r = pop-as_item n y ys hs.0 hs.1 in
    go (less (pop y ys).0 x) (less-as_item n (pop y ys).0 x r.1 h) r.0 r.1 r.2
  where
    picked : Bool → ScanItem × List ScanItem
    picked b = if b then ((pop y ys).0, x ∷ (pop y ys).1) else (x, y ∷ ys)

    merged : HeapItem × List HeapItem → Bool → HeapItem × List HeapItem
    merged q b = if b then (q.0, as_item n x ∷ q.1) else (as_item n x, as_items n (y ∷ ys))

    go :
        (b : Bool)
        → Compactor.less (as_item n (pop y ys).0) (as_item n x) ≡ b
        → Compactor.pop (as_item n y) (as_items n ys)
          ≡ (as_item n (pop y ys).0, as_items n (pop y ys).1)
        → (pop y ys).0.source_idx ≤ n
        → Small n (pop y ys).1
        → (Compactor.pop (as_item n x) (as_items n (y ∷ ys))
            ≡ (as_item n (picked b).0, as_items n (picked b).1))
          × ((picked b).0.source_idx ≤ n)
          × Small n (picked b).1
    go true e q small smalls = (
      ap (λ t. merged t (Compactor.less t.0 (as_item n x))) q
          ∙ ap (merged (as_item n (pop y ys).0, as_items n (pop y ys).1)) e,
      small,
      (h, smalls),
    )
    go false e q small smalls = (
      ap (λ t. merged t (Compactor.less t.0 (as_item n x))) q
          ∙ ap (merged (as_item n (pop y ys).0, as_items n (pop y ys).1)) e,
      h,
      hs,
    )

-- What a scan keeps of the output of a merge.
unfoldable pub in_range : (Key → Bool) → List Entry → List Entry
in_range out [] = []
in_range out (e ∷ es) = if out (entry_key e) then in_range out es else e ∷ in_range out es

push_next_as_item :
    (n source : ℕ) (es : List Entry) (xs : List ScanItem)
    → source ≤ n
    → Small n xs
    → (Compactor.push_next (n - source) es (as_items n xs) ≡ as_items n (push_next source es xs))
      × Small n (push_next source es xs)
unfolding push_next Compactor.push_next
push_next_as_item n source [] xs h hs = (refl, hs)
push_next_as_item n source (e ∷ es) xs h hs = (refl, (h, hs))

-- The key that the merge remembers is below no key that is left, and the two loops remember the same
-- one, as far as keys in the range go that are left.
abbrev NotBelow : Option Key → Key → Type 0
NotBelow none k = Unit {0}
NotBelow (some l) k = key_lt k l ≡ false

abbrev Bound : Option Key → List HeapItem → Type 0
Bound none items = Unit {0}
Bound (some l) items = NoneBelow l items

abbrev SameLast : (Key → Bool) → Option Key → Option Key → Type 0
SameLast out last last' =
    (k : Key) → out k ≡ false → NotBelow last' k → is_last last k ≡ is_last last' k

-- One round, by what the rounds behind out give.
round :
    (out : Key → Bool) (e : Entry) (o l l' d : Bool) (skipped behind : List Entry)
    (skipped' behind' : List Entry)
    → out (entry_key e) ≡ o
    → (o ≡ false → l ≡ l')
    → (l' ≡ true → skipped ≡ in_range out skipped')
    → (o ≡ true → l' ≡ false → skipped ≡ in_range out behind')
    → behind ≡ in_range out behind'
    → (if o || l then skipped else if d then behind else e ∷ behind)
      ≡ in_range out (if l' then skipped' else if d && true then behind' else e ∷ behind')
unfolding in_range
round out e true l true d s b s' b' outer same skip passed next = skip refl
round out e true l false true s b s' b' outer same skip passed next = passed refl refl
round out e true l false false s b s' b' outer same skip passed next = rw outer (passed refl refl)
round out e false l true d s b s' b' outer same skip passed next = rw (same refl) (skip refl)
round out e false l false true s b s' b' outer same skip passed next = rw (same refl) next
round out e false l false false s b s' b' outer same skip passed next =
    rw (same refl, outer) (ap (λ t. e ∷ t) next)

-- A key outside the range is none in out.
other_key : (out : Key → Bool) (a b : Key) → out a ≡ true → out b ≡ false → key_eq a b ≡ false
other_key out a b ha hb = elim (Bool-cases (key_eq a b)) [
  | inl e ↦ absurd (true≢false (sym ha ∙ ap out (key_eq→eq a b e) ∙ hb))
  | inr e ↦ e
]

not_below_trans : (a b c : Key) → key_lt b a ≡ false → key_lt c b ≡ false → key_lt c a ≡ false
unfolding key_lt
not_below_trans a b c h k = ground arith

-- A key that the merge remembers, and that the popped one is not, is behind out.
behind_key :
    (l p k : Key)
    → key_lt p l ≡ false
    → key_eq l p ≡ false
    → key_lt k p ≡ false
    → key_eq l k ≡ false
unfolding key_lt key_eq
behind_key l p k a b c = ground arith

SameLast-outside :
    (out : Key → Bool) (p : Key) (last last' : Option Key)
    → SameLast out last last'
    → out p ≡ true
    → NotBelow last' p
    → is_last last' p ≡ false
    → SameLast out last (some p)
unfolding is_last
SameLast-outside out p last none same outer bound fresh k inside left =
    same k inside tt ∙ sym (other_key out p k outer inside)
SameLast-outside out p last (some l) same outer bound fresh k inside left =
    same k inside (not_below_trans l p k bound left)
    ∙ behind_key l p k bound fresh left
    ∙ sym (other_key out p k outer inside)

Bound-pop :
    (last : Option Key) (x : HeapItem) (xs : List HeapItem)
    → Bound last (x ∷ xs)
    → NotBelow last (key_of (Compactor.pop x xs).0)
Bound-pop none x xs h = tt
Bound-pop (some l) x xs h = (pop-All (λ j. key_lt (key_of j) l ≡ false) x xs h.0 h.1).0

Bound-same :
    (last : Option Key) (p : Key) (items : List HeapItem)
    → is_last last p ≡ true
    → NoneBelow p items
    → Bound last items
unfolding is_last
Bound-same none p items e h = tt
Bound-same (some l) p items e h = subst (λ k. NoneBelow k items) (sym (key_eq→eq l p e)) h

-- What a round leaves.
record Left (n : ℕ) (last : Option Key) (x : ScanItem) (xs : List ScanItem) : Type 0 where
  same_pop :
      Compactor.pop (as_item n x) (as_items n xs)
      ≡ (as_item n (pop x xs).0, as_items n (pop x xs).1)
  same_push :
      Compactor.push_next (n - (pop x xs).0.source_idx) (pop x xs).0.rest (as_items n (pop x xs).1)
      ≡ as_items n (push_next (pop x xs).0.source_idx (pop x xs).0.rest (pop x xs).1)
  small : Small n (push_next (pop x xs).0.source_idx (pop x xs).0.rest (pop x xs).1)
  sorted :
      All IsItem (as_items n (push_next (pop x xs).0.source_idx (pop x xs).0.rest (pop x xs).1))
  none_below :
      NoneBelow
        (entry_key (pop x xs).0.entry)
        (as_items n (push_next (pop x xs).0.source_idx (pop x xs).0.rest (pop x xs).1))
  not_below : NotBelow last (entry_key (pop x xs).0.entry)

left :
    (n : ℕ) (last : Option Key) (x : ScanItem) (xs : List ScanItem)
    → Small n (x ∷ xs)
    → All IsItem (as_items n (x ∷ xs))
    → Bound last (as_items n (x ∷ xs))
    → Left n last x xs
left n last x xs small sorted bound =
    let r = pop-as_item n x xs small.0 small.1 in
    let p = (pop x xs).0 in
    let js = as_items n (pop x xs).1 in
    let next = push_next_as_item n p.source_idx p.rest (pop x xs).1 r.1 r.2 in
    let items = pop-All IsItem (as_item n x) (as_items n xs) sorted.0 sorted.1 in
    let facts : IsItem (as_item n p)
        × All IsItem js
        × All (λ j. Compactor.less j (as_item n p) ≡ false) js =
      subst (λ q. IsItem q.0 × All IsItem q.1 × All (λ j. Compactor.less j q.0 ≡ false) q.1) r.0
        (items.0, items.1, pop-least (as_item n x) (as_items n xs)) in
    record {
      same_pop = r.0;
      same_push = next.0;
      small = next.1;
      sorted = subst (All IsItem) next.0 (push_next-IsItem (as_item n p) js facts.0 facts.1);
      none_below =
          subst (NoneBelow (entry_key p.entry)) next.0
            (push_next-NoneBelow (as_item n p) js facts.0 facts.2);
      not_below =
          subst (λ q. NotBelow last (key_of q.0)) r.0
            (Bound-pop last (as_item n x) (as_items n xs) bound);
    }

-- The entries of a scan are the entries in the range that a major compaction of the sources gives.
pub rounds-merge_loop :
    (fuel n : ℕ) (out : Key → Bool) (last last' : Option Key) (items : List ScanItem)
    → Small n items
    → All IsItem (as_items n items)
    → Bound last' (as_items n items)
    → SameLast out last last'
    → rounds fuel out last items ≡ in_range out (merge_loop fuel true last' (as_items n items))
unfolding rounds merge_loop in_range
rounds-merge_loop zero n out last last' items small sorted bound same = refl
rounds-merge_loop (suc fuel) n out last last' [] small sorted bound same = refl
rounds-merge_loop (suc fuel) n out last last' (x ∷ xs) small sorted bound same =
    let l = left n last' x xs small sorted bound in
    let p = (pop x xs).0 in
    let k = entry_key p.entry in
    let items = push_next p.source_idx p.rest (pop x xs).1 in
    rw (l.same_pop, l.same_push)
      (round out p.entry (out k) (is_last last k) (is_last last' k) p.entry.deleted
        (rounds fuel out last items) (rounds fuel out (some k) items)
        (merge_loop fuel true last' (as_items n items))
        (merge_loop fuel true (some k) (as_items n items)) refl
        (λ inside. same k inside l.not_below)
        (λ e.
          rounds-merge_loop fuel n out last last' items l.small l.sorted
            (Bound-same last' k (as_items n items) e l.none_below) same)
        (λ outer fresh.
          rounds-merge_loop fuel n out last (some k) items l.small l.sorted l.none_below
            (SameLast-outside out k last last' same outer l.not_below fresh))
        (rounds-merge_loop fuel n out (some k) (some k) items l.small l.sorted l.none_below
          (λ j inside below. refl)))
