-- ===== src/SsTable/Index/Laws.antt =====
-- The binary search of findBlock against a walk along the index.
use mathlib.Core.Bool.{true≢false}
use wisp_db.Base.{
  ℕ, zero, suc, ◌+◌, ◌/◌, ◌≤◌, ◌<◌, ◌≡◌, refl, sym, ap, ◌∙◌, Bool, true, false, inl, inr, Option,
  none, some, List, [], ◌∷◌, arith, ltb, ne→==, ltb→lt, ltb→le, if◌then◌else◌, length, get_elem?,
  All, Bool-cases,
}
use wisp_db.Key.{Key, key_lt, compare}
use wisp_db.Key.Order.{key_lt_trans}
use wisp_db.SsTable.Entry.{compare_entries}
use wisp_db.SsTable.Index.{IndexEntry, search, is_greater, at_previous, find_block}

-- A test that is false below `n` and true from there on: the search gives `n`.
search_lem :
    (fuel : ℕ) (f : ℕ → Bool) (n i j : ℕ)
    → i ≤ n
    → n ≤ j
    → j ≤ i + fuel
    → ((h : ℕ) → h < n → f h ≡ false)
    → ((h : ℕ) → n ≤ h → h < j → f h ≡ true)
    → search fuel f i j ≡ n
unfolding search
search_lem zero f n i j hi hj enough below above = omega arith
search_lem (suc fuel) f n i j hi hj enough below above = elim (Bool-cases (ltb i j)) [
  | inr ge ↦ let le = ltb→le i j ge in rw ge (omega (arith, le))
  | inl lt ↦
      let h = (i + j) / 2 in
      let less = ltb→lt i j lt in
      elim (Bool-cases (f h)) [
        | inl yes_f ↦
            let n_le : n ≤ h = elim (Bool-cases (ltb h n)) [
              | inl s ↦ absurd (true≢false (sym yes_f ∙ below h (ltb→lt h n s)))
              | inr s ↦ ltb→le h n s
            ] in
            rw (lt, yes_f)
              (search_lem fuel f n i h hi n_le (omega (arith, less)) below
                (λ g a b. above g a (omega (arith, b, less))))
        | inr no_f ↦
            let n_gt : h + 1 ≤ n = elim (Bool-cases (ltb h n)) [
              | inl s ↦ let q = ltb→lt h n s in omega (arith, q)
              | inr s ↦
                  absurd (true≢false (sym (above h (ltb→le h n s) (omega (arith, less))) ∙ no_f))
            ] in
            rw (lt, no_f)
              (search_lem fuel f n (h + 1) j n_gt hj (omega (arith, less, enough)) below above)
      ]
]

abbrev pub index_key : IndexEntry → Key
index_key e = record { series_id = e.series_id; timestamp = e.timestamp }

is_greater-some : (k : Key) (e : IndexEntry) → is_greater k (some e) ≡ key_lt k (index_key e)
unfolding is_greater compare_entries compare key_lt
is_greater-some k e = ground arith

-- The first keys of the blocks ascend.
unfoldable pub IsAscendingIndex : List IndexEntry → Type 0
IsAscendingIndex [] = Unit
IsAscendingIndex (e ∷ es) =
    All (λ f. key_lt (index_key e) (index_key f) ≡ true) es × IsAscendingIndex es

-- The last entry, in a walk from the front, whose key is not above the target.
unfoldable pub later : Option IndexEntry → IndexEntry → Option IndexEntry
later none e = some e
later (some f) e = some f

unfoldable pub last_not_above : Key → List IndexEntry → Option IndexEntry
unfolding later
last_not_above k [] = none
last_not_above k (e ∷ es) =
    let rest = later (last_not_above k es) e in if key_lt k (index_key e) then none else rest

-- How many entries are not above the target.
rank : Key → List IndexEntry → ℕ
rank k [] = 0
rank k (e ∷ es) = let rest = suc (rank k es) in if key_lt k (index_key e) then 0 else rest

rank-length : (k : Key) (es : List IndexEntry) → rank k es ≤ length es
unfolding rank
rank-length k [] = omega arith
rank-length k (e ∷ es) = ground (arith, rank-length k es)

rank_below :
    (k : Key) (es : List IndexEntry) (i : ℕ) → i < rank k es → is_greater k (get_elem? es i) ≡ false
unfolding rank
rank_below k [] i h = absurd (omega arith)
rank_below k (e ∷ es) i h = elim (Bool-cases (key_lt k (index_key e))) [
  | inl above ↦ let z = rw above at h in absurd (omega (arith, z))
  | inr here ↦ go i (rw here at h) here (λ j b. rank_below k es j b)
]
  where
    go :
        (i : ℕ)
        → i < suc (rank k es)
        → key_lt k (index_key e) ≡ false
        → ((j : ℕ) → j < rank k es → is_greater k (get_elem? es j) ≡ false)
        → is_greater k (get_elem? (e ∷ es) i) ≡ false
    go zero h here behind = is_greater-some k e ∙ here
    go (suc i) h here behind = behind i (omega arith)

above-All :
    (k l : Key) (es : List IndexEntry) (i : ℕ)
    → key_lt k l ≡ true
    → All (λ f. key_lt l (index_key f) ≡ true) es
    → i < length es
    → is_greater k (get_elem? es i) ≡ true
above-All k l [] i h a b = absurd (omega arith)
above-All k l (e ∷ es) zero h a b = is_greater-some k e ∙ key_lt_trans k l (index_key e) h a.0
above-All k l (e ∷ es) (suc i) h a b = above-All k l es i h a.1 (omega arith)

rank_above :
    (k : Key) (es : List IndexEntry) (i : ℕ)
    → IsAscendingIndex es
    → rank k es ≤ i
    → i < length es
    → is_greater k (get_elem? es i) ≡ true
unfolding rank IsAscendingIndex
rank_above k [] i s h b = absurd (omega arith)
rank_above k (e ∷ es) zero s h b = elim (Bool-cases (key_lt k (index_key e))) [
  | inl above ↦ is_greater-some k e ∙ above
  | inr here ↦ let z = rw here at h in absurd (omega (arith, z))
]
rank_above k (e ∷ es) (suc i) s h b = elim (Bool-cases (key_lt k (index_key e))) [
  | inl above ↦ above-All k (index_key e) es i above s.0 (omega arith)
  | inr here ↦ let z = rw here at h in rank_above k es i s.1 (omega (arith, z)) (omega arith)
]

at_least :
    (es : List IndexEntry) (e : IndexEntry) (i : ℕ)
    → i < length es
    → get_elem? es i ≡ later (get_elem? es i) e
unfolding later
at_least [] e i h = absurd (omega arith)
at_least (x ∷ xs) e zero h = refl
at_least (x ∷ xs) e (suc i) h = at_least xs e i (omega arith)

at_previous-rank :
    (k : Key) (es : List IndexEntry) → at_previous (rank k es) es ≡ last_not_above k es
unfolding rank last_not_above at_previous
at_previous-rank k [] = refl
at_previous-rank k (e ∷ es) = elim (Bool-cases (key_lt k (index_key e))) [
  | inl above ↦ rw above refl
  | inr here ↦
      rw here (go (rank k es) (rank-length k es) ∙ ap (λ o. later o e) (at_previous-rank k es))
]
  where
    go : (r : ℕ) → r ≤ length es → get_elem? (e ∷ es) r ≡ later (at_previous r es) e
    go zero h = refl
    go (suc r) h = at_least es e r (omega arith)

-- On an index whose keys ascend strictly, the binary search of findBlock gives what a walk from the
-- front gives: the last entry whose key is not above the target, or nothing.
pub find_block-last_not_above :
    (k : Key) (index : List IndexEntry)
    → IsAscendingIndex index
    → find_block k index ≡ last_not_above k index
unfolding find_block
find_block-last_not_above k [] s = unfold last_not_above in refl
find_block-last_not_above k (e ∷ es) s =
    let index = e ∷ es in
    let at =
      search_lem (length index) (λ i. is_greater k (get_elem? index i)) (rank k index) 0
        (length index) (omega arith) (rank-length k index) (omega arith) (λ h. rank_below k index h)
        (λ h a b. rank_above k index h s a b) in
    rw (ne→== (suc (length es)) 0 (λ z. absurd (omega (arith, z))))
      (ap (λ i. at_previous i index) at ∙ at_previous-rank k index)
