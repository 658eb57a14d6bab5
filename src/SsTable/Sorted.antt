-- ===== src/SsTable/Sorted.antt =====
-- Entries in strictly ascending order of their keys, as the memtable and the merge give them.
use mathlib.Core.Bool.{true≢false}
use mathlib.Core.Option.{none-ne-some}
use wisp_db.Base.{
  ◌≡◌, refl, sym, ap, ◌∙◌, true, false, inl, inr, none, some, List, [], ◌∷◌, ◌++◌, if◌then◌else◌,
  Bool-cases, All, All-split,
}
use wisp_db.Key.{Key, key_lt, key_eq}
use wisp_db.Key.Order.{key_eq_of_gt, key_lt_trans, key_eq→eq}
use wisp_db.SsTable.Entry.{Entry, entry_key, find_entry, find_entry-cons}

-- Entries in strictly ascending order of their keys.
unfoldable pub IsAscendingEntries : List Entry → Type 0
IsAscendingEntries [] = Unit
IsAscendingEntries (e ∷ es) =
    All (λ f. key_lt (entry_key e) (entry_key f) ≡ true) es × IsAscendingEntries es

abbrev pub AllAbove : Key → List Entry → Type 0
AllAbove k es = All (λ f. key_lt k (entry_key f) ≡ true) es

pub AllAbove-trans :
    (a b : Key) (es : List Entry) → key_lt a b ≡ true → AllAbove b es → AllAbove a es
AllAbove-trans a b [] h hs = tt
AllAbove-trans a b (e ∷ es) h hs =
    (key_lt_trans a b (entry_key e) h hs.0, AllAbove-trans a b es h hs.1)

pub find_entry-AllAbove : (k : Key) (es : List Entry) → AllAbove k es → find_entry k es ≡ none
unfolding find_entry
find_entry-AllAbove k [] h = refl
find_entry-AllAbove k (e ∷ es) h =
    rw (key_eq_of_gt k (entry_key e) h.0) (find_entry-AllAbove k es h.1)

pub find_entry-append :
    (k : Key) (xs ys : List Entry)
    → find_entry k xs ≡ none
    → find_entry k (xs ++ ys) ≡ find_entry k ys
find_entry-append k [] ys h = refl
find_entry-append k (x ∷ xs) ys h = elim (Bool-cases (key_eq (entry_key x) k)) [
  | inl e ↦
      let hit : find_entry k (x ∷ xs) ≡ some (x.value, x.deleted) =
        rw (find_entry-cons k x xs, e) refl in
      absurd (none-ne-some (x.value, x.deleted) (sym h ∙ hit))
  | inr e ↦
      let behind : find_entry k (x ∷ xs) ≡ find_entry k xs = rw (find_entry-cons k x xs, e) refl in
      rw (find_entry-cons k x (xs ++ ys), e) (find_entry-append k xs ys (sym behind ∙ h))
]

pub find_entry-append_none :
    (k : Key) (xs ys : List Entry)
    → find_entry k ys ≡ none
    → find_entry k (xs ++ ys) ≡ find_entry k xs
unfolding find_entry
find_entry-append_none k [] ys h = h
find_entry-append_none k (x ∷ xs) ys h =
    ap (λ o. if key_eq (entry_key x) k then some (x.value, x.deleted) else o)
      (find_entry-append_none k xs ys h)

-- The two parts of an ascending sequence.
pub IsAscendingEntries-append :
    (xs ys : List Entry)
    → IsAscendingEntries (xs ++ ys)
    → IsAscendingEntries xs × IsAscendingEntries ys × All (λ x. AllAbove (entry_key x) ys) xs
unfolding IsAscendingEntries
IsAscendingEntries-append [] ys h = (tt, h, tt)
IsAscendingEntries-append (x ∷ xs) ys h =
    let r = IsAscendingEntries-append xs ys h.1 in
    let s = All-split (λ f. key_lt (entry_key x) (entry_key f) ≡ true) xs ys h.0 in
    ((s.0, r.0), r.1, (s.1, r.2))

pub find_entry_below :
    (k l : Key) (xs : List Entry)
    → All (λ x. key_lt (entry_key x) l ≡ true) xs
    → key_lt k l ≡ false
    → find_entry k xs ≡ none
unfolding find_entry
find_entry_below k l [] h not_below = refl
find_entry_below k l (x ∷ xs) h not_below = elim (Bool-cases (key_eq (entry_key x) k)) [
  | inl e ↦
      let below : key_lt k l ≡ true =
        sym (ap (λ y. key_lt y l) (key_eq→eq (entry_key x) k e)) ∙ h.0 in
      absurd (true≢false (sym below ∙ not_below))
  | inr e ↦ rw e (find_entry_below k l xs h.1 not_below)
]
