-- ===== src/Rows.antt =====
-- The abstract view that the layers share: rows in strictly ascending order of their keys.
use wisp_db.Base.{
  ℕ, ◌≡◌, refl, inl, inr, Bool, true, Option, none, some, List, [], ◌∷◌, arith, if◌then◌else◌,
  Bool-cases, All,
}
use wisp_db.Key.{Key, key_lt, key_eq}
use wisp_db.Key.Order.{
  key_eq→eq, key_eq_congr, key_eq_left, key_lt_trans, key_eq_of_lt, key_eq_of_gt, key_eq_of_not_lt,
}

-- A key with its value and its tombstone mark.
pub record Row : Type 0 where
  pub key : Key
  pub value : List ℕ
  pub deleted : Bool

abbrev pub Rows : Type 0
Rows = List Row

abbrev pub Above : Key → Rows → Type 0
Above k rows = All (λ r. key_lt k r.key ≡ true) rows

abbrev pub IsSorted : Rows → Type 0
IsSorted [] = Unit {0}
IsSorted (r ∷ rows) = Above r.key rows × IsSorted rows

-- What is stored under a key: nothing, or a value and a tombstone mark.
unfoldable pub find : Key → Rows → Option (List ℕ × Bool)
find k [] = none
find k (r ∷ rows) = if key_eq r.key k then some (r.value, r.deleted) else find k rows

-- The sorted sequence with one row put in, or replaced.
unfoldable pub upsert : Row → Rows → Rows
upsert n [] = n ∷ []
upsert n (r ∷ rows) =
    if key_lt r.key n.key
    then r ∷ upsert n rows
    else if key_eq r.key n.key
    then n ∷ rows
    else n ∷ r ∷ rows

pub Above-trans : (a b : Key) (rows : Rows) → key_lt a b ≡ true → Above b rows → Above a rows
Above-trans a b [] h k = tt
Above-trans a b (r ∷ rows) h k = (key_lt_trans a b r.key h k.0, Above-trans a b rows h k.1)

pub find-Above : (k : Key) (rows : Rows) → Above k rows → find k rows ≡ none
unfolding find
find-Above k [] h = refl
find-Above k (r ∷ rows) h = ground (arith, key_eq_of_gt k r.key, find-Above k rows h.1)

Above-upsert :
    (k : Key) (n : Row) (rows : Rows)
    → key_lt k n.key ≡ true
    → Above k rows
    → Above k (upsert n rows)
unfolding upsert
Above-upsert k n [] h a = (h, tt)
Above-upsert k n (r ∷ rows) h a = ground (arith, Above-upsert k n rows h a.1)

pub upsert-IsSorted : (n : Row) (rows : Rows) → IsSorted rows → IsSorted (upsert n rows)
unfolding upsert
upsert-IsSorted n [] s = (tt, tt)
upsert-IsSorted n (r ∷ rows) s = elim (Bool-cases (key_lt r.key n.key)) [
  | inl h ↦ rw h (Above-upsert r.key n rows h s.0, upsert-IsSorted n rows s.1)
  | inr h ↦ elim (Bool-cases (key_eq r.key n.key)) [
    | inl e ↦ rw (h, e) (rw (key_eq→eq r.key n.key e) at s.0, s.1)
    | inr e ↦
        let above : key_lt n.key r.key ≡ true = ground (arith, key_eq_of_not_lt r.key n.key) in
        rw (h, e) ((above, Above-trans n.key r.key rows above s.0), s)
  ]
]

-- The map law of `upsert`.
pub find-upsert :
    (k : Key) (n : Row) (rows : Rows)
    → find k (upsert n rows) ≡ (if key_eq n.key k then some (n.value, n.deleted) else find k rows)
unfolding find upsert
find-upsert k n [] = refl
find-upsert k n (r ∷ rows) = elim (Bool-cases (key_lt r.key n.key)) [
  | inl h ↦
      rw h (
        ground
          (arith, find-upsert k n rows, key_eq_of_lt r.key n.key h, key_eq_congr r.key n.key k))
  | inr h ↦ elim (Bool-cases (key_eq r.key n.key)) [
    | inl e ↦ rw (h, e) (ground (arith, key_eq_left r.key n.key k e))
    | inr e ↦ rw (h, e) refl
  ]
]
