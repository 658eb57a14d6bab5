-- ===== src/Skiplist/Cells.antt =====
-- What the heap of a skiplist stands for: its nodes in order of the bottom level, as cells.
use wisp_db.Base.{
  ℕ, ◌≤◌, ◌<◌, ◌≡◌, refl, ◌≢◌, inl, inr, Bool, false, ◌||◌, some, List, [], ◌∷◌, ◌++◌, map, arith,
  ltb, ◌==◌, if◌then◌else◌, Bool-cases, get_elem?, length, All,
}
use mathlib.Core.Bool.{or_assoc}
use wisp_db.Key.{Key, key_lt}
use wisp_db.Rows.{Row, Rows, IsSorted}
use wisp_db.Skiplist.{Ptr, null, Node, Heap, Skiplist, zero_key}

pub record Cell : Type 0 where
  pub ptr : Ptr
  pub key : Key
  pub value : List ℕ
  pub deleted : Bool
  pub height : ℕ

abbrev pub Cells : Type 0
Cells = List Cell

abbrev pub row_of : Cell → Row
row_of c = record { key = c.key; value = c.value; deleted = c.deleted }

abbrev pub rows_of : Cells → Rows
rows_of = map row_of

-- Where level `i` leads to in front of these cells.
abbrev pub first : ℕ → Cells → Ptr
first i [] = null
first i (c ∷ cs) = if ltb i c.height then c.ptr else first i cs

-- The last of the cells that reaches level `i`, or else `p`.
abbrev pub last_at : ℕ → Ptr → Cells → Ptr
last_at i p [] = p
last_at i p (c ∷ cs) = last_at i (if ltb i c.height then c.ptr else p) cs

abbrev pub any_above : ℕ → Cells → Bool
any_above i [] = false
any_above i (c ∷ cs) = ltb i c.height || any_above i cs

abbrev pub before : Key → Cells → Cells
before k [] = []
before k (c ∷ cs) = if key_lt c.key k then c ∷ before k cs else []

abbrev pub after : Key → Cells → Cells
after k [] = []
after k (c ∷ cs) = if key_lt c.key k then after k cs else c ∷ cs

abbrev pub has : Ptr → Cells → Bool
has p [] = false
has p (c ∷ cs) = (c.ptr == p) || has p cs

-- The cell's node is in the heap, and its array leads where `f` says.
pub record Holds (h : Heap) (c : Cell) (f : ℕ → Ptr) : Type 0 where
  pub node : Node
  pub at : h c.ptr ≡ some node
  pub key : node.key ≡ c.key
  pub value : node.value ≡ c.value
  pub deleted : node.deleted ≡ c.deleted
  pub height : length node.forward ≡ c.height
  pub forward : (i : ℕ) → i < c.height → get_elem? node.forward i ≡ some (f i)

abbrev pub Chain : Heap → Cells → Type 0
Chain h [] = Unit {0}
Chain h (c ∷ cs) = Holds h c (λ i. first i cs) × Chain h cs

abbrev pub Distinct : Cells → Type 0
Distinct [] = Unit {0}
Distinct (c ∷ cs) = (c.ptr ≢ null) × (has c.ptr cs ≡ false) × Distinct cs

abbrev pub head_cell : Skiplist → Cell
head_cell s = record {
  ptr = s.head;
  key = zero_key;
  value = [];
  deleted = false;
  height = s.max_level;
}

abbrev pub TallBelow : Skiplist → Cell → Type 0
TallBelow s c = (0 < c.height) × (c.height ≤ s.curr_top_level)

-- The state of a skiplist stands for these cells.
pub record IsSkiplist (s : Skiplist) (cs : Cells) : Type 0 where
  pub chain : Chain s.nodes (head_cell s ∷ cs)
  pub distinct : Distinct (head_cell s ∷ cs)
  pub below : All (λ c. c.ptr < s.fresh) (head_cell s ∷ cs)
  pub sorted : IsSorted (rows_of cs)
  pub heights : All (TallBelow s) cs
  pub top : (0 < s.curr_top_level) × (s.curr_top_level ≤ s.max_level)
  pub counted : s.length ≡ length cs

pub before-append-after : (k : Key) (cs : Cells) → before k cs ++ after k cs ≡ cs
before-append-after k [] = refl
before-append-after k (c ∷ cs) = elim (Bool-cases (key_lt c.key k)) [
  | inl h ↦ rw (h, before-append-after k cs)
  | inr h ↦ rw h
]

pub first-append :
    (i : ℕ) (xs ys : Cells)
    → first i (xs ++ ys) ≡ (if any_above i xs then first i xs else first i ys)
first-append i [] ys = refl
first-append i (c ∷ xs) ys = elim (Bool-cases (ltb i c.height)) [
  | inl h ↦ rw h
  | inr h ↦ rw h (first-append i xs ys)
]

pub any_above-append :
    (i : ℕ) (xs ys : Cells) → any_above i (xs ++ ys) ≡ (any_above i xs || any_above i ys)
any_above-append i [] ys = refl
any_above-append i (c ∷ xs) ys = rw (any_above-append i xs ys, or_assoc)

pub last_at_settled : (i : ℕ) (p : Ptr) (cs : Cells) → any_above i cs ≡ false → last_at i p cs ≡ p
last_at_settled i p [] h = refl
last_at_settled i p (c ∷ cs) h = elim (Bool-cases (ltb i c.height)) [
  | inl e ↦ ground arith
  | inr e ↦ rw e (last_at_settled i p cs (ground arith))
]

pub last_at-append :
    (i : ℕ) (p : Ptr) (xs ys : Cells) → last_at i p (xs ++ ys) ≡ last_at i (last_at i p xs) ys
last_at-append i p [] ys = refl
last_at-append i p (c ∷ xs) ys = last_at-append i (if ltb i c.height then c.ptr else p) xs ys

pub Chain-drop : (h : Heap) (xs ys : Cells) → Chain h (xs ++ ys) → Chain h ys
Chain-drop h [] ys c = c
Chain-drop h (x ∷ xs) ys c = Chain-drop h xs ys c.1

pub Distinct-drop : (xs ys : Cells) → Distinct (xs ++ ys) → Distinct ys
Distinct-drop [] ys d = d
Distinct-drop (x ∷ xs) ys d = Distinct-drop xs ys d.2
