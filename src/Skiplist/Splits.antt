-- ===== src/Skiplist/Splits.antt =====
-- Cells split at a key, and what stays of distinctness, heights and order when one is put in.
use wisp_db.Base.{
  ℕ, suc, ◌≤◌, ◌<◌, ◌≡◌, refl, sym, ap, ◌≢◌, inl, inr, true, false, ◌∙◌, ◌||◌, some, [], ◌∷◌, ◌++◌,
  arith, le→ltb, ◌==◌, if◌then◌else◌, Bool-cases, get_elem?, length, All, length-append,
}
use mathlib.Core.Bool.{or_assoc}
use wisp_db.Key.{Key, key_lt, key_eq}
use wisp_db.Key.Order.{key_eq_of_lt}
use wisp_db.Rows.{Row, upsert, find}
use wisp_db.Skiplist.{Ptr, null, Heap, Node}
use wisp_db.Skiplist.Cells.{
  Cell, Cells, row_of, rows_of, first, last_at, any_above, before, after, has, first-append, Chain,
  Distinct,
}
use wisp_db.Skiplist.Partly.{Before, target, tail_at, Holds-same}

pub has-append : (q : Ptr) (xs ys : Cells) → has q (xs ++ ys) ≡ (has q xs || has q ys)
has-append q [] ys = refl
has-append q (c ∷ xs) ys = rw (has-append q xs ys, or_assoc)

pub Distinct-apart :
    (q : Ptr) (xs ys : Cells) → Distinct (xs ++ ys) → has q xs ≡ true → has q ys ≡ false
Distinct-apart q [] ys di m = cc
Distinct-apart q (c ∷ xs) ys di m = elim (Bool-cases (c.ptr == q)) [
  | inl e ↦
      let is : c.ptr ≡ q = ground arith in ground (arith, has-append c.ptr xs ys, rw is at di.1)
  | inr e ↦ Distinct-apart q xs ys di.2 (ground arith)
]

pub Distinct-take : (xs ys : Cells) → Distinct (xs ++ ys) → Distinct xs
Distinct-take [] ys di = tt
Distinct-take (c ∷ xs) ys di =
    (di.0, ground (arith, has-append c.ptr xs ys), Distinct-take xs ys di.2)

pub Distinct-put :
    (n : Cell) (xs ys : Cells)
    → n.ptr ≢ null
    → has n.ptr (xs ++ ys) ≡ false
    → Distinct (xs ++ ys)
    → Distinct (xs ++ n ∷ ys)
Distinct-put n [] ys ne out di = (ne, out, di)
Distinct-put n (c ∷ xs) ys ne out di = (
  di.0,
  ground (arith, has-append c.ptr xs ys, has-append c.ptr xs (n ∷ ys)),
  Distinct-put n xs ys ne (ground arith) di.2,
)

pub has_of_below : (m : Ptr) (cs : Cells) → All (λ c. c.ptr < m) cs → has m cs ≡ false
has_of_below m [] h = refl
has_of_below m (c ∷ cs) h = ground (arith, has_of_below m cs h.1)

pub All-take {κ} : (P : Cell → Type κ) (xs ys : Cells) → All P (xs ++ ys) → All P xs
All-take P [] ys h = tt
All-take P (c ∷ xs) ys h = (h.0, All-take P xs ys h.1)

pub All-drop {κ} : (P : Cell → Type κ) (xs ys : Cells) → All P (xs ++ ys) → All P ys
All-drop P [] ys h = h
All-drop P (c ∷ xs) ys h = All-drop P xs ys h.1

pub All-put {κ} :
    (P : Cell → Type κ) (n : Cell) (xs ys : Cells) → P n → All P (xs ++ ys) → All P (xs ++ n ∷ ys)
All-put P n [] ys p h = (p, h)
All-put P n (c ∷ xs) ys p h = (h.0, All-put P n xs ys p h.1)

pub All-mono {κ μ} :
    (P : Cell → Type κ) (Q : Cell → Type μ) (cs : Cells)
    → ((c : Cell) → P c → Q c)
    → All P cs
    → All Q cs
All-mono P Q [] f h = tt
All-mono P Q (c ∷ cs) f h = (f c h.0, All-mono P Q cs f h.1)

pub length-put : (n : Cell) (xs ys : Cells) → length (xs ++ n ∷ ys) ≡ suc (length (xs ++ ys))
length-put n xs ys = omega (arith, length-append xs ys, length-append xs (n ∷ ys))

-- No level that is as high as every cell has a cell.
pub any_above_none : (i : ℕ) (cs : Cells) → All (λ c. c.height ≤ i) cs → any_above i cs ≡ false
any_above_none i [] h = refl
any_above_none i (c ∷ cs) h = ground (arith, any_above_none i cs h.1)

-- The cells from the key on begin with none that is before it.
pub after_head :
    (k : Key) (cs : Cells) (d : Cell) (ds : Cells) → after k cs ≡ d ∷ ds → key_lt d.key k ≡ false
after_head k [] d ds e = cc
after_head k (c ∷ cs) d ds e = ground (arith, after_head k cs d ds)

pub Chain-Before :
    (h : Heap) (n : Cell) (post pre : Cells) → Chain h (pre ++ post) → Before h 0 n post pre
Chain-Before h n post [] ch = tt
Chain-Before h n post (c ∷ pre) ch = (
  Holds-same h _ ch.0 refl (λ i p.
      ap (λ b. first i (pre ++ (if b then n ∷ post else post))) (sym (le→ltb i 0 (omega arith)))),
  Chain-Before h n post pre ch.1,
)

-- The level-0 predecessor's node leads to the first cell behind.
pub leads_after :
    (h : Heap) (c : Cell) (pre post : Cells) (d : Ptr)
    → Chain h (pre ++ post)
    → any_above 0 pre ≡ true
    → (node : Node) × (h (last_at 0 d pre) ≡ some node)
      × (get_elem? node.forward 0 ≡ some (first 0 post))
leads_after h c pre post d ch up =
    let t = target h 0 c post pre d (Chain-Before h c post pre ch) up in
    let behind : first 0 (t.rest ++ tail_at 0 c post 0) ≡ first 0 post =
      rw (first-append 0 t.rest (tail_at 0 c post 0), t.none) in
    (t.holds.node, rw t.is_ptr at t.holds.at, t.holds.forward 0 t.high ∙ ap some behind)

-- In terms of rows: what is stored under the key, and the sequence with a row put in.
pub find_split : (k : Key) (cs : Cells) → find k (rows_of cs) ≡ find k (rows_of (after k cs))
unfolding find
find_split k [] = refl
find_split k (c ∷ cs) = elim (Bool-cases (key_lt c.key k)) [
  | inl e ↦ rw (e, key_eq_of_lt c.key k e) (find_split k cs)
  | inr e ↦ rw e
]

pub upsert_new :
    (n : Cell) (cs : Cells)
    → ((d : Cell) (ds : Cells) → after n.key cs ≡ d ∷ ds → key_eq d.key n.key ≡ false)
    → rows_of (before n.key cs ++ n ∷ after n.key cs) ≡ upsert (row_of n) (rows_of cs)
unfolding upsert
upsert_new n [] e = refl
upsert_new n (c ∷ cs) e = elim (Bool-cases (key_lt c.key n.key)) [
  | inl l ↦ rw l (ap (◌∷◌ (row_of c)) (upsert_new n cs (λ d ds x. e d ds (rw l x))))
  | inr l ↦ rw (l, e c cs (rw l))
]

pub upsert_old :
    (n : Row) (cs : Cells) (d : Cell) (ds : Cells)
    → after n.key cs ≡ d ∷ ds
    → key_eq d.key n.key ≡ true
    → rows_of (before n.key cs) ++ n ∷ rows_of ds ≡ upsert n (rows_of cs)
unfolding upsert
upsert_old n [] d ds a e = cc
upsert_old n (c ∷ cs) d ds a e = elim (Bool-cases (key_lt c.key n.key)) [
  | inl l ↦ rw l (ap (◌∷◌ (row_of c)) (upsert_old n cs d ds (rw l at a) e))
  | inr l ↦
      let here : c ∷ cs ≡ d ∷ ds = rw l at a in
      let head : c ≡ d = cc in let tail : cs ≡ ds = cc in rw (l, head, e, tail)
]
