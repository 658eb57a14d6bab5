-- ===== src/Skiplist/Partly.antt =====
-- A skiplist in the middle of the linking loop of `insert`: after `k` rounds the lower `k` levels
-- pass through the new node, and the others do not.
use wisp_db.Base.{
  ℕ, suc, ◌<◌, ◌≡◌, refl, sym, ap, ◌≢◌, inl, inr, true, false, ◌∙◌, some, [], ◌∷◌, ◌++◌, arith, ltb,
  ltb→lt, ◌==◌, if◌then◌else◌, Bool-cases, set, length-set, get_elem?-set_self, get_elem?-set_ne,
}
use wisp_db.Skiplist.{Ptr, null, Heap}
use wisp_db.Skiplist.Cells.{
  Cell, Cells, first, last_at, any_above, has, Holds, Chain, first-append, last_at_settled,
}

module _ {h : Heap} (g : Heap) {c : Cell} {f : ℕ → Ptr} (e : ℕ → Ptr) (held : Holds h c f) where
  pub Holds-same : g c.ptr ≡ h c.ptr → ((i : ℕ) → i < c.height → f i ≡ e i) → Holds g c e
  Holds-same at same = record {
    node = held.node;
    at = at ∙ held.at;
    key = held.key;
    value = held.value;
    deleted = held.deleted;
    height = held.height;
    forward = λ i p. held.forward i p ∙ ap some (same i p);
  }

  pub Holds-set :
      (k : ℕ)
      → k < c.height
      → g c.ptr ≡ some (record held.node { forward = set held.node.forward k (e k) })
      → ((i : ℕ) → i < c.height → i ≢ k → f i ≡ e i)
      → Holds g c e
  Holds-set k high at same = record {
    node = record held.node { forward = set held.node.forward k (e k) };
    at = at;
    key = held.key;
    value = held.value;
    deleted = held.deleted;
    height = length-set held.node.forward k (e k) ∙ held.height;
    forward = λ i p. elim (Bool-cases (i == k)) [
      | inl q ↦
          let here : i ≡ k = ground arith in
          rw here (get_elem?-set_self held.node.forward k (e k) (rw held.height high))
      | inr q ↦
          let other : i ≢ k = ground arith in
          get_elem?-set_ne held.node.forward k i (e k) (λ x. other (sym x))
          ∙ held.forward i p
          ∙ ap some (same i p other)
    ];
  }

pub Chain-frame :
    (h g : Heap) (cs : Cells) → ((q : Ptr) → has q cs ≡ true → g q ≡ h q) → Chain h cs → Chain g cs
Chain-frame h g [] same ch = tt
Chain-frame h g (c ∷ cs) same ch = (
  Holds-same g (λ i. first i cs) ch.0 (same c.ptr (ground arith)) (λ i p. refl),
  Chain-frame h g cs (λ q m. same q (ground arith)) ch.1,
)

-- What stands behind the new node's predecessors, on level `i` after `k` rounds.
abbrev pub tail_at : ℕ → Cell → Cells → ℕ → Cells
tail_at k n post i = if ltb i k then n ∷ post else post

abbrev pub Before : Heap → ℕ → Cell → Cells → Cells → Type 0
Before h k n post [] = Unit {0}
Before h k n post (c ∷ cs) =
    Holds h c (λ i. first i (cs ++ tail_at k n post i)) × Before h k n post cs

pub record Partly (h : Heap) (k : ℕ) (n : Cell) (pre post : Cells) : Type 0 where
  pub befores : Before h k n post pre
  pub new : Holds h n (λ i. if ltb i k then first i post else null)
  pub afters : Chain h post

-- The predecessor on level `k`, found among the cells before the new one.
pub record Target (h : Heap) (k : ℕ) (n : Cell) (post pre : Cells) (p : Ptr) : Type 0 where
  pub cell : Cell
  pub rest : Cells
  pub is_ptr : cell.ptr ≡ p
  pub holds : Holds h cell (λ i. first i (rest ++ tail_at k n post i))
  pub high : k < cell.height
  pub none : any_above k rest ≡ false

pub target :
    (h : Heap) (k : ℕ) (n : Cell) (post pre : Cells) (d : Ptr)
    → Before h k n post pre
    → any_above k pre ≡ true
    → Target h k n post pre (last_at k d pre)
target h k n post [] d b up = cc
target h k n post (c ∷ cs) d b up = elim (Bool-cases (any_above k cs)) [
  | inl e ↦
      let t = target h k n post cs (if ltb k c.height then c.ptr else d) b.1 e in
      record {
        cell = t.cell;
        rest = t.rest;
        is_ptr = t.is_ptr;
        holds = t.holds;
        high = t.high;
        none = t.none;
      }
  | inr e ↦
      let high : ltb k c.height ≡ true = ground arith in
      let is : last_at k d (c ∷ cs) ≡ c.ptr =
        last_at_settled k (if ltb k c.height then c.ptr else d) cs e
        ∙ ap (λ b. if b then c.ptr else d) high in
      record {
        cell = c;
        rest = cs;
        is_ptr = sym is;
        holds = b.0;
        high = ltb→lt k c.height high;
        none = e;
      }
]

pub has-last_at :
    (k : ℕ) (d : Ptr) (cs : Cells) → any_above k cs ≡ true → has (last_at k d cs) cs ≡ true
has-last_at k d [] up = cc
has-last_at k d (c ∷ cs) up = elim (Bool-cases (any_above k cs)) [
  | inl e ↦ ground (arith, has-last_at k (if ltb k c.height then c.ptr else d) cs e)
  | inr e ↦
      let high : ltb k c.height ≡ true = ground arith in
      let is = last_at_settled k (if ltb k c.height then c.ptr else d) cs e in
      rw (is, high) (ground arith)
]

tail_at-suc :
    (k : ℕ) (n : Cell) (post : Cells) (i : ℕ)
    → i ≢ k
    → tail_at k n post i ≡ tail_at (suc k) n post i
tail_at-suc k n post i ne = ground arith

pub first-tail_at :
    (k : ℕ) (n : Cell) (post : Cells) (i : ℕ) (cs : Cells)
    → (i ≡ k → any_above i cs ≡ true)
    → first i (cs ++ tail_at k n post i) ≡ first i (cs ++ tail_at (suc k) n post i)
first-tail_at k n post i cs up = elim (Bool-cases (i == k)) [
  | inl e ↦ rw (
    first-append i cs (tail_at k n post i),
    first-append i cs (tail_at (suc k) n post i),
    up (ground arith),
  )
  | inr e ↦ ap (λ t. first i (cs ++ t)) (tail_at-suc k n post i (ground arith))
]
