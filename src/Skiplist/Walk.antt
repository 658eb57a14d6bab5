-- ===== src/Skiplist/Walk.antt =====
-- The walks of `insert` and `Search` stop at the last nodes before the key.
use wisp_db.Base.{
  ℕ, zero, suc, ◌≤◌, ◌<◌, ◌≡◌, refl, sym, ap, ◌≢◌, inl, inr, true, false, ◌∙◌, some, [], ◌∷◌, ◌++◌,
  arith, ltb, ltb→lt, lt→ltb, ◌==◌, if◌then◌else◌, Bool-cases, length, All, Option, length-append,
}
use mathlib.Core.Path.{subst}
use mathlib.Core.List.{append_assoc}
use wisp_db.Key.{Key, key_lt}
use wisp_db.Key.Order.{key_lt_trans}
use wisp_db.Rows.{IsSorted, Above}
use wisp_db.Skiplist.{Ptr, null, Heap, walk}
use wisp_db.Skiplist.Cells.{
  Cell, Cells, rows_of, first, last_at, any_above, before, Holds, Chain, Distinct, first-append,
  any_above-append, last_at-append, Chain-drop, Distinct-drop,
}

abbrev AllBefore : Key → Cells → Type 0
AllBefore k cs = All (λ c. key_lt c.key k ≡ true) cs

before_all : (k : Key) (xs ys : Cells) → AllBefore k xs → before k (xs ++ ys) ≡ xs ++ before k ys
before_all k [] ys h = refl
before_all k (c ∷ xs) ys h = rw (h.0, before_all k xs ys h.1)

-- Behind a cell that is not before the key there is none that is.
none_before :
    (k : Key) (c : Cell) (cs : Cells)
    → key_lt c.key k ≡ false
    → Above c.key (rows_of cs)
    → All (λ d. key_lt d.key k ≡ false) cs
none_before k c [] h a = tt
none_before k c (d ∷ cs) h a =
    (ground (arith, key_lt_trans c.key d.key k), none_before k c cs h a.1)

AllBefore-append :
    (k : Key) (xs : Cells) (d : Cell)
    → AllBefore k xs
    → key_lt d.key k ≡ true
    → AllBefore k (xs ++ d ∷ [])
AllBefore-append k [] d h e = (e, tt)
AllBefore-append k (c ∷ xs) d h e = (h.0, AllBefore-append k xs d h.1 e)

-- The walk may leave out what stands before a cell that reaches the level.
last_at_through :
    (k : Key) (j : ℕ) (p : Ptr) (sk : Cells) (d : Cell) (rest : Cells)
    → AllBefore k sk
    → key_lt d.key k ≡ true
    → j < d.height
    → last_at j p (before k (sk ++ d ∷ rest)) ≡ last_at j d.ptr (before k rest)
last_at_through k j p sk d rest pre e reach =
    let up : ltb j d.height ≡ true = lt→ltb j d.height reach in
    rw (before_all k sk (d ∷ rest) pre, e, last_at-append j p sk (d ∷ before k rest))
      (ap (λ b. last_at j (if b then d.ptr else last_at j p sk) (before k rest)) up)

pub IsSorted-drop : (xs ys : Cells) → IsSorted (rows_of (xs ++ ys)) → IsSorted (rows_of ys)
IsSorted-drop [] ys s = s
IsSorted-drop (x ∷ xs) ys s = IsSorted-drop xs ys s.1

-- Where a walk along level `i`, from the cell `c` with the cells `cs` behind it, has come to.
pub record Reached (h : Heap) (i : ℕ) (k : Key) (c : Cell) (cs : Cells) (result : Option Ptr)
    : Type 0 where
  pub cell : Cell
  pub rest : Cells
  pub stops : result ≡ some cell.ptr
  pub chain : Chain h (cell ∷ rest)
  pub distinct : Distinct (cell ∷ rest)
  pub sorted : IsSorted (rows_of rest)
  pub high : i < cell.height
  pub shorter : length rest ≤ length cs
  pub settled : any_above i (before k rest) ≡ false
  pub same : (j : ℕ) → j ≤ i → last_at j cell.ptr (before k rest) ≡ last_at j c.ptr (before k cs)

module _ {h : Heap} {i : ℕ} (k : Key) {c : Cell} {f : ℕ → Ptr} (held : Holds h c f)
    (high : i < c.height) where
  walk_end : (fuel : ℕ) → f i ≡ null → walk (suc fuel) h i k c.ptr ≡ some c.ptr
  unfolding walk
  walk_end fuel e = rw (held.at, held.forward i high, e)

  walk_on :
      (fuel : ℕ) (d : Cell) (g : ℕ → Ptr)
      → f i ≡ d.ptr
      → d.ptr ≢ null
      → Holds h d g
      → walk (suc fuel) h i k c.ptr ≡ (if key_lt d.key k then walk fuel h i k d.ptr else some c.ptr)
  unfolding walk
  walk_on fuel d g e ne next =
      let live : (d.ptr == null) ≡ false = ground arith in
      rw (held.at, held.forward i high, e, live, next.at, next.key)

module _ (h : Heap) (i : ℕ) (k : Key) where
  -- With nothing before the key behind these cells, and none of them on the level, the walk ends.
  walk_stop :
      (rest sk : Cells) (c : Cell) (fuel : ℕ)
      → Chain h (c ∷ sk ++ rest)
      → Distinct (c ∷ sk ++ rest)
      → i < c.height
      → any_above i sk ≡ false
      → All (λ d. key_lt d.key k ≡ false) rest
      → walk (suc fuel) h i k c.ptr ≡ some c.ptr
  walk_stop [] sk c fuel ch di high none_sk out =
      walk_end k ch.0 high fuel (rw (first-append i sk [], none_sk))
  walk_stop (d ∷ rest) sk c fuel ch di high none_sk out = elim (Bool-cases (ltb i d.height)) [
    | inl e ↦
        let later = Chain-drop h sk (d ∷ rest) ch.1 in
        let leads : first i (sk ++ d ∷ rest) ≡ d.ptr =
          rw (first-append i sk (d ∷ rest), none_sk, e) in
        let ne = (Distinct-drop sk (d ∷ rest) di.2).0 in
        rw (walk_on k ch.0 high fuel d (λ j. first j rest) leads ne later.0, out.0)
    | inr e ↦
        let shift = sym (append_assoc sk (d ∷ []) rest) in
        walk_stop rest (sk ++ d ∷ []) c fuel (subst (λ l. Chain h (c ∷ l)) shift ch)
          (subst (λ l. Distinct (c ∷ l)) shift di) high
          (rw (any_above-append i sk (d ∷ []), none_sk, e)) out.1
  ]

  pub walk-Reached :
      (rest sk : Cells) (c : Cell) (fuel : ℕ)
      → Chain h (c ∷ sk ++ rest)
      → Distinct (c ∷ sk ++ rest)
      → IsSorted (rows_of (sk ++ rest))
      → i < c.height
      → any_above i sk ≡ false
      → AllBefore k sk
      → length rest < fuel
      → Reached h i k c (sk ++ rest) (walk fuel h i k c.ptr)
  walk-Reached rest sk c zero ch di so high none_sk pre f = absurd (omega arith)
  walk-Reached [] sk c (suc fuel) ch di so high none_sk pre f = record {
    cell = c;
    rest = sk ++ [];
    stops = walk_stop [] sk c fuel ch di high none_sk tt;
    chain = ch;
    distinct = di;
    sorted = so;
    high = high;
    shorter = omega arith;
    settled = rw (before_all k sk [] pre, any_above-append i sk [], none_sk);
    same = λ j p. refl;
  }
  walk-Reached (d ∷ rest) sk c (suc fuel) ch di so high none_sk pre f =
      elim (Bool-cases (key_lt d.key k)) [
        | inr e ↦ record {
          cell = c;
          rest = sk ++ d ∷ rest;
          stops =
              walk_stop (d ∷ rest) sk c fuel ch di high none_sk
                (e, none_before k d rest e (IsSorted-drop sk (d ∷ rest) so).0);
          chain = ch;
          distinct = di;
          sorted = so;
          high = high;
          shorter = omega arith;
          settled = rw (before_all k sk (d ∷ rest) pre, e, any_above-append i sk [], none_sk);
          same = λ j p. refl;
        }
        | inl e ↦ elim (Bool-cases (ltb i d.height)) [
          | inl up ↦
              let tail = IsSorted-drop sk (d ∷ rest) so in
              let later = Chain-drop h sk (d ∷ rest) ch.1 in
              let apart = Distinct-drop sk (d ∷ rest) di.2 in
              let leads : first i (sk ++ d ∷ rest) ≡ d.ptr =
                rw (first-append i sk (d ∷ rest), none_sk, up) in
              let r =
                walk-Reached rest [] d fuel later apart tail.1 (ltb→lt _ _ up) refl tt
                  (omega arith) in
              record {
                cell = r.cell;
                rest = r.rest;
                stops =
                    rw (walk_on k ch.0 high fuel d (λ j. first j rest) leads apart.0 later.0, e)
                      r.stops;
                chain = r.chain;
                distinct = r.distinct;
                sorted = r.sorted;
                high = r.high;
                shorter = omega (arith, r.shorter, length-append sk (d ∷ rest));
                settled = r.settled;
                same = λ j p.
                    r.same j p
                    ∙ sym (
                        last_at_through k j c.ptr sk d rest pre e
                          (omega (arith, ltb→lt i d.height up)));
              }
          | inr down ↦
              let shift = append_assoc sk (d ∷ []) rest in
              subst (λ l. Reached h i k c l (walk (suc fuel) h i k c.ptr)) shift
                (walk-Reached rest (sk ++ d ∷ []) c (suc fuel)
                  (subst (λ l. Chain h (c ∷ l)) (sym shift) ch)
                  (subst (λ l. Distinct (c ∷ l)) (sym shift) di)
                  (subst (λ l. IsSorted (rows_of l)) (sym shift) so) high
                  (rw (any_above-append i sk (d ∷ []), none_sk, down))
                  (AllBefore-append k sk d pre e) (omega arith))
        ]
      ]
