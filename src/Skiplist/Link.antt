-- ===== src/Skiplist/Link.antt =====
-- The linking loop of `insert`, one round at a time.
use wisp_db.Base.{
  ℕ, zero, suc, ◌+◌, ◌<◌, ◌≡◌, refl, sym, ap, ◌≢◌, inl, inr, true, false, ◌∙◌, some, List, [], ◌∷◌,
  ◌++◌, arith, ltb, ltb→lt, lt→ltb, le→ltb, ◌==◌, ==-refl, if◌then◌else◌, Bool-cases, get_elem?,
  set,
}
use mathlib.Core.Path.{subst}
use wisp_db.Skiplist.{Ptr, null, Node, Heap, write, link, link_loop}
use wisp_db.Skiplist.Cells.{
  Cell, Cells, first, last_at, any_above, has, Holds, Chain, Distinct, first-append,
  last_at_settled,
}
use wisp_db.Skiplist.Partly.{
  Before, Partly, Target, target, tail_at, first-tail_at, has-last_at, Holds-same, Holds-set,
  Chain-frame,
}

-- One link changes, among the cells before the new one, only its predecessor on the level.
module _ (h g : Heap) (k : ℕ) (n : Cell) (post : Cells) (p : Ptr) (tall : k < n.height)
    (same : (q : Ptr) → q ≢ p → q ≢ n.ptr → g q ≡ h q)
    (changed : (node : Node)
      → h p ≡ some node
      → g p ≡ some (record node { forward = set node.forward k n.ptr })) where
  Holds-aside :
      (c : Cell) (cs : Cells)
      → Holds h c (λ i. first i (cs ++ tail_at k n post i))
      → c.ptr ≢ p
      → c.ptr ≢ n.ptr
      → (k < c.height → any_above k cs ≡ true)
      → Holds g c (λ i. first i (cs ++ tail_at (suc k) n post i))
  Holds-aside c cs held ne ne' up =
      Holds-same g _ held (same c.ptr ne ne')
        λ i q. first-tail_at k n post i cs λ e. rw e (up (omega arith))

  Holds-linked :
      (c : Cell) (cs : Cells)
      → Holds h c (λ i. first i (cs ++ tail_at k n post i))
      → c.ptr ≡ p
      → k < c.height
      → any_above k cs ≡ false
      → Holds g c (λ i. first i (cs ++ tail_at (suc k) n post i))
  Holds-linked c cs held is high none =
      let leads : first k (cs ++ tail_at (suc k) n post k) ≡ n.ptr = rw (
        first-append k cs (tail_at (suc k) n post k),
        none,
        lt→ltb k (suc k) (omega arith),
        lt→ltb k n.height tall,
      ) in
      Holds-set g _ held k high (rw (is, leads) (changed held.node (rw is at held.at)))
        λ i q ne. first-tail_at k n post i cs λ e. absurd (ne e)

  Before-suc :
      (pre : Cells) (d : Ptr)
      → Before h k n post pre
      → Distinct pre
      → has n.ptr pre ≡ false
      → has d pre ≡ false
      → p ≡ last_at k d pre
      → Before g (suc k) n post pre
  Before-suc [] d b di out apart is = tt
  Before-suc (c ∷ cs) d b di out apart is = (
    elim (Bool-cases (any_above k cs)) [
      | inl e ↦
          let found = has-last_at k (if ltb k c.height then c.ptr else d) cs e in
          Holds-aside c cs b.0 (λ x. ground (arith, rw (← is) at found)) (ground arith) (λ q. e)
      | inr e ↦
          let settled = is ∙ last_at_settled k (if ltb k c.height then c.ptr else d) cs e in
          elim (Bool-cases (ltb k c.height)) [
            | inl high ↦ Holds-linked c cs b.0 (ground arith) (ltb→lt k c.height high) e
            | inr low ↦ Holds-aside c cs b.0 (ground arith) (ground arith) (λ q. ground arith)
          ]
    ],
    Before-suc cs (if ltb k c.height then c.ptr else d) b.1 di.2 (ground arith) (ground arith) is,
  )

-- The new node's array after the round.
Holds-new :
    (h g : Heap) (k : ℕ) (n : Cell) (post : Cells)
    (held : Holds h n (λ i. if ltb i k then first i post else null))
    → k < n.height
    → g n.ptr ≡ some (record held.node { forward = set held.node.forward k (first k post) })
    → Holds g n (λ i. if ltb i (suc k) then first i post else null)
Holds-new h g k n post held tall at =
    let here : (if ltb k (suc k) then first k post else null) ≡ first k post = ground arith in
    Holds-set g _ held k tall (rw here at) λ i q ne. ground arith

-- The heap after a round: the new node's array and the predecessor's are written.
abbrev relinked : Heap → Ptr → Node → Ptr → Node → ℕ → Ptr → Heap
relinked h new m p node k q =
    write (write h new (record m { forward = set m.forward k q })) p
      (record node { forward = set node.forward k new })

module _ (h : Heap) (new : Ptr) (m : Node) (p : Ptr) (node : Node) (k : ℕ) (q : Ptr)
    (ne : p ≢ new) where
  link-relinked :
      (update : List Ptr)
      → get_elem? update k ≡ some p
      → h p ≡ some node
      → get_elem? node.forward k ≡ some q
      → h new ≡ some m
      → link h new update k ≡ some (relinked h new m p node k q)
  unfolding link
  link-relinked update at hp hq hn =
      let other : (p == new) ≡ false = ground arith in rw (at, hp, hq, hn, other)

  relinked_other : (r : Ptr) → r ≢ p → r ≢ new → relinked h new m p node k q r ≡ h r
  relinked_other r x y = ground arith

  relinked_pred :
      (node' : Node)
      → h p ≡ some node
      → h p ≡ some node'
      → relinked h new m p node k q p ≡ some (record node' { forward = set node'.forward k new })
  relinked_pred node' e e' = let is : node ≡ node' = cc in rw (is, ==-refl p) refl

  relinked_new : relinked h new m p node k q new ≡ some (record m { forward = set m.forward k q })
  relinked_new = let other : (new == p) ≡ false = ground arith in rw (other, ==-refl new)

-- One round of the loop returns, and takes the state one level up.
pub link-Partly :
    (h : Heap) (k : ℕ) (n : Cell) (pre post : Cells) (update : List Ptr)
    → Partly h k n pre post
    → k < n.height
    → Distinct pre
    → has n.ptr pre ≡ false
    → has n.ptr post ≡ false
    → ((q : Ptr) → has q pre ≡ true → has q post ≡ false)
    → any_above k pre ≡ true
    → get_elem? update k ≡ some (last_at k n.ptr pre)
    → (g : Heap) × (link h n.ptr update k ≡ some g) × Partly g (suc k) n pre post
link-Partly h k n pre post update s tall di out_pre out_post apart up at =
    go (last_at k n.ptr pre) refl (target h k n post pre n.ptr s.befores up)
      (has-last_at k n.ptr pre up)
  where
    go :
        (p : Ptr)
        → p ≡ last_at k n.ptr pre
        → Target h k n post pre p
        → has p pre ≡ true
        → (g : Heap) × (link h n.ptr update k ≡ some g) × Partly g (suc k) n pre post
    go p is t among =
        let ne : p ≢ n.ptr = λ e. ground (arith, rw e at among) in
        let node = t.holds.node in
        let m = s.new.node in
        let q = first k post in
        let held : h p ≡ some node = rw t.is_ptr at t.holds.at in
        let leads : get_elem? node.forward k ≡ some q = rw (
          t.holds.forward k t.high,
          first-append k t.rest (tail_at k n post k),
          t.none,
          le→ltb k k (omega arith),
        ) in
        (
          relinked h n.ptr m p node k q,
          link-relinked h n.ptr m p node k q ne update (at ∙ ap some (sym is)) held leads s.new.at,
          record {
            befores =
                Before-suc h (relinked h n.ptr m p node k q) k n post p tall
                  (relinked_other h n.ptr m p node k q ne)
                  (λ node' e. relinked_pred h n.ptr m p node k q ne node' held e) pre n.ptr
                  s.befores di out_pre out_pre is;
            new = Holds-new h _ k n post s.new tall (relinked_new h n.ptr m p node k q ne);
            afters =
                Chain-frame h _ post
                  (λ r in_post.
                    relinked_other h n.ptr m p node k q ne r
                      (λ e. ground (arith, apart p among, rw e at in_post))
                      (λ e. ground (arith, rw e at in_post)))
                  s.afters;
          },
        )

-- The whole loop, from level `k` up to the height of the new node.
pub link_loop-Partly :
    (count k : ℕ) (h : Heap) (n : Cell) (pre post : Cells) (update : List Ptr)
    → Partly h k n pre post
    → count + k ≡ n.height
    → Distinct pre
    → has n.ptr pre ≡ false
    → has n.ptr post ≡ false
    → ((q : Ptr) → has q pre ≡ true → has q post ≡ false)
    → ((j : ℕ) → j < n.height → any_above j pre ≡ true)
    → ((j : ℕ) → j < n.height → get_elem? update j ≡ some (last_at j n.ptr pre))
    → (g : Heap) × (link_loop count k h n.ptr update ≡ some g) × Partly g n.height n pre post
unfolding link_loop
link_loop-Partly zero k h n pre post update s sum di out_pre out_post apart up at =
    let e : k ≡ n.height = omega arith in (h, refl, subst (λ j. Partly h j n pre post) e s)
link_loop-Partly (suc count) k h n pre post update s sum di out_pre out_post apart up at =
    let tall : k < n.height = omega arith in
    let (h', e, s') =
      link-Partly h k n pre post update s tall di out_pre out_post apart (up k tall) (at k tall) in
    let (g, e', s'') =
      link_loop-Partly count (suc k) h' n pre post update s' (omega arith) di out_pre out_post apart
        up at in
    (g, rw e e', s'')

first-linked :
    (n : Cell) (post : Cells) (i : ℕ) (cs : Cells)
    → first i (cs ++ tail_at n.height n post i) ≡ first i (cs ++ n ∷ post)
first-linked n post i cs = elim (Bool-cases (ltb i n.height)) [
  | inl e ↦ rw e
  | inr e ↦ rw (first-append i cs (tail_at n.height n post i), first-append i cs (n ∷ post), e)
]

Before-Chain :
    (g : Heap) (n : Cell) (post pre : Cells)
    → Before g n.height n post pre
    → Chain g (n ∷ post)
    → Chain g (pre ++ n ∷ post)
Before-Chain g n post [] b ch = ch
Before-Chain g n post (c ∷ cs) b ch =
    (Holds-same g _ b.0 refl (λ i p. first-linked n post i cs), Before-Chain g n post cs b.1 ch)

-- After the last round the heap holds the chain with the new node in it.
pub Partly-Chain :
    (g : Heap) (n : Cell) (pre post : Cells)
    → Partly g n.height n pre post
    → Chain g (pre ++ n ∷ post)
Partly-Chain g n pre post s =
    Before-Chain g n post pre s.befores
      (Holds-same g _ s.new refl (λ i p. rw (lt→ltb i n.height p)), s.afters)
