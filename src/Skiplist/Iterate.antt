-- ===== src/Skiplist/Iterate.antt =====
-- The iterator of skiplist/skiplist.go.
use mathlib.Core.Path.{refl}
use wisp_db.Base.{
  ℕ, zero, suc, ◌<◌, ◌≡◌, Bool, false, some, List, [], ◌∷◌, map, arith, lt→ltb, ◌==◌, length, All,
  get_elem?, ap, ◌∙◌,
}
use wisp_db.Key.{Key}
use wisp_db.Rows.{Row, Rows}
use wisp_db.Skiplist.{
  Ptr, null, Heap, Node, Skiplist, iterator, iterator_valid, iterator_next, iterator_entry, iterate,
  ◌>>=◌,
}
use wisp_db.Skiplist.Splits.{All-mono}
use wisp_db.Skiplist.Cells.{Cells, rows_of, first, Chain, Distinct, IsSkiplist, TallBelow}

abbrev pub entry_of : Row → Key × List ℕ × Bool
entry_of r = (r.key, r.value, r.deleted)

abbrev pub entries_of : Rows → List (Key × List ℕ × Bool)
entries_of = map entry_of

iterate_step :
    (fuel : ℕ) (h : Heap) (p : Ptr) (n : Node) (next : Ptr) (rest : List (Key × List ℕ × Bool))
    → (p == null) ≡ false
    → h p ≡ some n
    → get_elem? n.forward 0 ≡ some next
    → iterate fuel h next ≡ some rest
    → iterate (suc fuel) h p ≡ some ((n.key, n.value, n.deleted) ∷ rest)
unfolding iterate iterator_valid iterator_next iterator_entry
iterate_step fuel h p n next rest live at leads more = rw (live, at, leads, more)

iterate-Chain :
    (fuel : ℕ) (h : Heap) (cs : Cells)
    → Chain h cs
    → Distinct cs
    → All (λ c. 0 < c.height) cs
    → length cs < fuel
    → iterate fuel h (first 0 cs) ≡ some (entries_of (rows_of cs))
unfolding iterate iterator_valid iterator_next iterator_entry
iterate-Chain zero h cs ch di tall f = absurd (omega arith)
iterate-Chain (suc fuel) h [] ch di tall f = refl
iterate-Chain (suc fuel) h (c ∷ cs) ch di tall f =
    let live : (c.ptr == null) ≡ false = ground arith in
    rw (lt→ltb 0 c.height tall.0) (
      iterate_step fuel h c.ptr ch.0.node (first 0 cs) (entries_of (rows_of cs)) live ch.0.at
        (ch.0.forward 0 tall.0) (iterate-Chain fuel h cs ch.1 di.2 tall.1 (omega arith))
      ∙ ap (λ e. some (e ∷ entries_of (rows_of cs)))
          (λ i. (ch.0.key i, ch.0.value i, ch.0.deleted i)))

-- On a valid skiplist, the loop over an iterator ends, panics nowhere and yields the rows in order.
pub iterate-rows :
    (s : Skiplist) (cs : Cells)
    → IsSkiplist s cs
    → (iterator s >>= λ start. iterate (suc s.length) s.nodes start)
      ≡ some (entries_of (rows_of cs))
unfolding iterator
iterate-rows s cs v =
    rw (v.chain.0.at, v.chain.0.forward 0 (omega (arith, v.top)))
      (iterate-Chain (suc s.length) s.nodes cs v.chain.1 v.distinct.2
        (All-mono (TallBelow s) (λ c. 0 < c.height) cs (λ c x. x.0) v.heights)
        (omega (arith, v.counted)))
