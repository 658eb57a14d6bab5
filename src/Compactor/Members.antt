-- ===== src/Compactor/Members.antt =====
-- The entries of the output of a compaction, against those of the tables.
use wisp_db.Base.{
  ℕ, zero, suc, Bool, ◌&&◌, inl, inr, Option, none, some, List, [], ◌∷◌, Bool-cases, All,
}
use wisp_db.Key.{Key}
use wisp_db.SsTable.Entry.{Entry, entry_key}
use wisp_db.Compactor.{HeapItem, pop, push_next, is_last, merge_loop, fill, total, compact_entries}
use wisp_db.Compactor.Heap.{pop-All}

module _ {ℓ} (P : Entry → Type ℓ) where
  abbrev OfItem : HeapItem → Type ℓ
  OfItem x = P x.entry × All P x.rest

  push_next-OfItem :
      (gen : ℕ) (rest : List Entry) (js : List HeapItem)
      → All P rest
      → All OfItem js
      → All OfItem (push_next gen rest js)
  unfolding push_next
  push_next-OfItem gen [] js h hs = hs
  push_next-OfItem gen (e ∷ es) js h hs = (h, hs)

  merge_loop-All :
      (fuel : ℕ) (m : Bool) (last : Option Key) (items : List HeapItem)
      → All OfItem items
      → All P (merge_loop fuel m last items)
  unfolding merge_loop
  merge_loop-All zero m last items h = tt
  merge_loop-All (suc fuel) m last [] h = tt
  merge_loop-All (suc fuel) m last (x ∷ xs) h =
      let p = (pop x xs).0 in
      let popped = pop-All OfItem x xs h.0 h.1 in
      let items = push_next-OfItem p.gen p.rest (pop x xs).1 popped.0.1 popped.1 in
      let skipped = merge_loop-All fuel m last (push_next p.gen p.rest (pop x xs).1) items in
      let behind =
        merge_loop-All fuel m (some (entry_key p.entry)) (push_next p.gen p.rest (pop x xs).1)
          items in
      elim (Bool-cases (is_last last (entry_key p.entry))) [
        | inl l ↦ rw l skipped
        | inr l ↦ elim (Bool-cases (p.entry.deleted && m)) [
          | inl d ↦ rw (l, d) behind
          | inr d ↦ rw (l, d) (popped.0.0, behind)
        ]
      ]

  fill-OfItem : (ts : List (ℕ × List Entry)) → All (λ t. All P t.1) ts → All OfItem (fill ts)
  unfolding fill
  fill-OfItem [] h = tt
  fill-OfItem ((gen, entries) ∷ ts) h =
      push_next-OfItem gen entries (fill ts) h.0 (fill-OfItem ts h.1)

  pub compact_entries-All :
      (is_major : Bool) (tables : List (ℕ × List Entry))
      → All (λ t. All P t.1) tables
      → All P (compact_entries is_major tables)
  unfolding compact_entries
  compact_entries-All is_major tables h =
      merge_loop-All (total (fill tables)) is_major none (fill tables) (fill-OfItem tables h)
