-- ===== src/Compactor.antt =====
-- compactor/compact.go. An iterator of a table is the entries that it has still to yield, so that a
-- heap item holds its entry and what follows it. The writer is the entries that are added to it.
pub mod Heap
pub mod Newest
pub mod Merge
pub mod Compact
pub mod Members
use wisp_db.Base.{
  ℕ, zero, suc, Bool, true, false, not, ◌&&◌, Option, none, some, List, [], ◌∷◌, ltb, ◌==◌,
  if◌then◌else◌, ◌+◌, length,
}
use wisp_db.Base.Int.{ltb_ℤ, eqb_ℤ}
use wisp_db.Key.{Key, key_eq}
use wisp_db.SsTable.Entry.{Entry, entry_key}

pub record HeapItem : Type 0 where
  pub entry : Entry
  pub gen : ℕ
  pub rest : List Entry

-- Less: by key, and the newer generation first.
unfoldable pub less : HeapItem → HeapItem → Bool
less a b =
    if not (a.entry.series_id == b.entry.series_id)
    then ltb a.entry.series_id b.entry.series_id
    else if not (eqb_ℤ a.entry.timestamp b.entry.timestamp)
    then ltb_ℤ a.entry.timestamp b.entry.timestamp
    else ltb b.gen a.gen

-- heap.Pop: a least item, and the others.
unfoldable pub pop : HeapItem → List HeapItem → HeapItem × List HeapItem
pop x [] = (x, [])
pop x (y ∷ ys) = let r = pop y ys in if less r.0 x then (r.0, x ∷ r.1) else (x, y ∷ ys)

-- The push of the next entry of a table, if there is one.
unfoldable pub push_next : ℕ → List Entry → List HeapItem → List HeapItem
push_next gen [] items = items
push_next gen (e ∷ es) items = record { entry = e; gen = gen; rest = es } ∷ items

unfoldable pub is_last : Option Key → Key → Bool
is_last none k = false
is_last (some last) k = key_eq last k

-- The merge loop: the entries that are added to the writer.
unfoldable pub merge_loop : ℕ → Bool → Option Key → List HeapItem → List Entry
merge_loop zero is_major last items = []
merge_loop (suc fuel) is_major last [] = []
merge_loop (suc fuel) is_major last (x ∷ xs) =
    let popped = pop x xs in
    let e = popped.0.entry in
    let items = push_next popped.0.gen popped.0.rest popped.1 in
    let skipped = merge_loop fuel is_major last items in
    let behind = merge_loop fuel is_major (some (entry_key e)) items in
    if is_last last (entry_key e)
    then skipped
    else if e.deleted && is_major
    then behind
    else e ∷ behind

-- The heap that the first loop fills: a table without an entry is not pushed.
unfoldable pub fill : List (ℕ × List Entry) → List HeapItem
fill [] = []
fill ((gen, entries) ∷ tables) = push_next gen entries (fill tables)

unfoldable pub total : List HeapItem → ℕ
total [] = 0
total (x ∷ xs) = suc (length x.rest) + total xs

-- CompactSSTables, as the entries of the table that it writes: each round takes one entry.
unfoldable pub compact_entries : Bool → List (ℕ × List Entry) → List Entry
compact_entries is_major tables = merge_loop (total (fill tables)) is_major none (fill tables)
