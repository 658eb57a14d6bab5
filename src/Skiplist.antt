-- ===== src/Skiplist.antt =====
-- skiplist/skiplist.go. Nodes live at addresses of an explicit heap, of which `null` is Go's nil;
-- `none` is a panic (a nil dereference, an index out of range) or a loop that ran out of rounds.
pub mod Cells
pub mod Walk
pub mod Partly
pub mod Iterate
pub mod Refines
pub mod Overwrite
pub mod Height
pub mod Insert
pub mod Splits
pub mod Link
pub mod Descend
use wisp_db.Base.{
  ℕ, zero, suc, ◌+◌, ◌-◌, Bool, true, false, ◌&&◌, not, Option, none, some, List, [], ◌∷◌, ltb,
  ◌==◌, if◌then◌else◌, get_elem?, set, replicate,
}
use wisp_db.Base.Int.{pos}
use wisp_db.Key.{Key, key_lt, key_eq}

abbrev pub Ptr : Type 0
Ptr = ℕ

abbrev pub null : Ptr
null = 0

pub record Node : Type 0 where
  pub key : Key
  pub value : List ℕ
  pub deleted : Bool
  pub forward : List Ptr

abbrev pub Heap : Type 0
Heap = Ptr → Option Node

-- `fresh` is the address that the next allocation gives; `key_lt` stands for the comparator.
pub record Skiplist : Type 0 where
  pub nodes : Heap
  pub fresh : Ptr
  pub head : Ptr
  pub max_level : ℕ
  pub curr_top_level : ℕ
  pub length : ℕ

infixl 5 ◌>>=◌
abbrev pub ◌>>=◌ {ℓ κ} : {A : Type ℓ} {B : Type κ} → Option A → (A → Option B) → Option B
none >>= f = none
some a >>= f = f a

abbrev pub zero_key : Key
zero_key = record { series_id = 0; timestamp = pos 0 }

abbrev pub write : Heap → Ptr → Node → Heap
write h p n q = if q == p then some n else h q

-- The draws say which of the calls of `rand.Float32()` gave less than 0.5; the loop makes no
-- more of them than `max_level`.
random_loop : ℕ → List Bool → ℕ → ℕ
random_loop max_level [] level = level
random_loop max_level (less ∷ draws) level =
    let more = random_loop max_level draws (level + 1) in
    if less && ltb level max_level then more else level

pub generate_random_level : ℕ → List Bool → ℕ
unfolding random_loop
generate_random_level max_level draws = random_loop max_level draws 1

pub new_skiplist : ℕ → Skiplist
new_skiplist max_level = record {
  nodes =
      write (λ p. none) 1
        (record {
          key = zero_key;
          value = [];
          deleted = false;
          forward = replicate max_level null;
        });
  fresh = 2;
  head = 1;
  max_level = max_level;
  curr_top_level = 1;
  length = 0;
}

-- The inner loop of `insert` and `Search`, along one level.
pub walk : ℕ → Heap → ℕ → Key → Ptr → Option Ptr
walk zero h i key current = none
walk (suc fuel) h i key current = do
  n ← h current
  next ← get_elem? n.forward i
  if next == null then some current else do
    m ← h next
    let rest = walk fuel h i key next
    if key_lt m.key key then rest else some current

-- The outer loop of `insert`, from the level below the first argument down to 0.
pub descend : ℕ → Heap → Key → ℕ → Ptr → List Ptr → Option (List Ptr)
descend fuel h key zero current update = some update
descend fuel h key (suc i) current update = do
  p ← walk fuel h i key current
  descend fuel h key i p (set update i p)

-- `for i := from; i < from + count; i++ { update[i] = s.head }`
pub raise_update : ℕ → ℕ → Ptr → List Ptr → List Ptr
raise_update zero from head update = update
raise_update (suc count) from head update =
    raise_update count (suc from) head (set update from head)

-- `new.forward[i] = update[i].forward[i]; update[i].forward[i] = new`
pub link : Heap → Ptr → List Ptr → ℕ → Option Heap
link h new update i = do
  p ← get_elem? update i
  n ← h p
  q ← get_elem? n.forward i
  m ← h new
  let h' = write h new (record m { forward = set m.forward i q })
  n' ← h' p
  some (write h' p (record n' { forward = set n'.forward i new }))

pub link_loop : ℕ → ℕ → Heap → Ptr → List Ptr → Option Heap
link_loop zero i h new update = some h
link_loop (suc count) i h new update = do
  h' ← link h new update i
  link_loop count (suc i) h' new update

-- What `insert` does once no node with the key is found.
pub insert_node : Skiplist → Key → List ℕ → Bool → ℕ → List Ptr → Option Skiplist
insert_node s key value deleted level update =
    let higher = ltb s.curr_top_level level in
    let update' =
      if higher
      then raise_update (level - s.curr_top_level) s.curr_top_level s.head update
      else update in
    let top = if higher then level else s.curr_top_level in
    let node : Node = record {
      key = key;
      value = value;
      deleted = deleted;
      forward = replicate level null;
    } in
    do
      h ← link_loop level 0 (write s.nodes s.fresh node) s.fresh update'
      some
          (record s { nodes = h; fresh = suc s.fresh; curr_top_level = top; length = s.length + 1 })

-- `next != nil && next.Key == key`
pub is_match : Heap → Ptr → Key → Option Bool
is_match h next key = if next == null then some false else do m ← h next; some (key_eq m.key key)

pub overwrite : Skiplist → Ptr → List ℕ → Bool → Option Skiplist
overwrite s p value deleted = do
  m ← s.nodes p
  some (record s { nodes = write s.nodes p (record m { value = value; deleted = deleted }) })

-- The array `update` after the walk down; a level has at most `length` nodes to pass.
pub predecessors : Skiplist → Key → Option (List Ptr)
predecessors s key =
    descend (suc s.length) s.nodes key s.curr_top_level s.head (replicate s.max_level null)

pub insert : Skiplist → Key → List ℕ → Bool → List Bool → Option Skiplist
unfolding is_match overwrite
insert s key value deleted draws = do
  update ← predecessors s key
  p ← get_elem? update 0
  n ← s.nodes p
  next ← get_elem? n.forward 0
  found ← is_match s.nodes next key
  let level = generate_random_level s.max_level draws
  if found then overwrite s next value deleted else insert_node s key value deleted level update

-- Insert and Delete.
pub put : Skiplist → Key → List ℕ → List Bool → Option Skiplist
put s key value draws = insert s key value false draws

pub delete : Skiplist → Key → List Bool → Option Skiplist
delete s key draws = insert s key [] true draws

pub search_loop : ℕ → Heap → Key → ℕ → Ptr → Option Ptr
search_loop fuel h key zero current = some current
search_loop fuel h key (suc i) current = do
  p ← walk fuel h i key current
  search_loop fuel h key i p

-- Search: the node found, or `null`.
pub search_node : Skiplist → Key → Option Ptr
unfolding is_match
search_node s key = do
  p ← search_loop (suc s.length) s.nodes key s.curr_top_level s.head
  n ← s.nodes p
  next ← get_elem? n.forward 0
  found ← is_match s.nodes next key
  some (if found then next else null)

-- Lookup: `none` for not found, else the value and the tombstone mark.
pub lookup : Skiplist → Key → Option (Option (List ℕ × Bool))
lookup s key = do
  p ← search_node s key
  if p == null then some none else do n ← s.nodes p; some (some (n.value, n.deleted))

-- Iterator, Valid, Next and Entry: an iterator is the address of its current node.
pub iterator : Skiplist → Option Ptr
iterator s = do n ← s.nodes s.head; get_elem? n.forward 0

pub iterator_valid : Ptr → Bool
iterator_valid current = not (current == null)

pub iterator_next : Heap → Ptr → Option Ptr
iterator_next h current =
    if current == null then some current else do n ← h current; get_elem? n.forward 0

pub iterator_entry : Heap → Ptr → Option (Key × List ℕ × Bool)
iterator_entry h current =
    if current == null
    then some (zero_key, [], false)
    else do n ← h current; some (n.key, n.value, n.deleted)

-- `for it.Valid() { … it.Entry() …; it.Next() }`: the entries that such a loop sees.
pub iterate : ℕ → Heap → Ptr → Option (List (Key × List ℕ × Bool))
iterate zero h current = none
iterate (suc fuel) h current =
    let more = iterator_entry h current >>= λ entry.
    iterator_next h current >>= λ next. iterate fuel h next >>= λ rest. some (entry ∷ rest) in
    if iterator_valid current then more else some []
