-- ===== src/SsTable/Iterator.antt =====
-- sstable/iterator.go. `blocks` is what readBlock gives for each entry of the reader's index.
pub mod Laws
use wisp_db.Base.{
  ℕ, zero, suc, ◌+◌, Bool, true, false, not, Option, List, [], ◌∷◌, map, ltb, if◌then◌else◌, length,
  get_or, drop,
}
use wisp_db.Base.Int.{pos}
use wisp_db.Base.Result.{Result, ok, err}
use wisp_db.Key.{Key}
use wisp_db.SsTable.Entry.{Entry, entry_key}
use wisp_db.SsTable.Reader.{Reader, ReadError, read_block}

abbrev pub Blocks : Type 0
Blocks = List (Result ReadError (List Entry))

pub record Iterator : Type 0 where
  pub blocks : Blocks
  pub block_index : ℕ
  pub entries : List Entry
  pub entry_index : ℕ
  pub valid : Bool

abbrev pub zero_entry : Entry
zero_entry = record { series_id = 0; timestamp = pos 0; deleted = false; value = [] }

-- The loop of loadNextBlock, over the blocks from `block_index` on.
load_loop : Blocks → Iterator → Bool × Iterator
load_loop [] it = (false, record it { valid = false })
load_loop (err e ∷ blocks) it = (false, record it { valid = false })
load_loop (ok [] ∷ blocks) it = load_loop blocks (record it { block_index = it.block_index + 1 })
load_loop (ok (e ∷ es) ∷ blocks) it = (
  true,
  record it { block_index = it.block_index + 1; entries = e ∷ es; entry_index = 0; valid = true },
)

pub load_next_block : Iterator → Bool × Iterator
load_next_block it = load_loop (drop it.block_index it.blocks) it

-- Iterator, from the blocks that the index gives.
unfoldable pub new_iterator : Blocks → Iterator
new_iterator blocks =
    (load_next_block
      (record { blocks = blocks; block_index = 0; entries = []; entry_index = 0; valid = false })).1

-- Iterator, of a reader.
pub reader_iterator : (List ℕ → Option (List ℕ)) → Reader → Iterator
reader_iterator decompress r = new_iterator (map (read_block decompress r) r.index)

-- Entry and Key.
unfoldable pub entry : Iterator → Entry
entry it = if not it.valid then zero_entry else get_or it.entries it.entry_index zero_entry

pub key : Iterator → Key
key it = entry_key (entry it)

-- Next.
pub next : Iterator → Bool × Iterator
next it =
    let it' = record it { entry_index = it.entry_index + 1 } in
    let load = load_next_block it' in
    if not it.valid
    then (false, it)
    else if ltb it'.entry_index (length it'.entries)
    then (true, it')
    else load

-- What a client sees: `for it.Valid() { use(it.Entry()); it.Next() }`.
pub iterate : ℕ → Iterator → List Entry
iterate zero it = []
iterate (suc fuel) it =
    let rest = iterate fuel (next it).1 in if it.valid then entry it ∷ rest else []
