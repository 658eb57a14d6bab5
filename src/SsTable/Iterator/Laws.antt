-- ===== src/SsTable/Iterator/Laws.antt =====
-- The loop over the iterator of sstable/iterator.go.
use mathlib.Core.Path.{subst}
use wisp_db.Base.{
  ℕ, zero, suc, ◌+◌, ◌≤◌, ◌<◌, ◌≡◌, refl, sym, ap, ◌∙◌, Bool, true, false, not, inl, inr, List, [],
  ◌∷◌, ◌++◌, arith, ltb, ltb→lt, ltb→le, Bool-cases, if◌then◌else◌, length, get_or, drop, drop_add,
}
use wisp_db.Base.Result.{Result, ok, err}
use wisp_db.SsTable.Entry.{Entry}
use wisp_db.SsTable.Reader.{ReadError}
use wisp_db.SsTable.Iterator.{
  Blocks, Iterator, zero_entry, load_loop, load_next_block, new_iterator, entry, next, iterate,
}

-- The entries in front of the first block that cannot be read.
unfoldable pub readable : Blocks → List Entry
readable [] = []
readable (err e ∷ blocks) = []
readable (ok es ∷ blocks) = es ++ readable blocks

-- What the iterator has still to yield.
remaining : Iterator → List Entry
remaining it =
    if it.valid
    then drop it.entry_index it.entries ++ readable (drop it.block_index it.blocks)
    else []

-- A valid iterator stands at an entry.
abbrev IsPlaced : Iterator → Type 0
IsPlaced it = it.valid ≡ true → it.entry_index < length it.entries

drop_next :
    (xs : Blocks) (i : ℕ) (x : Result ReadError (List Entry)) (rest : Blocks)
    → drop i xs ≡ x ∷ rest
    → drop (i + 1) xs ≡ rest
drop_next xs i x rest e = drop_add i 1 xs ∙ ap (drop 1) e

load_loop-remaining :
    (rest : Blocks) (it : Iterator)
    → drop it.block_index it.blocks ≡ rest
    → (remaining (load_loop rest it).1 ≡ readable rest) × IsPlaced (load_loop rest it).1
unfolding load_loop remaining readable
load_loop-remaining [] it e = (refl, λ v. cc)
load_loop-remaining (err x ∷ rest) it e = (refl, λ v. cc)
load_loop-remaining (ok [] ∷ rest) it e =
    load_loop-remaining rest (record it { block_index = it.block_index + 1 })
      (drop_next it.blocks it.block_index (ok []) rest e)
load_loop-remaining (ok (x ∷ xs) ∷ rest) it e = (
  ap (λ l. x ∷ xs ++ readable l) (drop_next it.blocks it.block_index (ok (x ∷ xs)) rest e),
  λ v. omega arith,
)

drop_at :
    (xs : List Entry) (i : ℕ) → i < length xs → drop i xs ≡ get_or xs i zero_entry ∷ drop (i + 1) xs
drop_at [] i h = absurd (omega arith)
drop_at (x ∷ xs) zero h = refl
drop_at (x ∷ xs) (suc i) h =
    let e : suc i + 1 ≡ suc (i + 1) = omega arith in rw e (drop_at xs i (omega arith))

drop_past : (xs : List Entry) (i : ℕ) → length xs ≤ i → drop i xs ≡ []
drop_past [] zero h = refl
drop_past [] (suc i) h = refl
drop_past (x ∷ xs) zero h = absurd (omega arith)
drop_past (x ∷ xs) (suc i) h = drop_past xs i (omega arith)

choose {ℓ} :
    {A : Type ℓ} (a b c : A) (v l l' : Bool)
    → v ≡ true
    → l ≡ l'
    → (if not v then a else if l then b else c) ≡ (if l' then b else c)
choose a b c v l l' ev el =
    ap (λ x. if not x then a else if l then b else c) ev ∙ ap (λ x. if x then b else c) el

module _ (it : Iterator) (v : it.valid ≡ true) where
  abbrev moved : Iterator
  moved = record it { entry_index = it.entry_index + 1 }

  next_of :
      (within : Bool)
      → ltb (it.entry_index + 1) (length it.entries) ≡ within
      → next it ≡ (if within then (true, moved) else load_next_block moved)
  unfolding next
  next_of within e =
      choose (false, it) (true, moved) (load_next_block moved) it.valid
        (ltb (it.entry_index + 1) (length it.entries)) within v e

  remaining_valid :
      remaining it ≡ drop it.entry_index it.entries ++ readable (drop it.block_index it.blocks)
  unfolding remaining
  remaining_valid =
      ap
        (λ x.
          if x
          then drop it.entry_index it.entries ++ readable (drop it.block_index it.blocks)
          else [])
        v

  entry_valid : entry it ≡ get_or it.entries it.entry_index zero_entry
  unfolding entry
  entry_valid =
      ap (λ x. if not x then zero_entry else get_or it.entries it.entry_index zero_entry) v

remaining_invalid : (it : Iterator) → it.valid ≡ false → remaining it ≡ []
unfolding remaining
remaining_invalid it v =
    ap
      (λ x.
        if x
        then drop it.entry_index it.entries ++ readable (drop it.block_index it.blocks)
        else [])
      v

-- A step of a valid iterator takes one entry off what remains.
next-remaining :
    (it : Iterator)
    → it.valid ≡ true
    → it.entry_index < length it.entries
    → (remaining it ≡ entry it ∷ remaining (next it).1) × IsPlaced (next it).1
next-remaining it v placed = go (ltb (it.entry_index + 1) (length it.entries)) refl
  where
    front :
        (rest : List Entry)
        → drop (it.entry_index + 1) it.entries ++ readable (drop it.block_index it.blocks) ≡ rest
        → remaining it ≡ entry it ∷ rest
    front rest e =
        remaining_valid it v
        ∙ ap (λ l. l ++ readable (drop it.block_index it.blocks))
            (drop_at it.entries it.entry_index placed)
        ∙ ap (λ l. get_or it.entries it.entry_index zero_entry ∷ l) e
        ∙ ap (λ x. x ∷ rest) (sym (entry_valid it v))

    go :
        (within : Bool)
        → ltb (it.entry_index + 1) (length it.entries) ≡ within
        → (remaining it ≡ entry it ∷ remaining (next it).1) × IsPlaced (next it).1
    go true e =
        subst (λ n. (remaining it ≡ entry it ∷ remaining n.1) × IsPlaced n.1)
          (sym (next_of it v true e))
          (
            front (remaining (moved it v)) (sym (remaining_valid (moved it v) v)),
            λ w. ltb→lt (it.entry_index + 1) (length it.entries) e,
          )
    go false e =
        let past =
          drop_past it.entries (it.entry_index + 1)
            (ltb→le (it.entry_index + 1) (length it.entries) e) in
        let l = load_loop-remaining (drop it.block_index it.blocks) (moved it v) refl in
        let loaded : remaining (load_next_block (moved it v)).1
            ≡ readable (drop it.block_index it.blocks) =
          unfold load_next_block in l.0 in
        subst (λ n. (remaining it ≡ entry it ∷ remaining n.1) × IsPlaced n.1)
          (sym (next_of it v false e))
          (
            front (remaining (load_next_block (moved it v)).1)
                (ap (λ l. l ++ readable (drop it.block_index it.blocks)) past ∙ sym loaded),
            unfold load_next_block in l.1,
          )

nil_of_length : (xs : List Entry) → length xs ≤ 0 → [] ≡ xs
nil_of_length [] h = refl
nil_of_length (x ∷ xs) h = absurd (omega arith)

iterate-remaining :
    (fuel : ℕ) (it : Iterator)
    → IsPlaced it
    → length (remaining it) ≤ fuel
    → iterate fuel it ≡ remaining it
unfolding iterate
iterate-remaining zero it placed enough = nil_of_length (remaining it) enough
iterate-remaining (suc fuel) it placed enough = elim (Bool-cases it.valid) [
  | inl v ↦
      let n = next-remaining it v (placed v) in
      let shorter = ap length n.0 in
      let r = iterate-remaining fuel (next it).1 n.1 (omega (arith, enough, shorter)) in
      ap (λ x. if x then entry it ∷ iterate fuel (next it).1 else []) v
      ∙ ap (λ l. entry it ∷ l) r
      ∙ sym n.0
  | inr v ↦
      ap (λ x. if x then entry it ∷ iterate fuel (next it).1 else []) v
      ∙ sym (remaining_invalid it v)
]

-- With rounds enough for all of them, a loop over a new iterator yields the entries of the blocks
-- in front of the first one that cannot be read, in order, and then ends, as if the table ended
-- there.
pub iterate-readable :
    (fuel : ℕ) (blocks : Blocks)
    → length (readable blocks) ≤ fuel
    → iterate fuel (new_iterator blocks) ≡ readable blocks
unfolding new_iterator load_next_block
iterate-readable fuel blocks enough =
    let start : Iterator = record {
      blocks = blocks;
      block_index = 0;
      entries = [];
      entry_index = 0;
      valid = false;
    } in
    let l = load_loop-remaining blocks start refl in
    iterate-remaining fuel (load_loop blocks start).1 l.1 (omega (arith, enough, ap length l.0))
    ∙ l.0
