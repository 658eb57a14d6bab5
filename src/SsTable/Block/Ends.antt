-- ===== src/SsTable/Block/Ends.antt =====
-- The fuel of the two readers of a block in sstable/reader.go.
use wisp_db.Base.{
  ℕ, zero, suc, ◌<◌, ◌≡◌, ◌≢◌, Bool, false, inl, inr, Option, some, List, ◌∷◌, arith, ltb, ltb→le,
  Bool-cases, length, length-drop, take, drop,
}
use wisp_db.Base.Bytes.{get_le}
use wisp_db.Base.Result.{Result, ok, err, ◌>>=◌}
use wisp_db.Key.{Key}
use wisp_db.SsTable.Block.{
  BlockError, out_of_fuel, deleted_at, value_at, entry_at, read_loop, read_block, find_loop,
  find_entry_in_block,
}

bind-ne :
    {A B : Type 0} (m : Result BlockError A) (f : A → Result BlockError B)
    → m ≢ err out_of_fuel
    → ((a : A) → f a ≢ err out_of_fuel)
    → (m >>= f) ≢ err out_of_fuel
bind-ne (ok a) f h k = k a
bind-ne (err e) f h k = λ x. h cc

value_at-ne : (n : ℕ) (bytes : List ℕ) → value_at n bytes ≢ err out_of_fuel
unfolding value_at
value_at-ne n bytes = ground arith

entry_at-ne : (n : ℕ) (bytes : List ℕ) → entry_at n bytes ≢ err out_of_fuel
unfolding entry_at
entry_at-ne n bytes = bind-ne (value_at n bytes) _ (value_at-ne n bytes) (λ v e. cc)

-- A round that goes on takes four bytes at least.
shorter :
    (fuel n : ℕ) (bytes : List ℕ)
    → length bytes < suc fuel
    → ltb (length bytes) 4 ≡ false
    → length (drop n (drop 4 bytes)) < fuel
shorter fuel n bytes f many =
    omega (arith, length-drop n (drop 4 bytes), length-drop 4 bytes, ltb→le (length bytes) 4 many)

read_loop-ne :
    (fuel : ℕ) (bytes : List ℕ) → length bytes < fuel → read_loop fuel bytes ≢ err out_of_fuel
unfolding read_loop
read_loop-ne zero bytes f = absurd (omega arith)
read_loop-ne (suc fuel) bytes f =
    let n = get_le (take 4 bytes) in
    let rest = drop 4 bytes in
    elim (Bool-cases (ltb (length bytes) 4)) [
      | inl few ↦ rw few (ground arith)
      | inr many ↦
          let next =
            bind-ne (entry_at n rest) (λ e. read_loop fuel (drop n rest) >>= λ es. ok (e ∷ es))
              (entry_at-ne n rest)
              (λ e.
                bind-ne (read_loop fuel (drop n rest)) (λ es. ok (e ∷ es))
                  (read_loop-ne fuel (drop n rest) (shorter fuel n bytes f many)) (λ es x. cc)) in
          ground (arith, next)
    ]

find_loop-ne :
    (k : Key) (fuel : ℕ) (bytes : List ℕ)
    → length bytes < fuel
    → find_loop fuel k bytes ≢ err out_of_fuel
unfolding find_loop
find_loop-ne k zero bytes f = absurd (omega arith)
find_loop-ne k (suc fuel) bytes f =
    let n = get_le (take 4 bytes) in
    let rest = drop 4 bytes in
    elim (Bool-cases (ltb (length bytes) 4)) [
      | inl few ↦ rw few (ground arith)
      | inr many ↦
          let next = find_loop-ne k fuel (drop n rest) (shorter fuel n bytes f many) in
          let here =
            bind-ne {B = Option (List ℕ × Bool)} (value_at n rest)
              (λ value. ok (some (value, deleted_at rest))) (value_at-ne n rest) (λ v x. cc) in
          ground (arith, next, here)
    ]

-- Whatever the bytes are, neither reader runs out of fuel.
pub read_block-ne-out_of_fuel :
    (k : Key) (bytes : List ℕ)
    → (read_block bytes ≢ err out_of_fuel) × (find_entry_in_block k bytes ≢ err out_of_fuel)
unfolding read_block find_entry_in_block
read_block-ne-out_of_fuel k bytes =
    (read_loop-ne _ bytes (omega arith), find_loop-ne k _ bytes (omega arith))
