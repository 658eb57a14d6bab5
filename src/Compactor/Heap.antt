-- ===== src/Compactor/Heap.antt =====
-- What a pop of the heap gives.
use wisp_db.Base.{
  ◌≡◌, Bool, true, false, ◌&&◌, ◌||◌, inl, inr, List, [], ◌∷◌, arith, ltb, if◌then◌else◌,
  Bool-cases, All,
}
use wisp_db.Key.{Key, key_lt, key_eq}
use wisp_db.SsTable.Entry.{entry_key}
use wisp_db.Compactor.{HeapItem, less, pop}

abbrev pub key_of : HeapItem → Key
key_of x = entry_key x.entry

pub less_of_keys :
    (a b : HeapItem)
    → less a b ≡ (key_lt (key_of a) (key_of b) || (key_eq (key_of a) (key_of b) && ltb b.gen a.gen))
unfolding less key_lt key_eq
less_of_keys a b = ground arith

less-asymm : (a b : HeapItem) → less a b ≡ true → less b a ≡ false
unfolding less
less-asymm a b h = ground arith

less_through : (a b c : HeapItem) → less a b ≡ false → less b c ≡ false → less a c ≡ false
unfolding less
less_through a b c h k = ground arith

pub pop-All {ℓ} :
    (P : HeapItem → Type ℓ) (x : HeapItem) (xs : List HeapItem)
    → P x
    → All P xs
    → P (pop x xs).0 × All P (pop x xs).1
unfolding pop
pop-All P x [] h hs = (h, tt)
pop-All P x (y ∷ ys) h hs =
    let r = pop-All P y ys hs.0 hs.1 in
    elim (Bool-cases (less (pop y ys).0 x)) [ inl e ↦ rw e (r.0, (h, r.1)) | inr e ↦ rw e (h, hs) ]

All-pop {ℓ} :
    (P : HeapItem → Type ℓ) (x : HeapItem) (xs : List HeapItem)
    → P (pop x xs).0
    → All P (pop x xs).1
    → P x × All P xs
unfolding pop
All-pop P x [] h hs = (h, tt)
All-pop P x (y ∷ ys) h hs = go (less (pop y ys).0 x) (λ a b. All-pop P y ys a b) h hs
  where
    picked : Bool → HeapItem × List HeapItem
    picked b = if b then ((pop y ys).0, x ∷ (pop y ys).1) else (x, y ∷ ys)

    go :
        (b : Bool)
        → (P (pop y ys).0 → All P (pop y ys).1 → P y × All P ys)
        → P (picked b).0
        → All P (picked b).1
        → P x × All P (y ∷ ys)
    go true back h hs = (hs.0, back h hs.1)
    go false back h hs = (h, hs)

All-through :
    (p x : HeapItem) (zs : List HeapItem)
    → less p x ≡ false
    → All (λ j. less j p ≡ false) zs
    → All (λ j. less j x ≡ false) zs
All-through p x [] e h = tt
All-through p x (z ∷ zs) e h = (less_through z p x h.0 e, All-through p x zs e h.1)

-- No item is less than the one that is popped.
pub pop-least :
    (x : HeapItem) (xs : List HeapItem) → All (λ j. less j (pop x xs).0 ≡ false) (pop x xs).1
unfolding pop
pop-least x [] = tt
pop-least x (y ∷ ys) = elim (Bool-cases (less (pop y ys).0 x)) [
  | inl e ↦ rw e (less-asymm (pop y ys).0 x e, pop-least y ys)
  | inr e ↦ rw e (
      All-pop (λ j. less j x ≡ false) y ys e
        (All-through (pop y ys).0 x (pop y ys).1 e (pop-least y ys)))
]
