-- ===== src/Engine/Compact/Layers.antt =====
-- The newest entry among tables of descending generations, and what is read through layers.
use wisp_db.Base.{
  ℕ, ◌≤◌, ◌<◌, ◌≡◌, ◌≢◌, refl, sym, ap, ◌∙◌, Bool, true, false, none, some, List, [], ◌∷◌, ◌++◌,
  map, arith, le→ltb, All,
}
use wisp_db.Key.{Key}
use wisp_db.MemTable.{live_value}
use wisp_db.Compactor.Newest.{hit, better}
use wisp_db.Compactor.Newest
use wisp_db.Compactor.Compact.{visible, DistinctTables, newest_in}
use wisp_db.SsTable.Entry.{Entry, IsStored, find_entry}
use wisp_db.SsTable.Sorted.{IsAscendingEntries}
use wisp_db.Engine.View.{Hit, Layers, IsLayer, over, over_assoc, find_layers}

-- Without the generation.
unfoldable pub value_of : Newest.Hit → Hit
value_of none = none
value_of (some a) = some a.1

-- What a reader sees of a value that is not deleted.
pub live_over :
    (a b b' : Hit) → live_value b ≡ live_value b' → live_value (over a b) ≡ live_value (over a b')
unfolding over
live_over none b b' e = e
live_over (some a) b b' e = refl

pub live_visible : (m : Bool) (o : Newest.Hit) → live_value (visible m o) ≡ live_value (value_of o)
unfolding live_value visible value_of
live_visible m none = refl
live_visible true (some (g, (v, true))) = refl
live_visible false (some (g, (v, true))) = refl
live_visible m (some (g, (v, false))) = refl

-- The generation of a hit is below a bound.
abbrev pub HitBelow : ℕ → Newest.Hit → Type 0
HitBelow n none = Unit {0}
HitBelow n (some a) = a.0 < n

better_first :
    (n g : ℕ) (o : Hit) (b : Newest.Hit)
    → g < n
    → HitBelow g b
    → HitBelow n (better (hit g o) b) × (value_of (better (hit g o) b) ≡ over o (value_of b))
unfolding better hit over value_of
better_first n g none none lt h = (tt, refl)
better_first n g none (some b) lt h = (omega (arith, lt, h), refl)
better_first n g (some v) none lt h = (lt, refl)
better_first n g (some v) (some b) lt h = rw (le→ltb g b.0 (omega (arith, h))) (lt, refl)

pub layers-IsStored : (ls : Layers) → All IsLayer ls → All (All IsStored) ls
layers-IsStored [] h = tt
layers-IsStored (l ∷ ls) h = (h.0.0, layers-IsStored ls h.1)

pub layers-IsAscendingEntries : (ls : Layers) → All IsLayer ls → All IsAscendingEntries ls
layers-IsAscendingEntries [] h = tt
layers-IsAscendingEntries (l ∷ ls) h = (h.0.1, layers-IsAscendingEntries ls h.1)

-- Generations that descend strictly, below a bound.
abbrev pub Descending : ℕ → List (ℕ × List Entry) → Type 0
Descending n [] = Unit {0}
Descending n (t ∷ ts) = (t.0 < n) × Descending t.0 ts

-- The newest entry is the one of the first table that has one.
pub newest_in-find_layers :
    (k : Key) (n : ℕ) (ts : List (ℕ × List Entry))
    → Descending n ts
    → HitBelow n (newest_in k ts) × (value_of (newest_in k ts) ≡ find_layers k (map (λ t. t.1) ts))
unfolding newest_in find_layers value_of
newest_in-find_layers k n [] h = (tt, refl)
newest_in-find_layers k n (t ∷ ts) h =
    let rest = newest_in-find_layers k t.0 ts h.1 in
    let first = better_first n t.0 (find_entry k t.1) (newest_in k ts) h.0 rest.0 in
    (first.0, first.1 ∙ ap (over (find_entry k t.1)) rest.1)

pub Descending-DistinctTables :
    (n : ℕ) (ts : List (ℕ × List Entry)) → Descending n ts → DistinctTables ts
unfolding DistinctTables
Descending-DistinctTables n [] h = tt
Descending-DistinctTables n (t ∷ ts) h =
    (others t.0 ts h.1 (omega arith), Descending-DistinctTables t.0 ts h.1)
  where
    others :
        (m : ℕ) (us : List (ℕ × List Entry)) → Descending m us → m ≤ t.0 → All (λ u. t.0 ≢ u.0) us
    others m [] b le = tt
    others m (u ∷ us) b le =
        ((λ e. absurd (omega (arith, e, b.0, le))), others u.0 us b.1 (omega (arith, b.0, le)))

-- Layers in front of others.
pub find_layers-append :
    (k : Key) (xs ys : Layers)
    → find_layers k (xs ++ ys) ≡ over (find_layers k xs) (find_layers k ys)
unfolding find_layers over
find_layers-append k [] ys = refl
find_layers-append k (es ∷ xs) ys =
    ap (over (find_entry k es)) (find_layers-append k xs ys)
    ∙ sym (over_assoc (find_entry k es) (find_layers k xs) (find_layers k ys))

-- The layers after a compaction of everything.
abbrev pub layers_after : List Entry → Layers
layers_after [] = []
layers_after (e ∷ es) = (e ∷ es) ∷ []

pub layers_after-find :
    (k : Key) (es : List Entry) → find_layers k (layers_after es) ≡ find_entry k es
unfolding find_layers over find_entry
layers_after-find k [] = refl
layers_after-find k (e ∷ es) = go (find_entry k (e ∷ es))
  where
    go : (o : Hit) → over o none ≡ o
    go none = refl
    go (some a) = refl
