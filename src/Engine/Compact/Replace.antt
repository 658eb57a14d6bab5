-- ===== src/Engine/Compact/Replace.antt =====
-- ReplaceTables where the old tables stand behind newer ones.
use wisp_db.Base.{
  ℕ, ◌+◌, ◌<◌, ◌≡◌, refl, ap, ◌∙◌, Bool, true, false, [], ◌∷◌, ◌++◌, arith, ◌==◌, ◌||◌, ==-refl,
  ne→==, All,
}
use mathlib.Core.List.{append-nil}
use wisp_db.Base.Sort.{sort_by, insert_sorted}
use wisp_db.SsTable.Reader.{Reader}
use wisp_db.Engine.{Tables, by_newest}
use wisp_db.Engine.View.{BelowGen}
use wisp_db.Engine.Order.{insert_last}
use wisp_db.Engine.Compact.{has_gen, kept_tables, tables_replaced}

has_gen-above : (gen g : ℕ) (olds : Tables) → BelowGen gen olds → gen < g → has_gen g olds ≡ false
unfolding has_gen
has_gen-above gen g [] h lt = refl
has_gen-above gen g (t ∷ ts) h lt =
    rw (ne→== t.0 g (λ e. absurd (omega (arith, e, h.0, lt))))
      (has_gen-above t.0 g ts h.1 (omega (arith, h.0, lt)))

kept_tables-fronts :
    (gen : ℕ) (olds fronts ts : Tables)
    → BelowGen gen olds
    → All (λ t. gen < t.0) fronts
    → kept_tables olds (fronts ++ ts) ≡ fronts ++ kept_tables olds ts
unfolding kept_tables
kept_tables-fronts gen olds [] ts h n = refl
kept_tables-fronts gen olds (t ∷ fronts) ts h n =
    rw (has_gen-above gen t.0 olds h n.0)
      (ap (λ l. t ∷ l) (kept_tables-fronts gen olds fronts ts h n.1))

Members : Tables → Tables → Type 0
Members olds ts = All (λ t. has_gen t.0 olds ≡ true) ts

kept_tables-Members : (olds ts : Tables) → Members olds ts → kept_tables olds ts ≡ []
unfolding kept_tables Members
kept_tables-Members olds [] h = refl
kept_tables-Members olds (t ∷ ts) h = rw (h.0) (kept_tables-Members olds ts h.1)

Members-grown : (t : ℕ × Reader) (olds ts : Tables) → Members olds ts → Members (t ∷ olds) ts
unfolding Members has_gen
Members-grown t olds [] h = tt
Members-grown t olds (u ∷ us) h = (go (t.0 == u.0), Members-grown t olds us h.1)
  where
    go : (b : Bool) → (b || has_gen u.0 olds) ≡ true
    go true = refl
    go false = h.0

Members-refl : (olds : Tables) → Members olds olds
unfolding Members has_gen
Members-refl [] = tt
Members-refl (t ∷ ts) = (rw (==-refl t.0) refl, Members-grown t ts ts (Members-refl ts))

-- Tables that descend already stay in order.
sort_by-descending : (n : ℕ) (ts : Tables) → BelowGen n ts → sort_by by_newest ts ≡ ts
unfolding sort_by
sort_by-descending n [] h = refl
sort_by-descending n (t ∷ ts) h =
    ap (insert_sorted by_newest t) (sort_by-descending t.0 ts h.1) ∙ insert_last t ts h.1

pub BelowGen-fronts :
    (n gen : ℕ) (fronts olds news : Tables)
    → BelowGen n (fronts ++ olds)
    → All (λ t. gen < t.0) fronts
    → gen < n
    → BelowGen (gen + 1) news
    → BelowGen n (fronts ++ news)
BelowGen-fronts n gen [] olds [] h a lt b = tt
BelowGen-fronts n gen [] olds (t ∷ news) h a lt b = (omega (arith, lt, b.0), b.1)
BelowGen-fronts n gen (t ∷ fronts) olds news h a lt b =
    (h.0, BelowGen-fronts t.0 gen fronts olds news h.1 a.1 a.0 b)

pub tables_replaced-fronts :
    (n gen : ℕ) (fronts olds news : Tables)
    → BelowGen n (fronts ++ olds)
    → BelowGen gen olds
    → All (λ t. gen < t.0) fronts
    → gen < n
    → BelowGen (gen + 1) news
    → tables_replaced olds news (fronts ++ olds) ≡ fronts ++ news
unfolding tables_replaced
tables_replaced-fronts n gen fronts olds news h below newer lt b =
    ap (λ ts. sort_by by_newest (ts ++ news))
      (kept_tables-fronts gen olds fronts olds below newer
        ∙ ap (λ ts. fronts ++ ts) (kept_tables-Members olds olds (Members-refl olds))
        ∙ append-nil fronts)
    ∙ sort_by-descending n (fronts ++ news) (BelowGen-fronts n gen fronts olds news h newer lt b)
