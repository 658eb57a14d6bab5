-- ===== src/Engine/Order.antt =====
-- The order of the tables by their generations, and of the segments of the log.
use wisp_db.Base.{ℕ, ◌≤◌, ◌<◌, ◌≡◌, refl, ap, ◌∙◌, [], ◌∷◌, ◌++◌, arith, lt→ltb, le→ltb, All}
use wisp_db.Base.Sort.{sort_by, insert_sorted}
use wisp_db.SsTable.Reader.{Reader}
use wisp_db.Wal.Log.Files.{Chunks}
use wisp_db.Wal.Log.Reclaim.{kept_above}
use wisp_db.Engine.{Tables, by_newest}
use wisp_db.Engine.View.{BelowGen}

pub insert_last :
    (x : ℕ × Reader) (ts : Tables) → BelowGen x.0 ts → insert_sorted by_newest x ts ≡ x ∷ ts
unfolding insert_sorted by_newest
insert_last x [] h = refl
insert_last x (t ∷ ts) h = rw (le→ltb x.0 t.0 (omega (arith, h.0)))

pub BelowGen-mono : (m n : ℕ) (us : Tables) → m ≤ n → BelowGen m us → BelowGen n us
BelowGen-mono m n [] le h = tt
BelowGen-mono m n (u ∷ us) le h = (omega (arith, h.0, le), h.1)

-- A table of a newer generation goes to the front.
pub sort_by-BelowGen :
    (t : ℕ × Reader) (ts : Tables) → BelowGen t.0 ts → sort_by by_newest (ts ++ t ∷ []) ≡ t ∷ ts
unfolding sort_by insert_sorted by_newest
sort_by-BelowGen t [] h = refl
sort_by-BelowGen t (x ∷ ts) h =
    let below = BelowGen-mono x.0 t.0 ts (omega (arith, h.0)) h.1 in
    let rest = sort_by-BelowGen t ts below in
    ap (insert_sorted by_newest x) rest
    ∙ rw (lt→ltb x.0 t.0 h.0) (ap (λ l. t ∷ l) (insert_last x ts h.1))

pub kept_above_news :
    (seg : ℕ) (olds news : Chunks)
    → All (λ c. c.0 ≤ seg) olds
    → All (λ c. seg < c.0) news
    → kept_above seg (olds ++ news) ≡ news
kept_above_news seg [] [] ho hn = refl
kept_above_news seg [] (c ∷ news) ho hn =
    rw (lt→ltb seg c.0 hn.0) (ap (λ l. c ∷ l) (kept_above_news seg [] news tt hn.1))
kept_above_news seg (c ∷ olds) news ho hn =
    rw (le→ltb seg c.0 ho.0) (kept_above_news seg olds news ho.1 hn)
