-- ===== src/SsTable/SstableList/Order.antt =====
-- The order of the tables of the list, and a snapshot over a replacement.
use wisp_db.Base.{
  ℕ, ◌+◌, ◌^◌, ◌≤◌, ◌<◌, ◌≡◌, ap, ◌∙◌, Bool, true, not, Option, some, List, [], ◌∷◌, ◌++◌, arith,
  inl, inr, Bool-cases, ltb, ne→==, ltb→lt, ltb→le, ◌==◌, length, get_elem?, All,
}
use wisp_db.Base.Sort.{insert_sorted, sort_by}
use wisp_db.SsTable.SstableList.{
  SstableFile, SstableList, add, update, revive, replace_tables, get_tables, gen_of, by_gen,
}
use wisp_db.SsTable.SstableList.Counts.{count, count-append, IsCounted}
use wisp_db.SsTable.SstableList.Laws.{get_tables-IsCounted, Counted-same}
use wisp_db.SsTable.SstableList.Replace.{AreListed, new_refs, replace_tables-IsCounted}

-- By the generations `g`, no pointer stands behind one of a smaller generation.
pub IsNewestFirst : (ℕ → ℕ) → List ℕ → Type 0
IsNewestFirst g [] = Unit
IsNewestFirst g (p ∷ ps) = All (λ q. g q ≤ g p) ps × IsNewestFirst g ps

module _ (g : ℕ → ℕ) where
  abbrev newer : ℕ → ℕ → Bool
  newer p q = ltb (g q) (g p)

  All-insert_sorted :
      (n p : ℕ) (ps : List ℕ)
      → g p ≤ n
      → All (λ q. g q ≤ n) ps
      → All (λ q. g q ≤ n) (insert_sorted newer p ps)
  unfolding insert_sorted
  All-insert_sorted n p [] h a = (h, tt)
  All-insert_sorted n p (q ∷ qs) h a = elim (Bool-cases (newer q p)) [
    | inl e ↦ rw e (a.0, All-insert_sorted n p qs h a.1)
    | inr e ↦ rw e (h, a)
  ]

  All-below : (m n : ℕ) (ps : List ℕ) → m ≤ n → All (λ q. g q ≤ m) ps → All (λ q. g q ≤ n) ps
  All-below m n [] h a = tt
  All-below m n (q ∷ qs) h a = (omega (arith, h, a.0), All-below m n qs h a.1)

  insert_sorted-IsNewestFirst :
      (p : ℕ) (ps : List ℕ) → IsNewestFirst g ps → IsNewestFirst g (insert_sorted newer p ps)
  unfolding insert_sorted IsNewestFirst
  insert_sorted-IsNewestFirst p [] h = (tt, tt)
  insert_sorted-IsNewestFirst p (q ∷ qs) h = elim (Bool-cases (newer q p)) [
    | inl e ↦
        let lt : g p < g q = ltb→lt (g p) (g q) e in
        rw e (
          All-insert_sorted (g q) p qs (omega (arith, lt)) h.0,
          insert_sorted-IsNewestFirst p qs h.1,
        )
    | inr e ↦
        let le : g q ≤ g p = ltb→le (g p) (g q) e in rw e ((le, All-below (g q) (g p) qs le h.0), h)
  ]

  sort_by-IsNewestFirst : (ps : List ℕ) → IsNewestFirst g (sort_by newer ps)
  unfolding sort_by IsNewestFirst
  sort_by-IsNewestFirst [] = tt
  sort_by-IsNewestFirst (p ∷ ps) =
      insert_sorted-IsNewestFirst p (sort_by newer ps) (sort_by-IsNewestFirst ps)

-- The generation of a pointer's table.
abbrev pub gens : List SstableFile → ℕ → ℕ
gens files p = gen_of (get_elem? files p)

-- After Add, the tables stand in descending order of their generations.
pub add-IsNewestFirst :
    (p : ℕ) (l : SstableList) → IsNewestFirst (gens (add p l).files) (add p l).tables
unfolding add by_gen
add-IsNewestFirst p l =
    let l' = update revive (get_elem? l.files p) p l in
    sort_by-IsNewestFirst (gens l'.files) (l'.tables ++ p ∷ [])

-- A snapshot of counted tables, taken where the counts have room and replaced by ReplaceTables
-- afterwards: the reader of each of its tables is open still.
pub snapshot-IsOpen :
    (olds : List ℕ) (new : Option ℕ) (held : List ℕ) (l : SstableList)
    → length l.tables + length l.tables + length (new_refs new ++ held) < 2 ^ 31
    → IsCounted l (new_refs new ++ held)
    → AreListed olds (get_tables l).1
    → (p : ℕ) (f : SstableFile) → 0 < count p (get_tables l).0
    → get_elem? (replace_tables olds new (get_tables l).1).1.files p ≡ some f
    → f.reader ≡ true
snapshot-IsOpen olds new held l room h listed p f inside at =
    let s = get_tables-IsCounted l (new_refs new ++ held) room h in
    let l' = (get_tables l).1 in
    let c =
      Counted-same l'.files l'.tables l'.tables ((get_tables l).0 ++ (new_refs new ++ held))
        (new_refs new ++ ((get_tables l).0 ++ held)) (λ q. shift q) s in
    let r = replace_tables-IsCounted olds new ((get_tables l).0 ++ held) l' listed c in
    (r.counted p f at).1 ∙ held_p
  where
    shift :
        (q : ℕ)
        → count q (get_tables l).1.tables + count q ((get_tables l).0 ++ (new_refs new ++ held))
          ≡ count q (get_tables l).1.tables + count q (new_refs new ++ ((get_tables l).0 ++ held))
    shift q =
        let a = count-append q (get_tables l).0 (new_refs new ++ held) in
        let b = count-append q (new_refs new) held in
        let c = count-append q (new_refs new) ((get_tables l).0 ++ held) in
        let d = count-append q (get_tables l).0 held in omega (arith, a, b, c, d)

    held_p :
        not (
          count p (replace_tables olds new (get_tables l).1).1.tables
            + count p ((get_tables l).0 ++ held)
          == 0)
        ≡ true
    held_p =
        let d = count-append p (get_tables l).0 held in
        let n =
          count p (replace_tables olds new (get_tables l).1).1.tables
          + count p ((get_tables l).0 ++ held) in
        ap not (ne→== n 0 (λ e. absurd (omega (arith, e, d, inside))))
