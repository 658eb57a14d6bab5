-- ===== src/SsTable/SstableList/Counts.antt =====
-- How often a pointer is held, and files whose counts are those of the references to them.
use mathlib.Core.Path.{subst}
use mathlib.Core.Option.{none-ne-some, some-injective}
use wisp_db.Base.{
  ℕ, zero, suc, ◌+◌, ◌≤◌, ◌<◌, ◌≡◌, ◌≢◌, refl, sym, ap, ◌∙◌, Bool, not, none, some, List, [], ◌∷◌,
  ◌++◌, arith, inl, inr, Bool-cases, ◌==◌, if◌then◌else◌, length, get_elem?, set,
  get_elem?-set_self, get_elem?-set_ne,
}
use wisp_db.Base.Int.{pos}
use wisp_db.Base.Sort.{insert_sorted, sort_by}
use wisp_db.SsTable.SstableList.{SstableFile, SstableList}

unfoldable pub count : ℕ → List ℕ → ℕ
count p [] = 0
count p (q ∷ qs) = (if p == q then 1 else 0) + count p qs

pub count-append : (p : ℕ) (xs ys : List ℕ) → count p (xs ++ ys) ≡ count p xs + count p ys
unfolding count
count-append p [] ys = omega arith
count-append p (x ∷ xs) ys = let e = count-append p xs ys in omega (arith, e)

pub count-length : (p : ℕ) (xs : List ℕ) → count p xs ≤ length xs
unfolding count
count-length p [] = omega arith
count-length p (x ∷ xs) = ground (arith, count-length p xs)

count-insert_sorted :
    (less : ℕ → ℕ → Bool) (p x : ℕ) (xs : List ℕ)
    → count p (insert_sorted less x xs) ≡ count p (x ∷ xs)
unfolding count insert_sorted
count-insert_sorted less p x [] = refl
count-insert_sorted less p x (y ∷ ys) = elim (Bool-cases (less y x)) [
  | inl e ↦ rw e (let r = count-insert_sorted less p x ys in omega (arith, r))
  | inr e ↦ rw e
]

-- Sorting keeps the counts.
pub count-sort_by :
    (less : ℕ → ℕ → Bool) (p : ℕ) (xs : List ℕ) → count p (sort_by less xs) ≡ count p xs
unfolding count sort_by
count-sort_by less p [] = refl
count-sort_by less p (x ∷ xs) =
    let r = count-sort_by less p xs in
    let s = count-insert_sorted less p x (sort_by less xs) in
    s ∙ ap (◌+◌ (if p == x then 1 else 0)) r

-- A file of `n` references: the reader is open exactly while there is one.
abbrev pub HasRefs : SstableFile → ℕ → Type 0
HasRefs f n = (f.ref_count ≡ pos n) × (f.reader ≡ not (n == 0))

abbrev pub AllHave : List SstableFile → (ℕ → ℕ) → Type 0
AllHave files c = (p : ℕ) (f : SstableFile) → get_elem? files p ≡ some f → HasRefs f (c p)

abbrev pub Counted : List SstableFile → List ℕ → List ℕ → Type 0
Counted files tables held = AllHave files (λ p. count p tables + count p held)

-- Every count is that of the list's references and of those that are held.
abbrev pub IsCounted : SstableList → List ℕ → Type 0
IsCounted l held = Counted l.files l.tables held

pub get_elem?-some_lt {ℓ} :
    {A : Type ℓ} (xs : List A) (i : ℕ) (a : A) → get_elem? xs i ≡ some a → i < length xs
get_elem?-some_lt [] i a e = absurd (none-ne-some a e)
get_elem?-some_lt (x ∷ xs) zero a e = omega arith
get_elem?-some_lt (x ∷ xs) (suc i) a e = let r = get_elem?-some_lt xs i a e in omega (arith, r)

-- A write of one file, whose count alone may change.
pub set-AllHave :
    (files : List SstableFile) (p : ℕ) (f f' : SstableFile) (c c' : ℕ → ℕ)
    → get_elem? files p ≡ some f
    → AllHave files c
    → ((q : ℕ) → q ≢ p → c' q ≡ c q)
    → HasRefs f' (c' p)
    → AllHave (set files p f') c'
set-AllHave files p f f' c c' e h same new q g eq = elim (Bool-cases (p == q)) [
  | inl s ↦
      let here : q ≡ p = ground (arith, s) in
      let there = get_elem?-set_self files p f' (get_elem?-some_lt files p f e) in
      let f'≡g : f' ≡ g =
        some-injective f' g (sym there ∙ ap (get_elem? (set files p f')) (sym here) ∙ eq) in
      subst (λ x. HasRefs x (c' q)) f'≡g (subst (λ r. HasRefs f' (c' r)) (sym here) new)
  | inr n ↦
      let ne : p ≢ q = ground (arith, n) in
      subst (λ m. HasRefs g m) (sym (same q (λ s. ne (sym s))))
        (h q g (sym (get_elem?-set_ne files p q f' ne) ∙ eq))
]

pub none-AllHave :
    (files : List SstableFile) (p : ℕ) (c c' : ℕ → ℕ)
    → get_elem? files p ≡ none
    → AllHave files c
    → ((q : ℕ) → q ≢ p → c' q ≡ c q)
    → AllHave files c'
none-AllHave files p c c' e h same q g eq = elim (Bool-cases (p == q)) [
  | inl s ↦
      let here : q ≡ p = ground (arith, s) in
      absurd (none-ne-some g (sym e ∙ ap (get_elem? files) (sym here) ∙ eq))
  | inr n ↦
      let ne : p ≢ q = ground (arith, n) in
      subst (λ m. HasRefs g m) (sym (same q (λ s. ne (sym s)))) (h q g eq)
]
