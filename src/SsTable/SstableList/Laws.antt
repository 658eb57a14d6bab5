-- ===== src/SsTable/SstableList/Laws.antt =====
-- The references of the table list of sstable/sstable_list.go, over its snapshots.
use mathlib.Core.Path.{subst}
use wisp_db.Base.{
  ℕ, suc, ◌+◌, ◌-◌, ◌^◌, ◌<◌, ◌≡◌, ◌≢◌, refl, sym, ap, ◌∙◌, Bool, true, false, not, ◌||◌, ◌⊎◌,
  Option, none, some, List, [], ◌∷◌, ◌++◌, arith, inl, inr, Bool-cases, ne→==, ==-refl, ◌==◌,
  if◌then◌else◌, length, get_elem?,
}
use wisp_db.SsTable.SstableList.{
  SstableFile, SstableList, next_int32, prev_int32, is_positive, is_zero, is_negative, with_count,
  with_files, incr_ref, decr_ref, went_negative, incr_at, decr_at, update, take_refs, get_tables,
  release_tables,
}
use wisp_db.SsTable.SstableList.Counts.{
  count, count-append, count-length, HasRefs, Counted, IsCounted, set-AllHave, none-AllHave,
}

pub suc_is_some : (m : ℕ) → not (suc m == 0) ≡ true
suc_is_some m = ground arith

decr-HasRefs :
    (f : SstableFile) (m : ℕ)
    → HasRefs f (suc m)
    → HasRefs (decr_ref f) m × (went_negative f ≡ false)
unfolding decr_ref prev_int32 went_negative is_zero is_negative with_count
decr-HasRefs f m h = rw (h.0) ((refl, reader (m == 0) f.reader (h.1 ∙ suc_is_some m)), refl)
  where
    reader : (b x : Bool) → x ≡ true → (if b then false else x) ≡ not b
    reader true x e = refl
    reader false x e = e

-- A counted file with room in its `int32` gives a reference, or refuses it and stays as it is.
incr-HasRefs :
    (f : SstableFile) (m : ℕ)
    → m + 1 < 2 ^ 31
    → HasRefs f m
    → ((incr_ref f).0 ≡ true) × HasRefs (incr_ref f).1 (suc m)
      ⊎ ((incr_ref f).0 ≡ false) × ((incr_ref f).1 ≡ f)
unfolding incr_ref next_int32 is_positive with_count
incr-HasRefs f m h r = elim (Bool-cases (not (is_positive f.ref_count) || f.unlinked || f.closed)) [
  | inl e ↦ inr (rw e (refl, refl))
  | inr e ↦
      let here : is_positive f.ref_count ≡ true =
        taken (is_positive f.ref_count) f.unlinked f.closed e in
      let some_ref : not (m == 0) ≡ true = sym (ap is_positive r.0) ∙ here in
      inl (
        rw (e, r.0, ne→== m (2 ^ 31 - 1) (λ s. absurd (omega (arith, s, h))))
          (refl, (refl, r.1 ∙ some_ref ∙ sym (suc_is_some m))))
]
  where
    taken : (a b c : Bool) → not a || b || c ≡ false → a ≡ true
    taken true b c e = refl
    taken false true true e = sym e
    taken false true false e = sym e
    taken false false true e = sym e
    taken false false false e = sym e

pub decr_at-Counted :
    (l : SstableList) (p : ℕ) (ts held : List ℕ)
    → Counted l.files ts (p ∷ held)
    → Counted (decr_at (get_elem? l.files p) p l).1.files ts held
      × ((decr_at (get_elem? l.files p) p l).0 ≡ false)
unfolding decr_at count
decr_at-Counted l p ts held h = go (get_elem? l.files p) refl
  where
    off : (q : ℕ) → q ≢ p → count q ts + count q held ≡ count q ts + count q (p ∷ held)
    off q n = rw (ne→== q p n) (omega arith)

    on : count p ts + count p (p ∷ held) ≡ suc (count p ts + count p held)
    on = rw (==-refl p) (omega arith)

    go :
        (o : Option SstableFile)
        → get_elem? l.files p ≡ o
        → Counted (decr_at o p l).1.files ts held × ((decr_at o p l).0 ≡ false)
    go none e = (
      none-AllHave l.files p (λ q. count q ts + count q (p ∷ held)) (λ q. count q ts + count q held)
          e h off,
      refl,
    )
    go (some f) e =
        let d = decr-HasRefs f (count p ts + count p held) (subst (HasRefs f) on (h p f e)) in
        (
          set-AllHave l.files p f (decr_ref f) (λ q. count q ts + count q (p ∷ held))
              (λ q. count q ts + count q held) e h off d.0,
          d.1,
        )

-- A write that leaves the count and the reader of a counted file.
pub update-Counted :
    (g : SstableFile → SstableFile) (l : SstableList) (p : ℕ) (ts held : List ℕ)
    → ((f : SstableFile)
        → HasRefs f (count p ts + count p held)
        → HasRefs (g f) (count p ts + count p held))
    → Counted l.files ts held
    → Counted (update g (get_elem? l.files p) p l).files ts held
unfolding update with_files
update-Counted g l p ts held keeps h = go (get_elem? l.files p) refl
  where
    go : (o : Option SstableFile) → get_elem? l.files p ≡ o → Counted (update g o p l).files ts held
    go none e = h
    go (some f) e =
        set-AllHave l.files p f (g f) (λ q. count q ts + count q held)
          (λ q. count q ts + count q held) e h (λ q n. refl) (keeps f (h p f e))

incr_at-Counted :
    (l : SstableList) (p : ℕ) (ts held : List ℕ)
    → count p ts + count p held + 1 < 2 ^ 31
    → Counted l.files ts held
    → Counted
        (incr_at (get_elem? l.files p) p l).1.files
        ts
        (if (incr_at (get_elem? l.files p) p l).0 then p ∷ held else held)
unfolding incr_at count with_files
incr_at-Counted l p ts held room h = go (get_elem? l.files p) refl
  where
    off : (q : ℕ) → q ≢ p → count q ts + count q (p ∷ held) ≡ count q ts + count q held
    off q n = rw (ne→== q p n) (omega arith)

    on : suc (count p ts + count p held) ≡ count p ts + count p (p ∷ held)
    on = rw (==-refl p) (omega arith)

    go :
        (o : Option SstableFile)
        → get_elem? l.files p ≡ o
        → Counted (incr_at o p l).1.files ts (if (incr_at o p l).0 then p ∷ held else held)
    go none e = h
    go (some f) e = elim (incr-HasRefs f (count p ts + count p held) room (h p f e)) [
      | inl r ↦ rw (r.0) (
          set-AllHave l.files p f (incr_ref f).1 (λ q. count q ts + count q held)
            (λ q. count q ts + count q (p ∷ held)) e h off (subst (HasRefs (incr_ref f).1) on r.1))
      | inr r ↦
          rw (r.0, r.1)
            (set-AllHave l.files p f f (λ q. count q ts + count q held)
              (λ q. count q ts + count q held) e h (λ q n. refl) (h p f e))
    ]

pub decr_at_tables :
    (o : Option SstableFile) (p : ℕ) (l : SstableList) → (decr_at o p l).1.tables ≡ l.tables
unfolding decr_at
decr_at_tables none p l = refl
decr_at_tables (some f) p l = refl

incr_at_tables :
    (o : Option SstableFile) (p : ℕ) (l : SstableList) → (incr_at o p l).1.tables ≡ l.tables
unfolding incr_at with_files
incr_at_tables none p l = refl
incr_at_tables (some f) p l = refl

pub update_tables :
    (g : SstableFile → SstableFile) (o : Option SstableFile) (p : ℕ) (l : SstableList)
    → (update g o p l).tables ≡ l.tables
unfolding update with_files
update_tables g none p l = refl
update_tables g (some f) p l = refl

release_loop :
    (ps ts held : List ℕ) (l : SstableList)
    → Counted l.files ts (ps ++ held)
    → Counted (release_tables ps l).files ts held
unfolding release_tables
release_loop [] ts held l h = h
release_loop (p ∷ ps) ts held l h =
    let d = decr_at-Counted l p ts (ps ++ held) h in
    release_loop ps ts held (decr_at (get_elem? l.files p) p l).1 d.0

release_tables_same : (ps : List ℕ) (l : SstableList) → (release_tables ps l).tables ≡ l.tables
unfolding release_tables
release_tables_same [] l = refl
release_tables_same (p ∷ ps) l =
    release_tables_same ps (decr_at (get_elem? l.files p) p l).1
    ∙ decr_at_tables (get_elem? l.files p) p l

-- On counted files, ReleaseTables of tables that are held leaves counted files, without the
-- references that were held to them.
pub release_tables-IsCounted :
    (ps held : List ℕ) (l : SstableList)
    → IsCounted l (ps ++ held)
    → IsCounted (release_tables ps l) held
release_tables-IsCounted ps held l h =
    subst (λ ts. Counted (release_tables ps l).files ts held) (sym (release_tables_same ps l))
      (release_loop ps l.tables held l h)

-- Who holds the references does not matter.
pub Counted-same :
    (files : List SstableFile) (ts ts' held held' : List ℕ)
    → ((q : ℕ) → count q ts + count q held ≡ count q ts' + count q held')
    → Counted files ts held
    → Counted files ts' held'
Counted-same files ts ts' held held' e h p f at = subst (HasRefs f) (e p) (h p f at)

pub count_middle : (q p : ℕ) (xs ys : List ℕ) → count q (xs ++ p ∷ ys) ≡ count q (p ∷ xs ++ ys)
unfolding count
count_middle q p xs ys =
    let a = count-append q xs (p ∷ ys) in let b = count-append q xs ys in omega (arith, a, b)

take_refs-Counted :
    (ps ts held : List ℕ) (l : SstableList)
    → length ps + length ts + length held < 2 ^ 31
    → Counted l.files ts held
    → Counted (take_refs ps l).1.files ts ((take_refs ps l).0 ++ held)
unfolding take_refs
take_refs-Counted [] ts held l room h = h
take_refs-Counted (p ∷ ps) ts held l room h =
    let s = incr_at (get_elem? l.files p) p l in
    let a = count-length p ts in
    let b = count-length p held in
    go s.0 s.1 (λ held' room' c. take_refs-Counted ps ts held' s.1 room' c)
      (incr_at-Counted l p ts held (omega (arith, room, a, b)) h)
  where
    go :
        (took : Bool) (l' : SstableList)
        → ((held' : List ℕ)
            → length ps + length ts + length held' < 2 ^ 31
            → Counted l'.files ts held'
            → Counted (take_refs ps l').1.files ts ((take_refs ps l').0 ++ held'))
        → Counted l'.files ts (if took then p ∷ held else held)
        → Counted
            (take_refs ps l').1.files
            ts
            ((if took then p ∷ (take_refs ps l').0 else (take_refs ps l').0) ++ held)
    go true l' rest c =
        Counted-same (take_refs ps l').1.files ts ts ((take_refs ps l').0 ++ p ∷ held)
          (p ∷ (take_refs ps l').0 ++ held)
          (λ q. ap (λ n. count q ts + n) (count_middle q p (take_refs ps l').0 held))
          (rest (p ∷ held) (omega (arith, room)) c)
    go false l' rest c = rest held (omega (arith, room)) c

take_refs_same : (ps : List ℕ) (l : SstableList) → (take_refs ps l).1.tables ≡ l.tables
unfolding take_refs
take_refs_same [] l = refl
take_refs_same (p ∷ ps) l =
    take_refs_same ps (incr_at (get_elem? l.files p) p l).1
    ∙ incr_at_tables (get_elem? l.files p) p l

-- On counted files, where the counts have room in an `int32`, GetTables leaves counted files, with
-- one reference more for each table that it returns.
pub get_tables-IsCounted :
    (l : SstableList) (held : List ℕ)
    → length l.tables + length l.tables + length held < 2 ^ 31
    → IsCounted l held
    → IsCounted (get_tables l).1 ((get_tables l).0 ++ held)
unfolding get_tables
get_tables-IsCounted l held room h =
    subst (λ ts. Counted (take_refs l.tables l).1.files ts ((take_refs l.tables l).0 ++ held))
      (sym (take_refs_same l.tables l)) (take_refs-Counted l.tables l.tables held l room h)
