-- ===== src/SsTable/SstableList/Replace.antt =====
-- The references of the list over Add, ReplaceTables and Close.
use mathlib.Core.Path.{subst}
use mathlib.Core.Bool.{true≢false}
use wisp_db.Base.{
  ℕ, ◌+◌, ◌<◌, ◌≡◌, refl, sym, ap, ◌∙◌, Bool, true, false, Option, none, some, List, [], ◌∷◌, ◌++◌,
  arith, ne→==, ==-refl, ◌==◌, if◌then◌else◌, get_elem?,
}
use wisp_db.Base.Sort.{sort_by}
use wisp_db.SsTable.SstableList.{
  SstableFile, SstableList, is_zero, with_tables, decr_at, update, revive, unlink_file, close_file,
  add, by_gen, replace_tables, drop_olds, close_loop, close, is_old, keep_tables, add_new,
  revive_new,
}
use wisp_db.SsTable.SstableList.Counts.{
  count, count-append, count-sort_by, HasRefs, Counted, IsCounted,
}
use wisp_db.SsTable.SstableList.Unlink.{IsUnlinked, drop_olds-IsUnlinked}
use wisp_db.SsTable.SstableList.Laws.{
  decr_at-Counted, update-Counted, decr_at_tables, update_tables, Counted-same,
}

revive-HasRefs : (f : SstableFile) (m : ℕ) → 0 < m → HasRefs f m → HasRefs (revive f) m
unfolding revive is_zero
revive-HasRefs f m some_ref r =
    let c : is_zero f.ref_count ≡ false =
      ap is_zero r.0 ∙ ne→== m 0 (λ e. absurd (omega (arith, some_ref, e))) in
    rw c r

-- An object that someone holds has a count, which Add and ReplaceTables leave as it is.
revive-Counted :
    (l : SstableList) (p : ℕ) (ts held : List ℕ)
    → Counted l.files ts (p ∷ held)
    → Counted (update revive (get_elem? l.files p) p l).files ts (p ∷ held)
unfolding count
revive-Counted l p ts held h =
    update-Counted revive l p ts (p ∷ held)
      (λ f. revive-HasRefs f (count p ts + count p (p ∷ held)) (rw (==-refl p) (omega arith))) h

move_to_tables :
    (less : ℕ → ℕ → Bool) (p q : ℕ) (ts held : List ℕ)
    → count q ts + count q (p ∷ held) ≡ count q (sort_by less (ts ++ p ∷ [])) + count q held
unfolding count
move_to_tables less p q ts held =
    let s = count-sort_by less q (ts ++ p ∷ []) in
    let a = count-append q ts (p ∷ []) in omega (arith, s, a)

-- On counted files, Add of a table that is held leaves counted files, the reference to the table
-- being the list's.
pub add-IsCounted :
    (p : ℕ) (held : List ℕ) (l : SstableList) → IsCounted l (p ∷ held) → IsCounted (add p l) held
unfolding add
add-IsCounted p held l h =
    let l' = update revive (get_elem? l.files p) p l in
    let less = by_gen l'.files in
    let e = update_tables revive (get_elem? l.files p) p l in
    rw e (
      Counted-same l'.files l.tables (sort_by less (l.tables ++ p ∷ [])) (p ∷ held) held
        (λ q. move_to_tables less p q l.tables held) (revive-Counted l p l.tables held h))

drop_olds-Counted :
    (ps ts held : List ℕ) (l : SstableList)
    → Counted l.files ts (ps ++ held)
    → Counted (drop_olds ps l).1.files ts held × ((drop_olds ps l).0 ≡ false)
unfolding drop_olds unlink_file
drop_olds-Counted [] ts held l h = (h, refl)
drop_olds-Counted (p ∷ ps) ts held l h =
    let l' = update unlink_file (get_elem? l.files p) p l in
    let u =
      update-Counted unlink_file l p ts (p ∷ ps ++ held)
        (λ f r. unlinked f (count p ts + count p (p ∷ ps ++ held)) r) h in
    let d = decr_at-Counted l' p ts (ps ++ held) u in
    let r = drop_olds-Counted ps ts held (decr_at (get_elem? l'.files p) p l').1 d.0 in
    (r.0, rw (d.1, r.1))
  where
    unlinked : (f : SstableFile) (m : ℕ) → HasRefs f m → HasRefs (unlink_file f) m
    unlinked f m r = r

drop_olds_tables : (ps : List ℕ) (l : SstableList) → (drop_olds ps l).1.tables ≡ l.tables
unfolding drop_olds
drop_olds_tables [] l = refl
drop_olds_tables (p ∷ ps) l =
    let l' = update unlink_file (get_elem? l.files p) p l in
    drop_olds_tables ps (decr_at (get_elem? l'.files p) p l').1
    ∙ decr_at_tables (get_elem? l'.files p) p l'
    ∙ update_tables unlink_file (get_elem? l.files p) p l

-- The old tables are those of the list that have their paths.
abbrev pub AreListed : List ℕ → SstableList → Type 0
AreListed olds l =
    (p : ℕ)
    → (if is_old (get_elem? l.files p) olds l.files then count p l.tables else 0) ≡ count p olds

keep_step :
    (q p : ℕ) (ps kept : List ℕ) (old_q old_p : Bool)
    → (q ≡ p → old_q ≡ old_p)
    → count q ps ≡ count q kept + (if old_q then count q ps else 0)
    → count q (p ∷ ps)
      ≡ count q (if old_p then kept else p ∷ kept) + (if old_q then count q (p ∷ ps) else 0)
unfolding count
keep_step q p ps kept true true same r = ground (arith, r)
keep_step q p ps kept false false same r = ground (arith, r)
keep_step q p ps kept true false same r =
    let ne : (q == p) ≡ false = ne→== q p (λ e. true≢false (same e)) in rw ne (omega (arith, r))
keep_step q p ps kept false true same r =
    let ne : (q == p) ≡ false = ne→== q p (λ e. true≢false (sym (same e))) in
    rw ne (omega (arith, r))

count-keep_tables :
    (q : ℕ) (ps olds : List ℕ) (files : List SstableFile)
    → count q ps
      ≡ count q (keep_tables ps olds files)
        + (if is_old (get_elem? files q) olds files then count q ps else 0)
unfolding count keep_tables
count-keep_tables q [] olds files = ground arith
count-keep_tables q (p ∷ ps) olds files =
    keep_step q p ps (keep_tables ps olds files) (is_old (get_elem? files q) olds files)
      (is_old (get_elem? files p) olds files)
      (λ e. ap (λ x. is_old (get_elem? files x) olds files) e) (count-keep_tables q ps olds files)

revive_new_tables : (new : Option ℕ) (l : SstableList) → (revive_new new l).tables ≡ l.tables
unfolding revive_new
revive_new_tables none l = refl
revive_new_tables (some p) l = update_tables revive (get_elem? l.files p) p l

-- The new table, which is held as long as it is not in the list.
abbrev pub new_refs : Option ℕ → List ℕ
new_refs none = []
new_refs (some p) = p ∷ []

revive_new-Counted :
    (new : Option ℕ) (l : SstableList) (ts held : List ℕ)
    → Counted l.files ts (new_refs new ++ held)
    → Counted (revive_new new l).files ts (new_refs new ++ held)
unfolding revive_new
revive_new-Counted none l ts held h = h
revive_new-Counted (some p) l ts held h = revive-Counted l p ts held h

count-add_new :
    (q : ℕ) (new : Option ℕ) (kept held : List ℕ)
    → count q (add_new new kept) + count q held ≡ count q kept + count q (new_refs new ++ held)
unfolding count add_new
count-add_new q none kept held = refl
count-add_new q (some p) kept held = let a = count-append q kept (p ∷ []) in omega (arith, a)

-- What ReplaceTables leaves: counted files, no error, the list without the old tables and with the
-- new one, and the old tables unlinked.
pub record Replaced (olds : List ℕ) (new : Option ℕ) (held : List ℕ) (l : SstableList)
    (result : Bool × SstableList) : Type 0 where
  pub counted : IsCounted result.1 held
  pub no_error : result.0 ≡ false
  pub tables :
      (q : ℕ) → count q result.1.tables + count q olds ≡ count q l.tables + count q (new_refs new)
  pub unlinked : (q : ℕ) → 0 < count q olds → IsUnlinked result.1.files q

-- ReplaceTables of old tables that are those of the list with their paths, on counted files, meets
-- no error and leaves counted files. The list holds the tables it held, without the old ones and
-- with the new one, if there is one; with them it has given up its references to the old tables and
-- has taken over the one to the new table. Each old table is unlinked.
pub replace_tables-IsCounted :
    (olds : List ℕ) (new : Option ℕ) (held : List ℕ) (l : SstableList)
    → AreListed olds l
    → IsCounted l (new_refs new ++ held)
    → Replaced olds new held l (replace_tables olds new l)
unfolding replace_tables with_tables
replace_tables-IsCounted olds new held l listed h =
    let l' = revive_new new l in
    let kept = keep_tables l.tables olds l.files in
    let ts = sort_by (by_gen l'.files) (add_new new kept) in
    let c =
      Counted-same l'.files l.tables ts (new_refs new ++ held) (olds ++ held) (λ q. shift q)
        (revive_new-Counted new l l.tables held h) in
    let d = drop_olds-Counted olds ts held (with_tables ts l') c in
    let e = drop_olds_tables olds (with_tables ts l') in
    record {
      counted =
          subst (λ x. Counted (drop_olds olds (with_tables ts l')).1.files x held) (sym e) d.0;
      no_error = d.1;
      tables = λ q.
          let s = shift q in
          let a = count-append q olds held in
          let b = count-append q (new_refs new) held in
          let n = ap (count q) e in omega (arith, s, a, b, n);
      unlinked = λ q. drop_olds-IsUnlinked olds q (with_tables ts l');
    }
  where
    shift :
        (q : ℕ)
        → count q l.tables + count q (new_refs new ++ held)
          ≡ count q (
              sort_by
                (by_gen (revive_new new l).files)
                (add_new new (keep_tables l.tables olds l.files)))
            + count q (olds ++ held)
    shift q =
        let s =
          count-sort_by (by_gen (revive_new new l).files) q
            (add_new new (keep_tables l.tables olds l.files)) in
        let k = count-keep_tables q l.tables olds l.files in
        let o = listed q in
        let a = count-append q olds held in
        let n = count-add_new q new (keep_tables l.tables olds l.files) held in
        omega (arith, s, k, o, a, n)

close_loop-Counted :
    (ps ts held : List ℕ) (l : SstableList)
    → Counted l.files ts (ps ++ held)
    → Counted (close_loop ps l).1.files ts held × ((close_loop ps l).0 ≡ false)
unfolding close_loop close_file
close_loop-Counted [] ts held l h = (h, refl)
close_loop-Counted (p ∷ ps) ts held l h =
    let l' = update close_file (get_elem? l.files p) p l in
    let u =
      update-Counted close_file l p ts (p ∷ ps ++ held)
        (λ f r. closed f (count p ts + count p (p ∷ ps ++ held)) r) h in
    let d = decr_at-Counted l' p ts (ps ++ held) u in
    let r = close_loop-Counted ps ts held (decr_at (get_elem? l'.files p) p l').1 d.0 in
    (r.0, rw (d.1, r.1))
  where
    closed : (f : SstableFile) (m : ℕ) → HasRefs f m → HasRefs (close_file f) m
    closed f m r = r

-- On counted files, Close meets no error and leaves counted files: the references of the list are
-- given up, and those that are held stay.
pub close-IsCounted :
    (held : List ℕ) (l : SstableList)
    → IsCounted l held
    → IsCounted (close l).1 held × ((close l).0 ≡ false)
unfolding close with_tables
close-IsCounted held l h =
    close_loop-Counted l.tables [] held l
      (Counted-same l.files l.tables [] held (l.tables ++ held) (λ q. shift q) h)
  where
    shift : (q : ℕ) → count q l.tables + count q held ≡ count q [] + count q (l.tables ++ held)
    shift q = let a = count-append q l.tables held in unfold count in omega (arith, a)
