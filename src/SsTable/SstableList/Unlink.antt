-- ===== src/SsTable/SstableList/Unlink.antt =====
-- The marks that ReplaceTables of sstable/sstable_list.go sets on the old tables.
use mathlib.Core.Path.{subst}
use mathlib.Core.Option.{some-injective, none-ne-some}
use wisp_db.Base.{
  ℕ, ◌<◌, ◌≡◌, refl, sym, ap, ◌∙◌, true, Option, none, some, List, [], ◌∷◌, arith, inl, inr,
  Bool-cases, ◌==◌, ==→eq, ==→ne, get_elem?, set, get_elem?-set_self, get_elem?-set_ne,
}
use wisp_db.SsTable.SstableList.{
  SstableFile, SstableList, decr_ref, decr_at, update, unlink_file, drop_olds, with_files,
}
use wisp_db.SsTable.SstableList.Counts.{count, get_elem?-some_lt}

-- The file behind a pointer is to be removed when its last reference is given up.
abbrev pub IsUnlinked : List SstableFile → ℕ → Type 0
IsUnlinked files q = (f : SstableFile) → get_elem? files q ≡ some f → f.unlinked ≡ true

set-IsUnlinked_self :
    (files : List SstableFile) (p : ℕ) (f f' : SstableFile)
    → get_elem? files p ≡ some f
    → f'.unlinked ≡ true
    → IsUnlinked (set files p f') p
set-IsUnlinked_self files p f f' at u g e =
    let here = get_elem?-set_self files p f' (get_elem?-some_lt files p f at) in
    ap (λ (x : SstableFile). x.unlinked) (sym (some-injective f' g (sym here ∙ e))) ∙ u

set-IsUnlinked :
    (files : List SstableFile) (p q : ℕ) (f f' : SstableFile)
    → get_elem? files p ≡ some f
    → (f.unlinked ≡ true → f'.unlinked ≡ true)
    → IsUnlinked files q
    → IsUnlinked (set files p f') q
set-IsUnlinked files p q f f' at keeps h = elim (Bool-cases (p == q)) [
  | inl y ↦
      let same : p ≡ q = ==→eq p q y in
      subst (IsUnlinked (set files p f')) same
        (set-IsUnlinked_self files p f f' at (keeps (h f (ap (get_elem? files) (sym same) ∙ at))))
  | inr n ↦ λ g e. h g (sym (get_elem?-set_ne files p q f' (==→ne p q n)) ∙ e)
]

update_unlink :
    (p : ℕ) (l : SstableList) (o : Option SstableFile)
    → get_elem? l.files p ≡ o
    → IsUnlinked (update unlink_file o p l).files p
unfolding update unlink_file with_files
update_unlink p l none e = λ f at. absurd (none-ne-some f (sym e ∙ at))
update_unlink p l (some f) e = set-IsUnlinked_self l.files p f (unlink_file f) e refl

update-IsUnlinked :
    (p q : ℕ) (l : SstableList) (o : Option SstableFile)
    → get_elem? l.files p ≡ o
    → IsUnlinked l.files q
    → IsUnlinked (update unlink_file o p l).files q
unfolding update unlink_file with_files
update-IsUnlinked p q l none e h = h
update-IsUnlinked p q l (some f) e h = set-IsUnlinked l.files p q f (unlink_file f) e (λ u. refl) h

decr_at-IsUnlinked :
    (p q : ℕ) (l : SstableList) (o : Option SstableFile)
    → get_elem? l.files p ≡ o
    → IsUnlinked l.files q
    → IsUnlinked (decr_at o p l).1.files q
unfolding decr_at decr_ref
decr_at-IsUnlinked p q l none e h = h
decr_at-IsUnlinked p q l (some f) e h = set-IsUnlinked l.files p q f (decr_ref f) e (λ u. u) h

-- The loop over the old tables keeps the marks that are set.
drop_olds_keeps :
    (ps : List ℕ) (q : ℕ) (l : SstableList)
    → IsUnlinked l.files q
    → IsUnlinked (drop_olds ps l).1.files q
unfolding drop_olds
drop_olds_keeps [] q l h = h
drop_olds_keeps (p ∷ ps) q l h =
    let l' = update unlink_file (get_elem? l.files p) p l in
    drop_olds_keeps ps q (decr_at (get_elem? l'.files p) p l').1 (
      decr_at-IsUnlinked p q l' (get_elem? l'.files p) refl
        (update-IsUnlinked p q l (get_elem? l.files p) refl h))

-- It sets the mark of each.
pub drop_olds-IsUnlinked :
    (ps : List ℕ) (q : ℕ) (l : SstableList) → 0 < count q ps → IsUnlinked (drop_olds ps l).1.files q
unfolding drop_olds count
drop_olds-IsUnlinked [] q l h = absurd (omega (arith, h))
drop_olds-IsUnlinked (p ∷ ps) q l h =
    let l' = update unlink_file (get_elem? l.files p) p l in
    let l'' = (decr_at (get_elem? l'.files p) p l').1 in
    elim (Bool-cases (q == p)) [
      | inl y ↦
          let same : p ≡ q = sym (==→eq q p y) in
          drop_olds_keeps ps q l'' (
            decr_at-IsUnlinked p q l' (get_elem? l'.files p) refl
              (subst (IsUnlinked l'.files) same (update_unlink p l (get_elem? l.files p) refl)))
      | inr n ↦
          let rest : 0 < count q ps = (let g = rw n at h in omega (arith, g)) in
          drop_olds-IsUnlinked ps q l'' rest
    ]
