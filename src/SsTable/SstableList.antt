-- ===== src/SsTable/SstableList.antt =====
-- sstable/sstable_list.go: the table files with their reference counts, and the list of the live
-- ones. A table is a pointer into `files`, nil one past its end; each method is one step, as its
-- lock and its compare-and-swap loops make it. A failure of the system's close or remove is left out.
pub mod Counts
pub mod Laws
pub mod Unlink
pub mod Replace
pub mod Order
use wisp_db.Base.{
  ℕ, zero, suc, ◌+◌, ◌-◌, ◌%◌, ◌^◌, Bool, true, false, not, ◌&&◌, ◌||◌, Option, none, some, List,
  [], ◌∷◌, ◌++◌, ltb, leb, ◌==◌, if◌then◌else◌, length, get_elem?, set,
}
use wisp_db.Base.Int.{ℤ, pos, negsuc}
use wisp_db.Base.Sort.{sort_by}

-- `reader` says whether the pointer to the reader is set, that is, the file is open.
pub record SstableFile : Type 0 where
  pub path : ℕ
  pub gen : ℕ
  pub reader : Bool
  pub ref_count : ℤ
  pub unlinked : Bool
  pub closed : Bool

-- The objects, the paths that the directory holds, and the list's own two fields.
pub record SstableList : Type 0 where
  pub files : List SstableFile
  pub disk : List ℕ
  pub tables : List ℕ
  pub next_gen : ℕ

-- `int32` addition of 1 and of -1.
unfoldable pub next_int32 : ℤ → ℤ
next_int32 (pos n) = if n == 2 ^ 31 - 1 then negsuc (2 ^ 31 - 1) else pos (suc n)
next_int32 (negsuc zero) = pos 0
next_int32 (negsuc (suc n)) = negsuc n

unfoldable pub prev_int32 : ℤ → ℤ
prev_int32 (pos zero) = negsuc 0
prev_int32 (pos (suc n)) = pos n
prev_int32 (negsuc n) = if n == 2 ^ 31 - 1 then pos (2 ^ 31 - 1) else negsuc (suc n)

is_positive : ℤ → Bool
is_positive (pos n) = not (n == 0)
is_positive (negsuc n) = false

is_zero : ℤ → Bool
is_zero (pos n) = n == 0
is_zero (negsuc n) = false

is_negative : ℤ → Bool
is_negative (pos n) = false
is_negative (negsuc n) = true

with_count : ℤ → SstableFile → SstableFile
with_count c f = record f { ref_count = c }

-- NewSSTableFile.
unfoldable pub new_sstable_file : ℕ → ℕ → SstableFile
new_sstable_file path gen = record {
  path = path;
  gen = gen;
  reader = true;
  ref_count = pos 1;
  unlinked = false;
  closed = false;
}

-- IncrRef: whether the reference was taken, and the file after.
unfoldable pub incr_ref : SstableFile → Bool × SstableFile
unfolding is_positive with_count
incr_ref f =
    if not (is_positive f.ref_count) || f.unlinked || f.closed
    then (false, f)
    else (true, with_count (next_int32 f.ref_count) f)

-- DecrRef on the object: the last reference closes the reader.
unfoldable pub decr_ref : SstableFile → SstableFile
unfolding is_zero with_count
decr_ref f =
    let c = prev_int32 f.ref_count in
    record f { reader = if is_zero c then false else f.reader; ref_count = c }

-- The error of DecrRef.
went_negative : SstableFile → Bool
unfolding is_negative
went_negative f = is_negative (prev_int32 f.ref_count)

remove_path : ℕ → List ℕ → List ℕ
remove_path p [] = []
remove_path p (q ∷ qs) = if p == q then remove_path p qs else q ∷ remove_path p qs

pub with_files : List SstableFile → SstableList → SstableList
with_files fs l = record l { files = fs }

pub with_tables : List ℕ → SstableList → SstableList
with_tables ts l = record l { tables = ts }

pub incr_at : Option SstableFile → ℕ → SstableList → Bool × SstableList
unfolding with_files
incr_at none p l = (false, l)
incr_at (some f) p l = ((incr_ref f).0, with_files (set l.files p (incr_ref f).1) l)

-- DecrRef on the table behind a pointer: the last reference also removes an unlinked file.
pub decr_at : Option SstableFile → ℕ → SstableList → Bool × SstableList
unfolding is_zero went_negative remove_path
decr_at none p l = (false, l)
decr_at (some f) p l = (
  went_negative f,
  record l {
    files = set l.files p (decr_ref f);
    disk =
        if is_zero (prev_int32 f.ref_count) && f.unlinked
        then remove_path f.path l.disk
        else l.disk;
  },
)

-- The writes to the flags of an object.
unlink_file : SstableFile → SstableFile
unlink_file f = record f { unlinked = true }

close_file : SstableFile → SstableFile
close_file f = record f { closed = true }

revive : SstableFile → SstableFile
unfolding is_zero with_count
revive f = if is_zero f.ref_count then with_count (pos 1) f else f

pub update : (SstableFile → SstableFile) → Option SstableFile → ℕ → SstableList → SstableList
unfolding with_files
update g none p l = l
update g (some f) p l = with_files (set l.files p (g f)) l

-- NextGen.
unfoldable pub fresh_gen : SstableList → ℕ × SstableList
fresh_gen l = ((l.next_gen + 1) % 2 ^ 64, record l { next_gen = (l.next_gen + 1) % 2 ^ 64 })

-- A new object behind the next pointer.
unfoldable pub create : SstableFile → SstableList → ℕ × SstableList
unfolding with_files
create f l = (length l.files, with_files (l.files ++ f ∷ []) l)

-- ReleaseTables.
pub release_tables : List ℕ → SstableList → SstableList
release_tables [] l = l
release_tables (p ∷ ps) l = release_tables ps (decr_at (get_elem? l.files p) p l).1

-- GetTables: the tables of which a reference was taken.
pub take_refs : List ℕ → SstableList → List ℕ × SstableList
unfolding incr_at
take_refs [] l = ([], l)
take_refs (p ∷ ps) l =
    let step = incr_at (get_elem? l.files p) p l in
    let rest = take_refs ps step.1 in (if step.0 then p ∷ rest.0 else rest.0, rest.1)

unfoldable pub get_tables : SstableList → List ℕ × SstableList
unfolding take_refs
get_tables l = take_refs l.tables l

pub gen_of : Option SstableFile → ℕ
gen_of none = 0
gen_of (some f) = f.gen

-- The pointers, the newest generation first.
pub by_gen : List SstableFile → ℕ → ℕ → Bool
unfolding gen_of
by_gen files p q = ltb (gen_of (get_elem? files q)) (gen_of (get_elem? files p))

raise_gen : Option SstableFile → ℕ → ℕ
raise_gen none n = n
raise_gen (some f) n = if leb f.gen n then n else f.gen

pub add : ℕ → SstableList → SstableList
add p l =
    let l' = update revive (get_elem? l.files p) p l in
    record l' {
      tables = sort_by (by_gen l'.files) (l'.tables ++ p ∷ []);
      next_gen = raise_gen (get_elem? l'.files p) l'.next_gen;
    }

same_path : ℕ → Option SstableFile → Bool
same_path path none = false
same_path path (some f) = f.path == path

-- Whether the path is that of one of the files; `oldMap[t.Path]` of a table.
has_path : ℕ → List ℕ → List SstableFile → Bool
has_path path [] files = false
has_path path (p ∷ ps) files = same_path path (get_elem? files p) || has_path path ps files

unfoldable pub is_old : Option SstableFile → List ℕ → List SstableFile → Bool
unfolding has_path same_path
is_old none olds files = false
is_old (some f) olds files = has_path f.path olds files

pub keep_tables : List ℕ → List ℕ → List SstableFile → List ℕ
keep_tables [] olds files = []
keep_tables (p ∷ ps) olds files =
    if is_old (get_elem? files p) olds files
    then keep_tables ps olds files
    else p ∷ keep_tables ps olds files

-- The loop over the old tables: each is unlinked and loses the list's reference. The Boolean says
-- whether an error was met.
pub drop_olds : List ℕ → SstableList → Bool × SstableList
unfolding update decr_at unlink_file
drop_olds [] l = (false, l)
drop_olds (p ∷ ps) l =
    let l' = update unlink_file (get_elem? l.files p) p l in
    let step = decr_at (get_elem? l'.files p) p l' in
    let rest = drop_olds ps step.1 in (step.0 || rest.0, rest.1)

-- ReplaceTables, with a new table or nil.
add_new : Option ℕ → List ℕ → List ℕ
add_new none kept = kept
add_new (some p) kept = kept ++ p ∷ []

revive_new : Option ℕ → SstableList → SstableList
unfolding update revive
revive_new none l = l
revive_new (some p) l = update revive (get_elem? l.files p) p l

unfoldable pub replace_tables : List ℕ → Option ℕ → SstableList → Bool × SstableList
unfolding drop_olds keep_tables add_new revive_new with_tables by_gen
replace_tables olds new l =
    let kept = keep_tables l.tables olds l.files in
    let l' = revive_new new l in
    drop_olds olds (with_tables (sort_by (by_gen l'.files) (add_new new kept)) l')

-- The loop of Close.
pub close_loop : List ℕ → SstableList → Bool × SstableList
close_loop [] l = (false, l)
close_loop (p ∷ ps) l =
    let l' = update close_file (get_elem? l.files p) p l in
    let step = decr_at (get_elem? l'.files p) p l' in
    let rest = close_loop ps step.1 in (step.0 || rest.0, rest.1)

pub close : SstableList → Bool × SstableList
close l = let r = close_loop l.tables l in (r.0, with_tables [] r.1)
