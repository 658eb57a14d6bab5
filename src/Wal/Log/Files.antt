-- ===== src/Wal/Log/Files.antt =====
-- Segment files in ascending order of their ids, and what the file operations do to them.
use mathlib.Core.List.{append-nil, append_assoc}
use wisp_db.Base.{
  ℕ, ◌<◌, ◌≡◌, refl, sym, ap, ◌∙◌, none, some, List, [], ◌∷◌, ◌++◌, map, arith, ltb, le→ltb,
  ==-refl, ne→==, All,
}
use wisp_db.Base.Result.{ok}
use wisp_db.Base.Sort.{sort_by, insert_sorted, IsAscending}
use wisp_db.Wal.Payload.{WalRecord, encode_record}
use wisp_db.Wal.Segment.{encode_records}
use wisp_db.Wal.Segment.RoundTrip.{IsLogged, replay-encode_records}
use wisp_db.Wal.Log.{
  Segments, read_file, append_file, remove_file, list_segment_ids, replay_file, replay_ids, is_nil,
}

-- A segment as its id and the records in it.
abbrev pub Chunk : Type 0
Chunk = ℕ × List WalRecord

abbrev pub Chunks : Type 0
Chunks = List Chunk

abbrev pub file_of : Chunk → ℕ × List ℕ
file_of c = (c.0, encode_records c.1)

abbrev pub files_of : Chunks → Segments
files_of = map file_of

abbrev pub ids_of : Chunks → List ℕ
ids_of [] = []
ids_of (c ∷ cs) = c.0 ∷ ids_of cs

abbrev pub records_of : Chunks → List WalRecord
records_of [] = []
records_of (c ∷ cs) = c.1 ++ records_of cs

abbrev pub AllBelow : ℕ → Chunks → Type 0
AllBelow id cs = All (λ c. c.0 < id) cs

abbrev pub AllLogged : Chunks → Type 0
AllLogged cs = All (λ c. All IsLogged c.1) cs

pub records_of-append : (xs ys : Chunks) → records_of (xs ++ ys) ≡ records_of xs ++ records_of ys
records_of-append [] ys = refl
records_of-append (c ∷ xs) ys =
    ap (λ l. c.1 ++ l) (records_of-append xs ys)
    ∙ sym (append_assoc c.1 (records_of xs) (records_of ys))

pub encode_records-append :
    (rs : List WalRecord) (r : WalRecord)
    → encode_records rs ++ encode_record r ≡ encode_records (rs ++ r ∷ [])
unfolding encode_records
encode_records-append [] r = sym (append-nil (encode_record r))
encode_records-append (x ∷ rs) r =
    append_assoc (encode_record x) (encode_records rs) (encode_record r)
    ∙ ap (λ l. encode_record x ++ l) (encode_records-append rs r)

-- Ascending sequences.
pub IsAscending-concat :
    (cs : Chunks) (c : Chunk)
    → IsAscending (ids_of cs)
    → AllBelow c.0 cs
    → IsAscending (ids_of (cs ++ c ∷ []))
IsAscending-concat [] c h b = (tt, tt)
IsAscending-concat (x ∷ cs) c h b = (go cs h.0, IsAscending-concat cs c h.1 b.1)
  where
    go : (ds : Chunks) → All (λ y. x.0 < y) (ids_of ds) → All (λ y. x.0 < y) (ids_of (ds ++ c ∷ []))
    go [] k = (b.0, tt)
    go (d ∷ ds) k = (k.0, go ds k.1)

pub AllBelow-of_ascending :
    (pre : Chunks) (c : Chunk) (post : Chunks)
    → IsAscending (ids_of (pre ++ c ∷ post))
    → AllBelow c.0 pre
AllBelow-of_ascending [] c post h = tt
AllBelow-of_ascending (x ∷ pre) c post h = (go pre h.0, AllBelow-of_ascending pre c post h.1)
  where
    go : (ds : Chunks) → All (λ y. x.0 < y) (ids_of (ds ++ c ∷ post)) → x.0 < c.0
    go [] k = k.0
    go (d ∷ ds) k = go ds k.1

pub ascending_behind :
    (pre : Chunks) (c : Chunk) (post : Chunks)
    → IsAscending (ids_of (pre ++ c ∷ post))
    → All (λ y. c.0 < y) (ids_of post)
ascending_behind [] c post h = h.0
ascending_behind (x ∷ pre) c post h = ascending_behind pre c post h.1

pub IsAscending-without :
    (pre : Chunks) (c : Chunk) (post : Chunks)
    → IsAscending (ids_of (pre ++ c ∷ post))
    → IsAscending (ids_of (pre ++ post))
IsAscending-without [] c post h = h.1
IsAscending-without (x ∷ pre) c post h = (go pre h.0, IsAscending-without pre c post h.1)
  where
    go :
        (ds : Chunks)
        → All (λ y. x.0 < y) (ids_of (ds ++ c ∷ post))
        → All (λ y. x.0 < y) (ids_of (ds ++ post))
    go [] k = k.1
    go (d ∷ ds) k = (k.0, go ds k.1)

insert_first : (x : ℕ) (xs : List ℕ) → All (λ y. x < y) xs → insert_sorted ltb x xs ≡ x ∷ xs
unfolding insert_sorted
insert_first x [] h = refl
insert_first x (y ∷ xs) h = rw (le→ltb y x (omega (arith, h.0)))

sort_ascending : (xs : List ℕ) → IsAscending xs → sort_by ltb xs ≡ xs
unfolding sort_by
sort_ascending [] h = refl
sort_ascending (x ∷ xs) h = rw (sort_ascending xs h.1) (insert_first x xs h.0)

ids_of_files : (cs : Chunks) → map (λ f. f.0) (files_of cs) ≡ ids_of cs
ids_of_files [] = refl
ids_of_files (c ∷ cs) = ap (◌∷◌ c.0) (ids_of_files cs)

pub list_segment_ids-files_of :
    (cs : Chunks) → IsAscending (ids_of cs) → list_segment_ids (files_of cs) ≡ ids_of cs
unfolding list_segment_ids
list_segment_ids-files_of cs h = rw (ids_of_files cs) (sort_ascending (ids_of cs) h)

-- Files under an id that stands behind smaller ones.
pub read_file_at :
    (pre : Chunks) (c : Chunk) (post : Chunks)
    → AllBelow c.0 pre
    → read_file c.0 (files_of (pre ++ c ∷ post)) ≡ some (encode_records c.1)
unfolding read_file
read_file_at [] c post h = rw (==-refl c.0)
read_file_at (x ∷ pre) c post h =
    rw (ne→== x.0 c.0 (omega (arith, h.0))) (read_file_at pre c post h.1)

pub read_file_none : (id : ℕ) (cs : Chunks) → AllBelow id cs → read_file id (files_of cs) ≡ none
unfolding read_file
read_file_none id [] h = refl
read_file_none id (x ∷ cs) h = rw (ne→== x.0 id (omega (arith, h.0))) (read_file_none id cs h.1)

pub append_file_at :
    (pre : Chunks) (c : Chunk) (r : WalRecord)
    → AllBelow c.0 pre
    → append_file c.0 (encode_record r) (files_of (pre ++ c ∷ []))
      ≡ files_of (pre ++ (c.0, c.1 ++ r ∷ []) ∷ [])
unfolding append_file
append_file_at [] c r h = rw (==-refl c.0, encode_records-append c.1 r)
append_file_at (x ∷ pre) c r h =
    rw (ne→== x.0 c.0 (omega (arith, h.0))) (ap (◌∷◌ (file_of x)) (append_file_at pre c r h.1))

remove_file_none :
    (id : ℕ) (cs : Chunks)
    → All (λ y. id < y) (ids_of cs)
    → remove_file id (files_of cs) ≡ files_of cs
unfolding remove_file
remove_file_none id [] h = refl
remove_file_none id (x ∷ cs) h =
    rw (ne→== x.0 id (omega (arith, h.0))) (ap (◌∷◌ (file_of x)) (remove_file_none id cs h.1))

pub remove_file_at :
    (pre : Chunks) (c : Chunk) (post : Chunks)
    → AllBelow c.0 pre
    → All (λ y. c.0 < y) (ids_of post)
    → remove_file c.0 (files_of (pre ++ c ∷ post)) ≡ files_of (pre ++ post)
unfolding remove_file
remove_file_at [] c post h k = rw (==-refl c.0) (remove_file_none c.0 post k)
remove_file_at (x ∷ pre) c post h k =
    rw (ne→== x.0 c.0 (omega (arith, h.0))) (ap (◌∷◌ (file_of x)) (remove_file_at pre c post h.1 k))

-- Replay of the segments from some place on.
pub replay_ids-records :
    (cs pre : Chunks)
    → IsAscending (ids_of (pre ++ cs))
    → AllLogged cs
    → replay_ids (ids_of cs) (files_of (pre ++ cs)) ≡ ok (records_of cs)
unfolding replay_ids replay_file
replay_ids-records [] pre asc logged = refl
replay_ids-records (c ∷ cs) pre asc logged =
    let shift = append_assoc pre (c ∷ []) cs in
    let rest = replay_ids-records cs (pre ++ c ∷ []) (rw shift asc) logged.1 in
    rw (
      read_file_at pre c cs (AllBelow-of_ascending pre c cs asc),
      replay-encode_records c.1 (is_nil (ids_of cs)) logged.0,
      ← shift,
      rest,
    )
