-- ===== src/Wal/Log.antt =====
-- wal/wal.go: the segmented log. A directory is the list of its segment files, by id, with the file
-- of the old format if there is one; file names are not modelled, nor failures of system calls.
pub mod Files
pub mod Laws
pub mod Reclaim
pub mod Reopen
pub mod Reset
pub mod Append
use wisp_db.Base.{
  ℕ, zero, suc, ◌+◌, ◌*◌, ◌%◌, ◌^◌, Bool, true, false, not, ◌&&◌, ◌||◌, Option, none, some, List,
  [], ◌∷◌, ◌++◌, map, ltb, ◌==◌, if◌then◌else◌, length,
}
use wisp_db.Base.Result.{Result, ok, err, ◌>>=◌}
use wisp_db.Base.Sort.{sort_by}
use wisp_db.Wal.Payload.{
  WalRecord, WalError, closed, record_header_size, payload_encoded_size, encode_record,
}
use wisp_db.Wal.Segment.{replay_segment}

abbrev pub Segments : Type 0
Segments = List (ℕ × List ℕ)

pub record Directory : Type 0 where
  pub segments : Segments
  pub legacy : Option (List ℕ)

-- `is_open` is `file != nil`; the open file is the one of `segment_id`.
pub record Wal : Type 0 where
  pub directory : Directory
  pub max_segment_size : ℕ
  pub segment_id : ℕ
  pub size : ℕ
  pub is_open : Bool

abbrev pub default_max_segment_size : ℕ
default_max_segment_size = 4 * 1024 * 1024

unfoldable pub read_file : ℕ → Segments → Option (List ℕ)
read_file id [] = none
read_file id ((j, bytes) ∷ files) = if j == id then some bytes else read_file id files

-- Writing at the end of a file that was opened with O_APPEND.
unfoldable pub append_file : ℕ → List ℕ → Segments → Segments
append_file id more [] = []
append_file id more ((j, bytes) ∷ files) =
    if j == id then (j, bytes ++ more) ∷ files else (j, bytes) ∷ append_file id more files

unfoldable pub remove_file : ℕ → Segments → Segments
remove_file id [] = []
remove_file id ((j, bytes) ∷ files) =
    let rest = remove_file id files in if j == id then rest else (j, bytes) ∷ rest

unfoldable pub list_segment_ids : Segments → List ℕ
list_segment_ids files = sort_by ltb (map (λ f. f.0) files)

-- O_CREATE makes the file if it is not there; the size is then the file's.
opened : ℕ → Wal → Option (List ℕ) → Wal
opened id w (some bytes) = record w { segment_id = id; size = length bytes; is_open = true }
opened id w none = record w {
  directory = record w.directory { segments = w.directory.segments ++ (id, []) ∷ [] };
  segment_id = id;
  size = 0;
  is_open = true;
}

unfoldable pub open_segment : ℕ → Wal → Wal
unfolding opened
open_segment id w = opened id w (read_file id w.directory.segments)

pub last_id : List ℕ → ℕ → ℕ
last_id [] d = d
last_id (id ∷ ids) d = last_id ids id

-- With no segment there, a file of the old format becomes segment 1.
adopt : Directory → Option (List ℕ) → List ℕ → Directory
adopt d none ids = d
adopt d (some bytes) [] = record { segments = d.segments ++ (1, bytes) ∷ []; legacy = none }
adopt d (some bytes) (id ∷ ids) = d

adopt_legacy : Directory → Directory
unfolding adopt
adopt_legacy d = adopt d d.legacy (list_segment_ids d.segments)

pub create_wal_with_segment_size : Directory → ℕ → Wal
unfolding adopt_legacy last_id
create_wal_with_segment_size d max_segment_size =
    let d' = adopt_legacy d in
    open_segment (last_id (list_segment_ids d'.segments) 1) (record {
      directory = d';
      max_segment_size =
          if max_segment_size == 0 then default_max_segment_size else max_segment_size;
      segment_id = 0;
      size = 0;
      is_open = false;
    })

-- rotateLocked: the id sealed, and the log with the next segment open.
pub rotate : Wal → ℕ × Wal
rotate w = (w.segment_id, open_segment ((w.segment_id + 1) % 2 ^ 64) (record w { is_open = false }))

-- The write to the active segment.
write_record : WalRecord → Wal → Wal
write_record r w =
    let bytes = encode_record r in
    record w {
      directory = record w.directory {
        segments = append_file w.segment_id bytes w.directory.segments;
      };
      size = (w.size + length bytes) % 2 ^ 64;
    }

-- `size > 0` keeps a record that is larger than a segment from rotating forever.
is_overflow : WalRecord → Wal → Bool
is_overflow r w =
    let record_size = record_header_size + payload_encoded_size r in
    ltb 0 w.size && ltb w.max_segment_size ((w.size + record_size) % 2 ^ 64)

pub append_record : WalRecord → Wal → Result WalError (Unit {0}) × Wal
unfolding write_record is_overflow
append_record r w =
    if not w.is_open
    then (err closed, w)
    else (ok tt, write_record r (if is_overflow r w then (rotate w).1 else w))

pub keep_segment : ℕ → Wal → ℕ → Bool
keep_segment id w segment_id = ltb id segment_id || (segment_id == w.segment_id)

pub remove_all : ℕ → Wal → List ℕ → Segments → Segments
remove_all id w [] files = files
remove_all id w (segment_id ∷ ids) files =
    remove_all id w ids
      (if keep_segment id w segment_id then files else remove_file segment_id files)

pub remove_segments_up_to : ℕ → Wal → Wal
unfolding remove_all keep_segment
remove_segments_up_to id w = record w {
  directory = record w.directory {
    segments = remove_all id w (list_segment_ids w.directory.segments) w.directory.segments;
  };
}

-- A segment that is not there counts as empty.
replay_bytes : Option (List ℕ) → Bool → Result WalError (List WalRecord)
replay_bytes none tolerate = ok []
replay_bytes (some bytes) tolerate = replay_segment bytes tolerate

replay_file : ℕ → Bool → Segments → Result WalError (List WalRecord)
unfolding replay_bytes
replay_file id tolerate files = replay_bytes (read_file id files) tolerate

is_nil : List ℕ → Bool
is_nil [] = true
is_nil (id ∷ ids) = false

-- Only the last of the segments may have a torn tail.
pub replay_ids : List ℕ → Segments → Result WalError (List WalRecord)
replay_ids [] files = ok []
replay_ids (id ∷ ids) files =
    replay_file id (is_nil ids) files >>= λ rs. replay_ids ids files >>= λ more. ok (rs ++ more)

pub replay : Wal → Result WalError (List WalRecord)
unfolding replay_ids replay_file is_nil
replay w = replay_ids (list_segment_ids w.directory.segments) w.directory.segments

pub remove_every : List ℕ → Segments → Segments
remove_every [] files = files
remove_every (id ∷ ids) files = remove_every ids (remove_file id files)

pub reset : Wal → Wal
unfolding remove_every
reset w = open_segment 1 (record w {
  directory = record w.directory {
    segments = remove_every (list_segment_ids w.directory.segments) w.directory.segments;
  };
  is_open = false;
})

pub close : Wal → Wal
close w = record w { is_open = false }
