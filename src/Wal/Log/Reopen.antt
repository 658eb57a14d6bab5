-- ===== src/Wal/Log/Reopen.antt =====
-- Opening a directory that a log of wal/wal.go left behind.
use wisp_db.Base.{
  ℕ, ◌≡◌, refl, false, Option, none, some, List, [], ◌∷◌, ◌++◌, ◌==◌, if◌then◌else◌, All,
}
use wisp_db.Base.Sort.{sort_by}
use wisp_db.Wal.Payload.{WalRecord}
use wisp_db.Wal.Segment.{encode_records}
use wisp_db.Wal.Segment.RoundTrip.{IsLogged}
use wisp_db.Wal.Log.{
  Wal, default_max_segment_size, Directory, create_wal_with_segment_size, adopt, last_id,
  list_segment_ids, open_segment, read_file,
}
use wisp_db.Wal.Log.Files.{Chunk, Chunks, ids_of, list_segment_ids-files_of, read_file_at}
use wisp_db.Wal.Log.Laws.{LogHolds, LogHas, held_records, whole-IsAscending, open_old}

last_id-concat : (cs : Chunks) (c : Chunk) (d : ℕ) → last_id (ids_of (cs ++ c ∷ [])) d ≡ c.0
unfolding last_id
last_id-concat [] c d = refl
last_id-concat (x ∷ cs) c d = last_id-concat cs c x.0

-- A directory with segments is not touched.
adopt-cons :
    (d : Directory) (l : Option (List ℕ)) (cs : Chunks) (c : Chunk)
    → adopt d l (ids_of (cs ++ c ∷ [])) ≡ d
unfolding adopt
adopt-cons d none cs c = refl
adopt-cons d (some bytes) [] c = refl
adopt-cons d (some bytes) (x ∷ cs) c = refl

-- Whatever segment size is given, the log that is opened on the directory of a log has its records,
-- in order, and goes on in the segment that was active.
pub create-LogHas :
    (w : Wal) (sealed : Chunks) (active : List WalRecord) (max_segment_size : ℕ)
    → LogHolds w sealed active
    → LogHas
        (create_wal_with_segment_size w.directory max_segment_size)
        (held_records sealed active)
      × ((create_wal_with_segment_size w.directory max_segment_size).segment_id ≡ w.segment_id)
unfolding create_wal_with_segment_size
create-LogHas w sealed active max_segment_size v =
    let c : Chunk = (w.segment_id, active) in
    let ids : list_segment_ids w.directory.segments ≡ ids_of (sealed ++ c ∷ []) =
      rw v.files
        (list_segment_ids-files_of (sealed ++ c ∷ []) (whole-IsAscending w sealed active v)) in
    let adopted : adopt w.directory w.directory.legacy (list_segment_ids w.directory.segments)
        ≡ w.directory =
      rw ids (adopt-cons w.directory w.directory.legacy sealed c) in
    let found : read_file w.segment_id w.directory.segments ≡ some (encode_records active) =
      rw v.files (read_file_at sealed c [] v.below) in
    let base : Wal = record {
      directory = w.directory;
      max_segment_size =
          if max_segment_size == 0 then default_max_segment_size else max_segment_size;
      segment_id = 0;
      size = 0;
      is_open = false;
    } in
    rw
      (
        adopted,
        ids,
        last_id-concat sealed c 1,
        open_old w.segment_id base (encode_records active) found,
      )
      (
        record {
          sealed = sealed;
          active = active;
          holds = record {
            files = v.files;
            ascending = v.ascending;
            below = v.below;
            logged = v.logged;
          };
          is_open = refl;
          records = refl;
        },
        refl,
      )

-- A new log has no records.
pub create_empty-LogHas :
    (max_segment_size : ℕ)
    → LogHas
        (create_wal_with_segment_size (record { segments = []; legacy = none }) max_segment_size)
        []
unfolding create_wal_with_segment_size list_segment_ids adopt last_id open_segment read_file
    encode_records
create_empty-LogHas max_segment_size = record {
  sealed = [];
  active = [];
  holds = record { files = refl; ascending = tt; below = tt; logged = (tt, tt) };
  is_open = refl;
  records = refl;
}

-- Records within the size limit in a file of the old format, and no segment: the log that is opened
-- has these records.
pub create_legacy-LogHas :
    (rs : List WalRecord) (max_segment_size : ℕ)
    → All IsLogged rs
    → LogHas
        (create_wal_with_segment_size
          (record { segments = []; legacy = some (encode_records rs) })
          max_segment_size)
        rs
unfolding create_wal_with_segment_size list_segment_ids adopt last_id open_segment read_file sort_by
create_legacy-LogHas rs max_segment_size h = record {
  sealed = [];
  active = rs;
  holds = record { files = refl; ascending = tt; below = tt; logged = (h, tt) };
  is_open = refl;
  records = refl;
}

pub create_empty_segment :
    (max_segment_size : ℕ)
    → (create_wal_with_segment_size
        (record { segments = []; legacy = none })
        max_segment_size).segment_id
      ≡ 1
unfolding create_wal_with_segment_size list_segment_ids adopt last_id open_segment read_file sort_by
create_empty_segment max_segment_size = refl
