-- ===== src/Wal/Log/Reset.antt =====
-- Reset of the log.
use wisp_db.Base.{◌≡◌, refl, ap, ◌∙◌, List, [], ◌∷◌, ◌++◌}
use wisp_db.Base.Sort.{IsAscending}
use wisp_db.Wal.Payload.{WalRecord}
use wisp_db.Wal.Segment.{encode_records}
use wisp_db.Wal.Log.{Wal, open_segment, read_file, remove_every, reset}
use wisp_db.Wal.Log.Files.{
  Chunk, Chunks, files_of, ids_of, list_segment_ids-files_of, remove_file_at,
}
use wisp_db.Wal.Log.Laws.{LogHolds, LogHas, whole-IsAscending}

remove_every-files_of :
    (cs : Chunks) → IsAscending (ids_of cs) → remove_every (ids_of cs) (files_of cs) ≡ []
unfolding remove_every
remove_every-files_of [] h = refl
remove_every-files_of (c ∷ cs) h =
    ap (remove_every (ids_of cs)) (remove_file_at [] c cs tt h.0) ∙ remove_every-files_of cs h.1

-- After Reset of a log, it is open in segment 1 and has no records.
pub reset-LogHas :
    (w : Wal) (sealed : Chunks) (active : List WalRecord)
    → LogHolds w sealed active
    → LogHas (reset w) [] × ((reset w).segment_id ≡ 1)
unfolding reset open_segment read_file encode_records
reset-LogHas w sealed active v =
    let whole = whole-IsAscending w sealed active v in
    let c : Chunk = (w.segment_id, active) in
    rw
      (
        v.files,
        list_segment_ids-files_of (sealed ++ c ∷ []) whole,
        remove_every-files_of (sealed ++ c ∷ []) whole,
      )
      (
        record {
          sealed = [];
          active = [];
          holds = record { files = refl; ascending = tt; below = tt; logged = (tt, tt) };
          is_open = refl;
          records = refl;
        },
        refl,
      )
