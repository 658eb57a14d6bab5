-- ===== src/Wal/Log/Laws.antt =====
-- The records of the log of wal/wal.go, over appending, rotation and replay.
use mathlib.Core.Path.{subst}
use mathlib.Core.List.{append-nil, append_assoc, map-append}
use wisp_db.Base.{
  ℕ, ◌+◌, ◌%◌, ◌^◌, ◌≤◌, ◌<◌, ◌≡◌, refl, sym, ap, ◌∙◌, true, false, not, inl, inr, none, some, List,
  [], ◌∷◌, ◌++◌, arith, if◌then◌else◌, length, All, All-append, Bool-cases,
}
use wisp_db.Base.Result.{Result, ok, err}
use wisp_db.Base.Sort.{IsAscending}
use wisp_db.Wal.Payload.{WalRecord, WalError, encode_record, closed}
use wisp_db.Wal.Segment.{encode_records}
use wisp_db.Wal.Segment.RoundTrip.{IsLogged}
use wisp_db.Wal.Log.{
  Wal, read_file, append_file, open_segment, rotate, append_record, write_record, is_overflow,
  replay, close,
}
use wisp_db.Wal.Log.Files.{
  Chunk, Chunks, file_of, files_of, ids_of, records_of, records_of-append, AllBelow, AllLogged,
  IsAscending-concat, list_segment_ids-files_of, read_file_none, append_file_at, replay_ids-records,
}

-- The log's directory holds the sealed segments and the active one, in ascending order.
pub record LogHolds (w : Wal) (sealed : Chunks) (active : List WalRecord) : Type 0 where
  pub files : w.directory.segments ≡ files_of (sealed ++ (w.segment_id, active) ∷ [])
  pub ascending : IsAscending (ids_of sealed)
  pub below : AllBelow w.segment_id sealed
  pub logged : AllLogged (sealed ++ (w.segment_id, active) ∷ [])

-- What the log holds, in order.
abbrev pub held_records : Chunks → List WalRecord → List WalRecord
held_records sealed active = records_of sealed ++ active

pub open_new :
    (id : ℕ) (w : Wal)
    → read_file id w.directory.segments ≡ none
    → open_segment id w ≡ record w {
      directory = record w.directory { segments = w.directory.segments ++ (id, []) ∷ [] };
      segment_id = id;
      size = 0;
      is_open = true;
    }
unfolding open_segment
open_new id w e = rw e

pub open_old :
    (id : ℕ) (w : Wal) (bytes : List ℕ)
    → read_file id w.directory.segments ≡ some bytes
    → open_segment id w ≡ record w { segment_id = id; size = length bytes; is_open = true }
unfolding open_segment
open_old id w bytes e = rw e

AllBelow-mono : (i j : ℕ) (cs : Chunks) → i ≤ j → AllBelow i cs → AllBelow j cs
AllBelow-mono i j [] h b = tt
AllBelow-mono i j (c ∷ cs) h b = (omega (arith, b.0), AllBelow-mono i j cs h b.1)

module _ (w : Wal) (sealed : Chunks) (active : List WalRecord) (v : LogHolds w sealed active) where
  pub whole-IsAscending : IsAscending (ids_of (sealed ++ (w.segment_id, active) ∷ []))
  whole-IsAscending = IsAscending-concat sealed (w.segment_id, active) v.ascending v.below

  -- Replay gives the records of all segments in order.
  pub replay-held : replay w ≡ ok (held_records sealed active)
  unfolding replay
  replay-held =
      let c : Chunk = (w.segment_id, active) in
      rw (v.files, list_segment_ids-files_of (sealed ++ c ∷ []) whole-IsAscending)
        (replay_ids-records (sealed ++ c ∷ []) [] whole-IsAscending v.logged
          ∙ ap ok (
              records_of-append sealed (c ∷ [])
              ∙ ap (λ l. records_of sealed ++ l) (append-nil active)))

  whole_below : (id : ℕ) → w.segment_id < id → AllBelow id (sealed ++ (w.segment_id, active) ∷ [])
  whole_below id lt =
      All-append _ sealed ((w.segment_id, active) ∷ [])
        (AllBelow-mono w.segment_id id sealed (omega arith) v.below) (lt, tt)

  -- On a log whose active id is not the largest `uint64`, rotation returns the id of the active
  -- segment, seals it with its records, and opens an empty one of the next id.
  pub rotate-LogHolds :
      w.segment_id + 1 < 2 ^ 64
      → LogHolds (rotate w).1 (sealed ++ (w.segment_id, active) ∷ []) []
        × ((rotate w).1.segment_id ≡ w.segment_id + 1)
        × ((rotate w).1.is_open ≡ true)
        × ((rotate w).0 ≡ w.segment_id)
  unfolding rotate
  rotate-LogHolds fits =
      let c : Chunk = (w.segment_id, active) in
      let below = whole_below (w.segment_id + 1) (omega arith) in
      let absent : read_file (w.segment_id + 1) w.directory.segments ≡ none =
        rw v.files (read_file_none (w.segment_id + 1) (sealed ++ c ∷ []) below) in
      let next : (w.segment_id + 1) % 2 ^ 64 ≡ w.segment_id + 1 = omega arith in
      rw (next, open_new (w.segment_id + 1) (record w { is_open = false }) absent)
        (
          record {
            files =
                ap (λ l. l ++ (w.segment_id + 1, []) ∷ []) v.files
                ∙ unfold encode_records in
                  sym (map-append file_of (sealed ++ c ∷ []) ((w.segment_id + 1, []) ∷ []));
            ascending = whole-IsAscending;
            below = below;
            logged =
                All-append _ (sealed ++ c ∷ []) ((w.segment_id + 1, []) ∷ []) v.logged (tt, tt);
          },
          refl,
          refl,
          refl,
        )

-- The bytes of one record go to the end of the active segment.
pub write_active :
    (w : Wal) (sealed : Chunks) (active : List WalRecord) (r : WalRecord) (size : ℕ)
    → LogHolds w sealed active
    → IsLogged r
    → LogHolds
        (record w {
          directory = record w.directory {
            segments = append_file w.segment_id (encode_record r) w.directory.segments;
          };
          size = size;
        })
        sealed
        (active ++ r ∷ [])
write_active w sealed active r size v h = record {
  files = rw v.files (append_file_at sealed (w.segment_id, active) r v.below);
  ascending = v.ascending;
  below = v.below;
  logged =
      All-append _ sealed ((w.segment_id, active ++ r ∷ []) ∷ []) (All_front sealed v.logged)
        (All-append IsLogged active (r ∷ []) (All_last sealed v.logged) (h, tt), tt);
}
  where
    All_front : (cs : Chunks) → AllLogged (cs ++ (w.segment_id, active) ∷ []) → AllLogged cs
    All_front [] k = tt
    All_front (c ∷ cs) k = (k.0, All_front cs k.1)

    All_last : (cs : Chunks) → AllLogged (cs ++ (w.segment_id, active) ∷ []) → All IsLogged active
    All_last [] k = k.0
    All_last (c ∷ cs) k = All_last cs k.1

-- The log after an operation: it is open, and holds these records.
pub record LogHas (w : Wal) (rs : List WalRecord) : Type 0 where
  pub sealed : Chunks
  pub active : List WalRecord
  pub holds : LogHolds w sealed active
  pub is_open : w.is_open ≡ true
  pub records : held_records sealed active ≡ rs

pub replay-LogHas : (w : Wal) (rs : List WalRecord) → LogHas w rs → replay w ≡ ok rs
replay-LogHas w rs v = replay-held w v.sealed v.active v.holds ∙ ap ok v.records

rotate-LogHas :
    (w : Wal) (rs : List WalRecord)
    → w.segment_id + 1 < 2 ^ 64
    → LogHas w rs
    → LogHas (rotate w).1 rs
rotate-LogHas w rs fits v =
    let (holds, id, is_open, sealed_id) = rotate-LogHolds w v.sealed v.active v.holds fits in
    record {
      sealed = v.sealed ++ (w.segment_id, v.active) ∷ [];
      active = [];
      holds = holds;
      is_open = is_open;
      records =
          append-nil _
          ∙ records_of-append v.sealed ((w.segment_id, v.active) ∷ [])
          ∙ ap (λ l. records_of v.sealed ++ l) (append-nil v.active)
          ∙ v.records;
    }

write-LogHas :
    (w : Wal) (rs : List WalRecord) (r : WalRecord)
    → LogHas w rs
    → IsLogged r
    → LogHas (write_record r w) (rs ++ r ∷ [])
unfolding write_record
write-LogHas w rs r v h = record {
  sealed = v.sealed;
  active = v.active ++ r ∷ [];
  holds = write_active w v.sealed v.active r _ v.holds h;
  is_open = v.is_open;
  records =
      sym (append_assoc (records_of v.sealed) v.active (r ∷ [])) ∙ ap (λ l. l ++ r ∷ []) v.records;
}

-- On an open log that holds some records, and whose active id is not the largest `uint64`,
-- appending a record within the size limit succeeds, whether it rotates or not; the log then holds
-- the record behind the others, and replay gives them all.
pub append_record-LogHas :
    (w : Wal) (rs : List WalRecord) (r : WalRecord)
    → LogHas w rs
    → IsLogged r
    → w.segment_id + 1 < 2 ^ 64
    → ((append_record r w).0 ≡ ok tt)
      × LogHas (append_record r w).1 (rs ++ r ∷ [])
      × (replay (append_record r w).1 ≡ ok (rs ++ r ∷ []))
unfolding append_record
append_record-LogHas w rs r v h fits = (rw v.is_open, after, replay-LogHas _ (rs ++ r ∷ []) after)
  where
    written : LogHas (write_record r (if is_overflow r w then (rotate w).1 else w)) (rs ++ r ∷ [])
    written = elim (Bool-cases (is_overflow r w)) [
      | inl e ↦ rw e (write-LogHas (rotate w).1 rs r (rotate-LogHas w rs fits v) h)
      | inr e ↦ rw e (write-LogHas w rs r v h)
    ]

    after : LogHas (append_record r w).1 (rs ++ r ∷ [])
    after =
        subst
          (λ b.
            LogHas
              (if not b
                then (err closed, w)
                else (let x : Result WalError (Unit {0}) × Wal =
                      (ok tt, write_record r (if is_overflow r w then (rotate w).1 else w)) in
                    x)).1
              (rs ++ r ∷ []))
          (sym v.is_open) written

-- A closed log refuses the record and stays as it was.
pub append_record-closed :
    (w : Wal) (r : WalRecord) → append_record r (close w) ≡ (err closed, close w)
unfolding append_record close
append_record-closed w r = refl
