-- ===== src/Wal/Log/Reclaim.antt =====
-- RemoveSegmentsUpTo of wal/wal.go.
use mathlib.Core.Bool.{or-true}
use mathlib.Core.List.{append_assoc}
use wisp_db.Base.{
  ℕ, ◌<◌, ◌≡◌, refl, sym, ap, ◌∙◌, true, false, inl, inr, ◌||◌, List, [], ◌∷◌, ◌++◌, arith, ltb,
  ◌==◌, ==-refl, ne→==, if◌then◌else◌, All, Bool-cases,
}
use wisp_db.Base.Result.{ok}
use wisp_db.Base.Sort.{IsAscending}
use wisp_db.Wal.Payload.{WalRecord}
use wisp_db.Wal.Log.{
  Wal, Segments, remove_file, remove_segments_up_to, remove_all, keep_segment, replay,
}
use wisp_db.Wal.Log.Files.{
  Chunk, Chunks, files_of, ids_of, records_of, AllBelow, AllLogged, AllBelow-of_ascending,
  ascending_behind, IsAscending-without, list_segment_ids-files_of, remove_file_at,
}
use wisp_db.Wal.Log.Laws.{LogHolds, whole-IsAscending, replay-held}

-- The sealed segments that are left.
abbrev pub kept_above : ℕ → Chunks → Chunks
kept_above id [] = []
kept_above id (c ∷ cs) = if ltb id c.0 then c ∷ kept_above id cs else kept_above id cs

kept_above-All {ℓ} :
    (P : Chunk → Type ℓ) (id : ℕ) (cs : Chunks) → All P cs → All P (kept_above id cs)
kept_above-All P id [] h = tt
kept_above-All P id (c ∷ cs) h = elim (Bool-cases (ltb id c.0)) [
  | inl e ↦ rw e (h.0, kept_above-All P id cs h.1)
  | inr e ↦ rw e (kept_above-All P id cs h.1)
]

kept_above-above :
    (x id : ℕ) (cs : Chunks)
    → All (λ y. x < y) (ids_of cs)
    → All (λ y. x < y) (ids_of (kept_above id cs))
kept_above-above x id [] h = tt
kept_above-above x id (c ∷ cs) h = elim (Bool-cases (ltb id c.0)) [
  | inl e ↦ rw e (h.0, kept_above-above x id cs h.1)
  | inr e ↦ rw e (kept_above-above x id cs h.1)
]

kept_above-IsAscending :
    (id : ℕ) (cs : Chunks) → IsAscending (ids_of cs) → IsAscending (ids_of (kept_above id cs))
kept_above-IsAscending id [] h = tt
kept_above-IsAscending id (c ∷ cs) h = elim (Bool-cases (ltb id c.0)) [
  | inl e ↦ rw e (kept_above-above c.0 id cs h.0, kept_above-IsAscending id cs h.1)
  | inr e ↦ rw e (kept_above-IsAscending id cs h.1)
]

module _ (id : ℕ) (w : Wal) (x : ℕ) (ids : List ℕ) (files : Segments) where
  remove_all_keep :
      (ltb id x || (x == w.segment_id)) ≡ true
      → remove_all id w (x ∷ ids) files ≡ remove_all id w ids files
  unfolding remove_all keep_segment
  remove_all_keep e = ap (λ b. remove_all id w ids (if b then files else remove_file x files)) e

  remove_all_drop :
      (ltb id x || (x == w.segment_id)) ≡ false
      → remove_all id w (x ∷ ids) files ≡ remove_all id w ids (remove_file x files)
  unfolding remove_all keep_segment
  remove_all_drop e = ap (λ b. remove_all id w ids (if b then files else remove_file x files)) e

remove_all_nil : (id : ℕ) (w : Wal) (files : Segments) → remove_all id w [] files ≡ files
unfolding remove_all
remove_all_nil id w files = refl

-- The loop over the ids, from some place on: what stands in front has been kept.
remove_all-kept :
    (id : ℕ) (w : Wal) (active : List WalRecord) (cs pre : Chunks)
    → AllBelow w.segment_id cs
    → IsAscending (ids_of (pre ++ (cs ++ (w.segment_id, active) ∷ [])))
    → remove_all id w
        (ids_of (cs ++ (w.segment_id, active) ∷ []))
        (files_of (pre ++ (cs ++ (w.segment_id, active) ∷ [])))
      ≡ files_of (pre ++ (kept_above id cs ++ (w.segment_id, active) ∷ []))
remove_all-kept id w active [] pre b asc =
    remove_all_keep id w w.segment_id [] _
      (rw (==-refl w.segment_id) (or-true (ltb id w.segment_id)))
    ∙ remove_all_nil id w _
remove_all-kept id w active (c ∷ cs) pre b asc = elim (Bool-cases (ltb id c.0)) [
  | inl e ↦
      let shift = append_assoc pre (c ∷ []) (cs ++ last) in
      remove_all_keep id w c.0 (ids_of (cs ++ last)) _ (rw e)
      ∙ ap (λ l. remove_all id w (ids_of (cs ++ last)) (files_of l)) (sym shift)
      ∙ remove_all-kept id w active cs (pre ++ c ∷ []) b.1 (rw shift asc)
      ∙ ap files_of (append_assoc pre (c ∷ []) (kept_above id cs ++ last))
      ∙ ap (λ t. files_of (pre ++ ((if t then c ∷ kept_above id cs else kept_above id cs) ++ last)))
          (sym e)
  | inr e ↦
      remove_all_drop id w c.0 (ids_of (cs ++ last)) _
        (rw (e, ne→== c.0 w.segment_id (omega (arith, b.0))))
      ∙ ap (remove_all id w (ids_of (cs ++ last))) (
          remove_file_at pre c (cs ++ last) (AllBelow-of_ascending pre c (cs ++ last) asc)
            (ascending_behind pre c (cs ++ last) asc))
      ∙ remove_all-kept id w active cs pre b.1 (IsAscending-without pre c (cs ++ last) asc)
      ∙ ap (λ t. files_of (pre ++ ((if t then c ∷ kept_above id cs else kept_above id cs) ++ last)))
          (sym e)
]
  where
    last : Chunks
    last = (w.segment_id, active) ∷ []

-- The active segment is never removed, nor a sealed one above the id: exactly the records of the
-- sealed segments up to the id are gone.
pub remove_segments_up_to-LogHolds :
    (id : ℕ) (w : Wal) (sealed : Chunks) (active : List WalRecord)
    → LogHolds w sealed active
    → LogHolds (remove_segments_up_to id w) (kept_above id sealed) active
unfolding remove_segments_up_to
remove_segments_up_to-LogHolds id w sealed active v =
    let whole = whole-IsAscending w sealed active v in
    record {
      files =
          rw (v.files, list_segment_ids-files_of (sealed ++ (w.segment_id, active) ∷ []) whole)
            (remove_all-kept id w active sealed [] v.below whole);
      ascending = kept_above-IsAscending id sealed v.ascending;
      below = kept_above-All _ id sealed v.below;
      logged = logged_kept sealed v.logged;
    }
  where
    logged_kept :
        (cs : Chunks)
        → AllLogged (cs ++ (w.segment_id, active) ∷ [])
        → AllLogged (kept_above id cs ++ (w.segment_id, active) ∷ [])
    logged_kept [] h = h
    logged_kept (c ∷ cs) h = elim (Bool-cases (ltb id c.0)) [
      | inl e ↦ rw e (h.0, logged_kept cs h.1)
      | inr e ↦ rw e (logged_kept cs h.1)
    ]

-- After the removal of the segments up to an id, replay gives the records of the sealed segments
-- above the id and those of the active segment, in order.
pub replay-remove_segments_up_to :
    (id : ℕ) (w : Wal) (sealed : Chunks) (active : List WalRecord)
    → LogHolds w sealed active
    → replay (remove_segments_up_to id w) ≡ ok (records_of (kept_above id sealed) ++ active)
replay-remove_segments_up_to id w sealed active v =
    replay-held (remove_segments_up_to id w) (kept_above id sealed) active
      (remove_segments_up_to-LogHolds id w sealed active v)

pub remove_segments_up_to_handle :
    (id : ℕ) (w : Wal)
    → ((remove_segments_up_to id w).segment_id ≡ w.segment_id)
      × ((remove_segments_up_to id w).is_open ≡ w.is_open)
unfolding remove_segments_up_to
remove_segments_up_to_handle id w = (refl, refl)
