-- ===== src/Wal/Log/Append.antt =====
-- The segments that AppendRecord leaves.
use mathlib.Core.Path.{subst}
use mathlib.Core.List.{append-nil}
use wisp_db.Base.{
  ◌+◌, ◌^◌, ◌≤◌, ◌<◌, ◌≡◌, refl, sym, ap, Bool, true, false, not, List, [], ◌∷◌, ◌++◌, arith,
  if◌then◌else◌, All,
}
use wisp_db.Base.Result.{Result, ok, err}
use wisp_db.Wal.Payload.{WalRecord, WalError, closed}
use wisp_db.Wal.Segment.RoundTrip.{IsLogged}
use wisp_db.Wal.Log.{Wal, rotate, append_record, write_record, is_overflow}
use wisp_db.Wal.Log.Files.{Chunks, records_of}
use wisp_db.Wal.Log.Laws.{LogHolds, rotate-LogHolds, write_active}

-- The log behind the segments that were sealed before.
pub record Appended (w : Wal) (sealed : Chunks) (active : List WalRecord) (r : WalRecord)
    (after : Wal) : Type 0 where
  pub more : Chunks
  pub now_active : List WalRecord
  pub holds : LogHolds after (sealed ++ more) now_active
  pub is_open : after.is_open ≡ true
  pub ids : All (λ c. w.segment_id ≤ c.0) more
  pub records : records_of more ++ now_active ≡ active ++ r ∷ []
  pub segment : (w.segment_id ≤ after.segment_id) × (after.segment_id ≤ w.segment_id + 1)

module _ (w : Wal) (sealed : Chunks) (active : List WalRecord) (r : WalRecord)
    (v : LogHolds w sealed active) (open_log : w.is_open ≡ true) (h : IsLogged r) where
  in_place : Appended w sealed active r (write_record r w)
  unfolding write_record
  in_place = record {
    more = [];
    now_active = active ++ r ∷ [];
    holds =
        subst (λ cs. LogHolds (write_record r w) cs (active ++ r ∷ [])) (sym (append-nil sealed))
          (write_active w sealed active r _ v h);
    is_open = open_log;
    ids = tt;
    records = refl;
    segment = (omega arith, omega arith);
  }

  rotated : w.segment_id + 1 < 2 ^ 64 → Appended w sealed active r (write_record r (rotate w).1)
  unfolding write_record
  rotated fits =
      let (holds, id, is_open, sealed_id) = rotate-LogHolds w sealed active v fits in
      record {
        more = (w.segment_id, active) ∷ [];
        now_active = r ∷ [];
        holds = write_active (rotate w).1 (sealed ++ (w.segment_id, active) ∷ []) [] r _ holds h;
        is_open = is_open;
        ids = (omega arith, tt);
        records = ap (λ l. l ++ r ∷ []) (append-nil active);
        segment = (omega (arith, id), omega (arith, id));
      }

  pub append_record-Appended :
      w.segment_id + 1 < 2 ^ 64
      → ((append_record r w).0 ≡ ok tt) × Appended w sealed active r (append_record r w).1
  unfolding append_record
  append_record-Appended fits =
      subst
        (λ b.
          ((if not b
              then (err closed, w)
              else (let x : Result WalError (Unit {0}) × Wal =
                    (ok tt, write_record r (if is_overflow r w then (rotate w).1 else w)) in
                  x)).0
            ≡ ok tt)
          × Appended w sealed active r
              (if not b
                then (err closed, w)
                else (let x : Result WalError (Unit {0}) × Wal =
                      (ok tt, write_record r (if is_overflow r w then (rotate w).1 else w)) in
                    x)).1)
        (sym open_log) (refl, by_size (is_overflow r w))
    where
      by_size :
          (b : Bool) → Appended w sealed active r (write_record r (if b then (rotate w).1 else w))
      by_size true = rotated fits
      by_size false = in_place
