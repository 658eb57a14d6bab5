-- ===== src/Engine/Applied.antt =====
-- A record of the log that is put into the mutable memtable.
use mathlib.Core.Path.{subst}
use mathlib.Core.List.{append_assoc}
use wisp_db.Base.{
  ℕ, ◌+◌, ◌%◌, ◌^◌, ◌≤◌, ◌<◌, ◌≡◌, sym, ap, ◌∙◌, Bool, true, false, inl, inr, Option, none, some,
  List, [], ◌∷◌, ◌++◌, arith, if◌then◌else◌, Bool-cases, length, All, All-append,
}
use wisp_db.Key.{key_lt, key_eq}
use wisp_db.Rows.{Row, Rows, upsert}
use wisp_db.MemTable.{MemTable}
use wisp_db.MemTable.Laws.{IsMemTable, put-Written, delete-Written}
use wisp_db.Wal.Payload.{WalRecord}
use wisp_db.Wal.Segment.RoundTrip.{IsLogged}
use wisp_db.Wal.Log.{append_record}
use wisp_db.Wal.Log.Files.{Chunks, records_of, records_of-append}
use wisp_db.Wal.Log.Laws.{LogHolds}
use wisp_db.Wal.Log.Append.{append_record-Appended}
use wisp_db.Engine.{Wisp, apply_record}
use wisp_db.Engine.View.{Contents, IsRow, upserts, upserts-append, row_of_record}
use wisp_db.Engine.State.{LogSplit, Split}

pub All-upsert {ℓ} :
    (P : Row → Type ℓ) (n : Row) (rows : Rows) → P n → All P rows → All P (upsert n rows)
unfolding upsert
All-upsert P n [] h hs = (h, tt)
All-upsert P n (r ∷ rows) h hs = elim (Bool-cases (key_lt r.key n.key)) [
  | inl e ↦ rw e (hs.0, All-upsert P n rows h hs.1)
  | inr e ↦ elim (Bool-cases (key_eq r.key n.key)) [
    | inl f ↦ rw (e, f) (h, hs.1)
    | inr f ↦ rw (e, f) (h, hs)
  ]
]

-- A record that was put into a memtable.
pub record Applied (m : MemTable) (rows : Rows) (r : WalRecord) (result : Option (Bool × MemTable))
    : Type 0 where
  pub table : MemTable
  pub returns : result ≡ some (true, table)
  pub stands : IsMemTable table (upsert (row_of_record r) rows)
  pub mutable : table.mutable ≡ true
  pub size : table.size ≡ (m.size + (if r.deleted then 17 else 16 + length r.value)) % 2 ^ 64

pub apply_record-Applied :
    (m : MemTable) (rows : Rows) (r : WalRecord) (draws : List Bool)
    → IsMemTable m rows
    → m.mutable ≡ true
    → Applied m rows r (apply_record r draws m)
unfolding apply_record
apply_record-Applied m rows r draws v open_table = elim (Bool-cases r.deleted) [
  | inl e ↦
      let d = delete-Written m rows v r.series_id r.timestamp draws open_table in
      record {
        table = d.table;
        returns = rw e d.returns;
        stands = rw e d.stands;
        mutable = d.mutable;
        size = rw e d.size;
      }
  | inr e ↦
      let d = put-Written m rows v r.series_id r.timestamp r.value draws open_table in
      record {
        table = d.table;
        returns = rw e d.returns;
        stands = rw e d.stands;
        mutable = d.mutable;
        size = rw e d.size;
      }
]

pub row_of_record-IsRow : (r : WalRecord) → IsLogged r → IsRow (row_of_record r)
row_of_record-IsRow r h = (h.0.0, h.0.1, go r.deleted)
  where
    go : (b : Bool) → 25 + length (if b then [] else r.value) < 2 ^ 31
    go true = omega arith
    go false = omega (arith, h.1)

Split-grown :
    (seg id after : ℕ) (olds news more : Chunks)
    → All (λ c. id ≤ c.0) more
    → id ≤ after
    → (o : Option MemTable) → Split o seg id olds news
    → Split o seg after olds (news ++ more)
Split-grown seg id after olds news more ids le none s = s
Split-grown seg id after olds news more ids le (some m) s =
    (s.0, s.1, All-append (λ c. seg < c.0) news more s.2 (behind more ids), omega (arith, s.3, le))
  where
    behind : (cs : Chunks) → All (λ c. id ≤ c.0) cs → All (λ c. seg < c.0) cs
    behind [] h = tt
    behind (c ∷ cs) h = (omega (arith, h.0, s.3), behind cs h.1)

-- The record behind the others of the log.
pub log_appended :
    (w : Wisp) (c : Contents) (r : WalRecord) (m : MemTable)
    → LogSplit w c
    → IsLogged r
    → w.wal.segment_id + 1 < 2 ^ 64
    → LogSplit
        (record w { wal = (append_record r w.wal).1; mutable = m })
        (record c { mutable = upsert (row_of_record r) c.mutable })
unfolding upserts
log_appended w c r m v h room =
    let a =
      (append_record-Appended w.wal (v.olds ++ v.news) v.active r v.holds v.is_open h room).1 in
    let grown : records_of (v.news ++ a.more) ++ a.now_active
        ≡ (records_of v.news ++ v.active) ++ r ∷ [] =
      ap (λ l. l ++ a.now_active) (records_of-append v.news a.more)
      ∙ append_assoc (records_of v.news) (records_of a.more) a.now_active
      ∙ ap (λ l. records_of v.news ++ l) a.records
      ∙ sym (append_assoc (records_of v.news) v.active (r ∷ [])) in
    record {
      olds = v.olds;
      news = v.news ++ a.more;
      active = a.now_active;
      holds =
          subst (λ cs. LogHolds (append_record r w.wal).1 cs a.now_active)
            (append_assoc v.olds v.news a.more) a.holds;
      is_open = a.is_open;
      positive = omega (arith, v.positive, a.segment.0);
      split =
          Split-grown w.immutable_wal_segment w.wal.segment_id (append_record r w.wal).1.segment_id
            v.olds v.news a.more a.ids a.segment.0 w.immutable v.split;
      immutable = v.immutable;
      mutable =
          ap (upsert (row_of_record r)) v.mutable
          ∙ sym (upserts-append (records_of v.news ++ v.active) (r ∷ []) [])
          ∙ ap (λ rs. upserts rs []) (sym grown);
    }
