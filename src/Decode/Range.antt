-- ===== src/Decode/Range.antt =====
-- `decode_range` may run again: it finds its rows and writes none.
use topic.Base.{
  ℕ, ◌≡◌, refl, sym, ◌∙◌, ap, subst, inl, inr, List, [], ◌++◌, String, All, All-append,
}
use topic.Base.Results.{
  DomainError, Result, ok, err, ◌>>=◌, >>=-eq-ok, ok-injective, ok-err, Result-cases,
}
use topic.Model.{RawRecord, BlockMeta, EventRow}
use topic.Store.{Db}
use topic.Store.Rows.{keep}
use topic.Store.Groups.Keys.{group-All}
use topic.Store.Events.{range, upsert_tables}
use topic.Store.Kept.{AreKept, upsert_tables-AreKept, upsert_tables-rest}
use topic.Decode.{
  Decoder, call_data, time_at, collect, is_tx, decoded_rows, decoded, by_table, write_tables,
  decode_range,
}
use topic.Decode.Tables.{
  IsOther, HasOwnTables, collect-All, upsert_tables-is_tx, write_tables-ok, write_tables-same,
}

-- What is decoded depends on three of the tables only.
decoded-eq :
    (decoder : Decoder) (chain from to : ℕ) (db db' : Db)
    → db'.raws ≡ db.raws
    → db'.blocks ≡ db.blocks
    → keep is_tx db'.events ≡ keep is_tx db.events
    → decoded decoder db' chain from to ≡ decoded decoder db chain from to
unfolding decoded range
decoded-eq decoder chain from to db db' a b c =
    ap
      (λ l.
        decoded_rows decoder chain from to (range (record db' { raws = l }) chain from to)
          db'.blocks (keep is_tx db'.events))
      a
    ∙ ap
        (λ l. decoded_rows decoder chain from to (range db chain from to) l (keep is_tx db'.events))
        b
    ∙ ap (λ l. decoded_rows decoder chain from to (range db chain from to) db.blocks l) c

decoded_rows-IsOther :
    (decoder : Decoder) (chain from to : ℕ) (raw : List RawRecord) (blocks : List BlockMeta)
    (txs : List (String × EventRow)) (rows : List EventRow)
    → HasOwnTables decoder
    → decoded_rows decoder chain from to raw blocks txs ≡ ok rows
    → All (λ r. IsOther r.event.table) rows
unfolding decoded_rows
decoded_rows-IsOther decoder chain from to raw blocks txs rows own e =
    let time = time_at chain from to blocks in
    let done : List EventRow → List EventRow → Result DomainError (List EventRow) =
      λ events calls. ok (events ++ calls) in
    let txs' = call_data decoder chain raw txs in
    let (events, p, q) =
      >>=-eq-ok (collect decoder.decode time raw)
        (λ events. collect decoder.decode_call time txs' >>= done events) e in
    let (calls, c, d) = >>=-eq-ok (collect decoder.decode_call time txs') (done events) q in
    subst (All (λ r. IsOther r.event.table)) (ok-injective d) (
      All-append (λ r. IsOther r.event.table) events calls
        (collect-All decoder.decode time raw events own.0 p)
        (collect-All decoder.decode_call time txs' calls own.1 c))

pub decode_range-rows :
    (decoder : Decoder) (chain from to : ℕ) (db : Db) (n : ℕ)
    → (decode_range decoder chain from to db).0 ≡ ok n
    → (rows : List EventRow) × (decoded decoder db chain from to ≡ ok rows)
      × (decode_range decoder chain from to db ≡ write_tables (by_table rows) db)
unfolding decode_range
decode_range-rows decoder chain from to db n e =
    elim (Result-cases (decoded decoder db chain from to)) [
      | inl (rows, p) ↦ (rows, p, rw (p, decode_range) refl)
      | inr (x, p) ↦
          let refused : (decode_range decoder chain from to db).0 ≡ err x =
            rw (p, decode_range) refl in
          absurd (ok-err (sym e ∙ refused))
    ]

decode_range-eq :
    (decoder : Decoder) (chain from to : ℕ) (db : Db) (rows : List EventRow)
    → decoded decoder db chain from to ≡ ok rows
    → decode_range decoder chain from to db ≡ write_tables (by_table rows) db
unfolding decode_range
decode_range-eq decoder chain from to db rows p = rw (p, decode_range) refl

decoded-IsOther :
    (decoder : Decoder) (chain from to : ℕ) (db : Db) (rows : List EventRow)
    → HasOwnTables decoder
    → decoded decoder db chain from to ≡ ok rows
    → All (λ r. IsOther r.event.table) rows
unfolding decoded
decoded-IsOther decoder chain from to db rows own e =
    decoded_rows-IsOther decoder chain from to (range db chain from to) db.blocks
      (keep is_tx db.events) rows own e

by_table-IsOther :
    (rows : List EventRow)
    → All (λ r. IsOther r.event.table) rows
    → All {A = String × List EventRow} (λ g. IsOther g.0) (by_table rows)
unfolding by_table
by_table-IsOther rows h = group-All _ IsOther (λ row. row.event.table) rows [] h tt

-- The second run, from the database `db1` that the first one left.
again :
    (decoder : Decoder) (chain from to : ℕ) (db db1 : Db) (rows : List EventRow)
    → HasOwnTables decoder
    → decoded decoder db chain from to ≡ ok rows
    → upsert_tables (by_table rows) db ≡ ok db1
    → decode_range decoder chain from to db1 ≡ (ok 0, db1)
again decoder chain from to db db1 rows own p put =
    let other = by_table-IsOther rows (decoded-IsOther decoder chain from to db rows own p) in
    let rest = upsert_tables-rest (by_table rows) db db1 put in
    let same =
      decoded-eq decoder chain from to db db1 (ap (λ (d : Db). d.raws) (sym rest))
        (ap (λ (d : Db). d.blocks) (sym rest))
        (upsert_tables-is_tx (by_table rows) db db1 other put) in
    decode_range-eq decoder chain from to db1 rows (same ∙ p)
    ∙ write_tables-same (by_table rows) db1 (
        subst (λ k. AreKept k (by_table rows) db1.events) (ap (λ (d : Db). d.by_tx) rest)
          (upsert_tables-AreKept (by_table rows) db db1 put))

-- A range that was decoded may be decoded again: with the same decoder, which writes to no aux table, it
-- succeeds, writes no row and leaves the database as it is.
pub decode_range-again :
    (decoder : Decoder) (chain from to : ℕ) (db : Db) (n : ℕ)
    → HasOwnTables decoder
    → (decode_range decoder chain from to db).0 ≡ ok n
    → let db' = (decode_range decoder chain from to db).1 in
      decode_range decoder chain from to db' ≡ (ok 0, db')
decode_range-again decoder chain from to db n own e =
    let (rows, p, w) = decode_range-rows decoder chain from to db n e in
    let db1 = (write_tables (by_table rows) db).1 in
    let put =
      write_tables-ok (by_table rows) db n
        (sym (ap (λ (r : Result DomainError ℕ × Db). r.0) w) ∙ e) in
    subst (λ d. decode_range decoder chain from to d ≡ (ok 0, d))
      (sym (ap (λ (r : Result DomainError ℕ × Db). r.1) w))
      (again decoder chain from to db db1 rows own p put)
