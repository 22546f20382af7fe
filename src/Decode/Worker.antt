-- ===== src/Decode/Worker.antt =====
-- What a worker does with the item that it pulled.
use topic.Base.{
  ℕ, ◌≡◌, refl, sym, ◌∙◌, ap, subst, inl, inr, Option, none, some, List, [], ◌∷◌, String,
  Option-cases,
}
use topic.Base.Results.{DomainError, Result, ok, err, Result-cases}
use topic.Model.{ChainId, EventRow, Lease}
use topic.Queue.{pull_any, ack}
use topic.Store.{Db}
use topic.Store.Events.{upsert_events}
use topic.Store.Keyed.{upsert_events-ok}
use topic.Store.Kept.{AreKept, upsert_tables-AreKept}
use topic.Decode.{Decoder, decoded, by_table, write_tables, decode_range, run_once}
use topic.Decode.Tables.{write_tables-cons, write_tables-refused, write_tables-ok}
use topic.Decode.Range.{decode_range-rows}

write_tables-queue :
    (tables : List (String × List EventRow)) (db : Db) → (write_tables tables db).1.queue ≡ db.queue
write_tables-queue [] db = unfold write_tables in refl
write_tables-queue ((t, rows) ∷ tables) db = elim (Result-cases (upsert_events t rows db)) [
  | inr (x, p) ↦
      ap (λ (r : Result DomainError ℕ × Db). r.1.queue) (write_tables-refused t rows tables db x p)
  | inl (db', p) ↦
      let (events, _, _, same) = upsert_events-ok t rows db db' p in
      ap (λ (r : Result DomainError ℕ × Db). r.1.queue) (write_tables-cons t rows tables db db' p)
      ∙ write_tables-queue tables db'
      ∙ ap (λ (d : Db). d.queue) (sym same)
]

decode_range-queue :
    (decoder : Decoder) (chain from to : ℕ) (db : Db)
    → (decode_range decoder chain from to db).1.queue ≡ db.queue
unfolding decode_range
decode_range-queue decoder chain from to db =
    elim (Result-cases (decoded decoder db chain from to)) [
      | inr (x, p) ↦ rw (p, decode_range) refl
      | inl (rows, p) ↦ rw (p, decode_range) (write_tables-queue (by_table rows) db)
    ]

-- The rows that the decoder of `lease`'s chain makes of its range in `db` are all in `db'`.
pub record IsDecoded (decoder : Decoder) (lease : Lease) (db db' : Db) : Type 0 where
  pub rows : List EventRow
  pub read : decoded decoder db lease.item.chain_id lease.item.from lease.item.to ≡ ok rows
  pub written : AreKept db.by_tx (by_table rows) db'.events

decode_range-IsDecoded :
    (decoder : Decoder) (lease : Lease) (db : Db) (n : ℕ)
    → let r = decode_range decoder lease.item.chain_id lease.item.from lease.item.to db in
      r.0 ≡ ok n
      → let r = decode_range decoder lease.item.chain_id lease.item.from lease.item.to db in
        IsDecoded decoder lease db r.1
decode_range-IsDecoded decoder lease db n e =
    let (rows, p, w) =
      decode_range-rows decoder lease.item.chain_id lease.item.from lease.item.to db n e in
    let put =
      write_tables-ok (by_table rows) db n
        (sym (ap (λ (r : Result DomainError ℕ × Db). r.0) w) ∙ e) in
    record {
      rows = rows;
      read = p;
      written =
          subst (λ (d : Db). AreKept db.by_tx (by_table rows) d.events)
            (sym (ap (λ (r : Result DomainError ℕ × Db). r.1) w))
            (upsert_tables-AreKept (by_table rows) db _ put);
    }

-- How a call of `run_once` ends: the queue was idle; or a lease was taken and decoding failed, so that
-- the lease is still there; or it was acknowledged.
pub data Ran (decoders : ChainId → Option Decoder) (now : ℕ) (db : Db)
    : Result DomainError (Option ℕ) × Db → Type 0 where
  idle :
      {db' : Db}
      → (pull_any db.queue now).1 ≡ none
      → db'.queue ≡ (pull_any db.queue now).0
      → Ran decoders now db (ok none, db')
  failed :
      {x : DomainError} {db' : Db} (lease : Lease)
      → (pull_any db.queue now).1 ≡ some lease
      → db'.queue ≡ (pull_any db.queue now).0
      → Ran decoders now db (err x, db')
  skipped :
      {db' : Db} (lease : Lease)
      → (pull_any db.queue now).1 ≡ some lease
      → decoders lease.item.chain_id ≡ none
      → db'.queue ≡ ack (pull_any db.queue now).0 lease.id lease.lease_seq
      → Ran decoders now db (ok (some 0), db')
  finished :
      {n : ℕ} {db' : Db} (lease : Lease) (decoder : Decoder)
      → (pull_any db.queue now).1 ≡ some lease
      → decoders lease.item.chain_id ≡ some decoder
      → IsDecoded decoder lease (record db { queue = (pull_any db.queue now).0 }) db'
      → db'.queue ≡ ack (pull_any db.queue now).0 lease.id lease.lease_seq
      → Ran decoders now db (ok (some n), db')

-- An item leaves the queue only by a lease that its worker holds, and, where the chain has a decoder,
-- only after the tables have a row under the key of each row of its range; a failed decoding leaves it
-- leased.
pub run_once-Ran :
    (decoders : ChainId → Option Decoder) (now : ℕ) (db : Db)
    → Ran decoders now db (run_once decoders now db)
unfolding run_once
run_once-Ran decoders now db = elim (Option-cases (pull_any db.queue now).1) [
  | inl o ↦ rw (o, run_once) (idle o refl)
  | inr (lease, o) ↦ elim (Option-cases (decoders lease.item.chain_id)) [
    | inl none' ↦ rw (o, none', run_once) (skipped lease o none' refl)
    | inr (decoder, d) ↦
        let db1 : Db = record db { queue = (pull_any db.queue now).0 } in
        let item = lease.item in
        let q = decode_range-queue decoder item.chain_id item.from item.to db1 in
        elim (Result-cases (decode_range decoder item.chain_id item.from item.to db1).0) [
          | inr (x, e) ↦ rw (o, d, e, run_once) (failed lease o q)
          | inl (n, e) ↦
              let read = decode_range-IsDecoded decoder lease db1 n e in
              rw (o, d, e, run_once)
                (finished lease decoder o d
                  (record { rows = read.rows; read = read.read; written = read.written })
                  (ap (λ l. ack l lease.id lease.lease_seq) q))
        ]
  ]
]
