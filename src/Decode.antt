-- ===== src/Decode.antt =====
-- crates/services: decoding.rs and worker.rs, over the tables of `Store`. The decoder of a chain is a
-- parameter. `HashMap` and `HashSet` iterate in an order that is not fixed: tables go by name here and
-- transactions by their first record.
pub mod Tables
pub mod Range
pub mod Worker
use Prim.Native.Nat.{compare}
use mathlib.Core.Option
use topic.Base.{
  ℕ, suc, ◌+◌, ◌-◌, Bool, true, false, not, ◌&&◌, ◌||◌, Option, none, some, List, [], ◌∷◌, ◌++◌,
  map, leb, ◌==◌, if◌then◌else◌, String, str_eq, length,
}
use topic.Base.Results.{DomainError, Result, ok, err, ◌>>=◌}
use topic.Text.{codes}
use topic.Model.{
  ChainId, Height, Hash, Bytes, RawRecord, BlockMeta, EventRow, EventValue, TxCalldata, WorkItem,
  Lease, address, bytes, hash_eq,
}
use topic.Queue.{pull_any, ack}
use topic.Store.{Db, RawRow}
use topic.Store.Rows.{has, keep}
use topic.Store.Groups.{lex, group}
use topic.Store.Events.{range, upsert_events}

-- `domain::Decoder`
pub record Decoder : Type 0 where
  pub decode : RawRecord → Result DomainError (Option EventRow)
  pub decode_call : TxCalldata → Result DomainError (Option EventRow)
  pub has_calls : Bool

-- The block time that `collect` stamps, from `times`.
unfoldable pub time_at : ChainId → Height → Height → List BlockMeta → Height → Option ℕ
time_at chain from to [] h = none
time_at chain from to (b ∷ blocks) h =
    if b.chain_id == chain && (leb from b.height && (leb b.height to && b.height == h))
    then some b.time
    else time_at chain from to blocks h

-- The rows that are decoded from a list, each stamped, up to the first error.
unfoldable pub collect :
    {A : Type 0}
    → (A → Result DomainError (Option EventRow))
    → (Height → Option ℕ)
    → List A
    → Result DomainError (List EventRow)
collect decode time [] = ok []
collect decode time (a ∷ as') = do
  row ← decode a
  rows ← collect decode time as'
  ok (elim row [ none ↦ rows | some r ↦ record r { block_time = time r.height } ∷ rows ])

-- `tx_ids`: the distinct transactions of the records.
unfoldable pub distinct : List Hash → List Hash → List Hash
unfolding has hash_eq
distinct seen [] = []
distinct seen (h ∷ hs) = elim (has (hash_eq h) seen) [
  | true ↦ distinct seen hs
  | false ↦ h ∷ distinct (h ∷ seen) hs
]

abbrev pub field_bytes : String → List (String × EventValue) → Option Bytes
field_bytes name [] = none
field_bytes name ((n, v) ∷ fields) =
    if str_eq n name
    then elim v [ address b ↦ some b | bytes b ↦ some b | _ ↦ none ]
    else field_bytes name fields

abbrev pub or_empty : Option Bytes → Bytes
or_empty none = []
or_empty (some b) = b

-- The row of `calldata` in block_repo.rs; `input` is never `NULL` in a row that `transaction_row` builds.
unfoldable pub tx_calldata : ChainId → EventRow → TxCalldata
tx_calldata chain r = record {
  chain_id = chain;
  height = r.height;
  block_hash = r.block_hash;
  tx_id = r.tx_id;
  to_addr = or_empty (field_bytes "to_addr" r.event.fields);
  tx_index = r.index;
  input = or_empty (field_bytes "input" r.event.fields);
}

abbrev pub is_tx : String × EventRow → Bool
is_tx r = str_eq r.0 "transactions"

-- `calldata` of the rows of `transactions`.
unfoldable pub calldata : ChainId → List Hash → List (String × EventRow) → List TxCalldata
unfolding has hash_eq tx_calldata
calldata chain ids [] = []
calldata chain ids ((t, r) ∷ txs) =
    let rest = calldata chain ids txs in
    if r.chain_id == chain && has (hash_eq r.tx_id) ids then tx_calldata chain r ∷ rest else rest

unfoldable pub call_data :
    Decoder → ChainId → List RawRecord → List (String × EventRow) → List TxCalldata
unfolding calldata distinct
call_data decoder chain raw txs =
    if decoder.has_calls
    then calldata chain (distinct [] (map (λ (r : RawRecord). r.tx_id) raw)) txs
    else []

-- The rows of `decode_range` before they are written: from the records and the blocks of the range and
-- from the rows of `transactions`.
unfoldable pub decoded_rows :
    Decoder
    → ChainId
    → Height
    → Height
    → List RawRecord
    → List BlockMeta
    → List (String × EventRow)
    → Result DomainError (List EventRow)
unfolding collect time_at call_data
decoded_rows decoder chain from to raw blocks txs = do
  events ← collect decoder.decode (time_at chain from to blocks) raw
  calls ←
      collect decoder.decode_call (time_at chain from to blocks) (call_data decoder chain raw txs)
  ok (events ++ calls)

unfoldable pub decoded :
    Decoder → Db → ChainId → Height → Height → Result DomainError (List EventRow)
unfolding decoded_rows range keep
decoded decoder db chain from to =
    decoded_rows decoder chain from to (range db chain from to) db.blocks (keep is_tx db.events)

-- `by_table`
unfoldable pub by_table : List EventRow → List (String × List EventRow)
unfolding group lex
by_table rows = group (λ t u. lex compare (codes t) (codes u)) (λ row. row.event.table) rows []

-- The loop over the tables: each table is written in a transaction of its own, so that an error leaves
-- those before it written. The number is that of the new rows.
unfoldable pub write_tables : List (String × List EventRow) → Db → Result DomainError ℕ × Db
unfolding upsert_events
write_tables [] db = (ok 0, db)
write_tables ((t, rows) ∷ tables) db = elim (upsert_events t rows db) [
  | err e ↦ (err e, db)
  | ok db' ↦
      let rest = write_tables tables db' in
      (rest.0 >>= (λ n. ok (length db'.events - length db.events + n)), rest.1)
]

unfoldable pub decode_range : Decoder → ChainId → Height → Height → Db → Result DomainError ℕ × Db
unfolding decoded by_table write_tables
decode_range decoder chain from to db = elim (decoded decoder db chain from to) [
  | err e ↦ (err e, db)
  | ok rows ↦ write_tables (by_table rows) db
]

-- `run_once` of worker.rs at the time `now`. A lease whose decoding fails is not acknowledged.
unfoldable pub run_once : (ChainId → Option Decoder) → ℕ → Db → Result DomainError (Option ℕ) × Db
unfolding decode_range pull_any ack
run_once decoders now db =
    let (q, o) = pull_any db.queue now in
    let db1 = record db { queue = q } in
    elim o [
      | none ↦ (ok none, db1)
      | some lease ↦ elim (decoders lease.item.chain_id) [
        | none ↦ (ok (some 0), record db1 { queue = ack q lease.id lease.lease_seq })
        | some decoder ↦
            let (r, db2) =
              decode_range decoder lease.item.chain_id lease.item.from lease.item.to db1 in
            elim r [
              | err e ↦ (err e, db2)
              | ok n ↦ (ok (some n), record db2 { queue = ack db2.queue lease.id lease.lease_seq })
            ]
      ]
    ]
