-- ===== src/Store/Events.antt =====
-- crates/db/src/repositories/event_repo.rs, crates/db/src/unit_of_work.rs and the reads of
-- raw_record_repo.rs and block_repo.rs.
use Prim.Native.Nat.{compare}
use topic.Base.{
  ℕ, ◌+◌, ◌-◌, max, ltb, leb, Bool, true, not, ◌&&◌, ◌||◌, Option, none, some, List, [], ◌∷◌, ◌++◌,
  map, ◌==◌, if◌then◌else◌, String, str_eq, length,
}
use topic.Base.Results.{DomainError, Result, ok, err, ◌>>=◌, ◌>>◌, guard}
use topic.Base.Chunks.{chunks, concat}
use topic.Base.Sort.{sort_by}
use topic.Text.{codes}
use topic.Codec.Idents.{is_valid_ident}
use topic.Model.{
  ChainId, Height, Hash, RawRecord, BlockMeta, EventRow, EventValue, IngestBatch, WorkItem, hash_eq,
}
use topic.Queue.{push}
use topic.Store.{
  Db, RawRow, raw_record, insert_raws, upsert_blocks, advance, rewind, is_from, delete_raws,
  delete_blocks, chunk_rows,
}
use topic.Store.Rows.{has, keep}
use topic.Store.Groups.{lex, group}

-- The primary key of a typed table.
unfoldable pub same_event : (String → Bool) → String × EventRow → String × EventRow → Bool
unfolding hash_eq
same_event by_tx (t, a) (u, b) =
    str_eq t u
    && (a.chain_id == b.chain_id
        && (if by_tx t
            then hash_eq a.tx_id b.tx_id
            else a.height == b.height && a.index == b.index))

-- `receipts_tx_fk`: the transaction of a receipt.
unfoldable pub is_parent : EventRow → String × EventRow → Bool
unfolding hash_eq
is_parent a (u, b) =
    str_eq u "transactions" && (a.chain_id == b.chain_id && hash_eq a.tx_id b.tx_id)

-- One row of `INSERT … ON CONFLICT DO NOTHING`. A new receipt without its transaction is an error.
unfoldable pub put_event :
    (String → Bool)
    → String × EventRow
    → List (String × EventRow)
    → Result DomainError (List (String × EventRow))
unfolding has same_event is_parent
put_event by_tx (t, row) events =
    if has (same_event by_tx (t, row)) events
    then ok events
    else if str_eq t "receipts" && not (has (is_parent row) events)
    then err (DomainError.storage "receipts_tx_fk")
    else ok (events ++ (t, row) ∷ [])

unfoldable pub put_events :
    (String → Bool)
    → List (String × EventRow)
    → List (String × EventRow)
    → Result DomainError (List (String × EventRow))
unfolding put_event
put_events by_tx [] events = ok events
put_events by_tx (r ∷ rows) events = put_event by_tx r events >>= put_events by_tx rows

-- The names of the columns of a row, `sig`.
abbrev pub signature : EventRow → List (List ℕ)
signature row = map (λ (f : String × EventValue). codes f.0) row.event.fields

abbrev pub all_safe : List (List ℕ) → Bool
all_safe [] = true
all_safe (n ∷ names) = is_valid_ident n && all_safe names

-- `cols` of a group.
abbrev pub cols : String → List (List ℕ) → ℕ
cols table sig = (if str_eq table "receipts" then 5 else 6) + length sig

-- The rows in the order of the statements: group by group, each in its chunks.
unfoldable pub statements : String → List (List (List ℕ) × List EventRow) → List (List EventRow)
unfolding chunks chunk_rows
statements table [] = []
statements table ((sig, rows) ∷ groups) =
    chunks (chunk_rows (cols table sig)) rows ++ statements table groups

abbrev pub all_groups_safe : List (List (List ℕ) × List EventRow) → Bool
all_groups_safe [] = true
all_groups_safe ((sig, rows) ∷ groups) = all_safe sig && all_groups_safe groups

unfoldable pub sig_groups : List EventRow → List (List (List ℕ) × List EventRow)
unfolding group lex
sig_groups rows = group (lex (lex compare)) signature rows []

unfoldable pub event_rows : String → List EventRow → List (String × EventRow)
unfolding statements
event_rows table rows = map (λ row. (table, row)) (concat (statements table (sig_groups rows)))

-- Every name that the statements contain is a safe identifier.
unfoldable pub safe_names : String → List EventRow → Bool
unfolding is_valid_ident
safe_names table rows = is_valid_ident (codes table) && all_groups_safe (sig_groups rows)

-- `upsert_batch_tx`
unfoldable pub upsert_events : String → List EventRow → Db → Result DomainError Db
unfolding put_events event_rows is_valid_ident
upsert_events table rows db = do
  guard (safe_names table rows) (DomainError.storage "unsafe identifier")
  events ← put_events db.by_tx (event_rows table rows) db.events
  ok (record db { events = events })

-- A row that a delete from `table` takes away: one that it selects, or a receipt whose transaction goes.
unfoldable pub is_hit : String → ChainId → Height → String × EventRow → Bool
unfolding is_from
is_hit table chain from (t, row) = str_eq t table && is_from chain from row.chain_id row.height

unfoldable pub is_cascaded :
    String → ChainId → Height → List (String × EventRow) → String × EventRow → Bool
unfolding is_hit is_parent has
is_cascaded table chain from events (t, row) =
    str_eq t "receipts" && has (λ p. is_hit table chain from p && is_parent row p) events

-- `delete_from_height_tx` of event_repo.rs
unfoldable pub delete_events : String → ChainId → Height → Db → Result DomainError Db
unfolding keep is_hit is_cascaded is_valid_ident
delete_events table chain from db = do
  guard (is_valid_ident (codes table)) (DomainError.storage "unsafe identifier")
  ok (record db {
    events =
        keep (λ r. not (is_hit table chain from r || is_cascaded table chain from db.events r))
          db.events;
  })

unfoldable pub delete_tables : List String → ChainId → Height → Db → Result DomainError Db
unfolding delete_events
delete_tables [] chain from db = ok db
delete_tables (t ∷ tables) chain from db =
    delete_events t chain from db >>= delete_tables tables chain from

-- `rollback_to`
unfoldable pub rollback_to : ChainId → Height → List String → Db → Result DomainError Db
unfolding delete_tables delete_raws delete_blocks rewind
rollback_to chain from tables db = delete_tables tables chain from db >>= λ db'.
    ok (rewind chain (from - 1) (delete_blocks chain from (delete_raws chain from db')))

-- The tables of the enrichment rows, in the order of their names but the receipts last.
unfoldable pub others : List (String × List EventRow) → List (String × List EventRow)
unfolding keep
others tables = keep (λ g. not (str_eq g.0 "receipts")) tables

unfoldable pub receipts : List (String × List EventRow) → List (String × List EventRow)
unfolding keep
receipts tables = keep (λ g. str_eq g.0 "receipts") tables

unfoldable pub table_groups : List EventRow → List (String × List EventRow)
unfolding group lex
table_groups rows = group (λ t u. lex compare (codes t) (codes u)) (λ row. row.event.table) rows []

unfoldable pub upsert_tables : List (String × List EventRow) → Db → Result DomainError Db
unfolding upsert_events
upsert_tables [] db = ok db
upsert_tables ((t, rows) ∷ tables) db = upsert_events t rows db >>= upsert_tables tables

unfoldable pub enqueue : Option WorkItem → Db → Db
unfolding push
enqueue none db = db
enqueue (some item) db = record db { queue = push db.queue item }

unfoldable pub advance_to : Option (ChainId × Height × Hash) → Db → Db
unfolding advance
advance_to none db = db
advance_to (some (chain, last, last_hash)) db = advance chain last last_hash db

abbrev pub batch_tables : IngestBatch → List (String × List EventRow)
batch_tables batch =
    others (table_groups batch.enrichment) ++ receipts (table_groups batch.enrichment)

-- `commit_ingest`
unfoldable pub commit_ingest : IngestBatch → Db → Result DomainError Db
unfolding insert_raws upsert_blocks upsert_tables enqueue advance_to
commit_ingest batch db = do
  db1 ← upsert_blocks batch.block_metas (insert_raws batch.raw_records db)
  db2 ← upsert_tables (batch_tables batch) db1
  ok (advance_to batch.advance_cursor (enqueue batch.enqueue db2))

-- `range` of raw_record_repo.rs
unfoldable pub raw_less : RawRow → RawRow → Bool
raw_less a b = ltb a.height b.height || a.height == b.height && ltb a.idx b.idx

unfoldable pub range : Db → ChainId → Height → Height → List RawRecord
unfolding keep sort_by raw_less raw_record
range db chain from to = map (raw_record chain) (
    sort_by raw_less
      (keep (λ r. r.chain_id == chain && (leb from r.height && leb r.height to)) db.raws))

-- `get` of block_repo.rs
abbrev pub find_block : ChainId → Height → List BlockMeta → Option BlockMeta
find_block chain height [] = none
find_block chain height (b ∷ blocks) =
    if b.chain_id == chain && b.height == height then some b else find_block chain height blocks

-- `max_height`
abbrev pub max_height : ChainId → List BlockMeta → Option Height
max_height chain [] = none
max_height chain (b ∷ blocks) =
    let rest = max_height chain blocks in
    if b.chain_id == chain
    then elim rest [ none ↦ some b.height | some h ↦ some (max b.height h) ]
    else rest
