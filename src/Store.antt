-- ===== src/Store.antt =====
-- crates/db: the tables of base_schema.rs and of the migrator, the repositories' statements on them and
-- the transactions of unit_of_work.rs. A transaction is a function from the database to the database
-- or an error, and the database of an error is the one before. Heights and indexes are below `2 ^ 63`,
-- so that the columns of type `bigint` compare them as the code does.
pub mod Rows
pub mod Groups
pub mod Events
pub mod Keyed
pub mod Over
pub mod Kept
pub mod Again
pub mod Deleted
pub mod Rollback
use mathlib.Core.Option
use topic.Base.{
  ℕ, suc, ◌+◌, ◌-◌, ◌/◌, max, Bool, true, false, not, ◌&&◌, ◌||◌, Option, none, some, List, [], ◌∷◌,
  ◌++◌, map, leb, ◌==◌, if◌then◌else◌, String, str_eq,
}
use topic.Base.Results.{DomainError, Result, ok, err, ◌>>=◌}
use topic.Base.Assoc
use topic.Base.Chunks.{chunks}
use topic.Model.{
  ChainId, Height, Hash, Bytes, RawRecord, BlockMeta, EventRow, IngestBatch, WorkItem, hash_eq,
}
use topic.Codec.Selectors.{frame_selectors, unframe_selectors}
use topic.Queue.{WorkQueue, push}
use topic.Store.Rows.{has, keep, put_all, put_over_all}

-- `raw_records`
pub record RawRow : Type 0 where
  pub chain_id : ChainId
  pub height : Height
  pub idx : ℕ
  pub block_hash : Bytes
  pub address : Bytes
  pub selectors : Bytes
  pub payload : Bytes
  pub tx_id : Bytes
  pub tx_index : ℕ
  pub inner_index : Option ℕ

-- The rows of all typed tables, each with the name of its table. `by_tx` says of a table whether its
-- primary key is `(chain_id, tx_id)`; it is `(chain_id, height, idx)` otherwise.
pub record Db : Type 0 where
  pub by_tx : String → Bool
  pub raws : List RawRow
  pub blocks : List BlockMeta
  pub events : List (String × EventRow)
  pub queue : WorkQueue
  pub cursors : List (ℕ × (Height × Hash))

-- raw_record_repo.rs: the binds of `insert_batch_tx`, and the row that `range` builds.
unfoldable pub raw_row : RawRecord → RawRow
unfolding frame_selectors
raw_row r = record {
  chain_id = r.chain_id;
  height = r.height;
  idx = r.index;
  block_hash = r.block_hash;
  address = r.address;
  selectors = frame_selectors r.selectors;
  payload = r.payload;
  tx_id = r.tx_id;
  tx_index = r.tx_index;
  inner_index = r.inner_index;
}

unfoldable pub raw_record : ChainId → RawRow → RawRecord
unfolding unframe_selectors
raw_record chain r = record {
  chain_id = chain;
  height = r.height;
  block_hash = r.block_hash;
  index = r.idx;
  address = r.address;
  selectors = unframe_selectors r.selectors;
  payload = r.payload;
  tx_id = r.tx_id;
  tx_index = r.tx_index;
  inner_index = r.inner_index;
}

-- `PRIMARY KEY (chain_id, height, idx)`
unfoldable pub same_raw : RawRow → RawRow → Bool
same_raw a b = a.chain_id == b.chain_id && (a.height == b.height && a.idx == b.idx)

-- `PRIMARY KEY (chain_id, height)`
unfoldable pub same_block : BlockMeta → BlockMeta → Bool
same_block a b = a.chain_id == b.chain_id && a.height == b.height

-- `chunk_rows`
unfoldable pub chunk_rows : ℕ → ℕ
chunk_rows cols = max (65535 / max cols 1) 1

-- The statements of a batch, one for each chunk.
unfoldable pub put_parts : {A : Type 0} → (A → A → Bool) → List (List A) → List A → List A
unfolding put_all
put_parts same [] rows = rows
put_parts same (part ∷ parts) rows = put_parts same parts (put_all same part rows)

unfoldable pub raw_parts : List RawRecord → List (List RawRow)
unfolding raw_row chunk_rows chunks
raw_parts records = chunks (chunk_rows 10) (map raw_row records)

unfoldable pub block_parts : List BlockMeta → List (List BlockMeta)
unfolding chunk_rows chunks
block_parts bs = chunks (chunk_rows 5) bs

-- raw_record_repo::insert_batch_tx
unfoldable pub insert_raws : List RawRecord → Db → Db
unfolding put_parts same_raw
insert_raws records db = record db { raws = put_parts same_raw (raw_parts records) db.raws }

-- A row of the statement has the key of an earlier one, which `DO UPDATE` refuses.
unfoldable pub repeats : List BlockMeta → Bool
unfolding has same_block
repeats [] = false
repeats (b ∷ bs) = has (same_block b) bs || repeats bs

unfoldable pub upsert_parts :
    List (List BlockMeta) → List BlockMeta → Result DomainError (List BlockMeta)
unfolding put_over_all same_block repeats
upsert_parts [] blocks = ok blocks
upsert_parts (part ∷ parts) blocks =
    let rest = upsert_parts parts (put_over_all same_block part blocks) in
    if repeats part then err (DomainError.storage "row updated a second time") else rest

-- block_repo::upsert_batch_tx
unfoldable pub upsert_blocks : List BlockMeta → Db → Result DomainError Db
unfolding upsert_parts
upsert_blocks bs db = do
  blocks ← upsert_parts (block_parts bs) db.blocks
  ok (record db { blocks = blocks })

-- cursor_repo::advance_in_tx
unfoldable pub advance : ChainId → Height → Hash → Db → Db
unfolding Assoc.insert
advance chain last last_hash db = record db {
  cursors = Assoc.insert chain (last, last_hash) db.cursors;
}

-- cursor_repo::rewind_in_tx: an `UPDATE`, which changes nothing where no row is.
unfoldable pub rewind : ChainId → Height → Db → Db
unfolding Assoc.insert Assoc.lookup
rewind chain to db = elim (Assoc.lookup chain db.cursors) [
  | none ↦ db
  | some c ↦ record db { cursors = Assoc.insert chain (to, []) db.cursors }
]

-- cursor_repo's `get`
unfoldable pub cursor : Db → ChainId → Option (Height × Hash)
unfolding Assoc.lookup
cursor db chain = Assoc.lookup chain db.cursors

-- The rows that `WHERE chain_id = $1 AND height >= $2` selects.
unfoldable pub is_from : ChainId → Height → ℕ → ℕ → Bool
is_from chain from c h = c == chain && leb from h

-- raw_record_repo::delete_from_height_tx, block_repo::delete_from_height_tx
unfoldable pub delete_raws : ChainId → Height → Db → Db
unfolding keep is_from
delete_raws chain from db = record db {
  raws = keep (λ r. not (is_from chain from r.chain_id r.height)) db.raws;
}

unfoldable pub delete_blocks : ChainId → Height → Db → Db
unfolding keep is_from
delete_blocks chain from db = record db {
  blocks = keep (λ b. not (is_from chain from b.chain_id b.height)) db.blocks;
}
