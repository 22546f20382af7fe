-- ===== src/Ingest.antt =====
-- crates/services: ingestion.rs and reorg.rs, and the consumer of bins/indexer-cli/src/plan.rs. The chain
-- source is a record of functions; what the producer's fetches give, in whatever order they finish, is
-- the list that the consumer receives.
pub mod Prefix
pub mod Reorg
pub mod Cursor
use mathlib.Core.Option
use topic.Base.{
  ℕ, suc, ◌+◌, ◌-◌, Bool, true, false, not, Option, none, some, List, [], ◌∷◌, leb, ◌==◌,
  if◌then◌else◌, String, length,
}
use topic.Base.Results.{DomainError, Result, ok, err, ◌>>=◌}
use topic.Model.{
  ChainId, Height, Hash, ChainCaps, RawRecord, RecordFilter, BlockMeta, AuxData, no_aux, WorkItem,
  backfill, IngestBatch, hash_eq,
}
use topic.Plan.{PrefixTracker, Block, new, record_range, checkpoint}
use topic.Store.{Db, advance}
use topic.Store.Events.{commit_ingest, rollback_to, find_block, max_height}

-- `domain::ChainSource`
pub record Source : Type 0 where
  pub chain_id : ChainId
  pub fetch_records : RecordFilter → Height → Height → Result DomainError (List RawRecord)
  pub fetch_aux : List RawRecord → Result DomainError AuxData
  pub block_hash : Height → Result DomainError (Option Hash)
  pub caps : ChainCaps

pub record FetchedRange : Type 0 where
  pub from : Height
  pub to : Height
  pub records : List RawRecord
  pub aux : AuxData
  pub last_block : Option Block

-- `max_by_key`, which takes the last of several.
unfoldable pub highest : Option Block → List BlockMeta → Option Block
highest best [] = best
highest none (b ∷ bs) = highest (some (b.height, b.hash)) bs
highest (some (h, hash)) (b ∷ bs) =
    highest (if leb h b.height then some (b.height, b.hash) else some (h, hash)) bs

unfoldable pub fetch_range :
    Source → RecordFilter → Height → Height → Result DomainError FetchedRange
unfolding highest
fetch_range source filter from to = do
  records ← source.fetch_records filter from to
  aux ← elim records [ [] ↦ ok no_aux | ◌∷◌ r rs ↦ source.fetch_aux (r ∷ rs) ]
  ok (record {
    from = from;
    to = to;
    records = records;
    aux = aux;
    last_block = highest none aux.block_metas;
  })

pub record IngestOutcome : Type 0 where
  pub records : ℕ
  pub blocks : ℕ
  pub enrichment : ℕ
  pub last_block : Option Block

abbrev pub block_hash_of : Option Block → Hash
block_hash_of none = []
block_hash_of (some (h, hash)) = hash

-- The batch that `commit` builds.
unfoldable pub ingest_batch : ChainId → FetchedRange → ℕ → Bool → IngestBatch
ingest_batch chain f epoch advance_cursor = record {
  raw_records = f.records;
  block_metas = f.aux.block_metas;
  enrichment = f.aux.enrichment;
  enqueue = elim f.records [
    | [] ↦ none
    | ◌∷◌ r rs ↦
        some (record { chain_id = chain; from = f.from; to = f.to; kind = backfill; epoch = epoch })
  ];
  advance_cursor = if advance_cursor then some (chain, f.to, block_hash_of f.last_block) else none;
}

abbrev pub outcome_of : FetchedRange → IngestOutcome
outcome_of f = record {
  records = length f.records;
  blocks = length f.aux.block_metas;
  enrichment = length f.aux.enrichment;
  last_block = f.last_block;
}

unfoldable pub commit :
    ChainId → FetchedRange → ℕ → Bool → Db → Result DomainError (IngestOutcome × Db)
unfolding ingest_batch commit_ingest
commit chain f epoch advance_cursor db = do
  db' ← commit_ingest (ingest_batch chain f epoch advance_cursor) db
  ok (outcome_of f, db')

unfoldable pub commit_range :
    ChainId → FetchedRange → ℕ → Db → Result DomainError (IngestOutcome × Db)
unfolding commit
commit_range chain f epoch db = commit chain f epoch false db

unfoldable pub ingest_range :
    Source
    → RecordFilter
    → Height
    → Height
    → ℕ
    → Bool
    → Db
    → Result DomainError (IngestOutcome × Db)
unfolding fetch_range commit
ingest_range source filter from to epoch advance_cursor db = do
  f ← fetch_range source filter from to
  commit source.chain_id f epoch advance_cursor db

-- The cursor's advance over the prefix that `record` returned.
unfoldable pub advance_prefix : ChainId → Option (ℕ × Hash) → Db → Db
unfolding advance
advance_prefix chain none db = db
advance_prefix chain (some (height, hash)) db = advance chain height hash db

-- The loop of `commit_consumer` over the ranges that it receives. What was committed before an error
-- stays committed.
unfoldable pub consume :
    ChainId → PrefixTracker → ℕ → List FetchedRange → Db → Result DomainError (Option ℕ × ℕ) × Db
unfolding commit_range advance_prefix record_range checkpoint
consume chain t records [] db = (ok (t.advanced_to, records), db)
consume chain t records (f ∷ received) db = elim (commit_range chain f 0 db) [
  | err e ↦ (err e, db)
  | ok (outcome, db') ↦
      consume chain (record_range t f.from f.to f.last_block) (records + outcome.records) received
        (advance_prefix chain (checkpoint t f.from f.to f.last_block) db')
]

unfoldable pub commit_consumer :
    ChainId → ℕ → List FetchedRange → Db → Result DomainError (Option ℕ × ℕ) × Db
unfolding consume new
commit_consumer chain next received db = consume chain (new next) 0 received db

-- reorg.rs: `check`. The height from which to index again, if the tip was reorganised.
unfoldable pub check : Source → List String → ℕ → Db → Result DomainError (Option Height × Db)
unfolding hash_eq rollback_to
check source tables confirmations db =
    if source.caps.supports_reorg
    then elim (max_height source.chain_id db.blocks) [
      | none ↦ ok (none, db)
      | some tip ↦ elim (find_block source.chain_id tip db.blocks) [
        | none ↦ ok (none, db)
        | some stored ↦ source.block_hash tip >>= λ canon. elim canon [
          | none ↦ ok (none, db)
          | some hash ↦
              let from = tip - confirmations + 1 in
              if hash_eq hash stored.hash
              then ok (none, db)
              else (rollback_to source.chain_id from tables db >>= λ db'. ok (some from, db'))
        ]
      ]
    ]
    else ok (none, db)
