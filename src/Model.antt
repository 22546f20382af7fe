-- ===== src/Model.antt =====
-- The value objects that the components share: crates/shared/src/model and the port types of
-- crates/domain. The newtypes over `u64` (ChainId, Height, RecordIndex, Epoch, CostUnits, MicroUsd)
-- are numbers below `2 ^ 64`; hashes, addresses and payloads are byte lists.
use topic.Base.{
  ℕ, ◌≡◌, refl, ◌↔◌, Bool, true, false, ◌&&◌, Option, none, List, [], ◌∷◌, arith, ◌==◌, String,
}

abbrev pub ChainId : Type 0
ChainId = ℕ

abbrev pub Height : Type 0
Height = ℕ

abbrev pub Bytes : Type 0
Bytes = List ℕ

abbrev pub Hash : Type 0
Hash = Bytes

-- `Hash::eq`: the derived comparison of the byte vectors.
unfoldable pub hash_eq : Bytes → Bytes → Bool
hash_eq [] [] = true
hash_eq [] (b ∷ bs) = false
hash_eq (a ∷ as') [] = false
hash_eq (a ∷ as') (b ∷ bs) = a == b && hash_eq as' bs

pub hash_eq_iff : (a b : Bytes) → (hash_eq a b ≡ true) ↔ (a ≡ b)
unfolding hash_eq
hash_eq_iff [] [] = (λ _. refl, λ _. refl)
hash_eq_iff [] (b ∷ bs) = (λ h. cc, λ h. cc)
hash_eq_iff (a ∷ as') [] = (λ h. cc, λ h. cc)
hash_eq_iff (a ∷ as') (b ∷ bs) = ground (arith, hash_eq_iff as' bs)

-- model/chain.rs
pub record ChainCaps : Type 0 where
  pub supports_reorg : Bool
  pub supports_subscribe : Bool

-- model/block.rs; `time` is in seconds.
pub record BlockMeta : Type 0 where
  pub chain_id : ChainId
  pub height : Height
  pub hash : Hash
  pub parent_hash : Hash
  pub time : ℕ

pub record TxCalldata : Type 0 where
  pub chain_id : ChainId
  pub height : Height
  pub block_hash : Hash
  pub tx_id : Hash
  pub to_addr : Bytes
  pub tx_index : ℕ
  pub input : Bytes

-- model/work.rs
pub data WorkKind : Type 0 where
  backfill tip reorg : WorkKind

unfoldable pub kind_eq : WorkKind → WorkKind → Bool
kind_eq backfill backfill = true
kind_eq tip tip = true
kind_eq reorg reorg = true
kind_eq _ _ = false

pub record WorkItem : Type 0 where
  pub chain_id : ChainId
  pub from : Height
  pub to : Height
  pub kind : WorkKind
  pub epoch : ℕ

pub record Lease : Type 0 where
  pub id : ℕ
  pub lease_seq : ℕ
  pub item : WorkItem

-- model/spend.rs
pub data RpcCall : Type 0 where
  get_logs : ℕ → ℕ → RpcCall
  block_number : RpcCall
  block_by_number : ℕ → Bool → RpcCall
  tx_by_hash : ℕ → RpcCall
  receipt : ℕ → RpcCall
  log_subscription : RpcCall
  other : RpcCall

pub record PlanProfile : Type 0 where
  pub max_rps : ℕ
  pub max_cu_per_sec : Option ℕ
  pub max_batch : ℕ
  pub max_getlogs_blocks : ℕ
  pub max_getlogs_results : ℕ
  pub monthly_quota : Option ℕ

-- `PlanProfile::default()`
abbrev pub default_plan : PlanProfile
default_plan = record {
  max_rps = 25;
  max_cu_per_sec = none;
  max_batch = 100;
  max_getlogs_blocks = 2000;
  max_getlogs_results = 10_000;
  monthly_quota = none;
}

-- model/record.rs
pub record RawRecord : Type 0 where
  pub chain_id : ChainId
  pub height : Height
  pub block_hash : Hash
  pub index : ℕ
  pub address : Bytes
  pub selectors : List Hash
  pub payload : Bytes
  pub tx_id : Hash
  pub tx_index : ℕ
  pub inner_index : Option ℕ

pub record TipLog : Type 0 where
  pub raw : RawRecord
  pub removed : Bool

pub record RecordFilter : Type 0 where
  pub addresses : List Bytes
  pub selectors : List Hash

pub data EventValue : Type 0 where
  address : Bytes → EventValue
  uint : String → EventValue
  int : String → EventValue
  bool : Bool → EventValue
  bytes : Bytes → EventValue
  string : String → EventValue
  hash : Bytes → EventValue
  json : String → EventValue

pub record DecodedEvent : Type 0 where
  pub table : String
  pub fields : List (String × EventValue)

pub record EventRow : Type 0 where
  pub chain_id : ChainId
  pub height : Height
  pub block_hash : Hash
  pub block_time : Option ℕ
  pub tx_id : Hash
  pub index : ℕ
  pub event : DecodedEvent

-- crates/domain/src/ports/chain_source.rs
pub record AuxData : Type 0 where
  pub block_metas : List BlockMeta
  pub enrichment : List EventRow

abbrev pub no_aux : AuxData
no_aux = record { block_metas = []; enrichment = [] }

-- crates/domain/src/ports/unit_of_work.rs
pub record IngestBatch : Type 0 where
  pub raw_records : List RawRecord
  pub block_metas : List BlockMeta
  pub enrichment : List EventRow
  pub enqueue : Option WorkItem
  pub advance_cursor : Option (ChainId × Height × Hash)
