-- ===== src/Source/Enrichment.antt =====
-- crates/source/src/enrichment.rs: the aux tables and their rows. A block and a receipt have what the code
-- reads of the types of the RPC crate.
use topic.Base.{ℕ, suc, Bool, false, Option, none, some, List, [], ◌∷◌, ◌++◌, String, if◌then◌else◌}
use topic.Base.Results.{Result, ok, err}
use topic.Text.{append, text, decimal}
use topic.Model.{ChainId, Height, Hash, Bytes, BlockMeta, EventRow, EventValue, AuxData, hash_eq}
use topic.Schema.{ColumnType, ColumnDef, EventSchema, tx_pk}
use topic.Store.Rows.{has}
use topic.Source.{SourceError, malformed}

abbrev pub col : String → ColumnType → ColumnDef
col name ty = record { name = name; ty = ty; indexed_hash = false }

unfoldable pub aux_schemas : List EventSchema
aux_schemas =
    record {
      table = "transactions";
      event = "Transaction";
      topic0 = none;
      columns =
          col "from_addr" ColumnType.address
          ∷ col "to_addr" ColumnType.address
          ∷ col "value" (ColumnType.uint 256)
          ∷ col "input" ColumnType.blob
          ∷ col "gas" (ColumnType.uint 256)
          ∷ col "gas_price" (ColumnType.uint 256)
          ∷ col "nonce" (ColumnType.uint 256)
          ∷ [];
      indexed_positions = [];
      pk_columns = tx_pk;
    }
    ∷ record {
      table = "receipts";
      event = "Receipt";
      topic0 = none;
      columns =
          col "status" ColumnType.boolean
          ∷ col "gas_used" (ColumnType.uint 256)
          ∷ col "effective_gas_price" (ColumnType.uint 256)
          ∷ col "contract_address" ColumnType.address
          ∷ [];
      indexed_positions = [];
      pk_columns = tx_pk;
    }
    ∷ []

-- `row`
abbrev pub aux_row :
    ChainId → String → Height → Hash → Hash → ℕ → List (String × EventValue) → EventRow
aux_row chain_id table height block_hash tx_id idx fields = record {
  chain_id = chain_id;
  height = height;
  block_hash = block_hash;
  block_time = none;
  tx_id = tx_id;
  index = idx;
  event = record { table = table; fields = fields };
}

-- What `block_aux` reads of a transaction.
pub record Tx : Type 0 where
  pub hash : Bytes
  pub from_addr : Bytes
  pub to_addr : Option Bytes
  pub value : ℕ
  pub input : Bytes
  pub gas_limit : ℕ
  pub nonce : ℕ
  pub gas_price : Option ℕ

pub record Block : Type 0 where
  pub number : ℕ
  pub hash : Bytes
  pub parent_hash : Bytes
  pub timestamp : ℕ
  pub txs : List Tx

pub record Receipt : Type 0 where
  pub status : Bool
  pub gas_used : ℕ
  pub effective_gas_price : ℕ
  pub contract_address : Option Bytes

abbrev pub shown : ℕ → EventValue
shown n = EventValue.uint (text (decimal n))

-- A field that is left out where the value is absent.
abbrev pub optional :
    {A : Type 0} → String → (A → EventValue) → Option A → List (String × EventValue)
optional name f none = []
optional name f (some a) = (name, f a) ∷ []

-- `transaction_row`, with the position of the transaction in its block.
unfoldable pub transaction_row : ChainId → Height → Hash → ℕ → Tx → EventRow
unfolding text decimal
transaction_row chain_id height block_hash tx_index tx =
    aux_row chain_id "transactions" height block_hash tx.hash tx_index (
      ("from_addr", EventValue.address tx.from_addr)
      ∷ ("value", shown tx.value)
      ∷ ("input", EventValue.bytes tx.input)
      ∷ ("gas", shown tx.gas_limit)
      ∷ ("nonce", shown tx.nonce)
      ∷ (optional "to_addr" EventValue.address tx.to_addr
          ++ optional "gas_price" shown tx.gas_price))

unfoldable pub receipt_row : ChainId → Height → Hash → Hash → Receipt → EventRow
unfolding text decimal
receipt_row chain_id height block_hash tx_id r =
    aux_row chain_id "receipts" height block_hash tx_id 0 (
      ("status", EventValue.bool r.status)
      ∷ ("gas_used", shown r.gas_used)
      ∷ ("effective_gas_price", shown r.effective_gas_price)
      ∷ optional "contract_address" EventValue.address r.contract_address)

abbrev pub meta_of : ChainId → Block → BlockMeta
meta_of chain_id b = record {
  chain_id = chain_id;
  height = b.number;
  hash = b.hash;
  parent_hash = b.parent_hash;
  time = b.timestamp;
}

-- The loop over the transactions of a block: the matched ones, at their positions from `i` on.
unfoldable pub matched_rows : ChainId → List Bytes → Block → ℕ → List Tx → List EventRow
unfolding has hash_eq transaction_row
matched_rows chain_id tx_ids b i [] = []
matched_rows chain_id tx_ids b i (tx ∷ txs) =
    let rest = matched_rows chain_id tx_ids b (suc i) txs in
    if has (hash_eq tx.hash) tx_ids
    then transaction_row chain_id b.number b.hash i tx ∷ rest
    else rest

-- `block_aux`, which adds to `aux`.
unfoldable pub block_aux :
    ChainId → List (ℕ × Option Block) → List Bytes → AuxData → Result SourceError AuxData
unfolding matched_rows text decimal
block_aux chain_id [] tx_ids aux = ok aux
block_aux chain_id ((h, blk) ∷ blocks) tx_ids aux = elim blk [
  | none ↦ err (malformed (append "block " (append (text (decimal h)) " not found")))
  | some b ↦ block_aux chain_id blocks tx_ids (record {
    block_metas = aux.block_metas ++ meta_of chain_id b ∷ [];
    enrichment = aux.enrichment ++ matched_rows chain_id tx_ids b 0 b.txs;
  })
]

abbrev pub located : Option (Height × Hash) → Height × Hash
located none = (0, [])
located (some at) = at

-- `receipt_aux`: a transaction without a receipt has no row. `tx_loc` gives its block.
unfoldable pub receipt_rows :
    ChainId → List (Bytes × Option Receipt) → (Bytes → Option (Height × Hash)) → List EventRow
unfolding receipt_row
receipt_rows chain_id [] tx_loc = []
receipt_rows chain_id ((tx_id, rcpt) ∷ receipts) tx_loc =
    let rest = receipt_rows chain_id receipts tx_loc in
    elim rcpt [
      | none ↦ rest
      | some r ↦
          let (height, block_hash) = located (tx_loc tx_id) in
          receipt_row chain_id height block_hash tx_id r ∷ rest
    ]

abbrev pub receipt_aux :
    ChainId → List (Bytes × Option Receipt) → (Bytes → Option (Height × Hash)) → AuxData → AuxData
receipt_aux chain_id receipts tx_loc aux = record aux {
  enrichment = aux.enrichment ++ receipt_rows chain_id receipts tx_loc;
}
