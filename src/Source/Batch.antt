-- ===== src/Source/Batch.antt =====
-- crates/source/src/batch.rs, and the calls of client.rs that are made in batches.
pub mod Paired
pub mod Found
pub mod Enriched
use Prim.Native.Nat.{compare}
use mathlib.Core.Option
use topic.Base.{
  ℕ, suc, max, min, ◌^◌, ◌-◌, Bool, true, false, Option, none, some, List, [], ◌∷◌, ◌++◌, map,
  String, length, if◌then◌else◌,
}
use topic.Base.Results.{Result, ok, err, ◌>>=◌}
use topic.Base.Chunks.{chunks}
use topic.Model.{
  ChainId, Height, Hash, Bytes, RawRecord, RpcCall, block_by_number, receipt, AuxData, no_aux,
  ChainCaps, PlanProfile, hash_eq,
}
use topic.Store.Groups.{lex, group}
use topic.Source.{SourceError, Client, Rpc, enter}
use topic.Source.Retry.{with_retry}
use topic.Source.Limiter.{acquire_cu}
use topic.Source.Enrichment.{Block, Receipt, block_aux, receipt_aux}

unfoldable pub max_batch : PlanProfile → ℕ
max_batch plan = max plan.max_batch 1

-- `cu_for`: what the limiter is asked for.
unfoldable pub cu_for : Client → RpcCall → ℕ
cu_for c call = min (c.cost_model.cost call).0 (2 ^ 32 - 1)

-- The answers to a batch: that of each of its calls.
abbrev pub Answers : Type 0 → Type 0 → Type 0
Answers I R = I → Result String R

-- The results of a batch that arrived, each with its item.
unfoldable pub waited : {I R : Type 0} → Answers I R → List I → Result String (List (I × R))
waited answers [] = ok []
waited answers (it ∷ chunk) = do r ← answers it; rest ← waited answers chunk; ok ((it, r) ∷ rest)

-- `batch_chunk`: the batch is retried as a unit. `rpc` answers the n-th call of the provider.
unfoldable pub batch_chunk :
    {I R : Type 0}
    → (List I → Rpc (Answers I R))
    → (ℕ → RpcCall)
    → List I
    → Client
    → Result SourceError (List (I × R)) × Client
unfolding with_retry waited
batch_chunk rpc call chunk c =
    with_retry (λ n. rpc chunk n >>= λ answers. waited answers chunk) (call (length chunk)) c

-- The chunks in the order in which they complete, up to the first error.
unfoldable pub batched_loop :
    {I R : Type 0}
    → (List I → Rpc (Answers I R))
    → (ℕ → RpcCall)
    → List (List I)
    → Client
    → Result SourceError (List (I × R)) × Client
unfolding batch_chunk
batched_loop rpc call [] c = (ok [], c)
batched_loop rpc call (chunk ∷ more) c =
    let (r, c') = batch_chunk rpc call chunk c in
    elim r [
      | err e ↦ (err e, c')
      | ok pairs ↦
          let (rest, c'') = batched_loop rpc call more c' in
          (rest >>= (λ qs. ok (pairs ++ qs)), c'')
    ]

-- `batched`, where `completed` is the order in which the batches complete.
unfoldable pub batched :
    {I R : Type 0}
    → (List I → Rpc (Answers I R))
    → (List (List I) → List (List I))
    → (ℕ → RpcCall)
    → List I
    → Client
    → Result SourceError (List (I × R)) × Client
unfolding batched_loop chunks max_batch
batched rpc completed call items c =
    batched_loop rpc call (completed (chunks (max_batch c.plan) items)) c

-- `heights`, `tx_ids` and `tx_loc` of `fetch_aux`: ascending and without repetition, each transaction at
-- the place of its first record.
unfoldable pub heights_of : List RawRecord → List (ℕ × List RawRecord)
unfolding group
heights_of records = group compare (λ r. r.height) records []

unfoldable pub txs_of : List RawRecord → List (Bytes × List RawRecord)
unfolding group lex
txs_of records = group (lex compare) (λ r. r.tx_id) records []

unfoldable pub tx_loc : List RawRecord → Bytes → Option (Height × Hash)
unfolding hash_eq
tx_loc [] id = none
tx_loc (r ∷ rs) id = if hash_eq r.tx_id id then some (r.height, r.block_hash) else tx_loc rs id

-- What the provider answers to the two methods, and the order in which the batches of each complete.
pub record AuxRpc : Type 0 where
  pub blocks : List ℕ → Rpc (Answers ℕ (Option Block))
  pub receipts : List Bytes → Rpc (Answers Bytes (Option Receipt))
  pub blocks_order : List (List ℕ) → List (List ℕ)
  pub receipts_order : List (List Bytes) → List (List Bytes)

-- `fetch_aux`: the two fetches meet in `try_join!`; here the blocks come first.
unfoldable pub fetch_aux : AuxRpc → List RawRecord → Client → Result SourceError AuxData × Client
unfolding heights_of txs_of batched block_aux tx_loc
fetch_aux rpc records c =
    let heights = map (λ (g : ℕ × List RawRecord). g.0) (heights_of records) in
    let tx_ids = map (λ (g : Bytes × List RawRecord). g.0) (txs_of records) in
    let (blocks, c1) =
      batched rpc.blocks rpc.blocks_order (λ n. block_by_number n true) heights c in
    let (receipts, c2) = batched rpc.receipts rpc.receipts_order receipt tx_ids c1 in
    (
      (do
        bs ← blocks
        rs ← receipts
        aux ← block_aux c.chain_id bs tx_ids no_aux
        ok (receipt_aux c.chain_id rs (tx_loc records) aux)),
      c2,
    )

-- `block_hash`
unfoldable pub block_hash :
    (ℕ → Rpc (Option Block)) → Height → Client → Result SourceError (Option Hash) × Client
unfolding with_retry
block_hash rpc height c =
    let (r, c') = with_retry (rpc height) (block_by_number 1 false) c in
    (r >>= (λ blk. ok (Option.map (λ (b : Block). b.hash) blk)), c')

-- `caps`, where `ws` is whether there is a websocket.
unfoldable pub caps : Bool → ChainCaps
caps ws = record { supports_reorg = true; supports_subscribe = ws }
