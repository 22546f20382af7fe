-- ===== src/Tests/Batches.antt =====
-- crates/source: the aux data of two records, from a provider that answers for one block at a time.
use mathlib.Core.List.Permᴰ
use topic.Base.{
  ℕ, zero, suc, ◌≡◌, refl, sym, ap, ◌∙◌, subst, inl, inr, Any, map, reverse, true, Option, none,
  some, List, [], ◌∷◌, String, if◌then◌else◌, ◌==◌,
}
use topic.Base.Results.{Result, ok, err, ok-injective, ok-err}
use topic.Model.{Bytes, RawRecord, default_plan, no_aux, BlockMeta, AuxData, EventRow}
use topic.Pricing.{alchemy, new}
use topic.Source.{SourceError, Client, Rpc}
use topic.Source.Retry.{is_transient}
use topic.Source.Enrichment.{receipt_rows, Tx, Block, Receipt}
use topic.Source.Batch.{Answers, AuxRpc, fetch_aux}
use topic.Source.Batch.Enriched.{IsAt, IsHonest, IsEnriched, fetch_aux-IsEnriched}

abbrev client : Client
client = record {
  chain_id = 1;
  plan = record default_plan { max_batch = 1 };
  cost_model = alchemy;
  ledger = new none (12, 10);
  density_milli = 0;
  jitter = 7;
  calls = 0;
  slept = 0;
}

abbrev record_at : ℕ → RawRecord
record_at h = record {
  chain_id = 1;
  height = h;
  block_hash = h ∷ [];
  tx_id = h ∷ h ∷ [];
  tx_index = 0;
  inner_index = none;
  index = 0;
  address = [];
  selectors = [];
  payload = [];
}

abbrev tx_at : ℕ → Tx
tx_at h = record {
  hash = h ∷ h ∷ [];
  from_addr = [];
  to_addr = none;
  value = 5;
  input = [];
  gas_limit = 21000;
  nonce = 0;
  gas_price = some 3;
}

abbrev block_at : ℕ → Block
block_at h = record {
  number = h;
  hash = h ∷ [];
  parent_hash = [];
  timestamp = h;
  txs = tx_at 99 ∷ tx_at h ∷ [];
}

abbrev receipt : Receipt
receipt = record { status = true; gas_used = 7; effective_gas_price = 3; contract_address = none }

-- The first call is refused, the batches of blocks complete in the opposite order, and only the second record's transaction has a receipt yet.
abbrev answer_blocks : List ℕ → Rpc (Answers ℕ (Option Block))
answer_blocks chunk zero = err "429 too many requests"
answer_blocks chunk (suc n) = ok (λ h. ok (some (block_at h)))

abbrev answer_receipts : Answers Bytes (Option Receipt)
answer_receipts [] = ok none
answer_receipts (b ∷ id) = ok (if b == 8 then some receipt else none)

abbrev rpc : AuxRpc
rpc = record {
  blocks = answer_blocks;
  receipts = λ chunk n. ok answer_receipts;
  blocks_order = reverse;
  receipts_order = λ parts. parts;
}

abbrev records : List RawRecord
records = record_at 8 ∷ record_at 4 ∷ record_at 8 ∷ []

some-block : {a b : Block} → ◌≡◌ {A = Option Block} (some a) (some b) → a ≡ b
some-block h = cc

IsAt-block : (h : ℕ) → IsAt records (h, block_at h)
IsAt-block h =
    let mine : (k : ℕ) → k ≡ h → Any (λ (tx : Tx). tx.hash ≡ k ∷ k ∷ []) (block_at h).txs =
      λ k e. inr (inl (ap (λ n. n ∷ n ∷ []) (sym e))) in
    (refl, (mine 8, (mine 4, (mine 8, tt))))

rpc-IsHonest : IsHonest rpc records
rpc-IsHonest chunk zero answers h b e k = absurd (ok-err (sym e))
rpc-IsHonest chunk (suc n) answers h b e k =
    let same : ◌≡◌ {A = Result String (Option Block)} (ok (some (block_at h))) (ok (some b)) =
      ap (λ (f : Answers ℕ (Option Block)). f h) (ok-injective e) ∙ k in
    subst (λ (d : Block). IsAt records (h, d)) (some-block (ok-injective same)) (IsAt-block h)

abbrev as_aux : Result SourceError AuxData → AuxData
as_aux (err e) = no_aux
as_aux (ok aux) = aux

unfoldable aux : AuxData
unfolding fetch_aux is_transient
aux = as_aux (fetch_aux rpc records client).0

is_fetched : (fetch_aux rpc records client).0 ≡ ok aux
unfolding fetch_aux aux is_transient
is_fetched = refl

-- The metas of the two blocks, the two transactions, and the one receipt.
aux_rows :
    (map (λ (m : BlockMeta). m.height) aux.block_metas ≡ 8 ∷ 4 ∷ [])
    × (map {B = String × Bytes × ℕ}
          (λ (r : EventRow). (r.event.table, r.tx_id, r.index))
          aux.enrichment
        ≡ ("transactions", 8 ∷ 8 ∷ [], 1)
          ∷ ("transactions", 4 ∷ 4 ∷ [], 1)
          ∷ ("receipts", 8 ∷ 8 ∷ [], 0)
          ∷ [])
unfolding aux is_transient receipt_rows
aux_rows = (refl, refl)

fetch_aux-IsEnriched_example : IsEnriched 1 records aux
fetch_aux-IsEnriched_example =
    fetch_aux-IsEnriched rpc records client aux rpc-IsHonest Permᴰ.reverse Permᴰ.refl is_fetched
