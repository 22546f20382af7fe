-- ===== src/Source.antt =====
-- crates/source: the RPC client. The provider is a parameter: what it answers may depend on how many
-- calls were made before. Waiting for permits takes time and changes nothing else.
pub mod Retry
pub mod Density
pub mod Fetch
pub mod Limiter
pub mod Enrichment
pub mod Batch
pub mod Evm
use topic.Base.{ℕ, suc, Option, List, String, ◌++◌}
use topic.Base.Results.{Result}
use topic.Model.{ChainId, PlanProfile, RpcCall}
use topic.Pricing.{CostModel, SpendLedger, record_spend}

-- error.rs
pub data SourceError : Type 0 where
  transport malformed unknown_kind unsupported : String → SourceError

-- `RpcLogSource`: what the calls read and write, with the jitter state of retry.rs. `calls` counts the
-- calls made so far and `slept` the milliseconds waited between retries.
pub record Client : Type 0 where
  pub chain_id : ChainId
  pub plan : PlanProfile
  pub cost_model : CostModel
  pub ledger : SpendLedger
  pub density_milli : ℕ
  pub jitter : ℕ
  pub calls : ℕ
  pub slept : ℕ

-- `enter`, which meters each true call; the count stands for the provider's side.
unfoldable pub enter : Client → RpcCall → Client
unfolding record_spend
enter c call = record c {
  ledger = record_spend c.ledger (c.cost_model.cost call);
  calls = suc c.calls;
}

-- A call of the provider: its answer to the n-th call.
abbrev pub Rpc : Type 0 → Type 0
Rpc A = ℕ → Result String A
