-- ===== src/Pricing.antt =====
-- crates/pricing: the cost models, which are pure, and the spend ledger, whose atomics are numbers
-- that wrap at `2 ^ 64`.
pub mod Rates
pub mod Accounts
use topic.Base.{
  ℕ, ◌+◌, ◌-◌, ◌*◌, ◌/◌, max, Bool, true, false, ◌||◌, Option, none, some, String, str_eq, List, [],
  ◌∷◌, ◌==◌, add64, mul64, if◌then◌else◌,
}
use topic.Model.{
  RpcCall, get_logs, block_number, block_by_number, tx_by_hash, receipt, log_subscription, other,
}

-- domain::CostModel: the cost of a call in units and micro-USD, and micro-USD for each unit.
pub record CostModel : Type 0 where
  pub cost : RpcCall → ℕ × ℕ
  pub rate : ℕ × ℕ

-- alchemy.rs
unfoldable pub alchemy_units : RpcCall → ℕ
alchemy_units (get_logs blocks results) = 75
alchemy_units block_number = 10
alchemy_units (block_by_number count full) = mul64 16 (max count 1)
alchemy_units (tx_by_hash count) = mul64 15 (max count 1)
alchemy_units (receipt count) = mul64 15 (max count 1)
alchemy_units log_subscription = 10
alchemy_units other = 0

unfoldable pub alchemy : CostModel
unfolding alchemy_units
alchemy = record {
  cost = λ call. (alchemy_units call, mul64 (alchemy_units call) 12 / 10);
  rate = (12, 10);
}

-- quicknode.rs
unfoldable pub quicknode_units : RpcCall → ℕ
quicknode_units (get_logs blocks results) = 20
quicknode_units block_number = 20
quicknode_units (block_by_number count full) = mul64 20 (max count 1)
quicknode_units (tx_by_hash count) = mul64 20 (max count 1)
quicknode_units (receipt count) = mul64 20 (max count 1)
quicknode_units log_subscription = 20
quicknode_units other = 0

unfoldable pub quicknode : CostModel
unfolding quicknode_units
quicknode = record {
  cost = λ call. (quicknode_units call, mul64 (quicknode_units call) 6 / 10);
  rate = (6, 10);
}

-- free_node.rs
abbrev pub free_node : CostModel
free_node = record { cost = λ call. (0, 0); rate = (0, 1) }

-- lib.rs
unfoldable pub for_kind : String → Option CostModel
for_kind kind =
    if str_eq kind "alchemy"
    then some alchemy
    else if str_eq kind "quicknode"
    then some quicknode
    else if str_eq kind "free_node" || str_eq kind "generic_rpc"
    then some free_node
    else none

-- ledger.rs
pub record SpendLedger : Type 0 where
  pub units : ℕ
  pub micro_usd : ℕ
  pub monthly_quota : Option ℕ
  pub rate : ℕ × ℕ

unfoldable pub new : Option ℕ → ℕ × ℕ → SpendLedger
new monthly_quota rate = record {
  units = 0;
  micro_usd = 0;
  monthly_quota = monthly_quota;
  rate = rate;
}

unfoldable pub record_spend : SpendLedger → ℕ × ℕ → SpendLedger
record_spend l (units, money) = record l {
  units = add64 l.units units;
  micro_usd = add64 l.micro_usd money;
}

-- The free allotment, `monthly_quota.unwrap_or(0)`.
abbrev pub free_units : Option ℕ → ℕ
free_units none = 0
free_units (some q) = q

unfoldable pub billable_micro_usd : SpendLedger → ℕ
billable_micro_usd l = mul64 (l.units - free_units l.monthly_quota) l.rate.0 / max l.rate.1 1

unfoldable pub remaining_quota : SpendLedger → Option ℕ
remaining_quota l = elim l.monthly_quota [ none ↦ none | some q ↦ some (q - l.units) ]

-- `matches!(self.remaining_quota(), Some(0))`
unfoldable pub quota_exhausted : SpendLedger → Bool
unfolding remaining_quota
quota_exhausted l = elim (remaining_quota l) [ none ↦ false | some n ↦ n == 0 ]

-- The ledger after a run of calls.
unfoldable pub record_all : SpendLedger → List (ℕ × ℕ) → SpendLedger
unfolding record_spend
record_all l [] = l
record_all l (c ∷ cs) = record_all (record_spend l c) cs
