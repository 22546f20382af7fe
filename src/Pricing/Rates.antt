-- ===== src/Pricing/Rates.antt =====
-- crates/pricing: the money of a call and the rate of its model.
use topic.Base.{◌*◌, ◌/◌, ◌^◌, ◌<◌, ◌≡◌, arith}
use topic.Model.{RpcCall, block_by_number, get_logs, tx_by_hash, receipt}
use topic.Pricing.{CostModel, alchemy, alchemy_units, quicknode, quicknode_units, free_node}

-- The money of a call is its units at the rate of the model, rounded down.
abbrev pub AtRate : CostModel → RpcCall → Type 0
AtRate m call = (m.cost call).1 ≡ (m.cost call).0 * m.rate.0 / m.rate.1

-- A batch that a plan allows (`max_batch` is a `u32`) has far fewer calls than this.
abbrev pub IsBatch : RpcCall → Type 0
IsBatch (block_by_number count full) = count < 2 ^ 32
IsBatch (tx_by_hash count) = count < 2 ^ 32
IsBatch (receipt count) = count < 2 ^ 32
IsBatch _ = Unit

-- Each model bills a call at its own rate: its money is its units times the rate, rounded down, for
-- every batch of fewer than `2 ^ 32` calls.
pub cost-AtRate :
    (call : RpcCall)
    → IsBatch call
    → AtRate alchemy call × AtRate quicknode call × AtRate free_node call
unfolding alchemy quicknode alchemy_units quicknode_units
cost-AtRate (get_logs b r) h = omega arith
cost-AtRate (block_by_number c f) h = omega arith
cost-AtRate (tx_by_hash c) h = omega arith
cost-AtRate (receipt c) h = omega arith
cost-AtRate _ h = omega arith
