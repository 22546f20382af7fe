-- ===== src/Tests/Prices.antt =====
-- crates/pricing: three calls at Alchemy's rates.
use topic.Base.{
  ℕ, ◌+◌, ◌-◌, ◌≤◌, ◌<◌, ◌*◌, ◌≡◌, All, u64_mod, refl, none, some, List, [], ◌∷◌, map, length,
  arith,
}
use topic.Model.{RpcCall, get_logs, block_number, receipt}
use topic.Pricing.{alchemy, new, record_all, alchemy_units, billable_micro_usd}
use topic.Pricing.Rates.{AtRate, cost-AtRate}
use topic.Pricing.Accounts.{
  total_units, total_money, IsAccount, record_all-IsAccount, billable-total_money,
}

abbrev calls : List RpcCall
calls = get_logs 2000 0 ∷ receipt 7 ∷ block_number ∷ []

abbrev costs : List (ℕ × ℕ)
costs = (75, 90) ∷ (105, 126) ∷ (10, 12) ∷ []

record_all-IsAccount_example :
    IsAccount (some 100) (12, 10) costs (record_all (new (some 100) (12, 10)) costs)
record_all-IsAccount_example =
    record_all-IsAccount (some 100) (12, 10) costs (omega arith) (omega arith) (omega arith)

calls-AtRate : All (AtRate alchemy) calls
calls-AtRate = (
  (cost-AtRate (get_logs 2000 0) tt).0,
  ((cost-AtRate (receipt 7) (omega arith)).0, ((cost-AtRate block_number tt).0, tt)),
)

calls-bounds :
    (total_units (map alchemy.cost calls) < u64_mod)
    × (total_money (map alchemy.cost calls) < u64_mod)
    × (total_units (map alchemy.cost calls) * 12 < u64_mod)
unfolding alchemy alchemy_units
calls-bounds = (omega arith, omega arith, omega arith)

alchemy-rate : alchemy.rate ≡ (12, 10)
unfolding alchemy
alchemy-rate = refl

billable-total_money_example :
    let l = record_all (new none alchemy.rate) (map alchemy.cost calls) in
    (l.micro_usd ≤ billable_micro_usd l) × (billable_micro_usd l ≤ l.micro_usd + (length calls - 1))
billable-total_money_example =
    billable-total_money 12 alchemy calls alchemy-rate calls-AtRate calls-bounds.0 calls-bounds.1
      calls-bounds.2
