-- ===== src/Pricing/Accounts.antt =====
-- What the ledger says after a run of calls.
use topic.Base.{
  ℕ, ◌+◌, ◌-◌, ◌*◌, ◌/◌, ◌≤◌, ◌<◌, ◌≡◌, refl, arith, true, Option, none, some, List, [], ◌∷◌, All,
  u64_mod, max, ◌↔◌, map, length, ap, subst, sym, length-map,
}
use mathlib.Core.Option
use topic.Model.{RpcCall}
use topic.Pricing.Rates.{AtRate}
use topic.Pricing.{
  CostModel, SpendLedger, new, record_all, record_spend, billable_micro_usd, remaining_quota,
  quota_exhausted, free_units,
}

abbrev pub total_units : List (ℕ × ℕ) → ℕ
total_units [] = 0
total_units ((u, m) ∷ cs) = u + total_units cs

abbrev pub total_money : List (ℕ × ℕ) → ℕ
total_money [] = 0
total_money ((u, m) ∷ cs) = m + total_money cs

record_all-sums :
    (l : SpendLedger) (cs : List (ℕ × ℕ))
    → l.units + total_units cs < u64_mod
    → l.micro_usd + total_money cs < u64_mod
    → record_all l cs
      ≡ record l { units = l.units + total_units cs; micro_usd = l.micro_usd + total_money cs }
unfolding record_all
record_all-sums l [] h k = ground arith
record_all-sums l ((u, m) ∷ cs) h k = ground (arith, record_all-sums (record_spend l (u, m)) cs)

record_all-new :
    (quota : Option ℕ) (rate : ℕ × ℕ) (cs : List (ℕ × ℕ))
    → total_units cs < u64_mod
    → total_money cs < u64_mod
    → record_all (new quota rate) cs ≡ record {
      units = total_units cs;
      micro_usd = total_money cs;
      monthly_quota = quota;
      rate = rate;
    }
unfolding new
record_all-new quota rate cs h k = ground (arith, record_all-sums (new quota rate) cs)

sub-mul-le : (a f r : ℕ) → (a - f) * r ≤ a * r
sub-mul-le a f r = grind arith

-- The ledger whose figures are the sums over the calls `cs`.
pub record IsAccount (quota : Option ℕ) (rate : ℕ × ℕ) (cs : List (ℕ × ℕ)) (l : SpendLedger)
    : Type 0 where
  pub spent : l.units ≡ total_units cs
  pub raw : l.micro_usd ≡ total_money cs
  pub exhausted : (quota_exhausted l ≡ true) ↔ ((q : ℕ) × (quota ≡ some q) × (q ≤ total_units cs))
  pub rest : remaining_quota l ≡ Option.map (λ q. q - total_units cs) quota
  pub billed : billable_micro_usd l ≡ (total_units cs - free_units quota) * rate.0 / max rate.1 1

sums-IsAccount :
    (quota : Option ℕ) (rate : ℕ × ℕ) (cs : List (ℕ × ℕ))
    → total_units cs * rate.0 < u64_mod
    → IsAccount quota rate cs (record {
      units = total_units cs;
      micro_usd = total_money cs;
      monthly_quota = quota;
      rate = rate;
    })
unfolding quota_exhausted billable_micro_usd remaining_quota
sums-IsAccount none rate cs b = record {
  spent = refl;
  raw = refl;
  exhausted = (λ h. cc, λ h. cc (h.1));
  rest = refl;
  billed = ground (arith, sub-mul-le (total_units cs) 0 rate.0);
}
sums-IsAccount (some q) rate cs b = record {
  spent = refl;
  raw = refl;
  exhausted = (λ h. (q, refl, ground arith), λ h. ground (arith, h));
  rest = refl;
  billed = ground (arith, sub-mul-le (total_units cs) q rate.0);
}

-- While no sum passes the range of `u64`, the raw figures of the ledger are the sums over its calls;
-- the quota is exhausted exactly when one is set and the units have reached it, what remains of it is
-- the rest, and only the units past it are billed.
pub record_all-IsAccount :
    (quota : Option ℕ) (rate : ℕ × ℕ) (cs : List (ℕ × ℕ))
    → total_units cs < u64_mod
    → total_money cs < u64_mod
    → total_units cs * rate.0 < u64_mod
    → IsAccount quota rate cs (record_all (new quota rate) cs)
record_all-IsAccount quota rate cs h k b =
    rw (record_all-new quota rate cs h k) (sums-IsAccount quota rate cs b)

-- Calls that cost `num / 10` micro-USD a unit, each rounded down.
abbrev RatedAt : ℕ → ℕ × ℕ → Type 0
RatedAt num (u, m) = m ≡ u * num / 10

total_money-rounding :
    (num : ℕ) (cs : List (ℕ × ℕ))
    → All (RatedAt num) cs
    → (total_money cs * 10 ≤ total_units cs * num)
      × (total_units cs * num ≤ total_money cs * 10 + length cs * 9)
total_money-rounding num [] h = omega arith
total_money-rounding num ((u, m) ∷ cs) h = omega (arith, total_money-rounding num cs h.1)

costs-RatedAt :
    (num : ℕ) (m : CostModel) (calls : List RpcCall)
    → m.rate ≡ (num, 10)
    → All (AtRate m) calls
    → All (RatedAt num) (map m.cost calls)
costs-RatedAt num m [] e h = tt
costs-RatedAt num m (c ∷ calls) e h = (ground (arith, e, h.0), costs-RatedAt num m calls e h.1)

-- Under a model that charges tenths, the money that the ledger adds up call by call is at most what it
-- would bill for the units without a quota, and less than one micro-USD below it for each call.
pub billable-total_money :
    (num : ℕ) (m : CostModel) (calls : List RpcCall)
    → m.rate ≡ (num, 10)
    → All (AtRate m) calls
    → total_units (map m.cost calls) < u64_mod
    → total_money (map m.cost calls) < u64_mod
    → total_units (map m.cost calls) * num < u64_mod
    → let l = record_all (new none m.rate) (map m.cost calls) in
      (l.micro_usd ≤ billable_micro_usd l)
      × (billable_micro_usd l ≤ l.micro_usd + (length calls - 1))
billable-total_money num m calls e h a b c =
    let cs = map m.cost calls in
    let e0 : m.rate.0 ≡ num = ap (λ (r : ℕ × ℕ). r.0) e in
    let e1 : m.rate.1 ≡ 10 = ap (λ (r : ℕ × ℕ). r.1) e in
    let v =
      record_all-IsAccount none m.rate cs a b
        (subst (λ n. total_units cs * n < u64_mod) (sym e0) c) in
    let r = total_money-rounding num cs (costs-RatedAt num m calls e h) in
    ground (arith, v.raw, v.billed, r, e0, e1, length-map calls m.cost)
