-- ===== src/Tests/Sources.antt =====
-- crates/source: a provider that cuts pages at three logs, and one that fails twice.
use topic.Base.{
  ℕ, zero, suc, ◌+◌, ◌-◌, ◌<◌, ◌≡◌, inl, ◌⊎◌, none, some, List, [], ◌∷◌, arith, if◌then◌else◌, ltb,
  refl, max,
}
use topic.Base.Results.{Result, ok, err}
use topic.Model.{PlanProfile, RawRecord, RecordFilter, default_plan, block_number}
use topic.Pricing.{alchemy, new}
use topic.Source.{SourceError, Client, Rpc}
use topic.Source.Retry.{with_retry, Tried, with_retry-Tried}
use topic.Source.Fetch.{Log, Logs, fetch_records, map_logs}
use topic.Source.Limiter.{acquire_cu, capacity, AreDrawn, acquire_cu-AreDrawn}
use topic.Source.Fetch.Complete.{span_logs, IsTruthful, GivesUp, fetch_records_complete}

abbrev client : Client
client = record {
  chain_id = 1;
  plan = record default_plan { max_getlogs_results = 3 };
  cost_model = alchemy;
  ledger = new none (12, 10);
  density_milli = 0;
  jitter = 7;
  calls = 0;
  slept = 0;
}

abbrev filter : RecordFilter
filter = record { addresses = []; selectors = [] }

abbrev log_at : ℕ → Log
log_at h = record {
  block_number = some h;
  block_hash = some (h ∷ []);
  log_index = some 0;
  transaction_hash = some (h ∷ h ∷ []);
  transaction_index = none;
  address = [];
  topics = [];
  payload = [];
}

abbrev blocks : ℕ → List Log
blocks h = log_at h ∷ []

-- The first call is answered by a transient error.
abbrev provider : Logs
provider f lo hi zero = err "429 too many requests"
provider f lo hi (suc n) = ok (span_logs blocks lo (hi + 1 - lo))

provider-IsTruthful : IsTruthful blocks 3 (provider filter)
provider-IsTruthful lo hi zero page e = cc
provider-IsTruthful lo hi (suc n) page e = inl cc

fetch_records_complete_example :
    (r : Result SourceError (List RawRecord)) × (c' : Client) × (fetch_records provider filter 1 8
        client
      ≡ some (r, c'))
    × ((r ≡ map_logs 1 (span_logs blocks 1 8))
        ⊎ ((x : SourceError) × (r ≡ err x) × GivesUp (provider filter) x))
fetch_records_complete_example =
    fetch_records_complete blocks provider filter 1 8 client provider-IsTruthful (omega arith)
      (omega arith)

-- Two transient errors, then an answer.
abbrev shaky : Rpc ℕ
shaky n = if ltb n 2 then err "connection reset" else ok 42

with_retry-Tried_example :
    Tried 5 shaky block_number client
      (with_retry shaky block_number client).1
      (with_retry shaky block_number client).0
    × ((with_retry shaky block_number client).1.slept < client.slept + 8000)
with_retry-Tried_example = with_retry-Tried shaky block_number client

-- A call that costs more than the bucket holds.
abbrev metered : PlanProfile
metered = record default_plan { max_cu_per_sec = some 100 }

metered_test : acquire_cu metered 250 ≡ some (100 ∷ 100 ∷ 50 ∷ [])
unfolding acquire_cu
metered_test = refl

acquire_cu-AreDrawn_example :
    (ts : List ℕ) × (acquire_cu metered 250 ≡ some ts) × AreDrawn (capacity metered) (max 250 1) ts
acquire_cu-AreDrawn_example = acquire_cu-AreDrawn metered 250
