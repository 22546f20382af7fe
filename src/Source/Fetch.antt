-- ===== src/Source/Fetch.antt =====
-- crates/source/src/client.rs, map.rs: `fetch_records`. The loop takes fuel: a page of `n` blocks takes at
-- most `2 n - 1` rounds, those of its halves included.
pub mod Complete
use topic.Base.{
  ℕ, zero, suc, ◌+◌, ◌-◌, ◌*◌, ◌<◌, Bool, true, false, ◌&&◌, Option, none, some, List, [], ◌∷◌,
  ◌++◌, String, ltb, leb, length,
}
use mathlib.Core.Option
use topic.Base.Results.{Result, ok, err, ◌>>=◌}
use topic.Model.{ChainId, Hash, Bytes, RawRecord, RecordFilter, RpcCall, get_logs}
use topic.Plan.{plan_ranges}
use topic.Source.{SourceError, transport, malformed, Client, Rpc}
use topic.Source.Retry.{is_range_cap_error, split_range, with_retry}
use topic.Source.Density.{suggested_span, record_density}

-- The fields of alloy's `Log` that `map_log` reads.
pub record Log : Type 0 where
  pub block_number : Option ℕ
  pub block_hash : Option Hash
  pub log_index : Option ℕ
  pub transaction_hash : Option Hash
  pub transaction_index : Option ℕ
  pub address : Bytes
  pub topics : List Hash
  pub payload : Bytes

-- `ok_or_else`
abbrev pub required : {A : Type 0} → Option A → String → Result SourceError A
required none msg = err (malformed msg)
required (some a) msg = ok a

unfoldable pub map_log : ChainId → Log → Result SourceError RawRecord
map_log chain_id log = do
  height ← required log.block_number "log missing block_number"
  block_hash ← required log.block_hash "log missing block_hash"
  index ← required log.log_index "log missing log_index"
  tx_hash ← required log.transaction_hash "log missing tx_hash"
  ok (record {
    chain_id = chain_id;
    height = height;
    block_hash = block_hash;
    index = index;
    address = log.address;
    selectors = log.topics;
    payload = log.payload;
    tx_id = tx_hash;
    tx_index = elim log.transaction_index [ none ↦ 0 | some i ↦ i ];
    inner_index = none;
  })

unfoldable pub map_logs : ChainId → List Log → Result SourceError (List RawRecord)
unfolding map_log
map_logs chain_id [] = ok []
map_logs chain_id (log ∷ logs) = do
  r ← map_log chain_id log
  rs ← map_logs chain_id logs
  ok (r ∷ rs)

-- `eth_getLogs` of the provider, for the filter, from one block to another.
abbrev pub Logs : Type 0
Logs = RecordFilter → ℕ → ℕ → Rpc (List Log)

-- What a page makes of the loop: its logs, or a split.
pub data Page : Type 0 where
  clean : List Log → Page
  overflow : Page
  failed : SourceError → Page

-- The `match` on the answer for `[lo..=hi]`.
unfoldable pub judge : ℕ → ℕ → ℕ → Result SourceError (List Log) → Page
unfolding is_range_cap_error
judge cap lo hi (ok page) = elim (ltb lo hi && ltb 0 cap && leb cap (length page)) [
  | true ↦ overflow
  | false ↦ clean page
]
judge cap lo hi (err (transport e)) = elim (ltb lo hi && is_range_cap_error e) [
  | true ↦ overflow
  | false ↦ failed (transport e)
]
judge cap lo hi (err e) = failed e

-- `pending` has its last element first.
unfoldable pub fetch_loop :
    Logs
    → RecordFilter
    → ℕ
    → List (ℕ × ℕ)
    → List Log
    → Client
    → Option (Result SourceError (List Log) × Client)
unfolding judge split_range record_density with_retry
fetch_loop rpc filter fuel [] logs c = some (ok logs, c)
fetch_loop rpc filter zero (p ∷ pending) logs c = none
fetch_loop rpc filter (suc fuel) ((lo, hi) ∷ pending) logs c =
    let (res, c') = with_retry (rpc filter lo hi) (get_logs (hi - lo + 1) 0) c in
    elim (judge c.plan.max_getlogs_results lo hi res) [
      | clean page ↦
          fetch_loop rpc filter fuel pending (logs ++ page)
            (record_density c' (hi - lo + 1) (length page))
      | overflow ↦
          let (left, right) = split_range lo hi in
          fetch_loop rpc filter fuel (left ∷ right ∷ pending) logs c'
      | failed e ↦ some (err e, c')
    ]

-- The logs of `[from..=to]` before `map_log`. The seeding loop is that of `plan_ranges`.
unfoldable pub fetch_logs :
    Logs → RecordFilter → ℕ → ℕ → Client → Option (Result SourceError (List Log) × Client)
unfolding fetch_loop plan_ranges suggested_span
fetch_logs rpc filter from to c = elim (plan_ranges from to (suggested_span c)) [
  | none ↦ none
  | some chunks ↦ fetch_loop rpc filter (2 * (to + 1 - from)) chunks [] c
]

-- `none`: the fuel ran out.
unfoldable pub fetch_records :
    Logs → RecordFilter → ℕ → ℕ → Client → Option (Result SourceError (List RawRecord) × Client)
unfolding fetch_logs map_logs
fetch_records rpc filter from to c =
    Option.map (λ (r : Result SourceError (List Log) × Client). (r.0 >>= map_logs c.chain_id, r.1))
      (fetch_logs rpc filter from to c)
