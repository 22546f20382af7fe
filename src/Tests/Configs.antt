-- ===== src/Tests/Configs.antt =====
-- crates/config: a configuration of one chain, and one that names it twice.
use topic.Base.{◌≡◌, ◌↔◌, refl, false, none, some, List, [], ◌∷◌}
use topic.Base.Results.{ok, err}
use topic.Source.Evm.{ContractCfg}
use topic.Config.{ChainCfg, Config, Ended, validate, start_block, supervised}
use topic.Config.Checks.{IsValid}
use topic.Config.Valid.{validate-IsValid}

abbrev contract : ContractCfg
contract = record {
  address = "0xA0b86991c6218b36c1d19D4a2e9Eb0cE3606eB48";
  abi = "abis/erc20.json";
  events = "Transfer" ∷ [];
  functions = [];
  table = none;
  start_block = some 19_000_000;
}

abbrev chain : ChainCfg
chain = record {
  id = 1;
  http = "https://x";
  limits = none;
  contracts = record contract { start_block = none } ∷ contract ∷ [];
}

abbrev sample : List ChainCfg → Config
sample chains = record {
  database_url = "postgres://localhost/idx";
  queue_kind = "postgres";
  expose = "finalized";
  chains = chains;
}

accepted : validate (sample (chain ∷ [])) ≡ ok tt
unfolding validate
accepted = refl

twice_refused : validate (sample (chain ∷ chain ∷ [])) ≡ err "duplicate chain id 1"
unfolding validate
twice_refused = refl

start_block_sample : start_block chain.contracts ≡ some 19_000_000
unfolding start_block
start_block_sample = refl

supervised_runs :
    supervised 1 (
      Ended.failed false
      ∷ Ended.panicked false
      ∷ Ended.failed false
      ∷ Ended.failed false
      ∷ Ended.failed false
      ∷ Ended.failed false
      ∷ Ended.clean
      ∷ [])
    ≡ 1 ∷ 2 ∷ 4 ∷ 8 ∷ 16 ∷ 30 ∷ []
unfolding supervised
supervised_runs = refl

validate-IsValid_example :
    (validate (sample (chain ∷ chain ∷ [])) ≡ ok tt) ↔ IsValid (sample (chain ∷ chain ∷ []))
validate-IsValid_example = validate-IsValid (sample (chain ∷ chain ∷ []))
