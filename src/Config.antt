-- ===== src/Config.antt =====
-- crates/config/src: the checks of a configuration, with what they and their callers read of it; the
-- limits of a chain (crates/source/src/registry.rs); and the restarts of bins/indexer-cli/src/supervisor.rs.
pub mod Checks
pub mod Valid
use topic.Base.{
  ℕ, zero, suc, ◌+◌, ◌*◌, min, Bool, true, false, not, ◌&&◌, ◌||◌, Option, none, some, List, [],
  ◌∷◌, String, str_eq, ◌==◌, if◌then◌else◌, length,
}
use topic.Base.Results.{Result, ok, err, guard, ◌>>◌}
use topic.Text.{codes, utf8, starts_with}
use topic.Model.{PlanProfile}
use topic.Source.Evm.{ContractCfg}
use topic.Sql.{texts, number}

pub record LimitsCfg : Type 0 where
  pub max_rps : Option ℕ
  pub max_cu_per_sec : Option ℕ
  pub max_batch : Option ℕ
  pub max_getlogs_blocks : Option ℕ
  pub max_getlogs_results : Option ℕ
  pub monthly_quota_cu : Option ℕ

pub record ChainCfg : Type 0 where
  pub id : ℕ
  pub http : String
  pub limits : Option LimitsCfg
  pub contracts : List ContractCfg

pub record Config : Type 0 where
  pub database_url : String
  pub queue_kind : String
  pub expose : String
  pub chains : List ChainCfg

-- `min` of the blocks that there are.
abbrev pub earlier : Option ℕ → Option ℕ → Option ℕ
earlier none b = b
earlier (some a) none = some a
earlier (some a) (some b) = some (min a b)

unfoldable pub start_block : List ContractCfg → Option ℕ
start_block [] = none
start_block (c ∷ contracts) = earlier c.start_block (start_block contracts)

abbrev pub is_blank : String → Bool
is_blank s = str_eq s ""

-- `starts_with("0x")` and a length of 42 bytes.
unfoldable pub is_address : String → Bool
unfolding starts_with utf8
is_address s = starts_with (codes "0x") (codes s) && length (utf8 (codes s)) == 42

unfoldable pub validate_contracts : ℕ → List ContractCfg → Result String (Unit {0})
unfolding is_address number
validate_contracts id [] = ok tt
validate_contracts id (c ∷ contracts) =
    guard (is_address c.address)
      (texts ("chain " ∷ number id ∷ " contract address '" ∷ c.address ∷ "' malformed" ∷ []))
    >> guard (not (is_blank c.abi))
        (texts ("chain " ∷ number id ∷ " contract " ∷ c.address ∷ " missing abi path" ∷ []))
    >> validate_contracts id contracts

abbrev pub has_id : ℕ → List ℕ → Bool
has_id i [] = false
has_id i (j ∷ seen) = i == j || has_id i seen

abbrev pub is_none : Option ℕ → Bool
is_none none = true
is_none (some n) = false

-- The loop over the chains, with the ids that it has seen.
unfoldable pub validate_chains : List ℕ → List ChainCfg → Result String (Unit {0})
unfolding start_block validate_contracts number
validate_chains seen [] = ok tt
validate_chains seen (chain ∷ chains) =
    guard (not (has_id chain.id seen)) (texts ("duplicate chain id " ∷ number chain.id ∷ []))
    >> guard (not (is_blank chain.http))
        (texts ("chain " ∷ number chain.id ∷ " source.http is required" ∷ []))
    >> guard (not (is_none (start_block chain.contracts))) (
        texts (
          "chain "
          ∷ number chain.id
          ∷ " has no scan start: set start_block on at least one contract"
          ∷ []))
    >> validate_contracts chain.id chain.contracts
    >> validate_chains (chain.id ∷ seen) chains

unfoldable pub validate : Config → Result String (Unit {0})
unfolding validate_chains
validate cfg =
    guard (not (is_blank cfg.database_url)) "database.url is required"
    >> guard (str_eq cfg.queue_kind "postgres")
        (texts ("queue.kind '" ∷ cfg.queue_kind ∷ "' unsupported (only 'postgres')" ∷ []))
    >> guard (str_eq cfg.expose "finalized" || str_eq cfg.expose "provisional")
        (texts ("query.expose '" ∷ cfg.expose ∷ "' invalid" ∷ []))
    >> validate_chains [] cfg.chains

abbrev pub or_kept : {A : Type 0} → A → Option A → A
or_kept a none = a
or_kept a (some b) = b

abbrev pub or_left : Option ℕ → Option ℕ → Option ℕ
or_left a none = a
or_left a (some b) = some b

-- `apply_overrides`
unfoldable pub apply_overrides : Option LimitsCfg → PlanProfile → PlanProfile
apply_overrides none plan = plan
apply_overrides (some l) plan = record plan {
  max_rps = or_kept plan.max_rps l.max_rps;
  max_cu_per_sec = or_left plan.max_cu_per_sec l.max_cu_per_sec;
  max_batch = or_kept plan.max_batch l.max_batch;
  max_getlogs_blocks = or_kept plan.max_getlogs_blocks l.max_getlogs_blocks;
  max_getlogs_results = or_kept plan.max_getlogs_results l.max_getlogs_results;
  monthly_quota = or_left plan.monthly_quota l.monthly_quota_cu;
}

-- How a run of a chain ends, and whether it is cancelled in the wait after it.
pub data Ended : Type 0 where
  clean aborted : Ended
  failed panicked : Bool → Ended

-- `supervised_ingest`: the seconds that it waits between the runs of a chain, which end so.
unfoldable pub supervised : ℕ → List Ended → List ℕ
supervised backoff [] = []
supervised backoff (Ended.clean ∷ runs) = []
supervised backoff (Ended.aborted ∷ runs) = []
supervised backoff (Ended.failed cancelled ∷ runs) =
    let rest = supervised (min (backoff * 2) 30) runs in
    if cancelled then backoff ∷ [] else backoff ∷ rest
supervised backoff (Ended.panicked cancelled ∷ runs) =
    let rest = supervised (min (backoff * 2) 30) runs in
    if cancelled then backoff ∷ [] else backoff ∷ rest
