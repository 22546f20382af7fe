-- ===== src/Config/Valid.antt =====
-- crates/config/src/validate.rs: which configurations are accepted.
use topic.Base.{
  ℕ, ◌≡◌, ◌≢◌, ◌↔◌, refl, ◌⊎◌, inl, inr, true, false, not, ◌||◌, Option, none, some, List, [], ◌∷◌,
  String, str_eq, eq_iff, arith, All, All-map, All-both, Bool-cases, ◌==◌, length,
}
use topic.Base.Pairs.{Pairs}
use topic.Base.Results.{ok, guard, ◌>>◌}
use topic.Text.{codes, utf8, starts_with}
use topic.Source.Evm.{ContractCfg}
use topic.Config.{
  ChainCfg, Config, start_block, is_blank, is_address, validate_contracts, has_id, is_none,
  validate_chains, validate,
}
use topic.Config.Checks.{
  IsValidContract, IsValidChain, IsValid, Done, >>-ok, ok->>, guard-ok, ok-guard, not_blank,
  none≢some, start_block-IsEarliest,
}

is_address-parts :
    (s : String)
    → (is_address s ≡ true)
      ↔ ((starts_with (codes "0x") (codes s) ≡ true) × (length (utf8 (codes s)) ≡ 42))
unfolding is_address
is_address-parts s = (λ h. (ground (arith, h), ground (arith, h)), λ h. ground (arith, h.0, h.1))

validate_contracts-ok :
    (id : ℕ) (cs : List ContractCfg) → (validate_contracts id cs ≡ ok tt) ↔ All IsValidContract cs
unfolding validate_contracts
validate_contracts-ok id [] = (λ h. tt, λ h. refl)
validate_contracts-ok id (c ∷ cs) =
    let rest = validate_contracts-ok id cs in
    (
      λ h.
          let (a, b) = >>-ok _ (validate_contracts id cs) h in
          let (d, e) = >>-ok _ _ a in
          let (p, q) = (is_address-parts c.address).0 (guard-ok (is_address c.address) _ d) in
          ((p, q, (not_blank c.abi).0 (guard-ok (not (is_blank c.abi)) _ e)), rest.0 b),
      λ v.
          let (p, q, r) = v.0 in
          ok->> _ (validate_contracts id cs)
            (ok->> _ _ (ok-guard (is_address c.address) _ ((is_address-parts c.address).1 (p, q)))
              (ok-guard (not (is_blank c.abi)) _ ((not_blank c.abi).1 r)))
            (rest.1 v.1),
    )

-- The ids that were seen before, and the other chains.
abbrev IsUnseen : List ℕ → ChainCfg → Type 0
IsUnseen seen chain = has_id chain.id seen ≡ false

IsUnseen-cons :
    (seen : List ℕ) (i : ℕ) (chain : ChainCfg)
    → IsUnseen (i ∷ seen) chain ↔ (IsUnseen seen chain × (i ≢ chain.id))
IsUnseen-cons seen i chain = (
  λ h. (ground (arith, h), λ e. ground (arith, h, e)),
  λ h. elim (Bool-cases (chain.id == i)) [
    | inl e ↦ absurd (h.1 (ground (arith, e)))
    | inr e ↦ ground (arith, e, h.0)
  ],
)

has_start : (b : Option ℕ) → (not (is_none b) ≡ true) → (n : ℕ) × (b ≡ some n)
has_start none h = cc
has_start (some n) h = (n, refl)

start-has : (b : Option ℕ) (n : ℕ) → b ≡ some n → not (is_none b) ≡ true
start-has none n h = absurd (none≢some h)
start-has (some m) n h = refl

IsUnseen-All :
    (seen : List ℕ) (i : ℕ) (chains : List ChainCfg)
    → All (IsUnseen (i ∷ seen)) chains ↔ (All (IsUnseen seen) chains × All (λ c. i ≢ c.id) chains)
IsUnseen-All seen i chains = (
  λ h. (
    All-map chains (λ c u. ((IsUnseen-cons seen i c).0 u).0) h,
    All-map chains (λ c u. ((IsUnseen-cons seen i c).0 u).1) h,
  ),
  λ h. All-both chains (λ c u v. (IsUnseen-cons seen i c).1 (u, v)) h.0 h.1,
)

-- The checks of one chain.
chain-ok :
    (seen : List ℕ) (chain : ChainCfg) (dup http start : String)
    → ◌≡◌ {A = Done}
        (guard (not (has_id chain.id seen)) dup
          >> guard (not (is_blank chain.http)) http
          >> guard (not (is_none (start_block chain.contracts))) start
          >> validate_contracts chain.id chain.contracts)
        (ok tt)
      ↔ (IsUnseen seen chain × IsValidChain chain)
chain-ok seen chain dup http start = (
  λ h.
      let (a, contracts) = >>-ok _ (validate_contracts chain.id chain.contracts) h in
      let (b, started) = >>-ok _ _ a in
      let (unseen, named) = >>-ok _ _ b in
      let new = guard-ok (not (has_id chain.id seen)) dup unseen in
      let (n, e) = has_start (start_block chain.contracts) (guard-ok _ start started) in
      (
        ground (arith, new),
        (
          (not_blank chain.http).0 (guard-ok (not (is_blank chain.http)) http named),
          (n, e, start_block-IsEarliest chain.contracts n e),
          (validate_contracts-ok chain.id chain.contracts).0 contracts,
        ),
      ),
  λ v.
      let (unseen, (named, (n, e, _), contracts)) = v in
      let new : not (has_id chain.id seen) ≡ true = ground (arith, unseen) in
      ok->> _ (validate_contracts chain.id chain.contracts)
        (ok->> _ _
          (ok->> _ _ (ok-guard (not (has_id chain.id seen)) dup new)
            (ok-guard (not (is_blank chain.http)) http ((not_blank chain.http).1 named)))
          (ok-guard (not (is_none (start_block chain.contracts))) start
            (start-has (start_block chain.contracts) n e)))
        ((validate_contracts-ok chain.id chain.contracts).1 contracts),
)

validate_chains-ok :
    (seen : List ℕ) (chains : List ChainCfg)
    → (validate_chains seen chains ≡ ok tt)
      ↔ (All (IsUnseen seen) chains × Pairs (λ a b. a.id ≢ b.id) chains × All IsValidChain chains)
unfolding validate_chains
validate_chains-ok seen [] = (λ h. (tt, tt, tt), λ h. refl)
validate_chains-ok seen (chain ∷ chains) =
    let rest = validate_chains-ok (chain.id ∷ seen) chains in
    let one = chain-ok seen chain _ _ _ in
    let apart = IsUnseen-All seen chain.id chains in
    (
      λ h.
          let (a, b) = >>-ok _ (validate_chains (chain.id ∷ seen) chains) h in
          let (unseen, valid) = one.0 a in
          let (others, pairs, valids) = rest.0 b in
          let (unseens, ids) = apart.0 others in ((unseen, unseens), (ids, pairs), (valid, valids)),
      λ v.
          let ((unseen, unseens), (ids, pairs), (valid, valids)) = v in
          ok->> _ (validate_chains (chain.id ∷ seen) chains) (one.1 (unseen, valid))
            (rest.1 (apart.1 (unseens, ids), pairs, valids)),
    )

none_seen : (chains : List ChainCfg) → All (IsUnseen []) chains
none_seen [] = tt
none_seen (chain ∷ chains) = (refl, none_seen chains)

one_of : (s a b : String) → ((str_eq s a || str_eq s b) ≡ true) ↔ ((s ≡ a) ⊎ (s ≡ b))
one_of s a b = (
  λ h. elim (Bool-cases (str_eq s a)) [
    | inl k ↦ inl ((eq_iff s a).0 k)
    | inr k ↦ inr ((eq_iff s b).0 (ground (arith, h, k)))
  ],
  λ v. elim v [
    | inl e ↦ ground (arith, (eq_iff s a).1 e)
    | inr e ↦ ground (arith, (eq_iff s b).1 e)
  ],
)

-- A configuration is accepted exactly when it names its database, the queue is of the kind postgres, one
-- of the two kinds of blocks is exposed, no two chains have one id, and each chain has an HTTP source, a
-- start (which is then the earliest of its contracts, so that the supervisor finds it) and contracts with
-- an address of 42 bytes from `0x` on and an ABI.
pub validate-IsValid : (cfg : Config) → (validate cfg ≡ ok tt) ↔ IsValid cfg
unfolding validate
validate-IsValid cfg =
    let chains = validate_chains-ok [] cfg.chains in
    (
      λ h.
          let (a, loop) = >>-ok _ (validate_chains [] cfg.chains) h in
          let (b, exposed) = >>-ok _ _ a in
          let (url, kind) = >>-ok _ _ b in
          let (_, pairs, valids) = chains.0 loop in
          (
            (not_blank cfg.database_url).0 (guard-ok (not (is_blank cfg.database_url)) _ url),
            (eq_iff cfg.queue_kind "postgres").0 (guard-ok _ _ kind),
            (one_of cfg.expose "finalized" "provisional").0 (guard-ok _ _ exposed),
            pairs,
            valids,
          ),
      λ v.
          let (url, kind, exposed, pairs, valids) = v in
          ok->> _ (validate_chains [] cfg.chains)
            (ok->> _ _
              (ok->> _ _
                (ok-guard (not (is_blank cfg.database_url)) _ ((not_blank cfg.database_url).1 url))
                (ok-guard _ _ ((eq_iff cfg.queue_kind "postgres").1 kind)))
              (ok-guard (str_eq cfg.expose "finalized" || str_eq cfg.expose "provisional") _
                ((one_of cfg.expose "finalized" "provisional").1 exposed)))
            (chains.1 (none_seen cfg.chains, pairs, valids)),
    )
