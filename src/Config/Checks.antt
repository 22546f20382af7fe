-- ===== src/Config/Checks.antt =====
-- crates/config/src: what an accepted configuration is, and the start of a chain.
use topic.Base.{
  ℕ, ◌≤◌, ◌≡◌, ◌≢◌, ◌↔◌, refl, sym, ap, ◌∙◌, subst, ◌⊎◌, inl, inr, Bool, true, false, not, Option,
  none, some, List, [], ◌∷◌, String, eq_iff, arith, All, All-map, Any, Bool-cases, Option-cases,
  leb, min, length,
}
use topic.Base.Pairs.{Pairs}
use topic.Base.Results.{Result, ok, err, guard, ◌>>◌, ok-err}
use topic.Text.{codes, utf8, starts_with}
use topic.Source.Evm.{ContractCfg}
use topic.Config.{ChainCfg, Config, earlier, start_block, is_blank}

-- The earliest of the starts of the contracts.
abbrev pub IsEarliest : ℕ → List ContractCfg → Type 0
IsEarliest n contracts =
    Any (λ c. c.start_block ≡ some n) contracts
    × All (λ c. (m : ℕ) → c.start_block ≡ some m → n ≤ m) contracts

abbrev pub IsValidContract : ContractCfg → Type 0
IsValidContract c =
    (starts_with (codes "0x") (codes c.address) ≡ true)
    × (length (utf8 (codes c.address)) ≡ 42)
    × (c.abi ≢ "")

abbrev pub IsValidChain : ChainCfg → Type 0
IsValidChain chain =
    (chain.http ≢ "")
    × ((n : ℕ) × (start_block chain.contracts ≡ some n) × IsEarliest n chain.contracts)
    × All IsValidContract chain.contracts

abbrev pub IsValid : Config → Type 0
IsValid cfg =
    (cfg.database_url ≢ "")
    × (cfg.queue_kind ≡ "postgres")
    × ((cfg.expose ≡ "finalized") ⊎ (cfg.expose ≡ "provisional"))
    × Pairs (λ a b. a.id ≢ b.id) cfg.chains
    × All IsValidChain cfg.chains

abbrev pub Done : Type 0
Done = Result String (Unit {0})

pub >>-ok : (a b : Done) → (a >> b) ≡ ok tt → (a ≡ ok tt) × (b ≡ ok tt)
>>-ok (ok tt) b h = (refl, h)
>>-ok (err e) b h = absurd (ok-err (sym h))

pub ok->> : (a b : Done) → a ≡ ok tt → b ≡ ok tt → (a >> b) ≡ ok tt
ok->> a b h k = rw (h) k

pub guard-ok : (b : Bool) (e : String) → ◌≡◌ {A = Done} (guard b e) (ok tt) → b ≡ true
guard-ok true e h = refl
guard-ok false e h = absurd (ok-err (sym h))

pub ok-guard : (b : Bool) (e : String) → b ≡ true → ◌≡◌ {A = Done} (guard b e) (ok tt)
ok-guard b e h = rw (h) refl

pub not_blank : (s : String) → (not (is_blank s) ≡ true) ↔ (s ≢ "")
not_blank s = (
  λ h e. absurd (both (is_blank s) ((eq_iff s "").1 e) h),
  λ h. elim (Bool-cases (is_blank s)) [
    | inl k ↦ absurd (h ((eq_iff s "").0 k))
    | inr k ↦ not_false (is_blank s) k
  ],
)
  where
    both : (b : Bool) → b ≡ true → not b ≡ true → ⊥
    both true k h = cc
    both false k h = cc

    not_false : (b : Bool) → b ≡ false → not b ≡ true
    not_false true k = cc
    not_false false k = refl

some-injective : {a b : ℕ} → ◌≡◌ {A = Option ℕ} (some a) (some b) → a ≡ b
some-injective h = cc

pub none≢some : {a : ℕ} → ◌≡◌ {A = Option ℕ} none (some a) → ⊥
none≢some h = cc

earlier-none : (a b : Option ℕ) → earlier a b ≡ none → (a ≡ none) × (b ≡ none)
earlier-none none b h = (refl, h)
earlier-none (some a) none h = absurd (none≢some (sym h))
earlier-none (some a) (some b) h = absurd (none≢some (sym h))

start_block-none :
    (cs : List ContractCfg) → start_block cs ≡ none → All (λ c. c.start_block ≡ none) cs
unfolding start_block
start_block-none [] h = tt
start_block-none (c ∷ cs) h =
    let (a, b) = earlier-none c.start_block (start_block cs) h in (a, start_block-none cs b)

-- The smaller of two starts, of which one may be absent.
earlier-IsLeast :
    (a b : Option ℕ) (n : ℕ)
    → earlier a b ≡ some n
    → ((a ≡ some n) ⊎ (b ≡ some n))
      × ((m : ℕ) → a ≡ some m → n ≤ m)
      × ((m : ℕ) → b ≡ some m → n ≤ m)
earlier-IsLeast none b n h =
    (inr h, (λ m e. absurd (none≢some e)), λ m e. le_of_eq (some-injective (sym h ∙ e)))
  where
    le_of_eq : {x y : ℕ} → x ≡ y → x ≤ y
    le_of_eq e = omega (arith, e)
earlier-IsLeast (some a) none n h =
    (inl h, (λ m e. omega (arith, some-injective (sym h ∙ e))), λ m e. absurd (none≢some e))
earlier-IsLeast (some a) (some b) n h =
    let e : min a b ≡ n = some-injective h in
    (
      elim (either a b) [ inl k ↦ inl (ap some (sym k ∙ e)) | inr k ↦ inr (ap some (sym k ∙ e)) ],
      (λ m k. omega (arith, e, some-injective k)),
      λ m k. omega (arith, e, some-injective k),
    )
  where
    either : (a b : ℕ) → (min a b ≡ a) ⊎ (min a b ≡ b)
    either a b = elim (Bool-cases (leb a b)) [
      | inl k ↦ inl (ground arith)
      | inr k ↦ inr (ground arith)
    ]

pub start_block-IsEarliest :
    (contracts : List ContractCfg) (n : ℕ) → start_block contracts ≡ some n → IsEarliest n contracts
unfolding start_block
start_block-IsEarliest [] n h = absurd (none≢some h)
start_block-IsEarliest (c ∷ contracts) n h =
    let (which, own, others) = earlier-IsLeast c.start_block (start_block contracts) n h in
    elim (Option-cases (start_block contracts)) [
      | inl k ↦ (
        inl (elim which [ inl e ↦ e | inr e ↦ absurd (none≢some (sym k ∙ e)) ]),
        (
          own,
          All-map contracts (λ d e m k. absurd (none≢some (sym e ∙ k)))
              (start_block-none contracts k),
        ),
      )
      | inr (b, k) ↦
          let (there, least) = start_block-IsEarliest contracts b k in
          (
            elim which [
              | inl e ↦ inl e
              | inr e ↦ inr (
                  subst (λ x. Any (λ d. d.start_block ≡ some x) contracts)
                    (some-injective (sym k ∙ e)) there)
            ],
            (own, All-map contracts (λ d f m e. omega (arith, f m e, others b k)) least),
          )
    ]
