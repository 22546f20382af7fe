-- ===== src/Ingest/Reorg.antt =====
-- What a reorg check does to the database.
use topic.Base.{
  ℕ, ◌+◌, ◌-◌, ◌≡◌, refl, sym, ap, ◌∙◌, subst, ◌⊎◌, inl, inr, Bool, true, false, Option, none, some,
  List, Option-cases, Bool-cases, String,
}
use topic.Base.Results.{DomainError, Result, ok, err, Result-cases, ok-injective}
use topic.Model.{Height, Hash, BlockMeta, hash_eq}
use topic.Store.{Db}
use topic.Store.Events.{rollback_to, find_block, max_height}
use topic.Store.Rollback.{IsRolledBack, rollback_to-IsRolledBack}
use topic.Ingest.{Source, check}

-- The source reports reorgs, and the highest stored block, `tip`, is not the one that it has there; `from`
-- begins the window of `confirmations` blocks up to it.
pub record IsReorged (source : Source) (confirmations : ℕ) (db : Db) (from : Height) : Type 0 where
  pub tip : Height
  pub stored : BlockMeta
  pub hash : Hash
  pub supported : source.caps.supports_reorg ≡ true
  pub highest : max_height source.chain_id db.blocks ≡ some tip
  pub known : find_block source.chain_id tip db.blocks ≡ some stored
  pub canonical : source.block_hash tip ≡ ok (some hash)
  pub differs : hash_eq hash stored.hash ≡ false
  pub window : from ≡ tip - confirmations + 1

-- Why a check fails: the source has no answer for the highest block, or there is a reorg and the rollback
-- fails.
abbrev pub Fails : Source → List String → ℕ → Db → DomainError → Type 0
Fails source tables confirmations db x =
    ((tip : Height) × (max_height source.chain_id db.blocks ≡ some tip)
      × (source.block_hash tip ≡ err x))
    ⊎ ((from : Height) × IsReorged source confirmations db from
        × (rollback_to source.chain_id from tables db ≡ err x))

pub data Checked (source : Source) (tables : List String) (confirmations : ℕ) (db : Db)
    : Result DomainError (Option Height × Db) → Type 0 where
  settled :
      ((from : Height) → IsReorged source confirmations db from → ⊥)
      → Checked source tables confirmations db (ok (none, db))
  refused :
      {x : DomainError}
      → Fails source tables confirmations db x
      → Checked source tables confirmations db (err x)
  rolled_back :
      {from : Height} {db' : Db}
      → IsReorged source confirmations db from
      → IsRolledBack source.chain_id from tables db db'
      → Checked source tables confirmations db (ok (some from, db'))

false≢true : ◌≡◌ {A = Bool} false true → ⊥
false≢true h = cc

some-none : {A : Type 0} {a : A} → ◌≡◌ {A = Option A} (some a) none → ⊥
some-none h = cc

some-injective : {A : Type 0} {a b : A} → ◌≡◌ {A = Option A} (some a) (some b) → a ≡ b
some-injective h = cc

module _ (source : Source) (confirmations : ℕ) (db : Db) where
  -- The tip and the block of a reorg are those that are found.
  not-IsReorged :
      (tip : Height) (stored : BlockMeta)
      → max_height source.chain_id db.blocks ≡ some tip
      → find_block source.chain_id tip db.blocks ≡ some stored
      → ((hash : Hash) → source.block_hash tip ≡ ok (some hash) → hash_eq hash stored.hash ≡ true)
      → (from : Height) → IsReorged source confirmations db from
      → ⊥
  not-IsReorged tip stored m k same from r =
      let t : r.tip ≡ tip = some-injective (sym r.highest ∙ m) in
      let s : r.stored ≡ stored =
        some-injective (sym r.known ∙ ap (λ h. find_block source.chain_id h db.blocks) t ∙ k) in
      let there : source.block_hash tip ≡ ok (some r.hash) =
        ap source.block_hash (sym t) ∙ r.canonical in
      false≢true
        (sym r.differs ∙ ap (λ (b : BlockMeta). hash_eq r.hash b.hash) s ∙ same r.hash there)

-- A reorg check leaves the database as it is only if there is no reorg to be seen: reorgs are not
-- reported, no block is stored, or the source has no other block at the height of the highest one. If
-- there is one, the window of `confirmations` blocks is rolled back, from whose first height the chain
-- is indexed again, or the check has the error of that rollback; and the only other error is that of
-- asking the source for this block.
pub check-Checked :
    (source : Source) (tables : List String) (confirmations : ℕ) (db : Db)
    → Checked source tables confirmations db (check source tables confirmations db)
unfolding check
check-Checked source tables confirmations db = elim (Bool-cases source.caps.supports_reorg) [
  | inr off ↦ kept (rw (off, check) refl) (λ from r. false≢true (sym off ∙ r.supported))
  | inl on ↦ elim (Option-cases (max_height source.chain_id db.blocks)) [
    | inl m ↦ kept (rw (on, check, m) refl) (λ from r. some-none (sym r.highest ∙ m))
    | inr (tip, m) ↦ elim (Option-cases (find_block source.chain_id tip db.blocks)) [
      | inl k ↦ kept (rw (on, check, m, k) refl) (λ from r. some-none (
          sym r.known
          ∙ ap (λ h. find_block source.chain_id h db.blocks) (some-injective (sym r.highest ∙ m))
          ∙ k))
      | inr (stored, k) ↦
          let other = not-IsReorged source confirmations db tip stored m k in
          elim (Result-cases (source.block_hash tip)) [
            | inr (x, c) ↦
                let e : check source tables confirmations db ≡ err x =
                  rw (on, check, m, k, c) refl in
                subst (Checked source tables confirmations db) (sym e) (refused (inl (tip, m, c)))
            | inl (none, c) ↦
                kept (rw (on, check, m, k, c) refl)
                  (other (λ hash d. absurd (some-none (ok-injective (sym d ∙ c)))))
            | inl (some hash, c) ↦ elim (Bool-cases (hash_eq hash stored.hash)) [
              | inl same ↦ kept (rw (on, check, m, k, c, same) refl) (
                  other (λ h d.
                    ap (λ b. hash_eq b stored.hash) (some-injective (ok-injective (sym d ∙ c)))
                    ∙ same))
              | inr differs ↦
                  let from = tip - confirmations + 1 in
                  let reorged : IsReorged source confirmations db from = record {
                    tip = tip;
                    stored = stored;
                    hash = hash;
                    supported = on;
                    highest = m;
                    known = k;
                    canonical = c;
                    differs = differs;
                    window = refl;
                  } in
                  elim (Result-cases (rollback_to source.chain_id from tables db)) [
                    | inr (x, r) ↦
                        let e : check source tables confirmations db ≡ err x =
                          rw (on, check, m, k, c, differs, r) refl in
                        subst (Checked source tables confirmations db) (sym e)
                          (refused (inr (from, reorged, r)))
                    | inl (db', r) ↦
                        let e : check source tables confirmations db ≡ ok (some from, db') =
                          rw (on, check, m, k, c, differs, r) refl in
                        subst (Checked source tables confirmations db) (sym e) (
                          rolled_back reorged
                            (rollback_to-IsRolledBack source.chain_id from tables db db' r))
                  ]
            ]
          ]
    ]
  ]
]
  where
    kept :
        check source tables confirmations db ≡ ok (none, db)
        → ((from : Height) → IsReorged source confirmations db from → ⊥)
        → Checked source tables confirmations db (check source tables confirmations db)
    kept e calm = subst (Checked source tables confirmations db) (sym e) (settled calm)
