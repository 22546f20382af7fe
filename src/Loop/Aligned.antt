-- ===== src/Loop/Aligned.antt =====
-- ingest.rs: the block to index next and the cursor, through a catch-up and a reorg check.
use mathlib.Core.Option
use topic.Base.{
  ℕ, ◌+◌, ◌-◌, ◌≤◌, ◌≡◌, refl, sym, ap, ◌∙◌, subst, inl, inr, Bool, true, Option, none, some, List,
  [], arith, ◌==◌, Bool-cases, String,
}
use topic.Base.Results.{DomainError, Result, ok, err, Result-cases, ok-err, ok-injective, ◌>>=◌}
use topic.Model.{ChainId, Height, Hash}
use topic.Plan.{fetch_target}
use topic.Store.{Db, cursor}
use topic.Ingest.{Source, FetchedRange, commit_consumer, check}
use topic.Ingest.Prefix.{advance-cursor}
use topic.Ingest.Cursor.{IsMovedTo, commit_consumer-IsMovedTo}
use topic.Ingest.Reorg.{Checked, settled, refused, rolled_back, check-Checked}
use topic.Tip.{
  TipState, CaughtUp, resume, catch_up, must_fetch, run_pipeline, take_reorg_signal, probes,
}
use topic.Tip.Pending.{Ascends, caught_up-AreWatched, resume-pos}
use topic.Loop.{LoopState, Settings, reindexed, check_reorg}

-- What holds of a value that was returned with a database.
abbrev pub Holds : {A : Type 0} → (A → Db → Type 0) → Result DomainError A → Db → Type 0
Holds P (err e) db = Unit
Holds P (ok a) db = P a db

-- The block behind the cursor, where there is one.
abbrev pub IsNext : Option (Height × Hash) → ℕ → Type 0
IsNext none next = Unit
IsNext (some (last, hash)) next = next ≡ last + 1

-- The loop would go on at the same block if it were started again.
pub record IsAligned (chain : ChainId) (next : ℕ) (tip : TipState) (db : Db) : Type 0 where
  pub resumed : IsNext (cursor db chain) next
  pub positive : 1 ≤ next
  pub ordered : Ascends tip.pending

moved-IsNext :
    (next : ℕ) (advanced : Option ℕ) (before after : Option (Height × Hash))
    → IsNext before next
    → IsMovedTo advanced before after
    → IsNext after (resume next advanced)
moved-IsNext next none before after v m = subst (λ c. IsNext c next) (sym m) v
moved-IsNext next (some h) before after v (hash, m) = subst (λ c. IsNext c (h + 1)) (sym m) refl

run_pipeline-IsMovedTo :
    (chain : ChainId) (next : ℕ) (received : List FetchedRange) (producer : Result DomainError Bool)
    (db : Db) (advanced : Option ℕ) (shutdown : Bool)
    → (run_pipeline chain next received producer db).0 ≡ ok (advanced, shutdown)
    → IsMovedTo advanced
        (cursor db chain)
        (cursor (run_pipeline chain next received producer db).1 chain)
unfolding run_pipeline
run_pipeline-IsMovedTo chain next received (err x) db advanced shutdown =
    λ e. absurd (ok-err {A = Option ℕ × Bool} (sym e))
run_pipeline-IsMovedTo chain next received (ok b) db advanced shutdown =
    elim (Result-cases (commit_consumer chain next received db).0) [
      | inr (x, k) ↦ rw (k, run_pipeline) (λ e. absurd (ok-err {A = Option ℕ × Bool} (sym e)))
      | inl ((moved, n), k) ↦
          let m = commit_consumer-IsMovedTo chain next received db moved n k in
          rw (k, run_pipeline)
            (λ e.
              subst
                (λ o.
                  IsMovedTo o (cursor db chain)
                    (cursor (commit_consumer chain next received db).1 chain))
                (ap (λ (p : Option ℕ × Bool). p.0) (ok-injective e)) m)
    ]

pub catch_up-IsAligned :
    (chain : ChainId) (st : TipState) (next safe step rc : ℕ) (received : List FetchedRange)
    (producer : Result DomainError Bool) (db : Db)
    → IsAligned chain next st db
    → let r = catch_up chain st next safe step rc received producer db in
      Holds (λ (p : CaughtUp × TipState) db'. IsAligned chain p.0.next p.1 db') r.0 r.1
unfolding catch_up
catch_up-IsAligned chain st next safe step rc received producer db v =
    elim (Bool-cases (must_fetch st safe)) [
      | inr skip ↦
          rw (skip, catch_up)
            (record {
              resumed =
                  subst (λ c. IsNext c (fetch_target safe next step rc (must_fetch st safe) + 1))
                    (sym (
                      advance-cursor chain (fetch_target safe next step rc (must_fetch st safe)) []
                        db))
                    refl;
              positive = omega arith;
              ordered = v.ordered;
            })
      | inl must ↦ elim (Result-cases (run_pipeline chain next received producer db).0) [
        | inr (x, k) ↦ rw (must, catch_up, k) tt
        | inl ((advanced, shutdown), k) ↦
            let n = resume next advanced in
            let w =
              caught_up-AreWatched n shutdown safe st (resume-pos next advanced v.positive)
                v.ordered in
            let m = run_pipeline-IsMovedTo chain next received producer db advanced shutdown k in
            rw (must, catch_up, k)
              (record {
                resumed = subst (IsNext _) (sym w.0) (moved-IsNext next advanced _ _ v.resumed m);
                positive = subst (λ n. 1 ≤ n) (sym w.0) (resume-pos next advanced v.positive);
                ordered = w.1.ordered;
              })
      ]
    ]

-- What holds of a value with a database, where both were returned.
abbrev pub Held : {A : Type 0} → (A → Db → Type 0) → Result DomainError (A × Db) → Type 0
Held P (err e) = Unit
Held P (ok p) = P p.0 p.1

rewound-IsNext :
    (from : ℕ) (c : Option (Height × Hash))
    → 1 ≤ from
    → IsNext (Option.map (λ (b : Height × Hash). (from - 1, [])) c) from
rewound-IsNext from none p = tt
rewound-IsNext from (some b) p = omega arith

Checked-IsAligned :
    {source : Source} {tables : List String} {confirmations : ℕ} {db : Db}
    {r : Result DomainError (Option Height × Db)} (s : LoopState)
    → Checked source tables confirmations db r
    → IsAligned source.chain_id s.next s.tip db
    → Held (λ o db'. IsAligned source.chain_id (reindexed s o).next (reindexed s o).tip db') r
Checked-IsAligned s (settled _) v = v
Checked-IsAligned s (refused _) v = tt
Checked-IsAligned {source} {db = db} s (rolled_back {from} {db'} h gone) v =
    let p : 1 ≤ from = subst (λ n. 1 ≤ n) (sym h.window) (omega arith) in
    let self : (source.chain_id == source.chain_id) ≡ true = ground arith in
    let c = gone.rewound source.chain_id in
    record {
      resumed =
          subst (λ c. IsNext c from) (sym (c ∙ rw self refl))
            (rewound-IsNext from (cursor db source.chain_id) p);
      positive = p;
      ordered = v.ordered;
    }

passed :
    (P : LoopState → Db → Type 0) (s : LoopState) (r : Result DomainError (Option Height × Db))
    → Held (λ o db. P (reindexed s o) db) r
    → Held P (r >>= λ p. ok (reindexed s p.0, p.1))
passed P s (err x) h = tt
passed P s (ok p) h = h

pub check_reorg-IsAligned :
    (source : Source) (cfg : Settings) (s : LoopState) (db : Db)
    → IsAligned source.chain_id s.next s.tip db
    → Held (λ s' db'. IsAligned source.chain_id s'.next s'.tip db') (check_reorg source cfg s db)
unfolding check_reorg take_reorg_signal
check_reorg-IsAligned source cfg s db v = elim (Bool-cases (probes s.tip s.tick)) [
  | inr off ↦
      rw (off, check_reorg)
        (record { resumed = v.resumed; positive = v.positive; ordered = v.ordered })
  | inl on ↦
      let s' = record s { tip = (take_reorg_signal s.tip).1 } in
      let w : IsAligned source.chain_id s'.next s'.tip db = record {
        resumed = v.resumed;
        positive = v.positive;
        ordered = v.ordered;
      } in
      let c = Checked-IsAligned s' (check-Checked source cfg.tables cfg.confirmations db) w in
      rw (on, check_reorg)
        (passed (λ s db. IsAligned source.chain_id s.next s.tip db) s'
          (check source cfg.tables cfg.confirmations db) c)
]
