-- ===== src/Tip/Pending.antt =====
-- bins/indexer-cli/src/tip.rs and ingest.rs: what a catch-up does to the announced heights.
use topic.Base.{
  ℕ, ◌+◌, ◌-◌, ◌≤◌, ◌<◌, ◌≡◌, refl, sym, ◌∙◌, ap, subst, ◌⊎◌, inl, inr, Bool, true, false, Option,
  none, some, List, [], ◌∷◌, arith, Bool-cases, All, Any, All-map, ltb→lt, ltb, ◌==◌,
}
use topic.Base.Results.{DomainError, Result, ok, err, Result-cases}
use topic.Model.{ChainId, TipLog}
use topic.Plan.{fetch_target}
use topic.Store.{Db, cursor}
use topic.Ingest.Prefix.{advance-cursor}
use topic.Store.Rows.{keep, keep-Pairs}
use topic.Base.Pairs.{Pairs}
use topic.Ingest.{FetchedRange}
use topic.Tip.{
  TipState, CaughtUp, must_fetch, first_within, clear_through, insert_height, on_ws_event,
  run_pipeline, resume, caught_up, catch_up,
}

-- In ascending order.
abbrev pub Ascends : List ℕ → Type 0
Ascends hs = Pairs (λ h k. h < k) hs

insert_height-All :
    (P : ℕ → Type 0) (h : ℕ) (hs : List ℕ) → P h → All P hs → All P (insert_height h hs)
unfolding insert_height
insert_height-All P h [] p k = (p, tt)
insert_height-All P h (x ∷ hs) p k = ground (arith, insert_height-All P h hs p k.1)

pub compare-cases :
    (h x : ℕ)
    → (((h == x) ≡ true))
      ⊎ (((h == x) ≡ false) × (ltb h x ≡ true))
      ⊎ (((h == x) ≡ false) × (ltb h x ≡ false))
compare-cases h x = ground arith

insert_height-Ascends : (h : ℕ) (hs : List ℕ) → Ascends hs → Ascends (insert_height h hs)
unfolding insert_height
insert_height-Ascends h [] a = (tt, tt)
insert_height-Ascends h (x ∷ hs) a = elim (compare-cases h x) [
  | inl e ↦ rw (e, insert_height) a
  | inr (inl (n, l)) ↦
      let lt : h < x = ltb→lt h x l in
      rw (n, l, insert_height) ((lt, All-map hs (λ k q. omega arith) a.0), a)
  | inr (inr (n, l)) ↦
      let gt : x < h = ground arith in
      rw (n, l, insert_height)
        (insert_height-All (λ k. x < k) h hs gt a.0, insert_height-Ascends h hs a.1)
]

-- An event of the stream keeps the heights in order.
pub on_ws_event-Ascends :
    (e : Option (Result DomainError TipLog)) (st : TipState)
    → Ascends st.pending
    → Ascends (on_ws_event e st).pending
unfolding on_ws_event
on_ws_event-Ascends (some (ok t)) st a = elim (Bool-cases t.removed) [
  | inl r ↦ rw (r, on_ws_event) a
  | inr r ↦ rw (r, on_ws_event) (insert_height-Ascends t.raw.height st.pending a)
]
on_ws_event-Ascends (some (err x)) st a = a
on_ws_event-Ascends none st a = a

first_within-false :
    (hs : List ℕ) (safe : ℕ) → Ascends hs → first_within hs safe ≡ false → All (λ h. safe < h) hs
first_within-false [] safe a e = tt
first_within-false (h ∷ hs) safe a e =
    let lt : safe < h = ground arith in (lt, All-map hs (λ k q. omega arith) a.0)

-- Without a fetch every announced height is above the safe one.
pub must_fetch-false :
    (st : TipState) (safe : ℕ)
    → Ascends st.pending
    → must_fetch st safe ≡ false
    → All (λ h. safe < h) st.pending
unfolding must_fetch
must_fetch-false st safe a e = first_within-false st.pending safe a (ground arith)

abbrev pub In : List ℕ → ℕ → Type 0
In hs h = Any (λ k. k ≡ h) hs

All-In : (hs : List ℕ) → All (In hs) hs
All-In [] = tt
All-In (h ∷ hs) = (inl refl, All-map hs (λ k i. inr i) (All-In hs))

keep-In :
    (target h : ℕ) (hs : List ℕ) → In hs h → (h < target + 1) ⊎ In (keep (λ k. ltb target k) hs) h
unfolding keep
keep-In target h [] i = inr i
keep-In target h (k ∷ hs) (inl e) = elim (Bool-cases (ltb target k)) [
  | inl above ↦ rw (above, keep) (inr (inl e))
  | inr below ↦ inl (ground arith)
]
keep-In target h (k ∷ hs) (inr i) = elim (Bool-cases (ltb target k)) [
  | inl above ↦
      rw (above, keep) (elim (keep-In target h hs i) [ inl l ↦ inl l | inr j ↦ inr (inr j) ])
  | inr below ↦ rw (below, keep) (keep-In target h hs i)
]

-- Each height that was announced is behind `next`, or is still announced.
pub record AreWatched (next : ℕ) (st st' : TipState) : Type 0 where
  pub ordered : Ascends st'.pending
  pub watched : All (λ h. (h < next) ⊎ In st'.pending h) st.pending

same-AreWatched : (next : ℕ) (st : TipState) → Ascends st.pending → AreWatched next st st
same-AreWatched next st a = record {
  ordered = a;
  watched = All-map st.pending (λ h i. inr i) (All-In st.pending);
}

pub caught_up-AreWatched :
    (next : ℕ) (shutdown : Bool) (safe : ℕ) (st : TipState)
    → 1 ≤ next
    → Ascends st.pending
    → let r = caught_up next shutdown safe st in (r.0.next ≡ next) × AreWatched next st r.1
unfolding caught_up clear_through
caught_up-AreWatched next true safe st p a = (refl, same-AreWatched next st a)
caught_up-AreWatched next false safe st p a = (
  refl,
  record {
    ordered = keep-Pairs (λ h k. h < k) (λ h. ltb (next - 1) h) st.pending a;
    watched =
        All-map st.pending (λ h i. ground (arith, keep-In (next - 1) h st.pending i))
          (All-In st.pending);
  },
)

pub resume-pos : (next : ℕ) (o : Option ℕ) → 1 ≤ next → 1 ≤ resume next o
resume-pos next none p = p
resume-pos next (some adv) p = omega arith

catch_up-refused :
    (chain : ChainId) (st : TipState) (next safe step rc : ℕ) (received : List FetchedRange)
    (producer : Result DomainError Bool) (db : Db) (x : DomainError)
    → must_fetch st safe ≡ true
    → (run_pipeline chain next received producer db).0 ≡ err x
    → catch_up chain st next safe step rc received producer db
      ≡ (err x, (run_pipeline chain next received producer db).1)
unfolding catch_up
catch_up-refused chain st next safe step rc received producer db x must e =
    rw (must, catch_up, e) refl

catch_up-ran :
    (chain : ChainId) (st : TipState) (next safe step rc : ℕ) (received : List FetchedRange)
    (producer : Result DomainError Bool) (db : Db) (advanced : Option ℕ) (shutdown : Bool)
    → must_fetch st safe ≡ true
    → (run_pipeline chain next received producer db).0 ≡ ok (advanced, shutdown)
    → catch_up chain st next safe step rc received producer db ≡ (
      ok (caught_up (resume next advanced) shutdown safe st),
      (run_pipeline chain next received producer db).1,
    )
unfolding catch_up
catch_up-ran chain st next safe step rc received producer db advanced shutdown must e =
    rw (must, catch_up, e) refl

caught_up-shutdown :
    (next : ℕ) (shutdown : Bool) (safe : ℕ) (st : TipState)
    → (caught_up next shutdown safe st).0.shutdown ≡ shutdown
unfolding caught_up
caught_up-shutdown next true safe st = refl
caught_up-shutdown next false safe st = refl

-- How a catch-up ends: with the error of a pipeline that had to run, or without a fetch, with the cursor
-- at the safe height and all announced heights above it, or as far as the pipeline advanced.
pub data CatchUp (chain : ChainId) (st : TipState) (next safe : ℕ) (received : List FetchedRange)
    (producer : Result DomainError Bool) (db : Db)
    : Result DomainError (CaughtUp × TipState) × Db → Type 0 where
  broken :
      {x : DomainError} {db' : Db}
      → must_fetch st safe ≡ true
      → run_pipeline chain next received producer db ≡ (err x, db')
      → CatchUp chain st next safe received producer db (err x, db')
  skipped :
      {c : CaughtUp} {db' : Db}
      → c.next ≡ safe + 1
      → cursor db' chain ≡ some (safe, [])
      → All (λ h. safe < h) st.pending
      → CatchUp chain st next safe received producer db (ok (c, st), db')
  fetched :
      {c : CaughtUp} {st' : TipState} {db' : Db} (advanced : Option ℕ)
      → run_pipeline chain next received producer db ≡ (ok (advanced, c.shutdown), db')
      → c.next ≡ resume next advanced
      → AreWatched c.next st st'
      → CatchUp chain st next safe received producer db (ok (c, st'), db')

-- A catch-up fails only where the pipeline has to run and fails. Else a height that the stream announced
-- is not passed unseen: without a fetch the cursor stops at the safe height, below all announced ones,
-- and after a fetch the next block to index is the one behind the height that the pipeline returned, or
-- the same as before if it returned none, and each announced height is below it or is still announced.
pub catch_up-CatchUp :
    (chain : ChainId) (st : TipState) (next safe step range_concurrency : ℕ)
    (received : List FetchedRange) (producer : Result DomainError Bool) (db : Db)
    → 1 ≤ next
    → Ascends st.pending
    → CatchUp chain st next safe received producer db
        (catch_up chain st next safe step range_concurrency received producer db)
unfolding catch_up
catch_up-CatchUp chain st next safe step rc received producer db p a =
    elim (Bool-cases (must_fetch st safe)) [
      | inr skip ↦
          let target = fetch_target safe next step rc (must_fetch st safe) in
          let same : target ≡ safe = unfold fetch_target in rw skip refl in
          rw (skip, catch_up)
            (skipped (ap (λ t. t + 1) same)
              (advance-cursor chain target [] db ∙ ap (λ t. some (t, [])) same)
              (must_fetch-false st safe a skip))
      | inl must ↦
          let r = run_pipeline chain next received producer db in
          elim (Result-cases r.0) [
            | inr (x, e) ↦
                subst (CatchUp chain st next safe received producer db)
                  (sym (catch_up-refused chain st next safe step rc received producer db x must e))
                  (broken must (ap (λ o. (o, r.1)) e))
            | inl ((advanced, shutdown), e) ↦
                let n = resume next advanced in
                let w = caught_up-AreWatched n shutdown safe st (resume-pos next advanced p) a in
                subst (CatchUp chain st next safe received producer db)
                  (sym (
                    catch_up-ran chain st next safe step rc received producer db advanced shutdown
                      must e))
                  (fetched advanced
                    (ap (λ o. (o, r.1)) e
                      ∙ ap (λ b. (ok (advanced, b), r.1))
                          (sym (caught_up-shutdown n shutdown safe st)))
                    w.0
                    (subst (λ k. AreWatched k st (caught_up n shutdown safe st).1) (sym w.0) w.1))
          ]
    ]
