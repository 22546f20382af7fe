-- ===== src/Tip.antt =====
-- bins/indexer-cli: tip.rs, and `catch_up` and the steps of the loop in ingest.rs. `BTreeSet` is a list in
-- ascending order, and the stream is there or not.
pub mod Pending
pub mod Heard
use mathlib.Core.Option
use topic.Base.{
  ℕ, suc, ◌+◌, ◌-◌, min, max, Bool, true, false, not, ◌&&◌, ◌||◌, Option, none, some, List, [], ◌∷◌,
  ltb, leb, ◌==◌, ◌%◌, if◌then◌else◌, add64,
}
use topic.Base.Results.{DomainError, Result, ok, err}
use topic.Model.{ChainId, Height, Hash, TipLog}
use topic.Plan.{fetch_target}
use topic.Store.{Db, advance}
use topic.Store.Rows.{keep}
use topic.Ingest.{FetchedRange, commit_consumer}

pub record TipState : Type 0 where
  pub ws_enabled : Bool
  pub sub : Bool
  pub pending : List ℕ
  pub reconcile : Bool
  pub reorg_at : Option ℕ

unfoldable pub new : Bool → TipState
new ws_enabled = record {
  ws_enabled = ws_enabled;
  sub = false;
  pending = [];
  reconcile = true;
  reorg_at = none;
}

-- `ensure_subscribed`, where `subscribed` is whether a subscription succeeds.
unfoldable pub ensure_subscribed : Bool → TipState → TipState
ensure_subscribed subscribed st =
    if not st.ws_enabled || st.sub
    then st
    else if subscribed
    then record st { sub = true; reconcile = true }
    else st

abbrev pub first_within : List ℕ → ℕ → Bool
first_within [] safe = false
first_within (lo ∷ pending) safe = leb lo safe

unfoldable pub must_fetch : TipState → ℕ → Bool
must_fetch st safe = not st.ws_enabled || (st.reconcile || first_within st.pending safe)

unfoldable pub clear_through : ℕ → TipState → TipState
unfolding keep
clear_through target st = record st { pending = keep (λ h. ltb target h) st.pending }

abbrev pub is_empty : List ℕ → Bool
is_empty [] = true
is_empty (h ∷ hs) = false

unfoldable pub should_poll_head : TipState → Bool
should_poll_head st = not st.ws_enabled || (st.reconcile || not (is_empty st.pending))

unfoldable pub take_reorg_signal : TipState → Option ℕ × TipState
take_reorg_signal st = (st.reorg_at, record st { reorg_at = none })

unfoldable pub wait : TipState → ℕ → ℕ
wait st interval = if is_empty st.pending then interval else min interval 2

unfoldable pub insert_height : ℕ → List ℕ → List ℕ
insert_height h [] = h ∷ []
insert_height h (k ∷ ks) =
    let rest = insert_height h ks in
    if h == k then k ∷ ks else if ltb h k then h ∷ k ∷ ks else k ∷ rest

abbrev pub lower : Option ℕ → ℕ → ℕ
lower none h = h
lower (some cur) h = min cur h

unfoldable pub on_ws_event : Option (Result DomainError TipLog) → TipState → TipState
unfolding insert_height
on_ws_event (some (ok t)) st =
    if t.removed
    then record st { reorg_at = some (lower st.reorg_at t.raw.height) }
    else record st { pending = insert_height t.raw.height st.pending }
on_ws_event (some (err e)) st = record st { sub = false }
on_ws_event none st = record st { sub = false }

-- plan.rs: `run_pipeline`, with the ranges that reach the consumer and the result of the producer.
unfoldable pub run_pipeline :
    ChainId
    → ℕ
    → List FetchedRange
    → Result DomainError Bool
    → Db
    → Result DomainError (Option ℕ × Bool) × Db
unfolding commit_consumer
run_pipeline chain next received producer db =
    let (r, db') = commit_consumer chain next received db in
    elim producer [
      | err e ↦ (err e, db')
      | ok shutdown ↦ elim r [
        | err e ↦ (err e, db')
        | ok (advanced_to, records) ↦ (ok (advanced_to, shutdown), db')
      ]
    ]

pub record CaughtUp : Type 0 where
  pub next : ℕ
  pub shutdown : Bool
  pub behind : Bool

-- `out.advanced_to.map_or(next, |adv| adv + 1)`
abbrev pub resume : ℕ → Option ℕ → ℕ
resume next none = next
resume next (some adv) = adv + 1

-- The end of `catch_up`, once the pipeline returned.
unfoldable pub caught_up : ℕ → Bool → ℕ → TipState → CaughtUp × TipState
unfolding clear_through
caught_up next shutdown safe st =
    if shutdown then (record { next = next; shutdown = true; behind = false }, st) else (
      record { next = next; shutdown = false; behind = leb next safe },
      clear_through (next - 1) (record st { reconcile = leb next safe }),
    )

unfoldable pub catch_up :
    ChainId
    → TipState
    → ℕ
    → ℕ
    → ℕ
    → ℕ
    → List FetchedRange
    → Result DomainError Bool
    → Db
    → Result DomainError (CaughtUp × TipState) × Db
unfolding must_fetch run_pipeline caught_up fetch_target advance
catch_up chain st next safe step range_concurrency received producer db =
    let must = must_fetch st safe in
    let target = fetch_target safe next step range_concurrency must in
    elim must [
      | false ↦ (
        ok ((record { next = target + 1; shutdown = false; behind = leb (target + 1) safe }, st)),
        advance chain target [] db,
      )
      | true ↦
          let (r, db') = run_pipeline chain next received producer db in
          elim r [
            | err e ↦ (err e, db')
            | ok (advanced_to, shutdown) ↦
                (ok (caught_up (resume next advanced_to) shutdown safe st), db')
          ]
    ]

-- Whether a tick of the loop probes for a reorg.
unfoldable pub probes : TipState → ℕ → Bool
probes st tick = elim st.reorg_at [ none ↦ not st.ws_enabled || tick % 16 == 0 | some h ↦ true ]
