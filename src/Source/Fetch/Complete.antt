-- ===== src/Source/Fetch/Complete.antt =====
-- What `fetch_records` returns when the provider is truthful.
use topic.Base.{
  ℕ, zero, suc, ◌+◌, ◌-◌, ◌*◌, ◌≤◌, ◌<◌, ◌≡◌, refl, sym, ap, ◌∙◌, subst, ◌⊎◌, inl, inr, false, ◌&&◌,
  Option, some, List, [], ◌∷◌, ◌++◌, String, arith, ltb, leb, length, Bool-cases, u64_mod, max,
}
use mathlib.Core.List.{append_assoc, append-nil}
use topic.Base.Results.{Result, ok, err, ◌>>=◌}
use topic.Model.{PlanProfile, RawRecord, RecordFilter, RpcCall, get_logs}
use topic.Plan.Tiles.{Tiles, plan_ranges-Tiles}
use topic.Source.{SourceError, transport, Client, Rpc}
use topic.Source.Retry.{is_range_cap_error, split_range, with_retry, with_retry-Tried, Tried}
use topic.Source.Density.{suggested_span, suggested_span-bounds, record_density}
use topic.Source.Fetch.{
  Log, Logs, Page, clean, overflow, failed, judge, fetch_loop, fetch_logs, fetch_records, map_logs,
}

-- The logs of the `n` blocks from `lo`, in order.
abbrev pub span_logs : (ℕ → List Log) → ℕ → ℕ → List Log
span_logs blocks lo zero = []
span_logs blocks lo (suc n) = blocks lo ++ span_logs blocks (lo + 1) n

-- A page has all matching logs of its blocks in order, unless it spans several blocks and was cut at
-- the result cap.
abbrev pub IsTruthful : (ℕ → List Log) → ℕ → (ℕ → ℕ → Rpc (List Log)) → Type 0
IsTruthful blocks cap rpc =
    (lo hi n : ℕ) (page : List Log)
    → rpc lo hi n ≡ ok page
    → (page ≡ span_logs blocks lo (hi + 1 - lo)) ⊎ ((lo < hi) × (0 < cap) × (cap ≤ length page))

-- The client gives up only on an error of the provider that a smaller page cannot avoid.
abbrev pub GivesUp : (ℕ → ℕ → Rpc (List Log)) → SourceError → Type 0
GivesUp rpc x =
    (lo : ℕ) × (hi : ℕ) × (n : ℕ) × (e : String) × (rpc lo hi n ≡ err e)
    × (x ≡ transport e)
    × ((ltb lo hi && is_range_cap_error e) ≡ false)

span_logs-append :
    (blocks : ℕ → List Log) (lo a b : ℕ)
    → span_logs blocks lo (a + b) ≡ span_logs blocks lo a ++ span_logs blocks (lo + a) b
span_logs-append blocks lo zero b =
    ap (span_logs blocks lo) {x = 0 + b} {y = b} (omega arith)
    ∙ ap (λ k. span_logs blocks k b) {x = lo} {y = lo + 0} (omega arith)
span_logs-append blocks lo (suc a) b =
    ap (span_logs blocks lo) {x = suc a + b} {y = suc (a + b)} (omega arith)
    ∙ ap (λ l. blocks lo ++ l)
        (subst
          (λ k.
            span_logs blocks (lo + 1) (a + b) ≡ span_logs blocks (lo + 1) a ++ span_logs blocks k b)
          {x = lo + 1 + a} {y = lo + suc a} (omega arith) (span_logs-append blocks (lo + 1) a b))
    ∙ sym (append_assoc (blocks lo) _ _)

-- `pending` cuts `[s..=to]` into consecutive pages.
abbrev Stacked : ℕ → ℕ → List (ℕ × ℕ) → Type 0
Stacked s to [] = s ≡ to + 1
Stacked s to ((lo, hi) ∷ pending) = (lo ≡ s) × (lo ≤ hi) × Stacked (hi + 1) to pending

abbrev rounds : List (ℕ × ℕ) → ℕ
rounds [] = 0
rounds ((lo, hi) ∷ pending) = 2 * (hi - lo) + 1 + rounds pending

Stacked-le : (s to : ℕ) (pending : List (ℕ × ℕ)) → Stacked s to pending → s ≤ to + 1
Stacked-le s to [] h = omega arith
Stacked-le s to ((lo, hi) ∷ pending) h = omega (arith, Stacked-le (hi + 1) to pending h.2)

Stacked-rounds :
    (s to : ℕ) (pending : List (ℕ × ℕ)) → Stacked s to pending → rounds pending ≤ 2 * (to + 1 - s)
Stacked-rounds s to [] h = omega arith
Stacked-rounds s to ((lo, hi) ∷ pending) h =
    omega (arith, Stacked-le (hi + 1) to pending h.2, Stacked-rounds (hi + 1) to pending h.2)

Tiles-Stacked :
    (step s to : ℕ) (rs : List (ℕ × ℕ)) → s ≤ to + 1 → Tiles step to s rs → Stacked s to rs
Tiles-Stacked step s to [] k h = omega arith
Tiles-Stacked step s to ((lo, hi) ∷ rs) k (h0, h1, h2, h3, h4, h5) =
    (h0, h1, Tiles-Stacked step (hi + 1) to rs (omega arith) h5)

-- The two halves of a page take its place, and take fewer rounds.
split_range-Stacked :
    (s to lo hi : ℕ) (pending : List (ℕ × ℕ))
    → lo < hi
    → Stacked s to ((lo, hi) ∷ pending)
    → let halves = (split_range lo hi).0 ∷ (split_range lo hi).1 ∷ pending in
      Stacked s to halves × (rounds halves < rounds ((lo, hi) ∷ pending))
unfolding split_range
split_range-Stacked s to lo hi pending h k =
    ((k.0, omega arith, (omega arith, omega arith, k.2)), omega arith)

-- What the answer for a page makes of the loop.
data Judged (blocks : ℕ → List Log) (rpc : ℕ → ℕ → Rpc (List Log)) (lo hi : ℕ) : Page → Type 0 where
  whole :
      {page : List Log}
      → page ≡ span_logs blocks lo (hi + 1 - lo)
      → Judged blocks rpc lo hi (clean page)
  halved : lo < hi → Judged blocks rpc lo hi overflow
  stopped : {x : SourceError} → GivesUp rpc x → Judged blocks rpc lo hi (failed x)

judge_ok :
    (blocks : ℕ → List Log) (cap : ℕ) (rpc : ℕ → ℕ → Rpc (List Log)) (lo hi n : ℕ) (page : List Log)
    → IsTruthful blocks cap rpc
    → rpc lo hi n ≡ ok page
    → Judged blocks rpc lo hi (judge cap lo hi (ok page))
unfolding judge
judge_ok blocks cap rpc lo hi n page truth e =
    elim (Bool-cases (ltb lo hi && ltb 0 cap && leb cap (length page))) [
      | inl over ↦ rw (over, judge) (halved (ground arith))
      | inr fits ↦
          rw (fits, judge)
            (whole (elim (truth lo hi n page e) [ inl h ↦ h | inr h ↦ absurd (ground arith) ]))
    ]

judge_err :
    (blocks : ℕ → List Log) (cap : ℕ) (rpc : ℕ → ℕ → Rpc (List Log)) (lo hi n : ℕ) (x : String)
    → rpc lo hi n ≡ err x
    → Judged blocks rpc lo hi (judge cap lo hi (err (transport x)))
unfolding judge
judge_err blocks cap rpc lo hi n x e = elim (Bool-cases (ltb lo hi && is_range_cap_error x)) [
  | inl over ↦ rw (over, judge) (halved (ground arith))
  | inr stop ↦ rw (stop, judge) (stopped (lo, hi, n, x, e, refl, stop))
]

module _ (blocks : ℕ → List Log) (cap : ℕ) (rpc : Logs) (filter : RecordFilter)
    (truth : IsTruthful blocks cap (rpc filter)) where
  page-Judged :
      (lo hi : ℕ) (call : RpcCall) (c c' : Client) (res : Result SourceError (List Log))
      → Tried 5 (rpc filter lo hi) call c c' res
      → Judged blocks (rpc filter) lo hi (judge cap lo hi res)
  page-Judged lo hi call c c' res t = elim t.ended [
    | inl (page, e, r) ↦
        subst (λ a. Judged blocks (rpc filter) lo hi (judge cap lo hi a)) (sym r)
          (judge_ok blocks cap (rpc filter) lo hi _ page truth e)
    | inr (x, e, r, _) ↦
        subst (λ a. Judged blocks (rpc filter) lo hi (judge cap lo hi a)) (sym r)
          (judge_err blocks cap (rpc filter) lo hi _ x e)
  ]

  abbrev Ends : List Log → Option (Result SourceError (List Log) × Client) → Type 0
  Ends all o =
      (r : Result SourceError (List Log)) × (c : Client) × (o ≡ some (r, c))
      × ((r ≡ ok all) ⊎ ((x : SourceError) × (r ≡ err x) × GivesUp (rpc filter) x))

  -- The rest of the loop after the answer for a page.
  abbrev after :
      ℕ
      → ℕ
      → ℕ
      → List (ℕ × ℕ)
      → List Log
      → Client
      → Page
      → Option (Result SourceError (List Log) × Client)
  after fuel lo hi pending logs c (clean page) =
      fetch_loop rpc filter fuel pending (logs ++ page)
        (record_density c (hi - lo + 1) (length page))
  after fuel lo hi pending logs c overflow =
      fetch_loop rpc filter fuel ((split_range lo hi).0 ∷ (split_range lo hi).1 ∷ pending) logs c
  after fuel lo hi pending logs c (failed e) = some (err e, c)

  fetch_loop-after :
      (fuel lo hi : ℕ) (pending : List (ℕ × ℕ)) (logs : List Log) (c : Client) (page : Page)
      → let a = with_retry (rpc filter lo hi) (get_logs (hi - lo + 1) 0) c in
        judge c.plan.max_getlogs_results lo hi a.0 ≡ page
        → let a = with_retry (rpc filter lo hi) (get_logs (hi - lo + 1) 0) c in
          fetch_loop rpc filter (suc fuel) ((lo, hi) ∷ pending) logs c
          ≡ after fuel lo hi pending logs a.1 page
  unfolding fetch_loop
  fetch_loop-after fuel lo hi pending logs c (clean page) e = rw (e, fetch_loop) refl
  fetch_loop-after fuel lo hi pending logs c overflow e = rw (e, fetch_loop) refl
  fetch_loop-after fuel lo hi pending logs c (failed x) e = rw (e, fetch_loop) refl

  record_density-plan : (c : Client) (n k : ℕ) → (record_density c n k).plan ≡ c.plan
  unfolding record_density
  record_density-plan c n k = ground arith

  joined :
      (lo hi to : ℕ) (logs page all : List Log)
      → lo ≤ hi
      → hi ≤ to
      → page ≡ span_logs blocks lo (hi + 1 - lo)
      → logs ++ span_logs blocks lo (to + 1 - lo) ≡ all
      → logs ++ page ++ span_logs blocks (hi + 1) (to + 1 - (hi + 1)) ≡ all
  joined lo hi to logs page all h k e p =
      append_assoc logs page _
      ∙ ap (λ l. logs ++ (l ++ span_logs blocks (hi + 1) (to + 1 - (hi + 1)))) e
      ∙ ap (λ l. logs ++ l)
          (ap (λ n. span_logs blocks lo (hi + 1 - lo) ++ span_logs blocks n (to + 1 - (hi + 1)))
              (omega arith)
            ∙ sym (span_logs-append blocks lo (hi + 1 - lo) (to + 1 - (hi + 1)))
            ∙ ap (span_logs blocks lo) (omega arith))
      ∙ p

  -- With this fuel the loop ends well from every state that is on the way to `all`.
  abbrev Settles : ℕ → ℕ → List Log → Type 0
  Settles fuel to all =
      (s : ℕ) (pending : List (ℕ × ℕ)) (logs : List Log) (c : Client)
      → rounds pending ≤ fuel
      → Stacked s to pending
      → logs ++ span_logs blocks s (to + 1 - s) ≡ all
      → c.plan.max_getlogs_results ≡ cap
      → Ends all (fetch_loop rpc filter fuel pending logs c)

  after-Ends :
      (fuel lo hi to : ℕ) (pending : List (ℕ × ℕ)) (logs all : List Log) (c : Client) (page : Page)
      → Settles fuel to all
      → rounds ((lo, hi) ∷ pending) ≤ suc fuel
      → Stacked lo to ((lo, hi) ∷ pending)
      → logs ++ span_logs blocks lo (to + 1 - lo) ≡ all
      → c.plan.max_getlogs_results ≡ cap
      → Judged blocks (rpc filter) lo hi page
      → Ends all (after fuel lo hi pending logs c page)
  after-Ends fuel lo hi to pending logs all c (clean page) ih f st e kept (whole w) =
      ih (hi + 1) pending (logs ++ page) _ (omega arith) st.2
        (joined lo hi to logs page all st.1 (omega (arith, Stacked-le (hi + 1) to pending st.2)) w
          e)
        (ap PlanProfile.max_getlogs_results (record_density-plan c (hi - lo + 1) (length page))
          ∙ kept)
  after-Ends fuel lo hi to pending logs all c overflow ih f st e kept (halved lt) =
      let h = split_range-Stacked lo to lo hi pending lt st in
      ih lo ((split_range lo hi).0 ∷ (split_range lo hi).1 ∷ pending) logs c (omega (arith, h.1))
        h.0 e kept
  after-Ends fuel lo hi to pending logs all c (failed x) ih f st e kept (stopped g) =
      (err x, c, refl, inr (x, refl, g))

  fetch_loop-Ends : (fuel to : ℕ) (all : List Log) → Settles fuel to all
  unfolding fetch_loop
  fetch_loop-Ends fuel to all s [] logs c f st e p = (
    ok logs,
    c,
    refl,
    inl (
        ap ok (
          sym (append-nil logs)
          ∙ ap (λ n. logs ++ span_logs blocks s n) {x = 0} {y = to + 1 - s} (omega arith)
          ∙ e)),
  )
  fetch_loop-Ends zero to all s ((lo, hi) ∷ pending) logs c f st e p = absurd (omega arith)
  fetch_loop-Ends (suc fuel) to all s ((lo, hi) ∷ pending) logs c f st e p =
      let a = with_retry (rpc filter lo hi) (get_logs (hi - lo + 1) 0) c in
      let t = (with_retry-Tried (rpc filter lo hi) (get_logs (hi - lo + 1) 0) c).0 in
      subst (Ends all)
        (sym (
          fetch_loop-after fuel lo hi pending logs c (judge cap lo hi a.0)
            (ap (λ n. judge n lo hi a.0) p)))
        (after-Ends fuel lo hi to pending logs all a.1 (judge cap lo hi a.0)
          (fetch_loop-Ends fuel to all) f (refl, st.1, st.2)
          (subst (λ n. logs ++ span_logs blocks n (to + 1 - n) ≡ all) (sym st.0) e)
          (ap PlanProfile.max_getlogs_results t.kept ∙ p) (page-Judged lo hi _ c a.1 a.0 t))

  pub fetch_logs-Ends :
      (from to : ℕ) (c : Client)
      → from ≤ to
      → to + max c.plan.max_getlogs_blocks 1 < u64_mod
      → c.plan.max_getlogs_results ≡ cap
      → Ends (span_logs blocks from (to + 1 - from)) (fetch_logs rpc filter from to c)
  unfolding fetch_logs
  fetch_logs-Ends from to c le b p =
      let span = suggested_span-bounds c in
      let (chunks, planned, tiled) =
        plan_ranges-Tiles from to (suggested_span c) span.0 (omega (arith, span)) in
      let st = Tiles-Stacked _ from to chunks (omega arith) tiled in
      rw (planned, fetch_logs)
        (fetch_loop-Ends (2 * (to + 1 - from)) to _ from chunks [] c
          (Stacked-rounds from to chunks st) st refl p)

-- When the provider is truthful, `fetch_records` ends for every window, and either returns the records
-- of all the logs of `[from..=to]`, in order and once each, or the error of a log that lacks a field,
-- or it gives up on an error of the provider that a smaller page cannot avoid.
pub fetch_records_complete :
    (blocks : ℕ → List Log) (rpc : Logs) (filter : RecordFilter) (from to : ℕ) (c : Client)
    → IsTruthful blocks c.plan.max_getlogs_results (rpc filter)
    → from ≤ to
    → to + max c.plan.max_getlogs_blocks 1 < u64_mod
    → (r : Result SourceError (List RawRecord)) × (c' : Client) × (fetch_records rpc filter from to
          c
        ≡ some (r, c'))
      × ((r ≡ map_logs c.chain_id (span_logs blocks from (to + 1 - from)))
          ⊎ ((x : SourceError) × (r ≡ err x) × GivesUp (rpc filter) x))
unfolding fetch_records
fetch_records_complete blocks rpc filter from to c truth le b =
    let (r, c', e, h) =
      fetch_logs-Ends blocks c.plan.max_getlogs_results rpc filter truth from to c le b refl in
    (
      r >>= map_logs c.chain_id,
      c',
      rw e refl,
      elim h [ inl all ↦ inl (rw all refl) | inr (x, stop, g) ↦ inr (x, rw stop refl, g) ],
    )
