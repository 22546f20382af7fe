-- ===== src/Loop.antt =====
-- bins/indexer-cli/src/ingest.rs: `ingest_loop`, one iteration after another. What the iteration meets
-- from outside is a value.
pub mod Aligned
pub mod Resume
use topic.Base.{
  ℕ, suc, ◌+◌, ◌-◌, max, Bool, true, false, not, Option, none, some, List, [], ◌∷◌, String, leb,
  if◌then◌else◌, add64,
}
use topic.Base.Results.{DomainError, Result, ok, err, ◌>>=◌}
use topic.Model.{Height, Hash, TipLog}
use topic.Store.{Db, cursor}
use topic.Ingest.{Source, FetchedRange, check}
use topic.Tip.{
  TipState, CaughtUp, ensure_subscribed, take_reorg_signal, probes, should_poll_head, on_ws_event,
  catch_up,
}
use topic.Tip

-- What ends the wait: the token, the stream, or the interval.
pub data Wake : Type 0 where
  cancelled timeout : Wake
  pushed : Option (Result DomainError TipLog) → Wake

-- `is_stopped`: the token is cancelled or the quota exhausted. `subscribed`: a subscription succeeds.
-- `received` and `producer` are what the pipeline meets, if it runs.
pub record Round : Type 0 where
  pub is_stopped : Bool
  pub subscribed : Bool
  pub block_hash : Height → Result DomainError (Option Hash)
  pub head : Result DomainError Height
  pub received : List FetchedRange
  pub producer : Result DomainError Bool
  pub wake : Wake

-- The variables of the loop.
pub record LoopState : Type 0 where
  pub next : ℕ
  pub tick : ℕ
  pub tip : TipState

-- The configuration of a chain.
pub record Settings : Type 0 where
  pub tables : List String
  pub confirmations : ℕ
  pub start_block : ℕ
  pub step : ℕ
  pub range_concurrency : ℕ

-- How the part of an iteration before the wait ends: `break`, `continue`, or with the wait.
pub data Turn : Type 0 where
  ended : Turn
  again waits : LoopState → Turn

-- The block to index first.
abbrev pub first_block : ℕ → Option (Height × Hash) → ℕ
first_block start_block none = max start_block 1
first_block start_block (some (last, hash)) = last + 1

unfoldable pub started : Source → Settings → Db → LoopState
unfolding cursor Tip.new
started source cfg db = record {
  next = first_block cfg.start_block (cursor db source.chain_id);
  tick = 0;
  tip = Tip.new source.caps.supports_subscribe;
}

abbrev pub reindexed : LoopState → Option Height → LoopState
reindexed s none = s
reindexed s (some reindex) = record s { next = reindex; tip = record s.tip { reconcile = true } }

-- The probe for a reorg. The signal is taken whether or not it is why the loop probes.
unfoldable pub check_reorg :
    Source → Settings → LoopState → Db → Result DomainError (LoopState × Db)
unfolding take_reorg_signal probes check
check_reorg source cfg s db =
    let s' = record s { tip = (take_reorg_signal s.tip).1 } in
    if probes s.tip s.tick
    then (check source cfg.tables cfg.confirmations db >>= λ r. ok (reindexed s' r.0, r.1))
    else ok (s', db)

abbrev pub turn_of : LoopState → CaughtUp → TipState → Turn
turn_of s c tip =
    let s' = record s { next = c.next; tip = tip } in
    if c.shutdown then ended else if c.behind then again s' else waits s'

-- The catch-up to the safe tip, where the head is polled and there is something to index.
unfoldable pub poll : Source → Settings → Round → LoopState → Db → Result DomainError Turn × Db
unfolding should_poll_head catch_up
poll source cfg round s db =
    if should_poll_head s.tip
    then elim round.head [
      | err e ↦ (err e, db)
      | ok head ↦
          let safe = head - cfg.confirmations in
          let (r, db') =
            catch_up source.chain_id s.tip s.next safe cfg.step cfg.range_concurrency round.received
              round.producer db in
          if leb s.next safe then (r >>= (λ c. ok (turn_of s c.0 c.1)), db') else (ok (waits s), db)
    ]
    else (ok (waits s), db)

-- The `select!`, whose branch for the stream is open while there is a subscription.
unfoldable pub woken : Wake → LoopState → Option LoopState
unfolding on_ws_event
woken cancelled s = none
woken timeout s = some s
woken (pushed rec) s = some (if s.tip.sub then record s { tip = on_ws_event rec s.tip } else s)

abbrev pub turned : Wake → Turn → Option LoopState
turned wake ended = none
turned wake (again s) = some s
turned wake (waits s) = woken wake s

-- One iteration: `none` where the loop ends without an error.
unfoldable pub iterate :
    Source → Settings → Round → LoopState → Db → Result DomainError (Option LoopState) × Db
unfolding ensure_subscribed check_reorg poll woken
iterate source cfg round s db =
    let s1 = record s { tick = add64 s.tick 1; tip = ensure_subscribed round.subscribed s.tip } in
    if round.is_stopped
    then (ok none, db)
    else elim (check_reorg (record source { block_hash = round.block_hash }) cfg s1 db) [
      | err e ↦ (err e, db)
      | ok (s2, db2) ↦
          let (r, db3) = poll source cfg round s2 db2 in
          (r >>= (λ t. ok (turned round.wake t)), db3)
    ]

-- The loop while it goes on, over the rounds that it has had.
unfoldable pub ingest_loop :
    Source → Settings → List Round → LoopState → Db → Result DomainError (Option LoopState) × Db
unfolding iterate
ingest_loop source cfg [] s db = (ok (some s), db)
ingest_loop source cfg (round ∷ rounds) s db =
    let (r, db') = iterate source cfg round s db in
    elim r [
      | err e ↦ (err e, db')
      | ok o ↦ elim o [ none ↦ (ok none, db') | some s' ↦ ingest_loop source cfg rounds s' db' ]
    ]
