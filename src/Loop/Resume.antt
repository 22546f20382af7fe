-- ===== src/Loop/Resume.antt =====
-- `ingest_loop`: where it goes on, and where it would after a restart.
use topic.Base.{
  ℕ, add64, ◌-◌, ◌≤◌, ◌≡◌, refl, sym, subst, inl, inr, Bool, true, false, Option, none, some, List,
  [], ◌∷◌, arith, leb, Bool-cases, if◌then◌else◌,
}
use topic.Base.Results.{DomainError, Result, ok, err, Result-cases, ◌>>=◌}
use topic.Model.{ChainId, Height, Hash}
use topic.Store.{Db, cursor}
use topic.Ingest.{Source}
use topic.Tip
use topic.Tip.{
  TipState, CaughtUp, resume, catch_up, caught_up, must_fetch, run_pipeline, ensure_subscribed,
  take_reorg_signal, probes, should_poll_head,
}
use topic.Tip.Pending.{Ascends, on_ws_event-Ascends}
use topic.Loop.{
  Wake, cancelled, timeout, pushed, Round, LoopState, Settings, Turn, ended, again, waits,
  first_block, started, check_reorg, turn_of, poll, woken, turned, iterate, ingest_loop,
}
use topic.Loop.Aligned.{Holds, IsNext, IsAligned, catch_up-IsAligned, Held, check_reorg-IsAligned}

abbrev AtTurn : ChainId → Turn → Db → Type 0
AtTurn chain ended db = Unit
AtTurn chain (again s) db = IsAligned chain s.next s.tip db
AtTurn chain (waits s) db = IsAligned chain s.next s.tip db

abbrev pub AreAligned : ChainId → Option LoopState → Db → Type 0
AreAligned chain none db = Unit
AreAligned chain (some s) db = IsAligned chain s.next s.tip db

turn_of-AtTurn :
    (chain : ChainId) (s : LoopState) (r : Result DomainError (CaughtUp × TipState)) (db : Db)
    → Holds (λ (p : CaughtUp × TipState) db. IsAligned chain p.0.next p.1 db) r db
    → Holds (AtTurn chain) (r >>= λ c. ok (turn_of s c.0 c.1)) db
turn_of-AtTurn chain s (err x) db h = tt
turn_of-AtTurn chain s (ok (c, tip)) db h = elim (Bool-cases c.shutdown) [
  | inl off ↦ rw off tt
  | inr on ↦ elim (Bool-cases c.behind) [
    | inl behind ↦ rw (on, behind) h
    | inr level ↦ rw (on, level) h
  ]
]

poll-AtTurn :
    (source : Source) (cfg : Settings) (round : Round) (s : LoopState) (db : Db)
    → IsAligned source.chain_id s.next s.tip db
    → let r = poll source cfg round s db in Holds (AtTurn source.chain_id) r.0 r.1
unfolding poll
poll-AtTurn source cfg round s db v = elim (Bool-cases (should_poll_head s.tip)) [
  | inr idle ↦ rw (idle, poll) v
  | inl asks ↦ elim (Result-cases round.head) [
    | inr (x, e) ↦ rw (asks, e, poll) tt
    | inl (head, e) ↦ elim (Bool-cases (leb s.next (head - cfg.confirmations))) [
      | inr done ↦ rw (asks, e, done, poll) v
      | inl due ↦
          rw (asks, e, due, poll)
            (turn_of-AtTurn source.chain_id s _ _ (
              catch_up-IsAligned source.chain_id s.tip s.next (head - cfg.confirmations) cfg.step
                cfg.range_concurrency round.received round.producer db v))
    ]
  ]
]

if-holds :
    (P : LoopState → Type 0) (b : Bool) {s t : LoopState} → P s → P t → P (if b then s else t)
if-holds P true h k = h
if-holds P false h k = k

turned-AreAligned :
    (chain : ChainId) (wake : Wake) (t : Turn) (db : Db)
    → AtTurn chain t db
    → AreAligned chain (turned wake t) db
unfolding woken
turned-AreAligned chain wake ended db v = tt
turned-AreAligned chain wake (again s) db v = v
turned-AreAligned chain cancelled (waits s) db v = tt
turned-AreAligned chain timeout (waits s) db v = v
turned-AreAligned chain (pushed rec) (waits s) db v =
    if-holds (λ s. IsAligned chain s.next s.tip db) s.tip.sub
      (record {
        resumed = v.resumed;
        positive = v.positive;
        ordered = on_ws_event-Ascends rec s.tip v.ordered;
      })
      v

woken-Holds :
    (chain : ChainId) (wake : Wake) (r : Result DomainError Turn) (db : Db)
    → Holds (AtTurn chain) r db
    → Holds (AreAligned chain) (r >>= λ t. ok (turned wake t)) db
woken-Holds chain wake (err x) db h = tt
woken-Holds chain wake (ok t) db h = turned-AreAligned chain wake t db h

ensure_subscribed-pending :
    (subscribed : Bool) (st : TipState) → (ensure_subscribed subscribed st).pending ≡ st.pending
unfolding ensure_subscribed
ensure_subscribed-pending subscribed st = ground arith

iterate-AreAligned :
    (source : Source) (cfg : Settings) (round : Round) (s : LoopState) (db : Db)
    → IsAligned source.chain_id s.next s.tip db
    → let r = iterate source cfg round s db in Holds (AreAligned source.chain_id) r.0 r.1
unfolding iterate
iterate-AreAligned source cfg round s db v = elim (Bool-cases round.is_stopped) [
  | inl stop ↦ rw (stop, iterate) tt
  | inr on ↦
      let source' = record source { block_hash = round.block_hash } in
      let tip = ensure_subscribed round.subscribed s.tip in
      let s1 = record s { tick = add64 s.tick 1; tip = tip } in
      let v1 : IsAligned source.chain_id s.next tip db = record {
        resumed = v.resumed;
        positive = v.positive;
        ordered = subst Ascends (sym (ensure_subscribed-pending round.subscribed s.tip)) v.ordered;
      } in
      let c = check_reorg-IsAligned source' cfg s1 db v1 in
      elim (Result-cases (check_reorg source' cfg s1 db)) [
        | inr (x, e) ↦ rw (on, e, iterate) tt
        | inl ((s2, db2), e) ↦
            let v2 =
              subst (Held (λ (s : LoopState) db. IsAligned source.chain_id s.next s.tip db)) e c in
            rw (on, e, iterate)
              (woken-Holds source.chain_id round.wake _ _ (poll-AtTurn source cfg round s2 db2 v2))
      ]
]

rounds-AreAligned :
    (source : Source) (cfg : Settings) (rounds : List Round) (s : LoopState) (db : Db)
    → IsAligned source.chain_id s.next s.tip db
    → let r = ingest_loop source cfg rounds s db in Holds (AreAligned source.chain_id) r.0 r.1
unfolding ingest_loop
rounds-AreAligned source cfg [] s db v = v
rounds-AreAligned source cfg (round ∷ rounds) s db v =
    let h = iterate-AreAligned source cfg round s db v in
    elim (Result-cases (iterate source cfg round s db).0) [
      | inr (x, e) ↦ rw (e, ingest_loop) tt
      | inl (none, e) ↦ rw (e, ingest_loop) tt
      | inl (some s', e) ↦
          let db' = (iterate source cfg round s db).1 in
          let v' = subst (λ r. Holds (AreAligned source.chain_id) r db') e h in
          rw (e, ingest_loop) (rounds-AreAligned source cfg rounds s' db' v')
    ]

first_block-IsNext :
    (start_block : ℕ) (c : Option (Height × Hash))
    → IsNext c (first_block start_block c) × (1 ≤ first_block start_block c)
first_block-IsNext start_block none = (tt, omega arith)
first_block-IsNext start_block (some (last, hash)) = (refl, omega arith)

-- While the loop goes on, from its start and through any rounds, reorgs included, the block that it
-- would index next is the one behind the cursor of the chain, where there is a cursor, so that a restart
-- goes on at the same block.
pub ingest_loop-AreAligned :
    (source : Source) (cfg : Settings) (rounds : List Round) (db : Db)
    → let r = ingest_loop source cfg rounds (started source cfg db) db in
      Holds (AreAligned source.chain_id) r.0 r.1
unfolding started
ingest_loop-AreAligned source cfg rounds db =
    let f = first_block-IsNext cfg.start_block (cursor db source.chain_id) in
    rounds-AreAligned source cfg rounds (started source cfg db) db
      (record { resumed = f.0; positive = f.1; ordered = unfold Tip.new in tt })
