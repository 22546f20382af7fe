-- ===== src/Queue/Overlap.antt =====
-- crates/db/src/repositories/queue_repo.rs: two `pull_any` of a pool of workers that overlap under READ
-- COMMITTED, with `FOR UPDATE SKIP LOCKED`.
use topic.Base.{
  ℕ, ◌≡◌, refl, sym, ap, ◌∙◌, subst, inl, inr, Bool, true, false, Option, some, List, [], ◌∷◌,
  arith, All, All-map, Bool-cases,
}
use topic.Model.{Lease}
use topic.Queue.{
  Row, WorkQueue, is_locked, in_flight, is_ready, saw_free, is_ready_seen, leased, lease_first,
  lease_of, pull_any, pull_seen,
}
use topic.Queue.Serial.{IsValid, Apart}

-- Both rows are leased in `q'`, and the others are as in `q`.
pub record BothLeased (r s : Row) (rest : List Row) (now now' : ℕ) (q' : WorkQueue) : Type 0 where
  pub rows : q'.rows ≡ leased now r ∷ leased now' s ∷ rest
  pub broken : IsValid q' → ⊥

saw_free-two :
    (r s : Row) (rest : List Row) → is_locked s ≡ false → saw_free (r ∷ s ∷ rest) s ≡ true
unfolding saw_free
saw_free-two r s rest free = ground (arith, free)

lease_first-here :
    (ready : Row → Bool) (now : ℕ) (r : Row) (rs : List Row)
    → ready r ≡ true
    → lease_first ready now (r ∷ rs) ≡ some (leased now r, leased now r ∷ rs)
unfolding lease_first
lease_first-here ready now r rs h = rw (h, lease_first) refl

lease_first-second :
    (ready : Row → Bool) (now : ℕ) (r s : Row) (rs : List Row)
    → ready r ≡ false
    → ready s ≡ true
    → lease_first ready now (r ∷ s ∷ rs) ≡ some (leased now s, r ∷ leased now s ∷ rs)
unfolding lease_first
lease_first-second ready now r s rs h k =
    rw (h, lease_first) (rw (lease_first-here ready now s rs k) refl)

pull_any-eq :
    (q : WorkQueue) (now : ℕ) (l : Row) (rows : List Row)
    → lease_first (is_ready q.rows) now q.rows ≡ some (l, rows)
    → pull_any q now ≡ (record q { rows = rows }, some (lease_of l))
unfolding pull_any
pull_any-eq q now l rows e = rw (e, pull_any) refl

pull_seen-eq :
    (seen : List Row) (q : WorkQueue) (now : ℕ) (l : Row) (rows : List Row)
    → lease_first (is_ready_seen seen) now q.rows ≡ some (l, rows)
    → pull_seen seen q now ≡ (record q { rows = rows }, some (lease_of l))
unfolding pull_seen
pull_seen-eq seen q now l rows e = rw (e, pull_seen) refl

is_locked-leased : (now : ℕ) (r : Row) → is_locked (leased now r) ≡ true
unfolding is_locked leased
is_locked-leased now r = refl

-- Two leased rows of one chain are not apart.
both-leased :
    (r s : Row) (now now' : ℕ)
    → s.item.chain_id ≡ r.item.chain_id
    → Apart (leased now r) (leased now' s)
    → ⊥
unfolding leased is_locked
both-leased r s now now' same p = ground (arith, p.serial, same)

-- Where the two oldest rows of the table are free and of one chain, which has no row in flight, a pull
-- that saw the table before another pull took effect leases the second of them after this one leased
-- the first: the chain has two rows in flight, against the invariant of the table.
pub pull_seen-BothLeased :
    (q : WorkQueue) (r s : Row) (rest : List Row) (now now' : ℕ)
    → q.rows ≡ r ∷ s ∷ rest
    → is_locked r ≡ false
    → is_locked s ≡ false
    → s.item.chain_id ≡ r.item.chain_id
    → in_flight q.rows r.item.chain_id ≡ false
    → let first = pull_any q now in
      let second = pull_seen q.rows first.0 now' in
      (first.1 ≡ some (lease_of (leased now r)))
      × (second.1 ≡ some (lease_of (leased now' s)))
      × BothLeased r s rest now now' second.0
pull_seen-BothLeased q r s rest now now' e f g same free =
    let seen = r ∷ s ∷ rest in
    let q1 : WorkQueue = record q { rows = leased now r ∷ s ∷ rest } in
    let q2 : WorkQueue = record q { rows = leased now r ∷ leased now' s ∷ rest } in
    let calm : in_flight seen r.item.chain_id ≡ false =
      ap (λ rs. in_flight rs r.item.chain_id) (sym e) ∙ free in
    let ready : is_ready seen r ≡ true = unfold is_ready in ground (arith, f, calm) in
    let skips : is_ready_seen seen (leased now r) ≡ false =
      unfold is_ready_seen in ground (arith, is_locked-leased now r) in
    let calm' : in_flight seen s.item.chain_id ≡ false = ap (in_flight seen) same ∙ calm in
    let takes : is_ready_seen seen s ≡ true =
      unfold is_ready_seen in ground (arith, g, calm', saw_free-two r s rest g) in
    let first : pull_any q now ≡ (q1, some (lease_of (leased now r))) =
      pull_any-eq q now (leased now r) (leased now r ∷ s ∷ rest) (
        ap (λ rs. lease_first (is_ready rs) now rs) e
        ∙ lease_first-here (is_ready seen) now r (s ∷ rest) ready) in
    let second : pull_seen seen q1 now' ≡ (q2, some (lease_of (leased now' s))) =
      pull_seen-eq seen q1 now' (leased now' s) (leased now r ∷ leased now' s ∷ rest)
        (lease_first-second (is_ready_seen seen) now' (leased now r) s rest skips takes) in
    let both : pull_seen q.rows (pull_any q now).0 now' ≡ (q2, some (lease_of (leased now' s))) =
      ap (λ rs. pull_seen rs (pull_any q now).0 now') e
      ∙ ap (λ (p : WorkQueue × Option Lease). pull_seen seen p.0 now') first
      ∙ second in
    (
      ap (λ (p : WorkQueue × Option Lease). p.1) first,
      ap (λ (p : WorkQueue × Option Lease). p.1) both,
      subst (BothLeased r s rest now now') (sym (ap (λ (p : WorkQueue × Option Lease). p.0) both))
          (record { rows = refl; broken = λ v. both-leased r s now now' same v.apart.0.0 }),
    )

lease_first-same :
    (p p' : Row → Bool) (now : ℕ) (rows : List Row)
    → All (λ r. p r ≡ p' r) rows
    → lease_first p now rows ≡ lease_first p' now rows
unfolding lease_first
lease_first-same p p' now [] h = refl
lease_first-same p p' now (r ∷ rows) h = elim (Bool-cases (p' r)) [
  | inl k ↦ rw (h.0 ∙ k, k, lease_first) refl
  | inr k ↦ rw (h.0 ∙ k, k, lease_first) (rw (lease_first-same p p' now rows h.1) refl)
]

saw_free-All : (rows : List Row) → All (λ r. is_locked r ≡ false → saw_free rows r ≡ true) rows
unfolding saw_free
saw_free-All [] = tt
saw_free-All (r ∷ rows) =
    (λ h. ground (arith, h), All-map rows (λ x f h. ground (arith, f h)) (saw_free-All rows))

is_ready_seen-is_ready :
    (rows : List Row) (r : Row)
    → (is_locked r ≡ false → saw_free rows r ≡ true)
    → is_ready_seen rows r ≡ is_ready rows r
unfolding is_ready_seen is_ready
is_ready_seen-is_ready rows r f = elim (Bool-cases (is_locked r)) [
  | inl k ↦ ground (arith, k)
  | inr k ↦ ground (arith, k, f k)
]

-- Where nothing else took effect meanwhile it is `pull_any` of the rows as they are.
pub pull_seen-pull_any : (q : WorkQueue) (now : ℕ) → pull_seen q.rows q now ≡ pull_any q now
unfolding pull_any pull_seen
pull_seen-pull_any q now =
    let same =
      lease_first-same (is_ready_seen q.rows) (is_ready q.rows) now q.rows
        (All-map q.rows (is_ready_seen-is_ready q.rows) (saw_free-All q.rows)) in
    rw (same, pull_seen, pull_any) refl
