-- ===== src/Queue/Fencing.antt =====
-- A lease that was reclaimed is worth nothing, and a row that nobody acknowledges stays.
use topic.Base.{
  ℕ, ◌<◌, ◌≡◌, refl, ap, inl, inr, Bool, true, ◌&&◌, some, List, [], ◌∷◌, arith, All, All-map,
  All-append, Any, All-Any, Any-elim, Bool-cases, Option-cases, ◌==◌, subst,
}
use topic.Model.{WorkItem}
use topic.Base.Pairs.{Pairs}
use topic.Queue.Serial.{Apart, IsValid}
use topic.Queue.{
  Row, WorkQueue, Call, pushes, pulls, acks, reclaims, leased, lease_first, is_ready, pull_any,
  push, new_row, delete_lease, ack, is_expired, reclaim_row, reclaim_rows, reclaim_expired, step,
  run, has_item,
}

-- The sequence number has moved on: no row has the lease `(id, seq)`, and none will.
pub record IsStale (id seq : ℕ) (q : WorkQueue) : Type 0 where
  pub past : id < q.next_id
  pub moved : All (λ r. r.id ≡ id → seq < r.lease_seq) q.rows

abbrev Moved : ℕ → ℕ → Row → Type 0
Moved id seq r = r.id ≡ id → seq < r.lease_seq

lease_first-Moved :
    (id seq : ℕ) (ready : Row → Bool) (now : ℕ) (rs rs' : List Row) (l : Row)
    → All (Moved id seq) rs
    → lease_first ready now rs ≡ some (l, rs')
    → All (Moved id seq) rs'
unfolding lease_first leased
lease_first-Moved id seq ready now [] rs' l h e = absurd (ground arith)
lease_first-Moved id seq ready now (r ∷ rs) rs' l h e = elim (Bool-cases (ready r)) [
  | inl here ↦
      subst (All (Moved id seq)) {x = leased now r ∷ rs} (ground arith)
        ((λ s. omega (arith, h.0 s)), h.1)
  | inr later ↦ elim (Option-cases (lease_first ready now rs)) [
    | inl stop ↦ absurd (ground arith)
    | inr ((l', rs''), go) ↦
        subst (All (Moved id seq)) {x = r ∷ rs''} (ground arith)
          (h.0, lease_first-Moved id seq ready now rs rs'' l' h.1 go)
  ]
]

pull_any-IsStale :
    (id seq : ℕ) (q : WorkQueue) (now : ℕ) → IsStale id seq q → IsStale id seq (pull_any q now).0
unfolding pull_any
pull_any-IsStale id seq q now v = elim (Option-cases (lease_first (is_ready q.rows) now q.rows)) [
  | inl e ↦ rw (e, pull_any) v
  | inr ((l, rows), e) ↦
      rw (e, pull_any)
        (record {
          past = v.past;
          moved = lease_first-Moved id seq (is_ready q.rows) now q.rows rows l v.moved e;
        })
]

push-IsStale :
    (id seq : ℕ) (q : WorkQueue) (item : WorkItem) → IsStale id seq q → IsStale id seq (push q item)
unfolding push
push-IsStale id seq q item v = elim (Bool-cases (has_item item q.rows)) [
  | inl old ↦ rw (old, push) (record { past = omega (arith, v.past); moved = v.moved })
  | inr new ↦
      rw (new, push)
        (record {
          past = omega (arith, v.past);
          moved =
              All-append (Moved id seq) q.rows (new_row q.next_id item ∷ []) v.moved
                ((λ e. absurd (omega (arith, e, v.past))), tt);
        })
]

delete_lease-Moved :
    (id seq i s : ℕ) (rs : List Row)
    → All (Moved id seq) rs
    → All (Moved id seq) (delete_lease i s rs)
unfolding delete_lease
delete_lease-Moved id seq i s [] h = tt
delete_lease-Moved id seq i s (r ∷ rs) h = elim (Bool-cases (r.id == i && r.lease_seq == s)) [
  | inl gone ↦ rw (gone, delete_lease) (delete_lease-Moved id seq i s rs h.1)
  | inr kept ↦ rw (kept, delete_lease) (h.0, delete_lease-Moved id seq i s rs h.1)
]

reclaim_row-Moved :
    (id seq now secs : ℕ) (r : Row) → Moved id seq r → Moved id seq (reclaim_row now secs r)
unfolding reclaim_row
reclaim_row-Moved id seq now secs r h = elim (Bool-cases (is_expired now secs r)) [
  | inl old ↦ rw (old, reclaim_row) (λ e. omega (arith, h e))
  | inr new ↦ rw (new, reclaim_row) h
]

reclaim_rows-Moved :
    (id seq now secs : ℕ) (rs : List Row)
    → All (Moved id seq) rs
    → All (Moved id seq) (reclaim_rows now secs rs)
unfolding reclaim_rows
reclaim_rows-Moved id seq now secs [] h = tt
reclaim_rows-Moved id seq now secs (r ∷ rs) h =
    (reclaim_row-Moved id seq now secs r h.0, reclaim_rows-Moved id seq now secs rs h.1)

step-IsStale :
    (id seq : ℕ) (q : WorkQueue) (c : Call) → IsStale id seq q → IsStale id seq (step q c)
unfolding step ack reclaim_expired
step-IsStale id seq q (pushes item) v = push-IsStale id seq q item v
step-IsStale id seq q (pulls now) v = pull_any-IsStale id seq q now v
step-IsStale id seq q (acks i s) v = record {
  past = v.past;
  moved = delete_lease-Moved id seq i s q.rows v.moved;
}
step-IsStale id seq q (reclaims now secs) v = record {
  past = v.past;
  moved = reclaim_rows-Moved id seq now secs q.rows v.moved;
}

run-IsStale :
    (id seq : ℕ) (q : WorkQueue) (cs : List Call) → IsStale id seq q → IsStale id seq (run q cs)
unfolding run
run-IsStale id seq q [] v = v
run-IsStale id seq q (c ∷ cs) v = run-IsStale id seq (step q c) cs (step-IsStale id seq q c v)

-- The acknowledgement of a stale lease deletes nothing.
delete_lease-stale :
    (id seq : ℕ) (rs : List Row) → All (Moved id seq) rs → delete_lease id seq rs ≡ rs
unfolding delete_lease
delete_lease-stale id seq [] h = refl
delete_lease-stale id seq (r ∷ rs) h = ground (arith, h.0, delete_lease-stale id seq rs h.1)

-- A reclaim moves the sequence number of the row that it frees.
reclaim_rows-frees :
    (id seq now secs : ℕ) (rs : List Row)
    → Pairs Apart rs
    → Any (λ r. (r.id ≡ id) × (r.lease_seq ≡ seq) × (is_expired now secs r ≡ true)) rs
    → All (Moved id seq) (reclaim_rows now secs rs)
unfolding reclaim_rows reclaim_row
reclaim_rows-frees id seq now secs [] p h = elim h [ ]
reclaim_rows-frees id seq now secs (r ∷ rs) p (inl (e, s, old)) = (
  rw old (λ _. omega (arith, s)),
  reclaim_rows-Moved id seq now secs rs
      (All-map rs (λ x a e'. absurd (omega (arith, a.older, e, e'))) p.0),
)
reclaim_rows-frees id seq now secs (r ∷ rs) p (inr h) = (
  reclaim_row-Moved id seq now secs r (λ e'. absurd (
      Any-elim rs (λ x q. q)
        (All-Any {R = λ _. ⊥} rs (λ x a q. omega (arith, a.older, q, e')) p.0 h))),
  reclaim_rows-frees id seq now secs rs p.1 h,
)

-- Once a reclaim has freed the row whose current lease is `(id, seq)`, no calls bring this lease back:
-- after any of them the late acknowledgement of its holder changes nothing.
pub reclaimed_ack :
    (q : WorkQueue) (id seq now secs : ℕ) (cs : List Call)
    → IsValid q
    → Any (λ r. (r.id ≡ id) × (r.lease_seq ≡ seq) × (is_expired now secs r ≡ true)) q.rows
    → let later = run (reclaim_expired q now secs).0 cs in ack later id seq ≡ later
unfolding reclaim_expired
reclaimed_ack q id seq now secs cs v h =
    let freed : WorkQueue = (reclaim_expired q now secs).0 in
    let stale : IsStale id seq freed = record {
      past =
          Any-elim q.rows (λ x p. p)
            (All-Any {R = λ _. id < q.next_id} q.rows (λ x f p. omega (arith, f, p)) v.fresh h);
      moved = reclaim_rows-frees id seq now secs q.rows v.apart h;
    } in
    unfold ack in
    ap (λ rows. record { rows = rows; next_id = (run freed cs).next_id })
      (delete_lease-stale id seq (run freed cs).rows (run-IsStale id seq freed cs stale).moved)
