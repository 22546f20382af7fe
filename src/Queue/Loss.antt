-- ===== src/Queue/Loss.antt =====
-- Which work the table keeps, and which it loses.
use topic.Base.{
  ℕ, ◌≡◌, ◌≢◌, refl, inl, inr, Bool, true, false, ◌&&◌, some, List, [], ◌∷◌, arith, All, All-map,
  Any, All-Any, Any-elim, Any-append_left, Any-append_right, Bool-cases, Option-cases,
  if◌then◌else◌, ◌==◌, subst, sym,
}
use topic.Model.{WorkItem, WorkKind, kind_eq}
use topic.Queue.{
  Row, WorkQueue, Call, pushes, pulls, acks, reclaims, leased, lease_first, is_ready, pull_any,
  push, new_row, delete_lease, ack, reclaim_row, reclaim_rows, reclaim_expired, step, run, has_item,
  same_item,
}
use topic.Base.Pairs.{Pairs}
use topic.Queue.Serial.{Apart, IsValid, delete_lease-All}

-- The row with this id, which is for the same work as `item`.
abbrev pub IsFor : ℕ → WorkItem → Row → Type 0
IsFor id item r = (r.id ≡ id) × (same_item item r.item ≡ true)

abbrev pub NotAckOf : ℕ → Call → Type 0
NotAckOf id (acks i s) = i ≡ id → ⊥
NotAckOf id _ = Unit

module _ (id : ℕ) (item : WorkItem) where
  lease_first-keeps :
      (ready : Row → Bool) (now : ℕ) (rs rs' : List Row) (l : Row)
      → lease_first ready now rs ≡ some (l, rs')
      → Any (IsFor id item) rs
      → Any (IsFor id item) rs'
  unfolding lease_first leased
  lease_first-keeps ready now [] rs' l e h = elim h [ ]
  lease_first-keeps ready now (r ∷ rs) rs' l e h = elim (Bool-cases (ready r)) [
    | inl here ↦ subst (Any (IsFor id item)) {x = leased now r ∷ rs} (ground arith) h
    | inr later ↦ elim (Option-cases (lease_first ready now rs)) [
      | inl stop ↦ absurd (ground arith)
      | inr ((l', rs''), go) ↦
          subst (Any (IsFor id item)) {x = r ∷ rs''} (ground arith) (elim h [
            | inl at ↦ inl at
            | inr on ↦ inr (lease_first-keeps ready now rs rs'' l' go on)
          ])
    ]
  ]

  pull_any-keeps :
      (q : WorkQueue) (now : ℕ)
      → Any (IsFor id item) q.rows
      → Any (IsFor id item) (pull_any q now).0.rows
  unfolding pull_any
  pull_any-keeps q now h = elim (Option-cases (lease_first (is_ready q.rows) now q.rows)) [
    | inl e ↦ rw (e, pull_any) h
    | inr ((l, rows), e) ↦
        rw (e, pull_any) (lease_first-keeps (is_ready q.rows) now q.rows rows l e h)
  ]

  push-keeps :
      (q : WorkQueue) (other : WorkItem)
      → Any (IsFor id item) q.rows
      → Any (IsFor id item) (push q other).rows
  unfolding push
  push-keeps q other h = elim (Bool-cases (has_item other q.rows)) [
    | inl old ↦ rw (old, push) h
    | inr new ↦
        rw (new, push) (Any-append_left (IsFor id item) q.rows (new_row q.next_id other ∷ []) h)
  ]

  delete_lease-keeps :
      (i s : ℕ) (rs : List Row)
      → (i ≡ id → ⊥)
      → Any (IsFor id item) rs
      → Any (IsFor id item) (delete_lease i s rs)
  unfolding delete_lease
  delete_lease-keeps i s [] n h = h
  delete_lease-keeps i s (r ∷ rs) n (inl h) = elim (Bool-cases (r.id == i && r.lease_seq == s)) [
    | inl gone ↦ absurd (n (ground arith))
    | inr kept ↦ rw (kept, delete_lease) (inl h)
  ]
  delete_lease-keeps i s (r ∷ rs) n (inr h) = elim (Bool-cases (r.id == i && r.lease_seq == s)) [
    | inl gone ↦ rw (gone, delete_lease) (delete_lease-keeps i s rs n h)
    | inr kept ↦ rw (kept, delete_lease) (inr (delete_lease-keeps i s rs n h))
  ]

  reclaim_row-keeps :
      (now secs : ℕ) (r : Row) → IsFor id item r → IsFor id item (reclaim_row now secs r)
  unfolding reclaim_row
  reclaim_row-keeps now secs r h = ground arith

  reclaim_rows-keeps :
      (now secs : ℕ) (rs : List Row)
      → Any (IsFor id item) rs
      → Any (IsFor id item) (reclaim_rows now secs rs)
  unfolding reclaim_rows
  reclaim_rows-keeps now secs [] h = h
  reclaim_rows-keeps now secs (r ∷ rs) (inl h) = inl (reclaim_row-keeps now secs r h)
  reclaim_rows-keeps now secs (r ∷ rs) (inr h) = inr (reclaim_rows-keeps now secs rs h)

  step-keeps :
      (q : WorkQueue) (c : Call)
      → NotAckOf id c
      → Any (IsFor id item) q.rows
      → Any (IsFor id item) (step q c).rows
  unfolding step ack reclaim_expired
  step-keeps q (pushes other) n h = push-keeps q other h
  step-keeps q (pulls now) n h = pull_any-keeps q now h
  step-keeps q (acks i s) n h = delete_lease-keeps i s q.rows n h
  step-keeps q (reclaims now secs) n h = reclaim_rows-keeps now secs q.rows h

  run-keeps :
      (q : WorkQueue) (cs : List Call)
      → All (NotAckOf id) cs
      → Any (IsFor id item) q.rows
      → Any (IsFor id item) (run q cs).rows
  unfolding run
  run-keeps q [] n h = h
  run-keeps q (c ∷ cs) n h = run-keeps (step q c) cs n.1 (step-keeps q c n.0 h)

kind_eq_refl : (k : WorkKind) → kind_eq k k ≡ true
unfolding kind_eq
kind_eq_refl WorkKind.backfill = refl
kind_eq_refl WorkKind.tip = refl
kind_eq_refl WorkKind.reorg = refl

same_item_refl : (item : WorkItem) → same_item item item ≡ true
unfolding same_item
same_item_refl item = ground (arith, kind_eq_refl item.kind)

kind_eq_trans : (a b c : WorkKind) → kind_eq a b ≡ true → kind_eq a c ≡ true → kind_eq b c ≡ true
unfolding kind_eq
kind_eq_trans a b c h k = ground arith

same_item_trans :
    (a b c : WorkItem) → same_item a b ≡ true → same_item a c ≡ true → same_item b c ≡ true
unfolding same_item
same_item_trans a b c h k = ground (arith, kind_eq_trans a.kind b.kind c.kind)

-- The id of the first row for the same work, or else that of the row which `push` appends.
unfoldable pub id_of : WorkItem → ℕ → List Row → ℕ
unfolding same_item
id_of item next_id [] = next_id
id_of item next_id (r ∷ rs) = if same_item item r.item then r.id else id_of item next_id rs

id_of-has_item :
    (item : WorkItem) (next_id : ℕ) (rs : List Row)
    → has_item item rs ≡ true
    → Any (IsFor (id_of item next_id rs) item) rs
unfolding has_item id_of
id_of-has_item item next_id [] h = cc
id_of-has_item item next_id (r ∷ rs) h = elim (Bool-cases (same_item item r.item)) [
  | inl same ↦ inl (ground arith)
  | inr other ↦
      let e : id_of item next_id rs ≡ id_of item next_id (r ∷ rs) = ground arith in
      subst (λ n. Any (IsFor n item) (r ∷ rs)) e
        (inr (id_of-has_item item next_id rs (ground arith)))
]

id_of-new :
    (item : WorkItem) (next_id : ℕ) (rs : List Row)
    → has_item item rs ≡ false
    → id_of item next_id rs ≡ next_id
unfolding has_item id_of
id_of-new item next_id [] h = refl
id_of-new item next_id (r ∷ rs) h = ground (arith, id_of-new item next_id rs)

push-IsFor :
    (q : WorkQueue) (item : WorkItem)
    → Any (IsFor (id_of item q.next_id q.rows) item) (push q item).rows
unfolding push
push-IsFor q item = elim (Bool-cases (has_item item q.rows)) [
  | inl old ↦ rw (old, push) (id_of-has_item item q.next_id q.rows old)
  | inr new ↦
      rw (new, push, id_of-new item q.next_id q.rows new)
        (Any-append_right (IsFor q.next_id item) q.rows (new_row q.next_id item ∷ [])
          (inl (refl, same_item_refl item)))
]

-- After a push there is a row for the work, and whatever is called next, leases that expire and are
-- reclaimed included, it stays until the row itself is acknowledged.
pub push_stays :
    (q : WorkQueue) (item : WorkItem) (cs : List Call)
    → All (NotAckOf (id_of item q.next_id q.rows)) cs
    → Any (IsFor (id_of item q.next_id q.rows) item) (run (push q item) cs).rows
push_stays q item cs n =
    run-keeps (id_of item q.next_id q.rows) item (push q item) cs n (push-IsFor q item)

Any-has_item :
    (item : WorkItem) (id seq : ℕ) (rs : List Row)
    → Any (λ r. IsFor id item r × (r.lease_seq ≡ seq)) rs
    → has_item item rs ≡ true
unfolding has_item
Any-has_item item id seq [] h = elim h [ ]
Any-has_item item id seq (r ∷ rs) (inl h) = ground (arith, h)
Any-has_item item id seq (r ∷ rs) (inr h) = ground (arith, Any-has_item item id seq rs h)

others_differ :
    (item : WorkItem) (r x : Row)
    → same_item item r.item ≡ true
    → Apart r x
    → same_item item x.item ≡ false
others_differ item r x s a = ground (arith, a.other_item, same_item_trans item x.item r.item)

others_differ_before :
    (item : WorkItem) (r x : Row)
    → same_item item x.item ≡ true
    → Apart r x
    → same_item item r.item ≡ false
others_differ_before item r x s a = ground (arith, a.other_item, same_item_trans item x.item r.item)

delete_lease-last :
    (item : WorkItem) (id seq : ℕ) (rs : List Row)
    → Pairs Apart rs
    → Any (λ r. IsFor id item r × (r.lease_seq ≡ seq)) rs
    → All (λ r. same_item item r.item ≡ false) (delete_lease id seq rs)
unfolding delete_lease
delete_lease-last item id seq [] p h = elim h [ ]
delete_lease-last item id seq (r ∷ rs) p (inl ((e, s), l)) =
    elim (Bool-cases (r.id == id && r.lease_seq == seq)) [
      | inl gone ↦
          rw (gone, delete_lease)
            (delete_lease-All (λ x. same_item item x.item ≡ false) id seq rs
              (All-map rs (λ x a. others_differ item r x s a) p.0))
      | inr kept ↦ absurd (ground arith)
    ]
delete_lease-last item id seq (r ∷ rs) p (inr h) =
    let found =
      All-Any {R = λ _. (same_item item r.item ≡ false) × (r.id ≢ id)} rs
        (λ x a q. (others_differ_before item r x (q.0).1 a, omega (arith, a.older, q))) p.0 h in
    let (differs, other) = Any-elim rs (λ x q. q) found in
    elim (Bool-cases (r.id == id && r.lease_seq == seq)) [
      | inl gone ↦ absurd (ground arith)
      | inr kept ↦ rw (kept, delete_lease) (differs, delete_lease-last item id seq rs p.1 h)
    ]

-- A push for work that a worker holds under the lease `(id, seq)` is dropped: the rows stay as they
-- are, and once the worker acknowledges its lease no row for this work is left, so that raw records
-- which the push announced and which the worker did not see are not decoded.
pub push_in_flight_lost :
    (q : WorkQueue) (item : WorkItem) (id seq : ℕ)
    → IsValid q
    → Any (λ r. IsFor id item r × (r.lease_seq ≡ seq)) q.rows
    → ((push q item).rows ≡ q.rows)
      × All (λ r. same_item item r.item ≡ false) (ack (push q item) id seq).rows
unfolding push ack
push_in_flight_lost q item id seq v h =
    let has = Any-has_item item id seq q.rows h in
    let e : (push q item).rows ≡ q.rows = rw (has, push) refl in
    (
      e,
      subst (λ rs. All (λ r. same_item item r.item ≡ false) (delete_lease id seq rs)) (sym e)
          (delete_lease-last item id seq q.rows v.apart h),
    )
