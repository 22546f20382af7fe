-- ===== src/Tests/Queues.antt =====
-- crates/db/src/repositories/queue_repo.rs: two ranges of one chain, of which the first is leased.
use topic.Base.{
  ℕ, ◌+◌, ◌≡◌, refl, inl, ◌⊎◌, true, false, none, some, List, [], ◌∷◌, All, Any, arith,
}
use topic.Model.{WorkItem, backfill}
use topic.Queue.{
  Row, WorkQueue, Call, pushes, pulls, acks, empty, push, pull_any, run, ack, is_expired,
  reclaim_expired, is_ready, lease_of, same_item, is_locked, leased, pull_seen, in_flight,
}
use topic.Queue.Serial.{IsValid, empty-IsValid, run-IsValid}
use topic.Queue.Overlap.{BothLeased, pull_seen-BothLeased}
use topic.Queue.Pulls.{Leases, pull_any_oldest}
use topic.Queue.Fencing.{reclaimed_ack}
use topic.Queue.Loss.{IsFor, NotAckOf, id_of, push_stays, push_in_flight_lost}

abbrev blocks : ℕ → ℕ → WorkItem
blocks from to = record { chain_id = 1; from = from; to = to; kind = backfill; epoch = 0 }

abbrev calls : List Call
calls = pushes (blocks 1 10) ∷ pushes (blocks 11 20) ∷ pulls 100 ∷ []

abbrev two : WorkQueue
two = record {
  rows =
      record { id = 1; item = blocks 1 10; locked_at = some 100; lease_seq = 1 }
      ∷ record { id = 2; item = blocks 11 20; locked_at = none; lease_seq = 0 }
      ∷ [];
  next_id = 3;
}

two-run : run empty calls ≡ two
unfolding run pull_any push
two-run = refl

run-IsValid_example : IsValid (run empty calls)
run-IsValid_example = run-IsValid empty calls empty-IsValid

two-IsValid : IsValid two
unfolding same_item is_locked
two-IsValid = record {
  apart = ((record { older = omega arith; other_item = refl; serial = refl }, tt), (tt, tt));
  fresh = (omega arith, (omega arith, tt));
}

-- Both rows are free.
abbrev free_rows : WorkQueue
free_rows = record {
  rows =
      record { id = 1; item = blocks 1 10; locked_at = none; lease_seq = 0 }
      ∷ record { id = 2; item = blocks 11 20; locked_at = none; lease_seq = 0 }
      ∷ [];
  next_id = 3;
}

abbrev row_at : ℕ → ℕ → Row
row_at id from = record { id = id; item = blocks from (from + 9); locked_at = none; lease_seq = 0 }

pull_seen-BothLeased_example :
    let first = pull_any free_rows 100 in
    let second = pull_seen free_rows.rows first.0 101 in
    (first.1 ≡ some (lease_of (leased 100 (row_at 1 1))))
    × (second.1 ≡ some (lease_of (leased 101 (row_at 2 11))))
    × BothLeased (row_at 1 1) (row_at 2 11) [] 100 101 second.0
pull_seen-BothLeased_example =
    pull_seen-BothLeased free_rows (row_at 1 1) (row_at 2 11) [] 100 101 refl
      (unfold is_locked in refl) (unfold is_locked in refl) refl (unfold in_flight in refl)

pull_any_oldest_example :
    (((pull_any two 100).1 ≡ none)
      × ((pull_any two 100).0 ≡ two)
      × All (λ x. is_ready two.rows x ≡ false) two.rows)
    ⊎ ((l : Row) × ((pull_any two 100).1 ≡ some (lease_of l))
        × Leases (is_ready two.rows) 100 two.rows (pull_any two 100).0.rows l
        × ((pull_any two 100).0.next_id ≡ two.next_id))
pull_any_oldest_example = pull_any_oldest two 100

two-expired : Any (λ r. (r.id ≡ 1) × (r.lease_seq ≡ 1) × (is_expired 200 60 r ≡ true)) two.rows
unfolding is_expired
two-expired = inl (refl, refl, refl)

reclaimed_ack_example :
    let later = run (reclaim_expired two 200 60).0 (pulls 201 ∷ []) in ack later 1 1 ≡ later
reclaimed_ack_example = reclaimed_ack two 1 1 200 60 (pulls 201 ∷ []) two-IsValid two-expired

push_stays_calls :
    All (NotAckOf (id_of (blocks 21 30) two.next_id two.rows)) (acks 1 1 ∷ pulls 300 ∷ [])
unfolding id_of
push_stays_calls = (λ e. absurd (omega arith), (tt, tt))

push_stays_example :
    Any
      (IsFor (id_of (blocks 21 30) two.next_id two.rows) (blocks 21 30))
      (run (push two (blocks 21 30)) (acks 1 1 ∷ pulls 300 ∷ [])).rows
push_stays_example = push_stays two (blocks 21 30) (acks 1 1 ∷ pulls 300 ∷ []) push_stays_calls

push_in_flight_lost_held : Any (λ r. IsFor 1 (blocks 1 10) r × (r.lease_seq ≡ 1)) two.rows
unfolding same_item
push_in_flight_lost_held = inl ((refl, refl), refl)

push_in_flight_lost_example :
    ((push two (blocks 1 10)).rows ≡ two.rows)
    × All (λ r. same_item (blocks 1 10) r.item ≡ false) (ack (push two (blocks 1 10)) 1 1).rows
push_in_flight_lost_example =
    push_in_flight_lost two (blocks 1 10) 1 1 two-IsValid push_in_flight_lost_held
