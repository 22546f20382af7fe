-- ===== src/Queue.antt =====
-- crates/db/src/repositories/queue_repo.rs over the table `work_queue` of
-- crates/db/src/base_schema.rs. A statement is one step on the rows; `now()` is an argument, in
-- seconds. The rows stand in the order of their `bigserial` ids, which is the order `pull_any` sorts by.
pub mod Pulls
pub mod Serial
pub mod Fencing
pub mod Loss
pub mod Overlap
use mathlib.Core.Option
use topic.Base.{
  ℕ, suc, ◌+◌, Bool, true, false, not, ◌&&◌, ◌||◌, Option, none, some, List, [], ◌∷◌, ◌++◌, ltb,
  ◌==◌, if◌then◌else◌, length,
}
use topic.Model.{WorkItem, Lease, ChainId, kind_eq}

pub record Row : Type 0 where
  pub id : ℕ
  pub item : WorkItem
  pub locked_at : Option ℕ
  pub lease_seq : ℕ

pub record WorkQueue : Type 0 where
  pub rows : List Row
  pub next_id : ℕ

abbrev pub empty : WorkQueue
empty = record { rows = []; next_id = 1 }

-- The columns of the unique index `work_queue_item_uniq`.
unfoldable pub same_item : WorkItem → WorkItem → Bool
unfolding kind_eq
same_item a b =
    a.chain_id == b.chain_id && (a.from == b.from && (a.to == b.to && kind_eq a.kind b.kind))

unfoldable pub has_item : WorkItem → List Row → Bool
unfolding same_item
has_item item [] = false
has_item item (r ∷ rs) = same_item item r.item || has_item item rs

-- `locked_at IS NOT NULL`
unfoldable pub is_locked : Row → Bool
is_locked r = elim r.locked_at [ none ↦ false | some t ↦ true ]

abbrev pub new_row : ℕ → WorkItem → Row
new_row id item = record { id = id; item = item; locked_at = none; lease_seq = 0 }

-- `push_in_tx`: a conflict does nothing, but has drawn an id from the sequence.
unfoldable pub push : WorkQueue → WorkItem → WorkQueue
unfolding has_item
push q item =
    if has_item item q.rows
    then record q { next_id = suc q.next_id }
    else record { rows = q.rows ++ new_row q.next_id item ∷ []; next_id = suc q.next_id }

-- `chain_id IN (SELECT chain_id FROM work_queue WHERE locked_at IS NOT NULL)`
unfoldable pub in_flight : List Row → ChainId → Bool
unfolding is_locked
in_flight [] chain = false
in_flight (r ∷ rs) chain = is_locked r && r.item.chain_id == chain || in_flight rs chain

-- The `WHERE` clause of the inner `SELECT` of `pull_any`, over the whole table `all`.
unfoldable pub is_ready : List Row → Row → Bool
unfolding is_locked in_flight
is_ready all r = not (is_locked r) && not (in_flight all r.item.chain_id)

unfoldable pub leased : ℕ → Row → Row
leased now r = record r { locked_at = some now; lease_seq = suc r.lease_seq }

-- The first row that is ready, in the order of the ids, with the table that has it leased.
unfoldable pub lease_first : (Row → Bool) → ℕ → List Row → Option (Row × List Row)
unfolding leased
lease_first ready now [] = none
lease_first ready now (r ∷ rs) =
    if ready r
    then some (leased now r, leased now r ∷ rs)
    else Option.map (λ p. (p.0, r ∷ p.1)) (lease_first ready now rs)

unfoldable pub lease_of : Row → Lease
lease_of r = record { id = r.id; lease_seq = r.lease_seq; item = r.item }

unfoldable pub pull_any : WorkQueue → ℕ → WorkQueue × Option Lease
unfolding lease_first is_ready lease_of
pull_any q now = elim (lease_first (is_ready q.rows) now q.rows) [
  | none ↦ (q, none)
  | some (r, rows) ↦ (record q { rows = rows }, some (lease_of r))
]

-- Whether the row is one of `seen`, and free there.
unfoldable pub saw_free : List Row → Row → Bool
unfolding is_locked
saw_free [] r = false
saw_free (s ∷ seen) r = s.id == r.id && not (is_locked s) || saw_free seen r

-- The `WHERE` clause under READ COMMITTED, where other statements took effect since this one saw the
-- rows `seen`: the row must still be free, and the sub-select of the chains is not run again.
unfoldable pub is_ready_seen : List Row → Row → Bool
unfolding is_locked in_flight saw_free
is_ready_seen seen r =
    not (is_locked r) && (saw_free seen r && not (in_flight seen r.item.chain_id))

-- `pull_any` that saw the rows `seen`, and takes effect on `q`.
unfoldable pub pull_seen : List Row → WorkQueue → ℕ → WorkQueue × Option Lease
unfolding lease_first is_ready_seen lease_of
pull_seen seen q now = elim (lease_first (is_ready_seen seen) now q.rows) [
  | none ↦ (q, none)
  | some (r, rows) ↦ (record q { rows = rows }, some (lease_of r))
]

-- `DELETE FROM work_queue WHERE id = $1 AND lease_seq = $2`
unfoldable pub delete_lease : ℕ → ℕ → List Row → List Row
delete_lease id seq [] = []
delete_lease id seq (r ∷ rs) =
    let rest = delete_lease id seq rs in if r.id == id && r.lease_seq == seq then rest else r ∷ rest

unfoldable pub ack : WorkQueue → ℕ → ℕ → WorkQueue
unfolding delete_lease
ack q id seq = record q { rows = delete_lease id seq q.rows }

-- `locked_at IS NOT NULL AND locked_at < now() - make_interval(secs => $1)`
unfoldable pub is_expired : ℕ → ℕ → Row → Bool
is_expired now older_than_secs r = elim r.locked_at [
  | none ↦ false
  | some t ↦ ltb (t + older_than_secs) now
]

unfoldable pub reclaim_row : ℕ → ℕ → Row → Row
unfolding is_expired
reclaim_row now older_than_secs r =
    if is_expired now older_than_secs r
    then record r { locked_at = none; lease_seq = suc r.lease_seq }
    else r

unfoldable pub reclaim_rows : ℕ → ℕ → List Row → List Row
unfolding reclaim_row
reclaim_rows now older_than_secs [] = []
reclaim_rows now older_than_secs (r ∷ rs) =
    reclaim_row now older_than_secs r ∷ reclaim_rows now older_than_secs rs

unfoldable pub count_expired : ℕ → ℕ → List Row → ℕ
unfolding is_expired
count_expired now older_than_secs [] = 0
count_expired now older_than_secs (r ∷ rs) =
    (if is_expired now older_than_secs r then 1 else 0) + count_expired now older_than_secs rs

unfoldable pub reclaim_expired : WorkQueue → ℕ → ℕ → WorkQueue × ℕ
unfolding reclaim_rows count_expired
reclaim_expired q now older_than_secs = (
  record q { rows = reclaim_rows now older_than_secs q.rows },
  count_expired now older_than_secs q.rows,
)

unfoldable pub depth : WorkQueue → ℕ
depth q = length q.rows

-- What the producers and the workers call, in the order in which the statements take effect.
pub data Call : Type 0 where
  pushes : WorkItem → Call
  pulls : ℕ → Call
  acks : ℕ → ℕ → Call
  reclaims : ℕ → ℕ → Call

unfoldable pub step : WorkQueue → Call → WorkQueue
step q (pushes item) = push q item
step q (pulls now) = (pull_any q now).0
step q (acks id seq) = ack q id seq
step q (reclaims now secs) = (reclaim_expired q now secs).0

unfoldable pub run : WorkQueue → List Call → WorkQueue
unfolding step
run q [] = q
run q (c ∷ cs) = run (step q c) cs
