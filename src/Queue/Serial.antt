-- ===== src/Queue/Serial.antt =====
-- The invariant of the table: ids grow along the rows, no item stands twice, and a chain has at most
-- one row in flight.
use topic.Base.{
  ℕ, suc, ◌<◌, ◌≡◌, inl, inr, false, ◌&&◌, List, [], ◌∷◌, arith, All, All-map, All-both, All-append,
  Bool-cases, ◌==◌, subst, sym,
}
use topic.Model.{WorkItem}
use topic.Queue.{
  Row, WorkQueue, Call, pushes, pulls, acks, reclaims, same_item, has_item, is_locked, in_flight,
  is_ready, leased, pull_any, push, delete_lease, ack, new_row, reclaim_row, reclaim_rows,
  reclaim_expired, step, run, empty,
}
use topic.Base.Pairs.{Pairs, Pairs-snoc, Pairs-replace, All-left, All-right}
use topic.Queue.Pulls.{Leases, pull_any_oldest}

-- An earlier row and a later one.
pub record Apart (a b : Row) : Type 0 where
  pub older : a.id < b.id
  pub other_item : same_item b.item a.item ≡ false
  pub serial : (is_locked a && is_locked b && a.item.chain_id == b.item.chain_id) ≡ false

pub record IsValid (q : WorkQueue) : Type 0 where
  pub apart : Pairs Apart q.rows
  pub fresh : All (λ r. r.id < q.next_id) q.rows

has_item-false :
    (item : WorkItem) (rs : List Row)
    → has_item item rs ≡ false
    → All (λ r. same_item item r.item ≡ false) rs
unfolding has_item same_item
has_item-false item [] h = tt
has_item-false item (r ∷ rs) h = (ground arith, has_item-false item rs (ground arith))

Apart-new :
    (r : Row) (id : ℕ) (item : WorkItem)
    → r.id < id
    → same_item item r.item ≡ false
    → Apart r (new_row id item)
unfolding is_locked
Apart-new r id item f n = record { older = f; other_item = n; serial = ground arith }

pub push-IsValid : (q : WorkQueue) (item : WorkItem) → IsValid q → IsValid (push q item)
unfolding push
push-IsValid q item v = elim (Bool-cases (has_item item q.rows)) [
  | inl old ↦
      rw (old, push)
        (record { apart = v.apart; fresh = All-map q.rows (λ r h. omega arith) v.fresh })
  | inr new ↦
      rw (new, push)
        (record {
          apart = Pairs-snoc Apart q.rows (new_row q.next_id item) v.apart (
              All-both q.rows (λ r. Apart-new r q.next_id item) v.fresh
                (has_item-false item q.rows new));
          fresh =
              All-append (λ r. r.id < suc q.next_id) q.rows (new_row q.next_id item ∷ [])
                (All-map q.rows (λ r h. omega arith) v.fresh) (omega arith);
        })
]

in_flight-false :
    (rs : List Row) (chain : ℕ)
    → in_flight rs chain ≡ false
    → All (λ r. (is_locked r && r.item.chain_id == chain) ≡ false) rs
unfolding in_flight
in_flight-false [] chain h = tt
in_flight-false (r ∷ rs) chain h = (ground arith, in_flight-false rs chain (ground arith))

-- Leasing a row whose chain has nothing in flight leaves the others where they were.
leased-Apart_left :
    (now : ℕ) (a r : Row)
    → (is_locked a && a.item.chain_id == r.item.chain_id) ≡ false
    → Apart a r
    → Apart a (leased now r)
unfolding leased is_locked
leased-Apart_left now a r free p = record {
  older = p.older;
  other_item = p.other_item;
  serial = ground arith;
}

leased-Apart_right :
    (now : ℕ) (r b : Row)
    → (is_locked b && b.item.chain_id == r.item.chain_id) ≡ false
    → Apart r b
    → Apart (leased now r) b
unfolding leased is_locked
leased-Apart_right now r b free p = record {
  older = p.older;
  other_item = p.other_item;
  serial = ground arith;
}

leased-IsValid :
    (q : WorkQueue) (now : ℕ) (rows : List Row) (l : Row)
    → IsValid q
    → Leases (is_ready q.rows) now q.rows rows l
    → IsValid (record q { rows = rows })
unfolding is_ready leased
leased-IsValid q now rows l v p =
    let chain = p.r.item.chain_id in
    let free =
      subst (All (λ r. (is_locked r && r.item.chain_id == chain) ≡ false)) p.before
        (in_flight-false q.rows chain (ground (arith, p.chosen))) in
    let fresh = subst (All (λ r. r.id < q.next_id)) p.before v.fresh in
    record {
      apart = subst (Pairs Apart) (sym p.after) (
          Pairs-replace Apart p.pre p.post p.r (leased now p.r)
            (All-map p.pre (λ a f. leased-Apart_left now a p.r f) (All-left _ p.pre _ free))
            (All-map p.post (λ b f. leased-Apart_right now p.r b f) (All-right _ p.pre _ free).1)
            (subst (Pairs Apart) p.before v.apart));
      fresh =
          subst (All (λ r. r.id < q.next_id)) (sym p.after)
            (All-append _ p.pre _ (All-left _ p.pre _ fresh) (All-right _ p.pre _ fresh));
    }

pub pull_any-IsValid : (q : WorkQueue) (now : ℕ) → IsValid q → IsValid (pull_any q now).0
pull_any-IsValid q now v = elim (pull_any_oldest q now) [
  | inl (_, same, _) ↦ subst IsValid (sym same) v
  | inr (l, _, leases, id) ↦
      let w = leased-IsValid q now (pull_any q now).0.rows l v leases in
      record {
        apart = w.apart;
        fresh = subst (λ n. All (λ r. r.id < n) (pull_any q now).0.rows) (sym id) w.fresh;
      }
]

pub delete_lease-All :
    (P : Row → Type 0) (id seq : ℕ) (rs : List Row) → All P rs → All P (delete_lease id seq rs)
unfolding delete_lease
delete_lease-All P id seq [] h = tt
delete_lease-All P id seq (r ∷ rs) h = ground (arith, delete_lease-All P id seq rs h.1)

delete_lease-Pairs :
    (id seq : ℕ) (rs : List Row) → Pairs Apart rs → Pairs Apart (delete_lease id seq rs)
unfolding delete_lease
delete_lease-Pairs id seq [] h = tt
delete_lease-Pairs id seq (r ∷ rs) h =
    ground (arith, delete_lease-All (Apart r) id seq rs h.0, delete_lease-Pairs id seq rs h.1)

pub ack-IsValid : (q : WorkQueue) (id seq : ℕ) → IsValid q → IsValid (ack q id seq)
unfolding ack
ack-IsValid q id seq v = record {
  apart = delete_lease-Pairs id seq q.rows v.apart;
  fresh = delete_lease-All _ id seq q.rows v.fresh;
}

-- A reclaim frees rows and changes neither an id nor an item.
reclaim_row-Apart :
    (now secs : ℕ) (a b : Row) → Apart a b → Apart (reclaim_row now secs a) (reclaim_row now secs b)
unfolding reclaim_row is_locked
reclaim_row-Apart now secs a b p = ground (arith, p.older, p.other_item, p.serial)

reclaim_rows-All :
    (P Q : Row → Type 0) (now secs : ℕ) (rs : List Row)
    → ((r : Row) → P r → Q (reclaim_row now secs r))
    → All P rs
    → All Q (reclaim_rows now secs rs)
unfolding reclaim_rows
reclaim_rows-All P Q now secs [] f h = tt
reclaim_rows-All P Q now secs (r ∷ rs) f h = (f r h.0, reclaim_rows-All P Q now secs rs f h.1)

reclaim_rows-Pairs :
    (now secs : ℕ) (rs : List Row) → Pairs Apart rs → Pairs Apart (reclaim_rows now secs rs)
unfolding reclaim_rows
reclaim_rows-Pairs now secs [] h = tt
reclaim_rows-Pairs now secs (r ∷ rs) h = (
  reclaim_rows-All (Apart r) (Apart (reclaim_row now secs r)) now secs rs
      (λ b p. reclaim_row-Apart now secs r b p) h.0,
  reclaim_rows-Pairs now secs rs h.1,
)

reclaim_row-id : (now secs : ℕ) (r : Row) → (reclaim_row now secs r).id ≡ r.id
unfolding reclaim_row
reclaim_row-id now secs r = ground arith

pub reclaim_expired-IsValid :
    (q : WorkQueue) (now secs : ℕ) → IsValid q → IsValid (reclaim_expired q now secs).0
unfolding reclaim_expired
reclaim_expired-IsValid q now secs v = record {
  apart = reclaim_rows-Pairs now secs q.rows v.apart;
  fresh =
      reclaim_rows-All (λ r. r.id < q.next_id) (λ r. r.id < q.next_id) now secs q.rows
        (λ r h. omega (arith, reclaim_row-id now secs r)) v.fresh;
}

step-IsValid : (q : WorkQueue) (c : Call) → IsValid q → IsValid (step q c)
unfolding step
step-IsValid q (pushes item) v = push-IsValid q item v
step-IsValid q (pulls now) v = pull_any-IsValid q now v
step-IsValid q (acks id seq) v = ack-IsValid q id seq v
step-IsValid q (reclaims now secs) v = reclaim_expired-IsValid q now secs v

pub empty-IsValid : IsValid empty
empty-IsValid = record { apart = tt; fresh = tt }

-- When the calls of the producers and workers take effect one after another, each of them whole and on
-- the rows that the last one left, then in whatever order they come, no item stands in the table twice,
-- ids grow along the rows, and at most one row of a chain is in flight. Pulls that overlap are excluded.
pub run-IsValid : (q : WorkQueue) (cs : List Call) → IsValid q → IsValid (run q cs)
unfolding run
run-IsValid q [] v = v
run-IsValid q (c ∷ cs) v = run-IsValid (step q c) cs (step-IsValid q c v)
