-- ===== src/Queue/Pulls.antt =====
-- Which row `pull_any` leases.
use topic.Base.{
  ℕ, ◌≡◌, refl, ◌⊎◌, inl, inr, Bool, true, false, none, some, List, [], ◌∷◌, ◌++◌, arith, All,
  Bool-cases, Option-cases, ap,
}
use topic.Queue.{Row, WorkQueue, is_ready, leased, lease_first, lease_of, pull_any}

-- `rows'` is `rows` with `r` leased, where `r` is the first row that is ready.
pub record Leases (ready : Row → Bool) (now : ℕ) (rows rows' : List Row) (l : Row) : Type 0 where
  pub pre : List Row
  pub r : Row
  pub post : List Row
  pub before : rows ≡ pre ++ r ∷ post
  pub after : rows' ≡ pre ++ leased now r ∷ post
  pub lease : l ≡ leased now r
  pub chosen : ready r ≡ true
  pub oldest : All (λ x. ready x ≡ false) pre

pub lease_first-Leases :
    (ready : Row → Bool) (now : ℕ) (rows rows' : List Row) (l : Row)
    → lease_first ready now rows ≡ some (l, rows')
    → Leases ready now rows rows' l
unfolding lease_first leased
lease_first-Leases ready now [] rows' l e = absurd (ground arith)
lease_first-Leases ready now (r ∷ rs) rows' l e = elim (Bool-cases (ready r)) [
  | inl here ↦ record {
    pre = [];
    r = r;
    post = rs;
    before = refl;
    after = ground arith;
    lease = ground arith;
    chosen = here;
    oldest = tt;
  }
  | inr later ↦ elim (Option-cases (lease_first ready now rs)) [
    | inl stop ↦ absurd (ground arith)
    | inr ((l', rs'), go) ↦
        let ih = lease_first-Leases ready now rs rs' l (ground arith) in
        record {
          pre = r ∷ ih.pre;
          r = ih.r;
          post = ih.post;
          before = ap (◌∷◌ r) ih.before;
          after = ground (arith, ih.after);
          lease = ih.lease;
          chosen = ih.chosen;
          oldest = (later, ih.oldest);
        }
  ]
]

pub lease_first-none :
    (ready : Row → Bool) (now : ℕ) (rows : List Row)
    → lease_first ready now rows ≡ none
    → All (λ x. ready x ≡ false) rows
unfolding lease_first
lease_first-none ready now [] e = tt
lease_first-none ready now (r ∷ rs) e = (ground arith, lease_first-none ready now rs (ground arith))

-- `pull_any` leases the oldest row that is free and whose chain has no row in flight, changes no other
-- row, and returns the lease with the new sequence number; it returns no lease exactly if no row is
-- of that kind, and then the table is as before.
pub pull_any_oldest :
    (q : WorkQueue) (now : ℕ)
    → (((pull_any q now).1 ≡ none)
        × ((pull_any q now).0 ≡ q)
        × All (λ x. is_ready q.rows x ≡ false) q.rows)
      ⊎ ((l : Row) × ((pull_any q now).1 ≡ some (lease_of l))
          × Leases (is_ready q.rows) now q.rows (pull_any q now).0.rows l
          × ((pull_any q now).0.next_id ≡ q.next_id))
unfolding pull_any
pull_any_oldest q now = elim (Option-cases (lease_first (is_ready q.rows) now q.rows)) [
  | inl e ↦ inl (ground arith, ground arith, lease_first-none (is_ready q.rows) now q.rows e)
  | inr ((l, rows), e) ↦ inr (
    l,
    ground arith,
    lease_first-Leases (is_ready q.rows) now q.rows (pull_any q now).0.rows l (ground arith),
    ground arith,
  )
]
