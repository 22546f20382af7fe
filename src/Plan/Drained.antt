-- ===== src/Plan/Drained.antt =====
-- Once every planned range is committed, in whatever order, the prefix is the whole window.
use topic.Base.{
  ℕ, zero, suc, ◌+◌, ◌≤◌, ◌<◌, ◌≡◌, ◌≢◌, refl, ◌⊎◌, inl, inr, Option, none, some, List, [], ◌∷◌,
  arith, Bool-cases, All, Any, Any-map, All-map, All-Any, Any-elim, u64_max, length, Option-cases,
  add64, ◌==◌, subst, ap,
}
use topic.Base.Assoc
use topic.Plan.{
  PrefixTracker, Block, Arrival, new, extend, drain, insert_range, record_range, record_all,
}
use topic.Plan.Tiles.{Tiles}
use topic.Plan.Gaps.{IsRange, run-IsPrefix}

-- `f` is where one of the tiles begins, or where the last one ends.
abbrev pub Boundary : ℕ → List (ℕ × ℕ) → ℕ → Type 0
Boundary s [] f = f ≡ s
Boundary s ((lo, hi) ∷ rs) f = (f ≡ s) ⊎ Boundary (hi + 1) rs f

Boundary-here : (s : ℕ) (rs : List (ℕ × ℕ)) → Boundary s rs s
Boundary-here s [] = refl
Boundary-here s (r ∷ rs) = inl refl

Boundary-next : (s k e : ℕ) (rs : List (ℕ × ℕ)) → Any (λ r. r ≡ (k, e)) rs → Boundary s rs (e + 1)
Boundary-next s k e [] h = elim h [ ]
Boundary-next s k e ((lo, hi) ∷ rs) (inl h) =
    let h' : hi ≡ e = ap (λ (r : ℕ × ℕ). r.1) h in
    inr (subst (λ n. Boundary (hi + 1) rs (n + 1)) h' (Boundary-here (hi + 1) rs))
Boundary-next s k e ((lo, hi) ∷ rs) (inr h) = inr (Boundary-next (hi + 1) k e rs h)

-- The planned range of a commit.
abbrev pub IsPlanned : List (ℕ × ℕ) → Arrival → Type 0
IsPlanned plan a = Any (λ r. r ≡ (a.from, a.to)) plan

-- The plan does not reach the end of the range of `u64`.
abbrev Fits : List (ℕ × ℕ) → Type 0
Fits = All (λ r. (r.0 ≤ r.1) × (r.1 < u64_max))

-- The range that begins at `k` is inside the prefix, or waits for an earlier one.
abbrev Waits : PrefixTracker → ℕ → Type 0
Waits t k = (k < t.frontier) ⊎ (Assoc.lookup k t.waiting ≢ none)

record IsDraining (start : ℕ) (plan : List (ℕ × ℕ)) (t : PrefixTracker) : Type 0 where
  at_boundary : Boundary start plan t.frontier
  planned :
      (k e : ℕ) (b : Option Block)
      → Assoc.lookup k t.waiting ≡ some (e, b)
      → Any (λ r. r ≡ (k, e)) plan

insert-IsDraining :
    (start : ℕ) (plan : List (ℕ × ℕ)) (a : Arrival) (t : PrefixTracker)
    → IsPlanned plan a
    → IsDraining start plan t
    → IsDraining start plan (insert_range t a.from a.to a.last_block)
unfolding insert_range
insert-IsDraining start plan a t p v = record {
  at_boundary = v.at_boundary;
  planned = λ k e b q. elim (Bool-cases (a.from == k)) [
    | inl same ↦
        Any-map plan
          (λ r h. ground (arith, h, Assoc.lookup-insert a.from k (a.to, a.last_block) t.waiting)) p
    | inr other ↦
        v.planned k e b
          (ground (arith, Assoc.lookup-insert a.from k (a.to, a.last_block) t.waiting))
  ];
}

insert-Waits :
    (k : ℕ) (a : Arrival) (t : PrefixTracker)
    → (a.from ≡ k) ⊎ Waits t k
    → Waits (insert_range t a.from a.to a.last_block) k
unfolding insert_range
insert-Waits k a t h = ground (arith, Assoc.lookup-insert a.from k (a.to, a.last_block) t.waiting)

planned-Fits :
    (plan : List (ℕ × ℕ)) (k e : ℕ)
    → Fits plan
    → Any (λ r. r ≡ (k, e)) plan
    → (k ≤ e) × (e < u64_max)
planned-Fits plan k e w p =
    Any-elim plan (λ r q. q)
      (All-Any {Q = λ r. r ≡ (k, e)} plan (λ r f q. ground (arith, f, q)) w p)

extend-IsDraining :
    (start : ℕ) (plan : List (ℕ × ℕ)) (e : ℕ) (b : Option Block) (t : PrefixTracker)
    → Fits plan
    → Assoc.lookup t.frontier t.waiting ≡ some (e, b)
    → IsDraining start plan t
    → IsDraining start plan (extend t (e, b))
unfolding extend
extend-IsDraining start plan e b t w p v =
    let here = v.planned t.frontier e b p in
    let grown : e + 1 ≡ add64 e 1 = omega (arith, planned-Fits plan t.frontier e w here) in
    record {
      at_boundary = subst (Boundary start plan) grown (Boundary-next start t.frontier e plan here);
      planned = λ k f c q.
          v.planned k f c (ground (arith, q, Assoc.lookup-without t.frontier k t.waiting));
    }

extend-Waits :
    (k e : ℕ) (b : Option Block) (t : PrefixTracker)
    → t.frontier ≤ e
    → e < u64_max
    → Waits t k
    → Waits (extend t (e, b)) k
unfolding extend
extend-Waits k e b t le lt h = ground (arith, Assoc.lookup-without t.frontier k t.waiting)

-- With fuel for every waiting range the loop ends because none begins at the frontier.
record IsDrained (start : ℕ) (plan : List (ℕ × ℕ)) (t u : PrefixTracker) : Type 0 where
  draining : IsDraining start plan u
  idle : Assoc.lookup u.frontier u.waiting ≡ none
  keeps : (k : ℕ) → Waits t k → Waits u k

drain-IsDrained :
    (fuel start : ℕ) (plan : List (ℕ × ℕ)) (t : PrefixTracker)
    → Fits plan
    → length t.waiting < fuel
    → IsDraining start plan t
    → IsDrained start plan t (drain fuel t)
unfolding drain extend
drain-IsDrained zero start plan t w f v = absurd (omega arith)
drain-IsDrained (suc fuel) start plan t w f v =
    elim (Option-cases (Assoc.lookup t.frontier t.waiting)) [
      | inl e ↦ rw (e, drain) (record { draining = v; idle = e; keeps = λ k h. h })
      | inr ((e, b), p) ↦
          let (le, lt) = planned-Fits plan t.frontier e w (v.planned t.frontier e b p) in
          let smaller = Assoc.length-without_lt t.frontier (e, b) t.waiting p in
          let ih =
            drain-IsDrained fuel start plan (extend t (e, b)) w (omega (arith, smaller))
              (extend-IsDraining start plan e b t w p v) in
          rw (p, drain)
            (record {
              draining = ih.draining;
              idle = ih.idle;
              keeps = λ k h. ih.keeps k (extend-Waits k e b t le lt h);
            })
    ]

record_range-IsDrained :
    (start : ℕ) (plan : List (ℕ × ℕ)) (a : Arrival) (t : PrefixTracker)
    → Fits plan
    → IsPlanned plan a
    → IsDraining start plan t
    → IsDrained start plan
        (insert_range t a.from a.to a.last_block)
        (record_range t a.from a.to a.last_block)
unfolding record_range
record_range-IsDrained start plan a t w p v =
    drain-IsDrained _ start plan _ w (omega arith) (insert-IsDraining start plan a t p v)

-- The state between two commits.
record IsSettled (start : ℕ) (plan : List (ℕ × ℕ)) (t : PrefixTracker) : Type 0 where
  draining : IsDraining start plan t
  idle : Assoc.lookup t.frontier t.waiting ≡ none

record_all-IsSettled :
    (start : ℕ) (plan : List (ℕ × ℕ)) (arrivals : List Arrival) (t : PrefixTracker)
    → Fits plan
    → All (IsPlanned plan) arrivals
    → IsSettled start plan t
    → IsSettled start plan (record_all t arrivals)
unfolding record_all
record_all-IsSettled start plan [] t w p v = v
record_all-IsSettled start plan (a ∷ arrivals) t w p v =
    let d = record_range-IsDrained start plan a t w p.0 v.draining in
    record_all-IsSettled start plan arrivals _ w p.1
      (record { draining = d.draining; idle = d.idle })

record_all-Waits :
    (start k : ℕ) (plan : List (ℕ × ℕ)) (arrivals : List Arrival) (t : PrefixTracker)
    → Fits plan
    → All (IsPlanned plan) arrivals
    → IsSettled start plan t
    → Any (λ a. a.from ≡ k) arrivals ⊎ Waits t k
    → Waits (record_all t arrivals) k
unfolding record_all
record_all-Waits start k plan [] t w p v (inl h) = elim h [ ]
record_all-Waits start k plan [] t w p v (inr h) = h
record_all-Waits start k plan (a ∷ arrivals) t w p v h =
    let d = record_range-IsDrained start plan a t w p.0 v.draining in
    record_all-Waits start k plan arrivals _ w p.1 (record { draining = d.draining; idle = d.idle })
      (later h)
  where
    later :
        Any (λ x. x.from ≡ k) (a ∷ arrivals) ⊎ Waits t k
        → Any (λ x. x.from ≡ k) arrivals ⊎ Waits (record_range t a.from a.to a.last_block) k
    later (inl (inl e)) = inr (
        (record_range-IsDrained start plan a t w p.0 v.draining).keeps k
          (insert-Waits k a t (inl e)))
    later (inl (inr e)) = inl e
    later (inr e) = inr (
        (record_range-IsDrained start plan a t w p.0 v.draining).keeps k
          (insert-Waits k a t (inr e)))

-- At a boundary where nothing waits, with every tile seen, the last tile is behind.
end_of_Tiles :
    (step target s : ℕ) (rs : List (ℕ × ℕ)) (t : PrefixTracker)
    → Tiles step target s rs
    → s ≤ target + 1
    → Boundary s rs t.frontier
    → Assoc.lookup t.frontier t.waiting ≡ none
    → All (λ r. Waits t r.0) rs
    → t.frontier ≡ target + 1
end_of_Tiles step target s [] t tiles le at idle w = omega arith
end_of_Tiles step target s ((lo, hi) ∷ rs) t tiles le (inl at) idle w = ground arith
end_of_Tiles step target s ((lo, hi) ∷ rs) t (e, a, b, c, d, tiles) le (inr at) idle w =
    end_of_Tiles step target (hi + 1) rs t tiles (omega arith) at idle w.1

Tiles-Fits :
    (step target s : ℕ) (rs : List (ℕ × ℕ)) → target < u64_max → Tiles step target s rs → Fits rs
Tiles-Fits step target s [] b h = tt
Tiles-Fits step target s ((lo, hi) ∷ rs) b (e, h0, h1, c, d, tiles) =
    ((h0, omega arith), Tiles-Fits step target (hi + 1) rs b tiles)

new-IsSettled : (start : ℕ) (plan : List (ℕ × ℕ)) → IsSettled start plan (new start)
unfolding new Assoc.lookup
new-IsSettled start plan = record {
  draining = record { at_boundary = Boundary-here start plan; planned = λ k e b p. cc };
  idle = refl;
}

planned-IsRange :
    (plan : List (ℕ × ℕ)) (arrivals : List Arrival)
    → Fits plan
    → All (IsPlanned plan) arrivals
    → All IsRange arrivals
planned-IsRange plan arrivals w p = All-map arrivals (λ a h. planned-Fits plan a.from a.to w h) p

-- When each range of a plan for the window `[start..=target]` was committed at least once, in any
-- order, and no other range was, the height that the cursor may advance to is `target`.
pub record_all_complete :
    (step start target : ℕ) (plan : List (ℕ × ℕ)) (arrivals : List Arrival)
    → Tiles step target start plan
    → start ≤ target
    → target < u64_max
    → All (IsPlanned plan) arrivals
    → All (λ r. Any (λ a. a.from ≡ r.0) arrivals) plan
    → (record_all (new start) arrivals).advanced_to ≡ some target
record_all_complete step start target plan arrivals tiles le b p seen =
    let t = record_all (new start) arrivals in
    let w = Tiles-Fits step target start plan b tiles in
    let settled = record_all-IsSettled start plan arrivals _ w p (new-IsSettled start plan) in
    let waits =
      All-map {P = λ r. Any (λ a. a.from ≡ r.0) arrivals} {Q = λ r. Waits t r.0} plan
        (λ r h. record_all-Waits start r.0 plan arrivals _ w p (new-IsSettled start plan) (inl h))
        seen in
    let f =
      end_of_Tiles step target start plan t tiles (omega arith) settled.draining.at_boundary
        settled.idle waits in
    ground (arith, f, (run-IsPrefix start arrivals (planned-IsRange plan arrivals w p)).advanced)
