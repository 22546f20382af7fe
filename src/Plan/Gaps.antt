-- ===== src/Plan/Gaps.antt =====
-- The tracked prefix has no gap, whatever the order in which the ranges are committed.
use topic.Base.{
  ℕ, zero, suc, ◌+◌, ◌≤◌, ◌<◌, ◌≡◌, refl, ◌⊎◌, inl, inr, Option, none, some, List, [], ◌∷◌, arith,
  ltb, Bool-cases, All, Any, Any-map, All-map, All-Any, Any-elim, u64_max, sym, add64, ltb→lt, ◌==◌,
  Option-cases,
}
use topic.Base.Assoc
use topic.Plan.{
  PrefixTracker, Block, Arrival, new, better, extend, drain, insert_range, record_range, record_all,
}

-- Some committed range holds the block `h`.
abbrev pub Covered : List Arrival → ℕ → Type 0
Covered as' h = Any (λ a. (a.from ≤ h) × (h ≤ a.to)) as'

-- The range `[k, e]` with the block `b` was committed.
abbrev pub Came : List Arrival → ℕ → ℕ → Option Block → Type 0
Came as' k e b = Any (λ a. (a.from ≡ k) × (a.to ≡ e) × (a.last_block ≡ b)) as'

abbrev pub IsRange : Arrival → Type 0
IsRange a = (a.from ≤ a.to) × (a.to < u64_max)

-- What the tracker has seen of the committed ranges `as'`, from the block `start` on.
pub record IsPrefix (start : ℕ) (as' : List Arrival) (t : PrefixTracker) : Type 0 where
  pub reached : start ≤ t.frontier
  pub gapless : (h : ℕ) → start ≤ h → h < t.frontier → Covered as' h
  pub held : (k e : ℕ) (b : Option Block) → Assoc.lookup k t.waiting ≡ some (e, b) → Came as' k e b
  pub advanced :
      ((t.advanced_to ≡ none) × (t.frontier ≡ start))
      ⊎ ((n : ℕ) × (t.advanced_to ≡ some n) × (n + 1 ≡ t.frontier))
  pub stamped :
      (b : Block) → t.best ≡ some b → Any (λ a. (a.last_block ≡ some b) × (a.to < t.frontier)) as'

new-IsPrefix : (start : ℕ) (as' : List Arrival) → IsPrefix start as' (new start)
unfolding new Assoc.lookup
new-IsPrefix start as' = record {
  reached = omega arith;
  gapless = λ h p q. absurd (omega arith);
  held = λ k e b p. cc;
  advanced = inl (refl, refl);
  stamped = λ b p. cc;
}

insert-IsPrefix :
    (start : ℕ) (as' : List Arrival) (a : Arrival) (t : PrefixTracker)
    → Any (λ x. x ≡ a) as'
    → IsPrefix start as' t
    → IsPrefix start as' (insert_range t a.from a.to a.last_block)
unfolding insert_range
insert-IsPrefix start as' a t here v = record {
  reached = v.reached;
  gapless = v.gapless;
  held = λ k e b p. elim (Bool-cases (a.from == k)) [
    | inl same ↦
        Any-map as'
          (λ x q. ground (arith, q, Assoc.lookup-insert a.from k (a.to, a.last_block) t.waiting))
          here
    | inr other ↦
        v.held k e b (ground (arith, Assoc.lookup-insert a.from k (a.to, a.last_block) t.waiting))
  ];
  advanced = v.advanced;
  stamped = v.stamped;
}

better-cases :
    (best last_block : Option Block) (b : Block)
    → better best last_block ≡ some b
    → (best ≡ some b) ⊎ (last_block ≡ some b)
unfolding better
better-cases best none b h = inl h
better-cases none (some c) b h = inr h
better-cases (some c) (some d) b h = ground arith

-- The entry at the frontier is a committed range that begins there.
at_frontier :
    (as' : List Arrival) (k e : ℕ) (b : Option Block)
    → All IsRange as'
    → Came as' k e b
    → (k ≤ e) × (e < u64_max)
at_frontier as' k e b w came =
    Any-elim as' (λ a p. p)
      (All-Any {Q = λ a. (a.from ≡ k) × (a.to ≡ e) × (a.last_block ≡ b)} as'
        (λ a r q. omega (arith, r, q)) w came)

extend-IsPrefix :
    (start : ℕ) (as' : List Arrival) (e : ℕ) (b : Option Block) (t : PrefixTracker)
    → All IsRange as'
    → Assoc.lookup t.frontier t.waiting ≡ some (e, b)
    → IsPrefix start as' t
    → IsPrefix start as' (extend t (e, b))
unfolding extend
extend-IsPrefix start as' e b t w p v =
    let came = v.held t.frontier e b p in
    let (le, lt) = at_frontier as' t.frontier e b w came in
    let grown : add64 e 1 ≡ e + 1 = omega arith in
    record {
      reached = omega (arith, v.reached);
      gapless = λ h lo hi. elim (Bool-cases (ltb h t.frontier)) [
        | inl old ↦ v.gapless h lo (ltb→lt h t.frontier old)
        | inr fresh ↦ Any-map as' (λ a q. ground (arith, q)) came
      ];
      held =
          λ k f c q. v.held k f c (ground (arith, q, Assoc.lookup-without t.frontier k t.waiting));
      advanced = inr (e, refl, sym grown);
      stamped = λ c q. elim (better-cases t.best b c q) [
        | inl old ↦ Any-map as' (λ a r. (r.0, omega (arith, r))) (v.stamped c old)
        | inr fresh ↦ Any-map as' (λ a r. (ground (arith, r, fresh), omega (arith, r))) came
      ];
    }

drain-IsPrefix :
    (fuel start : ℕ) (as' : List Arrival) (t : PrefixTracker)
    → All IsRange as'
    → IsPrefix start as' t
    → IsPrefix start as' (drain fuel t)
unfolding drain
drain-IsPrefix zero start as' t w v = v
drain-IsPrefix (suc fuel) start as' t w v =
    elim (Option-cases (Assoc.lookup t.frontier t.waiting)) [
      | inl e ↦ rw (e, drain) v
      | inr ((e, b), p) ↦
          rw (p, drain)
            (drain-IsPrefix fuel start as' (extend t (e, b)) w
              (extend-IsPrefix start as' e b t w p v))
    ]

record_all-IsPrefix :
    (start : ℕ) (all as' : List Arrival) (t : PrefixTracker)
    → All IsRange all
    → All (λ a. Any (λ x. x ≡ a) all) as'
    → IsPrefix start all t
    → IsPrefix start all (record_all t as')
unfolding record_all record_range
record_all-IsPrefix start all [] t w m v = v
record_all-IsPrefix start all (a ∷ as') t w m v =
    record_all-IsPrefix start all as' _ w m.1
      (drain-IsPrefix _ start all _ w (insert-IsPrefix start all a t m.0 v))

All-self : (xs : List Arrival) → All (λ a. Any (λ x. x ≡ a) xs) xs
All-self [] = tt
All-self (x ∷ xs) = (inl refl, All-map xs (λ a h. inr h) (All-self xs))

pub run-IsPrefix :
    (start : ℕ) (arrivals : List Arrival)
    → All IsRange arrivals
    → IsPrefix start arrivals (record_all (new start) arrivals)
run-IsPrefix start arrivals w =
    record_all-IsPrefix start arrivals arrivals _ w (All-self arrivals)
      (new-IsPrefix start arrivals)

advanced-frontier :
    (start n : ℕ) (arrivals : List Arrival) (t : PrefixTracker)
    → IsPrefix start arrivals t
    → t.advanced_to ≡ some n
    → n + 1 ≡ t.frontier
advanced-frontier start n arrivals t v e = ground (arith, v.advanced)

-- After any ranges are committed, in any order and any number of times, each block from the start up
-- to the height that the cursor may advance to lies in one of the committed ranges.
pub record_all_gapless :
    (start : ℕ) (arrivals : List Arrival) (n h : ℕ)
    → All IsRange arrivals
    → (record_all (new start) arrivals).advanced_to ≡ some n
    → start ≤ h
    → h ≤ n
    → Covered arrivals h
record_all_gapless start arrivals n h w e lo hi =
    let v = run-IsPrefix start arrivals w in
    v.gapless h lo (omega (arith, advanced-frontier start n arrivals _ v e))

-- The block whose hash is stamped on the cursor was matched by a committed range that lies inside the
-- prefix, so that none is stamped from above the cursor.
pub record_all_stamped :
    (start : ℕ) (arrivals : List Arrival) (n : ℕ) (b : Block)
    → All IsRange arrivals
    → (record_all (new start) arrivals).advanced_to ≡ some n
    → (record_all (new start) arrivals).best ≡ some b
    → Any (λ a. (a.last_block ≡ some b) × (a.to ≤ n)) arrivals
record_all_stamped start arrivals n b w e s =
    let v = run-IsPrefix start arrivals w in
    let f = advanced-frontier start n arrivals _ v e in
    Any-map arrivals (λ a r. (r.0, omega (arith, r, f))) (v.stamped b s)
