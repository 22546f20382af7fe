-- ===== src/Source/Limiter.antt =====
-- crates/source/src/limiter.rs: the compute units of a call, drawn in bursts that the bucket accepts.
-- The buckets belong to a third-party crate; a burst is the number of permits asked for at once.
use mathlib.Core.Option
use topic.Base.{
  ℕ, zero, suc, ◌+◌, ◌-◌, ◌≤◌, ◌<◌, ◌≡◌, refl, ap, ◌∙◌, inl, inr, min, max, Option, none, some,
  List, [], ◌∷◌, arith, ◌==◌, if◌then◌else◌, All, Bool-cases, Option-cases,
}
use topic.Model.{PlanProfile}

-- The capacity of the bucket for compute units, if the plan has one: `NonZeroU32::new` refuses zero.
unfoldable pub capacity : PlanProfile → Option ℕ
capacity plan = elim plan.max_cu_per_sec [ none ↦ none | some n ↦ if n == 0 then none else some n ]

-- The loop of `acquire_cu`: the bursts, or `none` where the fuel runs out.
unfoldable pub bursts : ℕ → ℕ → ℕ → Option (List ℕ)
bursts zero cap remaining = none
bursts (suc fuel) cap remaining =
    let take = min remaining cap in
    let rest = bursts fuel cap (remaining - take) in
    if remaining == 0 then some [] else Option.map (λ ts. take ∷ ts) rest

unfoldable pub acquire_cu : PlanProfile → ℕ → Option (List ℕ)
unfolding capacity bursts
acquire_cu plan units = elim (capacity plan) [
  | none ↦ some []
  | some cap ↦ bursts (suc (max units 1)) cap (max units 1)
]

abbrev pub sum : List ℕ → ℕ
sum [] = 0
sum (n ∷ ns) = n + sum ns

-- Each burst fits the bucket, and all of them are the units.
abbrev pub AreDrawn : Option ℕ → ℕ → List ℕ → Type 0
AreDrawn none units ts = ts ≡ []
AreDrawn (some cap) units ts = All (λ t. (1 ≤ t) × (t ≤ cap)) ts × (sum ts ≡ units)

bursts-AreDrawn :
    (fuel cap remaining : ℕ)
    → 1 ≤ cap
    → remaining < fuel
    → (ts : List ℕ) × (bursts fuel cap remaining ≡ some ts) × AreDrawn (some cap) remaining ts
unfolding bursts
bursts-AreDrawn zero cap remaining p f = absurd (omega arith)
bursts-AreDrawn (suc fuel) cap remaining p f = elim (Bool-cases (remaining == 0)) [
  | inl e ↦ rw (e, bursts) ([], refl, (tt, ground arith))
  | inr e ↦
      let take = min remaining cap in
      let (ts, eq, (fits, total)) = bursts-AreDrawn fuel cap (remaining - take) p (ground arith) in
      rw (e, bursts, eq)
        (
          take ∷ ts,
          refl,
          (((ground arith, omega arith), fits), ap (λ n. take + n) total ∙ omega arith),
        )
]

capacity-pos : (plan : PlanProfile) (cap : ℕ) → capacity plan ≡ some cap → 1 ≤ cap
unfolding capacity
capacity-pos plan cap h = ground arith

-- For every plan the drawing of a call's compute units ends: without a bucket nothing is asked for, and
-- with one each burst is positive and fits the bucket, and the bursts sum up to the units, of which
-- there is at least one.
pub acquire_cu-AreDrawn :
    (plan : PlanProfile) (units : ℕ)
    → (ts : List ℕ) × (acquire_cu plan units ≡ some ts) × AreDrawn (capacity plan) (max units 1) ts
unfolding acquire_cu
acquire_cu-AreDrawn plan units = elim (Option-cases (capacity plan)) [
  | inl e ↦ rw (e, acquire_cu) ([], refl, refl)
  | inr (cap, e) ↦
      let b =
        bursts-AreDrawn (suc (max units 1)) cap (max units 1) (capacity-pos plan cap e)
          (omega arith) in
      rw (e, acquire_cu) b
]
