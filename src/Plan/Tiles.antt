-- ===== src/Plan/Tiles.antt =====
-- The planned ranges are a partition of the window, and few enough for one pipeline.
use topic.Base.{
  ℕ, zero, suc, ◌+◌, ◌-◌, ◌*◌, ◌≤◌, ◌<◌, min, ◌≡◌, refl, ◌⊎◌, inl, inr, true, some, List, [], ◌∷◌,
  arith, leb, leb→le, subst, Bool-cases, length, add64, u64_mod,
}
use topic.Plan.{plan_loop, plan_ranges, chunk_end, fetch_target}

-- `rs` cuts the blocks `s`, …, `t` into consecutive ranges of at most `step` blocks, of which only
-- the last may be shorter.
abbrev pub Tiles : ℕ → ℕ → ℕ → List (ℕ × ℕ) → Type 0
Tiles step t s [] = t < s
Tiles step t s ((lo, hi) ∷ rs) =
    (lo ≡ s)
    × (lo ≤ hi)
    × (hi ≤ t)
    × (hi < lo + step)
    × ((hi ≡ t) ⊎ (hi + 1 ≡ lo + step))
    × Tiles step t (hi + 1) rs

chunk_end-eq :
    (target step s : ℕ)
    → 1 ≤ step
    → s ≤ target
    → target + step < u64_mod
    → (s ≤ chunk_end target step s)
      × (chunk_end target step s ≤ target)
      × (chunk_end target step s < s + step)
      × ((chunk_end target step s ≡ target) ⊎ (chunk_end target step s + 1 ≡ s + step))
      × (add64 (chunk_end target step s) 1 ≡ chunk_end target step s + 1)
unfolding chunk_end
chunk_end-eq target step s h k b = omega arith

-- The body of the loop, once the rest of the window is planned.
plan_loop_step :
    (fuel target step s : ℕ) {rs : List (ℕ × ℕ)}
    → 1 ≤ step
    → s ≤ target
    → target + step < u64_mod
    → plan_loop fuel target step (add64 (chunk_end target step s) 1) ≡ some rs
    → Tiles step target (add64 (chunk_end target step s) 1) rs
    → (plan_loop (suc fuel) target step s ≡ some ((s, chunk_end target step s) ∷ rs))
      × Tiles step target s ((s, chunk_end target step s) ∷ rs)
unfolding plan_loop
plan_loop_step fuel target step s {rs} h k b e tiles =
    let (c0, c1, c2, c3, c4) = chunk_end-eq target step s h k b in
    (ground arith, (refl, c0, c1, c2, c3, subst (λ n. Tiles step target n rs) c4 tiles))

plan_loop-Tiles :
    (fuel target step s : ℕ)
    → 1 ≤ step
    → target + step < u64_mod
    → target + 1 - s < fuel
    → (rs : List (ℕ × ℕ)) × (plan_loop fuel target step s ≡ some rs) × Tiles step target s rs
plan_loop-Tiles zero target step s h b f = absurd (omega arith)
plan_loop-Tiles (suc fuel) target step s h b f = elim (Bool-cases (leb s target)) [
  | inl more ↦
      let k : s ≤ target = leb→le s target more in
      let next = add64 (chunk_end target step s) 1 in
      let (rs, e, tiles) =
        plan_loop-Tiles fuel target step next h b
          (omega (arith, chunk_end-eq target step s h k b)) in
      let (planned, tiled) = plan_loop_step fuel target step s h k b e tiles in
      ((s, chunk_end target step s) ∷ rs, planned, tiled)
  | inr done ↦ ([], unfold plan_loop in rw done, ground arith)
]

-- For a window that does not touch the end of the range of `u64`, the planning loop ends, and cuts
-- the window `[next..=target]` into consecutive ranges without gap or overlap, each of at most
-- `step` blocks and only the last shorter.
pub plan_ranges-Tiles :
    (next target step : ℕ)
    → 1 ≤ step
    → target + step < u64_mod
    → (rs : List (ℕ × ℕ)) × (plan_ranges next target step ≡ some rs) × Tiles step target next rs
unfolding plan_ranges
plan_ranges-Tiles next target step h b =
    plan_loop-Tiles (suc (target + 1 - next)) target step next h b (omega arith)

-- The tiles of a window of `n` steps are at most `n`.
length-Tiles :
    (n step t s : ℕ) (rs : List (ℕ × ℕ)) → t < s + step * n → Tiles step t s rs → length rs ≤ n
length-Tiles n step t s [] b h = omega arith
length-Tiles zero step t s ((lo, hi) ∷ rs) b h = absurd (omega arith)
length-Tiles (suc n) step t s ((lo, hi) ∷ []) b h = omega arith
length-Tiles (suc n) step t s ((lo, hi) ∷ r ∷ rs) b (h0, h1, h2, h3, inl full, h5) =
    absurd (omega arith)
length-Tiles (suc n) step t s ((lo, hi) ∷ r ∷ rs) b (h0, h1, h2, h3, inr full, h5) =
    let ih = length-Tiles n step t (hi + 1) (r ∷ rs) (grind arith) h5 in omega arith

mul-pos : (a b : ℕ) → 1 ≤ a → 1 ≤ b → 1 ≤ a * b
mul-pos a b h k = grind arith

fetch_target-eq :
    (safe next step range_concurrency : ℕ)
    → 1 ≤ step
    → 1 ≤ range_concurrency
    → next + step * range_concurrency < u64_mod
    → fetch_target safe next step range_concurrency true
      ≡ min safe (next + step * range_concurrency - 1)
unfolding fetch_target
fetch_target-eq safe next step rc h c p = omega (arith, mul-pos step rc h c)

-- A fetch iteration stays within the safe tip, makes progress, and plans at most
-- `range_concurrency` ranges, which partition the blocks up to its target.
pub fetch_target-Tiles :
    (safe next step range_concurrency : ℕ)
    → 1 ≤ step
    → 1 ≤ range_concurrency
    → next ≤ safe
    → safe + step < u64_mod
    → next + step * range_concurrency < u64_mod
    → let target = fetch_target safe next step range_concurrency true in
      (next ≤ target)
      × (target ≤ safe)
      × ((rs : List (ℕ × ℕ)) × (plan_ranges next target step ≡ some rs)
          × Tiles step target next rs
          × (length rs ≤ range_concurrency))
fetch_target-Tiles safe next step rc h c k b p =
    let e = fetch_target-eq safe next step rc h c p in
    let m = mul-pos step rc h c in
    let target = fetch_target safe next step rc true in
    let (rs, planned, tiled) = plan_ranges-Tiles next target step h (omega (arith, e)) in
    (
      omega (arith, e, m),
      omega (arith, e, m),
      (rs, planned, tiled, length-Tiles rc step target next rs (omega (arith, e, m)) tiled),
    )
