-- ===== src/Tests/Plans.antt =====
-- bins/indexer-cli/src/plan.rs: three ranges of a window of 25 blocks, of which the first comes last.
use topic.Base.{
  ℕ, ◌≡◌, ◌≤◌, refl, inl, inr, none, some, List, [], ◌∷◌, All, Any, arith, length, true,
}
use topic.Base.Assoc
use topic.Plan.{Arrival, new, record_all, record_range, plan_ranges, fetch_target, extend, drain}
use topic.Plan.Tiles.{Tiles, plan_ranges-Tiles, fetch_target-Tiles}
use topic.Plan.Gaps.{Covered, IsRange, record_all_gapless, record_all_stamped}
use topic.Plan.Drained.{record_all_complete}

abbrev late : List Arrival
late =
    record { from = 11; to = 20; last_block = some (15, 7 ∷ []) }
    ∷ record { from = 21; to = 25; last_block = none }
    ∷ record { from = 1; to = 10; last_block = some (7, 3 ∷ []) }
    ∷ []

abbrev plan : List (ℕ × ℕ)
plan = (1, 10) ∷ (11, 20) ∷ (21, 25) ∷ []

late-IsRange : All IsRange late
late-IsRange =
    ((omega arith, omega arith), ((omega arith, omega arith), ((omega arith, omega arith), tt)))

plan-Tiles : Tiles 10 25 1 plan
plan-Tiles = (
  refl,
  omega arith,
  omega arith,
  omega arith,
  inr refl,
  (
    refl,
    omega arith,
    omega arith,
    omega arith,
    inr refl,
    (refl, omega arith, omega arith, omega arith, inl refl, omega arith),
  ),
)

late-advanced_to : (record_all (new 1) late).advanced_to ≡ some 25
unfolding record_all new record_range drain Assoc.lookup Assoc.insert extend
late-advanced_to = refl

late-best : (record_all (new 1) late).best ≡ some (15, 7 ∷ [])
unfolding record_all new record_range drain Assoc.lookup Assoc.insert extend
late-best = refl

record_all_gapless_example : Covered late 13
record_all_gapless_example =
    record_all_gapless 1 late 25 13 late-IsRange late-advanced_to (omega arith) (omega arith)

record_all_stamped_example : Any (λ a. (a.last_block ≡ some (15, 7 ∷ [])) × (a.to ≤ 25)) late
record_all_stamped_example =
    record_all_stamped 1 late 25 (15, 7 ∷ []) late-IsRange late-advanced_to late-best

record_all_complete_example : (record_all (new 1) late).advanced_to ≡ some 25
record_all_complete_example =
    record_all_complete 10 1 25 plan late plan-Tiles (omega arith) (omega arith)
      (inr (inl refl), (inr (inr (inl refl)), (inl refl, tt)))
      (inr (inr (inl refl)), (inl refl, (inr (inl refl), tt)))

plan_ranges-Tiles_example : (rs : List (ℕ × ℕ)) × (plan_ranges 1 25 10 ≡ some rs) × Tiles 10 25 1 rs
plan_ranges-Tiles_example = plan_ranges-Tiles 1 25 10 (omega arith) (omega arith)

fetch_target-Tiles_example :
    let target = fetch_target 1000 1 10 4 true in
    (1 ≤ target)
    × (target ≤ 1000)
    × ((rs : List (ℕ × ℕ)) × (plan_ranges 1 target 10 ≡ some rs)
        × Tiles 10 target 1 rs
        × (length rs ≤ 4))
fetch_target-Tiles_example =
    fetch_target-Tiles 1000 1 10 4 (omega arith) (omega arith) (omega arith) (omega arith)
      (omega arith)
