-- ===== src/Source/Density.antt =====
-- crates/source/src/client.rs: the span of a `getLogs` page, from the observed density of the logs.
use topic.Base.{ℕ, ◌/◌, ◌≤◌, min, max, ◌||◌, arith, add64, mul64, sat_mul64, ◌==◌, if◌then◌else◌}
use topic.Source.{Client}

-- `suggested_span`
unfoldable pub suggested_span : Client → ℕ
suggested_span c =
    let max_blocks = max c.plan.max_getlogs_blocks 1 in
    let cap = c.plan.max_getlogs_results in
    if cap == 0 || c.density_milli == 0
    then max_blocks
    else min (max (sat_mul64 cap 800 / c.density_milli) 1) max_blocks

-- `record_density`
unfoldable pub record_density : Client → ℕ → ℕ → Client
record_density c blocks logs =
    let sample = sat_mul64 logs 1000 / blocks in
    if blocks == 0 then c else record c {
      density_milli =
          if c.density_milli == 0 then sample else add64 (mul64 c.density_milli 7) sample / 8;
    }

-- A page spans at least one block and at most what the plan allows.
pub suggested_span-bounds :
    (c : Client) → (1 ≤ suggested_span c) × (suggested_span c ≤ max c.plan.max_getlogs_blocks 1)
unfolding suggested_span
suggested_span-bounds c = ground arith
