-- ===== src/Plan.antt =====
-- bins/indexer-cli/src/plan.rs: the ranges of a fetch, and the tracker of the contiguous prefix.
-- A loop takes fuel: `plan_ranges` one round for each block and one more, `record_range` one for each
-- waiting range and one more. `Plan.Tiles` and `Plan.Drained` prove that this is enough.
pub mod Tiles
pub mod Gaps
pub mod Drained
use mathlib.Core.Option
use topic.Base.{
  ℕ, zero, suc, ◌+◌, ◌-◌, min, ◌≡◌, Bool, true, false, Option, none, some, List, [], ◌∷◌, ltb, leb,
  if◌then◌else◌, add64, sub64, mul64, length,
}
use topic.Base.Assoc
use topic.Model.{Hash}

unfoldable pub fetch_target : ℕ → ℕ → ℕ → ℕ → Bool → ℕ
fetch_target safe next step range_concurrency must_fetch =
    if must_fetch then min safe (sub64 (add64 next (mul64 step range_concurrency)) 1) else safe

-- `e` of the loop body.
unfoldable pub chunk_end : ℕ → ℕ → ℕ → ℕ
chunk_end target step s = min (sub64 (add64 s step) 1) target

-- `none`: the fuel ran out, as it does at `step = 0`, where the source loops forever.
unfoldable pub plan_loop : ℕ → ℕ → ℕ → ℕ → Option (List (ℕ × ℕ))
unfolding chunk_end
plan_loop zero target step s = none
plan_loop (suc fuel) target step s =
    let e = chunk_end target step s in
    let rest = plan_loop fuel target step (add64 e 1) in
    if leb s target then Option.map (λ ranges. (s, e) ∷ ranges) rest else some []

unfoldable pub plan_ranges : ℕ → ℕ → ℕ → Option (List (ℕ × ℕ))
unfolding plan_loop
plan_ranges next target step = plan_loop (suc (target + 1 - next)) target step next

-- The highest matched block of a range, with its hash.
abbrev pub Block : Type 0
Block = ℕ × Hash

pub record PrefixTracker : Type 0 where
  pub frontier : ℕ
  pub waiting : List (ℕ × (ℕ × Option Block))
  pub best : Option Block
  pub advanced_to : Option ℕ

-- `PrefixTracker::new`
unfoldable pub new : ℕ → PrefixTracker
new start = record { frontier = start; waiting = []; best = none; advanced_to = none }

-- The update of `best` in `record`.
unfoldable pub better : Option Block → Option Block → Option Block
better best none = best
better none (some b) = some b
better (some (best_h, best_hash)) (some (h, hash)) =
    if leb best_h h then some (h, hash) else some (best_h, best_hash)

-- The body of the loop in `record`, once `waiting.remove(&frontier)` has given an entry.
unfoldable pub extend : PrefixTracker → ℕ × Option Block → PrefixTracker
unfolding better
extend t (end, last_block) = record {
  frontier = add64 end 1;
  waiting = Assoc.without t.frontier t.waiting;
  best = better t.best last_block;
  advanced_to = some end;
}

unfoldable pub drain : ℕ → PrefixTracker → PrefixTracker
drain zero t = t
drain (suc fuel) t = elim (Assoc.lookup t.frontier t.waiting) [
  | none ↦ t
  | some entry ↦ drain fuel (extend t entry)
]

-- `best_hash`
unfoldable pub best_hash : PrefixTracker → Hash
best_hash t = elim t.best [ none ↦ [] | some (h, hash) ↦ hash ]

unfoldable pub insert_range : PrefixTracker → ℕ → ℕ → Option Block → PrefixTracker
insert_range t from to last_block = record t {
  waiting = Assoc.insert from (to, last_block) t.waiting;
}

-- The tracker after `record`.
unfoldable pub record_range : PrefixTracker → ℕ → ℕ → Option Block → PrefixTracker
unfolding insert_range
record_range t from to last_block =
    let t' = insert_range t from to last_block in drain (suc (length t'.waiting)) t'

-- The value of `record`: the loop moved if it found an entry at the frontier.
unfoldable pub checkpoint : PrefixTracker → ℕ → ℕ → Option Block → Option (ℕ × Hash)
unfolding insert_range
checkpoint t from to last_block =
    elim (Assoc.lookup t.frontier (insert_range t from to last_block).waiting) [
      | none ↦ none
      | some entry ↦
          let t' = record_range t from to last_block in
          Option.map (λ h. (h, best_hash t')) t'.advanced_to
    ]

-- What `commit_consumer` hands to `record` for one committed range.
pub record Arrival : Type 0 where
  pub from : ℕ
  pub to : ℕ
  pub last_block : Option Block

-- The tracker after the commits of `arrivals`, in the order in which they finish.
unfoldable pub record_all : PrefixTracker → List Arrival → PrefixTracker
record_all t [] = t
record_all t (a ∷ arrivals) = record_all (record_range t a.from a.to a.last_block) arrivals
