-- ===== src/Tests/Loops.antt =====
-- bins/indexer-cli: two rounds of a chain that starts at block 1 with the head at 23.
use mathlib.Core.Option
use topic.Base.{ℕ, ◌≡◌, refl, false, Option, none, some, List, [], ◌∷◌}
use topic.Base.Results.{DomainError, Result, ok, err}
use topic.Model.{Hash}
use topic.Store.{Db, cursor, block_parts}
use topic.Store.Events.{others, table_groups, receipts}
use topic.Plan.{drain, extend}
use topic.Ingest.{FetchedRange}
use topic.Loop.{Round, Settings, LoopState, timeout, started, ingest_loop}
use topic.Loop.Aligned.{Holds}
use topic.Loop.Resume.{AreAligned, ingest_loop-AreAligned}
use topic.Tests.Stores.{start, tables}
use topic.Tests.Ingests.{received, forked}

abbrev cfg : Settings
cfg = record {
  tables = tables;
  confirmations = 3;
  start_block = 1;
  step = 10;
  range_concurrency = 2;
}

-- The pipeline meets both ranges in the first round, and the probe of the second finds a fork at block 5.
abbrev round : Option Hash → List FetchedRange → Round
round hash ranges = record {
  is_stopped = false;
  subscribed = false;
  block_hash = λ h. ok hash;
  head = ok 23;
  received = ranges;
  producer = ok false;
  wake = timeout;
}

abbrev rounds : List Round
rounds = round none received ∷ round (some (66 ∷ [])) [] ∷ []

next_of : Result DomainError (Option LoopState) × Db → Result DomainError (Option ℕ)
next_of (ok o, db) = ok (Option.map (λ (s : LoopState). s.next) o)
next_of (err e, db) = err e

first_test :
    next_of (ingest_loop forked cfg (round none received ∷ []) (started forked cfg start) start)
    ≡ ok (some 21)
unfolding next_of ingest_loop started block_parts others table_groups receipts drain extend
first_test = refl

second_test : next_of (ingest_loop forked cfg rounds (started forked cfg start) start) ≡ ok (some 3)
unfolding next_of ingest_loop started block_parts others table_groups receipts drain extend
second_test = refl

second_cursor :
    cursor (ingest_loop forked cfg rounds (started forked cfg start) start).1 1 ≡ some (2, [])
unfolding ingest_loop started cursor block_parts others table_groups receipts drain extend
second_cursor = refl

ingest_loop-AreAligned_example :
    let r = ingest_loop forked cfg rounds (started forked cfg start) start in
    Holds (AreAligned 1) r.0 r.1
ingest_loop-AreAligned_example = ingest_loop-AreAligned forked cfg rounds start
