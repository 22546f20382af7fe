-- ===== src/Tests/Ingests.antt =====
-- crates/services, bins/indexer-cli: two fetched ranges, of which the second arrives first.
use topic.Base.{
  ℕ, refl, ◌<◌, ◌≡◌, ◌⊎◌, true, false, none, some, List, [], ◌∷◌, map, take, arith, All,
}
use topic.Base.Results.{ok}
use topic.Model.{Hash, Height, no_aux}
use topic.Plan.Gaps.{Covered, IsRange}
use topic.Store.{cursor}
use topic.Store.Again.{AreStored}
use topic.Ingest.{Source, FetchedRange, commit_consumer, check}
use topic.Ingest.Prefix.{arrival, commit_consumer-gapless}
use topic.Ingest.Reorg.{Checked, check-Checked}
use topic.Tip.{TipState, catch_up, on_ws_event}
use topic.Tip.Heard.{Event, heard}
use topic.Tip.Pending.{CatchUp, catch_up-CatchUp}
use topic.Tests.Stores.{start, done, log, block, tables}

abbrev pub received : List FetchedRange
received =
    record { from = 11; to = 20; records = []; aux = no_aux; last_block = none }
    ∷ record {
      from = 1;
      to = 10;
      records = log ∷ [];
      aux = record { block_metas = block ∷ []; enrichment = [] };
      last_block = some (5, 9 ∷ []);
    }
    ∷ []

received-IsRange : All (λ f. IsRange (arrival f)) received
received-IsRange = ((omega arith, omega arith), ((omega arith, omega arith), tt))

commit_consumer-gapless_example :
    let db' = (commit_consumer 1 1 received start).1 in
    (cursor db' 1 ≡ cursor start 1)
    ⊎ ((n : ℕ) × (last : Height) × (hash : Hash) × (cursor db' 1 ≡ some (last, hash))
        × All (λ f. AreStored f.records db'.raws) (take n received)
        × ((last < 13) ⊎ Covered (map arrival (take n received)) 13))
commit_consumer-gapless_example =
    commit_consumer-gapless 1 1 13 received start received-IsRange (omega arith)

-- A source whose block 5 has another hash than the stored one.
abbrev pub forked : Source
forked = record {
  chain_id = 1;
  fetch_records = λ f lo hi. ok [];
  fetch_aux = λ rs. ok no_aux;
  block_hash = λ h. ok (some (66 ∷ []));
  caps = record { supports_reorg = true; supports_subscribe = false };
}

check-Checked_example : Checked forked tables 3 done (check forked tables 3 done)
check-Checked_example = check-Checked forked tables 3 done

-- A log at height 12 is announced.
abbrev waiting : TipState
waiting = record {
  ws_enabled = true;
  sub = true;
  pending = 12 ∷ [];
  reconcile = false;
  reorg_at = none;
}

catch_up-CatchUp_example :
    CatchUp 1 waiting 1 20 received
      (ok false)
      start
      (catch_up 1 waiting 1 20 10 2 received (ok false) start)
catch_up-CatchUp_example =
    catch_up-CatchUp 1 waiting 1 20 10 2 received (ok false) start (omega arith) (tt, tt)

-- A log at height 9, one at height 7 that is taken back, and the end of the stream.
abbrev events : List Event
events =
    some (ok (record { raw = record log { height = 9 }; removed = false }))
    ∷ some (ok (record { raw = record log { height = 7 }; removed = true }))
    ∷ none
    ∷ []

heard-events :
    heard events waiting ≡ record waiting { sub = false; pending = 9 ∷ 12 ∷ []; reorg_at = some 7 }
unfolding on_ws_event
heard-events = refl
