-- ===== src/Tests/Stores.antt =====
-- crates/db, crates/services: a batch of one record with its block, its transaction and its receipt, and
-- what follows from it.
use topic.Base.{
  ◌≡◌, ◌⊎◌, refl, true, false, subst, ◌||◌, Option, none, some, List, [], ◌∷◌, String, str_eq,
}
use topic.Base.Results.{ok}
use topic.Model.{RawRecord, BlockMeta, EventRow, WorkItem, IngestBatch, backfill, ChainId}
use topic.Queue.{empty, new_row}
use topic.Queue.Serial.{empty-IsValid}
use topic.Store.{Db, raw_parts, block_parts, repeats}
use topic.Store.Events.{
  commit_ingest, others, receipts, table_groups, safe_names, sig_groups, rollback_to,
}
use topic.Store.Keyed.{IsSound, commit_ingest-IsSound}
use topic.Store.Again.{commit_ingest-again}
use topic.Store.Rollback.{IsRolledBack, rollback_to-IsRolledBack, rollback_to-IsSound}
use topic.Decode.{Decoder, decode_range, run_once}
use topic.Decode.Tables.{HasOwnTables}
use topic.Decode.Range.{decode_range-again}
use topic.Decode.Worker.{Ran, run_once-Ran}

abbrev pub start : Db
start = record {
  by_tx = λ t. str_eq t "transactions" || str_eq t "receipts";
  raws = [];
  blocks = [];
  events = [];
  queue = empty;
  cursors = [];
}

abbrev pub log : RawRecord
log = record {
  chain_id = 1;
  height = 5;
  block_hash = 9 ∷ [];
  index = 0;
  address = 4 ∷ [];
  selectors = (1 ∷ []) ∷ [];
  payload = [];
  tx_id = 8 ∷ [];
  tx_index = 0;
  inner_index = none;
}

abbrev pub block : BlockMeta
block = record { chain_id = 1; height = 5; hash = 9 ∷ []; parent_hash = 7 ∷ []; time = 1000 }

abbrev pub row : String → EventRow
row t = record {
  chain_id = 1;
  height = 5;
  block_hash = 9 ∷ [];
  block_time = none;
  tx_id = 8 ∷ [];
  index = 0;
  event = record { table = t; fields = [] };
}

abbrev item : WorkItem
item = record { chain_id = 1; from = 1; to = 10; kind = backfill; epoch = 0 }

abbrev batch : IngestBatch
batch = record {
  raw_records = log ∷ [];
  block_metas = block ∷ [];
  enrichment = row "receipts" ∷ row "transactions" ∷ [];
  enqueue = some item;
  advance_cursor = some (1, 10, 9 ∷ []);
}

abbrev pub done : Db
done = record {
  by_tx = λ t. str_eq t "transactions" || str_eq t "receipts";
  raws =
      record {
        chain_id = 1;
        height = 5;
        idx = 0;
        block_hash = 9 ∷ [];
        address = 4 ∷ [];
        selectors = 1 ∷ 1 ∷ [];
        payload = [];
        tx_id = 8 ∷ [];
        tx_index = 0;
        inner_index = none;
      }
      ∷ [];
  blocks = block ∷ [];
  events = ("transactions", row "transactions") ∷ ("receipts", row "receipts") ∷ [];
  queue = record { rows = new_row 1 item ∷ []; next_id = 2 };
  cursors = (1, (10, 9 ∷ [])) ∷ [];
}

start-done : commit_ingest batch start ≡ ok done
unfolding commit_ingest block_parts others table_groups safe_names sig_groups receipts raw_parts
start-done = refl

start-IsSound : IsSound start
start-IsSound = record {
  raws = tt;
  blocks = tt;
  events = record { keyed = tt; parents = tt };
  queue = empty-IsValid;
}

done-IsSound : IsSound done
done-IsSound = commit_ingest-IsSound batch start done start-done start-IsSound

commit_ingest-again_example :
    (db'' : Db) × (commit_ingest batch done ≡ ok db'')
    × (db''.raws ≡ done.raws)
    × (db''.events ≡ done.events)
    × (db''.queue.rows ≡ done.queue.rows)
    × ((repeats batch.block_metas ≡ true) ⊎ (db''.blocks ≡ done.blocks))
commit_ingest-again_example = commit_ingest-again batch start done start-done

abbrev pub tables : List String
tables = "evt_token_transfer" ∷ "transactions" ∷ "receipts" ∷ []

-- The receipt goes with its transaction before its own table is cleared.
abbrev pub back : Db
back = record done { raws = []; blocks = []; events = []; cursors = (1, (4, [])) ∷ [] }

done-back : rollback_to 1 5 tables done ≡ ok back
unfolding rollback_to
done-back = refl

rollback_to-IsRolledBack_example : IsRolledBack 1 5 tables done back
rollback_to-IsRolledBack_example = rollback_to-IsRolledBack 1 5 tables done back done-back

rollback_to-IsSound_example : IsSound back
rollback_to-IsSound_example = rollback_to-IsSound 1 5 tables done back done-back done-IsSound

-- A decoder that makes a row of each record.
abbrev decoder : Decoder
decoder = record {
  decode = λ r. ok (some (row "evt_token_transfer"));
  decode_call = λ t. ok none;
  has_calls = true;
}

decoder-HasOwnTables : HasOwnTables decoder
decoder-HasOwnTables = (
  λ r x e.
      let same : row "evt_token_transfer" ≡ x = cc in
      subst (λ (y : EventRow). str_eq y.event.table "transactions" ≡ false) same refl,
  λ t x e. cc,
)

decoded_one : (decode_range decoder 1 1 10 done).0 ≡ ok 1
unfolding decode_range safe_names sig_groups
decoded_one = refl

decode_range-again_example :
    let db' = (decode_range decoder 1 1 10 done).1 in decode_range decoder 1 1 10 db' ≡ (ok 0, db')
decode_range-again_example =
    decode_range-again decoder 1 1 10 done 1 decoder-HasOwnTables decoded_one

abbrev decoders : ChainId → Option Decoder
decoders chain = some decoder

run_once-Ran_example : Ran decoders 200 done (run_once decoders 200 done)
run_once-Ran_example = run_once-Ran decoders 200 done
