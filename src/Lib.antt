-- ===== src/Lib.antt =====
-- A multi-chain event indexer for EVM chains: it fetches the logs of watched contracts by RPC, stores
-- them raw in Postgres, decodes them into typed tables through a work queue, and serves these by pages.
-- One indexing loop per chain plans a window, fetches its ranges concurrently, commits each range in one
-- transaction (records, blocks, enrichment and an item of work) and moves the cursor of the chain over
-- the ranges that are committed without a gap. Workers lease items, decode the ranges and acknowledge
-- them. A reorg rolls a window of the chain back and has it indexed again.
--
-- Which file models what:
--   Model: crates/shared/src/model and the data of crates/domain/src/ports.
--   Plan: bins/indexer-cli/src/plan.rs: `fetch_target`, `plan_ranges` and `PrefixTracker`. `record` is a
--     word of the language; the method is `record_range` (the tracker after it) and `checkpoint` (its
--     value).
--   Tip: bins/indexer-cli/src/tip.rs, and `catch_up` of bins/indexer-cli/src/ingest.rs; Loop is its
--     `ingest_loop`, one `Round` of what it meets from outside after another.
--   Ingest: crates/services/src/ingestion.rs and reorg.rs, and `commit_consumer` of plan.rs.
--   Source: crates/source/src: `with_retry`, `fetch_records` and the density of logs. Source/Retry is
--     retry.rs, Source/Density and Source/Fetch are client.rs, with map.rs, and Source/Limiter is
--     limiter.rs.
--     Source/Batch is batch.rs and the batched calls of client.rs (`fetch_aux`), Source/Enrichment is
--     enrichment.rs, and Source/Evm is decoder.rs.
--   Schema: crates/schema/src and crates/sql-pg/src. Abi: crates/abi-schema/src; Abi/Values and Abi/Index
--     are decode.rs and lib.rs of crates/abi/src.
--   Ddl: crates/migrator/src; a statement is data, and `sql` is its text.
--   Sql: crates/db-query/src: the text of the statements of lib.rs and builder.rs with their binds, and
--     the cursors of pagination.rs.
--   Config: crates/config/src: `validate`; `apply_overrides` of crates/source/src/registry.rs, and the waits
--     of bins/indexer-cli/src/supervisor.rs.
--   Queue: crates/db/src/repositories/queue_repo.rs over the table of crates/db/src/base_schema.rs.
--   Store: the other repositories of crates/db/src; Store/Events has event_repo.rs and unit_of_work.rs,
--     with the keys of crates/migrator/src/ddl.rs; Store/Rows has inserts under a key.
--   Decode: crates/services/src/decoding.rs and worker.rs.
--   Pricing: crates/pricing/src. Codec: crates/db/src/encode.rs and crates/shared/src/util.rs.
--   Api: crates/api/src/graphql: the types of the schema, and the query that arguments make.
--   Query: the paging of crates/db-query/src/lib.rs, and cache.rs in Query/Cache. Text: the tests on
--     characters of these, and numbers as text.
--   Base has lists, machine words, results, association lists and pairs. Tests runs the definitions
--   and applies the theorems to concrete values.
--
-- The database is a record of tables, each a list of rows in the order of their insertion. A statement
-- is one atomic step, a transaction that fails leaves the database as it was, and errors are those of
-- constraints and identifiers, not of the connection. Heights and counts are below `2 ^ 63`, where the
-- casts to `bigint` change nothing; sums on `u64` wrap around or saturate as in the code. The order of a
-- `HashMap`, which the code leaves open, is that of the first occurrence, or of the names.
--
-- A panic is `none` where the code may panic on its input. A catalog has the names and columns of the
-- tables, and the names of indexes and constraints, all within the length that Postgres keeps.
--
-- Parameters: the provider (`Rpc`: the answer to the n-th call), the chain source, the decoders, the
-- filters of a query as a test on rows, which typed tables have one row per transaction, the ABI codec
-- (`Codec`), the parsing of an ABI and the reading of its file. What the code relies on is a
-- named hypothesis: `IsTruthful` says that a page of several blocks that does not reach the result cap,
-- and a page of one block, have all logs; `HasOwnTables` says that a decoder writes to no aux table, and
-- is proved of the decoder that Source/Evm builds; `IsFaithful` says that the values of a log have the types of the event;
-- `IsHonest` says that a block that is served is the one asked for, with the transactions of its records;
-- `IsOrder` says that each batch of calls completes once.
--
-- Loops have fuel: `plan_loop` one round per block of the window, `drain` one per waiting range,
-- `fetch_loop` two per block, `bursts` one per unit, `unframe_loop` one per byte,
-- `chunks` one per row, `digits_loop` one per unit, `follow` one per row and one more. For each there is
-- a theorem that the fuel is enough, or one that covers the complete result.
--
-- Calls of the queue are atomic steps in the runs of them; two `pull_any` that overlap under READ
-- COMMITTED are `pull_seen` of Queue/Overlap, which the theorems about runs do not cover. A cached answer
-- has the text of its query as JSON for a key (`Serde`): `IsJson` says that no other query has that text.
-- What Postgres does at a DDL statement is `execute`, the reading of its documentation: where the table,
-- column, index or constraint is there, it does nothing if the text says IF NOT EXISTS, and fails if not.
-- That a record or a row is in a table means that there is a row under its key: an insert leaves an older
-- row with other contents as it is, as ON CONFLICT DO NOTHING does.
--
-- Not modelled: runs of the queue with pulls that overlap, the timing of the limiter, the concurrent
-- stream of `fetch_producer` (its ranges reach the consumer in any order), the loading of the
-- configuration, the resolvers of GraphQL and its server, metrics, logs and process set-up.
pub mod Base
pub mod Model
pub mod Plan
pub mod Queue
pub mod Pricing
pub mod Text
pub mod Schema
pub mod Ddl
pub mod Config
pub mod Api
pub mod Sql
pub mod Abi
pub mod Codec
pub mod Store
pub mod Decode
pub mod Ingest
pub mod Tip
pub mod Query
pub mod Loop
pub mod Tests
pub mod Source
