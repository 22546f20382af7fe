-- ===== src/Tests/Ddls.antt =====
-- crates/migrator: the aux tables and an event table in an empty database.
use topic.Base.{◌≡◌, refl, true, false, none, List, [], ◌∷◌, ◌++◌, All, Any, ◌⊎◌}
use topic.Base.Results.{ok}
use topic.Schema.{ColumnType, EventSchema, event_pk}
use topic.Source.Enrichment.{aux_schemas}
use topic.Ddl.{
  Catalog, Statement, create_table, create_indexes, sql, plan_loop, plan_schemas, apply, is_in_sync,
  is_in,
}
use topic.Ddl.Again.{HasColumns, apply-again}

abbrev transfers : EventSchema
transfers = record {
  table = "evt_token_transfer";
  event = "Transfer";
  topic0 = none;
  columns =
      record { name = "from"; ty = ColumnType.address; indexed_hash = false }
      ∷ record { name = "value"; ty = ColumnType.uint 256; indexed_hash = false }
      ∷ [];
  indexed_positions = 0 ∷ [];
  pk_columns = event_pk;
}

sql-create_table :
    sql (create_table transfers)
    ≡ "CREATE TABLE IF NOT EXISTS evt_token_transfer (\n  chain_id   bigint NOT NULL,\n  height     bigint NOT NULL,\n  block_hash bytea  NOT NULL,\n  block_time timestamptz,\n  tx_id      bytea  NOT NULL,\n  idx        bigint NOT NULL,\n  \"from\" bytea,\n  \"value\" numeric(78,0),\n  PRIMARY KEY (\"chain_id\", \"height\", \"idx\")\n)"
unfolding sql create_table
sql-create_table = refl

create_indexes_names :
    create_indexes transfers
    ≡ Statement.index "evt_token_transfer_tx" "evt_token_transfer" ("chain_id" ∷ "tx_id" ∷ []) []
      ∷ Statement.index "evt_token_transfer_from" "evt_token_transfer"
          ("chain_id" ∷ "from" ∷ "height" ∷ [])
          ("idx" ∷ [])
      ∷ []
unfolding create_indexes
create_indexes_names = refl

unfoldable schemas : List EventSchema
unfolding aux_schemas
schemas = aux_schemas ++ transfers ∷ []

abbrev empty : Catalog
empty = record { tables = []; indexes = []; constraints = [] }

first_done : (apply (plan_schemas schemas empty) false empty).0 ≡ ok tt
unfolding apply plan_loop schemas
first_done = refl

apply-again_example :
    (apply
        (plan_schemas schemas (apply (plan_schemas schemas empty) false empty).1)
        false
        (apply (plan_schemas schemas empty) false empty).1
      ≡ (ok tt, (apply (plan_schemas schemas empty) false empty).1))
    × All (λ s. HasColumns s (apply (plan_schemas schemas empty) false empty).1) schemas
    × ((is_in_sync schemas (apply (plan_schemas schemas empty) false empty).1 ≡ true)
        ⊎ Any
            (λ s. is_in s.table (apply (plan_schemas schemas empty) false empty).1.indexes ≡ true)
            schemas)
apply-again_example = apply-again schemas empty false first_done
