-- ===== src/Schema.antt =====
-- crates/schema/src/lib.rs and crates/sql-pg/src/lib.rs: the typed tables, and their types in Postgres.
use topic.Base.{ℕ, Bool, Option, List, [], ◌∷◌, String}
use topic.Text.{append}

pub data ColumnType : Type 0 where
  address boolean blob utf8 json int64 timestamp : ColumnType
  uint int : ℕ → ColumnType

pub record ColumnDef : Type 0 where
  pub name : String
  pub ty : ColumnType
  pub indexed_hash : Bool

pub record EventSchema : Type 0 where
  pub table : String
  pub event : String
  pub topic0 : Option String
  pub columns : List ColumnDef
  pub indexed_positions : List ℕ
  pub pk_columns : List String

abbrev pub event_pk : List String
event_pk = "chain_id" ∷ "height" ∷ "idx" ∷ []

-- The key of the aux tables and of the call tables.
abbrev pub tx_pk : List String
tx_pk = "chain_id" ∷ "tx_id" ∷ []

unfoldable pub pg_type : ColumnType → String
pg_type ColumnType.address = "bytea"
pg_type ColumnType.blob = "bytea"
pg_type (ColumnType.uint n) = "numeric(78,0)"
pg_type (ColumnType.int n) = "numeric(78,0)"
pg_type ColumnType.boolean = "boolean"
pg_type ColumnType.utf8 = "text"
pg_type ColumnType.json = "jsonb"
pg_type ColumnType.int64 = "bigint"
pg_type ColumnType.timestamp = "timestamptz"

unfoldable pub cast_suffix : ColumnType → String
cast_suffix (ColumnType.uint n) = "::numeric"
cast_suffix (ColumnType.int n) = "::numeric"
cast_suffix ColumnType.timestamp = "::timestamptz"
cast_suffix ColumnType.json = "::jsonb"
cast_suffix ColumnType.address = ""
cast_suffix ColumnType.boolean = ""
cast_suffix ColumnType.blob = ""
cast_suffix ColumnType.utf8 = ""
cast_suffix ColumnType.int64 = ""

-- `{alias}."{name}"`
abbrev pub qualified : String → String → String
qualified alias name = append alias (append ".\"" (append name "\""))

unfoldable pub json_projection : String → String → ColumnType → String
json_projection alias name ColumnType.address =
    append "'0x' || encode(" (append (qualified alias name) ", 'hex')")
json_projection alias name ColumnType.blob =
    append "'0x' || encode(" (append (qualified alias name) ", 'hex')")
json_projection alias name (ColumnType.uint n) = append (qualified alias name) "::text"
json_projection alias name (ColumnType.int n) = append (qualified alias name) "::text"
json_projection alias name ColumnType.boolean = qualified alias name
json_projection alias name ColumnType.utf8 = qualified alias name
json_projection alias name ColumnType.json = qualified alias name
json_projection alias name ColumnType.int64 = qualified alias name
json_projection alias name ColumnType.timestamp = qualified alias name
