-- ===== src/Ddl.antt =====
-- crates/migrator/src: the statements that make the typed tables, their texts, and the catalog of the
-- database as they change it.
pub mod Catalogs
pub mod Executed
pub mod Again
use topic.Base.{
  ℕ, zero, suc, Bool, true, false, not, ◌&&◌, ◌||◌, Option, none, some, List, [], ◌∷◌, ◌++◌, map,
  String, str_eq, if◌then◌else◌,
}
use topic.Base.Results.{DomainError, Result, ok, err}
use topic.Text.{append}
use topic.Schema.{ColumnType, ColumnDef, EventSchema, event_pk, pg_type}
use topic.Store.Rows.{has}
use topic.Sql.{join, texts, table_has_idx}

-- A column and its type in Postgres.
abbrev pub Column : Type 0
Column = String × String

-- A statement: its table, and what else its text names. A table has the meta columns, `idx` or not.
pub data Statement : Type 0 where
  create : String → Bool → List Column → List String → Statement
  add_column : String → Column → Statement
  -- The name of the index, its table, its columns, and the columns it includes.
  index : String → String → List String → List String → Statement
  -- `receipts_tx_fk`, of receipts to transactions.
  receipts_key : Statement

-- `pk`
unfoldable pub pk : EventSchema → List String
pk schema = elim schema.pk_columns [ [] ↦ event_pk | c ∷ cs ↦ c ∷ cs ]

abbrev pub typed : List ColumnDef → List Column
typed = map (λ (c : ColumnDef). (c.name, pg_type c.ty))

unfoldable pub create_table : EventSchema → Statement
unfolding pg_type pk
create_table schema =
    Statement.create schema.table (table_has_idx schema.table) (typed schema.columns) (pk schema)

unfoldable pub add_columns : EventSchema → List Statement
unfolding pg_type
add_columns schema = map (λ c. Statement.add_column schema.table c) (typed schema.columns)

abbrev pub nth : ℕ → List ColumnDef → Option ColumnDef
nth n [] = none
nth zero (c ∷ cs) = some c
nth (suc n) (c ∷ cs) = nth n cs

-- The index of an indexed parameter, where the position is one of the columns.
abbrev pub param_index : EventSchema → ℕ → List Statement
param_index schema p = elim (nth p schema.columns) [
  | none ↦ []
  | some c ↦
      Statement.index (texts (schema.table ∷ "_" ∷ c.name ∷ [])) schema.table
        ("chain_id" ∷ c.name ∷ "height" ∷ []) ("idx" ∷ [])
      ∷ []
]

abbrev pub param_indexes : EventSchema → List ℕ → List Statement
param_indexes schema [] = []
param_indexes schema (p ∷ ps) = param_index schema p ++ param_indexes schema ps

-- Whether a primary key leads with `(chain_id, tx_id)`.
abbrev pub leads_with_tx : List String → Bool
leads_with_tx [] = false
leads_with_tx (c ∷ []) = false
leads_with_tx (c ∷ d ∷ cs) = str_eq c "chain_id" && str_eq d "tx_id"

unfoldable pub create_indexes : EventSchema → List Statement
unfolding pk
create_indexes schema =
    (if leads_with_tx (pk schema)
      then []
      else Statement.index (append schema.table "_tx") schema.table ("chain_id" ∷ "tx_id" ∷ []) []
        ∷ [])
    ++ param_indexes schema schema.indexed_positions

unfoldable pub foreign_keys : EventSchema → List Statement
foreign_keys schema = if table_has_idx schema.table then [] else Statement.receipts_key ∷ []

unfoldable pub table_statements : EventSchema → List Statement
unfolding create_table add_columns create_indexes foreign_keys
table_statements schema =
    create_table schema ∷ (add_columns schema ++ create_indexes schema ++ foreign_keys schema)

-- The texts of lists of columns.
abbrev pub quoted : List String → List String
quoted = map (λ (c : String). texts ("\"" ∷ c ∷ "\"" ∷ []))

abbrev pub column_texts : List Column → String
column_texts [] = ""
column_texts ((name, ty) ∷ cols) = texts (",\n  \"" ∷ name ∷ "\" " ∷ ty ∷ column_texts cols ∷ [])

abbrev pub index_columns : List String → String
index_columns [] = ""
index_columns (c ∷ []) = c
index_columns (c ∷ d ∷ []) = texts (c ∷ ", " ∷ d ∷ [])
index_columns (c ∷ d ∷ e ∷ cs) = texts (c ∷ ", \"" ∷ d ∷ "\", " ∷ e ∷ [])

abbrev pub included_columns : List String → String
included_columns [] = ""
included_columns (c ∷ cs) = texts (" INCLUDE (" ∷ c ∷ ")" ∷ [])

-- The text of a statement in pieces.
unfoldable pub pieces : Statement → List String
pieces (Statement.create t idx cols key) =
    "CREATE TABLE "
    ∷ "IF NOT EXISTS "
    ∷ t
    ∷ " (\n  chain_id   bigint NOT NULL,\n  height     bigint NOT NULL,\n  block_hash bytea  NOT NULL,\n  block_time timestamptz,\n  tx_id      bytea  NOT NULL"
    ∷ (if idx then ",\n  idx        bigint NOT NULL" else "")
    ∷ column_texts cols
    ∷ ",\n  PRIMARY KEY ("
    ∷ join ", " (quoted key)
    ∷ ")\n)"
    ∷ []
pieces (Statement.add_column t (c, ty)) =
    "ALTER TABLE " ∷ t ∷ " ADD COLUMN " ∷ "IF NOT EXISTS " ∷ "\"" ∷ c ∷ "\" " ∷ ty ∷ []
pieces (Statement.index name t cols included) =
    "CREATE INDEX "
    ∷ "IF NOT EXISTS "
    ∷ name
    ∷ " ON "
    ∷ t
    ∷ " ("
    ∷ index_columns cols
    ∷ ")"
    ∷ included_columns included
    ∷ []
pieces Statement.receipts_key =
    "DO $$ BEGIN " ∷ "IF NOT EXISTS "
    ∷ "(SELECT 1 FROM pg_constraint WHERE conname = 'receipts_tx_fk') THEN ALTER TABLE receipts ADD CONSTRAINT receipts_tx_fk FOREIGN KEY (chain_id, tx_id) REFERENCES transactions (chain_id, tx_id) ON DELETE CASCADE; END IF; END $$;"
    ∷ []

unfoldable pub sql : Statement → String
unfolding pieces
sql s = texts (pieces s)

abbrev pub is_in : String → List String → Bool
is_in s [] = false
is_in s (t ∷ ts) = str_eq t s || is_in s ts

-- Whether the text of a statement says `IF NOT EXISTS`.
unfoldable pub is_guarded : Statement → Bool
unfolding pieces
is_guarded s = is_in "IF NOT EXISTS " (pieces s)

-- The catalog, as far as the statements look at it.
pub record Table : Type 0 where
  pub name : String
  pub columns : List Column
  pub key : List String

pub record Catalog : Type 0 where
  pub tables : List Table
  pub indexes : List String
  pub constraints : List String

abbrev pub named : String → Table → Bool
named t table = str_eq table.name t

abbrev pub has_column : String → List Column → Bool
has_column c [] = false
has_column c ((d, ty) ∷ cs) = str_eq d c || has_column c cs

abbrev pub has_columns : List String → List Column → Bool
has_columns [] cols = true
has_columns (c ∷ cs) cols = has_column c cols && has_columns cs cols

abbrev pub are_distinct : List Column → Bool
are_distinct [] = true
are_distinct ((c, ty) ∷ cs) = not (has_column c cs) && are_distinct cs

-- Whether a table is there and has columns.
unfoldable pub table_has : String → List String → List Table → Bool
table_has t cs [] = false
table_has t cs (table ∷ tables) =
    if named t table then has_columns cs table.columns else table_has t cs tables

-- `table_exists`
unfoldable pub table_exists : String → List Table → Bool
unfolding table_has
table_exists t tables = table_has t [] tables

-- The primary key of `transactions` is what the foreign key refers to.
abbrev pub is_target : Table → Bool
is_target table = named "transactions" table && leads_with_tx table.key

-- `ADD COLUMN`
abbrev pub with_column : Column → Table → Table
with_column c table = record table { columns = table.columns ++ c ∷ [] }

unfoldable pub add : String → Column → List Table → List Table
add t c [] = []
add t c (table ∷ tables) =
    let rest = add t c tables in
    if named t table then with_column c table ∷ tables else table ∷ rest

-- The name of an index is one of the names of the relations.
abbrev pub is_relation : String → Catalog → Bool
is_relation name db = is_in name db.indexes || table_exists name db.tables

-- The columns that every table has, and the position in the block.
abbrev pub meta_columns : Bool → List Column
meta_columns idx =
    (("chain_id", "bigint")
      ∷ ("height", "bigint")
      ∷ ("block_hash", "bytea")
      ∷ ("block_time", "timestamptz")
      ∷ ("tx_id", "bytea")
      ∷ [])
    ++ (if idx then ("idx", "bigint") ∷ [] else [])

-- The columns of a new table: none twice, and those of the key among them.
abbrev pub is_table : List Column → List String → Bool
is_table cols key = are_distinct cols && has_columns key cols

abbrev pub refused : {A : Type 0} → String → Result DomainError A
refused what = err (DomainError.storage what)

-- Where what it makes is there, a statement does nothing if its text is guarded, and fails if not.
abbrev pub existing : Statement → Catalog → Result DomainError Catalog
existing s db = if is_guarded s then ok db else refused "already exists"

-- What Postgres does at a statement.
unfoldable pub execute : Statement → Catalog → Result DomainError Catalog
unfolding is_guarded table_exists table_has add has
execute (Statement.create t idx cols key) db =
    if is_relation t db
    then existing (Statement.create t idx cols key) db
    else if is_table (meta_columns idx ++ cols) key
    then ok (record db {
      tables = db.tables ++ record { name = t; columns = meta_columns idx ++ cols; key = key } ∷ [];
    })
    else refused "column specified more than once, or no column of the key"
execute (Statement.add_column t c) db =
    if table_has t (c.0 ∷ []) db.tables
    then existing (Statement.add_column t c) db
    else if table_exists t db.tables
    then ok (record db { tables = add t c db.tables })
    else refused "no such table"
execute (Statement.index name t cols included) db =
    if is_relation name db
    then existing (Statement.index name t cols included) db
    else if table_has t (cols ++ included) db.tables
    then ok (record db { indexes = db.indexes ++ name ∷ [] })
    else refused "no such table or column"
execute Statement.receipts_key db =
    if is_in "receipts_tx_fk" db.constraints
    then existing Statement.receipts_key db
    else if table_has "receipts" ("chain_id" ∷ "tx_id" ∷ []) db.tables && has is_target db.tables
    then ok (record db { constraints = db.constraints ++ "receipts_tx_fk" ∷ [] })
    else refused "no such table or key"

pub record SchemaPlan : Type 0 where
  pub summary : List String
  pub statements : List Statement
  pub destructive : Bool

-- The loop of `plan`, which adds to a plan.
unfoldable pub plan_loop : List EventSchema → Catalog → SchemaPlan → SchemaPlan
unfolding table_exists table_statements
plan_loop [] db plan = plan
plan_loop (schema ∷ desired) db plan = plan_loop desired db (record plan {
  summary =
      plan.summary
      ++ (if table_exists schema.table db.tables
          then []
          else append "CREATE TABLE " schema.table ∷ []);
  statements = plan.statements ++ table_statements schema;
})

abbrev pub plan_schemas : List EventSchema → Catalog → SchemaPlan
plan_schemas desired db =
    plan_loop desired db (record { summary = []; statements = []; destructive = false })

-- The loop of `apply`: the statements before the one that fails stay done.
unfoldable pub execute_all : List Statement → Catalog → Result DomainError (Unit {0}) × Catalog
unfolding execute
execute_all [] db = (ok tt, db)
execute_all (s ∷ statements) db = elim (execute s db) [
  | err e ↦ (err e, db)
  | ok db' ↦ execute_all statements db'
]

unfoldable pub apply : SchemaPlan → Bool → Catalog → Result DomainError (Unit {0}) × Catalog
unfolding execute_all
apply plan allow_destructive db =
    if plan.destructive && not allow_destructive
    then (
      err (DomainError.schema "plan contains destructive changes; rerun with --allow-destructive"),
      db,
    )
    else execute_all plan.statements db

unfoldable pub is_in_sync : List EventSchema → Catalog → Bool
unfolding table_exists
is_in_sync [] db = true
is_in_sync (schema ∷ desired) db = table_exists schema.table db.tables && is_in_sync desired db
