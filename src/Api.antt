-- ===== src/Api.antt =====
-- crates/api/src/graphql: the types of the schema that is built from the tables, and the query that the
-- arguments of a field make. The GraphQL crate is a third-party crate: what a client sends is parsed.
use topic.Base.{
  ℕ, ◌^◌, ◌%◌, max, Bool, true, false, ◌&&◌, Option, none, some, List, [], ◌∷◌, ◌++◌, map, String,
  str_eq, if◌then◌else◌,
}
use topic.Text.{append}
use topic.Text.Ints.{ℤ, show}
use topic.Schema.{ColumnType, ColumnDef, EventSchema}
use topic.Sql.{FilterOp, Filter, Spec, table_has_idx}

-- A field: its name, the name of its type, and whether it is never null.
pub record Field : Type 0 where
  pub name : String
  pub ty : String
  pub non_null : Bool

pub record Object : Type 0 where
  pub name : String
  pub fields : List Field

unfoldable pub type_ref : ColumnType → String
type_ref ColumnType.boolean = "Boolean"
type_ref (ColumnType.uint n) = "BigInt"
type_ref (ColumnType.int n) = "BigInt"
type_ref ColumnType.int64 = "BigInt"
type_ref ColumnType.json = "JSON"
type_ref ColumnType.address = "String"
type_ref ColumnType.blob = "String"
type_ref ColumnType.utf8 = "String"
type_ref ColumnType.timestamp = "String"

unfoldable pub json_field : String → ColumnType → Bool → Field
unfolding type_ref
json_field name ty nn = record { name = name; ty = type_ref ty; non_null = nn }

abbrev pub nested_field : String → String → Field
nested_field name ty = record { name = name; ty = ty; non_null = false }

unfoldable pub row_object : EventSchema → Bool → (String → Bool) → Object
unfolding json_field
row_object s is_event has_type = record {
  name = s.table;
  fields =
      (json_field "chain_id" ColumnType.int64 true
        ∷ json_field "height" ColumnType.int64 true
        ∷ json_field "block_hash" ColumnType.blob true
        ∷ json_field "block_time" ColumnType.timestamp false
        ∷ json_field "tx_id" ColumnType.blob true
        ∷ [])
      ++ (if table_has_idx s.table then json_field "idx" ColumnType.int64 true ∷ [] else [])
      ++ map (λ (c : ColumnDef). json_field c.name c.ty false) s.columns
      ++ (if is_event && has_type "transactions"
          then nested_field "transaction" "transactions" ∷ []
          else [])
      ++ (if is_event && has_type "receipts" then nested_field "receipt" "receipts" ∷ [] else []);
}

abbrev pub conn_name : String → String
conn_name table = append table "_connection"

unfoldable pub connection_object : String → Object
connection_object table = record {
  name = conn_name table;
  fields =
      record { name = "nodes"; ty = table; non_null = true }
      ∷ record { name = "endCursor"; ty = "String"; non_null = false }
      ∷ record { name = "hasNext"; ty = "Boolean"; non_null = true }
      ∷ record { name = "totalCount"; ty = "BigInt"; non_null = false }
      ∷ [];
}

abbrev pub has_table : List EventSchema → String → Bool
has_table [] t = false
has_table (s ∷ schemas) t = if str_eq s.table t then true else has_table schemas t

abbrev pub is_event : EventSchema → Bool
is_event s = elim s.topic0 [ none ↦ false | some t ↦ true ]

-- The loop of `build_schema`: the objects, and the fields of the query.
unfoldable pub build_loop : (String → Bool) → List EventSchema → List Object × List Field
unfolding row_object connection_object
build_loop has_type [] = ([], [])
build_loop has_type (s ∷ schemas) =
    let (objects, queries) = build_loop has_type schemas in
    let row = row_object s (is_event s) has_type in
    if table_has_idx s.table
    then (
      row ∷ connection_object s.table ∷ objects,
      nested_field s.table (conn_name s.table) ∷ queries,
    )
    else (row ∷ objects, queries)

abbrev pub build_schema : List EventSchema → List Object × List Field
build_schema schemas = build_loop (has_table schemas) schemas

unfoldable pub parse_op : String → FilterOp
parse_op s =
    if str_eq s "NE"
    then FilterOp.ne
    else if str_eq s "GT"
    then FilterOp.gt
    else if str_eq s "GTE"
    then FilterOp.gte
    else if str_eq s "LT"
    then FilterOp.lt
    else if str_eq s "LTE"
    then FilterOp.lte
    else FilterOp.eq

unfoldable pub eq_filter : String → FilterOp → ℤ → Filter
unfolding show
eq_filter column op value = record { column = column; op = op; value = show value }

-- An item of `where`: a column, a value and an operator.
pub record Predicate : Type 0 where
  pub column : String
  pub value : List ℕ
  pub op : Option String

-- The arguments of a field that a client sends, and the nested objects that it selects.
pub record Args : Type 0 where
  pub first : Option ℤ
  pub after : Option (List ℕ)
  pub order_by : Option String
  pub chain_id : Option ℤ
  pub from_height : Option ℤ
  pub to_height : Option ℤ
  pub predicates : List Predicate
  pub selects_transaction : Bool
  pub selects_receipt : Bool

-- `unwrap_or(100).max(1) as u32`
abbrev pub first_of : Option ℤ → ℕ
first_of none = 100
first_of (some (ℤ.pos n)) = max n 1 % 2 ^ 32
first_of (some (ℤ.negsuc n)) = 1

abbrev pub shortcut : String → FilterOp → Option ℤ → List Filter
shortcut column op none = []
shortcut column op (some v) = eq_filter column op v ∷ []

unfoldable pub predicate_filter : Predicate → Filter
unfolding parse_op
predicate_filter p = record {
  column = p.column;
  op = elim p.op [ none ↦ FilterOp.eq | some o ↦ parse_op o ];
  value = p.value;
}

-- The query of a field of `query_field`.
unfoldable pub spec_of : String → Bool → Args → Spec
unfolding eq_filter predicate_filter
spec_of table event args = record {
  table = table;
  filters =
      shortcut "chain_id" FilterOp.eq args.chain_id
      ++ shortcut "height" FilterOp.gte args.from_height
      ++ shortcut "height" FilterOp.lte args.to_height
      ++ map predicate_filter args.predicates;
  first = first_of args.first;
  after = args.after;
  include_tx = event && args.selects_transaction;
  include_receipt = event && args.selects_receipt;
  descending = elim args.order_by [ none ↦ false | some o ↦ str_eq o "DESC" ];
}
