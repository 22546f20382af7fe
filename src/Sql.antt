-- ===== src/Sql.antt =====
-- crates/db-query/src: the statements of the read side, their values, and the text of the cursors.
pub mod Cursors
pub mod Filters
pub mod Built
pub mod Statements
use mathlib.Core.Option
use topic.Base.{
  ℕ, zero, suc, ◌+◌, min, max, Bool, true, false, not, Option, none, some, List, [], ◌∷◌, ◌++◌, map,
  String, str_eq, ◌==◌, if◌then◌else◌, length,
}
use topic.Base.Results.{DomainError, Result, ok, err, ◌>>=◌, map_err, guard, ◌>>◌}
use topic.Text.{append, codes, text as ascii_text, decimal, codes_eq}
use topic.Text.Ints.{ℤ, show, parse_i64}
use topic.Codec.Hex.{hex_decode}
use topic.Codec.Idents.{is_valid_ident}
use topic.Model.{Bytes}
use topic.Schema.{ColumnType, ColumnDef, EventSchema, cast_suffix, json_projection}
use topic.Abi.Index.{find, put}

-- `format!`, and `join`
abbrev pub texts : List String → String
texts [] = ""
texts (s ∷ ss) = append s (texts ss)

abbrev pub join : String → List String → String
join sep [] = ""
join sep (s ∷ []) = s
join sep (s ∷ t ∷ ss) = append s (append sep (join sep (t ∷ ss)))

unfoldable pub number : ℕ → String
unfolding ascii_text decimal
number n = ascii_text (decimal n)

-- `QueryError`, whose other case the pure code does not make.
pub data QueryError : Type 0 where
  sqlx invalid : String → QueryError

abbrev pub as_domain : QueryError → DomainError
as_domain (QueryError.invalid m) = DomainError.invalid m
as_domain (QueryError.sqlx m) = DomainError.storage m

-- shared/model/query.rs
pub data FilterOp : Type 0 where
  eq ne gt gte lt lte : FilterOp

pub record Filter : Type 0 where
  pub column : String
  pub op : FilterOp
  -- The bytes of the text.
  pub value : Bytes

pub record Spec : Type 0 where
  pub table : String
  pub filters : List Filter
  pub first : ℕ
  pub after : Option (List ℕ)
  pub include_tx : Bool
  pub include_receipt : Bool
  pub descending : Bool

abbrev pub table_has_idx : String → Bool
table_has_idx table = not (str_eq table "receipts")

-- `contains`, and the alternatives of a `match`
abbrev pub is_in : List String → String → Bool
is_in [] s = false
is_in (t ∷ ts) s = if str_eq s t then true else is_in ts s

unfoldable pub meta_col_type : String → Option ColumnType
meta_col_type name =
    if is_in ("chain_id" ∷ "height" ∷ "idx" ∷ []) name
    then some ColumnType.int64
    else if str_eq name "block_time"
    then some ColumnType.timestamp
    else if is_in ("block_hash" ∷ "tx_id" ∷ []) name
    then some ColumnType.blob
    else none

abbrev pub Cols : Type 0
Cols = List (String × ColumnType)

unfoldable pub row_json : String → Cols → Bool → String
unfolding json_projection
row_json alias cols has_idx =
    let parts =
      texts ("'chain_id', " ∷ alias ∷ ".chain_id" ∷ [])
      ∷ texts ("'height', " ∷ alias ∷ ".height" ∷ [])
      ∷ texts ("'block_hash', '0x' || encode(" ∷ alias ∷ ".block_hash, 'hex')" ∷ [])
      ∷ texts ("'block_time', " ∷ alias ∷ ".block_time" ∷ [])
      ∷ texts ("'tx_id', '0x' || encode(" ∷ alias ∷ ".tx_id, 'hex')" ∷ [])
      ∷ [] in
    let idx = if has_idx then texts ("'idx', " ∷ alias ∷ ".idx" ∷ []) ∷ [] else [] in
    let projected =
      map
        (λ (c : String × ColumnType).
          texts ("'" ∷ c.0 ∷ "', " ∷ json_projection alias c.0 c.1 ∷ []))
        cols in
    texts ("jsonb_build_object(" ∷ join ", " (parts ++ idx ++ projected) ∷ ")" ∷ [])

pub data Bind : Type 0 where
  int : ℤ → Bind
  bytes : Bytes → Bind
  bool : Bool → Bind
  text : Bytes → Bind

unfoldable pub safe_table : String → Result QueryError String
unfolding is_valid_ident
safe_table name =
    if is_valid_ident (codes name)
    then ok name
    else err (QueryError.invalid (append "bad table name: " name))

unfoldable pub op_sql : FilterOp → String
op_sql FilterOp.eq = "="
op_sql FilterOp.ne = "<>"
op_sql FilterOp.gt = ">"
op_sql FilterOp.gte = ">="
op_sql FilterOp.lt = "<"
op_sql FilterOp.lte = "<="

-- `str::parse::<bool>`
unfoldable pub parse_bool : List ℕ → Option Bool
unfolding codes_eq
parse_bool s =
    if codes_eq s (codes "true")
    then some true
    else if codes_eq s (codes "false")
    then some false
    else none

abbrev pub ok_or : {A : Type 0} → String → Option A → Result QueryError A
ok_or m none = err (QueryError.invalid m)
ok_or m (some a) = ok a

-- The outer `none` is the panic of `hex_decode`.
abbrev pub as_bytes : Option (Option Bytes) → Option (Result QueryError Bind)
as_bytes none = none
as_bytes (some v) = some (ok_or "expected 0x-hex bytes" v >>= λ b. ok (Bind.bytes b))

unfoldable pub parse_bind : ColumnType → Bytes → Option (Result QueryError Bind)
unfolding parse_i64 parse_bool hex_decode
parse_bind ColumnType.int64 raw =
    some (ok_or "expected an integer" (parse_i64 raw) >>= λ v. ok (Bind.int v))
parse_bind ColumnType.boolean raw =
    some (ok_or "expected a boolean" (parse_bool raw) >>= λ v. ok (Bind.bool v))
parse_bind ColumnType.address raw = as_bytes (hex_decode raw)
parse_bind ColumnType.blob raw = as_bytes (hex_decode raw)
parse_bind (ColumnType.uint n) raw = some (ok (Bind.text raw))
parse_bind (ColumnType.int n) raw = some (ok (Bind.text raw))
parse_bind ColumnType.timestamp raw = some (ok (Bind.text raw))
parse_bind ColumnType.utf8 raw = some (ok (Bind.text raw))
parse_bind ColumnType.json raw = some (err (QueryError.invalid "jsonb columns are not filterable"))

unfoldable pub bind_value : ColumnType → Bytes → Option (Result QueryError (String × Bind))
unfolding cast_suffix parse_bind
bind_value ty raw = Option.map (λ r. r >>= λ b. ok (cast_suffix ty, b)) (parse_bind ty raw)

-- `PgEventQueryRepository`: its tables. The database is a parameter.
abbrev pub Tables : Type 0
Tables = List (String × Cols)

-- `new`
unfoldable pub tables_of : List EventSchema → Tables → Tables
unfolding put
tables_of [] m = m
tables_of (s ∷ schemas) m =
    tables_of schemas (put str_eq s.table (map (λ (c : ColumnDef). (c.name, c.ty)) s.columns) m)

unfoldable pub col_type : Tables → String → String → Option ColumnType
unfolding meta_col_type find
col_type tables table col = elim (meta_col_type col) [
  | some ty ↦ some ty
  | none ↦ elim (find str_eq table tables) [ none ↦ none | some cols ↦ find str_eq col cols ]
]

unfoldable pub validate_table : Tables → Spec → Result DomainError String
unfolding safe_table find
validate_table tables spec = do
  table ← map_err as_domain (safe_table spec.table)
  guard (table_has_idx table)
      (DomainError.invalid "receipts are queried via their transaction, not standalone")
  elim (find str_eq table tables) [
    | none ↦ err (DomainError.invalid (texts ("unknown table '" ∷ table ∷ "'" ∷ [])))
    | some cols ↦ ok table
  ]

-- The condition of one filter, at the placeholder after `n` others.
unfoldable pub condition : Filter → ℕ → String → String
unfolding op_sql number
condition f n cast =
    texts ("t.\"" ∷ f.column ∷ "\" " ∷ op_sql f.op ∷ " $" ∷ number (n + 1) ∷ cast ∷ [])

unfoldable pub build_filter : Tables → String → Filter → Option (Result DomainError (String × Bind))
unfolding col_type bind_value
build_filter tables table f = elim (col_type tables table f.column) [
  | none ↦
      some (err (DomainError.invalid (texts ("unknown filter column '" ∷ f.column ∷ "'" ∷ []))))
  | some ty ↦ Option.map (map_err as_domain) (bind_value ty f.value)
]

-- `build_filters`, which adds to the conditions and the binds.
unfoldable pub filters_loop :
    Tables
    → String
    → List Filter
    → List String
    → List Bind
    → Option (Result DomainError (List String × List Bind))
unfolding build_filter condition
filters_loop tables table [] conds binds = some (ok (conds, binds))
filters_loop tables table (f ∷ fs) conds binds = elim (build_filter tables table f) [
  | none ↦ none
  | some r ↦ elim r [
    | err e ↦ some (err e)
    | ok v ↦
        filters_loop tables table fs (conds ++ condition f (length binds) v.0 ∷ [])
          (binds ++ v.1 ∷ [])
  ]
]

abbrev pub build_filters :
    Tables → String → List Filter → Option (Result DomainError (List String × List Bind))
build_filters tables table fs = filters_loop tables table fs [] []

-- pagination.rs
unfoldable pub format_cursor : ℤ → ℤ → List ℕ
unfolding show
format_cursor height idx = show height ++ b':' ∷ show idx

unfoldable pub split_once : ℕ → List ℕ → Option (List ℕ × List ℕ)
split_once c [] = none
split_once c (d ∷ s) =
    let rest = split_once c s in
    if d == c then some ([], s) else elim rest [ none ↦ none | some (a, b) ↦ some (d ∷ a, b) ]

unfoldable pub parse_cursor : List ℕ → Result QueryError (ℤ × ℤ)
unfolding split_once parse_i64
parse_cursor c = do
  parts ← ok_or "bad cursor" (split_once b':' c)
  h ← ok_or "bad cursor" (parse_i64 parts.0)
  i ← ok_or "bad cursor" (parse_i64 parts.1)
  ok (h, i)

abbrev pub where_clause : List String → String
where_clause [] = ""
where_clause (c ∷ conds) = append " WHERE " (join " AND " (c ∷ conds))

-- The keyset condition of `query`, at the placeholders after `n` others.
unfoldable pub keyset : Bool → ℕ → String
unfolding number
keyset descending n = texts (
    "(t.height, t.idx) "
    ∷ (if descending then "<" else ">")
    ∷ " ($"
    ∷ number (n + 1)
    ∷ ", $"
    ∷ number (n + 2)
    ∷ ")"
    ∷ [])

-- The join of an aux table, and its nested object.
abbrev pub aux_join : String → String → String
aux_join aux alias = texts (
    " LEFT JOIN " ∷ aux ∷ " " ∷ alias ∷ " ON " ∷ alias ∷ ".chain_id = t.chain_id AND " ∷ alias
    ∷ ".tx_id = t.tx_id" ∷ [])

unfoldable pub aux_object : String → String → Cols → String
unfolding row_json
aux_object aux alias cols = texts (
    "'"
    ∷ (if str_eq aux "transactions" then "transaction" else "receipt")
    ∷ "', CASE WHEN "
    ∷ alias
    ∷ ".tx_id IS NULL THEN NULL ELSE "
    ∷ row_json alias cols (table_has_idx aux)
    ∷ " END"
    ∷ [])

-- The joins, and the nested objects, of the aux tables that the query includes.
unfoldable pub nested : Tables → List (String × String × Bool) → List String × List String
unfolding find aux_object
nested tables [] = ([], [])
nested tables ((alias, aux, include) ∷ more) =
    let (joins, objects) = nested tables more in
    if include
    then elim (find str_eq aux tables) [
      | none ↦ (joins, objects)
      | some cols ↦ (aux_join aux alias ∷ joins, aux_object aux alias cols ∷ objects)
    ]
    else (joins, objects)

abbrev pub aux_of : String → Spec → List (String × String × Bool)
aux_of table spec =
    if is_in ("transactions" ∷ "receipts" ∷ []) table
    then []
    else ("tx", "transactions", spec.include_tx) ∷ ("rc", "receipts", spec.include_receipt) ∷ []

abbrev pub with_nested : String → List String → String
with_nested row [] = row
with_nested row (o ∷ objects) =
    texts (row ∷ " || jsonb_build_object(" ∷ join ", " (o ∷ objects) ∷ ")" ∷ [])

-- The statement of `query` for a table with these columns, these conditions.
unfoldable pub select_sql : Tables → String → Cols → Spec → List String → String
unfolding row_json nested number
select_sql tables table cols spec conds =
    let (joins, objects) = nested tables (aux_of table spec) in
    texts (
      "SELECT ("
      ∷ with_nested (row_json "t" cols true) objects
      ∷ ")::text AS j, t.height, t.idx FROM "
      ∷ table
      ∷ " t"
      ∷ texts joins
      ∷ where_clause conds
      ∷ " ORDER BY "
      ∷ (if spec.descending then "t.height DESC, t.idx DESC" else "t.height, t.idx")
      ∷ " LIMIT "
      ∷ number (min (max spec.first 1) 1000 + 1)
      ∷ [])

-- `after` of `query`
unfoldable pub cursor_of : Spec → Result DomainError (Option (ℤ × ℤ))
unfolding parse_cursor
cursor_of spec = elim spec.after [
  | none ↦ ok none
  | some c ↦ map_err as_domain (parse_cursor c) >>= λ k. ok (some k)
]

abbrev pub with_keyset : Spec → Option (ℤ × ℤ) → List String × List Bind → List String × List Bind
with_keyset spec none (conds, binds) = (conds, binds)
with_keyset spec (some (h, i)) (conds, binds) =
    (conds ++ keyset spec.descending (length binds) ∷ [], binds ++ Bind.int h ∷ Bind.int i ∷ [])

-- The statement and the binds of `query`.
unfoldable pub query_sql : Tables → Spec → Option (Result DomainError (String × List Bind))
unfolding validate_table find filters_loop cursor_of select_sql keyset
query_sql tables spec = elim (validate_table tables spec) [
  | err e ↦ some (err e)
  | ok table ↦
      Option.map
        (λ r. do
          wheres ← r
          after ← cursor_of spec
          ok (
            select_sql tables table (Option.get_or (find str_eq table tables) []) spec
                (with_keyset spec after wheres).0,
            (with_keyset spec after wheres).1,
          ))
        (build_filters tables table spec.filters)
]

-- Those of `count`.
unfoldable pub count_sql : Tables → Spec → Option (Result DomainError (String × List Bind))
unfolding validate_table filters_loop
count_sql tables spec = elim (validate_table tables spec) [
  | err e ↦ some (err e)
  | ok table ↦
      Option.map
        (λ r. do
          wheres ← r
          ok (
            texts ("SELECT count(*) FROM " ∷ table ∷ " t" ∷ where_clause wheres.0 ∷ []),
            wheres.1,
          ))
        (build_filters tables table spec.filters)
]
