-- ===== src/Abi.antt =====
-- crates/abi-schema/src/lib.rs and crates/abi/src: the schemas of events and functions, the index over
-- the contracts of a chain, and the decoding of records and calldata. JSON and the ABI codec are
-- third-party crates, whose results are parameters: a parsed ABI, and the values of a log or a call.
pub mod Values
pub mod Index
use topic.Base.{
  ℕ, zero, suc, ◌+◌, ◌-◌, ◌*◌, Bool, true, false, ◌&&◌, ◌||◌, Option, none, some, List, [], ◌∷◌,
  ◌++◌, String, ltb, leb, ◌==◌, if◌then◌else◌, length, drop,
}
use topic.Text.{codes, text, append, starts_with, ends_with, codes_eq, decimal, is_digit}
use topic.Codec.Hex
use topic.Codec.Idents.{to_snake_case, is_empty}
use topic.Model.{Bytes, Hash}
use topic.Schema.{ColumnType, ColumnDef, EventSchema, event_pk, tx_pk}

-- A parameter of the JSON ABI. Its type is the text of the ABI.
pub record Param : Type 0 where
  pub name : List ℕ
  pub ty : List ℕ
  pub indexed : Bool

-- An event or a function, with its selector, which the crate hashes from the signature.
pub record Item : Type 0 where
  pub name : String
  pub inputs : List Param
  pub selector : Bytes

-- `n.parse::<u16>()`: an optional `+` and digits, up to 65535.
unfoldable pub parse_digits : ℕ → List ℕ → Option ℕ
parse_digits n [] = if leb n 65535 then some n else none
parse_digits n (c ∷ s) = if is_digit c then parse_digits (n * 10 + (c - b'0')) s else none

abbrev pub strip_plus : List ℕ → List ℕ
strip_plus [] = []
strip_plus (c ∷ s) = if c == b'+' then s else c ∷ s

unfoldable pub parse_u16 : List ℕ → Option ℕ
unfolding parse_digits
parse_u16 s = if is_empty (strip_plus s) then none else parse_digits 0 (strip_plus s)

-- `parse_bits`, for a type that begins with the prefix.
unfoldable pub parse_bits : List ℕ → List ℕ → ℕ
unfolding parse_u16
parse_bits ty prefix = elim (parse_u16 (drop (length prefix) ty)) [ none ↦ 256 | some n ↦ n ]

unfoldable pub col_name : ℕ → List ℕ → String
unfolding text decimal to_snake_case
col_name i raw = if is_empty raw then append "arg" (text (decimal i)) else text (to_snake_case raw)

-- `matches!(ty, …)` on a literal
abbrev pub is_type : String → List ℕ → Bool
is_type t ty = codes_eq ty (codes t)

abbrev pub begins : String → List ℕ → Bool
begins t ty = starts_with (codes t) ty

unfoldable pub column_type_for : List ℕ → ColumnType
unfolding starts_with ends_with codes_eq parse_bits
column_type_for ty =
    if ends_with b']' ty || begins "(" ty || is_type "tuple" ty
    then ColumnType.json
    else if is_type "address" ty
    then ColumnType.address
    else if is_type "bool" ty
    then ColumnType.boolean
    else if is_type "string" ty
    then ColumnType.utf8
    else if is_type "bytes" ty
    then ColumnType.blob
    else if begins "bytes" ty
    then ColumnType.blob
    else if begins "uint" ty
    then ColumnType.uint (parse_bits ty (codes "uint"))
    else if begins "int" ty
    then ColumnType.int (parse_bits ty (codes "int"))
    else ColumnType.blob

-- `indexed_hash` of a parameter.
unfoldable pub is_hashed : Param → Bool
unfolding ends_with codes_eq
is_hashed p = p.indexed && (is_type "string" p.ty || is_type "bytes" p.ty || ends_with b']' p.ty)

-- The column of the i-th parameter of an event.
unfoldable pub event_column : ℕ → Param → ColumnDef
unfolding is_hashed col_name column_type_for
event_column i p =
    if is_hashed p
    then record {
      name = append (col_name i p.name) "_hash";
      ty = ColumnType.blob;
      indexed_hash = true;
    }
    else record { name = col_name i p.name; ty = column_type_for p.ty; indexed_hash = false }

-- `columns` and `indexed_positions` of the parameters from the i-th on.
unfoldable pub event_columns : ℕ → List Param → List ColumnDef
unfolding event_column
event_columns i [] = []
event_columns i (p ∷ ps) = event_column i p ∷ event_columns (suc i) ps

unfoldable pub indexed_from : ℕ → List Param → List ℕ
indexed_from i [] = []
indexed_from i (p ∷ ps) = if p.indexed then i ∷ indexed_from (suc i) ps else indexed_from (suc i) ps

-- `{:#x}` of a selector
unfoldable pub hex_text : Bytes → String
unfolding text Hex.hex_encode
hex_text b = append "0x" (text (Hex.hex_encode b))

unfoldable pub schema_for : Item → String → EventSchema
unfolding event_columns indexed_from hex_text
schema_for event table = record {
  table = table;
  event = event.name;
  topic0 = some (hex_text event.selector);
  columns = event_columns 0 event.inputs;
  indexed_positions = indexed_from 0 event.inputs;
  pk_columns = event_pk;
}

unfoldable pub call_columns : ℕ → List Param → List ColumnDef
unfolding col_name column_type_for
call_columns i [] = []
call_columns i (p ∷ ps) =
    record { name = col_name i p.name; ty = column_type_for p.ty; indexed_hash = false }
    ∷ call_columns (suc i) ps

unfoldable pub schema_for_function : Item → String → EventSchema
unfolding call_columns
schema_for_function func table = record {
  table = table;
  event = func.name;
  topic0 = none;
  columns = call_columns 0 func.inputs;
  indexed_positions = [];
  pk_columns = tx_pk;
}
