-- ===== src/Abi/Values.antt =====
-- crates/abi/src/decode.rs: the values of a log or of calldata as the values of a row. A panic of the
-- code is `none`.
pub mod Types
pub mod Typed
use mathlib.Core.Option
use topic.Base.{
  ℕ, suc, Bool, true, false, ◌&&◌, Option, none, some, List, [], ◌∷◌, String, ltb, ◌==◌,
  if◌then◌else◌, length, take, drop,
}
use topic.Base.Results.{Result, ok, err, ◌>>=◌}
use topic.Text.{text, append, decimal}
use topic.Codec.Hex
use topic.Model.{Bytes, Hash, RawRecord, DecodedEvent, EventValue}
use topic.Schema.{ColumnDef, EventSchema}
use topic.Abi.{Item, Param}

pub data DecodeError : Type 0 where
  abi decode : String → DecodeError

-- `DynSolValue`; a signed number is its sign and its magnitude.
mutual
  pub data DynValue : Type 0 where
    address bytes function : Bytes → DynValue
    boolean : Bool → DynValue
    uint : ℕ → ℕ → DynValue
    int : Bool → ℕ → ℕ → DynValue
    fixed_bytes : Bytes → ℕ → DynValue
    string : String → DynValue
    array fixed_array tuple : Values → DynValue

  pub data Values : Type 0 where
    nil : Values
    cons : DynValue → Values → Values

-- `serde_json::Value`, as far as `to_json` builds it.
mutual
  pub data Json : Type 0 where
    null : Json
    flag : Bool → Json
    quoted : String → Json
    list : Jsons → Json

  pub data Jsons : Type 0 where
    nil : Jsons
    cons : Json → Jsons → Jsons

-- What the ABI crate and the JSON crate do: the indexed and the other values of a log, the values of
-- calldata behind the selector, and the text of a JSON value.
pub record Codec : Type 0 where
  pub decode_log : Item → List Hash → Bytes → Result String (List DynValue × List DynValue)
  pub decode_input : Item → Bytes → Result String (List DynValue)
  pub render : Json → String

abbrev pub signed : Bool → ℕ → String
signed true n = append "-" (text (decimal n))
signed false n = text (decimal n)

abbrev pub hex_0x : Bytes → String
hex_0x b = append "0x" (text (Hex.hex_encode b))

unfoldable mutual
  unfolding Hex.hex_encode text decimal

  pub to_json : DynValue → Json
  to_json (DynValue.address a) = quoted (hex_0x a)
  to_json (DynValue.boolean b) = flag b
  to_json (DynValue.uint n bits) = quoted (text (decimal n))
  to_json (DynValue.int neg n bits) = quoted (signed neg n)
  to_json (DynValue.bytes b) = quoted (hex_0x b)
  to_json (DynValue.fixed_bytes w size) = quoted (hex_0x (take size w))
  to_json (DynValue.string s) = quoted s
  to_json (DynValue.array vs) = list (to_jsons vs)
  to_json (DynValue.fixed_array vs) = list (to_jsons vs)
  to_json (DynValue.tuple vs) = list (to_jsons vs)
  to_json (DynValue.function b) = null

  pub to_jsons : Values → Jsons
  to_jsons Values.nil = Jsons.nil
  to_jsons (Values.cons v vs) = Jsons.cons (to_json v) (to_jsons vs)

unfoldable pub to_hash : DynValue → Bytes
to_hash (DynValue.fixed_bytes w size) = w
to_hash _ = []

unfoldable pub to_value : Codec → DynValue → EventValue
unfolding text decimal to_json
to_value codec (DynValue.address a) = EventValue.address a
to_value codec (DynValue.boolean b) = EventValue.bool b
to_value codec (DynValue.uint n bits) = EventValue.uint (text (decimal n))
to_value codec (DynValue.int neg n bits) = EventValue.int (signed neg n)
to_value codec (DynValue.bytes b) = EventValue.bytes b
to_value codec (DynValue.fixed_bytes w size) = EventValue.bytes (take size w)
to_value codec (DynValue.string s) = EventValue.string s
to_value codec other = EventValue.json (codec.render (to_json other))

abbrev pub Fields : Type 0
Fields = List (String × EventValue)

-- The field of a column, before the fields that follow.
abbrev pub put_field :
    String × EventValue → Option (Result DecodeError Fields) → Option (Result DecodeError Fields)
put_field f rest = Option.map (λ (r : Result DecodeError Fields). r >>= λ fs. ok (f ∷ fs)) rest

unfoldable pub field_of : Codec → ColumnDef → DynValue → String × EventValue
unfolding to_hash to_value
field_of codec col v =
    (col.name, if col.indexed_hash then EventValue.hash (to_hash v) else to_value codec v)

-- The loop of `decode_event` over the inputs and their columns, with the values that the two iterators
-- still have.
unfoldable pub event_fields :
    Codec
    → List ColumnDef
    → List Param
    → List DynValue
    → List DynValue
    → Option (Result DecodeError Fields)
unfolding field_of
event_fields codec cols [] indexed body = some (ok [])
event_fields codec [] (p ∷ ps) indexed body = none
event_fields codec (col ∷ cols) (p ∷ ps) indexed body = elim p.indexed [
  | true ↦ elim indexed [
    | [] ↦ some (err (decode "missing indexed value"))
    | v ∷ vs ↦ put_field (field_of codec col v) (event_fields codec cols ps vs body)
  ]
  | false ↦ elim body [
    | [] ↦ some (err (decode "missing body value"))
    | v ∷ vs ↦ put_field (col.name, to_value codec v) (event_fields codec cols ps indexed vs)
  ]
]

-- `B256::from_slice` of every selector.
abbrev pub are_words : List Hash → Bool
are_words [] = true
are_words (h ∷ hs) = length h == 32 && are_words hs

abbrev pub event_of : String → Result DecodeError Fields → Result DecodeError DecodedEvent
event_of table r = r >>= λ fs. ok (record { table = table; fields = fs })

unfoldable pub decode_event :
    Codec → Item → EventSchema → RawRecord → Option (Result DecodeError DecodedEvent)
unfolding event_fields
decode_event codec event schema raw =
    if are_words raw.selectors
    then elim (codec.decode_log event raw.selectors raw.payload) [
      | err e ↦ some (err (decode e))
      | ok (indexed, body) ↦
          Option.map (event_of schema.table)
            (event_fields codec schema.columns event.inputs indexed body)
    ]
    else none

-- The loop of `decode_call`.
unfoldable pub call_fields :
    Codec → List ColumnDef → List DynValue → Option (Result DecodeError Fields)
unfolding to_value
call_fields codec cols [] = some (ok [])
call_fields codec [] (v ∷ vs) = none
call_fields codec (col ∷ cols) (v ∷ vs) =
    put_field (col.name, to_value codec v) (call_fields codec cols vs)

unfoldable pub decode_call :
    Codec → Item → EventSchema → Bytes → Option (Result DecodeError DecodedEvent)
unfolding call_fields
decode_call codec func schema input =
    if ltb (length input) 4 then none else elim (codec.decode_input func (drop 4 input)) [
      | err e ↦ some (err (decode e))
      | ok values ↦ Option.map (event_of schema.table) (call_fields codec schema.columns values)
    ]
