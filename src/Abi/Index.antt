-- ===== src/Abi/Index.antt =====
-- crates/abi/src/lib.rs: the index over the contracts of a chain, and the routing of records and calls. A
-- `HashMap` keeps its entries in the order in which their keys were first put.
pub mod Tables
use mathlib.Core.Option
use topic.Base.{
  ℕ, Bool, true, false, not, ◌&&◌, ◌||◌, Option, none, some, List, [], ◌∷◌, map, String, str_eq,
  ltb, ◌==◌, if◌then◌else◌, length, take,
}
use topic.Base.Results.{DomainError, Result, ok, err, ◌>>=◌, map_err}
use topic.Text.{codes, text, append, to_lower}
use topic.Model.{Bytes, Hash, hash_eq, RawRecord, TxCalldata, EventRow, DecodedEvent}
use topic.Schema.{EventSchema}
use topic.Abi.{Item, schema_for, schema_for_function}
use topic.Abi.Values
use topic.Abi.Values.{Codec, DecodeError, abi}

module _ {K V : Type 0} (same : K → K → Bool) where
  unfoldable pub find : K → List (K × V) → Option V
  find k [] = none
  find k ((j, v) ∷ m) = if same j k then some v else find k m

  unfoldable pub put : K → V → List (K × V) → List (K × V)
  put k v [] = (k, v) ∷ []
  put k v ((j, w) ∷ m) = if same j k then (j, v) ∷ m else (j, w) ∷ put k v m

-- `Entry` and `CallEntry`
pub record Entry : Type 0 where
  pub item : Item
  pub schema : EventSchema

abbrev pub CallKey : Type 0
CallKey = Bytes × Bytes

unfoldable pub same_call : CallKey → CallKey → Bool
unfolding hash_eq
same_call (a, s) (b, t) = hash_eq a b && hash_eq s t

pub record AbiIndex : Type 0 where
  pub by_topic0 : List (Bytes × Entry)
  pub by_call : List (CallKey × Entry)

abbrev pub empty_index : AbiIndex
empty_index = record { by_topic0 = []; by_call = [] }

pub record ContractSpec : Type 0 where
  pub abi_json : String
  pub events : List String
  pub functions : List String
  pub address : Bytes
  pub table_prefix : String
  pub table_override : Option String

-- `JsonAbi`
pub record JsonAbi : Type 0 where
  pub events : List Item
  pub functions : List Item

abbrev pub lists : List String → String → Bool
lists [] n = false
lists (m ∷ names) n = str_eq m n || lists names n

abbrev pub is_none : List String → Bool
is_none [] = true
is_none (n ∷ names) = false

-- The name of the table of an event; `to_lowercase` is that of ASCII, to which Solidity's names belong.
unfoldable pub event_table : ContractSpec → Item → String
unfolding text to_lower
event_table spec event = elim spec.table_override [
  | some t ↦ t
  | none ↦
      append "evt_" (append spec.table_prefix (append "_" (text (to_lower (codes event.name)))))
]

unfoldable pub call_table : ContractSpec → Item → String
unfolding text to_lower
call_table spec function =
    append "call_" (append spec.table_prefix (append "_" (text (to_lower (codes function.name)))))

abbrev pub wants_event : ContractSpec → Item → Bool
wants_event spec event = is_none spec.events || lists spec.events event.name

-- The two loops of `build` over the items of one contract.
unfoldable pub add_events : ContractSpec → List Item → List (Bytes × Entry) → List (Bytes × Entry)
unfolding put hash_eq event_table schema_for
add_events spec [] m = m
add_events spec (e ∷ events) m = add_events spec events (
    if wants_event spec e
    then put hash_eq e.selector (record { item = e; schema = schema_for e (event_table spec e) }) m
    else m)

unfoldable pub add_calls :
    ContractSpec → List Item → List (CallKey × Entry) → List (CallKey × Entry)
unfolding put same_call call_table schema_for_function
add_calls spec [] m = m
add_calls spec (f ∷ functions) m = add_calls spec functions (
    if lists spec.functions f.name
    then put same_call (spec.address, f.selector)
        (record { item = f; schema = schema_for_function f (call_table spec f) }) m
    else m)

-- The loop of `build`, with the index so far. `parse` reads the JSON of an ABI.
unfoldable pub build_from :
    (String → Result String JsonAbi) → List ContractSpec → AbiIndex → Result DecodeError AbiIndex
unfolding add_events add_calls
build_from parse [] index = ok index
build_from parse (spec ∷ specs) index = elim (parse spec.abi_json) [
  | err e ↦ err (abi (append "parse abi: " e))
  | ok json ↦ build_from parse specs (record {
    by_topic0 = add_events spec json.events index.by_topic0;
    by_call = add_calls spec json.functions index.by_call;
  })
]

unfoldable pub build :
    (String → Result String JsonAbi) → List ContractSpec → Result DecodeError AbiIndex
unfolding build_from
build parse specs = build_from parse specs empty_index

unfoldable pub schemas : AbiIndex → List EventSchema
schemas index = map (λ (e : Bytes × Entry). e.1.schema) index.by_topic0

unfoldable pub call_schemas : AbiIndex → List EventSchema
call_schemas index = map (λ (e : CallKey × Entry). e.1.schema) index.by_call

unfoldable pub topic0s : AbiIndex → List Hash
topic0s index = map (λ (e : Bytes × Entry). e.0) index.by_topic0

unfoldable pub call_is_empty : AbiIndex → Bool
call_is_empty index = elim index.by_call [ [] ↦ true | e ∷ m ↦ false ]

-- The outcome of a decoding: `none` is a panic.
abbrev pub Decoded : Type 0
Decoded = Option (Result DecodeError (Option EventRow))

abbrev pub skipped : Decoded
skipped = some (ok none)

-- The row of a record, and of a transaction, once its event is decoded.
abbrev pub record_row : RawRecord → DecodedEvent → EventRow
record_row raw event = record {
  chain_id = raw.chain_id;
  height = raw.height;
  block_hash = raw.block_hash;
  block_time = none;
  tx_id = raw.tx_id;
  index = raw.index;
  event = event;
}

abbrev pub call_row : TxCalldata → DecodedEvent → EventRow
call_row tx event = record {
  chain_id = tx.chain_id;
  height = tx.height;
  block_hash = tx.block_hash;
  block_time = none;
  tx_id = tx.tx_id;
  index = tx.tx_index;
  event = event;
}

abbrev pub as_row : (DecodedEvent → EventRow) → Option (Result DecodeError DecodedEvent) → Decoded
as_row row o = Option.map (λ (r : Result DecodeError DecodedEvent). r >>= λ d. ok (some (row d))) o

-- `AbiIndex::decode`, given the selectors of the record.
unfoldable pub decode_by : Codec → AbiIndex → RawRecord → List Hash → Decoded
unfolding find hash_eq Values.decode_event
decode_by codec index raw [] = skipped
decode_by codec index raw (sel0 ∷ more) =
    if length sel0 == 32
    then elim (find hash_eq sel0 index.by_topic0) [
      | none ↦ skipped
      | some entry ↦ as_row (record_row raw) (Values.decode_event codec entry.item entry.schema raw)
    ]
    else skipped

unfoldable pub decode : Codec → AbiIndex → RawRecord → Decoded
unfolding decode_by
decode codec index raw = decode_by codec index raw raw.selectors

-- `AbiIndex::decode_call`
unfoldable pub decode_call : Codec → AbiIndex → TxCalldata → Decoded
unfolding find same_call Values.decode_call
decode_call codec index tx =
    if ltb (length tx.input) 4
    then skipped
    else elim (find same_call (tx.to_addr, take 4 tx.input) index.by_call) [
      | none ↦ skipped
      | some entry ↦
          as_row (call_row tx) (Values.decode_call codec entry.item entry.schema tx.input)
    ]
