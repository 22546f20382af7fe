-- ===== src/Tests/Abis.antt =====
-- crates/abi-schema, crates/abi and the decoder of crates/source: a token and its transfers.
use topic.Base.{
  ℕ, zero, suc, ◌≡◌, refl, sym, subst, ◌⊎◌, Bool, true, false, Option, none, some, List, [], ◌∷◌,
  ◌++◌, String, drop, map,
}
use topic.Base.Results.{Result, ok, err, ok-injective, ok-err}
use topic.Text.{codes}
use topic.Model.{Bytes, Hash, RawRecord, DecodedEvent}
use topic.Schema.{ColumnType}
use topic.Abi.{Param, Item, column_type_for, schema_for}
use topic.Abi.Values.{DynValue, Codec, decode, decode_event}
use topic.Abi.Values.Types.{SolType, HasType, AreValues, AreStorable, type_name, AreFitted}
use topic.Abi.Values.Typed.{IsFaithful, decode_event-AreFitted}
use topic.Source.{SourceError}
use topic.Schema.{EventSchema}
use topic.Abi.Index.{JsonAbi, empty_index, schemas, call_schemas}
use topic.Sql.Filters.{none-some}
use topic.Decode.Tables.{HasOwnTables}
use topic.Source.Evm.{EvmDecoder, ContractCfg, table_prefix, decoder_of, build_evm_decoder}
use topic.Source.Evm.Own.{build_evm_decoder-HasOwnTables}

column_type_for_uint : column_type_for (codes "uint256") ≡ ColumnType.uint 256
unfolding column_type_for
column_type_for_uint = refl

column_type_for_array : column_type_for (codes "address[]") ≡ ColumnType.json
unfolding column_type_for
column_type_for_array = refl

table_prefix_path : table_prefix "abis/Erc-20.v1.json" ≡ "erc_20_v1"
unfolding table_prefix
table_prefix_path = refl

abbrev param : String → String → Bool → Param
param name ty indexed = record { name = codes name; ty = codes ty; indexed = indexed }

abbrev transfer : Item
transfer = record {
  name = "Transfer";
  inputs =
      param "from" "address" true
      ∷ param "to" "address" true
      ∷ param "memo" "string" true
      ∷ param "value" "uint256" false
      ∷ [];
  selector = 221 ∷ 242 ∷ [];
}

abbrev types : List SolType
types = SolType.address ∷ SolType.address ∷ SolType.string ∷ SolType.uint 256 ∷ []

-- The last byte of a payload stands for its number.
abbrev last_byte : Bytes → ℕ
last_byte [] = 0
last_byte (b ∷ []) = b
last_byte (b ∷ c ∷ bs) = last_byte (c ∷ bs)

abbrev decode_log : Item → List Hash → Bytes → Result String (List DynValue × List DynValue)
decode_log event [] payload = err "topics"
decode_log event (s ∷ []) payload = err "topics"
decode_log event (s ∷ a ∷ []) payload = err "topics"
decode_log event (s ∷ a ∷ b ∷ []) payload = err "topics"
decode_log event (s ∷ a ∷ b ∷ m ∷ []) payload = ok (
  DynValue.address (drop 12 a) ∷ DynValue.address (drop 12 b) ∷ DynValue.fixed_bytes m 32 ∷ [],
  DynValue.uint (last_byte payload) 256 ∷ [],
)
decode_log event (s ∷ a ∷ b ∷ m ∷ n ∷ more) payload = err "topics"

abbrev codec : Codec
codec = record {
  decode_log = decode_log;
  decode_input = λ f input. ok (DynValue.uint (last_byte input) 256 ∷ []);
  render = λ j. "null";
}

codec-IsFaithful : IsFaithful codec transfer types
codec-IsFaithful [] payload indexed body e = absurd (ok-err (sym e))
codec-IsFaithful (s ∷ []) payload indexed body e = absurd (ok-err (sym e))
codec-IsFaithful (s ∷ a ∷ []) payload indexed body e = absurd (ok-err (sym e))
codec-IsFaithful (s ∷ a ∷ b ∷ []) payload indexed body e = absurd (ok-err (sym e))
codec-IsFaithful (s ∷ a ∷ b ∷ m ∷ []) payload indexed body e =
    subst (λ (vs : List DynValue × List DynValue). AreValues transfer.inputs types vs.0 vs.1)
      (ok-injective e)
      (AreValues.word refl refl HasType.address (
        AreValues.word refl refl HasType.address
          (AreValues.hashed refl refl (AreValues.value refl HasType.uint AreValues.done))))
codec-IsFaithful (s ∷ a ∷ b ∷ m ∷ n ∷ more) payload indexed body e = absurd (ok-err (sym e))

abbrev repeat : ℕ → ℕ → Bytes
repeat zero b = []
repeat (suc n) b = b ∷ repeat n b

abbrev raw : RawRecord
raw = record {
  chain_id = 1;
  height = 7;
  block_hash = 1 ∷ [];
  tx_id = 2 ∷ [];
  tx_index = 0;
  inner_index = none;
  index = 0;
  address = repeat 20 9;
  selectors = repeat 32 1 ∷ repeat 32 2 ∷ repeat 32 3 ∷ repeat 32 4 ∷ [];
  payload = repeat 32 5;
}

storable : AreStorable transfer.inputs types
unfolding type_name
storable = (refl, tt, (refl, tt, (refl, tt, (refl, tt, tt))))

decode_event-AreFitted_example :
    ((e : String) × (codec.decode_log transfer raw.selectors raw.payload ≡ err e)
      × (decode_event codec transfer (schema_for transfer "evt_token_transfer") raw
          ≡ some (err (decode e))))
    ⊎ ((d : DecodedEvent) × (decode_event codec transfer
            (schema_for transfer "evt_token_transfer")
            raw
          ≡ some (ok d))
        × (d.table ≡ "evt_token_transfer")
        × AreFitted (schema_for transfer "evt_token_transfer").columns d.fields)
decode_event-AreFitted_example =
    decode_event-AreFitted codec transfer types "evt_token_transfer" raw storable codec-IsFaithful
      refl

abbrev read : String → Result String String
read path = ok "[]"

abbrev parse : String → Result String JsonAbi
parse json = ok (record { events = transfer ∷ []; functions = transfer ∷ [] })

abbrev contract : ContractCfg
contract = record {
  address = "0x0909090909090909090909090909090909090909";
  abi = "abis/token.json";
  events = "Transfer" ∷ [];
  functions = "Transfer" ∷ [];
  table = none;
  start_block = some 19_000_000;
}

abbrev built : Option (Result SourceError EvmDecoder) → EvmDecoder
built none = record { abi = empty_index; addresses = [] }
built (some (err e)) = record { abi = empty_index; addresses = [] }
built (some (ok d)) = d

unfoldable decoder : EvmDecoder
unfolding build_evm_decoder
decoder = built (build_evm_decoder read parse (contract ∷ []))

is_built : build_evm_decoder read parse (contract ∷ []) ≡ some (ok decoder)
unfolding decoder build_evm_decoder
is_built = refl

-- Both kinds of table are there.
decoder_tables :
    map (λ (s : EventSchema). s.table) (schemas decoder.abi ++ call_schemas decoder.abi)
    ≡ "evt_token_transfer" ∷ "call_token_transfer" ∷ []
unfolding decoder schemas call_schemas
decoder_tables = refl

build_evm_decoder-HasOwnTables_example : HasOwnTables (decoder_of codec decoder)
build_evm_decoder-HasOwnTables_example =
    build_evm_decoder-HasOwnTables read parse codec (contract ∷ []) decoder
      ((λ t e. absurd (none-some e)), tt) is_built
