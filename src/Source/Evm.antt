-- ===== src/Source/Evm.antt =====
-- crates/source/src/decoder.rs: the decoder of an EVM chain, over the index of its contracts. Reading an
-- ABI file and parsing it are parameters.
pub mod Rows
pub mod Own
use mathlib.Core.Option
use topic.Base.{
  ℕ, Bool, true, false, not, ◌&&◌, ◌||◌, Option, none, some, List, [], ◌∷◌, ◌++◌, map, String, ◌==◌,
  if◌then◌else◌, length,
}
use topic.Base.Results.{DomainError, Result, ok, err, ◌>>=◌, map_err}
use topic.Text.{codes, utf8, text, append, is_lower, is_upper, is_digit, lower_code}
use topic.Codec.Hex
use topic.Model.{Bytes, RecordFilter, EventRow}
use topic.Schema.{EventSchema}
use topic.Abi.Values.{Codec, DecodeError, abi, decode}
use topic.Abi.Index.{
  AbiIndex, ContractSpec, JsonAbi, Decoded, build, schemas, call_schemas, topic0s, call_is_empty,
}
use topic.Abi.Index
use topic.Decode.{Decoder}
use topic.Source.{SourceError, malformed}
use topic.Source.Enrichment.{aux_schemas}

pub record EvmDecoder : Type 0 where
  pub abi : AbiIndex
  pub addresses : List Bytes

-- `DecodeError`'s text, and the conversion to `DomainError`.
abbrev pub error_text : DecodeError → String
error_text (abi e) = append "abi error: " e
error_text (decode e) = append "decode failed: " e

-- A decoding as the port has it. A panic ends the task of the worker, like an error the item's decoding.
abbrev pub ported : Decoded → Result DomainError (Option EventRow)
ported none = err (DomainError.decode "panic")
ported (some r) = map_err (λ e. DomainError.decode (error_text e)) r

unfoldable pub decoder_of : Codec → EvmDecoder → Decoder
unfolding Index.decode Index.decode_call call_is_empty
decoder_of codec d = record {
  decode = λ r. ported (Index.decode codec d.abi r);
  decode_call = λ t. ported (Index.decode_call codec d.abi t);
  has_calls = not (call_is_empty d.abi);
}

unfoldable pub decoder_schemas : EvmDecoder → List EventSchema
unfolding schemas call_schemas aux_schemas
decoder_schemas d = schemas d.abi ++ call_schemas d.abi ++ aux_schemas

unfoldable pub record_filter : EvmDecoder → RecordFilter
unfolding topic0s
record_filter d = record { addresses = d.addresses; selectors = topic0s d.abi }

-- A contract of the configuration.
pub record ContractCfg : Type 0 where
  pub address : String
  pub abi : String
  pub events : List String
  pub functions : List String
  pub table : Option String
  pub start_block : Option ℕ

-- `parse_addr`; `none` is a panic of `hex_decode`.
unfoldable pub parse_addr : String → Option (Result SourceError Bytes)
unfolding Hex.hex_decode utf8
parse_addr s =
    Option.map
      (λ (b : Option Bytes). elim b [
        | none ↦ err (malformed (append "bad address " s))
        | some a ↦ if length a == 20 then ok a else err (malformed (append "bad address " s))
      ])
      (Hex.hex_decode (utf8 (codes s)))

-- The part of a path behind the last `/`, for a path that does not end in one.
unfoldable pub file_name : List ℕ → List ℕ → List ℕ
file_name name [] = name
file_name name (c ∷ s) = if c == b'/' then file_name s s else file_name name s

-- A name up to its last `.`, or `none` if it has none: `rsplit_once`.
unfoldable pub before_dot : List ℕ → Option (List ℕ)
before_dot [] = none
before_dot (c ∷ s) = elim (before_dot s) [
  | some t ↦ some (c ∷ t)
  | none ↦ if c == b'.' then some [] else none
]

-- `file_stem`: a name that only begins with a dot is whole.
unfoldable pub file_stem : List ℕ → List ℕ
unfolding file_name before_dot
file_stem path =
    let name = file_name path path in
    elim (before_dot name) [ none ↦ name | some t ↦ elim t [ [] ↦ name | c ∷ s ↦ c ∷ s ] ]

abbrev pub prefix_char : ℕ → ℕ
prefix_char c = if is_lower c || is_upper c || is_digit c then lower_code c else b'_'

unfoldable pub table_prefix : String → String
unfolding file_stem text
table_prefix abi_path = text (map prefix_char (file_stem (codes abi_path)))

abbrev pub Specs : Type 0
Specs = List ContractSpec × List Bytes

-- The loop of `build_evm_decoder`: the specs and the addresses. The path of an ABI is the one that
-- `base_dir.join` gives, which has the same file name.
unfoldable pub specs_of :
    (String → Result String String) → List ContractCfg → Option (Result SourceError Specs)
unfolding parse_addr table_prefix
specs_of read [] = some (ok ([], []))
specs_of read (c ∷ contracts) =
    let rest = specs_of read contracts in
    elim (read c.abi) [
      | err e ↦ some (err (malformed (append "read abi " (append c.abi (append ": " e)))))
      | ok abi_json ↦ elim (parse_addr c.address) [
        | none ↦ none
        | some r ↦ elim r [
          | err e ↦ some (err e)
          | ok address ↦
              Option.map
                (λ (more : Result SourceError Specs). more >>= λ p. ok (
                  record {
                    abi_json = abi_json;
                    events = c.events;
                    functions = c.functions;
                    address = address;
                    table_prefix = table_prefix c.abi;
                    table_override = c.table;
                  }
                      ∷ p.0,
                  address ∷ p.1,
                ))
                rest
        ]
      ]
    ]

abbrev pub decoder_from : (String → Result String JsonAbi) → Specs → Result SourceError EvmDecoder
decoder_from parse (specs, addresses) =
    map_err (λ e. malformed (error_text e)) (build parse specs) >>= λ index.
    ok (record { abi = index; addresses = addresses })

unfoldable pub build_evm_decoder :
    (String → Result String String)
    → (String → Result String JsonAbi)
    → List ContractCfg
    → Option (Result SourceError EvmDecoder)
unfolding specs_of build
build_evm_decoder read parse contracts =
    Option.map (λ (r : Result SourceError Specs). r >>= decoder_from parse)
      (specs_of read contracts)
