-- ===== src/Source/Evm/Own.antt =====
-- The decoder that is built from a configuration writes to no aux table, as `decode_range` needs it.
use mathlib.Core.Option
use topic.Base.{◌≡◌, subst, inl, inr, Option, none, some, List, [], ◌∷◌, String, All, Option-cases}
use topic.Base.Results.{Result, ok, err, ◌>>=◌, >>=-eq-ok, ok-injective, Result-cases, map_err}
use topic.Model.{Bytes}
use topic.Abi.Values.{Codec}
use topic.Abi.Index
use topic.Abi.Index.{
  AbiIndex, ContractSpec, JsonAbi, Entry, CallKey, Decoded, as_row, record_row, call_row, find,
  same_call, decode_by, build,
}
use topic.Abi.Index.Tables.{AreOther, IsOwn, build-AreOther}
use topic.Decode.Tables.{IsOther, HasOwnTables}
use topic.Source.{SourceError}
use topic.Source.Evm.{
  EvmDecoder, ContractCfg, Specs, decoder_of, parse_addr, specs_of, decoder_from, build_evm_decoder,
  table_prefix, error_text,
}
use topic.Source.Evm.Rows.{ported-ok, none-some, decode_by-IsOther, call-IsOther}

decoder_of-HasOwnTables :
    (codec : Codec) (d : EvmDecoder) → AreOther d.abi → HasOwnTables (decoder_of codec d)
unfolding decoder_of Index.decode
decoder_of-HasOwnTables codec d own = (
  (λ r row e. decode_by-IsOther codec d.abi r r.selectors row own (ported-ok _ (some row) e)),
  (λ t row e. call-IsOther codec d.abi t row own (ported-ok _ (some row) e)),
)

-- A contract of the configuration gives its events no table named like that of the transactions.
abbrev pub IsNamed : ContractCfg → Type 0
IsNamed c = (t : String) → c.table ≡ some t → IsOther t

abbrev AllOwn : Option (Result SourceError Specs) → Type 0
AllOwn none = Unit {0}
AllOwn (some (err e)) = Unit {0}
AllOwn (some (ok p)) = All IsOwn p.0

specs_more :
    (spec : ContractSpec) (a : Bytes) (o : Option (Result SourceError Specs))
    → IsOwn spec
    → AllOwn o
    → AllOwn
        (Option.map (λ (more : Result SourceError Specs). more >>= λ p. ok (spec ∷ p.0, a ∷ p.1)) o)
specs_more spec a none own h = tt
specs_more spec a (some (err e)) own h = tt
specs_more spec a (some (ok p)) own h = (own, h)

specs_of-IsOwn :
    (read : String → Result String String) (contracts : List ContractCfg)
    → All IsNamed contracts
    → AllOwn (specs_of read contracts)
unfolding specs_of
specs_of-IsOwn read [] h = tt
specs_of-IsOwn read (c ∷ contracts) h = elim (Result-cases (read c.abi)) [
  | inr (x, k) ↦ rw (k, specs_of) tt
  | inl (json, k) ↦ elim (Option-cases (parse_addr c.address)) [
    | inl p ↦ rw (k, p, specs_of) tt
    | inr (err x, p) ↦ rw (k, p, specs_of) tt
    | inr (ok address, p) ↦
        rw (k, p, specs_of)
          (specs_more
            (record {
              abi_json = json;
              events = c.events;
              functions = c.functions;
              address = address;
              table_prefix = table_prefix c.abi;
              table_override = c.table;
            })
            address (specs_of read contracts) h.0 (specs_of-IsOwn read contracts h.1))
  ]
]

map_err-ok : {E F A : Type 0} (f : E → F) (r : Result E A) (a : A) → map_err f r ≡ ok a → r ≡ ok a
map_err-ok f (ok b) a h = cc
map_err-ok f (err e) a h = cc

decoder_injective :
    {a : Result SourceError EvmDecoder} {d : EvmDecoder}
    → ◌≡◌ {A = Option (Result SourceError EvmDecoder)} (some a) (some (ok d))
    → a ≡ ok d
decoder_injective h = cc

built_from :
    (parse : String → Result String JsonAbi) (o : Option (Result SourceError Specs))
    (d : EvmDecoder)
    → AllOwn o
    → Option.map (λ (r : Result SourceError Specs). r >>= decoder_from parse) o ≡ some (ok d)
    → AreOther d.abi
built_from parse none d own e = absurd (none-some e)
built_from parse (some (err x)) d own e = cc
built_from parse (some (ok (specs, addresses))) d own e =
    let (index, p, q) =
      >>=-eq-ok (map_err (λ e. SourceError.malformed (error_text e)) (build parse specs))
        (λ index. ok (record { abi = index; addresses = addresses })) (decoder_injective e) in
    let other =
      build-AreOther parse specs index own
        (map_err-ok (λ e. SourceError.malformed (error_text e)) (build parse specs) index p) in
    subst (λ (d : EvmDecoder). AreOther d.abi) (ok-injective q) other

-- A decoder that is built from contracts which name no table of their own `transactions` decodes neither
-- a record nor a call to a row of the transactions, which is what a second decoding of a range needs.
pub build_evm_decoder-HasOwnTables :
    (read : String → Result String String) (parse : String → Result String JsonAbi) (codec : Codec)
    (contracts : List ContractCfg) (d : EvmDecoder)
    → All IsNamed contracts
    → build_evm_decoder read parse contracts ≡ some (ok d)
    → HasOwnTables (decoder_of codec d)
unfolding build_evm_decoder
build_evm_decoder-HasOwnTables read parse codec contracts d named e =
    decoder_of-HasOwnTables codec d
      (built_from parse (specs_of read contracts) d (specs_of-IsOwn read contracts named) e)
