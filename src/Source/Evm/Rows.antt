-- ===== src/Source/Evm/Rows.antt =====
-- crates/source/src/decoder.rs: the tables of the rows that a decoder gives.
use mathlib.Core.Option
use topic.Base.{
  ◌≡◌, refl, sym, ap, ◌∙◌, subst, inl, inr, Option, none, some, List, [], ◌∷◌, String, ltb, ◌==◌,
  Bool-cases, Option-cases, length, take, drop,
}
use topic.Base.Results.{Result, ok, err, Result-cases}
use topic.Model.{Bytes, Hash, RawRecord, TxCalldata, EventRow, DecodedEvent, hash_eq}
use topic.Schema.{EventSchema}
use topic.Abi.{Item}
use topic.Abi.Values
use topic.Abi.Values.{Codec, DecodeError, Fields, event_of}
use topic.Abi.Index
use topic.Abi.Index.{
  AbiIndex, ContractSpec, JsonAbi, Entry, CallKey, Decoded, as_row, record_row, call_row, find,
  same_call, decode_by, build,
}
use topic.Abi.Index.Tables.{AreOther, find-All}
use topic.Decode.Tables.{IsOther}
use topic.Source.Evm.{ported}

-- The event of a row whose decoding went through.
as_row-some :
    (f : DecodedEvent → EventRow) (o : Option (Result DecodeError DecodedEvent)) (row : EventRow)
    → as_row f o ≡ some (ok (some row))
    → (d : DecodedEvent) × (o ≡ some (ok d)) × (row ≡ f d)
as_row-some f none row e = cc
as_row-some f (some (err x)) row e = cc
as_row-some f (some (ok d)) row e = (d, refl, cc)

pub ported-ok : (o : Decoded) (x : Option EventRow) → ported o ≡ ok x → o ≡ some (ok x)
ported-ok none x e = cc
ported-ok (some (err y)) x e = cc
ported-ok (some (ok y)) x e = cc

event_of-table :
    (table : String) (o : Option (Result DecodeError Fields)) (d : DecodedEvent)
    → Option.map (event_of table) o ≡ some (ok d)
    → d.table ≡ table
event_of-table table none d e = cc
event_of-table table (some (err x)) d e = cc
event_of-table table (some (ok fs)) d e =
    let p : ◌≡◌ {A = Option (Result DecodeError DecodedEvent)}
        (some (ok (record { table = table; fields = fs }))) (some (ok d)) =
      e in
    sym (ap (λ (d : DecodedEvent). d.table) (decoded_injective p))
  where
    decoded_injective :
        {a b : DecodedEvent}
        → ◌≡◌ {A = Option (Result DecodeError DecodedEvent)} (some (ok a)) (some (ok b))
        → a ≡ b
    decoded_injective h = cc

pub none-some : {A : Type 0} {a : A} → ◌≡◌ {A = Option A} none (some a) → ⊥
none-some h = cc

err-some :
    {x : DecodeError} {d : DecodedEvent}
    → ◌≡◌ {A = Option (Result DecodeError DecodedEvent)} (some (err x)) (some (ok d))
    → ⊥
err-some h = cc

decode_event-table :
    (codec : Codec) (event : Item) (schema : EventSchema) (raw : RawRecord) (d : DecodedEvent)
    → Values.decode_event codec event schema raw ≡ some (ok d)
    → d.table ≡ schema.table
unfolding Values.decode_event
decode_event-table codec event schema raw d = elim (Bool-cases (Values.are_words raw.selectors)) [
  | inr w ↦ rw (w, Values.decode_event) (λ e. absurd (none-some e))
  | inl w ↦ elim (Result-cases (codec.decode_log event raw.selectors raw.payload)) [
    | inr (x, k) ↦ rw (w, k, Values.decode_event) (λ e. absurd (err-some e))
    | inl ((indexed, body), k) ↦
        rw (w, k, Values.decode_event) (λ e. event_of-table schema.table _ d e)
  ]
]

decode_call-table :
    (codec : Codec) (func : Item) (schema : EventSchema) (input : Bytes) (d : DecodedEvent)
    → Values.decode_call codec func schema input ≡ some (ok d)
    → d.table ≡ schema.table
unfolding Values.decode_call
decode_call-table codec func schema input d = elim (Bool-cases (ltb (length input) 4)) [
  | inl w ↦ rw (w, Values.decode_call) (λ e. absurd (none-some e))
  | inr w ↦ elim (Result-cases (codec.decode_input func (drop 4 input))) [
    | inr (x, k) ↦ rw (w, k, Values.decode_call) (λ e. absurd (err-some e))
    | inl (values, k) ↦ rw (w, k, Values.decode_call) (λ e. event_of-table schema.table _ d e)
  ]
]

-- The table of a decoded row is the one of the entry that its record or call was routed to.
as_row-table :
    (f : DecodedEvent → EventRow) (o : Option (Result DecodeError DecodedEvent)) (table : String)
    (row : EventRow)
    → ((d : DecodedEvent) → (f d).event ≡ d)
    → ((d : DecodedEvent) → o ≡ some (ok d) → d.table ≡ table)
    → as_row f o ≡ some (ok (some row))
    → row.event.table ≡ table
as_row-table f o table row keeps h e =
    let (d, p, q) = as_row-some f o row e in
    ap (λ (r : EventRow). r.event.table) q ∙ ap (λ (d : DecodedEvent). d.table) (keeps d) ∙ h d p

skipped-some : {row : EventRow} → ◌≡◌ {A = Decoded} (some (ok none)) (some (ok (some row))) → ⊥
skipped-some h = cc

pub decode_by-IsOther :
    (codec : Codec) (index : AbiIndex) (raw : RawRecord) (selectors : List Hash) (row : EventRow)
    → AreOther index
    → decode_by codec index raw selectors ≡ some (ok (some row))
    → IsOther row.event.table
unfolding decode_by
decode_by-IsOther codec index raw [] row own = λ e. absurd (skipped-some e)
decode_by-IsOther codec index raw (sel0 ∷ more) row own = elim (Bool-cases (length sel0 == 32)) [
  | inr l ↦ rw (l, decode_by) (λ e. absurd (skipped-some e))
  | inl l ↦ elim (Option-cases (find hash_eq sel0 index.by_topic0)) [
    | inl k ↦ rw (l, k, decode_by) (λ e. absurd (skipped-some e))
    | inr (entry, k) ↦
        let other =
          find-All hash_eq (λ (e : Entry). IsOther e.schema.table) sel0 index.by_topic0 entry
            own.events k in
        rw (l, k, decode_by)
          (λ e.
            subst IsOther
              (sym (
                as_row-table (record_row raw) _ entry.schema.table row (λ d. refl)
                  (decode_event-table codec entry.item entry.schema raw) e))
              other)
  ]
]

pub call-IsOther :
    (codec : Codec) (index : AbiIndex) (tx : TxCalldata) (row : EventRow)
    → AreOther index
    → Index.decode_call codec index tx ≡ some (ok (some row))
    → IsOther row.event.table
unfolding Index.decode_call
call-IsOther codec index tx row own = elim (Bool-cases (ltb (length tx.input) 4)) [
  | inl l ↦ rw (l, Index.decode_call) (λ e. absurd (skipped-some e))
  | inr l ↦ elim (Option-cases (find same_call (tx.to_addr, take 4 tx.input) index.by_call)) [
    | inl k ↦ rw (l, k, Index.decode_call) (λ e. absurd (skipped-some e))
    | inr (entry, k) ↦
        let other =
          find-All same_call (λ (e : Entry). IsOther e.schema.table) (tx.to_addr, take 4 tx.input)
            index.by_call entry own.calls k in
        rw (l, k, Index.decode_call)
          (λ e.
            subst IsOther
              (sym (
                as_row-table (call_row tx) _ entry.schema.table row (λ d. refl)
                  (decode_call-table codec entry.item entry.schema tx.input) e))
              other)
  ]
]
