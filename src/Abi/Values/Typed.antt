-- ===== src/Abi/Values/Typed.antt =====
-- The values of a decoded log fit the columns of the schema that is built from the same event.
use topic.Base.{
  ℕ, suc, ◌≡◌, ◌≢◌, refl, sym, subst, ◌⊎◌, inl, inr, Bool, true, false, ◌||◌, some, List, [], ◌∷◌,
  String, Bool-cases,
}
use topic.Base.Results.{ok, err, Result-cases}
use topic.Text.{codes, decimal, codes_eq}
use topic.Model.{Bytes, Hash, RawRecord, DecodedEvent}
use topic.Schema.{ColumnType, ColumnDef}
use topic.Abi.{Item, Param, column_type_for, is_hashed, event_column, event_columns, schema_for}
use topic.Abi.Values.{
  DynValue, Codec, decode, Fields, to_value, field_of, event_fields, are_words, decode_event,
}
use topic.Abi.Values.Types.{
  SolType, type_name, HasType, is_long, AreValues, IsStorable, AreStorable, Fits, AreFitted,
  IsColumnOf, ends_with-array, column_type_for-name,
}

-- A value fits the column of its type, function pointers apart.
to_value-Fits :
    (codec : Codec) (t : SolType) (v : DynValue) (c : ColumnType)
    → t ≢ SolType.function
    → IsColumnOf t c
    → HasType t v
    → Fits c (to_value codec v)
unfolding to_value
to_value-Fits codec SolType.address _ c f e HasType.address = rw e Fits.address
to_value-Fits codec SolType.boolean _ c f e HasType.boolean = rw e Fits.boolean
to_value-Fits codec SolType.string _ c f e HasType.string = rw e Fits.utf8
to_value-Fits codec SolType.bytes _ c f e HasType.bytes = rw e Fits.blob
to_value-Fits codec SolType.function _ c f e HasType.function = absurd (f refl)
to_value-Fits codec SolType.tuple _ c f e HasType.tuple = rw e Fits.json
to_value-Fits codec (SolType.uint n) _ c f (k, e) HasType.uint = rw e Fits.uint
to_value-Fits codec (SolType.int n) _ c f (k, e) HasType.int = rw e Fits.int
to_value-Fits codec (SolType.fixed_bytes n) _ c f e HasType.fixed_bytes = rw e Fits.blob
to_value-Fits codec (SolType.array t) _ c f e HasType.array = rw e Fits.json
to_value-Fits codec (SolType.fixed_array t n) _ c f e HasType.fixed_array = rw e Fits.json

IsStorable-function : (p : Param) (t : SolType) → IsStorable p t → t ≢ SolType.function
IsStorable-function p SolType.function s = absurd s
IsStorable-function p SolType.address s = λ e. cc
IsStorable-function p SolType.boolean s = λ e. cc
IsStorable-function p SolType.string s = λ e. cc
IsStorable-function p SolType.bytes s = λ e. cc
IsStorable-function p SolType.tuple s = λ e. cc
IsStorable-function p (SolType.uint n) s = λ e. cc
IsStorable-function p (SolType.int n) s = λ e. cc
IsStorable-function p (SolType.fixed_bytes n) s = λ e. cc
IsStorable-function p (SolType.array t) s = λ e. cc
IsStorable-function p (SolType.fixed_array t n) s = λ e. cc

last_or : (a b : Bool) {c : Bool} → c ≡ true → (a || b || c) ≡ true
last_or true b h = refl
last_or false true h = refl
last_or false false h = h

-- A value that is longer than a word has a column for its hash, if it is indexed.
is_hashed-long :
    (p : Param) (t : SolType)
    → p.indexed ≡ true
    → p.ty ≡ type_name t
    → IsStorable p t
    → is_long t ≡ true
    → is_hashed p ≡ true
unfolding is_hashed type_name
is_hashed-long p SolType.string i e s l = rw (i, e, is_hashed)
is_hashed-long p SolType.bytes i e s l = rw (i, e, is_hashed)
is_hashed-long p SolType.tuple i e s l = cc
is_hashed-long p (SolType.array t) i e s l =
    let h = ends_with-array (type_name t) [] in
    rw (i, e, is_hashed)
      (last_or (codes_eq (type_name (SolType.array t)) (codes "string"))
        (codes_eq (type_name (SolType.array t)) (codes "bytes")) h)
is_hashed-long p (SolType.fixed_array t n) i e s l =
    let h = ends_with-array (type_name t) (decimal n) in
    rw (i, e, is_hashed)
      (last_or (codes_eq (type_name (SolType.fixed_array t n)) (codes "string"))
        (codes_eq (type_name (SolType.fixed_array t n)) (codes "bytes")) h)
is_hashed-long p SolType.address i e s l = cc
is_hashed-long p SolType.boolean i e s l = cc
is_hashed-long p SolType.function i e s l = cc
is_hashed-long p (SolType.uint n) i e s l = cc
is_hashed-long p (SolType.int n) i e s l = cc
is_hashed-long p (SolType.fixed_bytes n) i e s l = cc

hashed-Fits :
    (codec : Codec) (i : ℕ) (p : Param) (v : DynValue)
    → is_hashed p ≡ true
    → Fits (event_column i p).ty (field_of codec (event_column i p) v).1
unfolding event_column field_of
hashed-Fits codec i p v h = rw (h, event_column, field_of) Fits.digest

plain-Fits :
    (codec : Codec) (i : ℕ) (p : Param) (v : DynValue)
    → is_hashed p ≡ false
    → Fits (column_type_for p.ty) (to_value codec v)
    → Fits (event_column i p).ty (field_of codec (event_column i p) v).1
unfolding event_column field_of
plain-Fits codec i p v h f = rw (h, event_column, field_of) f

-- The value of an indexed input fits its column, whether or not that is one for a hash.
event_column-Fits :
    (codec : Codec) (i : ℕ) (p : Param) (t : SolType) (v : DynValue)
    → p.ty ≡ type_name t
    → IsStorable p t
    → HasType t v
    → Fits (event_column i p).ty (field_of codec (event_column i p) v).1
event_column-Fits codec i p t v e s h = elim (Bool-cases (is_hashed p)) [
  | inl k ↦ hashed-Fits codec i p v k
  | inr k ↦ plain-Fits codec i p v k (
      to_value-Fits codec t v (column_type_for p.ty) (IsStorable-function p t s)
        (subst (λ ty. IsColumnOf t (column_type_for ty)) (sym e) (column_type_for-name t)) h)
]

field_of-name : (codec : Codec) (c : ColumnDef) (v : DynValue) → (field_of codec c v).0 ≡ c.name
unfolding field_of
field_of-name codec c v = refl

event_fields-indexed :
    (codec : Codec) (col : ColumnDef) (cols : List ColumnDef) (p : Param) (ps : List Param)
    (v : DynValue) (vs body : List DynValue) (fs : Fields)
    → p.indexed ≡ true
    → event_fields codec cols ps vs body ≡ some (ok fs)
    → event_fields codec (col ∷ cols) (p ∷ ps) (v ∷ vs) body ≡ some (ok (field_of codec col v ∷ fs))
unfolding event_fields
event_fields-indexed codec col cols p ps v vs body fs i e = simp (i, e) refl

event_fields-body :
    (codec : Codec) (col : ColumnDef) (cols : List ColumnDef) (p : Param) (ps : List Param)
    (v : DynValue) (indexed vs : List DynValue) (fs : Fields)
    → p.indexed ≡ false
    → event_fields codec cols ps indexed vs ≡ some (ok fs)
    → event_fields codec (col ∷ cols) (p ∷ ps) indexed (v ∷ vs)
      ≡ some (ok ((col.name, to_value codec v) ∷ fs))
unfolding event_fields
event_fields-body codec col cols p ps v indexed vs fs i e = simp (i, e) refl

-- An input that is not indexed has no column for a hash.
body-Fits :
    (codec : Codec) (i : ℕ) (p : Param) (t : SolType) (v : DynValue)
    → p.indexed ≡ false
    → p.ty ≡ type_name t
    → IsStorable p t
    → HasType t v
    → Fits (event_column i p).ty (to_value codec v)
unfolding event_column is_hashed
body-Fits codec i p t v n e s h = simp n (
    to_value-Fits codec t v (column_type_for p.ty) (IsStorable-function p t s)
      (subst (λ ty. IsColumnOf t (column_type_for ty)) (sym e) (column_type_for-name t)) h)

event_fields-AreFitted :
    (codec : Codec) (i : ℕ) {ps : List Param} {ts : List SolType} {indexed body : List DynValue}
    → AreStorable ps ts
    → AreValues ps ts indexed body
    → (fs : Fields) × (event_fields codec (event_columns i ps) ps indexed body ≡ some (ok fs))
      × AreFitted (event_columns i ps) fs
unfolding event_columns
event_fields-AreFitted codec i s AreValues.done = ([], unfold event_fields in refl, tt)
event_fields-AreFitted codec i s
      (AreValues.hashed {p} {ps} {t} {ts} {w} {vs} {body} ind long more) =
    let (fs, e, fit) = event_fields-AreFitted codec (suc i) s.2 more in
    let col = event_column i p in
    let v = DynValue.fixed_bytes w 32 in
    (
      field_of codec col v ∷ fs,
      event_fields-indexed codec col (event_columns (suc i) ps) p ps v vs body fs ind e,
      (
        field_of-name codec col v,
        hashed-Fits codec i p v (is_hashed-long p t ind s.0 s.1 long),
        fit,
      ),
    )
event_fields-AreFitted codec i s
      (AreValues.word {p} {ps} {t} {ts} {v} {vs} {body} ind short h more) =
    let (fs, e, fit) = event_fields-AreFitted codec (suc i) s.2 more in
    let col = event_column i p in
    (
      field_of codec col v ∷ fs,
      event_fields-indexed codec col (event_columns (suc i) ps) p ps v vs body fs ind e,
      (field_of-name codec col v, event_column-Fits codec i p t v s.0 s.1 h, fit),
    )
event_fields-AreFitted codec i s (AreValues.value {p} {ps} {t} {ts} {v} {indexed} {vs} ind h more) =
    let (fs, e, fit) = event_fields-AreFitted codec (suc i) s.2 more in
    let col = event_column i p in
    (
      (col.name, to_value codec v) ∷ fs,
      event_fields-body codec col (event_columns (suc i) ps) p ps v indexed vs fs ind e,
      (refl, body-Fits codec i p t v ind s.0 s.1 h, fit),
    )

-- The values of a log are those of the inputs of its event.
abbrev pub IsFaithful : Codec → Item → List SolType → Type 0
IsFaithful codec event types =
    (topics : List Hash) (payload : Bytes) (indexed body : List DynValue)
    → codec.decode_log event topics payload ≡ ok (indexed, body)
    → AreValues event.inputs types indexed body

-- For an event without function pointers and indexed tuples, a log with topics of 32 bytes is decoded
-- without a panic: it is refused where the codec refuses it, and else gives one field for each column of
-- the event's table, in order, under its name and with a value of its type.
pub decode_event-AreFitted :
    (codec : Codec) (event : Item) (types : List SolType) (table : String) (raw : RawRecord)
    → AreStorable event.inputs types
    → IsFaithful codec event types
    → are_words raw.selectors ≡ true
    → ((e : String) × (codec.decode_log event raw.selectors raw.payload ≡ err e)
        × (decode_event codec event (schema_for event table) raw ≡ some (err (decode e))))
      ⊎ ((d : DecodedEvent) × (decode_event codec event (schema_for event table) raw ≡ some (ok d))
          × (d.table ≡ table)
          × AreFitted (schema_for event table).columns d.fields)
unfolding decode_event schema_for
decode_event-AreFitted codec event types table raw s faithful w =
    elim (Result-cases (codec.decode_log event raw.selectors raw.payload)) [
      | inr (e, k) ↦ inl (e, k, simp (w, k) refl)
      | inl ((indexed, body), k) ↦
          let (fs, e, fit) =
            event_fields-AreFitted codec 0 s (faithful raw.selectors raw.payload indexed body k) in
          inr (record { table = table; fields = fs }, simp (w, k, e) refl, refl, fit)
    ]
