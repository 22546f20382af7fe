-- ===== src/Abi/Values/Types.antt =====
-- The types of Solidity, their columns in a table, and the values of a log of an event.
use topic.Base.{
  ℕ, ◌≡◌, ◌≢◌, refl, ap, Bool, true, false, List, [], ◌∷◌, ◌++◌, String, arith, if◌then◌else◌, All,
}
use topic.Text.Ints.{decimal-All}
use topic.Text.{is_digit}
use topic.Text.{codes, decimal, ends_with}
use topic.Model.{Bytes, EventValue}
use topic.Schema.{ColumnType, ColumnDef}
use topic.Abi.{Param, column_type_for, parse_bits}
use topic.Abi.Values.{DynValue, Values, Fields}

-- The types of Solidity, as far as a column tells them apart.
pub data SolType : Type 0 where
  address boolean string bytes function tuple : SolType
  uint int fixed_bytes : ℕ → SolType
  array : SolType → SolType
  fixed_array : SolType → ℕ → SolType

-- The text of a type in the JSON ABI.
unfoldable pub type_name : SolType → List ℕ
unfolding decimal
type_name SolType.address = codes "address"
type_name SolType.boolean = codes "bool"
type_name SolType.string = codes "string"
type_name SolType.bytes = codes "bytes"
type_name SolType.function = codes "function"
type_name SolType.tuple = codes "tuple"
type_name (SolType.uint n) = codes "uint" ++ decimal n
type_name (SolType.int n) = codes "int" ++ decimal n
type_name (SolType.fixed_bytes n) = codes "bytes" ++ decimal n
type_name (SolType.array t) = type_name t ++ codes "[]"
type_name (SolType.fixed_array t n) = type_name t ++ (b'[' ∷ decimal n ++ b']' ∷ [])

-- What the ABI codec makes of a value of a type.
pub data HasType : SolType → DynValue → Type 0 where
  address : {b : Bytes} → HasType SolType.address (DynValue.address b)
  boolean : {b : Bool} → HasType SolType.boolean (DynValue.boolean b)
  string : {s : String} → HasType SolType.string (DynValue.string s)
  bytes : {b : Bytes} → HasType SolType.bytes (DynValue.bytes b)
  function : {b : Bytes} → HasType SolType.function (DynValue.function b)
  tuple : {vs : Values} → HasType SolType.tuple (DynValue.tuple vs)
  uint : {n bits : ℕ} → HasType (SolType.uint bits) (DynValue.uint n bits)
  int : {neg : Bool} {n bits : ℕ} → HasType (SolType.int bits) (DynValue.int neg n bits)
  fixed_bytes : {w : Bytes} {n : ℕ} → HasType (SolType.fixed_bytes n) (DynValue.fixed_bytes w n)
  array : {t : SolType} {vs : Values} → HasType (SolType.array t) (DynValue.array vs)
  fixed_array :
      {t : SolType} {n : ℕ} {vs : Values}
      → HasType (SolType.fixed_array t n) (DynValue.fixed_array vs)

-- A topic holds the hash of a value that is longer than a word.
abbrev pub is_long : SolType → Bool
is_long SolType.string = true
is_long SolType.bytes = true
is_long SolType.tuple = true
is_long (SolType.array t) = true
is_long (SolType.fixed_array t n) = true
is_long _ = false

-- The values of the inputs of an event: the indexed ones, and the others.
pub data AreValues : List Param → List SolType → List DynValue → List DynValue → Type 0 where
  done : AreValues [] [] [] []
  hashed :
      {p : Param} {ps : List Param} {t : SolType} {ts : List SolType} {w : Bytes}
      {vs body : List DynValue}
      → p.indexed ≡ true
      → is_long t ≡ true
      → AreValues ps ts vs body
      → AreValues (p ∷ ps) (t ∷ ts) (DynValue.fixed_bytes w 32 ∷ vs) body
  word :
      {p : Param} {ps : List Param} {t : SolType} {ts : List SolType} {v : DynValue}
      {vs body : List DynValue}
      → p.indexed ≡ true
      → is_long t ≡ false
      → HasType t v
      → AreValues ps ts vs body
      → AreValues (p ∷ ps) (t ∷ ts) (v ∷ vs) body
  value :
      {p : Param} {ps : List Param} {t : SolType} {ts : List SolType} {v : DynValue}
      {indexed vs : List DynValue}
      → p.indexed ≡ false
      → HasType t v
      → AreValues ps ts indexed vs
      → AreValues (p ∷ ps) (t ∷ ts) indexed (v ∷ vs)

-- A function pointer has a column of bytes and a JSON value, and an indexed tuple the other way round.
abbrev pub IsStorable : Param → SolType → Type 0
IsStorable p SolType.function = ⊥
IsStorable p SolType.tuple = p.indexed ≡ false
IsStorable p _ = Unit {0}

-- The types of the inputs, all of which have a column that fits.
abbrev pub AreStorable : List Param → List SolType → Type 0
AreStorable [] [] = Unit {0}
AreStorable (p ∷ ps) (t ∷ ts) = (p.ty ≡ type_name t) × IsStorable p t × AreStorable ps ts
AreStorable _ _ = ⊥

-- The value that Postgres takes for a column of a type.
pub data Fits : ColumnType → EventValue → Type 0 where
  address : {b : Bytes} → Fits ColumnType.address (EventValue.address b)
  boolean : {b : Bool} → Fits ColumnType.boolean (EventValue.bool b)
  utf8 : {s : String} → Fits ColumnType.utf8 (EventValue.string s)
  blob : {b : Bytes} → Fits ColumnType.blob (EventValue.bytes b)
  digest : {b : Bytes} → Fits ColumnType.blob (EventValue.hash b)
  json : {s : String} → Fits ColumnType.json (EventValue.json s)
  uint : {n : ℕ} {s : String} → Fits (ColumnType.uint n) (EventValue.uint s)
  int : {n : ℕ} {s : String} → Fits (ColumnType.int n) (EventValue.int s)

-- One field for each column, under its name and with a value that fits.
abbrev pub AreFitted : List ColumnDef → Fields → Type 0
AreFitted [] [] = Unit {0}
AreFitted (c ∷ cs) ((n, v) ∷ fs) = (n ≡ c.name) × Fits c.ty v × AreFitted cs fs
AreFitted _ _ = ⊥

abbrev IsDigit : ℕ → Type 0
IsDigit c = is_digit c ≡ true

ends_with-digits : (c : ℕ) (s : List ℕ) → c ≢ b']' → All IsDigit s → ends_with b']' (c ∷ s) ≡ false
unfolding ends_with
ends_with-digits c [] h d = ground arith
ends_with-digits c (e ∷ s) h d = ends_with-digits e s (λ p. absurd (ground arith)) d.1

ends_with-snoc : (c : ℕ) (s : List ℕ) → ends_with c (s ++ c ∷ []) ≡ true
unfolding ends_with
ends_with-snoc c [] = ground arith
ends_with-snoc c (d ∷ []) = ground arith
ends_with-snoc c (d ∷ e ∷ s) = ends_with-snoc c (e ∷ s)

-- What `column_type_for` makes of the text of a type.
abbrev pub IsColumnOf : SolType → ColumnType → Type 0
IsColumnOf SolType.address c = c ≡ ColumnType.address
IsColumnOf SolType.boolean c = c ≡ ColumnType.boolean
IsColumnOf SolType.string c = c ≡ ColumnType.utf8
IsColumnOf SolType.bytes c = c ≡ ColumnType.blob
IsColumnOf SolType.function c = c ≡ ColumnType.blob
IsColumnOf SolType.tuple c = c ≡ ColumnType.json
IsColumnOf (SolType.uint n) c = (k : ℕ) × (c ≡ ColumnType.uint k)
IsColumnOf (SolType.int n) c = (k : ℕ) × (c ≡ ColumnType.int k)
IsColumnOf (SolType.fixed_bytes n) c = c ≡ ColumnType.blob
IsColumnOf (SolType.array t) c = c ≡ ColumnType.json
IsColumnOf (SolType.fixed_array t n) c = c ≡ ColumnType.json

column_type_for-json :
    (ty : List ℕ) → ends_with b']' ty ≡ true → column_type_for ty ≡ ColumnType.json
unfolding column_type_for
column_type_for-json ty h = rw (h, column_type_for)

fixed_array_name : (s d : List ℕ) → s ++ (b'[' ∷ d ++ b']' ∷ []) ≡ (s ++ b'[' ∷ d) ++ b']' ∷ []
fixed_array_name [] d = refl
fixed_array_name (c ∷ s) d = ap (◌∷◌ c) (fixed_array_name s d)

array_name : (s : List ℕ) → s ++ b'[' ∷ b']' ∷ [] ≡ (s ++ b'[' ∷ []) ++ b']' ∷ []
array_name s = fixed_array_name s []

-- The text of an array ends with a bracket.
pub ends_with-array : (s d : List ℕ) → ends_with b']' (s ++ (b'[' ∷ d ++ b']' ∷ [])) ≡ true
ends_with-array s d = rw (fixed_array_name s d) (ends_with-snoc b']' (s ++ b'[' ∷ d))

either_way : (b : Bool) {c : ColumnType} → (if b then c else c) ≡ c
either_way true = refl
either_way false = refl

pub column_type_for-name : (t : SolType) → IsColumnOf t (column_type_for (type_name t))
unfolding column_type_for type_name
column_type_for-name SolType.address = refl
column_type_for-name SolType.boolean = refl
column_type_for-name SolType.string = refl
column_type_for-name SolType.bytes = refl
column_type_for-name SolType.function = refl
column_type_for-name SolType.tuple = refl
column_type_for-name (SolType.uint n) =
    let e = ends_with-digits b't' (decimal n) (λ p. absurd (omega arith)) (decimal-All n) in
    (parse_bits (codes "uint" ++ decimal n) (codes "uint"), rw (e, column_type_for))
column_type_for-name (SolType.int n) =
    let e = ends_with-digits b't' (decimal n) (λ p. absurd (omega arith)) (decimal-All n) in
    (parse_bits (codes "int" ++ decimal n) (codes "int"), rw (e, column_type_for))
column_type_for-name (SolType.fixed_bytes n) =
    let e = ends_with-digits b's' (decimal n) (λ p. absurd (omega arith)) (decimal-All n) in
    rw (e, column_type_for) (either_way _)
column_type_for-name (SolType.array t) =
    column_type_for-json (type_name t ++ (b'[' ∷ [] ++ b']' ∷ []))
      (ends_with-array (type_name t) [])
column_type_for-name (SolType.fixed_array t n) =
    column_type_for-json (type_name t ++ (b'[' ∷ decimal n ++ b']' ∷ []))
      (ends_with-array (type_name t) (decimal n))
