-- ===== src/Abi/Index/Tables.antt =====
-- The tables of an index: none of them is the one of the transactions, unless a contract names it.
use topic.Base.{
  ℕ, ◌≡◌, ◌≢◌, refl, sym, ◌∙◌, ap, subst, inl, inr, Bool, true, false, Option, none, some, List, [],
  ◌∷◌, String, str_eq, eq_iff, arith, All, Bool-cases, Option-cases, if◌then◌else◌,
}
use topic.Base.Results.{Result, ok, ok-injective, ok-err, Result-cases}
use topic.Text.{codes, append, text, to_lower}
use topic.Model.{Bytes, hash_eq}
use topic.Abi.{Item, schema_for, schema_for_function}
use topic.Abi.Index.{
  AbiIndex, Entry, CallKey, ContractSpec, JsonAbi, find, put, same_call, event_table, call_table,
  wants_event, lists, add_events, add_calls, build_from, build, empty_index,
}
use topic.Decode.Tables.{IsOther}

some_injective : {A : Type 0} {a b : A} → ◌≡◌ {A = Option A} (some a) (some b) → a ≡ b
some_injective h = cc

none-some : {A : Type 0} {a : A} → ◌≡◌ {A = Option A} none (some a) → ⊥
none-some h = cc

module _ {K V : Type 0} (same : K → K → Bool) (P : V → Type 0) where
  pub find-All :
      (k : K) (m : List (K × V)) (v : V)
      → All {A = K × V} (λ e. P e.1) m
      → find same k m ≡ some v
      → P v
  unfolding find
  find-All k [] v h = λ e. absurd (none-some e)
  find-All k ((j, w) ∷ m) v h = elim (Bool-cases (same j k)) [
    | inl s ↦ rw (s, find) (λ (e : some w ≡ some v). subst P (some_injective e) h.0)
    | inr s ↦ rw (s, find) (λ e. find-All k m v h.1 e)
  ]

  pub put-All :
      (k : K) (v : V) (m : List (K × V))
      → P v
      → All {A = K × V} (λ e. P e.1) m
      → All {A = K × V} (λ e. P e.1) (put same k v m)
  unfolding put
  put-All k v [] p h = (p, tt)
  put-All k v ((j, w) ∷ m) p h = elim (Bool-cases (same j k)) [
    | inl s ↦ rw (s, put) (p, h.1)
    | inr s ↦ rw (s, put) (h.0, put-All k v m p h.1)
  ]

head_injective : {a b : ℕ} {s t : List ℕ} → a ∷ s ≡ b ∷ t → a ≡ b
head_injective h = cc

if-holds : {A : Type 0} (P : A → Type 0) (b : Bool) {x y : A} → P x → P y → P (if b then x else y)
if-holds P true h k = h
if-holds P false h k = k

prefix-IsOther : (s : String) (c : ℕ) (cs : List ℕ) → codes s ≡ c ∷ cs → c ≢ b't' → IsOther s
prefix-IsOther s c cs e n = elim (Bool-cases (str_eq s "transactions")) [
  | inr h ↦ h
  | inl h ↦
      let p : s ≡ "transactions" = (eq_iff s "transactions").0 h in
      let q : c ∷ cs ≡ codes "transactions" = sym e ∙ ap codes p in absurd (n (head_injective q))
]

-- A table name that a contract gives its events.
abbrev pub IsOwn : ContractSpec → Type 0
IsOwn spec = (t : String) → spec.table_override ≡ some t → IsOther t

abbrev IsOtherEntry : Entry → Type 0
IsOtherEntry e = IsOther e.schema.table

event_table-own :
    (spec : ContractSpec) (e : Item) (t : String)
    → spec.table_override ≡ some t
    → event_table spec e ≡ t
unfolding event_table
event_table-own spec e t h = rw (h, event_table)

-- The name that a contract without a table of its own gives.
abbrev default_table : ContractSpec → Item → String
default_table spec e =
    append "evt_" (append spec.table_prefix (append "_" (text (to_lower (codes e.name)))))

event_table-default :
    (spec : ContractSpec) (e : Item)
    → spec.table_override ≡ none
    → event_table spec e ≡ default_table spec e
unfolding event_table
event_table-default spec e h = rw (h, event_table)

event_table-IsOther : (spec : ContractSpec) (e : Item) → IsOwn spec → IsOther (event_table spec e)
unfolding event_table
event_table-IsOther spec e own = elim (Option-cases spec.table_override) [
  | inr (t, h) ↦ subst IsOther (sym (event_table-own spec e t h)) (own t h)
  | inl h ↦
      subst IsOther (sym (event_table-default spec e h))
        (prefix-IsOther _ b'e' _ refl (λ p. absurd (omega arith)))
]

call_table-IsOther : (spec : ContractSpec) (f : Item) → IsOther (call_table spec f)
unfolding call_table
call_table-IsOther spec f = prefix-IsOther _ b'c' _ refl (λ p. absurd (omega arith))

add_events-IsOther :
    (spec : ContractSpec) (events : List Item) (m : List (Bytes × Entry))
    → IsOwn spec
    → All {A = Bytes × Entry} (λ e. IsOtherEntry e.1) m
    → All {A = Bytes × Entry} (λ e. IsOtherEntry e.1) (add_events spec events m)
unfolding add_events
add_events-IsOther spec [] m own h = h
add_events-IsOther spec (e ∷ events) m own h = add_events-IsOther spec events _ own (
    if-holds (All {A = Bytes × Entry} (λ e. IsOtherEntry e.1)) (wants_event spec e)
      (put-All hash_eq IsOtherEntry e.selector _ m
        (unfold schema_for in event_table-IsOther spec e own) h)
      h)

add_calls-IsOther :
    (spec : ContractSpec) (functions : List Item) (m : List (CallKey × Entry))
    → All {A = CallKey × Entry} (λ e. IsOtherEntry e.1) m
    → All {A = CallKey × Entry} (λ e. IsOtherEntry e.1) (add_calls spec functions m)
unfolding add_calls
add_calls-IsOther spec [] m h = h
add_calls-IsOther spec (f ∷ functions) m h = add_calls-IsOther spec functions _ (
    if-holds (All {A = CallKey × Entry} (λ e. IsOtherEntry e.1)) (lists spec.functions f.name)
      (put-All same_call IsOtherEntry (spec.address, f.selector) _ m
        (unfold schema_for_function in call_table-IsOther spec f) h)
      h)

-- Every table of the index is another one than that of the transactions.
pub record AreOther (index : AbiIndex) : Type 0 where
  pub events : All {A = Bytes × Entry} (λ e. IsOther e.1.schema.table) index.by_topic0
  pub calls : All {A = CallKey × Entry} (λ e. IsOther e.1.schema.table) index.by_call

build_from-AreOther :
    (parse : String → Result String JsonAbi) (specs : List ContractSpec) (index built : AbiIndex)
    → All IsOwn specs
    → AreOther index
    → build_from parse specs index ≡ ok built
    → AreOther built
unfolding build_from
build_from-AreOther parse [] index built own h = λ e. subst AreOther (ok-injective e) h
build_from-AreOther parse (spec ∷ specs) index built own h =
    elim (Result-cases (parse spec.abi_json)) [
      | inr (x, k) ↦ rw (k, build_from) (λ e. absurd (ok-err (sym e)))
      | inl (json, k) ↦
          rw (k, build_from)
            (build_from-AreOther parse specs _ built own.1 (record {
              events = add_events-IsOther spec json.events index.by_topic0 own.0 h.events;
              calls = add_calls-IsOther spec json.functions index.by_call h.calls;
            }))
    ]

pub build-AreOther :
    (parse : String → Result String JsonAbi) (specs : List ContractSpec) (index : AbiIndex)
    → All IsOwn specs
    → build parse specs ≡ ok index
    → AreOther index
unfolding build
build-AreOther parse specs index own e =
    build_from-AreOther parse specs empty_index index own (record { events = tt; calls = tt }) e
