-- ===== src/Query/Cache.antt =====
-- crates/db-query/src/cache.rs: answers that are kept for a time. The cache is a third-party crate: an
-- entry is found until its time to live is over, unless it was evicted, which is a parameter. The texts
-- of values as JSON are those of `serde_json`, a parameter, too; what makes a key is modelled. `Spec` has
-- the fields of `QuerySpec` but `sort`, which nothing sets.
use topic.Base.{
  ℕ, ◌+◌, ◌≤◌, ◌<◌, subst, ◌≡◌, refl, sym, ap, ◌∙◌, ◌⊎◌, inl, inr, true, Option, none, some, List,
  [], ◌∷◌, String, str_eq, eq_iff, ltb, ◌&&◌, if◌then◌else◌, arith, All, Bool-cases, Option-cases,
}
use topic.Base.Results.{DomainError, Result, ok, err, Result-cases, ok-err, ok-injective}
use topic.Sql.{Filter, Spec}
use topic.Query.{Page}

-- `serde_json::to_string(..)`, of a query, and of a table with filters.
pub record Serde : Type 0 where
  pub spec_text : Spec → Option String
  pub count_text : String × List Filter → Option String

-- These values always have a text, and no others have the texts of this query.
pub record IsJson (serde : Serde) (spec : Spec) : Type 0 where
  pub spec_total : (s : Spec) → serde.spec_text s ≡ none → ⊥
  pub count_total : (c : String × List Filter) → serde.count_text c ≡ none → ⊥
  pub spec_own : (s : Spec) → serde.spec_text s ≡ serde.spec_text spec → s ≡ spec
  pub count_own :
      (c : String × List Filter)
      → serde.count_text c ≡ serde.count_text (spec.table, spec.filters)
      → c ≡ (spec.table, spec.filters)

abbrev pub unwrap_or_default : Option String → String
unwrap_or_default none = ""
unwrap_or_default (some t) = t

unfoldable pub query_key : Serde → Spec → String
query_key serde spec = unwrap_or_default (serde.spec_text spec)

unfoldable pub count_key : Serde → Spec → String
count_key serde spec = unwrap_or_default (serde.count_text (spec.table, spec.filters))

-- An answer with its key and the time when it was inserted.
pub record Cached (A : Type 0) : Type 0 where
  pub key : String
  pub value : A
  pub since : ℕ

some-injective : {A : Type 0} {a b : A} → ◌≡◌ {A = Option A} (some a) (some b) → a ≡ b
some-injective h = cc

none-some : {A : Type 0} {a : A} → ◌≡◌ {A = Option A} none (some a) → ⊥
none-some h = cc

≤-now : (n : ℕ) → n ≤ n
≤-now n = omega arith

module _ {A : Type 0} (ttl : ℕ) where
  -- `get`, at a time.
  unfoldable pub get : ℕ → String → List (Cached A) → Option A
  get now key [] = none
  get now key (e ∷ entries) =
      let rest = get now key entries in
      if str_eq e.key key && ltb now (e.since + ttl) then some e.value else rest

module _ {S A : Type 0} (key_of : S → String) (ttl : ℕ) where
  -- A lookup with `inner` on a miss: `inner` answers at this time, and an error is not kept.
  unfoldable pub through :
      (S → Result DomainError A)
      → (List (Cached A) → List (Cached A))
      → ℕ
      → S
      → List (Cached A)
      → Result DomainError A × List (Cached A)
  unfolding get
  through inner evict now spec entries = elim (get ttl now (key_of spec) entries) [
    | some a ↦ (ok a, entries)
    | none ↦ elim (inner spec) [
      | err e ↦ (err e, entries)
      | ok a ↦ (ok a, evict (record { key = key_of spec; value = a; since = now } ∷ entries))
    ]
  ]

  -- `a` was the answer, at `t`, to a query with this key.
  abbrev pub IsAnswer : (ℕ → S → Result DomainError A) → ℕ → String → A → Type 0
  IsAnswer inner t key a = (spec : S) × (key_of spec ≡ key) × (inner t spec ≡ ok a)

  -- What the cache has at `now` are answers of the decorated repository, none of a later time.
  abbrev pub AreAnswers : (ℕ → S → Result DomainError A) → ℕ → List (Cached A) → Type 0
  AreAnswers inner now = All (λ e. (e.since ≤ now) × IsAnswer inner e.since e.key e.value)

  -- An answer of now, or of less than the time to live ago.
  abbrev pub IsFresh : (ℕ → S → Result DomainError A) → ℕ → String → A → Type 0
  IsFresh inner now key a =
      (t : ℕ) × (t ≤ now) × ((t ≡ now) ⊎ (now < t + ttl)) × IsAnswer inner t key a

  get-IsFresh :
      (inner : ℕ → S → Result DomainError A) (now : ℕ) (key : String) (entries : List (Cached A))
      (a : A)
      → AreAnswers inner now entries
      → get ttl now key entries ≡ some a
      → IsFresh inner now key a
  unfolding get
  get-IsFresh inner now key [] a h = λ e. absurd (none-some e)
  get-IsFresh inner now key (c ∷ entries) a h =
      elim (Bool-cases (str_eq c.key key && ltb now (c.since + ttl))) [
        | inr k ↦ rw (k, get) (get-IsFresh inner now key entries a h.1)
        | inl k ↦
            let same : str_eq c.key key ≡ true = ground (arith, k) in
            let (spec, found, answer) = h.0.1 in
            rw (k, get)
              (λ e. (
                c.since,
                h.0.0,
                inr (ground (arith, k)),
                (spec, found ∙ (eq_iff c.key key).0 same, answer ∙ ap ok (some-injective e)),
              ))
      ]

  pub through-IsFresh :
      (inner : ℕ → S → Result DomainError A) (evict : List (Cached A) → List (Cached A)) (now : ℕ)
      (spec : S) (entries : List (Cached A)) (a : A)
      → ((P : Cached A → Type 0) (cs : List (Cached A)) → All P cs → All P (evict cs))
      → AreAnswers inner now entries
      → (through (inner now) evict now spec entries).0 ≡ ok a
      → IsFresh inner now (key_of spec) a
        × AreAnswers inner now (through (inner now) evict now spec entries).1
  unfolding through
  through-IsFresh inner evict now spec entries a spares h =
      elim (Option-cases (get ttl now (key_of spec) entries)) [
        | inr (b, k) ↦
            let fresh = get-IsFresh inner now (key_of spec) entries b h k in
            rw (k, through)
              (λ g. (subst (IsFresh inner now (key_of spec)) (ok-injective g) fresh, h))
        | inl k ↦ elim (Result-cases (inner now spec)) [
          | inr (x, e) ↦ rw (k, e, through) (λ g. absurd (ok-err (sym g)))
          | inl (b, e) ↦
              let entry : Cached A = record { key = key_of spec; value = b; since = now } in
              rw (k, e, through)
                (λ g. (
                  (now, ≤-now now, inl refl, (spec, refl, e ∙ g)),
                  spares (λ c. (c.since ≤ now) × IsAnswer inner c.since c.key c.value)
                      (entry ∷ entries) ((≤-now now, (spec, refl, e)), h),
                ))
        ]
      ]

-- `query` and `count` of the decorator.
unfoldable pub cached_query :
    Serde
    → ℕ
    → (Spec → Result DomainError Page)
    → (List (Cached Page) → List (Cached Page))
    → ℕ
    → Spec
    → List (Cached Page)
    → Result DomainError Page × List (Cached Page)
unfolding through query_key
cached_query serde ttl = through (query_key serde) ttl

unfoldable pub cached_count :
    Serde
    → ℕ
    → (Spec → Result DomainError ℕ)
    → (List (Cached ℕ) → List (Cached ℕ))
    → ℕ
    → Spec
    → List (Cached ℕ)
    → Result DomainError ℕ × List (Cached ℕ)
unfolding through count_key
cached_count serde ttl = through (count_key serde) ttl
