-- ===== src/Sql/Filters.antt =====
-- crates/db-query/src/lib.rs: the conditions and the binds of the filters.
use mathlib.Core.List.{append_assoc, append-nil}
use mathlib.Core.Option
use topic.Base.{
  ℕ, suc, ◌+◌, ◌≡◌, refl, sym, ap, ◌∙◌, inl, inr, Option, none, some, List, [], ◌∷◌, ◌++◌, map,
  arith, String, All, length, length-append, Option-cases,
}
use topic.Base.Results.{
  Result, ok, err, ◌>>=◌, >>=-eq-ok, ok-injective, ok-err, Result-cases, map_err,
}
use topic.Model.{Bytes}
use topic.Schema.{ColumnType, cast_suffix}
use topic.Sql.{
  Tables, Filter, FilterOp, Bind, QueryError, as_domain, col_type, condition, build_filter,
  parse_bind, bind_value, filters_loop, texts,
}

-- A filter without its value.
abbrev pub Shape : Type 0
Shape = String × FilterOp

abbrev pub shapes : List Filter → List Shape
shapes = map (λ (f : Filter). (f.column, f.op))

-- The conditions that the columns and the operators make, from the placeholder after `n` others.
abbrev pub cast_of : Option ColumnType → String
cast_of none = ""
cast_of (some ty) = cast_suffix ty

abbrev pub conditions : Tables → String → List Shape → ℕ → List String
conditions tables table [] n = []
conditions tables table ((col, op) ∷ ss) n =
    condition (record { column = col; op = op; value = [] }) n (cast_of (col_type tables table col))
    ∷ conditions tables table ss (suc n)

-- A column of every table, or one of this table.
abbrev pub IsColumn : Tables → String → String → Type 0
IsColumn tables table col = (ty : ColumnType) × (col_type tables table col ≡ some ty)

pub some-ok : {A : Type 0} {a b : A} → ◌≡◌ {A = Option A} (some a) (some b) → a ≡ b
some-ok h = cc

pub none-some : {A : Type 0} {a : A} → ◌≡◌ {A = Option A} none (some a) → ⊥
none-some h = cc

pub map-some :
    {A B : Type 0} (f : A → B) (m : Option A) {b : B}
    → Option.map f m ≡ some b
    → (a : A) × (m ≡ some a) × (f a ≡ b)
map-some f none h = absurd (none-some h)
map-some f (some a) h = (a, refl, some-ok h)

map_err-ok : {E F A : Type 0} (f : E → F) (r : Result E A) {a : A} → map_err f r ≡ ok a → r ≡ ok a
map_err-ok f (ok a) h = ap ok (ok-injective h)
map_err-ok f (err e) h = absurd (ok-err (sym h))

bind_value-ok :
    (ty : ColumnType) (raw : Bytes) (v : String × Bind)
    → bind_value ty raw ≡ some (ok v)
    → v.0 ≡ cast_suffix ty
unfolding bind_value
bind_value-ok ty raw v h =
    let pack : Bind → Result QueryError (String × Bind) = λ b. ok (cast_suffix ty, b) in
    let (r, p, q) = map-some (λ r. r >>= pack) (parse_bind ty raw) h in
    let (b, p', q') = >>=-eq-ok r pack q in ap (λ (w : String × Bind). w.0) (sym (ok-injective q'))

build_filter-ok :
    (tables : Tables) (table : String) (f : Filter) (v : String × Bind)
    → build_filter tables table f ≡ some (ok v)
    → IsColumn tables table f.column × (v.0 ≡ cast_of (col_type tables table f.column))
unfolding build_filter
build_filter-ok tables table f v = elim (Option-cases (col_type tables table f.column)) [
  | inl k ↦ rw (k, build_filter) (λ h. absurd (ok-err (sym (some-ok h))))
  | inr (ty, k) ↦
      rw (k, build_filter)
        (λ h.
          let (r, p, q) = map-some (map_err as_domain) (bind_value ty f.value) h in
          ((ty, refl), bind_value-ok ty f.value v (p ∙ ap some (map_err-ok as_domain r q))))
]

conditions-step :
    (tables : Tables) (table : String) (f : Filter) (ss : List Shape) (conds : List String)
    (binds : List Bind) (v : String × Bind)
    → v.0 ≡ cast_of (col_type tables table f.column)
    → (conds ++ condition f (length binds) v.0 ∷ [])
        ++ conditions tables table ss (length (binds ++ v.1 ∷ []))
      ≡ conds ++ conditions tables table ((f.column, f.op) ∷ ss) (length binds)
unfolding condition
conditions-step tables table f ss conds binds v cast =
    let longer : length (binds ++ v.1 ∷ []) ≡ suc (length binds) =
      omega (arith, length-append binds (v.1 ∷ [])) in
    append_assoc conds (condition f (length binds) v.0 ∷ [])
      (conditions tables table ss (length (binds ++ v.1 ∷ [])))
    ∙ ap (λ n. conds ++ condition f (length binds) v.0 ∷ conditions tables table ss n) longer
    ∙ ap
        (λ k.
          conds ++ condition f (length binds) k ∷ conditions tables table ss (suc (length binds)))
        cast

pub filters_loop-ok :
    (tables : Tables) (table : String) (fs : List Filter) (conds conds' : List String)
    (binds binds' : List Bind)
    → filters_loop tables table fs conds binds ≡ some (ok (conds', binds'))
    → All (λ f. IsColumn tables table f.column) fs
      × (conds' ≡ conds ++ conditions tables table (shapes fs) (length binds))
      × (length binds' ≡ length binds + length fs)
unfolding filters_loop
filters_loop-ok tables table [] conds conds' binds binds' = λ h.
    let e = ok-injective (some-ok h) in
    (
      tt,
      ap (λ (w : List String × List Bind). w.0) (sym e) ∙ sym (append-nil conds),
      ap (λ (w : List String × List Bind). length w.1) (sym e) ∙ omega arith,
    )
filters_loop-ok tables table (f ∷ fs) conds conds' binds binds' =
    elim (Option-cases (build_filter tables table f)) [
      | inl k ↦ rw (k, filters_loop) (λ h. absurd (none-some h))
      | inr (r, k) ↦ elim (Result-cases r) [
        | inr (e, l) ↦ rw (k, l, filters_loop) (λ h. absurd (ok-err (sym (some-ok h))))
        | inl (v, l) ↦
            let (col, cast) = build_filter-ok tables table f v (k ∙ ap some l) in
            let c = condition f (length binds) v.0 in
            rw (k, l, filters_loop)
              (λ h.
                let (cols, texts, count) =
                  filters_loop-ok tables table fs (conds ++ c ∷ []) conds' (binds ++ v.1 ∷ [])
                    binds' h in
                (
                  (col, cols),
                  texts ∙ conditions-step tables table f (shapes fs) conds binds v cast,
                  omega (arith, count, length-append binds (v.1 ∷ [])),
                ))
      ]
    ]
