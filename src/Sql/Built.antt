-- ===== src/Sql/Built.antt =====
-- crates/db-query/src/lib.rs: the statement and the binds of a query, from its parts.
use mathlib.Core.Option
use topic.Base.{
  ℕ, ◌+◌, ◌≡◌, refl, sym, ap, ◌∙◌, subst, inl, inr, Bool, true, false, Option, none, some, List, [],
  ◌∷◌, ◌++◌, arith, String, str_eq, All, length, length-append, Bool-cases,
}
use topic.Base.Results.{
  DomainError, Result, ok, err, ◌>>=◌, >>=-eq-ok, ok-injective, ok-err, Result-cases, map_err,
  guard, guard-eq-ok, ◌>>◌,
}
use topic.Abi.Index.{find}
use topic.Text.{codes}
use topic.Codec.Idents.{is_valid_ident}
use topic.Text.Ints.{ℤ}
use topic.Sql.{
  Tables, Spec, Bind, as_domain, filters_loop, build_filters, validate_table, cursor_of,
  parse_cursor, safe_table, table_has_idx, texts, Cols, with_keyset, keyset, select_sql, query_sql,
}
use topic.Sql.Filters.{shapes, conditions, IsColumn, some-ok, map-some, filters_loop-ok}

-- Whether there is a cursor.
abbrev pub is_some : {A : Type 0} → Option A → Bool
is_some none = false
is_some (some a) = true

-- The placeholders of the keyset condition.
abbrev pub keyset_count : Bool → ℕ
keyset_count false = 0
keyset_count true = 2

-- The two queries differ in the values of the filters and in the position of the cursor only.
abbrev pub IsAlike : Spec → Spec → Type 0
IsAlike spec spec' =
    (spec.table ≡ spec'.table)
    × (shapes spec.filters ≡ shapes spec'.filters)
    × (spec.first ≡ spec'.first)
    × (is_some spec.after ≡ is_some spec'.after)
    × (spec.include_tx ≡ spec'.include_tx)
    × (spec.include_receipt ≡ spec'.include_receipt)
    × (spec.descending ≡ spec'.descending)

-- The conditions with that of the keyset, where there is a cursor.
abbrev pub keyset_added : List String → Bool → Bool → ℕ → List String
keyset_added conds false descending n = conds
keyset_added conds true descending n = conds ++ keyset descending n ∷ []

cursor_of-ok :
    (spec : Spec) (k : Option (ℤ × ℤ)) → cursor_of spec ≡ ok k → is_some k ≡ is_some spec.after
unfolding cursor_of
cursor_of-ok spec k = go spec.after
  where
    go :
        (c : Option (List ℕ))
        → (elim c [
          | none ↦ ok none
          | some c ↦ map_err as_domain (parse_cursor c) >>= λ k. ok (some k)
        ])
          ≡ ok k
        → is_some k ≡ is_some c
    go none h = ap is_some (sym (ok-injective h))
    go (some c) h =
        let (p, q, r) = >>=-eq-ok (map_err as_domain (parse_cursor c)) (λ k. ok (some k)) h in
        ap is_some (sym (ok-injective r))

safe_table-ok : (name t : String) → map_err as_domain (safe_table name) ≡ ok t → t ≡ name
unfolding safe_table
safe_table-ok name t = elim (Bool-cases (is_valid_ident (codes name))) [
  | inl k ↦ rw (k, safe_table) (λ h. sym (ok-injective h))
  | inr k ↦ rw (k, safe_table) (λ h. absurd (ok-err (sym h)))
]

validate_table-ok :
    (tables : Tables) (spec : Spec) (t : String)
    → validate_table tables spec ≡ ok t
    → t ≡ spec.table
unfolding validate_table
validate_table-ok tables spec t h =
    let known : String → Result DomainError String = λ table. elim (find str_eq table tables) [
      | none ↦ err (DomainError.invalid (texts ("unknown table '" ∷ table ∷ "'" ∷ [])))
      | some cols ↦ ok table
    ] in
    let own = DomainError.invalid "receipts are queried via their transaction, not standalone" in
    let next : String → Result DomainError String =
      λ table. guard (table_has_idx table) own >> known table in
    let (table, p, q) = >>=-eq-ok (map_err as_domain (safe_table spec.table)) next h in
    let (_, q') = guard-eq-ok (table_has_idx table) own (known table) q in
    same (find str_eq table tables) table q' ∙ safe_table-ok spec.table table p
  where
    same :
        (m : Option Cols) (table : String)
        → (elim m [
          | none ↦ err (DomainError.invalid (texts ("unknown table '" ∷ table ∷ "'" ∷ [])))
          | some cols ↦ ok table
        ])
          ≡ ok t
        → t ≡ table
    same none table h = absurd (ok-err (sym h))
    same (some cols) table h = sym (ok-injective h)

with_keyset-ok :
    (spec : Spec) (k : Option (ℤ × ℤ)) (conds : List String) (binds : List Bind) (n : ℕ)
    → is_some k ≡ is_some spec.after
    → length binds ≡ n
    → ((with_keyset spec k (conds, binds)).0
        ≡ keyset_added conds (is_some spec.after) spec.descending n)
      × (length (with_keyset spec k (conds, binds)).1 ≡ n + keyset_count (is_some spec.after))
with_keyset-ok spec none conds binds n e l =
    subst
      (λ b. (conds ≡ keyset_added conds b spec.descending n) × (length binds ≡ n + keyset_count b))
      e (refl, omega (arith, l))
with_keyset-ok spec (some (h, i)) conds binds n e l =
    subst
      (λ b.
        (conds ++ keyset spec.descending (length binds) ∷ []
          ≡ keyset_added conds b spec.descending n)
        × (length (binds ++ Bind.int h ∷ Bind.int i ∷ []) ≡ n + keyset_count b))
      e
      (
        ap (λ m. conds ++ keyset spec.descending m ∷ []) l,
        omega (arith, l, length-append binds (Bind.int h ∷ Bind.int i ∷ [])),
      )

-- The statement of a query of a table, from what the query has without its values.
abbrev pub statement : Tables → Spec → String → String
statement tables spec table =
    select_sql tables table (Option.get_or (find str_eq table tables) []) spec (
      keyset_added (conditions tables table (shapes spec.filters) 0) (is_some spec.after)
        spec.descending (length spec.filters))

-- What the statement and the binds of a query are.
abbrev IsBuilt : Tables → Spec → String → List Bind → String → Type 0
IsBuilt tables spec sql binds table =
    (sql ≡ statement tables spec table)
    × All (λ f. IsColumn tables table f.column) spec.filters
    × (length binds ≡ length spec.filters + keyset_count (is_some spec.after))

select-IsBuilt :
    (tables : Tables) (spec : Spec) (table : String) (w : List String × List Bind)
    (after : Option (ℤ × ℤ))
    → filters_loop tables table spec.filters [] [] ≡ some (ok w)
    → cursor_of spec ≡ ok after
    → IsBuilt tables spec
        (select_sql tables table
          (Option.get_or (find str_eq table tables) [])
          spec
          (with_keyset spec after w).0)
        (with_keyset spec after w).1
        table
select-IsBuilt tables spec table (conds, binds) after p c =
    let (cols, conditions_of, count) =
      filters_loop-ok tables table spec.filters [] conds [] binds p in
    let (e, n) =
      with_keyset-ok spec after conds binds (length spec.filters) (cursor_of-ok spec after c)
        (omega (arith, count)) in
    (
      ap (select_sql tables table (Option.get_or (find str_eq table tables) []) spec) (
          e
          ∙ ap (λ l. keyset_added l (is_some spec.after) spec.descending (length spec.filters))
              conditions_of),
      cols,
      n,
    )

pub query_sql-IsBuilt :
    (tables : Tables) (spec : Spec) (sql : String) (binds : List Bind)
    → query_sql tables spec ≡ some (ok (sql, binds))
    → IsBuilt tables spec sql binds spec.table
unfolding query_sql
query_sql-IsBuilt tables spec sql binds = elim (Result-cases (validate_table tables spec)) [
  | inr (e, k) ↦ rw (k, query_sql) (λ h. absurd (ok-err (sym (some-ok h))))
  | inl (table, k) ↦
      let pack : List String × List Bind
          → Option (ℤ × ℤ)
          → Result DomainError (String × List Bind) =
        λ w after. ok (
          select_sql tables table (Option.get_or (find str_eq table tables) []) spec
              (with_keyset spec after w).0,
          (with_keyset spec after w).1,
        ) in
      let next : List String × List Bind → Result DomainError (String × List Bind) =
        λ w. cursor_of spec >>= pack w in
      rw (k, query_sql)
        (λ h.
          let (r, p, q) = map-some (λ r. r >>= next) (build_filters tables table spec.filters) h in
          let (w, a, b) = >>=-eq-ok r next q in
          let (after, c, d) = >>=-eq-ok (cursor_of spec) (pack w) b in
          let built = select-IsBuilt tables spec table w after (p ∙ ap some a) c in
          subst (IsBuilt tables spec sql binds) (validate_table-ok tables spec table k) (
            subst (λ (out : String × List Bind). IsBuilt tables spec out.0 out.1 table)
              (ok-injective d) built))
]
