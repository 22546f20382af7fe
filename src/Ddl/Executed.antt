-- ===== src/Ddl/Executed.antt =====
-- crates/migrator/src: what a statement makes, and that it makes it once.
use topic.Base.{
  ◌≡◌, refl, sym, ◌∙◌, subst, inl, inr, Bool, true, false, ◌&&◌, List, [], ◌∷◌, ◌++◌, arith, String,
  Bool-cases,
}
use topic.Base.Results.{ok, ok-injective, ok-err}
use topic.Store.Rows.{has}
use topic.Ddl.{
  is_table, meta_columns, Statement, Table, Catalog, table_has, table_exists, is_in, is_relation,
  is_target, is_guarded, existing, execute,
}
use topic.Ddl.Catalogs.{
  add-has, add-grows, is_in-append, is_in-last, table_has-append, table_has-last,
}

-- What a statement makes is there.
abbrev pub Holds : Statement → Catalog → Type 0
Holds (Statement.create t idx cols key) db = is_relation t db ≡ true
Holds (Statement.add_column t c) db = table_has t (c.0 ∷ []) db.tables ≡ true
Holds (Statement.index name t cols included) db = is_relation name db ≡ true
Holds Statement.receipts_key db = is_in "receipts_tx_fk" db.constraints ≡ true

-- Nothing is taken away.
abbrev pub Grows : Catalog → Catalog → Type 0
Grows db db' =
    ((t : String) (cs : List String)
      → table_has t cs db.tables ≡ true
      → table_has t cs db'.tables ≡ true)
    × ((name : String) → is_in name db.indexes ≡ true → is_in name db'.indexes ≡ true)
    × ((name : String) → is_in name db.constraints ≡ true → is_in name db'.constraints ≡ true)

pub Grows-refl : (db : Catalog) → Grows db db
Grows-refl db = (λ t cs h. h, λ name h. h, λ name h. h)

pub Grows-trans : (a b c : Catalog) → Grows a b → Grows b c → Grows a c
Grows-trans a b c (t, i, k) (t', i', k') =
    (λ u cs h. t' u cs (t u cs h), λ name h. i' name (i name h), λ name h. k' name (k name h))

is_relation-Grows :
    (name : String) (db db' : Catalog)
    → Grows db db'
    → is_relation name db ≡ true
    → is_relation name db' ≡ true
is_relation-Grows name db db' (t, i, _) h = go (is_in name db.indexes) refl
  where
    go : (b : Bool) → is_in name db.indexes ≡ b → is_relation name db' ≡ true
    go true e = ground (arith, i name e)
    go false e =
        let there : table_has name [] db'.tables ≡ true =
          t name [] (unfold table_exists in ground (arith, e, h)) in
        let found : table_exists name db'.tables ≡ true = unfold table_exists in there in
        ground (arith, found)

pub Holds-Grows : (s : Statement) (db db' : Catalog) → Grows db db' → Holds s db → Holds s db'
Holds-Grows (Statement.create t idx cols key) db db' g h = is_relation-Grows t db db' g h
Holds-Grows (Statement.add_column t c) db db' g h = g.0 t (c.0 ∷ []) h
Holds-Grows (Statement.index name t cols included) db db' g h = is_relation-Grows name db db' g h
Holds-Grows Statement.receipts_key db db' g h = g.2 "receipts_tx_fk" h

-- Every statement is guarded.
is_guarded-true : (s : Statement) → is_guarded s ≡ true
unfolding is_guarded
is_guarded-true (Statement.create t idx cols key) = refl
is_guarded-true (Statement.add_column t c) = ground arith
is_guarded-true (Statement.index name t cols included) = refl
is_guarded-true Statement.receipts_key = refl

existing-same : (s : Statement) (db : Catalog) → existing s db ≡ ok db
existing-same s db = rw (is_guarded-true s) refl

-- A statement whose effect is there changes nothing.
pub execute-same : (s : Statement) (db : Catalog) → Holds s db → execute s db ≡ ok db
unfolding execute
execute-same (Statement.create t idx cols key) db h =
    rw (h, execute) (existing-same (Statement.create t idx cols key) db)
execute-same (Statement.add_column t c) db h =
    rw (h, execute) (existing-same (Statement.add_column t c) db)
execute-same (Statement.index name t cols included) db h =
    rw (h, execute) (existing-same (Statement.index name t cols included) db)
execute-same Statement.receipts_key db h = rw (h, execute) (existing-same Statement.receipts_key db)

-- What a statement makes, it makes; and nothing is taken away.
pub execute-ok :
    (s : Statement) (db db' : Catalog) → execute s db ≡ ok db' → Grows db db' × Holds s db'
unfolding execute
execute-ok (Statement.create t idx cols key) db db' = elim (Bool-cases (is_relation t db)) [
  | inl k ↦
      rw (k, execute)
        (λ h.
          subst (λ d. Grows db d × (is_relation t d ≡ true))
            (ok-injective (sym (existing-same (Statement.create t idx cols key) db) ∙ h))
            (Grows-refl db, k))
  | inr k ↦ elim (Bool-cases (is_table (meta_columns idx ++ cols) key)) [
    | inr l ↦ rw (k, l, execute) (λ h. absurd (ok-err (sym h)))
    | inl l ↦
        let table : Table = record { name = t; columns = meta_columns idx ++ cols; key = key } in
        let there : table_exists t (db.tables ++ table ∷ []) ≡ true =
          unfold table_exists in table_has-last t db.tables table refl in
        rw (k, l, execute)
          (λ h.
            subst (λ d. Grows db d × (is_relation t d ≡ true)) (ok-injective h)
              (
                (
                  λ u cs e. table_has-append u cs db.tables (table ∷ []) e,
                  λ name e. e,
                  λ name e. e,
                ),
                ground (arith, there),
              ))
  ]
]
execute-ok (Statement.add_column t c) db db' =
    elim (Bool-cases (table_has t (c.0 ∷ []) db.tables)) [
      | inl k ↦
          rw (k, execute)
            (λ h.
              subst (λ d. Grows db d × (table_has t (c.0 ∷ []) d.tables ≡ true))
                (ok-injective (sym (existing-same (Statement.add_column t c) db) ∙ h))
                (Grows-refl db, k))
      | inr k ↦ elim (Bool-cases (table_exists t db.tables)) [
        | inr l ↦ rw (k, l, execute) (λ h. absurd (ok-err (sym h)))
        | inl l ↦
            let there : table_has t [] db.tables ≡ true = unfold table_exists in l in
            rw (k, l, execute)
              (λ h.
                subst (λ d. Grows db d × (table_has t (c.0 ∷ []) d.tables ≡ true)) (ok-injective h)
                  (
                    (λ u cs e. add-grows t u c cs db.tables e, λ name e. e, λ name e. e),
                    add-has t c db.tables there,
                  ))
      ]
    ]
execute-ok (Statement.index name t cols included) db db' = elim (Bool-cases (is_relation name db)) [
  | inl k ↦
      rw (k, execute)
        (λ h.
          subst (λ d. Grows db d × (is_relation name d ≡ true))
            (ok-injective (sym (existing-same (Statement.index name t cols included) db) ∙ h))
            (Grows-refl db, k))
  | inr k ↦ elim (Bool-cases (table_has t (cols ++ included) db.tables)) [
    | inr l ↦ rw (k, l, execute) (λ h. absurd (ok-err (sym h)))
    | inl l ↦
        rw (k, l, execute)
          (λ h.
            subst (λ d. Grows db d × (is_relation name d ≡ true)) (ok-injective h)
              (
                (λ u cs e. e, λ n e. is_in-append n db.indexes (name ∷ []) e, λ n e. e),
                ground (arith, is_in-last name db.indexes),
              ))
  ]
]
execute-ok Statement.receipts_key db db' =
    elim (Bool-cases (is_in "receipts_tx_fk" db.constraints)) [
      | inl k ↦
          rw (k, execute)
            (λ h.
              subst (λ d. Grows db d × (is_in "receipts_tx_fk" d.constraints ≡ true))
                (ok-injective (sym (existing-same Statement.receipts_key db) ∙ h))
                (Grows-refl db, k))
      | inr k ↦
          elim (Bool-cases (
            table_has "receipts" ("chain_id" ∷ "tx_id" ∷ []) db.tables
            && has is_target db.tables)) [
              | inr l ↦ rw (k, l, execute) (λ h. absurd (ok-err (sym h)))
              | inl l ↦
                  rw (k, l, execute)
                    (λ h.
                      subst (λ d. Grows db d × (is_in "receipts_tx_fk" d.constraints ≡ true))
                        (ok-injective h)
                        (
                          (
                            λ u cs e. e,
                            λ n e. e,
                            λ n e. is_in-append n db.constraints ("receipts_tx_fk" ∷ []) e,
                          ),
                          is_in-last "receipts_tx_fk" db.constraints,
                        ))
            ]
    ]
