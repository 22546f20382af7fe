-- ===== src/Ddl/Again.antt =====
-- crates/migrator/src: `apply` may run again.
use mathlib.Core.List.{append_assoc, append-nil}
use topic.Text.{append}
use topic.Base.{
  ◌≡◌, refl, sym, ap, ◌∙◌, subst, inl, inr, Bool, true, false, List, [], ◌∷◌, ◌++◌, map, arith,
  String, All, Any, All-map, ◌⊎◌, Bool-cases, if◌then◌else◌,
}
use topic.Base.Results.{DomainError, Result, ok, err, ok-err, Result-cases}
use topic.Base.Pairs.{All-left, All-right}
use topic.Schema.{ColumnDef, EventSchema}
use topic.Ddl.{
  Statement, create_table, add_columns, create_indexes, foreign_keys, table_statements, Catalog,
  table_has, table_exists, is_in, is_relation, typed, execute, SchemaPlan, plan_loop, plan_schemas,
  execute_all, apply, is_in_sync,
}
use topic.Ddl.Executed.{
  Holds, Grows, Grows-refl, Grows-trans, Holds-Grows, execute-same, execute-ok,
}

execute_all-cons :
    (s : Statement) (ss : List Statement) (db db' : Catalog)
    → execute s db ≡ ok db'
    → execute_all (s ∷ ss) db ≡ execute_all ss db'
unfolding execute_all
execute_all-cons s ss db db' k = rw (k, execute_all) refl

execute_all-refused :
    (s : Statement) (ss : List Statement) (db : Catalog) (e : DomainError)
    → execute s db ≡ err e
    → execute_all (s ∷ ss) db ≡ (err e, db)
unfolding execute_all
execute_all-refused s ss db e k = rw (k, execute_all) refl

abbrev Outcome : Type 0
Outcome = Result DomainError (Unit {0}) × Catalog

execute_all-ok :
    (ss : List Statement) (db : Catalog)
    → (execute_all ss db).0 ≡ ok tt
    → Grows db (execute_all ss db).1 × All (λ s. Holds s (execute_all ss db).1) ss
execute_all-ok [] db h = (unfold execute_all in Grows-refl db, tt)
execute_all-ok (s ∷ ss) db h = elim (Result-cases (execute s db)) [
  | inr (e, k) ↦
      absurd (ok-err (sym h ∙ ap (λ (o : Outcome). o.0) (execute_all-refused s ss db e k)))
  | inl (db', k) ↦
      let step = execute_all-cons s ss db db' k in
      let (g, holds) = execute-ok s db db' k in
      let (g', rest) = execute_all-ok ss db' (sym (ap (λ (o : Outcome). o.0) step) ∙ h) in
      let last = (execute_all ss db').1 in
      subst (λ d. Grows db d × All (λ t. Holds t d) (s ∷ ss)) (sym (ap (λ (o : Outcome). o.1) step))
        (Grows-trans db db' last g g', (Holds-Grows s db' last g' holds, rest))
]

execute_all-same :
    (ss : List Statement) (db : Catalog)
    → All (λ s. Holds s db) ss
    → execute_all ss db ≡ (ok tt, db)
unfolding execute_all
execute_all-same [] db h = refl
execute_all-same (s ∷ ss) db h =
    rw (execute-same s db h.0, execute_all) (execute_all-same ss db h.1)

-- The statements of a plan, whatever the catalog.
abbrev all_statements : List EventSchema → List Statement
all_statements [] = []
all_statements (s ∷ desired) = table_statements s ++ all_statements desired

plan_loop-statements :
    (desired : List EventSchema) (db : Catalog) (plan : SchemaPlan)
    → ((plan_loop desired db plan).statements ≡ plan.statements ++ all_statements desired)
      × ((plan_loop desired db plan).destructive ≡ plan.destructive)
unfolding plan_loop
plan_loop-statements [] db plan = (sym (append-nil plan.statements), refl)
plan_loop-statements (s ∷ desired) db plan =
    let next : SchemaPlan = record plan {
      summary =
          plan.summary
          ++ (if table_exists s.table db.tables then [] else append "CREATE TABLE " s.table ∷ []);
      statements = plan.statements ++ table_statements s;
    } in
    let (e, d) = plan_loop-statements desired db next in
    (e ∙ append_assoc plan.statements (table_statements s) (all_statements desired), d)

apply-execute_all :
    (desired : List EventSchema) (db db' : Catalog) (allow : Bool)
    → apply (plan_schemas desired db') allow db ≡ execute_all (all_statements desired) db
unfolding apply
apply-execute_all desired db db' allow =
    let plan : SchemaPlan = record { summary = []; statements = []; destructive = false } in
    let (e, d) = plan_loop-statements desired db' plan in simp (d) (ap (λ ss. execute_all ss db) e)

-- The columns of the schemas are there.
abbrev pub HasColumns : EventSchema → Catalog → Type 0
HasColumns s db = All (λ c. table_has s.table (c.name ∷ []) db.tables ≡ true) s.columns

has_columns-Holds :
    (t : String) (cs : List ColumnDef) (db : Catalog)
    → All (λ s. Holds s db) (map (λ c. Statement.add_column t c) (typed cs))
    → All (λ (c : ColumnDef). table_has t (c.name ∷ []) db.tables ≡ true) cs
has_columns-Holds t [] db h = tt
has_columns-Holds t (c ∷ cs) db h = (h.0, has_columns-Holds t cs db h.1)

table_statements-HasColumns :
    (s : EventSchema) (db : Catalog)
    → All (λ t. Holds t db) (table_statements s)
    → HasColumns s db × (is_relation s.table db ≡ true)
unfolding table_statements create_table add_columns
table_statements-HasColumns s db h = (
  has_columns-Holds s.table s.columns db (
      All-left (λ t. Holds t db) (add_columns s) (create_indexes s)
        (All-left (λ t. Holds t db) (add_columns s ++ create_indexes s) (foreign_keys s) h.1)),
  h.0,
)

all_statements-HasColumns :
    (desired : List EventSchema) (db : Catalog)
    → All (λ t. Holds t db) (all_statements desired)
    → All (λ s. HasColumns s db × (is_relation s.table db ≡ true)) desired
all_statements-HasColumns [] db h = tt
all_statements-HasColumns (s ∷ desired) db h = (
  table_statements-HasColumns s db
      (All-left (λ t. Holds t db) (table_statements s) (all_statements desired) h),
  all_statements-HasColumns desired db
      (All-right (λ t. Holds t db) (table_statements s) (all_statements desired) h),
)

is_in_sync-or :
    (desired : List EventSchema) (db : Catalog)
    → All (λ s. is_relation s.table db ≡ true) desired
    → (is_in_sync desired db ≡ true) ⊎ Any (λ s. is_in s.table db.indexes ≡ true) desired
unfolding is_in_sync
is_in_sync-or [] db h = inl refl
is_in_sync-or (s ∷ desired) db h = elim (Bool-cases (is_in s.table db.indexes)) [
  | inl clash ↦ inr (inl clash)
  | inr free ↦ elim (is_in_sync-or desired db h.1) [
    | inl rest ↦ inl (ground (arith, h.0, free, rest))
    | inr clash ↦ inr (inr clash)
  ]
]

-- A plan that was applied without an error may be planned and applied again: nothing changes. The
-- catalog has every column of every schema, and it is in sync with the schemas, or an index has the name
-- of one of their tables.
pub apply-again :
    (desired : List EventSchema) (db : Catalog) (allow : Bool)
    → (apply (plan_schemas desired db) allow db).0 ≡ ok tt
    → let db' = (apply (plan_schemas desired db) allow db).1 in
      (apply (plan_schemas desired db') allow db' ≡ (ok tt, db'))
      × All (λ s. HasColumns s db') desired
      × ((is_in_sync desired db' ≡ true) ⊎ Any (λ s. is_in s.table db'.indexes ≡ true) desired)
apply-again desired db allow h =
    let first = apply-execute_all desired db db allow in
    let db' = (apply (plan_schemas desired db) allow db).1 in
    let ran = (execute_all (all_statements desired) db).1 in
    let (_, holds) =
      execute_all-ok (all_statements desired) db (sym (ap (λ (o : Outcome). o.0) first) ∙ h) in
    let there : All (λ t. Holds t db') (all_statements desired) =
      subst (λ d. All (λ t. Holds t d) (all_statements desired))
        (sym (ap (λ (o : Outcome). o.1) first)) holds in
    let made = all_statements-HasColumns desired db' there in
    (
      apply-execute_all desired db' db' allow ∙ execute_all-same (all_statements desired) db' there,
      All-map desired (λ s m. m.0) made,
      is_in_sync-or desired db' (All-map desired (λ s m. m.1) made),
    )
