-- ===== src/Sql/Statements.antt =====
-- crates/db-query/src/lib.rs: what the text of a statement is made of.
use mathlib.Core.Option
use topic.Base.{
  ℕ, suc, ◌+◌, ◌≡◌, refl, sym, ap, ◌∙◌, Bool, none, some, List, [], ◌∷◌, String, str_eq, All,
  length,
}
use topic.Base.Results.{ok}
use topic.Abi.Index.{find}
use topic.Sql.{Tables, Filter, Spec, Bind, Cols, select_sql, query_sql}
use topic.Sql.Filters.{Shape, shapes, conditions, IsColumn}
use topic.Sql.Built.{is_some, keyset_count, IsAlike, keyset_added, statement, query_sql-IsBuilt}

-- The parts of the statement that are not the table and the conditions.
abbrev bare : ℕ → Bool → Bool → Bool → Spec
bare first include_tx include_receipt descending = record {
  table = "";
  filters = [];
  first = first;
  after = none;
  include_tx = include_tx;
  include_receipt = include_receipt;
  descending = descending;
}

select_sql-bare :
    (tables : Tables) (table : String) (cols : Cols) (spec : Spec) (conds : List String)
    → select_sql tables table cols spec conds
      ≡ select_sql tables table cols
          (bare spec.first spec.include_tx spec.include_receipt spec.descending)
          conds
unfolding select_sql
select_sql-bare tables table cols spec conds = refl

length-shapes : (fs : List Filter) → length fs ≡ length (shapes fs)
length-shapes [] = refl
length-shapes (f ∷ fs) = ap suc (length-shapes fs)

-- The statement, from its parts.
abbrev assembled : Tables → String → List Shape → ℕ → Bool → Bool → Bool → Bool → String
assembled tables table ss first after include_tx include_receipt descending =
    select_sql tables table (Option.get_or (find str_eq table tables) [])
      (bare first include_tx include_receipt descending)
      (keyset_added (conditions tables table ss 0) after descending (length ss))

statement-assembled :
    (tables : Tables) (spec : Spec)
    → statement tables spec spec.table
      ≡ assembled tables spec.table
          (shapes spec.filters)
          spec.first
          (is_some spec.after)
          spec.include_tx
          spec.include_receipt
          spec.descending
statement-assembled tables spec =
    select_sql-bare tables spec.table (Option.get_or (find str_eq spec.table tables) []) spec (
      keyset_added (conditions tables spec.table (shapes spec.filters) 0) (is_some spec.after)
        spec.descending (length spec.filters))
    ∙ ap
        (λ n.
          select_sql tables spec.table (Option.get_or (find str_eq spec.table tables) [])
            (bare spec.first spec.include_tx spec.include_receipt spec.descending)
            (keyset_added (conditions tables spec.table (shapes spec.filters) 0)
              (is_some spec.after) spec.descending n))
        (length-shapes spec.filters)

-- Two queries that differ in the values of the filters and in the position of the cursor only have the
-- same statement: no value gets into the text. Each filter is on a column that every table has or on one
-- of the table, and there are as many values as the filters and the keyset condition have placeholders.
pub query_sql-IsParameterized :
    (tables : Tables) (spec spec' : Spec) (sql sql' : String) (binds binds' : List Bind)
    → IsAlike spec spec'
    → query_sql tables spec ≡ some (ok (sql, binds))
    → query_sql tables spec' ≡ some (ok (sql', binds'))
    → (sql ≡ sql')
      × All (λ f. IsColumn tables spec.table f.column) spec.filters
      × (length binds ≡ length spec.filters + keyset_count (is_some spec.after))
query_sql-IsParameterized tables spec spec' sql sql' binds binds' (t, f, n, a, x, r, d) h h' =
    let (e, cols, count) = query_sql-IsBuilt tables spec sql binds h in
    let (e', _, _) = query_sql-IsBuilt tables spec' sql' binds' h' in
    let same : assembled tables spec.table (shapes spec.filters) spec.first (is_some spec.after)
          spec.include_tx spec.include_receipt spec.descending
        ≡ assembled tables spec'.table (shapes spec'.filters) spec'.first (is_some spec'.after)
            spec'.include_tx spec'.include_receipt spec'.descending =
      (λ i. assembled tables (t i) (f i) (n i) (a i) (x i) (r i) (d i)) in
    (
      e ∙ statement-assembled tables spec ∙ same ∙ sym (statement-assembled tables spec') ∙ sym e',
      cols,
      count,
    )
