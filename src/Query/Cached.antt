-- ===== src/Query/Cached.antt =====
-- crates/db-query/src/cache.rs: what a cached answer is the answer to.
use topic.Base.{
  ℕ, ◌+◌, ◌≤◌, ◌<◌, ◌≡◌, refl, ap, ◌∙◌, subst, ◌⊎◌, Option, none, some, List, String, All,
}
use topic.Base.Results.{DomainError, Result, ok}
use topic.Sql.{Tables, Filter, Spec, count_sql, validate_table}
use topic.Query.{Page}
use topic.Query.Cache.{
  Serde, IsJson, Cached, unwrap_or_default, query_key, count_key, AreAnswers, through-IsFresh,
  cached_query, cached_count,
}

unwrap-injective :
    (a b : Option String)
    → (a ≡ none → ⊥)
    → (b ≡ none → ⊥)
    → unwrap_or_default a ≡ unwrap_or_default b
    → a ≡ b
unwrap-injective none b h k e = absurd (h refl)
unwrap-injective (some a) none h k e = absurd (k refl)
unwrap-injective (some a) (some b) h k e = ap some e

query_key-injective :
    (serde : Serde) (s s' : Spec)
    → IsJson serde s'
    → query_key serde s ≡ query_key serde s'
    → s ≡ s'
unfolding query_key
query_key-injective serde s s' j e =
    j.spec_own s (
      unwrap-injective (serde.spec_text s) (serde.spec_text s') (j.spec_total s) (j.spec_total s')
        e)

count_key-injective :
    (serde : Serde) (s s' : Spec)
    → IsJson serde s'
    → count_key serde s ≡ count_key serde s'
    → (s.table ≡ s'.table) × (s.filters ≡ s'.filters)
unfolding count_key
count_key-injective serde s s' j e =
    let c : String × List Filter = (s.table, s.filters) in
    let c' : String × List Filter = (s'.table, s'.filters) in
    let same : c ≡ c' = j.count_own c (
      unwrap-injective (serde.count_text c) (serde.count_text c') (j.count_total c)
        (j.count_total c') e) in
    (ap (λ (p : String × List Filter). p.0) same, ap (λ (p : String × List Filter). p.1) same)

-- The statement and the binds of a count are those of its table and filters.
count_sql-same :
    (tables : Tables) (s s' : Spec)
    → s.table ≡ s'.table
    → s.filters ≡ s'.filters
    → count_sql tables s ≡ count_sql tables s'
unfolding count_sql validate_table
count_sql-same tables s s' e f =
    ap (λ t. count_sql tables (record s' { table = t; filters = s.filters })) e
    ∙ ap (λ fs. count_sql tables (record s' { filters = fs })) f

-- Whatever the cache evicts, if it has answers of the repository only, an answer of `query` is that of
-- the repository to this very query, now or at an earlier time less than the time to live ago, and the
-- cache keeps answers only; where queries always have a text as JSON, and no other has that of this one.
pub cached_query-IsAnswer :
    (serde : Serde) (ttl : ℕ) (inner : ℕ → Spec → Result DomainError Page)
    (evict : List (Cached Page) → List (Cached Page)) (now : ℕ) (spec : Spec)
    (entries : List (Cached Page)) (a : Page)
    → IsJson serde spec
    → ((P : Cached Page → Type 0) (cs : List (Cached Page)) → All P cs → All P (evict cs))
    → AreAnswers (query_key serde) ttl inner now entries
    → (cached_query serde ttl (inner now) evict now spec entries).0 ≡ ok a
    → ((t : ℕ) × (t ≤ now) × ((t ≡ now) ⊎ (now < t + ttl)) × (inner t spec ≡ ok a))
      × AreAnswers
          (query_key serde)
          ttl
          inner
          now
          (cached_query serde ttl (inner now) evict now spec entries).1
unfolding cached_query
cached_query-IsAnswer serde ttl inner evict now spec entries a j spares h e =
    let ((t, past, fresh, (s, same, answer)), kept) =
      through-IsFresh (query_key serde) ttl inner evict now spec entries a spares h e in
    let own : s ≡ spec = query_key-injective serde s spec j same in
    ((t, past, fresh, subst (λ s. inner t s ≡ ok a) own answer), kept)

-- Whatever the cache evicts, if it has answers of the repository only, an answer of `count` is that of
-- the repository, now or at an earlier time less than the time to live ago, to a query with the same
-- table and filters, which has the same statement and binds; and the cache keeps answers only; where a
-- table with filters always has a text as JSON, and no other has that of this one.
pub cached_count-IsAnswer :
    (serde : Serde) (ttl : ℕ) (tables : Tables) (inner : ℕ → Spec → Result DomainError ℕ)
    (evict : List (Cached ℕ) → List (Cached ℕ)) (now : ℕ) (spec : Spec) (entries : List (Cached ℕ))
    (n : ℕ)
    → IsJson serde spec
    → ((P : Cached ℕ → Type 0) (cs : List (Cached ℕ)) → All P cs → All P (evict cs))
    → AreAnswers (count_key serde) ttl inner now entries
    → (cached_count serde ttl (inner now) evict now spec entries).0 ≡ ok n
    → ((t : ℕ) × (t ≤ now)
        × ((t ≡ now) ⊎ (now < t + ttl))
        × ((s : Spec) × (s.table ≡ spec.table)
            × (s.filters ≡ spec.filters)
            × (count_sql tables s ≡ count_sql tables spec)
            × (inner t s ≡ ok n)))
      × AreAnswers
          (count_key serde)
          ttl
          inner
          now
          (cached_count serde ttl (inner now) evict now spec entries).1
unfolding cached_count
cached_count-IsAnswer serde ttl tables inner evict now spec entries n j spares h e =
    let ((t, past, fresh, (s, same, answer)), kept) =
      through-IsFresh (count_key serde) ttl inner evict now spec entries n spares h e in
    let (table, filters) = count_key-injective serde s spec j same in
    (
      (t, past, fresh, (s, table, filters, count_sql-same tables s spec table filters, answer)),
      kept,
    )
