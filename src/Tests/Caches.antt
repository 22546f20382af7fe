-- ===== src/Tests/Caches.antt =====
-- crates/db-query/src/cache.rs: pages, and a count of a table that grows by one row per second.
use topic.Base.{
  ℕ, ◌+◌, ◌≤◌, ◌<◌, ◌≡◌, refl, ap, ◌∙◌, ◌⊎◌, Bool, true, false, ◌&&◌, ◌==◌, Option, none, some,
  List, [], ◌∷◌, String, str_eq, eq_iff, arith, ltb,
}
use topic.Base.Results.{DomainError, Result, ok}
use topic.Sql.{Tables, Filter, Spec, count_sql}
use topic.Query.{Page}
use topic.Query.Cache.{
  Serde, IsJson, Cached, query_key, count_key, AreAnswers, cached_query, cached_count,
}
use topic.Query.Cached.{cached_query-IsAnswer, cached_count-IsAnswer}

abbrev newest : ℕ → Spec
newest first = record {
  table = "evt";
  filters = [];
  first = first;
  after = none;
  include_tx = false;
  include_receipt = false;
  descending = true;
}

-- Whether these are the fields of `newest 10`.
abbrev are_newest : String → List Filter → ℕ → Option (List ℕ) → Bool → Bool → Bool → Bool
are_newest t [] n none false false true = str_eq t "evt" && n == 10
are_newest _ _ _ _ _ _ _ = false

abbrev is_newest : Spec → Bool
is_newest s =
    are_newest s.table s.filters s.first s.after s.include_tx s.include_receipt s.descending

abbrev are_all : String × List Filter → Bool
are_all (t, []) = str_eq t "evt"
are_all (t, f ∷ fs) = false

abbrev text_if : Bool → Option String
text_if true = some "asked"
text_if false = some "other"

-- Texts that tell the queries of the test from all others.
abbrev serde : Serde
serde = record { spec_text = λ s. text_if (is_newest s); count_text = λ c. text_if (are_all c) }

abbrev is_asked : Option String → Bool
is_asked none = false
is_asked (some t) = str_eq t "asked"

false≢true : ◌≡◌ {A = Bool} false true → ⊥
false≢true h = cc

text_if-true : (b : Bool) → text_if b ≡ text_if true → b ≡ true
text_if-true true e = refl
text_if-true false e = ap is_asked e

text_if-some : (b : Bool) → text_if b ≡ none → ⊥
text_if-some true e = cc
text_if-some false e = cc

are_newest-eq :
    (t : String) (fs : List Filter) (n : ℕ) (a : Option (List ℕ)) (x y d : Bool)
    → are_newest t fs n a x y d ≡ true
    → ◌≡◌ {A = Spec}
        (record {
          table = t;
          filters = fs;
          first = n;
          after = a;
          include_tx = x;
          include_receipt = y;
          descending = d;
        })
        (newest 10)
are_newest-eq t [] n none false false true e =
    let table : t ≡ "evt" = (eq_iff t "evt").0 (ground (arith, e)) in
    let first : n ≡ 10 = ground (arith, e) in
    ap (λ u. record (newest n) { table = u }) table ∙ ap newest first
are_newest-eq _ _ _ _ _ _ _ e = absurd (false≢true e)

are_all-eq : (c : String × List Filter) → are_all c ≡ true → c ≡ ("evt", [])
are_all-eq (t, []) e = ap (λ u. (u, [])) ((eq_iff t "evt").0 e)
are_all-eq (t, f ∷ fs) e = cc

serde-IsJson : IsJson serde (newest 10)
serde-IsJson = record {
  spec_total = λ s. text_if-some (is_newest s);
  count_total = λ c. text_if-some (are_all c);
  spec_own = λ s e.
      are_newest-eq s.table s.filters s.first s.after s.include_tx s.include_receipt s.descending
        (text_if-true (is_newest s) e);
  count_own = λ c e. are_all-eq c (text_if-true (are_all c) e);
}

abbrev all_kept : {A : Type 0} → List (Cached A) → List (Cached A)
all_kept cs = cs

abbrev count_at : ℕ → Spec → Result DomainError ℕ
count_at now s = ok (100 + now)

abbrev counts : List (Cached ℕ)
counts = record { key = "asked"; value = 105; since = 5 } ∷ []

hit : (cached_count serde 10 (count_at 12) all_kept 12 (newest 10) counts).0 ≡ ok 105
unfolding cached_count
hit = refl

expired : (cached_count serde 10 (count_at 15) all_kept 15 (newest 10) counts).0 ≡ ok 115
unfolding cached_count
expired = refl

abbrev page_at : ℕ → Spec → Result DomainError Page
page_at now s = ok (record { items = "{}" ∷ []; end_cursor = none; has_next = ltb now s.first })

abbrev pages : List (Cached Page)
pages = []

cached_query-IsAnswer_example :
    ((t : ℕ) × (t ≤ 4)
      × ((t ≡ 4) ⊎ (4 < t + 10))
      × (page_at t (newest 10)
          ≡ ok (record { items = "{}" ∷ []; end_cursor = none; has_next = true })))
    × AreAnswers
        (query_key serde)
        10
        page_at
        4
        (cached_query serde 10 (page_at 4) all_kept 4 (newest 10) pages).1
cached_query-IsAnswer_example =
    cached_query-IsAnswer serde 10 page_at all_kept 4 (newest 10) pages
      (record { items = "{}" ∷ []; end_cursor = none; has_next = true }) serde-IsJson (λ P cs h. h)
      tt (unfold cached_query in refl)

abbrev no_tables : Tables
no_tables = []

counts-AreAnswers : AreAnswers (count_key serde) 10 count_at 12 counts
counts-AreAnswers = ((omega arith, (newest 20, unfold count_key in refl, refl)), tt)

cached_count-IsAnswer_example :
    ((t : ℕ) × (t ≤ 12)
      × ((t ≡ 12) ⊎ (12 < t + 10))
      × ((s : Spec) × (s.table ≡ "evt")
          × (s.filters ≡ [])
          × (count_sql no_tables s ≡ count_sql no_tables (newest 10))
          × (count_at t s ≡ ok 105)))
    × AreAnswers
        (count_key serde)
        10
        count_at
        12
        (cached_count serde 10 (count_at 12) all_kept 12 (newest 10) counts).1
cached_count-IsAnswer_example =
    cached_count-IsAnswer serde 10 no_tables count_at all_kept 12 (newest 10) counts 105
      serde-IsJson (λ P cs h. h) counts-AreAnswers hit
