-- ===== src/Query/Pages.antt =====
-- The pages of a query, put together.
use topic.Base.{
  ℕ, zero, suc, ◌≤◌, ◌<◌, ◌≡◌, refl, sym, ap, ◌∙◌, subst, ◌⊎◌, inl, inr, Bool, true, false, not,
  ◌||◌, Option, none, some, List, [], ◌∷◌, ◌++◌, arith, ltb, length, take, drop, length-take,
  length-drop, All, Bool-cases,
}
use topic.Base.Pairs.{Pairs}
use topic.Base.Sort.{sort_by}
use topic.Store.Rows.{keep, keep-All, keep-Pairs, keep-keep}
use topic.Query.{
  Key, Entry, QuerySpec, Page, before, is_past, selected, last_key, jsons, page_size, query, follow,
}
use topic.Query.Order.{
  same_key, IsStrict, sort_by-IsStrict, keep-sort_by, keep-is_past, last_key-before, before_trans,
}

-- No two rows of the table have the same height and index.
abbrev pub AreDistinct : List Entry → Type 0
AreDistinct es = Pairs (λ a b. same_key b a ≡ false) es

-- All rows of the query, in its order.
abbrev pub whole : (Entry → Bool) → Bool → List Entry → List Entry
whole matches d rows = sort_by (λ a b. before d a.key b.key) (keep matches rows)

selected-whole :
    (matches : Entry → Bool) (spec : QuerySpec) (rows : List Entry)
    → AreDistinct rows
    → selected matches spec rows
      ≡ keep (is_past spec.descending spec.after) (whole matches spec.descending rows)
unfolding selected
selected-whole matches spec rows h = sym (
    keep-sort_by spec.descending (is_past spec.descending spec.after) (keep matches rows)
      (keep-Pairs (λ a b. same_key b a ≡ false) matches rows h))

take-take : {A : Type 0} (n : ℕ) (xs : List A) → take n (take (suc n) xs) ≡ take n xs
take-take zero xs = refl
take-take (suc n) [] = refl
take-take (suc n) (x ∷ xs) = ap (◌∷◌ x) (take-take n xs)

jsons-append : (es fs : List Entry) → jsons (es ++ fs) ≡ jsons es ++ jsons fs
jsons-append [] fs = refl
jsons-append (e ∷ es) fs = ap (◌∷◌ e.json) (jsons-append es fs)

take-drop : {A : Type 0} (n : ℕ) (xs : List A) → take n xs ++ drop n xs ≡ xs
take-drop zero xs = refl
take-drop (suc n) [] = refl
take-drop (suc n) (x ∷ xs) = ap (◌∷◌ x) (take-drop n xs)

take_all : {A : Type 0} (n : ℕ) (xs : List A) → length xs ≤ n → take n xs ≡ xs
take_all zero [] h = refl
take_all zero (x ∷ xs) h = absurd (omega arith)
take_all (suc n) [] h = refl
take_all (suc n) (x ∷ xs) h = ap (◌∷◌ x) (take_all n xs (omega arith))

last_key-some :
    (k : ℕ) (e : Entry) (es : List Entry) → (c : Key) × (last_key (take (suc k) (e ∷ es)) ≡ some c)
unfolding last_key
last_key-some zero e es = (e.key, refl)
last_key-some (suc k) e [] = (e.key, refl)
last_key-some (suc k) e (f ∷ es) = last_key-some k f es

-- What a page is, given the rows `es` past its cursor.
record IsPage (k : ℕ) (es : List Entry) (page : Page) : Type 0 where
  items : page.items ≡ jsons (take k es)
  cursor :
      ((length es ≤ k) × (page.end_cursor ≡ none))
      ⊎ ((k < length es) × (page.end_cursor ≡ last_key (take k es)))

query-IsPage :
    (matches : Entry → Bool) (spec : QuerySpec) (rows es : List Entry)
    → selected matches spec rows ≡ es
    → IsPage (page_size spec.first) es (query matches spec rows)
unfolding query
query-IsPage matches spec rows es e =
    let k = page_size spec.first in
    let l = length-take (suc k) es in
    rw (e, query, take-take k es)
      (elim (Bool-cases (ltb k (length (take (suc k) es)))) [
        | inl more ↦ rw more (record { items = refl; cursor = inr (ground (arith, l), refl) })
        | inr done ↦ rw done (record { items = refl; cursor = inl (ground (arith, l), refl) })
      ])

-- Nothing that is past the last row of a page was before its cursor.
last-before :
    (d : Bool) (a : Key) (k : ℕ) (es : List Entry) (c : Key)
    → All (λ y. before d a y.key ≡ true) es
    → last_key (take k es) ≡ some c
    → before d a c ≡ true
unfolding last_key
last-before d a zero es c h q = cc
last-before d a (suc k) [] c h q = cc
last-before d a (suc k) (e ∷ es) c h q = last_key-before d a k e es c h q

All-all : {P : Entry → Type 0} → ((e : Entry) → P e) → (es : List Entry) → All P es
All-all f [] = tt
All-all f (e ∷ es) = (f e, All-all f es)

implied :
    (d : Bool) (a c x : Key) → before d a c ≡ true → (not (before d c x) || before d a x) ≡ true
implied d a c x b = elim (Bool-cases (before d c x)) [
  | inl p ↦ rw (p, before_trans d a c x b p) refl
  | inr n ↦ rw n refl
]

past-past :
    (d : Bool) (after : Option Key) (k : ℕ) (es : List Entry) (c : Key)
    → last_key (take k (keep (is_past d after) es)) ≡ some c
    → keep (is_past d (some c)) (keep (is_past d after) es) ≡ keep (is_past d (some c)) es
unfolding is_past
past-past d none k es c q =
    keep-keep (is_past d (some c)) (is_past d none) es (All-all (λ x. ground arith) es)
past-past d (some a) k es c q =
    let ahead : All (λ y. before d a y.key ≡ true) (keep (is_past d (some a)) es) =
      keep-All {R = λ _. Unit} (is_past d (some a)) es (λ y p _. p) (All-all (λ y. tt) es) in
    let b = last-before d a k (keep (is_past d (some a)) es) c ahead q in
    keep-keep (is_past d (some c)) (is_past d (some a)) es (All-all (λ x. implied d a c x.key b) es)

last_of :
    (k : ℕ) (es : List Entry) → 1 ≤ k → k < length es → (c : Key) × (last_key (take k es) ≡ some c)
last_of zero es p l = absurd (omega arith)
last_of (suc k) [] p l = absurd (omega arith)
last_of (suc k) (e ∷ es) p l = last_key-some k e es

-- The rows of the next page follow those of this one.
next_selected :
    (matches : Entry → Bool) (spec : QuerySpec) (rows es : List Entry) (c : Key)
    → AreDistinct rows
    → selected matches spec rows ≡ es
    → last_key (take (page_size spec.first) es) ≡ some c
    → selected matches (record spec { after = some c }) rows ≡ drop (page_size spec.first) es
next_selected matches spec rows es c h e q =
    let d = spec.descending in
    let k = page_size spec.first in
    let w = whole matches d rows in
    let here = sym (selected-whole matches spec rows h) ∙ e in
    let strict : IsStrict d es = subst (IsStrict d) here (
      keep-Pairs (λ a b. before d a.key b.key ≡ true) (is_past d spec.after) w
        (sort_by-IsStrict d (keep matches rows)
          (keep-Pairs (λ a b. same_key b a ≡ false) matches rows h))) in
    selected-whole matches (record spec { after = some c }) rows h
    ∙ sym (past-past d spec.after k w c (ap (λ l. last_key (take k l)) here ∙ q))
    ∙ ap (keep (is_past d (some c))) here
    ∙ keep-is_past d k es c strict q

follow-pages :
    (fuel : ℕ) (matches : Entry → Bool) (spec : QuerySpec) (rows es : List Entry)
    → AreDistinct rows
    → selected matches spec rows ≡ es
    → length es < fuel
    → follow fuel matches spec rows ≡ some (jsons es)
unfolding follow
follow-pages zero matches spec rows es h e f = absurd (omega arith)
follow-pages (suc fuel) matches spec rows es h e f =
    let page = query matches spec rows in
    let k = page_size spec.first in
    let p = query-IsPage matches spec rows es e in
    elim p.cursor [
      | inl (short, c) ↦ rw (c, follow) (ap some (p.items ∙ ap jsons (take_all k es short)))
      | inr (long, c) ↦
          let (key, last) = last_of k es (ground arith) long in
          let next : QuerySpec = record spec { after = some key } in
          let rest = next_selected matches spec rows es key h e last in
          let ih =
            follow-pages fuel matches next rows (drop k es) h rest
              (omega (arith, length-drop k es, f, long)) in
          rw (c ∙ last, follow, ih)
            (ap some (
              ap (λ l. l ++ jsons (drop k es)) p.items
              ∙ sym (jsons-append (take k es) (drop k es))
              ∙ ap jsons (take-drop k es)))
    ]

past_none : (d : Bool) (es : List Entry) → keep (is_past d none) es ≡ es
unfolding keep is_past
past_none d [] = refl
past_none d (e ∷ es) = ap (◌∷◌ e) (past_none d es)

-- Where no two rows of a table have the same height and index, the pages that a client gets by following
-- the cursors, put together, are all rows that match the filters, each once, in the order of the query,
-- and the cursors come to an end.
pub follow-whole :
    (matches : Entry → Bool) (first : ℕ) (descending : Bool) (rows : List Entry)
    → AreDistinct rows
    → follow
        (suc (length (whole matches descending rows)))
        matches
        (record { first = first; after = none; descending = descending })
        rows
      ≡ some (jsons (whole matches descending rows))
follow-whole matches first descending rows h =
    let spec : QuerySpec = record { first = first; after = none; descending = descending } in
    let all : selected matches spec rows ≡ whole matches descending rows =
      selected-whole matches spec rows h ∙ past_none descending (whole matches descending rows) in
    follow-pages _ matches spec rows _ h all (omega arith)
