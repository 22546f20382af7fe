-- ===== src/Query.antt =====
-- crates/db-query/src/lib.rs: the pages of a query. A row of the table is its key and its JSON text; the
-- filters are a test on the rows, which the `WHERE` clause makes.
pub mod Order
pub mod Pages
pub mod Cache
pub mod Cached
use topic.Base.{
  ℕ, zero, suc, ◌+◌, min, max, Bool, true, false, ◌&&◌, ◌||◌, Option, none, some, List, [], ◌∷◌,
  ◌++◌, ltb, ◌==◌, if◌then◌else◌, String, take, length,
}
use topic.Base.Sort.{sort_by}
use topic.Store.Rows.{keep}

-- `(t.height, t.idx)`
abbrev pub Key : Type 0
Key = ℕ × ℕ

pub record Entry : Type 0 where
  pub key : Key
  pub json : String

-- What `query` reads of its `QuerySpec`, with the cursor parsed.
pub record QuerySpec : Type 0 where
  pub first : ℕ
  pub after : Option Key
  pub descending : Bool

pub record Page : Type 0 where
  pub items : List String
  pub end_cursor : Option Key
  pub has_next : Bool

-- The comparison of the tuples.
unfoldable pub key_less : Key → Key → Bool
key_less (h, i) (k, j) = ltb h k || h == k && ltb i j

-- Whether a key comes before another in the order of the query.
unfoldable pub before : Bool → Key → Key → Bool
unfolding key_less
before descending a b = if descending then key_less b a else key_less a b

unfoldable pub entry_before : Bool → Entry → Entry → Bool
unfolding before
entry_before descending a b = before descending a.key b.key

-- The keyset condition of the `WHERE` clause.
unfoldable pub is_past : Bool → Option Key → Entry → Bool
unfolding before
is_past descending none e = true
is_past descending (some cursor) e = before descending cursor e.key

-- The rows in the `WHERE` clause and the order of the query, before `LIMIT`.
unfoldable pub selected : (Entry → Bool) → QuerySpec → List Entry → List Entry
unfolding is_past keep sort_by before
selected matches spec rows =
    sort_by (λ a b. before spec.descending a.key b.key)
      (keep (is_past spec.descending spec.after) (keep matches rows))

-- The cursor of the last item, if there is one.
unfoldable pub last_key : List Entry → Option Key
last_key [] = none
last_key (e ∷ []) = some e.key
last_key (e ∷ f ∷ es) = last_key (f ∷ es)

abbrev pub jsons : List Entry → List String
jsons [] = []
jsons (e ∷ es) = e.json ∷ jsons es

-- `first.clamp(1, 1000)`
abbrev pub page_size : ℕ → ℕ
page_size first = min (max first 1) 1000

unfoldable pub query : (Entry → Bool) → QuerySpec → List Entry → Page
unfolding selected last_key
query matches spec rows =
    let first = page_size spec.first in
    let fetched = take (suc first) (selected matches spec rows) in
    let has_next = ltb first (length fetched) in
    record {
      items = jsons (take first fetched);
      end_cursor = if has_next then last_key (take first fetched) else none;
      has_next = has_next;
    }

unfoldable pub count : (Entry → Bool) → List Entry → ℕ
unfolding keep
count matches rows = length (keep matches rows)

-- A client that follows the cursors to the end, and puts the pages together.
unfoldable pub follow : ℕ → (Entry → Bool) → QuerySpec → List Entry → Option (List String)
unfolding query
follow zero matches spec rows = none
follow (suc fuel) matches spec rows =
    let page = query matches spec rows in
    elim page.end_cursor [
      | none ↦ some page.items
      | some cursor ↦ elim (follow fuel matches (record spec { after = some cursor }) rows) [
        | none ↦ none
        | some rest ↦ some (page.items ++ rest)
      ]
    ]
