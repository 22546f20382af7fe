-- ===== src/Tests/Queries.antt =====
-- crates/db-query: five rows in pages of two, the newest first; and two rows that share a key.
use topic.Base.{ℕ, suc, ◌≡◌, refl, true, false, none, some, List, [], ◌∷◌, String, length}
use topic.Query.{Entry, follow, jsons}
use topic.Query.Pages.{AreDistinct, whole, follow-whole}

abbrev entry : ℕ → ℕ → String → Entry
entry h i json = record { key = (h, i); json = json }

abbrev rows : List Entry
rows = entry 3 1 "c" ∷ entry 1 0 "a" ∷ entry 3 0 "b" ∷ entry 9 4 "e" ∷ entry 4 0 "d" ∷ []

rows-AreDistinct : AreDistinct rows
rows-AreDistinct = (
  (refl, (refl, (refl, (refl, tt)))),
  ((refl, (refl, (refl, tt))), ((refl, (refl, tt)), ((refl, tt), (tt, tt)))),
)

follow-whole_example :
    follow
      (suc (length (whole (λ e. true) true rows)))
      (λ e. true)
      (record { first = 2; after = none; descending = true })
      rows
    ≡ some (jsons (whole (λ e. true) true rows))
follow-whole_example = follow-whole (λ e. true) 2 true rows rows-AreDistinct

-- Rows of two chains with one height and index, in pages of one: the second is lost.
lost_test :
    follow 5
      (λ e. true)
      (record { first = 1; after = none; descending = false })
      (entry 3 0 "chain 1" ∷ entry 3 0 "chain 2" ∷ entry 4 0 "next" ∷ [])
    ≡ some ("chain 1" ∷ "next" ∷ [])
unfolding follow
lost_test = refl
