-- ===== src/Base/Assoc.antt =====
-- `BTreeMap` and `HashMap` with number keys: association lists with one entry for each key.
use topic.Base.{
  ℕ, ◌≤◌, ◌<◌, ◌≡◌, Option, none, some, List, [], ◌∷◌, arith, ◌==◌, length, if◌then◌else◌,
}

module _ {ℓ} {V : Type ℓ} where
  -- `map.get(&key)`
  unfoldable pub lookup : ℕ → List (ℕ × V) → Option V
  lookup k [] = none
  lookup k ((j, v) ∷ m) = if j == k then some v else lookup k m

  -- the map that `map.remove(&key)` leaves
  unfoldable pub without : ℕ → List (ℕ × V) → List (ℕ × V)
  without k [] = []
  without k ((j, v) ∷ m) = if j == k then without k m else (j, v) ∷ without k m

  -- `map.insert(key, value)`
  unfoldable pub insert : ℕ → V → List (ℕ × V) → List (ℕ × V)
  unfolding without
  insert k v m = (k, v) ∷ without k m

  pub lookup-without :
      (k j : ℕ) (m : List (ℕ × V)) → lookup j (without k m) ≡ (if k == j then none else lookup j m)
  unfolding lookup without
  lookup-without k j [] = ground arith
  lookup-without k j ((i, v) ∷ m) = ground (arith, lookup-without k j m)

  pub lookup-insert :
      (k j : ℕ) (v : V) (m : List (ℕ × V))
      → lookup j (insert k v m) ≡ (if k == j then some v else lookup j m)
  unfolding lookup insert
  lookup-insert k j v m = ground (arith, lookup-without k j m)

  pub length-without : (k : ℕ) (m : List (ℕ × V)) → length (without k m) ≤ length m
  unfolding without
  length-without k [] = omega arith
  length-without k ((j, v) ∷ m) = ground (arith, length-without k m)

  -- Taking out an entry that is there makes the map smaller.
  pub length-without_lt :
      (k : ℕ) (v : V) (m : List (ℕ × V)) → lookup k m ≡ some v → length (without k m) < length m
  unfolding lookup without
  length-without_lt k v [] h = cc
  length-without_lt k v ((j, w) ∷ m) h = ground (arith, length-without k m, length-without_lt k v m)
