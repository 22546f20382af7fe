-- ===== src/Store/Groups.antt =====
-- The `BTreeMap`s that group rows: by key in ascending order, each group in the order of its rows.
pub mod Keys
use Prim.Native.Nat.{Ordering}
use topic.Base.{List, [], ◌∷◌, ◌++◌}

unfoldable pub lex {ℓ} : {K : Type ℓ} → (K → K → Ordering) → List K → List K → Ordering
lex cmp [] [] = Ordering.eq
lex cmp [] (b ∷ bs) = Ordering.lt
lex cmp (a ∷ as') [] = Ordering.gt
lex cmp (a ∷ as') (b ∷ bs) = elim (cmp a b) [
  | Ordering.lt ↦ Ordering.lt
  | Ordering.eq ↦ lex cmp as' bs
  | Ordering.gt ↦ Ordering.gt
]

module _ {K A : Type 0} (cmp : K → K → Ordering) where
  -- `entry(k).or_default().push(a)`
  unfoldable pub group_push : K → A → List (K × List A) → List (K × List A)
  group_push k a [] = (k, a ∷ []) ∷ []
  group_push k a ((j, as') ∷ m) = elim (cmp k j) [
    | Ordering.lt ↦ (k, a ∷ []) ∷ (j, as') ∷ m
    | Ordering.eq ↦ (j, as' ++ a ∷ []) ∷ m
    | Ordering.gt ↦ (j, as') ∷ group_push k a m
  ]

  unfoldable pub group : (A → K) → List A → List (K × List A) → List (K × List A)
  unfolding group_push
  group key [] m = m
  group key (a ∷ as') m = group key as' (group_push (key a) a m)
