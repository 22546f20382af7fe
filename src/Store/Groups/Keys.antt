-- ===== src/Store/Groups/Keys.antt =====
-- The keys of the grouping maps: what holds of the keys of the rows, each row's key, their order.
use Prim.Native.Nat.{Ordering, compare}
use native.Mathlib.Omega.{compare-lt, compare-eq, compare-gt}
use topic.Base.{ℕ, ◌<◌, ◌≡◌, refl, sym, ap, ◌∙◌, inl, inr, List, [], ◌∷◌, arith, All, All-map, Any}
use topic.Base.Pairs.{Pairs}
use topic.Store.Groups.{lex, group, group_push}

module _ {K A : Type 0} (cmp : K → K → Ordering) (P : K → Type 0) where
  group_push-All :
      (k : K) (a : A) (m : List (K × List A))
      → P k
      → All {A = K × List A} (λ g. P g.0) m
      → All {A = K × List A} (λ g. P g.0) (group_push cmp k a m)
  unfolding group_push
  group_push-All k a [] p h = (p, tt)
  group_push-All k a ((j, as') ∷ m) p h = go (cmp k j) refl (group_push-All k a m p h.1)
    where
      go :
          (o : Ordering)
          → cmp k j ≡ o
          → All {A = K × List A} (λ g. P g.0) (group_push cmp k a m)
          → All {A = K × List A} (λ g. P g.0) (group_push cmp k a ((j, as') ∷ m))
      go Ordering.lt e ih = rw (e, group_push) (p, (h.0, h.1))
      go Ordering.eq e ih = rw (e, group_push) (h.0, h.1)
      go Ordering.gt e ih = rw (e, group_push) (h.0, ih)

  pub group-All :
      (key : A → K) (xs : List A) (m : List (K × List A))
      → All (λ x. P (key x)) xs
      → All {A = K × List A} (λ g. P g.0) m
      → All {A = K × List A} (λ g. P g.0) (group cmp key xs m)
  unfolding group
  group-All key [] m h k = k
  group-All key (x ∷ xs) m h k =
      group-All key xs (group_push cmp (key x) x m) h.1 (group_push-All (key x) x m h.0 k)

-- A key that is in the map stays in it.
module _ {K A : Type 0} (cmp : K → K → Ordering) (P : K → Type 0) where
  group_push-Any :
      (k : K) (a : A) (m : List (K × List A))
      → Any {A = K × List A} (λ g. P g.0) m
      → Any {A = K × List A} (λ g. P g.0) (group_push cmp k a m)
  unfolding group_push
  group_push-Any k a [] h = absurd h
  group_push-Any k a ((j, as') ∷ m) h = go (cmp k j) refl h (group_push-Any k a m)
    where
      go :
          (o : Ordering)
          → cmp k j ≡ o
          → Any {A = K × List A} (λ g. P g.0) ((j, as') ∷ m)
          → (Any {A = K × List A} (λ g. P g.0) m
              → Any {A = K × List A} (λ g. P g.0) (group_push cmp k a m))
          → Any {A = K × List A} (λ g. P g.0) (group_push cmp k a ((j, as') ∷ m))
      go Ordering.lt e h' ih = rw (e, group_push) (inr h')
      go Ordering.eq e (inl p) ih = rw (e, group_push) (inl p)
      go Ordering.eq e (inr q) ih = rw (e, group_push) (inr q)
      go Ordering.gt e (inl p) ih = rw (e, group_push) (inl p)
      go Ordering.gt e (inr q) ih = rw (e, group_push) (inr (ih q))

  group-Any :
      (key : A → K) (xs : List A) (m : List (K × List A))
      → Any {A = K × List A} (λ g. P g.0) m
      → Any {A = K × List A} (λ g. P g.0) (group cmp key xs m)
  unfolding group
  group-Any key [] m h = h
  group-Any key (x ∷ xs) m h =
      group-Any key xs (group_push cmp (key x) x m) (group_push-Any (key x) x m h)

module _ {K A : Type 0} (cmp : K → K → Ordering)
    (eq : (j k : K) → cmp j k ≡ Ordering.eq → j ≡ k) where
  abbrev HasKey : K → List (K × List A) → Type 0
  HasKey k = Any {A = K × List A} (λ g. g.0 ≡ k)

  group_push-HasKey : (k : K) (a : A) (m : List (K × List A)) → HasKey k (group_push cmp k a m)
  unfolding group_push
  group_push-HasKey k a [] = inl refl
  group_push-HasKey k a ((j, as') ∷ m) = go (cmp k j) refl (group_push-HasKey k a m)
    where
      go :
          (o : Ordering)
          → cmp k j ≡ o
          → HasKey k (group_push cmp k a m)
          → HasKey k (group_push cmp k a ((j, as') ∷ m))
      go Ordering.lt e ih = rw (e, group_push) (inl refl)
      go Ordering.eq e ih = rw (e, group_push) (inl (sym (eq k j e)))
      go Ordering.gt e ih = rw (e, group_push) (inr ih)

  pub group-HasKey :
      (key : A → K) (xs : List A) (m : List (K × List A))
      → All (λ x. Any {A = K × List A} (λ g. g.0 ≡ key x) (group cmp key xs m)) xs
  unfolding group
  group-HasKey key [] m = tt
  group-HasKey key (x ∷ xs) m = (
    group-Any cmp (λ k. k ≡ key x) key xs (group_push cmp (key x) x m)
        (group_push-HasKey (key x) x m),
    group-HasKey key xs (group_push cmp (key x) x m),
  )

pub lex-eq : (a b : List ℕ) → lex compare a b ≡ Ordering.eq → a ≡ b
unfolding lex
lex-eq [] [] e = refl
lex-eq [] (b ∷ bs) e = cc
lex-eq (a ∷ as') [] e = cc
lex-eq (a ∷ as') (b ∷ bs) e = go (compare a b) refl (lex-eq as' bs) e
  where
    go :
        (o : Ordering)
        → compare a b ≡ o
        → (lex compare as' bs ≡ Ordering.eq → as' ≡ bs)
        → (elim o [
          | Ordering.lt ↦ Ordering.lt
          | Ordering.eq ↦ lex compare as' bs
          | Ordering.gt ↦ Ordering.gt
        ])
          ≡ Ordering.eq
        → a ∷ as' ≡ b ∷ bs
    go Ordering.lt k ih h = cc
    go Ordering.eq k ih h = ap (λ x. x ∷ as') (compare-eq a b k) ∙ ap (◌∷◌ b) (ih h)
    go Ordering.gt k ih h = cc

module _ {A : Type 0} where
  -- In ascending order, without repetition.
  abbrev pub IsAscending : List (ℕ × List A) → Type 0
  IsAscending = Pairs {A = ℕ × List A} (λ g h. g.0 < h.0)

  group_push-IsAscending :
      (k : ℕ) (a : A) (m : List (ℕ × List A))
      → IsAscending m
      → IsAscending (group_push compare k a m)
  unfolding group_push
  group_push-IsAscending k a [] h = (tt, tt)
  group_push-IsAscending k a ((j, as') ∷ m) h =
      go (compare k j) refl (group_push-IsAscending k a m h.1)
    where
      go :
          (o : Ordering)
          → compare k j ≡ o
          → IsAscending (group_push compare k a m)
          → IsAscending (group_push compare k a ((j, as') ∷ m))
      go Ordering.lt e ih =
          rw (e, group_push)
            (
              (
                compare-lt k j e,
                All-map {A = ℕ × List A} {P = λ g. j < g.0} {Q = λ g. k < g.0} m
                    (λ g l. omega (arith, compare-lt k j e)) h.0,
              ),
              h,
            )
      go Ordering.eq e ih = rw (e, group_push) h
      go Ordering.gt e ih =
          rw (e, group_push) (group_push-All compare (λ i. j < i) k a m (compare-gt k j e) h.0, ih)

  pub group-IsAscending :
      (key : A → ℕ) (xs : List A) (m : List (ℕ × List A))
      → IsAscending m
      → IsAscending (group compare key xs m)
  unfolding group
  group-IsAscending key [] m h = h
  group-IsAscending key (x ∷ xs) m h =
      group-IsAscending key xs (group_push compare (key x) x m)
        (group_push-IsAscending (key x) x m h)
