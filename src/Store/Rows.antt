-- ===== src/Store/Rows.antt =====
-- The statements on the rows of one table: `INSERT … ON CONFLICT` on the columns that `same` compares.
-- A table is the list of its rows in the order in which they came.
use topic.Base.{
  ◌≡◌, refl, ap, ◌∙◌, sym, Bool, true, false, not, ◌||◌, List, [], ◌∷◌, ◌++◌, arith, if◌then◌else◌,
  Bool-cases, All, All-map, inl, inr,
}
use topic.Base.Pairs.{Pairs, Pairs-snoc}

module _ {ℓ} {A : Type ℓ} where
  unfoldable pub has : (A → Bool) → List A → Bool
  has p [] = false
  has p (x ∷ xs) = p x || has p xs

  unfoldable pub keep : (A → Bool) → List A → List A
  keep p [] = []
  keep p (x ∷ xs) = if p x then x ∷ keep p xs else keep p xs

  pub has-append : (p : A → Bool) (xs ys : List A) → has p (xs ++ ys) ≡ (has p xs || has p ys)
  unfolding has
  has-append p [] ys = refl
  has-append p (x ∷ xs) ys = ground (arith, has-append p xs ys)

  pub has-false : (p : A → Bool) (xs : List A) → has p xs ≡ false → All (λ x. p x ≡ false) xs
  unfolding has
  has-false p [] h = tt
  has-false p (x ∷ xs) h = (ground arith, has-false p xs (ground arith))

  -- What holds of the kept elements, given what holds of all.
  pub keep-All :
      {R P : A → Type 0} (q : A → Bool) (xs : List A)
      → ((x : A) → q x ≡ true → R x → P x)
      → All R xs
      → All P (keep q xs)
  unfolding keep
  keep-All q [] f h = tt
  keep-All q (x ∷ xs) f h = elim (Bool-cases (q x)) [
    | inl e ↦ rw (e, keep) (f x e h.0, keep-All q xs f h.1)
    | inr e ↦ rw (e, keep) (keep-All q xs f h.1)
  ]

  pub keep-Pairs :
      (R : A → A → Type 0) (q : A → Bool) (xs : List A) → Pairs R xs → Pairs R (keep q xs)
  unfolding keep
  keep-Pairs R q [] h = tt
  keep-Pairs R q (x ∷ xs) h = elim (Bool-cases (q x)) [
    | inl e ↦
        rw (e, keep) (keep-All {R = R x} {P = R x} q xs (λ y k r. r) h.0, keep-Pairs R q xs h.1)
    | inr e ↦ rw (e, keep) (keep-Pairs R q xs h.1)
  ]

  -- An element that is kept whenever it has `p` is still there.
  pub keep-has :
      (p q : A → Bool) (xs : List A)
      → All (λ x. (not (p x) || q x) ≡ true) xs
      → has p xs ≡ true
      → has p (keep q xs) ≡ true
  unfolding has keep
  keep-has p q [] h e = e
  keep-has p q (x ∷ xs) h e = ground (arith, h.0, keep-has p q xs h.1)

  pub keep-snoc :
      (p : A → Bool) (x : A) (xs : List A) → p x ≡ false → keep p (xs ++ x ∷ []) ≡ keep p xs
  unfolding keep
  keep-snoc p x [] h = rw h refl
  keep-snoc p x (y ∷ ys) h = ap (λ l. if p y then y ∷ l else l) (keep-snoc p x ys h)

  -- Deleting twice, first some of the rows that the second deletion takes or spares.
  pub keep-keep :
      (p q : A → Bool) (xs : List A)
      → All (λ x. (not (p x) || q x) ≡ true) xs
      → keep p (keep q xs) ≡ keep p xs
  unfolding keep
  keep-keep p q [] h = refl
  keep-keep p q (x ∷ xs) h = ground (arith, h.0, keep-keep p q xs h.1)

module _ {ℓ} {A : Type ℓ} (same : A → A → Bool) where
  -- `ON CONFLICT DO NOTHING`, for a row and for the rows of a statement.
  unfoldable pub put_new : A → List A → List A
  unfolding has
  put_new x xs = if has (same x) xs then xs else xs ++ x ∷ []

  unfoldable pub put_all : List A → List A → List A
  unfolding put_new
  put_all [] xs = xs
  put_all (y ∷ ys) xs = put_all ys (put_new y xs)

  -- `ON CONFLICT DO UPDATE` of all other columns.
  unfoldable pub put_over : A → List A → List A
  put_over x [] = x ∷ []
  put_over x (y ∷ ys) = if same x y then x ∷ ys else y ∷ put_over x ys

  unfoldable pub put_over_all : List A → List A → List A
  unfolding put_over
  put_over_all [] xs = xs
  put_over_all (y ∷ ys) xs = put_over_all ys (put_over y xs)

  abbrev pub Differ : A → A → Type 0
  Differ x y = same y x ≡ false

  abbrev pub IsKeyed : List A → Type 0
  IsKeyed xs = Pairs Differ xs

  pub has-Differ : (x : A) (xs : List A) → has (same x) xs ≡ false → All (λ y. Differ y x) xs
  unfolding has
  has-Differ x [] h = tt
  has-Differ x (y ∷ ys) h = (ground arith, has-Differ x ys (ground arith))

  put_new-IsKeyed : (x : A) (xs : List A) → IsKeyed xs → IsKeyed (put_new x xs)
  unfolding put_new
  put_new-IsKeyed x xs k = elim (Bool-cases (has (same x) xs)) [
    | inl h ↦ rw (h, put_new) k
    | inr h ↦ rw (h, put_new) (Pairs-snoc Differ xs x k (has-Differ x xs h))
  ]

  pub put_all-IsKeyed : (ys xs : List A) → IsKeyed xs → IsKeyed (put_all ys xs)
  unfolding put_all
  put_all-IsKeyed [] xs k = k
  put_all-IsKeyed (y ∷ ys) xs k = put_all-IsKeyed ys (put_new y xs) (put_new-IsKeyed y xs k)

  put_new-has : (p : A → Bool) (x : A) (xs : List A) → has p xs ≡ true → has p (put_new x xs) ≡ true
  unfolding put_new
  put_new-has p x xs h = ground (arith, has-append p xs (x ∷ []))

  pub put_all-has : (p : A → Bool) (ys xs : List A) → has p xs ≡ true → has p (put_all ys xs) ≡ true
  unfolding put_all
  put_all-has p [] xs h = h
  put_all-has p (y ∷ ys) xs h = put_all-has p ys (put_new y xs) (put_new-has p y xs h)

  put_new-has_self : (x : A) (xs : List A) → same x x ≡ true → has (same x) (put_new x xs) ≡ true
  unfolding put_new has
  put_new-has_self x xs r = ground (arith, has-append (same x) xs (x ∷ []))

  module _ (same_refl : (x : A) → same x x ≡ true) where
    -- Every row that was to be inserted has its key in the table.
    pub put_all-has_all : (ys xs : List A) → All (λ y. has (same y) (put_all ys xs) ≡ true) ys
    unfolding put_all
    put_all-has_all [] xs = tt
    put_all-has_all (y ∷ ys) xs = (
      put_all-has (same y) ys (put_new y xs) (put_new-has_self y xs (same_refl y)),
      put_all-has_all ys (put_new y xs),
    )

  -- Rows whose keys are there are not inserted.
  pub put_all-same : (ys xs : List A) → All (λ y. has (same y) xs ≡ true) ys → put_all ys xs ≡ xs
  unfolding put_all put_new
  put_all-same [] xs h = refl
  put_all-same (y ∷ ys) xs h = rw (h.0, put_new) (put_all-same ys xs h.1)

  module _ (left : (x y z : A) → same x y ≡ true → same z y ≡ same z x) where
    put_over-Differ :
        (x z : A) (xs : List A)
        → same x z ≡ false
        → All (Differ z) xs
        → All (Differ z) (put_over x xs)
    unfolding put_over
    put_over-Differ x z [] n h = (n, tt)
    put_over-Differ x z (y ∷ ys) n h = ground (arith, put_over-Differ x z ys n h.1)

    put_over-IsKeyed : (x : A) (xs : List A) → IsKeyed xs → IsKeyed (put_over x xs)
    unfolding put_over
    put_over-IsKeyed x [] k = (tt, tt)
    put_over-IsKeyed x (y ∷ ys) k = elim (Bool-cases (same x y)) [
      | inl h ↦ rw (h, put_over) (All-map ys (λ z d. sym (left x y z h) ∙ d) k.0, k.1)
      | inr h ↦ rw (h, put_over) (put_over-Differ x y ys h k.0, put_over-IsKeyed x ys k.1)
    ]

    pub put_over_all-IsKeyed : (ys xs : List A) → IsKeyed xs → IsKeyed (put_over_all ys xs)
    unfolding put_over_all
    put_over_all-IsKeyed [] xs k = k
    put_over_all-IsKeyed (y ∷ ys) xs k =
        put_over_all-IsKeyed ys (put_over y xs) (put_over-IsKeyed y xs k)
