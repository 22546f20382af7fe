-- ===== src/Base/Pairs.antt =====
-- A relation between each element of a list and each later one.
use topic.Base.{List, [], ◌∷◌, ◌++◌, All, All-append, All-map}

module _ {ℓ} {A : Type ℓ} where
  abbrev pub Pairs : (A → A → Type 0) → List A → Type 0
  Pairs R [] = Unit {0}
  Pairs R (x ∷ xs) = All (R x) xs × Pairs R xs

  pub Pairs-snoc :
      (R : A → A → Type 0) (xs : List A) (y : A)
      → Pairs R xs
      → All (λ x. R x y) xs
      → Pairs R (xs ++ y ∷ [])
  Pairs-snoc R [] y p h = (tt, tt)
  Pairs-snoc R (x ∷ xs) y p h =
      (All-append (R x) xs (y ∷ []) p.0 (h.0, tt), Pairs-snoc R xs y p.1 h.1)

  pub Pairs-map :
      {R S : A → A → Type 0} → ((x y : A) → R x y → S x y) → (xs : List A) → Pairs R xs → Pairs S xs
  Pairs-map f [] h = tt
  Pairs-map f (x ∷ xs) h = (All-map xs (λ y r. f x y r) h.0, Pairs-map f xs h.1)

  -- An element is replaced by one that stands in the relation to the same ones.
  pub Pairs-replace :
      (R : A → A → Type 0) (pre post : List A) (x y : A)
      → All (λ a. R a x → R a y) pre
      → All (λ a. R x a → R y a) post
      → Pairs R (pre ++ x ∷ post)
      → Pairs R (pre ++ y ∷ post)
  Pairs-replace R [] post x y hp hq p = (All-app post hq p.0, p.1)
    where
      All-app : (zs : List A) → All (λ a. R x a → R y a) zs → All (R x) zs → All (R y) zs
      All-app [] h k = tt
      All-app (z ∷ zs) h k = (h.0 k.0, All-app zs h.1 k.1)
  Pairs-replace R (a ∷ pre) post x y hp hq p =
      (swap_in pre p.0, Pairs-replace R pre post x y hp.1 hq p.1)
    where
      swap_in : (zs : List A) → All (R a) (zs ++ x ∷ post) → All (R a) (zs ++ y ∷ post)
      swap_in [] h = (hp.0 h.0, h.1)
      swap_in (z ∷ zs) h = (h.0, swap_in zs h.1)

  pub All-middle : (P : A → Type 0) (pre post : List A) (x : A) → All P (pre ++ x ∷ post) → P x
  All-middle P [] post x h = h.0
  All-middle P (a ∷ pre) post x h = All-middle P pre post x h.1

  pub All-left : (P : A → Type 0) (pre post : List A) → All P (pre ++ post) → All P pre
  All-left P [] post h = tt
  All-left P (a ∷ pre) post h = (h.0, All-left P pre post h.1)

  pub All-right : (P : A → Type 0) (pre post : List A) → All P (pre ++ post) → All P post
  All-right P [] post h = h
  All-right P (a ∷ pre) post h = All-right P pre post h.1
