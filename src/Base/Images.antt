-- ===== src/Base/Images.antt =====
-- Predicates on the images of lists, and relations between two lists.
use mathlib.Core.List.{append_assoc}
use topic.Base.{List, [], ◌∷◌, ◌++◌, map, subst, inl, inr, All, Any, All-map, Any-append_right}
use topic.Base.Pairs.{Pairs}

-- An element that relates to itself is related to one of the list.
pub All-own :
    {A : Type 0} (R : A → A → Type 0) (xs : List A)
    → All (λ x. R x x) xs
    → All (λ x. Any (R x) xs) xs
All-own {A} R xs h = go [] xs h
  where
    go : (pre post : List A) → All (λ x. R x x) post → All (λ x. Any (R x) (pre ++ post)) post
    go pre [] k = tt
    go pre (x ∷ post) k = (
      Any-append_right (R x) pre (x ∷ post) (inl k.0),
      subst (λ l. All (λ y. Any (R y) l) post) (append_assoc pre (x ∷ []) post)
          (go (pre ++ x ∷ []) post k.1),
    )

pub Any-image :
    {A B : Type 0} (f : A → B) (P : B → Type 0) (xs : List A)
    → Any (λ x. P (f x)) xs
    → Any P (map f xs)
Any-image f P [] h = h
Any-image f P (x ∷ xs) (inl p) = inl p
Any-image f P (x ∷ xs) (inr h) = inr (Any-image f P xs h)

pub Any-preimage :
    {A B : Type 0} (f : A → B) (P : B → Type 0) (xs : List A)
    → Any P (map f xs)
    → Any (λ x. P (f x)) xs
Any-preimage f P [] h = h
Any-preimage f P (x ∷ xs) (inl p) = inl p
Any-preimage f P (x ∷ xs) (inr h) = inr (Any-preimage f P xs h)

pub All-image :
    {A B : Type 0} (f : A → B) (P : B → Type 0) (xs : List A)
    → All (λ x. P (f x)) xs
    → All P (map f xs)
All-image f P [] h = tt
All-image f P (x ∷ xs) h = (h.0, All-image f P xs h.1)

pub Pairs-image :
    {A B : Type 0} (f : A → B) (R : B → B → Type 0) (xs : List A)
    → Pairs (λ x y. R (f x) (f y)) xs
    → Pairs R (map f xs)
Pairs-image f R [] h = tt
Pairs-image f R (x ∷ xs) h = (All-image f (R (f x)) xs h.0, Pairs-image f R xs h.1)

pub All-swap :
    {A B : Type 0} (R : A → B → Type 0) (xs : List A) (ys : List B)
    → All (λ x. All (R x) ys) xs
    → All (λ y. All (λ x. R x y) xs) ys
All-swap R xs [] h = tt
All-swap R xs (y ∷ ys) h = (All-map xs (λ x k. k.0) h, All-swap R xs ys (All-map xs (λ x k. k.1) h))
