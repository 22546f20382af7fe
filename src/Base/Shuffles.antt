-- ===== src/Base/Shuffles.antt =====
-- What a permutation of a list keeps.
use mathlib.Core.List.{Permᴰ, append_assoc}
use mathlib.Core.List.Permᴰ
use topic.Base.{subst, inl, inr, List, ◌++◌, All, Any}
use topic.Base.Pairs.{Pairs}
use topic.Base.Chunks.{concat}

module _ {A : Type 0} (P : A → Type 0) where
  pub All-Permᴰ : {xs ys : List A} → Permᴰ xs ys → All P xs → All P ys
  All-Permᴰ Permᴰ.nil h = h
  All-Permᴰ (Permᴰ.cons e p) h = (subst P e h.0, All-Permᴰ p h.1)
  All-Permᴰ (Permᴰ.swap e f) h = (subst P f h.1.0, (subst P e h.0, h.1.1))
  All-Permᴰ (Permᴰ.trans p q) h = All-Permᴰ q (All-Permᴰ p h)

  pub Any-Permᴰ : {xs ys : List A} → Permᴰ xs ys → Any P xs → Any P ys
  Any-Permᴰ Permᴰ.nil h = h
  Any-Permᴰ (Permᴰ.cons e p) (inl h) = inl (subst P e h)
  Any-Permᴰ (Permᴰ.cons e p) (inr h) = inr (Any-Permᴰ p h)
  Any-Permᴰ (Permᴰ.swap e f) (inl h) = inr (inl (subst P e h))
  Any-Permᴰ (Permᴰ.swap e f) (inr (inl h)) = inl (subst P f h)
  Any-Permᴰ (Permᴰ.swap e f) (inr (inr h)) = inr (inr h)
  Any-Permᴰ (Permᴰ.trans p q) h = Any-Permᴰ q (Any-Permᴰ p h)

module _ {A : Type 0} (R : A → A → Type 0) (symmetric : (x y : A) → R x y → R y x) where
  pub Pairs-Permᴰ : {xs ys : List A} → Permᴰ xs ys → Pairs R xs → Pairs R ys
  Pairs-Permᴰ Permᴰ.nil h = h
  Pairs-Permᴰ (Permᴰ.cons {b = b} {l₁ = l} e p) h =
      (All-Permᴰ (R b) p (subst (λ x. All (R x) l) e h.0), Pairs-Permᴰ p h.1)
  Pairs-Permᴰ (Permᴰ.swap {a = a} {b = b} {a' = a'} {b' = b'} {l = l} e f) ((ab, al), (bl, rest)) =
      (
        (subst (λ x. R x b') f (subst (R b) e (symmetric a b ab)), subst (λ x. All (R x) l) f bl),
        (subst (λ x. All (R x) l) e al, rest),
      )
  Pairs-Permᴰ (Permᴰ.trans p q) h = Pairs-Permᴰ q (Pairs-Permᴰ p h)

module _ {A : Type 0} where
  swapped : (xs ys zs : List A) → Permᴰ (xs ++ (ys ++ zs)) (ys ++ (xs ++ zs))
  swapped xs ys zs =
      subst (λ l. Permᴰ l (ys ++ (xs ++ zs))) (append_assoc xs ys zs)
        (subst (Permᴰ ((xs ++ ys) ++ zs)) (append_assoc ys xs zs)
          (Permᴰ.append_right zs (Permᴰ.append_comm xs ys)))

  pub concat-Permᴰ : {xs ys : List (List A)} → Permᴰ xs ys → Permᴰ (concat xs) (concat ys)
  concat-Permᴰ Permᴰ.nil = Permᴰ.nil
  concat-Permᴰ (Permᴰ.cons {a = a} {l₁ = l} {l₂ = m} e p) =
      subst (λ x. Permᴰ (a ++ concat l) (x ++ concat m)) e (Permᴰ.append_left a (concat-Permᴰ p))
  concat-Permᴰ (Permᴰ.swap {a = a} {b = b} {b' = b'} {l = l} e f) =
      subst (λ x. Permᴰ (a ++ (b ++ concat l)) (x ++ (b' ++ concat l))) f
        (subst (λ x. Permᴰ (a ++ (b ++ concat l)) (b ++ (x ++ concat l))) e
          (swapped a b (concat l)))
  concat-Permᴰ (Permᴰ.trans p q) = Permᴰ.trans (concat-Permᴰ p) (concat-Permᴰ q)
