-- ===== src/Base/Chunks.antt =====
-- `slice.chunks(n)`, for `n ≥ 1`, by fuel: a list is in no more chunks than it has elements.
use topic.Base.{
  ℕ, zero, suc, ◌≤◌, ◌≡◌, refl, ap, ◌∙◌, List, [], ◌∷◌, ◌++◌, arith, length, take, drop,
  length-take, length-drop, All,
}

module _ {ℓ} {A : Type ℓ} where
  unfoldable pub chunks_loop : ℕ → ℕ → List A → List (List A)
  chunks_loop zero n xs = []
  chunks_loop (suc fuel) n [] = []
  chunks_loop (suc fuel) n (x ∷ xs) = take n (x ∷ xs) ∷ chunks_loop fuel n (drop n (x ∷ xs))

  unfoldable pub chunks : ℕ → List A → List (List A)
  unfolding chunks_loop
  chunks n xs = chunks_loop (length xs) n xs

  abbrev pub concat : List (List A) → List A
  concat [] = []
  concat (xs ∷ xss) = xs ++ concat xss

  take-append-drop : (n : ℕ) (xs : List A) → take n xs ++ drop n xs ≡ xs
  take-append-drop zero xs = refl
  take-append-drop (suc n) [] = refl
  take-append-drop (suc n) (x ∷ xs) = ap (◌∷◌ x) (take-append-drop n xs)

  concat-chunks_loop :
      (fuel n : ℕ) (xs : List A) → length xs ≤ fuel → 1 ≤ n → concat (chunks_loop fuel n xs) ≡ xs
  unfolding chunks_loop
  concat-chunks_loop zero n [] f h = refl
  concat-chunks_loop zero n (x ∷ xs) f h = absurd (omega arith)
  concat-chunks_loop (suc fuel) n [] f h = refl
  concat-chunks_loop (suc fuel) n (x ∷ xs) f h =
      ap (λ l. take n (x ∷ xs) ++ l)
        (concat-chunks_loop fuel n (drop n (x ∷ xs)) (omega (arith, length-drop n (x ∷ xs))) h)
      ∙ take-append-drop n (x ∷ xs)

  -- The chunks put together are the list.
  pub concat-chunks : (n : ℕ) (xs : List A) → 1 ≤ n → concat (chunks n xs) ≡ xs
  unfolding chunks
  concat-chunks n xs h = concat-chunks_loop (length xs) n xs (omega arith) h

  pub length-chunks : (n : ℕ) (xs : List A) → All {A = List A} (λ c. length c ≤ n) (chunks n xs)
  unfolding chunks chunks_loop
  length-chunks n xs = go (length xs) xs
    where
      go : (fuel : ℕ) (ys : List A) → All {A = List A} (λ c. length c ≤ n) (chunks_loop fuel n ys)
      go zero ys = tt
      go (suc fuel) [] = tt
      go (suc fuel) (y ∷ ys) = (omega (arith, length-take n (y ∷ ys)), go fuel (drop n (y ∷ ys)))
