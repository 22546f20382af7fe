-- ===== src/Store/Over.antt =====
-- `ON CONFLICT DO UPDATE` with the rows that are there already.
use topic.Base.{
  ◌≡◌, refl, sym, ◌∙◌, ap, subst, ◌⊎◌, inl, inr, true, false, List, [], ◌∷◌, ◌++◌, arith, All,
  All-map, Bool-cases,
}
use topic.Base.Chunks.{concat}
use topic.Base.Results.{DomainError, ok, err, ok-err}
use topic.Model.{BlockMeta}
use topic.Store.{same_block, upsert_parts, repeats}
use topic.Store.Rows.{put_over, put_over_all, has-false}

-- The row of `x`'s key is `x`.
abbrev pub Holds : BlockMeta → List BlockMeta → Type 0
Holds x [] = ⊥
Holds x (y ∷ ys) = ((same_block x y ≡ true) × (x ≡ y)) ⊎ ((same_block x y ≡ false) × Holds x ys)

put_over-Holds : (x : BlockMeta) (ys : List BlockMeta) → Holds x (put_over same_block x ys)
unfolding put_over same_block
put_over-Holds x [] = inl (ground arith, refl)
put_over-Holds x (y ∷ ys) = elim (Bool-cases (same_block x y)) [
  | inl h ↦ rw (h, put_over) (inl (ground arith, refl))
  | inr h ↦ rw (h, put_over) (inr (h, put_over-Holds x ys))
]

Holds-put_over : (x : BlockMeta) (ys : List BlockMeta) → Holds x ys → put_over same_block x ys ≡ ys
unfolding put_over
Holds-put_over x [] h = elim h [ ]
Holds-put_over x (y ∷ ys) (inl (k, e)) = rw (k, put_over) (ap (λ z. z ∷ ys) e)
Holds-put_over x (y ∷ ys) (inr (k, h)) = rw (k, put_over) (ap (◌∷◌ y) (Holds-put_over x ys h))

-- It stays so when a row of another key is written.
Holds-put_over_other :
    (x z : BlockMeta) (ys : List BlockMeta)
    → same_block x z ≡ false
    → Holds z ys
    → Holds z (put_over same_block x ys)
unfolding put_over
Holds-put_over_other x z [] n h = elim h [ ]
Holds-put_over_other x z (y ∷ ys) n (inl (k, e)) =
    let other : same_block x y ≡ false = subst (λ w. same_block x w ≡ false) e n in
    rw (other, put_over) (inl (k, e))
Holds-put_over_other x z (y ∷ ys) n (inr (k, h)) = elim (Bool-cases (same_block x y)) [
  | inl hit ↦ rw (hit, put_over) (inr (unfold same_block in ground arith, h))
  | inr miss ↦ rw (miss, put_over) (inr (k, Holds-put_over_other x z ys n h))
]

Holds-put_over_all :
    (z : BlockMeta) (xs ys : List BlockMeta)
    → All (λ x. same_block x z ≡ false) xs
    → Holds z ys
    → Holds z (put_over_all same_block xs ys)
unfolding put_over_all
Holds-put_over_all z [] ys n h = h
Holds-put_over_all z (x ∷ xs) ys n h =
    Holds-put_over_all z xs (put_over same_block x ys) n.1 (Holds-put_over_other x z ys n.0 h)

same_block-flip : (a b : BlockMeta) → same_block a b ≡ false → same_block b a ≡ false
unfolding same_block
same_block-flip a b h = ground arith

put_over_all-Holds :
    (xs ys : List BlockMeta)
    → repeats xs ≡ false
    → All (λ x. Holds x (put_over_all same_block xs ys)) xs
unfolding put_over_all repeats
put_over_all-Holds [] ys r = tt
put_over_all-Holds (x ∷ xs) ys r =
    let others =
      All-map xs (λ y. same_block-flip x y) (has-false (same_block x) xs (ground arith)) in
    (
      Holds-put_over_all x xs (put_over same_block x ys) others (put_over-Holds x ys),
      put_over_all-Holds xs (put_over same_block x ys) (ground arith),
    )

put_over_all-same :
    (xs ys : List BlockMeta) → All (λ x. Holds x ys) xs → put_over_all same_block xs ys ≡ ys
unfolding put_over_all
put_over_all-same [] ys h = refl
put_over_all-same (x ∷ xs) ys h =
    ap (put_over_all same_block xs) (Holds-put_over x ys h.0) ∙ put_over_all-same xs ys h.1

-- Rows of different keys that were written are there, and writing them again changes nothing.
pub put_over_all-twice :
    (xs ys : List BlockMeta)
    → repeats xs ≡ false
    → put_over_all same_block xs (put_over_all same_block xs ys) ≡ put_over_all same_block xs ys
put_over_all-twice xs ys r = put_over_all-same xs _ (put_over_all-Holds xs ys r)

put_over_all-append :
    (xs zs ys : List BlockMeta)
    → put_over_all same_block (xs ++ zs) ys
      ≡ put_over_all same_block zs (put_over_all same_block xs ys)
unfolding put_over_all
put_over_all-append [] zs ys = refl
put_over_all-append (x ∷ xs) zs ys = put_over_all-append xs zs (put_over same_block x ys)

-- Whether the statements are refused does not depend on the table.
pub upsert_parts-ok :
    (parts : List (List BlockMeta)) (ys ys' zs : List BlockMeta)
    → upsert_parts parts ys ≡ ok ys'
    → upsert_parts parts zs ≡ ok (put_over_all same_block (concat parts) zs)
unfolding upsert_parts put_over_all
upsert_parts-ok [] ys ys' zs e = refl
upsert_parts-ok (part ∷ parts) ys ys' zs e = elim (Bool-cases (repeats part)) [
  | inl twice ↦
      let refused : upsert_parts (part ∷ parts) ys
          ≡ err (DomainError.storage "row updated a second time") =
        rw (twice, upsert_parts) refl in
      absurd (ok-err (sym e ∙ refused))
  | inr once ↦
      let went : upsert_parts (part ∷ parts) ys
          ≡ upsert_parts parts (put_over_all same_block part ys) =
        rw (once, upsert_parts) refl in
      rw (once, upsert_parts)
        (upsert_parts-ok parts (put_over_all same_block part ys) ys'
            (put_over_all same_block part zs) (sym went ∙ e)
          ∙ ap ok (sym (put_over_all-append part (concat parts) zs)))
]
