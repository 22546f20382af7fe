-- ===== src/Query/Order.antt =====
-- The order of the rows of a query, and what the keyset condition selects of them.
use topic.Base.{
  ℕ, zero, suc, ◌≡◌, refl, sym, ap, ◌∙◌, subst, inl, inr, Bool, true, false, ◌&&◌, some, List, [],
  ◌∷◌, arith, ◌==◌, if◌then◌else◌, take, drop, All, All-map, Bool-cases,
}
use topic.Base.Pairs.{Pairs}
use topic.Base.Sort.{insert_by, sort_by}
use topic.Store.Rows.{keep, keep-All}
use topic.Query.{Key, Entry, key_less, before, is_past, last_key}

pub before_trans :
    (d : Bool) (a b c : Key) → before d a b ≡ true → before d b c ≡ true → before d a c ≡ true
unfolding before key_less
before_trans d a b c h k = ground arith

before_irrefl : (d : Bool) (a : Key) → before d a a ≡ false
unfolding before key_less
before_irrefl d a = ground arith

before-asym : (d : Bool) (a b : Key) → before d a b ≡ true → before d b a ≡ false
unfolding before key_less
before-asym d a b h = ground arith

abbrev pub same_key : Entry → Entry → Bool
same_key a b = a.key.0 == b.key.0 && a.key.1 == b.key.1

before-total :
    (d : Bool) (a b : Entry)
    → same_key a b ≡ false
    → before d a.key b.key ≡ false
    → before d b.key a.key ≡ true
unfolding before key_less
before-total d a b n h = ground arith

module _ (d : Bool) where
  abbrev less : Entry → Entry → Bool
  less a b = before d a.key b.key

  -- In the order of the query, without two of the same key.
  abbrev pub IsStrict : List Entry → Type 0
  IsStrict es = Pairs (λ a b. before d a.key b.key ≡ true) es

  insert_by-All :
      (P : Entry → Type 0) (x : Entry) (es : List Entry)
      → P x
      → All P es
      → All P (insert_by less x es)
  unfolding insert_by
  insert_by-All P x [] p h = (p, tt)
  insert_by-All P x (e ∷ es) p h = ground (arith, insert_by-All P x es p h.1)

  insert_by-IsStrict :
      (x : Entry) (es : List Entry)
      → All (λ e. same_key e x ≡ false) es
      → IsStrict es
      → IsStrict (insert_by less x es)
  unfolding insert_by
  insert_by-IsStrict x [] n s = (tt, tt)
  insert_by-IsStrict x (e ∷ es) n s = elim (Bool-cases (less e x)) [
    | inl l ↦
        rw (l, insert_by)
          (
            insert_by-All (λ y. before d e.key y.key ≡ true) x es l s.0,
            insert_by-IsStrict x es n.1 s.1,
          )
    | inr g ↦
        let first = before-total d e x n.0 g in
        rw (g, insert_by)
          ((first, All-map es (λ y h. before_trans d x.key e.key y.key first h) s.0), s)
  ]

  sort_by-All : (P : Entry → Type 0) (es : List Entry) → All P es → All P (sort_by less es)
  unfolding sort_by
  sort_by-All P [] h = tt
  sort_by-All P (e ∷ es) h = insert_by-All P e (sort_by less es) h.0 (sort_by-All P es h.1)

  pub sort_by-IsStrict :
      (es : List Entry) → Pairs (λ a b. same_key b a ≡ false) es → IsStrict (sort_by less es)
  unfolding sort_by
  sort_by-IsStrict [] p = tt
  sort_by-IsStrict (e ∷ es) p =
      insert_by-IsStrict e (sort_by less es) (sort_by-All (λ y. same_key y e ≡ false) es p.0)
        (sort_by-IsStrict es p.1)

  insert_by_front :
      (x : Entry) (es : List Entry) → All (λ e. less e x ≡ false) es → insert_by less x es ≡ x ∷ es
  unfolding insert_by
  insert_by_front x [] h = refl
  insert_by_front x (e ∷ es) h = rw (h.0, insert_by) refl

  keep-insert_by :
      (p : Entry → Bool) (x : Entry) (es : List Entry)
      → All (λ e. same_key e x ≡ false) es
      → IsStrict es
      → keep p (insert_by less x es) ≡ (if p x then insert_by less x (keep p es) else keep p es)
  unfolding keep insert_by
  keep-insert_by p x [] n s = refl
  keep-insert_by p x (e ∷ es) n s = elim (Bool-cases (less e x)) [
    | inl l ↦
        let step : insert_by less x (e ∷ es) ≡ e ∷ insert_by less x es = rw (l, insert_by) refl in
        let ih = keep-insert_by p x es n.1 s.1 in
        ap (keep p) step ∙ elim (Bool-cases (p e)) [
          | inl k ↦
              let here : insert_by less x (e ∷ keep p es) ≡ e ∷ insert_by less x (keep p es) =
                rw (l, insert_by) refl in
              rw (k, ih) (elim (Bool-cases (p x)) [ inl q ↦ rw (q, here) refl | inr q ↦ rw q refl ])
          | inr k ↦ rw (k, ih) refl
        ]
    | inr g ↦
        let step : insert_by less x (e ∷ es) ≡ x ∷ e ∷ es = rw (g, insert_by) refl in
        let first = before-total d e x n.0 g in
        let back : All (λ y. less y x ≡ false) (e ∷ es) = (
          g,
          All-map es (λ y h. before-asym d x.key y.key (before_trans d x.key e.key y.key first h))
              s.0,
        ) in
        let front = insert_by_front x (keep p (e ∷ es)) (
          keep-All {R = λ y. less y x ≡ false} {P = λ y. less y x ≡ false} p (e ∷ es) (λ y _ h. h)
            back) in
        ap (keep p) step ∙ ap (λ l. if p x then l else keep p (e ∷ es)) (sym front)
  ]

  pub keep-sort_by :
      (p : Entry → Bool) (es : List Entry)
      → Pairs (λ a b. same_key b a ≡ false) es
      → keep p (sort_by less es) ≡ sort_by less (keep p es)
  unfolding sort_by keep
  keep-sort_by p [] k = refl
  keep-sort_by p (e ∷ es) k =
      keep-insert_by p e (sort_by less es) (sort_by-All (λ y. same_key y e ≡ false) es k.0)
        (sort_by-IsStrict es k.1)
      ∙ ap (λ l. if p e then insert_by less e l else l) (keep-sort_by p es k.1)
      ∙ elim (Bool-cases (p e)) [ inl q ↦ rw q refl | inr q ↦ rw q refl ]

  keep_all : (p : Entry → Bool) (es : List Entry) → All (λ e. p e ≡ true) es → keep p es ≡ es
  unfolding keep
  keep_all p [] h = refl
  keep_all p (e ∷ es) h = rw h.0 (ap (◌∷◌ e) (keep_all p es h.1))

  pub last_key-before :
      (a : Key) (k : ℕ) (e : Entry) (es : List Entry) (c : Key)
      → All (λ y. before d a y.key ≡ true) (e ∷ es)
      → last_key (take (suc k) (e ∷ es)) ≡ some c
      → before d a c ≡ true
  unfolding last_key
  last_key-before a zero e es c h q = ground (arith, h.0)
  last_key-before a (suc k) e [] c h q = ground (arith, h.0)
  last_key-before a (suc k) e (f ∷ es) c h q = last_key-before a k f es c h.1 q

  keep_first :
      (e : Entry) (es : List Entry) (c : Key)
      → some e.key ≡ some c
      → IsStrict (e ∷ es)
      → keep (is_past d (some c)) (e ∷ es) ≡ es
  unfolding keep is_past
  keep_first e es c q s =
      let same : e.key ≡ c = cc in
      let here = subst (λ k. before d k e.key ≡ false) same (before_irrefl d e.key) in
      rw here (
        keep_all (λ y. before d c y.key) es
          (subst (λ k. All (λ y. before d k y.key ≡ true) es) same s.0))

  keep_later :
      (e : Entry) (es : List Entry) (c : Key)
      → before d e.key c ≡ true
      → keep (is_past d (some c)) (e ∷ es) ≡ keep (is_past d (some c)) es
  unfolding keep is_past
  keep_later e es c b = rw (before-asym d e.key c b) refl

  -- The rows past the last one of a page are those that follow it.
  pub keep-is_past :
      (k : ℕ) (es : List Entry) (c : Key)
      → IsStrict es
      → last_key (take k es) ≡ some c
      → keep (is_past d (some c)) es ≡ drop k es
  unfolding last_key
  keep-is_past zero es c s q = cc
  keep-is_past (suc k) [] c s q = cc
  keep-is_past (suc zero) (e ∷ es) c s q = keep_first e es c q s
  keep-is_past (suc (suc k)) (e ∷ []) c s q = keep_first e [] c q s
  keep-is_past (suc (suc k)) (e ∷ f ∷ es) c s q =
      keep_later e (f ∷ es) c (last_key-before e.key k f es c s.0 q)
      ∙ keep-is_past (suc k) (f ∷ es) c s.1 q
