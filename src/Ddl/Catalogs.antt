-- ===== src/Ddl/Catalogs.antt =====
-- crates/migrator/src: what stays in a catalog as tables and columns are added.
use topic.Base.{
  ◌≡◌, refl, sym, ap, ◌∙◌, inl, inr, Bool, true, false, List, [], ◌∷◌, ◌++◌, arith, String, eq_iff,
  Bool-cases,
}
use topic.Ddl.{
  Column, Table, named, has_column, has_columns, table_has, table_exists, with_column, add, is_in,
}

pub true≢false : ◌≡◌ {A = Bool} true false → ⊥
true≢false h = cc

pub is_in-append :
    (name : String) (xs ys : List String) → is_in name xs ≡ true → is_in name (xs ++ ys) ≡ true
is_in-append name [] ys h = cc
is_in-append name (x ∷ xs) ys h = ground (arith, is_in-append name xs ys)

pub is_in-last : (name : String) (xs : List String) → is_in name (xs ++ name ∷ []) ≡ true
is_in-last name [] = ground (arith, (eq_iff name name).1 refl)
is_in-last name (x ∷ xs) = ground (arith, is_in-last name xs)

pub table_has-append :
    (t : String) (cs : List String) (xs ys : List Table)
    → table_has t cs xs ≡ true
    → table_has t cs (xs ++ ys) ≡ true
unfolding table_has
table_has-append t cs [] ys h = cc
table_has-append t cs (x ∷ xs) ys h = ground (arith, table_has-append t cs xs ys)

pub table_has-last :
    (t : String) (xs : List Table) (x : Table) → x.name ≡ t → table_has t [] (xs ++ x ∷ []) ≡ true
unfolding table_has
table_has-last t [] x e = ground (arith, (eq_iff x.name t).1 e)
table_has-last t (y ∷ xs) x e = ground (arith, table_has-last t xs x e)

has_column-append :
    (c : String) (xs ys : List Column) → has_column c xs ≡ true → has_column c (xs ++ ys) ≡ true
has_column-append c [] ys h = cc
has_column-append c ((d, ty) ∷ xs) ys h = ground (arith, has_column-append c xs ys)

has_columns-append :
    (cs : List String) (xs ys : List Column)
    → has_columns cs xs ≡ true
    → has_columns cs (xs ++ ys) ≡ true
has_columns-append [] xs ys h = refl
has_columns-append (c ∷ cs) xs ys h =
    ground (arith, has_column-append c xs ys, has_columns-append cs xs ys)

has_column-last : (c : Column) (xs : List Column) → has_column c.0 (xs ++ c ∷ []) ≡ true
has_column-last c [] = ground (arith, (eq_iff c.0 c.0).1 refl)
has_column-last c ((d, ty) ∷ xs) = ground (arith, has_column-last c xs)

with_column-has : (c : Column) (table : Table) → has_column c.0 (with_column c table).columns ≡ true
with_column-has c table = has_column-last c table.columns

with_column-grows :
    (c : Column) (cs : List String) (table : Table)
    → has_columns cs table.columns ≡ true
    → has_columns cs (with_column c table).columns ≡ true
with_column-grows c cs table h = has_columns-append cs table.columns (c ∷ []) h

table_has-here :
    (t : String) (cs : List String) (x : Table) (xs : List Table)
    → named t x ≡ true
    → table_has t cs (x ∷ xs) ≡ has_columns cs x.columns
unfolding table_has
table_has-here t cs x xs k = simp (k) refl

table_has-there :
    (t : String) (cs : List String) (x : Table) (xs : List Table)
    → named t x ≡ false
    → table_has t cs (x ∷ xs) ≡ table_has t cs xs
unfolding table_has
table_has-there t cs x xs k = simp (k) refl

add-here :
    (t : String) (c : Column) (x : Table) (xs : List Table)
    → named t x ≡ true
    → add t c (x ∷ xs) ≡ with_column c x ∷ xs
unfolding add
add-here t c x xs k = simp (k) refl

add-there :
    (t : String) (c : Column) (x : Table) (xs : List Table)
    → named t x ≡ false
    → add t c (x ∷ xs) ≡ x ∷ add t c xs
unfolding add
add-there t c x xs k = simp (k) refl

named-with_column : (u : String) (c : Column) (x : Table) → named u (with_column c x) ≡ named u x
named-with_column u c x = refl

has_one :
    (c : String) (cols : List Column) → has_column c cols ≡ true → has_columns (c ∷ []) cols ≡ true
has_one c cols h = ground (arith, h)

pub add-has :
    (t : String) (c : Column) (xs : List Table)
    → table_has t [] xs ≡ true
    → table_has t (c.0 ∷ []) (add t c xs) ≡ true
add-has t c [] h = absurd (true≢false (unfold table_has in sym h))
add-has t c (x ∷ xs) h = elim (Bool-cases (named t x)) [
  | inl k ↦
      ap (table_has t (c.0 ∷ [])) (add-here t c x xs k)
      ∙ table_has-here t (c.0 ∷ []) (with_column c x) xs (named-with_column t c x ∙ k)
      ∙ has_one c.0 (with_column c x).columns (with_column-has c x)
  | inr k ↦
      ap (table_has t (c.0 ∷ [])) (add-there t c x xs k)
      ∙ table_has-there t (c.0 ∷ []) x (add t c xs) k
      ∙ add-has t c xs (sym (table_has-there t [] x xs k) ∙ h)
]

with_column-table_has :
    (u : String) (c : Column) (cs : List String) (x : Table) (xs : List Table)
    → table_has u cs (x ∷ xs) ≡ true
    → table_has u cs (with_column c x ∷ xs) ≡ true
with_column-table_has u c cs x xs h = elim (Bool-cases (named u x)) [
  | inl k ↦
      table_has-here u cs (with_column c x) xs (named-with_column u c x ∙ k)
      ∙ with_column-grows c cs x (sym (table_has-here u cs x xs k) ∙ h)
  | inr k ↦
      table_has-there u cs (with_column c x) xs (named-with_column u c x ∙ k)
      ∙ sym (table_has-there u cs x xs k)
      ∙ h
]

pub add-grows :
    (t u : String) (c : Column) (cs : List String) (xs : List Table)
    → table_has u cs xs ≡ true
    → table_has u cs (add t c xs) ≡ true
add-grows t u c cs [] h = absurd (true≢false (unfold table_has in sym h))
add-grows t u c cs (x ∷ xs) h = elim (Bool-cases (named t x)) [
  | inl k ↦ ap (table_has u cs) (add-here t c x xs k) ∙ with_column-table_has u c cs x xs h
  | inr k ↦ ap (table_has u cs) (add-there t c x xs k) ∙ (elim (Bool-cases (named u x)) [
    | inl l ↦ table_has-here u cs x (add t c xs) l ∙ sym (table_has-here u cs x xs l) ∙ h
    | inr l ↦
        table_has-there u cs x (add t c xs) l
        ∙ add-grows t u c cs xs (sym (table_has-there u cs x xs l) ∙ h)
  ])
]

pub table_has-exists :
    (t : String) (cs : List String) (xs : List Table)
    → table_has t cs xs ≡ true
    → table_exists t xs ≡ true
unfolding table_exists
table_has-exists t cs [] h = absurd (true≢false (unfold table_has in sym h))
table_has-exists t cs (x ∷ xs) h = elim (Bool-cases (named t x)) [
  | inl k ↦ table_has-here t [] x xs k
  | inr k ↦
      table_has-there t [] x xs k ∙ table_has-exists t cs xs (sym (table_has-there t cs x xs k) ∙ h)
]
