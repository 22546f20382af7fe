-- ===== src/Base/Results.antt =====
-- Fallible code: `Result` with the error that every port surfaces, and `do` blocks for it.
-- crates/shared/src/error.rs. The texts that the constructors carry are kept where the code looks at
-- them or builds them from its input, and are otherwise the fixed text of the source.
use Prim.Native.String.{String}
use mathlib.Core.Path.{◌≡◌, refl}
use mathlib.Core.Bool.{Bool, true, false}
use mathlib.Core.Logic.{◌⊎◌, inl, inr}

pub data DomainError : Type 0 where
  source storage decode schema config not_found invalid : String → DomainError

pub data Result {ℓ} (E A : Type ℓ) : Type ℓ where
  err : E → Result E A
  ok : A → Result E A

abbrev pub guard : {E : Type 0} → Bool → E → Result E (Unit {0})
guard false why = err why
guard true why = ok tt

abbrev pub map_err {ℓ} : {E F A : Type ℓ} → (E → F) → Result E A → Result F A
map_err f (ok a) = ok a
map_err f (err e) = err (f e)

infixl 5 ◌>>=◌ ◌>>◌
abbrev pub ◌>>=◌ {ℓ} : {E A B : Type ℓ} → Result E A → (A → Result E B) → Result E B
err why >>= next = err why
ok value >>= next = next value

abbrev pub ◌>>◌ {ℓ} : {E B : Type ℓ} → Result E Unit → Result E B → Result E B
first >> then_do = first >>= λ _. then_do

pub >>=-eq-ok {ℓ} :
    {E A B : Type ℓ} {z : B} (r : Result E A) (next : A → Result E B)
    → (r >>= next) ≡ ok z
    → (a : A) × (r ≡ ok a) × (next a ≡ ok z)
>>=-eq-ok (err why) next h = cc
>>=-eq-ok (ok value) next h = (value, refl, h)

pub Result-cases {ℓ} :
    {E A : Type ℓ} (r : Result E A) → ((a : A) × (r ≡ ok a)) ⊎ ((e : E) × (r ≡ err e))
Result-cases (ok a) = inl (a, refl)
Result-cases (err e) = inr (e, refl)

pub ok-injective {ℓ} : {E A : Type ℓ} {a b : A} → ◌≡◌ {A = Result E A} (ok a) (ok b) → a ≡ b
ok-injective h = cc

pub ok-err {ℓ} : {E A : Type ℓ} {a : A} {e : E} → ◌≡◌ {A = Result E A} (ok a) (err e) → ⊥
ok-err h = cc

pub guard-eq-ok :
    {E B : Type 0} (b : Bool) (e : E) (m : Result E B) {x : B}
    → (guard b e >> m) ≡ ok x
    → (b ≡ true) × (m ≡ ok x)
guard-eq-ok true e m h = (refl, h)
guard-eq-ok false e m h = cc
