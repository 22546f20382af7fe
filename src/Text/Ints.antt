-- ===== src/Text/Ints.antt =====
-- `i64` as text: `to_string` and `str::parse` of the standard library, on code points.
use topic.Base.{
  ℕ, zero, suc, ◌+◌, ◌-◌, ◌*◌, ◌/◌, ◌%◌, ◌^◌, ◌<◌, ◌≡◌, refl, sym, ap, ◌∙◌, subst, true, false,
  Option, none, some, List, [], ◌∷◌, arith, ltb, ◌==◌, if◌then◌else◌, All, Bool-cases, inl, inr,
}
use topic.Text.{is_digit, digits_loop, decimal}

pub data ℤ : Type 0 where
  pos negsuc : ℕ → ℤ

abbrev pub IsI64 : ℤ → Type 0
IsI64 (ℤ.pos n) = n < 2 ^ 63
IsI64 (ℤ.negsuc n) = n < 2 ^ 63

unfoldable pub show : ℤ → List ℕ
unfolding decimal
show (ℤ.pos n) = decimal n
show (ℤ.negsuc n) = b'-' ∷ decimal (suc n)

unfoldable pub read_digits : ℕ → List ℕ → Option ℕ
read_digits n [] = some n
read_digits n (c ∷ s) = if is_digit c then read_digits (n * 10 + (c - b'0')) s else none

-- The digits of a number, of which there is one at least.
abbrev pub read : List ℕ → Option ℕ
read [] = none
read (c ∷ s) = read_digits 0 (c ∷ s)

abbrev pub as_pos : Option ℕ → Option ℤ
as_pos none = none
as_pos (some n) = if ltb n (2 ^ 63) then some (ℤ.pos n) else none

abbrev pub as_neg : Option ℕ → Option ℤ
as_neg none = none
as_neg (some zero) = some (ℤ.pos 0)
as_neg (some (suc n)) = if ltb n (2 ^ 63) then some (ℤ.negsuc n) else none

unfoldable pub parse_i64 : List ℕ → Option ℤ
unfolding read_digits
parse_i64 [] = none
parse_i64 (c ∷ s) =
    if c == b'-'
    then as_neg (read s)
    else if c == b'+'
    then as_pos (read s)
    else as_pos (read (c ∷ s))

pub digits_loop-All :
    (fuel n : ℕ) (out : List ℕ)
    → All (λ c. is_digit c ≡ true) out
    → All (λ c. is_digit c ≡ true) (digits_loop fuel n out)
unfolding digits_loop
digits_loop-All zero n out h = h
digits_loop-All (suc fuel) n out h = elim (Bool-cases (ltb n 10)) [
  | inl e ↦ rw (e, digits_loop) (ground arith, h)
  | inr e ↦
      rw (e, digits_loop) (digits_loop-All fuel (n / 10) ((b'0' + n % 10) ∷ out) (ground arith, h))
]

digits_loop-cons :
    (fuel n c : ℕ) (out : List ℕ) → (d : ℕ) × (s : List ℕ) × (digits_loop fuel n (c ∷ out) ≡ d ∷ s)
unfolding digits_loop
digits_loop-cons zero n c out = (c, out, refl)
digits_loop-cons (suc fuel) n c out = elim (Bool-cases (ltb n 10)) [
  | inl e ↦ (b'0' + n, c ∷ out, rw (e, digits_loop) refl)
  | inr e ↦
      let (d, s, k) = digits_loop-cons fuel (n / 10) (b'0' + n % 10) (c ∷ out) in
      (d, s, rw (e, digits_loop) k)
]

pub decimal-cons : (n : ℕ) → (d : ℕ) × (s : List ℕ) × (decimal n ≡ d ∷ s)
unfolding decimal digits_loop
decimal-cons n = elim (Bool-cases (ltb n 10)) [
  | inl e ↦ (b'0' + n, [], rw (e, digits_loop) refl)
  | inr e ↦
      let (d, s, k) = digits_loop-cons n (n / 10) (b'0' + n % 10) [] in
      (d, s, rw (e, digits_loop) k)
]

pub decimal-All : (n : ℕ) → All (λ c. is_digit c ≡ true) (decimal n)
unfolding decimal
decimal-All n = digits_loop-All (suc n) n [] tt

read-digits_loop :
    (fuel n : ℕ) (out : List ℕ)
    → n < fuel
    → read_digits 0 (digits_loop fuel n out) ≡ read_digits n out
unfolding read_digits digits_loop
read-digits_loop zero n out h = absurd (omega arith)
read-digits_loop (suc fuel) n out h = elim (Bool-cases (ltb n 10)) [
  | inl e ↦
      let d : is_digit (b'0' + n) ≡ true = ground arith in
      rw (e, digits_loop, d)
        (ap (λ k. read_digits k out) {x = 0 * 10 + (b'0' + n - b'0')} {y = n} (omega arith))
  | inr e ↦
      let d : is_digit (b'0' + n % 10) ≡ true = ground arith in
      rw (e, digits_loop)
        (read-digits_loop fuel (n / 10) ((b'0' + n % 10) ∷ out) (ground arith)
          ∙ rw d (
              ap (λ k. read_digits k out) {x = n / 10 * 10 + (b'0' + n % 10 - b'0')} {y = n}
                (omega arith)))
]

read-decimal : (n : ℕ) → read (decimal n) ≡ some n
unfolding decimal read_digits
read-decimal n =
    let (d, s, k) = decimal-cons n in
    ap read k ∙ ap (read_digits 0) (sym k) ∙ read-digits_loop (suc n) n [] (omega arith)

parse_i64-digit :
    (d : ℕ) (s : List ℕ) → is_digit d ≡ true → parse_i64 (d ∷ s) ≡ as_pos (read (d ∷ s))
unfolding parse_i64
parse_i64-digit d s h =
    let minus : (d == b'-') ≡ false = ground arith in
    let plus : (d == b'+') ≡ false = ground arith in rw (minus, plus) refl

pub parse_i64-show : (z : ℤ) → IsI64 z → parse_i64 (show z) ≡ some z
parse_i64-show (ℤ.pos n) h =
    let (d, s, k) = decimal-cons n in
    let digit : is_digit d ≡ true = (subst (All (λ c. is_digit c ≡ true)) k (decimal-All n)).0 in
    let below : ltb n (2 ^ 63) ≡ true = ground arith in
    let range : as_pos (some n) ≡ some (ℤ.pos n) = rw below refl in
    let shown : show (ℤ.pos n) ≡ d ∷ s = unfold show in k in
    ap parse_i64 shown
    ∙ parse_i64-digit d s digit
    ∙ ap as_pos (ap read (sym k) ∙ read-decimal n)
    ∙ range
parse_i64-show (ℤ.negsuc n) h =
    let below : ltb n (2 ^ 63) ≡ true = ground arith in
    let range : as_neg (some (suc n)) ≡ some (ℤ.negsuc n) = rw below refl in
    let read_it : parse_i64 (show (ℤ.negsuc n)) ≡ as_neg (some (suc n)) =
      unfold parse_i64 show in ap as_neg (read-decimal (suc n)) in
    read_it ∙ range
