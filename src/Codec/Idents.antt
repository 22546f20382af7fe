-- ===== src/Codec/Idents.antt =====
-- crates/shared/src/util.rs: names of tables and columns, as lists of code points.
use topic.Base.{
  ℕ, ◌≡◌, refl, Bool, true, false, not, ◌&&◌, ◌||◌, List, [], ◌∷◌, arith, leb, ◌==◌, if◌then◌else◌,
  length, All, All-append, subst, sym, reverse,
}
use mathlib.Core.List.{reverse-cons}
use topic.Text.{is_lower, is_upper, is_digit, lower_code}

-- Each byte of a name that the code accepts is a character of its own.
abbrev pub is_ident_char : ℕ → Bool
is_ident_char b = is_lower b || is_digit b || b == b'_'

abbrev pub all_ident : List ℕ → Bool
all_ident [] = true
all_ident (b ∷ s) = is_ident_char b && all_ident s

abbrev pub leading_digit : List ℕ → Bool
leading_digit [] = false
leading_digit (b ∷ s) = is_digit b

abbrev pub is_empty : List ℕ → Bool
is_empty [] = true
is_empty (b ∷ s) = false

unfoldable pub is_valid_ident : List ℕ → Bool
is_valid_ident name =
    not (is_empty name) && leb (length name) 63 && all_ident name && not (leading_digit name)

-- `out.ends_with('_')`, for `out` with its last character first; that a text begins with `_`, otherwise.
abbrev pub first_is_score : List ℕ → Bool
first_is_score [] = false
first_is_score (c ∷ out) = c == b'_'

-- `prev_boundary`, where `prev` holds the characters before `c`, the last one first, and `rest` those after.
unfoldable pub prev_boundary : List ℕ → List ℕ → Bool
prev_boundary [] rest = false
prev_boundary (p ∷ prev) [] = is_lower p || is_digit p
prev_boundary (p ∷ prev) (n ∷ rest) = is_lower p || is_digit p || is_upper p && is_lower n

-- What the body of the loop makes of `out`, which has its last character first.
unfoldable pub push_char : List ℕ → List ℕ → ℕ → List ℕ → List ℕ
unfolding prev_boundary
push_char out prev c rest =
    if is_upper c
    then lower_code c
      ∷ (if prev_boundary prev rest && not (first_is_score out) then b'_' ∷ out else out)
    else if is_lower c || is_digit c
    then c ∷ out
    else if first_is_score out
    then out
    else b'_' ∷ out

unfoldable pub snake_loop : List ℕ → List ℕ → List ℕ → List ℕ
unfolding push_char
snake_loop out prev [] = out
snake_loop out prev (c ∷ rest) = snake_loop (push_char out prev c rest) (c ∷ prev) rest

unfoldable pub trim_start : List ℕ → List ℕ
trim_start [] = []
trim_start (c ∷ s) = if c == b'_' then trim_start s else c ∷ s

-- `trim_matches('_')` of the text whose reverse is given.
unfoldable pub to_snake_case : List ℕ → List ℕ
unfolding snake_loop trim_start
to_snake_case name = trim_start (reverse (trim_start (snake_loop [] [] name)))

abbrev pub IsIdentChar : ℕ → Type 0
IsIdentChar c = is_ident_char c ≡ true

push_char-All :
    (out prev rest : List ℕ) (c : ℕ)
    → All IsIdentChar out
    → All IsIdentChar (push_char out prev c rest)
unfolding push_char
push_char-All out prev rest c h = ground arith

snake_loop-All :
    (out prev name : List ℕ) → All IsIdentChar out → All IsIdentChar (snake_loop out prev name)
unfolding snake_loop
snake_loop-All out prev [] h = h
snake_loop-All out prev (c ∷ rest) h =
    snake_loop-All (push_char out prev c rest) (c ∷ prev) rest (push_char-All out prev rest c h)

trim_start-All : (P : ℕ → Type 0) (s : List ℕ) → All P s → All P (trim_start s)
unfolding trim_start
trim_start-All P [] h = tt
trim_start-All P (c ∷ s) h = ground (arith, trim_start-All P s h.1)

trim_start-score : (s : List ℕ) → first_is_score (trim_start s) ≡ false
unfolding trim_start
trim_start-score [] = refl
trim_start-score (c ∷ s) = ground (arith, trim_start-score s)

reverse-All : (P : ℕ → Type 0) (s : List ℕ) → All P s → All P (reverse s)
reverse-All P [] h = tt
reverse-All P (c ∷ s) h =
    subst (All P) (sym (reverse-cons c s))
      (All-append P (reverse s) (c ∷ []) (reverse-All P s h.1) (h.0, tt))

IsIdentChar-all_ident : (s : List ℕ) → All IsIdentChar s → all_ident s ≡ true
IsIdentChar-all_ident [] h = refl
IsIdentChar-all_ident (c ∷ s) h = ground (arith, IsIdentChar-all_ident s h.1)

-- A name in snake case has lower-case letters, digits and underscores only and does not begin with an
-- underscore, so that it is a valid identifier exactly if it is not empty, is not too long and does not
-- begin with a digit.
pub to_snake_case-is_valid_ident :
    (name : List ℕ)
    → let s = to_snake_case name in
      All IsIdentChar s
      × (first_is_score s ≡ false)
      × (is_valid_ident s ≡ (not (is_empty s) && leb (length s) 63 && not (leading_digit s)))
unfolding to_snake_case is_valid_ident
to_snake_case-is_valid_ident name =
    let looped = snake_loop-All [] [] name tt in
    let chars =
      trim_start-All IsIdentChar _
        (reverse-All IsIdentChar _ (trim_start-All IsIdentChar _ looped)) in
    let all = IsIdentChar-all_ident (to_snake_case name) chars in
    (chars, trim_start-score (reverse (trim_start (snake_loop [] [] name))), rw all (ground arith))
