-- ===== src/Text.antt =====
-- Texts as lists of code points: the tests on `str` and `String` that the code makes.
pub mod Ints
use Prim.Native.Char.{Char, code}
use Prim.Native.String.{char_at}
use topic.Base.{
  ℕ, zero, suc, ◌+◌, ◌-◌, ◌/◌, ◌%◌, Bool, true, false, ◌&&◌, ◌||◌, List, [], ◌∷◌, ◌++◌, map, String,
  ltb, leb, ◌==◌, if◌then◌else◌, ◌≡◌, refl, ap,
}

abbrev pub codes : String → List ℕ
codes String.[] = []
codes (String.◌∷◌ c s) = code c ∷ codes s

-- `char::is_ascii_lowercase`, `is_ascii_uppercase`, `is_ascii_digit`
abbrev pub is_lower : ℕ → Bool
is_lower c = leb b'a' c && leb c b'z'

abbrev pub is_upper : ℕ → Bool
is_upper c = leb b'A' c && leb c b'Z'

abbrev pub is_digit : ℕ → Bool
is_digit c = leb b'0' c && leb c b'9'

-- `char::to_ascii_lowercase`
abbrev pub lower_code : ℕ → ℕ
lower_code c = if is_upper c then c + 32 else c

-- `str::to_ascii_lowercase`
unfoldable pub to_lower : List ℕ → List ℕ
to_lower = map lower_code

unfoldable pub starts_with : List ℕ → List ℕ → Bool
starts_with [] s = true
starts_with (p ∷ ps) [] = false
starts_with (p ∷ ps) (c ∷ s) = p == c && starts_with ps s

-- `s.contains(needle)`
unfoldable pub contains : List ℕ → List ℕ → Bool
unfolding starts_with
contains [] needle = starts_with needle []
contains (c ∷ s) needle = starts_with needle (c ∷ s) || contains s needle

-- Some of the needles occurs in `s`.
unfoldable pub contains_any : List ℕ → List String → Bool
unfolding contains
contains_any s [] = false
contains_any s (n ∷ ns) = contains s (codes n) || contains_any s ns

-- `a + b`
abbrev pub append : String → String → String
append String.[] t = t
append (String.◌∷◌ c s) t = String.◌∷◌ c (append s t)

pub codes-append : (s t : String) → codes (append s t) ≡ codes s ++ codes t
codes-append String.[] t = refl
codes-append (String.◌∷◌ c s) t = ap (◌∷◌ (code c)) (codes-append s t)

-- The character with a number, which is that of a printable ASCII character.
unfoldable pub ascii : ℕ → Char
ascii c =
    char_at
      " !\"#$%&'()*+,-./0123456789:;<=>?@ABCDEFGHIJKLMNOPQRSTUVWXYZ[\\]^_`abcdefghijklmnopqrstuvwxyz{|}~"
      (c - 32)

-- The text of printable ASCII characters.
unfoldable pub text : List ℕ → String
unfolding ascii
text [] = ""
text (c ∷ s) = String.◌∷◌ (ascii c) (text s)

-- `s.ends_with(c)`
unfoldable pub ends_with : ℕ → List ℕ → Bool
ends_with c [] = false
ends_with c (d ∷ []) = d == c
ends_with c (d ∷ e ∷ s) = ends_with c (e ∷ s)

unfoldable pub codes_eq : List ℕ → List ℕ → Bool
codes_eq [] [] = true
codes_eq [] (d ∷ t) = false
codes_eq (c ∷ s) [] = false
codes_eq (c ∷ s) (d ∷ t) = c == d && codes_eq s t

-- The decimal digits of a number, by fuel: it has no more than it has units.
unfoldable pub digits_loop : ℕ → ℕ → List ℕ → List ℕ
digits_loop zero n out = out
digits_loop (suc fuel) n out =
    let rest = digits_loop fuel (n / 10) ((b'0' + n % 10) ∷ out) in
    if ltb n 10 then (b'0' + n) ∷ out else rest

-- `n.to_string()`
unfoldable pub decimal : ℕ → List ℕ
unfolding digits_loop
decimal n = digits_loop (suc n) n []

-- The bytes of a character, and of a text: `s.as_bytes()`.
unfoldable pub utf8_char : ℕ → List ℕ
utf8_char c =
    if ltb c 128
    then c ∷ []
    else if ltb c 2048
    then (192 + c / 64) ∷ (128 + c % 64) ∷ []
    else if ltb c 65536
    then (224 + c / 4096) ∷ (128 + c / 64 % 64) ∷ (128 + c % 64) ∷ []
    else (240 + c / 262144) ∷ (128 + c / 4096 % 64) ∷ (128 + c / 64 % 64) ∷ (128 + c % 64) ∷ []

unfoldable pub utf8 : List ℕ → List ℕ
unfolding utf8_char
utf8 [] = []
utf8 (c ∷ s) = utf8_char c ++ utf8 s
