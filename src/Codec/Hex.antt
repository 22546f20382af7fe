-- ===== src/Codec/Hex.antt =====
-- crates/shared/src/util.rs: `hex_encode` and `hex_decode`. A text is the list of its UTF-8 bytes.
use topic.Base.{
  ℕ, ◌+◌, ◌-◌, ◌*◌, ◌/◌, ◌≤◌, ◌<◌, ◌%◌, ◌≡◌, ◌≢◌, refl, ap, ◌∙◌, Bool, true, false, ◌&&◌, ◌||◌,
  Option, none, some, [], ◌∷◌, arith, ltb, leb, ◌==◌, if◌then◌else◌, length, All, inl, inr,
  Option-cases,
}
use topic.Model.{Bytes}

-- One digit of `{b:02x}`.
unfoldable pub hex_digit : ℕ → ℕ
hex_digit n = if ltb n 10 then b'0' + n else 87 + n

unfoldable pub hex_encode : Bytes → Bytes
unfolding hex_digit
hex_encode [] = []
hex_encode (b ∷ bytes) = hex_digit (b / 16) ∷ hex_digit (b % 16) ∷ hex_encode bytes

-- `char::to_digit(16)`
unfoldable pub digit_value : ℕ → Option ℕ
digit_value c =
    if leb b'0' c && leb c b'9'
    then some (c - 48)
    else if leb b'a' c && leb c b'f'
    then some (c - 87)
    else if leb b'A' c && leb c b'F'
    then some (c - 55)
    else none

-- `u8::from_str_radix` of two bytes: a leading `+` is a sign.
unfoldable pub parse_pair : ℕ → ℕ → Option ℕ
unfolding digit_value
parse_pair a b = if a == b'+' then digit_value b else elim (digit_value a) [
  | none ↦ none
  | some h ↦ elim (digit_value b) [ none ↦ none | some l ↦ some (16 * h + l) ]
]

-- A byte inside of a character: a slice of the text that begins or ends before it panics.
unfoldable pub is_inner : ℕ → Bool
is_inner b = leb 128 b && ltb b 192

unfoldable pub starts_inner : Bytes → Bool
unfolding is_inner
starts_inner [] = false
starts_inner (b ∷ s) = is_inner b

-- `collect` of the pairs, with a byte put in front.
abbrev pub put_first : ℕ → Option (Option Bytes) → Option (Option Bytes)
put_first n none = none
put_first n (some none) = some none
put_first n (some (some bytes)) = some (some (n ∷ bytes))

-- The pairs of a text of even length; `none` is a panic.
unfoldable pub decode_pairs : Bytes → Option (Option Bytes)
unfolding parse_pair starts_inner is_inner
decode_pairs [] = some (some [])
decode_pairs (a ∷ []) = some none
decode_pairs (a ∷ b ∷ s) =
    let rest = decode_pairs s in
    if is_inner a || starts_inner s
    then none
    else elim (parse_pair a b) [ none ↦ some none | some n ↦ put_first n rest ]

-- `strip_prefix("0x")`
unfoldable pub strip_0x : Bytes → Bytes
strip_0x (a ∷ b ∷ s) = if a == b'0' && b == b'x' then s else a ∷ b ∷ s
strip_0x s = s

unfoldable pub hex_decode : Bytes → Option (Option Bytes)
unfolding strip_0x decode_pairs
hex_decode s = if length (strip_0x s) % 2 == 0 then decode_pairs (strip_0x s) else some none

hex_digit_value : (n : ℕ) → n < 16 → digit_value (hex_digit n) ≡ some n
unfolding hex_digit digit_value
hex_digit_value n h = ground arith

hex_digit-bounds : (n : ℕ) → n < 16 → (48 ≤ hex_digit n) × (hex_digit n < 103)
unfolding hex_digit
hex_digit-bounds n h = ground arith

parse_pair-digits :
    (b : ℕ) → b < 256 → parse_pair (hex_digit (b / 16)) (hex_digit (b % 16)) ≡ some b
unfolding parse_pair
parse_pair-digits b h =
    let hi : b / 16 < 16 = omega arith in
    let lo : b % 16 < 16 = omega arith in
    ground (
      arith,
      hex_digit_value (b / 16) hi,
      hex_digit_value (b % 16) lo,
      hex_digit-bounds (b / 16) hi,
    )

abbrev pub IsByte : ℕ → Type 0
IsByte b = b < 256

decode_pairs-cons :
    (a b n : ℕ) (s : Bytes)
    → is_inner a ≡ false
    → starts_inner s ≡ false
    → parse_pair a b ≡ some n
    → decode_pairs (a ∷ b ∷ s) ≡ put_first n (decode_pairs s)
unfolding decode_pairs
decode_pairs-cons a b n s p q e = rw (p, q, e, decode_pairs) refl

hex_digit-is_inner : (n : ℕ) → n < 16 → is_inner (hex_digit n) ≡ false
unfolding is_inner
hex_digit-is_inner n h = ground (arith, hex_digit-bounds n h)

hex_encode-starts_inner :
    (bytes : Bytes) → All IsByte bytes → starts_inner (hex_encode bytes) ≡ false
unfolding starts_inner hex_encode
hex_encode-starts_inner [] h = refl
hex_encode-starts_inner (b ∷ bytes) h = hex_digit-is_inner (b / 16) (omega (arith, h.0))

decode_pairs-encode :
    (bytes : Bytes) → All IsByte bytes → decode_pairs (hex_encode bytes) ≡ some (some bytes)
unfolding hex_encode
decode_pairs-encode [] h = unfold decode_pairs in refl
decode_pairs-encode (b ∷ bytes) h =
    decode_pairs-cons _ _ b _ (hex_digit-is_inner (b / 16) (omega (arith, h.0)))
      (hex_encode-starts_inner bytes h.1) (parse_pair-digits b h.0)
    ∙ ap (put_first b) (decode_pairs-encode bytes h.1)

hex_encode-strip_0x :
    (bytes : Bytes) → All IsByte bytes → strip_0x (hex_encode bytes) ≡ hex_encode bytes
unfolding strip_0x hex_encode
hex_encode-strip_0x [] h = refl
hex_encode-strip_0x (b ∷ bytes) h = ground (arith, hex_digit-bounds (b % 16) (omega arith))

length-hex_encode : (bytes : Bytes) → length (hex_encode bytes) ≡ 2 * length bytes
unfolding hex_encode
length-hex_encode [] = refl
length-hex_encode (b ∷ bytes) = omega (arith, length-hex_encode bytes)

-- The bytes of a text come back from its hexadecimal form, with or without the prefix `0x`.
pub hex_decode-encode :
    (bytes : Bytes)
    → All IsByte bytes
    → (hex_decode (hex_encode bytes) ≡ some (some bytes))
      × (hex_decode (b'0' ∷ b'x' ∷ hex_encode bytes) ≡ some (some bytes))
unfolding hex_decode
hex_decode-encode bytes h =
    let even : (length (hex_encode bytes) % 2 == 0) ≡ true =
      ground (arith, length-hex_encode bytes) in
    let decoded = decode_pairs-encode bytes h in
    (
      rw (hex_encode-strip_0x bytes h, hex_decode, even) decoded,
      unfold strip_0x in rw (even, hex_decode) decoded,
    )

abbrev pub IsAscii : ℕ → Type 0
IsAscii b = b < 128

ascii-starts_inner : (s : Bytes) → All IsAscii s → starts_inner s ≡ false
unfolding starts_inner is_inner
ascii-starts_inner [] h = refl
ascii-starts_inner (b ∷ s) h = ground (arith, h.0)

put_first-some : (n : ℕ) (o : Option (Option Bytes)) → o ≢ none → put_first n o ≢ none
put_first-some n none h e = h refl
put_first-some n (some none) h e = cc
put_first-some n (some (some b)) h e = cc

decode_pairs-ascii : (s : Bytes) → All IsAscii s → decode_pairs s ≢ none
unfolding decode_pairs
decode_pairs-ascii [] h = λ e. cc
decode_pairs-ascii (a ∷ []) h = λ e. cc
decode_pairs-ascii (a ∷ b ∷ s) h =
    let p : is_inner a ≡ false = unfold is_inner in ground (arith, h.0) in
    let q = ascii-starts_inner s h.1.1 in
    elim (Option-cases (parse_pair a b)) [
      | inl e ↦ rw (p, q, e, decode_pairs) (λ x. cc)
      | inr (n, e) ↦
          rw (decode_pairs-cons a b n s p q e)
            (put_first-some n (decode_pairs s) (decode_pairs-ascii s h.1.1))
    ]

strip_0x-IsAscii : (s : Bytes) → All IsAscii s → All IsAscii (strip_0x s)
unfolding strip_0x
strip_0x-IsAscii [] h = tt
strip_0x-IsAscii (a ∷ []) h = h
strip_0x-IsAscii (a ∷ b ∷ s) h = ground (arith, h)

-- On an ASCII text `hex_decode` does not panic.
pub hex_decode-ascii : (s : Bytes) → All IsAscii s → hex_decode s ≢ none
unfolding hex_decode
hex_decode-ascii s h = ground (arith, decode_pairs-ascii (strip_0x s) (strip_0x-IsAscii s h))

-- A text that begins with an ASCII byte other than `0`, followed by a character of two or more bytes, makes
-- `hex_decode` panic if its length is even, where the documentation promises `None`.
pub hex_decode-panics :
    (a b : ℕ) (s : Bytes)
    → a < 128
    → a ≢ b'0'
    → starts_inner s ≡ true
    → length s % 2 ≡ 0
    → hex_decode (a ∷ b ∷ s) ≡ none
unfolding hex_decode decode_pairs
hex_decode-panics a b s h z p e =
    let same : strip_0x (a ∷ b ∷ s) ≡ a ∷ b ∷ s = unfold strip_0x in ground arith in
    let outer : is_inner a ≡ false = unfold is_inner in ground arith in
    let even : (length (a ∷ b ∷ s) % 2 == 0) ≡ true = ground arith in
    rw (same, hex_decode, even, outer, p, decode_pairs) refl
