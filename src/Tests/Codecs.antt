-- ===== src/Tests/Codecs.antt =====
-- crates/db/src/encode.rs, crates/shared/src/util.rs.
use topic.Base.{◌≡◌, refl, none, some, [], ◌∷◌, All, arith, true, false, not, ◌&&◌, length, leb}
use topic.Text.{codes}
use topic.Codec.Selectors.{frame_selectors, unframe_selectors, unframe-frame_selectors}
use topic.Codec.Hex.{hex_encode, hex_decode, hex_decode-encode, hex_decode-panics, starts_inner}
use topic.Codec.Idents.{
  to_snake_case, is_valid_ident, IsIdentChar, first_is_score, is_empty, leading_digit,
  to_snake_case-is_valid_ident,
}

unframe-frame_selectors_example :
    unframe_selectors (frame_selectors ((1 ∷ 2 ∷ 3 ∷ []) ∷ [] ∷ (9 ∷ []) ∷ []))
    ≡ (1 ∷ 2 ∷ 3 ∷ []) ∷ [] ∷ (9 ∷ []) ∷ []
unframe-frame_selectors_example =
    unframe-frame_selectors ((1 ∷ 2 ∷ 3 ∷ []) ∷ [] ∷ (9 ∷ []) ∷ [])
      (omega arith, (omega arith, (omega arith, tt)))

hex_decode-encode_example :
    (hex_decode (hex_encode (222 ∷ 173 ∷ [])) ≡ some (some (222 ∷ 173 ∷ [])))
    × (hex_decode (b'0' ∷ b'x' ∷ hex_encode (222 ∷ 173 ∷ [])) ≡ some (some (222 ∷ 173 ∷ [])))
hex_decode-encode_example = hex_decode-encode (222 ∷ 173 ∷ []) (omega arith, (omega arith, tt))

-- The text `aéa`.
inner_e : starts_inner (169 ∷ 97 ∷ []) ≡ true
unfolding starts_inner
inner_e = refl

hex_decode-panics_example : hex_decode (97 ∷ 195 ∷ 169 ∷ 97 ∷ []) ≡ none
hex_decode-panics_example =
    hex_decode-panics 97 195 (169 ∷ 97 ∷ []) (omega arith) (omega arith) inner_e refl

to_snake_case-is_valid_ident_example :
    let s = to_snake_case (codes "actionTreeRoot") in
    All IsIdentChar s
    × (first_is_score s ≡ false)
    × (is_valid_ident s ≡ (not (is_empty s) && leb (length s) 63 && not (leading_digit s)))
to_snake_case-is_valid_ident_example = to_snake_case-is_valid_ident (codes "actionTreeRoot")

snake_test : to_snake_case (codes "URLValue") ≡ codes "url_value"
unfolding to_snake_case
snake_test = refl
