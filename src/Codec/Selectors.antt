-- ===== src/Codec/Selectors.antt =====
-- crates/db/src/encode.rs: the length-framed blob of a record's selectors.
use topic.Base.{
  ℕ, zero, suc, ◌≤◌, ◌<◌, ◌%◌, ◌≡◌, refl, List, [], ◌∷◌, ◌++◌, arith, ltb, if◌then◌else◌, length,
  take, drop, take-append_length, drop-append_length, length-append, All, false,
}
use topic.Model.{Bytes, Hash}

-- `frame_selectors`; the length is cast to a `u8`.
unfoldable pub frame_selectors : List Hash → Bytes
frame_selectors [] = []
frame_selectors (s ∷ selectors) = length s % 256 ∷ (s ++ frame_selectors selectors)

-- The loop of `unframe_selectors` at the rest of the blob; a release build drops a truncated tail.
unfoldable pub unframe_loop : ℕ → Bytes → List Hash
unframe_loop zero blob = []
unframe_loop (suc fuel) [] = []
unframe_loop (suc fuel) (len ∷ blob) =
    let rest = unframe_loop fuel (drop len blob) in
    if ltb (length blob) len then [] else take len blob ∷ rest

unfoldable pub unframe_selectors : Bytes → List Hash
unfolding unframe_loop
unframe_selectors blob = unframe_loop (length blob) blob

abbrev pub IsShort : Hash → Type 0
IsShort s = length s < 256

unframe_loop-frame :
    (fuel : ℕ) (selectors : List Hash)
    → All IsShort selectors
    → length (frame_selectors selectors) ≤ fuel
    → unframe_loop fuel (frame_selectors selectors) ≡ selectors
unfolding unframe_loop frame_selectors
unframe_loop-frame zero [] h f = refl
unframe_loop-frame (suc fuel) [] h f = refl
unframe_loop-frame zero (s ∷ selectors) h f = absurd (omega arith)
unframe_loop-frame (suc fuel) (s ∷ selectors) h f =
    let l = length-append s (frame_selectors selectors) in
    let small : length s % 256 ≡ length s = omega (arith, h.0) in
    let ih = unframe_loop-frame fuel selectors h.1 (omega (arith, f, l)) in
    let fits : ltb (length (s ++ frame_selectors selectors)) (length s) ≡ false =
      ground (arith, l) in
    rw
      (
        small,
        fits,
        unframe_loop,
        frame_selectors,
        take-append_length s (frame_selectors selectors),
        drop-append_length s (frame_selectors selectors),
        ih,
      )
      refl

-- Selectors of fewer than 256 bytes each, of whatever sizes, come back from their blob.
pub unframe-frame_selectors :
    (selectors : List Hash)
    → All IsShort selectors
    → unframe_selectors (frame_selectors selectors) ≡ selectors
unfolding unframe_selectors
unframe-frame_selectors selectors h = unframe_loop-frame _ selectors h (omega arith)
