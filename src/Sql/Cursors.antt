-- ===== src/Sql/Cursors.antt =====
-- crates/db-query/src/pagination.rs: the cursor that a page ends with is read back.
use topic.Base.{
  ℕ, suc, ◌≡◌, refl, true, false, some, List, [], ◌∷◌, ◌++◌, arith, ◌==◌, All, All-map,
}
use topic.Base.Results.{ok}
use topic.Text.Ints.{ℤ, IsI64, show, decimal-All, parse_i64-show}
use topic.Sql.{format_cursor, split_once, parse_cursor}

split_once-append :
    (c : ℕ) (a b : List ℕ) → All (λ d. (d == c) ≡ false) a → split_once c (a ++ c ∷ b) ≡ some (a, b)
unfolding split_once
split_once-append c [] b h = let same : (c == c) ≡ true = ground arith in rw same refl
split_once-append c (d ∷ a) b h = rw (h.0, split_once-append c a b h.1) refl

-- No number has a colon.
show-All : (z : ℤ) → All (λ d. (d == b':') ≡ false) (show z)
unfolding show
show-All (ℤ.pos n) = All-map _ (λ d h. ground arith) (decimal-All n)
show-All (ℤ.negsuc n) = (refl, All-map _ (λ d h. ground arith) (decimal-All (suc n)))

-- The cursor of a position, of two numbers of type `i64`, parses back to the position.
pub parse_cursor-format_cursor :
    (h i : ℤ) → IsI64 h → IsI64 i → parse_cursor (format_cursor h i) ≡ ok (h, i)
unfolding parse_cursor format_cursor
parse_cursor-format_cursor h i p q =
    rw
      (
        split_once-append b':' (show h) (show i) (show-All h),
        parse_i64-show h p,
        parse_i64-show i q,
      )
      refl
