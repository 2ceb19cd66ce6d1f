-- ===== src/Text/Signed.antt =====
-- Signed integers, their order, and `str::parse::<i64>`.
use easysub.Prelude.{
  ℕ, zero, suc, ◌-◌, ◌^◌, ◌≡◌, refl, Bool, true, false, Option, none, some, [], ◌∷◌, leb, ◌==◌,
  if◌then◌else◌, option_map,
}
use easysub.Text.{Str, codes}
use easysub.Text.Decimal.{parse_digits}

-- `negsuc n` is -(n + 1).
pub data ℤ : Type 0 where
  pos : ℕ → ℤ
  negsuc : ℕ → ℤ

unfoldable pub negate : ℕ → ℤ
negate zero = pos 0
negate (suc n) = negsuc n

unfoldable pub int_leb : ℤ → ℤ → Bool
int_leb (pos a) (pos b) = leb a b
int_leb (pos a) (negsuc b) = false
int_leb (negsuc a) (pos b) = true
int_leb (negsuc a) (negsuc b) = leb b a

unfoldable pub int_eq : ℤ → ℤ → Bool
int_eq (pos a) (pos b) = a == b
int_eq (negsuc a) (negsuc b) = a == b
int_eq _ _ = false

-- One sign at most, and a value within 64 bits.
unfoldable pub parse_i64 : Str → Option ℤ
unfolding negate parse_digits
parse_i64 [] = none
parse_i64 (c ∷ s) =
    if c == b'-'
    then option_map negate (parse_digits (2 ^ 63) s)
    else option_map pos (parse_digits (2 ^ 63 - 1) (if c == b'+' then s else c ∷ s))

reads_a_sign : parse_i64 (codes "-7") ≡ some (negsuc 6)
unfolding parse_i64
reads_a_sign = refl
