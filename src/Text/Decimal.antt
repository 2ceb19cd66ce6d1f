-- ===== src/Text/Decimal.antt =====
-- Decimal numbers: `format!("{n}")`, and `str::parse` for the integer types.
use easysub.Prelude.{
  ℕ, zero, suc, ◌+◌, ◌-◌, ◌*◌, ◌/◌, ◌%◌, ◌^◌, ◌<◌, inl, inr, ◌≡◌, refl, sym, ◌∙◌, ap, Bool, true,
  ◌&&◌, Option, none, some, List, [], ◌∷◌, arith, leb, ltb, ◌==◌, if◌then◌else◌, all, keep_if,
  is_empty, false, Bool-cases,
}

-- The digits of `n` in front of `out`; the fuel is more than the number of rounds.
emit : ℕ → ℕ → List ℕ → List ℕ
emit zero n out = out
emit (suc fuel) n out =
    let digit = b'0' + n % 10 in
    let rest = emit fuel (n / 10) (digit ∷ out) in if ltb n 10 then digit ∷ out else rest

unfoldable pub show : ℕ → List ℕ
unfolding emit
show n = emit (suc n) n []

-- The number that digits spell behind `n`.
unfoldable pub value : List ℕ → ℕ → ℕ
value [] n = n
value (c ∷ s) n = value s (n * 10 + (c - b'0'))

unfoldable pub is_decimal : ℕ → Bool
is_decimal c = leb b'0' c && leb c b'9'

-- One digit at least, and a value that the type holds.
unfoldable pub parse_digits : ℕ → List ℕ → Option ℕ
unfolding value is_decimal
parse_digits most [] = none
parse_digits most (c ∷ s) =
    if all is_decimal (c ∷ s) then keep_if (λ n. leb n most) (some (value (c ∷ s) 0)) else none

-- An unsigned type takes one plus sign.
unfoldable pub parse_unsigned : ℕ → List ℕ → Option ℕ
unfolding parse_digits
parse_unsigned most [] = none
parse_unsigned most (c ∷ s) = if c == b'+' then parse_digits most s else parse_digits most (c ∷ s)

abbrev pub u16_max : ℕ
u16_max = 65535

abbrev pub u32_max : ℕ
u32_max = 2 ^ 32 - 1

abbrev pub u64_max : ℕ
u64_max = 2 ^ 64 - 1

value-emit : (fuel n : ℕ) (out : List ℕ) → n < fuel → value (emit fuel n out) 0 ≡ value out n
unfolding emit value
value-emit zero n out h = absurd (omega arith)
value-emit (suc fuel) n out h = elim (Bool-cases (ltb n 10)) [
  | inl small ↦ rw small (ap (value out) (ground arith))
  | inr large ↦ rw large (
      value-emit fuel (n / 10) ((b'0' + n % 10) ∷ out) (ground arith)
      ∙ ap (value out) (omega arith))
]

pub value-show : (n : ℕ) → value (show n) 0 ≡ n
unfolding show
value-show n = value-emit (suc n) n [] (omega arith) ∙ unfold value in refl

-- Different numbers are written differently.
pub show_injective : (m n : ℕ) → show m ≡ show n → m ≡ n
show_injective m n e = sym (value-show m) ∙ (ap (λ s. value s 0) e ∙ value-show n)

show_runs : show 4096 ≡ b'4' ∷ b'0' ∷ b'9' ∷ b'6' ∷ []
unfolding show
show_runs = refl

all-emit :
    (fuel n : ℕ) (out : List ℕ)
    → all is_decimal out ≡ true
    → all is_decimal (emit fuel n out) ≡ true
unfolding emit is_decimal
all-emit zero n out h = h
all-emit (suc fuel) n out h = ground (arith, all-emit fuel (n / 10) ((b'0' + n % 10) ∷ out))

-- A number is written with digits alone.
pub all-show : (n : ℕ) → all is_decimal (show n) ≡ true
unfolding show
all-show n = all-emit (suc n) n [] refl

is_empty-emit : (fuel n c : ℕ) (out : List ℕ) → is_empty (emit fuel n (c ∷ out)) ≡ false
unfolding emit
is_empty-emit zero n c out = refl
is_empty-emit (suc fuel) n c out =
    ground (arith, is_empty-emit fuel (n / 10) (b'0' + n % 10) (c ∷ out))

-- A number is written with one digit at least.
pub is_empty-show : (n : ℕ) → is_empty (show n) ≡ false
unfolding show emit
is_empty-show n = ground (arith, is_empty-emit n (n / 10) (b'0' + n % 10) [])
