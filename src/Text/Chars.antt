-- ===== src/Text/Chars.antt =====
-- Operations that only take characters away leave no character that was not there.
use easysub.Prelude.{
  ℕ, zero, suc, ◌≡◌, refl, inl, inr, Bool, false, some, [], ◌∷◌, arith, ◌==◌, is_empty, length, any,
  Option-cases,
}
use easysub.Text.{
  Str, strip_prefix, strip_all, trim_start_matches, trim_start_by, lower_char, to_ascii_lowercase,
}

module _ (p : ℕ → Bool) where
  pub strip_prefix-lacks :
      (prefix s r : Str) → strip_prefix prefix s ≡ some r → any p s ≡ false → any p r ≡ false
  unfolding strip_prefix
  strip_prefix-lacks [] s r e h = ground (arith, e, h)
  strip_prefix-lacks (c ∷ prefix) [] r e h = cc
  strip_prefix-lacks (c ∷ prefix) (d ∷ s) r e h = ground (arith, strip_prefix-lacks prefix s r)

  strip_all-lacks :
      (fuel : ℕ) (prefix s : Str) → any p s ≡ false → any p (strip_all fuel prefix s) ≡ false
  unfolding strip_all
  strip_all-lacks zero prefix s h = h
  strip_all-lacks (suc fuel) prefix s h = elim (Option-cases (strip_prefix prefix s)) [
    | inl e ↦ rw (e, strip_all) h
    | inr (rest, e) ↦
        rw (e, strip_all) (strip_all-lacks fuel prefix rest (strip_prefix-lacks prefix s rest e h))
  ]

  pub trim_start_matches-lacks :
      (prefix s : Str) → any p s ≡ false → any p (trim_start_matches prefix s) ≡ false
  unfolding trim_start_matches
  trim_start_matches-lacks prefix s h = strip_all-lacks (length s) prefix s h

  pub trim_start_by-lacks :
      (q : ℕ → Bool) (s : Str) → any p s ≡ false → any p (trim_start_by q s) ≡ false
  unfolding trim_start_by
  trim_start_by-lacks q [] h = refl
  trim_start_by-lacks q (c ∷ s) h = ground (arith, trim_start_by-lacks q s)

lower_char_idem : (c : ℕ) → lower_char (lower_char c) ≡ lower_char c
unfolding lower_char
lower_char_idem c = ground arith

-- Lower case is not lowered further.
pub to_ascii_lowercase_idem :
    (s : Str) → to_ascii_lowercase (to_ascii_lowercase s) ≡ to_ascii_lowercase s
unfolding to_ascii_lowercase
to_ascii_lowercase_idem [] = refl
to_ascii_lowercase_idem (c ∷ s) = cc (lower_char_idem c, to_ascii_lowercase_idem s)

pub is_empty-to_ascii_lowercase : (s : Str) → is_empty (to_ascii_lowercase s) ≡ is_empty s
unfolding to_ascii_lowercase
is_empty-to_ascii_lowercase [] = refl
is_empty-to_ascii_lowercase (c ∷ s) = refl

abbrev pub is_slash : ℕ → Bool
is_slash c = c == b'/'

lower_char-slash : (c : ℕ) → is_slash (lower_char c) ≡ is_slash c
unfolding lower_char
lower_char-slash c = ground arith

pub to_ascii_lowercase-slash : (s : Str) → any is_slash (to_ascii_lowercase s) ≡ any is_slash s
unfolding to_ascii_lowercase
to_ascii_lowercase-slash [] = refl
to_ascii_lowercase-slash (c ∷ s) = ground (arith, lower_char-slash c, to_ascii_lowercase-slash s)
