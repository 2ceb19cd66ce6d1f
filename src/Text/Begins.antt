-- ===== src/Text/Begins.antt =====
-- Beginnings of texts that trimming and the removal of other beginnings leave as they are.
use easysub.Prelude.{
  ℕ, ◌≡◌, refl, Bool, true, false, not, ◌&&◌, ◌||◌, ◌==◌, none, [], ◌∷◌, arith, any, is_empty,
  nat_key, list_key,
}
use easysub.Text.{Str, strip_prefix, starts_with, trim_start_by, trim_end_by, trim_by}

-- The two texts differ at a place that both have.
unfoldable pub clash : Str → Str → Bool
clash [] q = false
clash (c ∷ p) [] = false
clash (c ∷ p) (d ∷ q) = not (c == d) || clash p q

starts_with-cons :
    (c d : ℕ) (p s : Str) → starts_with (c ∷ p) (d ∷ s) ≡ ((c == d) && starts_with p s)
unfolding starts_with
starts_with-cons c d p s = ground arith

pub strip_prefix-clash :
    (p q s : Str) → starts_with p s ≡ true → clash p q ≡ true → strip_prefix q s ≡ none
unfolding strip_prefix clash starts_with
strip_prefix-clash [] q s h k = cc
strip_prefix-clash (c ∷ p) [] s h k = cc
strip_prefix-clash (c ∷ p) (d ∷ q) [] h k = refl
strip_prefix-clash (c ∷ p) (d ∷ q) (e ∷ s) h k =
    ground (arith, strip_prefix-clash p q s, starts_with-cons c e p s)

module _ (q : ℕ → Bool) where
  starts_with-trim_end_by :
      (p s : Str)
      → starts_with p s ≡ true
      → any q p ≡ false
      → starts_with p (trim_end_by q s) ≡ true
  unfolding trim_end_by starts_with
  starts_with-trim_end_by [] s h k = refl
  starts_with-trim_end_by (c ∷ p) [] h k = cc
  starts_with-trim_end_by (c ∷ p) (d ∷ s) h k =
      ground (arith, starts_with-trim_end_by p s, starts_with-cons c d p s)

  starts_with-trim_start_by :
      (p s : Str)
      → starts_with p s ≡ true
      → any q p ≡ false
      → is_empty p ≡ false
      → trim_start_by q s ≡ s
  unfolding trim_start_by
  starts_with-trim_start_by [] s h k n = cc
  starts_with-trim_start_by (c ∷ p) [] h k n = refl
  starts_with-trim_start_by (c ∷ p) (d ∷ s) h k n = ground (arith, starts_with-cons c d p s)

  pub starts_with-trim_by :
      (p s : Str)
      → starts_with p s ≡ true
      → any q p ≡ false
      → is_empty p ≡ false
      → starts_with p (trim_by q s) ≡ true
  unfolding trim_by
  starts_with-trim_by p s h k n =
      rw (starts_with-trim_start_by p s h k n) (starts_with-trim_end_by p s h k)
