-- ===== src/Export/Clash/Readers.antt =====
-- What the readers of structured subscriptions give for entries that are known.
use easysub.Prelude.{
  ℕ, ◌≡◌, refl, ◌∙◌, ap, ◌≤◌, Bool, Option, none, some, List, [], ◌∷◌, ◌>>=◌, arith, leb, keep_if,
  find_map, unwrap_or, option_map,
}
use easysub.Text.{Str}
use easysub.Text.Decimal.{u16_max}
use easysub.Json.{Fields, unsigned, string, get, value_string}
use easysub.Structured.Fields.{
  first_value, read_text, read_boolean, number_u64, number_upto, number_u16, value_number,
  value_boolean,
}
use easysub.Export.Clash.Entries.{flag_value}

module _ {ℓ κ} {A : Type ℓ} {B : Type κ} (f : A → Option B) where
  find_map-first : (x : A) (xs : List A) (y : B) → f x ≡ some y → find_map f (x ∷ xs) ≡ some y
  find_map-first x xs y e = rw (e, find_map) refl

  find_map-later : (x : A) (xs : List A) → f x ≡ none → find_map f (x ∷ xs) ≡ find_map f xs
  find_map-later x xs e = rw (e, find_map) refl

-- Reading a field whose first key is there.
pub text_first :
    (y : Fields) (k : Str) (ks : List Str) (s : Str)
    → get k y ≡ some (string s)
    → read_text y (k ∷ ks) ≡ s
unfolding read_text first_value value_string
text_first y k ks s e =
    ap (λ o. unwrap_or [] (option_map value_string o))
      (find_map-first (λ key. get key y) k ks (string s) e)

pub number_first :
    (y : Fields) (k : Str) (ks : List Str) (n : ℕ)
    → get k y ≡ some (unsigned n)
    → n ≤ u16_max
    → number_u16 y (k ∷ ks) ≡ some n
unfolding number_u16 number_upto number_u64 value_number
number_first y k ks n e h =
    ap (keep_if (λ m. leb m u16_max))
      (find_map-first (λ key. get key y >>= value_number) k ks n (ap (λ o. o >>= value_number) e))
    ∙ ground arith

-- A flag whose later keys are not there.
pub boolean_first :
    (y : Fields) (k : Str) (ks : List Str) (o : Option Bool)
    → get k y ≡ flag_value o
    → read_boolean y ks ≡ none
    → read_boolean y (k ∷ ks) ≡ o
unfolding read_boolean flag_value value_boolean
boolean_first y k ks none e h =
    find_map-later (λ key. get key y >>= value_boolean) k ks (ap (λ v. v >>= value_boolean) e) ∙ h
boolean_first y k ks (some b) e h =
    find_map-first (λ key. get key y >>= value_boolean) k ks b (ap (λ v. v >>= value_boolean) e)

pub no_flag : (y : Fields) → read_boolean y [] ≡ none
unfolding read_boolean
no_flag y = refl
