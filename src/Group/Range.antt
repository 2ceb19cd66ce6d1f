-- ===== src/Group/Range.antt =====
-- `match_range` of crates/easysub-core/src/group.rs: port and group ranges such as `1-3,!2`.
use easysub.Prelude.{
  ◌≡◌, refl, Bool, true, false, not, ◌&&◌, ◌||◌, Option, none, some, List, [], ◌∷◌, map, ◌==◌,
  arith, if◌then◌else◌, is_empty, keep_if, any,
}
use easysub.Text.{Str, codes, split, split_once, strip_suffix_char, starts_with_char, trim}
use easysub.Text.Signed.{ℤ, pos, negsuc, int_leb, int_eq, parse_i64}

-- `is_ok_and`, `is_some_and`.
abbrev holds {ℓ} : {A : Type ℓ} → (A → Bool) → Option A → Bool
holds p none = false
holds p (some a) = p a

both_ends : Str × Str → Bool
both_ends (begin, end) = not (is_empty begin) && not (is_empty end)

unfoldable pub between : ℤ → Str × Str → Bool
unfolding parse_i64 int_leb
between target (begin, end) =
    holds (λ b. holds (λ e. int_leb b target && int_leb target e) (parse_i64 end)) (parse_i64 begin)

-- The last two forms of an item: `begin-end`, and a single number.
unfoldable pub match_span : Str → ℤ → Bool
unfolding split_once both_ends between parse_i64 int_eq
match_span item target = elim (keep_if both_ends (split_once (codes "-") item)) [
  | some span ↦ between target span
  | none ↦ holds (λ n. int_eq n target) (parse_i64 item)
]

unfoldable pub match_upper : Str → ℤ → Bool
unfolding strip_suffix_char starts_with_char match_span parse_i64 int_leb
match_upper item target =
    elim (keep_if (λ _. not (starts_with_char (λ c. c == b'-') item))
      (strip_suffix_char b'-' item)) [
        | some value ↦ holds (λ maximum. int_leb target maximum) (parse_i64 value)
        | none ↦ match_span item target
      ]

unfoldable pub match_range_item : Str → ℤ → Bool
unfolding strip_suffix_char match_upper parse_i64 int_leb
match_range_item item target = elim (strip_suffix_char b'+' item) [
  | some value ↦ holds (λ minimum. int_leb minimum target) (parse_i64 value)
  | none ↦ match_upper item target
]

-- An item with its sign: `!2` excludes.
pub record Item : Type 0 where
  pub negated : Bool
  pub text : Str

unfoldable pub read_item : Str → Item
read_item [] = record { negated = false; text = [] }
read_item (c ∷ s) =
    if c == b'!'
    then record { negated = true; text = s }
    else record { negated = false; text = c ∷ s }

-- The loop, with `has_positive` and `matched_positive`; a negated item that matches returns at once.
unfoldable pub scan_items : ℤ → List Item → Bool → Bool → Bool
scan_items target [] has_positive matched_positive = not has_positive || matched_positive
scan_items target (i ∷ rest) has_positive matched_positive =
    let matched = match_range_item i.text target in
    let later =
      scan_items target rest (has_positive || not i.negated)
        (matched_positive || (not i.negated && matched)) in
    if i.negated && matched then false else later

unfoldable pub range_items : Str → List Item
unfolding split trim read_item
range_items expression = map (λ item. read_item (trim item)) (split (λ c. c == b',') expression)

unfoldable pub match_range : Str → ℤ → Bool
unfolding scan_items range_items match_range_item
match_range expression target = scan_items target (range_items expression) false false

-- What an expression means, with no order: an excluding item that fits, an including item, and one that fits.
abbrev pub excludes : ℤ → Item → Bool
excludes target i = i.negated && match_range_item i.text target

abbrev pub is_positive : Item → Bool
is_positive i = not i.negated

abbrev pub includes : ℤ → Item → Bool
includes target i = not i.negated && match_range_item i.text target

scan_items_lem :
    (target : ℤ) (items : List Item) (has_positive matched_positive : Bool)
    → scan_items target items has_positive matched_positive ≡ (
        not (any (excludes target) items)
        && (not (has_positive || any is_positive items)
            || (matched_positive || any (includes target) items)))
unfolding scan_items
scan_items_lem target [] h m = ground arith
scan_items_lem target (i ∷ rest) h m = ground (
  arith,
  scan_items_lem target rest (h || not i.negated)
      (m || (not i.negated && match_range_item i.text target)),
)

-- A target is in the range exactly if no excluding item fits it, and some including item does where
-- there is an including item at all. The order of the items does not matter.
pub match_range-meaning :
    (expression : Str) (target : ℤ)
    → match_range expression target ≡ (
        not (any (excludes target) (range_items expression))
        && (not (any is_positive (range_items expression))
            || any (includes target) (range_items expression)))
unfolding match_range
match_range-meaning expression target = scan_items_lem target (range_items expression) false false

ranges_and_negation :
    (match_range (codes "1-3,!2") (pos 3) ≡ true)
    × (match_range (codes "1-3,!2") (pos 2) ≡ false)
    × (match_range (codes "!1, !2") (pos 3) ≡ true)
    × (match_range (codes "-7") (negsuc 6) ≡ true)
unfolding match_range
ranges_and_negation = (refl, refl, refl, refl)
