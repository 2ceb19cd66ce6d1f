-- ===== src/Mrs/Ranges.antt =====
-- `merge_ranges` of crates/easysub-core/src/mrs.rs, on addresses up to `most`, the largest value of
-- the address type (`u32::MAX` or `u128::MAX`).
use easysub.Prelude.{
  ℕ, ◌+◌, max, ◌≡◌, refl, Bool, true, false, ◌&&◌, ◌||◌, Option, none, some, List, [], ◌∷◌, leb,
  ltb, ◌==◌, if◌then◌else◌, any,
}

-- A pair of the vector, both ends included.
pub record Range : Type 0 where
  pub start : ℕ
  pub end : ℕ

-- The derived order on pairs.
unfoldable pub range_leb : Range → Range → Bool
range_leb a b = ltb a.start b.start || (a.start == b.start && leb a.end b.end)

-- `sort_unstable`: pairs that compare equal are equal, so every sort has this result.
unfoldable pub insert_range : Range → List Range → List Range
unfolding range_leb
insert_range r [] = r ∷ []
insert_range r (x ∷ xs) =
    let rest = insert_range r xs in if range_leb r x then r ∷ x ∷ xs else x ∷ rest

unfoldable pub sort_ranges : List Range → List Range
unfolding insert_range
sort_ranges [] = []
sort_ranges (r ∷ rs) = insert_range r (sort_ranges rs)

-- `last.1.checked_add(&T::one())`.
unfoldable pub next_address : ℕ → ℕ → Option ℕ
next_address most address = if ltb address most then some (address + 1) else none

unfoldable pub is_adjacent : ℕ → Range → Range → Bool
unfolding next_address
is_adjacent most last r = elim (next_address most last.end) [
  | none ↦ false
  | some next ↦ leb r.start next
]

unfoldable pub touches : ℕ → Range → Range → Bool
unfolding is_adjacent
touches most last r = leb r.start last.end || is_adjacent most last r

abbrev pub extend : Range → Range → Range
extend last r = record last { end = max last.end r.end }

-- The loop, with the last range of `merged` at hand: it is written out once nothing more joins it.
unfoldable pub merge_from : ℕ → Range → List Range → List Range
merge_from most last [] = last ∷ []
merge_from most last (r ∷ rs) = elim (touches most last r) [
  | true ↦ merge_from most (extend last r) rs
  | false ↦ last ∷ merge_from most r rs
]

pub merge_from-joins :
    (most : ℕ) (last r : Range) (l : List Range)
    → touches most last r ≡ true
    → merge_from most last (r ∷ l) ≡ merge_from most (extend last r) l
unfolding merge_from
merge_from-joins most last r l h = rw (h, merge_from)

pub merge_from-apart :
    (most : ℕ) (last r : Range) (l : List Range)
    → touches most last r ≡ false
    → merge_from most last (r ∷ l) ≡ last ∷ merge_from most r l
unfolding merge_from
merge_from-apart most last r l h = rw (h, merge_from)

unfoldable pub merge_sorted : ℕ → List Range → List Range
unfolding merge_from
merge_sorted most [] = []
merge_sorted most (r ∷ rs) = merge_from most r rs

unfoldable pub merge_ranges : ℕ → List Range → List Range
unfolding sort_ranges merge_sorted
merge_ranges most ranges = merge_sorted most (sort_ranges ranges)

-- An address lies in a range, and in one of many.
abbrev pub holds : ℕ → Range → Bool
holds x r = leb r.start x && leb x r.end

unfoldable pub covers : List Range → ℕ → Bool
covers rs x = any (holds x) rs

abbrev adjacent_halves : List Range
adjacent_halves = record { start = 128; end = 255 } ∷ record { start = 0; end = 127 } ∷ []

merges_halves : merge_ranges 255 adjacent_halves ≡ record { start = 0; end = 255 } ∷ []
unfolding merge_ranges touches
merges_halves = refl
