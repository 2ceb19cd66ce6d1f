-- ===== src/Mrs/Coverage.antt =====
-- Merging keeps the addresses that are covered, and leaves a gap between any two ranges.
use easysub.Prelude.{
  ℕ, ◌+◌, ◌≤◌, ◌<◌, ◌≡◌, refl, sym, ◌∙◌, true, false, ◌||◌, List, [], ◌∷◌, arith, inl, inr, All,
  Bool-cases,
}
use easysub.Mrs.Ranges.{
  Range, range_leb, insert_range, sort_ranges, touches, extend, merge_from, merge_from-joins,
  merge_from-apart, merge_sorted, merge_ranges, holds, covers,
}

-- The starts do not fall.
abbrev pub IsAscending : List Range → Type 0
IsAscending [] = Unit
IsAscending (a ∷ []) = Unit
IsAscending (a ∷ b ∷ l) = (a.start ≤ b.start) × IsAscending (b ∷ l)

-- At least one address lies between two neighbours.
abbrev pub IsSeparated : List Range → Type 0
IsSeparated [] = Unit
IsSeparated (a ∷ []) = Unit
IsSeparated (a ∷ b ∷ l) = (a.end + 1 < b.start) × IsSeparated (b ∷ l)

-- Both ends are addresses.
abbrev pub IsWithin : ℕ → Range → Type 0
IsWithin most r = (r.start ≤ most) × (r.end ≤ most)

insert_range-covers :
    (r : Range) (l : List Range) (x : ℕ) → covers (insert_range r l) x ≡ (holds x r || covers l x)
unfolding insert_range covers
insert_range-covers r [] x = refl
insert_range-covers r (a ∷ l) x = elim (Bool-cases (range_leb r a)) [
  | inl before ↦ rw before
  | inr after ↦ rw (after, insert_range-covers r l x) (ground arith)
]

covers-cons : (r : Range) (l : List Range) (x : ℕ) → covers (r ∷ l) x ≡ (holds x r || covers l x)
unfolding covers
covers-cons r l x = refl

sort_ranges-covers : (l : List Range) (x : ℕ) → covers (sort_ranges l) x ≡ covers l x
unfolding sort_ranges
sort_ranges-covers [] x = refl
sort_ranges-covers (r ∷ l) x =
    rw (insert_range-covers r (sort_ranges l) x, sort_ranges-covers l x, covers-cons r l x)

insert_range-IsAscending :
    (r : Range) (l : List Range) → IsAscending l → IsAscending (insert_range r l)
unfolding insert_range
insert_range-IsAscending r [] h = tt
insert_range-IsAscending r (a ∷ []) h = ground arith
insert_range-IsAscending r (a ∷ b ∷ l) h = ground (arith, insert_range-IsAscending r (b ∷ l))

sort_ranges-IsAscending : (l : List Range) → IsAscending (sort_ranges l)
unfolding sort_ranges
sort_ranges-IsAscending [] = tt
sort_ranges-IsAscending (r ∷ l) =
    insert_range-IsAscending r (sort_ranges l) (sort_ranges-IsAscending l)

holds-extend :
    (most x : ℕ) (last r : Range)
    → last.start ≤ r.start
    → touches most last r ≡ true
    → holds x (extend last r) ≡ (holds x last || holds x r)
unfolding touches
holds-extend most x last r h t = ground arith

IsAscending-extend :
    (last r : Range) (l : List Range) → IsAscending (last ∷ r ∷ l) → IsAscending (extend last r ∷ l)
IsAscending-extend last r [] h = tt
IsAscending-extend last r (a ∷ l) h = (omega (arith, h), h.1.1)

merge_from-covers :
    (most : ℕ) (last : Range) (l : List Range) (x : ℕ)
    → IsAscending (last ∷ l)
    → covers (merge_from most last l) x ≡ (holds x last || covers l x)
unfolding merge_from
merge_from-covers most last [] x h = covers-cons last [] x
merge_from-covers most last (r ∷ l) x h = elim (Bool-cases (touches most last r)) [
  | inl joins ↦
      rw
        (
          merge_from-joins most last r l joins,
          merge_from-covers most (extend last r) l x (IsAscending-extend last r l h),
          covers-cons r l x,
        )
        (ground (arith, holds-extend most x last r h.0 joins))
  | inr apart ↦ rw (
    merge_from-apart most last r l apart,
    covers-cons last (merge_from most r l) x,
    merge_from-covers most r l x h.1,
    covers-cons r l x,
  )
]

-- Merging neither adds nor loses an address: one is covered by the merged ranges exactly if it is
-- covered by the ranges that came in, whatever these are.
pub merge_ranges-covers :
    (most : ℕ) (ranges : List Range) (x : ℕ) → covers (merge_ranges most ranges) x ≡ covers ranges x
unfolding merge_ranges merge_sorted
merge_ranges-covers most ranges x =
    merge_sorted-covers (sort_ranges ranges) (sort_ranges-IsAscending ranges)
    ∙ sort_ranges-covers ranges x
  where
    merge_sorted-covers :
        (l : List Range) → IsAscending l → covers (merge_sorted most l) x ≡ covers l x
    merge_sorted-covers [] h = refl
    merge_sorted-covers (r ∷ l) h = merge_from-covers most r l x h ∙ sym (covers-cons r l x)

-- Ranges that do not touch have an address between them.
gap :
    (most : ℕ) (last r : Range)
    → IsWithin most r
    → touches most last r ≡ false
    → last.end + 1 < r.start
unfolding touches
gap most last r w t = ground arith

merge_from-gap :
    (most : ℕ) (before last : Range) (l : List Range)
    → before.end + 1 < last.start
    → All (IsWithin most) l
    → IsSeparated (before ∷ merge_from most last l)
unfolding merge_from
merge_from-gap most before last [] h w = (h, tt)
merge_from-gap most before last (r ∷ l) h w = elim (Bool-cases (touches most last r)) [
  | inl joins ↦
      rw (merge_from-joins most last r l joins) (merge_from-gap most before (extend last r) l h w.1)
  | inr apart ↦
      rw (merge_from-apart most last r l apart)
        (h, merge_from-gap most last r l (gap most last r w.0 apart) w.1)
]

merge_from-IsSeparated :
    (most : ℕ) (last : Range) (l : List Range)
    → All (IsWithin most) l
    → IsSeparated (merge_from most last l)
unfolding merge_from
merge_from-IsSeparated most last [] w = tt
merge_from-IsSeparated most last (r ∷ l) w = elim (Bool-cases (touches most last r)) [
  | inl joins ↦
      rw (merge_from-joins most last r l joins) (merge_from-IsSeparated most (extend last r) l w.1)
  | inr apart ↦
      rw (merge_from-apart most last r l apart)
        (merge_from-gap most last r l (gap most last r w.0 apart) w.1)
]

insert_range-All :
    (most : ℕ) (r : Range) (l : List Range)
    → IsWithin most r
    → All (IsWithin most) l
    → All (IsWithin most) (insert_range r l)
unfolding insert_range
insert_range-All most r [] h w = (h, tt)
insert_range-All most r (a ∷ l) h w = elim (Bool-cases (range_leb r a)) [
  | inl before ↦ rw before (h, w)
  | inr after ↦ rw after (w.0, insert_range-All most r l h w.1)
]

sort_ranges-All :
    (most : ℕ) (l : List Range) → All (IsWithin most) l → All (IsWithin most) (sort_ranges l)
unfolding sort_ranges
sort_ranges-All most [] w = tt
sort_ranges-All most (r ∷ l) w =
    insert_range-All most r (sort_ranges l) w.0 (sort_ranges-All most l w.1)

-- If the ends of all ranges are addresses of the type, then the merged ranges are in ascending order
-- and at least one address lies between any two neighbours: no two of them could be merged further,
-- also where a range ends at the largest address, which has no successor.
pub merge_ranges-IsSeparated :
    (most : ℕ) (ranges : List Range)
    → All (IsWithin most) ranges
    → IsSeparated (merge_ranges most ranges)
unfolding merge_ranges merge_sorted
merge_ranges-IsSeparated most ranges w = go (sort_ranges ranges) (sort_ranges-All most ranges w)
  where
    go : (l : List Range) → All (IsWithin most) l → IsSeparated (merge_sorted most l)
    go [] h = tt
    go (r ∷ l) h = merge_from-IsSeparated most r l h.1
