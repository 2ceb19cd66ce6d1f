-- ===== src/Mrs/Tests.antt =====
-- The properties of crates/easysub-core/src/mrs.rs at concrete inputs.
use easysub.Prelude.{◌≡◌, List, [], ◌∷◌, arith}
use easysub.Mrs.Ranges.{Range, merge_ranges, covers}
use easysub.Mrs.Coverage.{IsSeparated, merge_ranges-covers, merge_ranges-IsSeparated}

-- Two ranges that touch, and one that ends at the largest address.
abbrev some_ranges : List Range
some_ranges =
    record { start = 250; end = 255 }
    ∷ record { start = 8; end = 9 }
    ∷ record { start = 0; end = 7 }
    ∷ []

merge_ranges-covers_example : covers (merge_ranges 255 some_ranges) 8 ≡ covers some_ranges 8
merge_ranges-covers_example = merge_ranges-covers 255 some_ranges 8

merge_ranges-IsSeparated_example : IsSeparated (merge_ranges 255 some_ranges)
merge_ranges-IsSeparated_example = merge_ranges-IsSeparated 255 some_ranges (omega arith)
