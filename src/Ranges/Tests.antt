-- ===== src/Ranges/Tests.antt =====
-- Runs on small collections of ranges: tests, and instances of the theorems.
use linux_defragger.Prelude.{ℕ, ◌≡◌, refl, ◌&&◌, List, [], ◌∷◌, ltb, ok, err, arith}
use mathlib.Core.Bool.{not}
use linux_defragger.Prelude.Int.{pos, negsuc}
use linux_defragger.Ranges.{Span, Range, merge_ranges, complement_ranges, negative_count}
use linux_defragger.Ranges.Cover.{
  covers, in_spans, IsSeparated, covers-merge_ranges, merge_ranges-IsSeparated,
}
use linux_defragger.Ranges.Canonical.{merge_ranges-canonical}
use linux_defragger.Ranges.Complement.{complement_ranges-covers}

-- (5, 9), an empty range, one with a negative start, (0, 3) and (3, 4).
abbrev spans : List Span
spans = (pos 5, pos 9) ∷ (pos 7, pos 7) ∷ (negsuc 0, pos 20) ∷ (pos 0, pos 3) ∷ (pos 3, pos 4) ∷ []

merges : merge_ranges spans ≡ (0, 4) ∷ (5, 9) ∷ []
unfolding merge_ranges
merges = refl

complements : complement_ranges (pos 12) spans ≡ ok ((4, 5) ∷ (9, 12) ∷ [])
unfolding complement_ranges
complements = refl

rejects_negative : complement_ranges (negsuc 0) spans ≡ err negative_count
unfolding complement_ranges
rejects_negative = refl

covers-merge_ranges_example : covers (merge_ranges spans) 3 ≡ in_spans 3 spans
covers-merge_ranges_example = covers-merge_ranges spans 3

merge_ranges-IsSeparated_example : IsSeparated 0 (merge_ranges spans)
merge_ranges-IsSeparated_example = merge_ranges-IsSeparated spans

merge_ranges-canonical_example :
    merge_ranges ((pos 0, pos 3) ∷ (negsuc 4, pos 2) ∷ []) ≡ merge_ranges ((pos 0, pos 3) ∷ [])
merge_ranges-canonical_example =
    merge_ranges-canonical ((pos 0, pos 3) ∷ (negsuc 4, pos 2) ∷ []) ((pos 0, pos 3) ∷ [])
      (λ u. ground arith)

complement_ranges-covers_example :
    (gaps : List Range) × (complement_ranges (pos 12) spans ≡ ok gaps)
    × IsSeparated 0 gaps
    × ((u : ℕ) → covers gaps u ≡ (ltb u 12 && not (in_spans u spans)))
complement_ranges-covers_example = complement_ranges-covers 12 spans
