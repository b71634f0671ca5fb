-- ===== src/Ranges.antt =====
-- Half-open ranges of allocation units (gui/backends/ranges.py), their order and the merging and
-- complementing loops. The bounds of a range that is passed in are any Python integers; the ranges
-- that come out have non-negative bounds.
pub mod Cover
pub mod Canonical
pub mod Complement
mod Tests
use linux_defragger.Prelude.{
  ℕ, min, max, Bool, true, false, List, [], ◌∷◌, ltb, leb, if◌then◌else◌, Result, ok, err,
}
use linux_defragger.Prelude.Int.{ℤ, pos, negsuc, ltb_ℤ}

-- `tuple[int, int]` as it is passed in.
abbrev pub Span : Type 0
Span = ℤ × ℤ

-- A range with `0 <= start`.
abbrev pub Range : Type 0
Range = ℕ × ℕ

-- Python's order of pairs: `a <= b`.
unfoldable pub span_le : Span → Span → Bool
span_le (a, b) (c, d) =
    if ltb_ℤ a c then true else if ltb_ℤ c a then false else if ltb_ℤ d b then false else true

unfoldable pub insert_span : Span → List Span → List Span
insert_span r [] = r ∷ []
insert_span r (s ∷ ss) = if span_le r s then r ∷ s ∷ ss else s ∷ insert_span r ss

-- `sorted(ranges)`
unfoldable pub sorted : List Span → List Span
unfolding span_le insert_span
sorted [] = []
sorted (r ∷ rs) = insert_span r (sorted rs)

-- The rest of the loop once `merged[-1]` is `(s, e)`; the elements before it are final.
unfoldable pub merge_onto : ℕ → ℕ → List Span → List Range
merge_onto s e [] = (s, e) ∷ []
merge_onto s e ((negsuc a, b) ∷ rs) = merge_onto s e rs
merge_onto s e ((pos a, negsuc b) ∷ rs) = merge_onto s e rs
merge_onto s e ((pos a, pos b) ∷ rs) =
    let skipped = merge_onto s e rs in
    let joined = merge_onto s (max e b) rs in
    let appended = merge_onto a b rs in
    if leb b a then skipped else if leb a e then joined else (s, e) ∷ appended

-- The loop while `merged` is empty.
unfoldable pub merge_sorted : List Span → List Range
unfolding merge_onto
merge_sorted [] = []
merge_sorted ((negsuc a, b) ∷ rs) = merge_sorted rs
merge_sorted ((pos a, negsuc b) ∷ rs) = merge_sorted rs
merge_sorted ((pos a, pos b) ∷ rs) =
    let skipped = merge_sorted rs in if leb b a then skipped else merge_onto a b rs

unfoldable pub merge_ranges : List Span → List Range
unfolding sorted merge_sorted
merge_ranges rs = merge_sorted (sorted rs)

-- `BackendError("negative allocation-unit count")`
pub data ComplementError : Type 0 where
  negative_count : ComplementError

-- The loop of `complement_ranges` at `cursor`. A `break` leaves `cursor >= total_units`, so that the
-- gap after the loop is empty.
unfoldable pub gaps_from : ℕ → ℕ → List Range → List Range
gaps_from total cursor [] = if ltb cursor total then (cursor, total) ∷ [] else []
gaps_from total cursor ((s, e) ∷ rs) =
    let start = min total s in
    let end' = min total e in
    let next = max cursor end' in
    let later = gaps_from total next rs in
    let rest = if leb total next then [] else later in
    if ltb cursor start then (cursor, start) ∷ rest else rest

unfoldable pub complement_ranges : ℤ → List Span → Result ComplementError (List Range)
unfolding merge_ranges gaps_from
complement_ranges (negsuc n) occupied = err negative_count
complement_ranges (pos total) occupied = ok (gaps_from total 0 (merge_ranges occupied))
