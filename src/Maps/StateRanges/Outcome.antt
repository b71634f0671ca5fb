-- ===== src/Maps/StateRanges/Outcome.antt =====
-- `_normalise_state_ranges` and `aggregate_ranges` on ranges in any order.
use std.Path.{fun_ext}
use linux_defragger.Prelude.{
  ℕ, ◌+◌, ◌≤◌, ◌≡◌, refl, ap, ◌∙◌, inl, inr, ◌&&◌, some, none, List, [], ◌∷◌, leb, ltb,
  if◌then◌else◌, arith, Bool-cases, Result, ok, err, ◌>>=◌,
}
use linux_defragger.Prelude.Int.{ℤ}
use linux_defragger.Maps.{
  Cell, Counts, MapResult, no_counts, clamped_cells, cell_bounds, fill_cells, new_map_result,
}
use linux_defragger.Maps.Cells.{IsMap}
use linux_defragger.Maps.StateRanges.{
  StateSpan, StateRange, StateError, invalid_state, overlapping, state_span_le, insert_state_span,
  sort_state_spans, clip, state_number, normalise_sorted, normalise_state_ranges, ranges_cell,
  aggregate_ranges,
}
use linux_defragger.Maps.StateRanges.Counting.{range_state, ordered-IsMap}
use linux_defragger.Maps.StateRanges.Normal.{
  inside, uses, HasInvalid, AllGive, Judged, normalise_sort-Judged,
}

uses-insert :
    (total u : ℕ) (a b state : ℤ) (rs : List StateSpan)
    → uses total u (insert_state_span (a, b, state) rs)
      ≡ inside (clip total a) (clip total b) u + uses total u rs
unfolding insert_state_span
uses-insert total u a b state [] = refl
uses-insert total u a b state ((c, d, k) ∷ rs) =
    elim (Bool-cases (state_span_le (a, b, state) (c, d, k))) [
      | inl e ↦ rw e refl
      | inr e ↦ rw (e, uses-insert total u a b state rs) (omega arith)
    ]

uses-sort :
    (total u : ℕ) (rs : List StateSpan) → uses total u (sort_state_spans rs) ≡ uses total u rs
unfolding sort_state_spans
uses-sort total u [] = refl
uses-sort total u ((a, b, state) ∷ rs) =
    uses-insert total u a b state (sort_state_spans rs)
    ∙ ap (λ n. inside (clip total a) (clip total b) u + n) (uses-sort total u rs)

AllGive-insert :
    (total u v : ℕ) (a b state : ℤ) (rs : List StateSpan)
    → AllGive total u v (insert_state_span (a, b, state) rs)
    → AllGive total u v ((a, b, state) ∷ rs)
unfolding insert_state_span
AllGive-insert total u v a b state [] h = h
AllGive-insert total u v a b state ((c, d, k) ∷ rs) h =
    elim (Bool-cases (state_span_le (a, b, state) (c, d, k))) [
      | inl e ↦ rw e at h
      | inr e ↦
          let (x, y) : AllGive total u v ((c, d, k) ∷ insert_state_span (a, b, state) rs) =
            rw e at h in
          let (z, w) = AllGive-insert total u v a b state rs y in (z, (x, w))
    ]

AllGive-sort :
    (total u v : ℕ) (rs : List StateSpan)
    → AllGive total u v (sort_state_spans rs)
    → AllGive total u v rs
unfolding sort_state_spans
AllGive-sort total u v [] h = h
AllGive-sort total u v ((a, b, state) ∷ rs) h =
    let (x, y) = AllGive-insert total u v a b state (sort_state_spans rs) h in
    (x, AllGive-sort total u v rs y)

HasInvalid-insert :
    (total : ℕ) (a b state : ℤ) (rs : List StateSpan)
    → HasInvalid total (insert_state_span (a, b, state) rs)
    → HasInvalid total ((a, b, state) ∷ rs)
unfolding insert_state_span
HasInvalid-insert total a b state [] h = h
HasInvalid-insert total a b state ((c, d, k) ∷ rs) h =
    elim (Bool-cases (state_span_le (a, b, state) (c, d, k))) [
      | inl e ↦ rw e at h
      | inr e ↦
          let h' : HasInvalid total ((c, d, k) ∷ insert_state_span (a, b, state) rs) = rw e at h in
          elim h' [
            | inl x ↦ inr (inl x)
            | inr y ↦ elim (HasInvalid-insert total a b state rs y) [
              | inl x ↦ inl x
              | inr z ↦ inr (inr z)
            ]
          ]
    ]

HasInvalid-sort :
    (total : ℕ) (rs : List StateSpan) → HasInvalid total (sort_state_spans rs) → HasInvalid total rs
unfolding sort_state_spans
HasInvalid-sort total [] h = h
HasInvalid-sort total ((a, b, state) ∷ rs) h =
    elim (HasInvalid-insert total a b state (sort_state_spans rs) h) [
      | inl x ↦ inl x
      | inr y ↦ inr (HasInvalid-sort total rs y)
    ]

pub normalise_state_ranges-Judged :
    (ranges : List StateSpan) (total : ℕ)
    → Judged total ranges (normalise_state_ranges ranges total)
unfolding normalise_state_ranges
normalise_state_ranges-Judged ranges total =
    unsorted (normalise_sorted total (sort_state_spans ranges)) (normalise_sort-Judged total ranges)
  where
    unsorted :
        (r : Result StateError (List StateRange))
        → Judged total (sort_state_spans ranges) r
        → Judged total ranges r
    unsorted (ok ordered) (o, h) = (
      o,
      λ u. (
        AllGive-sort total u (range_state ordered u) ranges (h u).0,
        λ t. (h u).1 (uses-sort total u ranges ∙ t),
      ),
    )
    unsorted (err invalid_state) h = HasInvalid-sort total ranges h
    unsorted (err overlapping) (u, h) = (u, rw (uses-sort total u ranges) at h)

-- The state that the ranges passed in give a unit: the first range with the unit, else unknown.
abbrev pub state_in : ℕ → List StateSpan → ℕ → ℕ
state_in total [] u = 2
state_in total ((a, b, state) ∷ rs) u =
    if leb (clip total a) u && ltb u (clip total b)
    then elim (state_number state) [ none ↦ 2 | some n ↦ n ]
    else state_in total rs u

state_in_unique :
    (total u v : ℕ) (rs : List StateSpan)
    → AllGive total u v rs
    → (uses total u rs ≡ 0 → v ≡ 2)
    → v ≡ state_in total rs u
state_in_unique total u v [] h k = k refl
state_in_unique total u v ((a, b, state) ∷ rs) (x, y) k =
    elim (Bool-cases (leb (clip total a) u && ltb u (clip total b))) [
      | inl e ↦ let gives : state_number state ≡ some v = x (rw e refl) in rw (e, gives) refl
      | inr e ↦ rw e (state_in_unique total u v rs y (λ t. k (rw (e, t) refl)))
    ]

-- What `aggregate_ranges` comes to.
abbrev pub Mapped : ℕ → ℕ → List StateSpan → Result StateError MapResult → Type 0
Mapped total unit_size ranges (ok m) = IsMap (state_in total ranges) unit_size total m
Mapped total unit_size ranges (err invalid_state) = HasInvalid total ranges
Mapped total unit_size ranges (err overlapping) = (u : ℕ) × (2 ≤ uses total u ranges)

-- The loop over the cells, for ranges in order.
abbrev filled : ℕ → ℕ → List StateRange → List Cell × Counts
filled total wanted ordered =
    fill_cells ranges_cell ordered (cell_bounds total (clamped_cells wanted total)) no_counts

-- For ranges in any order, aggregate_ranges returns a map (IsMap: cells that cover the units in
-- order, each with the number of its units that are free, used, unknown and bad, and the bytes of
-- the whole device) in which a unit has the state of the first range with it and is unknown in none;
-- or it raises for an invalid state, and a range with a unit of the device has such a state; or it
-- raises for an overlap, and a unit lies in two ranges.
pub aggregate_ranges-Mapped :
    (total wanted unit_size : ℕ) (ranges : List StateSpan)
    → Mapped total unit_size ranges (aggregate_ranges total wanted unit_size ranges)
unfolding aggregate_ranges
aggregate_ranges-Mapped total wanted unit_size ranges =
    mapped (normalise_state_ranges ranges total) (normalise_state_ranges-Judged ranges total)
  where
    mapped :
        (r : Result StateError (List StateRange))
        → Judged total ranges r
        → Mapped total unit_size ranges (
            r >>= λ ordered. ok (
              new_map_result unit_size total
                (filled total wanted ordered).0
                (filled total wanted ordered).1))
    mapped (ok ordered) (o, h) =
        let same : range_state ordered ≡ state_in total ranges =
          fun_ext (λ u. state_in_unique total u (range_state ordered u) ranges (h u).0 (h u).1) in
        rw same at (ordered-IsMap ordered total wanted unit_size o)
    mapped (err invalid_state) h = h
    mapped (err overlapping) h = h
