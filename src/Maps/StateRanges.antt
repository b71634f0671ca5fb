-- ===== src/Maps/StateRanges.antt =====
-- `_normalise_state_ranges` and `aggregate_ranges`: ranges of units that have a state.
pub mod Normal
pub mod Counting
pub mod Outcome
use linux_defragger.Prelude.{
  ℕ, zero, suc, ◌+◌, ◌-◌, min, max, Bool, true, false, ◌&&◌, Option, some, none, List, [], ◌∷◌,
  ◌==◌, leb, ltb, if◌then◌else◌, Result, ok, err, ◌>>=◌,
}
use linux_defragger.Prelude.Int.{ℤ, pos, negsuc, pos_part, ltb_ℤ, leb_ℤ}
use linux_defragger.Maps.{
  Counts, no_counts, count_in, clamped_cells, cell_bounds, fill_cells, new_map_result, MapResult,
}

-- `tuple[int, int, int]`: start, end and state, as they are passed in.
abbrev pub StateSpan : Type 0
StateSpan = ℤ × ℤ × ℤ

-- The same within the device, with a state from 0 to 3.
abbrev pub StateRange : Type 0
StateRange = ℕ × ℕ × ℕ

-- `BackendError`
pub data StateError : Type 0 where
  invalid_state overlapping : StateError

-- The order of `(item[0], item[1], item[2])`.
unfoldable pub state_span_le : StateSpan → StateSpan → Bool
state_span_le (a, b, j) (c, d, k) =
    if ltb_ℤ a c
    then true
    else if ltb_ℤ c a
    then false
    else if ltb_ℤ b d
    then true
    else if ltb_ℤ d b
    then false
    else leb_ℤ j k

unfoldable pub insert_state_span : StateSpan → List StateSpan → List StateSpan
insert_state_span r [] = r ∷ []
insert_state_span r (s ∷ ss) = if state_span_le r s then r ∷ s ∷ ss else s ∷ insert_state_span r ss

unfoldable pub sort_state_spans : List StateSpan → List StateSpan
unfolding state_span_le insert_state_span
sort_state_spans [] = []
sort_state_spans (r ∷ rs) = insert_state_span r (sort_state_spans rs)

-- `max(0, min(total_units, int(value)))`
abbrev pub clip : ℕ → ℤ → ℕ
clip total value = min total (pos_part value)

-- `state in (0, 1, 2, 3)`
abbrev pub state_number : ℤ → Option ℕ
state_number (pos n) = if leb n 3 then some n else none
state_number (negsuc n) = none

-- The loop with `normalised[-1]` held aside as `(s, e, k)`.
unfoldable pub normalise_onto : ℕ → ℕ → ℕ → ℕ → List StateSpan → Result StateError (List StateRange)
normalise_onto total s e k [] = ok ((s, e, k) ∷ [])
normalise_onto total s e k ((a, b, state) ∷ rs) =
    let start = clip total a in
    let end' = clip total b in
    let skipped = normalise_onto total s e k rs in
    let joined = normalise_onto total s end' k rs in
    let appended = λ (n : ℕ). normalise_onto total start end' n rs in
    if leb end' start then skipped else elim (state_number state) [
      | none ↦ err invalid_state
      | some n ↦
          if ltb start e
          then err overlapping
          else if start == e && n == k
          then joined
          else do rest ← appended n; ok ((s, e, k) ∷ rest)
    ]

-- The loop while `normalised` is empty.
unfoldable pub normalise_sorted : ℕ → List StateSpan → Result StateError (List StateRange)
unfolding normalise_onto
normalise_sorted total [] = ok []
normalise_sorted total ((a, b, state) ∷ rs) =
    let skipped = normalise_sorted total rs in
    if leb (clip total b) (clip total a) then skipped else elim (state_number state) [
      | none ↦ err invalid_state
      | some n ↦ normalise_onto total (clip total a) (clip total b) n rs
    ]

unfoldable pub normalise_state_ranges : List StateSpan → ℕ → Result StateError (List StateRange)
unfolding sort_state_spans normalise_sorted
normalise_state_ranges ranges total = normalise_sorted total (sort_state_spans ranges)

-- `while ... ordered[range_index][1] <= start`
unfoldable pub skip_before : ℕ → List StateRange → List StateRange
skip_before start [] = []
skip_before start ((s, e, k) ∷ rs) = if leb e start then skip_before start rs else (s, e, k) ∷ rs

-- `while ... ordered[check][0] < end_exclusive`: the counts and the cursor.
unfoldable pub count_ranges : ℕ → ℕ → ℕ → List StateRange → Counts → Counts × ℕ
unfolding count_in
count_ranges start end' cursor [] counts = (counts, cursor)
count_ranges start end' cursor ((s, e, k) ∷ rs) counts =
    let overlap_start = max start s in
    let overlap_end = min end' e in
    let gap =
      if ltb cursor overlap_start then count_in 2 (overlap_start - cursor) counts else counts in
    let filled =
      if ltb overlap_start overlap_end then count_in k (overlap_end - overlap_start) gap else gap in
    let cursor' = if ltb overlap_start overlap_end then max cursor overlap_end else cursor in
    let rest = count_ranges start end' cursor' rs filled in
    if ltb s end' then (if ltb end' e then (filled, cursor') else rest) else (counts, cursor)

-- The units behind the last range of a cell are unknown.
unfoldable pub count_tail : ℕ → Counts × ℕ → Counts
unfolding count_in
count_tail end' (counts, cursor) =
    if ltb cursor end' then count_in 2 (end' - cursor) counts else counts

unfoldable pub ranges_cell : ℕ → ℕ → List StateRange → Counts × List StateRange
unfolding skip_before count_ranges count_tail
ranges_cell start end' ordered =
    let rest = skip_before start ordered in
    (count_tail end' (count_ranges start end' start rest no_counts), rest)

unfoldable pub aggregate_ranges : ℕ → ℕ → ℕ → List StateSpan → Result StateError MapResult
unfolding normalise_state_ranges clamped_cells cell_bounds fill_cells new_map_result ranges_cell
aggregate_ranges total wanted unit_size ranges = do
  ordered ← normalise_state_ranges ranges total
  let filled =
      fill_cells ranges_cell ordered (cell_bounds total (clamped_cells wanted total)) no_counts
  ok (new_map_result unit_size total filled.0 filled.1)
