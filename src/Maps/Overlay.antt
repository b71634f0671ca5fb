-- ===== src/Maps/Overlay.antt =====
-- `overlay_ranges`: the units of each cell that some ranges hold, in one field of the cell.
pub mod Overlaid
use linux_defragger.Prelude.{ℕ, ◌+◌, ◌-◌, min, max, List, [], ◌∷◌, leb, ltb, if◌then◌else◌}
use linux_defragger.Ranges.{Span, Range, merge_ranges}
use linux_defragger.Maps.{Cell}

-- The fields that overlays are written to.
pub data Field : Type 0 where
  fragmented directory bad : Field

-- `cell[field] = value`
unfoldable pub set_field : Field → ℕ → Cell → Cell
set_field fragmented value c = record c { fragmented = value }
set_field directory value c = record c { directory = value }
set_field bad value c = record c { bad = value }

-- `sum(end - start for start, end in merged)`
unfoldable pub total_length : List Range → ℕ
total_length [] = 0
total_length ((s, e) ∷ rs) = (e - s) + total_length rs

-- `while ... merged[range_index][1] <= start`
unfoldable pub skip_merged : ℕ → List Range → List Range
skip_merged start [] = []
skip_merged start ((s, e) ∷ rs) = if leb e start then skip_merged start rs else (s, e) ∷ rs

-- `while ... merged[check][0] < end_exclusive`: the `overlap` it adds.
unfoldable pub overlap_from : ℕ → ℕ → List Range → ℕ
overlap_from start end' [] = 0
overlap_from start end' ((s, e) ∷ rs) =
    let rest = overlap_from start end' rs in
    if ltb s end' then (min end' e - max start s) + (if ltb end' e then 0 else rest) else 0

unfoldable pub overlay_cells : Field → List Range → List Cell → List Cell
unfolding set_field skip_merged overlap_from
overlay_cells field merged [] = []
overlay_cells field merged (c ∷ cells) =
    let left = skip_merged c.start merged in
    set_field field (min c.used (overlap_from c.start (c.last + 1) left)) c
    ∷ overlay_cells field left cells

-- The cells, and the number that the call returns.
unfoldable pub overlay_ranges : Field → List Cell → List Span → List Cell × ℕ
unfolding merge_ranges total_length overlay_cells
overlay_ranges field cells ranges =
    let merged = merge_ranges ranges in (overlay_cells field merged cells, total_length merged)
