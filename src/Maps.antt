-- ===== src/Maps.antt =====
-- Allocation maps (gui/backends/ranges.py): the units of a device, cut into cells, with the units of
-- each state counted in each cell. A count of units or of cells is a natural number here.
pub mod Tally
pub mod Cells
pub mod Grows
pub mod States
pub mod StateRanges
pub mod Bitmaps
pub mod Sums
pub mod Overlay
mod Tests
use linux_defragger.Prelude.{
  ℕ, zero, suc, ◌+◌, ◌-◌, ◌*◌, ◌/◌, min, max, List, [], ◌∷◌, ltb, leb, if◌then◌else◌, length,
}
use linux_defragger.Prelude.Int.{ℤ, pos, negsuc}

-- A cell, without its two fields that overlays fill. `last` is the source's `end`.
pub record Cell : Type 0 where
  pub start : ℕ
  pub last : ℕ
  pub free : ℕ
  pub used : ℕ
  pub unknown : ℕ
  pub bad : ℕ
  pub fragmented : ℕ
  pub directory : ℕ

-- `counts` and `totals`: free, used, unknown and bad units.
pub record Counts : Type 0 where
  pub free : ℕ
  pub used : ℕ
  pub unknown : ℕ
  pub bad : ℕ

abbrev pub no_counts : Counts
no_counts = record { free = 0; used = 0; unknown = 0; bad = 0 }

-- `counts[state] += n`
unfoldable pub count_in : ℕ → ℕ → Counts → Counts
count_in zero n c = record c { free = c.free + n }
count_in (suc zero) n c = record c { used = c.used + n }
count_in (suc (suc zero)) n c = record c { unknown = c.unknown + n }
count_in (suc (suc (suc state))) n c = record c { bad = c.bad + n }

-- `for state, count in enumerate(counts): totals[state] += count`
unfoldable pub add_counts : Counts → Counts → Counts
add_counts totals c = record {
  free = totals.free + c.free;
  used = totals.used + c.used;
  unknown = totals.unknown + c.unknown;
  bad = totals.bad + c.bad;
}

-- The cell that is appended.
unfoldable pub cell_of : ℕ → ℕ → Counts → Cell
cell_of start end' c = record {
  start = start;
  last = end' - 1;
  free = c.free;
  used = c.used;
  unknown = c.unknown;
  bad = c.bad;
  fragmented = 0;
  directory = 0;
}

-- `max(1, min(cell_count, max(1, total_units)))`
unfoldable pub clamped_cells : ℕ → ℕ → ℕ
clamped_cells cell_count total = max 1 (min cell_count (max 1 total))

-- `_cell_bounds` from `index` on.
unfoldable pub bounds_from : ℕ → ℕ → ℕ → ℕ → List (ℕ × ℕ)
bounds_from total count index zero = []
bounds_from total count index (suc left) =
    let start = index * total / count in
    let end' = suc index * total / count in
    (start, max (start + 1) end') ∷ bounds_from total count (suc index) left

unfoldable pub cell_bounds : ℕ → ℕ → List (ℕ × ℕ)
unfolding bounds_from
cell_bounds total count = bounds_from total count 0 count

-- `_new_map_result`, without the two labels and the details that it passes on.
pub record MapResult : Type 0 where
  pub unit_size : ℕ
  pub total_units : ℕ
  pub cell_count : ℕ
  pub total_bytes : ℕ
  pub free_bytes : ℕ
  pub used_bytes : ℕ
  pub unknown_bytes : ℕ
  pub cells : List Cell

unfoldable pub new_map_result : ℕ → ℕ → List Cell → Counts → MapResult
new_map_result unit_size total cells totals = record {
  unit_size = unit_size;
  total_units = total;
  cell_count = length cells;
  total_bytes = total * unit_size;
  free_bytes = totals.free * unit_size;
  used_bytes = totals.used * unit_size;
  unknown_bytes = (totals.unknown + totals.bad) * unit_size;
  cells = cells;
}

-- `for start, end_exclusive in _cell_bounds(...)`: `count` is the body up to the counts, and what it
-- carries from cell to cell.
unfoldable pub fill_cells {ℓ} :
    {S : Type ℓ} → (ℕ → ℕ → S → Counts × S) → S → List (ℕ × ℕ) → Counts → List Cell × Counts
unfolding cell_of add_counts
fill_cells count s [] totals = ([], totals)
fill_cells count s ((start, end') ∷ bounds) totals =
    let (c, s') = count start end' s in
    let (cells, all) = fill_cells count s' bounds (add_counts totals c) in
    (cell_of start end' c ∷ cells, all)
