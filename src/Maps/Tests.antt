-- ===== src/Maps/Tests.antt =====
-- Allocation maps: tests, and instances of the theorems.
use linux_defragger.Prelude.{◌≡◌, refl, List, [], ◌∷◌, arith, map, ok, err, OnOk}
use linux_defragger.Prelude.Int.{ℤ, pos, negsuc}
use linux_defragger.Ranges.Cover.{in_spans}
use linux_defragger.Ranges.{Span}
use linux_defragger.Ntfs.Bitmap.{bit}
use linux_defragger.Maps.{Cell, MapResult}
use linux_defragger.Maps.Tally.{tally}
use linux_defragger.Maps.Cells.{IsMap}
use linux_defragger.Maps.Sums.{Balances, aggregations-Balance}
use linux_defragger.Maps.States.{aggregate_states, state_of, aggregate_states-IsMap}
use linux_defragger.Maps.StateRanges.{StateSpan, overlapping, aggregate_ranges}
use linux_defragger.Maps.StateRanges.Outcome.{Mapped, aggregate_ranges-Mapped}
use linux_defragger.Maps.Bitmaps.{count_set_bits, aggregate_bitmap, past_the_end}
use linux_defragger.Maps.Bitmaps.Counted.{count_set_bits-tally}
use linux_defragger.Maps.Bitmaps.Aggregated.{BitmapMapped, aggregate_bitmap-BitmapMapped}
use linux_defragger.Maps.Overlay.{fragmented, overlay_ranges}
use linux_defragger.Maps.Overlay.Overlaid.{overlaid, overlay_ranges-map}

-- Free, used, used, bad, and a state that is none.
abbrev five_states : List ℤ
five_states = pos 0 ∷ pos 1 ∷ pos 1 ∷ pos 3 ∷ pos 7 ∷ []

abbrev five_map : MapResult
five_map = aggregate_states five_states 6 2 512

free_of_five : five_map.free_bytes ≡ 512
unfolding aggregate_states
free_of_five = refl

-- Units 4 to 8 are used, and the first two are free.
abbrev three_ranges : List StateSpan
three_ranges = (pos 6, pos 8, pos 1) ∷ (negsuc 3, pos 2, pos 0) ∷ (pos 4, pos 6, pos 1) ∷ []

ranges_overlap :
    aggregate_ranges 10 3 1 ((pos 1, pos 3, pos 1) ∷ (pos 2, pos 4, pos 0) ∷ []) ≡ err overlapping
unfolding aggregate_ranges
ranges_overlap = refl

abbrev two_cells : List Cell
two_cells =
    record {
      start = 0;
      last = 3;
      free = 1;
      used = 3;
      unknown = 0;
      bad = 0;
      fragmented = 0;
      directory = 0;
    }
    ∷ record {
      start = 4;
      last = 7;
      free = 3;
      used = 1;
      unknown = 0;
      bad = 0;
      fragmented = 0;
      directory = 0;
    }
    ∷ []

-- A device of no units reads past the end of its bitmap.
no_units_raise : aggregate_bitmap [] 0 1 512 0 ≡ err past_the_end
unfolding aggregate_bitmap
no_units_raise = refl

aggregate_states-IsMap_example :
    IsMap (state_of five_states) 512 6 (aggregate_states five_states 6 2 512)
aggregate_states-IsMap_example = aggregate_states-IsMap five_states 6 2 512

aggregate_ranges-Mapped_example : Mapped 10 1 three_ranges (aggregate_ranges 10 3 1 three_ranges)
aggregate_ranges-Mapped_example = aggregate_ranges-Mapped 10 3 1 three_ranges

count_set_bits-tally_example :
    count_set_bits (0xF0 ∷ 0x0F ∷ 0xFF ∷ []) 3 22 ≡ ok (tally (bit (0xF0 ∷ 0x0F ∷ 0xFF ∷ [])) 3 19)
count_set_bits-tally_example =
    count_set_bits-tally (0xF0 ∷ 0x0F ∷ 0xFF ∷ []) 3 22
      (omega arith, (omega arith, (omega arith, tt))) (omega arith)

aggregate_bitmap-BitmapMapped_example :
    BitmapMapped (0x2D ∷ 1 ∷ []) 12 4096 2 (aggregate_bitmap (0x2D ∷ 1 ∷ []) 12 3 4096 2)
aggregate_bitmap-BitmapMapped_example =
    aggregate_bitmap-BitmapMapped (0x2D ∷ 1 ∷ []) 12 3 4096 2 (omega arith, (omega arith, tt))

abbrev spans : List Span
spans = (pos 2, pos 6) ∷ (pos 1, pos 3) ∷ []

overlay_ranges-map_example : overlay_ranges fragmented two_cells spans ≡ (
  map (overlaid fragmented (λ u. in_spans u spans)) two_cells,
  tally (λ u. in_spans u spans) 0 6,
)
overlay_ranges-map_example =
    overlay_ranges-map fragmented two_cells spans 6
      (omega arith, omega arith, (omega arith, omega arith, tt)) (λ u h. ground (arith, h))

aggregations-Balance_example :
    Balances 512 6 five_map
    × OnOk (Balances 512 6) (aggregate_ranges 6 2 512 three_ranges)
    × OnOk (Balances 512 6) (aggregate_bitmap (0x2D ∷ []) 6 2 512 1)
aggregations-Balance_example =
    aggregations-Balance 6 2 512 1 five_states three_ranges (0x2D ∷ []) (omega arith, tt)
