-- ===== src/Maps/Bitmaps.antt =====
-- `count_set_bits` and `aggregate_bitmap`: bit `u % 8` of byte `u / 8` tells whether unit `u` is in use.
pub mod Counted
pub mod Aggregated
use Prim.Native.Nat.{bit_and}
use linux_defragger.Prelude.{
  ℕ, ◌+◌, ◌-◌, ◌*◌, ◌/◌, ◌%◌, ◌^◌, min, max, Option, some, none, List, [], ◌∷◌, leb, ltb, ◌==◌,
  if◌then◌else◌, Result, ok, err, ◌>>=◌, ◌>>◌, raise_if, length, get_elem?, take, drop,
}
use linux_defragger.Bytes.{from_bytes}
use linux_defragger.Bytes.BitCount.{bit_count}
use linux_defragger.Maps.{
  Cell, Counts, no_counts, add_counts, cell_of, clamped_cells, cell_bounds, new_map_result,
  MapResult,
}

-- `BackendError("allocation bitmap is shorter ...")`, and the IndexError of a byte past the end.
pub data BitmapError : Type 0 where
  short_bitmap past_the_end : BitmapError

-- `bitmap[index]`
unfoldable pub byte_at : List ℕ → ℕ → Result BitmapError ℕ
byte_at bitmap index = elim (get_elem? bitmap index) [ none ↦ err past_the_end | some b ↦ ok b ]

-- `(bitmap[index] & mask).bit_count()`
unfoldable pub masked_count : List ℕ → ℕ → ℕ → Result BitmapError ℕ
unfolding byte_at bit_count
masked_count bitmap index mask = do b ← byte_at bitmap index; ok (bit_count (bit_and b mask))

-- `if start_bit & 7: ...`
unfoldable pub head_count : List ℕ → ℕ → Result BitmapError ℕ
unfolding masked_count
head_count bitmap start =
    if start % 8 == 0 then ok 0 else masked_count bitmap (start / 8) (0xFF * 2 ^ (start % 8))

-- `if full_end > first_byte: ...`
unfoldable pub middle_count : List ℕ → ℕ → ℕ → ℕ
unfolding from_bytes bit_count
middle_count bitmap first_byte full_end =
    if ltb first_byte full_end
    then bit_count (from_bytes (take (full_end - first_byte) (drop first_byte bitmap)))
    else 0

-- `if end_bit & 7: ...`
unfoldable pub tail_count : List ℕ → ℕ → Result BitmapError ℕ
unfolding masked_count
tail_count bitmap end' =
    if end' % 8 == 0 then ok 0 else masked_count bitmap ((end' - 1) / 8) (2 ^ (end' % 8) - 1)

unfoldable pub count_set_bits : List ℕ → ℕ → ℕ → Result BitmapError ℕ
unfolding masked_count head_count middle_count tail_count
count_set_bits bitmap start end' =
    let first_byte = start / 8 in
    let last_byte = (end' - 1) / 8 in
    let next_byte = if start % 8 == 0 then first_byte else first_byte + 1 in
    let across : Result BitmapError ℕ = do
      head ← head_count bitmap start
      tail ← tail_count bitmap end'
      ok (head + middle_count bitmap next_byte (end' / 8) + tail)
    in if leb end' start
      then ok 0
      else if first_byte == last_byte
      then masked_count bitmap first_byte ((2 ^ (end' - start) - 1) * 2 ^ (start % 8))
      else across

-- The counts of a cell.
unfoldable pub bitmap_counts : List ℕ → ℕ → ℕ → ℕ → Result BitmapError Counts
unfolding count_set_bits
bitmap_counts bitmap reserved start end' = do
  let data_start = max start reserved
  let data_count = end' - data_start
  used ←
      if data_count == 0
      then ok 0
      else count_set_bits bitmap (data_start - reserved) (end' - reserved)
  ok (record {
    free = data_count - used;
    used = used;
    unknown = min end' reserved - start;
    bad = 0;
  })

-- The loop over the cells.
unfoldable pub bitmap_cells :
    List ℕ → ℕ → List (ℕ × ℕ) → Counts → Result BitmapError (List Cell × Counts)
unfolding bitmap_counts cell_of add_counts
bitmap_cells bitmap reserved [] totals = ok ([], totals)
bitmap_cells bitmap reserved ((start, end') ∷ bounds) totals = do
  c ← bitmap_counts bitmap reserved start end'
  rest ← bitmap_cells bitmap reserved bounds (add_counts totals c)
  ok (cell_of start end' c ∷ rest.0, rest.1)

unfoldable pub aggregate_bitmap : List ℕ → ℕ → ℕ → ℕ → ℕ → Result BitmapError MapResult
unfolding clamped_cells cell_bounds bitmap_cells new_map_result
aggregate_bitmap bitmap total wanted unit_size reserved = do
  raise_if (ltb (length bitmap * 8) (total - reserved)) short_bitmap
  filled ← bitmap_cells bitmap reserved (cell_bounds total (clamped_cells wanted total)) no_counts
  ok (new_map_result unit_size total filled.0 filled.1)
