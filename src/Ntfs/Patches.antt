-- ===== src/Ntfs/Patches.antt =====
-- The bytes of the bitmap that a move touches (`_bitmap_patches_for_runs`,
-- `_current_bitmap_patches`) and the bitmap updates for lists of runs.
pub mod Touched
pub mod Written
use linux_defragger.Prelude.{
  ℕ, ◌+◌, ◌-◌, ◌/◌, max, Bool, true, false, Option, some, none, List, [], ◌∷◌, map, ltb, leb,
  if◌then◌else◌, length, ◌==◌,
}
use linux_defragger.Ranges.{Range}
use linux_defragger.Ntfs.Runlist.{Run}
use linux_defragger.Ntfs.Bitmap.{set_range, ◌>>=◌}
use linux_defragger.Ntfs.Disk.{slice}

-- `ranges`: the bytes from the first to the last cluster of each physical run.
unfoldable pub byte_ranges : List Run → List Range
byte_ranges [] = []
byte_ranges (run ∷ runs) = elim run.lcn [
  | none ↦ byte_ranges runs
  | some lcn ↦
      if run.length == 0
      then byte_ranges runs
      else (lcn / 8, (lcn + run.length - 1) / 8 + 1) ∷ byte_ranges runs
]

-- The order of pairs, and `ranges.sort()`.
unfoldable pub range_le : Range → Range → Bool
range_le (a, b) (c, d) = if ltb a c then true else if ltb c a then false else leb b d

unfoldable pub insert_range : Range → List Range → List Range
insert_range r [] = r ∷ []
insert_range r (s ∷ ss) = if range_le r s then r ∷ s ∷ ss else s ∷ insert_range r ss

unfoldable pub sort_ranges : List Range → List Range
unfolding range_le insert_range
sort_ranges [] = []
sort_ranges (r ∷ rs) = insert_range r (sort_ranges rs)

-- The merging loop with `merged[-1]` held aside as `(s, e)`.
unfoldable pub join_onto : ℕ → ℕ → List Range → List Range
join_onto s e [] = (s, e) ∷ []
join_onto s e ((a, b) ∷ rs) =
    let joined = join_onto s (max e b) rs in
    let appended = join_onto a b rs in if leb a e then joined else (s, e) ∷ appended

unfoldable pub join_sorted : List Range → List Range
unfolding join_onto
join_sorted [] = []
join_sorted ((s, e) ∷ rs) = join_onto s e rs

unfoldable pub touched_ranges : List Run → List Range
unfolding byte_ranges sort_ranges join_sorted
touched_ranges runs = join_sorted (sort_ranges (byte_ranges runs))

abbrev pub snapshot : List ℕ → Range → ℕ × List ℕ
snapshot bitmap (start, end') = (start, slice bitmap start end')

-- `_bitmap_patches_for_runs`
unfoldable pub bitmap_patches_for_runs : List ℕ → List Run → List (ℕ × List ℕ)
unfolding touched_ranges
bitmap_patches_for_runs bitmap runs = map (snapshot bitmap) (touched_ranges runs)

-- `_current_bitmap_patches`
unfoldable pub current_bitmap_patches : List ℕ → List (ℕ × List ℕ) → List (ℕ × List ℕ)
current_bitmap_patches bitmap [] = []
current_bitmap_patches bitmap ((offset, original) ∷ snapshots) =
    (offset, slice bitmap offset (offset + length original))
    ∷ current_bitmap_patches bitmap snapshots

-- `for run in runs: _set_range(bitmap, int(run.lcn), run.length, value)`; `none` is the exception
-- of a sparse run or of a cluster past the end.
unfoldable pub set_runs : List ℕ → List Run → Bool → Option (List ℕ)
unfolding set_range
set_runs bitmap [] value = some bitmap
set_runs bitmap (run ∷ runs) value = do
  lcn ← run.lcn
  bitmap' ← set_range bitmap lcn run.length value
  set_runs bitmap' runs value
