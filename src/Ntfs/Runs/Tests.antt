-- ===== src/Ntfs/Runs/Tests.antt =====
-- Run lists, gaps and the high-water mark: tests, and instances of the theorems.
use mathlib.Core.Bool.{not}
use linux_defragger.Prelude.{ℕ, ◌≡◌, ◌≤◌, refl, ◌&&◌, some, none, List, [], ◌∷◌, ltb, arith}
use linux_defragger.Prelude.Int.{pos}
use linux_defragger.Bytes.{bit_length}
use linux_defragger.Ntfs.Runlist.{Run}
use linux_defragger.Ntfs.Bitmap.{bit, byte_bit}
use linux_defragger.Ntfs.Patches.Touched.{in_runs}
use linux_defragger.Ntfs.Gaps.{limit_of, free_runs_before, find_free_run}
use linux_defragger.Ntfs.Gaps.Free.{AreGaps, free_runs_before-free}
use linux_defragger.Ntfs.Gaps.FirstFit.{IsFree, find_free_run-lowest, find_free_run-IsFree}
use linux_defragger.Ntfs.HighWater.{highest_used_before}
use linux_defragger.Ntfs.HighWater.Highest.{IsHighest, highest_used_before-IsHighest}
use linux_defragger.Ntfs.Runs.{coalesce_runs}
use linux_defragger.Ntfs.Runs.Coalesce.{stream, AreMerged, coalesce_runs-kept}

-- Clusters 0 to 2 are used, then 8 to 15, then 17.
abbrev bitmap : List ℕ
bitmap = 7 ∷ 255 ∷ 2 ∷ []

gaps :
    free_runs_before bitmap (pos 20)
    ≡ record { lcn = some 3; length = 5 }
      ∷ record { lcn = some 16; length = 1 }
      ∷ record { lcn = some 18; length = 2 }
      ∷ []
unfolding free_runs_before bit
gaps = refl

free_runs_before-free_example :
    AreGaps 0 (free_runs_before bitmap (pos 20))
    × ((u : ℕ)
        → in_runs (free_runs_before bitmap (pos 20)) u
          ≡ (ltb u (limit_of bitmap (pos 20)) && not (bit bitmap u)))
free_runs_before-free_example = free_runs_before-free bitmap (pos 20)

find_free_run-lowest_example :
    (a : ℕ) × (find_free_run bitmap (pos 2) (pos 20) ≡ some a)
    × IsFree bitmap (limit_of bitmap (pos 20)) a 2
    × (a ≤ 4)
unfolding limit_of bit byte_bit
find_free_run-lowest_example =
    find_free_run-lowest bitmap (pos 20) 2 4 (omega arith) (refl, (refl, tt))

finds : find_free_run bitmap (pos 2) (pos 20) ≡ some 3
unfolding find_free_run bit
finds = refl

find_free_run-IsFree_example : IsFree bitmap (limit_of bitmap (pos 20)) 3 2
find_free_run-IsFree_example = find_free_run-IsFree bitmap (pos 20) 2 3 finds

-- An empty run, two neighbours, two holes and a run that stands apart.
abbrev pieces : List Run
pieces =
    record { lcn = some 5; length = 2 }
    ∷ record { lcn = some 90; length = 0 }
    ∷ record { lcn = some 7; length = 3 }
    ∷ record { lcn = none; length = 1 }
    ∷ record { lcn = none; length = 4 }
    ∷ record { lcn = some 10; length = 1 }
    ∷ []

abbrev merged_pieces : List Run
merged_pieces =
    record { lcn = some 5; length = 5 }
    ∷ record { lcn = none; length = 5 }
    ∷ record { lcn = some 10; length = 1 }
    ∷ []

coalesces : coalesce_runs pieces ≡ merged_pieces
unfolding coalesce_runs
coalesces = refl

coalesce_runs-kept_example :
    (stream (coalesce_runs pieces) ≡ stream pieces) × AreMerged (coalesce_runs pieces)
coalesce_runs-kept_example = coalesce_runs-kept pieces

highest : highest_used_before bitmap (pos 24) ≡ 18
unfolding highest_used_before bit bit_length
highest = refl

highest_used_before-IsHighest_example :
    IsHighest bitmap (limit_of bitmap (pos 17)) (highest_used_before bitmap (pos 17))
highest_used_before-IsHighest_example =
    highest_used_before-IsHighest bitmap (pos 17) (omega arith, (omega arith, (omega arith, tt)))
