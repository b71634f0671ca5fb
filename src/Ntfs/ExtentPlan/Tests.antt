-- ===== src/Ntfs/ExtentPlan/Tests.antt =====
-- Plans for the last extent: tests.
use linux_defragger.Prelude.{
  ◌≡◌, ℕ, refl, some, none, List, [], ◌∷◌, true, ok, replicate, ◌++◌, OnOk,
}
use linux_defragger.Prelude.Int.{◌-ℤ◌}
use linux_defragger.Bytes.{bit_length}
use linux_defragger.Ntfs.Runlist.{Run, unsigned_min_bytes, encode_lcn, signed_min_bytes}
use linux_defragger.Ntfs.Bitmap.{bit}
use linux_defragger.Ntfs.Attributes.{resident_attribute}
use linux_defragger.Ntfs.Compact.{Candidate}
use linux_defragger.Ntfs.ExtentPlan.Planned.{LowersIf, plan_extent_move-Lowers}
use linux_defragger.Ntfs.ExtentPlan.{
  high_water_run_index, highest_physical_run_index, destination_slice, plan_extent_move, planned,
}

abbrev run : ℕ → ℕ → Run
run lcn n = record { lcn = some lcn; length = n }

abbrev two_runs : List Run
two_runs = run 1 2 ∷ run 8 3 ∷ []

last_is_second : high_water_run_index two_runs 11 ≡ some 1
unfolding high_water_run_index
last_is_second = refl

highest_is_second : highest_physical_run_index two_runs ≡ some 1
unfolding highest_physical_run_index
highest_is_second = refl

slices_low_first : destination_slice (run 6 2 ∷ run 3 2 ∷ []) 3 ≡ some (run 3 2 ∷ run 6 1 ∷ [])
unfolding destination_slice
slices_low_first = refl

too_short : destination_slice (run 6 2 ∷ []) 3 ≡ none
unfolding destination_slice
too_short = refl

-- A record of 64 bytes, with 24 of them in use, and an attribute in them.
abbrev candidate : Candidate
candidate =
    let bytes = replicate 24 0 ++ 24 ∷ 0 ∷ 0 ∷ 0 ∷ 64 ∷ 0 ∷ 0 ∷ 0 ∷ replicate 32 0 in
    record {
      record_number = 30;
      record_offset = 0;
      record_raw = bytes;
      record_fixed = bytes;
      attribute = record (resident_attribute 0 24 0x80 [] 0) {
        nonresident = true;
        run_offset = 16;
        runs = two_runs;
      };
    }

-- Clusters 0 to 2, 5 and 8 to 10 are in use: the last extent goes to clusters 3, 4 and 6.
fills_gaps :
    plan_extent_move (0x27 ∷ 0x07 ∷ []) candidate 11
    ≡ ok (
        planned (record {
          source_runs = run 8 3 ∷ [];
          destination_runs = run 3 2 ∷ run 6 1 ∷ [];
          new_runs = run 1 4 ∷ run 6 1 ∷ [];
        }))
unfolding plan_extent_move bit_length bit unsigned_min_bytes encode_lcn signed_min_bytes ◌-ℤ◌
fills_gaps = refl

plan_extent_move-Lowers_example :
    OnOk (LowersIf (0x27 ∷ 0x07 ∷ []) 11) (plan_extent_move (0x27 ∷ 0x07 ∷ []) candidate 11)
plan_extent_move-Lowers_example = plan_extent_move-Lowers (0x27 ∷ 0x07 ∷ []) 11 candidate
