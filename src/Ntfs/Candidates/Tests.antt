-- ===== src/Ntfs/Candidates/Tests.antt =====
-- Records with other runs: a test.
use linux_defragger.Prelude.{
  ◌≡◌, ℕ, refl, some, List, [], ◌∷◌, ◌++◌, true, ok, err, replicate, arith, OnOk,
}
use linux_defragger.Prelude.Int.{◌-ℤ◌}
use linux_defragger.Bytes.{bit_length}
use linux_defragger.Ntfs.Runlist.{Run, unsigned_min_bytes, encode_lcn, signed_min_bytes}
use linux_defragger.Ntfs.Attributes.{resident_attribute}
use linux_defragger.Ntfs.Compact.{Candidate, length_changed, no_room}
use linux_defragger.Bytes.{modulus}
use linux_defragger.Ntfs.Runs.{coalesce_runs}
use linux_defragger.Ntfs.Candidates.{record_with_runs}
use linux_defragger.Ntfs.Candidates.Rewritten.{Rewritten, record_with_runs-Rewritten}

abbrev run : ℕ → ℕ → Run
run lcn n = record { lcn = some lcn; length = n }

-- A record of 96 bytes, with 72 of them in use, an attribute from byte 40 to 64, and eight bytes
-- behind it.
abbrev bytes : List ℕ
bytes =
    replicate 24 0
    ++ (72 ∷ 0 ∷ 0 ∷ 0 ∷ 80 ∷ 0 ∷ 0 ∷ 0 ∷ []
        ++ (replicate 12 0
            ++ (24 ∷ replicate 19 0 ++ (1 ∷ 2 ∷ 3 ∷ 4 ∷ 5 ∷ 6 ∷ 7 ∷ 8 ∷ [] ++ replicate 24 0))))

abbrev candidate : Candidate
candidate = record {
  record_number = 30;
  record_offset = 0;
  record_raw = bytes;
  record_fixed = bytes;
  attribute = record (resident_attribute 40 24 0x80 [] 0) {
    nonresident = true;
    highest_vcn = 4;
    run_offset = 20;
    runs = run 9 5 ∷ [];
  };
}

grows :
    record_with_runs candidate (run 3 2 ∷ run 9 3 ∷ [])
    ≡ ok (
        replicate 24 0
        ++ (80 ∷ 0 ∷ 0 ∷ 0 ∷ 80 ∷ 0 ∷ 0 ∷ 0 ∷ []
            ++ (replicate 12 0
                ++ (32 ∷ replicate 15 0
                    ++ (0x11 ∷ 2 ∷ 3 ∷ 0x11 ∷ 3 ∷ 6 ∷ 0 ∷ replicate 5 0
                        ++ (1 ∷ 2 ∷ 3 ∷ 4 ∷ 5 ∷ 6 ∷ 7 ∷ 8 ∷ [] ++ replicate 16 0))))))
unfolding record_with_runs bit_length unsigned_min_bytes encode_lcn signed_min_bytes ◌-ℤ◌
grows = refl

keeps_length : record_with_runs candidate (run 3 4 ∷ []) ≡ err length_changed
unfolding record_with_runs
keeps_length = refl

too_long :
    record_with_runs candidate (run 3 1 ∷ run 9 1 ∷ run 12 1 ∷ run 15 1 ∷ run 20 1 ∷ [])
    ≡ err no_room
unfolding record_with_runs bit_length unsigned_min_bytes encode_lcn signed_min_bytes ◌-ℤ◌
too_long = refl

record_with_runs-Rewritten_example :
    OnOk
      (Rewritten candidate (coalesce_runs (run 3 2 ∷ run 9 3 ∷ [])))
      (record_with_runs candidate (run 3 2 ∷ run 9 3 ∷ []))
unfolding coalesce_runs modulus
record_with_runs-Rewritten_example =
    record_with_runs-Rewritten candidate (run 3 2 ∷ run 9 3 ∷ []) (omega arith) (omega arith)
      (omega arith)
      (omega arith, omega arith, omega arith, (omega arith, omega arith, omega arith, tt))
