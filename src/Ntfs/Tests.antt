-- ===== src/Ntfs/Tests.antt =====
-- Encodings and bitmaps: tests, and instances of the theorems.
use linux_defragger.Prelude.{
  ℕ, ◌<◌, ◌≤◌, length, ◌≡◌, refl, true, some, none, List, [], ◌∷◌, ◌++◌, arith, ok,
}
use linux_defragger.Bytes.{AreBytes}
use linux_defragger.Ntfs.Runlist.{Run}
use linux_defragger.Ntfs.Bitmap.{set_range}
use linux_defragger.Ntfs.Patches.{set_runs}
use linux_defragger.Ntfs.Bitmap.ByteBits.{Sets}
use linux_defragger.Ntfs.Bitmap.SetRange.{set_range-Sets}
use linux_defragger.Ntfs.Patches.Touched.{SetsRuns, set_runs-SetsRuns}
use linux_defragger.Ntfs.Runlist.{
  encode_lcn, encode_runlist, decode_runlist, signed_min_bytes, unsigned_min_bytes,
}
use linux_defragger.Ntfs.Runlist.Fields.{Encodes, signed_min_bytes-Encodes, unsigned_min_bytes_lem}
use linux_defragger.Ntfs.Runlist.RoundTrip.{decode_runlist-encode_runlist}
use linux_defragger.Bytes.{modulus, from_signed}
use linux_defragger.Prelude.Int.{pos, negsuc, ◌-ℤ◌}

abbrev source : List Run
source = record { lcn = some 9; length = 2 } ∷ []

abbrev destination : List Run
destination = record { lcn = some 3; length = 2 } ∷ []

-- Two runs, the second sparse.
abbrev two_runs : List Run
two_runs = record { lcn = some 1000; length = 200 } ∷ record { lcn = none; length = 5 } ∷ []

encodes : encode_runlist two_runs ≡ ok (0x22 ∷ 200 ∷ 0 ∷ 0xE8 ∷ 3 ∷ 1 ∷ 5 ∷ 0 ∷ [])
unfolding encode_runlist unsigned_min_bytes encode_lcn signed_min_bytes ◌-ℤ◌
encodes = refl

decode_runlist-encode_runlist_example :
    (bytes : List ℕ) × (encode_runlist two_runs ≡ ok bytes)
    × AreBytes bytes
    × ((rest : List ℕ) → decode_runlist (bytes ++ rest) ≡ ok two_runs)
unfolding modulus
decode_runlist-encode_runlist_example =
    decode_runlist-encode_runlist two_runs
      (omega arith, omega arith, omega arith, (omega arith, omega arith, tt, tt))

signed_min_bytes-Encodes_example :
    (bs : List ℕ) × (signed_min_bytes (negsuc 128) ≡ ok bs) × Encodes 1 (negsuc 128) bs
unfolding modulus
signed_min_bytes-Encodes_example = signed_min_bytes-Encodes (negsuc 128) refl

unsigned_min_bytes_lem_example :
    (bs : List ℕ) × (unsigned_min_bytes 200 ≡ ok bs)
    × (from_signed bs ≡ pos 200)
    × AreBytes bs
    × (0 < length bs)
    × (length bs ≤ 8)
unfolding modulus
unsigned_min_bytes_lem_example = unsigned_min_bytes_lem 200 (omega arith) (omega arith)

set_range-Sets_example :
    (out : List ℕ) × (set_range (7 ∷ 6 ∷ 0 ∷ []) 3 20 true ≡ some out)
    × Sets (7 ∷ 6 ∷ 0 ∷ []) 3 23 true out
set_range-Sets_example =
    set_range-Sets (7 ∷ 6 ∷ 0 ∷ []) 3 20 true (omega arith, (omega arith, (omega arith, tt)))
      (omega arith)

set_runs-SetsRuns_example :
    (out : List ℕ) × (set_runs (7 ∷ 6 ∷ []) destination true ≡ some out)
    × SetsRuns (7 ∷ 6 ∷ []) destination true out
set_runs-SetsRuns_example =
    set_runs-SetsRuns (7 ∷ 6 ∷ []) destination true (omega arith, (omega arith, tt))
      (omega arith, tt)
