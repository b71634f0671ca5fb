-- ===== src/Ntfs/HighWater.antt =====
-- The search for the highest used cluster (`_highest_used_before`, `_highest_used`).
pub mod Highest
use linux_defragger.Prelude.{
  ℕ, zero, suc, ◌+◌, ◌*◌, ◌/◌, ◌%◌, Bool, true, false, List, ◌==◌, if◌then◌else◌, get_or, length,
  Result, ok, err,
}
use linux_defragger.Prelude.Int.{ℤ, pos}
use linux_defragger.Bytes.{bit_length}
use linux_defragger.Ntfs.Bitmap.{bit}
use linux_defragger.Ntfs.Gaps.{limit_of}

-- The loop over single clusters, `count` being `cluster + 1`: it stops with a result (`err`) at a
-- used cluster, or (`ok`) at the last cluster of a byte or below cluster zero.
unfoldable pub search_bits : ℕ → List ℕ → Result ℕ ℕ
search_bits zero bitmap = ok zero
search_bits (suc cluster) bitmap =
    let below = search_bits cluster bitmap in
    if cluster % 8 == 7
    then ok (suc cluster)
    else if bit bitmap cluster
    then err (suc cluster)
    else below

-- The loop over bytes, with the number of bytes that are left.
unfoldable pub search_bytes : ℕ → List ℕ → ℕ
search_bytes zero bitmap = 0
search_bytes (suc byte_index) bitmap =
    let below = search_bytes byte_index bitmap in
    let value = get_or bitmap byte_index 0 in
    if value == 0 then below else byte_index * 8 + bit_length value

unfoldable pub highest_used_before : List ℕ → ℤ → ℕ
unfolding limit_of search_bits search_bytes
highest_used_before bitmap before = elim (search_bits (limit_of bitmap before) bitmap) [
  | err found ↦ found
  | ok count ↦ search_bytes (count / 8) bitmap
]

unfoldable pub highest_used : List ℕ → ℕ → ℕ
unfolding highest_used_before
highest_used bitmap total_clusters = highest_used_before bitmap (pos total_clusters)
