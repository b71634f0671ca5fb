-- ===== src/Ntfs/Candidates.antt =====
-- Streams that are to be moved: reading their record again (`_load_candidate`) and the record with
-- other runs (`_updated_record_runs`).
pub mod Updated
pub mod Pairs
pub mod Rewritten
mod Tests
use linux_defragger.Prelude.{
  ℕ, ◌+◌, ◌-◌, ◌*◌, ◌/◌, Bool, true, false, ◌||◌, Option, some, none, List, [], ◌∷◌, ◌++◌, ltb,
  ◌==◌, if◌then◌else◌, length, replicate, Result, ok, err, ◌>>=◌, ◌>>◌, raise_if, raise_as,
}
use linux_defragger.Bytes.{to_bytes}
use linux_defragger.Ntfs.Disk.{slice, splice}
use linux_defragger.Ntfs.Runlist.{Run, encode_runlist}
use linux_defragger.Ntfs.Move.{eq_bytes, clusters_of}
use linux_defragger.Ntfs.Runs.{coalesce_runs}
use linux_defragger.Ntfs.Records.{prepare_fixups}
use linux_defragger.Ntfs.Attributes.{
  Attribute, LayoutError, not_in_use, not_movable, u16, list_attributes,
}
use linux_defragger.Ntfs.Layout.{NtfsLayout, read_mft_record, file_mark}
use linux_defragger.Ntfs.Layout.Scan.{in_use_flag, select_movable_attribute}
use linux_defragger.Ntfs.Compact.{
  StreamInfo, Candidate, CompactError, encoding, in_fixups, length_changed, no_room, record_space,
}

-- The attribute, if it is still where the plan has it.
abbrev still_movable : StreamInfo → Option Attribute → Result LayoutError Attribute
still_movable info none = err not_movable
still_movable info (some attr) =
    if attr.offset == info.attribute_offset then ok attr else err not_movable

unfoldable pub load_candidate : (ℕ → ℕ) → NtfsLayout → StreamInfo → Result LayoutError Candidate
unfolding read_mft_record u16 list_attributes select_movable_attribute
load_candidate device layout info = do
  (record_offset, raw, fixed) ←
      read_mft_record device layout.volume layout.mft_runs info.record_number
  raise_if (if eq_bytes (slice fixed 0 4) file_mark then false else true) not_in_use
  flags ← u16 fixed 22
  raise_if (if in_use_flag flags then false else true) not_in_use
  attrs ← list_attributes fixed
  movable ← select_movable_attribute info.record_number fixed attrs
  attr ← still_movable info movable
  ok (record {
    record_number = info.record_number;
    record_offset = record_offset;
    record_raw = raw;
    record_fixed = fixed;
    attribute = attr;
  })

-- The space that the attribute needs beyond what it has: records are aligned to eight bytes.
unfoldable pub growth_of : Attribute → List ℕ → ℕ
growth_of attr encoded = (attr.run_offset + length encoded + 7) / 8 * 8 - attr.length

-- The body of `if growth:`. The bytes behind the attribute move up, zeros take their place, and the
-- two lengths are written.
unfoldable pub make_space : List ℕ → Attribute → ℕ → ℕ → List ℕ
unfolding to_bytes
make_space fixed attr in_use growth =
    let old_end = attr.offset + attr.length in
    let shifted = splice fixed (old_end + growth) (slice fixed old_end in_use) in
    let cleared = splice shifted old_end (replicate growth 0) in
    let sized = splice cleared (attr.offset + 4) (to_bytes 4 (attr.length + growth)) in
    splice sized 24 (to_bytes 4 (in_use + growth))

-- The mapping pairs, with zeros up to the end of the attribute.
unfoldable pub put_pairs : List ℕ → Attribute → ℕ → List ℕ → List ℕ
put_pairs fixed attr growth encoded =
    let capacity = attr.length + growth - attr.run_offset in
    splice fixed (attr.offset + attr.run_offset)
      (encoded ++ replicate (capacity - length encoded) 0)

-- The record before its fixups.
unfoldable pub record_with_runs : Candidate → List Run → Result CompactError (List ℕ)
unfolding coalesce_runs clusters_of encode_runlist growth_of record_space make_space put_pairs
record_with_runs c new_runs = do
  let attr = c.attribute
  let normalized = coalesce_runs new_runs
  raise_if
      (if clusters_of normalized + attr.lowest_vcn == attr.highest_vcn + 1 then false else true)
      length_changed
  encoded ← raise_as encoding (encode_runlist normalized)
  let growth = growth_of attr encoded
  (in_use, allocated) ← record_space c
  raise_if (ltb allocated (in_use + growth)) no_room
  let fixed = if growth == 0 then c.record_fixed else make_space c.record_fixed attr in_use growth
  ok (put_pairs fixed attr growth encoded)

unfoldable pub updated_record_runs : Candidate → List Run → ℕ → Result CompactError (List ℕ)
unfolding record_with_runs prepare_fixups
updated_record_runs c new_runs sector_size = do
  fixed ← record_with_runs c new_runs
  raise_as in_fixups (prepare_fixups fixed sector_size)
