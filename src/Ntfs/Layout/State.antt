-- ===== src/Ntfs/Layout/State.antt =====
-- The images of the `$Volume` record and its mirror, as found and marked dirty
-- (`_volume_record_state`), and the values of resident attributes (`_resident_value`).
use Prim.Native.Nat.{bit_or}
use linux_defragger.Prelude.{
  ℕ, ◌+◌, ◌*◌, ◌/◌, ◌%◌, true, false, ◌||◌, List, ltb, ◌==◌, if◌then◌else◌, Result, ok, ◌>>=◌, ◌>>◌,
  raise_if, raise_as,
}
use linux_defragger.Ntfs.Disk.{slice}
use linux_defragger.Ntfs.Stream.{read_at}
use linux_defragger.Ntfs.Records.{
  put2, apply_fixups, prepare_fixups, validate_volume_flags, volume_is_dirty,
}
use linux_defragger.Ntfs.Attributes.{
  Attribute, LayoutError, in_record, no_volume_information, no_mirror_volume, flags_disagree,
  not_resident, bad_resident_value, u16, u32,
}
use linux_defragger.Ntfs.Layout.{NtfsLayout, read_mft_record, volume_information, flags_offset}

-- `struct.pack_into("<H", record, at, flags | VOLUME_IS_DIRTY)`, where two bytes have been read
-- before, and the fixups.
unfoldable pub dirty_image : List ℕ → ℕ → ℕ → ℕ → Result LayoutError (List ℕ)
unfolding put2 prepare_fixups
dirty_image fixed at' flags sector_size =
    let dirty = bit_or flags volume_is_dirty in
    raise_as in_record (prepare_fixups (put2 fixed at' (dirty % 256) (dirty / 256)) sector_size)

module _ (device : ℕ → ℕ) (layout : NtfsLayout) where
  -- The mirror's image and its dirty image; `flags` are those of the `$Volume` record.
  unfoldable pub mirror_state : ℕ → Result LayoutError (List ℕ × List ℕ)
  unfolding read_at apply_fixups volume_information u16 dirty_image
  mirror_state flags = do
    let volume = layout.volume
    let mirror_raw =
        read_at device (volume.mftmirr_lcn * volume.cluster_size + 3 * volume.mft_record_size)
          volume.mft_record_size
    mirror_fixed ← raise_as in_record (apply_fixups mirror_raw volume.bytes_per_sector)
    mirror_info ← volume_information no_mirror_volume mirror_fixed
    value_off ← u16 mirror_fixed (mirror_info.offset + 20)
    mirror_flags ← u16 mirror_fixed (mirror_info.offset + value_off + 10)
    raise_if (if mirror_flags == flags then false else true) flags_disagree
    mirror_dirty ←
        dirty_image mirror_fixed (mirror_info.offset + value_off + 10) flags volume.bytes_per_sector
    ok (mirror_raw, mirror_dirty)

  -- The clean and the dirty image of the record, and those of its mirror.
  unfoldable pub volume_record_state : Result LayoutError (List ℕ × List ℕ × List ℕ × List ℕ)
  unfolding read_mft_record volume_information flags_offset u16 validate_volume_flags dirty_image
      mirror_state
  volume_record_state = do
    (physical, raw, fixed) ← read_mft_record device layout.volume layout.mft_runs 3
    info ← volume_information no_volume_information fixed
    at' ← flags_offset fixed info
    flags ← u16 fixed at'
    raise_as in_record (validate_volume_flags flags false)
    dirty_raw ← dirty_image fixed at' flags layout.volume.bytes_per_sector
    (mirror_raw, mirror_dirty) ← mirror_state flags
    ok (raw, dirty_raw, mirror_raw, mirror_dirty)

unfoldable pub resident_value : List ℕ → Attribute → Result LayoutError (List ℕ)
unfolding u16 u32
resident_value record' attr = do
  raise_if attr.nonresident not_resident
  value_len ← u32 record' (attr.offset + 16)
  value_off ← u16 record' (attr.offset + 20)
  raise_if (ltb value_off 24 || ltb attr.length (value_off + value_len)) bad_resident_value
  ok (slice record' (attr.offset + value_off) (attr.offset + value_off + value_len))
