-- ===== src/Ntfs/Layout.antt =====
-- Opening a volume and reading its layout (`_open_volume`, `_record_zero`, `_read_mft_record`,
-- `_read_layout`, `_volume_record_state`). The device is a function from byte addresses to bytes, as in
-- Ntfs/Stream; locks and file descriptors are left out.
pub mod Opened
pub mod State
pub mod Scan
mod Tests
use Prim.Native.Nat.{bit_and}
use linux_defragger.Prelude.{
  ℕ, zero, suc, ◌+◌, ◌-◌, ◌*◌, ◌/◌, ◌%◌, min, Bool, true, false, ◌&&◌, ◌||◌, Option, some, none,
  List, [], ◌∷◌, ltb, leb, ◌==◌, if◌then◌else◌, length, get_or, Result, ok, err, ◌>>=◌, ◌>>◌,
  raise_if, raise_as,
}
use linux_defragger.Prelude.Int.{pos, negsuc}
use linux_defragger.Bytes.{from_bytes, from_signed, pow2}
use linux_defragger.Ntfs.Disk.{slice}
use linux_defragger.Ntfs.Runlist.{Run}
use linux_defragger.Ntfs.Move.{Volume, eq_bytes}
use linux_defragger.Ntfs.Stream.{stream_segments, read_at, read_stream}
use linux_defragger.Ntfs.Records.{apply_fixups, validate_volume_flags}
use linux_defragger.Ntfs.Attributes.{
  Attribute, LayoutError, in_record, in_stream, not_ntfs, bad_sector_size, bad_cluster_sectors,
  big_cluster, past_device, bad_record_size, no_record_zero, split_mft, no_volume_information,
  bad_volume_information, split_bitmap, short_bitmap, u16, u32, u64, attributes, list_attributes,
}

-- `b"NTFS    "`, `b"\x55\xaa"` and `b"FILE"`
abbrev pub ntfs_name : List ℕ
ntfs_name = 78 ∷ 84 ∷ 70 ∷ 83 ∷ 32 ∷ 32 ∷ 32 ∷ 32 ∷ []

abbrev pub boot_mark : List ℕ
boot_mark = 0x55 ∷ 0xAA ∷ []

abbrev pub file_mark : List ℕ
file_mark = 70 ∷ 73 ∷ 76 ∷ 69 ∷ []

abbrev pub attr_volume_information : ℕ
attr_volume_information = 0x70

abbrev pub attr_data : ℕ
attr_data = 0x80

abbrev pub not_b : Bool → Bool
not_b b = if b then false else true

-- `n & (n - 1)` is not zero, of a positive number.
abbrev pub two_bits : ℕ → Bool
two_bits n = not_b (bit_and n (n - 1) == 0)

-- `(1 << -rec_raw) if rec_raw < 0 else rec_raw * cluster_size`
unfoldable pub record_size_of : ℕ → ℕ → ℕ
unfolding from_signed pow2
record_size_of cluster_size raw = elim (from_signed (raw ∷ [])) [
  | pos n ↦ n * cluster_size
  | negsuc n ↦ pow2 (suc n)
]

-- `_open_volume`, of the first 512 bytes, the size of the device and its path. The serial is the
-- number that its bytes stand for.
unfoldable pub open_volume : ℕ → ℕ → List ℕ → Result LayoutError Volume
unfolding u16 u64 from_bytes record_size_of
open_volume path device_size boot = do
  raise_if
      (not_b (length boot == 512)
        || not_b (eq_bytes (slice boot 3 11) ntfs_name)
        || not_b (eq_bytes (slice boot 510 512) boot_mark))
      not_ntfs
  bps ← u16 boot 11
  let spc = get_or boot 13 0
  raise_if (ltb bps 256 || ltb 4096 bps || two_bits bps) bad_sector_size
  raise_if (spc == 0 || two_bits spc) bad_cluster_sectors
  let cluster_size = bps * spc
  raise_if (ltb (64 * 1024) cluster_size) big_cluster
  total_sectors ← u64 boot 40
  raise_if (ltb device_size (total_sectors * bps)) past_device
  mft_lcn ← u64 boot 48
  mftmirr_lcn ← u64 boot 56
  let record_size = record_size_of cluster_size (get_or boot 64 0)
  raise_if (ltb record_size 512 || ltb (1024 * 1024) record_size || not_b (record_size % bps == 0))
      bad_record_size
  ok (record {
    path = path;
    device_size = device_size;
    bytes_per_sector = bps;
    sectors_per_cluster = spc;
    cluster_size = cluster_size;
    total_clusters = total_sectors / spc;
    mft_lcn = mft_lcn;
    mftmirr_lcn = mftmirr_lcn;
    mft_record_size = record_size;
    serial = from_bytes (slice boot 72 80);
  })

-- `attr.atype == ATTR_DATA and not attr.name and attr.nonresident`
abbrev pub unnamed_data : Attribute → Bool
unnamed_data attr = attr.atype == attr_data && length attr.name == 0 && attr.nonresident

abbrev pub choose : (Attribute → Bool) → List Attribute → List Attribute
choose test [] = []
choose test (attr ∷ attrs) = if test attr then attr ∷ choose test attrs else choose test attrs

-- The one attribute of a list, if it starts its stream.
abbrev pub whole_stream : LayoutError → List Attribute → Result LayoutError Attribute
whole_stream e [] = err e
whole_stream e (attr ∷ []) = if attr.lowest_vcn == 0 then ok attr else err e
whole_stream e (attr ∷ second ∷ attrs) = err e

-- The first resident attribute with the volume's information; what the generator raises after it is
-- not met.
unfoldable pub first_information :
    List Attribute → Option LayoutError → Result LayoutError (Option Attribute)
first_information [] none = ok none
first_information [] (some e) = err e
first_information (attr ∷ attrs) raised =
    if attr.atype == attr_volume_information && not_b attr.nonresident
    then ok (some attr)
    else first_information attrs raised

unfoldable pub volume_information : LayoutError → List ℕ → Result LayoutError Attribute
unfolding first_information attributes
volume_information missing fixed = do
  found ← first_information (attributes fixed).0 (attributes fixed).1
  elim found [ none ↦ err missing | some attr ↦ ok attr ]

-- `flags_offset`, after the test of the attribute's value.
unfoldable pub flags_offset : List ℕ → Attribute → Result LayoutError ℕ
unfolding u16 u32
flags_offset fixed info = do
  value_len ← u32 fixed (info.offset + 16)
  value_off ← u16 fixed (info.offset + 20)
  raise_if (ltb value_len 12 || ltb info.length (value_off + value_len)) bad_volume_information
  ok (info.offset + value_off + 10)

pub record NtfsLayout : Type 0 where
  pub volume : Volume
  pub mft_runs : List Run
  pub mft_data_size : ℕ
  pub bitmap_runs : List Run
  pub bitmap_data_size : ℕ
  pub bitmap : List ℕ

module _ (device : ℕ → ℕ) (volume : Volume) where
  unfoldable pub record_zero : Result LayoutError (List ℕ × List ℕ × Attribute)
  unfolding read_at apply_fixups list_attributes
  record_zero = do
    let raw = read_at device (volume.mft_lcn * volume.cluster_size) volume.mft_record_size
    raise_if (not_b (eq_bytes (slice raw 0 4) file_mark)) no_record_zero
    fixed ← raise_as in_record (apply_fixups raw volume.bytes_per_sector)
    attrs ← list_attributes fixed
    attr ← whole_stream split_mft (choose unnamed_data attrs)
    ok (raw, fixed, attr)

  -- `next(...)` of the segments of one byte.
  abbrev first_segment : List (ℕ × ℕ) × Option LayoutError → Result LayoutError ℕ
  first_segment ([], none) = ok 0
  first_segment ([], some e) = err e
  first_segment ((physical, taken) ∷ segments, raised) = ok physical

  unfoldable pub read_mft_record : List Run → ℕ → Result LayoutError (ℕ × List ℕ × List ℕ)
  unfolding stream_segments read_stream apply_fixups
  read_mft_record mft_runs number = do
    let logical = number * volume.mft_record_size
    raw ←
        raise_as in_stream (
          read_stream device mft_runs volume.cluster_size (pos logical)
            (pos volume.mft_record_size))
    fixed ← raise_as in_record (apply_fixups raw volume.bytes_per_sector)
    let (segments, raised) = stream_segments mft_runs volume.cluster_size (pos logical) (pos 1)
    physical ← first_segment (segments, elim raised [ none ↦ none | some e ↦ some (in_stream e) ])
    ok (physical, raw, fixed)

  -- The part of `_read_layout` under `if check_volume:`.
  unfoldable pub check_flags : List Run → Bool → Result LayoutError (Unit {0})
  unfolding read_mft_record volume_information flags_offset u16 validate_volume_flags
  check_flags mft_runs allow_dirty = do
    (physical, raw, fixed) ← read_mft_record mft_runs 3
    info ← volume_information no_volume_information fixed
    at' ← flags_offset fixed info
    flags ← u16 fixed at'
    raise_as in_record (validate_volume_flags flags allow_dirty)

  unfoldable pub read_layout : Bool → Bool → Result LayoutError NtfsLayout
  unfolding record_zero check_flags read_mft_record list_attributes read_stream
  read_layout allow_dirty check_volume = do
    (raw0, fixed0, mft_attr) ← record_zero
    let checked = check_flags mft_attr.runs allow_dirty
    if check_volume then checked else ok tt
    (physical, raw6, fixed6) ← read_mft_record mft_attr.runs 6
    attrs ← list_attributes fixed6
    bitmap_attr ← whole_stream split_bitmap (choose unnamed_data attrs)
    bitmap ← raise_as in_stream (
        read_stream device bitmap_attr.runs volume.cluster_size (pos 0) (pos bitmap_attr.data_size))
    raise_if (ltb (length bitmap * 8) volume.total_clusters) short_bitmap
    ok (record {
      volume = volume;
      mft_runs = mft_attr.runs;
      mft_data_size = mft_attr.data_size;
      bitmap_runs = bitmap_attr.runs;
      bitmap_data_size = bitmap_attr.data_size;
      bitmap = bitmap;
    })
