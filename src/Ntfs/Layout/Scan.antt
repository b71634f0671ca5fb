-- ===== src/Ntfs/Layout/Scan.antt =====
-- The streams of a volume (`_scan_allocation_plan`): every record of the MFT is read, and every
-- attribute with runs becomes a stream of the plan. Python's decoding of UTF-16 names is `decode`, and
-- its test `casefold() == "hiberfil.sys"` is `hiberfil`. The heaps of the plan, the names of streams
-- and the reasons shown for streams that stay are left out.
pub mod Names
pub mod Plan
pub mod Chosen
pub mod Streams
pub mod Sound
use Prim.Native.Nat.{bit_and}
use linux_defragger.Prelude.{
  ℕ, zero, suc, ◌+◌, ◌-◌, ◌*◌, ◌/◌, ◌%◌, ◌^◌, min, max, Bool, true, false, ◌&&◌, ◌||◌, Option, some,
  none, List, [], ◌∷◌, ◌++◌, ltb, ◌==◌, if◌then◌else◌, length, Result, ok, err, ◌>>=◌, ◌>>◌,
  raise_if, raise_as,
}
use linux_defragger.Prelude.Int.{pos}
use linux_defragger.Ntfs.Disk.{slice}
use linux_defragger.Ntfs.Runlist.{Run}
use linux_defragger.Ntfs.Move.{eq_bytes}
use linux_defragger.Ntfs.Stream.{read_stream}
use linux_defragger.Ntfs.Records.{apply_fixups, struct_error}
use linux_defragger.Ntfs.Compact.{StreamInfo}
use linux_defragger.Ntfs.Compact.Loop.{put_stream}
use linux_defragger.Ntfs.Attributes.{
  Attribute, LayoutError, in_record, in_stream, outside_volume, u16, u32, u64, list_attributes,
}
use linux_defragger.Ntfs.Layout.{NtfsLayout, unnamed_data, choose, file_mark}

abbrev pub first_user_record : ℕ
first_user_record = 24

-- `flags & RECORD_IN_USE` and `flags & RECORD_DIRECTORY`
abbrev pub in_use_flag : ℕ → Bool
in_use_flag flags = flags % 2 == 1

abbrev pub directory_flag : ℕ → Bool
directory_flag flags = flags / 2 % 2 == 1

-- `value & FILE_REFERENCE_MASK`
abbrev pub file_reference : ℕ → ℕ
file_reference value = value % 2 ^ 48

abbrev index_allocation : Attribute → Bool
index_allocation attr = attr.atype == 0xA0 && attr.nonresident

abbrev any_attribute : (Attribute → Bool) → List Attribute → Bool
any_attribute test [] = false
any_attribute test (attr ∷ attrs) = test attr || any_attribute test attrs

abbrev pub any_hole : List Run → Bool
any_hole [] = false
any_hole (run ∷ runs) = elim run.lcn [ none ↦ true | some _ ↦ any_hole runs ]

-- The tests of the one candidate.
abbrev rewritable : Attribute → Bool
rewritable attr =
    attr.lowest_vcn == 0
    && (bit_and attr.flags 0xC001 == 0
        && ((if any_hole attr.runs then false else true)
            && (ltb 0 (length attr.runs) && ltb 0 attr.data_size)))

abbrev only_rewritable : List Attribute → Option Attribute
only_rewritable [] = none
only_rewritable (attr ∷ []) = if rewritable attr then some attr else none
only_rewritable (attr ∷ second ∷ attrs) = none

unfoldable pub select_movable_attribute :
    ℕ → List ℕ → List Attribute → Result LayoutError (Option Attribute)
unfolding u16 u64
select_movable_attribute number fixed attrs = do
  flags ← u16 fixed 22
  let by_reference : Result LayoutError (Option Attribute) = (do
    base ← u64 fixed 32
    let candidates = choose (if directory_flag flags then index_allocation else unnamed_data) attrs
    ok (
        if ltb 0 (file_reference base) || any_attribute (λ attr. attr.atype == 0x20) attrs
        then none
        else only_rewritable candidates))
  if ltb number first_user_record || (if in_use_flag flags then false else true)
      then ok none
      else by_reference

unfoldable pub mapping_capacity_from_record : List ℕ → Attribute → Result LayoutError ℕ
unfolding u32
mapping_capacity_from_record fixed attr = do
  in_use ← u32 fixed 24
  recorded ← u32 fixed 28
  let allocated = min (length fixed) recorded
  ok (
      if ltb allocated in_use || ltb in_use (attr.offset + attr.length)
      then 0
      else attr.length - attr.run_offset + (allocated - in_use) / 8 * 8)

-- The records of a chunk, from `offset` on.
unfoldable pub chunk_records : ℕ → ℕ → ℕ → ℕ → List ℕ → List (ℕ × List ℕ)
chunk_records record_size first zero offset raw = []
chunk_records record_size first (suc left) offset raw =
    let start = offset * record_size in
    (first + offset, slice raw start (start + record_size))
    ∷ chunk_records record_size first left (offset + 1) raw

abbrev mft_record_chunk : ℕ
mft_record_chunk = 16 * 1024 * 1024

-- The loop of `_iter_mft_records`: a chunk has a record at least, so as many rounds as there are
-- records are enough.
unfoldable pub mft_records_from :
    (ℕ → ℕ) → NtfsLayout → ℕ → ℕ → ℕ → List (ℕ × List ℕ) × Option LayoutError
unfolding read_stream chunk_records
mft_records_from device layout record_count zero first = ([], none)
mft_records_from device layout record_count (suc fuel) first =
    let record_size = layout.volume.mft_record_size in
    let count = min (max 1 (mft_record_chunk / record_size)) (record_count - first) in
    let chunk =
      read_stream device layout.mft_runs layout.volume.cluster_size (pos (first * record_size))
        (pos (count * record_size)) in
    if ltb first record_count
    then elim chunk [
      | err e ↦ ([], some (in_stream e))
      | ok raw ↦
          let rest = mft_records_from device layout record_count fuel (first + count) in
          (chunk_records record_size first count 0 raw ++ rest.0, rest.1)
    ]
    else ([], none)

unfoldable pub iter_mft_records : (ℕ → ℕ) → NtfsLayout → List (ℕ × List ℕ) × Option LayoutError
unfolding mft_records_from
iter_mft_records device layout =
    let record_count = min (layout.mft_data_size / layout.volume.mft_record_size) 0xFFFFFFFF in
    mft_records_from device layout record_count record_count 0

-- `except NtfsCompactError`: a `struct.error` is not one.
abbrev pub caught : LayoutError → Bool
caught (in_record struct_error) = false
caught _ = true

-- The record with its attributes; `none` if it is not in use.
unfoldable pub decoded_record : ℕ → List ℕ → Result LayoutError (Option (List ℕ × List Attribute))
unfolding apply_fixups u16 list_attributes
decoded_record sector_size raw = do
  fixed ← raise_as in_record (apply_fixups raw sector_size)
  flags ← u16 fixed 22
  let with_attributes : Result LayoutError (Option (List ℕ × List Attribute)) = (do
    attrs ← list_attributes fixed
    ok (some (fixed, attrs)))
  if in_use_flag flags then with_attributes else ok none

-- `tuple(run for run in attr.runs if run.lcn is not None)` is not empty.
abbrev any_physical : List Run → Bool
any_physical [] = false
any_physical (run ∷ runs) = elim run.lcn [ none ↦ any_physical runs | some _ ↦ true ]

-- A physical run ends past the volume.
abbrev pub any_outside : ℕ → List Run → Bool
any_outside total [] = false
any_outside total (run ∷ runs) = elim run.lcn [
  | none ↦ any_outside total runs
  | some lcn ↦ ltb total (lcn + run.length) || any_outside total runs
]

abbrev pub is_at : Option Attribute → Attribute → Bool
is_at none attr = false
is_at (some movable) attr = attr.offset == movable.offset

unfoldable pub stream_info :
    ℕ → ℕ → List ℕ → Option Attribute → Attribute → Result LayoutError StreamInfo
unfolding mapping_capacity_from_record
stream_info number base_record fixed movable attr = do
  let capacity = mapping_capacity_from_record fixed attr
  held ← if is_at movable attr then capacity else ok 0
  ok (record {
    record_number = number;
    base_record_number = base_record;
    attribute_offset = attr.offset;
    attribute_type = attr.atype;
    flags = attr.flags;
    runs = attr.runs;
    movable = is_at movable attr;
    mapping_capacity = held;
    generation = 0;
  })

-- The body of the loop over the attributes of a record.
unfoldable pub add_attribute :
    ℕ
    → ℕ
    → ℕ
    → List ℕ
    → Option Attribute
    → List StreamInfo
    → Attribute
    → Result LayoutError (List StreamInfo)
unfolding stream_info put_stream
add_attribute total number base_record fixed movable streams attr =
    let added : Result LayoutError (List StreamInfo) = (do
      raise_if (any_outside total attr.runs) outside_volume
      info ← stream_info number base_record fixed movable attr
      ok (put_stream info streams)) in
    if attr.nonresident && any_physical attr.runs then added else ok streams

unfoldable pub scan_attributes :
    ℕ
    → ℕ
    → ℕ
    → List ℕ
    → Option Attribute
    → List StreamInfo
    → List Attribute
    → Result LayoutError (List StreamInfo)
unfolding add_attribute
scan_attributes total number base_record fixed movable streams [] = ok streams
scan_attributes total number base_record fixed movable streams (attr ∷ attrs) = do
  streams' ← add_attribute total number base_record fixed movable streams attr
  scan_attributes total number base_record fixed movable streams' attrs
