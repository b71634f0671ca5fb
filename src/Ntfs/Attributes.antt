-- ===== src/Ntfs/Attributes.antt =====
-- The attributes of an MFT record (`_attributes`), a generator: the attributes that it yields, and
-- what it raises after them.
pub mod Inside
mod Tests
use linux_defragger.Prelude.{
  ℕ, zero, suc, ◌+◌, ◌-◌, ◌*◌, ◌/◌, min, Bool, true, false, ◌&&◌, ◌||◌, Option, some, none, List,
  [], ◌∷◌, ltb, leb, ◌==◌, if◌then◌else◌, length, get_or, Result, ok, err, ◌>>=◌, ◌>>◌, raise_if,
  raise_as,
}
use linux_defragger.Bytes.{from_bytes}
use linux_defragger.Ntfs.Disk.{slice}
use linux_defragger.Ntfs.Move.{clusters_of}
use linux_defragger.Ntfs.Runlist.{Run, RunlistError, decode_runlist}
use linux_defragger.Ntfs.Records.{RecordError, struct_error, read_u16}
use linux_defragger.Ntfs.Stream.{StreamError}

-- What reading the volume may raise. `in_record struct_error` is the `struct.error` of a field past
-- the end; all others are `NtfsCompactError`.
pub data LayoutError : Type 0 where
  in_record : RecordError → LayoutError
  in_runlist : RunlistError → LayoutError
  in_stream : StreamError → LayoutError
  bad_attribute bad_name truncated_attribute bad_pairs_offset vcn_mismatch : LayoutError
  not_ntfs bad_sector_size bad_cluster_sectors big_cluster past_device bad_record_size : LayoutError
  no_record_zero split_mft no_volume_information bad_volume_information : LayoutError
  split_bitmap short_bitmap not_resident bad_resident_value short_read : LayoutError
  no_mirror_volume flags_disagree outside_volume not_in_use not_movable : LayoutError

-- `_u16`, `_u32` and `_u64`
unfoldable pub u16 : List ℕ → ℕ → Result LayoutError ℕ
unfolding read_u16
u16 record' at' = raise_as in_record (read_u16 record' at')

unfoldable pub u32 : List ℕ → ℕ → Result LayoutError ℕ
unfolding from_bytes
u32 record' at' =
    if ltb (length record') (at' + 4)
    then err (in_record struct_error)
    else ok (from_bytes (slice record' at' (at' + 4)))

unfoldable pub u64 : List ℕ → ℕ → Result LayoutError ℕ
unfolding from_bytes
u64 record' at' =
    if ltb (length record') (at' + 8)
    then err (in_record struct_error)
    else ok (from_bytes (slice record' at' (at' + 8)))

pub record Attribute : Type 0 where
  pub offset : ℕ
  pub length : ℕ
  pub atype : ℕ
  pub name : List ℕ
  pub flags : ℕ
  pub nonresident : Bool
  pub lowest_vcn : ℕ
  pub highest_vcn : ℕ
  pub run_offset : ℕ
  pub runs : List Run
  pub data_size : ℕ
  pub allocated_size : ℕ
  pub initialized_size : ℕ

unfoldable pub attribute_name : List ℕ → ℕ → ℕ → ℕ → ℕ → Result LayoutError (List ℕ)
attribute_name record' at' size name_len name_off =
    if name_len == 0
    then ok []
    else if ltb name_off 16 || ltb size (name_off + name_len * 2)
    then err bad_name
    else ok (slice record' (at' + name_off) (at' + (name_off + name_len * 2)))

-- The attribute that has its data elsewhere on the volume, from its fields `held` on.
unfoldable pub nonresident_attribute : List ℕ → Attribute → Result LayoutError Attribute
unfolding u16 u64 clusters_of
nonresident_attribute record' held = do
  raise_if (ltb held.length 64) truncated_attribute
  lowest_vcn ← u64 record' (held.offset + 16)
  highest_vcn ← u64 record' (held.offset + 24)
  run_offset ← u16 record' (held.offset + 32)
  raise_if (ltb run_offset 64 || leb held.length run_offset) bad_pairs_offset
  runs ←
      raise_as in_runlist
        (decode_runlist (slice record' (held.offset + run_offset) (held.offset + held.length)))
  raise_if (if clusters_of runs + lowest_vcn == highest_vcn + 1 then false else true) vcn_mismatch
  allocated_size ← u64 record' (held.offset + 40)
  data_size ← u64 record' (held.offset + 48)
  initialized_size ← u64 record' (held.offset + 56)
  ok (record held {
    nonresident = true;
    lowest_vcn = lowest_vcn;
    highest_vcn = highest_vcn;
    run_offset = run_offset;
    runs = runs;
    data_size = data_size;
    allocated_size = allocated_size;
    initialized_size = initialized_size;
  })

-- `Attribute(pos, length, atype, name, flags, False)`
abbrev pub resident_attribute : ℕ → ℕ → ℕ → List ℕ → ℕ → Attribute
resident_attribute at' size atype name flags = record {
  offset = at';
  length = size;
  atype = atype;
  name = name;
  flags = flags;
  nonresident = false;
  lowest_vcn = 0;
  highest_vcn = 0;
  run_offset = 0;
  runs = [];
  data_size = 0;
  allocated_size = 0;
  initialized_size = 0;
}

-- The attribute at `at'`, with what the generator has read of it before.
unfoldable pub attribute_at : List ℕ → ℕ → ℕ → ℕ → ℕ → Result LayoutError Attribute
unfolding u16 attribute_name nonresident_attribute
attribute_at record' in_use at' atype size = do
  raise_if (ltb size 24 || ltb in_use (at' + size)) bad_attribute
  name_off ← u16 record' (at' + 10)
  flags ← u16 record' (at' + 12)
  name ← attribute_name record' at' size (get_or record' (at' + 9) 0) name_off
  let held = resident_attribute at' size atype name flags
  let elsewhere = nonresident_attribute record' held
  if get_or record' (at' + 8) 0 == 0 then ok held else elsewhere

-- The attribute at `at'`, or `none` at the end marker.
unfoldable pub next_attribute : List ℕ → ℕ → ℕ → Result LayoutError (Option Attribute)
unfolding u32 attribute_at
next_attribute record' in_use at' = do
  atype ← u32 record' at'
  let found : Result LayoutError (Option Attribute) = (do
    size ← u32 record' (at' + 4)
    attr ← attribute_at record' in_use at' atype size
    ok (some attr))
  if atype == 0xFFFFFFFF then ok none else found

-- `yield`, and the attributes after it.
unfoldable pub yielded :
    Result LayoutError (Option Attribute)
    → (Attribute → List Attribute × Option LayoutError)
    → List Attribute × Option LayoutError
yielded (err e) rest = ([], some e)
yielded (ok none) rest = ([], none)
yielded (ok (some attr)) rest = (attr ∷ (rest attr).0, (rest attr).1)

-- The loop. Each round passes 24 bytes at least, so as many rounds as the record has bytes are
-- enough.
unfoldable pub attributes_from : ℕ → List ℕ → ℕ → ℕ → List Attribute × Option LayoutError
unfolding next_attribute yielded
attributes_from zero record' in_use at' = ([], none)
attributes_from (suc fuel) record' in_use at' =
    if ltb in_use (at' + 16)
    then ([], none)
    else yielded (next_attribute record' in_use at')
        (λ attr. attributes_from fuel record' in_use (at' + attr.length))

-- Where the attributes start, and the bytes in use.
unfoldable pub bounds_of : List ℕ → Result LayoutError (ℕ × ℕ)
bounds_of record' = do
  at' ← u16 record' 20
  in_use ← u32 record' 24
  ok (at', min (length record') in_use)

unfoldable pub attributes_within :
    List ℕ → Result LayoutError (ℕ × ℕ) → List Attribute × Option LayoutError
unfolding attributes_from
attributes_within record' (err e) = ([], some e)
attributes_within record' (ok (at', in_use)) = attributes_from (length record') record' in_use at'

unfoldable pub attributes : List ℕ → List Attribute × Option LayoutError
unfolding bounds_of u16 u32 attributes_within
attributes record' = attributes_within record' (bounds_of record')

-- `list(_attributes(record))`
unfoldable pub list_attributes : List ℕ → Result LayoutError (List Attribute)
unfolding attributes
list_attributes record' =
    let (attrs, raised) = attributes record' in elim raised [ none ↦ ok attrs | some e ↦ err e ]
