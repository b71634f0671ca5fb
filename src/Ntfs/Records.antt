-- ===== src/Ntfs/Records.antt =====
-- MFT records: the fixups that guard their sectors (`_apply_fixups`, `_prepare_fixups`) and the flags
-- of the volume (`_validate_volume_flags`).
pub mod Fixups
pub mod RoundTrip
mod Tests
use Prim.Native.Nat.{bit_and}
use linux_defragger.Prelude.{
  ℕ, zero, suc, ◌+◌, ◌-◌, ◌*◌, ◌/◌, ◌%◌, Bool, true, false, ◌&&◌, ◌||◌, List, [], ◌∷◌, leb, ltb,
  ◌==◌, if◌then◌else◌, length, get_or, set, Result, ok, err, ◌>>=◌, ◌>>◌, raise_if,
}

pub data RecordError : Type 0 where
  struct_error invalid_array sequence_mismatch : RecordError
  unsupported_flags dirty_volume maintenance_state : RecordError

-- `_u16`: `struct.unpack_from` raises past the end.
unfoldable pub read_u16 : List ℕ → ℕ → Result RecordError ℕ
read_u16 record' at' =
    if ltb (length record') (at' + 2)
    then err struct_error
    else ok (get_or record' at' 0 + 256 * get_or record' (at' + 1) 0)

-- `record[at:at + 2] = bytes` of two bytes, inside the record.
unfoldable pub put2 : List ℕ → ℕ → ℕ → ℕ → List ℕ
put2 record' at' first second = set (set record' at' first) (at' + 1) second

-- `record[to:to + 2] = record[at:at + 2]`
unfoldable pub copy2 : List ℕ → ℕ → ℕ → List ℕ
unfolding put2
copy2 record' to at' = put2 record' to (get_or record' at' 0) (get_or record' (at' + 1) 0)

-- The loop of `_apply_fixups` at `index`, with the rounds that are left; the sequence number is the
-- bytes `usn0` and `usn1`.
unfoldable pub apply_from : ℕ → ℕ → ℕ → ℕ → ℕ → ℕ → List ℕ → Result RecordError (List ℕ)
unfolding copy2
apply_from sector_size usa_off usn0 usn1 zero index record' = ok record'
apply_from sector_size usa_off usn0 usn1 (suc left) index record' =
    let end' = index * sector_size in
    let same = get_or record' (end' - 2) 0 == usn0 && get_or record' (end' - 1) 0 == usn1 in
    let rest =
      apply_from sector_size usa_off usn0 usn1 left (index + 1)
        (copy2 record' (end' - 2) (usa_off + index * 2)) in
    if same then rest else err sequence_mismatch

-- A sector has two bytes at least.
unfoldable pub apply_fixups : List ℕ → ℕ → Result RecordError (List ℕ)
unfolding read_u16 apply_from
apply_fixups raw sector_size = do
  usa_off ← read_u16 raw 4
  usa_count ← read_u16 raw 6
  raise_if
      ((if usa_count == length raw / sector_size + 1 then false else true)
        || ltb (length raw) (usa_off + usa_count * 2))
      invalid_array
  apply_from sector_size usa_off (get_or raw usa_off 0) (get_or raw (usa_off + 1) 0) (usa_count - 1)
      1 raw

-- The loop of `_prepare_fixups`.
unfoldable pub prepare_from : ℕ → ℕ → ℕ → ℕ → ℕ → ℕ → List ℕ → List ℕ
unfolding put2 copy2
prepare_from sector_size usa_off usn0 usn1 zero index record' = record'
prepare_from sector_size usa_off usn0 usn1 (suc left) index record' =
    let end' = index * sector_size in
    prepare_from sector_size usa_off usn0 usn1 left (index + 1)
      (put2 (copy2 record' (usa_off + index * 2) (end' - 2)) (end' - 2) usn0 usn1)

-- `(old + 1) & 0xFFFF`, but not zero.
unfoldable pub next_number : ℕ → ℕ
next_number old = let new = (old + 1) % 65536 in if new == 0 then 1 else new

unfoldable pub prepare_fixups : List ℕ → ℕ → Result RecordError (List ℕ)
unfolding read_u16 put2 prepare_from next_number
prepare_fixups fixed sector_size = do
  usa_off ← read_u16 fixed 4
  usa_count ← read_u16 fixed 6
  raise_if
      ((if usa_count == length fixed / sector_size + 1 then false else true)
        || ltb (length fixed) (usa_off + usa_count * 2))
      invalid_array
  old ← read_u16 fixed usa_off
  let usn0 = next_number old % 256
  let usn1 = next_number old / 256
  ok (prepare_from sector_size usa_off usn0 usn1 (usa_count - 1) 1 (put2 fixed usa_off usn0 usn1))

abbrev pub volume_is_dirty : ℕ
volume_is_dirty = 0x0001

-- `VOLUME_UNSAFE_WRITE_MASK`
abbrev pub unsafe_write_mask : ℕ
unsafe_write_mask = 0xC037

-- `VOLUME_ACCEPTED_MASK`
abbrev pub accepted_mask : ℕ
accepted_mask = 0xC0BF

-- The flags are two bytes of the record, so that `~mask` is taken in 16 bits.
unfoldable pub validate_volume_flags : ℕ → Bool → Result RecordError (Unit {0})
validate_volume_flags flags allow_dirty = do
  let unsafe = bit_and flags unsafe_write_mask
  let left = if allow_dirty then bit_and unsafe (0xFFFF - volume_is_dirty) else unsafe
  raise_if (ltb 0 (bit_and flags (0xFFFF - accepted_mask))) unsupported_flags
  raise_if (ltb 0 (bit_and flags volume_is_dirty) && (if allow_dirty then false else true))
      dirty_volume
  raise_if (ltb 0 left) maintenance_state
  ok tt
