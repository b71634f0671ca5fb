-- ===== src/Ntfs/Records/Tests.antt =====
-- Records: tests, and an instance of the theorem.
use linux_defragger.Prelude.{
  ℕ, ◌+◌, ◌*◌, ◌<◌, ◌≤◌, ◌≡◌, refl, true, false, List, [], ◌∷◌, length, get_or, arith, ok, err,
}
use linux_defragger.Ntfs.Records.{
  read_u16, apply_fixups, prepare_fixups, validate_volume_flags, sequence_mismatch, dirty_volume,
  unsupported_flags,
}
use linux_defragger.Ntfs.Records.RoundTrip.{apply_fixups-prepare_fixups}

-- Two sectors of 16 bytes, with an array of three entries at byte 8 and the number 255.
abbrev small_record : List ℕ
small_record =
    70 ∷ 73 ∷ 76 ∷ 69 ∷ 8 ∷ 0 ∷ 3 ∷ 0 ∷ 255 ∷ 0 ∷ 0 ∷ 0 ∷ 0 ∷ 0 ∷ 21 ∷ 22 ∷ 1 ∷ 2 ∷ 3 ∷ 4 ∷ 5 ∷ 6
    ∷ 7 ∷ 8 ∷ 9 ∷ 10 ∷ 11 ∷ 12 ∷ 13 ∷ 14 ∷ 23 ∷ 24 ∷ []

abbrev guarded_record : List ℕ
guarded_record =
    70 ∷ 73 ∷ 76 ∷ 69 ∷ 8 ∷ 0 ∷ 3 ∷ 0 ∷ 0 ∷ 1 ∷ 21 ∷ 22 ∷ 23 ∷ 24 ∷ 0 ∷ 1 ∷ 1 ∷ 2 ∷ 3 ∷ 4 ∷ 5 ∷ 6
    ∷ 7 ∷ 8 ∷ 9 ∷ 10 ∷ 11 ∷ 12 ∷ 13 ∷ 14 ∷ 0 ∷ 1 ∷ []

guards : prepare_fixups small_record 16 ≡ ok guarded_record
unfolding prepare_fixups
guards = refl

torn : apply_fixups small_record 16 ≡ err sequence_mismatch
unfolding apply_fixups
torn = refl

dirty : validate_volume_flags 0x0081 false ≡ err dirty_volume
unfolding validate_volume_flags
dirty = refl

clean : validate_volume_flags 0x0081 true ≡ ok tt
unfolding validate_volume_flags
clean = refl

unknown : validate_volume_flags 0x0100 true ≡ err unsupported_flags
unfolding validate_volume_flags
unknown = refl

array_at : read_u16 small_record 4 ≡ ok 8
unfolding read_u16
array_at = refl

array_count : read_u16 small_record 6 ≡ ok 3
unfolding read_u16
array_count = refl

apply_fixups-prepare_fixups_example :
    (raw : List ℕ) × (out : List ℕ) × (prepare_fixups small_record 16 ≡ ok raw)
    × (apply_fixups raw 16 ≡ ok out)
    × (length out ≡ length small_record)
    × ((j : ℕ) → (8 ≤ j → j < 8 + 3 * 2 → ⊥) → get_or out j 0 ≡ get_or small_record j 0)
apply_fixups-prepare_fixups_example =
    apply_fixups-prepare_fixups small_record 16 8 3 array_at array_count refl (omega arith)
      (omega arith) (omega arith)
