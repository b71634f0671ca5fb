-- ===== src/Ntfs/Layout/Scan/Plan.antt =====
-- The loop of `_scan_allocation_plan`.
use linux_defragger.Prelude.{
  ℕ, ◌+◌, Bool, true, false, Option, some, none, List, [], ◌∷◌, if◌then◌else◌, Result, ok, err,
  ◌>>=◌,
}
use linux_defragger.Ntfs.Disk.{slice}
use linux_defragger.Ntfs.Move.{eq_bytes}
use linux_defragger.Ntfs.Compact.{StreamInfo}
use linux_defragger.Ntfs.Attributes.{Attribute, LayoutError, u64}
use linux_defragger.Ntfs.Layout.{NtfsLayout, file_mark}
use linux_defragger.Ntfs.Layout.Scan.{
  file_reference, select_movable_attribute, iter_mft_records, caught, decoded_record,
  scan_attributes,
}
use linux_defragger.Ntfs.Layout.Scan.Names.{best_file_name, record_hibernation_active}

pub record AllocationPlan : Type 0 where
  pub streams : List StreamInfo
  pub movable_count : ℕ
  pub malformed_records : ℕ
  pub hibernation_active : Bool

abbrev count_some : Option Attribute → ℕ
count_some none = 0
count_some (some attr) = 1

module _ (device : ℕ → ℕ) (decode : List ℕ → List ℕ) (hiberfil : List ℕ → Bool)
    (layout : NtfsLayout) where
  -- A record that is in use and could be decoded.
  unfoldable pub scan_decoded :
      AllocationPlan → ℕ → List ℕ → List Attribute → Result LayoutError AllocationPlan
  unfolding best_file_name record_hibernation_active u64 select_movable_attribute scan_attributes
  scan_decoded plan number fixed attrs = do
    file_name ← best_file_name decode fixed attrs number
    let active = record_hibernation_active device hiberfil layout fixed attrs file_name
    hibernation ← if plan.hibernation_active then ok true else active
    base ← u64 fixed 32
    movable ← select_movable_attribute number fixed attrs
    streams ←
        scan_attributes layout.volume.total_clusters number (file_reference base) fixed movable
          plan.streams attrs
    ok (record {
      streams = streams;
      movable_count = plan.movable_count + count_some movable;
      malformed_records = plan.malformed_records;
      hibernation_active = hibernation;
    })

  -- What becomes of a record, by the outcome of decoding it.
  unfoldable pub scan_outcome :
      AllocationPlan
      → ℕ
      → Result LayoutError (Option (List ℕ × List Attribute))
      → Result LayoutError AllocationPlan
  unfolding scan_decoded
  scan_outcome plan number (err e) =
      if caught e
      then ok (record plan { malformed_records = plan.malformed_records + 1 })
      else err e
  scan_outcome plan number (ok none) = ok plan
  scan_outcome plan number (ok (some (fixed, attrs))) = scan_decoded plan number fixed attrs

  unfoldable pub scan_record : AllocationPlan → ℕ → List ℕ → Result LayoutError AllocationPlan
  unfolding decoded_record scan_outcome
  scan_record plan number raw =
      if eq_bytes (slice raw 0 4) file_mark
      then scan_outcome plan number (decoded_record layout.volume.bytes_per_sector raw)
      else ok plan

  unfoldable pub scan_records :
      AllocationPlan → List (ℕ × List ℕ) → Result LayoutError AllocationPlan
  unfolding scan_record
  scan_records plan [] = ok plan
  scan_records plan ((number, raw) ∷ records) = do
    plan' ← scan_record plan number raw
    scan_records plan' records

  unfoldable pub scan_allocation_plan : Result LayoutError AllocationPlan
  unfolding iter_mft_records scan_records
  scan_allocation_plan = do
    let (records, raised) = iter_mft_records device layout
    plan ←
        scan_records
          (record {
            streams = [];
            movable_count = 0;
            malformed_records = 0;
            hibernation_active = false;
          })
          records
    elim raised [ none ↦ ok plan | some e ↦ err e ]
