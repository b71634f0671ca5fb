-- ===== src/Ntfs/Layout/Scan/Sound.antt =====
-- The plan that `_scan_allocation_plan` makes.
use linux_defragger.Prelude.{
  ℕ, ◌≡◌, refl, Bool, true, false, Option, some, none, List, [], ◌∷◌, ==_iff, if◌then◌else◌, Result,
  ok, err, OnOk, OnOk-ok, OnOk-err, OnOk-bind, OnOk-if, raise_as,
}
use linux_defragger.Ntfs.Disk.{slice}
use linux_defragger.Ntfs.Move.{eq_bytes}
use linux_defragger.Ntfs.Records.{apply_fixups}
use linux_defragger.Ntfs.Attributes.{Attribute, LayoutError, in_record, u16, u64, list_attributes}
use linux_defragger.Ntfs.Layout.{NtfsLayout, file_mark}
use linux_defragger.Ntfs.Layout.Scan.{
  in_use_flag, file_reference, select_movable_attribute, iter_mft_records, caught, decoded_record,
  is_at, scan_attributes,
}
use linux_defragger.Ntfs.Layout.Scan.Names.{best_file_name, record_hibernation_active}
use linux_defragger.Ntfs.Layout.Scan.Plan.{
  AllocationPlan, scan_decoded, scan_outcome, scan_record, scan_records, scan_allocation_plan,
}
use linux_defragger.Ntfs.Layout.Scan.Chosen.{
  Member, Apart, list_attributes-Apart, Chosen, select_movable_attribute-Chosen,
}
use linux_defragger.Ntfs.Layout.Scan.Streams.{IsPlan, Known, scan_attributes-IsPlan}

-- The chosen attribute is known, and it is the only one at its place.
Chosen-Known :
    (number base : ℕ) (fixed : List ℕ) (attrs : List Attribute) (movable : Option Attribute)
    → Apart attrs
    → u64 fixed 32 ≡ ok base
    → Chosen number fixed attrs movable
    → (attr : Attribute) → Member attr attrs
    → is_at movable attr ≡ true
    → Known number (file_reference base) attr
Chosen-Known number base fixed attrs none apart e c attr m h = absurd (cc (h))
Chosen-Known number base fixed attrs (some a) apart e c attr m h =
    let same : attr ≡ a = apart attr a m c.member ((==_iff attr.offset a.offset).0 h) in
    (c.user, c.own base e, rw same c.physical, rw same c.some_runs)

-- No two attributes of a record that was decoded are at the same place.
abbrev AttributesApart : Option (List ℕ × List Attribute) → Type 0
AttributesApart none = Unit
AttributesApart (some (fixed, attrs)) = Apart attrs

module _ (device : ℕ → ℕ) (decode : List ℕ → List ℕ) (hiberfil : List ℕ → Bool)
    (layout : NtfsLayout) where
  abbrev Sound : AllocationPlan → Type 0
  Sound plan = IsPlan layout.volume.total_clusters plan.streams

  scan_decoded-IsPlan :
      (plan : AllocationPlan) (number : ℕ) (fixed : List ℕ) (attrs : List Attribute)
      → Sound plan
      → Apart attrs
      → OnOk Sound (scan_decoded device decode hiberfil layout plan number fixed attrs)
  unfolding scan_decoded
  scan_decoded-IsPlan plan number fixed attrs h apart =
      OnOk-bind (best_file_name decode fixed attrs number) _ λ file_name e1.
        OnOk-bind
          (if plan.hibernation_active
            then ok true
            else record_hibernation_active device hiberfil layout fixed attrs file_name)
          _
          λ hibernation e2. OnOk-bind (u64 fixed 32) _ λ base e3.
            OnOk-bind (select_movable_attribute number fixed attrs) _ λ movable e4.
              OnOk-bind
                (scan_attributes layout.volume.total_clusters number (file_reference base) fixed
                  movable plan.streams attrs)
                _
                λ streams e5.
                  let chosen =
                    (select_movable_attribute-Chosen number fixed attrs).get movable e4 in
                  let known = Chosen-Known number base fixed attrs movable apart e3 chosen in
                  OnOk-ok (
                    (scan_attributes-IsPlan layout.volume.total_clusters number
                        (file_reference base) fixed movable plan.streams attrs h known).get
                      streams e5)

  decoded_record-Apart :
      (sector_size : ℕ) (raw : List ℕ) → OnOk (AttributesApart) (decoded_record sector_size raw)
  unfolding decoded_record
  decoded_record-Apart sector_size raw =
      OnOk-bind (raise_as in_record (apply_fixups raw sector_size)) _ λ fixed e1.
        OnOk-bind (u16 fixed 22) _ λ flags e2.
          OnOk-if (in_use_flag flags) _ _
            (λ used.
              OnOk-bind (list_attributes fixed) _
                λ attrs e3. OnOk-ok ((list_attributes-Apart fixed).get attrs e3))
            (λ unused. OnOk-ok tt)

  scan_outcome-IsPlan :
      (plan : AllocationPlan) (number : ℕ)
      (r : Result LayoutError (Option (List ℕ × List Attribute)))
      → Sound plan
      → OnOk AttributesApart r
      → OnOk Sound (scan_outcome device decode hiberfil layout plan number r)
  unfolding scan_outcome
  scan_outcome-IsPlan plan number (err e) h k =
      OnOk-if (caught e) _ _ (λ c. OnOk-ok h) (λ c. OnOk-err e)
  scan_outcome-IsPlan plan number (ok none) h k = OnOk-ok h
  scan_outcome-IsPlan plan number (ok (some (fixed, attrs))) h k =
      scan_decoded-IsPlan plan number fixed attrs h (k.get (some (fixed, attrs)) refl)

  scan_records-IsPlan :
      (plan : AllocationPlan) (records : List (ℕ × List ℕ))
      → Sound plan
      → OnOk Sound (scan_records device decode hiberfil layout plan records)
  unfolding scan_records scan_record
  scan_records-IsPlan plan [] h = OnOk-ok h
  scan_records-IsPlan plan ((number, raw) ∷ records) h =
      OnOk-bind (scan_record device decode hiberfil layout plan number raw) _
        λ plan' made. scan_records-IsPlan plan' records (scanned.get plan' made)
    where
      scanned : OnOk Sound (scan_record device decode hiberfil layout plan number raw)
      scanned =
          OnOk-if (eq_bytes (slice raw 0 4) file_mark) _ _
            (λ is_file.
              scan_outcome-IsPlan plan number (decoded_record layout.volume.bytes_per_sector raw) h
                (decoded_record-Apart layout.volume.bytes_per_sector raw))
            (λ other. OnOk-ok h)

  -- A plan that _scan_allocation_plan returns has no two streams with the same key; every physical
  -- run of a stream ends inside the volume; a stream that may be moved belongs to a record from 24
  -- on that has no base record, and has at least one run and only physical ones; a stream that may
  -- not be moved has no mapping capacity.
  pub scan_allocation_plan-IsPlan : OnOk Sound (scan_allocation_plan device decode hiberfil layout)
  unfolding scan_allocation_plan
  scan_allocation_plan-IsPlan =
      OnOk-bind
        (scan_records device decode hiberfil layout no_plan (iter_mft_records device layout).0) _
        λ plan made. ended (iter_mft_records device layout).1 plan (
          (scan_records-IsPlan no_plan (iter_mft_records device layout).0
              (record { keys = tt; each = tt })).get
            plan made)
    where
      no_plan : AllocationPlan
      no_plan = record {
        streams = [];
        movable_count = 0;
        malformed_records = 0;
        hibernation_active = false;
      }

      ended :
          (raised : Option LayoutError) (plan : AllocationPlan)
          → Sound plan
          → OnOk Sound (elim raised [ none ↦ ok plan | some e ↦ err e ])
      ended none plan h = OnOk-ok h
      ended (some e) plan h = record { get = λ a q. absurd (cc) }
