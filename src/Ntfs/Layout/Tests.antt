-- ===== src/Ntfs/Layout/Tests.antt =====
-- Opening a volume and scanning it: tests, and instances of the theorems.
use linux_defragger.Prelude.{
  ℕ, ◌≡◌, refl, Bool, false, some, List, [], ◌∷◌, ◌++◌, replicate, get_or, ok, err, OnOk,
}
use linux_defragger.Bytes.{from_signed}
use linux_defragger.Ntfs.Runlist.{decode_runlist, decode_lcn, apply_delta}
use linux_defragger.Ntfs.Move.{Volume}
use linux_defragger.Ntfs.Attributes.{past_device}
use linux_defragger.Ntfs.Layout.{NtfsLayout, open_volume}
use linux_defragger.Ntfs.Layout.Opened.{IsVolume, open_volume-IsVolume}
use linux_defragger.Ntfs.Layout.Scan.Plan.{AllocationPlan, scan_allocation_plan}
use linux_defragger.Ntfs.Layout.Scan.Streams.{IsPlan}
use linux_defragger.Ntfs.Layout.Scan.Sound.{scan_allocation_plan-IsPlan}

-- 64 sectors of 512 bytes, two to a cluster, and records of 1,024 bytes.
abbrev boot_sector : List ℕ
boot_sector =
    (0 ∷ 0 ∷ 0 ∷ 78 ∷ 84 ∷ 70 ∷ 83 ∷ 32 ∷ 32 ∷ 32 ∷ 32 ∷ 0 ∷ 2 ∷ 2 ∷ [])
    ++ (replicate 26 0
        ++ ((64 ∷ [])
            ++ (replicate 7 0
                ++ ((4 ∷ [])
                    ++ (replicate 7 0
                        ++ ((8 ∷ [])
                            ++ (replicate 7 0
                                ++ ((246 ∷ [])
                                    ++ (replicate 7 0
                                        ++ ((77 ∷ 1 ∷ [])
                                            ++ (replicate 436 0 ++ ((85 ∷ 170 ∷ [])))))))))))))

abbrev opened : Volume
opened = record {
  path = 7;
  device_size = 32768;
  bytes_per_sector = 512;
  sectors_per_cluster = 2;
  cluster_size = 1024;
  total_clusters = 32;
  mft_lcn = 4;
  mftmirr_lcn = 8;
  mft_record_size = 1024;
  serial = 333;
}

opens : open_volume 7 32768 boot_sector ≡ ok opened
unfolding open_volume
opens = refl

too_small : open_volume 7 32767 boot_sector ≡ err past_device
unfolding open_volume
too_small = refl

open_volume-IsVolume_example : OnOk IsVolume (open_volume 7 32768 boot_sector)
open_volume-IsVolume_example = open_volume-IsVolume 7 32768 boot_sector

-- Record zero, in one sector of 128 bytes: two clusters from cluster 5 on.
abbrev data_record : List ℕ
data_record =
    (70 ∷ 73 ∷ 76 ∷ 69 ∷ 42 ∷ 0 ∷ 2 ∷ [])
    ++ (replicate 13 0
        ++ ((48 ∷ 0 ∷ 1 ∷ 0 ∷ 120 ∷ 0 ∷ 0 ∷ 0 ∷ 128 ∷ [])
            ++ (replicate 13 0
                ++ ((1 ∷ 0 ∷ 0 ∷ 0 ∷ 0 ∷ 0 ∷ 128 ∷ 0 ∷ 0 ∷ 0 ∷ 72 ∷ 0 ∷ 0 ∷ 0 ∷ 1 ∷ [])
                    ++ (replicate 15 0
                        ++ ((1 ∷ [])
                            ++ (replicate 7 0
                                ++ ((64 ∷ [])
                                    ++ (replicate 8 0
                                        ++ ((8 ∷ [])
                                            ++ (replicate 6 0
                                                ++ ((208 ∷ 7 ∷ [])
                                                    ++ (replicate 6 0
                                                        ++ ((208 ∷ 7 ∷ [])
                                                            ++ (replicate 6 0
                                                            ++ ((17 ∷ 2 ∷ 5 ∷ [])
                                                            ++ (replicate 11 0
                                                            ++ ((1 ∷ 0 ∷ [])))))))))))))))))))

abbrev image : ℕ → ℕ
image u = get_or data_record u 0

abbrev layout : NtfsLayout
layout = record {
  volume = record {
    path = 7;
    device_size = 2048;
    bytes_per_sector = 128;
    sectors_per_cluster = 1;
    cluster_size = 128;
    total_clusters = 16;
    mft_lcn = 0;
    mftmirr_lcn = 1;
    mft_record_size = 128;
    serial = 333;
  };
  mft_runs = record { lcn = some 0; length = 1 } ∷ [];
  mft_data_size = 128;
  bitmap_runs = [];
  bitmap_data_size = 0;
  bitmap = [];
}

-- Names as the numbers of their bytes; none is that of a hibernation image.
abbrev as_bytes : List ℕ → List ℕ
as_bytes bytes = bytes

abbrev no_image : List ℕ → Bool
no_image name = false

abbrev found_plan : AllocationPlan
found_plan = record {
  streams =
      record {
        record_number = 0;
        base_record_number = 0;
        attribute_offset = 48;
        attribute_type = 0x80;
        flags = 0;
        runs = record { lcn = some 5; length = 2 } ∷ [];
        movable = false;
        mapping_capacity = 0;
        generation = 0;
      }
      ∷ [];
  movable_count = 0;
  malformed_records = 0;
  hibernation_active = false;
}

scans : scan_allocation_plan image as_bytes no_image layout ≡ ok found_plan
unfolding scan_allocation_plan decode_runlist from_signed decode_lcn apply_delta
scans = refl

scan_allocation_plan-IsPlan_example :
    OnOk (λ plan. IsPlan 16 plan.streams) (scan_allocation_plan image as_bytes no_image layout)
scan_allocation_plan-IsPlan_example = scan_allocation_plan-IsPlan image as_bytes no_image layout
