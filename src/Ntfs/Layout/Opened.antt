-- ===== src/Ntfs/Layout/Opened.antt =====
-- What `_open_volume` has made sure of.
use native.Mathlib.Nat.{mul_comm, mul_assoc, mul-le-mul_right, mul-div-le}
use native.Mathlib.Nat.{le_trans}
use linux_defragger.Prelude.{
  ℕ, ◌-◌, ◌*◌, ◌/◌, ◌%◌, ◌<◌, ◌≤◌, ◌≡◌, refl, ap, ◌∙◌, sym, Bool, true, false, ◌||◌, List, ltb,
  ◌==◌, ==_iff, length, get_or, arith, OnOk, OnOk-ok, OnOk-bind, OnOk-guard,
}
use linux_defragger.Bytes.{pow2, bit_length}
use linux_defragger.Bytes.Tables.{holds_on, table_entry}
use linux_defragger.Ntfs.Disk.{slice}
use linux_defragger.Ntfs.Move.{Volume, eq_bytes}
use linux_defragger.Ntfs.Attributes.{
  not_ntfs, bad_sector_size, bad_cluster_sectors, big_cluster, past_device, bad_record_size, u16,
  u64,
}
use linux_defragger.Ntfs.Layout.{ntfs_name, boot_mark, two_bits, record_size_of, open_volume, not_b}

-- Sectors and clusters are powers of two, the clusters lie on the device, and records are whole
-- sectors.
pub record IsVolume (v : Volume) : Type 0 where
  pub sector : (k : ℕ) × (v.bytes_per_sector ≡ pow2 k)
  pub sector_least : 256 ≤ v.bytes_per_sector
  pub sector_most : v.bytes_per_sector ≤ 4096
  pub per_cluster : (k : ℕ) × (v.sectors_per_cluster ≡ pow2 k)
  pub cluster : v.cluster_size ≡ v.bytes_per_sector * v.sectors_per_cluster
  pub cluster_most : v.cluster_size ≤ 65536
  pub inside : v.total_clusters * v.cluster_size ≤ v.device_size
  pub record_least : 512 ≤ v.mft_record_size
  pub record_most : v.mft_record_size ≤ 1048576
  pub record_sectors : v.mft_record_size % v.bytes_per_sector ≡ 0

first_false : (a b : Bool) → (a || b) ≡ false → a ≡ false
first_false a b h = ground (arith, h)

last_false : (a b : Bool) → (a || b) ≡ false → b ≡ false
last_false a b h = ground (arith, h)

-- A number with one bit is the power of two of that bit.
abbrev one_bit : ℕ → Bool
one_bit n = n == 0 || two_bits n || n == pow2 (bit_length n - 1)

one_bit_table : holds_on 0 4097 one_bit ≡ true
unfolding holds_on pow2 bit_length
one_bit_table = refl

pow2-two_bits : (n : ℕ) → n < 4097 → (n == 0) ≡ false → two_bits n ≡ false → (k : ℕ) × (n ≡ pow2 k)
pow2-two_bits n p z b =
    let entry : one_bit n ≡ true = table_entry 4097 one_bit n p one_bit_table in
    let found : (n == pow2 (bit_length n - 1)) ≡ true = rw (z, b) at entry in
    (bit_length n - 1, (==_iff n _).0 found)

whole_clusters : (sectors bps spc : ℕ) → sectors / spc * (bps * spc) ≤ sectors * bps
whole_clusters sectors bps spc =
    let e : sectors / spc * (bps * spc) ≡ spc * (sectors / spc) * bps =
      ap (λ n. sectors / spc * n) (mul_comm bps spc)
      ∙ sym (mul_assoc (sectors / spc) spc bps)
      ∙ ap (λ n. n * bps) (mul_comm (sectors / spc) spc) in
    rw e (mul-le-mul_right bps (mul-div-le sectors spc))

-- The volume that is made after all tests.
made :
    (path device_size bps spc sectors mft mirror size serial : ℕ)
    → (ltb bps 256 || ltb 4096 bps || two_bits bps) ≡ false
    → (spc == 0 || two_bits spc) ≡ false
    → ltb 65536 (bps * spc) ≡ false
    → ltb device_size (sectors * bps) ≡ false
    → (ltb size 512 || ltb 1048576 size || not_b (size % bps == 0)) ≡ false
    → IsVolume (record {
      path = path;
      device_size = device_size;
      bytes_per_sector = bps;
      sectors_per_cluster = spc;
      cluster_size = bps * spc;
      total_clusters = sectors / spc;
      mft_lcn = mft;
      mftmirr_lcn = mirror;
      mft_record_size = size;
      serial = serial;
    })
made path device_size bps spc sectors mft mirror size serial sector units cluster fits sized =
    let least : 256 ≤ bps = ground (arith, sector) in
    let most : bps ≤ 4096 = ground (arith, sector) in
    let bits : two_bits bps ≡ false = last_false (ltb bps 256 || ltb 4096 bps) _ sector in
    let bits' : two_bits spc ≡ false = last_false (spc == 0) _ units in
    let some_units : (spc == 0) ≡ false = first_false (spc == 0) _ units in
    let within : bps * spc ≤ 65536 = ground (arith, cluster) in
    let few : 256 * spc ≤ bps * spc = mul-le-mul_right spc least in
    record {
      sector = pow2-two_bits bps (omega (arith, most)) (ground (arith, least)) bits;
      sector_least = least;
      sector_most = most;
      per_cluster = pow2-two_bits spc (omega (arith, few, within)) some_units bits';
      cluster = refl;
      cluster_most = within;
      inside = le_trans (whole_clusters sectors bps spc) (ground (arith, fits));
      record_least = ground (arith, sized);
      record_most = ground (arith, sized);
      record_sectors = ground (arith, sized);
    }

-- A volume that _open_volume returns is well formed: sectors have a power of two of bytes, from 256
-- to 4096, and clusters a power of two of sectors, and at most 65536 bytes; all clusters lie on the
-- device; and an MFT record has from 512 to 1048576 bytes, in whole sectors.
pub open_volume-IsVolume :
    (path device_size : ℕ) (boot : List ℕ) → OnOk IsVolume (open_volume path device_size boot)
unfolding open_volume
open_volume-IsVolume path device_size boot =
    OnOk-guard
      (not_b (length boot == 512)
        || not_b (eq_bytes (slice boot 3 11) ntfs_name)
        || not_b (eq_bytes (slice boot 510 512) boot_mark))
      not_ntfs _
      λ ntfs. OnOk-bind (u16 boot 11) _ λ bps e1.
        OnOk-guard (ltb bps 256 || ltb 4096 bps || two_bits bps) bad_sector_size _ λ sector.
          OnOk-guard (get_or boot 13 0 == 0 || two_bits (get_or boot 13 0)) bad_cluster_sectors _
            λ units. OnOk-guard (ltb (64 * 1024) (bps * get_or boot 13 0)) big_cluster _ λ cluster.
              OnOk-bind (u64 boot 40) _ λ sectors e2.
                OnOk-guard (ltb device_size (sectors * bps)) past_device _ λ fits.
                  OnOk-bind (u64 boot 48) _ λ mft_lcn e3.
                    OnOk-bind (u64 boot 56) _ λ mftmirr_lcn e4.
                      OnOk-guard
                        (ltb (record_size_of (bps * get_or boot 13 0) (get_or boot 64 0)) 512
                          || ltb (1024 * 1024)
                              (record_size_of (bps * get_or boot 13 0) (get_or boot 64 0))
                          || not_b (
                              record_size_of (bps * get_or boot 13 0) (get_or boot 64 0) % bps
                              == 0))
                        bad_record_size _
                        λ sized. OnOk-ok (
                          made path device_size bps (get_or boot 13 0) sectors mft_lcn mftmirr_lcn
                            (record_size_of (bps * get_or boot 13 0) (get_or boot 64 0)) _ sector
                            units cluster fits sized)
