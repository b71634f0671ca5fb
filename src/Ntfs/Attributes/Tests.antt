-- ===== src/Ntfs/Attributes/Tests.antt =====
-- Attributes of a record: a test, and an instance of the theorem.
use linux_defragger.Prelude.{
  ℕ, ◌≡◌, refl, true, some, none, List, [], ◌∷◌, ◌++◌, length, min, replicate, ok,
}
use linux_defragger.Bytes.{from_signed}
use linux_defragger.Ntfs.Runlist.{decode_runlist, decode_lcn, apply_delta}
use linux_defragger.Ntfs.Attributes.{Attribute, u16, u32, attributes}
use linux_defragger.Ntfs.Attributes.Inside.{Tiles, attributes-Tiles}

-- A record of 128 bytes with one attribute at byte 48, whose two clusters start at cluster 5.
abbrev data_record : List ℕ
data_record =
    (70 ∷ 73 ∷ 76 ∷ 69 ∷ 42 ∷ 0 ∷ 2 ∷ [])
    ++ (replicate 13 0
        ++ ((48 ∷ 0 ∷ 1 ∷ 0 ∷ 120 ∷ 0 ∷ 0 ∷ 0 ∷ 128 ∷ [])
            ++ (replicate 13 0
                ++ ((1 ∷ 0 ∷ 0 ∷ 0 ∷ 0 ∷ 0 ∷ 128 ∷ 0 ∷ 0 ∷ 0 ∷ 72 ∷ 0 ∷ 0 ∷ 0 ∷ 1 ∷ [])
                    ++ (replicate 15 0
                        ++ ((1 ∷ [])
                            ++ (replicate 7 0
                                ++ ((64 ∷ [])
                                    ++ (replicate 8 0
                                        ++ ((8 ∷ [])
                                            ++ (replicate 6 0
                                                ++ ((208 ∷ 7 ∷ [])
                                                    ++ (replicate 6 0
                                                        ++ ((208 ∷ 7 ∷ [])
                                                            ++ (replicate 6 0
                                                            ++ ((17 ∷ 2 ∷ 5 ∷ [])
                                                            ++ (replicate 11 0
                                                            ++ ((1 ∷ 0 ∷ [])))))))))))))))))))

abbrev data_attribute : Attribute
data_attribute = record {
  offset = 48;
  length = 72;
  atype = 0x80;
  name = [];
  flags = 0;
  nonresident = true;
  lowest_vcn = 0;
  highest_vcn = 1;
  run_offset = 64;
  runs = record { lcn = some 5; length = 2 } ∷ [];
  data_size = 2000;
  allocated_size = 2048;
  initialized_size = 2000;
}

finds : attributes data_record ≡ (data_attribute ∷ [], none)
unfolding attributes decode_runlist from_signed decode_lcn apply_delta
finds = refl

starts_at : u16 data_record 20 ≡ ok 48
unfolding u16
starts_at = refl

ends_at : u32 data_record 24 ≡ ok 120
unfolding u32
ends_at = refl

attributes-Tiles_example :
    Tiles data_record
      (min (length data_record) 120)
      48
      (attributes data_record).0
      (attributes data_record).1
attributes-Tiles_example = attributes-Tiles data_record 48 120 starts_at ends_at
