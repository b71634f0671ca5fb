-- ===== src/Ntfs/Defrag/Tests.antt =====
-- Defragmenting: a test.
use linux_defragger.Prelude.{
  ◌≡◌, ℕ, ◌+◌, refl, Bool, true, false, some, List, [], ◌∷◌, ◌++◌, ok, err, Result, replicate,
  arith, Bool-cases, inl, inr, ltb, ltb→lt, ◌==◌, if◌then◌else◌,
}
use linux_defragger.Prelude.Int.{◌-ℤ◌}
use linux_defragger.Bytes.{bit_length}
use linux_defragger.Ntfs.Runlist.{Run, unsigned_min_bytes, encode_lcn, signed_min_bytes}
use linux_defragger.Ntfs.Bitmap.{bit, set_head, set_bit, set_tail}
use linux_defragger.Ntfs.Patches.{set_runs}
use linux_defragger.Ntfs.Attributes.{resident_attribute}
use linux_defragger.Ntfs.Compact.{StreamInfo, Candidate, CompactError}
use linux_defragger.Bytes.Tables.{holds_on, table_entry}
use linux_defragger.Ntfs.Compact.Owned.{owners}
use linux_defragger.Ntfs.Compact.Rounds.{Agrees, bit-inside}
use linux_defragger.Ntfs.Defrag.{DefragState, Key, DefragError, defragment}
use linux_defragger.Ntfs.Defrag.Outcome.{Fine}
use linux_defragger.Ntfs.Defrag.Steps.{Sound}
use linux_defragger.Ntfs.Defrag.Passes.{defragment-Fine}

abbrev run : ℕ → ℕ → Run
run lcn n = record { lcn = some lcn; length = n }

abbrev stream : List Run → ℕ → StreamInfo
stream runs generation = record {
  record_number = 31;
  base_record_number = 0;
  attribute_offset = 72;
  attribute_type = 0x80;
  flags = 0;
  runs = runs;
  movable = true;
  mapping_capacity = 8;
  generation = generation;
}

-- A record in one sector of 128 bytes: its array at byte 40, 96 bytes in use, and the attribute from
-- byte 72 on.
abbrev bytes : List ℕ
bytes =
    0 ∷ 0 ∷ 0 ∷ 0 ∷ 40 ∷ 0 ∷ 2 ∷ replicate 17 0
    ++ (96 ∷ 0 ∷ 0 ∷ 0 ∷ 128 ∷ 0 ∷ 0 ∷ 0 ∷ replicate 96 0)

-- The record is read again as the plan has it.
abbrev unchanged : DefragState → StreamInfo → Result CompactError Candidate
unchanged s info = ok (record {
  record_number = info.record_number;
  record_offset = 0;
  record_raw = bytes;
  record_fixed = bytes;
  attribute = record (resident_attribute 72 24 0x80 [] 0) {
    nonresident = true;
    highest_vcn = 1;
    run_offset = 16;
    runs = info.runs;
  };
})

abbrev never : ℕ → Bool
never n = false

abbrev outcome : Result DefragError DefragState → List ℕ × List StreamInfo × List Key × List Key
outcome (err e) = ([], [], [], [])
outcome (ok s) = (s.bitmap, s.streams, s.pending, s.moved_keys)

-- Clusters 1 and 3 of the stream go to clusters 4 and 5, and then down to 1 and 2.
settles :
    outcome (defragment unchanged 128 never (0x0B ∷ []) (stream (run 1 1 ∷ run 3 1 ∷ []) 0 ∷ []) 8)
    ≡ (0x07 ∷ [], stream (run 1 2 ∷ []) 2 ∷ [], [], (31, 72) ∷ [])
unfolding defragment bit bit_length unsigned_min_bytes encode_lcn signed_min_bytes ◌-ℤ◌ set_runs
    set_head set_bit set_tail
settles = refl

abbrev plan : List StreamInfo
plan = stream (run 1 1 ∷ run 3 1 ∷ []) 0 ∷ []

-- Cluster 0 belongs to no stream.
abbrev boot : ℕ → Bool
boot u = u == 0

agrees_table :
    holds_on 0 8
      (λ u. (if boot u then 1 else 0) + owners u plan == (if bit (0x0B ∷ []) u then 1 else 0))
    ≡ true
unfolding holds_on bit
agrees_table = refl

plan-Agrees : Agrees boot (0x0B ∷ []) plan
plan-Agrees = record {
  bytes = (omega arith, tt);
  keys = (tt, tt);
  bits = λ u. elim (Bool-cases (ltb u 8)) [
    | inl e ↦ ground (arith, table_entry 8 _ u (ltb→lt u 8 e) agrees_table)
    | inr e ↦ elim (Bool-cases (bit (0x0B ∷ []) u)) [
      | inl used ↦ absurd (ground (arith, e, bit-inside (0x0B ∷ []) u used))
      | inr free ↦ rw free (ground (arith, e))
    ]
  ];
}

read_runs :
    (s : DefragState) (info : StreamInfo) (c : Candidate)
    → unchanged s info ≡ ok c
    → c.attribute.runs ≡ info.runs
read_runs s info c e = cc

defragment-Fine_example : Fine (Sound boot) (defragment unchanged 128 never (0x0B ∷ []) plan 8)
defragment-Fine_example =
    defragment-Fine unchanged 128 boot read_runs never (0x0B ∷ []) plan 8 plan-Agrees
      (λ info m movable. elim m [
        | inl e ↦ rw e (1, refl, omega arith, omega arith, (3, refl, omega arith, omega arith, tt))
        | inr n ↦ elim n [ ]
      ])
