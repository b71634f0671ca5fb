-- ===== src/Ntfs/Compact/Tests.antt =====
-- Compacting: tests, and instances of the theorems.
use mathlib.Core.Bool.{not}
use linux_defragger.Prelude.{
  ℕ, suc, ◌-◌, ◌*◌, ◌≡◌, refl, Bool, true, false, ◌&&◌, Option, some, none, List, [], ◌∷◌, ltb, leb,
  ◌==◌, if◌then◌else◌, arith, Bool-cases, ltb→lt, inl, inr, Result, ok, err, length, replicate,
  ◌++◌,
}
use linux_defragger.Prelude.Int.{pos, ◌-ℤ◌}
use linux_defragger.Bytes.{bit_length}
use linux_defragger.Bytes.Tables.{holds_on, table_entry}
use linux_defragger.Ntfs.Runlist.{Run, unsigned_min_bytes, encode_lcn, signed_min_bytes}
use linux_defragger.Ntfs.Bitmap.{bit, set_head, set_bit, set_tail}
use linux_defragger.Ntfs.Patches.{set_runs}
use linux_defragger.Ntfs.Gaps.{limit_of}
use linux_defragger.Ntfs.Move.{ExtentMove}
use linux_defragger.Ntfs.NextGap.{next_free_run, free_gap_stats, defrag_destination_pool}
use linux_defragger.Ntfs.NextGap.Found.{IsNext, next_free_run-IsNext}
use linux_defragger.Ntfs.NextGap.Stats.{free_gap_stats-tally, defrag_destination_pool-free}
use linux_defragger.Ntfs.Patches.Touched.{in_runs}
use linux_defragger.Maps.Tally.{tally}
use linux_defragger.Ntfs.Attributes.{resident_attribute}
use linux_defragger.Ntfs.Compact.{
  StreamInfo, CompactError, Candidate, fits, plan_compact_extent_info, best_stream,
}
use linux_defragger.Ntfs.Compact.Loop.{CompactState, compact_loop, compact}
use linux_defragger.Ntfs.Compact.Fits.{Fitting, one_run, plan_compact_extent_info-Fitting}
use linux_defragger.Ntfs.Compact.Select.{Chooses, best_stream-Chooses}
use linux_defragger.Ntfs.Compact.Owned.{owners}
use linux_defragger.Ntfs.Compact.Rounds.{Sound, bit-inside}
use linux_defragger.Ntfs.Compact.Returns.{Ended, height, compact_loop-Sound}

abbrev one_byte : List ℕ
one_byte = 0x52 ∷ []

abbrev stream : ℕ → List Run → StreamInfo
stream number runs = record {
  record_number = number;
  base_record_number = 0;
  attribute_offset = 56;
  attribute_type = 0x80;
  flags = 0;
  runs = runs;
  movable = true;
  mapping_capacity = 8;
  generation = 0;
}

-- Clusters 4 and 6.
abbrev split_stream : StreamInfo
split_stream =
    stream 31 (record { lcn = some 4; length = 1 } ∷ record { lcn = some 6; length = 1 } ∷ [])

abbrev two_streams : List StreamInfo
two_streams = stream 30 (one_run 0 2) ∷ split_stream ∷ []

-- Clusters 0, 1, 4 and 6 are in use.
abbrev begun : CompactState
begun = record {
  bitmap = 0x53 ∷ [];
  streams = two_streams;
  packed_cursor = 2;
  current_high = 7;
  moved_transactions = 0;
  moved_clusters = 0;
  blocked_gaps = [];
}

-- A record of 64 bytes, with 24 of them in use.
abbrev record_bytes : List ℕ
record_bytes = replicate 24 0 ++ 24 ∷ 0 ∷ 0 ∷ 0 ∷ 64 ∷ 0 ∷ 0 ∷ 0 ∷ replicate 32 0

-- Records that have not changed.
abbrev unchanged : CompactState → StreamInfo → Result CompactError Candidate
unchanged s info = ok (record {
  record_number = info.record_number;
  record_offset = 0;
  record_raw = record_bytes;
  record_fixed = record_bytes;
  attribute = record (resident_attribute 0 24 0x80 [] 0) {
    nonresident = true;
    run_offset = 16;
    runs = info.runs;
  };
})

abbrev never : ℕ → Bool
never n = false

abbrev bitmap_of : Option (Result CompactError CompactState) → List ℕ
bitmap_of none = []
bitmap_of (some (err e)) = []
bitmap_of (some (ok s)) = s.bitmap

-- The split stream moves to clusters 2 and 3.
packs : bitmap_of (compact unchanged never 9 (0x53 ∷ []) two_streams 8) ≡ 0x0F ∷ []
unfolding compact bit_length bit unsigned_min_bytes encode_lcn signed_min_bytes ◌-ℤ◌ set_runs
    set_head set_bit set_tail
packs = refl

gap_at_two : next_free_run (0x53 ∷ []) 1 (pos 7) ≡ some (2, 2)
unfolding next_free_run bit
gap_at_two = refl

counts_gaps : free_gap_stats (0x53 ∷ []) (pos 7) 1 ≡ (2, 3, some 2)
unfolding free_gap_stats bit
counts_gaps = refl

pools :
    defrag_destination_pool (0x52 ∷ []) 8
    ≡ record { lcn = some 2; length = 2 } ∷ record { lcn = some 5; length = 1 } ∷ []
unfolding defrag_destination_pool bit
pools = refl

begun_table :
    holds_on 0 8 (λ u. owners u two_streams == (if bit (0x53 ∷ []) u then 1 else 0)) ≡ true
unfolding holds_on bit
begun_table = refl

begun-Sound : Sound (λ u. false) begun
begun-Sound = record {
  bytes = (omega arith, tt);
  keys = ((refl, tt), (tt, tt));
  bits = λ u. elim (Bool-cases (ltb u 8)) [
    | inl e ↦ ground (arith, table_entry 8 _ u (ltb→lt u 8 e) begun_table)
    | inr e ↦ elim (Bool-cases (bit (0x53 ∷ []) u)) [
      | inl used ↦ absurd (ground (arith, e, bit-inside (0x53 ∷ []) u used))
      | inr free ↦ rw free (ground (arith, e))
    ]
  ];
}

next_free_run-IsNext_example :
    IsNext (0x53 ∷ []) (limit_of (0x53 ∷ []) (pos 7)) 1 (next_free_run (0x53 ∷ []) 1 (pos 7))
next_free_run-IsNext_example = next_free_run-IsNext (0x53 ∷ []) 1 (pos 7)

abbrev split_move : ExtentMove
split_move = record {
  source_runs = split_stream.runs;
  destination_runs = one_run 2 2;
  new_runs = one_run 2 2;
}

split_fits :
    plan_compact_extent_info split_stream (record { lcn = some 2; length = 2 })
    ≡ ok (fits split_move)
unfolding plan_compact_extent_info unsigned_min_bytes encode_lcn signed_min_bytes ◌-ℤ◌
split_fits = refl

plan_compact_extent_info-Fitting_example : Fitting split_stream 2 2 split_move
plan_compact_extent_info-Fitting_example =
    plan_compact_extent_info-Fitting split_stream 2 2 split_move split_fits

-- One cluster, two clusters twice, the second time further up, and three clusters.
abbrev four_streams : List StreamInfo
four_streams =
    stream 30 (one_run 20 1)
    ∷ split_stream
    ∷ stream 32 (one_run 8 2)
    ∷ stream 33 (one_run 12 3)
    ∷ []

abbrev gap_of_two : Run
gap_of_two = record { lcn = some 2; length = 2 }

abbrev number_of : Result CompactError (Option (StreamInfo × ExtentMove)) → ℕ
number_of (err e) = 0
number_of (ok none) = 0
number_of (ok (some (info, move))) = info.record_number

-- The largest that fits, and of two as large the one further up.
picks_largest : number_of (best_stream gap_of_two none four_streams) ≡ 32
unfolding best_stream unsigned_min_bytes encode_lcn signed_min_bytes ◌-ℤ◌
picks_largest = refl

best_stream-Chooses_example :
    Chooses gap_of_two four_streams (best_stream gap_of_two none four_streams)
best_stream-Chooses_example = best_stream-Chooses gap_of_two four_streams

compact_loop-Sound_example :
    (r : Result CompactError CompactState) × (compact_loop unchanged never
        (suc (height begun))
        begun
      ≡ some r)
    × Ended (λ u. false) r
compact_loop-Sound_example =
    compact_loop-Sound unchanged never (λ u. false) (suc (height begun)) begun begun-Sound
      (omega arith)

free_gap_stats-tally_example :
    (free_gap_stats (0x53 ∷ []) (pos 7) 1).1
    ≡ tally (λ u. not (bit (0x53 ∷ []) u)) 1 (limit_of (0x53 ∷ []) (pos 7) - 1)
free_gap_stats-tally_example = free_gap_stats-tally (0x53 ∷ []) (pos 7) 1

defrag_destination_pool-free_example :
    in_runs (defrag_destination_pool one_byte 8) 5
    ≡ (leb 1 5 && ltb 5 (8 - 1) && ltb 5 (8 * length one_byte) && not (bit one_byte 5))
defrag_destination_pool-free_example = defrag_destination_pool-free one_byte 8 5
