-- ===== src/Ntfs/Move/Tests.antt =====
-- Moves on a small volume: tests, and instances of the theorems.
use linux_defragger.Prelude.{ℕ, ◌+◌, map, ◌≡◌, refl, ◌⊎◌, some, none, List, [], ◌∷◌, arith, ok}
use linux_defragger.Ntfs.Runlist.{Run}
use linux_defragger.Ntfs.Disk.{
  Disk, Journal, Stage, write_journal, write_volume_records, write_bitmap_patches, write_mft_record,
  remove_journal, write_bitmap_bytes,
}
use linux_defragger.Ntfs.Move.{
  Volume, Prepared, ExtentMove, any_sparse, copy_run_sequences, first_lcn, mark_dirty, reserve,
  switch_record, journal_state, advance, clusters_of, copy_loop, extents_of, finish, non_empty,
  release, move_extent, recover_again, recover, recover_loaded, validate_identity, affected_runs,
  complete_forward, roll_back,
}
use linux_defragger.Ntfs.Bitmap.{set_head, set_bit, set_tail, set_bytes, set_range, with_bit}
use linux_defragger.Ntfs.Patches.{
  set_runs, current_bitmap_patches, bitmap_patches_for_runs, byte_ranges, insert_range, join_onto,
  join_sorted, range_le, sort_ranges, touched_ranges,
}
use linux_defragger.Ntfs.Move.Invariant
use linux_defragger.Ntfs.Move.Recovery
use linux_defragger.Ntfs.Move.Crash.{
  IsSafe, Kept, Copied, Untouched, Moved, RolledBack, Recoverable, move_extent-Ends,
  move_extent-crash_safe,
}
use linux_defragger.Ntfs.Move.Addresses.{CopiedTo}
use linux_defragger.Ntfs.Move.Copy as Copy
use linux_defragger.Ntfs.Disk.Rules.{Ends}
use linux_defragger.Ntfs.Move.Returns.{move_extent-returns, recover_loaded-returns}

-- A volume with 16 clusters of 2 bytes; clusters 9 and 10 are to move to 3 and 4.
abbrev volume : Volume
volume = record {
  path = 0;
  device_size = 32;
  bytes_per_sector = 2;
  sectors_per_cluster = 1;
  cluster_size = 2;
  total_clusters = 16;
  mft_lcn = 1;
  mftmirr_lcn = 2;
  mft_record_size = 2;
  serial = 77;
}

abbrev prepared : Prepared
prepared = record {
  record_raw = 1 ∷ 9 ∷ [];
  new_record = 1 ∷ 3 ∷ [];
  volume_before = 5 ∷ 0 ∷ [];
  volume_dirtied = 5 ∷ 1 ∷ [];
  mirror_before = 6 ∷ 0 ∷ [];
  mirror_dirtied = 6 ∷ 1 ∷ [];
  bitmap = 7 ∷ 6 ∷ [];
}

abbrev source : List Run
source = record { lcn = some 9; length = 2 } ∷ []

abbrev destination : List Run
destination = record { lcn = some 3; length = 2 } ∷ []

abbrev move : ExtentMove
move = record { source_runs = source; destination_runs = destination; new_runs = destination }

abbrev start : ℕ → Disk
start budget = record {
  bytes = λ a. a;
  record_image = 1 ∷ 9 ∷ [];
  bitmap = 7 ∷ 6 ∷ [];
  volume_image = 5 ∷ 0 ∷ [];
  mirror_image = 6 ∷ 0 ∷ [];
  journal = none;
  budget = budget;
  torn = 1 ∷ 0 ∷ [];
}

abbrev after_power_loss : Disk
after_power_loss =
    recover_again volume ((2, 0 ∷ 0 ∷ []) ∷ (20, []) ∷ [])
      (move_extent volume prepared move (start 9)).1

-- The move in full: 12 is 0b1100, what is left of 0b111 with clusters 3 and 4 set is 31.
moves : (move_extent volume prepared move (start 100)).0 ≡ ok (31 ∷ 0 ∷ [])
unfolding any_sparse copy_run_sequences first_lcn mark_dirty reserve switch_record journal_state
    advance clusters_of copy_loop extents_of finish non_empty release move_extent write_journal
    write_volume_records write_bitmap_patches write_mft_record remove_journal write_bitmap_bytes
    set_head set_bit set_tail set_bytes set_range with_bit set_runs current_bitmap_patches
    bitmap_patches_for_runs byte_ranges insert_range join_onto join_sorted range_le sort_ranges
    touched_ranges
moves = refl

start-Untouched : (n : ℕ) → Untouched volume prepared move (λ a. a) (start n)
start-Untouched n = record {
  no_journal = refl;
  image = refl;
  bitmap = refl;
  volume_image = refl;
  mirror_image = refl;
  data_kept = λ a h. refl;
}

move-IsPrepared :
    (Kept Copied : (ℕ → ℕ) → Type 0) → Recovery.IsPrepared volume prepared move Kept Copied
unfolding clusters_of
move-IsPrepared Kept Copied = record {
  bytes = (omega arith, (omega arith, tt));
  source_fits = (omega arith, tt);
  destination_fits = (omega arith, tt);
  same_length = refl;
  some_clusters = omega arith;
  raw_size = refl;
  new_size = refl;
  volume_size = refl;
  mirror_size = refl;
}

move-IsSafe : IsSafe volume prepared move (λ a. a)
move-IsSafe = record {
  prepared = move-IsPrepared _ _;
  cluster_positive = omega arith;
  apart = ground arith;
  distinct = ground arith;
}

-- Power fails at the tenth write, then at the third of the first recovery.
recovered : after_power_loss.record_image ≡ 1 ∷ 3 ∷ []
unfolding any_sparse copy_run_sequences first_lcn mark_dirty reserve switch_record journal_state
    advance clusters_of copy_loop extents_of finish non_empty release move_extent write_journal
    write_volume_records write_bitmap_patches write_mft_record remove_journal write_bitmap_bytes
    set_head set_bit set_tail set_bytes set_range with_bit set_runs current_bitmap_patches
    bitmap_patches_for_runs byte_ranges insert_range join_onto join_sorted range_le sort_ranges
    touched_ranges recover_again recover recover_loaded validate_identity affected_runs
    complete_forward roll_back
recovered = refl

closed : after_power_loss.journal ≡ none
unfolding any_sparse copy_run_sequences first_lcn mark_dirty reserve switch_record journal_state
    advance clusters_of copy_loop extents_of finish non_empty release move_extent write_journal
    write_volume_records write_bitmap_patches write_mft_record remove_journal write_bitmap_bytes
    set_head set_bit set_tail set_bytes set_range with_bit set_runs current_bitmap_patches
    bitmap_patches_for_runs byte_ranges insert_range join_onto join_sorted range_le sort_ranges
    touched_ranges recover_again recover recover_loaded validate_identity affected_runs
    complete_forward roll_back
closed = refl

move_extent-crash_safe_example :
    Untouched volume prepared move (λ a. a) after_power_loss
    ⊎ (Moved volume prepared move (λ a. a) after_power_loss
        ⊎ RolledBack volume prepared move (λ a. a) after_power_loss)
move_extent-crash_safe_example =
    move_extent-crash_safe volume prepared move (λ a. a) move-IsSafe (start 9)
      ((2, 0 ∷ 0 ∷ []) ∷ (20, []) ∷ []) refl (start-Untouched 9) closed

move_extent-Ends_example :
    Ends
      (Recoverable volume prepared move (λ a. a))
      (λ _. Moved volume prepared move (λ a. a))
      (move_extent volume prepared move (start 9))
move_extent-Ends_example =
    move_extent-Ends volume prepared move (λ a. a) move-IsSafe (start 9) refl (start-Untouched 9)

-- The source's data at the destination, byte by byte.
abbrev HasCopy : (ℕ → ℕ) → Type 0
HasCopy f = map f (6 ∷ 7 ∷ 8 ∷ 9 ∷ []) ≡ 18 ∷ 19 ∷ 20 ∷ 21 ∷ []

abbrev journal_of_move : Stage → Journal
journal_of_move = Invariant.state volume prepared move HasCopy HasCopy

-- Power has failed while the record was written.
abbrev torn_record : Disk
torn_record = record {
  bytes = λ a. a + 12;
  record_image = 1 ∷ 0 ∷ [];
  bitmap = 7 ∷ 6 ∷ [];
  volume_image = 5 ∷ 1 ∷ [];
  mirror_image = 6 ∷ 1 ∷ [];
  journal = some (journal_of_move Stage.destination_allocated);
  budget = 20;
  torn = [];
}

torn_record-Pending : Invariant.Pending volume prepared move HasCopy HasCopy torn_record
torn_record-Pending = record {
  stage = Stage.destination_allocated;
  journalled = refl;
  agrees = Invariant.Agrees-refl _ _ (omega arith, (omega arith, tt));
  data_copied = refl;
}

recover_loaded-Ends_example :
    Ends
      (Invariant.Pending volume prepared move HasCopy HasCopy)
      (λ _. Recovery.Settled volume prepared move HasCopy HasCopy)
      (recover_loaded volume (journal_of_move Stage.destination_allocated) torn_record)
recover_loaded-Ends_example =
    Recovery.recover_loaded-Ends volume prepared move HasCopy HasCopy (move-IsPrepared _ _)
      Stage.destination_allocated torn_record torn_record-Pending

-- Bytes 18 to 21 go to 6 to 9.
copy_run_sequences-Ends_example :
    Ends
      (λ _. Unit {0})
      (λ _ d'.
        (g : ℕ → ℕ) × (n : ℕ) × (d' ≡ record (start 1) { bytes = g; budget = n })
        × CopiedTo (λ a. a) g (18 ∷ 19 ∷ 20 ∷ 21 ∷ []) (6 ∷ 7 ∷ 8 ∷ 9 ∷ []))
      (copy_run_sequences 2 source destination (start 1))
unfolding clusters_of
copy_run_sequences-Ends_example =
    Copy.copy_run_sequences-Ends (λ _. Unit {0}) 2 16 source destination (start 1) (omega arith)
      (omega arith, tt) (omega arith, tt) refl (ground arith) (ground arith) (λ g n k. tt)

move_extent-returns_example :
    (released : List ℕ) × (d' : Disk) × (move_extent volume prepared move (start 100)
      ≡ (ok released, d'))
    × Moved volume prepared move (λ a. a) d'
unfolding clusters_of bitmap_patches_for_runs
move_extent-returns_example =
    move_extent-returns volume prepared move (λ a. a) move-IsSafe (start 100) refl
      (start-Untouched 100) (omega arith)

recover_loaded-returns_example :
    (d' : Disk) × (recover_loaded volume (journal_of_move Stage.destination_allocated) torn_record
      ≡ (ok tt, d'))
    × Recovery.Settled volume prepared move HasCopy HasCopy d'
unfolding bitmap_patches_for_runs
recover_loaded-returns_example =
    recover_loaded-returns volume prepared move HasCopy HasCopy (move-IsPrepared _ _)
      Stage.destination_allocated torn_record torn_record-Pending (omega arith)
