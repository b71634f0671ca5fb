-- ===== src/Ntfs/Move/Enough.antt =====
-- How many writes the parts of a move and of a recovery make.
use linux_defragger.Prelude.{
  ℕ, zero, suc, ◌+◌, ◌*◌, ◌≤◌, ◌≡◌, refl, ap, Bool, true, false, List, [], ◌∷◌, ◌++◌, length, ◌==◌,
  ◌&&◌, if◌then◌else◌, arith,
}
use linux_defragger.Ntfs.Runlist.{Run}
use linux_defragger.Ntfs.Disk.{
  Disk, Journal, Stage, ◌>>◌, write_on, pure, write_bitmap_patches, write_volume_records,
  write_mft_record, write_journal, remove_journal, different_target, size_changed, serial_differs,
  sparse_run, lengths_differ, index_error, invalid_image, volume_image_invalid, no_snapshots,
}
use linux_defragger.Ntfs.Disk.Budget.{
  Spends, Spends-more, Spends-continue, Spends-or_raise, Spends-raise_if, Spends-guard,
  Spends-write_on, write_mft_record-Spends, write_volume_records-Spends,
  write_bitmap_patches-Spends,
}
use linux_defragger.Ntfs.Patches.{set_runs, current_bitmap_patches, bitmap_patches_for_runs}
use linux_defragger.Ntfs.Move.{
  Volume, Prepared, ExtentMove, Extent, journal_state, clusters_of, any_sparse, eq_bytes, non_empty,
  extents_of, copy_loop, copy_run_sequences, mark_dirty, reserve, switch_record, release, finish,
  validate_identity, affected_runs, complete_forward, roll_back, recover_loaded,
}

length-current_bitmap_patches :
    (bitmap : List ℕ) (snapshots : List (ℕ × List ℕ))
    → length (current_bitmap_patches bitmap snapshots) ≡ length snapshots
unfolding current_bitmap_patches
length-current_bitmap_patches bitmap [] = refl
length-current_bitmap_patches bitmap (s ∷ snapshots) =
    ap suc (length-current_bitmap_patches bitmap snapshots)

-- The current bytes of a list of snapshots.
current-Spends :
    (bitmap : List ℕ) (snapshots : List (ℕ × List ℕ)) (d : Disk)
    → length snapshots ≤ d.budget
    → Spends
        (length snapshots)
        d.budget
        (write_bitmap_patches (current_bitmap_patches bitmap snapshots) d)
current-Spends bitmap snapshots d h =
    let e = length-current_bitmap_patches bitmap snapshots in
    rw e at (write_bitmap_patches-Spends (current_bitmap_patches bitmap snapshots) d (rw e h))

validate_identity-Spends :
    (volume : Volume) (state : Journal) (d : Disk)
    → Spends 0 d.budget (validate_identity volume state d)
unfolding validate_identity
validate_identity-Spends volume state d =
    Spends-raise_if 0 d.budget (if state.device == volume.path then false else true)
      different_target d _ refl
      (Spends-raise_if 0 d.budget (if state.device_size == volume.device_size then false else true)
        size_changed d _ refl
        (Spends-guard (if state.serial == volume.serial then false else true) serial_differs d
          refl))

affected_runs-Spends : (state : Journal) (d : Disk) → Spends 0 d.budget (affected_runs state d)
unfolding affected_runs
affected_runs-Spends state d =
    Spends-raise_if 0 d.budget (any_sparse state.released_runs) sparse_run d _ refl (
      Spends-raise_if 0 d.budget (any_sparse state.destination_runs) sparse_run d _ refl (
        Spends-guard
          (if clusters_of state.released_runs == clusters_of state.destination_runs
            then false
            else true)
          lengths_differ d refl))

branch-Spends :
    (c : Bool) (state : Journal) (bitmap : List ℕ) (d : Disk)
    → 1 + length state.bitmap_before ≤ d.budget
    → Spends
        (1 + length state.bitmap_before)
        d.budget
        ((if c then complete_forward state bitmap else roll_back state) d)
unfolding complete_forward roll_back
branch-Spends true state bitmap d h =
    let n = 1 + length state.bitmap_before in
    Spends-or_raise n d.budget (set_runs bitmap state.destination_runs true) index_error d _ refl
      (λ reserved.
        Spends-or_raise n d.budget (set_runs reserved state.released_runs false) index_error d _
          refl
          (λ released.
            Spends-more (length state.bitmap_before) n d.budget d.budget _
              (current-Spends released state.bitmap_before d (omega (arith, h))) (omega arith)))
branch-Spends false state bitmap d h =
    Spends-continue 1 (length state.bitmap_before) _ d.budget
      (write_mft_record state.record_before d) _
      (write_mft_record-Spends state.record_before d (omega (arith, h))) (omega arith) h
      (λ _ d' p. write_bitmap_patches-Spends state.bitmap_before d' p)

abbrev bad_sizes : Volume → List ℕ → List ℕ → Bool
bad_sizes volume one two =
    if length one == volume.mft_record_size && length two == volume.mft_record_size
    then false
    else true

pub recover_loaded-Spends :
    (volume : Volume) (state : Journal) (d : Disk)
    → 4 + length state.bitmap_before ≤ d.budget
    → Spends (4 + length state.bitmap_before) d.budget (recover_loaded volume state d)
unfolding recover_loaded remove_journal
recover_loaded-Spends volume state d h =
    let n = 4 + length state.bitmap_before in
    Spends-continue 0 n n d.budget (validate_identity volume state d) _
      (validate_identity-Spends volume state d) (omega arith) h
      (λ _ d1 p1.
        Spends-raise_if n d1.budget (bad_sizes volume state.record_before state.record_after)
          invalid_image d1 _ refl
          (Spends-continue 0 n n d1.budget (affected_runs state d1) _
            (affected_runs-Spends state d1) (omega arith) p1
            (λ _ d2 p2.
              Spends-raise_if n d2.budget (elim state.bitmap_before [ [] ↦ true | _ ∷ _ ↦ false ])
                no_snapshots d2 _ refl
                (Spends-continue (1 + length state.bitmap_before) 3 n d2.budget
                  ((if eq_bytes d1.record_image state.record_after
                      then complete_forward state d.bitmap
                      else roll_back state)
                    d2)
                  _
                  (branch-Spends (eq_bytes d1.record_image state.record_after) state d.bitmap d2
                    (omega (arith, p2)))
                  (omega arith) p2
                  (λ _ d3 p3.
                    Spends-raise_if 3 d3.budget
                      (bad_sizes volume state.volume_before state.mirror_before)
                      volume_image_invalid d3 _ refl
                      (Spends-continue 2 1 3 d3.budget
                        (write_volume_records state.volume_before state.mirror_before d3) _
                        (write_volume_records-Spends _ _ d3 (omega (arith, p3))) (omega arith) p3
                        (λ _ d4 p4. Spends-write_on d4.budget d4 _ p4)))))))

copy_loop-Spends :
    (fuel : ℕ) (ss : List Extent) (so : ℕ) (ds : List Extent) (to : ℕ) (remaining : ℕ) (d : Disk)
    → fuel ≤ d.budget
    → Spends fuel d.budget (copy_loop fuel ss so ds to remaining d)
unfolding copy_loop
copy_loop-Spends fuel ss so ds to zero d h = omega arith
copy_loop-Spends zero ss so ds to (suc r) d h = refl
copy_loop-Spends (suc fuel) [] so ds to (suc r) d h = refl
copy_loop-Spends (suc fuel) (s ∷ ss) so [] to (suc r) d h = refl
copy_loop-Spends (suc fuel) ((from, n) ∷ ss) so ((at, m) ∷ ds) to (suc r) d h =
    Spends-continue 1 fuel (suc fuel) d.budget (write_on d.budget d _) _
      (Spends-write_on d.budget d _ (omega (arith, h))) (omega arith) h
      (λ _ d' p. copy_loop-Spends fuel _ _ _ _ _ d' p)

clusters_of-non_empty : (runs : List Run) → clusters_of (non_empty runs) ≡ clusters_of runs
unfolding clusters_of non_empty
clusters_of-non_empty [] = refl
clusters_of-non_empty (run ∷ runs) = ground (arith, clusters_of-non_empty runs)

pub copy_run_sequences-Spends :
    (cluster_size : ℕ) (source destination : List Run) (d : Disk)
    → clusters_of source * cluster_size ≤ d.budget
    → Spends
        (clusters_of source * cluster_size)
        d.budget
        (copy_run_sequences cluster_size source destination d)
unfolding copy_run_sequences
copy_run_sequences-Spends cs source destination d h =
    let n = clusters_of source * cs in
    Spends-raise_if n d.budget (any_sparse (non_empty source)) sparse_run d _ refl (
      Spends-raise_if n d.budget (any_sparse (non_empty destination)) sparse_run d _ refl (
        Spends-raise_if n d.budget
          (if clusters_of (non_empty source) == clusters_of (non_empty destination)
            then false
            else true)
          lengths_differ d _ refl
          (rw (clusters_of-non_empty source) (
            copy_loop-Spends n (extents_of cs (non_empty source)) 0
              (extents_of cs (non_empty destination)) 0 n d h))))

module _ (volume : Volume) (p : Prepared) (move : ExtentMove) where
  abbrev pub snapshots : List (ℕ × List ℕ)
  snapshots = bitmap_patches_for_runs p.bitmap (move.source_runs ++ move.destination_runs)

  abbrev pub state : Stage → Journal
  state = journal_state volume p move snapshots

  pub mark_dirty-Spends : (d : Disk) → 4 ≤ d.budget → Spends 4 d.budget (mark_dirty p state d)
  unfolding mark_dirty write_journal
  mark_dirty-Spends d h =
      Spends-continue 1 3 4 d.budget (write_on d.budget d _) _
        (Spends-write_on d.budget d _ (omega (arith, h))) (omega arith) h
        (λ _ d1 p1.
          Spends-continue 2 1 3 d1.budget
            (write_volume_records p.volume_dirtied p.mirror_dirtied d1) _
            (write_volume_records-Spends _ _ d1 (omega (arith, p1))) (omega arith) p1
            (λ _ d2 p2. Spends-write_on d2.budget d2 _ p2))

  -- Writing the snapshots and a stage of the journal.
  stage-Spends :
      (bitmap : List ℕ) (s : Stage) (d : Disk)
      → suc (length snapshots) ≤ d.budget
      → Spends (suc (length snapshots)) d.budget (
          (write_bitmap_patches (current_bitmap_patches bitmap snapshots)
              >> (write_journal (state s) >> pure bitmap))
            d)
  unfolding write_journal
  stage-Spends bitmap s d h =
      Spends-continue (length snapshots) 1 (suc (length snapshots)) d.budget
        (write_bitmap_patches (current_bitmap_patches bitmap snapshots) d) _
        (current-Spends bitmap snapshots d (omega (arith, h))) (omega arith) h
        (λ _ d1 p1.
          Spends-continue 1 0 1 d1.budget (write_on d1.budget d1 _) _
            (Spends-write_on d1.budget d1 _ p1) (omega arith) p1 (λ _ d2 p2. omega arith))

  pub reserve-Spends :
      (d : Disk)
      → suc (length snapshots) ≤ d.budget
      → Spends (suc (length snapshots)) d.budget (reserve p move state d)
  unfolding reserve journal_state
  reserve-Spends d h =
      Spends-or_raise _ d.budget (set_runs p.bitmap move.destination_runs true) index_error d _ refl
        (λ reserved. stage-Spends reserved Stage.destination_allocated d h)

  pub release-Spends :
      (reserved : List ℕ) (d : Disk)
      → suc (length snapshots) ≤ d.budget
      → Spends (suc (length snapshots)) d.budget (release move state reserved d)
  unfolding release journal_state
  release-Spends reserved d h =
      Spends-or_raise _ d.budget (set_runs reserved move.source_runs false) index_error d _ refl
        (λ released. stage-Spends released Stage.old_released d h)

  pub switch_record-Spends : (d : Disk) → 2 ≤ d.budget → Spends 2 d.budget (switch_record p state d)
  unfolding switch_record write_journal
  switch_record-Spends d h =
      Spends-continue 1 1 2 d.budget (write_mft_record p.new_record d) _
        (write_mft_record-Spends p.new_record d (omega (arith, h))) (omega arith) h
        (λ _ d1 p1. Spends-write_on d1.budget d1 _ p1)

  pub finish-Spends : (d : Disk) → 4 ≤ d.budget → Spends 4 d.budget (finish p state d)
  unfolding finish write_journal remove_journal
  finish-Spends d h =
      Spends-continue 2 2 4 d.budget (write_volume_records p.volume_before p.mirror_before d) _
        (write_volume_records-Spends _ _ d (omega (arith, h))) (omega arith) h
        (λ _ d1 p1.
          Spends-continue 1 1 2 d1.budget (write_on d1.budget d1 _) _
            (Spends-write_on d1.budget d1 _ (omega (arith, p1))) (omega arith) p1
            (λ _ d2 p2. Spends-write_on d2.budget d2 _ p2))
