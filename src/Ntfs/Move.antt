-- ===== src/Ntfs/Move.antt =====
-- One journalled move of extents (`_copy_run_sequences`, `_journal_state`, `_move_extent`) and the
-- recovery from its journal (`_validate_identity`, `_affected_runs`, `_recover_loaded`).
-- `fsync` orders the writes; they reach the device in the order in which they are made here.
pub mod Copy
pub mod Addresses
pub mod Invariant
pub mod Steps
pub mod Recovery
pub mod Crash
pub mod Enough
pub mod Returns
mod Tests
use linux_defragger.Prelude.{
  ℕ, zero, suc, ◌+◌, ◌-◌, ◌*◌, min, Bool, true, false, ◌||◌, ◌&&◌, Option, some, none, List, [],
  ◌∷◌, ◌++◌, ltb, ◌==◌, if◌then◌else◌, length, ok, err,
}
use linux_defragger.Ntfs.Runlist.{Run}
use linux_defragger.Ntfs.Patches.{bitmap_patches_for_runs, current_bitmap_patches, set_runs}
use linux_defragger.Ntfs.Disk.{
  Disk, Journal, Stage, Failure, Action, pure, raise, gets, ◌>>=◌, ◌>>◌, raise_if, or_raise, write,
  write_bitmap_patches, write_mft_record, write_volume_records, write_journal, remove_journal,
  read_bytes, write_bytes, sparse_run, lengths_differ, index_error, type_error, different_target,
  size_changed, serial_differs, invalid_image, no_snapshots, volume_image_invalid, no_journal,
  copied, volume_dirty, destination_allocated, metadata_switched, old_released, volume_clean,
}

abbrev copy_chunk : ℕ
copy_chunk = 8_388_608

-- `sum(run.length for run in runs)`
unfoldable pub clusters_of : List Run → ℕ
clusters_of [] = 0
clusters_of (run ∷ runs) = run.length + clusters_of runs

-- `any(run.lcn is None for run in runs)`
unfoldable pub any_sparse : List Run → Bool
any_sparse [] = false
any_sparse (run ∷ runs) = elim run.lcn [ none ↦ true | some _ ↦ any_sparse runs ]

-- `[run for run in runs if run.length]`
unfoldable pub non_empty : List Run → List Run
non_empty [] = []
non_empty (run ∷ runs) = if run.length == 0 then non_empty runs else run ∷ non_empty runs

-- A physical extent in bytes, and the place that the copy has reached in a list of them: the
-- extents that are left, and the offset in the first.
abbrev pub Extent : Type 0
Extent = ℕ × ℕ

unfoldable pub extents_of : ℕ → List Run → List Extent
extents_of cluster_size [] = []
extents_of cluster_size (run ∷ runs) = elim run.lcn [
  | none ↦ extents_of cluster_size runs
  | some lcn ↦ (lcn * cluster_size, run.length * cluster_size) ∷ extents_of cluster_size runs
]

-- `offset += take`, and the next extent once this one is done.
unfoldable pub advance : ℕ → ℕ → List Extent → List Extent × ℕ
advance taken offset [] = ([], offset)
advance taken offset ((start, size) ∷ rest) =
    if offset + taken == size then (rest, 0) else ((start, size) ∷ rest, offset + taken)

-- `while remaining:`; each round copies a byte at least, so `remaining` rounds are enough.
unfoldable pub copy_loop : ℕ → List Extent → ℕ → List Extent → ℕ → ℕ → Action (Unit {0})
copy_loop fuel sources source_offset destinations destination_offset zero = pure tt
copy_loop zero sources source_offset destinations destination_offset (suc remaining) =
    raise index_error
copy_loop (suc fuel) [] source_offset destinations destination_offset (suc remaining) =
    raise index_error
copy_loop (suc fuel) (s ∷ ss) source_offset [] destination_offset (suc remaining) =
    raise index_error
copy_loop (suc fuel) ((from, n) ∷ ss) source_offset ((to, m) ∷ ds) destination_offset
      (suc remaining) =
    let taken =
      min copy_chunk (min (n - source_offset) (min (m - destination_offset) (suc remaining))) in
    let (ss', next_source) = advance taken source_offset ((from, n) ∷ ss) in
    let (ds', next_destination) = advance taken destination_offset ((to, m) ∷ ds) in
    write (λ d. record d {
      bytes =
          write_bytes d.bytes (to + destination_offset)
            (read_bytes d.bytes (from + source_offset) taken);
    })
    >> copy_loop fuel ss' next_source ds' next_destination (suc remaining - taken)

unfoldable pub copy_run_sequences : ℕ → List Run → List Run → Action (Unit {0})
unfolding clusters_of any_sparse non_empty extents_of advance copy_loop
copy_run_sequences cluster_size source_runs destination_runs =
    let sources = non_empty source_runs in
    let destinations = non_empty destination_runs in
    let remaining = clusters_of sources * cluster_size in
    do
      raise_if (any_sparse sources) sparse_run
      raise_if (any_sparse destinations) sparse_run
      raise_if (if clusters_of sources == clusters_of destinations then false else true)
          lengths_differ
      copy_loop remaining (extents_of cluster_size sources) 0 (extents_of cluster_size destinations)
          0 remaining

-- The volume that is open.
pub record Volume : Type 0 where
  pub path : ℕ
  pub device_size : ℕ
  pub bytes_per_sector : ℕ
  pub sectors_per_cluster : ℕ
  pub cluster_size : ℕ
  pub total_clusters : ℕ
  pub mft_lcn : ℕ
  pub mftmirr_lcn : ℕ
  pub mft_record_size : ℕ
  pub serial : ℕ

-- What `_move_extent` has prepared before its first write: the images of the record before and
-- after (`candidate.record_raw` and `_updated_record_runs`), those of the `$Volume` record and its
-- mirror, as found and marked dirty (`_volume_record_state`), and the bitmap in memory.
pub record Prepared : Type 0 where
  pub record_raw : List ℕ
  pub new_record : List ℕ
  pub volume_before : List ℕ
  pub volume_dirtied : List ℕ
  pub mirror_before : List ℕ
  pub mirror_dirtied : List ℕ
  pub bitmap : List ℕ

-- `ExtentMove`: what is moved, where to, and the runs of the whole stream afterwards.
pub record ExtentMove : Type 0 where
  pub source_runs : List Run
  pub destination_runs : List Run
  pub new_runs : List Run

unfoldable pub journal_state : Volume → Prepared → ExtentMove → List (ℕ × List ℕ) → Stage → Journal
journal_state volume p move bitmap_before stage = record {
  stage = stage;
  device = volume.path;
  device_size = volume.device_size;
  serial = volume.serial;
  record_before = p.record_raw;
  record_after = p.new_record;
  released_runs = move.source_runs;
  destination_runs = move.destination_runs;
  bitmap_before = bitmap_before;
  volume_before = p.volume_before;
  mirror_before = p.mirror_before;
}

-- `_move_extent` in five parts, `state` being the journal at a stage: the journal and the dirty
-- mark, ...
unfoldable pub mark_dirty : Prepared → (Stage → Journal) → Action (Unit {0})
mark_dirty p state = do
  write_journal (state copied)
  write_volume_records p.volume_dirtied p.mirror_dirtied
  write_journal (state volume_dirty)

-- ... the destination, ...
unfoldable pub reserve : Prepared → ExtentMove → (Stage → Journal) → Action (List ℕ)
reserve p move state = do
  reserved ← or_raise (set_runs p.bitmap move.destination_runs true) index_error
  write_bitmap_patches (current_bitmap_patches reserved (state copied).bitmap_before)
  write_journal (state destination_allocated)
  pure reserved

-- ... the MFT record, ...
unfoldable pub switch_record : Prepared → (Stage → Journal) → Action (Unit {0})
switch_record p state = do write_mft_record p.new_record; write_journal (state metadata_switched)

-- ... the source, ...
unfoldable pub release : ExtentMove → (Stage → Journal) → List ℕ → Action (List ℕ)
release move state reserved = do
  released ← or_raise (set_runs reserved move.source_runs false) index_error
  write_bitmap_patches (current_bitmap_patches released (state copied).bitmap_before)
  write_journal (state old_released)
  pure released

-- ... and the clean mark and the end of the journal.
unfoldable pub finish : Prepared → (Stage → Journal) → Action (Unit {0})
finish p state = do
  write_volume_records p.volume_before p.mirror_before
  write_journal (state volume_clean)
  remove_journal

-- `destinations[0].lcn`
unfoldable pub first_lcn : List Run → Option ℕ
first_lcn [] = none
first_lcn (run ∷ runs) = run.lcn

-- It returns the bitmap in memory. `int(run.lcn)` in the text of the diagnostic log raises for a
-- sparse run.
unfoldable pub move_extent : Volume → Prepared → ExtentMove → Action (List ℕ)
move_extent volume p move = do
  let bitmap_before = bitmap_patches_for_runs p.bitmap (move.source_runs ++ move.destination_runs)
  let state = journal_state volume p move bitmap_before
  raise_if (any_sparse move.source_runs) type_error
  raise_if (any_sparse move.destination_runs) type_error
  copy_run_sequences volume.cluster_size move.source_runs move.destination_runs
  destination ← or_raise (first_lcn move.destination_runs) index_error
  raise_if
      (if clusters_of move.source_runs == clusters_of move.destination_runs then false else true)
      lengths_differ
  mark_dirty p state
  reserved ← reserve p move state
  switch_record p state
  released ← release move state reserved
  finish p state
  pure released

abbrev pub eq_bytes : List ℕ → List ℕ → Bool
eq_bytes [] [] = true
eq_bytes [] (y ∷ ys) = false
eq_bytes (x ∷ xs) [] = false
eq_bytes (x ∷ xs) (y ∷ ys) = x == y && eq_bytes xs ys

unfoldable pub validate_identity : Volume → Journal → Action (Unit {0})
validate_identity volume state = do
  raise_if (if state.device == volume.path then false else true) different_target
  raise_if (if state.device_size == volume.device_size then false else true) size_changed
  raise_if (if state.serial == volume.serial then false else true) serial_differs

-- The checks of `_affected_runs`.
unfoldable pub affected_runs : Journal → Action (Unit {0})
affected_runs state = do
  raise_if (any_sparse state.released_runs) sparse_run
  raise_if (any_sparse state.destination_runs) sparse_run
  raise_if
      (if clusters_of state.released_runs == clusters_of state.destination_runs
        then false
        else true)
      lengths_differ

-- The branch `current == after`.
unfoldable pub complete_forward : Journal → List ℕ → Action (Unit {0})
complete_forward state bitmap = do
  reserved ← or_raise (set_runs bitmap state.destination_runs true) index_error
  released ← or_raise (set_runs reserved state.released_runs false) index_error
  write_bitmap_patches (current_bitmap_patches released state.bitmap_before)

-- The other branch.
unfoldable pub roll_back : Journal → Action (Unit {0})
roll_back state = do write_mft_record state.record_before; write_bitmap_patches state.bitmap_before

-- `_recover_loaded`. `_read_layout` has read the bitmap from the device.
unfoldable pub recover_loaded : Volume → Journal → Action (Unit {0})
recover_loaded volume state = do
  bitmap ← gets (λ d. d.bitmap)
  validate_identity volume state
  raise_if
      (if length state.record_before == volume.mft_record_size
          && length state.record_after == volume.mft_record_size
        then false
        else true)
      invalid_image
  current ← gets (λ d. d.record_image)
  affected_runs state
  raise_if (elim state.bitmap_before [ [] ↦ true | _ ∷ _ ↦ false ]) no_snapshots
  if eq_bytes current state.record_after then complete_forward state bitmap else roll_back state
  raise_if
      (if length state.volume_before == volume.mft_record_size
          && length state.mirror_before == volume.mft_record_size
        then false
        else true)
      volume_image_invalid
  write_volume_records state.volume_before state.mirror_before
  remove_journal

-- `recover`, on a volume that is open. Whether it is mounted is asked of the system.
unfoldable pub recover : Volume → Action (Unit {0})
recover volume = do
  found ← gets (λ d. d.journal)
  state ← or_raise found no_journal
  recover_loaded volume state

-- Power comes back, and recovery runs while a journal stands: each attempt has its own number of
-- writes before power fails again, and its own torn image.
unfoldable pub recover_again : Volume → List (ℕ × List ℕ) → Disk → Disk
unfolding recover
recover_again volume [] d = d
recover_again volume ((budget, torn) ∷ attempts) d = elim d.journal [
  | none ↦ d
  | some _ ↦
      recover_again volume attempts (recover volume (record d { budget = budget; torn = torn })).1
]
