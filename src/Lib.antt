-- ===== src/Lib.antt =====
-- Linux-Defragger: the range arithmetic that its file-system back ends share, and the NTFS engine's
-- volume layout, extent encoding, allocation bitmap, journalled move, Compact and Defragment.
--
-- Parts of the program, and the files that model them:
-- * gui/backends/ranges.py merges half-open ranges of allocation units and takes complements; every
--   back end builds its maps from these. Ranges.antt models merge_ranges and complement_ranges;
--   Ranges/Cover, Ranges/Canonical and Ranges/Complement hold the proofs.
-- * The same file builds the allocation maps that the back ends return: Maps.antt has the cells
--   (_cell_bounds, _new_map_result), Maps/States aggregate_states, Maps/StateRanges
--   _normalise_state_ranges and aggregate_ranges, Maps/Bitmaps count_set_bits and aggregate_bitmap,
--   and Maps/Overlay overlay_ranges. Maps/Cells says what a map promises of the states of the units;
--   Maps/Sums compares the totals with the cells; Maps/Tally counts units.
-- * gui/ntfs_engine.py moves extents of NTFS files. A stream's extents are stored as mapping pairs
--   (_signed_min_bytes, _unsigned_min_bytes, _encode_runlist, _decode_runlist: Ntfs/Runlist.antt).
--   Allocation is a bitmap (_bit, _set_bit, _set_range: Ntfs/Bitmap.antt), written to the device as
--   patches of the bytes that a move touches (_bitmap_patches_for_runs, _current_bitmap_patches:
--   Ntfs/Patches.antt). One move is _copy_run_sequences and _move_extent; a move that was cut short is
--   settled by recover and _recover_loaded (Ntfs/Move.antt).
-- * Ntfs/Gaps.antt models the search for free extents (_free_runs_before, _find_free_run),
--   Ntfs/HighWater.antt the search for the last used cluster (_highest_used_before), and
--   Ntfs/Runs.antt the merging of a stream's runs (_coalesce_runs, _physical_fragment_count), all
--   used where moves are planned.
-- * Ntfs/NextGap.antt models the search for one free extent at a time (_next_free_run,
--   _free_gap_stats) and the extents that Defragment may use (_defrag_destination_pool).
--   Ntfs/Compact.antt plans the move of a stream into a gap and chooses the stream
--   (_plan_compact_extent_info, _select_compact_source); Ntfs/Compact/Loop is the loop of compact, on
--   the bitmap in memory and the plan of streams. Each of its moves is a _move_extent of Ntfs/Move.
-- * Ntfs/Stream.antt finds the bytes of a metadata stream on the device (_stream_segments,
--   _read_stream, _write_stream).
-- * Ntfs/Records.antt has the fixups of MFT records (_apply_fixups, _prepare_fixups) and the test of
--   the flags of the volume (_validate_volume_flags).
-- * Ntfs/Attributes.antt reads the attributes of an MFT record (_attributes). Ntfs/Layout.antt opens a
--   volume and reads its layout (_open_volume, _record_zero, _read_mft_record, _read_layout);
--   Ntfs/Layout/State has the images of the $Volume record (_volume_record_state) and
--   Ntfs/Layout/Scan, with Names and Plan, the scan of the MFT that makes the plan of streams
--   (_select_movable_attribute, _iter_mft_records, _best_file_name, _scan_allocation_plan).
-- * Ntfs/Candidates.antt reads the record of a stream again (_load_candidate) and puts other runs into
--   it (_updated_record_runs). Ntfs/Defrag.antt has the passes of defragment; there, reading a record
--   again is an argument, and a move is what it does to the bitmap in memory and to the plan.
-- * Ntfs/ExtentPlan.antt plans moves of the last extent (_plan_extent_move), and Ntfs/Slices.antt the
--   slices in which a move is shown (_iter_physical_move_slices).
-- * Ntfs/Disk.antt is the storage that a move changes: the bytes of file data, the MFT record of the
--   stream, the $Bitmap stream, the two $Volume records and the external journal, with the writes of
--   the engine (_write_mft_record, _write_volume_records, _write_bitmap_patches, _write_journal,
--   _remove_journal). Ntfs/Disk/Rules holds rules for sequences of writes that a loss of power may cut
--   short.
-- * Prelude and Bytes hold shared helpers: Boolean tests, results, integers, byte strings and Python's
--   int.to_bytes, int.from_bytes, int.bit_length and int.bit_count.
--
-- A loss of power: `budget` in Disk counts the writes that still reach the device, and at zero the
-- next write fails. Ntfs/Disk/Budget counts the writes of a call. A write of an MFT record that is
-- cut short leaves an arbitrary image, `torn`; a write of file data, of a bitmap patch, of a
-- $Volume record or of the journal is made whole or not at all, and writes reach the device in the
-- order of the program, which calls fsync between the stages. Each piece of a copy is one write.
--
-- Fuel: copy_loop has as many rounds as bytes remain, and each round copies a byte at least;
-- decode_from has one round for each byte of the array, and each round reads a byte at least;
-- bit_length_on and bit_count_on have the number itself; set_head has the seven rounds to the next
-- byte boundary and one more; attributes_from has as many rounds as the record has bytes,
-- mft_records_from as many as there are records, and slices_from one for each cluster and one more;
-- scan, pass and gap_stats_from have as many rounds as there are clusters, and each round passes a
-- cluster at least.
--
-- The loop of compact has the fuel that its theorem names: a move lowers the end of a stream, and a
-- gap that is skipped raises the cursor. Reading an MFT record again before a move is a function that
-- the loop takes as an argument.
--
-- Not modelled: the labels and details of an allocation map, which it only passes on; the record
-- images of a move (they are arguments of it, with their sizes as hypotheses), the heaps of the
-- plan of streams, and the names and reasons that are shown for streams, the JSON and base64 of the
-- journal, the fields of the journal that recovery does not read, the old journal schema without
-- `destination_runs`, locks and file descriptors, progress output, the GUI, the engines of the
-- other file systems, the C engine for FAT, and the vendored amitools and hfsutils.
pub mod Prelude
pub mod Ranges
pub mod Bytes
pub mod Maps
pub mod Ntfs
