-- ===== src/Ntfs/Compact/Loop.antt =====
-- `_select_compact_source`, `_update_moved_stream` and the loop of `compact`. Reading a record again
-- from the volume, in its state at that moment, is the argument `reload`, and a request to stop that
-- stands before a round, with the rounds to come, is `stop`.
use linux_defragger.Prelude.{
  ℕ, zero, suc, ◌+◌, max, Bool, true, false, ◌&&◌, ◌||◌, Option, some, none, List, [], ◌∷◌, ◌++◌,
  ltb, leb, ◌==◌, if◌then◌else◌, Result, ok, err, ◌>>=◌, ◌>>◌, raise_if,
}
use linux_defragger.Prelude.Int.{pos}
use linux_defragger.Ntfs.Runlist.{Run}
use linux_defragger.Ntfs.Patches.{set_runs}
use linux_defragger.Ntfs.Move.{ExtentMove, clusters_of}
use linux_defragger.Ntfs.Runs.{coalesce_runs}
use linux_defragger.Ntfs.NextGap.{next_free_run, free_gap_stats}
use linux_defragger.Ntfs.HighWater.{highest_used_before}
use linux_defragger.Ntfs.Compact.{
  StreamInfo, Candidate, CompactError, runlist_changed, past_bitmap, best_stream,
  maximum_mapping_capacity, encoded_length,
}

-- `tuple(runs) != tuple(other)`, as a test for equality.
unfoldable pub same_runs : List Run → List Run → Bool
same_runs [] [] = true
same_runs [] (s ∷ ss) = false
same_runs (r ∷ rs) [] = false
same_runs (r ∷ rs) (s ∷ ss) = same_lcn r.lcn s.lcn && r.length == s.length && same_runs rs ss
  where
    same_lcn : Option ℕ → Option ℕ → Bool
    same_lcn none none = true
    same_lcn none (some b) = false
    same_lcn (some a) none = false
    same_lcn (some a) (some b) = a == b

-- `key`
abbrev pub same_key : StreamInfo → StreamInfo → Bool
same_key a b = a.record_number == b.record_number && a.attribute_offset == b.attribute_offset

-- `plan.streams[updated.key] = updated`
unfoldable pub put_stream : StreamInfo → List StreamInfo → List StreamInfo
put_stream updated [] = updated ∷ []
put_stream updated (info ∷ infos) =
    let rest = put_stream updated infos in
    if same_key updated info then updated ∷ infos else info ∷ rest

-- The stream that `_update_moved_stream` puts, for a list of runs.
unfoldable pub moved_stream : StreamInfo → List Run → StreamInfo
unfolding coalesce_runs
moved_stream info destination = record info {
  runs = coalesce_runs destination;
  movable = true;
  generation = info.generation + 1;
}

-- What the loop of `compact` changes; the blocked gaps with start and length.
pub record CompactState : Type 0 where
  pub bitmap : List ℕ
  pub streams : List StreamInfo
  pub packed_cursor : ℕ
  pub current_high : ℕ
  pub moved_transactions : ℕ
  pub moved_clusters : ℕ
  pub blocked_gaps : List (ℕ × ℕ)

-- What `_move_extent` makes of the bitmap in memory.
unfoldable pub moved_bitmap : List ℕ → ExtentMove → Result CompactError (List ℕ)
moved_bitmap bitmap move = elim (set_runs bitmap move.destination_runs true) [
  | none ↦ err past_bitmap
  | some reserved ↦ elim (set_runs reserved move.source_runs false) [
    | none ↦ err past_bitmap
    | some released ↦ ok released
  ]
]

-- `any(int(run.lcn) + run.length >= old_high for run in runs)`, of physical runs.
unfoldable pub reaches : ℕ → List Run → Bool
reaches old_high [] = false
reaches old_high (run ∷ runs) = elim run.lcn [
  | none ↦ reaches old_high runs
  | some lcn ↦ leb old_high (lcn + run.length) || reaches old_high runs
]

-- The gap at `gap_start` holds no complete stream.
unfoldable pub skip_gap : CompactState → ℕ → ℕ → CompactState
skip_gap s gap_start gap_length = record s {
  packed_cursor = gap_start + gap_length;
  blocked_gaps = s.blocked_gaps ++ (gap_start, gap_length) ∷ [];
}

-- The rest of the round, with the bitmap that the move leaves.
unfoldable pub after_move : CompactState → ℕ → StreamInfo → ExtentMove → List ℕ → CompactState
unfolding put_stream moved_stream reaches clusters_of highest_used_before
after_move s gap_start owner move bitmap = record {
  bitmap = bitmap;
  streams = put_stream (moved_stream owner move.new_runs) s.streams;
  packed_cursor = gap_start;
  current_high =
      if reaches s.current_high move.source_runs
      then highest_used_before bitmap (pos s.current_high)
      else s.current_high;
  moved_transactions = s.moved_transactions + 1;
  moved_clusters = s.moved_clusters + clusters_of move.source_runs;
  blocked_gaps = s.blocked_gaps;
}

module _ (reload : CompactState → StreamInfo → Result CompactError Candidate) where
  -- The tests of the record that is read again.
  unfoldable pub confirmed :
      CompactState
      → StreamInfo
      → ExtentMove
      → Result CompactError (Option (StreamInfo × ExtentMove))
  unfolding same_runs maximum_mapping_capacity encoded_length
  confirmed s info move = do
    candidate ← reload s info
    raise_if (if same_runs candidate.attribute.runs info.runs then false else true) runlist_changed
    size ← encoded_length move.new_runs
    capacity ← maximum_mapping_capacity candidate
    ok (if ltb capacity size then none else some (info, move))

  unfoldable pub select_compact_source :
      CompactState → Run → Result CompactError (Option (StreamInfo × ExtentMove))
  unfolding best_stream confirmed
  select_compact_source s gap = elim gap.lcn [
    | none ↦ ok none
    | some start ↦ do
      best ← best_stream gap none s.streams
      elim best [ none ↦ ok none | some chosen ↦ confirmed s chosen.0 chosen.1 ]
  ]

  -- A round of the loop: whether there was a gap, and the state after it.
  unfoldable pub compact_round : CompactState → Result CompactError (Bool × CompactState)
  unfolding next_free_run select_compact_source moved_bitmap skip_gap after_move
  compact_round s = elim (next_free_run s.bitmap (max 1 s.packed_cursor) (pos s.current_high)) [
    | none ↦ ok (false, record s { packed_cursor = s.current_high })
    | some hole ↦ do
      chosen ← select_compact_source s (record { lcn = some hole.0; length = hole.1 })
      elim chosen [
        | none ↦ ok (true, skip_gap s hole.0 hole.1)
        | some pick ↦ do
          bitmap ← moved_bitmap s.bitmap pick.1
          ok (true, after_move s hole.0 pick.0 pick.1 bitmap)
      ]
  ]

  -- `while True`; `none` is the loop that has used up its fuel.
  unfoldable pub compact_loop :
      (ℕ → Bool) → ℕ → CompactState → Option (Result CompactError CompactState)
  unfolding compact_round
  compact_loop stop zero s = none
  compact_loop stop (suc fuel) s = if stop fuel then some (ok s) else elim (compact_round s) [
    | err e ↦ some (err e)
    | ok (false, s') ↦ some (ok s')
    | ok (true, s') ↦ compact_loop stop fuel s'
  ]

  -- `compact` from its first search of the bitmap on.
  unfoldable pub compact :
      (ℕ → Bool) → ℕ → List ℕ → List StreamInfo → ℕ → Option (Result CompactError CompactState)
  unfolding highest_used_before free_gap_stats compact_loop
  compact stop fuel bitmap streams total_clusters =
      let before_high = highest_used_before bitmap (pos total_clusters) in
      let first_gap = (free_gap_stats bitmap (pos before_high) 1).2 in
      compact_loop stop fuel (record {
        bitmap = bitmap;
        streams = streams;
        packed_cursor = elim first_gap [ none ↦ before_high | some lcn ↦ lcn ];
        current_high = before_high;
        moved_transactions = 0;
        moved_clusters = 0;
        blocked_gaps = [];
      })
