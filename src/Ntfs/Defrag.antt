-- ===== src/Ntfs/Defrag.antt =====
-- Defragmenting (`defragment`): every fragmented stream is moved to one free run, and then lower where
-- there is room. Reading a record again from the volume, in its state at that moment, is the argument
-- `reload`; `stop` says whether a stop has been requested when the program asks for the n-th time.
-- Reports and progress are left out.
pub mod Keys
pub mod Steps
pub mod Outcome
pub mod Kept
pub mod Passes
mod Tests
use linux_defragger.Prelude.{
  ℕ, zero, suc, ◌+◌, ◌-◌, max, Bool, true, false, ◌&&◌, ◌||◌, Option, some, none, List, [], ◌∷◌,
  ◌++◌, ltb, leb, ◌==◌, if◌then◌else◌, length, Result, ok, err, ◌>>=◌, ◌>>◌, raise_if, raise_as,
}
use linux_defragger.Prelude.Int.{pos}
use linux_defragger.Ntfs.Runlist.{Run}
use linux_defragger.Ntfs.Move.{ExtentMove}
use linux_defragger.Ntfs.Runs.{physical_fragment_count}
use linux_defragger.Ntfs.Gaps.{find_free_run}
use linux_defragger.Ntfs.Compact.{
  StreamInfo, Candidate, CompactError, stream_clusters, physical_runs, min_lcn,
}
use linux_defragger.Ntfs.Compact.Loop.{put_stream, moved_stream, moved_bitmap}
use linux_defragger.Ntfs.Candidates.{updated_record_runs}

pub data DefragError : Type 0 where
  in_move : CompactError → DefragError
  not_contiguous : DefragError

-- `info.key`
abbrev pub Key : Type 0
Key = ℕ × ℕ

abbrev pub key_of : StreamInfo → Key
key_of info = (info.record_number, info.attribute_offset)

abbrev pub same_keys : Key → Key → Bool
same_keys (a, b) (c, d) = a == c && b == d

-- `lowest_lcn`
unfoldable pub lowest_lcn : List Run → ℕ
unfolding min_lcn
lowest_lcn runs = elim (min_lcn runs) [ none ↦ 0 | some lcn ↦ lcn ]

-- `(info.clusters, info.lowest_lcn)` is less than that of `other`.
unfoldable pub below : StreamInfo → StreamInfo → Bool
unfolding stream_clusters lowest_lcn
below info other =
    ltb (stream_clusters info.runs) (stream_clusters other.runs)
    || (stream_clusters info.runs == stream_clusters other.runs
        && ltb (lowest_lcn info.runs) (lowest_lcn other.runs))

-- `sort(reverse=True)` keeps equal ones in their order.
unfoldable pub insert_stream : StreamInfo → List StreamInfo → List StreamInfo
unfolding below
insert_stream info [] = info ∷ []
insert_stream info (other ∷ others) =
    if below info other then other ∷ insert_stream info others else info ∷ other ∷ others

unfoldable pub sort_streams : List StreamInfo → List StreamInfo
unfolding insert_stream
sort_streams [] = []
sort_streams (info ∷ infos) = insert_stream info (sort_streams infos)

-- `set.discard`
unfoldable pub discard : Key → List Key → List Key
discard key [] = []
discard key (other ∷ others) = if same_keys key other then others else other ∷ discard key others

abbrev pub any_key : Key → List Key → Bool
any_key key [] = false
any_key key (other ∷ others) = same_keys key other || any_key key others

-- `[plan.streams[key] for key in keys if key in plan.streams]`: a set of keys has no order, and its
-- streams come in the order of the plan.
unfoldable pub streams_at : List Key → List StreamInfo → List StreamInfo
streams_at keys [] = []
streams_at keys (info ∷ infos) =
    if any_key (key_of info) keys then info ∷ streams_at keys infos else streams_at keys infos

-- `set.add`
unfoldable pub add_key : Key → List Key → List Key
add_key key keys = if any_key key keys then keys else keys ++ key ∷ []

-- What `defragment` changes. `polls` counts the tests for a stop.
pub record DefragState : Type 0 where
  pub bitmap : List ℕ
  pub streams : List StreamInfo
  pub pending : List Key
  pub moved_keys : List Key
  pub moved_transactions : ℕ
  pub moved_clusters : ℕ
  pub skipped_changed : ℕ
  pub settling_transactions : ℕ
  pub pass_moved : ℕ
  pub polls : ℕ

-- `info.movable and _physical_fragment_count(info.runs) > 1`
abbrev pub supported : List StreamInfo → List Key
supported [] = []
supported (info ∷ infos) =
    if info.movable && ltb 1 (physical_fragment_count info.runs)
    then key_of info ∷ supported infos
    else supported infos

abbrev pub before_passes : List ℕ → List StreamInfo → DefragState
before_passes bitmap streams = record {
  bitmap = bitmap;
  streams = streams;
  pending = supported streams;
  moved_keys = [];
  moved_transactions = 0;
  moved_clusters = 0;
  skipped_changed = 0;
  settling_transactions = 0;
  pass_moved = 0;
  polls = 0;
}

-- The move of the whole stream to `destination`.
unfoldable pub whole_move : Candidate → ℕ → ExtentMove
unfolding stream_clusters
whole_move candidate destination =
    let new_runs : List Run =
      record { lcn = some destination; length = stream_clusters candidate.attribute.runs } ∷ [] in
    record {
      source_runs = candidate.attribute.runs;
      destination_runs = new_runs;
      new_runs = new_runs;
    }

-- `_move_extent` and `_update_moved_stream`: the new record, the bitmap and the plan.
unfoldable pub moved_to :
    ℕ → DefragState → StreamInfo → Candidate → ℕ → Result CompactError DefragState
unfolding whole_move updated_record_runs moved_bitmap put_stream moved_stream
moved_to sector_size s info candidate destination = do
  let move = whole_move candidate destination
  new_record ← updated_record_runs candidate move.new_runs sector_size
  bitmap ← moved_bitmap s.bitmap move
  ok (record s {
    bitmap = bitmap;
    streams = put_stream (moved_stream info move.new_runs) s.streams;
    moved_transactions = s.moved_transactions + 1;
    moved_clusters = s.moved_clusters + stream_clusters candidate.attribute.runs;
    pass_moved = s.pass_moved + 1;
  })

abbrev pub polled : DefragState → DefragState
polled s = record s { polls = s.polls + 1 }

module _ (stop : ℕ → Bool) where
  -- The loop over the streams of a pass, for the step of that pass.
  unfoldable pub for_streams :
      (DefragState → StreamInfo → Result DefragError DefragState)
      → DefragState
      → List StreamInfo
      → Result DefragError DefragState
  for_streams step s [] = ok s
  for_streams step s (info ∷ infos) =
      if stop s.polls
      then ok (polled s)
      else do s' ← step (polled s) info; for_streams step s' infos

  -- The passes, with those that are left, over the streams of `keys`.
  unfoldable pub passes :
      (DefragState → StreamInfo → Result DefragError DefragState)
      → (DefragState → List Key)
      → ℕ
      → DefragState
      → Result DefragError DefragState
  unfolding for_streams streams_at sort_streams
  passes step keys zero s = ok s
  passes step keys (suc left) s = if stop s.polls || length (keys s) == 0 then ok (polled s) else do
    let counting = record (polled s) { pass_moved = 0 }
    s' ← for_streams step counting (sort_streams (streams_at (keys s) s.streams))
    if s'.pass_moved == 0 then ok s' else passes step keys left s'

module _ (reload : DefragState → StreamInfo → Result CompactError Candidate) (sector_size : ℕ) where
  -- A stream in a placement pass.
  unfoldable pub place_stream : ℕ → DefragState → StreamInfo → Result CompactError DefragState
  unfolding physical_fragment_count discard find_free_run moved_to add_key
  place_stream total s info = do
    candidate ← reload s info
    let skipped = record s {
      pending = discard (key_of info) s.pending;
      skipped_changed = s.skipped_changed + 1;
    }
    let placed : Result CompactError DefragState =
        elim (find_free_run s.bitmap (pos (stream_clusters candidate.attribute.runs))
          (pos (max 1 (total - 1)))) [
            | none ↦ ok s
            | some destination ↦ (do
              s' ← moved_to sector_size s info candidate destination
              ok (record s' {
                moved_keys = add_key (key_of info) s'.moved_keys;
                pending = discard (key_of info) s'.pending;
              }))
          ]
    if leb (physical_fragment_count candidate.attribute.runs) 1 then ok skipped else placed

  -- A stream in a settling pass.
  unfoldable pub settle_stream : DefragState → StreamInfo → Result DefragError DefragState
  unfolding physical_fragment_count find_free_run lowest_lcn moved_to
  settle_stream s info = do
    candidate ← raise_as in_move (reload s info)
    raise_if (if physical_fragment_count candidate.attribute.runs == 1 then false else true)
        not_contiguous
    elim (find_free_run s.bitmap (pos (stream_clusters candidate.attribute.runs))
        (pos (lowest_lcn candidate.attribute.runs))) [
          | none ↦ ok s
          | some destination ↦ (do
            s' ← raise_as in_move (moved_to sector_size s info candidate destination)
            ok (record s' { settling_transactions = s'.settling_transactions + 1 }))
        ]

  module _ (stop : ℕ → Bool) where
    -- `defragment` from its first look at the plan on.
    unfoldable pub defragment : List ℕ → List StreamInfo → ℕ → Result DefragError DefragState
    unfolding passes place_stream settle_stream
    defragment bitmap streams total_clusters = do
      placed ←
          passes stop (λ s info. raise_as in_move (place_stream total_clusters s info))
            (λ s. s.pending) 8 (before_passes bitmap streams)
      passes stop settle_stream (λ s. s.moved_keys) 8 placed
