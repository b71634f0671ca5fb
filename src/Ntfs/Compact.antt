-- ===== src/Ntfs/Compact.antt =====
-- Compacting (`compact`): complete streams are moved, one at a time, into the lowest free extent that
-- holds them. The heaps of the plan, the names of streams, reports and progress are left out.
pub mod Loop
pub mod Fits
pub mod Select
pub mod Owned
pub mod Rounds
pub mod Agree
pub mod Kept
pub mod Returns
pub mod Measure
mod Tests
use linux_defragger.Prelude.{
  ℕ, zero, suc, ◌+◌, ◌-◌, ◌*◌, ◌/◌, min, max, Bool, true, false, ◌&&◌, ◌||◌, Option, some, none,
  List, [], ◌∷◌, ◌++◌, ltb, leb, ◌==◌, if◌then◌else◌, length, Result, ok, err, ◌>>=◌, ◌>>◌,
  raise_if, raise_as,
}
use linux_defragger.Prelude.Int.{pos}
use linux_defragger.Ntfs.Runlist.{Run, RunlistError, encode_runlist}
use linux_defragger.Ntfs.Patches.{set_runs}
use linux_defragger.Ntfs.Move.{ExtentMove, clusters_of}
use linux_defragger.Ntfs.Runs.{coalesce_runs}
use linux_defragger.Ntfs.Records.{RecordError}
use linux_defragger.Ntfs.Attributes.{Attribute, LayoutError, u32}
use linux_defragger.Ntfs.NextGap.{next_free_run}
use linux_defragger.Ntfs.HighWater.{highest_used_before}

-- `StreamInfo`, without the names that are shown.
pub record StreamInfo : Type 0 where
  pub record_number : ℕ
  pub base_record_number : ℕ
  pub attribute_offset : ℕ
  pub attribute_type : ℕ
  pub flags : ℕ
  pub runs : List Run
  pub movable : Bool
  pub mapping_capacity : ℕ
  pub generation : ℕ

-- `clusters`: the clusters of the physical runs.
unfoldable pub stream_clusters : List Run → ℕ
stream_clusters [] = 0
stream_clusters (run ∷ runs) =
    let rest = stream_clusters runs in elim run.lcn [ none ↦ rest | some _ ↦ run.length + rest ]

-- `highest_lcn`
unfoldable pub highest_lcn : List Run → ℕ
highest_lcn [] = 0
highest_lcn (run ∷ runs) =
    let rest = highest_lcn runs in
    elim run.lcn [ none ↦ rest | some lcn ↦ max (lcn + run.length) rest ]

-- `run.lcn is not None and run.length > 0`
unfoldable pub physical_runs : List Run → List Run
physical_runs [] = []
physical_runs (run ∷ runs) =
    let rest = physical_runs runs in
    elim run.lcn [ none ↦ rest | some _ ↦ if run.length == 0 then rest else run ∷ rest ]

-- `min(int(run.lcn) for run in physical)`, of no runs if the list is empty.
unfoldable pub min_lcn : List Run → Option ℕ
min_lcn [] = none
min_lcn (run ∷ runs) = elim run.lcn [
  | none ↦ min_lcn runs
  | some lcn ↦ elim (min_lcn runs) [ none ↦ some lcn | some least ↦ some (min lcn least) ]
]

pub data Reason : Type 0 where
  invalid_gap no_allocation does_not_fit no_extents not_above no_capacity mapping_too_long : Reason

pub data Verdict : Type 0 where
  fits : ExtentMove → Verdict
  blocked : Reason → Verdict

pub data CompactError : Type 0 where
  encoding : RunlistError → CompactError
  in_layout : LayoutError → CompactError
  in_fixups : RecordError → CompactError
  runlist_changed bad_accounting past_bitmap length_changed no_room : CompactError

-- `len(_encode_runlist(runs))`
unfoldable pub encoded_length : List Run → Result CompactError ℕ
unfolding encode_runlist
encoded_length runs = elim (encode_runlist runs) [
  | err e ↦ err (encoding e)
  | ok bytes ↦ ok (length bytes)
]

-- The part of `_plan_compact_extent_info` after its first test.
unfoldable pub plan_in_gap : StreamInfo → ℕ → ℕ → Result CompactError Verdict
unfolding stream_clusters physical_runs min_lcn encoded_length
plan_in_gap info gap_start gap_length =
    let clusters = stream_clusters info.runs in
    let physical = physical_runs info.runs in
    let new_runs : List Run = record { lcn = some gap_start; length = clusters } ∷ [] in
    let move : ExtentMove = record {
      source_runs = physical;
      destination_runs = new_runs;
      new_runs = new_runs;
    } in
    let encoded : Result CompactError Verdict = do
      size ← encoded_length new_runs
      ok (if ltb info.mapping_capacity size then blocked mapping_too_long else fits move)
    in if clusters == 0
      then ok (blocked no_allocation)
      else if ltb gap_length clusters
      then ok (blocked does_not_fit)
      else elim (min_lcn physical) [
        | none ↦ ok (blocked no_extents)
        | some least ↦
            if ltb least (gap_start + gap_length)
            then ok (blocked not_above)
            else if info.mapping_capacity == 0
            then ok (blocked no_capacity)
            else encoded
      ]

unfoldable pub plan_compact_extent_info : StreamInfo → Run → Result CompactError Verdict
unfolding plan_in_gap
plan_compact_extent_info info gap = elim gap.lcn [
  | none ↦ ok (blocked invalid_gap)
  | some gap_start ↦
      if gap.length == 0 then ok (blocked invalid_gap) else plan_in_gap info gap_start gap.length
]

-- `(info.clusters, info.highest_lcn) > (best_info.clusters, best_info.highest_lcn)`
unfoldable pub larger : StreamInfo → StreamInfo → Bool
unfolding stream_clusters highest_lcn
larger info best =
    ltb (stream_clusters best.runs) (stream_clusters info.runs)
    || (stream_clusters best.runs == stream_clusters info.runs
        && ltb (highest_lcn best.runs) (highest_lcn info.runs))

-- The loop of `_select_compact_source` with `best_info` and `best_move`.
unfoldable pub best_stream :
    Run
    → Option (StreamInfo × ExtentMove)
    → List StreamInfo
    → Result CompactError (Option (StreamInfo × ExtentMove))
unfolding plan_compact_extent_info larger
best_stream gap best [] = ok best
best_stream gap best (info ∷ infos) =
    let kept = best_stream gap best infos in
    let taken = λ (move : ExtentMove). best_stream gap (some (info, move)) infos in
    if info.movable
    then elim (plan_compact_extent_info info gap) [
      | err e ↦ err e
      | ok (blocked reason) ↦ kept
      | ok (fits move) ↦ elim best [
        | none ↦ taken move
        | some held ↦ if larger info held.0 then taken move else kept
      ]
    ]
    else kept

-- `Candidate`: what is read again of a stream that is to be moved.
pub record Candidate : Type 0 where
  pub record_number : ℕ
  pub record_offset : ℕ
  pub record_raw : List ℕ
  pub record_fixed : List ℕ
  pub attribute : Attribute

-- The bytes in use and those allocated, after the test of `_maximum_mapping_capacity` and of
-- `_updated_record_runs`.
unfoldable pub record_space : Candidate → Result CompactError (ℕ × ℕ)
unfolding u32
record_space c = do
  in_use ← raise_as in_layout (u32 c.record_fixed 24)
  recorded ← raise_as in_layout (u32 c.record_fixed 28)
  let allocated = min (length c.record_fixed) recorded
  raise_if (ltb allocated in_use || ltb in_use (c.attribute.offset + c.attribute.length))
      bad_accounting
  ok (in_use, allocated)

unfoldable pub maximum_mapping_capacity : Candidate → Result CompactError ℕ
unfolding record_space
maximum_mapping_capacity c = do
  (in_use, allocated) ← record_space c
  ok (c.attribute.length - c.attribute.run_offset + (allocated - in_use) / 8 * 8)
