-- ===== src/Ntfs/ExtentPlan.antt =====
-- Plans for the extent at the end of the allocated space (`_high_water_run_index`,
-- `_destination_slice`, `_plan_extent_move`, `_highest_physical_run_index`).
pub mod Chosen
pub mod Planned
mod Tests
use linux_defragger.Prelude.{
  ℕ, zero, suc, ◌+◌, ◌-◌, ◌*◌, min, Bool, true, false, ◌&&◌, ◌||◌, Option, some, none, List, [],
  ◌∷◌, ◌++◌, ltb, leb, ◌==◌, if◌then◌else◌, length, take, drop, get_elem?, Result, ok, err, ◌>>=◌,
  ◌>>◌, raise_if, raise_as,
}
use linux_defragger.Prelude.Int.{pos}
use linux_defragger.Ntfs.Runlist.{Run}
use linux_defragger.Ntfs.Move.{ExtentMove, clusters_of, non_empty}
use linux_defragger.Ntfs.Runs.{coalesce_runs}
use linux_defragger.Ntfs.Gaps.{free_runs_before}
use linux_defragger.Ntfs.Compact.{Candidate, CompactError, encoded_length, maximum_mapping_capacity}

-- The indices of the runs that end at `high_water`, the first run having `index`.
abbrev pub matches : ℕ → ℕ → List Run → List ℕ
matches high_water index [] = []
matches high_water index (run ∷ runs) =
    let rest = matches high_water (index + 1) runs in
    elim run.lcn [
      | none ↦ rest
      | some lcn ↦ if lcn + run.length == high_water then index ∷ rest else rest
    ]

abbrev pub single : List ℕ → Option ℕ
single [] = none
single (index ∷ []) = some index
single (index ∷ second ∷ rest) = none

unfoldable pub high_water_run_index : List Run → ℕ → Option ℕ
high_water_run_index runs high_water = single (matches high_water 0 runs)

-- `max` of pairs `(end, index)`; indices grow, so of equal ends the last is kept.
abbrev max_end : Option (ℕ × ℕ) → ℕ × ℕ → Option (ℕ × ℕ)
max_end none here = some here
max_end (some held) here = if leb held.0 here.0 then some here else some held

abbrev highest_from : ℕ → Option (ℕ × ℕ) → List Run → Option (ℕ × ℕ)
highest_from index best [] = best
highest_from index best (run ∷ runs) =
    let here : Option (ℕ × ℕ) = elim run.lcn [
      | none ↦ best
      | some lcn ↦ if run.length == 0 then best else max_end best (lcn + run.length, index)
    ] in
    highest_from (index + 1) here runs

unfoldable pub highest_physical_run_index : List Run → Option ℕ
highest_physical_run_index runs = elim (highest_from 0 none runs) [
  | none ↦ none
  | some best ↦ some best.1
]

-- The cluster number of a physical run.
abbrev pub lcn_of : Run → ℕ
lcn_of run = elim run.lcn [ none ↦ 0 | some lcn ↦ lcn ]

-- `sorted` by a test that one run stands before another; equal ones keep their order.
unfoldable pub insert_run : (Run → Run → Bool) → Run → List Run → List Run
insert_run after run [] = run ∷ []
insert_run after run (other ∷ others) =
    if after run other then other ∷ insert_run after run others else run ∷ other ∷ others

unfoldable pub sort_runs : (Run → Run → Bool) → List Run → List Run
unfolding insert_run
sort_runs after [] = []
sort_runs after (run ∷ runs) = insert_run after run (sort_runs after runs)

-- The order by cluster number, and that with the longest first.
abbrev pub after_lcn : Run → Run → Bool
after_lcn run other = ltb (lcn_of other) (lcn_of run)

abbrev pub after_rank : Run → Run → Bool
after_rank run other =
    ltb run.length other.length || (run.length == other.length && ltb (lcn_of other) (lcn_of run))

-- The loop of `_destination_slice`, with what remains after it.
unfoldable pub slice_from : List Run → ℕ → List Run × ℕ
slice_from [] remaining = ([], remaining)
slice_from (run ∷ runs) remaining =
    let taken = min run.length remaining in
    let rest = slice_from runs (remaining - taken) in
    if remaining == 0
    then ([], remaining)
    else (record { lcn = run.lcn; length = taken } ∷ rest.0, rest.1)

-- `none` is the exception of a selection that is too short.
unfoldable pub destination_slice : List Run → ℕ → Option (List Run)
unfolding sort_runs slice_from
destination_slice runs clusters =
    let (selected, remaining) = slice_from (sort_runs after_lcn runs) clusters in
    if remaining == 0 then some selected else none

pub data ExtentReason : Type 0 where
  not_unique sparse_extent no_free_extent no_safe_mapping : ExtentReason

pub data ExtentVerdict : Type 0 where
  planned : ExtentMove → ExtentVerdict
  refused : ExtentReason → ExtentVerdict

pub data ExtentError : Type 0 where
  in_plan : CompactError → ExtentError
  short_selection : ExtentError

abbrev pub or_short : Option (List Run) → Result ExtentError (List Run)
or_short none = err short_selection
or_short (some selected) = ok selected

-- The runs of the stream after the move of the end of its run at `index`.
unfoldable pub replacement : List Run → ℕ → ℕ → ℕ → List Run → List Run
replacement runs index source_lcn prefix destinations =
    let kept : List Run =
      if prefix == 0 then [] else record { lcn = some source_lcn; length = prefix } ∷ [] in
    take index runs ++ (kept ++ (destinations ++ drop (index + 1) runs))

-- `best` with its encoded length, and whether the plan at hand is better.
abbrev pub Best : Type 0
Best = Option (ExtentMove × ℕ)

abbrev pub improves : ExtentMove → ℕ → Best → Bool
improves move size none = true
improves move size (some (held, held_size)) =
    ltb (clusters_of held.source_runs) (clusters_of move.source_runs)
    || (clusters_of move.source_runs == clusters_of held.source_runs && ltb size held_size)

-- The rounds of the loop from `count` on, `left` of them: `ranked[:count]` is taken.
module _ (runs : List Run) (index source_lcn source_length : ℕ) (ranked : List Run)
    (capacity : ℕ) where
  -- The plan of one round, with the length of its mapping.
  unfoldable pub plan_for : ℕ → Result ExtentError (ExtentMove × ℕ)
  unfolding clusters_of destination_slice replacement coalesce_runs encoded_length
  plan_for count = do
    let chosen = take count ranked
    let movable = min source_length (clusters_of chosen)
    let prefix = source_length - movable
    destinations ← or_short (destination_slice chosen movable)
    let new_runs = coalesce_runs (replacement runs index source_lcn prefix destinations)
    size ← raise_as in_plan (encoded_length new_runs)
    ok (
      record {
        source_runs = record { lcn = some (source_lcn + prefix); length = movable } ∷ [];
        destination_runs = destinations;
        new_runs = new_runs;
      },
      size,
    )

  unfoldable pub best_from : ℕ → ℕ → Best → Result ExtentError Best
  unfolding plan_for
  best_from zero count best = ok best
  best_from (suc left) count best =
      let movable = min source_length (clusters_of (take count ranked)) in
      let skipped = best_from left (count + 1) best in
      let tried : Result ExtentError Best = (do
        (move, size) ← plan_for count
        let next =
            if ltb capacity size || (if improves move size best then false else true)
            then best
            else some (move, size)
        let rest = best_from left (count + 1) next
        if movable == source_length && leb size capacity then ok next else rest) in
      if movable == 0 then skipped else tried

-- `_plan_extent_move` from its search for free runs on, for the run at `index`.
unfoldable pub plan_source : List ℕ → Candidate → ℕ → ℕ → ℕ → Result ExtentError ExtentVerdict
unfolding free_runs_before sort_runs maximum_mapping_capacity best_from
plan_source bitmap candidate index source_lcn source_length =
    let free_runs = free_runs_before bitmap (pos source_lcn) in
    let ranked = sort_runs after_rank free_runs in
    let found : Result ExtentError ExtentVerdict = (do
      capacity ← raise_as in_plan (maximum_mapping_capacity candidate)
      best ←
          best_from candidate.attribute.runs index source_lcn source_length ranked capacity
            (min (length ranked) 128) 1 none
      ok (elim best [ none ↦ refused no_safe_mapping | some held ↦ planned held.0 ])) in
    if length free_runs == 0 then ok (refused no_free_extent) else found

unfoldable pub plan_extent_move : List ℕ → Candidate → ℕ → Result ExtentError ExtentVerdict
unfolding high_water_run_index plan_source
plan_extent_move bitmap candidate high_water =
    let runs = candidate.attribute.runs in
    elim (high_water_run_index runs high_water) [
      | none ↦ ok (refused not_unique)
      | some index ↦ elim (get_elem? runs index) [
        | none ↦ ok (refused not_unique)
        | some source ↦ elim source.lcn [
          | none ↦ ok (refused sparse_extent)
          | some lcn ↦ plan_source bitmap candidate index lcn source.length
        ]
      ]
    ]
