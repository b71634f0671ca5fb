-- ===== src/Ntfs/NextGap.antt =====
-- The search for one free extent at a time, and what is built on it (`_next_free_run`,
-- `_free_gap_stats`, `_defrag_destination_pool`).
pub mod Found
pub mod Stats
use linux_defragger.Prelude.{
  ℕ, zero, suc, ◌+◌, ◌-◌, ◌/◌, ◌%◌, min, max, Bool, true, false, ◌&&◌, Option, some, none, List, [],
  ◌∷◌, ltb, leb, ◌==◌, if◌then◌else◌, length, get_or,
}
use linux_defragger.Prelude.Int.{ℤ, pos}
use linux_defragger.Ntfs.Runlist.{Run}
use linux_defragger.Ntfs.Bitmap.{bit}
use linux_defragger.Ntfs.Gaps.{limit_of, free_runs_before}

-- The two loops of `_next_free_run`: the one for `true` passes used clusters, the other free ones.
-- Each round passes a cluster at least.
unfoldable pub pass : Bool → ℕ → List ℕ → ℕ → ℕ → ℕ
pass used zero bitmap limit cluster = cluster
pass used (suc fuel) bitmap limit cluster =
    let whole = cluster % 8 == 0 && leb (cluster + 8) limit in
    let value = get_or bitmap (cluster / 8) 0 in
    let past_byte = pass used fuel bitmap limit (cluster + 8) in
    let past_one = pass used fuel bitmap limit (cluster + 1) in
    if ltb cluster limit
    then if whole && value == (if used then 0xFF else 0x00)
      then past_byte
      else if whole && value == (if used then 0x00 else 0xFF)
      then cluster
      else if bit bitmap cluster
      then (if used then past_one else cluster)
      else (if used then cluster else past_one)
    else cluster

-- `_next_free_run`, from a cluster of zero or more. The run is a start and a length.
unfoldable pub next_free_run : List ℕ → ℕ → ℤ → Option (ℕ × ℕ)
unfolding limit_of pass
next_free_run bitmap start before =
    let limit = limit_of bitmap before in
    let cluster = pass true limit bitmap limit start in
    let end' = pass false limit bitmap limit cluster in
    if leb limit cluster then none else some (cluster, end' - cluster)

-- The loop of `_free_gap_stats` from `cursor` on: the count of gaps, that of clusters, and the first gap.
unfoldable pub gap_stats_from : ℕ → List ℕ → ℤ → ℕ → ℕ × ℕ × Option ℕ
unfolding next_free_run
gap_stats_from zero bitmap before cursor = (0, 0, none)
gap_stats_from (suc fuel) bitmap before cursor = elim (next_free_run bitmap cursor before) [
  | none ↦ (0, 0, none)
  | some run ↦
      let rest = gap_stats_from fuel bitmap before (run.0 + run.1) in
      (suc rest.0, run.1 + rest.1, some run.0)
]

-- Each gap lies past the one before it, so the limit is fuel enough.
unfoldable pub free_gap_stats : List ℕ → ℤ → ℕ → ℕ × ℕ × Option ℕ
unfolding limit_of gap_stats_from
free_gap_stats bitmap before start = gap_stats_from (limit_of bitmap before) bitmap before start

-- The loop of `_defrag_destination_pool` with the bound `upper`.
unfoldable pub clipped_pool : ℕ → List Run → List Run
clipped_pool upper [] = []
clipped_pool upper (run ∷ runs) =
    let rest = clipped_pool upper runs in
    elim run.lcn [
      | none ↦ rest
      | some lcn ↦
          let start = max 1 lcn in
          let end' = min upper (lcn + run.length) in
          if ltb start end' then record { lcn = some start; length = end' - start } ∷ rest else rest
    ]

unfoldable pub defrag_destination_pool : List ℕ → ℕ → List Run
unfolding free_runs_before clipped_pool
defrag_destination_pool bitmap total_clusters =
    let upper = max 1 (total_clusters - 1) in
    clipped_pool upper (free_runs_before bitmap (pos upper))
