-- ===== src/Ntfs/Slices.antt =====
-- The slices in which a move is shown (`_iter_physical_move_slices`), a generator: the slices that it
-- yields, and what it raises after them.
mod Tests
use linux_defragger.Prelude.{
  ℕ, zero, suc, ◌+◌, ◌-◌, min, Bool, true, false, Option, some, none, List, [], ◌∷◌, ==_iff, ◌==◌,
  if◌then◌else◌, length,
}
use linux_defragger.Ntfs.Runlist.{Run}
use linux_defragger.Ntfs.Move.{clusters_of, non_empty}

pub data SliceError : Type 0 where
  sparse_slice zero_slice lengths_disagree : SliceError

-- `(source_lcn, destination_lcn, clusters)`
abbrev pub Slice : Type 0
Slice = ℕ × ℕ × ℕ

abbrev pub Slices : Type 0
Slices = List Slice × Option SliceError

abbrev with_slice : Slice → Slices → Slices
with_slice slice rest = (slice ∷ rest.0, rest.1)

-- The runs that are left and the offset in the first of them, after `taken` clusters of a run of
-- `size` clusters.
abbrev pub runs_left : ℕ → ℕ → ℕ → Run → List Run → List Run
runs_left offset taken size run runs = if offset + taken == size then runs else run ∷ runs

abbrev pub offset_left : ℕ → ℕ → ℕ → ℕ
offset_left offset taken size = if offset + taken == size then 0 else offset + taken

-- The loop, the runs behind the two indices being held in lists. Each round takes a cluster at least,
-- so as many rounds as there are source clusters, and one, are enough.
unfoldable pub slices_from : ℕ → List Run → ℕ → List Run → ℕ → Slices
slices_from zero sources source_offset destinations destination_offset = ([], some lengths_disagree)
slices_from (suc fuel) [] source_offset [] destination_offset = ([], none)
slices_from (suc fuel) [] source_offset (d ∷ ds) destination_offset = ([], some lengths_disagree)
slices_from (suc fuel) (s ∷ ss) source_offset [] destination_offset = ([], some lengths_disagree)
slices_from (suc fuel) (s ∷ ss) source_offset (d ∷ ds) destination_offset =
    let taken = min (s.length - source_offset) (d.length - destination_offset) in
    let rest =
      slices_from fuel (runs_left source_offset taken s.length s ss)
        (offset_left source_offset taken s.length)
        (runs_left destination_offset taken d.length d ds)
        (offset_left destination_offset taken d.length) in
    elim s.lcn [
      | none ↦ ([], some sparse_slice)
      | some from ↦ elim d.lcn [
        | none ↦ ([], some sparse_slice)
        | some to ↦
            if taken == 0
            then ([], some zero_slice)
            else with_slice (from + source_offset, to + destination_offset, taken) rest
      ]
    ]

unfoldable pub iter_physical_move_slices : List Run → List Run → Slices
unfolding clusters_of non_empty slices_from
iter_physical_move_slices source_runs destination_runs =
    slices_from (suc (clusters_of source_runs)) (non_empty source_runs) 0
      (non_empty destination_runs) 0
