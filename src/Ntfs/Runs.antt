-- ===== src/Ntfs/Runs.antt =====
-- Run lists of a stream: merging neighbours (`_coalesce_runs`, `_physical_fragment_count`).

pub mod Coalesce
mod Tests
use linux_defragger.Prelude.{
  ℕ, zero, suc, ◌+◌, Bool, true, false, Option, some, none, List, [], ◌∷◌, ◌==◌, if◌then◌else◌,
}
use linux_defragger.Ntfs.Runlist.{Run}

-- The two tests on `merged[-1]` and `run`: physical neighbours, or both sparse.
unfoldable pub continues : Option ℕ → ℕ → Option ℕ → Bool
continues none n none = true
continues none n (some b) = false
continues (some a) n none = false
continues (some a) n (some b) = a + n == b

-- The loop with `merged[-1]` held aside as `(lcn, n)`.
unfoldable pub coalesce_onto : Option ℕ → ℕ → List Run → List Run
unfolding continues
coalesce_onto lcn n [] = record { lcn = lcn; length = n } ∷ []
coalesce_onto lcn n (run ∷ runs) =
    let skipped = coalesce_onto lcn n runs in
    let joined = coalesce_onto lcn (n + run.length) runs in
    let appended = coalesce_onto run.lcn run.length runs in
    if run.length == 0
    then skipped
    else if continues lcn n run.lcn
    then joined
    else record { lcn = lcn; length = n } ∷ appended

-- The loop while `merged` is empty.
unfoldable pub coalesce_runs : List Run → List Run
unfolding coalesce_onto
coalesce_runs [] = []
coalesce_runs (run ∷ runs) =
    let skipped = coalesce_runs runs in
    if run.length == 0 then skipped else coalesce_onto run.lcn run.length runs

-- The physical runs of a list.
unfoldable pub count_physical : List Run → ℕ
count_physical [] = 0
count_physical (run ∷ runs) = elim run.lcn [
  | none ↦ count_physical runs
  | some _ ↦ suc (count_physical runs)
]

unfoldable pub physical_fragment_count : List Run → ℕ
unfolding coalesce_runs count_physical
physical_fragment_count runs = count_physical (coalesce_runs runs)
