-- ===== src/Ntfs/Gaps.antt =====
-- The search of the bitmap for free extents (`_free_runs_before`, `_find_free_run`), with its path
-- for whole bytes.
pub mod Free
pub mod FirstFit
use linux_defragger.Prelude.{
  ℕ, zero, suc, ◌+◌, ◌-◌, ◌*◌, ◌/◌, ◌%◌, min, Bool, true, false, ◌&&◌, Option, some, none, List, [],
  ◌∷◌, ◌++◌, ltb, leb, ◌==◌, if◌then◌else◌, length, get_or,
}
use linux_defragger.Prelude.Int.{ℤ, pos, negsuc, pos_part}
use linux_defragger.Ntfs.Runlist.{Run}
use linux_defragger.Ntfs.Bitmap.{bit}

-- `max(0, min(before, len(bitmap) * 8))`
unfoldable pub limit_of : List ℕ → ℤ → ℕ
limit_of bitmap before = min (pos_part before) (length bitmap * 8)

-- `if start is None: start = cluster`
abbrev pub opened : Option ℕ → ℕ → Option ℕ
opened none cluster = some cluster
opened (some start) cluster = some start

-- `if start is not None: result.append(Run(start, cluster - start))`
abbrev pub closed : Option ℕ → ℕ → List Run
closed none cluster = []
closed (some start) cluster = record { lcn = some start; length = cluster - start } ∷ []

-- One round of the loop: the runs that it appends, and the next `cluster` and `start`.
unfoldable pub scan_step : List ℕ → ℕ → ℕ → Option ℕ → List Run × ℕ × Option ℕ
scan_step bitmap limit cluster start =
    let whole = cluster % 8 == 0 && leb (cluster + 8) limit in
    let value = get_or bitmap (cluster / 8) 0 in
    if whole && value == 0x00
    then ([], cluster + 8, opened start cluster)
    else if whole && value == 0xFF
    then (closed start cluster, cluster + 8, none)
    else if bit bitmap cluster
    then (closed start cluster, cluster + 1, none)
    else ([], cluster + 1, opened start cluster)

-- The loop. Each round passes a cluster at least, so `limit` rounds are enough.
unfoldable pub scan : ℕ → List ℕ → ℕ → ℕ → Option ℕ → List Run
unfolding scan_step
scan zero bitmap limit cluster start = closed start limit
scan (suc fuel) bitmap limit cluster start =
    let (found, next, start') = scan_step bitmap limit cluster start in
    let rest = scan fuel bitmap limit next start' in
    if ltb cluster limit then found ++ rest else closed start limit

unfoldable pub free_runs_before : List ℕ → ℤ → List Run
unfolding limit_of scan
free_runs_before bitmap before =
    scan (limit_of bitmap before) bitmap (limit_of bitmap before) 0 none

-- The first run that is long enough.
unfoldable pub first_fit : ℕ → List Run → Option ℕ
first_fit n [] = none
first_fit n (run ∷ runs) = if leb n run.length then run.lcn else first_fit n runs

unfoldable pub find_free_run : List ℕ → ℤ → ℤ → Option ℕ
unfolding free_runs_before first_fit
find_free_run bitmap (pos (suc n)) before = first_fit (suc n) (free_runs_before bitmap before)
find_free_run bitmap (pos zero) before = none
find_free_run bitmap (negsuc n) before = none
