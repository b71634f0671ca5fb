-- ===== src/Ntfs/NextGap/Stats.antt =====
-- What `_free_gap_stats` counts, and which clusters `_defrag_destination_pool` offers.
use mathlib.Core.Bool.{not}
use linux_defragger.Prelude.{
  ℕ, zero, suc, ◌+◌, ◌-◌, ◌*◌, ◌<◌, ◌≤◌, ◌≡◌, refl, ◌∙◌, sym, min, max, Bool, true, false, ◌&&◌,
  Option, some, none, List, [], ◌∷◌, ltb, leb, length, arith, Bool-cases, Option-cases, inl, inr,
}
use linux_defragger.Prelude.Int.{ℤ, pos}
use linux_defragger.Ntfs.Runlist.{Run}
use linux_defragger.Ntfs.Bitmap.{bit}
use linux_defragger.Ntfs.Gaps.{limit_of, free_runs_before}
use linux_defragger.Ntfs.Gaps.Free.{free_runs_before-free}
use linux_defragger.Ntfs.Patches.Touched.{in_runs}
use linux_defragger.Ntfs.NextGap.{
  next_free_run, gap_stats_from, free_gap_stats, clipped_pool, defrag_destination_pool,
}
use linux_defragger.Ntfs.NextGap.Found.{IsNext, next_free_run-IsNext}
use linux_defragger.Maps.Tally.{tally, tally-append, tally_all, tally_none}

-- A span with free clusters in the middle only, and what is behind it.
tally_gap :
    (test : ℕ → Bool) (cursor lcn n limit : ℕ)
    → cursor ≤ lcn
    → lcn + n ≤ limit
    → ((u : ℕ) → cursor ≤ u → u < lcn → test u ≡ false)
    → ((u : ℕ) → lcn ≤ u → u < lcn + n → test u ≡ true)
    → tally test cursor (limit - cursor) ≡ n + tally test (lcn + n) (limit - (lcn + n))
tally_gap test cursor lcn n limit p q h k =
    let a = lcn - cursor in
    let to : cursor + a ≡ lcn = omega (arith, p) in
    let all : a + (n + (limit - (lcn + n))) ≡ limit - cursor = omega (arith, p, q) in
    let before = tally_none test cursor a (λ u i j. h u i (omega (arith, j, to))) in
    let middle = tally_all test lcn n k in
    let split = tally-append test cursor a (n + (limit - (lcn + n))) in
    let split' = tally-append test lcn n (limit - (lcn + n)) in
    let split'' : tally test cursor (limit - cursor)
        ≡ tally test cursor a + tally test lcn (n + (limit - (lcn + n))) =
      rw (all, to) at split in
    omega (arith, split'', split', before, middle)

gap_stats_from-tally :
    (fuel : ℕ) (bitmap : List ℕ) (before : ℤ) (cursor : ℕ)
    → limit_of bitmap before ≤ cursor + fuel
    → (gap_stats_from fuel bitmap before cursor).1
      ≡ tally (λ u. not (bit bitmap u)) cursor (limit_of bitmap before - cursor)
unfolding gap_stats_from
gap_stats_from-tally zero bitmap before cursor p =
    let none_left : limit_of bitmap before - cursor ≡ 0 = omega (arith, p) in rw none_left refl
gap_stats_from-tally (suc fuel) bitmap before cursor p =
    at_next (next_free_run bitmap cursor before) (next_free_run-IsNext bitmap cursor before)
      (λ c q. gap_stats_from-tally fuel bitmap before c q)
  where
    at_next :
        (hole : Option (ℕ × ℕ))
        → IsNext bitmap (limit_of bitmap before) cursor hole
        → ((c : ℕ)
            → limit_of bitmap before ≤ c + fuel
            → (gap_stats_from fuel bitmap before c).1
              ≡ tally (λ u. not (bit bitmap u)) c (limit_of bitmap before - c))
        → (let stats : ℕ × ℕ × Option ℕ = elim hole [
          | none ↦ (0, 0, none)
          | some run ↦
              let later = gap_stats_from fuel bitmap before (run.0 + run.1) in
              (suc later.0, run.1 + later.1, some run.0)
        ] in
            stats.1 ≡ tally (λ u. not (bit bitmap u)) cursor (limit_of bitmap before - cursor))
    at_next none h rest = sym (
        tally_none (λ u. not (bit bitmap u)) cursor (limit_of bitmap before - cursor)
          (λ u a b. rw (h u a (omega (arith, a, b))) refl))
    at_next (some (lcn, n)) (above, some_units, inside, used, free, stops) rest =
        let gap =
          tally_gap (λ u. not (bit bitmap u)) cursor lcn n (limit_of bitmap before) above inside
            (λ u a b. rw (used u a b) refl) (λ u a b. rw (free u a b) refl) in
        rw (rest (lcn + n) (omega (arith, p, above, some_units))) (sym gap)

-- The clusters that _free_gap_stats adds up over the gaps are as many as there are free clusters
-- from the start up to the limit.
pub free_gap_stats-tally :
    (bitmap : List ℕ) (before : ℤ) (start : ℕ)
    → (free_gap_stats bitmap before start).1
      ≡ tally (λ u. not (bit bitmap u)) start (limit_of bitmap before - start)
unfolding free_gap_stats
free_gap_stats-tally bitmap before start =
    gap_stats_from-tally (limit_of bitmap before) bitmap before start (omega arith)

limit_of-pos :
    (bitmap : List ℕ) (before : ℕ) → limit_of bitmap (pos before) ≡ min before (8 * length bitmap)
unfolding limit_of
limit_of-pos bitmap before = omega arith

clipped_pool-in :
    (upper : ℕ) (runs : List Run) (u : ℕ)
    → in_runs (clipped_pool upper runs) u ≡ (leb 1 u && ltb u upper && in_runs runs u)
unfolding clipped_pool
clipped_pool-in upper [] u = ground arith
clipped_pool-in upper (run ∷ runs) u = elim (Option-cases run.lcn) [
  | inl e ↦ rw e (clipped_pool-in upper runs u)
  | inr (lcn, e) ↦ elim (Bool-cases (ltb (max 1 lcn) (min upper (lcn + run.length)))) [
    | inl some_units ↦ rw (e, some_units) (ground (arith, some_units, clipped_pool-in upper runs u))
    | inr none_left ↦ rw (e, none_left) (ground (arith, none_left, clipped_pool-in upper runs u))
  ]
]

-- A cluster is in a run that _defrag_destination_pool returns exactly if it is free, in the bitmap,
-- and neither the first nor the last cluster of the volume, nor past it.
pub defrag_destination_pool-free :
    (bitmap : List ℕ) (total_clusters u : ℕ)
    → in_runs (defrag_destination_pool bitmap total_clusters) u
      ≡ (leb 1 u && ltb u (total_clusters - 1) && ltb u (8 * length bitmap) && not (bit bitmap u))
unfolding defrag_destination_pool
defrag_destination_pool-free bitmap total_clusters u =
    let upper = max 1 (total_clusters - 1) in
    clipped_pool-in upper (free_runs_before bitmap (pos upper)) u
    ∙ rw ((free_runs_before-free bitmap (pos upper)).1 u, limit_of-pos bitmap upper) (ground arith)
