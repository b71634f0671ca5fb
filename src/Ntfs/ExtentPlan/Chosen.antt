-- ===== src/Ntfs/ExtentPlan/Chosen.antt =====
-- The runs that `_plan_extent_move` chooses.
use linux_defragger.Prelude.{
  ℕ, zero, suc, ◌+◌, ◌-◌, ◌≤◌, ◌≡◌, refl, ap, sym, ◌∙◌, inl, inr, min, Bool, true, ◌||◌, Option,
  some, none, List, [], ◌∷◌, ◌==◌, take, get_elem?, arith, Bool-cases, Option-cases,
}
use linux_defragger.Prelude.Int.{pos}
use linux_defragger.Ntfs.Runlist.{Run}
use linux_defragger.Ntfs.Move.{clusters_of}
use linux_defragger.Ntfs.Patches.Touched.{in_run, in_runs}
use linux_defragger.Ntfs.Gaps.{limit_of}
use linux_defragger.Ntfs.ExtentPlan.{
  matches, insert_run, sort_runs, after_lcn, slice_from, destination_slice,
}

pub in_runs-take :
    (n : ℕ) (runs : List Run) (u : ℕ) → in_runs (take n runs) u ≡ true → in_runs runs u ≡ true
in_runs-take zero runs u h = absurd (ground (arith, h))
in_runs-take (suc n) [] u h = h
in_runs-take (suc n) (run ∷ runs) u h = elim (Bool-cases (in_run u run.lcn run.length)) [
  | inl here ↦ rw here refl
  | inr other ↦ rw other (in_runs-take n runs u (rw other at h))
]

module _ (after : Run → Run → Bool) (u : ℕ) where
  in_runs-insert_run :
      (run : Run) (runs : List Run) → in_runs (insert_run after run runs) u ≡ in_runs (run ∷ runs) u
  unfolding insert_run
  in_runs-insert_run run [] = refl
  in_runs-insert_run run (other ∷ others) = elim (Bool-cases (after run other)) [
    | inl e ↦ rw (e, in_runs-insert_run run others) (ground arith)
    | inr e ↦ rw e refl
  ]

  pub in_runs-sort_runs : (runs : List Run) → in_runs (sort_runs after runs) u ≡ in_runs runs u
  unfolding sort_runs
  in_runs-sort_runs [] = refl
  in_runs-sort_runs (run ∷ runs) =
      in_runs-insert_run run (sort_runs after runs)
      ∙ ap (λ rest. in_run u run.lcn run.length || rest) (in_runs-sort_runs runs)

-- The clusters that are taken from the runs, and those that are still to be taken.
clusters_of-slice_from :
    (runs : List Run) (remaining : ℕ)
    → clusters_of (slice_from runs remaining).0 + (slice_from runs remaining).1 ≡ remaining
unfolding slice_from clusters_of
clusters_of-slice_from [] remaining = omega arith
clusters_of-slice_from (run ∷ runs) remaining =
    let later = clusters_of-slice_from runs (remaining - min run.length remaining) in
    elim (Bool-cases (remaining == 0)) [
      | inl e ↦ rw e (omega arith)
      | inr e ↦ rw e (omega (arith, later))
    ]

in_run-shorter :
    (u : ℕ) (lcn : Option ℕ) (n m : ℕ) → n ≤ m → in_run u lcn n ≡ true → in_run u lcn m ≡ true
in_run-shorter u none n m p h = h
in_run-shorter u (some a) n m p h = ground (arith, p, h)

in_runs-slice_from :
    (runs : List Run) (remaining u : ℕ)
    → in_runs (slice_from runs remaining).0 u ≡ true
    → in_runs runs u ≡ true
unfolding slice_from
in_runs-slice_from [] remaining u h = h
in_runs-slice_from (run ∷ runs) remaining u h =
    let taken = min run.length remaining in
    let later = in_runs-slice_from runs (remaining - taken) u in
    elim (Bool-cases (remaining == 0)) [
      | inl e ↦ absurd (ground (arith, rw e at h))
      | inr e ↦ elim (Bool-cases (in_run u run.lcn taken)) [
        | inl here ↦ rw (in_run-shorter u run.lcn taken run.length (omega arith) here) refl
        | inr other ↦ ground (arith, later (ground (arith, other, rw e at h)))
      ]
    ]

-- A physical run at the index ends at `high_water`.
abbrev pub Ends : ℕ → List Run → ℕ → Type 0
Ends high_water runs j =
    (run : Run) (lcn : ℕ)
    → get_elem? runs j ≡ some run
    → run.lcn ≡ some lcn
    → lcn + run.length ≡ high_water

-- The first index that is found is that of a run that ends at `high_water`.
pub matches-end :
    (high_water k : ℕ) (runs : List Run) (index : ℕ) (rest : List ℕ)
    → matches high_water k runs ≡ index ∷ rest
    → (j : ℕ) × (index ≡ k + j) × Ends high_water runs j
matches-end high_water k [] index rest e = absurd (cc)
matches-end high_water k (run ∷ runs) index rest e = elim (Option-cases run.lcn) [
  | inl hole ↦ later (matches-end high_water (k + 1) runs index rest (rw hole at e))
  | inr (lcn, l) ↦ elim (Bool-cases (lcn + run.length == high_water)) [
    | inl ends ↦ first lcn l ends (rw (l, ends) at e)
    | inr other ↦ later (matches-end high_water (k + 1) runs index rest (rw (l, other) at e))
  ]
]
  where
    later :
        (j : ℕ) × (index ≡ k + 1 + j) × Ends high_water runs j
        → (j : ℕ) × (index ≡ k + j) × Ends high_water (run ∷ runs) j
    later (j, i, h) = (suc j, omega (arith, i), h)

    first :
        (lcn : ℕ)
        → run.lcn ≡ some lcn
        → (lcn + run.length == high_water) ≡ true
        → k ∷ matches high_water (k + 1) runs ≡ index ∷ rest
        → (j : ℕ) × (index ≡ k + j) × Ends high_water (run ∷ runs) j
    first lcn l ends e' =
        let same : k ≡ index = cc in
        (
          0,
          omega (arith, same),
          λ other a g m.
              let this : run ≡ other = cc in
              let length_eq : run.length ≡ other.length = ap (λ r. r.length) this in
              let lcn_eq : some lcn ≡ some a = sym l ∙ ap (λ r. r.lcn) this ∙ m in
              let starts : lcn ≡ a = cc in ground (arith, ends, length_eq, starts),
        )

pub limit_of-le_before : (bitmap : List ℕ) (before : ℕ) → limit_of bitmap (pos before) ≤ before
unfolding limit_of
limit_of-le_before bitmap before = omega arith

pub destination_slice-clusters :
    (runs chosen : List Run) (clusters : ℕ)
    → destination_slice runs clusters ≡ some chosen
    → (clusters_of chosen ≡ clusters) × ((u : ℕ) → in_runs chosen u ≡ true → in_runs runs u ≡ true)
unfolding destination_slice
destination_slice-clusters runs chosen clusters e =
    let sorted = sort_runs after_lcn runs in
    let taken = clusters_of-slice_from sorted clusters in
    elim (Bool-cases ((slice_from sorted clusters).1 == 0)) [
      | inl all ↦
          let same : (slice_from sorted clusters).0 ≡ chosen = (let q = rw all at e in cc) in
          (
            ap clusters_of (sym same) ∙ ground (arith, all, taken),
            λ u h.
                sym (in_runs-sort_runs after_lcn u runs)
                ∙ in_runs-slice_from sorted clusters u (rw same h),
          )
      | inr left ↦ absurd (let q = rw left at e in cc)
    ]
