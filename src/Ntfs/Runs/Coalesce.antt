-- ===== src/Ntfs/Runs/Coalesce.antt =====
-- The stream that a list of runs stands for, and the merging of runs.
use mathlib.Core.List.{append_assoc}
use linux_defragger.Prelude.{
  ℕ, zero, suc, ◌+◌, ◌<◌, ◌≡◌, ◌≢◌, refl, ap, ◌∙◌, true, false, Option, some, none, List, [], ◌∷◌,
  ◌++◌, ◌==◌, arith, Bool-cases, inl, inr,
}
use linux_defragger.Ntfs.Runlist.{Run}
use linux_defragger.Ntfs.Runs.{continues, coalesce_onto, coalesce_runs}

-- The clusters of a run in stream order; a hole has none.
abbrev pub run_clusters : Option ℕ → ℕ → List (Option ℕ)
run_clusters lcn zero = []
run_clusters none (suc n) = none ∷ run_clusters none n
run_clusters (some a) (suc n) = some a ∷ run_clusters (some (a + 1)) n

abbrev pub stream : List Run → List (Option ℕ)
stream [] = []
stream (run ∷ runs) = run_clusters run.lcn run.length ++ stream runs

-- A run that does not continue the one before it: a hole behind an extent or the other way round, or
-- an extent that starts elsewhere than where the one before it ends.
abbrev pub IsApart : Option ℕ → ℕ → Option ℕ → Type 0
IsApart none n none = ⊥
IsApart none n (some b) = Unit
IsApart (some a) n none = Unit
IsApart (some a) n (some b) = a + n ≢ b

continues-IsApart :
    (lcn : Option ℕ) (n : ℕ) (next : Option ℕ) → continues lcn n next ≡ false → IsApart lcn n next
unfolding continues
continues-IsApart none n none h = cc
continues-IsApart none n (some b) h = tt
continues-IsApart (some a) n none h = tt
continues-IsApart (some a) n (some b) h = λ e. ground (arith, e, h)

-- No empty run, and no run that continues the one before it.
abbrev pub Follows : Option ℕ → ℕ → List Run → Type 0
Follows lcn n [] = Unit
Follows lcn n (run ∷ runs) = IsApart lcn n run.lcn

abbrev pub AreMerged : List Run → Type 0
AreMerged [] = Unit
AreMerged (run ∷ runs) = (0 < run.length) × Follows run.lcn run.length runs × AreMerged runs

run_clusters-join :
    (lcn : Option ℕ) (n : ℕ) (next : Option ℕ) (m : ℕ)
    → continues lcn n next ≡ true
    → run_clusters lcn (n + m) ≡ run_clusters lcn n ++ run_clusters next m
unfolding continues
run_clusters-join none zero none m h = let e : zero + m ≡ m = omega arith in rw e
run_clusters-join none (suc n) none m h =
    let e : suc n + m ≡ suc (n + m) = omega arith in rw (e, run_clusters-join none n none m h)
run_clusters-join (some a) zero (some b) m h =
    let e : zero + m ≡ m = omega arith in let e' : a ≡ b = ground (arith, h) in rw (e, e')
run_clusters-join (some a) (suc n) (some b) m h =
    let e : suc n + m ≡ suc (n + m) = omega arith in
    rw (e, run_clusters-join (some (a + 1)) n (some b) m (ground (arith, h)))
run_clusters-join none n (some b) m h = cc
run_clusters-join (some a) n none m h = cc

-- A run that is empty holds no cluster.
empty_clusters : (lcn : Option ℕ) (n : ℕ) → (n == 0) ≡ true → run_clusters lcn n ≡ []
empty_clusters lcn zero h = refl
empty_clusters lcn (suc n) h = absurd (ground (arith, h))

stream-coalesce_onto :
    (lcn : Option ℕ) (n : ℕ) (runs : List Run)
    → stream (coalesce_onto lcn n runs) ≡ run_clusters lcn n ++ stream runs
unfolding coalesce_onto
stream-coalesce_onto lcn n [] = refl
stream-coalesce_onto lcn n (run ∷ runs) = elim (Bool-cases (run.length == 0)) [
  | inl empty ↦
      rw (empty, empty_clusters run.lcn run.length empty) (stream-coalesce_onto lcn n runs)
  | inr full ↦ elim (Bool-cases (continues lcn n run.lcn)) [
    | inl joins ↦
        rw (full, joins)
          (stream-coalesce_onto lcn (n + run.length) runs
            ∙ ap (λ xs. xs ++ stream runs) (run_clusters-join lcn n run.lcn run.length joins)
            ∙ append_assoc (run_clusters lcn n) (run_clusters run.lcn run.length) (stream runs))
    | inr apart ↦ rw (full, apart, stream-coalesce_onto run.lcn run.length runs) refl
  ]
]

-- Coalescing runs keeps the stream: cluster by cluster, in stream order, the merged runs name the
-- same clusters and holes.
stream-coalesce_runs : (runs : List Run) → stream (coalesce_runs runs) ≡ stream runs
unfolding coalesce_runs
stream-coalesce_runs [] = refl
stream-coalesce_runs (run ∷ runs) = elim (Bool-cases (run.length == 0)) [
  | inl empty ↦ rw (empty, empty_clusters run.lcn run.length empty) (stream-coalesce_runs runs)
  | inr full ↦ rw full (stream-coalesce_onto run.lcn run.length runs)
]

-- What continues a run does not look at its length's parts.
continues-join :
    (lcn : Option ℕ) (n : ℕ) (next : Option ℕ) (m : ℕ) (after : Option ℕ)
    → continues lcn n next ≡ true
    → continues next m after ≡ continues lcn (n + m) after
unfolding continues
continues-join none n none m none h = refl
continues-join none n none m (some c) h = refl
continues-join (some a) n (some b) m none h = refl
continues-join (some a) n (some b) m (some c) h = ground (arith, h)
continues-join none n (some b) m after h = cc
continues-join (some a) n none m after h = cc

-- The first run that comes out starts where the run held aside does, and the rest is merged.
record Merged (lcn : Option ℕ) (out : List Run) : Type 0 where
  merged : AreMerged out
  starts : (before : Option ℕ) (k : ℕ) → continues before k lcn ≡ false → Follows before k out

coalesce_onto-Merged :
    (lcn : Option ℕ) (n : ℕ) (runs : List Run) → 0 < n → Merged lcn (coalesce_onto lcn n runs)
unfolding coalesce_onto
coalesce_onto-Merged lcn n [] p = record {
  merged = (p, tt, tt);
  starts = λ before k h. continues-IsApart before k lcn h;
}
coalesce_onto-Merged lcn n (run ∷ runs) p = elim (Bool-cases (run.length == 0)) [
  | inl empty ↦ rw empty (coalesce_onto-Merged lcn n runs p)
  | inr full ↦ elim (Bool-cases (continues lcn n run.lcn)) [
    | inl joins ↦
        rw (full, joins) (coalesce_onto-Merged lcn (n + run.length) runs (omega (arith, p)))
    | inr apart ↦
        let later = coalesce_onto-Merged run.lcn run.length runs (ground (arith, full)) in
        rw (full, apart)
          (record {
            merged = (p, later.starts lcn n apart, later.merged);
            starts = λ before k h. continues-IsApart before k lcn h;
          })
  ]
]

-- The coalesced runs are not empty, and none continues the run before it.
coalesce_runs-AreMerged : (runs : List Run) → AreMerged (coalesce_runs runs)
unfolding coalesce_runs
coalesce_runs-AreMerged [] = tt
coalesce_runs-AreMerged (run ∷ runs) = elim (Bool-cases (run.length == 0)) [
  | inl empty ↦ rw empty (coalesce_runs-AreMerged runs)
  | inr full ↦ rw full (coalesce_onto-Merged run.lcn run.length runs (ground (arith, full))).merged
]

-- Coalescing runs keeps the stream: cluster by cluster, in stream order, the merged runs name the
-- same clusters and holes; and the merged runs are not empty, and none continues the run before it.
pub coalesce_runs-kept :
    (runs : List Run) → (stream (coalesce_runs runs) ≡ stream runs) × AreMerged (coalesce_runs runs)
coalesce_runs-kept runs = (stream-coalesce_runs runs, coalesce_runs-AreMerged runs)
