-- ===== src/Ntfs/Compact/Owned.antt =====
-- The clusters that streams own, and the stream that a move puts in the plan.
use linux_defragger.Prelude.{
  ℕ, ◌+◌, ◌<◌, ◌≤◌, ◌≡◌, refl, ap, ◌∙◌, sym, true, false, some, List, [], ◌∷◌, ltb, ◌==◌,
  if◌then◌else◌, arith, Bool-cases, Option-cases, inl, inr,
}
use linux_defragger.Ntfs.Runlist.{Run}
use linux_defragger.Ntfs.Runs.{coalesce_runs}
use linux_defragger.Ntfs.Patches.Touched.{in_run, in_runs}
use linux_defragger.Ntfs.Compact.{StreamInfo, physical_runs}
use linux_defragger.Ntfs.Compact.Loop.{same_key, put_stream, moved_stream}
use linux_defragger.Ntfs.Compact.Fits.{one_run}
use linux_defragger.Ntfs.Compact.Select.{Has}

-- How often the runs name a cluster.
abbrev pub named : ℕ → List Run → ℕ
named u [] = 0
named u (run ∷ runs) = (if in_run u run.lcn run.length then 1 else 0) + named u runs

-- How often the streams name it.
abbrev pub owners : ℕ → List StreamInfo → ℕ
owners u [] = 0
owners u (info ∷ infos) = named u info.runs + owners u infos

-- No two streams have the same key.
abbrev pub NoKey : StreamInfo → List StreamInfo → Type 0
NoKey info [] = Unit
NoKey info (other ∷ others) = (same_key info other ≡ false) × NoKey info others

abbrev pub UniqueKeys : List StreamInfo → Type 0
UniqueKeys [] = Unit
UniqueKeys (info ∷ infos) = NoKey info infos × UniqueKeys infos

pub in_runs-named :
    (u : ℕ) (runs : List Run) → in_runs (physical_runs runs) u ≡ ltb 0 (named u runs)
unfolding physical_runs
in_runs-named u [] = refl
in_runs-named u (run ∷ runs) = elim (Option-cases run.lcn) [
  | inl e ↦ rw e (
      in_runs-named u runs
      ∙ ap (ltb 0) (let z : named u runs ≡ 0 + named u runs = omega arith in z))
  | inr (lcn, e) ↦ elim (Bool-cases (run.length == 0)) [
    | inl z ↦
        let out : in_run u (some lcn) run.length ≡ false = ground (arith, z) in
        rw (e, z, out)
          (in_runs-named u runs
            ∙ ap (ltb 0) (let z : named u runs ≡ 0 + named u runs = omega arith in z))
    | inr z ↦ rw (e, z) (ground (arith, in_runs-named u runs))
  ]
]

pub Has-owners :
    (u : ℕ) (info : StreamInfo) (infos : List StreamInfo)
    → Has info infos
    → named u info.runs ≤ owners u infos
Has-owners u info [] h = elim h [ ]
Has-owners u info (other ∷ others) (inl e) = rw e (omega arith)
Has-owners u info (other ∷ others) (inr h) = omega (arith, Has-owners u info others h)

pub NoKey-Has :
    (other info : StreamInfo) (infos : List StreamInfo)
    → NoKey other infos
    → Has info infos
    → same_key other info ≡ false
NoKey-Has other info [] no_key h = elim h [ ]
NoKey-Has other info (first ∷ rest) (k, no_key) (inl e) = rw e k
NoKey-Has other info (first ∷ rest) (k, no_key) (inr h) = NoKey-Has other info rest no_key h

NoKey-put :
    (other updated : StreamInfo) (infos : List StreamInfo)
    → same_key other updated ≡ false
    → NoKey other infos
    → NoKey other (put_stream updated infos)
unfolding put_stream
NoKey-put other updated [] k h = (k, tt)
NoKey-put other updated (info ∷ infos) k (x, h) = elim (Bool-cases (same_key updated info)) [
  | inl e ↦ rw e (k, h)
  | inr e ↦ rw e (x, NoKey-put other updated infos k h)
]

NoKey-same :
    (updated first : StreamInfo) (infos : List StreamInfo)
    → same_key updated first ≡ true
    → NoKey first infos
    → NoKey updated infos
NoKey-same updated first [] e h = tt
NoKey-same updated first (other ∷ others) e (k, h) =
    (ground (arith, e, k), NoKey-same updated first others e h)

module _ (updated info : StreamInfo) (same : same_key updated info ≡ true) where
  -- The plan has the stream under its key.
  pub put_stream-owners :
      (u : ℕ) (infos : List StreamInfo)
      → Has info infos
      → UniqueKeys infos
      → owners u (put_stream updated infos) + named u info.runs
        ≡ owners u infos + named u updated.runs
  unfolding put_stream
  put_stream-owners u [] h unique = elim h [ ]
  put_stream-owners u (first ∷ rest) (inl e) (no_key, unique) =
      let here : same_key updated first ≡ true = rw (sym e) same in
      let runs : named u info.runs ≡ named u first.runs = ap (λ i. named u i.runs) e in
      rw here (omega (arith, runs))
  put_stream-owners u (first ∷ rest) (inr h) (no_key, unique) =
      let other = NoKey-Has first info rest no_key h in
      let elsewhere : same_key updated first ≡ false = ground (arith, other, same) in
      rw elsewhere (omega (arith, put_stream-owners u rest h unique))

pub put_stream-UniqueKeys :
    (updated : StreamInfo) (infos : List StreamInfo)
    → UniqueKeys infos
    → UniqueKeys (put_stream updated infos)
unfolding put_stream
put_stream-UniqueKeys updated [] unique = (tt, tt)
put_stream-UniqueKeys updated (first ∷ rest) (no_key, unique) =
    elim (Bool-cases (same_key updated first)) [
      | inl here ↦ rw here (NoKey-same updated first rest here no_key, unique)
      | inr elsewhere ↦
          let apart : same_key first updated ≡ false = ground (arith, elsewhere) in
          rw elsewhere
            (NoKey-put first updated rest apart no_key, put_stream-UniqueKeys updated rest unique)
    ]

-- The stream that has been moved.
pub moved_stream-runs :
    (info : StreamInfo) (lcn n : ℕ)
    → 0 < n
    → (moved_stream info (one_run lcn n)).runs ≡ one_run lcn n
unfolding moved_stream coalesce_runs
moved_stream-runs info lcn n p =
    let some_units : (n == 0) ≡ false = ground (arith, p) in rw some_units refl

pub moved_stream-key :
    (info : StreamInfo) (runs : List Run) → same_key (moved_stream info runs) info ≡ true
unfolding moved_stream
moved_stream-key info runs = ground arith
