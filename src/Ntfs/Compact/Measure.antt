-- ===== src/Ntfs/Compact/Measure.antt =====
-- What goes down from round to round of `compact`.
use native.Mathlib.Nat.{add-mul, one-mul}
use linux_defragger.Prelude.{
  ℕ, ◌+◌, ◌-◌, ◌*◌, ◌<◌, ◌≤◌, ◌≡◌, ap, ◌∙◌, sym, true, false, some, List, [], ◌∷◌, ◌==◌, arith,
  Bool-cases, Option-cases, inl, inr,
}
use linux_defragger.Ntfs.Runlist.{Run}
use linux_defragger.Ntfs.Compact.{StreamInfo, stream_clusters, highest_lcn, physical_runs}
use linux_defragger.Ntfs.Compact.Loop.{same_key, put_stream}
use linux_defragger.Ntfs.Compact.Fits.{AllAbove, one_run}
use linux_defragger.Ntfs.Compact.Select.{Has}
use linux_defragger.Ntfs.Compact.Owned.{UniqueKeys, NoKey-Has}

-- The ends of all streams, added up.
abbrev pub heights : List StreamInfo → ℕ
heights [] = 0
heights (info ∷ infos) = highest_lcn info.runs + heights infos

-- A stream above a gap ends above it.
pub lt-highest_lcn :
    (lo : ℕ) (runs : List Run)
    → AllAbove lo (physical_runs runs)
    → 0 < stream_clusters runs
    → lo < highest_lcn runs
unfolding physical_runs stream_clusters highest_lcn
lt-highest_lcn lo [] h p = absurd (omega (arith, p))
lt-highest_lcn lo (run ∷ runs) h p = elim (Option-cases run.lcn) [
  | inl e ↦ rw e (lt-highest_lcn lo runs (rw e at h) (rw e at p))
  | inr (lcn, e) ↦ elim (Bool-cases (run.length == 0)) [
    | inl z ↦
        let empty : run.length ≡ 0 = ground (arith, z) in
        let later : 0 < stream_clusters runs = ground (arith, (rw e at p), empty) in
        rw e (omega (arith, lt-highest_lcn lo runs (rw (e, z) at h) later))
    | inr z ↦
        let (l, same, above, full, rest) =
          first_above lo run (physical_runs runs) (rw (e, z) at h) in
        let here : lcn ≡ l = ground (arith, e, same) in rw e (omega (arith, here, above, full))
  ]
]
  where
    first_above :
        (lo : ℕ) (run : Run) (runs : List Run)
        → AllAbove lo (run ∷ runs)
        → (lcn : ℕ) × (run.lcn ≡ some lcn) × (lo ≤ lcn) × (0 < run.length) × AllAbove lo runs
    first_above lo run runs h = h

pub highest_lcn-one_run : (lcn n : ℕ) → highest_lcn (one_run lcn n) ≡ lcn + n
unfolding highest_lcn
highest_lcn-one_run lcn n = omega arith

module _ (updated info : StreamInfo) (same : same_key updated info ≡ true) where
  pub put_stream-heights :
      (infos : List StreamInfo)
      → Has info infos
      → UniqueKeys infos
      → heights (put_stream updated infos) + highest_lcn info.runs
        ≡ heights infos + highest_lcn updated.runs
  unfolding put_stream
  put_stream-heights [] h unique = elim h [ ]
  put_stream-heights (first ∷ rest) (inl e) (no_key, unique) =
      let here : same_key updated first ≡ true = rw (sym e) same in
      let runs : highest_lcn info.runs ≡ highest_lcn first.runs = ap (λ i. highest_lcn i.runs) e in
      rw here (omega (arith, runs))
  put_stream-heights (first ∷ rest) (inr h) (no_key, unique) =
      let other = NoKey-Has first info rest no_key h in
      let elsewhere : same_key updated first ≡ false = ground (arith, other, same) in
      rw elsewhere (omega (arith, put_stream-heights rest h unique))

-- Streams come down, or else the cursor goes up.
abbrev pub measure : ℕ → List StreamInfo → ℕ → ℕ
measure top streams cursor = heights streams * (top + 1) + (top - cursor)

pub measure-moved :
    (top before after c d : ℕ)
    → after < before
    → after * (top + 1) + (top - d) < before * (top + 1) + (top - c)
measure-moved top before after c d p =
    let k = before - (after + 1) in
    let e : before ≡ after + 1 + k = omega (arith, p) in
    let product : before * (top + 1) ≡ (after + 1) * (top + 1) + k * (top + 1) =
      ap (λ n. n * (top + 1)) e ∙ add-mul (after + 1) k (top + 1) in
    omega (arith, product, add-mul after 1 (top + 1), one-mul (top + 1))
