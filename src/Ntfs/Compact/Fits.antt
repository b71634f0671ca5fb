-- ===== src/Ntfs/Compact/Fits.antt =====
-- The move that `_plan_compact_extent_info` plans.
use linux_defragger.Prelude.{
  ℕ, ◌+◌, ◌<◌, ◌≤◌, ◌≡◌, refl, ◌∙◌, sym, min, Option, some, none, List, [], ◌∷◌, ltb, ◌==◌,
  if◌then◌else◌, arith, Bool-cases, Option-cases, inl, inr, Result, ok, err, ◌>>=◌,
}
use linux_defragger.Ntfs.Runlist.{Run}
use linux_defragger.Ntfs.Move.{ExtentMove, clusters_of}
use linux_defragger.Ntfs.Compact.{
  StreamInfo, stream_clusters, physical_runs, min_lcn, Verdict, fits, blocked, mapping_too_long,
  CompactError, encoded_length, plan_in_gap, plan_compact_extent_info,
}

-- Physical runs, not empty, that start at `lo` or above.
abbrev pub AllAbove : ℕ → List Run → Type 0
AllAbove lo [] = Unit
AllAbove lo (run ∷ runs) =
    (lcn : ℕ) × (run.lcn ≡ some lcn) × (lo ≤ lcn) × (0 < run.length) × AllAbove lo runs

pub AllAbove-weaken :
    (lo lo' : ℕ) (runs : List Run) → lo' ≤ lo → AllAbove lo runs → AllAbove lo' runs
AllAbove-weaken lo lo' [] p h = tt
AllAbove-weaken lo lo' (run ∷ runs) p (lcn, e, q, r, h) =
    (lcn, e, omega (arith, p, q), r, AllAbove-weaken lo lo' runs p h)

abbrev pub one_run : ℕ → ℕ → List Run
one_run lcn n = record { lcn = some lcn; length = n } ∷ []

-- The move takes the whole stream, run by run in stream order, to the start of the gap, in one piece;
-- it fits there, and all of it came from above the gap.
pub record Fitting (info : StreamInfo) (gap_start gap_length : ℕ) (move : ExtentMove) : Type 0 where
  pub source : move.source_runs ≡ physical_runs info.runs
  pub destination : move.destination_runs ≡ one_run gap_start (stream_clusters info.runs)
  pub replaced : move.new_runs ≡ one_run gap_start (stream_clusters info.runs)
  pub whole : clusters_of move.source_runs ≡ stream_clusters info.runs
  pub nonempty : 0 < stream_clusters info.runs
  pub room : stream_clusters info.runs ≤ gap_length
  pub above : AllAbove (gap_start + gap_length) move.source_runs

clusters_of-physical_runs :
    (runs : List Run) → clusters_of (physical_runs runs) ≡ stream_clusters runs
unfolding clusters_of physical_runs stream_clusters
clusters_of-physical_runs [] = refl
clusters_of-physical_runs (run ∷ runs) = elim (Option-cases run.lcn) [
  | inl e ↦ rw e (clusters_of-physical_runs runs)
  | inr (lcn, e) ↦ elim (Bool-cases (run.length == 0)) [
    | inl z ↦
        let empty : run.length ≡ 0 = ground (arith, z) in
        rw (e, z) (omega (arith, empty, clusters_of-physical_runs runs))
    | inr z ↦ rw (e, z) (omega (arith, clusters_of-physical_runs runs))
  ]
]

physical_runs-AllAbove : (runs : List Run) → AllAbove 0 (physical_runs runs)
unfolding physical_runs
physical_runs-AllAbove [] = tt
physical_runs-AllAbove (run ∷ runs) = elim (Option-cases run.lcn) [
  | inl e ↦ rw e (physical_runs-AllAbove runs)
  | inr (lcn, e) ↦ elim (Bool-cases (run.length == 0)) [
    | inl z ↦ rw (e, z) (physical_runs-AllAbove runs)
    | inr z ↦ rw (e, z) (lcn, e, omega arith, ground (arith, z), physical_runs-AllAbove runs)
  ]
]

-- The least cluster number of the first run and of the others.
abbrev least_of : ℕ → Option ℕ → ℕ
least_of lcn none = lcn
least_of lcn (some other) = min lcn other

min_lcn-cons :
    (run : Run) (runs : List Run) (lcn : ℕ)
    → run.lcn ≡ some lcn
    → min_lcn (run ∷ runs) ≡ some (least_of lcn (min_lcn runs))
unfolding min_lcn
min_lcn-cons run runs lcn e = elim (Option-cases (min_lcn runs)) [
  | inl n ↦ rw (e, n) refl
  | inr (other, n) ↦ rw (e, n) refl
]

some_eq : (a b : ℕ) → some a ≡ some b → a ≡ b
some_eq a b h = ground (arith, h)

not_some : (a : ℕ) → none ≡ some a → ⊥
not_some a h = ground (arith, h)

-- The least cluster number bounds them all.
min_lcn-AllAbove :
    (runs : List Run) (least : ℕ)
    → AllAbove 0 runs
    → min_lcn runs ≡ some least
    → AllAbove least runs
min_lcn-AllAbove [] least p h = tt
min_lcn-AllAbove (run ∷ runs) least (lcn, e, q, full, p) h =
    let same : least_of lcn (min_lcn runs) ≡ least =
      some_eq _ _ (sym (min_lcn-cons run runs lcn e) ∙ h) in
    elim (Option-cases (min_lcn runs)) [
      | inl n ↦
          let here : lcn ≡ least = rw n at same in
          (lcn, e, omega (arith, here), full, no_runs runs p n)
      | inr (other, n) ↦
          let here : min lcn other ≡ least = rw n at same in
          (
            lcn,
            e,
            omega (arith, here),
            full,
            AllAbove-weaken other least runs (omega (arith, here))
                (min_lcn-AllAbove runs other p n),
          )
    ]
  where
    no_runs : (runs : List Run) → AllAbove 0 runs → min_lcn runs ≡ none → AllAbove least runs
    no_runs [] p h = tt
    no_runs (run ∷ runs) (lcn, e, q, full, p) h =
        absurd (not_some _ (sym h ∙ min_lcn-cons run runs lcn e))

-- A move that is planned fits; where none is planned, there is nothing to say.
abbrev Planned : StreamInfo → ℕ → ℕ → Result CompactError Verdict → Type 0
Planned info gap_start gap_length (err e) = Unit
Planned info gap_start gap_length (ok (blocked reason)) = Unit
Planned info gap_start gap_length (ok (fits move)) = Fitting info gap_start gap_length move

module _ (info : StreamInfo) (gap_start gap_length : ℕ) where
  Planned-encoded :
      (r : Result CompactError ℕ) (v : Verdict)
      → Planned info gap_start gap_length (ok v)
      → Planned info gap_start gap_length
          (do size ← r; ok (if ltb info.mapping_capacity size then blocked mapping_too_long else v))
  Planned-encoded (err e) v h = tt
  Planned-encoded (ok size) v h = elim (Bool-cases (ltb info.mapping_capacity size)) [
    | inl e ↦ rw e tt
    | inr e ↦ rw e h
  ]

  plan_in_gap-Planned : Planned info gap_start gap_length (plan_in_gap info gap_start gap_length)
  unfolding plan_in_gap
  plan_in_gap-Planned = elim (Bool-cases (stream_clusters info.runs == 0)) [
    | inl z ↦ rw z tt
    | inr z ↦ elim (Bool-cases (ltb gap_length (stream_clusters info.runs))) [
      | inl big ↦ rw (z, big) tt
      | inr small ↦ elim (Option-cases (min_lcn (physical_runs info.runs))) [
        | inl n ↦ rw (z, small, n) tt
        | inr (least, n) ↦ elim (Bool-cases (ltb least (gap_start + gap_length))) [
          | inl low ↦ rw (z, small, n, low) tt
          | inr high ↦ elim (Bool-cases (info.mapping_capacity == 0)) [
            | inl full ↦ rw (z, small, n, high, full) tt
            | inr space ↦
                rw (z, small, n, high, space)
                  (Planned-encoded (encoded_length (one_run gap_start (stream_clusters info.runs)))
                    _
                    (record {
                      source = refl;
                      destination = refl;
                      replaced = refl;
                      whole = clusters_of-physical_runs info.runs;
                      nonempty = ground (arith, z);
                      room = ground (arith, small);
                      above =
                          AllAbove-weaken least (gap_start + gap_length) (physical_runs info.runs)
                            (ground (arith, high))
                            (min_lcn-AllAbove (physical_runs info.runs) least
                              (physical_runs-AllAbove info.runs) n);
                    }))
          ]
        ]
      ]
    ]
  ]

  -- A move that _plan_compact_extent_info plans for a gap takes all non-empty physical runs of the
  -- stream, in stream order, to one run at the start of the gap; that run has as many clusters as
  -- the stream, one at least, and no more than the gap, and every source run starts at the end of
  -- the gap or above.
  pub plan_compact_extent_info-Fitting :
      (move : ExtentMove)
      → plan_compact_extent_info info (record { lcn = some gap_start; length = gap_length })
        ≡ ok (fits move)
      → Fitting info gap_start gap_length move
  unfolding plan_compact_extent_info
  plan_compact_extent_info-Fitting move h = elim (Bool-cases (gap_length == 0)) [
    | inl z ↦ absurd (ground (arith, h, z))
    | inr z ↦
        let planned : plan_in_gap info gap_start gap_length ≡ ok (fits move) = rw z at h in
        rw planned at plan_in_gap-Planned
  ]
