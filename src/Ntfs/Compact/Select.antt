-- ===== src/Ntfs/Compact/Select.antt =====
-- The stream that `_select_compact_source` chooses.
use linux_defragger.Prelude.{
  ◌<◌, ◌≤◌, ◌≡◌, refl, sym, ltb, Bool, true, false, Option, some, none, List, [], ◌∷◌,
  if◌then◌else◌, arith, Bool-cases, inl, inr, ◌⊎◌, Result, ok, err,
}
use linux_defragger.Ntfs.Runlist.{Run}
use linux_defragger.Ntfs.Move.{ExtentMove}
use linux_defragger.Ntfs.Compact.{
  StreamInfo, stream_clusters, highest_lcn, Verdict, Reason, fits, blocked, CompactError,
  plan_compact_extent_info, larger, best_stream,
}

abbrev pub Has : StreamInfo → List StreamInfo → Type 0
Has info [] = ⊥
Has info (other ∷ others) = (info ≡ other) ⊎ Has info others

-- The stream may move, and the move is the one planned for the gap.
abbrev pub Picks : Run → StreamInfo → ExtentMove → Type 0
Picks gap info move = (info.movable ≡ true) × (plan_compact_extent_info info gap ≡ ok (fits move))

-- The stream has fewer clusters than `best`, or as many and no higher end.
abbrev pub AtMost : StreamInfo → StreamInfo → Type 0
AtMost info best =
    (stream_clusters info.runs < stream_clusters best.runs)
    ⊎ ((stream_clusters info.runs ≡ stream_clusters best.runs)
        × (highest_lcn info.runs ≤ highest_lcn best.runs))

-- All streams that fit are at most as large as `best`.
abbrev pub NoneLarger : Run → StreamInfo → List StreamInfo → Type 0
NoneLarger gap best [] = Unit
NoneLarger gap best (info ∷ infos) =
    ((move : ExtentMove) → Picks gap info move → AtMost info best) × NoneLarger gap best infos

-- None of the streams fits.
abbrev pub NoneFits : Run → List StreamInfo → Type 0
NoneFits gap [] = Unit
NoneFits gap (info ∷ infos) = ((move : ExtentMove) → Picks gap info move → ⊥) × NoneFits gap infos

-- What a choice among the streams comes to: the largest that fits, or none if none fits.
abbrev pub Chooses :
    Run → List StreamInfo → Result CompactError (Option (StreamInfo × ExtentMove)) → Type 0
Chooses gap infos (err e) = Unit
Chooses gap infos (ok none) = NoneFits gap infos
Chooses gap infos (ok (some (info, move))) =
    Has info infos × Picks gap info move × NoneLarger gap info infos

abbrev Held : StreamInfo → Option (StreamInfo × ExtentMove) → Type 0
Held info none = Unit
Held info (some (best, move)) = AtMost best info

-- The same with a stream held from before.
abbrev ChoosesOver :
    Run
    → Option (StreamInfo × ExtentMove)
    → List StreamInfo
    → Result CompactError (Option (StreamInfo × ExtentMove))
    → Type 0
ChoosesOver gap held infos (err e) = Unit
ChoosesOver gap held infos (ok none) = (held ≡ none) × NoneFits gap infos
ChoosesOver gap held infos (ok (some (info, move))) =
    ((held ≡ some (info, move)) ⊎ (Has info infos × Picks gap info move))
    × Held info held
    × NoneLarger gap info infos

AtMost-refl : (info : StreamInfo) → AtMost info info
AtMost-refl info = inr (refl, omega arith)

-- What beats the one held is at most what is left above it.
AtMost-beaten : (a b c : StreamInfo) → larger a b ≡ true → AtMost a c → AtMost b c
unfolding larger
AtMost-beaten a b c h (inl fewer) = inl (ground (arith, h, fewer))
AtMost-beaten a b c h (inr (same, low)) =
    elim (Bool-cases (ltb (stream_clusters b.runs) (stream_clusters a.runs))) [
      | inl less ↦ inl (ground (arith, less, same))
      | inr equal ↦ inr (ground (arith, h, equal, same), ground (arith, h, equal, low))
    ]

-- What does not beat the one held is at most what is left above it.
AtMost-kept : (a b c : StreamInfo) → larger a b ≡ false → AtMost b c → AtMost a c
unfolding larger
AtMost-kept a b c h k = elim (Bool-cases (ltb (stream_clusters a.runs) (stream_clusters b.runs))) [
  | inl less ↦ elim k [
    | inl fewer ↦ inl (ground (arith, less, fewer))
    | inr (same, low) ↦ inl (ground (arith, less, same))
  ]
  | inr equal ↦ elim k [
    | inl fewer ↦ inl (ground (arith, h, equal, fewer))
    | inr (same, low) ↦ inr (ground (arith, h, equal, same), ground (arith, h, equal, low))
  ]
]

module _ (gap : Run) (info : StreamInfo) (infos : List StreamInfo) where
  -- A stream that does not fit.
  ChoosesOver-blocked :
      (held : Option (StreamInfo × ExtentMove))
      (r : Result CompactError (Option (StreamInfo × ExtentMove)))
      → ((move : ExtentMove) → Picks gap info move → ⊥)
      → ChoosesOver gap held infos r
      → ChoosesOver gap held (info ∷ infos) r
  ChoosesOver-blocked held (err e) p h = tt
  ChoosesOver-blocked held (ok none) p (e, h) = (e, (p, h))
  ChoosesOver-blocked held (ok (some (best, move))) p (inl e, k, h) =
      (inl e, k, ((λ m q. absurd (p m q)), h))
  ChoosesOver-blocked held (ok (some (best, move))) p (inr q, k, h) =
      (inr (inr q.0, q.1), k, ((λ m q. absurd (p m q)), h))

  -- A stream that is not larger than the one held.
  ChoosesOver-kept :
      (held : StreamInfo) (by : ExtentMove)
      (r : Result CompactError (Option (StreamInfo × ExtentMove)))
      → larger info held ≡ false
      → ChoosesOver gap (some (held, by)) infos r
      → ChoosesOver gap (some (held, by)) (info ∷ infos) r
  ChoosesOver-kept held by (err e) p h = tt
  ChoosesOver-kept held by (ok none) p (e, h) = absurd (ground (arith, e))
  ChoosesOver-kept held by (ok (some (best, move))) p (inl e, k, h) =
      (inl e, k, ((λ m q. AtMost-kept info held best p k), h))
  ChoosesOver-kept held by (ok (some (best, move))) p (inr q, k, h) =
      (inr (inr q.0, q.1), k, ((λ m q. AtMost-kept info held best p k), h))

  -- A stream that is taken over.
  ChoosesOver-taken :
      (held : Option (StreamInfo × ExtentMove)) (by : ExtentMove)
      (r : Result CompactError (Option (StreamInfo × ExtentMove)))
      → ((best : StreamInfo) → AtMost info best → Held best held)
      → Picks gap info by
      → ChoosesOver gap (some (info, by)) infos r
      → ChoosesOver gap held (info ∷ infos) r
  ChoosesOver-taken held by (err e) p q h = tt
  ChoosesOver-taken held by (ok none) p q (e, h) = absurd (ground (arith, e))
  ChoosesOver-taken held by (ok (some (best, move))) p q (inl e, k, h) =
      let same : info ≡ best = ground (arith, e) in
      let moves : by ≡ move = ground (arith, e) in
      (inr (inl (sym same), rw (same, moves) at q), p best k, ((λ m q. k), h))
  ChoosesOver-taken held by (ok (some (best, move))) p q (inr x, k, h) =
      (inr (inr x.0, x.1), p best k, ((λ m q. k), h))

not_both :
    (reason : Reason) (move : ExtentMove) (r : Result CompactError Verdict)
    → r ≡ ok (blocked reason)
    → r ≡ ok (fits move)
    → ⊥
not_both reason move r k h = ground (arith, k, h)

module _ (gap : Run) where
  against :
      (info : StreamInfo) (infos : List StreamInfo) (held : Option (StreamInfo × ExtentMove))
      (by : ExtentMove)
      → Picks gap info by
      → ((h : Option (StreamInfo × ExtentMove)) → ChoosesOver gap h infos (best_stream gap h infos))
      → ChoosesOver gap held (info ∷ infos) (
          let kept = best_stream gap held infos in
          elim held [
            | none ↦ best_stream gap (some (info, by)) infos
            | some best ↦
                if larger info best.0 then best_stream gap (some (info, by)) infos else kept
          ])
  against info infos none by q rest =
      ChoosesOver-taken gap info infos none by _ (λ best k. tt) q (rest (some (info, by)))
  against info infos (some (best, move)) by q rest = elim (Bool-cases (larger info best)) [
    | inl more ↦ rw more (
        ChoosesOver-taken gap info infos (some (best, move)) by _
          (λ other k. AtMost-beaten info best other more k) q (rest (some (info, by))))
    | inr less ↦
        rw less (ChoosesOver-kept gap info infos best move _ less (rest (some (best, move))))
  ]

  by_verdict :
      (info : StreamInfo) (infos : List StreamInfo) (held : Option (StreamInfo × ExtentMove))
      (may : Bool) (verdict : Result CompactError Verdict)
      → info.movable ≡ may
      → plan_compact_extent_info info gap ≡ verdict
      → ((h : Option (StreamInfo × ExtentMove)) → ChoosesOver gap h infos (best_stream gap h infos))
      → ChoosesOver gap held (info ∷ infos) (
          let kept = best_stream gap held infos in
          if may
          then elim verdict [
            | err e ↦ err e
            | ok (blocked reason) ↦ kept
            | ok (fits move) ↦ elim held [
              | none ↦ best_stream gap (some (info, move)) infos
              | some best ↦
                  if larger info best.0 then best_stream gap (some (info, move)) infos else kept
            ]
          ]
          else kept)
  by_verdict info infos held false verdict fixed k rest =
      ChoosesOver-blocked gap info infos held _ (λ m q. ground (arith, fixed, q.0)) (rest held)
  by_verdict info infos held true (err e) movable k rest = tt
  by_verdict info infos held true (ok (blocked reason)) movable k rest =
      ChoosesOver-blocked gap info infos held _ (λ m q. not_both reason m _ k q.1) (rest held)
  by_verdict info infos held true (ok (fits move)) movable k rest =
      against info infos held move (movable, k) rest

  best_stream-ChoosesOver :
      (held : Option (StreamInfo × ExtentMove)) (infos : List StreamInfo)
      → ChoosesOver gap held infos (best_stream gap held infos)
  unfolding best_stream
  best_stream-ChoosesOver none [] = (refl, tt)
  best_stream-ChoosesOver (some (best, move)) [] = (inl refl, AtMost-refl best, tt)
  best_stream-ChoosesOver held (info ∷ infos) =
      by_verdict info infos held info.movable (plan_compact_extent_info info gap) refl refl
        (λ h. best_stream-ChoosesOver h infos)

  -- Where the loop of _select_compact_source does not raise, it chooses a movable stream of the plan
  -- with the move planned for the gap, such that every movable stream with a planned move has fewer
  -- clusters, or as many and no higher end; or it chooses none, and no movable stream has a planned
  -- move.
  pub best_stream-Chooses :
      (infos : List StreamInfo) → Chooses gap infos (best_stream gap none infos)
  best_stream-Chooses infos =
      from_none (best_stream gap none infos) (best_stream-ChoosesOver none infos)
    where
      from_none :
          (r : Result CompactError (Option (StreamInfo × ExtentMove)))
          → ChoosesOver gap none infos r
          → Chooses gap infos r
      from_none (err e) h = tt
      from_none (ok none) (e, h) = h
      from_none (ok (some (info, move))) (inl e, k, h) = absurd (ground (arith, e))
      from_none (ok (some (info, move))) (inr (x, y), k, h) = (x, y, h)
