-- ===== src/Ntfs/Compact/Kept.antt =====
-- The plan and the bitmap after rounds of `compact`.
use linux_defragger.Prelude.{
  ℕ, ◌+◌, ◌*◌, ◌<◌, ◌≤◌, ◌≡◌, refl, ap, ◌∙◌, max, Bool, true, false, Option, some, none, List,
  length, arith, Result, ok, err, ◌>>=◌,
}
use linux_defragger.Prelude.Int.{pos}
use linux_defragger.Ntfs.Gaps.{limit_of}
use linux_defragger.Ntfs.Gaps.FirstFit.{limit_of-le}
use linux_defragger.Ntfs.Move.{ExtentMove}
use linux_defragger.Ntfs.Patches.Touched.{in_runs}
use linux_defragger.Ntfs.NextGap.{next_free_run}
use linux_defragger.Ntfs.NextGap.Found.{IsNext, next_free_run-IsNext}
use linux_defragger.Ntfs.Compact.{StreamInfo, CompactError, Candidate, stream_clusters, highest_lcn}
use linux_defragger.Ntfs.Compact.Loop.{
  CompactState, put_stream, moved_stream, moved_bitmap, skip_gap, after_move, select_compact_source,
  compact_round,
}
use linux_defragger.Ntfs.Compact.Fits.{AllAbove-weaken, Fitting, plan_compact_extent_info-Fitting}
use linux_defragger.Ntfs.Compact.Select.{Has}
use linux_defragger.Ntfs.Compact.Agree.{FreeAt, Moving, moved-runs, moved-Agrees}
use linux_defragger.Ntfs.Compact.Owned.{in_runs-named, moved_stream-key}
use linux_defragger.Ntfs.Compact.Measure.{
  heights, measure, measure-moved, lt-highest_lcn, highest_lcn-one_run, put_stream-heights,
}
use linux_defragger.Ntfs.Compact.Rounds.{Sound, Picked, select_compact_source-Picked}

after_move-streams :
    (s : CompactState) (lcn : ℕ) (info : StreamInfo) (move : ExtentMove) (out : List ℕ)
    → (after_move s lcn info move out).streams
      ≡ put_stream (moved_stream info move.new_runs) s.streams
unfolding after_move
after_move-streams s lcn info move out = refl

after_move-bitmap :
    (s : CompactState) (lcn : ℕ) (info : StreamInfo) (move : ExtentMove) (out : List ℕ)
    → (after_move s lcn info move out).bitmap ≡ out
unfolding after_move
after_move-bitmap s lcn info move out = refl

-- A planned move takes the whole stream.
Fitting-Moving :
    (info : StreamInfo) (lcn n : ℕ) (move : ExtentMove)
    → Fitting info lcn n move
    → Moving info lcn move
Fitting-Moving info lcn n move fit = record {
  source = λ u. ap (λ runs. in_runs runs u) fit.source ∙ in_runs-named u info.runs;
  placed = AllAbove-weaken (lcn + n) 0 move.source_runs (omega arith) fit.above;
  destination = fit.destination;
  replaced = fit.replaced;
  nonempty = fit.nonempty;
}

-- What a round comes to: the plan still agrees with the bitmap, and if the loop goes on, something
-- has gone down.
abbrev pub Rounds : (ℕ → Bool) → CompactState → Result CompactError (Bool × CompactState) → Type 0
Rounds fixed s (err e) = Unit
Rounds fixed s (ok (false, s')) = Sound fixed s'
Rounds fixed s (ok (true, s')) =
    Sound fixed s'
    × (length s'.bitmap ≡ length s.bitmap)
    × (measure (8 * length s.bitmap) s'.streams s'.packed_cursor
        < measure (8 * length s.bitmap) s.streams s.packed_cursor)

module _ (reload : CompactState → StreamInfo → Result CompactError Candidate)
    (fixed : ℕ → Bool) where
  skip_gap-Rounds :
      (s : CompactState) (lcn n : ℕ)
      → Sound fixed s
      → s.packed_cursor ≤ lcn
      → 0 < n
      → lcn + n ≤ 8 * length s.bitmap
      → Rounds fixed s (ok (true, skip_gap s lcn n))
  unfolding skip_gap
  skip_gap-Rounds s lcn n h p q r =
      (record { bytes = h.bytes; keys = h.keys; bits = h.bits }, refl, omega (arith, p, q, r))

  after_move-Rounds :
      (s : CompactState) (lcn n : ℕ) (info : StreamInfo) (move : ExtentMove)
      → Sound fixed s
      → FreeAt s.bitmap lcn n
      → Has info s.streams
      → Fitting info lcn n move
      → Rounds fixed s
          (do bitmap ← moved_bitmap s.bitmap move; ok (true, after_move s lcn info move bitmap))
  after_move-Rounds s lcn n info move h gap has fit =
      let moving = Fitting-Moving info lcn n move fit in
      let room : FreeAt s.bitmap lcn (stream_clusters info.runs) =
        (omega (arith, gap.0, fit.room), λ u a b. gap.1 u a (omega (arith, b, fit.room))) in
      let (out, moved, size, sound) =
        moved-Agrees fixed s.bitmap s.streams h info lcn move has room moving in
      let bitmap = after_move-bitmap s lcn info move out in
      let streams = after_move-streams s lcn info move out in
      let key = moved_stream-key info move.new_runs in
      let swap =
        put_stream-heights (moved_stream info move.new_runs) info key s.streams has h.keys in
      let down : highest_lcn (moved_stream info move.new_runs).runs
          ≡ lcn + stream_clusters info.runs =
        ap highest_lcn (moved-runs fixed s.bitmap s.streams h info lcn move has room moving)
        ∙ highest_lcn-one_run lcn (stream_clusters info.runs) in
      let up : lcn + n < highest_lcn info.runs =
        lt-highest_lcn (lcn + n) info.runs (rw fit.source at fit.above) fit.nonempty in
      let less : heights (put_stream (moved_stream info move.new_runs) s.streams)
          < heights s.streams =
        omega (arith, swap, down, up, fit.room) in
      rw moved (
        rw (bitmap, streams) sound,
        rw bitmap size,
        rw streams
            (measure-moved (8 * length s.bitmap) (heights s.streams) _ s.packed_cursor _ less),
      )

  pub compact_round-Rounds :
      (s : CompactState) → Sound fixed s → Rounds fixed s (compact_round reload s)
  unfolding compact_round
  compact_round-Rounds s h =
      at_hole (next_free_run s.bitmap (max 1 s.packed_cursor) (pos s.current_high))
        (next_free_run-IsNext s.bitmap (max 1 s.packed_cursor) (pos s.current_high))
    where
      picked :
          (lcn n : ℕ)
          → s.packed_cursor ≤ lcn
          → 0 < n
          → FreeAt s.bitmap lcn n
          → (r : Result CompactError (Option (StreamInfo × ExtentMove)))
          → Picked (record { lcn = some lcn; length = n }) s.streams r
          → Rounds fixed s (do
            chosen ← r
            elim chosen [
              | none ↦ ok (true, skip_gap s lcn n)
              | some pick ↦ do
                bitmap ← moved_bitmap s.bitmap pick.1
                ok (true, after_move s lcn pick.0 pick.1 bitmap)
            ])
      picked lcn n p q gap (err e) k = tt
      picked lcn n p q gap (ok none) k = skip_gap-Rounds s lcn n h p q gap.0
      picked lcn n p q gap (ok (some (info, move))) (has, (may, plan)) =
          after_move-Rounds s lcn n info move h gap has
            (plan_compact_extent_info-Fitting info lcn n move plan)

      at_hole :
          (hole : Option (ℕ × ℕ))
          → IsNext s.bitmap (limit_of s.bitmap (pos s.current_high)) (max 1 s.packed_cursor) hole
          → Rounds fixed s (elim hole [
            | none ↦ ok (false, record s { packed_cursor = s.current_high })
            | some hole ↦ do
              chosen ←
                  select_compact_source reload s (record { lcn = some hole.0; length = hole.1 })
              elim chosen [
                | none ↦ ok (true, skip_gap s hole.0 hole.1)
                | some pick ↦ do
                  bitmap ← moved_bitmap s.bitmap pick.1
                  ok (true, after_move s hole.0 pick.0 pick.1 bitmap)
              ]
          ])
      at_hole none k = record { bytes = h.bytes; keys = h.keys; bits = h.bits }
      at_hole (some (lcn, n)) (above, some_units, inside, used, free, stop) =
          picked lcn n (omega (arith, above)) some_units
            (omega (arith, inside, limit_of-le s.bitmap s.current_high), free)
            (select_compact_source reload s (record { lcn = some lcn; length = n }))
            (select_compact_source-Picked reload s lcn n)
