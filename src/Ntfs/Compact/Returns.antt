-- ===== src/Ntfs/Compact/Returns.antt =====
-- The loop of `compact` as a whole.
use linux_defragger.Prelude.{
  ℕ, zero, suc, ◌*◌, ◌<◌, ◌≡◌, refl, Bool, true, false, some, length, arith, Bool-cases, inl, inr,
  Result, ok, err,
}
use linux_defragger.Ntfs.Compact.{StreamInfo, CompactError, Candidate}
use linux_defragger.Ntfs.Compact.Loop.{CompactState, compact_round, compact_loop}
use linux_defragger.Ntfs.Compact.Measure.{measure}
use linux_defragger.Ntfs.Compact.Rounds.{Sound}
use linux_defragger.Ntfs.Compact.Kept.{Rounds, compact_round-Rounds}

-- The loop may raise; where it returns, the plan agrees with the bitmap.
abbrev pub Ended : (ℕ → Bool) → Result CompactError CompactState → Type 0
Ended fixed (err e) = Unit
Ended fixed (ok s) = Sound fixed s

-- The fuel that is enough.
abbrev pub height : CompactState → ℕ
height s = measure (8 * length s.bitmap) s.streams s.packed_cursor

module _ (reload : CompactState → StreamInfo → Result CompactError Candidate) (stop : ℕ → Bool)
    (fixed : ℕ → Bool) where
  -- The rest of the loop, for what a round came to.
  by_round :
      (s : CompactState) (fuel : ℕ)
      → ((s' : CompactState)
          → Sound fixed s'
          → height s' < fuel
          → (r : Result CompactError CompactState) × (compact_loop reload stop fuel s' ≡ some r)
            × Ended fixed r)
      → (round : Result CompactError (Bool × CompactState)) → Rounds fixed s round
      → height s < suc fuel
      → (r : Result CompactError CompactState) × (elim round [
        | err e ↦ some (err e)
        | ok (false, s') ↦ some (ok s')
        | ok (true, s') ↦ compact_loop reload stop fuel s'
      ]
          ≡ some r)
        × Ended fixed r
  by_round s fuel rest (err e) h p = (err e, refl, tt)
  by_round s fuel rest (ok (false, s')) h p = (ok s', refl, h)
  by_round s fuel rest (ok (true, s')) (sound, size, less) p =
      rest s' sound (rw size (omega (arith, less, p)))

  -- For a plan that agrees with the bitmap (Sound: a cluster is in use exactly if one stream owns
  -- it, once, or it is one of the fixed clusters, which no stream owns), whatever is read again of
  -- the streams and whenever a stop is requested: the loop of compact returns or raises, given as
  -- many rounds as the ends of all streams, added up, times one more than the bits of the bitmap,
  -- plus the bits above the cursor, and one more; where it returns, the plan agrees with the bitmap,
  -- with the same fixed clusters.
  pub compact_loop-Sound :
      (fuel : ℕ) (s : CompactState)
      → Sound fixed s
      → height s < fuel
      → (r : Result CompactError CompactState) × (compact_loop reload stop fuel s ≡ some r)
        × Ended fixed r
  unfolding compact_loop
  compact_loop-Sound zero s h p = absurd (omega (arith, p))
  compact_loop-Sound (suc fuel) s h p = elim (Bool-cases (stop fuel)) [
    | inl stopped ↦ (ok s, rw stopped refl, h)
    | inr goes_on ↦ rw goes_on (
        by_round s fuel (λ s' h' p'. compact_loop-Sound fuel s' h' p') (compact_round reload s)
          (compact_round-Rounds reload fixed s h) p)
  ]
