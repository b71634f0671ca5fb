-- ===== src/Ntfs/Defrag/Passes.antt =====
-- What `defragment` comes to: its two loops, and the whole.
use linux_defragger.Prelude.{
  ℕ, zero, suc, ◌≡◌, refl, inl, inr, Bool, true, false, ◌&&◌, ◌||◌, List, [], ◌∷◌, ltb, ◌==◌,
  length, arith, Bool-cases, Result, ok, raise_as,
}
use linux_defragger.Ntfs.Runs.{physical_fragment_count}
use linux_defragger.Ntfs.Compact.{StreamInfo, Candidate, CompactError}
use linux_defragger.Ntfs.Compact.Loop.{same_key}
use linux_defragger.Ntfs.Compact.Fits.{AllAbove}
use linux_defragger.Ntfs.Compact.Select.{Has}
use linux_defragger.Ntfs.Compact.Owned.{NoKey, UniqueKeys, NoKey-Has}
use linux_defragger.Ntfs.Compact.Rounds.{Agrees}
use linux_defragger.Ntfs.Defrag.{
  DefragError, in_move, Key, key_of, sort_streams, any_key, streams_at, DefragState, supported,
  place_stream, settle_stream, polled, for_streams, passes, before_passes, defragment,
}
use linux_defragger.Ntfs.Defrag.Keys.{
  Each, Each-map, sort_streams-Each, sort_streams-UniqueKeys, streams_at-Each,
  streams_at-UniqueKeys,
}
use linux_defragger.Ntfs.Defrag.Outcome.{Fine, Fine-ok, Fine-in_move, Fine-bind, Fine-if}
use linux_defragger.Ntfs.Defrag.Steps.{IsOne, Sound}
use linux_defragger.Ntfs.Defrag.Kept.{Stepped, place_stream-Stepped, settle_stream-Fine}

module _ (fixed : ℕ → Bool) (P : StreamInfo → Type 0)
    (step : DefragState → StreamInfo → Result DefragError DefragState)
    (step-Fine : (s : DefragState) (info : StreamInfo)
      → Sound fixed s
      → Has info s.streams
      → P info
      → Fine (Stepped fixed s info) (step s info))
    (stop : ℕ → Bool) where
  -- A stream that was in the plan at the start of a pass is still there when its turn comes, since the
  -- streams before it have other keys.
  for_streams-Fine :
      (infos : List StreamInfo) (s : DefragState)
      → Sound fixed s
      → UniqueKeys infos
      → Each (λ info. Has info s.streams × P info) infos
      → Fine (Sound fixed) (for_streams stop step s infos)
  unfolding for_streams
  for_streams-Fine [] s h u e = Fine-ok h
  for_streams-Fine (info ∷ infos) s h (n, u) ((has, p), e) =
      Fine-if (stop s.polls) _ _ (Fine-ok h) λ goes_on.
        Fine-bind {Q = Stepped fixed (polled s) info} (step (polled s) info) _
          (step-Fine (polled s) info h has p)
          λ s' (h', stays). for_streams-Fine infos s' h' u (
            Each-map _ _ infos
              (λ other m (has', q). (stays other (NoKey-Has info other infos n m) has', q)) e)

  module _ (keys : DefragState → List Key)
      (chosen : (s : DefragState)
        → Sound fixed s
        → (info : StreamInfo) → Has info s.streams
        → any_key (key_of info) (keys s) ≡ true
        → P info) where
    pub passes-Fine :
        (left : ℕ) (s : DefragState)
        → Sound fixed s
        → Fine (Sound fixed) (passes stop step keys left s)
    unfolding passes
    passes-Fine zero s h = Fine-ok h
    passes-Fine (suc left) s h =
        let found = streams_at (keys s) s.streams in
        Fine-if (stop s.polls || length (keys s) == 0) _ _ (Fine-ok h) λ goes_on.
          Fine-bind {Q = Sound fixed}
            (for_streams stop step (record (polled s) { pass_moved = 0 }) (sort_streams found)) _
            (for_streams-Fine (sort_streams found) (record (polled s) { pass_moved = 0 }) h
              (sort_streams-UniqueKeys found
                (streams_at-UniqueKeys (keys s) s.streams h.agrees.keys))
              (sort_streams-Each (λ info. Has info s.streams × P info) found
                (streams_at-Each (λ info. Has info s.streams × P info) (keys s) s.streams
                  (λ info m k. (m, chosen s h info m k)))))
            λ s' h'. Fine-if (s'.pass_moved == 0) _ _ (Fine-ok h') λ moved. passes-Fine left s' h'

-- A stream of another key.
absent :
    (key : StreamInfo) (infos : List StreamInfo)
    → NoKey key infos
    → any_key (key_of key) (supported infos) ≡ false
absent key [] n = refl
absent key (other ∷ others) (k, n) =
    elim (Bool-cases (other.movable && ltb 1 (physical_fragment_count other.runs))) [
      | inl e ↦ rw e (ground (arith, k, absent key others n))
      | inr e ↦ rw e (absent key others n)
    ]

-- A stream with a key of `supported` may be moved.
supported-movable :
    (info : StreamInfo) (infos : List StreamInfo)
    → UniqueKeys infos
    → Has info infos
    → any_key (key_of info) (supported infos) ≡ true
    → info.movable ≡ true
supported-movable info [] u h k = elim h [ ]
supported-movable info (first ∷ rest) (n, u) (inl e) k =
    elim (Bool-cases (first.movable && ltb 1 (physical_fragment_count first.runs))) [
      | inl listed ↦ rw e (ground (arith, listed))
      | inr skipped ↦ absurd (ground (arith, absent first rest n, rw (skipped, e) at k))
    ]
supported-movable info (first ∷ rest) (n, u) (inr m) k =
    let other : same_key first info ≡ false = NoKey-Has first info rest n m in
    elim (Bool-cases (first.movable && ltb 1 (physical_fragment_count first.runs))) [
      | inl listed ↦ supported-movable info rest u m (ground (arith, other, rw listed at k))
      | inr skipped ↦ supported-movable info rest u m (rw skipped at k)
    ]

module _ (reload : DefragState → StreamInfo → Result CompactError Candidate) (sector_size : ℕ)
    (fixed : ℕ → Bool)
    (faithful : (s : DefragState) (info : StreamInfo) (c : Candidate)
      → reload s info ≡ ok c
      → c.attribute.runs ≡ info.runs)
    (stop : ℕ → Bool) where
  -- If the plan agrees with the bitmap (Agrees: a cluster is in use exactly if one stream owns it,
  -- once, or it is one of the fixed clusters, which no stream owns), the streams that may be moved
  -- have only physical runs, not empty, and records are read again with the runs of the plan: the
  -- passes of defragment never raise that a stream they have moved is in pieces, and where they
  -- return (Sound), the plan agrees with the bitmap, with the same fixed clusters, the streams still
  -- pending have physical runs, and every stream that has been moved is one run.
  pub defragment-Fine :
      (bitmap : List ℕ) (streams : List StreamInfo) (total : ℕ)
      → Agrees fixed bitmap streams
      → ((info : StreamInfo) → Has info streams → info.movable ≡ true → AllAbove 0 info.runs)
      → Fine (Sound fixed) (defragment reload sector_size stop bitmap streams total)
  unfolding defragment
  defragment-Fine bitmap streams total agrees physical =
      let place : DefragState → StreamInfo → Result DefragError DefragState =
        λ s info. raise_as in_move (place_stream reload sector_size total s info) in
      Fine-bind {Q = Sound fixed}
        (passes stop place (λ s. s.pending) 8 (before_passes bitmap streams)) _
        (passes-Fine fixed (λ info. AllAbove 0 info.runs) place
          (λ s info h has above.
            Fine-in_move
              (place_stream-Stepped reload sector_size fixed faithful s h info has total above))
          stop (λ s. s.pending) (λ s h. h.waiting) 8 (before_passes bitmap streams)
          (record {
            agrees = agrees;
            waiting = λ info m k. physical info m (supported-movable info streams agrees.keys m k);
            done = λ info m k. absurd (ground (arith, k));
          }))
        λ s h.
          passes-Fine fixed IsOne (settle_stream reload sector_size)
            (λ s' info h' has one.
              settle_stream-Fine reload sector_size fixed faithful s' h' info has one)
            stop (λ s'. s'.moved_keys) (λ s' h'. h'.done) 8 s h
