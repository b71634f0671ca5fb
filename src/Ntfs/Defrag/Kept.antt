-- ===== src/Ntfs/Defrag/Kept.antt =====
-- What the passes of `defragment` keep.
use mathlib.Core.Path.{subst}
use linux_defragger.Prelude.{
  ℕ, ◌+◌, ◌-◌, ◌<◌, ◌≡◌, refl, ap, sym, ◌∙◌, ◌⊎◌, inl, inr, max, Bool, true, false, Option, some,
  none, List, leb, ◌==◌, arith, Result, ok, ◌>>=◌, raise_as, OnOk, OnOk-ok, OnOk-bind, OnOk-if,
}
use linux_defragger.Prelude.Int.{pos}
use linux_defragger.Ntfs.Runs.{physical_fragment_count}
use linux_defragger.Ntfs.Gaps.{find_free_run}
use linux_defragger.Ntfs.Compact.{StreamInfo, Candidate, CompactError, stream_clusters}
use linux_defragger.Ntfs.Compact.Loop.{same_key}
use linux_defragger.Ntfs.Compact.Fits.{AllAbove, one_run}
use linux_defragger.Ntfs.Compact.Select.{Has}
use linux_defragger.Ntfs.Defrag.{
  in_move, Key, key_of, same_keys, lowest_lcn, discard, any_key, add_key, DefragState, moved_to,
  place_stream, settle_stream,
}
use linux_defragger.Ntfs.Defrag.Keys.{put_stream-Has, any_key-discard, any_key-add_key}
use linux_defragger.Ntfs.Defrag.Outcome.{Fine, Fine-ok, Fine-in_move, Fine-bind}
use linux_defragger.Ntfs.Defrag.Steps.{
  IsOne, IsOne-AllAbove, Inv, Sound, Stays, moved-Inv, After, moved_to-After,
}

same_keys-key :
    (key : Key) (info updated : StreamInfo)
    → same_key updated info ≡ true
    → same_keys key (key_of info) ≡ true
    → same_keys key (key_of updated) ≡ true
same_keys-key key info updated same h = ground (arith, same, h)

one_fragment : (lcn n : ℕ) → 0 < n → physical_fragment_count (one_run lcn n) ≡ 1
unfolding physical_fragment_count
one_fragment lcn n p = let some_units : (n == 0) ≡ false = ground (arith, p) in rw some_units refl

-- The plan is sound after a step, and the other streams are still in it.
abbrev pub Stepped : (ℕ → Bool) → DefragState → StreamInfo → DefragState → Type 0
Stepped fixed s info s' = Sound fixed s' × Stays info s s'

module _ (reload : DefragState → StreamInfo → Result CompactError Candidate) (sector_size : ℕ)
    (fixed : ℕ → Bool)
    (faithful : (s : DefragState) (info : StreamInfo) (c : Candidate)
      → reload s info ≡ ok c
      → c.attribute.runs ≡ info.runs) where
  After-Stepped :
      (s : DefragState) (info : StreamInfo) (s' : DefragState) (pending' moved' : List Key)
      → Sound fixed s
      → After fixed sector_size s info s'
      → ((key : Key) → any_key key pending' ≡ true → any_key key s.pending ≡ true)
      → ((updated : StreamInfo)
          → same_key updated info ≡ true
          → (key : Key) → any_key key moved' ≡ true
          → (any_key key s.moved_keys ≡ true) ⊎ (same_keys key (key_of updated) ≡ true))
      → Inv fixed s'.bitmap s'.streams pending' moved' × Stays info s s'
  After-Stepped s info s' pending' moved' h after fewer more = (
    subst (λ streams. Inv fixed s'.bitmap streams pending' moved') (sym after.streams)
        (moved-Inv after.updated h after.agrees after.one fewer (more after.updated after.key)),
    λ other k m.
        subst (Has other) (sym after.streams)
          (put_stream-Has other after.updated s.streams (ground (arith, k, after.key)) m),
  )

  added :
      (s : DefragState) (info : StreamInfo) (s' : DefragState)
      → After fixed sector_size s info s'
      → (updated : StreamInfo) → same_key updated info ≡ true
      → (key : Key) → any_key key (add_key (key_of info) s'.moved_keys) ≡ true
      → (any_key key s.moved_keys ≡ true) ⊎ (same_keys key (key_of updated) ≡ true)
  added s info s' after updated same key k =
      elim (any_key-add_key key (key_of info) s'.moved_keys k) [
        | inl old ↦ inl (subst (λ keys. any_key key keys ≡ true) after.moved old)
        | inr new ↦ inr (same_keys-key key info updated same new)
      ]

  module _ (s : DefragState) (h : Sound fixed s) (info : StreamInfo)
      (has : Has info s.streams) where
    pub place_stream-Stepped :
        (total : ℕ)
        → AllAbove 0 info.runs
        → OnOk (Stepped fixed s info) (place_stream reload sector_size total s info)
    unfolding place_stream
    place_stream-Stepped total above = OnOk-bind (reload s info) _ λ c e1.
        OnOk-if (leb (physical_fragment_count c.attribute.runs) 1) _ _
          (λ skipped. OnOk-ok (
            record {
              agrees = h.agrees;
              waiting = λ other m k.
                  h.waiting other m (any_key-discard (key_of other) (key_of info) s.pending k);
              done = h.done;
            },
            λ other k m. m,
          ))
          (λ fragmented.
            found c e1
              (find_free_run s.bitmap (pos (stream_clusters c.attribute.runs))
                (pos (max 1 (total - 1))))
              refl)
      where
        found :
            (c : Candidate)
            → reload s info ≡ ok c
            → (r : Option ℕ)
            → find_free_run s.bitmap
                (pos (stream_clusters c.attribute.runs))
                (pos (max 1 (total - 1)))
              ≡ r
            → OnOk (Stepped fixed s info) (elim r [
              | none ↦ ok s
              | some destination ↦ (do
                s' ← moved_to sector_size s info c destination
                ok (record s' {
                  moved_keys = add_key (key_of info) s'.moved_keys;
                  pending = discard (key_of info) s'.pending;
                }))
            ])
        found c e1 none e2 = OnOk-ok (h, λ other k m. m)
        found c e1 (some destination) e2 =
            OnOk-bind (moved_to sector_size s info c destination) _ λ s' e3.
              let after =
                (moved_to-After fixed sector_size s info c destination (max 1 (total - 1)) h.agrees
                    has above (faithful s info c e1) e2).get
                  s' e3 in
              OnOk-ok (
                After-Stepped s info s' (discard (key_of info) s'.pending)
                  (add_key (key_of info) s'.moved_keys) h after
                  (λ key k.
                    subst (λ keys. any_key key keys ≡ true) after.pending
                      (any_key-discard key (key_of info) s'.pending k))
                  (added s info s' after))

    fragments-one :
        (c : Candidate)
        → c.attribute.runs ≡ info.runs
        → IsOne info
        → physical_fragment_count c.attribute.runs ≡ 1
    fragments-one c read (lcn, n, p, e) =
        ap physical_fragment_count (read ∙ e) ∙ one_fragment lcn n p

    pub settle_stream-Fine :
        IsOne info → Fine (Stepped fixed s info) (settle_stream reload sector_size s info)
    unfolding settle_stream
    settle_stream-Fine one =
        Fine-bind {Q = λ c. reload s info ≡ ok c} (raise_as in_move (reload s info)) _
          (Fine-in_move (record { get = λ c e. e }))
          λ c e1. rw (fragments-one c (faithful s info c e1) one) (
            found c e1
              (find_free_run s.bitmap (pos (stream_clusters c.attribute.runs))
                (pos (lowest_lcn c.attribute.runs)))
              refl)
      where
        found :
            (c : Candidate)
            → reload s info ≡ ok c
            → (r : Option ℕ)
            → find_free_run s.bitmap
                (pos (stream_clusters c.attribute.runs))
                (pos (lowest_lcn c.attribute.runs))
              ≡ r
            → Fine (Stepped fixed s info) (elim r [
              | none ↦ ok s
              | some destination ↦ (do
                s' ← raise_as in_move (moved_to sector_size s info c destination)
                ok (record s' { settling_transactions = s'.settling_transactions + 1 }))
            ])
        found c e1 none e2 = Fine-ok (h, λ other k m. m)
        found c e1 (some destination) e2 =
            Fine-bind {Q = After fixed sector_size s info}
              (raise_as in_move (moved_to sector_size s info c destination)) _
              (Fine-in_move (
                moved_to-After fixed sector_size s info c destination (lowest_lcn c.attribute.runs)
                  h.agrees has (IsOne-AllAbove info one) (faithful s info c e1) e2))
              λ s' after. Fine-ok (
                After-Stepped s info s' s'.pending s'.moved_keys h after
                  (λ key k. subst (λ keys. any_key key keys ≡ true) after.pending k)
                  (λ updated same key k.
                    inl (subst (λ keys. any_key key keys ≡ true) after.moved k)))
