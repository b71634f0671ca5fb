-- ===== src/Ntfs/Move/Crash.antt =====
-- A move that power may cut short at any write, and the recovery from it.
use linux_defragger.Prelude.{
  ℕ, ◌*◌, ◌<◌, ◌≡◌, refl, ap, ◌∙◌, sym, ◌⊎◌, inl, inr, true, false, Option, some, none, List, [],
  ◌∷◌, ◌++◌, ◌==◌, length, arith, ok, err, Result,
}
use linux_defragger.Ntfs.Disk.{
  Disk, Journal, Stage, Failure, continue, ◌>>=◌, ◌>>◌, pure, or_raise, no_journal,
}
use linux_defragger.Ntfs.Disk.Rules.{Ends, Ends-continue, Ends-weaken}
use linux_defragger.Ntfs.Patches.{bitmap_patches_for_runs}
use linux_defragger.Ntfs.Patches.Touched.{SetsRuns}
use linux_defragger.Ntfs.Move.{
  Volume, Prepared, ExtentMove, journal_state, clusters_of, mark_dirty, reserve, switch_record,
  release, finish, move_extent, recover_loaded, recover, recover_again,
}
use linux_defragger.Ntfs.Move.Addresses.{NotIn, Apart, Distinct, CopiedTo}
use linux_defragger.Ntfs.Move.Copy.{
  run_addresses, copy_run_sequences-Ends, any_sparse-AllFit, first_lcn-AllFit,
}
use linux_defragger.Ntfs.Move.Invariant
use linux_defragger.Ntfs.Move.Steps.{
  mark_dirty-Ends, reserve-Ends, switch_record-Ends, release-Ends, finish-Ends,
}
use linux_defragger.Ntfs.Move.Recovery
use linux_defragger.Ntfs.Move.Recovery.{recover_loaded-Ends}

-- The device's data at the start is `orig`.
module _ (volume : Volume) (p : Prepared) (move : ExtentMove) (orig : ℕ → ℕ) where
  abbrev pub sources : List ℕ
  sources = run_addresses volume.cluster_size move.source_runs

  abbrev pub destinations : List ℕ
  destinations = run_addresses volume.cluster_size move.destination_runs

  -- Nothing outside the destination has changed, ...
  abbrev pub Kept : (ℕ → ℕ) → Type 0
  Kept f = (a : ℕ) → NotIn a destinations → f a ≡ orig a

  -- ... and the destination holds the source's data.
  abbrev pub Copied : (ℕ → ℕ) → Type 0
  Copied f = CopiedTo orig f sources destinations

  abbrev pub Untouched : Disk → Type 0
  Untouched = Invariant.Untouched volume p move Kept Copied

  abbrev pub Pending : Disk → Type 0
  Pending = Invariant.Pending volume p move Kept Copied

  abbrev pub Moved : Disk → Type 0
  Moved = Invariant.Moved volume p move Kept Copied

  abbrev pub RolledBack : Disk → Type 0
  RolledBack = Recovery.RolledBack volume p move Kept Copied

  abbrev pub Recoverable : Disk → Type 0
  Recoverable d = Untouched d ⊎ (Pending d ⊎ Moved d)

  -- A move that was prepared, onto clusters that the source does not use.
  pub record IsSafe : Type 0 where
    pub prepared : Recovery.IsPrepared volume p move Kept Copied
    pub cluster_positive : 0 < volume.cluster_size
    pub apart : Apart sources destinations
    pub distinct : Distinct destinations

  module _ (safe : IsSafe) where
    abbrev At : List ℕ → List ℕ → Disk → Type 0
    At = Invariant.At volume p move Kept Copied

    abbrev state : Stage → Journal
    state =
        journal_state volume p move
          (bitmap_patches_for_runs p.bitmap (move.source_runs ++ move.destination_runs))

    -- The parts behind the copy.
    commit-Ends :
        (d : Disk)
        → Untouched d
        → Copied d.bytes
        → Ends Recoverable
            (λ _. Moved)
            ((mark_dirty p state
                >> (reserve p move state >>= λ reserved.
                    (switch_record p state
                      >> (release move state reserved >>= λ released.
                          (finish p state >> pure released)))))
              d)
    commit-Ends d u c =
        let r = safe.prepared in
        Ends-continue Recoverable (λ _. Moved) (λ _. At p.record_raw p.bitmap) _ _
          (mark_dirty-Ends volume p move Kept Copied d r.bytes u c)
          (λ _ d1 a1.
            Ends-continue Recoverable (λ _. Moved)
              (λ (out : List ℕ) d'.
                SetsRuns p.bitmap move.destination_runs true out × At p.record_raw out d')
              _ _
              (reserve-Ends volume p move Kept Copied d1 r.bytes r.source_fits r.destination_fits
                a1)
              (λ reserved d2 (first, a2).
                Ends-continue Recoverable (λ _. Moved) (λ _. At p.new_record reserved) _ _
                  (switch_record-Ends volume p move Kept Copied d2 reserved a2)
                  (λ _ d3 a3.
                    Ends-continue Recoverable (λ _. Moved)
                      (λ (out : List ℕ) d'.
                        SetsRuns reserved move.source_runs false out × At p.new_record out d')
                      _ _
                      (release-Ends volume p move Kept Copied d3 reserved r.bytes r.source_fits
                        r.destination_fits first a3)
                      (λ released d4 (second, a4).
                        Ends-continue Recoverable (λ _. Moved) (λ _. Moved) _ _
                          (finish-Ends volume p move Kept Copied d4 reserved released first second
                            a4)
                          (λ _ d5 m. m)))))

    -- A move that is safe (IsSafe), started on an untouched volume whose data bytes are `orig`,
    -- either returns with the move complete (record switched, destination allocated, source free,
    -- volume records restored, no journal, data copied) or ends by a loss of power on a volume that
    -- is untouched, has a journal that recovery can settle, or is moved; it raises no exception.
    pub move_extent-Ends :
        (d : Disk)
        → d.bytes ≡ orig
        → Untouched d
        → Ends Recoverable (λ _. Moved) (move_extent volume p move d)
    unfolding move_extent
    move_extent-Ends d start u =
        let r = safe.prepared in
        let same : (clusters_of move.source_runs == clusters_of move.destination_runs) ≡ true =
          ground (arith, r.same_length) in
        let (lcn, first) =
          first_lcn-AllFit _ move.destination_runs r.destination_fits
            (rw (sym r.same_length) r.some_clusters) in
        rw
          (
            any_sparse-AllFit _ move.source_runs r.source_fits,
            any_sparse-AllFit _ move.destination_runs r.destination_fits,
          )
          (Ends-continue Recoverable (λ _. Moved)
            (λ (_ : Unit {0}) d'. Untouched d' × Copied d'.bytes) _ _
            (Ends-weaken Recoverable
              (λ (_ : Unit {0}) d'.
                (g : ℕ → ℕ) × (n : ℕ) × (d' ≡ record d { bytes = g; budget = n })
                × CopiedTo d.bytes g sources destinations)
              _ _
              (copy_run_sequences-Ends Recoverable volume.cluster_size (8 * length p.bitmap)
                move.source_runs move.destination_runs d safe.cluster_positive r.source_fits
                r.destination_fits r.same_length safe.apart safe.distinct
                (λ g n same. inl (after g n (λ a out. same a out ∙ ap (λ f. f a) start))))
              (λ _ d' (g, n, e, c).
                let c' : CopiedTo orig g sources destinations = rw (sym start) c in
                rw e (after g n c'.kept, c')))
            (λ _ d' (u', c). rw (first, same) (commit-Ends d' u' c)))
      where
        after : (g : ℕ → ℕ) (n : ℕ) → Kept g → Untouched (record d { bytes = g; budget = n })
        after g n k = record {
          no_journal = u.no_journal;
          image = u.image;
          bitmap = u.bitmap;
          volume_image = u.volume_image;
          mirror_image = u.mirror_image;
          data_kept = k;
        }

    -- What one call leaves, whatever it returned.
    Ends-last :
        {A : Type 0} (Mid : Disk → Type 0) (Post : A → Disk → Type 0) (r : Result Failure A × Disk)
        → Ends Mid Post r
        → Mid r.1 ⊎ (a : A) × Post a r.1
    Ends-last Mid Post (ok a, d) h = inr (a, h)
    Ends-last Mid Post (err e, d) h = inl h.1

    abbrev pub Consistent : Disk → Type 0
    Consistent d = Recoverable d ⊎ RolledBack d

    recover-loads :
        (d : Disk) (s : Journal) → d.journal ≡ some s → recover volume d ≡ recover_loaded volume s d
    unfolding recover
    recover-loads d s h =
        ap (λ found. continue (or_raise found no_journal d) (λ state. recover_loaded volume state))
          h

    recover-Consistent : (d : Disk) → Pending d → Consistent (recover volume d).1
    recover-Consistent d a =
        rw (recover-loads d _ a.journalled)
          (elim (Ends-last Pending (λ _. Recovery.Settled volume p move Kept Copied) _
            (recover_loaded-Ends volume p move Kept Copied safe.prepared a.stage d a)) [
              | inl pending ↦ inl (inr (inl pending))
              | inr (_, inl back) ↦ inr back
              | inr (_, inr moved) ↦ inl (inr (inr moved))
            ])

    recover_again-closed :
        (attempts : List (ℕ × List ℕ)) (d : Disk)
        → d.journal ≡ none
        → recover_again volume attempts d ≡ d
    unfolding recover_again
    recover_again-closed [] d h = refl
    recover_again-closed ((n, t) ∷ attempts) d h =
        ap
          (λ (found : Option Journal). elim found [
            | none ↦ d
            | some _ ↦
                recover_again volume attempts (recover volume (record d { budget = n; torn = t })).1
          ])
          h

    recover_again-open :
        (n : ℕ) (t : List ℕ) (attempts : List (ℕ × List ℕ)) (d : Disk) (s : Journal)
        → d.journal ≡ some s
        → recover_again volume ((n, t) ∷ attempts) d
          ≡ recover_again volume attempts (recover volume (record d { budget = n; torn = t })).1
    unfolding recover_again
    recover_again-open n t attempts d s h =
        ap
          (λ (found : Option Journal). elim found [
            | none ↦ d
            | some _ ↦
                recover_again volume attempts (recover volume (record d { budget = n; torn = t })).1
          ])
          h

    recover_again-Consistent :
        (attempts : List (ℕ × List ℕ)) (d : Disk)
        → Consistent d
        → Consistent (recover_again volume attempts d)
    unfolding recover_again
    recover_again-Consistent attempts d (inl (inl u)) =
        rw (recover_again-closed attempts d u.no_journal) (inl (inl u))
    recover_again-Consistent attempts d (inl (inr (inr m))) =
        rw (recover_again-closed attempts d m.no_journal) (inl (inr (inr m)))
    recover_again-Consistent attempts d (inr b) =
        rw (recover_again-closed attempts d b.no_journal) (inr b)
    recover_again-Consistent [] d (inl (inr (inl a))) = inl (inr (inl a))
    recover_again-Consistent ((n, t) ∷ attempts) d (inl (inr (inl a))) =
        rw (recover_again-open n t attempts d _ a.journalled) (
          recover_again-Consistent attempts _ (
            recover-Consistent (record d { budget = n; torn = t })
              (record {
                stage = a.stage;
                journalled = a.journalled;
                agrees = a.agrees;
                data_copied = a.data_copied;
              })))

    -- For a safe move (IsSafe: its runs lie inside the bitmap, source and destination have as many
    -- clusters, one at least, and do not meet, and the record images have the size of a record),
    -- started on an untouched volume whose data bytes are `orig`: power may fail at any write of the
    -- move, and again at any write of each recovery of any sequence of recoveries. If no journal
    -- stands at the end, the volume's metadata is as before the move and no byte outside the
    -- destination has changed, or the move is complete, or it is undone; in the last two cases the
    -- destination holds the source's bytes and no other byte has changed.
    pub move_extent-crash_safe :
        (d : Disk) (attempts : List (ℕ × List ℕ))
        → d.bytes ≡ orig
        → Untouched d
        → (recover_again volume attempts (move_extent volume p move d).1).journal ≡ none
        → Untouched (recover_again volume attempts (move_extent volume p move d).1)
          ⊎ (Moved (recover_again volume attempts (move_extent volume p move d).1)
              ⊎ RolledBack (recover_again volume attempts (move_extent volume p move d).1))
    move_extent-crash_safe d attempts start u closed =
        elim (recover_again-Consistent attempts _
          (elim (Ends-last Recoverable (λ _. Moved) (move_extent volume p move d)
            (move_extent-Ends d start u)) [
              | inl mid ↦ inl mid
              | inr (_, moved) ↦ inl (inr (inr moved))
            ])) [
              | inl (inl same) ↦ inl same
              | inl (inr (inl a)) ↦ absurd (let e = sym closed ∙ a.journalled in cc)
              | inl (inr (inr moved)) ↦ inr (inl moved)
              | inr back ↦ inr (inr back)
            ]
