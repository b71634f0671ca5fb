-- ===== src/Ntfs/Move/Steps.antt =====
-- The parts of `_move_extent`, one at a time.
use linux_defragger.Prelude.{
  ℕ, ◌*◌, ◌≡◌, refl, ap, ◌∙◌, inl, inr, Bool, true, false, some, List, length, arith,
}
use linux_defragger.Bytes.{AreBytes}
use linux_defragger.Ntfs.Runlist.{Run}
use linux_defragger.Ntfs.Bitmap.{bit}
use linux_defragger.Ntfs.Disk.{
  Disk, Journal, Stage, ◌>>◌, pure, write_bitmap_patches, write_mft_record, write_volume_records,
  write_journal, remove_journal,
}
use linux_defragger.Ntfs.Disk.Rules.{
  Ends, Ends-continue, Ends-write, Ends-last, Ends-write_record, Ends-weaken,
}
use linux_defragger.Ntfs.Patches.{touched_ranges, bitmap_patches_for_runs, current_bitmap_patches}
use linux_defragger.Ntfs.Patches.Touched.{
  in_runs, AllFit, touched_ranges-AllBelow, SetsRuns, set_runs-SetsRuns, in_runs-append,
  AllFit-append,
}
use linux_defragger.Ntfs.Patches.Written.{patched, current_bitmap_patches-snapshot}
use linux_defragger.Ntfs.Move.{
  Volume, Prepared, ExtentMove, journal_state, mark_dirty, reserve, switch_record, release, finish,
}
use linux_defragger.Ntfs.Move.Invariant
use linux_defragger.Ntfs.Move.Invariant.{
  Agrees, Agrees-refl, Agrees-patched, write_bitmap_patches-Ends, write_volume_records-Ends,
}

module _ (volume : Volume) (p : Prepared) (move : ExtentMove) (Kept Copied : (ℕ → ℕ) → Type 0) where
  abbrev pub all : List Run
  all = Invariant.all_runs volume p move Kept Copied

  abbrev pub state : Stage → Journal
  state = Invariant.state volume p move Kept Copied

  abbrev pub Pending : Disk → Type 0
  Pending = Invariant.Pending volume p move Kept Copied

  abbrev pub Recoverable : Disk → Type 0
  Recoverable = Invariant.Recoverable volume p move Kept Copied

  abbrev pub At : List ℕ → List ℕ → Disk → Type 0
  At = Invariant.At volume p move Kept Copied

  -- The journal and the dirty mark.
  pub mark_dirty-Ends :
      (d : Disk)
      → AreBytes p.bitmap
      → Invariant.Untouched volume p move Kept Copied d
      → Copied d.bytes
      → Ends Recoverable (λ _. At p.record_raw p.bitmap) (mark_dirty p state d)
  unfolding mark_dirty write_journal
  mark_dirty-Ends d bytes u c =
      let agrees : Agrees p.bitmap all d.bitmap = rw u.bitmap (Agrees-refl p.bitmap all bytes) in
      Ends-write Recoverable _ d.budget d _ _ (inl u) (λ n.
        Ends-continue Recoverable _ _ (write_volume_records p.volume_dirtied p.mirror_dirtied _) _
          (write_volume_records-Ends Recoverable p.volume_dirtied p.mirror_dirtied _ (λ v m n'.
            inr (
              inl (record {
                stage = Stage.copied;
                journalled = refl;
                agrees = agrees;
                data_copied = c;
              }))))
          (λ _ d' (n', e). rw e (
            Ends-last Recoverable _ n' _ _
              (inr (
                inl (record {
                  stage = Stage.copied;
                  journalled = refl;
                  agrees = agrees;
                  data_copied = c;
                })))
              (λ k. record {
                pending = record {
                  stage = Stage.volume_dirty;
                  journalled = refl;
                  agrees = agrees;
                  data_copied = c;
                };
                image = u.image;
                bits = λ v. ap (λ b. bit b v) u.bitmap;
              }))))

  abbrev bitmap_before : List (ℕ × List ℕ)
  bitmap_before = bitmap_patches_for_runs p.bitmap all

  -- Writing the patches of a bitmap, and the next stage of the journal.
  patches-Ends :
      (d : Disk) (image target new : List ℕ) (s : Stage)
      → AllFit (8 * length p.bitmap) all
      → At image target d
      → Agrees p.bitmap all new
      → Ends Recoverable
          (λ r d'. (r ≡ new) × At image new d')
          ((write_bitmap_patches (current_bitmap_patches new bitmap_before)
              >> (write_journal (state s) >> pure new))
            d)
  unfolding write_journal bitmap_patches_for_runs
  patches-Ends d image target new s fit a b =
      let below = touched_ranges-AllBelow (length p.bitmap) all fit in
      let after = Agrees-patched p.bitmap all fit d.bitmap new a.pending.agrees b in
      let pending : (bitmap : List ℕ)
          → Agrees p.bitmap all bitmap
          → (n : ℕ) → Pending (record d { bitmap = bitmap; budget = n }) =
        λ bitmap ag n. record {
          stage = a.pending.stage;
          journalled = a.pending.journalled;
          agrees = ag;
          data_copied = a.pending.data_copied;
        } in
      rw (current_bitmap_patches-snapshot p.bitmap new (touched_ranges all) below) (
        Ends-continue Recoverable _
          (λ (_ : Unit {0}) (d' : Disk).
            (n : ℕ) × (d'
              ≡ record d { bitmap = patched d.bitmap new (touched_ranges all); budget = n }))
          _ _
          (write_bitmap_patches-Ends p.bitmap all fit Recoverable new (touched_ranges all) d below b
            a.pending.agrees (λ bitmap n ag. inr (inl (pending bitmap ag n))))
          (λ _ d' (n, e). rw e (
            Ends-write Recoverable _ n _ _ _
              (inr (inl (pending (patched d.bitmap new (touched_ranges all)) after.0 n)))
              (λ k. (
                refl,
                record {
                  pending = record {
                    stage = s;
                    journalled = refl;
                    agrees = after.0;
                    data_copied = a.pending.data_copied;
                  };
                  image = a.image;
                  bits = after.1;
                },
              )))))

  -- A bitmap in which runs of the move are set agrees with the old one.
  pub SetsRuns-Agrees :
      (bitmap out : List ℕ) (runs : List Run) (v : Bool)
      → ((u : ℕ) → in_runs all u ≡ false → in_runs runs u ≡ false)
      → Agrees p.bitmap all bitmap
      → SetsRuns bitmap runs v out
      → Agrees p.bitmap all out
  SetsRuns-Agrees bitmap out runs v part a s = record {
    size = s.size ∙ a.size;
    bytes = s.bytes;
    same = λ u k. s.bits u ∙ rw (part u k) (a.same u k);
  }

  pub reserve-Ends :
      (d : Disk)
      → AreBytes p.bitmap
      → AllFit (8 * length p.bitmap) move.source_runs
      → AllFit (8 * length p.bitmap) move.destination_runs
      → At p.record_raw p.bitmap d
      → Ends Recoverable
          (λ r d'. SetsRuns p.bitmap move.destination_runs true r × At p.record_raw r d')
          (reserve p move state d)
  unfolding reserve journal_state
  reserve-Ends d bytes fit_source fit_destination a =
      let (out, returns, sets) =
        set_runs-SetsRuns p.bitmap move.destination_runs true bytes fit_destination in
      let agrees =
        SetsRuns-Agrees p.bitmap out move.destination_runs true
          (λ u k. ground (arith, k, in_runs-append move.source_runs move.destination_runs u))
          (Agrees-refl p.bitmap all bytes) sets in
      rw returns (
        Ends-weaken Recoverable (λ r d'. (r ≡ out) × At p.record_raw out d') _ _
          (patches-Ends d p.record_raw p.bitmap out Stage.destination_allocated
            (AllFit-append _ move.source_runs move.destination_runs fit_source fit_destination) a
            agrees)
          (λ r d' (e, at). rw e (sets, at)))

  pub switch_record-Ends :
      (d : Disk) (target : List ℕ)
      → At p.record_raw target d
      → Ends Recoverable (λ _. At p.new_record target) (switch_record p state d)
  unfolding switch_record write_mft_record write_journal
  switch_record-Ends d target a =
      Ends-write_record Recoverable _ d.budget p.new_record d _
        (inr (
          inl (record {
            stage = a.pending.stage;
            journalled = a.pending.journalled;
            agrees = a.pending.agrees;
            data_copied = a.pending.data_copied;
          })))
        (λ n.
          Ends-last Recoverable _ n _ _
            (inr (
              inl (record {
                stage = a.pending.stage;
                journalled = a.pending.journalled;
                agrees = a.pending.agrees;
                data_copied = a.pending.data_copied;
              })))
            (λ k. record {
              pending = record {
                stage = Stage.metadata_switched;
                journalled = refl;
                agrees = a.pending.agrees;
                data_copied = a.pending.data_copied;
              };
              image = refl;
              bits = a.bits;
            }))

  pub release-Ends :
      (d : Disk) (reserved : List ℕ)
      → AreBytes p.bitmap
      → AllFit (8 * length p.bitmap) move.source_runs
      → AllFit (8 * length p.bitmap) move.destination_runs
      → SetsRuns p.bitmap move.destination_runs true reserved
      → At p.new_record reserved d
      → Ends Recoverable
          (λ r d'. SetsRuns reserved move.source_runs false r × At p.new_record r d')
          (release move state reserved d)
  unfolding release journal_state
  release-Ends d reserved bytes fit_source fit_destination earlier a =
      let inside = λ (u : ℕ) (k : in_runs all u ≡ false).
        rw (in_runs-append move.source_runs move.destination_runs u) at k in
      let (out, returns, sets) =
        set_runs-SetsRuns reserved move.source_runs false earlier.bytes
          (rw earlier.size fit_source) in
      let agrees =
        SetsRuns-Agrees reserved out move.source_runs false (λ u k. ground (arith, inside u k))
          (SetsRuns-Agrees p.bitmap reserved move.destination_runs true
            (λ u k. ground (arith, inside u k)) (Agrees-refl p.bitmap all bytes) earlier)
          sets in
      rw returns (
        Ends-weaken Recoverable (λ r d'. (r ≡ out) × At p.new_record out d') _ _
          (patches-Ends d p.new_record reserved out Stage.old_released
            (AllFit-append _ move.source_runs move.destination_runs fit_source fit_destination) a
            agrees)
          (λ r d' (e, at). rw e (sets, at)))

  pub finish-Ends :
      (d : Disk) (reserved released : List ℕ)
      → SetsRuns p.bitmap move.destination_runs true reserved
      → SetsRuns reserved move.source_runs false released
      → At p.new_record released d
      → Ends Recoverable (λ _. Invariant.Moved volume p move Kept Copied) (finish p state d)
  unfolding finish write_journal remove_journal
  finish-Ends d reserved released first second a =
      let pend : (s : Stage) (v m : List ℕ) (n : ℕ)
          → Pending (record d {
            volume_image = v;
            mirror_image = m;
            budget = n;
            journal = some (state s);
          }) =
        λ s v m n. record {
          stage = s;
          journalled = refl;
          agrees = a.pending.agrees;
          data_copied = a.pending.data_copied;
        } in
      Ends-continue Recoverable _ _ (write_volume_records p.volume_before p.mirror_before d) _
        (write_volume_records-Ends Recoverable p.volume_before p.mirror_before d (λ v m n. inr (
          inl (record {
            stage = a.pending.stage;
            journalled = a.pending.journalled;
            agrees = a.pending.agrees;
            data_copied = a.pending.data_copied;
          }))))
        (λ _ d' (n, e). rw e (
          Ends-write Recoverable _ n _ _ _
            (inr (
              inl (record {
                stage = a.pending.stage;
                journalled = a.pending.journalled;
                agrees = a.pending.agrees;
                data_copied = a.pending.data_copied;
              })))
            (λ k.
              Ends-last Recoverable _ k _ _
                (inr (inl (pend Stage.volume_clean p.volume_before p.mirror_before k)))
                (λ l. record {
                  no_journal = refl;
                  image = a.image;
                  size = a.pending.agrees.size;
                  bits = λ u. a.bits u ∙ second.bits u ∙ rw (first.bits u) refl;
                  volume_image = refl;
                  mirror_image = refl;
                  data_copied = a.pending.data_copied;
                }))))
