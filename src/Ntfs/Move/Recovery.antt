-- ===== src/Ntfs/Move/Recovery.antt =====
-- The two branches of `_recover_loaded` and what they leave.
use linux_defragger.Prelude.{
  ℕ, ◌*◌, ◌/◌, ◌<◌, ◌≡◌, refl, ◌∙◌, ◌⊎◌, inl, inr, Bool, true, false, ◌&&◌, none, List, [], ◌∷◌,
  map, ◌==◌, if◌then◌else◌, length, arith, Bool-cases, Option-cases, ok,
}
use linux_defragger.Bytes.{AreBytes}
use linux_defragger.Ranges.{Range}
use linux_defragger.Ranges.Cover.{covers}
use linux_defragger.Ntfs.Runlist.{Run}
use linux_defragger.Ntfs.Bitmap.{bit}
use linux_defragger.Ntfs.Disk.{
  Disk, Journal, Stage, Action, ◌>>◌, write_bitmap_patches, write_mft_record, write_volume_records,
  remove_journal, raise_if, volume_image_invalid,
}
use linux_defragger.Ntfs.Disk.Rules.{Ends, Ends-continue, Ends-last, Ends-write_record, Ends-weaken}
use linux_defragger.Ntfs.Patches.{snapshot, touched_ranges, bitmap_patches_for_runs}
use linux_defragger.Ntfs.Patches.Touched.{
  in_runs, AllFit, touched_ranges-AllBelow, touched_ranges-covers, set_runs-SetsRuns,
  in_runs-append, AllFit-append,
}
use linux_defragger.Ntfs.Patches.Written.{patched, current_bitmap_patches-snapshot}
use linux_defragger.Ntfs.Move.{
  Volume, Prepared, ExtentMove, journal_state, clusters_of, eq_bytes, validate_identity,
  affected_runs, complete_forward, roll_back, recover_loaded,
}
use linux_defragger.Ntfs.Move.Invariant
use linux_defragger.Ntfs.Move.Invariant.{
  Agrees, Agrees-refl, Agrees-patched, write_bitmap_patches-Ends, write_volume_records-Ends,
}
use linux_defragger.Ntfs.Move.Copy.{any_sparse-AllFit}
use linux_defragger.Ntfs.Move.Steps.{SetsRuns-Agrees}

eq_bytes_sound : (xs ys : List ℕ) → eq_bytes xs ys ≡ true → xs ≡ ys
eq_bytes_sound [] [] h = refl
eq_bytes_sound [] (y ∷ ys) h = cc
eq_bytes_sound (x ∷ xs) [] h = cc
eq_bytes_sound (x ∷ xs) (y ∷ ys) h = ground (arith, eq_bytes_sound xs ys)

-- Runs with a cluster touch some byte.
has_cluster :
    (top : ℕ) (runs : List Run)
    → AllFit top runs
    → 0 < clusters_of runs
    → (u : ℕ) × (in_runs runs u ≡ true)
unfolding clusters_of
has_cluster top [] h k = absurd (omega arith)
has_cluster top (run ∷ runs) h k = elim (Option-cases run.lcn) [
  | inl e ↦ absurd (rw e at h.0)
  | inr (lcn, e) ↦ elim (Bool-cases (run.length == 0)) [
    | inl empty ↦
        let (u, found) = has_cluster top runs h.1 (ground arith) in (u, rw found (ground arith))
    | inr full ↦ (lcn, rw e (ground arith))
  ]
]

module _ (volume : Volume) (p : Prepared) (move : ExtentMove) (Kept Copied : (ℕ → ℕ) → Type 0) where
  abbrev pub all : List Run
  all = Invariant.all_runs volume p move Kept Copied

  abbrev pub state : Stage → Journal
  state = Invariant.state volume p move Kept Copied

  abbrev pub Pending : Disk → Type 0
  Pending = Invariant.Pending volume p move Kept Copied

  abbrev pub moved_bit : ℕ → Bool
  moved_bit = Invariant.moved_bit volume p move Kept Copied

  -- The move is undone.
  pub record RolledBack (d : Disk) : Type 0 where
    pub no_journal : d.journal ≡ none
    pub image : d.record_image ≡ p.record_raw
    pub size : length d.bitmap ≡ length p.bitmap
    pub bits : (u : ℕ) → bit d.bitmap u ≡ bit p.bitmap u
    pub volume_image : d.volume_image ≡ p.volume_before
    pub mirror_image : d.mirror_image ≡ p.mirror_before
    pub data_copied : Copied d.bytes

  abbrev pub Settled : Disk → Type 0
  Settled d = RolledBack d ⊎ Invariant.Moved volume p move Kept Copied d

  -- What a move that was prepared on this volume satisfies.
  pub record IsPrepared : Type 0 where
    pub bytes : AreBytes p.bitmap
    pub source_fits : AllFit (8 * length p.bitmap) move.source_runs
    pub destination_fits : AllFit (8 * length p.bitmap) move.destination_runs
    pub same_length : clusters_of move.source_runs ≡ clusters_of move.destination_runs
    pub some_clusters : 0 < clusters_of move.source_runs
    pub raw_size : length p.record_raw ≡ volume.mft_record_size
    pub new_size : length p.new_record ≡ volume.mft_record_size
    pub volume_size : length p.volume_before ≡ volume.mft_record_size
    pub mirror_size : length p.mirror_before ≡ volume.mft_record_size

  -- Metadata that is settled, under a journal that still stands.
  abbrev pub Decided : Disk → Type 0
  Decided d =
      Pending d
      × ((d.record_image ≡ p.record_raw) × ((u : ℕ) → bit d.bitmap u ≡ bit p.bitmap u)
          ⊎ (d.record_image ≡ p.new_record) × ((u : ℕ) → bit d.bitmap u ≡ moved_bit u))

  module _ (ready : IsPrepared) where
    fit : AllFit (8 * length p.bitmap) all
    fit =
        AllFit-append _ move.source_runs move.destination_runs ready.source_fits
          ready.destination_fits

    -- Writing the patches of a bitmap that agrees with the old one.
    patches-Ends :
        (d : Disk) (new : List ℕ)
        → Pending d
        → Agrees p.bitmap all new
        → Ends Pending
            (λ _ d'.
              Pending d'
              × (d'.record_image ≡ d.record_image)
              × ((u : ℕ) → bit d'.bitmap u ≡ bit new u))
            (write_bitmap_patches (map (snapshot new) (touched_ranges all)) d)
    patches-Ends d new a b =
        let below = touched_ranges-AllBelow (length p.bitmap) all fit in
        let after = Agrees-patched p.bitmap all fit d.bitmap new a.agrees b in
        let pending : (bitmap : List ℕ)
            → Agrees p.bitmap all bitmap
            → (n : ℕ) → Pending (record d { bitmap = bitmap; budget = n }) =
          λ bitmap ag n. record {
            stage = a.stage;
            journalled = a.journalled;
            agrees = ag;
            data_copied = a.data_copied;
          } in
        Ends-weaken Pending
          (λ (_ : Unit {0}) (d' : Disk).
            (n : ℕ) × (d'
              ≡ record d { bitmap = patched d.bitmap new (touched_ranges all); budget = n }))
          _ _
          (write_bitmap_patches-Ends p.bitmap all fit Pending new (touched_ranges all) d below b
            a.agrees (λ bitmap n ag. pending bitmap ag n))
          (λ _ d' (n, e).
            rw e (pending (patched d.bitmap new (touched_ranges all)) after.0 n, refl, after.1))

    roll_back-Ends :
        (s : Stage) (d : Disk) → Pending d → Ends Pending (λ _. Decided) (roll_back (state s) d)
    unfolding roll_back write_mft_record journal_state bitmap_patches_for_runs
    roll_back-Ends s d a =
        Ends-write_record Pending _ d.budget p.record_raw d _
          (record {
            stage = a.stage;
            journalled = a.journalled;
            agrees = a.agrees;
            data_copied = a.data_copied;
          })
          (λ n.
            Ends-weaken Pending
              (λ (_ : Unit {0}) (d' : Disk).
                Pending d'
                × (d'.record_image ≡ p.record_raw)
                × ((u : ℕ) → bit d'.bitmap u ≡ bit p.bitmap u))
              _ _
              (patches-Ends (record d { record_image = p.record_raw; budget = n }) p.bitmap
                (record {
                  stage = a.stage;
                  journalled = a.journalled;
                  agrees = a.agrees;
                  data_copied = a.data_copied;
                })
                (Agrees-refl p.bitmap all ready.bytes))
              (λ _ d' (b, image, bits). (b, inl (image, bits))))

    complete_forward-Ends :
        (s : Stage) (d : Disk)
        → Pending d
        → d.record_image ≡ p.new_record
        → Ends Pending (λ _. Decided) (complete_forward (state s) d.bitmap d)
    unfolding complete_forward journal_state bitmap_patches_for_runs
    complete_forward-Ends s d a switched =
        let inside = λ (u : ℕ) (k : in_runs all u ≡ false).
          rw (in_runs-append move.source_runs move.destination_runs u) at k in
        let (reserved, first, set_first) =
          set_runs-SetsRuns d.bitmap move.destination_runs true a.agrees.bytes
            (rw a.agrees.size ready.destination_fits) in
        let (released, second, set_second) =
          set_runs-SetsRuns reserved move.source_runs false set_first.bytes
            (rw (set_first.size, a.agrees.size) ready.source_fits) in
        let agrees =
          SetsRuns-Agrees volume p move Kept Copied reserved released move.source_runs false
            (λ u k. ground (arith, inside u k))
            (SetsRuns-Agrees volume p move Kept Copied d.bitmap reserved move.destination_runs true
              (λ u k. ground (arith, inside u k)) a.agrees set_first)
            set_second in
        rw
          (
            first,
            second,
            current_bitmap_patches-snapshot p.bitmap released (touched_ranges all)
                (touched_ranges-AllBelow (length p.bitmap) all fit),
          )
          (Ends-weaken Pending
            (λ (_ : Unit {0}) (d' : Disk).
              Pending d'
              × (d'.record_image ≡ d.record_image)
              × ((u : ℕ) → bit d'.bitmap u ≡ bit released u))
            _ _ (patches-Ends d released a agrees)
            (λ _ d' (b, image, bits). (
              b,
              inr (
                image ∙ switched,
                λ u.
                    bits u
                    ∙ set_second.bits u
                    ∙ rw (set_first.bits u) (
                        ground (
                          arith,
                          a.agrees.same u,
                          in_runs-append move.source_runs move.destination_runs u,
                        )),
              ),
            )))

    -- The volume records are restored and the journal removed.
    close-Ends :
        (d : Disk)
        → Decided d
        → Ends Pending
            (λ _. Settled)
            ((write_volume_records p.volume_before p.mirror_before >> remove_journal) d)
    unfolding remove_journal
    close-Ends d (a, decided) =
        Ends-continue Pending (λ _. Settled)
          (λ (_ : Unit {0}) (d' : Disk).
            (n : ℕ) × (d' ≡ record d {
              volume_image = p.volume_before;
              mirror_image = p.mirror_before;
              budget = n;
            }))
          _ _
          (write_volume_records-Ends Pending p.volume_before p.mirror_before d (λ v m n. record {
            stage = a.stage;
            journalled = a.journalled;
            agrees = a.agrees;
            data_copied = a.data_copied;
          }))
          (λ _ d' (n, e). rw e (
            Ends-last Pending (λ _. Settled) n _ _
              (record {
                stage = a.stage;
                journalled = a.journalled;
                agrees = a.agrees;
                data_copied = a.data_copied;
              })
              (λ k. elim decided [
                | inl (image, bits) ↦ inl (record {
                  no_journal = refl;
                  image = image;
                  size = a.agrees.size;
                  bits = bits;
                  volume_image = refl;
                  mirror_image = refl;
                  data_copied = a.data_copied;
                })
                | inr (image, bits) ↦ inr (record {
                  no_journal = refl;
                  image = image;
                  size = a.agrees.size;
                  bits = bits;
                  volume_image = refl;
                  mirror_image = refl;
                  data_copied = a.data_copied;
                })
              ])))

    -- The journal holds a snapshot at least.
    has_snapshot :
        (rs : List Range) (j : ℕ)
        → covers rs j ≡ true
        → (r : Range) × (rest : List Range) × (rs ≡ r ∷ rest)
    has_snapshot [] j h = cc
    has_snapshot (r ∷ rs) j h = (r, rs, refl)

    snapshots_exist :
        (s : Stage) → (elim (state s).bitmap_before [ [] ↦ true | _ ∷ _ ↦ false ]) ≡ false
    unfolding journal_state bitmap_patches_for_runs
    snapshots_exist s =
        let (u, inside) =
          has_cluster (8 * length p.bitmap) move.source_runs ready.source_fits
            ready.some_clusters in
        let part : in_runs all u ≡ true =
          in_runs-append move.source_runs move.destination_runs u ∙ rw inside refl in
        let (r, rest, e) =
          has_snapshot (touched_ranges all) (u / 8) (touched_ranges-covers u all part) in
        rw e

    test_eq : (a b : ℕ) → a ≡ b → (a == b) ≡ true
    test_eq a b h = ground arith

    sizes_eq : (a b n : ℕ) → a ≡ n → b ≡ n → (if a == n && b == n then false else true) ≡ false
    sizes_eq a b n h k = ground arith

    validate_identity_ok :
        (s : Stage) (d : Disk) → validate_identity volume (state s) d ≡ (ok tt, d)
    unfolding validate_identity journal_state
    validate_identity_ok s d = rw (
      test_eq volume.path volume.path refl,
      test_eq volume.device_size volume.device_size refl,
      test_eq volume.serial volume.serial refl,
    )

    affected_runs_ok : (s : Stage) (d : Disk) → affected_runs (state s) d ≡ (ok tt, d)
    unfolding affected_runs journal_state
    affected_runs_ok s d = rw (
      any_sparse-AllFit _ move.source_runs ready.source_fits,
      any_sparse-AllFit _ move.destination_runs ready.destination_fits,
      test_eq _ _ ready.same_length,
    )

    abbrev branch : Stage → List ℕ → List ℕ → Action (Unit {0})
    branch s current bitmap =
        if eq_bytes current (state s).record_after
        then complete_forward (state s) bitmap
        else roll_back (state s)

    branch-Ends :
        (s : Stage) (d : Disk)
        → Pending d
        → Ends Pending (λ _. Decided) (branch s d.record_image d.bitmap d)
    unfolding journal_state
    branch-Ends s d a = elim (Bool-cases (eq_bytes d.record_image (state s).record_after)) [
      | inl switched ↦
          rw switched
            (complete_forward-Ends s d a (eq_bytes_sound d.record_image p.new_record switched))
      | inr other ↦ rw other (roll_back-Ends s d a)
    ]

    tail-Ends :
        (s : Stage) (d : Disk)
        → Decided d
        → Ends Pending
            (λ _. Settled)
            ((raise_if
                  (if length (state s).volume_before == volume.mft_record_size
                      && length (state s).mirror_before == volume.mft_record_size
                    then false
                    else true)
                  volume_image_invalid
                >> (write_volume_records (state s).volume_before (state s).mirror_before
                    >> remove_journal))
              d)
    unfolding journal_state
    tail-Ends s d decided =
        rw
          (sizes_eq (length (state s).volume_before) (length (state s).mirror_before)
            volume.mft_record_size ready.volume_size ready.mirror_size)
          (close-Ends d decided)

    -- For a move that was prepared (IsPrepared), recovery from any state in which its journal
    -- stands, the copy is made and the bitmap differs from the old one at most in the clusters of
    -- the move, whatever the MFT record holds, either returns with the move undone or complete, the
    -- bits of the whole bitmap included, or ends by a loss of power with the transaction pending as
    -- before; it raises no exception.
    pub recover_loaded-Ends :
        (s : Stage) (d : Disk)
        → Pending d
        → Ends Pending (λ _. Settled) (recover_loaded volume (state s) d)
    unfolding recover_loaded journal_state
    recover_loaded-Ends s d a =
        rw
          (
            validate_identity_ok s d,
            sizes_eq (length (state s).record_before) (length (state s).record_after)
                volume.mft_record_size ready.raw_size ready.new_size,
            affected_runs_ok s d,
            snapshots_exist s,
          )
          (Ends-continue Pending (λ _. Settled) (λ _. Decided) (branch s d.record_image d.bitmap d)
            _ (branch-Ends s d a) (λ _ d' decided. tail-Ends s d' decided))
