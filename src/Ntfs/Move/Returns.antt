-- ===== src/Ntfs/Move/Returns.antt =====
-- A move and a recovery with enough writes to come.
use linux_defragger.Prelude.{
  ℕ, suc, ◌+◌, ◌*◌, ◌≤◌, ◌≡◌, refl, true, false, List, length, ◌==◌, if◌then◌else◌, arith, ok,
}
use linux_defragger.Ntfs.Disk.{
  Disk, Stage, ◌>>=◌, ◌>>◌, pure, type_error, lengths_differ, index_error,
}
use linux_defragger.Ntfs.Disk.Budget.{
  Spends, Ends-returns, Spends-continue, Spends-or_raise, Spends-raise_if,
}
use linux_defragger.Ntfs.Move.{
  Volume, Prepared, ExtentMove, journal_state, clusters_of, any_sparse, first_lcn,
  copy_run_sequences, mark_dirty, reserve, switch_record, release, finish, move_extent,
  recover_loaded,
}
use linux_defragger.Ntfs.Move.Recovery
use linux_defragger.Ntfs.Move.Crash.{IsSafe, Untouched, Moved, Recoverable, move_extent-Ends}
use linux_defragger.Ntfs.Move.Enough.{
  snapshots, state, recover_loaded-Spends, copy_run_sequences-Spends, mark_dirty-Spends,
  reserve-Spends, release-Spends, switch_record-Spends, finish-Spends,
}

module _ (volume : Volume) (p : Prepared) (move : ExtentMove) where
  abbrev commits : ℕ
  commits = length (snapshots volume p move) + length (snapshots volume p move) + 12

  -- The parts behind the copy.
  commit-Spends :
      (d : Disk)
      → commits ≤ d.budget
      → Spends commits d.budget (
          (mark_dirty p (state volume p move)
              >> (reserve p move (state volume p move) >>= λ reserved.
                  (switch_record p (state volume p move)
                    >> (release move (state volume p move) reserved >>= λ released.
                        (finish p (state volume p move) >> pure released)))))
            d)
  commit-Spends d h =
      let l = length (snapshots volume p move) in
      let s = state volume p move in
      Spends-continue 4 (l + l + 8) commits d.budget (mark_dirty p s d) _
        (mark_dirty-Spends volume p move d (omega (arith, h))) (omega arith) h
        (λ _ d1 p1.
          Spends-continue (suc l) (l + 7) (l + l + 8) d1.budget (reserve p move s d1) _
            (reserve-Spends volume p move d1 (omega (arith, p1))) (omega arith) p1
            (λ reserved d2 p2.
              Spends-continue 2 (l + 5) (l + 7) d2.budget (switch_record p s d2) _
                (switch_record-Spends volume p move d2 (omega (arith, p2))) (omega arith) p2
                (λ _ d3 p3.
                  Spends-continue (suc l) 4 (l + 5) d3.budget (release move s reserved d3) _
                    (release-Spends volume p move reserved d3 (omega (arith, p3))) (omega arith) p3
                    (λ released d4 p4.
                      Spends-continue 4 0 4 d4.budget (finish p s d4) _
                        (finish-Spends volume p move d4 p4) (omega arith) p4
                        (λ _ d5 p5. omega arith)))))

  -- A write for each byte of the copy at most, one for each byte range of the bitmap in each
  -- direction, and twelve for the journal, the MFT record and the volume records.
  abbrev pub writes : ℕ
  writes = clusters_of move.source_runs * volume.cluster_size + commits

  move_extent-Spends :
      (d : Disk) → writes ≤ d.budget → Spends writes d.budget (move_extent volume p move d)
  unfolding move_extent
  move_extent-Spends d h =
      let n = clusters_of move.source_runs * volume.cluster_size in
      Spends-raise_if writes d.budget (any_sparse move.source_runs) type_error d _ refl (
        Spends-raise_if writes d.budget (any_sparse move.destination_runs) type_error d _ refl (
          Spends-continue n commits writes d.budget
            (copy_run_sequences volume.cluster_size move.source_runs move.destination_runs d) _
            (copy_run_sequences-Spends volume.cluster_size move.source_runs move.destination_runs d
              (omega (arith, h)))
            (omega arith) h
            (λ _ d1 p1.
              Spends-or_raise commits d1.budget (first_lcn move.destination_runs) index_error d1 _
                refl
                (λ lcn.
                  Spends-raise_if commits d1.budget
                    (if clusters_of move.source_runs == clusters_of move.destination_runs
                      then false
                      else true)
                    lengths_differ d1 _ refl (commit-Spends d1 p1)))))

  module _ (orig : ℕ → ℕ) (safe : IsSafe volume p move orig) where
    -- A move that is safe (IsSafe), started on an untouched volume whose data bytes are `orig`, with
    -- at least as many writes to come as the copy has bytes, plus two for each byte range of the
    -- bitmap, plus twelve, returns, with the move complete.
    pub move_extent-returns :
        (d : Disk)
        → d.bytes ≡ orig
        → Untouched volume p move orig d
        → writes ≤ d.budget
        → (released : List ℕ) × (d' : Disk) × (move_extent volume p move d ≡ (ok released, d'))
          × Moved volume p move orig d'
    move_extent-returns d start u h =
        Ends-returns (Recoverable volume p move orig) (λ _. Moved volume p move orig) writes
          d.budget (move_extent volume p move d)
          (move_extent-Ends volume p move orig safe d start u) (move_extent-Spends d h)

  module _ (Kept' Copied' : (ℕ → ℕ) → Type 0)
      (ready : Recovery.IsPrepared volume p move Kept' Copied') where
    -- For a move that was prepared (IsPrepared), recovery from any state in which its journal
    -- stands, the copy is made and the bitmap differs from the old one at most in the clusters of
    -- the move, with at least four writes more to come than the journal has snapshots of the bitmap,
    -- returns, with the move undone or complete.
    pub recover_loaded-returns :
        (s : Stage) (d : Disk)
        → Recovery.Pending volume p move Kept' Copied' d
        → length (snapshots volume p move) + 4 ≤ d.budget
        → (d' : Disk) × (recover_loaded volume (state volume p move s) d ≡ (ok tt, d'))
          × Recovery.Settled volume p move Kept' Copied' d'
    unfolding journal_state
    recover_loaded-returns s d a h =
        let (done, d', e, settled) =
          Ends-returns (Recovery.Pending volume p move Kept' Copied')
            (λ _. Recovery.Settled volume p move Kept' Copied')
            (4 + length (snapshots volume p move)) d.budget
            (recover_loaded volume (state volume p move s) d)
            (Recovery.recover_loaded-Ends volume p move Kept' Copied' ready s d a)
            (recover_loaded-Spends volume (state volume p move s) d (omega (arith, h))) in
        (d', e, settled)
