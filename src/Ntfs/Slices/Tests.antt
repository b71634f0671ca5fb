-- ===== src/Ntfs/Slices/Tests.antt =====
-- Slices of a move: a test.
use linux_defragger.Prelude.{◌≡◌, ℕ, refl, some, none, [], ◌∷◌}
use linux_defragger.Ntfs.Runlist.{Run}
use linux_defragger.Ntfs.Slices.{iter_physical_move_slices}

abbrev run : ℕ → ℕ → Run
run lcn n = record { lcn = some lcn; length = n }

slices :
    iter_physical_move_slices (run 8 3 ∷ run 20 1 ∷ []) (run 3 2 ∷ run 6 2 ∷ [])
    ≡ ((8, 3, 2) ∷ (10, 6, 1) ∷ (20, 7, 1) ∷ [], none)
unfolding iter_physical_move_slices
slices = refl
