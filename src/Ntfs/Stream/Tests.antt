-- ===== src/Ntfs/Stream/Tests.antt =====
-- Metadata streams: tests, and an instance of the theorem.
use linux_defragger.Prelude.{ℕ, ◌+◌, ◌≡◌, refl, some, none, List, [], ◌∷◌, ok}
use linux_defragger.Prelude.Int.{pos}
use linux_defragger.Ntfs.Runlist.{Run}
use linux_defragger.Ntfs.Stream.{too_short, stream_segments, read_stream, write_stream}
use linux_defragger.Ntfs.Stream.Located.{Located, stream_segments-Located}

-- Clusters 5 and 6, then 2.
abbrev split_runs : List Run
split_runs = record { lcn = some 5; length = 2 } ∷ record { lcn = some 2; length = 1 } ∷ []

across_runs : stream_segments split_runs 4 (pos 6) (pos 4) ≡ ((26, 2) ∷ (8, 2) ∷ [], none)
unfolding stream_segments
across_runs = refl

past_the_end : stream_segments split_runs 4 (pos 10) (pos 4) ≡ ((10, 2) ∷ [], some too_short)
unfolding stream_segments
past_the_end = refl

reads : read_stream (λ u. u + 100) split_runs 4 (pos 6) (pos 4) ≡ ok (126 ∷ 127 ∷ 108 ∷ 109 ∷ [])
unfolding read_stream
reads = refl

abbrev written_at : ℕ → ℕ
written_at u = (write_stream (λ u. 0) split_runs 4 (pos 7) (11 ∷ 12 ∷ [])).0 u

writes : (written_at 27 ∷ written_at 8 ∷ written_at 9 ∷ []) ≡ 11 ∷ 12 ∷ 0 ∷ []
unfolding write_stream
writes = refl

stream_segments-Located_example :
    Located 4 split_runs 6 4 (stream_segments split_runs 4 (pos 6) (pos 4))
stream_segments-Located_example = stream_segments-Located split_runs 4 6 4
