-- ===== src/Ntfs/Stream.antt =====
-- Where the bytes of a metadata stream lie on the device (`_stream_segments`), and reading and writing
-- them (`_read_stream`, `_write_stream`). A device is a function from byte addresses to bytes.
pub mod Located
mod Tests
use linux_defragger.Prelude.{
  ℕ, zero, suc, ◌+◌, ◌-◌, ◌*◌, min, Bool, true, false, ◌&&◌, Option, some, none, List, [], ◌∷◌,
  ◌++◌, leb, ltb, ◌==◌, if◌then◌else◌, length, take, drop, get_or, Result, ok, err,
}
use linux_defragger.Prelude.Int.{ℤ, pos, negsuc}
use linux_defragger.Ntfs.Runlist.{Run}

pub data StreamError : Type 0 where
  negative_range sparse_stream too_short short_write : StreamError

-- The loop of the generator: the segments that it yields, and what it raises after them.
unfoldable pub segments_from : ℕ → List Run → ℕ → ℕ → ℕ → List (ℕ × ℕ) × Option StreamError
segments_from cluster_size [] cursor wanted remaining =
    ([], if remaining == 0 then none else some too_short)
segments_from cluster_size (run ∷ runs) cursor wanted remaining =
    let run_bytes = run.length * cluster_size in
    let within = wanted - cursor in
    let taken = min remaining (run_bytes - within) in
    let skipped = segments_from cluster_size runs (cursor + run_bytes) wanted remaining in
    let later =
      segments_from cluster_size runs (cursor + run_bytes) (wanted + taken) (remaining - taken) in
    if leb (cursor + run_bytes) wanted then skipped else elim run.lcn [
      | none ↦ ([], some sparse_stream)
      | some lcn ↦
          let segment : ℕ × ℕ = (lcn * cluster_size + within, taken) in
          if remaining - taken == 0 then (segment ∷ [], none) else (segment ∷ later.0, later.1)
    ]

unfoldable pub stream_segments : List Run → ℕ → ℤ → ℤ → List (ℕ × ℕ) × Option StreamError
unfolding segments_from
stream_segments runs cluster_size (negsuc n) length = ([], some negative_range)
stream_segments runs cluster_size (pos offset) (negsuc n) = ([], some negative_range)
stream_segments runs cluster_size (pos offset) (pos length) =
    segments_from cluster_size runs 0 offset length

-- `_pread_exact` of a segment.
unfoldable pub read_at : (ℕ → ℕ) → ℕ → ℕ → List ℕ
read_at device at' zero = []
read_at device at' (suc n) = device at' ∷ read_at device (at' + 1) n

unfoldable pub read_segments : (ℕ → ℕ) → List (ℕ × ℕ) → List ℕ
unfolding read_at
read_segments device [] = []
read_segments device ((physical, taken) ∷ segments) =
    read_at device physical taken ++ read_segments device segments

unfoldable pub read_stream : (ℕ → ℕ) → List Run → ℕ → ℤ → ℤ → Result StreamError (List ℕ)
unfolding stream_segments read_segments
read_stream device runs cluster_size offset length =
    let (segments, raised) = stream_segments runs cluster_size offset length in
    elim raised [ none ↦ ok (read_segments device segments) | some e ↦ err e ]

-- `_pwrite_exact` of a segment.
unfoldable pub write_at : ℕ → List ℕ → (ℕ → ℕ) → ℕ → ℕ
write_at at' bytes device u =
    if leb at' u && ltb u (at' + length bytes) then get_or bytes (u - at') 0 else device u

-- The loop, and `consumed` at its end.
unfoldable pub write_segments : List ℕ → ℕ → List (ℕ × ℕ) → (ℕ → ℕ) → (ℕ → ℕ) × ℕ
unfolding write_at
write_segments bytes consumed [] device = (device, consumed)
write_segments bytes consumed ((physical, taken) ∷ segments) device =
    write_segments bytes (consumed + taken) segments
      (write_at physical (take taken (drop consumed bytes)) device)

-- The device after the call, also where it raises, and whether it does.
unfoldable pub write_stream : (ℕ → ℕ) → List Run → ℕ → ℤ → List ℕ → (ℕ → ℕ) × Option StreamError
unfolding stream_segments write_segments
write_stream device runs cluster_size offset bytes =
    let (segments, raised) = stream_segments runs cluster_size offset (pos (length bytes)) in
    let (written, consumed) = write_segments bytes 0 segments device in
    (
      written,
      elim raised [
        | none ↦ if consumed == length bytes then none else some short_write
        | some e ↦ some e
      ],
    )
