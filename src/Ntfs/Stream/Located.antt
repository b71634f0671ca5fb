-- ===== src/Ntfs/Stream/Located.antt =====
-- The segments of `_stream_segments` are the bytes of the stream in order.
use linux_defragger.Prelude.{
  ℕ, ◌+◌, ◌-◌, ◌*◌, ◌<◌, ◌≤◌, ◌≡◌, refl, ap, ◌∙◌, sym, min, true, false, Option, some, none, List,
  [], ◌∷◌, leb, ltb, ◌==◌, if◌then◌else◌, arith, Bool-cases, inl, inr,
}
use linux_defragger.Prelude.Int.{pos}
use linux_defragger.Ntfs.Runlist.{Run}
use linux_defragger.Ntfs.Stream.{
  StreamError, sparse_stream, too_short, negative_range, short_write, segments_from,
  stream_segments,
}

-- The address of a byte of the stream, none in a sparse run and past the end.
abbrev pub address_of : ℕ → List Run → ℕ → Option ℕ
address_of cluster_size [] i = none
address_of cluster_size (run ∷ runs) i =
    let rest = address_of cluster_size runs (i - run.length * cluster_size) in
    if ltb i (run.length * cluster_size)
    then elim run.lcn [ none ↦ none | some lcn ↦ some (lcn * cluster_size + i) ]
    else rest

abbrev pub stream_size : ℕ → List Run → ℕ
stream_size cluster_size [] = 0
stream_size cluster_size (run ∷ runs) = run.length * cluster_size + stream_size cluster_size runs

-- The address of a byte of the segments.
abbrev pub segment_address : List (ℕ × ℕ) → ℕ → Option ℕ
segment_address [] i = none
segment_address ((physical, taken) ∷ segments) i =
    let rest = segment_address segments (i - taken) in
    if ltb i taken then some (physical + i) else rest

abbrev pub segments_size : List (ℕ × ℕ) → ℕ
segments_size [] = 0
segments_size ((physical, taken) ∷ segments) = taken + segments_size segments

-- What the generator comes to, for bytes `from` on.
abbrev pub Located : ℕ → List Run → ℕ → ℕ → List (ℕ × ℕ) × Option StreamError → Type 0
Located cluster_size runs from length (segments, none) =
    (segments_size segments ≡ length)
    × ((i : ℕ) → i < length → segment_address segments i ≡ address_of cluster_size runs (from + i))
Located cluster_size runs from length (segments, some sparse_stream) =
    (i : ℕ) × (i ≤ length)
    × (from + i < stream_size cluster_size runs)
    × (address_of cluster_size runs (from + i) ≡ none)
Located cluster_size runs from length (segments, some too_short) =
    stream_size cluster_size runs < from + length
Located cluster_size runs from length (segments, some negative_range) = ⊥
Located cluster_size runs from length (segments, some short_write) = ⊥

module _ (cluster_size : ℕ) (run : Run) (runs : List Run) where
  -- A run before the bytes.
  Located-skipped :
      (from length : ℕ) (r : List (ℕ × ℕ) × Option StreamError)
      → run.length * cluster_size ≤ from
      → Located cluster_size runs (from - run.length * cluster_size) length r
      → Located cluster_size (run ∷ runs) from length r
  Located-skipped from length (segments, none) p (size, h) = (
    size,
    λ i q.
        let past : ltb (from + i) (run.length * cluster_size) ≡ false = ground (arith, p) in
        let same : from - run.length * cluster_size + i ≡ from + i - run.length * cluster_size =
          omega (arith, p) in
        h i q ∙ rw (past, same) refl,
  )
  Located-skipped from length (segments, some sparse_stream) p (i, q, inside, h) =
      let past : ltb (from + i) (run.length * cluster_size) ≡ false = ground (arith, p) in
      let same : from - run.length * cluster_size + i ≡ from + i - run.length * cluster_size =
        omega (arith, p) in
      (i, q, omega (arith, inside, p), rw past (rw same at h))
  Located-skipped from length (segments, some too_short) p h = omega (arith, h, p)
  Located-skipped from length (segments, some negative_range) p h = h
  Located-skipped from length (segments, some short_write) p h = h

  -- A run with the first of the bytes, up to its end.
  Located-taken :
      (lcn from length taken : ℕ) (r : List (ℕ × ℕ) × Option StreamError)
      → run.lcn ≡ some lcn
      → from + taken ≡ run.length * cluster_size
      → taken ≤ length
      → Located cluster_size runs 0 (length - taken) r
      → Located cluster_size
          (run ∷ runs)
          from
          length
          ((lcn * cluster_size + from, taken) ∷ r.0, r.1)
  Located-taken lcn from length taken (segments, none) e p q (size, h) = (
    omega (arith, size, q),
    λ i k. elim (Bool-cases (ltb i taken)) [
      | inl here ↦
          let inside : ltb (from + i) (run.length * cluster_size) ≡ true =
            ground (arith, here, p) in
          rw (here, inside, e) (ap some (omega arith))
      | inr later ↦
          let past : ltb (from + i) (run.length * cluster_size) ≡ false =
            ground (arith, later, p) in
          let same : 0 + (i - taken) ≡ from + i - run.length * cluster_size =
            ground (arith, later, p) in
          rw (later, past) (rw same at (h (i - taken) (ground (arith, later, k))))
    ],
  )
  Located-taken lcn from length taken (segments, some sparse_stream) e p q (i, k, inside, h) =
      let past : ltb (from + (taken + i)) (run.length * cluster_size) ≡ false = ground (arith, p) in
      let same : 0 + i ≡ from + (taken + i) - run.length * cluster_size = omega (arith, p) in
      (taken + i, omega (arith, k, q), omega (arith, inside, p), rw past (rw same at h))
  Located-taken lcn from length taken (segments, some too_short) e p q h = omega (arith, h, p, q)
  Located-taken lcn from length taken (segments, some negative_range) e p q h = h
  Located-taken lcn from length taken (segments, some short_write) e p q h = h

  -- A run with all of the bytes.
  Located-last :
      (lcn from length : ℕ)
      → run.lcn ≡ some lcn
      → from + length ≤ run.length * cluster_size
      → Located cluster_size
          (run ∷ runs)
          from
          length
          ((lcn * cluster_size + from, length) ∷ [], none)
  Located-last lcn from length e p = (
    omega arith,
    λ i k.
        let here : ltb i length ≡ true = ground (arith, k) in
        let inside : ltb (from + i) (run.length * cluster_size) ≡ true = ground (arith, k, p) in
        rw (here, inside, e) (ap some (omega arith)),
  )

  -- A run in which the bytes start.
  Located-here :
      (from length : ℕ) (lcn : Option ℕ) (later : List (ℕ × ℕ) × Option StreamError)
      → run.lcn ≡ lcn
      → from < run.length * cluster_size
      → (run.length * cluster_size - from ≤ length
          → Located cluster_size runs 0
              (length - min length (run.length * cluster_size - from))
              later)
      → Located cluster_size (run ∷ runs) from length (elim lcn [
        | none ↦ ([], some sparse_stream)
        | some lcn ↦
            let taken = min length (run.length * cluster_size - from) in
            let segment : ℕ × ℕ = (lcn * cluster_size + from, taken) in
            if length - taken == 0 then (segment ∷ [], none) else (segment ∷ later.0, later.1)
      ])
  Located-here from length none later e p rest =
      let inside : ltb (from + 0) (run.length * cluster_size) ≡ true = ground (arith, p) in
      let no_address : address_of cluster_size (run ∷ runs) (from + 0) ≡ none =
        rw (inside, e) refl in
      (0, omega arith, omega (arith, p), no_address)
  Located-here from length (some lcn) later e p rest =
      let taken = min length (run.length * cluster_size - from) in
      elim (Bool-cases (length - taken == 0)) [
        | inl all ↦
            let fits : from + length ≤ run.length * cluster_size = ground (arith, all, p) in
            let whole : taken ≡ length = omega (arith, fits) in
            let last = Located-last lcn from length e fits in rw (all, whole) last
        | inr more ↦
            let full : from + taken ≡ run.length * cluster_size = ground (arith, more, p) in
            let long : run.length * cluster_size - from ≤ length = ground (arith, more, p) in
            rw more (Located-taken lcn from length taken later e full (omega arith) (rest long))
      ]

Located-from :
    (cluster_size : ℕ) (runs : List Run) (from from' length : ℕ)
    (r : List (ℕ × ℕ) × Option StreamError)
    → from ≡ from'
    → Located cluster_size runs from length r
    → Located cluster_size runs from' length r
Located-from cluster_size runs from from' length r e h = rw e at h

segments_from-Located :
    (cluster_size : ℕ) (runs : List Run) (cursor wanted remaining : ℕ)
    → cursor ≤ wanted
    → Located cluster_size runs
        (wanted - cursor)
        remaining
        (segments_from cluster_size runs cursor wanted remaining)
unfolding segments_from
segments_from-Located cluster_size [] cursor wanted remaining p =
    elim (Bool-cases (remaining == 0)) [
      | inl z ↦
          let nothing : remaining ≡ 0 = ground (arith, z) in
          rw z (sym nothing, λ i k. absurd (omega (arith, k, nothing)))
      | inr some_bytes ↦ rw some_bytes (ground (arith, some_bytes))
    ]
segments_from-Located cluster_size (run ∷ runs) cursor wanted remaining p =
    let run_bytes = run.length * cluster_size in
    let from = wanted - cursor in
    let taken = min remaining (run_bytes - from) in
    let next = cursor + run_bytes in
    elim (Bool-cases (leb next wanted)) [
      | inl past ↦
          let rest =
            segments_from-Located cluster_size runs next wanted remaining (ground (arith, past)) in
          rw past (
            Located-skipped cluster_size run runs from remaining _ (ground (arith, past, p)) (
              Located-from cluster_size runs (wanted - next) (from - run_bytes) remaining _
                (omega arith) rest))
      | inr inside ↦
          let near : from < run_bytes = ground (arith, inside, p) in
          let later = segments_from cluster_size runs next (wanted + taken) (remaining - taken) in
          rw inside (
            Located-here cluster_size run runs from remaining run.lcn later refl near (λ long.
              Located-from cluster_size runs (wanted + taken - next) 0 (remaining - taken) later
                (omega (arith, long, near, p))
                (segments_from-Located cluster_size runs next (wanted + taken) (remaining - taken)
                  (omega (arith, long, near, p)))))
    ]

-- For an offset and a length of zero or more, the segments that _stream_segments yields name, byte
-- by byte and in order, the device addresses of the bytes of the stream from the offset on, as many
-- as the length; or it raises since the stream is shorter than the offset and the length together;
-- or it raises at a sparse run, and a byte of the stream, from the offset up to the byte just behind
-- the range, lies in such a run.
pub stream_segments-Located :
    (runs : List Run) (cluster_size offset length : ℕ)
    → Located cluster_size runs offset length
        (stream_segments runs cluster_size (pos offset) (pos length))
unfolding stream_segments
stream_segments-Located runs cluster_size offset length =
    Located-from cluster_size runs (offset - 0) offset length _ (omega arith)
      (segments_from-Located cluster_size runs 0 offset length (omega arith))
