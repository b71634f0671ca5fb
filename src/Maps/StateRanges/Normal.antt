-- ===== src/Maps/StateRanges/Normal.antt =====
-- What `_normalise_state_ranges` makes of its input, errors included.
use linux_defragger.Prelude.{
  ℕ, ◌+◌, ◌<◌, ◌≤◌, ◌≡◌, refl, ap, ◌∙◌, sym, ◌⊎◌, inl, inr, ◌&&◌, some, none, List, [], ◌∷◌, ◌==◌,
  leb, ltb, if◌then◌else◌, arith, Bool-cases, Option-cases, Result, ok, err, ◌>>=◌,
}
use linux_defragger.Prelude.Int.{ℤ, pos, negsuc}
use linux_defragger.Maps.StateRanges.{
  StateSpan, StateRange, StateError, invalid_state, overlapping, state_span_le, insert_state_span,
  sort_state_spans, clip, state_number, normalise_onto, normalise_sorted,
}
use linux_defragger.Maps.StateRanges.Counting.{AreOrdered, AreOrdered-weaken, range_state}

-- One for a unit of the span, and nothing for others.
abbrev pub inside : ℕ → ℕ → ℕ → ℕ
inside s e u = if leb s u && ltb u e then 1 else 0

-- How many spans of the device the unit is in.
abbrev pub uses : ℕ → ℕ → List StateSpan → ℕ
uses total u [] = 0
uses total u ((a, b, state) ∷ rs) = inside (clip total a) (clip total b) u + uses total u rs

-- A span of at least one unit of the device has a state that is none.
abbrev pub HasInvalid : ℕ → List StateSpan → Type 0
HasInvalid total [] = ⊥
HasInvalid total ((a, b, state) ∷ rs) =
    ((clip total a < clip total b) × (state_number state ≡ none)) ⊎ HasInvalid total rs

-- The spans of the unit all give it the state `v`.
abbrev pub AllGive : ℕ → ℕ → ℕ → List StateSpan → Type 0
AllGive total u v [] = Unit
AllGive total u v ((a, b, state) ∷ rs) =
    (inside (clip total a) (clip total b) u ≡ 1 → state_number state ≡ some v)
    × AllGive total u v rs

-- The spans start in order, from `lo` on.
abbrev StartInOrder : ℕ → ℕ → List StateSpan → Type 0
StartInOrder total lo [] = Unit
StartInOrder total lo ((a, b, state) ∷ rs) =
    (lo ≤ clip total a) × StartInOrder total (clip total a) rs

StartInOrder-weaken :
    (total lo lo' : ℕ) (rs : List StateSpan)
    → lo' ≤ lo
    → StartInOrder total lo rs
    → StartInOrder total lo' rs
StartInOrder-weaken total lo lo' [] p h = tt
StartInOrder-weaken total lo lo' ((a, b, state) ∷ rs) p (q, h) = (omega (arith, p, q), h)

StartInOrder-insert :
    (total lo : ℕ) (a b state : ℤ) (rs : List StateSpan)
    → lo ≤ clip total a
    → StartInOrder total lo rs
    → StartInOrder total lo (insert_state_span (a, b, state) rs)
unfolding insert_state_span state_span_le
StartInOrder-insert total lo a b state [] p h = (p, tt)
StartInOrder-insert total lo a b state ((c, d, k) ∷ rs) p (q, h) =
    elim (Bool-cases (state_span_le (a, b, state) (c, d, k))) [
      | inl before ↦
          let le : clip total a ≤ clip total c = ground (arith, before) in rw before (p, (le, h))
      | inr after ↦
          let le : clip total c ≤ clip total a = ground (arith, after) in
          rw after (q, StartInOrder-insert total (clip total c) a b state rs le h)
    ]

StartInOrder-sort : (total : ℕ) (rs : List StateSpan) → StartInOrder total 0 (sort_state_spans rs)
unfolding sort_state_spans
StartInOrder-sort total [] = tt
StartInOrder-sort total ((a, b, state) ∷ rs) =
    StartInOrder-insert total 0 a b state (sort_state_spans rs) (omega arith)
      (StartInOrder-sort total rs)

before-AllGive :
    (total u v lo : ℕ) (rs : List StateSpan)
    → u < lo
    → StartInOrder total lo rs
    → AllGive total u v rs
before-AllGive total u v lo [] p h = tt
before-AllGive total u v lo ((a, b, state) ∷ rs) p (q, h) =
    let out : inside (clip total a) (clip total b) u ≡ 0 = ground (arith, p, q) in
    (
      (λ i. absurd (omega (arith, i, out))),
      before-AllGive total u v (clip total a) rs (omega (arith, p, q)) h,
    )

same-AllGive :
    (total u v w : ℕ) (rs : List StateSpan) → v ≡ w → AllGive total u v rs → AllGive total u w rs
same-AllGive total u v w rs e h = rw e at h

-- The unit has the state of `(s, e, k)` or of the spans that are left, or it is unknown.
abbrev Settled : ℕ → ℕ → ℕ → ℕ → ℕ → List StateSpan → List StateRange → Type 0
Settled total u s e k rs ordered =
    (inside s e u ≡ 1 → range_state ordered u ≡ k)
    × AllGive total u (range_state ordered u) rs
    × (inside s e u ≡ 0 → uses total u rs ≡ 0 → range_state ordered u ≡ 2)

-- What the loop comes to from `(s, e, k)`.
abbrev Onto : ℕ → ℕ → ℕ → ℕ → List StateSpan → Result StateError (List StateRange) → Type 0
Onto total s e k rs (ok ordered) =
    AreOrdered s ordered × ((u : ℕ) → Settled total u s e k rs ordered)
Onto total s e k rs (err invalid_state) = HasInvalid total rs
Onto total s e k rs (err overlapping) = (u : ℕ) × (2 ≤ inside s e u + uses total u rs)

module _ (total : ℕ) (a b state : ℤ) (rs : List StateSpan) (s e k : ℕ) (nonempty : s < e)
    (valid : k < 4) where
  Onto-skipped :
      (r : Result StateError (List StateRange))
      → clip total b ≤ clip total a
      → Onto total s e k rs r
      → Onto total s e k ((a, b, state) ∷ rs) r
  Onto-skipped (ok ordered) p (o, h) = (
    o,
    λ u.
        let out : inside (clip total a) (clip total b) u ≡ 0 = ground (arith, p) in
        (
          (h u).0,
          ((λ q. absurd (omega (arith, q, out))), (h u).1),
          λ q t. (h u).2 q (omega (arith, t)),
        ),
  )
  Onto-skipped (err invalid_state) p h = inr h
  Onto-skipped (err overlapping) p (u, h) = (u, omega (arith, h))

  Onto-joined :
      (r : Result StateError (List StateRange))
      → clip total a ≡ e
      → clip total a < clip total b
      → state_number state ≡ some k
      → Onto total s (clip total b) k rs r
      → Onto total s e k ((a, b, state) ∷ rs) r
  Onto-joined (ok ordered) p q same (o, h) = (
    o,
    λ u.
        let (x, y, z) = h u in
        (
          λ i. x (ground (arith, i, p, q, nonempty)),
          ((λ i. same ∙ ap some (sym (x (ground (arith, i, p, q, nonempty))))), y),
          λ i t. z (ground (arith, i, t, p, q, nonempty)) (omega (arith, t)),
        ),
  )
  Onto-joined (err invalid_state) p q same h = inr h
  Onto-joined (err overlapping) p q same (u, h) =
      let le : inside s (clip total b) u ≤ inside s e u + inside (clip total a) (clip total b) u =
        ground (arith, p, q, nonempty) in
      (u, omega (arith, h, le))

  Onto-appended :
      (r : Result StateError (List StateRange)) (n : ℕ)
      → e ≤ clip total a
      → state_number state ≡ some n
      → StartInOrder total (clip total a) rs
      → Onto total (clip total a) (clip total b) n rs r
      → Onto total s e k ((a, b, state) ∷ rs) (r >>= λ rest. ok ((s, e, k) ∷ rest))
  Onto-appended (ok ordered) n p same starts (o, h) = (
    (omega arith, nonempty, valid, AreOrdered-weaken (clip total a) e ordered p o),
    λ u.
        let (x, y, z) = h u in
        elim (Bool-cases (leb s u && ltb u e)) [
          | inl here ↦
              let before : u < clip total a = ground (arith, here, p) in
              let out : inside (clip total a) (clip total b) u ≡ 0 = ground (arith, before) in
              rw here (
                (λ i. refl),
                (
                  (λ i. absurd (omega (arith, i, out))),
                  before-AllGive total u (range_state ((s, e, k) ∷ ordered) u) (clip total a) rs
                      before starts,
                ),
                λ i. absurd (omega (arith, i)),
              )
          | inr elsewhere ↦
              let later : range_state ordered u ≡ range_state ((s, e, k) ∷ ordered) u =
                rw elsewhere refl in
              rw elsewhere (
                (λ i. absurd (omega (arith, i))),
                ((λ i. same ∙ ap some (sym (x i))), same-AllGive total u _ _ rs later y),
                λ i t. z (omega (arith, t)) (omega (arith, t)),
              )
        ],
  )
  Onto-appended (err invalid_state) n p same starts h = inr h
  Onto-appended (err overlapping) n p same starts (u, h) = (u, omega (arith, h))

state_number-lt : (state : ℤ) (n : ℕ) → state_number state ≡ some n → n < 4
state_number-lt (pos i) n h = ground arith
state_number-lt (negsuc i) n h = ground arith

-- What `_normalise_state_ranges` comes to: each unit has the state that its spans give it, or a state
-- is invalid, or two spans share a unit.
abbrev pub Judged : ℕ → List StateSpan → Result StateError (List StateRange) → Type 0
Judged total rs (ok ordered) =
    AreOrdered 0 ordered
    × ((u : ℕ)
        → AllGive total u (range_state ordered u) rs
          × (uses total u rs ≡ 0 → range_state ordered u ≡ 2))
Judged total rs (err invalid_state) = HasInvalid total rs
Judged total rs (err overlapping) = (u : ℕ) × (2 ≤ uses total u rs)

Judged-first :
    (total : ℕ) (a b state : ℤ) (rs : List StateSpan) (n : ℕ)
    (r : Result StateError (List StateRange))
    → state_number state ≡ some n
    → Onto total (clip total a) (clip total b) n rs r
    → Judged total ((a, b, state) ∷ rs) r
Judged-first total a b state rs n (ok ordered) is_n (o, h) = (
  AreOrdered-weaken (clip total a) 0 ordered (omega arith) o,
  λ u.
      let (x, y, z) = h u in
      (((λ i. is_n ∙ ap some (sym (x i))), y), λ t. z (omega (arith, t)) (omega (arith, t))),
)
Judged-first total a b state rs n (err invalid_state) is_n h = inr h
Judged-first total a b state rs n (err overlapping) is_n h = h

Judged-skipped :
    (total : ℕ) (a b state : ℤ) (rs : List StateSpan) (r : Result StateError (List StateRange))
    → clip total b ≤ clip total a
    → Judged total rs r
    → Judged total ((a, b, state) ∷ rs) r
Judged-skipped total a b state rs (ok ordered) p (o, h) = (
  o,
  λ u.
      let out : inside (clip total a) (clip total b) u ≡ 0 = ground (arith, p) in
      (((λ i. absurd (omega (arith, i, out))), (h u).0), λ t. (h u).1 (omega (arith, t))),
)
Judged-skipped total a b state rs (err invalid_state) p h = inr h
Judged-skipped total a b state rs (err overlapping) p (u, h) = (u, omega (arith, h))

module _ (total : ℕ) where
  normalise_onto-Onto :
      (s e k : ℕ) (rs : List StateSpan)
      → s < e
      → k < 4
      → StartInOrder total s rs
      → Onto total s e k rs (normalise_onto total s e k rs)
  unfolding normalise_onto
  normalise_onto-Onto s e k [] p q h =
      ((omega arith, p, q, tt), λ u. ((λ i. ground (arith, i)), tt, λ i t. ground (arith, i)))
  normalise_onto-Onto s e k ((a, b, state) ∷ rs) p q (starts, h) =
      elim (Bool-cases (leb (clip total b) (clip total a))) [
        | inl empty ↦ rw empty (
            Onto-skipped total a b state rs s e k p q _ (ground (arith, empty)) (
              normalise_onto-Onto s e k rs p q
                (StartInOrder-weaken total (clip total a) s rs starts h)))
        | inr some_units ↦
            let less : clip total a < clip total b = ground (arith, some_units) in
            elim (Option-cases (state_number state)) [
              | inl invalid ↦ rw (some_units, invalid) (inl (less, invalid))
              | inr (n, is_n) ↦ elim (Bool-cases (ltb (clip total a) e)) [
                | inl overlaps ↦
                    let both : 2
                        ≤ inside s e (clip total a)
                          + (inside (clip total a) (clip total b) (clip total a)
                              + uses total (clip total a) rs) =
                      ground (arith, overlaps, starts, less) in
                    rw (some_units, is_n, overlaps) (clip total a, both)
                | inr apart ↦
                    let after : e ≤ clip total a = ground (arith, apart) in
                    elim (Bool-cases (clip total a == e && n == k)) [
                      | inl joins ↦
                          let at_end : clip total a ≡ e = ground (arith, joins) in
                          let same : n ≡ k = ground (arith, joins) in
                          rw (some_units, is_n, apart, joins)
                            (Onto-joined total a b state rs s e k p q _ at_end less
                              (rw same at is_n)
                              (normalise_onto-Onto s (clip total b) k rs
                                (omega (arith, starts, less)) q
                                (StartInOrder-weaken total (clip total a) s rs starts h)))
                      | inr appends ↦
                          rw (some_units, is_n, apart, appends)
                            (Onto-appended total a b state rs s e k p q _ n after is_n h (
                              normalise_onto-Onto (clip total a) (clip total b) n rs less
                                (state_number-lt state n is_n) h))
                    ]
              ]
            ]
      ]

  normalise_sorted-Judged :
      (lo : ℕ) (rs : List StateSpan)
      → StartInOrder total lo rs
      → Judged total rs (normalise_sorted total rs)
  unfolding normalise_sorted
  normalise_sorted-Judged lo [] h = (tt, λ u. (tt, λ t. refl))
  normalise_sorted-Judged lo ((a, b, state) ∷ rs) (starts, h) =
      elim (Bool-cases (leb (clip total b) (clip total a))) [
        | inl empty ↦ rw empty (
            Judged-skipped total a b state rs _ (ground (arith, empty))
              (normalise_sorted-Judged (clip total a) rs h))
        | inr some_units ↦
            let less : clip total a < clip total b = ground (arith, some_units) in
            elim (Option-cases (state_number state)) [
              | inl invalid ↦ rw (some_units, invalid) (inl (less, invalid))
              | inr (n, is_n) ↦
                  rw (some_units, is_n)
                    (Judged-first total a b state rs n _ is_n (
                      normalise_onto-Onto (clip total a) (clip total b) n rs less
                        (state_number-lt state n is_n) h))
            ]
      ]

  pub normalise_sort-Judged :
      (rs : List StateSpan)
      → Judged total (sort_state_spans rs) (normalise_sorted total (sort_state_spans rs))
  normalise_sort-Judged rs =
      normalise_sorted-Judged 0 (sort_state_spans rs) (StartInOrder-sort total rs)
