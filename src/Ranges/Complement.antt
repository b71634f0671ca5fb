-- ===== src/Ranges/Complement.antt =====
-- The loop of `complement_ranges`.
use mathlib.Core.Bool.{not}
use linux_defragger.Prelude.{
  ℕ, ◌+◌, ◌≤◌, ◌<◌, min, max, ◌≡◌, refl, ◌∙◌, ◌&&◌, List, [], ◌∷◌, ltb, leb, if◌then◌else◌, arith,
  ok, Bool-cases, inl, inr, tests,
}
use linux_defragger.Prelude.Int.{pos}
use linux_defragger.Ranges.{Span, Range, merge_ranges, gaps_from, complement_ranges}
use linux_defragger.Ranges.Cover.{
  in_spans, covers, IsSeparated, covers-merge_ranges, merge_ranges-IsSeparated,
}
use linux_defragger.Ranges.Canonical.{covers_below}

IsSeparated-weaken :
    (lo mid : ℕ) (rs : List Range) → lo ≤ mid → IsSeparated mid rs → IsSeparated lo rs
IsSeparated-weaken lo mid [] h k = tt
IsSeparated-weaken lo mid ((s, e) ∷ rs) h k = (omega arith, k.1, k.2)

-- From `cursor` on, and below `total`, the gaps are what the ranges leave.
covers-gaps_from :
    (total cursor lo u : ℕ) (rs : List Range)
    → IsSeparated lo rs
    → cursor ≤ lo
    → covers (gaps_from total cursor rs) u ≡ (leb cursor u && ltb u total && not (covers rs u))
unfolding gaps_from
covers-gaps_from total cursor lo u [] h k = ground arith
covers-gaps_from total cursor lo u ((s, e) ∷ rs) h k =
    let next = max cursor (min total e) in
    let ih = covers-gaps_from total next (e + 1) u rs h.2 (omega arith) in
    let after : covers (if leb total next then [] else gaps_from total next rs) u
        ≡ (leb next u && ltb u total && not (covers rs u)) =
      elim (Bool-cases (leb total next)) [ inl t ↦ rw t (ground arith) | inr t ↦ rw t ih ] in
    elim (Bool-cases (ltb cursor (min total s))) [
      | inl t ↦ rw (t, after) (ground (arith, covers_below (e + 1) u rs h.2))
      | inr t ↦ rw (t, after) (ground (arith, covers_below (e + 1) u rs h.2))
    ]

gaps_from-IsSeparated :
    (total cursor lo : ℕ) (rs : List Range)
    → IsSeparated lo rs
    → cursor ≤ lo
    → IsSeparated cursor (gaps_from total cursor rs)
unfolding gaps_from
gaps_from-IsSeparated total cursor lo [] h k = ground arith
gaps_from-IsSeparated total cursor lo ((s, e) ∷ rs) h k =
    let next = max cursor (min total e) in
    let ih = gaps_from-IsSeparated total next (e + 1) rs h.2 (omega arith) in
    let after : (b : ℕ)
        → (next < total → b ≤ next)
        → IsSeparated b (if leb total next then [] else gaps_from total next rs) =
      λ b bn. elim (Bool-cases (leb total next)) [
        | inl t ↦ rw t tt
        | inr t ↦ rw t (IsSeparated-weaken b next (gaps_from total next rs) (bn (ground arith)) ih)
      ] in
    elim (Bool-cases (ltb cursor (min total s))) [
      | inl t ↦ rw t (omega arith, omega tests, after (min total s + 1) (λ room. omega tests))
      | inr t ↦ rw t (after cursor (λ _. omega arith))
    ]

-- For every count of zero or more complement_ranges returns; the gaps are non-empty, in order and
-- apart from one another, and they cover a unit exactly if it is below the count and in none of the
-- ranges passed in.
pub complement_ranges-covers :
    (total : ℕ) (rs : List Span)
    → (gaps : List Range) × (complement_ranges (pos total) rs ≡ ok gaps)
      × IsSeparated 0 gaps
      × ((u : ℕ) → covers gaps u ≡ (ltb u total && not (in_spans u rs)))
unfolding complement_ranges
complement_ranges-covers total rs =
    let sep = merge_ranges-IsSeparated rs in
    (
      gaps_from total 0 (merge_ranges rs),
      refl,
      gaps_from-IsSeparated total 0 0 (merge_ranges rs) sep (omega arith),
      λ u.
          covers-gaps_from total 0 0 u (merge_ranges rs) sep (omega arith)
          ∙ rw (covers-merge_ranges rs u) (ground arith),
    )
