-- ===== src/Ranges/Cover.antt =====
-- Which allocation units a list of ranges covers, and the loop of `merge_ranges`.
use linux_defragger.Prelude.{
  ℕ, ◌+◌, ◌≤◌, ◌<◌, max, ◌≡◌, refl, ap, ◌∙◌, Bool, true, false, ◌&&◌, ◌||◌, List, [], ◌∷◌, ltb, leb,
  arith, Bool-cases, inl, inr,
}
use linux_defragger.Prelude.Int.{ℤ, pos, negsuc, ◌≤ℤ◌}
use linux_defragger.Ranges.{
  Span, Range, span_le, insert_span, sorted, merge_onto, merge_sorted, merge_ranges,
}

-- A unit of a range that is passed in: a range with a negative start counts for nothing.
abbrev pub in_span : ℕ → Span → Bool
in_span u (pos s, pos e) = leb s u && ltb u e
in_span u (pos s, negsuc e) = false
in_span u (negsuc s, e) = false

abbrev pub in_spans : ℕ → List Span → Bool
in_spans u [] = false
in_spans u (r ∷ rs) = in_span u r || in_spans u rs

abbrev pub covers : List Range → ℕ → Bool
covers [] u = false
covers ((s, e) ∷ rs) u = (leb s u && ltb u e) || covers rs u

-- Every start is at least `lo`.
abbrev pub StartsFrom : ℤ → List Span → Type 0
StartsFrom lo [] = Unit
StartsFrom lo ((s, e) ∷ rs) = (lo ≤ℤ s) × StartsFrom lo rs

abbrev pub IsSorted : List Span → Type 0
IsSorted [] = Unit
IsSorted ((s, e) ∷ rs) = StartsFrom s rs × IsSorted rs

-- Non-empty ranges from `lo` on, in order, with a gap after each.
abbrev pub IsSeparated : ℕ → List Range → Type 0
IsSeparated lo [] = Unit
IsSeparated lo ((s, e) ∷ rs) = (lo ≤ s) × (s < e) × IsSeparated (e + 1) rs

in_spans-insert_span :
    (u : ℕ) (r : Span) (rs : List Span)
    → in_spans u (insert_span r rs) ≡ (in_span u r || in_spans u rs)
unfolding insert_span
in_spans-insert_span u r [] = refl
in_spans-insert_span u r (s ∷ rs) = ground (arith, in_spans-insert_span u r rs)

in_spans-sorted : (u : ℕ) (rs : List Span) → in_spans u (sorted rs) ≡ in_spans u rs
unfolding sorted
in_spans-sorted u [] = refl
in_spans-sorted u (r ∷ rs) =
    in_spans-insert_span u r (sorted rs) ∙ ap (λ b. in_span u r || b) (in_spans-sorted u rs)

StartsFrom-trans : (lo mid : ℤ) (rs : List Span) → lo ≤ℤ mid → StartsFrom mid rs → StartsFrom lo rs
StartsFrom-trans lo mid [] h k = tt
StartsFrom-trans lo mid ((s, e) ∷ rs) h k = (omega arith, StartsFrom-trans lo mid rs h k.1)

StartsFrom-insert_span :
    (lo : ℤ) (r : Span) (rs : List Span)
    → lo ≤ℤ r.0
    → StartsFrom lo rs
    → StartsFrom lo (insert_span r rs)
unfolding insert_span
StartsFrom-insert_span lo r [] h k = (h, tt)
StartsFrom-insert_span lo r (s ∷ rs) h k = ground (arith, StartsFrom-insert_span lo r rs h k.1)

span_le-start : (r s : Span) → span_le r s ≡ true → r.0 ≤ℤ s.0
unfolding span_le
span_le-start (a, b) (c, d) h = ground arith

span_le-start_false : (r s : Span) → span_le r s ≡ false → s.0 ≤ℤ r.0
unfolding span_le
span_le-start_false (a, b) (c, d) h = ground arith

insert_span-IsSorted : (r : Span) (rs : List Span) → IsSorted rs → IsSorted (insert_span r rs)
unfolding insert_span
insert_span-IsSorted r [] h = (tt, tt)
insert_span-IsSorted r (s ∷ rs) h = elim (Bool-cases (span_le r s)) [
  | inl e ↦
      let below = span_le-start r s e in rw e ((below, StartsFrom-trans r.0 s.0 rs below h.0), h)
  | inr e ↦ rw e (
    StartsFrom-insert_span s.0 r rs (span_le-start_false r s e) h.0,
    insert_span-IsSorted r rs h.1,
  )
]

sorted-IsSorted : (rs : List Span) → IsSorted (sorted rs)
unfolding sorted
sorted-IsSorted [] = tt
sorted-IsSorted (r ∷ rs) = insert_span-IsSorted r (sorted rs) (sorted-IsSorted rs)

covers-merge_onto :
    (u s e : ℕ) (rs : List Span)
    → StartsFrom (pos s) rs
    → IsSorted rs
    → covers (merge_onto s e rs) u ≡ ((leb s u && ltb u e) || in_spans u rs)
unfolding merge_onto
covers-merge_onto u s e [] h k = refl
covers-merge_onto u s e ((negsuc a, b) ∷ rs) h k = covers-merge_onto u s e rs h.1 k.1
covers-merge_onto u s e ((pos a, negsuc b) ∷ rs) h k = covers-merge_onto u s e rs h.1 k.1
covers-merge_onto u s e ((pos a, pos b) ∷ rs) h k = ground (
  arith,
  covers-merge_onto u s e rs h.1 k.1,
  covers-merge_onto u s (max e b) rs h.1 k.1,
  covers-merge_onto u a b rs k.0 k.1,
)

covers-merge_sorted :
    (u : ℕ) (rs : List Span) → IsSorted rs → covers (merge_sorted rs) u ≡ in_spans u rs
unfolding merge_sorted
covers-merge_sorted u [] k = refl
covers-merge_sorted u ((negsuc a, b) ∷ rs) k = covers-merge_sorted u rs k.1
covers-merge_sorted u ((pos a, negsuc b) ∷ rs) k = covers-merge_sorted u rs k.1
covers-merge_sorted u ((pos a, pos b) ∷ rs) k =
    ground (arith, covers-merge_sorted u rs k.1, covers-merge_onto u a b rs k.0 k.1)

merge_onto-IsSeparated :
    (lo s e : ℕ) (rs : List Span)
    → lo ≤ s
    → s < e
    → StartsFrom (pos s) rs
    → IsSorted rs
    → IsSeparated lo (merge_onto s e rs)
unfolding merge_onto
merge_onto-IsSeparated lo s e [] p q h k = (p, q, tt)
merge_onto-IsSeparated lo s e ((negsuc a, b) ∷ rs) p q h k =
    merge_onto-IsSeparated lo s e rs p q h.1 k.1
merge_onto-IsSeparated lo s e ((pos a, negsuc b) ∷ rs) p q h k =
    merge_onto-IsSeparated lo s e rs p q h.1 k.1
merge_onto-IsSeparated lo s e ((pos a, pos b) ∷ rs) p q h k = ground (
  arith,
  merge_onto-IsSeparated lo s e rs p q h.1 k.1,
  merge_onto-IsSeparated lo s (max e b) rs p (omega arith) h.1 k.1,
  λ (x : e + 1 ≤ a) (y : a < b). merge_onto-IsSeparated (e + 1) a b rs x y k.0 k.1,
)

merge_sorted-IsSeparated : (rs : List Span) → IsSorted rs → IsSeparated 0 (merge_sorted rs)
unfolding merge_sorted
merge_sorted-IsSeparated [] k = tt
merge_sorted-IsSeparated ((negsuc a, b) ∷ rs) k = merge_sorted-IsSeparated rs k.1
merge_sorted-IsSeparated ((pos a, negsuc b) ∷ rs) k = merge_sorted-IsSeparated rs k.1
merge_sorted-IsSeparated ((pos a, pos b) ∷ rs) k = ground (
  arith,
  merge_sorted-IsSeparated rs k.1,
  λ (y : a < b). merge_onto-IsSeparated 0 a b rs (omega arith) y k.0 k.1,
)

-- The merged ranges cover exactly the units of the ranges passed in that start at zero or above.
pub covers-merge_ranges : (rs : List Span) (u : ℕ) → covers (merge_ranges rs) u ≡ in_spans u rs
unfolding merge_ranges
covers-merge_ranges rs u =
    covers-merge_sorted u (sorted rs) (sorted-IsSorted rs) ∙ in_spans-sorted u rs

-- The merged ranges are non-empty and in order, and no two of them overlap or touch.
pub merge_ranges-IsSeparated : (rs : List Span) → IsSeparated 0 (merge_ranges rs)
unfolding merge_ranges
merge_ranges-IsSeparated rs = merge_sorted-IsSeparated (sorted rs) (sorted-IsSorted rs)
