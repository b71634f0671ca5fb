-- ===== src/Ranges/Canonical.antt =====
-- Separated ranges as a canonical form of a set of units.
use linux_defragger.Prelude.{ℕ, ◌+◌, ◌≤◌, ◌<◌, ◌≡◌, refl, ap, ◌∙◌, sym, false, List, [], ◌∷◌, arith}
use linux_defragger.Ranges.{Span, Range, merge_ranges}
use linux_defragger.Ranges.Cover.{
  in_spans, covers, IsSeparated, covers-merge_ranges, merge_ranges-IsSeparated,
}

-- Nothing below the lower bound is covered.
pub covers_below : (lo u : ℕ) (rs : List Range) → IsSeparated lo rs → u < lo → covers rs u ≡ false
covers_below lo u [] h k = refl
covers_below lo u ((s, e) ∷ rs) h k = ground (arith, covers_below (e + 1) u rs h.2 (omega arith))

-- The first range of a list is fixed by what the list covers.
first_start :
    (lo s e s' e' : ℕ) (rs rs' : List Range)
    → IsSeparated lo ((s, e) ∷ rs)
    → IsSeparated lo ((s', e') ∷ rs')
    → covers ((s, e) ∷ rs) s ≡ covers ((s', e') ∷ rs') s
    → s' ≤ s
first_start lo s e s' e' rs rs' h h' k = ground (arith, covers_below (e' + 1) s rs' h'.2)

first_end :
    (lo s e e' : ℕ) (rs rs' : List Range)
    → IsSeparated lo ((s, e) ∷ rs)
    → IsSeparated lo ((s, e') ∷ rs')
    → covers ((s, e) ∷ rs) e ≡ covers ((s, e') ∷ rs') e
    → e' ≤ e
first_end lo s e e' rs rs' h h' k = ground (arith, covers_below (e + 1) e rs h.2)

rest_covers :
    (lo s e : ℕ) (rs rs' : List Range)
    → IsSeparated lo ((s, e) ∷ rs)
    → IsSeparated lo ((s, e) ∷ rs')
    → (u : ℕ) → covers ((s, e) ∷ rs) u ≡ covers ((s, e) ∷ rs') u
    → covers rs u ≡ covers rs' u
rest_covers lo s e rs rs' h h' u k =
    ground (arith, covers_below (e + 1) u rs h.2, covers_below (e + 1) u rs' h'.2)

pub separated_ext :
    (lo : ℕ) (xs ys : List Range)
    → IsSeparated lo xs
    → IsSeparated lo ys
    → ((u : ℕ) → covers xs u ≡ covers ys u)
    → xs ≡ ys
separated_ext lo [] [] h h' k = refl
separated_ext lo [] ((s, e) ∷ ys) h h' k = ground (arith, k s)
separated_ext lo ((s, e) ∷ xs) [] h h' k = ground (arith, k s)
separated_ext lo ((s, e) ∷ xs) ((s', e') ∷ ys) h h' k =
    let starts : s' ≡ s = omega (
      arith,
      first_start lo s e s' e' xs ys h h' (k s),
      first_start lo s' e' s e ys xs h' h (sym (k s')),
    ) in
    let g : IsSeparated lo ((s, e') ∷ ys) = rw starts at h' in
    let j : (u : ℕ) → covers ((s, e) ∷ xs) u ≡ covers ((s, e') ∷ ys) u = rw starts at k in
    let ends : e' ≡ e =
      omega
        (arith, first_end lo s e e' xs ys h g (j e), first_end lo s e' e ys xs g h (sym (j e'))) in
    let g' : IsSeparated lo ((s, e) ∷ ys) = rw ends at g in
    let j' : (u : ℕ) → covers ((s, e) ∷ xs) u ≡ covers ((s, e) ∷ ys) u = rw ends at j in
    rw (starts, ends)
      (ap (λ r. (s, e) ∷ r)
        (separated_ext (e + 1) xs ys h.2 g'.2 (λ u. rest_covers lo s e xs ys h g' u (j' u))))

-- Two collections of ranges that cover the same units merge to the same list.
pub merge_ranges-canonical :
    (rs rs' : List Span)
    → ((u : ℕ) → in_spans u rs ≡ in_spans u rs')
    → merge_ranges rs ≡ merge_ranges rs'
merge_ranges-canonical rs rs' h =
    separated_ext 0 (merge_ranges rs) (merge_ranges rs') (merge_ranges-IsSeparated rs)
      (merge_ranges-IsSeparated rs')
      (λ u. covers-merge_ranges rs u ∙ h u ∙ sym (covers-merge_ranges rs' u))
