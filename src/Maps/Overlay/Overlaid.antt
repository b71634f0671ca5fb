-- ===== src/Maps/Overlay/Overlaid.antt =====
-- What `overlay_ranges` writes and returns.
use linux_defragger.Prelude.{
  ℕ, zero, suc, ◌+◌, ◌-◌, ◌≤◌, ◌≡◌, refl, ap, ◌∙◌, sym, inl, inr, min, max, Bool, false, ◌&&◌, ◌||◌,
  List, [], ◌∷◌, leb, ltb, arith, Bool-cases, map,
}
use linux_defragger.Ranges.{Span, Range, merge_ranges}
use linux_defragger.Ranges.Cover.{
  covers, in_spans, IsSeparated, covers-merge_ranges, merge_ranges-IsSeparated,
}
use linux_defragger.Ranges.Canonical.{covers_below}
use linux_defragger.Maps.{Cell}
use linux_defragger.Maps.Tally.{tally, tally-ext, tally_none}
use linux_defragger.Maps.Overlay.{
  Field, set_field, total_length, skip_merged, overlap_from, overlay_cells, overlay_ranges,
}

tally_apart :
    (p q : ℕ → Bool) (lo n : ℕ)
    → ((u : ℕ) → (p u && q u) ≡ false)
    → tally (λ u. p u || q u) lo n ≡ tally p lo n + tally q lo n
tally_apart p q lo zero h = refl
tally_apart p q lo (suc n) h = ground (arith, tally_apart p q (lo + 1) n h, h lo)

tally_span : (s e lo n : ℕ) → tally (λ u. leb s u && ltb u e) lo n ≡ min (lo + n) e - max lo s
tally_span s e lo zero = omega arith
tally_span s e lo (suc n) = ground (arith, tally_span s e (lo + 1) n)

covers_apart :
    (s e u lo : ℕ) (rs : List Range)
    → e ≤ lo
    → IsSeparated lo rs
    → ((leb s u && ltb u e) && covers rs u) ≡ false
covers_apart s e u lo rs p h = ground (arith, covers_below lo u rs h)

-- The units of a span that the first range holds, and those that the others hold.
tally-covers :
    (s e lo n : ℕ) (rs : List Range)
    → IsSeparated (e + 1) rs
    → tally (covers ((s, e) ∷ rs)) lo n ≡ (min (lo + n) e - max lo s) + tally (covers rs) lo n
tally-covers s e lo n rs h =
    tally_apart (λ u. leb s u && ltb u e) (covers rs) lo n
      (λ u. covers_apart s e u (e + 1) rs (omega arith) h)
    ∙ ap (λ k. k + tally (covers rs) lo n) (tally_span s e lo n)

overlap_from-tally :
    (start end' lo : ℕ) (rs : List Range)
    → start ≤ end'
    → IsSeparated lo rs
    → overlap_from start end' rs ≡ tally (covers rs) start (end' - start)
unfolding overlap_from
overlap_from-tally start end' lo [] p h =
    sym (tally_none (λ u. false) start (end' - start) (λ u a b. refl))
overlap_from-tally start end' lo ((s, e) ∷ rs) p (q, r, h) =
    let none_below : end' ≤ e + 1 → tally (covers rs) start (end' - start) ≡ 0 = λ k.
      tally_none (covers rs) start (end' - start)
        (λ u a b. covers_below (e + 1) u rs h (omega (arith, b, k, p))) in
    let same : start + (end' - start) ≡ end' = omega (arith, p) in
    let sum = tally-covers s e start (end' - start) rs h in
    let rest = overlap_from-tally start end' (e + 1) rs p h in
    ground (arith, sum, same, rest, none_below)

total_length-tally :
    (lo hi : ℕ) (rs : List Range)
    → IsSeparated lo rs
    → ((u : ℕ) → hi ≤ u → covers rs u ≡ false)
    → total_length rs ≡ tally (covers rs) 0 hi
unfolding total_length
total_length-tally lo hi [] h k = sym (tally_none (λ u. false) 0 hi (λ u a b. refl))
total_length-tally lo hi ((s, e) ∷ rs) (q, r, h) k =
    let rest = total_length-tally (e + 1) hi rs h (λ u a. ground (arith, k u, a)) in
    let inside : e ≤ hi = ground (arith, k (e - 1), q, r) in
    let sum = tally-covers s e 0 hi rs h in omega (arith, sum, rest, inside, r)

skip_merged-covers :
    (start lo : ℕ) (rs : List Range)
    → IsSeparated lo rs
    → IsSeparated 0 (skip_merged start rs)
      × ((u : ℕ) → start ≤ u → covers (skip_merged start rs) u ≡ covers rs u)
unfolding skip_merged
skip_merged-covers start lo [] h = (tt, λ u a. refl)
skip_merged-covers start lo ((s, e) ∷ rs) (q, r, h) = elim (Bool-cases (leb e start)) [
  | inl past ↦
      let (x, y) = skip_merged-covers start (e + 1) rs h in
      rw past (x, λ u a. ground (arith, y u a, a, past))
  | inr here ↦ rw here ((omega arith, r, h), λ u a. refl)
]

-- The cells start in order, from `lo` on, and none ends before it starts.
abbrev pub CellsInOrder : ℕ → List Cell → Type 0
CellsInOrder lo [] = Unit
CellsInOrder lo (c ∷ cells) = (lo ≤ c.start) × (c.start ≤ c.last + 1) × CellsInOrder c.start cells

-- A cell with the number of its units that pass, but no more than are in use.
abbrev pub overlaid : Field → (ℕ → Bool) → Cell → Cell
overlaid field test c = set_field field (min c.used (tally test c.start (c.last + 1 - c.start))) c

overlay_cells-map :
    (field : Field) (test : ℕ → Bool) (lo : ℕ) (merged : List Range) (cells : List Cell)
    → IsSeparated 0 merged
    → ((u : ℕ) → lo ≤ u → covers merged u ≡ test u)
    → CellsInOrder lo cells
    → overlay_cells field merged cells ≡ map (overlaid field test) cells
unfolding overlay_cells
overlay_cells-map field test lo merged [] s h o = refl
overlay_cells-map field test lo merged (c ∷ cells) s h (p, q, o) =
    let (s', h') = skip_merged-covers c.start 0 merged s in
    let same : (u : ℕ) → c.start ≤ u → covers (skip_merged c.start merged) u ≡ test u =
      λ u a. h' u a ∙ h u (omega (arith, a, p)) in
    let counted = overlap_from-tally c.start (c.last + 1) 0 (skip_merged c.start merged) q s' in
    let units =
      tally-ext (covers (skip_merged c.start merged)) test c.start (c.last + 1 - c.start)
        (λ u a b. same u a) in
    let rest = overlay_cells-map field test c.start (skip_merged c.start merged) cells s' same o in
    rw (counted, units, rest) refl

-- For cells that start in order and do not end before they start, and ranges with no unit from `hi`
-- on: overlay_ranges sets the field of each cell to the number of its units that lie in a range, but
-- at most to its used units, changes nothing else, and returns the number of units below `hi` that
-- lie in a range.
pub overlay_ranges-map :
    (field : Field) (cells : List Cell) (ranges : List Span) (hi : ℕ)
    → CellsInOrder 0 cells
    → ((u : ℕ) → hi ≤ u → in_spans u ranges ≡ false)
    → overlay_ranges field cells ranges
      ≡ (map (overlaid field (λ u. in_spans u ranges)) cells, tally (λ u. in_spans u ranges) 0 hi)
unfolding overlay_ranges
overlay_ranges-map field cells ranges hi o bound =
    let separated = merge_ranges-IsSeparated ranges in
    let same = covers-merge_ranges ranges in
    let written =
      overlay_cells-map field (λ u. in_spans u ranges) 0 (merge_ranges ranges) cells separated
        (λ u a. same u) o in
    let counted =
      total_length-tally 0 hi (merge_ranges ranges) separated (λ u a. same u ∙ bound u a) in
    rw
      (
        written,
        counted,
        tally-ext (covers (merge_ranges ranges)) (λ u. in_spans u ranges) 0 hi (λ u a b. same u),
      )
      refl
