-- ===== src/Maps/StateRanges/Counting.antt =====
-- The counts of a cell from ranges in order.
use linux_defragger.Prelude.{
  ℕ, ◌+◌, ◌-◌, ◌<◌, ◌≤◌, ◌≡◌, refl, ◌∙◌, sym, inl, inr, min, max, true, false, ◌&&◌, List, [], ◌∷◌,
  leb, ltb, if◌then◌else◌, arith, Bool-cases,
}
use linux_defragger.Maps.{
  Counts, no_counts, count_in, clamped_cells, cell_bounds, fill_cells, new_map_result,
}
use linux_defragger.Maps.Cells.{
  CountsFor, IsMap, cell_bounds-Chain, fill_cells-AreCells, new_map_result-IsMap,
}
use linux_defragger.Maps.Grows.{Grows, Grows-CountsFor, Grows-none, Grows-append, count_in-Grows}
use linux_defragger.Maps.StateRanges.{
  StateRange, skip_before, count_ranges, count_tail, ranges_cell,
}

-- Ranges from `lo` on, none empty, in order and apart, with states from 0 to 3.
abbrev pub AreOrdered : ℕ → List StateRange → Type 0
AreOrdered lo [] = Unit
AreOrdered lo ((s, e, k) ∷ rs) = (lo ≤ s) × (s < e) × (k < 4) × AreOrdered e rs

-- The state that the ranges give a unit; a unit in none is unknown.
abbrev pub range_state : List StateRange → ℕ → ℕ
range_state [] u = 2
range_state ((s, e, k) ∷ rs) u = if leb s u && ltb u e then k else range_state rs u

pub range_state-lt :
    (lo : ℕ) (rs : List StateRange) (u : ℕ) → AreOrdered lo rs → range_state rs u < 4
range_state-lt lo [] u h = omega arith
range_state-lt lo ((s, e, k) ∷ rs) u (p, q, r, h) = ground (arith, range_state-lt e rs u h)

state_below :
    (lo : ℕ) (rs : List StateRange) (u : ℕ) → AreOrdered lo rs → u < lo → range_state rs u ≡ 2
state_below lo [] u h k = refl
state_below lo ((s, e, k) ∷ rs) u (p, q, r, h) l = ground (arith, state_below e rs u h)

pub AreOrdered-weaken :
    (lo lo' : ℕ) (rs : List StateRange) → lo' ≤ lo → AreOrdered lo rs → AreOrdered lo' rs
AreOrdered-weaken lo lo' [] p h = tt
AreOrdered-weaken lo lo' ((s, e, k) ∷ rs) p (q, r, t, h) = (omega (arith, p, q), r, t, h)

-- Ranges that end before the cell are passed over.
skip_before-state :
    (start u : ℕ) (rs : List StateRange)
    → start ≤ u
    → range_state (skip_before start rs) u ≡ range_state rs u
unfolding skip_before
skip_before-state start u [] p = refl
skip_before-state start u ((s, e, k) ∷ rs) p = ground (arith, skip_before-state start u rs p)

-- The first range reaches into what is left of the cell, if it starts early enough.
abbrev Reaches : ℕ → ℕ → List StateRange → Type 0
Reaches start cursor [] = Unit
Reaches start cursor ((s, e, k) ∷ rs) = (cursor ≤ max start s) × (start < e)

skip_before-Reaches :
    (start : ℕ) (rs : List StateRange)
    → AreOrdered 0 rs
    → AreOrdered 0 (skip_before start rs) × Reaches start start (skip_before start rs)
unfolding skip_before
skip_before-Reaches start [] h = (tt, tt)
skip_before-Reaches start ((s, e, k) ∷ rs) (p, q, r, h) = elim (Bool-cases (leb e start)) [
  | inl past ↦ rw past (skip_before-Reaches start rs (AreOrdered-weaken e 0 rs (omega arith) h))
  | inr here ↦ rw here ((p, q, r, h), (omega arith, ground (arith, here)))
]

Reaches-next :
    (start lo : ℕ) (rs : List StateRange) → start ≤ lo → AreOrdered lo rs → Reaches start lo rs
Reaches-next start lo [] p h = tt
Reaches-next start lo ((s, e, k) ∷ rs) p (q, r, t, h) =
    (omega (arith, p, q), omega (arith, p, q, r))

module _ (f : ℕ → ℕ) (start end' : ℕ) (less : start < end') where
  -- The units before a range, if there are any.
  gap-Grows :
      (cursor to : ℕ) (c : Counts)
      → cursor ≤ to
      → ((u : ℕ) → cursor ≤ u → u < to → f u ≡ 2)
      → Grows f cursor (to - cursor) c (if ltb cursor to then count_in 2 (to - cursor) c else c)
  gap-Grows cursor to c p h = elim (Bool-cases (ltb cursor to)) [
    | inl some_units ↦ rw some_units (
        count_in-Grows f cursor (to - cursor) 2 c (omega arith)
          (λ u a b. h u a (omega (arith, b, p))))
    | inr no_units ↦
        let e : to - cursor ≡ 0 = ground (arith, no_units) in
        rw (no_units, e) (Grows-none f cursor c)
  ]

  count_ranges-Grows :
      (rs : List StateRange) (cursor : ℕ) (c : Counts)
      → start ≤ cursor
      → cursor ≤ end'
      → AreOrdered 0 rs
      → Reaches start cursor rs
      → ((u : ℕ) → cursor ≤ u → u < end' → f u ≡ range_state rs u)
      → Grows f cursor (end' - cursor) c (count_tail end' (count_ranges start end' cursor rs c))
  unfolding count_ranges count_tail
  count_ranges-Grows [] cursor c p q o r h = gap-Grows cursor end' c q h
  count_ranges-Grows ((s, e, k) ∷ rs) cursor c p q (z, nonempty, valid, later) (early, reaches) h =
      elim (Bool-cases (ltb s end')) [
        | inr behind ↦ rw behind (
            gap-Grows cursor end' c q
              (λ u a b. h u a b ∙ ground (arith, behind, state_below e rs u later)))
        | inl meets ↦
            let from = max start s in
            let to = min end' e in
            let overlap : ltb from to ≡ true = ground (arith, meets, nonempty, reaches, less) in
            let first = gap-Grows cursor from c early (λ u a b.
              h u a (ground (arith, meets, b, less))
              ∙ ground (arith, b, a, p, nonempty, state_below e rs u later)) in
            let gap = if ltb cursor from then count_in 2 (from - cursor) c else c in
            let back : cursor + (from - cursor) ≡ from = omega (arith, early) in
            let second : Grows f from (to - from) gap (count_in k (to - from) gap) =
              count_in-Grows f from (to - from) k gap valid (λ u a b.
                h u (omega (arith, a, early)) (ground (arith, a, b, overlap))
                ∙ ground (arith, a, b, overlap)) in
            let filled = count_in k (to - from) gap in
            let upto : Grows f cursor (from - cursor + (to - from)) c filled =
              Grows-append f cursor (from - cursor) (to - from) c gap filled first
                (rw back second) in
            elim (Bool-cases (ltb end' e)) [
              | inl stops ↦
                  let at_end : max cursor to ≡ end' = ground (arith, stops, overlap, early, q) in
                  let units : from - cursor + (to - from) ≡ end' - cursor =
                    ground (arith, stops, overlap, early, q) in
                  let full : ltb end' end' ≡ false = ground arith in
                  rw (meets, overlap, stops, at_end, full) (rw units at upto)
              | inr goes_on ↦
                  let reached : max cursor to ≡ e = ground (arith, goes_on, overlap, early, q) in
                  let inside : e ≤ end' = ground (arith, goes_on) in
                  let units : from - cursor + (to - from) ≡ e - cursor =
                    ground (arith, goes_on, overlap, early, q) in
                  let beyond : cursor + (e - cursor) ≡ e =
                    ground (arith, goes_on, overlap, early, q) in
                  let all : e - cursor + (end' - e) ≡ end' - cursor =
                    omega (arith, beyond, inside) in
                  let later_units : (u : ℕ) → e ≤ u → u < end' → f u ≡ range_state rs u =
                    λ u a b. h u (omega (arith, a, beyond)) b ∙ ground (arith, a) in
                  let tail = count_tail end' (count_ranges start end' e rs filled) in
                  let recursive : Grows f e (end' - e) filled tail =
                    count_ranges-Grows rs e filled (omega (arith, beyond, p)) inside
                      (AreOrdered-weaken e 0 rs (omega arith) later)
                      (Reaches-next start e rs (omega (arith, beyond, p)) later) later_units in
                  let here : Grows f cursor (e - cursor) c filled = rw units at upto in
                  let there : Grows f (cursor + (e - cursor)) (end' - e) filled tail =
                    rw beyond recursive in
                  let both =
                    Grows-append f cursor (e - cursor) (end' - e) c filled tail here there in
                  rw (meets, overlap, goes_on, reached) (rw all at both)
            ]
      ]

-- What the loop over the cells carries.
abbrev Carried : (ℕ → ℕ) → ℕ → List StateRange → Type 0
Carried f lo rs = AreOrdered 0 rs × ((u : ℕ) → lo ≤ u → f u ≡ range_state rs u)

ranges_cell-CountsFor :
    (f : ℕ → ℕ) (lo hi : ℕ) (rs : List StateRange)
    → Carried f lo rs
    → lo < hi
    → CountsFor f lo (hi - lo) (ranges_cell lo hi rs).0 × Carried f hi (ranges_cell lo hi rs).1
unfolding ranges_cell
ranges_cell-CountsFor f lo hi rs (o, h) p =
    let (o', r) = skip_before-Reaches lo rs o in
    let same : (u : ℕ) → lo ≤ u → f u ≡ range_state (skip_before lo rs) u =
      λ u a. h u a ∙ sym (skip_before-state lo u rs a) in
    let g =
      count_ranges-Grows f lo hi p (skip_before lo rs) lo no_counts (omega arith) (omega (arith, p))
        o' r (λ u a b. same u a) in
    (Grows-CountsFor f lo (hi - lo) _ g, (o', λ u a. same u (omega (arith, a, p))))

-- The map of ranges in order.
pub ordered-IsMap :
    (rs : List StateRange) (total wanted unit_size : ℕ)
    → AreOrdered 0 rs
    → IsMap (range_state rs) unit_size total (
        new_map_result unit_size total
          (fill_cells ranges_cell rs (cell_bounds total (clamped_cells wanted total)) no_counts).0
          (fill_cells ranges_cell rs (cell_bounds total (clamped_cells wanted total)) no_counts).1)
ordered-IsMap rs total wanted unit_size o =
    let f = range_state rs in
    let (cells, totals) =
      fill_cells-AreCells f ranges_cell (Carried f) (ranges_cell-CountsFor f)
        (cell_bounds total (clamped_cells wanted total)) 0 (max 1 total) rs no_counts
        (cell_bounds-Chain total wanted) (o, λ u a. refl)
        (record { free = refl; used = refl; unknown = refl; bad = refl }) in
    new_map_result-IsMap f unit_size total _ _ cells totals
