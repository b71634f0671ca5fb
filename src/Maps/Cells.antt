-- ===== src/Maps/Cells.antt =====
-- What a map says of the units, and the loop over the cells.
use native.Mathlib.Nat.{
  add-mul, mul-div_cancel_left, zero-mul, le-div_iff_mul-le, div-mul-le_self, zero-div, one-mul,
}
use linux_defragger.Prelude.{
  ℕ, zero, suc, ◌+◌, ◌-◌, ◌*◌, ◌/◌, ◌<◌, ◌≤◌, ◌≡◌, refl, ap, ◌∙◌, sym, min, max, Bool, List, [],
  ◌∷◌, ◌==◌, length, arith,
}
use linux_defragger.Maps.{
  Cell, Counts, add_counts, cell_of, clamped_cells, bounds_from, cell_bounds, MapResult,
  new_map_result, fill_cells,
}
use linux_defragger.Maps.Tally.{tally, tally-append}

-- Spans that follow one another from `lo` to `hi`, none of them empty.
abbrev pub Chain : ℕ → List (ℕ × ℕ) → ℕ → Type 0
Chain lo [] hi = lo ≡ hi
Chain lo ((s, e) ∷ bounds) hi = (s ≡ lo) × (s < e) × Chain e bounds hi

mul_step : (i t : ℕ) → suc i * t ≡ i * t + t
mul_step i t =
    let e : suc i ≡ i + 1 = omega arith in rw e (add-mul i 1 t ∙ ap (λ k. i * t + k) (one-mul t))

next_bound :
    (index total count : ℕ)
    → 0 < count
    → count ≤ total
    → index * total / count + 1 ≤ suc index * total / count
next_bound index total count p q =
    let x = index * total / count in
    (le-div_iff_mul-le p).1 (
      omega (
        arith,
        add-mul x 1 count,
        one-mul count,
        div-mul-le_self (index * total) count,
        mul_step index total,
      ))

bounds_from-Chain :
    (total count index left : ℕ)
    → 0 < count
    → count ≤ total
    → index + left ≡ count
    → Chain (index * total / count) (bounds_from total count index left) total
unfolding bounds_from
bounds_from-Chain total count index zero p q h =
    let e : index ≡ count = omega arith in rw e (mul-div_cancel_left total p)
bounds_from-Chain total count index (suc left) p q h =
    let grows = next_bound index total count p q in
    let e : max (index * total / count + 1) (suc index * total / count)
        ≡ suc index * total / count =
      omega (arith, grows) in
    (
      refl,
      omega (arith, grows),
      rw e (bounds_from-Chain total count (suc index) left p q (omega arith)),
    )

count_bounds-Chain :
    (total count : ℕ) → 0 < count → count ≤ total → Chain 0 (bounds_from total count 0 count) total
count_bounds-Chain total count p q =
    let e : 0 * total / count ≡ 0 = rw (zero-mul total) (zero-div count) in
    rw e at (bounds_from-Chain total count 0 count p q (omega arith))

-- The cells of a map: a device of no units has one cell all the same.
pub cell_bounds-Chain :
    (total wanted : ℕ) → Chain 0 (cell_bounds total (clamped_cells wanted total)) (max 1 total)
unfolding cell_bounds clamped_cells bounds_from
cell_bounds-Chain zero wanted =
    let one : max 1 (min wanted 1) ≡ 1 = omega arith in rw one (refl, omega arith, refl)
cell_bounds-Chain (suc n) wanted =
    let e : max 1 (suc n) ≡ suc n = omega arith in
    rw e (count_bounds-Chain (suc n) (max 1 (min wanted (suc n))) (omega arith) (omega arith))

-- The counts of a span, for a function that gives the state of each unit.
pub record CountsFor (f : ℕ → ℕ) (lo n : ℕ) (c : Counts) : Type 0 where
  pub free : c.free ≡ tally (λ u. f u == 0) lo n
  pub used : c.used ≡ tally (λ u. f u == 1) lo n
  pub unknown : c.unknown ≡ tally (λ u. f u == 2) lo n
  pub bad : c.bad ≡ tally (λ u. f u == 3) lo n

pub record CellFor (f : ℕ → ℕ) (lo hi : ℕ) (c : Cell) : Type 0 where
  pub first : c.start ≡ lo
  pub last : suc c.last ≡ hi
  pub free : c.free ≡ tally (λ u. f u == 0) lo (hi - lo)
  pub used : c.used ≡ tally (λ u. f u == 1) lo (hi - lo)
  pub unknown : c.unknown ≡ tally (λ u. f u == 2) lo (hi - lo)
  pub bad : c.bad ≡ tally (λ u. f u == 3) lo (hi - lo)

-- Cells that follow one another from `lo` to `hi`, each with the counts of its units.
abbrev pub AreCells : (ℕ → ℕ) → ℕ → List Cell → ℕ → Type 0
AreCells f lo [] hi = lo ≡ hi
AreCells f lo (c ∷ cells) hi =
    (lo ≤ c.last) × CellFor f lo (suc c.last) c × AreCells f (suc c.last) cells hi

-- What a map promises, for the states `f` of the units: the cells cover them in order, and each
-- count is the number of units with that state.
pub record IsMap (f : ℕ → ℕ) (unit_size total : ℕ) (m : MapResult) : Type 0 where
  pub cells : AreCells f 0 m.cells (max 1 total)
  pub counted : m.cell_count ≡ length m.cells
  pub size : m.unit_size ≡ unit_size
  pub units : m.total_units ≡ total
  pub bytes : m.total_bytes ≡ total * unit_size
  pub free : m.free_bytes ≡ tally (λ u. f u == 0) 0 (max 1 total) * unit_size
  pub used : m.used_bytes ≡ tally (λ u. f u == 1) 0 (max 1 total) * unit_size
  pub unknown :
      m.unknown_bytes
      ≡ (tally (λ u. f u == 2) 0 (max 1 total) + tally (λ u. f u == 3) 0 (max 1 total)) * unit_size

add_counts-CountsFor :
    (f : ℕ → ℕ) (lo hi : ℕ) (totals c : Counts)
    → lo < hi
    → CountsFor f 0 lo totals
    → CountsFor f lo (hi - lo) c
    → CountsFor f 0 hi (add_counts totals c)
unfolding add_counts
add_counts-CountsFor f lo hi totals c p h k = record {
  free = join (λ u. f u == 0) totals.free c.free h.free k.free;
  used = join (λ u. f u == 1) totals.used c.used h.used k.used;
  unknown = join (λ u. f u == 2) totals.unknown c.unknown h.unknown k.unknown;
  bad = join (λ u. f u == 3) totals.bad c.bad h.bad k.bad;
}
  where
    join :
        (t : ℕ → Bool) (a b : ℕ)
        → a ≡ tally t 0 lo
        → b ≡ tally t lo (hi - lo)
        → a + b ≡ tally t 0 hi
    join t a b x y =
        let e : lo + (hi - lo) ≡ hi = omega arith in
        let e' : 0 + lo ≡ lo = omega arith in
        rw (x, y) (sym (rw (e, e') at (tally-append t 0 lo (hi - lo))))

module _ {ℓ} {S : Type ℓ} (f : ℕ → ℕ) (count : ℕ → ℕ → S → Counts × S) (Inv : ℕ → S → Type 0)
    (step : (lo hi : ℕ) (s : S)
      → Inv lo s
      → lo < hi
      → CountsFor f lo (hi - lo) (count lo hi s).0 × Inv hi (count lo hi s).1) where
  -- The loop over the cells, for a body that counts each span and keeps what it carries.
  pub fill_cells-AreCells :
      (bounds : List (ℕ × ℕ)) (lo hi : ℕ) (s : S) (totals : Counts)
      → Chain lo bounds hi
      → Inv lo s
      → CountsFor f 0 lo totals
      → AreCells f lo (fill_cells count s bounds totals).0 hi
        × CountsFor f 0 hi (fill_cells count s bounds totals).1
  unfolding fill_cells cell_of
  fill_cells-AreCells [] lo hi s totals c i h = (c, rw c at h)
  fill_cells-AreCells ((start, e) ∷ bounds) lo hi s totals (same, less, chain) i h =
      let (counted, kept) = step lo e s i (rw (sym same) less) in
      let all =
        add_counts-CountsFor f lo e totals (count lo e s).0 (rw (sym same) less) h counted in
      let (cells, sums) =
        fill_cells-AreCells bounds e hi (count lo e s).1 (add_counts totals (count lo e s).0) chain
          kept all in
      let end_of : suc (e - 1) ≡ e = omega (arith, less) in
      rw (same, end_of)
        (
          ((
            omega (arith, less, same),
            record {
              first = refl;
              last = end_of;
              free = counted.free;
              used = counted.used;
              unknown = counted.unknown;
              bad = counted.bad;
            },
            cells,
          )),
          sums,
        )

-- The map of an aggregation.
pub new_map_result-IsMap :
    (f : ℕ → ℕ) (unit_size total : ℕ) (cells : List Cell) (totals : Counts)
    → AreCells f 0 cells (max 1 total)
    → CountsFor f 0 (max 1 total) totals
    → IsMap f unit_size total (new_map_result unit_size total cells totals)
unfolding new_map_result
new_map_result-IsMap f unit_size total cells totals h k = record {
  cells = h;
  counted = refl;
  size = refl;
  units = refl;
  bytes = refl;
  free = rw k.free;
  used = rw k.used;
  unknown = rw (k.unknown, k.bad);
}
