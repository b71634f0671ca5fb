-- ===== src/Maps/Sums.antt =====
-- The totals of an allocation map against its cells.
use native.Mathlib.Nat.{add-mul}
use linux_defragger.Prelude.{
  ℕ, suc, ◌+◌, ◌-◌, ◌*◌, ◌<◌, ◌≤◌, ◌≡◌, refl, ap, ◌∙◌, sym, max, Bool, List, [], ◌∷◌, ◌==◌, ◌&&◌,
  leb, ltb, inl, inr, some, none, arith, Bool-cases, Result, ok, err, OnOk, OnOk-ok, OnOk-err,
}
use linux_defragger.Prelude.Int.{ℤ, pos, negsuc}
use linux_defragger.Bytes.{AreBytes}
use linux_defragger.Maps.{Cell, MapResult}
use linux_defragger.Maps.Tally.{tally, tally-append, tally_four}
use linux_defragger.Maps.Cells.{CellFor, AreCells, IsMap}
use linux_defragger.Maps.States.{aggregate_states, state_of, state_of-lt, aggregate_states-IsMap}
use linux_defragger.Maps.StateRanges.{StateSpan, StateError, clip, state_number, aggregate_ranges}
use linux_defragger.Maps.StateRanges.Outcome.{state_in, Mapped, aggregate_ranges-Mapped}
use linux_defragger.Maps.Bitmaps.{BitmapError, aggregate_bitmap}
use linux_defragger.Maps.Bitmaps.Aggregated.{
  bitmap_state, BitmapMapped, aggregate_bitmap-BitmapMapped,
}

abbrev pub sum_of : (Cell → ℕ) → List Cell → ℕ
sum_of get [] = 0
sum_of get (c ∷ cells) = get c + sum_of get cells

-- Cells that follow one another from `lo` to `hi`, none of them empty, each with as many counted
-- units as it has units.
abbrev pub AreFull : ℕ → List Cell → ℕ → Type 0
AreFull lo [] hi = lo ≡ hi
AreFull lo (c ∷ cells) hi =
    (c.start ≡ lo)
    × (c.start + (c.free + c.used + c.unknown + c.bad) ≡ suc c.last)
    × (c.start ≤ c.last)
    × AreFull (suc c.last) cells hi

-- The cells account for each unit once, and the totals are those of the cells. A device of no units
-- is shown with one.
pub record Balances (unit_size total : ℕ) (m : MapResult) : Type 0 where
  pub cells : AreFull 0 m.cells (max 1 total)
  pub free : m.free_bytes ≡ sum_of (λ c. c.free) m.cells * unit_size
  pub used : m.used_bytes ≡ sum_of (λ c. c.used) m.cells * unit_size
  pub unknown :
      m.unknown_bytes ≡ (sum_of (λ c. c.unknown) m.cells + sum_of (λ c. c.bad) m.cells) * unit_size
  pub shown : m.free_bytes + m.used_bytes + m.unknown_bytes ≡ max 1 total * unit_size
  pub device : m.total_bytes ≡ total * unit_size

module _ (f : ℕ → ℕ) where
  AreCells-le : (lo : ℕ) (cells : List Cell) (hi : ℕ) → AreCells f lo cells hi → lo ≤ hi
  AreCells-le lo [] hi h = omega (arith, h)
  AreCells-le lo (c ∷ cells) hi (p, k, h) = omega (arith, p, AreCells-le (suc c.last) cells hi h)

  AreCells-AreFull :
      ((u : ℕ) → f u < 4)
      → (lo : ℕ) (cells : List Cell) (hi : ℕ) → AreCells f lo cells hi
      → AreFull lo cells hi
  AreCells-AreFull states lo [] hi h = h
  AreCells-AreFull states lo (c ∷ cells) hi (p, k, h) = (
    k.first,
    omega (
      arith,
      p,
      k.first,
      k.free,
      k.used,
      k.unknown,
      k.bad,
      tally_four f lo (suc c.last - lo) states,
    ),
    omega (arith, p, k.first),
    AreCells-AreFull states (suc c.last) cells hi h,
  )

  -- The counts of one state, cell by cell, are those of the whole span.
  sum_of-AreCells :
      (get : Cell → ℕ) (test : ℕ → Bool)
      → ((lo hi : ℕ) (c : Cell) → CellFor f lo hi c → get c ≡ tally test lo (hi - lo))
      → (lo : ℕ) (cells : List Cell) (hi : ℕ) → AreCells f lo cells hi
      → sum_of get cells ≡ tally test lo (hi - lo)
  sum_of-AreCells get test one lo [] hi h =
      let none_left : hi - lo ≡ 0 = omega (arith, h) in rw none_left refl
  sum_of-AreCells get test one lo (c ∷ cells) hi (p, k, h) =
      let m = suc c.last - lo in
      let n = hi - suc c.last in
      let all : m + n ≡ hi - lo = omega (arith, p, AreCells-le (suc c.last) cells hi h) in
      let middle : lo + m ≡ suc c.last = omega (arith, p) in
      let split = rw (all, middle) at (tally-append test lo m n) in
      omega (
        arith,
        split,
        one lo (suc c.last) c k,
        sum_of-AreCells get test one (suc c.last) cells hi h,
      )

  IsMap-Balances :
      (unit_size total : ℕ) (m : MapResult)
      → ((u : ℕ) → f u < 4)
      → IsMap f unit_size total m
      → Balances unit_size total m
  IsMap-Balances unit_size total m states h =
      let n = max 1 total in
      let from_zero : n - 0 ≡ n = omega arith in
      let sum =
        λ (get : Cell → ℕ) (test : ℕ → Bool)
            (one : (lo hi : ℕ) (c : Cell) → CellFor f lo hi c → get c ≡ tally test lo (hi - lo)).
          sum_of-AreCells get test one 0 m.cells n h.cells ∙ ap (tally test 0) from_zero in
      let a = tally (λ u. f u == 0) 0 n in
      let b = tally (λ u. f u == 1) 0 n in
      let c = tally (λ u. f u == 2) 0 n in
      let d = tally (λ u. f u == 3) 0 n in
      let every : a + b + (c + d) ≡ n = omega (arith, tally_four f 0 n states) in
      record {
        cells = AreCells-AreFull states 0 m.cells n h.cells;
        free =
            h.free
            ∙ ap (λ k. k * unit_size)
                (sym (sum (λ x. x.free) (λ u. f u == 0) (λ lo hi x k. k.free)));
        used =
            h.used
            ∙ ap (λ k. k * unit_size)
                (sym (sum (λ x. x.used) (λ u. f u == 1) (λ lo hi x k. k.used)));
        unknown =
            let unknown = sum (λ x. x.unknown) (λ u. f u == 2) (λ lo hi x k. k.unknown) in
            let bad = sum (λ x. x.bad) (λ u. f u == 3) (λ lo hi x k. k.bad) in
            h.unknown ∙ ap (λ k. k * unit_size) (omega (arith, unknown, bad));
        shown =
            rw (h.free, h.used, h.unknown)
              (sym (
                  add-mul (a + b) (c + d) unit_size
                  ∙ ap (λ k. k + (c + d) * unit_size) (add-mul a b unit_size))
                ∙ ap (λ k. k * unit_size) every);
        device = h.bytes;
      }

state_in-lt : (total : ℕ) (rs : List StateSpan) (u : ℕ) → state_in total rs u < 4
state_in-lt total [] u = omega arith
state_in-lt total ((a, b, state) ∷ rs) u =
    elim (Bool-cases (leb (clip total a) u && ltb u (clip total b))) [
      | inl e ↦ rw e (given state)
      | inr e ↦ rw e (state_in-lt total rs u)
    ]
  where
    given : (state : ℤ) → elim (state_number state) [ none ↦ 2 | some n ↦ n ] < 4
    given (pos n) = ground arith
    given (negsuc n) = omega arith

-- A map that aggregate_states, aggregate_ranges or, for a bitmap of bytes, aggregate_bitmap returns
-- balances (Balances): its cells follow one another, are not empty and cover the units of the
-- device, or one unit where it has none, each with as many counted units as it has units; the free
-- and the used bytes are those counted in the cells, and the unknown bytes those counted as unknown
-- or bad; together they are the bytes of the units covered.
pub aggregations-Balance :
    (total wanted unit_size reserved : ℕ) (states : List ℤ) (ranges : List StateSpan)
    (bitmap : List ℕ)
    → AreBytes bitmap
    → Balances unit_size total (aggregate_states states total wanted unit_size)
      × OnOk (Balances unit_size total) (aggregate_ranges total wanted unit_size ranges)
      × OnOk (Balances unit_size total) (aggregate_bitmap bitmap total wanted unit_size reserved)
aggregations-Balance total wanted unit_size reserved states ranges bitmap bytes = (
  IsMap-Balances (state_of states) unit_size total _ (state_of-lt states)
      (aggregate_states-IsMap states total wanted unit_size),
  of_ranges (aggregate_ranges total wanted unit_size ranges)
      (aggregate_ranges-Mapped total wanted unit_size ranges),
  of_bitmap (aggregate_bitmap bitmap total wanted unit_size reserved)
      (aggregate_bitmap-BitmapMapped bitmap total wanted unit_size reserved bytes),
)
  where
    of_ranges :
        (r : Result StateError MapResult)
        → Mapped total unit_size ranges r
        → OnOk (Balances unit_size total) r
    of_ranges (ok m) h =
        OnOk-ok
          (IsMap-Balances (state_in total ranges) unit_size total m (state_in-lt total ranges) h)
    of_ranges (err e) h = OnOk-err e

    of_bitmap :
        (r : Result BitmapError MapResult)
        → BitmapMapped bitmap total unit_size reserved r
        → OnOk (Balances unit_size total) r
    of_bitmap (ok m) h =
        OnOk-ok
          (IsMap-Balances (bitmap_state bitmap reserved) unit_size total m (λ u. ground arith) h)
    of_bitmap (err e) h = OnOk-err e
