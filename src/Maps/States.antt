-- ===== src/Maps/States.antt =====
-- `aggregate_states`: a stream of states in physical order.
use linux_defragger.Prelude.{
  ℕ, zero, suc, ◌+◌, ◌-◌, ◌<◌, ◌≡◌, refl, ap, ◌∙◌, max, List, [], ◌∷◌, leb, if◌then◌else◌, arith,
}
use linux_defragger.Prelude.Int.{ℤ, pos, negsuc}
use linux_defragger.Maps.{
  Counts, no_counts, count_in, clamped_cells, cell_bounds, fill_cells, new_map_result, MapResult,
}
use linux_defragger.Maps.Cells.{
  CountsFor, IsMap, cell_bounds-Chain, fill_cells-AreCells, new_map_result-IsMap,
}
use linux_defragger.Maps.Grows.{Grows, Grows-CountsFor, Grows-none, Grows-cons, count_in-Grows}

-- `state if 0 <= state <= 3 else 2`
unfoldable pub state_index : ℤ → ℕ
state_index (pos n) = if leb n 3 then n else 2
state_index (negsuc n) = 2

-- `while consumed < end_exclusive`, with the rounds that are left. A state past the end is unknown.
unfoldable pub count_states : ℕ → List ℤ → Counts → Counts × List ℤ
unfolding state_index count_in
count_states zero values counts = (counts, values)
count_states (suc left) [] counts = count_states left [] (count_in 2 1 counts)
count_states (suc left) (v ∷ values) counts =
    count_states left values (count_in (state_index v) 1 counts)

-- One cell; `consumed` and `values` go from cell to cell.
unfoldable pub states_cell : ℕ → ℕ → ℕ × List ℤ → Counts × (ℕ × List ℤ)
unfolding count_states
states_cell start end' (consumed, values) =
    let (counts, rest) = count_states (end' - consumed) values no_counts in
    (counts, (max consumed end', rest))

unfoldable pub aggregate_states : List ℤ → ℕ → ℕ → ℕ → MapResult
unfolding clamped_cells cell_bounds fill_cells new_map_result states_cell
aggregate_states states total wanted unit_size =
    let (cells, totals) =
      fill_cells states_cell (0, states) (cell_bounds total (clamped_cells wanted total))
        no_counts in
    new_map_result unit_size total cells totals

-- The state that a value stands for: 0 to 3 are states, and all else is unknown.
abbrev pub state_meant : ℤ → ℕ
state_meant (pos zero) = 0
state_meant (pos (suc zero)) = 1
state_meant (pos (suc (suc zero))) = 2
state_meant (pos (suc (suc (suc zero)))) = 3
state_meant (pos (suc (suc (suc (suc n))))) = 2
state_meant (negsuc n) = 2

state_index-meant : (v : ℤ) → state_meant v ≡ state_index v
unfolding state_index
state_index-meant (pos zero) = refl
state_index-meant (pos (suc zero)) = refl
state_index-meant (pos (suc (suc zero))) = refl
state_index-meant (pos (suc (suc (suc zero)))) = refl
state_index-meant (pos (suc (suc (suc (suc n))))) = ground arith
state_index-meant (negsuc n) = refl

-- The state of a unit.
abbrev pub state_of : List ℤ → ℕ → ℕ
state_of [] i = 2
state_of (v ∷ values) zero = state_meant v
state_of (v ∷ values) (suc i) = state_of values i

state_index-lt : (v : ℤ) → state_index v < 4
unfolding state_index
state_index-lt (pos n) = ground arith
state_index-lt (negsuc n) = omega arith

pub state_of-lt : (values : List ℤ) (i : ℕ) → state_of values i < 4
state_of-lt [] i = omega arith
state_of-lt (v ∷ values) zero = rw (state_index-meant v) (state_index-lt v)
state_of-lt (v ∷ values) (suc i) = state_of-lt values i

module _ (f : ℕ → ℕ) where
  -- What is left of the stream gives the states from `lo` on.
  abbrev Left : ℕ → List ℤ → Type 0
  Left lo values = (i : ℕ) → f (lo + i) ≡ state_of values i

  Left-here : (lo : ℕ) (values : List ℤ) → Left lo values → f lo ≡ state_of values 0
  Left-here lo values h = ap f (let e : lo ≡ lo + 0 = omega arith in e) ∙ h 0

  Left-next :
      (lo : ℕ) (values rest : List ℤ)
      → ((i : ℕ) → state_of values (suc i) ≡ state_of rest i)
      → Left lo values
      → Left (lo + 1) rest
  Left-next lo values rest k h i =
      ap f (let e : lo + 1 + i ≡ lo + suc i = omega arith in e) ∙ h (suc i) ∙ k i

  one_state :
      (lo state : ℕ) (c : Counts) → state < 4 → f lo ≡ state → Grows f lo 1 c (count_in state 1 c)
  one_state lo state c p e =
      count_in-Grows f lo 1 state c p (λ u a b. ap f (let s : u ≡ lo = omega arith in s) ∙ e)

  count_states-Grows :
      (n lo : ℕ) (values : List ℤ) (c : Counts)
      → Left lo values
      → Grows f lo n c (count_states n values c).0 × Left (lo + n) (count_states n values c).1
  unfolding count_states
  count_states-Grows zero lo values c h =
      (Grows-none f lo c, λ i. ap f (let e : lo + zero + i ≡ lo + i = omega arith in e) ∙ h i)
  count_states-Grows (suc n) lo [] c h =
      let (g, k) =
        count_states-Grows n (lo + 1) [] (count_in 2 1 c) (Left-next lo [] [] (λ i. refl) h) in
      let e' : lo + suc n ≡ lo + 1 + n = omega arith in
      (Grows-cons f lo n c _ _ (one_state lo 2 c (omega arith) (Left-here lo [] h)) g, rw e' k)
  count_states-Grows (suc n) lo (v ∷ values) c h =
      let (g, k) =
        count_states-Grows n (lo + 1) values (count_in (state_index v) 1 c)
          (Left-next lo (v ∷ values) values (λ i. refl) h) in
      let e' : lo + suc n ≡ lo + 1 + n = omega arith in
      (
        Grows-cons f lo n c _ _
            (one_state lo (state_index v) c (state_index-lt v)
              (Left-here lo (v ∷ values) h ∙ state_index-meant v))
            g,
        rw e' k,
      )

  abbrev Carried : ℕ → ℕ × List ℤ → Type 0
  Carried lo (consumed, values) = (consumed ≡ lo) × Left lo values

  states_cell-CountsFor :
      (lo hi : ℕ) (s : ℕ × List ℤ)
      → Carried lo s
      → lo < hi
      → CountsFor f lo (hi - lo) (states_cell lo hi s).0 × Carried hi (states_cell lo hi s).1
  unfolding states_cell
  states_cell-CountsFor lo hi (consumed, values) (same, left) p =
      let (g, k) = count_states-Grows (hi - lo) lo values no_counts left in
      let e : lo + (hi - lo) ≡ hi = omega arith in
      rw same (Grows-CountsFor f lo (hi - lo) _ g, (omega arith, rw e at k))

-- aggregate_states returns a map (IsMap) of the device in which each unit has the state that the
-- stream gives it, where a value that is not from 0 to 3, and a unit past the end of the stream,
-- count as unknown.
pub aggregate_states-IsMap :
    (states : List ℤ) (total wanted unit_size : ℕ)
    → IsMap (state_of states) unit_size total (aggregate_states states total wanted unit_size)
unfolding aggregate_states
aggregate_states-IsMap states total wanted unit_size =
    let f = state_of states in
    let (cells, totals) =
      fill_cells-AreCells f states_cell (Carried f) (states_cell-CountsFor f)
        (cell_bounds total (clamped_cells wanted total)) 0 (max 1 total) (0, states) no_counts
        (cell_bounds-Chain total wanted) (refl, λ i. ap f (let e : 0 + i ≡ i = omega arith in e))
        (record { free = refl; used = refl; unknown = refl; bad = refl }) in
    new_map_result-IsMap f unit_size total _ _ cells totals
