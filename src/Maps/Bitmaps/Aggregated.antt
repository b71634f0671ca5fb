-- ===== src/Maps/Bitmaps/Aggregated.antt =====
-- `aggregate_bitmap`: the map of a bitmap, and the bitmap that is too short.
use linux_defragger.Prelude.{
  ℕ, zero, suc, ◌+◌, ◌-◌, ◌*◌, ◌<◌, ◌≤◌, ◌≡◌, refl, ap, ◌∙◌, sym, inl, inr, min, max, Bool, true,
  false, List, [], ◌∷◌, ◌==◌, ltb, leb, if◌then◌else◌, arith, length, Bool-cases, Result, ok, err,
  ◌>>=◌,
}
use linux_defragger.Bytes.{AreBytes}
use linux_defragger.Ntfs.Bitmap.{bit}
use linux_defragger.Maps.{
  Counts, no_counts, add_counts, clamped_cells, cell_bounds, fill_cells, MapResult,
}
use linux_defragger.Maps.Cells.{
  Chain, CountsFor, IsMap, cell_bounds-Chain, fill_cells-AreCells, new_map_result-IsMap,
}
use linux_defragger.Maps.Tally.{tally, tally-append, tally_shift, tally_all, tally_none, tally_four}
use linux_defragger.Maps.Bitmaps.{
  BitmapError, short_bitmap, past_the_end, count_set_bits, bitmap_counts, bitmap_cells,
  aggregate_bitmap,
}
use linux_defragger.Maps.Bitmaps.Counted.{count_set_bits-tally}

-- The state of a unit: the units of the reserved prefix have no bit.
abbrev pub bitmap_state : List ℕ → ℕ → ℕ → ℕ
bitmap_state bitmap reserved u =
    if ltb u reserved then 2 else if bit bitmap (u - reserved) then 1 else 0

Chain-le : (bounds : List (ℕ × ℕ)) (lo hi : ℕ) → Chain lo bounds hi → lo ≤ hi
Chain-le [] lo hi h = omega (arith, h)
Chain-le ((s, e) ∷ bounds) lo hi (p, q, h) = omega (arith, p, q, Chain-le bounds e hi h)

abbrev counted : ℕ → ℕ → ℕ → Counts
counted free used unknown = record { free = free; used = used; unknown = unknown; bad = 0 }

module _ (bitmap : List ℕ) (reserved : ℕ) where
  abbrev f : ℕ → ℕ
  f = bitmap_state bitmap reserved

  -- The counts of a cell, whose bits are all there.
  abbrev counts : ℕ → ℕ → Counts
  counts start end' =
      let data_start = max start reserved in
      let used = tally (bit bitmap) (data_start - reserved) (end' - data_start) in
      record {
        free = (end' - data_start) - used;
        used = used;
        unknown = min end' reserved - start;
        bad = 0;
      }

  f_four : (u : ℕ) → f u < 4
  f_four u = ground arith

  f_bad : (lo n : ℕ) → tally (λ u. f u == 3) lo n ≡ 0
  f_bad lo n = tally_none (λ u. f u == 3) lo n (λ u a b. ground arith)

  -- Of the units before the end of the reserved prefix, none is used and all are unknown.
  prefix_used : (lo n : ℕ) → (0 < n → lo + n ≤ reserved) → tally (λ u. f u == 1) lo n ≡ 0
  prefix_used lo n p =
      tally_none (λ u. f u == 1) lo n (λ u a b. ground (arith, b, p (omega (arith, a, b))))

  prefix_unknown : (lo n : ℕ) → (0 < n → lo + n ≤ reserved) → tally (λ u. f u == 2) lo n ≡ n
  prefix_unknown lo n p =
      tally_all (λ u. f u == 2) lo n (λ u a b. ground (arith, b, p (omega (arith, a, b))))

  -- Behind it, the bits tell.
  data_used :
      (lo n : ℕ)
      → (0 < n → reserved ≤ lo)
      → tally (λ u. f u == 1) lo n ≡ tally (bit bitmap) (lo - reserved) n
  data_used lo n p =
      tally_shift (λ u. f u == 1) (bit bitmap) lo (lo - reserved) n
        (λ i k.
          let q = p (omega (arith, k)) in
          let e : lo + i - reserved ≡ lo - reserved + i = omega (arith, q) in
          let here : ltb (lo + i) reserved ≡ false = ground (arith, q) in
          rw (here, e) (as_state (bit bitmap (lo - reserved + i))))
    where
      as_state : (b : Bool) → ((if b then 1 else 0) == 1) ≡ b
      as_state true = refl
      as_state false = refl

  data_unknown : (lo n : ℕ) → (0 < n → reserved ≤ lo) → tally (λ u. f u == 2) lo n ≡ 0
  data_unknown lo n p =
      tally_none (λ u. f u == 2) lo n (λ u a b. ground (arith, a, p (omega (arith, a, b))))

  data_start :
      (lo hi n : ℕ)
      → lo < hi
      → n ≡ hi - max lo reserved
      → 0 + tally (bit bitmap) (lo + (min hi (max lo reserved) - lo) - reserved) n
        ≡ tally (bit bitmap) (max lo reserved - reserved) n
  data_start lo hi zero p e = refl
  data_start lo hi (suc n) p e =
      let same : lo + (min hi (max lo reserved) - lo) ≡ max lo reserved = omega (arith, p, e) in
      rw same (omega arith)

  counts-CountsFor : (lo hi : ℕ) → lo < hi → CountsFor f lo (hi - lo) (counts lo hi)
  counts-CountsFor lo hi p =
      let m = min hi (max lo reserved) - lo in
      let n = hi - max lo reserved in
      let all : m + n ≡ hi - lo = omega (arith, p) in
      let before : 0 < m → lo + m ≤ reserved = λ k. omega (arith, k) in
      let behind : 0 < n → reserved ≤ lo + m = λ k. omega (arith, k) in
      let split = λ (t : ℕ → Bool). tally-append t lo m n in
      let used : tally (λ u. f u == 1) lo (m + n)
          ≡ tally (bit bitmap) (max lo reserved - reserved) n =
        split (λ u. f u == 1)
        ∙ rw (prefix_used lo m before, data_used (lo + m) n behind) (data_start lo hi n p refl) in
      let unknown : tally (λ u. f u == 2) lo (m + n) ≡ min hi reserved - lo = omega (
        arith,
        split (λ u. f u == 2),
        prefix_unknown lo m before,
        data_unknown (lo + m) n behind,
      ) in
      let bad = f_bad lo (m + n) in
      let result : CountsFor f lo (m + n) (counts lo hi) = record {
        free = omega (arith, tally_four f lo (m + n) f_four, used, unknown, bad);
        used = sym used;
        unknown = sym unknown;
        bad = sym bad;
      } in
      rw all at result

  bitmap_counts-ok :
      (lo hi : ℕ)
      → AreBytes bitmap
      → hi ≤ reserved + length bitmap * 8
      → bitmap_counts bitmap reserved lo hi ≡ ok (counts lo hi)
  unfolding bitmap_counts
  bitmap_counts-ok lo hi h p =
      let n = hi - max lo reserved in
      let result : count_set_bits bitmap (max lo reserved - reserved) (hi - reserved)
          ≡ ok (tally (bit bitmap) (max lo reserved - reserved) n) =
        count_set_bits-tally bitmap (max lo reserved - reserved) (hi - reserved) h
          (omega (arith, p))
        ∙ ap (λ k. ok (tally (bit bitmap) (max lo reserved - reserved) k))
            (let e : hi - reserved - (max lo reserved - reserved) ≡ n = omega arith in e) in
      bound n (tally (bit bitmap) (max lo reserved - reserved))
        (count_set_bits bitmap (max lo reserved - reserved) (hi - reserved)) refl result
    where
      bound :
          (n : ℕ) (t : ℕ → ℕ) (r : Result BitmapError ℕ)
          → t 0 ≡ 0
          → r ≡ ok (t n)
          → ((if n == 0 then ok 0 else r) >>= λ used.
              ok (counted (n - used) used (min hi reserved - lo)))
            ≡ ok (counted (n - t n) (t n) (min hi reserved - lo))
      bound zero t r z e = rw z refl
      bound (suc n) t r z e =
          let some_units : (suc n == 0) ≡ false = ground arith in rw (some_units, e) refl

  -- The body of the loop, with nothing to carry.
  abbrev pure_body : ℕ → ℕ → Unit {0} → Counts × Unit {0}
  pure_body start end' s = (counts start end', s)

  bitmap_cells-ok :
      (bounds : List (ℕ × ℕ)) (lo hi : ℕ) (totals : Counts)
      → AreBytes bitmap
      → Chain lo bounds hi
      → hi ≤ reserved + length bitmap * 8
      → bitmap_cells bitmap reserved bounds totals ≡ ok (fill_cells pure_body tt bounds totals)
  unfolding bitmap_cells fill_cells
  bitmap_cells-ok [] lo hi totals h c p = refl
  bitmap_cells-ok ((start, end') ∷ bounds) lo hi totals h (s, less, c) p =
      let result = bitmap_counts-ok start end' h (omega (arith, Chain-le bounds end' hi c, p)) in
      let rest = bitmap_cells-ok bounds end' hi (add_counts totals (counts start end')) h c p in
      rw (result, rest) refl

-- What `aggregate_bitmap` comes to.
abbrev pub BitmapMapped : List ℕ → ℕ → ℕ → ℕ → Result BitmapError MapResult → Type 0
BitmapMapped bitmap total unit_size reserved (ok m) =
    IsMap (bitmap_state bitmap reserved) unit_size total m
BitmapMapped bitmap total unit_size reserved (err short_bitmap) =
    reserved + length bitmap * 8 < total
BitmapMapped bitmap total unit_size reserved (err past_the_end) =
    (total ≡ 0) × (reserved ≡ 0) × (length bitmap ≡ 0)

module _ (bitmap : List ℕ) (total wanted unit_size reserved : ℕ) where
  long_enough :
      AreBytes bitmap
      → max 1 total ≤ reserved + length bitmap * 8
      → BitmapMapped bitmap total unit_size reserved
          (aggregate_bitmap bitmap total wanted unit_size reserved)
  unfolding aggregate_bitmap
  long_enough h p =
      let guard : ltb (length bitmap * 8) (total - reserved) ≡ false = ground (arith, p) in
      let bounds = cell_bounds total (clamped_cells wanted total) in
      let chain = cell_bounds-Chain total wanted in
      let state = bitmap_state bitmap reserved in
      let (cells, totals) =
        fill_cells-AreCells state (pure_body bitmap reserved) (λ lo s. Unit {0})
          (λ lo hi s i less. (counts-CountsFor bitmap reserved lo hi less, tt)) bounds 0
          (max 1 total) tt no_counts chain tt
          (record { free = refl; used = refl; unknown = refl; bad = refl }) in
      rw (guard, bitmap_cells-ok bitmap reserved bounds 0 (max 1 total) no_counts h chain p)
        (new_map_result-IsMap state unit_size total _ _ cells totals)

no_bytes_raise :
    (wanted unit_size : ℕ) (bitmap : List ℕ)
    → length bitmap ≡ 0
    → aggregate_bitmap bitmap 0 wanted unit_size 0 ≡ err past_the_end
unfolding aggregate_bitmap
no_bytes_raise wanted unit_size [] h =
    let one : max 1 (min wanted 1) ≡ 1 = omega arith in rw one refl
no_bytes_raise wanted unit_size (b ∷ bs) h = absurd (omega (arith, h))

-- A device of no units has one cell, and reads a byte for it.
no_units :
    (bitmap : List ℕ) (total wanted unit_size reserved : ℕ)
    → total ≡ 0
    → reserved ≡ 0
    → length bitmap ≡ 0
    → BitmapMapped bitmap total unit_size reserved
        (aggregate_bitmap bitmap total wanted unit_size reserved)
no_units bitmap total wanted unit_size reserved no_total no_reserved no_bytes =
    let raised : aggregate_bitmap bitmap total wanted unit_size reserved ≡ err past_the_end =
      rw (no_total, no_reserved) (no_bytes_raise wanted unit_size bitmap no_bytes) in
    rw raised (no_total, no_reserved, no_bytes)

-- For a bitmap of bytes, aggregate_bitmap returns the map (IsMap) in which the units of the reserved
-- prefix are unknown and the others used exactly if their bit is set; or it raises since the bitmap
-- is too short, and it has fewer bits than there are units behind the prefix; or it raises an
-- IndexError, and there are no units, no prefix and no bytes.
pub aggregate_bitmap-BitmapMapped :
    (bitmap : List ℕ) (total wanted unit_size reserved : ℕ)
    → AreBytes bitmap
    → BitmapMapped bitmap total unit_size reserved
        (aggregate_bitmap bitmap total wanted unit_size reserved)
unfolding aggregate_bitmap
aggregate_bitmap-BitmapMapped bitmap total wanted unit_size reserved h =
    elim (Bool-cases (ltb (reserved + length bitmap * 8) total)) [
      | inl short ↦
          let guard : ltb (length bitmap * 8) (total - reserved) ≡ true = ground (arith, short) in
          rw guard (ground (arith, short))
      | inr long ↦ elim (Bool-cases (leb (max 1 total) (reserved + length bitmap * 8))) [
        | inl enough ↦ long_enough bitmap total wanted unit_size reserved h (ground (arith, enough))
        | inr none_left ↦
            no_units bitmap total wanted unit_size reserved (ground (arith, long, none_left))
              (ground (arith, long, none_left)) (ground (arith, long, none_left))
      ]
    ]
