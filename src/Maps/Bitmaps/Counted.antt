-- ===== src/Maps/Bitmaps/Counted.antt =====
-- `count_set_bits` counts the units of a span that are in use.
use Prim.Native.Nat.{bit_and}
use linux_defragger.Prelude.{
  ℕ, suc, ◌+◌, ◌-◌, ◌*◌, ◌/◌, ◌%◌, ◌^◌, ◌<◌, ◌≤◌, ◌≡◌, ◌≢◌, refl, ap, ◌∙◌, sym, inl, inr, Bool,
  true, ◌&&◌, List, [], ◌∷◌, ◌==◌, ltb, leb, if◌then◌else◌, arith, length, Bool-cases, get_or,
  get_or-get_elem?, get_or-take, get_or-drop, take, drop, length-take, length-drop, Result, ok,
  ◌>>=◌,
}
use linux_defragger.Bytes.{from_bytes, AreBytes, pow2}
use linux_defragger.Bytes.Tables.{holds_on, table_entry}
use linux_defragger.Bytes.BitCount.{bit_count, bit_count_on, bit_count_eq, bit_count-bytes}
use linux_defragger.Ntfs.Bitmap.{bit, byte_bit}
use linux_defragger.Ntfs.Bitmap.ByteBits.{get_or-IsByte}
use linux_defragger.Ntfs.Bitmap.SetRange.{take-AreBytes, drop-AreBytes}
use linux_defragger.Maps.Tally.{tally, tally_shift, tally-append}
use linux_defragger.Maps.Bitmaps.{
  byte_at, masked_count, head_count, middle_count, tail_count, count_set_bits,
}

-- `n` bits from bit `s` on.
abbrev mask_of : ℕ → ℕ → ℕ
mask_of s n = (2 ^ n - 1) * 2 ^ s

mask_table :
    holds_on 0 256 (λ b. holds_on 0 8 (λ s. holds_on 0 9 (λ n.
      if leb (s + n) 8
      then (bit_count_on 8 (bit_and b (mask_of s n)) == tally (byte_bit b) s n)
        && ltb (bit_and b (mask_of s n)) 256
      else true)))
    ≡ true
unfolding holds_on bit_count_on byte_bit
mask_table = refl

top_mask_table :
    holds_on 0 256 (λ b. holds_on 0 8 (λ s.
      (bit_count_on 8 (bit_and b (0xFF * 2 ^ s)) == tally (byte_bit b) s (8 - s))
      && ltb (bit_and b (0xFF * 2 ^ s)) 256))
    ≡ true
unfolding holds_on bit_count_on byte_bit
top_mask_table = refl

byte_table : holds_on 0 256 (λ b. bit_count_on 8 b == tally (byte_bit b) 0 8) ≡ true
unfolding holds_on bit_count_on byte_bit
byte_table = refl

-- The bits of a byte under a mask.
masked_bits :
    (b s n : ℕ)
    → b < 256
    → s < 8
    → n < 9
    → s + n ≤ 8
    → bit_count (bit_and b (mask_of s n)) ≡ tally (byte_bit b) s n
unfolding pow2
masked_bits b s n p q r t =
    let row = table_entry 9 _ n r (table_entry 8 _ s q (table_entry 256 _ b p mask_table)) in
    let small : bit_and b (mask_of s n) < 256 = ground (arith, row, t) in
    bit_count_eq 8 (bit_and b (mask_of s n)) small ∙ ground (arith, row, t)

top_bits :
    (b s : ℕ)
    → b < 256
    → s < 8
    → bit_count (bit_and b (0xFF * 2 ^ s)) ≡ tally (byte_bit b) s (8 - s)
unfolding pow2
top_bits b s p q =
    let row = table_entry 8 _ s q (table_entry 256 _ b p top_mask_table) in
    let small : bit_and b (0xFF * 2 ^ s) < 256 = ground (arith, row) in
    bit_count_eq 8 (bit_and b (0xFF * 2 ^ s)) small ∙ ground (arith, row)

byte_bits : (b : ℕ) → b < 256 → bit_count b ≡ tally (byte_bit b) 0 8
unfolding pow2
byte_bits b p = bit_count_eq 8 b p ∙ ground (arith, table_entry 256 _ b p byte_table)

-- The bits of one byte of the bitmap.
bits_of_byte :
    (bitmap : List ℕ) (i s n : ℕ)
    → s + n ≤ 8
    → tally (byte_bit (get_or bitmap i 0)) s n ≡ tally (bit bitmap) (8 * i + s) n
unfolding bit
bits_of_byte bitmap i s n p =
    tally_shift (byte_bit (get_or bitmap i 0)) (bit bitmap) s (8 * i + s) n (λ j k.
      let a : (8 * i + s + j) / 8 ≡ i = omega (arith, p, k) in
      let b : (8 * i + s + j) % 8 ≡ s + j = omega (arith, p, k) in rw (a, b) refl)

module _ (bitmap : List ℕ) (bytes : AreBytes bitmap) where
  byte_at-ok : (i : ℕ) → i < length bitmap → byte_at bitmap i ≡ ok (get_or bitmap i 0)
  unfolding byte_at
  byte_at-ok i p = rw (get_or-get_elem? bitmap i 0 p, byte_at) refl

  masked_count-ok :
      (i s n mask : ℕ)
      → i < length bitmap
      → s + n ≤ 8
      → bit_count (bit_and (get_or bitmap i 0) mask) ≡ tally (byte_bit (get_or bitmap i 0)) s n
      → masked_count bitmap i mask ≡ ok (tally (bit bitmap) (8 * i + s) n)
  unfolding masked_count
  masked_count-ok i s n mask p q e = rw (byte_at-ok i p) (ap ok (e ∙ bits_of_byte bitmap i s n q))

  head_count-ok :
      (start : ℕ)
      → start / 8 < length bitmap
      → head_count bitmap start
        ≡ ok (if start % 8 == 0 then 0 else tally (bit bitmap) start (8 - start % 8))
  unfolding head_count
  head_count-ok start p = elim (Bool-cases (start % 8 == 0)) [
    | inl e ↦ rw e refl
    | inr e ↦
        let from : 8 * (start / 8) + start % 8 ≡ start = omega arith in
        let counted =
          masked_count-ok (start / 8) (start % 8) (8 - start % 8) (0xFF * 2 ^ (start % 8)) p
            (omega arith)
            (top_bits (get_or bitmap (start / 8) 0) (start % 8)
              (get_or-IsByte bitmap (start / 8) bytes) (omega arith)) in
        rw e (rw from at counted)
  ]

  tail_count-ok :
      (end' : ℕ)
      → 0 < end'
      → (end' - 1) / 8 < length bitmap
      → tail_count bitmap end'
        ≡ ok (if end' % 8 == 0 then 0 else tally (bit bitmap) (8 * (end' / 8)) (end' % 8))
  unfolding tail_count
  tail_count-ok end' pos_end p = elim (Bool-cases (end' % 8 == 0)) [
    | inl e ↦ rw e refl
    | inr e ↦
        let i = (end' - 1) / 8 in
        let same : 8 * i + 0 ≡ 8 * (end' / 8) = ground (arith, e) in
        let one : (2 ^ (end' % 8) - 1) * 2 ^ 0 ≡ 2 ^ (end' % 8) - 1 = omega arith in
        let counted = masked_count-ok i 0 (end' % 8) (mask_of 0 (end' % 8)) p (omega arith) (
          masked_bits (get_or bitmap i 0) 0 (end' % 8) (get_or-IsByte bitmap i bytes) (omega arith)
            (omega arith) (omega arith)) in
        rw e (rw (one, same) at counted)
  ]

bit_next : (b : ℕ) (bs : List ℕ) (j : ℕ) → bit bs (0 + j) ≡ bit (b ∷ bs) (8 + j)
unfolding bit
bit_next b bs j =
    let a : (8 + j) / 8 ≡ suc ((0 + j) / 8) = omega arith in
    let c : (8 + j) % 8 ≡ (0 + j) % 8 = omega arith in rw (a, c) refl

bytes_bits :
    (bs : List ℕ) → AreBytes bs → bit_count (from_bytes bs) ≡ tally (bit bs) 0 (8 * length bs)
unfolding from_bytes pow2 bit_count_on
bytes_bits [] h = bit_count_eq 0 0 (omega arith)
bytes_bits (b ∷ bs) (h, k) =
    let eight : 8 * suc (length bs) ≡ 8 + 8 * length bs = omega arith in
    let shifted =
      tally_shift (bit bs) (bit (b ∷ bs)) 0 8 (8 * length bs) (λ j l. bit_next b bs j) in
    let first = bits_of_byte (b ∷ bs) 0 0 8 (omega arith) in
    bit_count-bytes b (from_bytes bs) h
    ∙ rw
        (
          byte_bits b h,
          bytes_bits bs k,
          eight,
          tally-append (bit (b ∷ bs)) 0 8 (8 * length bs),
          first,
          shifted,
        )
        refl

slice_bit :
    (bitmap : List ℕ) (lo n j : ℕ)
    → j < 8 * n
    → bit (take n (drop lo bitmap)) (0 + j) ≡ bit bitmap (8 * lo + j)
unfolding bit
slice_bit bitmap lo n j p =
    let a : (8 * lo + j) / 8 ≡ lo + (0 + j) / 8 = omega arith in
    let b : (8 * lo + j) % 8 ≡ (0 + j) % 8 = omega arith in
    rw
      (
        a,
        b,
        get_or-take n (drop lo bitmap) ((0 + j) / 8) 0 (omega (arith, p)),
        get_or-drop lo bitmap ((0 + j) / 8) 0,
      )
      refl

middle_count_lem :
    (bitmap : List ℕ) (lo hi : ℕ)
    → AreBytes bitmap
    → hi ≤ length bitmap
    → middle_count bitmap lo hi ≡ tally (bit bitmap) (8 * lo) (8 * (hi - lo))
unfolding middle_count
middle_count_lem bitmap lo hi h p = elim (Bool-cases (ltb lo hi)) [
  | inr e ↦ let none_left : 8 * (hi - lo) ≡ 0 = ground (arith, e) in rw (e, none_left) refl
  | inl e ↦
      let size : length (take (hi - lo) (drop lo bitmap)) ≡ hi - lo =
        length-take (hi - lo) (drop lo bitmap) ∙ omega (arith, length-drop lo bitmap, p) in
      let counted =
        bytes_bits (take (hi - lo) (drop lo bitmap))
          (take-AreBytes (hi - lo) (drop lo bitmap) (drop-AreBytes lo bitmap h)) in
      rw e (
        rw size at counted
        ∙ tally_shift (bit (take (hi - lo) (drop lo bitmap))) (bit bitmap) 0 (8 * lo)
            (8 * (hi - lo)) (λ j k. slice_bit bitmap lo (hi - lo) j k))
]

-- Three parts of a span.
tally_parts :
    (test : ℕ → Bool) (lo a b c n : ℕ)
    → a + b + c ≡ n
    → tally test lo a + tally test (lo + a) b + tally test (lo + a + b) c ≡ tally test lo n
tally_parts test lo a b c n e = rw (sym e) (
    omega (
      arith,
      tally-append test lo (a + b) c,
      tally-append test lo a b,
      ap (λ k. tally test k c) (let s : lo + a + b ≡ lo + (a + b) = omega arith in s),
    ))

bind_two :
    {E : Type 0} (r s : Result E ℕ) (m x y : ℕ)
    → r ≡ ok x
    → s ≡ ok y
    → (r >>= λ a. s >>= λ b. ok (a + m + b)) ≡ ok (x + m + y)
bind_two r s m x y p q = rw (p, q) refl

-- The bits up to the next whole byte, those of whole bytes, and those behind them.
count_parts :
    (test : ℕ → Bool) (start end' next : ℕ)
    → start < end'
    → start / 8 ≢ (end' - 1) / 8
    → next ≡ (if start % 8 == 0 then start / 8 else start / 8 + 1)
    → (if start % 8 == 0 then 0 else tally test start (8 - start % 8))
        + tally test (8 * next) (8 * (end' / 8 - next))
        + (if end' % 8 == 0 then 0 else tally test (8 * (end' / 8)) (end' % 8))
      ≡ tally test start (end' - start)
count_parts test start end' next less differ is_next =
    let a = 8 * next - start in
    let first : (if start % 8 == 0 then 0 else tally test start (8 - start % 8))
        ≡ tally test start a =
      elim (Bool-cases (start % 8 == 0)) [
        | inl e ↦ let none_left : a ≡ 0 = ground (arith, is_next, e) in rw (e, none_left) refl
        | inr e ↦ let same : a ≡ 8 - start % 8 = ground (arith, is_next, e) in rw (e, same) refl
      ] in
    let last : (if end' % 8 == 0 then 0 else tally test (8 * (end' / 8)) (end' % 8))
        ≡ tally test (8 * (end' / 8)) (end' % 8) =
      elim (Bool-cases (end' % 8 == 0)) [
        | inl e ↦ let none_left : end' % 8 ≡ 0 = ground (arith, e) in rw (e, none_left) refl
        | inr e ↦ rw e refl
      ] in
    let at_next : start + a ≡ 8 * next = ground (arith, is_next) in
    let reached : next ≤ end' / 8 = ground (arith, is_next, less, differ) in
    let at_last : start + a + 8 * (end' / 8 - next) ≡ 8 * (end' / 8) =
      omega (arith, at_next, reached) in
    let all : a + 8 * (end' / 8 - next) + end' % 8 ≡ end' - start =
      omega (arith, at_next, at_last) in
    rw (first, last)
      (rw (at_last, at_next) at
        (tally_parts test start a (8 * (end' / 8 - next)) (end' % 8) (end' - start) all))

-- For a bitmap of bytes and an end inside it, count_set_bits, with its masks and its path for whole
-- bytes, returns the number of units from the start up to the end whose bit is set.
pub count_set_bits-tally :
    (bitmap : List ℕ) (start end' : ℕ)
    → AreBytes bitmap
    → end' ≤ length bitmap * 8
    → count_set_bits bitmap start end' ≡ ok (tally (bit bitmap) start (end' - start))
unfolding count_set_bits
count_set_bits-tally bitmap start end' h p = elim (Bool-cases (leb end' start)) [
  | inl e ↦ let none_left : end' - start ≡ 0 = ground (arith, e) in rw (e, none_left) refl
  | inr e ↦
      let less : start < end' = ground (arith, e) in
      elim (Bool-cases (start / 8 == (end' - 1) / 8)) [
        | inl one_byte ↦
            let same : start / 8 ≡ (end' - 1) / 8 = ground (arith, one_byte) in
            let inside : start % 8 + (end' - start) ≤ 8 = omega (arith, same, less) in
            let from : 8 * (start / 8) + start % 8 ≡ start = omega arith in
            let counted =
              masked_count-ok bitmap h (start / 8) (start % 8) (end' - start)
                (mask_of (start % 8) (end' - start)) (omega (arith, less, p)) inside
                (masked_bits (get_or bitmap (start / 8) 0) (start % 8) (end' - start)
                  (get_or-IsByte bitmap (start / 8) h) (omega arith) (omega (arith, inside))
                  inside) in
            rw (e, one_byte) (rw from at counted)
        | inr several ↦
            let next = if start % 8 == 0 then start / 8 else start / 8 + 1 in
            let differ : start / 8 ≢ (end' - 1) / 8 = λ same. ground (arith, several, same) in
            rw (e, several)
              (bind_two (head_count bitmap start) (tail_count bitmap end')
                  (middle_count bitmap next (end' / 8)) _ _
                  (head_count-ok bitmap h start (omega (arith, less, p)))
                  (tail_count-ok bitmap h end' (omega (arith, less)) (omega (arith, less, p)))
                ∙ ap ok (
                    rw (middle_count_lem bitmap next (end' / 8) h (omega (arith, p)))
                      (count_parts (bit bitmap) start end' next less differ refl)))
      ]
]
