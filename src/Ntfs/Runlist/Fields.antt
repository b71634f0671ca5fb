-- ===== src/Ntfs/Runlist/Fields.antt =====
-- The two fields of a mapping pair: the shortest encodings of a length and of a delta.
use Prim.Native.Nat.{bit_and}
use native.Mathlib.Numerals.{add-one}
use linux_defragger.Prelude.{
  ℕ, zero, suc, ◌+◌, ◌-◌, ◌*◌, ◌/◌, ◌<◌, ◌≤◌, max, ◌≡◌, ◌≢◌, refl, ap, ◌∙◌, true, false, some, none,
  List, [], ◌∷◌, ◌++◌, ltb, ◌==◌, length, length-append, arith, Bool-cases, Option-cases, inl, inr,
  ok,
}
use linux_defragger.Prelude.Int.{ℤ, pos}
use linux_defragger.Bytes.{
  modulus, to_bytes, from_bytes, to_signed, from_signed, bit_length, pow2, AreBytes, last_byte,
}
use linux_defragger.Bytes.Laws.{
  fits, to_signed_lem, from_signed-to_signed, to_signed-AreBytes, length-to_bytes,
  to_bytes-AreBytes, from_bytes-to_bytes, from_bytes-append_zero, modulus-eq-pow2, pow2_mono,
  lt-bit_length, bit_length-le, last_byte-to_bytes, last_byte-IsByte,
}
use linux_defragger.Bytes.Tables.{top_bit}
use linux_defragger.Ntfs.Runlist.{eq_ℤ, signed_from, signed_min_bytes, unsigned_min_bytes}

eq_ℤ_refl : (v : ℤ) → eq_ℤ v v ≡ true
eq_ℤ_refl v = ground arith

-- The bytes that the search for a delta returns.
pub record Encodes (least : ℕ) (v : ℤ) (bs : List ℕ) : Type 0 where
  pub value : from_signed bs ≡ v
  pub bytes : AreBytes bs
  pub lower : least ≤ length bs
  pub upper : length bs ≤ 8
  pub minimal : (k : ℕ) → least ≤ k → k < length bs → fits k v ≡ false

signed_from_skip :
    (left size : ℕ) (v : ℤ)
    → to_signed size v ≡ none
    → signed_from (suc left) size v ≡ signed_from left (suc size) v
unfolding signed_from
signed_from_skip left size v e = rw (e, signed_from)

signed_from_take :
    (left size : ℕ) (v : ℤ) (bs : List ℕ)
    → to_signed size v ≡ some bs
    → from_signed bs ≡ v
    → signed_from (suc left) size v ≡ ok bs
unfolding signed_from
signed_from_take left size v bs e back = rw (e, back, eq_ℤ_refl v, signed_from)

signed_from_lem :
    (left size : ℕ) (v : ℤ)
    → 0 < size
    → size + left ≡ 9
    → size ≤ 8
    → fits 8 v ≡ true
    → (bs : List ℕ) × (signed_from left size v ≡ ok bs) × Encodes size v bs
signed_from_lem zero size v p e q h = absurd (omega arith)
signed_from_lem (suc left) size v p e q h = elim (Option-cases (to_signed size v)) [
  | inl unfit ↦
      let small : fits size v ≡ false = ground (arith, to_signed_lem size v) in
      let room : size ≢ 8 = λ at. absurd (ground (arith, ap (λ k. fits k v) at)) in
      let (bs, found, enc) =
        signed_from_lem left (suc size) v (omega arith) (omega arith) (omega arith) h in
      (
        bs,
        signed_from_skip left size v unfit ∙ found,
        record {
          value = enc.value;
          bytes = enc.bytes;
          lower = omega (arith, enc.lower);
          upper = enc.upper;
          minimal = λ k above below. ground (arith, small, enc.minimal k);
        },
      )
  | inr (bs, some_bs) ↦
      let (back, long) = from_signed-to_signed size v bs p some_bs in
      (
        bs,
        signed_from_take left size v bs some_bs back,
        record {
          value = back;
          bytes = to_signed-AreBytes size v bs some_bs;
          lower = omega arith;
          upper = omega arith;
          minimal = λ k above below. absurd (omega arith);
        },
      )
]

-- A delta that fits in 64 bits is encoded, in 1 to 8 bytes of two's complement that read back as the
-- delta and are the fewest that hold it.
pub signed_min_bytes-Encodes :
    (v : ℤ) → fits 8 v ≡ true → (bs : List ℕ) × (signed_min_bytes v ≡ ok bs) × Encodes 1 v bs
unfolding signed_min_bytes
signed_min_bytes-Encodes v h = signed_from_lem 8 1 v (omega arith) (omega arith) (omega arith) h

abbrev byte_count : ℕ → ℕ
byte_count n = max 1 ((bit_length n + 7) / 8)

lt-modulus-byte_count : (n : ℕ) → n < modulus (byte_count n)
lt-modulus-byte_count n = omega (
  arith,
  lt-bit_length n,
  modulus-eq-pow2 (byte_count n),
  pow2_mono (bit_length n) (8 * byte_count n) (omega arith),
)

from_signed_small :
    (bs : List ℕ) (n : ℕ) → from_bytes bs ≡ n → 2 * n < modulus (length bs) → from_signed bs ≡ pos n
unfolding from_signed
from_signed_small bs n e h = ground arith

modulus_eight : modulus 8 ≡ 2 * pow2 63
unfolding modulus pow2
modulus_eight = refl

byte_count-le : (n : ℕ) → 2 * n < modulus 8 → byte_count n ≤ 8
byte_count-le n h = omega (arith, bit_length-le n 63 (omega (arith, modulus_eight)))

byte_count-lt :
    (n : ℕ) → 2 * n < modulus 8 → ltb (2 * n) (modulus (byte_count n)) ≡ false → byte_count n < 8
byte_count-lt n h carry =
    let apart : byte_count n ≢ 8 = λ e. absurd (let c = rw e at carry in ground (arith, c)) in
    omega (arith, byte_count-le n h, apart)

twice-lt-modulus : (k n : ℕ) → n < modulus k → 2 * n < modulus (k + 1)
unfolding modulus
twice-lt-modulus k n h = rw add-one (omega arith)

append_zero-AreBytes : (bs : List ℕ) → AreBytes bs → AreBytes (bs ++ 0 ∷ [])
append_zero-AreBytes [] h = (omega arith, tt)
append_zero-AreBytes (b ∷ bs) h = (h.0, append_zero-AreBytes bs h.1)

-- The test of the sign bit, as a bound on the number.
top_clear :
    (n : ℕ)
    → (bit_and (last_byte (to_bytes (byte_count n) n)) 0x80 == 0)
      ≡ ltb (2 * n) (modulus (byte_count n))
top_clear n =
    let k = byte_count n - 1 in
    let e : byte_count n ≡ suc k = omega arith in
    let small = lt-modulus-byte_count n in
    top_bit (last_byte (to_bytes (byte_count n) n))
      (last_byte-IsByte (to_bytes (byte_count n) n) (to_bytes-AreBytes (byte_count n) n))
    ∙ (let small' = rw e at small in rw e (ground (arith, last_byte-to_bytes k n small')))

-- A length from 1 to 2 ^ 63 - 1 is encoded, in 1 to 8 bytes that read back as that length when they
-- are read as a signed number.
pub unsigned_min_bytes_lem :
    (n : ℕ)
    → 0 < n
    → 2 * n < modulus 8
    → (bs : List ℕ) × (unsigned_min_bytes n ≡ ok bs)
      × (from_signed bs ≡ pos n)
      × AreBytes bs
      × (0 < length bs)
      × (length bs ≤ 8)
unfolding unsigned_min_bytes
unsigned_min_bytes_lem n p h = elim (Bool-cases (ltb (2 * n) (modulus (byte_count n)))) [
  | inl clear ↦ (
    to_bytes (byte_count n) n,
    rw (top_clear n, clear, length-to_bytes) (ground (arith, byte_count-le n h)),
    from_signed_small (to_bytes (byte_count n) n) n
        (from_bytes-to_bytes (byte_count n) n (lt-modulus-byte_count n))
        (rw length-to_bytes (ground arith)),
    to_bytes-AreBytes (byte_count n) n,
    rw length-to_bytes (omega arith),
    rw length-to_bytes (byte_count-le n h),
  )
  | inr carry ↦
      let bs = to_bytes (byte_count n) n ++ 0 ∷ [] in
      let long : length bs ≡ byte_count n + 1 = rw (length-append, length-to_bytes) in
      let short = byte_count-lt n h carry in
      (
        bs,
        rw (top_clear n, carry, long) (ground arith),
        from_signed_small bs n
            (rw (
              from_bytes-append_zero,
              from_bytes-to_bytes (byte_count n) n (lt-modulus-byte_count n),
            ))
            (rw long (twice-lt-modulus (byte_count n) n (lt-modulus-byte_count n))),
        append_zero-AreBytes (to_bytes (byte_count n) n) (to_bytes-AreBytes (byte_count n) n),
        omega (arith, long),
        omega (arith, long),
      )
]
