-- ===== src/Bytes/Laws.antt =====
-- The laws of the conversions between integers and bytes.
use linux_defragger.Prelude.{
  ℕ, zero, suc, ◌+◌, ◌-◌, ◌*◌, ◌/◌, ◌<◌, ◌≤◌, ◌≡◌, refl, ap, Bool, true, some, none, List, [], ◌∷◌,
  ◌++◌, ltb, leb, ◌==◌, if◌then◌else◌, length, arith, Bool-cases, inl, inr,
}
use linux_defragger.Prelude.Int.{ℤ, pos, negsuc}
use linux_defragger.Bytes.{
  modulus, to_bytes, from_bytes, to_signed, from_signed, bit_length_on, bit_length, pow2, AreBytes,
  last_byte,
}

pub modulus_pos : (k : ℕ) → 0 < modulus k
unfolding modulus
modulus_pos zero = omega arith
modulus_pos (suc k) = omega (arith, modulus_pos k)

pub length-to_bytes : (k n : ℕ) → length (to_bytes k n) ≡ k
unfolding to_bytes
length-to_bytes zero n = refl
length-to_bytes (suc k) n = ap suc (length-to_bytes k (n / 256))

pub to_bytes-AreBytes : (k n : ℕ) → AreBytes (to_bytes k n)
unfolding to_bytes
to_bytes-AreBytes zero n = tt
to_bytes-AreBytes (suc k) n = (omega arith, to_bytes-AreBytes k (n / 256))

pub from_bytes-to_bytes : (k n : ℕ) → n < modulus k → from_bytes (to_bytes k n) ≡ n
unfolding modulus to_bytes from_bytes
from_bytes-to_bytes zero n h = omega arith
from_bytes-to_bytes (suc k) n h = omega (arith, from_bytes-to_bytes k (n / 256) (omega arith))

pub from_bytes-lt : (bs : List ℕ) → AreBytes bs → from_bytes bs < modulus (length bs)
unfolding modulus from_bytes
from_bytes-lt [] h = omega arith
from_bytes-lt (b ∷ bs) h = omega (arith, from_bytes-lt bs h.1)

pub from_bytes-append_zero : (bs : List ℕ) → from_bytes (bs ++ 0 ∷ []) ≡ from_bytes bs
unfolding from_bytes
from_bytes-append_zero [] = refl
from_bytes-append_zero (b ∷ bs) = omega (arith, from_bytes-append_zero bs)

from_signed-to_bytes :
    (k n : ℕ)
    → n < modulus k
    → from_signed (to_bytes k n)
      ≡ (if ltb (2 * n) (modulus k) then pos n else negsuc (modulus k - 1 - n))
unfolding from_signed
from_signed-to_bytes k n h = rw (from_bytes-to_bytes k n h, length-to_bytes k n)

-- The number whose bytes stand for the integer, and that it fits.
abbrev pub fits : ℕ → ℤ → Bool
fits k (pos n) = ltb (2 * n) (modulus k)
fits k (negsuc n) = ltb (2 * n + 1) (modulus k)

abbrev pub code : ℕ → ℤ → ℕ
code k (pos n) = n
code k (negsuc n) = modulus k - 1 - n

pub to_signed_lem :
    (k : ℕ) (v : ℤ) → to_signed k v ≡ (if fits k v then some (to_bytes k (code k v)) else none)
unfolding to_signed
to_signed_lem k (pos n) = refl
to_signed_lem k (negsuc n) = refl

modulus-even : (k : ℕ) → 0 < k → modulus k ≡ 2 * (modulus k / 2)
unfolding modulus
modulus-even zero h = absurd (omega arith)
modulus-even (suc k) h = omega arith

from_signed-code :
    (k : ℕ) (v : ℤ) → 0 < k → fits k v ≡ true → from_signed (to_bytes k (code k v)) ≡ v
from_signed-code k (pos n) h e = rw (from_signed-to_bytes k n (ground arith), e)
from_signed-code k (negsuc n) h e =
    ground (arith, from_signed-to_bytes k (code k (negsuc n)), modulus-even k)

-- What `to_signed` returns reads back as the integer, and has the length asked for.
pub from_signed-to_signed :
    (k : ℕ) (v : ℤ) (bs : List ℕ)
    → 0 < k
    → to_signed k v ≡ some bs
    → (from_signed bs ≡ v) × (length bs ≡ k)
from_signed-to_signed k v bs h e = elim (Bool-cases (fits k v)) [
  | inl t ↦
      let same : to_bytes k (code k v) ≡ bs = ground (arith, to_signed_lem k v) in
      (rw (← same) (from_signed-code k v h t), rw (← same) (length-to_bytes k (code k v)))
  | inr t ↦ absurd (ground (arith, to_signed_lem k v))
]

-- It returns for the integers that k bytes hold in two's complement.
pub to_signed-fits : (k : ℕ) (v : ℤ) → fits k v ≡ true → (bs : List ℕ) × (to_signed k v ≡ some bs)
to_signed-fits k v h = (to_bytes k (code k v), rw (to_signed_lem k v, h))

pub to_signed-AreBytes : (k : ℕ) (v : ℤ) (bs : List ℕ) → to_signed k v ≡ some bs → AreBytes bs
to_signed-AreBytes k v bs e = elim (Bool-cases (fits k v)) [
  | inl t ↦
      let same : to_bytes k (code k v) ≡ bs = ground (arith, to_signed_lem k v) in
      rw (← same) (to_bytes-AreBytes k (code k v))
  | inr t ↦ absurd (ground (arith, to_signed_lem k v))
]

pub pow2_pos : (k : ℕ) → 0 < pow2 k
unfolding pow2
pow2_pos zero = omega arith
pow2_pos (suc k) = omega (arith, pow2_pos k)

pub pow2_mono : (j k : ℕ) → j ≤ k → pow2 j ≤ pow2 k
unfolding pow2
pow2_mono zero k h = pow2_pos k
pow2_mono (suc j) zero h = elim h [ ]
pow2_mono (suc j) (suc k) h = omega (arith, pow2_mono j k (omega arith))

-- 256 ^ k = 2 ^ (8 k)
pub modulus-eq-pow2 : (k : ℕ) → modulus k ≡ pow2 (8 * k)
unfolding modulus pow2
modulus-eq-pow2 zero = refl
modulus-eq-pow2 (suc k) =
    let e : 8 * suc k ≡ suc (suc (suc (suc (suc (suc (suc (suc (8 * k)))))))) = omega arith in
    rw e (omega (arith, modulus-eq-pow2 k))

-- With enough fuel, `bit_length` brackets a number by powers of two.
bit_length_on_lem :
    (fuel n : ℕ)
    → n ≤ fuel
    → (n < pow2 (bit_length_on fuel n))
      × (pow2 (bit_length_on fuel n) ≤ 2 * n + (if n == 0 then 1 else 0))
unfolding bit_length_on pow2
bit_length_on_lem zero n h = ground arith
bit_length_on_lem (suc fuel) n h = ground (arith, bit_length_on_lem fuel (n / 2) (omega arith))

pub lt-bit_length : (n : ℕ) → n < pow2 (bit_length n)
unfolding bit_length
lt-bit_length n = (bit_length_on_lem n n (omega arith)).0

pub bit_length-le : (n k : ℕ) → n < pow2 k → bit_length n ≤ k
unfolding bit_length pow2
bit_length-le n k h =
    ground (
      arith,
      pow2_mono (suc k) (bit_length_on n n),
      bit_length_on_lem n n (omega arith),
      pow2_pos k,
    )

-- The top bit of the last byte tells whether the number exceeds half of what the bytes hold.
pub last_byte-to_bytes :
    (k n : ℕ)
    → n < modulus (suc k)
    → leb 128 (last_byte (to_bytes (suc k) n)) ≡ leb (modulus (suc k)) (2 * n)
unfolding last_byte to_bytes modulus
last_byte-to_bytes zero n h = ground arith
last_byte-to_bytes (suc k) n h =
    ground (arith, last_byte-to_bytes k (n / 256) (omega arith), modulus-even (suc k))

pub last_byte-IsByte : (bs : List ℕ) → AreBytes bs → last_byte bs < 256
unfolding last_byte
last_byte-IsByte [] h = omega arith
last_byte-IsByte (b ∷ []) h = h.0
last_byte-IsByte (b ∷ c ∷ bs) h = last_byte-IsByte (c ∷ bs) h.1
