-- ===== src/Bytes.antt =====
-- Byte strings as lists of numbers below 256, and what the program uses of Python's integers:
-- `int.to_bytes`, `int.from_bytes` (little-endian, signed and unsigned) and `int.bit_length`.
pub mod Laws
pub mod Tables
pub mod BitCount
use linux_defragger.Prelude.{
  ℕ, zero, suc, ◌+◌, ◌-◌, ◌*◌, ◌/◌, ◌%◌, Bool, true, false, Option, some, none, List, [], ◌∷◌, ltb,
  ◌==◌, if◌then◌else◌, length, ◌<◌, ◌≤◌,
}
use linux_defragger.Prelude.Int.{ℤ, pos, negsuc}

-- 256 ^ k, the number of values of k bytes.
unfoldable pub modulus : ℕ → ℕ
modulus zero = 1
modulus (suc k) = 256 * modulus k

-- `n.to_bytes(k, "little")` of a number that fits.
unfoldable pub to_bytes : ℕ → ℕ → List ℕ
to_bytes zero n = []
to_bytes (suc k) n = n % 256 ∷ to_bytes k (n / 256)

-- `int.from_bytes(bs, "little")`
unfoldable pub from_bytes : List ℕ → ℕ
from_bytes [] = 0
from_bytes (b ∷ bs) = b + 256 * from_bytes bs

-- `v.to_bytes(k, "little", signed=True)`; `none` is its OverflowError.
unfoldable pub to_signed : ℕ → ℤ → Option (List ℕ)
unfolding modulus to_bytes
to_signed k (pos n) = if ltb (2 * n) (modulus k) then some (to_bytes k n) else none
to_signed k (negsuc n) =
    if ltb (2 * n + 1) (modulus k) then some (to_bytes k (modulus k - 1 - n)) else none

-- `int.from_bytes(bs, "little", signed=True)`
unfoldable pub from_signed : List ℕ → ℤ
unfolding modulus from_bytes
from_signed bs =
    let n = from_bytes bs in
    let m = modulus (length bs) in if ltb (2 * n) m then pos n else negsuc (m - 1 - n)

-- `n.bit_length()`, with `fuel` for the bits; `bit_length` gives enough.
unfoldable pub bit_length_on : ℕ → ℕ → ℕ
bit_length_on zero n = 0
bit_length_on (suc fuel) n =
    let shorter = bit_length_on fuel (n / 2) in if n == 0 then 0 else suc shorter

unfoldable pub bit_length : ℕ → ℕ
unfolding bit_length_on
bit_length n = bit_length_on n n

-- 2 ^ k
unfoldable pub pow2 : ℕ → ℕ
pow2 zero = 1
pow2 (suc k) = 2 * pow2 k

abbrev pub IsByte : ℕ → Type 0
IsByte b = b < 256

abbrev pub AreBytes : List ℕ → Type 0
AreBytes [] = Unit
AreBytes (b ∷ bs) = IsByte b × AreBytes bs

-- `bs[-1]` of a string that is not empty.
unfoldable pub last_byte : List ℕ → ℕ
last_byte [] = 0
last_byte (b ∷ []) = b
last_byte (b ∷ c ∷ bs) = last_byte (c ∷ bs)
