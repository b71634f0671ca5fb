-- ===== src/Ntfs/Bitmap.antt =====
-- The allocation bitmap of NTFS in memory (`_bit`, `_set_bit`, `_set_range`): bit `c % 8` of byte
-- `c / 8` tells whether cluster `c` is allocated.
pub mod ByteBits
pub mod SetRange
use Prim.Native.Nat.{bit_and, bit_or}
use linux_defragger.Prelude.{
  ℕ, zero, suc, ◌+◌, ◌-◌, ◌*◌, ◌/◌, ◌%◌, ◌^◌, Bool, true, false, ◌&&◌, Option, some, none, List, [],
  ◌∷◌, ◌++◌, ltb, ◌==◌, if◌then◌else◌, length, get_elem?, get_or, set, take, drop, replicate,
}

-- `value & (1 << k)`, as a truth value.
unfoldable pub byte_bit : ℕ → ℕ → Bool
byte_bit value k = if bit_and value (2 ^ k) == 0 then false else true

-- `_bit`. The callers keep the cluster below eight times the length; past it Python raises.
unfoldable pub bit : List ℕ → ℕ → Bool
unfolding byte_bit
bit bitmap cluster = byte_bit (get_or bitmap (cluster / 8) 0) (cluster % 8)

-- The byte with bit `k` set, or cleared by `~mask & 0xFF`.
unfoldable pub with_bit : ℕ → ℕ → Bool → ℕ
with_bit value k true = bit_or value (2 ^ k)
with_bit value k false = bit_and value (255 - 2 ^ k)

-- `_set_bit`; `none` is the IndexError of a cluster past the end.
unfoldable pub set_bit : List ℕ → ℕ → Bool → Option (List ℕ)
unfolding with_bit
set_bit bitmap cluster value = elim (get_elem? bitmap (cluster / 8)) [
  | none ↦ none
  | some old ↦ some (set bitmap (cluster / 8) (with_bit old (cluster % 8) value))
]

infixl 5 ◌>>=◌
abbrev pub ◌>>=◌ : {A B : Type 0} → Option A → (A → Option B) → Option B
none >>= f = none
some a >>= f = f a

-- The first loop of `_set_range`, `while start < end and (start & 7)`: it returns the bitmap and
-- `start`. It takes at most seven rounds.
unfoldable pub set_head : ℕ → List ℕ → ℕ → ℕ → Bool → Option (List ℕ × ℕ)
set_head zero bitmap start end' value = some (bitmap, start)
set_head (suc fuel) bitmap start end' value =
    let next : Option (List ℕ × ℕ) = do
      bitmap' ← set_bit bitmap start value
      set_head fuel bitmap' (start + 1) end' value
    in if ltb start end' && ltb 0 (start % 8) then next else some (bitmap, start)

-- The last loop, `while start < end`, with the rounds that are left.
unfoldable pub set_tail : ℕ → List ℕ → ℕ → Bool → Option (List ℕ)
set_tail zero bitmap start value = some bitmap
set_tail (suc left) bitmap start value = do
  bitmap' ← set_bit bitmap start value
  set_tail left bitmap' (start + 1) value

-- The slice assignment of whole bytes. A slice past the end extends the bytearray.
unfoldable pub set_bytes : List ℕ → ℕ → ℕ → Bool → List ℕ
set_bytes bitmap byte_start byte_end value =
    take byte_start bitmap
    ++ (replicate (byte_end - byte_start) (if value then 0xFF else 0x00) ++ drop byte_end bitmap)

unfoldable pub set_range : List ℕ → ℕ → ℕ → Bool → Option (List ℕ)
set_range bitmap start zero value = some bitmap
set_range bitmap start (suc n) value = do
  let end' = start + suc n
  (bitmap', start') ← set_head 8 bitmap start end' value
  let byte_end = end' / 8
  let byte_start = start' / 8
  if ltb byte_start byte_end
      then set_tail (end' - byte_end * 8) (set_bytes bitmap' byte_start byte_end value)
          (byte_end * 8) value
      else set_tail (end' - start') bitmap' start' value
