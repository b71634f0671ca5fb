-- ===== src/Bytes/Tables.antt =====
-- Facts about the bit operations on bytes, by evaluation at every byte.
use Prim.Native.Nat.{bit_and, bit_or}
use linux_defragger.Prelude.{
  ℕ, zero, suc, ◌*◌, ◌/◌, ◌<◌, ◌≤◌, ◌≡◌, refl, Bool, true, false, ◌&&◌, ltb, leb, ◌==◌, arith, ◌+◌,
  Bool-cases, inl, inr,
}

-- A test holds of the `count` numbers from `start` on.
unfoldable pub holds_on : ℕ → ℕ → (ℕ → Bool) → Bool
holds_on start zero test = true
holds_on start (suc count) test = test start && holds_on (start + 1) count test

holds_on_sound :
    (start count : ℕ) (test : ℕ → Bool)
    → holds_on start count test ≡ true
    → (b : ℕ) → start ≤ b
    → b < start + count
    → test b ≡ true
unfolding holds_on
holds_on_sound start zero test h b p q = absurd (omega (arith, p, q))
holds_on_sound start (suc count) test h b p q = elim (Bool-cases (start == b)) [
  | inl e ↦ ground (arith, e)
  | inr e ↦
      holds_on_sound (start + 1) count test (ground (arith, h)) b (ground (arith, e)) (omega arith)
]

-- The entry of a table that starts at zero.
pub table_entry :
    (count : ℕ) (test : ℕ → Bool) (b : ℕ) → b < count → holds_on 0 count test ≡ true → test b ≡ true
table_entry count test b p h = holds_on_sound 0 count test h b (omega arith) (omega arith)

-- Two tests are equal.
abbrev pub same : Bool → Bool → Bool
same true b = b
same false true = false
same false false = true

pub same_eq : (a b : Bool) → same a b ≡ true → a ≡ b
same_eq a b h = ground arith

top_bit_table : holds_on 0 256 (λ b. same (bit_and b 0x80 == 0) (ltb b 128)) ≡ true
unfolding holds_on
top_bit_table = refl

-- `b & 0x80`
pub top_bit : (b : ℕ) → b < 256 → (bit_and b 0x80 == 0) ≡ ltb b 128
top_bit b h = same_eq _ _ (table_entry 256 _ b h top_bit_table)

header_table :
    holds_on 0 16 (λ o. holds_on 0 16 (λ l.
      let h = bit_or (o * 16) l in (bit_and h 0x0F == l) && (h / 16 == o) && ltb h 256 && leb l h))
    ≡ true
unfolding holds_on
header_table = refl

header_row :
    (o : ℕ)
    → o < 16
    → holds_on 0 16 (λ l.
      let h = bit_or (o * 16) l in (bit_and h 0x0F == l) && (h / 16 == o) && ltb h 256 && leb l h)
      ≡ true
header_row o p = table_entry 16 _ o p header_table

-- Two half bytes packed into one.
pub header_fields :
    (o l : ℕ)
    → o < 16
    → l < 16
    → (bit_and (bit_or (o * 16) l) 0x0F ≡ l)
      × (bit_or (o * 16) l / 16 ≡ o)
      × (bit_or (o * 16) l < 256)
      × (l ≤ bit_or (o * 16) l)
header_fields o l p q = let row = table_entry 16 _ l q (header_row o p) in ground (arith, row)
