-- ===== src/Ntfs/Bitmap/ByteBits.antt =====
-- Bits of a byte, by evaluation at every byte, and the bits of a bitmap under a write.
use linux_defragger.Prelude.{
  ◌∙◌, ℕ, zero, suc, ◌+◌, ◌*◌, ◌/◌, ◌%◌, ◌<◌, ◌≤◌, ◌≡◌, refl, Bool, true, false, ◌&&◌, some, List,
  [], ◌∷◌, ltb, leb, ◌==◌, if◌then◌else◌, length, get_or, set, arith, Bool-cases, inl, inr,
}
use linux_defragger.Bytes.{AreBytes}
use linux_defragger.Bytes.Tables.{holds_on, table_entry, same, same_eq}
use linux_defragger.Ntfs.Bitmap.{byte_bit, bit, with_bit, set_bit}
use linux_defragger.Prelude.{get_or-get_elem?, get_or-set_self, get_or-set_ne, length-set}

abbrev byte_ok : ℕ → ℕ → Bool → ℕ → Bool
byte_ok b k v j = same (byte_bit (with_bit b k v) j) (if j == k then v else byte_bit b j)

with_bit_table :
    holds_on 0 256 (λ b. holds_on 0 8 (λ k.
      ltb (with_bit b k true) 256
      && ltb (with_bit b k false) 256
      && holds_on 0 8 (byte_ok b k true)
      && holds_on 0 8 (byte_ok b k false)))
    ≡ true
unfolding holds_on with_bit byte_bit
with_bit_table = refl

byte_bit-with_bit :
    (b k j : ℕ) (v : Bool)
    → b < 256
    → k < 8
    → j < 8
    → (byte_bit (with_bit b k v) j ≡ (if j == k then v else byte_bit b j)) × (with_bit b k v < 256)
byte_bit-with_bit b k j v hb hk hj =
    let row = table_entry 8 _ k hk (table_entry 256 _ b hb with_bit_table) in
    elim v
      as (λ v.
        (byte_bit (with_bit b k v) j ≡ (if j == k then v else byte_bit b j))
        × (with_bit b k v < 256)) [
          | true ↦ (
            same_eq _ _ (table_entry 8 (byte_ok b k true) j hj (ground (arith, row))),
            ground (arith, row),
          )
          | false ↦ (
            same_eq _ _ (table_entry 8 (byte_ok b k false) j hj (ground (arith, row))),
            ground (arith, row),
          )
        ]

pub get_or-IsByte : (bs : List ℕ) (i : ℕ) → AreBytes bs → get_or bs i 0 < 256
get_or-IsByte [] i h = omega arith
get_or-IsByte (b ∷ bs) zero h = h.0
get_or-IsByte (b ∷ bs) (suc i) h = get_or-IsByte bs i h.1

set-AreBytes : (bs : List ℕ) (i v : ℕ) → AreBytes bs → v < 256 → AreBytes (set bs i v)
set-AreBytes [] i v h k = tt
set-AreBytes (b ∷ bs) zero v h k = (k, h.1)
set-AreBytes (b ∷ bs) (suc i) v h k = (h.0, set-AreBytes bs i v h.1 k)

-- `out` is the bitmap with the clusters from `lo` up to `hi` set to `v`.
pub record Sets (bitmap : List ℕ) (lo hi : ℕ) (v : Bool) (out : List ℕ) : Type 0 where
  pub size : length out ≡ length bitmap
  pub bytes : AreBytes out
  pub bits : (u : ℕ) → bit out u ≡ (if leb lo u && ltb u hi then v else bit bitmap u)

pub Sets-trans :
    {a b c : List ℕ} {lo mid hi : ℕ} {v : Bool}
    → lo ≤ mid
    → mid ≤ hi
    → Sets a lo mid v b
    → Sets b mid hi v c
    → Sets a lo hi v c
Sets-trans p q s t = record {
  size = t.size ∙ s.size;
  bytes = t.bytes;
  bits = λ u. ground (arith, s.bits u, t.bits u);
}

pub Sets-none : {a : List ℕ} (lo hi : ℕ) (v : Bool) → AreBytes a → hi ≤ lo → Sets a lo hi v a
Sets-none lo hi v h p = record { size = refl; bytes = h; bits = λ u. ground arith }

-- A single write to a cluster of the bitmap.
pub set_bit-Sets :
    (bitmap : List ℕ) (c : ℕ) (v : Bool)
    → AreBytes bitmap
    → c < 8 * length bitmap
    → (out : List ℕ) × (set_bit bitmap c v ≡ some out) × Sets bitmap c (c + 1) v out
unfolding set_bit bit
set_bit-Sets bitmap c v h p =
    let old = get_or bitmap (c / 8) 0 in
    let small = get_or-IsByte bitmap (c / 8) h in
    let inside : c / 8 < length bitmap = omega arith in
    let new = with_bit old (c % 8) v in
    (
      set bitmap (c / 8) new,
      rw (get_or-get_elem? bitmap (c / 8) 0 inside, set_bit) refl,
      record {
        size = length-set bitmap (c / 8) new;
        bytes =
            set-AreBytes bitmap (c / 8) new h
              (byte_bit-with_bit old (c % 8) 0 v small (omega arith) (omega arith)).1;
        bits = λ u. elim (Bool-cases (u / 8 == c / 8)) [
          | inl near ↦
              let at : u / 8 ≡ c / 8 = ground arith in
              rw
                (
                  at,
                  get_or-set_self bitmap (c / 8) new 0 inside,
                  (byte_bit-with_bit old (c % 8) (u % 8) v small (omega arith) (omega arith)).0,
                )
                (ground arith)
          | inr far ↦ rw (get_or-set_ne bitmap (c / 8) (u / 8) new 0 (ground arith)) (ground arith)
        ];
      },
    )
