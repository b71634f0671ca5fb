-- ===== src/Ntfs/Bitmap/SetRange.antt =====
-- `_set_range`: its loops over single clusters and its whole bytes.
use linux_defragger.Prelude.{
  ℕ, zero, suc, ◌+◌, ◌-◌, ◌*◌, ◌/◌, ◌%◌, ◌<◌, ◌≤◌, ◌≡◌, refl, Bool, true, false, ◌&&◌, some, List,
  [], ◌∷◌, ◌++◌, ltb, leb, if◌then◌else◌, length, length-append, length-take, length-drop,
  length-replicate, get_or, take, drop, replicate, arith, Bool-cases, inl, inr, ◌⊎◌,
}
use linux_defragger.Bytes.{AreBytes}
use linux_defragger.Bytes.Tables.{holds_on, table_entry, same, same_eq}
use linux_defragger.Ntfs.Bitmap.{byte_bit, bit, set_head, set_tail, set_bytes, set_range}
use linux_defragger.Ntfs.Bitmap.ByteBits.{Sets, Sets-trans, Sets-none, set_bit-Sets}

abbrev pub fill : Bool → ℕ
fill v = if v then 0xFF else 0x00

fill_table : holds_on 0 8 (λ j. same (byte_bit 0xFF j) true && same (byte_bit 0 j) false) ≡ true
unfolding holds_on byte_bit
fill_table = refl

pub byte_bit-fill : (v : Bool) (j : ℕ) → j < 8 → byte_bit (fill v) j ≡ v
byte_bit-fill v j h =
    let row = table_entry 8 _ j h fill_table in
    elim v as (λ v. byte_bit (fill v) j ≡ v) [
      | true ↦ same_eq _ _ (ground (arith, row))
      | false ↦ same_eq _ _ (ground (arith, row))
    ]

get_or-splice :
    (a n b : ℕ) (xs : List ℕ) (w j : ℕ)
    → a + n ≡ b
    → b ≤ length xs
    → get_or (take a xs ++ (replicate n w ++ drop b xs)) j 0
      ≡ (if leb a j && ltb j b then w else get_or xs j 0)
get_or-splice zero zero zero xs w j e h = ground arith
get_or-splice zero zero (suc b) xs w j e h = absurd (omega arith)
get_or-splice zero (suc n) zero xs w j e h = absurd (omega arith)
get_or-splice zero (suc n) (suc b) [] w j e h = elim h [ ]
get_or-splice zero (suc n) (suc b) (x ∷ xs) w zero e h = ground arith
get_or-splice zero (suc n) (suc b) (x ∷ xs) w (suc j) e h =
    ground (arith, get_or-splice zero n b xs w j (omega arith) (omega arith))
get_or-splice (suc a) n zero xs w j e h = absurd (omega arith)
get_or-splice (suc a) n (suc b) [] w j e h = elim h [ ]
get_or-splice (suc a) n (suc b) (x ∷ xs) w zero e h = ground arith
get_or-splice (suc a) n (suc b) (x ∷ xs) w (suc j) e h =
    ground (arith, get_or-splice a n b xs w j (omega arith) (omega arith))

pub take-AreBytes : (n : ℕ) (bs : List ℕ) → AreBytes bs → AreBytes (take n bs)
take-AreBytes zero bs h = tt
take-AreBytes (suc n) [] h = tt
take-AreBytes (suc n) (b ∷ bs) h = (h.0, take-AreBytes n bs h.1)

pub drop-AreBytes : (n : ℕ) (bs : List ℕ) → AreBytes bs → AreBytes (drop n bs)
drop-AreBytes zero bs h = h
drop-AreBytes (suc n) [] h = tt
drop-AreBytes (suc n) (b ∷ bs) h = drop-AreBytes n bs h.1

replicate-AreBytes : (n b : ℕ) → b < 256 → AreBytes (replicate n b)
replicate-AreBytes zero b h = tt
replicate-AreBytes (suc n) b h = (h, replicate-AreBytes n b h)

pub append-AreBytes : (xs ys : List ℕ) → AreBytes xs → AreBytes ys → AreBytes (xs ++ ys)
append-AreBytes [] ys h k = k
append-AreBytes (x ∷ xs) ys h k = (h.0, append-AreBytes xs ys h.1 k)

-- The whole bytes.
set_bytes-Sets :
    (bitmap : List ℕ) (a b : ℕ) (v : Bool)
    → AreBytes bitmap
    → a ≤ b
    → b ≤ length bitmap
    → Sets bitmap (a * 8) (b * 8) v (set_bytes bitmap a b v)
unfolding set_bytes bit
set_bytes-Sets bitmap a b v h p q = record {
  size =
      rw (length-append, length-append, length-take, length-drop, length-replicate) (omega arith);
  bytes = append-AreBytes _ _ (take-AreBytes a bitmap h) (
      append-AreBytes _ _ (replicate-AreBytes (b - a) (fill v) (ground arith))
        (drop-AreBytes b bitmap h));
  bits = λ u.
      rw (get_or-splice a (b - a) b bitmap (fill v) (u / 8) (omega arith) q)
        (ground (arith, byte_bit-fill v (u % 8) (omega arith)));
}

-- The first loop stops at the end or at the first whole byte.
set_head-Sets :
    (fuel : ℕ) (bitmap : List ℕ) (start end' : ℕ) (v : Bool)
    → AreBytes bitmap
    → start ≤ end'
    → end' ≤ 8 * length bitmap
    → (start % 8 ≡ 0) ⊎ (8 ≤ start % 8 + fuel)
    → (r : List ℕ × ℕ) × (set_head fuel bitmap start end' v ≡ some r)
      × Sets bitmap start r.1 v r.0
      × (start ≤ r.1)
      × (r.1 ≤ end')
      × ((r.1 % 8 ≡ 0) ⊎ (r.1 ≡ end'))
unfolding set_head
set_head-Sets zero bitmap start end' v h p q f =
    ((bitmap, start), refl, Sets-none start start v h (omega arith), omega arith, p, ground arith)
set_head-Sets (suc fuel) bitmap start end' v h p q f =
    elim (Bool-cases (ltb start end' && ltb 0 (start % 8))) [
      | inl more ↦
          let (mid, wrote, one) = set_bit-Sets bitmap start v h (ground arith) in
          let (r, rest, many, up, low, stop) =
            set_head-Sets fuel mid (start + 1) end' v one.bytes (ground arith)
              (omega (arith, one.size)) (ground arith) in
          (r, rw (more, wrote) rest, Sets-trans (omega arith) up one many, omega arith, low, stop)
      | inr done ↦ (
        (bitmap, start),
        rw done,
        Sets-none start start v h (omega arith),
        omega arith,
        p,
        ground arith,
      )
    ]

set_tail-Sets :
    (left : ℕ) (bitmap : List ℕ) (start : ℕ) (v : Bool)
    → AreBytes bitmap
    → start + left ≤ 8 * length bitmap
    → (out : List ℕ) × (set_tail left bitmap start v ≡ some out)
      × Sets bitmap start (start + left) v out
unfolding set_tail
set_tail-Sets zero bitmap start v h p =
    (bitmap, refl, Sets-none start (start + 0) v h (omega arith))
set_tail-Sets (suc left) bitmap start v h p =
    let (mid, wrote, one) = set_bit-Sets bitmap start v h (omega arith) in
    let (out, rest, many) =
      set_tail-Sets left mid (start + 1) v one.bytes (omega (arith, one.size)) in
    let e : start + suc left ≡ start + 1 + left = omega arith in
    (out, rw (wrote) rest, rw e (Sets-trans (omega arith) (omega arith) one many))

whole_aligned : (s e : ℕ) → ltb (s / 8) (e / 8) ≡ true → (s % 8 ≡ 0) ⊎ (s ≡ e) → s % 8 ≡ 0
whole_aligned s e h (inl a) = a
whole_aligned s e h (inr a) = absurd (let k = rw a at h in ground (arith, k))

Sets-ends :
    {a b : List ℕ} {v : Bool} (lo lo' hi hi' : ℕ)
    → lo ≡ lo'
    → hi ≡ hi'
    → Sets a lo hi v b
    → Sets a lo' hi' v b
Sets-ends lo lo' hi hi' e f s = rw (← e, ← f) s

-- What `_set_range` does behind its first loop, which stopped at `s` with the bitmap `mid`.
module _ (bitmap mid : List ℕ) (start n s : ℕ) (v : Bool)
    (found : set_head 8 bitmap start (start + suc n) v ≡ some (mid, s))
    (head : Sets bitmap start s v mid) (up : start ≤ s) (low : s ≤ start + suc n)
    (room : start + suc n ≤ 8 * length bitmap) where
  set_range_whole :
      ltb (s / 8) ((start + suc n) / 8) ≡ true
      → s % 8 ≡ 0
      → (out : List ℕ) × (set_range bitmap start (suc n) v ≡ some out)
        × Sets bitmap start (start + suc n) v out
  unfolding set_range
  set_range_whole whole aligned =
      let b = (start + suc n) / 8 in
      let body =
        set_bytes-Sets mid (s / 8) b v head.bytes (ground arith) (omega (arith, head.size)) in
      let (out, rest, tail) =
        set_tail-Sets (start + suc n - b * 8) (set_bytes mid (s / 8) b v) (b * 8) v body.bytes
          (omega (arith, head.size, body.size)) in
      (
        out,
        rw (found, whole) rest,
        Sets-trans up low head (
            Sets-trans (ground arith) (omega arith)
              (Sets-ends (s / 8 * 8) s (b * 8) (b * 8) (omega arith) refl body)
              (Sets-ends (b * 8) (b * 8) _ (start + suc n) refl (omega arith) tail)),
      )

  set_range_part :
      ltb (s / 8) ((start + suc n) / 8) ≡ false
      → (out : List ℕ) × (set_range bitmap start (suc n) v ≡ some out)
        × Sets bitmap start (start + suc n) v out
  unfolding set_range
  set_range_part part =
      let (out, rest, tail) =
        set_tail-Sets (start + suc n - s) mid s v head.bytes (omega (arith, head.size)) in
      (
        out,
        rw (found, part) rest,
        Sets-trans up low head (Sets-ends s s _ (start + suc n) refl (omega arith) tail),
      )

-- For a bitmap of bytes and a range inside it, _set_range with its byte-wide path returns a bitmap
-- of bytes of the same length in which the clusters of the range, and only these, have the value.
pub set_range-Sets :
    (bitmap : List ℕ) (start n : ℕ) (v : Bool)
    → AreBytes bitmap
    → start + n ≤ 8 * length bitmap
    → (out : List ℕ) × (set_range bitmap start n v ≡ some out) × Sets bitmap start (start + n) v out
unfolding set_range
set_range-Sets bitmap start zero v h p =
    (bitmap, refl, Sets-none start (start + 0) v h (omega arith))
set_range-Sets bitmap start (suc n) v h p =
    let ((mid, s), found, head, up, low, stop) =
      set_head-Sets 8 bitmap start (start + suc n) v h (omega arith) p (omega arith) in
    elim (Bool-cases (ltb (s / 8) ((start + suc n) / 8))) [
      | inl whole ↦
          set_range_whole bitmap mid start n s v found head up low p whole
            (whole_aligned s (start + suc n) whole stop)
      | inr part ↦ set_range_part bitmap mid start n s v found head up low p part
    ]
