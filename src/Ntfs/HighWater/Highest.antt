-- ===== src/Ntfs/HighWater/Highest.antt =====
-- The search for the highest used cluster: its loop over single clusters and its loop over bytes.
use linux_defragger.Prelude.{
  ℕ, zero, suc, ◌+◌, ◌-◌, ◌*◌, ◌/◌, ◌%◌, ◌<◌, ◌≤◌, ◌≡◌, refl, ap, ◌∙◌, true, false, ◌&&◌, ◌||◌,
  List, ◌==◌, ltb, leb, if◌then◌else◌, get_or, arith, Bool-cases, ◌⊎◌, inl, inr, Result, ok, err,
}
use linux_defragger.Prelude.Int.{ℤ}
use linux_defragger.Bytes.{bit_length, AreBytes}
use linux_defragger.Bytes.Tables.{holds_on, table_entry}
use linux_defragger.Ntfs.Bitmap.{bit, byte_bit}
use linux_defragger.Ntfs.Bitmap.SetRange.{byte_bit-fill}
use linux_defragger.Ntfs.Bitmap.ByteBits.{get_or-IsByte}
use linux_defragger.Ntfs.Gaps.{limit_of}
use linux_defragger.Ntfs.HighWater.{search_bits, search_bytes, highest_used_before}

-- The top bit of a byte that is not zero.
top_table :
    holds_on 0 256 (λ b.
      b == 0
      || (leb 1 (bit_length b)
          && leb (bit_length b) 8
          && byte_bit b (bit_length b - 1)
          && holds_on 0 8 (λ j. ltb j (bit_length b) || (if byte_bit b j then false else true))))
    ≡ true
unfolding holds_on bit_length byte_bit
top_table = refl

-- The highest used cluster below `limit`, as a count.
pub record IsHighest (bitmap : List ℕ) (limit found : ℕ) : Type 0 where
  pub inside : found ≤ limit
  pub free : (u : ℕ) → (leb found u && ltb u limit && bit bitmap u) ≡ false
  pub used : (found ≡ 0) ⊎ (c : ℕ) × (found ≡ suc c) × (bit bitmap c ≡ true)

byte_top :
    (b : ℕ)
    → b < 256
    → (b == 0) ≡ false
    → (1 ≤ bit_length b)
      × (bit_length b ≤ 8)
      × (byte_bit b (bit_length b - 1) ≡ true)
      × ((j : ℕ) → j < 8 → bit_length b ≤ j → byte_bit b j ≡ false)
byte_top b h k =
    let row = table_entry 256 _ b h top_table in
    let row' : (leb 1 (bit_length b)
          && leb (bit_length b) 8
          && byte_bit b (bit_length b - 1)
          && holds_on 0 8 (λ j. ltb j (bit_length b) || (if byte_bit b j then false else true)))
        ≡ true =
      rw k at row in
    (
      ground (arith, row'),
      ground (arith, row'),
      ground (arith, row'),
      λ j p q.
          let entry =
            table_entry 8 (λ j. ltb j (bit_length b) || (if byte_bit b j then false else true)) j p
              (ground (arith, row')) in
          ground (arith, entry),
    )

bit-byte :
    (bitmap : List ℕ) (n u : ℕ)
    → n * 8 ≤ u
    → u < suc n * 8
    → bit bitmap u ≡ byte_bit (get_or bitmap n 0) (u % 8)
unfolding bit
bit-byte bitmap n u p q = let e : u / 8 ≡ n = omega arith in rw e refl

search_bytes-IsHighest :
    (n : ℕ) (bitmap : List ℕ) → AreBytes bitmap → IsHighest bitmap (n * 8) (search_bytes n bitmap)
unfolding search_bytes
search_bytes-IsHighest zero bitmap h = record {
  inside = omega arith;
  free = λ u. ground arith;
  used = inl refl;
}
search_bytes-IsHighest (suc n) bitmap h = elim (Bool-cases (get_or bitmap n 0 == 0)) [
  | inl empty ↦
      let below = search_bytes-IsHighest n bitmap h in
      rw empty (record {
        inside = omega (arith, below.inside);
        free = λ u.
            let zero_bit : byte_bit (get_or bitmap n 0) (u % 8) ≡ false =
              let e : get_or bitmap n 0 ≡ 0 = ground (arith, empty) in
              rw e (byte_bit-fill false (u % 8) (omega arith)) in
            let clear = λ (p : n * 8 ≤ u) (q : u < suc n * 8). bit-byte bitmap n u p q ∙ zero_bit in
            ground (arith, below.free u, clear);
        used = below.used;
      })
  | inr some_used ↦
      let (low, high, top, above) =
        byte_top (get_or bitmap n 0) (get_or-IsByte bitmap n h) some_used in
      rw some_used (record {
        inside = omega (arith, high);
        free = λ u.
            let clear = λ (p : n * 8 + bit_length (get_or bitmap n 0) ≤ u) (q : u < suc n * 8).
              bit-byte bitmap n u (omega (arith, p)) q
              ∙ above (u % 8) (omega arith) (omega (arith, p, q)) in
            ground (arith, clear);
        used =
            let c = n * 8 + (bit_length (get_or bitmap n 0) - 1) in
            let e : c % 8 ≡ bit_length (get_or bitmap n 0) - 1 = omega (arith, low, high) in
            inr (
              c,
              omega (arith, low),
              bit-byte bitmap n c (omega arith) (omega (arith, low, high)) ∙ rw e top,
            );
      })
]

-- The two ends of the search over single clusters.
abbrev Searched : List ℕ → ℕ → Result ℕ ℕ → Type 0
Searched bitmap limit (err found) = IsHighest bitmap limit found
Searched bitmap limit (ok count) =
    (count % 8 ≡ 0)
    × (count ≤ limit)
    × ((u : ℕ) → (leb count u && ltb u limit && bit bitmap u) ≡ false)

Searched-more :
    (bitmap : List ℕ) (cluster : ℕ) (r : Result ℕ ℕ)
    → bit bitmap cluster ≡ false
    → Searched bitmap cluster r
    → Searched bitmap (suc cluster) r
Searched-more bitmap cluster (err found) k h = record {
  inside = omega (arith, h.inside);
  free =
      λ u. let here = λ (e : u ≡ cluster). ap (bit bitmap) e ∙ k in ground (arith, h.free u, here);
  used = h.used;
}
Searched-more bitmap cluster (ok count) k (aligned, inside, free) = (
  aligned,
  omega (arith, inside),
  λ u. let here = λ (e : u ≡ cluster). ap (bit bitmap) e ∙ k in ground (arith, free u, here),
)

search_bits-Searched :
    (limit : ℕ) (bitmap : List ℕ) → Searched bitmap limit (search_bits limit bitmap)
unfolding search_bits
search_bits-Searched zero bitmap = (omega arith, omega arith, λ u. ground arith)
search_bits-Searched (suc cluster) bitmap = elim (Bool-cases (cluster % 8 == 7)) [
  | inl last ↦ rw last (ground (arith, last), omega arith, λ u. ground arith)
  | inr middle ↦ elim (Bool-cases (bit bitmap cluster)) [
    | inl used ↦
        rw (middle, used)
          (record {
            inside = omega arith;
            free = λ u. ground arith;
            used = inr (cluster, refl, used);
          })
    | inr clear ↦
        rw (middle, clear)
          (Searched-more bitmap cluster (search_bits cluster bitmap) clear
            (search_bits-Searched cluster bitmap))
  ]
]

-- For a bitmap of bytes, _highest_used_before with its path for whole bytes returns at most the
-- limit; every cluster from the result up to the limit is free, and the result is zero or the
-- cluster just before it is used.
pub highest_used_before-IsHighest :
    (bitmap : List ℕ) (before : ℤ)
    → AreBytes bitmap
    → IsHighest bitmap (limit_of bitmap before) (highest_used_before bitmap before)
unfolding highest_used_before
highest_used_before-IsHighest bitmap before h =
    finish (search_bits (limit_of bitmap before) bitmap)
      (search_bits-Searched (limit_of bitmap before) bitmap)
  where
    finish :
        (r : Result ℕ ℕ)
        → Searched bitmap (limit_of bitmap before) r
        → IsHighest bitmap
            (limit_of bitmap before)
            (elim r [ err found ↦ found | ok count ↦ search_bytes (count / 8) bitmap ])
    finish (err found) s = s
    finish (ok count) (aligned, inside, free) =
        let whole : count / 8 * 8 ≡ count = omega (arith, aligned) in
        let low = search_bytes-IsHighest (count / 8) bitmap h in
        record {
          inside = omega (arith, low.inside, whole, inside);
          free = λ u. ground (arith, low.free u, free u, whole);
          used = low.used;
        }
