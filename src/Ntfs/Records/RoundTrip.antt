-- ===== src/Ntfs/Records/RoundTrip.antt =====
-- Preparing the fixups of a record and taking them back.
use native.Mathlib.Nat.{div-mul-le_self}
use linux_defragger.Prelude.{
  ℕ, zero, suc, ◌+◌, ◌-◌, ◌*◌, ◌/◌, ◌%◌, ◌<◌, ◌≤◌, ◌≡◌, ◌≢◌, refl, ◌∙◌, true, false, List, ltb,
  ◌==◌, if◌then◌else◌, length, get_or, arith, Bool-cases, inl, inr, ◌⊎◌, ok,
}
use linux_defragger.Ntfs.Records.{
  read_u16, put2, apply_from, prepare_from, next_number, apply_fixups, prepare_fixups,
}
use linux_defragger.Ntfs.Records.Fixups.{
  product_gap, length-put2, get_or-put2, Body, Prepared, prepare_from-Prepared, apply_from-Applied,
}

-- Two records with the same two bytes at a place.
read_u16-same :
    (r s : List ℕ) (a : ℕ)
    → length r ≡ length s
    → get_or r a 0 ≡ get_or s a 0
    → get_or r (a + 1) 0 ≡ get_or s (a + 1) 0
    → read_u16 r a ≡ read_u16 s a
unfolding read_u16
read_u16-same r s a e h k = rw (e, h, k) refl

read_u16-ok :
    (r : List ℕ) (a : ℕ)
    → a + 2 ≤ length r
    → read_u16 r a ≡ ok (get_or r a 0 + 256 * get_or r (a + 1) 0)
unfolding read_u16
read_u16-ok r a p =
    let inside : ltb (length r) (a + 2) ≡ false = ground (arith, p) in rw inside refl

-- A byte is one of the last two of some sector, or of none.
find_sector :
    (ss left i j : ℕ)
    → ((k : ℕ) → i ≤ k → k < i + left → (j ≢ k * ss - 2) × (j ≢ k * ss - 1))
      ⊎ ((k : ℕ) × (i ≤ k) × (k < i + left) × ((j ≡ k * ss - 2) ⊎ (j ≡ k * ss - 1)))
find_sector ss zero i j = inl (λ k a b. absurd (omega (arith, a, b)))
find_sector ss (suc left) i j = elim (Bool-cases (j == i * ss - 2)) [
  | inl e ↦ inr (i, omega arith, omega arith, inl (ground (arith, e)))
  | inr e ↦ elim (Bool-cases (j == i * ss - 1)) [
    | inl f ↦ inr (i, omega arith, omega arith, inr (ground (arith, f)))
    | inr f ↦ elim (find_sector ss left (i + 1) j) [
      | inr (k, a, b, h) ↦ inr (k, omega (arith, a), omega (arith, b), h)
      | inl h ↦ inl (λ k a b. elim (Bool-cases (k == i)) [
        | inl here ↦
            let same : k ≡ i = ground (arith, here) in
            rw same (ground (arith, e), ground (arith, f))
        | inr later ↦ h k (ground (arith, a, later)) (omega (arith, b))
      ])
    ]
  ]
]

module _ (fixed : List ℕ) (ss usa count : ℕ) (sectors : count ≡ length fixed / ss + 1)
    (whole : ss ≤ length fixed) (room : usa + count * 2 + 2 ≤ ss) where
  inside : (count - 1) * ss ≤ length fixed
  inside =
      let e : count - 1 ≡ length fixed / ss = omega (arith, sectors) in
      rw e (div-mul-le_self (length fixed) ss)

  module _ (usn0 usn1 : ℕ) where
    abbrev started : List ℕ
    started = put2 fixed usa usn0 usn1

    abbrev prepared : List ℕ
    prepared = prepare_from ss usa usn0 usn1 (count - 1) 1 started

    started-size : length started ≡ length fixed
    started-size = length-put2 fixed usa usn0 usn1

    started-get :
        (j : ℕ)
        → get_or started j 0
          ≡ (if j == usa + 1 then usn1 else if j == usa then usn0 else get_or fixed j 0)
    started-get j = get_or-put2 fixed usa usn0 usn1 j (omega (arith, room, whole, sectors))

    prep : Prepared ss usa usn0 usn1 count (length fixed) room inside (count - 1) 1 started prepared
    prep =
        prepare_from-Prepared ss usa usn0 usn1 count (length fixed) room inside (count - 1) 1
          started (omega arith) (omega (arith, sectors)) started-size

    prepared-size : length prepared ≡ length fixed
    prepared-size = prep.same_size ∙ started-size

    -- The bytes in front of the end of the first sector, outside the array.
    front-Body :
        (j : ℕ)
        → j + 2 < ss
        → Body ss usa usn0 usn1 count (length fixed) room inside (count - 1) 1 j
    front-Body j p k a b =
        let low = product_gap ss 0 k (omega (arith, a)) in
        (ground (arith, p, low), ground (arith, p, low))

    prepared-front : (j : ℕ) → j < usa → get_or prepared j 0 ≡ get_or fixed j 0
    prepared-front j p =
        prep.kept j (front-Body j (omega (arith, p, room))) (λ a b. omega (arith, a, p))
        ∙ started-get j
        ∙ ground (arith, p)

    -- The sequence number itself.
    prepared-number : (get_or prepared usa 0 ≡ usn0) × (get_or prepared (usa + 1) 0 ≡ usn1)
    prepared-number = (
      prep.kept usa (front-Body usa (omega (arith, room, sectors))) (λ a b. omega (arith, a))
          ∙ started-get usa
          ∙ ground arith,
      prep.kept (usa + 1) (front-Body (usa + 1) (omega (arith, room, sectors)))
            (λ a b. omega (arith, a))
          ∙ started-get (usa + 1)
          ∙ ground arith,
    )

    -- Taking the sectors back gives every byte outside the array as it was.
    taken_back :
        (out : List ℕ) × (apply_from ss usa usn0 usn1 (count - 1) 1 prepared ≡ ok out)
        × (length out ≡ length fixed)
        × ((j : ℕ) → (usa ≤ j → j < usa + count * 2 → ⊥) → get_or out j 0 ≡ get_or fixed j 0)
    taken_back =
        let (out, ran, app) =
          apply_from-Applied ss usa usn0 usn1 count (length fixed) room inside (count - 1) 1
            prepared (omega arith) (omega (arith, sectors)) prepared-size prep.marked in
        (
          out,
          ran,
          app.same_size ∙ prepared-size,
          λ j free. elim (find_sector ss (count - 1) 1 j) [
            | inl body ↦
                app.kept j body
                ∙ prep.kept j body (λ a b. free (omega (arith, a)) (omega (arith, b)))
                ∙ started-get j
                ∙ ground (arith, free, sectors)
            | inr (k, a, b, which) ↦
                let low = product_gap ss 0 k (omega (arith, a)) in
                let (x, y) = app.restored k a b in
                let (z, w) = prep.saved k a b in
                elim which [
                  | inl e ↦
                      rw e (x ∙ z ∙ started-get (k * ss - 2) ∙ ground (arith, low, room, sectors))
                  | inr e ↦
                      rw e (y ∙ w ∙ started-get (k * ss - 1) ∙ ground (arith, low, room, sectors))
                ]
          ],
        )

-- For a record of at least one sector whose update-sequence array, as its header says, has an entry
-- for each sector and one more, and lies behind the first eight bytes and in front of the last two
-- bytes of the first sector: _prepare_fixups returns a record, _apply_fixups accepts it, and the
-- result has the size of the first record and the same bytes outside the array.
pub apply_fixups-prepare_fixups :
    (fixed : List ℕ) (ss usa count : ℕ)
    → read_u16 fixed 4 ≡ ok usa
    → read_u16 fixed 6 ≡ ok count
    → count ≡ length fixed / ss + 1
    → ss ≤ length fixed
    → 8 ≤ usa
    → usa + count * 2 + 2 ≤ ss
    → (raw : List ℕ) × (out : List ℕ) × (prepare_fixups fixed ss ≡ ok raw)
      × (apply_fixups raw ss ≡ ok out)
      × (length out ≡ length fixed)
      × ((j : ℕ) → (usa ≤ j → j < usa + count * 2 → ⊥) → get_or out j 0 ≡ get_or fixed j 0)
unfolding prepare_fixups apply_fixups
apply_fixups-prepare_fixups fixed ss usa count has_usa has_count sectors whole header room =
    let old = get_or fixed usa 0 + 256 * get_or fixed (usa + 1) 0 in
    let usn0 = next_number old % 256 in
    let usn1 = next_number old / 256 in
    let raw = prepare_from ss usa usn0 usn1 (count - 1) 1 (put2 fixed usa usn0 usn1) in
    let size : length raw ≡ length fixed =
      prepared-size fixed ss usa count sectors whole room usn0 usn1 in
    let front = prepared-front fixed ss usa count sectors whole room usn0 usn1 in
    let (first, second) = prepared-number fixed ss usa count sectors whole room usn0 usn1 in
    let (out, ran, kept_size, kept) = taken_back fixed ss usa count sectors whole room usn0 usn1 in
    let at_usa : read_u16 fixed usa ≡ ok old =
      read_u16-ok fixed usa (omega (arith, room, whole, sectors)) in
    let usa' : read_u16 raw 4 ≡ ok usa =
      read_u16-same raw fixed 4 size (front 4 (omega (arith, header)))
        (front 5 (omega (arith, header)))
      ∙ has_usa in
    let count' : read_u16 raw 6 ≡ ok count =
      read_u16-same raw fixed 6 size (front 6 (omega (arith, header)))
        (front 7 (omega (arith, header)))
      ∙ has_count in
    let counted : (count == length fixed / ss + 1) ≡ true = ground (arith, sectors) in
    let counted' : (count == length raw / ss + 1) ≡ true = rw size counted in
    let fits : ltb (length fixed) (usa + count * 2) ≡ false = ground (arith, room, whole) in
    let fits' : ltb (length raw) (usa + count * 2) ≡ false = rw size fits in
    (
      raw,
      out,
      rw (has_usa, has_count, counted, fits, at_usa) refl,
      rw (usa', count', counted', fits', first, second) ran,
      kept_size,
      kept,
    )
