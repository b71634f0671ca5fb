-- ===== src/Ntfs/Records/Fixups.antt =====
-- Fixups that are prepared are taken back when the record is read.
use native.Mathlib.Nat.{add-mul, one-mul}
use linux_defragger.Prelude.{
  ℕ, zero, suc, ◌+◌, ◌-◌, ◌*◌, ◌<◌, ◌≤◌, ◌≡◌, ◌≢◌, refl, ap, ◌∙◌, true, ◌&&◌, List, ◌==◌,
  if◌then◌else◌, length, get_or, set, get_or-set_self, get_or-set_ne, length-set, arith, Bool-cases,
  inl, inr, ok,
}
use linux_defragger.Ntfs.Records.{put2, copy2, apply_from, prepare_from}

get_or-set :
    (r : List ℕ) (a v j : ℕ)
    → a < length r
    → get_or (set r a v) j 0 ≡ (if j == a then v else get_or r j 0)
get_or-set r a v j p = elim (Bool-cases (j == a)) [
  | inl e ↦ let same : j ≡ a = ground (arith, e) in rw (e, same) (get_or-set_self r a v 0 p)
  | inr e ↦ rw e (get_or-set_ne r a j v 0 (λ same. ground (arith, e, same)))
]

pub length-put2 : (r : List ℕ) (a x y : ℕ) → length (put2 r a x y) ≡ length r
unfolding put2
length-put2 r a x y = length-set (set r a x) (a + 1) y ∙ length-set r a x

pub get_or-put2 :
    (r : List ℕ) (a x y j : ℕ)
    → a + 1 < length r
    → get_or (put2 r a x y) j 0 ≡ (if j == a + 1 then y else if j == a then x else get_or r j 0)
unfolding put2
get_or-put2 r a x y j p =
    get_or-set (set r a x) (a + 1) y j (rw (length-set r a x) p)
    ∙ ap (λ v. if j == a + 1 then y else v) (get_or-set r a x j (omega (arith, p)))

copy2_eq :
    (r : List ℕ) (to at' : ℕ) → copy2 r to at' ≡ put2 r to (get_or r at' 0) (get_or r (at' + 1) 0)
unfolding copy2
copy2_eq r to at' = refl

pub product_gap : (ss i k : ℕ) → i < k → i * ss + ss ≤ k * ss
product_gap ss i k p =
    let d = k - (i + 1) in
    let e : k ≡ i + 1 + d = omega (arith, p) in
    let product : k * ss ≡ (i + 1) * ss + d * ss = ap (λ n. n * ss) e ∙ add-mul (i + 1) d ss in
    omega (arith, product, add-mul i 1 ss, one-mul ss)

-- The array lies before the end of the first sector, and all sectors that it guards in the record.
module _ (ss usa usn0 usn1 count size : ℕ) (room : usa + count * 2 + 2 ≤ ss)
    (inside : (count - 1) * ss ≤ size) where
  -- The byte is not one of the last two of a sector from `i` on.
  abbrev pub Body : ℕ → ℕ → ℕ → Type 0
  Body left i j = (k : ℕ) → i ≤ k → k < i + left → (j ≢ k * ss - 2) × (j ≢ k * ss - 1)

  sector-inside : (k : ℕ) → 1 ≤ k → k < count → (ss ≤ k * ss) × (k * ss ≤ size)
  sector-inside k p q = elim (Bool-cases (k == count - 1)) [
    | inl e ↦
        let last : k ≡ count - 1 = ground (arith, e) in
        (omega (arith, product_gap ss 0 k (omega (arith, p))), rw last inside)
    | inr e ↦ (
      omega (arith, product_gap ss 0 k (omega (arith, p))),
      omega (arith, inside, product_gap ss k (count - 1) (ground (arith, e, q))),
    )
  ]

  -- No sector behind sector `i` ends in front of its end.
  later-Body : (left i j : ℕ) → i < count → j < i * ss → Body left (i + 1) j
  later-Body left i j p q k a b =
      let gap = product_gap ss i k (omega (arith, a)) in
      (ground (arith, gap, room, p, q), ground (arith, gap, room, p, q))

  -- A record after the preparation of the sectors from `i` on.
  pub record Prepared (left i : ℕ) (r out : List ℕ) : Type 0 where
    pub same_size : length out ≡ length r
    pub kept :
        (j : ℕ)
        → Body left i j
        → (usa + i * 2 ≤ j → j < usa + (i + left) * 2 → ⊥)
        → get_or out j 0 ≡ get_or r j 0
    pub marked :
        (k : ℕ)
        → i ≤ k
        → k < i + left
        → (get_or out (k * ss - 2) 0 ≡ usn0) × (get_or out (k * ss - 1) 0 ≡ usn1)
    pub saved :
        (k : ℕ)
        → i ≤ k
        → k < i + left
        → (get_or out (usa + k * 2) 0 ≡ get_or r (k * ss - 2) 0)
          × (get_or out (usa + k * 2 + 1) 0 ≡ get_or r (k * ss - 1) 0)

  -- One sector.
  abbrev prepared_sector : ℕ → List ℕ → List ℕ
  prepared_sector i r = put2 (copy2 r (usa + i * 2) (i * ss - 2)) (i * ss - 2) usn0 usn1

  prepared_sector-get :
      (i : ℕ) (r : List ℕ) (j : ℕ)
      → 1 ≤ i
      → i < count
      → length r ≡ size
      → get_or (prepared_sector i r) j 0 ≡ (
          if j == i * ss - 1
          then usn1
          else if j == i * ss - 2
          then usn0
          else if j == usa + i * 2 + 1
          then get_or r (i * ss - 1) 0
          else if j == usa + i * 2
          then get_or r (i * ss - 2) 0
          else get_or r j 0)
  prepared_sector-get i r j p q e =
      let (low, high) = sector-inside i p q in
      let next : i * ss - 2 + 1 ≡ i * ss - 1 = omega (arith, low, room, q) in
      let copied : get_or (copy2 r (usa + i * 2) (i * ss - 2)) j 0 ≡ (
          if j == usa + i * 2 + 1
          then get_or r (i * ss - 2 + 1) 0
          else if j == usa + i * 2
          then get_or r (i * ss - 2) 0
          else get_or r j 0) =
        rw (copy2_eq r (usa + i * 2) (i * ss - 2))
          (get_or-put2 r (usa + i * 2) _ _ j (omega (arith, e, low, high, room, q))) in
      let size' : length (copy2 r (usa + i * 2) (i * ss - 2)) ≡ length r =
        rw (copy2_eq r (usa + i * 2) (i * ss - 2)) (length-put2 r (usa + i * 2) _ _) in
      let marked =
        get_or-put2 (copy2 r (usa + i * 2) (i * ss - 2)) (i * ss - 2) usn0 usn1 j
          (omega (arith, e, size', low, high, room, q)) in
      rw next at (
        marked
        ∙ ap (λ v. if j == i * ss - 2 + 1 then usn1 else if j == i * ss - 2 then usn0 else v)
            copied)

  -- Where the sector changes nothing.
  prepared_sector-kept :
      (i : ℕ) (r : List ℕ) (j : ℕ)
      → 1 ≤ i
      → i < count
      → length r ≡ size
      → j ≢ i * ss - 2
      → j ≢ i * ss - 1
      → (usa + i * 2 ≤ j → j < usa + i * 2 + 2 → ⊥)
      → get_or (prepared_sector i r) j 0 ≡ get_or r j 0
  prepared_sector-kept i r j p q e a b c = prepared_sector-get i r j p q e ∙ ground (arith, a, b, c)

  pub prepare_from-Prepared :
      (left i : ℕ) (r : List ℕ)
      → 1 ≤ i
      → i + left ≤ count
      → length r ≡ size
      → Prepared left i r (prepare_from ss usa usn0 usn1 left i r)
  unfolding prepare_from
  prepare_from-Prepared zero i r p q e = record {
    same_size = refl;
    kept = λ j h k. refl;
    marked = λ k a b. absurd (omega (arith, a, b));
    saved = λ k a b. absurd (omega (arith, a, b));
  }
  prepare_from-Prepared (suc left) i r p q e =
      let below : i < count = omega (arith, q) in
      let (low, high) = sector-inside i p below in
      let size' : length (prepared_sector i r) ≡ length r =
        length-put2 (copy2 r (usa + i * 2) (i * ss - 2)) (i * ss - 2) usn0 usn1
        ∙ rw (copy2_eq r (usa + i * 2) (i * ss - 2)) (length-put2 r (usa + i * 2) _ _) in
      let ih =
        prepare_from-Prepared left (i + 1) (prepared_sector i r) (omega arith) (omega (arith, q))
          (size' ∙ e) in
      record {
        same_size = ih.same_size ∙ size';
        kept = λ j h k.
            ih.kept j (λ l a b. h l (omega (arith, a)) (omega (arith, b)))
              (λ a b. k (omega (arith, a)) (omega (arith, b)))
            ∙ prepared_sector-kept i r j p below e (h i (omega arith) (omega arith)).0
                (h i (omega arith) (omega arith)).1 (λ a b. k a (omega (arith, b)));
        marked = λ k a b. elim (Bool-cases (k == i)) [
          | inr later ↦ ih.marked k (ground (arith, a, later)) (omega (arith, b))
          | inl here ↦
              let same : k ≡ i = ground (arith, here) in
              rw same (
                (ih.kept (i * ss - 2)
                      (later-Body left i (i * ss - 2) below (omega (arith, low, room, below)))
                      (λ c d. omega (arith, d, low, room, q))
                    ∙ prepared_sector-get i r (i * ss - 2) p below e
                    ∙ ground (arith, low, room, below)),
                (ih.kept (i * ss - 1)
                      (later-Body left i (i * ss - 1) below (omega (arith, low, room, below)))
                      (λ c d. omega (arith, d, low, room, q))
                    ∙ prepared_sector-get i r (i * ss - 1) p below e
                    ∙ ground (arith, low, room, below)),
              )
        ];
        saved = λ k a b. elim (Bool-cases (k == i)) [
          | inr later ↦
              let after : i < k = ground (arith, a, later) in
              let gap = product_gap ss i k after in
              let (x, y) = ih.saved k (omega (arith, after)) (omega (arith, b)) in
              (
                x
                    ∙ prepared_sector-kept i r (k * ss - 2) p below e
                        (ground (arith, gap, low, room, below))
                        (ground (arith, gap, low, room, below))
                        (λ c d. omega (arith, gap, low, room, below, d)),
                y
                    ∙ prepared_sector-kept i r (k * ss - 1) p below e
                        (ground (arith, gap, low, room, below))
                        (ground (arith, gap, low, room, below))
                        (λ c d. omega (arith, gap, low, room, below, d)),
              )
          | inl here ↦
              let same : k ≡ i = ground (arith, here) in
              rw same (
                (ih.kept (usa + i * 2)
                      (later-Body left i (usa + i * 2) below (omega (arith, low, room, below)))
                      (λ c d. omega (arith, c))
                    ∙ prepared_sector-get i r (usa + i * 2) p below e
                    ∙ ground (arith, low, room, below)),
                (ih.kept (usa + i * 2 + 1)
                      (later-Body left i (usa + i * 2 + 1) below (omega (arith, low, room, below)))
                      (λ c d. omega (arith, c))
                    ∙ prepared_sector-get i r (usa + i * 2 + 1) p below e
                    ∙ ground (arith, low, room, below)),
              )
        ];
      }

  -- A record after the sectors from `i` on are taken back.
  pub record Applied (left i : ℕ) (r out : List ℕ) : Type 0 where
    pub same_size : length out ≡ length r
    pub kept : (j : ℕ) → Body left i j → get_or out j 0 ≡ get_or r j 0
    pub restored :
        (k : ℕ)
        → i ≤ k
        → k < i + left
        → (get_or out (k * ss - 2) 0 ≡ get_or r (usa + k * 2) 0)
          × (get_or out (k * ss - 1) 0 ≡ get_or r (usa + k * 2 + 1) 0)

  abbrev pub Marked : ℕ → ℕ → List ℕ → Type 0
  Marked left i r =
      (k : ℕ)
      → i ≤ k
      → k < i + left
      → (get_or r (k * ss - 2) 0 ≡ usn0) × (get_or r (k * ss - 1) 0 ≡ usn1)

  abbrev applied_sector : ℕ → List ℕ → List ℕ
  applied_sector i r = copy2 r (i * ss - 2) (usa + i * 2)

  applied_sector-get :
      (i : ℕ) (r : List ℕ) (j : ℕ)
      → 1 ≤ i
      → i < count
      → length r ≡ size
      → get_or (applied_sector i r) j 0 ≡ (
          if j == i * ss - 1
          then get_or r (usa + i * 2 + 1) 0
          else if j == i * ss - 2
          then get_or r (usa + i * 2) 0
          else get_or r j 0)
  applied_sector-get i r j p q e =
      let (low, high) = sector-inside i p q in
      let next : i * ss - 2 + 1 ≡ i * ss - 1 = omega (arith, low, room, q) in
      rw (copy2_eq r (i * ss - 2) (usa + i * 2)) (
        rw next at (
          get_or-put2 r (i * ss - 2) (get_or r (usa + i * 2) 0) (get_or r (usa + i * 2 + 1) 0) j
            (omega (arith, e, low, high, room, q))))

  applied_sector-kept :
      (i : ℕ) (r : List ℕ) (j : ℕ)
      → 1 ≤ i
      → i < count
      → length r ≡ size
      → j ≢ i * ss - 2
      → j ≢ i * ss - 1
      → get_or (applied_sector i r) j 0 ≡ get_or r j 0
  applied_sector-kept i r j p q e a b = applied_sector-get i r j p q e ∙ ground (arith, a, b)

  Applied-step :
      (left i : ℕ) (r out : List ℕ)
      → 1 ≤ i
      → i < count
      → length r ≡ size
      → length (applied_sector i r) ≡ length r
      → i + suc left ≤ count
      → Applied left (i + 1) (applied_sector i r) out
      → Applied (suc left) i r out
  Applied-step left i r out p below e size' q ih =
      let (low, high) = sector-inside i p below in
      record {
        same_size = ih.same_size ∙ size';
        kept = λ j h.
            ih.kept j (λ l a b. h l (omega (arith, a)) (omega (arith, b)))
            ∙ applied_sector-kept i r j p below e (h i (omega arith) (omega arith)).0
                (h i (omega arith) (omega arith)).1;
        restored = λ k a b. elim (Bool-cases (k == i)) [
          | inr later ↦
              let after : i < k = ground (arith, a, later) in
              let under : usa + k * 2 + 2 < i * ss - 1 = omega (arith, room, b, q, low) in
              let (x, y) = ih.restored k (omega (arith, after)) (omega (arith, b)) in
              (
                x
                    ∙ applied_sector-kept i r (usa + k * 2) p below e (ground (arith, under))
                        (ground (arith, under)),
                y
                    ∙ applied_sector-kept i r (usa + k * 2 + 1) p below e (ground (arith, under))
                        (ground (arith, under)),
              )
          | inl here ↦
              let same : k ≡ i = ground (arith, here) in
              rw same (
                (ih.kept (i * ss - 2)
                      (later-Body left i (i * ss - 2) below (omega (arith, low, room, below)))
                    ∙ applied_sector-get i r (i * ss - 2) p below e
                    ∙ ground (arith, low, room, below)),
                (ih.kept (i * ss - 1)
                      (later-Body left i (i * ss - 1) below (omega (arith, low, room, below)))
                    ∙ applied_sector-get i r (i * ss - 1) p below e
                    ∙ ground (arith, low, room, below)),
              )
        ];
      }

  pub apply_from-Applied :
      (left i : ℕ) (r : List ℕ)
      → 1 ≤ i
      → i + left ≤ count
      → length r ≡ size
      → Marked left i r
      → (out : List ℕ) × (apply_from ss usa usn0 usn1 left i r ≡ ok out) × Applied left i r out
  unfolding apply_from
  apply_from-Applied zero i r p q e m = (
    r,
    refl,
    record {
      same_size = refl;
      kept = λ j h. refl;
      restored = λ k a b. absurd (omega (arith, a, b));
    },
  )
  apply_from-Applied (suc left) i r p q e m =
      let below : i < count = omega (arith, q) in
      let (low, high) = sector-inside i p below in
      let size' : length (applied_sector i r) ≡ length r =
        rw (copy2_eq r (i * ss - 2) (usa + i * 2)) (length-put2 r (i * ss - 2) _ _) in
      let apart : (k : ℕ)
          → i < k
          → (k * ss - 2 ≢ i * ss - 2)
            × (k * ss - 2 ≢ i * ss - 1)
            × (k * ss - 1 ≢ i * ss - 2)
            × (k * ss - 1 ≢ i * ss - 1) =
        λ k a.
          let gap = product_gap ss i k a in
          (
            ground (arith, gap, low, room, below),
            ground (arith, gap, low, room, below),
            ground (arith, gap, low, room, below),
            ground (arith, gap, low, room, below),
          ) in
      let marked : Marked left (i + 1) (applied_sector i r) = λ k a b.
        let (s, t, u, v) = apart k (omega (arith, a)) in
        (
          applied_sector-kept i r (k * ss - 2) p below e s t
              ∙ (m k (omega (arith, a)) (omega (arith, b))).0,
          applied_sector-kept i r (k * ss - 1) p below e u v
              ∙ (m k (omega (arith, a)) (omega (arith, b))).1,
        ) in
      let (out, ran, ih) =
        apply_from-Applied left (i + 1) (applied_sector i r) (omega arith) (omega (arith, q))
          (size' ∙ e) marked in
      let (first, second) = m i (omega arith) (omega arith) in
      let same : (get_or r (i * ss - 2) 0 == usn0 && get_or r (i * ss - 1) 0 == usn1) ≡ true =
        ground (arith, first, second) in
      (out, rw same ran, Applied-step left i r out p below e size' q ih)
