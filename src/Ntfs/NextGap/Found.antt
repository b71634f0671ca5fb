-- ===== src/Ntfs/NextGap/Found.antt =====
-- What `_next_free_run` finds.
use linux_defragger.Prelude.{
  ℕ, zero, suc, ◌+◌, ◌-◌, ◌/◌, ◌%◌, ◌<◌, ◌≤◌, ◌≡◌, refl, ap, ◌∙◌, Bool, true, false, ◌&&◌, Option,
  some, none, List, ltb, leb, ◌==◌, if◌then◌else◌, get_or, arith, Bool-cases, inl, inr,
}
use linux_defragger.Prelude.Int.{ℤ}
use linux_defragger.Ntfs.Bitmap.{bit}
use linux_defragger.Ntfs.Bitmap.SetRange.{byte_bit-fill}
use linux_defragger.Ntfs.Gaps.{limit_of}
use linux_defragger.Ntfs.Gaps.Free.{whole_bits}
use linux_defragger.Ntfs.NextGap.{pass, next_free_run}

-- The clusters from `from` up to `to` have the bit `v`, and the one at `to` has not, or it is the limit.
pub record Passes (bitmap : List ℕ) (v : Bool) (limit from to : ℕ) : Type 0 where
  pub forward : from ≤ to
  pub inside : to ≤ limit
  pub same : (u : ℕ) → from ≤ u → u < to → bit bitmap u ≡ v
  pub stops : to < limit → bit bitmap to ≡ (if v then false else true)

Passes-stop :
    (bitmap : List ℕ) (v : Bool) (limit cluster : ℕ)
    → cluster ≤ limit
    → (cluster < limit → bit bitmap cluster ≡ (if v then false else true))
    → Passes bitmap v limit cluster cluster
Passes-stop bitmap v limit cluster p h = record {
  forward = omega arith;
  inside = p;
  same = λ u a b. absurd (omega (arith, a, b));
  stops = h;
}

Passes-on :
    (bitmap : List ℕ) (v : Bool) (limit from mid to : ℕ)
    → from ≤ mid
    → ((u : ℕ) → from ≤ u → u < mid → bit bitmap u ≡ v)
    → Passes bitmap v limit mid to
    → Passes bitmap v limit from to
Passes-on bitmap v limit from mid to p h s = record {
  forward = omega (arith, p, s.forward);
  inside = s.inside;
  same = λ u a b. elim (Bool-cases (ltb u mid)) [
    | inl before ↦ h u a (ground (arith, before))
    | inr behind ↦ s.same u (ground (arith, behind)) b
  ];
  stops = s.stops;
}

-- The bits of a whole byte of one value.
whole_value :
    (bitmap : List ℕ) (limit cluster : ℕ) (v : Bool)
    → (cluster % 8 == 0
        && leb (cluster + 8) limit
        && get_or bitmap (cluster / 8) 0 == (if v then 0xFF else 0x00))
      ≡ true
    → (u : ℕ) → cluster ≤ u
    → u < cluster + 8
    → bit bitmap u ≡ v
whole_value bitmap limit cluster v h u p q =
    whole_bits bitmap cluster u (if v then 0xFF else 0x00) (ground (arith, h)) (ground (arith, h)) p
      q
    ∙ byte_bit-fill v (u % 8) (omega arith)

opposite_value :
    (bitmap : List ℕ) (limit cluster : ℕ) (v : Bool)
    → (cluster % 8 == 0
        && leb (cluster + 8) limit
        && get_or bitmap (cluster / 8) 0 == (if v then 0x00 else 0xFF))
      ≡ true
    → bit bitmap cluster ≡ (if v then false else true)
opposite_value bitmap limit cluster true h =
    whole_value bitmap limit cluster false h cluster (omega arith) (omega arith)
opposite_value bitmap limit cluster false h =
    whole_value bitmap limit cluster true h cluster (omega arith) (omega arith)

at_least_one :
    (bitmap : List ℕ) (limit cluster to : ℕ)
    → Passes bitmap false limit cluster to
    → bit bitmap cluster ≡ false
    → cluster < limit
    → cluster < to
at_least_one bitmap limit cluster to t free less = elim (Bool-cases (ltb cluster to)) [
  | inl e ↦ ground (arith, e)
  | inr e ↦
      let same : to ≡ cluster = ground (arith, e, t.forward) in
      let used : bit bitmap cluster ≡ true = rw same at (t.stops (rw same less)) in
      absurd (ground (arith, used, free))
]

-- The round of a single cluster.
one_cluster :
    (bitmap : List ℕ) (v : Bool) (limit cluster rest : ℕ)
    → cluster < limit
    → Passes bitmap v limit (cluster + 1) rest
    → Passes bitmap v limit cluster (
        if bit bitmap cluster then (if v then rest else cluster) else (if v then cluster else rest))
one_cluster bitmap true limit cluster rest p s = elim (Bool-cases (bit bitmap cluster)) [
  | inl e ↦ rw e (
      Passes-on bitmap true limit cluster (cluster + 1) rest (omega arith)
        (λ u a b. ap (bit bitmap) (let i : u ≡ cluster = omega (arith, a, b) in i) ∙ e) s)
  | inr e ↦ rw e (Passes-stop bitmap true limit cluster (omega (arith, p)) (λ i. e))
]
one_cluster bitmap false limit cluster rest p s = elim (Bool-cases (bit bitmap cluster)) [
  | inl e ↦ rw e (Passes-stop bitmap false limit cluster (omega (arith, p)) (λ i. e))
  | inr e ↦ rw e (
      Passes-on bitmap false limit cluster (cluster + 1) rest (omega arith)
        (λ u a b. ap (bit bitmap) (let i : u ≡ cluster = omega (arith, a, b) in i) ∙ e) s)
]

pass-Passes :
    (v : Bool) (fuel : ℕ) (bitmap : List ℕ) (limit cluster : ℕ)
    → cluster ≤ limit
    → limit ≤ cluster + fuel
    → Passes bitmap v limit cluster (pass v fuel bitmap limit cluster)
unfolding pass
pass-Passes v zero bitmap limit cluster p q =
    Passes-stop bitmap v limit cluster p (λ i. absurd (omega (arith, i, q)))
pass-Passes v (suc fuel) bitmap limit cluster p q = elim (Bool-cases (ltb cluster limit)) [
  | inr at_limit ↦
      rw at_limit (Passes-stop bitmap v limit cluster p (λ i. absurd (ground (arith, i, at_limit))))
  | inl before ↦
      let less : cluster < limit = ground (arith, before) in
      let value = get_or bitmap (cluster / 8) 0 in
      elim (Bool-cases
        (cluster % 8 == 0 && leb (cluster + 8) limit && value == (if v then 0xFF else 0x00))) [
          | inl same ↦
              let room : cluster + 8 ≤ limit = ground (arith, same) in
              rw (before, same)
                (Passes-on bitmap v limit cluster (cluster + 8) _ (omega arith)
                  (whole_value bitmap limit cluster v same)
                  (pass-Passes v fuel bitmap limit (cluster + 8) room (omega (arith, q))))
          | inr other ↦
              elim (Bool-cases (
                cluster % 8 == 0
                && leb (cluster + 8) limit
                && value == (if v then 0x00 else 0xFF))) [
                  | inl opposite ↦
                      rw (before, other, opposite)
                        (Passes-stop bitmap v limit cluster p
                          (λ i. opposite_value bitmap limit cluster v opposite))
                  | inr mixed ↦
                      rw (before, other, mixed)
                        (one_cluster bitmap v limit cluster _ less (
                          pass-Passes v fuel bitmap limit (cluster + 1) (omega (arith, less))
                            (omega (arith, q))))
                ]
        ]
]

pass_past :
    (v : Bool) (fuel : ℕ) (bitmap : List ℕ) (limit cluster : ℕ)
    → limit < cluster
    → pass v fuel bitmap limit cluster ≡ cluster
unfolding pass
pass_past v zero bitmap limit cluster h = refl
pass_past v (suc fuel) bitmap limit cluster h =
    let past : ltb cluster limit ≡ false = ground (arith, h) in rw past refl

-- What `_next_free_run` returns: the first free run from `start` on, whole, or none if all clusters
-- from there to the limit are used.
abbrev pub IsNext : List ℕ → ℕ → ℕ → Option (ℕ × ℕ) → Type 0
IsNext bitmap limit start none = (u : ℕ) → start ≤ u → u < limit → bit bitmap u ≡ true
IsNext bitmap limit start (some (lcn, n)) =
    (start ≤ lcn)
    × (0 < n)
    × (lcn + n ≤ limit)
    × ((u : ℕ) → start ≤ u → u < lcn → bit bitmap u ≡ true)
    × ((u : ℕ) → lcn ≤ u → u < lcn + n → bit bitmap u ≡ false)
    × (lcn + n < limit → bit bitmap (lcn + n) ≡ true)

-- _next_free_run, with its paths for whole bytes, returns a run of free clusters below the limit,
-- one at least, that starts at the first free cluster from the start on and ends at a used cluster
-- or at the limit; or it returns none, and all clusters from the start up to the limit are used.
pub next_free_run-IsNext :
    (bitmap : List ℕ) (start : ℕ) (before : ℤ)
    → IsNext bitmap (limit_of bitmap before) start (next_free_run bitmap start before)
unfolding next_free_run
next_free_run-IsNext bitmap start before = elim (Bool-cases (leb start (limit_of bitmap before))) [
  | inr past ↦
      let still : pass true (limit_of bitmap before) bitmap (limit_of bitmap before) start ≡ start =
        pass_past true (limit_of bitmap before) bitmap (limit_of bitmap before) start
          (ground (arith, past)) in
      let none_left : leb (limit_of bitmap before) start ≡ true = ground (arith, past) in
      rw (still, none_left) (λ u a b. absurd (ground (arith, past, a, b)))
  | inl within ↦
      let s =
        pass-Passes true (limit_of bitmap before) bitmap (limit_of bitmap before) start
          (ground (arith, within)) (omega arith) in
      found (pass true (limit_of bitmap before) bitmap (limit_of bitmap before) start) s
]
  where
    found :
        (cluster : ℕ)
        → Passes bitmap true (limit_of bitmap before) start cluster
        → IsNext bitmap (limit_of bitmap before) start (
            if leb (limit_of bitmap before) cluster
            then none
            else some (
              cluster,
              pass false (limit_of bitmap before) bitmap (limit_of bitmap before) cluster - cluster,
            ))
    found cluster s = elim (Bool-cases (leb (limit_of bitmap before) cluster)) [
      | inl all_used ↦ rw all_used (λ u a b. s.same u a (ground (arith, all_used, b)))
      | inr at_free ↦
          let t =
            pass-Passes false (limit_of bitmap before) bitmap (limit_of bitmap before) cluster
              s.inside (omega arith) in
          let less : cluster < (limit_of bitmap before) = ground (arith, at_free) in
          let end' = pass false (limit_of bitmap before) bitmap (limit_of bitmap before) cluster in
          let some_units : cluster < end' =
            at_least_one bitmap (limit_of bitmap before) cluster end' t (s.stops less) less in
          let e : cluster + (end' - cluster) ≡ end' = omega (arith, some_units) in
          rw (at_free, e) (s.forward, omega (arith, some_units), t.inside, s.same, t.same, t.stops)
    ]
