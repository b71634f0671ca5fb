-- ===== src/Ntfs/Gaps/Free.antt =====
-- The loop of `_free_runs_before`, round by round.
use mathlib.Core.Bool.{not}
use linux_defragger.Prelude.{
  ℕ, zero, suc, ◌+◌, ◌-◌, ◌/◌, ◌%◌, ◌<◌, ◌≤◌, ◌≡◌, refl, ap, ◌∙◌, sym, Bool, true, false, ◌&&◌,
  ◌||◌, Option, some, none, List, [], ◌∷◌, ◌++◌, ltb, leb, ◌==◌, if◌then◌else◌, get_or, arith,
  Bool-cases, inl, inr, ◌⊎◌,
}
use linux_defragger.Prelude.Int.{ℤ}
use linux_defragger.Ntfs.Runlist.{Run}
use linux_defragger.Ntfs.Bitmap.{bit, byte_bit}
use linux_defragger.Ntfs.Bitmap.SetRange.{byte_bit-fill}
use linux_defragger.Ntfs.Patches.Touched.{in_runs, in_runs-append}
use linux_defragger.Ntfs.Gaps.{limit_of, opened, closed, scan_step, scan, free_runs_before}

-- The free clusters passed since `start`.
abbrev in_open : Option ℕ → ℕ → ℕ → Bool
in_open none cluster u = false
in_open (some start) cluster u = leb start u && ltb u cluster

abbrev IsOpen : Option ℕ → ℕ → Type 0
IsOpen none cluster = Unit
IsOpen (some start) cluster = start < cluster

abbrev free : List ℕ → ℕ → ℕ → ℕ → Bool
free bitmap from to u = leb from u && (ltb u to && not (bit bitmap u))

record Steps (bitmap : List ℕ) (limit cluster : ℕ) (start : Option ℕ) (found : List Run) (next : ℕ)
    (start' : Option ℕ) : Type 0 where
  forward : cluster < next
  inside : next ≤ limit
  open' : IsOpen start' next
  shown :
      (u : ℕ)
      → (in_runs found u || in_open start' next u)
        ≡ (in_open start cluster u || free bitmap cluster next u)

-- A whole byte.
pub whole_bits :
    (bitmap : List ℕ) (cluster u value : ℕ)
    → (cluster % 8 == 0) ≡ true
    → get_or bitmap (cluster / 8) 0 ≡ value
    → cluster ≤ u
    → u < cluster + 8
    → bit bitmap u ≡ byte_bit value (u % 8)
unfolding bit
whole_bits bitmap cluster u value h e p q =
    let same : u / 8 ≡ cluster / 8 = ground (arith, h) in rw (same, e)

closed-in :
    (start : Option ℕ) (cluster u : ℕ)
    → IsOpen start cluster
    → in_runs (closed start cluster) u ≡ in_open start cluster u
closed-in none cluster u h = refl
closed-in (some s) cluster u h = ground (arith, h)

opened-in :
    (start : Option ℕ) (cluster next u : ℕ)
    → IsOpen start cluster
    → cluster < next
    → in_open (opened start cluster) next u
      ≡ (in_open start cluster u || (leb cluster u && ltb u next))
opened-in none cluster next u h p = ground arith
opened-in (some s) cluster next u h p = ground (arith, h)

opened-IsOpen :
    (start : Option ℕ) (cluster next : ℕ)
    → IsOpen start cluster
    → cluster < next
    → IsOpen (opened start cluster) next
opened-IsOpen none cluster next h p = p
opened-IsOpen (some s) cluster next h p = omega (arith, h)

-- The two ways a round goes on: all clusters up to `next` are free, or all are used.
Steps-free :
    (bitmap : List ℕ) (limit cluster next : ℕ) (start : Option ℕ)
    → IsOpen start cluster
    → cluster < next
    → next ≤ limit
    → ((u : ℕ) → cluster ≤ u → u < next → bit bitmap u ≡ false)
    → Steps bitmap limit cluster start [] next (opened start cluster)
Steps-free bitmap limit cluster next start h p q k = record {
  forward = p;
  inside = q;
  open' = opened-IsOpen start cluster next h p;
  shown = λ u. opened-in start cluster next u h p ∙ ground (arith, k u);
}

Steps-used :
    (bitmap : List ℕ) (limit cluster next : ℕ) (start : Option ℕ)
    → IsOpen start cluster
    → cluster < next
    → next ≤ limit
    → ((u : ℕ) → cluster ≤ u → u < next → bit bitmap u ≡ true)
    → Steps bitmap limit cluster start (closed start cluster) next none
Steps-used bitmap limit cluster next start h p q k = record {
  forward = p;
  inside = q;
  open' = tt;
  shown = λ u. ground (arith, closed-in start cluster u h, k u);
}

-- A round, whichever way it takes.
abbrev Step : List ℕ → ℕ → ℕ → Option ℕ → List Run × ℕ × Option ℕ → Type 0
Step bitmap limit cluster start (found, next, start') =
    Steps bitmap limit cluster start found next start'

by_bit :
    (bitmap : List ℕ) (limit cluster : ℕ) (start : Option ℕ)
    → IsOpen start cluster
    → cluster < limit
    → Step bitmap limit cluster start (
        if bit bitmap cluster
        then (closed start cluster, cluster + 1, none)
        else ([], cluster + 1, opened start cluster))
by_bit bitmap limit cluster start h p = elim (Bool-cases (bit bitmap cluster)) [
  | inl used ↦ rw used (
      Steps-used bitmap limit cluster (cluster + 1) start h (omega arith) (omega arith)
        (λ u q r. let e : u ≡ cluster = omega arith in rw e used))
  | inr unused ↦ rw unused (
      Steps-free bitmap limit cluster (cluster + 1) start h (omega arith) (omega arith)
        (λ u q r. let e : u ≡ cluster = omega arith in rw e unused))
]

scan_step-Steps :
    (bitmap : List ℕ) (limit cluster : ℕ) (start : Option ℕ)
    → IsOpen start cluster
    → cluster < limit
    → Step bitmap limit cluster start (scan_step bitmap limit cluster start)
unfolding scan_step
scan_step-Steps bitmap limit cluster start h p =
    elim (Bool-cases (cluster % 8 == 0 && leb (cluster + 8) limit)) [
      | inr part ↦ rw part (by_bit bitmap limit cluster start h p)
      | inl whole ↦ elim (Bool-cases (get_or bitmap (cluster / 8) 0 == 0x00)) [
        | inl zeros ↦
            rw (whole, zeros)
              (Steps-free bitmap limit cluster (cluster + 8) start h (omega arith)
                (ground (arith, whole))
                (λ u q r.
                  whole_bits bitmap cluster u 0 (ground (arith, whole)) (ground (arith, zeros)) q r
                  ∙ byte_bit-fill false (u % 8) (omega arith)))
        | inr other ↦ elim (Bool-cases (get_or bitmap (cluster / 8) 0 == 0xFF)) [
          | inl ones ↦
              rw (whole, other, ones)
                (Steps-used bitmap limit cluster (cluster + 8) start h (omega arith)
                  (ground (arith, whole))
                  (λ u q r.
                    whole_bits bitmap cluster u 255 (ground (arith, whole)) (ground (arith, ones)) q
                      r
                    ∙ byte_bit-fill true (u % 8) (omega arith)))
          | inr mixed ↦ rw (whole, other, mixed) (by_bit bitmap limit cluster start h p)
        ]
      ]
    ]

-- Physical runs, not empty, from `lo` on, with a cluster between any two.
abbrev pub AreGaps : ℕ → List Run → Type 0
AreGaps lo [] = Unit
AreGaps lo (run ∷ runs) =
    (lcn : ℕ) × (run.lcn ≡ some lcn)
    × (lo ≤ lcn)
    × (0 < run.length)
    × AreGaps (lcn + run.length + 1) runs

scan-free :
    (fuel : ℕ) (bitmap : List ℕ) (limit cluster : ℕ) (start : Option ℕ) (u : ℕ)
    → IsOpen start cluster
    → cluster ≤ limit
    → limit ≤ cluster + fuel
    → in_runs (scan fuel bitmap limit cluster start) u
      ≡ (in_open start cluster u || free bitmap cluster limit u)
unfolding scan
scan-free zero bitmap limit cluster start u h p q =
    let e : cluster ≡ limit = omega arith in rw (sym e) (closed-in start cluster u h ∙ ground arith)
scan-free (suc fuel) bitmap limit cluster start u h p q = elim (Bool-cases (ltb cluster limit)) [
  | inr stop ↦
      let e : cluster ≡ limit = ground (arith, stop) in
      rw (stop, sym e) (closed-in start cluster u h ∙ ground arith)
  | inl more ↦
      let s = scan_step-Steps bitmap limit cluster start h (ground (arith, more)) in
      let (found, next, start') = scan_step bitmap limit cluster start in
      rw more (
        in_runs-append found (scan fuel bitmap limit next start') u
        ∙ ap (λ b. in_runs found u || b)
            (scan-free fuel bitmap limit next start' u s.open' s.inside (omega (arith, s.forward)))
        ∙ ground (arith, s.shown u, s.forward, s.inside))
]

-- Where the next run can start.
abbrev lowest : Option ℕ → ℕ → ℕ
lowest none cluster = cluster
lowest (some start) cluster = start

AreGaps-weaken : (lo lo' : ℕ) (runs : List Run) → lo' ≤ lo → AreGaps lo runs → AreGaps lo' runs
AreGaps-weaken lo lo' [] p h = tt
AreGaps-weaken lo lo' (run ∷ runs) p (lcn, e, q, full, later) =
    (lcn, e, omega (arith, p, q), full, later)

lowest-opened :
    (start : Option ℕ) (cluster next : ℕ)
    → lowest (opened start cluster) next ≡ lowest start cluster
lowest-opened none cluster next = refl
lowest-opened (some s) cluster next = refl

-- The open run ends before a used cluster, and the runs behind it start later.
closed-AreGaps :
    (start : Option ℕ) (cluster next : ℕ) (runs : List Run)
    → IsOpen start cluster
    → cluster < next
    → AreGaps next runs
    → AreGaps (lowest start cluster) (closed start cluster ++ runs)
closed-AreGaps none cluster next runs h p k = AreGaps-weaken next cluster runs (omega (arith, p)) k
closed-AreGaps (some s) cluster next runs h p k = (
  s,
  refl,
  omega arith,
  omega (arith, h),
  AreGaps-weaken next (s + (cluster - s) + 1) runs (omega (arith, h, p)) k,
)

last-AreGaps :
    (start : Option ℕ) (cluster : ℕ)
    → IsOpen start cluster
    → AreGaps (lowest start cluster) (closed start cluster)
last-AreGaps none cluster h = tt
last-AreGaps (some s) cluster h = (s, refl, omega arith, omega (arith, h), tt)

scan_step_shape :
    (bitmap : List ℕ) (limit cluster : ℕ) (start : Option ℕ)
    → ((scan_step bitmap limit cluster start).0 ≡ [])
        × ((scan_step bitmap limit cluster start).2 ≡ opened start cluster)
      ⊎ ((scan_step bitmap limit cluster start).0 ≡ closed start cluster)
        × ((scan_step bitmap limit cluster start).2 ≡ none)
unfolding scan_step
scan_step_shape bitmap limit cluster start = ground arith

lowest-limit :
    (start : Option ℕ) (cluster limit : ℕ)
    → cluster ≡ limit
    → IsOpen start cluster
    → AreGaps (lowest start cluster) (closed start limit)
lowest-limit start cluster limit e h = rw (sym e) (last-AreGaps start cluster h)

scan-AreGaps :
    (fuel : ℕ) (bitmap : List ℕ) (limit cluster : ℕ) (start : Option ℕ)
    → IsOpen start cluster
    → cluster ≤ limit
    → limit ≤ cluster + fuel
    → AreGaps (lowest start cluster) (scan fuel bitmap limit cluster start)
unfolding scan
scan-AreGaps zero bitmap limit cluster start h p q =
    lowest-limit start cluster limit (omega arith) h
scan-AreGaps (suc fuel) bitmap limit cluster start h p q = elim (Bool-cases (ltb cluster limit)) [
  | inr stop ↦ rw stop (lowest-limit start cluster limit (ground (arith, stop)) h)
  | inl more ↦
      let s = scan_step-Steps bitmap limit cluster start h (ground (arith, more)) in
      let (found, next, start') = scan_step bitmap limit cluster start in
      let rest =
        scan-AreGaps fuel bitmap limit next start' s.open' s.inside (omega (arith, s.forward)) in
      rw more (elim (scan_step_shape bitmap limit cluster start) [
        | inl (nothing, goes_on) ↦
            rw (nothing, goes_on) (rw (goes_on, lowest-opened start cluster next) at rest)
        | inr (one, over) ↦
            rw (one, over) (closed-AreGaps start cluster next _ h s.forward (rw over at rest))
      ])
]

-- The runs that _free_runs_before returns with its path for whole bytes are physical and not empty,
-- in order, with a cluster between any two, and a cluster is in one of them exactly if it is below
-- the limit and its bit is clear.
pub free_runs_before-free :
    (bitmap : List ℕ) (before : ℤ)
    → AreGaps 0 (free_runs_before bitmap before)
      × ((u : ℕ)
          → in_runs (free_runs_before bitmap before) u
            ≡ (ltb u (limit_of bitmap before) && not (bit bitmap u)))
unfolding free_runs_before
free_runs_before-free bitmap before =
    let limit = limit_of bitmap before in
    (
      scan-AreGaps limit bitmap limit 0 none tt (omega arith) (omega arith),
      λ u. scan-free limit bitmap limit 0 none u tt (omega arith) (omega arith) ∙ ground arith,
    )
