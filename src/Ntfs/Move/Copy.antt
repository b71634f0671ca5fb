-- ===== src/Ntfs/Move/Copy.antt =====
-- The copy of file data by `_copy_run_sequences`.
use linux_defragger.Prelude.{
  ℕ, zero, suc, ◌+◌, ◌-◌, ◌*◌, ◌<◌, ◌≤◌, ◌≡◌, refl, ap, ◌∙◌, sym, inl, inr, true, false, List, [],
  ◌∷◌, ◌++◌, ◌==◌, min, length, length-append, arith, Bool-cases, Option-cases, none, some,
}
use native.Mathlib.Nat.{mul-pos, zero-mul, zero-add, add-mul}
use linux_defragger.Ntfs.Runlist.{Run}
use linux_defragger.Ntfs.Disk.{Disk, read_bytes, write_bytes}
use linux_defragger.Ntfs.Disk.Rules.{Ends, Ends-write, Ends-weaken}
use linux_defragger.Ntfs.Patches.Touched.{AllFit}
use linux_defragger.Ntfs.Move.{
  Extent, advance, copy_loop, copy_run_sequences, clusters_of, any_sparse, non_empty, extents_of,
  first_lcn,
}
use linux_defragger.Ntfs.Move.Addresses.{
  upto, addresses, AllPos, IsPlace, NotIn, Apart, Distinct, CopiedTo, CopiedTo-append, rest-Apart,
  rest-Distinct, NotIn-left, NotIn-right, length-upto, write_bytes-CopiedTo, addresses-advance,
}

length-nil : (xs : List ℕ) → length xs ≡ 0 → xs ≡ []
length-nil [] h = refl
length-nil (x ∷ xs) h = absurd (omega arith)

IsPlace-advance :
    (taken offset start size : ℕ) (rest : List Extent)
    → IsPlace ((start, size) ∷ rest) offset
    → offset + taken ≤ size
    → IsPlace
        (advance taken offset ((start, size) ∷ rest)).0
        (advance taken offset ((start, size) ∷ rest)).1
unfolding advance
IsPlace-advance taken offset start size rest h k = elim (Bool-cases (offset + taken == size)) [
  | inl done ↦ rw done (AllPos-IsPlace rest h.1)
  | inr more ↦ rw more (ground (arith, more), h.1)
]
  where
    AllPos-IsPlace : (es : List Extent) → AllPos es → IsPlace es 0
    AllPos-IsPlace [] h = tt
    AllPos-IsPlace ((start, size) ∷ es) h = h

-- How much one round takes.
round :
    (chunk a b c : ℕ)
    → 0 < chunk
    → 0 < a
    → 0 < b
    → 0 < c
    → (0 < min chunk (min a (min b c)))
      × (min chunk (min a (min b c)) ≤ a)
      × (min chunk (min a (min b c)) ≤ b)
      × (min chunk (min a (min b c)) ≤ c)
round chunk a b c h1 h2 h3 h4 = (omega arith, omega arith, omega arith, omega arith)

module _ (Mid : Disk → Type 0) where
  abbrev Copied : Disk → List ℕ → List ℕ → Unit {0} → Disk → Type 0
  Copied d from to _ d' =
      (g : ℕ → ℕ) × (n : ℕ) × (d' ≡ record d { bytes = g; budget = n }) × CopiedTo d.bytes g from to

  pub copy_loop-Ends :
      (fuel : ℕ) (ss : List Extent) (so : ℕ) (ds : List Extent) (to : ℕ) (remaining : ℕ) (d : Disk)
      → remaining ≤ fuel
      → IsPlace ss so
      → IsPlace ds to
      → length (addresses ss so) ≡ remaining
      → length (addresses ds to) ≡ remaining
      → Apart (addresses ss so) (addresses ds to)
      → Distinct (addresses ds to)
      → ((g : ℕ → ℕ) (n : ℕ)
          → ((a : ℕ) → NotIn a (addresses ds to) → g a ≡ d.bytes a)
          → Mid (record d { bytes = g; budget = n }))
      → Ends Mid
          (Copied d (addresses ss so) (addresses ds to))
          (copy_loop fuel ss so ds to remaining d)
  unfolding copy_loop
  copy_loop-Ends fuel ss so ds to zero d enough ps pd ls ld apart distinct mid =
      rw (length-nil _ ls, length-nil _ ld)
        (d.bytes, d.budget, refl, record { copy = refl; kept = λ a h. refl })
  copy_loop-Ends zero ss so ds to (suc r) d enough ps pd ls ld apart distinct mid =
      absurd (omega arith)
  copy_loop-Ends (suc fuel) [] so ds to (suc r) d enough ps pd ls ld apart distinct mid =
      absurd (omega arith)
  copy_loop-Ends (suc fuel) (s ∷ ss) so [] to (suc r) d enough ps pd ls ld apart distinct mid =
      absurd (omega arith)
  copy_loop-Ends (suc fuel) ((from, n) ∷ ss) so ((at, m) ∷ ds) to (suc r) d enough ps pd ls ld apart
        distinct mid =
      let t = min 8_388_608 (min (n - so) (min (m - to) (suc r))) in
      let (positive, fits_s, fits_d, fits_r) =
        round 8_388_608 (n - so) (m - to) (suc r) (omega arith) (omega (arith, ps.0))
          (omega (arith, pd.0)) (omega arith) in
      let in_s : so + t ≤ n = omega (arith, ps.0) in
      let in_d : to + t ≤ m = omega (arith, pd.0) in
      let next_s = advance t so ((from, n) ∷ ss) in
      let next_d = advance t to ((at, m) ∷ ds) in
      let es = addresses-advance t so from n ss in_s in
      let ed = addresses-advance t to at m ds in_d in
      let us = upto (from + so) t in
      let ud = upto (at + to) t in
      let A = addresses next_s.0 next_s.1 in
      let B = addresses next_d.0 next_d.1 in
      let apart' : Apart (us ++ A) (ud ++ B) = rw (es, ed) at apart in
      let distinct' : Distinct (ud ++ B) = rw ed at distinct in
      let la : length A ≡ suc r - t =
        omega (arith, length-append us A, length-upto (from + so) t, ap length es, ls) in
      let lb : length B ≡ suc r - t =
        omega (arith, length-append ud B, length-upto (at + to) t, ap length ed, ld) in
      let first = write_bytes-CopiedTo d.bytes (from + so) (at + to) t in
      let f1 = write_bytes d.bytes (at + to) (read_bytes d.bytes (from + so) t) in
      Ends-write Mid _ d.budget d _ _ (mid d.bytes d.budget (λ a h. refl)) (λ k.
        Ends-weaken Mid (Copied (record d { bytes = f1; budget = k }) A B) _ _
          (copy_loop-Ends fuel next_s.0 next_s.1 next_d.0 next_d.1 (suc r - t)
            (record d { bytes = f1; budget = k }) (omega (arith, positive, enough))
            (IsPlace-advance t so from n ss ps in_s) (IsPlace-advance t to at m ds pd in_d) la lb
            (rest-Apart us A ud B apart') (rest-Distinct ud B distinct')
            (λ g j same. mid g j (λ a out.
              let out' : NotIn a (ud ++ B) = rw ed at out in
              same a (NotIn-right a ud B out') ∙ first.kept a (NotIn-left a ud B out'))))
          (λ _ d' (g, j, e, c). (
            g,
            j,
            e,
            rw (es, ed) (CopiedTo-append d.bytes f1 g us A ud B apart' distinct' first c),
          )))

-- The byte addresses of the clusters of runs, in stream order.
abbrev pub run_addresses : ℕ → List Run → List ℕ
run_addresses cluster_size [] = []
run_addresses cluster_size (run ∷ runs) = elim run.lcn [
  | none ↦ run_addresses cluster_size runs
  | some lcn ↦
      upto (lcn * cluster_size) (run.length * cluster_size) ++ run_addresses cluster_size runs
]

pub any_sparse-AllFit : (top : ℕ) (runs : List Run) → AllFit top runs → any_sparse runs ≡ false
unfolding any_sparse
any_sparse-AllFit top [] h = refl
any_sparse-AllFit top (run ∷ runs) h = elim (Option-cases run.lcn) [
  | inl e ↦ absurd (rw e at h.0)
  | inr (lcn, e) ↦ rw (e, any_sparse) (any_sparse-AllFit top runs h.1)
]

-- The first of the runs has a cluster number.
pub first_lcn-AllFit :
    (top : ℕ) (runs : List Run)
    → AllFit top runs
    → 0 < clusters_of runs
    → (lcn : ℕ) × (first_lcn runs ≡ some lcn)
unfolding first_lcn clusters_of
first_lcn-AllFit top [] h k = absurd (omega arith)
first_lcn-AllFit top (run ∷ runs) h k = elim (Option-cases run.lcn) [
  | inl e ↦ absurd (rw e at h.0)
  | inr (lcn, e) ↦ (lcn, e)
]

-- What the preparation of a list of runs gives the loop.
record IsReady (cluster_size : ℕ) (runs : List Run) : Type 0 where
  solid : any_sparse (non_empty runs) ≡ false
  clusters : clusters_of (non_empty runs) ≡ clusters_of runs
  positive : AllPos (extents_of cluster_size (non_empty runs))
  places : addresses (extents_of cluster_size (non_empty runs)) 0 ≡ run_addresses cluster_size runs
  counted : length (run_addresses cluster_size runs) ≡ clusters_of runs * cluster_size

ready :
    (cluster_size top : ℕ) (runs : List Run)
    → 0 < cluster_size
    → AllFit top runs
    → IsReady cluster_size runs
unfolding any_sparse non_empty clusters_of extents_of
ready cs top [] h k = record {
  solid = refl;
  clusters = refl;
  positive = tt;
  places = refl;
  counted = sym (zero-mul cs);
}
ready cs top (run ∷ runs) h k = elim (Option-cases run.lcn) [
  | inl e ↦ absurd (rw e at k.0)
  | inr (lcn, e) ↦
      let later = ready cs top runs h k.1 in
      elim (Bool-cases (run.length == 0)) [
        | inl empty ↦
            let none_left : run.length ≡ 0 = ground (arith, empty) in
            record {
              solid = rw empty later.solid;
              clusters = rw (empty, none_left, zero-add (clusters_of runs)) later.clusters;
              positive = rw empty later.positive;
              places = rw (empty, e, none_left, zero-mul cs) later.places;
              counted = rw (e, none_left, zero-mul cs, zero-add (clusters_of runs)) later.counted;
            }
        | inr full ↦ record {
          solid = rw (full, e) later.solid;
          clusters = rw (full, later.clusters) refl;
          positive = rw (full, e) (mul-pos (ground (arith, full)) h, later.positive);
          places =
              rw (full, e, later.places)
                (let e0 : lcn * cs + 0 ≡ lcn * cs = omega arith in
                  let e1 : run.length * cs - 0 ≡ run.length * cs = omega arith in rw (e0, e1) refl);
          counted = rw e (
              length-append (upto (lcn * cs) (run.length * cs)) _
              ∙ rw (length-upto (lcn * cs) (run.length * cs), later.counted)
                  (sym (add-mul run.length (clusters_of runs) cs)));
        }
      ]
]

AllPos-first : (es : List Extent) → AllPos es → IsPlace es 0
AllPos-first [] h = tt
AllPos-first ((start, size) ∷ es) h = h

-- For a positive cluster size and two lists of physical runs below a bound, with as many clusters,
-- that do not meet, and with no cluster twice in the destination, and `Mid` a predicate that holds
-- of every volume whose bytes differ from the first at most in the destination: the copy returns
-- with the destination's bytes equal to the source's, in stream order, and no other byte changed, or
-- ends by a loss of power where `Mid` holds; it raises no exception.
pub copy_run_sequences-Ends :
    (Mid : Disk → Type 0) (cluster_size top : ℕ) (source destination : List Run) (d : Disk)
    → 0 < cluster_size
    → AllFit top source
    → AllFit top destination
    → clusters_of source ≡ clusters_of destination
    → Apart (run_addresses cluster_size source) (run_addresses cluster_size destination)
    → Distinct (run_addresses cluster_size destination)
    → ((g : ℕ → ℕ) (n : ℕ)
        → ((a : ℕ) → NotIn a (run_addresses cluster_size destination) → g a ≡ d.bytes a)
        → Mid (record d { bytes = g; budget = n }))
    → Ends Mid
        (Copied Mid d (run_addresses cluster_size source) (run_addresses cluster_size destination))
        (copy_run_sequences cluster_size source destination d)
unfolding copy_run_sequences
copy_run_sequences-Ends Mid cs top source destination d h fit_s fit_d same apart distinct mid =
    let s = ready cs top source h fit_s in
    let t = ready cs top destination h fit_d in
    let same' : (clusters_of (non_empty source) == clusters_of (non_empty destination)) ≡ true =
      ground (arith, s.clusters, t.clusters, same) in
    rw (s.solid, t.solid, same', sym s.places, sym t.places)
      (copy_loop-Ends Mid (clusters_of (non_empty source) * cs) (extents_of cs (non_empty source)) 0
        (extents_of cs (non_empty destination)) 0 (clusters_of (non_empty source) * cs) d
        (omega arith) (AllPos-first _ s.positive) (AllPos-first _ t.positive)
        (rw (s.places, s.clusters) s.counted) (rw (t.places, s.clusters, same) t.counted)
        (rw (s.places, t.places) apart) (rw t.places distinct)
        (λ g n k. mid g n (rw t.places at k)))
