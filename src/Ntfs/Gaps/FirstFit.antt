-- ===== src/Ntfs/Gaps/FirstFit.antt =====
-- The choice of `_find_free_run` among the free extents.
use mathlib.Core.Bool.{not}
use linux_defragger.Prelude.{
  ℕ, zero, suc, ◌+◌, ◌*◌, ◌<◌, ◌≤◌, ◌≡◌, refl, ◌∙◌, sym, true, false, ◌&&◌, Option, some, none,
  List, [], ◌∷◌, ltb, leb, ◌==◌, length, arith, Bool-cases, Option-cases, inl, inr,
}
use linux_defragger.Prelude.Int.{ℤ, pos}
use linux_defragger.Ntfs.Runlist.{Run}
use linux_defragger.Ntfs.Bitmap.{bit}
use linux_defragger.Ntfs.Patches.Touched.{in_runs}
use linux_defragger.Ntfs.Gaps.{limit_of, free_runs_before, first_fit, find_free_run}
use linux_defragger.Ntfs.Gaps.Free.{AreGaps, free_runs_before-free}

-- All clusters from `a` on, `n` of them, are in the runs.
abbrev Within : List Run → ℕ → ℕ → Type 0
Within runs a n = (u : ℕ) → a ≤ u → u < a + n → in_runs runs u ≡ true

gaps_below : (lo u : ℕ) (runs : List Run) → AreGaps lo runs → u < lo → in_runs runs u ≡ false
gaps_below lo u [] h p = refl
gaps_below lo u (run ∷ runs) (lcn, e, q, full, later) p =
    rw e (ground (arith, gaps_below (lcn + run.length + 1) u runs later))

-- Clusters that do not fit in the first run are in the runs behind it.
behind :
    (n lcn l b : ℕ) (runs : List Run)
    → 0 < n
    → l < n
    → AreGaps (lcn + l + 1) runs
    → Within (record { lcn = some lcn; length = l } ∷ runs) b n
    → Within runs b n
behind n lcn l b runs p short later w =
    let first = gaps_below (lcn + l + 1) b runs later in
    let stop = gaps_below (lcn + l + 1) (lcn + l) runs later (omega arith) in
    let past : lcn + l ≤ b =
      ground (arith, first, stop, w b (omega arith) (omega (arith, p)), w (lcn + l)) in
    λ u q r. ground (arith, past, w u q r)

-- What the answer says.
record IsFit (runs : List Run) (n : ℕ) (found : Option ℕ) : Type 0 where
  fits : (a : ℕ) → found ≡ some a → Within runs a n
  lowest : (a b : ℕ) → found ≡ some a → Within runs b n → a ≤ b
  complete : (b : ℕ) → found ≡ none → Within runs b n → ⊥

first_fit-IsFit :
    (n lo : ℕ) (runs : List Run) → 0 < n → AreGaps lo runs → IsFit runs n (first_fit n runs)
unfolding first_fit
first_fit-IsFit n lo [] p h = record {
  fits = λ a e. cc;
  lowest = λ a b e. cc;
  complete = λ b e w. absurd (let t = w b (omega arith) (omega arith) in cc);
}
first_fit-IsFit n lo (run ∷ runs) p (lcn, e, q, full, later) =
    elim (Bool-cases (leb n run.length)) [
      | inl long ↦
          rw (long, e)
            record {
              fits = λ a found u q' r.
                  let same : lcn ≡ a = ground (arith, found) in ground (arith, same, long, q', r);
              lowest = λ a b found w.
                  let same : lcn ≡ a = ground (arith, found) in
                  ground (
                    arith,
                    same,
                    gaps_below (lcn + run.length + 1) b runs later,
                    w b (omega arith) (omega (arith, p)),
                  );
              complete = λ b found w. absurd (let e' = found in cc);
            }
      | inr short ↦
          let ih = first_fit-IsFit n (lcn + run.length + 1) runs p later in
          let less : run.length < n = ground (arith, short) in
          rw (short, e)
            (record {
              fits = λ a found u q' r. ground (arith, ih.fits a found u q' r);
              lowest = λ a b found w.
                  ih.lowest a b found (behind n lcn run.length b runs p less later w);
              complete =
                  λ b found w. ih.complete b found (behind n lcn run.length b runs p less later w);
            })
    ]

pub limit_of-le : (bitmap : List ℕ) (before : ℕ) → limit_of bitmap (pos before) ≤ 8 * length bitmap
unfolding limit_of
limit_of-le bitmap before = omega arith

-- The `n` clusters from `a` on are free and below the limit.
abbrev pub IsFree : List ℕ → ℕ → ℕ → ℕ → Type 0
IsFree bitmap limit a zero = Unit
IsFree bitmap limit a (suc n) =
    ((ltb a limit && not (bit bitmap a)) ≡ true) × IsFree bitmap limit (a + 1) n

module _ (bitmap : List ℕ) (before : ℤ) where
  abbrev runs_before : List Run
  runs_before = free_runs_before bitmap before

  Within-IsFree : (a n : ℕ) → Within runs_before a n → IsFree bitmap (limit_of bitmap before) a n
  Within-IsFree a zero w = tt
  Within-IsFree a (suc n) w = (
    sym ((free_runs_before-free bitmap before).1 a) ∙ w a (omega arith) (omega arith),
    Within-IsFree (a + 1) n (λ u q r. w u (omega arith) (omega arith)),
  )

  IsFree-Within : (a n : ℕ) → IsFree bitmap (limit_of bitmap before) a n → Within runs_before a n
  IsFree-Within a zero h u q r = absurd (omega (arith, q, r))
  IsFree-Within a (suc n) h u q r = elim (Bool-cases (a == u)) [
    | inl here ↦
        let e : a ≡ u = ground (arith, here) in
        rw (sym e) ((free_runs_before-free bitmap before).1 a ∙ h.0)
    | inr later ↦ IsFree-Within (a + 1) n h.1 u (ground (arith, later, q)) (omega (arith, r))
  ]

  -- For a positive length, if that many clusters from `b` on are free and below the limit,
  -- _find_free_run returns a cluster that is not above `b` and from which that many clusters are
  -- free and below the limit.
  pub find_free_run-lowest :
      (n b : ℕ)
      → 0 < n
      → IsFree bitmap (limit_of bitmap before) b n
      → (a : ℕ) × (find_free_run bitmap (pos n) before ≡ some a)
        × IsFree bitmap (limit_of bitmap before) a n
        × (a ≤ b)
  unfolding find_free_run
  find_free_run-lowest zero b p h = absurd (omega arith)
  find_free_run-lowest (suc n) b p h =
      let fit = first_fit-IsFit (suc n) 0 runs_before p (free_runs_before-free bitmap before).0 in
      let within = IsFree-Within b (suc n) h in
      elim (Option-cases (first_fit (suc n) runs_before)) [
        | inr (a, e) ↦ (a, e, Within-IsFree a (suc n) (fit.fits a e), fit.lowest a b e within)
        | inl e ↦ absurd (fit.complete b e within)
      ]

  -- If _find_free_run returns a cluster for a length of zero or more, that many clusters from it on
  -- are free and below the limit.
  pub find_free_run-IsFree :
      (n a : ℕ)
      → find_free_run bitmap (pos n) before ≡ some a
      → IsFree bitmap (limit_of bitmap before) a n
  unfolding find_free_run
  find_free_run-IsFree zero a e = tt
  find_free_run-IsFree (suc n) a e = Within-IsFree a (suc n) (
      (first_fit-IsFit (suc n) 0 runs_before (omega arith)
          (free_runs_before-free bitmap before).0).fits
        a e)
