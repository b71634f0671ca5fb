-- ===== src/Maps/Tally.antt =====
-- Counting the units of a span that pass a test.
use linux_defragger.Prelude.{
  ℕ, zero, suc, ◌+◌, ◌<◌, ◌≤◌, ◌≡◌, refl, ap, ◌∙◌, Bool, true, false, ◌==◌, if◌then◌else◌, arith,
}

-- The units from `lo` on, `n` of them, that pass.
abbrev pub tally : (ℕ → Bool) → ℕ → ℕ → ℕ
tally test lo zero = 0
tally test lo (suc n) = (if test lo then 1 else 0) + tally test (lo + 1) n

pub tally-ext :
    (p q : ℕ → Bool) (lo n : ℕ)
    → ((u : ℕ) → lo ≤ u → u < lo + n → p u ≡ q u)
    → tally p lo n ≡ tally q lo n
tally-ext p q lo zero h = refl
tally-ext p q lo (suc n) h = rw (
  h lo (omega arith) (omega arith),
  tally-ext p q (lo + 1) n (λ u a b. h u (omega arith) (omega arith)),
)

pub tally-append :
    (p : ℕ → Bool) (lo m n : ℕ) → tally p lo (m + n) ≡ tally p lo m + tally p (lo + m) n
tally-append p lo zero n =
    let e : zero + n ≡ n = omega arith in
    let e' : lo + zero ≡ lo = omega arith in rw (e, e') (omega arith)
tally-append p lo (suc m) n =
    let e : suc m + n ≡ suc (m + n) = omega arith in
    let e' : lo + suc m ≡ lo + 1 + m = omega arith in
    rw (e, e') (omega (arith, tally-append p (lo + 1) m n))

pub tally_all :
    (p : ℕ → Bool) (lo n : ℕ) → ((u : ℕ) → lo ≤ u → u < lo + n → p u ≡ true) → tally p lo n ≡ n
tally_all p lo zero h = refl
tally_all p lo (suc n) h =
    rw (h lo (omega arith) (omega arith))
      (omega (arith, tally_all p (lo + 1) n (λ u a b. h u (omega arith) (omega arith))))

pub tally_none :
    (p : ℕ → Bool) (lo n : ℕ) → ((u : ℕ) → lo ≤ u → u < lo + n → p u ≡ false) → tally p lo n ≡ 0
tally_none p lo zero h = refl
tally_none p lo (suc n) h =
    rw (h lo (omega arith) (omega arith))
      (omega (arith, tally_none p (lo + 1) n (λ u a b. h u (omega arith) (omega arith))))

-- A span that starts elsewhere.
pub tally_shift :
    (p q : ℕ → Bool) (lo lo' n : ℕ)
    → ((i : ℕ) → i < n → p (lo + i) ≡ q (lo' + i))
    → tally p lo n ≡ tally q lo' n
tally_shift p q lo lo' zero h = refl
tally_shift p q lo lo' (suc n) h =
    let first : p lo ≡ q lo' =
      ap p (let e : lo ≡ lo + 0 = omega arith in e)
      ∙ h 0 (omega arith)
      ∙ ap q (let e : lo' + 0 ≡ lo' = omega arith in e) in
    rw (
      first,
      tally_shift p q (lo + 1) (lo' + 1) n (λ i k.
          ap p (let e : lo + 1 + i ≡ lo + suc i = omega arith in e)
          ∙ h (suc i) (omega arith)
          ∙ ap q (let e : lo' + suc i ≡ lo' + 1 + i = omega arith in e)),
    )

-- Every unit has one of four states.
pub tally_four :
    (f : ℕ → ℕ) (lo n : ℕ)
    → ((u : ℕ) → f u < 4)
    → tally (λ u. f u == 0) lo n
        + tally (λ u. f u == 1) lo n
        + tally (λ u. f u == 2) lo n
        + tally (λ u. f u == 3) lo n
      ≡ n
tally_four f lo zero h = refl
tally_four f lo (suc n) h = ground (arith, tally_four f (lo + 1) n h, h lo)
