-- ===== src/Maps/Grows.antt =====
-- Counts that grow by the units of a span.
use linux_defragger.Prelude.{
  ℕ, zero, suc, ◌+◌, ◌<◌, ◌≤◌, ◌≡◌, ◌==◌, arith, if◌then◌else◌, Bool-cases, inl, inr,
}
use linux_defragger.Maps.{Counts, no_counts, count_in}
use linux_defragger.Maps.Tally.{tally, tally-append, tally_all, tally_none}
use linux_defragger.Maps.Cells.{CountsFor}

pub record Grows (f : ℕ → ℕ) (lo n : ℕ) (c d : Counts) : Type 0 where
  pub free : d.free ≡ c.free + tally (λ u. f u == 0) lo n
  pub used : d.used ≡ c.used + tally (λ u. f u == 1) lo n
  pub unknown : d.unknown ≡ c.unknown + tally (λ u. f u == 2) lo n
  pub bad : d.bad ≡ c.bad + tally (λ u. f u == 3) lo n

pub Grows-CountsFor :
    (f : ℕ → ℕ) (lo n : ℕ) (d : Counts) → Grows f lo n no_counts d → CountsFor f lo n d
Grows-CountsFor f lo n d g = record {
  free = omega (arith, g.free);
  used = omega (arith, g.used);
  unknown = omega (arith, g.unknown);
  bad = omega (arith, g.bad);
}

pub Grows-none : (f : ℕ → ℕ) (lo : ℕ) (c : Counts) → Grows f lo 0 c c
Grows-none f lo c = record {
  free = omega arith;
  used = omega arith;
  unknown = omega arith;
  bad = omega arith;
}

pub Grows-append :
    (f : ℕ → ℕ) (lo m n : ℕ) (a b c : Counts)
    → Grows f lo m a b
    → Grows f (lo + m) n b c
    → Grows f lo (m + n) a c
Grows-append f lo m n a b c g h = record {
  free = omega (arith, g.free, h.free, tally-append (λ u. f u == 0) lo m n);
  used = omega (arith, g.used, h.used, tally-append (λ u. f u == 1) lo m n);
  unknown = omega (arith, g.unknown, h.unknown, tally-append (λ u. f u == 2) lo m n);
  bad = omega (arith, g.bad, h.bad, tally-append (λ u. f u == 3) lo m n);
}

pub Grows-cons :
    (f : ℕ → ℕ) (lo n : ℕ) (a b c : Counts)
    → Grows f lo 1 a b
    → Grows f (lo + 1) n b c
    → Grows f lo (suc n) a c
Grows-cons f lo n a b c g h =
    let e : 1 + n ≡ suc n = omega arith in rw e at (Grows-append f lo 1 n a b c g h)

-- A span of one state.
tally_state :
    (f : ℕ → ℕ) (lo n state k : ℕ)
    → ((u : ℕ) → lo ≤ u → u < lo + n → f u ≡ state)
    → tally (λ u. f u == k) lo n ≡ (if state == k then n else 0)
tally_state f lo n state k h = elim (Bool-cases (state == k)) [
  | inl same ↦ rw same (tally_all (λ u. f u == k) lo n (λ u p q. rw (h u p q) same))
  | inr other ↦ rw other (tally_none (λ u. f u == k) lo n (λ u p q. rw (h u p q) other))
]

pub count_in-Grows :
    (f : ℕ → ℕ) (lo n state : ℕ) (c : Counts)
    → state < 4
    → ((u : ℕ) → lo ≤ u → u < lo + n → f u ≡ state)
    → Grows f lo n c (count_in state n c)
unfolding count_in
count_in-Grows f lo n state c p h =
    by_state state p (tally_state f lo n state 0 h) (tally_state f lo n state 1 h)
      (tally_state f lo n state 2 h) (tally_state f lo n state 3 h)
  where
    by_state :
        (state : ℕ)
        → state < 4
        → tally (λ u. f u == 0) lo n ≡ (if state == 0 then n else 0)
        → tally (λ u. f u == 1) lo n ≡ (if state == 1 then n else 0)
        → tally (λ u. f u == 2) lo n ≡ (if state == 2 then n else 0)
        → tally (λ u. f u == 3) lo n ≡ (if state == 3 then n else 0)
        → Grows f lo n c (count_in state n c)
    by_state zero p a b d e = record {
      free = omega (arith, a);
      used = omega (arith, b);
      unknown = omega (arith, d);
      bad = omega (arith, e);
    }
    by_state (suc zero) p a b d e = record {
      free = omega (arith, a);
      used = omega (arith, b);
      unknown = omega (arith, d);
      bad = omega (arith, e);
    }
    by_state (suc (suc zero)) p a b d e = record {
      free = omega (arith, a);
      used = omega (arith, b);
      unknown = omega (arith, d);
      bad = omega (arith, e);
    }
    by_state (suc (suc (suc zero))) p a b d e = record {
      free = omega (arith, a);
      used = omega (arith, b);
      unknown = omega (arith, d);
      bad = omega (arith, e);
    }
    by_state (suc (suc (suc (suc k)))) p a b d e = absurd (omega (arith, p))
