-- ===== src/Bytes/BitCount.antt =====
-- `int.bit_count` and the masks of a byte.
use native.Mathlib.Nat.{mul_assoc}
use linux_defragger.Prelude.{ℕ, zero, suc, ◌+◌, ◌*◌, ◌/◌, ◌%◌, ◌<◌, ◌≡◌, refl, ap, ◌∙◌, sym, arith}
use linux_defragger.Bytes.{pow2}
use linux_defragger.Bytes.Laws.{pow2_pos}

-- `n.bit_count()`, with `fuel` for the bits; `bit_count` gives enough.
unfoldable pub bit_count_on : ℕ → ℕ → ℕ
bit_count_on zero n = 0
bit_count_on (suc fuel) n = n % 2 + bit_count_on fuel (n / 2)

unfoldable pub bit_count : ℕ → ℕ
unfolding bit_count_on
bit_count n = bit_count_on n n

bit_count_on_zero : (f : ℕ) → bit_count_on f 0 ≡ 0
unfolding bit_count_on
bit_count_on_zero zero = refl
bit_count_on_zero (suc f) =
    let e : 0 / 2 ≡ 0 = omega arith in rw e (omega (arith, bit_count_on_zero f))

-- Fuel that is enough gives the same count.
bit_count_on_enough : (f g n : ℕ) → n < pow2 f → n < pow2 g → bit_count_on f n ≡ bit_count_on g n
unfolding bit_count_on pow2
bit_count_on_enough zero g n p q =
    let e : n ≡ 0 = omega (arith, p) in rw e (sym (bit_count_on_zero g))
bit_count_on_enough (suc f) zero n p q =
    let e : n ≡ 0 = omega (arith, q) in rw e (bit_count_on_zero (suc f))
bit_count_on_enough (suc f) (suc g) n p q =
    ap (λ k. n % 2 + k) (bit_count_on_enough f g (n / 2) (omega (arith, p)) (omega (arith, q)))

lt-pow2 : (n : ℕ) → n < pow2 n
unfolding pow2
lt-pow2 zero = omega arith
lt-pow2 (suc n) = omega (arith, lt-pow2 n, pow2_pos n)

pub bit_count_eq : (f n : ℕ) → n < pow2 f → bit_count n ≡ bit_count_on f n
unfolding bit_count
bit_count_eq f n p = bit_count_on_enough n f n (lt-pow2 n) p

-- The low `k` bits and the others are counted apart.
bit_count_on_add :
    (k f x m : ℕ)
    → x < pow2 k
    → bit_count_on (k + f) (x + pow2 k * m) ≡ bit_count_on k x + bit_count_on f m
unfolding bit_count_on pow2
bit_count_on_add zero f x m p =
    let a : zero + f ≡ f = omega arith in
    let b : x + 1 * m ≡ m = omega (arith, p) in rw (a, b) (omega arith)
bit_count_on_add (suc k) f x m p =
    let a : suc k + f ≡ suc (k + f) = omega arith in
    let assoc : 2 * pow2 k * m ≡ 2 * (pow2 k * m) = mul_assoc 2 (pow2 k) m in
    let low : (x + 2 * (pow2 k * m)) % 2 ≡ x % 2 = omega arith in
    let high : (x + 2 * (pow2 k * m)) / 2 ≡ x / 2 + pow2 k * m = omega arith in
    rw (a, assoc, low, high) (omega (arith, bit_count_on_add k f (x / 2) m (omega (arith, p))))

pow2_byte : (m : ℕ) → pow2 (8 + m) ≡ 256 * pow2 m
unfolding pow2
pow2_byte m =
    let e : 8 + m ≡ suc (suc (suc (suc (suc (suc (suc (suc m))))))) = omega arith in
    rw e (omega arith)

pub bit_count-bytes : (b m : ℕ) → b < 256 → bit_count (b + 256 * m) ≡ bit_count b + bit_count m
unfolding pow2
bit_count-bytes b m p =
    let room : b + 256 * m < pow2 (8 + m) = omega (arith, pow2_byte m, lt-pow2 m) in
    bit_count_eq (8 + m) (b + 256 * m) room
    ∙ bit_count_on_add 8 m b m p
    ∙ rw (bit_count_eq 8 b p, bit_count_eq m m (lt-pow2 m)) refl
