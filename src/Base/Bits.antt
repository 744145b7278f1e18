-- ===== src/Base/Bits.antt =====
-- Laws of the bitwise operations on unsigned integers that the code's masks and shifts need.
use Prim.Native.Nat.{
  ℕ, zero, suc, ◌+◌, ◌*◌, ◌/◌, ◌%◌, ◌^◌, ◌≤◌, ◌<◌, ◌-◌, min, max, bit_and, bit_or, digits, bitwise,
  bit_and-bitwise, bit_or-bitwise,
}
use mathlib.Core.Path.{◌≡◌, refl, sym, ap, ◌∙◌}
use native.Mathlib.Omega.{arith}
use native.Mathlib.Nat.{
  pow-suc, one-le-pow, add-mul, mod-lt, mul_assoc, mod-eq-sub-div-mul, div-mul-le_self,
  div-lt_iff_lt-mul,
}

-- The operation `f` on the digits of two numbers, `z` when the first has run out of them.
module _ (z : ℕ → ℕ) (f : ℕ → ℕ → ℕ) where
  no_digits : (n b : ℕ) → digits z f n 0 b ≡ z b
  no_digits zero b = refl
  no_digits (suc n) b = refl

  -- Any count that the first number does not exceed gives the same.
  digits_counts : (n m a b : ℕ) → a ≤ n → a ≤ m → digits z f n a b ≡ digits z f m a b
  digits_counts n m zero b p q = no_digits n b ∙ sym (no_digits m b)
  digits_counts zero m (suc a) b p q = absurd (omega (arith, p))
  digits_counts (suc n) zero (suc a) b p q = absurd (omega (arith, q))
  digits_counts (suc n) (suc m) (suc a) b p q =
      ap (λ k. k * 2 + f (suc a % 2) (b % 2))
        (digits_counts n m (suc a / 2) (b / 2) (omega (arith, p)) (omega (arith, q)))

  lowest_digit :
      (a b : ℕ)
      → bitwise z f (suc a) b ≡ bitwise z f (suc a / 2) (b / 2) * 2 + f (suc a % 2) (b % 2)
  lowest_digit a b =
      ap (λ k. k * 2 + f (suc a % 2) (b % 2))
        (digits_counts a (suc a / 2) (suc a / 2) (b / 2) (omega arith) (omega arith))

bit_or_step : (a b : ℕ) → bit_or a b ≡ bit_or (a / 2) (b / 2) * 2 + max (a % 2) (b % 2)
bit_or_step zero b = omega (arith, bit_or-bitwise 0 b, bit_or-bitwise 0 (b / 2))
bit_or_step (suc a) b =
    bit_or-bitwise (suc a) b
    ∙ (lowest_digit (λ k. k) max a b
        ∙ ap (λ k. k * 2 + max (suc a % 2) (b % 2)) (sym (bit_or-bitwise (suc a / 2) (b / 2))))

bit_and_halves : (a b : ℕ) → bit_and a b ≡ bit_and (a / 2) (b / 2) * 2 + min (a % 2) (b % 2)
bit_and_halves zero b = omega (arith, bit_and-bitwise 0 b, bit_and-bitwise 0 (b / 2))
bit_and_halves (suc a) b =
    bit_and-bitwise (suc a) b
    ∙ (lowest_digit (λ k. 0) min a b
        ∙ ap (λ k. k * 2 + min (suc a % 2) (b % 2)) (sym (bit_and-bitwise (suc a / 2) (b / 2))))

bit_or-zero_fuel : (n a : ℕ) → a ≤ n → bit_or a 0 ≡ a
bit_or-zero_fuel n zero h = refl
bit_or-zero_fuel zero (suc a) h = absurd (omega arith)
bit_or-zero_fuel (suc n) (suc a) h =
    omega (arith, bit_or_step (suc a) 0, bit_or-zero_fuel n (suc a / 2) (omega arith))

-- A shifted number and one below the shift do not overlap.
pub bit_or_disjoint : (k x o : ℕ) → o < 2 ^ k → bit_or (x * 2 ^ k) o ≡ x * 2 ^ k + o
bit_or_disjoint zero x zero h = omega (arith, bit_or-zero_fuel (x * 1) (x * 1) (omega arith))
bit_or_disjoint zero x (suc o) h = absurd (omega arith)
bit_or_disjoint (suc k) x o h =
    let p = x * 2 ^ k in
    let double : x * 2 ^ suc k ≡ p * 2 = rw (pow-suc 2 k) (omega arith) in
    let half : p * 2 / 2 ≡ p = omega arith in
    rw (double, bit_or_step (p * 2) o, half)
      (omega (arith, bit_or_disjoint k x (o / 2) (omega (arith, pow-suc 2 k))))

pow-pos : (w : ℕ) → 1 ≤ 2 ^ w
pow-pos w = one-le-pow w 2 (omega arith)

-- All ones below `w` keep a number of `w` bits.
bit_and_ones : (w q : ℕ) → q < 2 ^ w → bit_and q (2 ^ w - 1) ≡ q
bit_and_ones zero zero h = bit_and-bitwise 0 0
bit_and_ones zero (suc q) h = absurd (omega arith)
bit_and_ones (suc w) q h =
    let half : (2 ^ suc w - 1) / 2 ≡ 2 ^ w - 1 = omega (arith, pow-suc 2 w, pow-pos w) in
    rw (bit_and_halves q (2 ^ suc w - 1), half)
      (omega (arith, bit_and_ones w (q / 2) (omega (arith, pow-suc 2 w)), pow-suc 2 w, pow-pos w))

-- Ones from position `k` on clear what is below it.
bit_and_high :
    (k w q r : ℕ)
    → q < 2 ^ w
    → r < 2 ^ k
    → bit_and (q * 2 ^ k + r) ((2 ^ w - 1) * 2 ^ k) ≡ q * 2 ^ k
bit_and_high zero w q zero h l =
    ap (λ n. bit_and n ((2 ^ w - 1) * 2 ^ 0)) {x = q * 2 ^ 0 + 0} {y = q} (omega arith)
    ∙ (ap (bit_and q) {x = (2 ^ w - 1) * 2 ^ 0} {y = 2 ^ w - 1} (omega arith)
        ∙ (bit_and_ones w q h ∙ omega arith))
bit_and_high zero w q (suc r) h l = absurd (omega arith)
bit_and_high (suc k) w q r h l =
    let p = q * 2 ^ k in
    let m = (2 ^ w - 1) * 2 ^ k in
    let double : q * 2 ^ suc k ≡ p * 2 = rw (pow-suc 2 k) (omega arith) in
    let double' : (2 ^ w - 1) * 2 ^ suc k ≡ m * 2 = rw (pow-suc 2 k) (omega arith) in
    let half : (p * 2 + r) / 2 ≡ p + r / 2 = omega arith in
    let half' : m * 2 / 2 ≡ m = omega arith in
    rw (double, double', bit_and_halves (p * 2 + r) (m * 2), half, half')
      (omega (arith, bit_and_high k w q (r / 2) h (omega (arith, pow-suc 2 k))))

pow-add : (w k : ℕ) → 2 ^ w * 2 ^ k ≡ 2 ^ (w + k)
pow-add w zero = omega (arith, ap (λ n. 2 ^ n) {x = w} {y = w + 0} (omega arith))
pow-add w (suc k) =
    rw (pow-suc 2 k, ← mul_assoc, pow-add w k)
      (sym (pow-suc 2 (w + k)) ∙ ap (λ n. 2 ^ n) {x = suc (w + k)} {y = w + suc k} (omega arith))

-- The mask that clears the `k` lowest of 64 bits.
pub bit_and_aligned : (k x : ℕ) → k ≤ 64 → x < 2 ^ 64 → bit_and x (2 ^ 64 - 2 ^ k) ≡ x - x % 2 ^ k
bit_and_aligned k x h l =
    let w = 64 - k in
    let q = x / 2 ^ k in
    let split : 2 ^ w * 2 ^ k ≡ 2 ^ 64 =
      pow-add w k ∙ ap (λ n. 2 ^ n) {x = w + k} {y = 64} (omega arith) in
    let mask : (2 ^ w - 1) * 2 ^ k ≡ 2 ^ 64 - 2 ^ k = omega (
      arith,
      add-mul (2 ^ w - 1) 1 (2 ^ k),
      ap (λ n. n * 2 ^ k) {x = 2 ^ w - 1 + 1} {y = 2 ^ w} (omega (arith, pow-pos w)),
      split,
    ) in
    let below : q < 2 ^ w = (div-lt_iff_lt-mul (pow-pos k)).1 (rw split l) in
    let r = x % 2 ^ k in
    let whole : x ≡ q * 2 ^ k + r =
      omega (arith, mod-eq-sub-div-mul x (2 ^ k), div-mul-le_self x (2 ^ k)) in
    ap (λ n. bit_and n (2 ^ 64 - 2 ^ k)) whole
    ∙ (ap (bit_and (q * 2 ^ k + r)) (sym mask)
        ∙ (bit_and_high k w q r below (mod-lt x (pow-pos k)) ∙ omega (arith, whole)))
