-- ===== src/Recovery/Bits.antt =====
-- `N & (N - 1)` is 0 exactly for the powers of two.
use Prim.Native.Nat.{
  ℕ, zero, suc, ◌+◌, ◌-◌, ◌*◌, ◌/◌, ◌%◌, ◌^◌, ◌≤◌, ◌<◌, min, bit_and, digits, bit_and-bitwise,
}
use Prim.Native.Nat.pow
use mathlib.Core.Path.{◌≡◌, refl, sym, ap, ap₂, ◌∙◌}
use mathlib.Core.Logic.{◌⊎◌, inl, inr}
use native.Mathlib.Omega.{arith}

-- One digit beyond those of the first number changes nothing.
spare_digit :
    (n a b : ℕ) → a ≤ n → digits (λ y. zero) min (suc n) a b ≡ digits (λ y. zero) min n a b
spare_digit zero zero b h = refl
spare_digit zero (suc a) b h = absurd (omega arith)
spare_digit (suc n) zero b h = refl
spare_digit (suc n) (suc a) b h =
    ap (λ t. t * 2 + min (suc a % 2) (b % 2)) (spare_digit n (suc a / 2) (b / 2) (omega arith))

digits_of : (n a b : ℕ) → a ≤ n → digits (λ y. zero) min n a b ≡ bit_and a b
digits_of zero zero b h = sym (bit_and-bitwise 0 b)
digits_of zero (suc a) b h = absurd (omega arith)
digits_of (suc n) a b h = elim (below_or_last a n h) [
  | inl lower ↦ spare_digit n a b lower ∙ digits_of n a b lower
  | inr last ↦
      ap (λ t. digits (λ y. zero) min t a b) {x = suc n} {y = a} (sym last)
      ∙ sym (bit_and-bitwise a b)
]
  where
    below_or_last : (a n : ℕ) → a ≤ suc n → (a ≤ n) ⊎ (a ≡ suc n)
    below_or_last a n h = ground arith

lowest : (a b : ℕ) → bit_and a b ≡ bit_and (a / 2) (b / 2) * 2 + min (a % 2) (b % 2)
lowest zero b = omega (arith, bit_and-bitwise 0 b, bit_and-bitwise 0 (b / 2))
lowest (suc a) b =
    omega (arith, bit_and-bitwise (suc a) b, digits_of a (suc a / 2) (b / 2) (omega arith))

-- Induction on a bound of the number.
self_below : (n a : ℕ) → a ≤ n → bit_and a a ≡ a
self_below n zero h = bit_and-bitwise 0 0
self_below zero (suc a) h = absurd (omega arith)
self_below (suc n) (suc a) h =
    omega (arith, lowest (suc a) (suc a), self_below n (suc a / 2) (omega arith))

power_below : (n a : ℕ) → a ≤ n → 0 < a → bit_and a (a - 1) ≡ 0 → (k : ℕ) × (a ≡ 2 ^ k)
power_below n zero h p e = absurd (omega arith)
power_below zero (suc a) h p e = absurd (omega arith)
power_below (suc n) (suc zero) h p e = (0, refl)
power_below (suc n) (suc (suc a)) h p e = elim (parity (suc (suc a))) [
  | inl even ↦
      let m = suc (suc a) / 2 in
      let vanishes : bit_and (suc (suc a)) (suc a) ≡ 0 =
        ap (bit_and (suc (suc a))) (omega arith) ∙ e in
      let smaller : bit_and m (m - 1) ≡ 0 = omega (
        arith,
        lowest (suc (suc a)) (suc a),
        ap (bit_and m) {x = suc a / 2} {y = m - 1} (omega arith),
        vanishes,
      ) in
      let (k, power) = power_below n m (omega arith) (omega arith) smaller in
      (suc k, omega (arith, even, power, pow.suc 2 k))
  | inr odd ↦
      let m = suc (suc a) / 2 in
      let vanishes : bit_and (suc (suc a)) (suc a) ≡ 0 =
        ap (bit_and (suc (suc a))) (omega arith) ∙ e in
      absurd (
        omega (
          arith,
          vanishes,
          odd,
          lowest (suc (suc a)) (suc a),
          ap (bit_and m) {x = suc a / 2} {y = m} (omega arith),
          self_below m m (omega arith),
        ))
]
  where
    parity : (a : ℕ) → (a % 2 ≡ 0) ⊎ (a % 2 ≡ 1)
    parity a = ground arith

pub power_of_bit_and : (a : ℕ) → 0 < a → bit_and a (a - 1) ≡ 0 → (k : ℕ) × (a ≡ 2 ^ k)
power_of_bit_and a p e = power_below a a (omega arith) p e

pub bit_and_of_power : (k : ℕ) → bit_and (2 ^ k) (2 ^ k - 1) ≡ 0
bit_and_of_power zero = refl
bit_and_of_power (suc k) =
    let halves : 2 ^ suc k ≡ 2 ^ k * 2 = pow.suc 2 k in
    omega (
      arith,
      lowest (2 ^ suc k) (2 ^ suc k - 1),
      ap₂ bit_and {x = 2 ^ suc k / 2} {y = 2 ^ k} {u = (2 ^ suc k - 1) / 2} {v = 2 ^ k - 1}
          (omega (arith, halves)) (omega (arith, halves, positive k)),
      bit_and_of_power k,
      halves,
    )
  where
    positive : (k : ℕ) → 0 < 2 ^ k
    positive zero = omega arith
    positive (suc k) = omega (arith, positive k, pow.suc 2 k)
