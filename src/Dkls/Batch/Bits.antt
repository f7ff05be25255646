-- ===== src/Dkls/Batch/Bits.antt =====
-- A number is the sum of its bits.
use native.Mathlib.Nat.{div-div-eq-div-mul, pow-suc}
use nero_mpc_sdk.Base.{ℕ, zero, suc, ◌+◌, ◌*◌, ◌/◌, ◌%◌, ◌^◌, ◌<◌, ◌≡◌, refl, sym, ap, ◌∙◌, arith}
use nero_mpc_sdk.Bigint.{pos}
use nero_mpc_sdk.Dkls.Batch.{bit}

-- The number that `k` bits from the right make.
unfoldable pub low_bits : ℕ → ℕ → ℕ
low_bits zero q = 0
low_bits (suc k) q = q % 2 + 2 * low_bits k (q / 2)

pub low_bits_all : (k q : ℕ) → q < 2 ^ k → low_bits k q ≡ q
unfolding low_bits
low_bits_all zero q h = omega arith
low_bits_all (suc k) q h = omega (arith, low_bits_all k (q / 2) (omega (arith, pow-suc 2 k)))

pub div-pow-suc : (b j : ℕ) → b / 2 ^ suc j ≡ b / 2 ^ j / 2
div-pow-suc b j = ap (λ t. b / t) (pow-suc 2 j) ∙ sym (div-div-eq-div-mul b (2 ^ j) 2)

pub bit-lt : (b j : ℕ) → bit (pos b) j < 2
unfolding bit
bit-lt b j = omega arith

pub bit-% : (b j : ℕ) → bit (pos b) j ≡ b / 2 ^ j % 2
unfolding bit
bit-% b j = refl
