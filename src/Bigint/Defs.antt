-- ===== src/Bigint/Defs.antt =====
-- `bigint` values and their operators, over the native numbers.
use nero_mpc_sdk.Base.{
  ℕ, zero, suc, ◌+◌, ◌-◌, ◌*◌, ◌/◌, ◌%◌, ◌≤◌, ◌≡◌, refl, Bool, false, ltb, leb, ◌==◌, if◌then◌else◌,
}

-- `negsuc n` is -(n + 1).
pub data ℤ : Type 0 where
  pos : ℕ → ℤ
  negsuc : ℕ → ℤ

abbrev pub pos_part : ℤ → ℕ
pos_part (pos n) = n
pos_part (negsuc n) = 0

abbrev pub neg_part : ℤ → ℕ
neg_part (pos n) = 0
neg_part (negsuc n) = suc n

abbrev pub nat_abs : ℤ → ℕ
nat_abs (pos n) = n
nat_abs (negsuc n) = suc n

-- a - b, as an integer.
unfoldable pub sub_ℕ : ℕ → ℕ → ℤ
sub_ℕ a b = if leb b a then pos (a - b) else negsuc (b - a - 1)

infixl 65 ◌+ℤ◌ ◌-ℤ◌
infixl 70 ◌*ℤ◌
infix 50 ◌≤ℤ◌ ◌<ℤ◌
unfoldable pub ◌+ℤ◌ : ℤ → ℤ → ℤ
unfolding sub_ℕ
a +ℤ b = sub_ℕ (pos_part a + pos_part b) (neg_part a + neg_part b)

unfoldable pub ◌-ℤ◌ : ℤ → ℤ → ℤ
unfolding sub_ℕ
a -ℤ b = sub_ℕ (pos_part a + neg_part b) (neg_part a + pos_part b)

unfoldable pub ◌*ℤ◌ : ℤ → ℤ → ℤ
unfolding sub_ℕ
a *ℤ b =
    sub_ℕ (pos_part a * pos_part b + neg_part a * neg_part b)
      (pos_part a * neg_part b + neg_part a * pos_part b)

abbrev pub ◌≤ℤ◌ : ℤ → ℤ → Type 0
a ≤ℤ b = pos_part a + neg_part b ≤ pos_part b + neg_part a

abbrev pub ◌<ℤ◌ : ℤ → ℤ → Type 0
a <ℤ b = suc (pos_part a + neg_part b) ≤ pos_part b + neg_part a

abbrev pub ltb_ℤ : ℤ → ℤ → Bool
ltb_ℤ a b = ltb (pos_part a + neg_part b) (pos_part b + neg_part a)

abbrev pub leb_ℤ : ℤ → ℤ → Bool
leb_ℤ a b = leb (pos_part a + neg_part b) (pos_part b + neg_part a)

abbrev pub beq_ℤ : ℤ → ℤ → Bool
beq_ℤ (pos m) (pos n) = m == n
beq_ℤ (negsuc m) (negsuc n) = m == n
beq_ℤ (pos m) (negsuc n) = false
beq_ℤ (negsuc m) (pos n) = false

abbrev pub neg_ℤ : ℕ → ℤ
neg_ℤ zero = pos 0
neg_ℤ (suc n) = negsuc n

-- `a / b`, rounded towards zero; every caller has tested `b` against zero.
unfoldable pub tdiv : ℤ → ℤ → ℤ
tdiv (pos a) (pos b) = pos (a / b)
tdiv (pos a) (negsuc b) = neg_ℤ (a / suc b)
tdiv (negsuc a) (pos b) = neg_ℤ (suc a / b)
tdiv (negsuc a) (negsuc b) = pos (suc a / suc b)

-- `a % b`, with the sign of `a`.
unfoldable pub tmod : ℤ → ℤ → ℤ
tmod (pos a) b = pos (a % nat_abs b)
tmod (negsuc a) b = neg_ℤ (suc a % nat_abs b)

signs :
    (tmod (negsuc 6) (pos 3) ≡ negsuc 0)
    × (tdiv (negsuc 6) (pos 3) ≡ negsuc 1)
    × (pos 3 -ℤ pos 10 *ℤ negsuc 1 ≡ pos 23)
unfolding tmod tdiv ◌-ℤ◌ ◌*ℤ◌
signs = (refl, refl, refl)
