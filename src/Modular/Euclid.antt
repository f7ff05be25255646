-- ===== src/Modular/Euclid.antt =====
-- `modInverse` (src/protocols/dkg/polynomial.ts), the extended Euclidean loop on the accessibility
-- of the absolute value of its remainder.
use mathlib.Core.WellFounded.{Acc}
use native.Mathlib.Nat.{mod-lt, div-add-mod, dvd_refl, dvd-zero, dvd-mod_iff, le_of_dvd}
use nero_mpc_sdk.Base.{
  ℕ, zero, suc, ◌/◌, ◌%◌, ◌<◌, ◌≡◌, refl, sym, ap, ap₂, ◌∙◌, arith, inl, inr, ◌∣◌, ◌⊎◌, subst,
}
use nero_mpc_sdk.Base.Order.{Acc-lt}
use nero_mpc_sdk.Bigint.{
  ℤ, pos, negsuc, nat_abs, neg_ℤ, ◌+ℤ◌, ◌-ℤ◌, ◌*ℤ◌, tdiv, tmod, residue, difference_laws, sub_ℕ_ext,
  negsuc-sub_ℕ, neg_ℤ-sub_ℕ, Cong, Cong-trans, Cong-symm, Cong-of_eq, Cong--ℤ, Cong-*ℤ, residue-lt,
  residue_congr, residue_small, Cong-residue, Cong-modulus, one-*ℤ, zero-*ℤ, -ℤ-*ℤ, *ℤ_assoc,
}
use nero_mpc_sdk.Modular.Defs.{mod_twice, mod_once, mod_twice-eq-residue, mod_once-eq-residue}

-- Division with remainder, for all signs.
tmod_eq : (a b : ℤ) → a -ℤ tdiv a b *ℤ b ≡ tmod a b
unfolding tdiv tmod
tmod_eq (pos a) (pos b) = simp difference_laws (sub_ℕ_ext _ _ _ _ (omega (arith, div-add-mod a b)))
tmod_eq (pos a) (negsuc b) =
    rw (neg_ℤ-sub_ℕ, negsuc-sub_ℕ)
      (simp difference_laws (sub_ℕ_ext _ _ _ _ (omega (arith, div-add-mod a (suc b)))))
tmod_eq (negsuc a) (pos b) =
    rw (neg_ℤ-sub_ℕ (suc a / b), neg_ℤ-sub_ℕ (suc a % b), negsuc-sub_ℕ)
      (simp difference_laws (sub_ℕ_ext _ _ _ _ (omega (arith, div-add-mod (suc a) b))))
tmod_eq (negsuc a) (negsuc b) =
    rw (neg_ℤ-sub_ℕ (suc a % suc b), negsuc-sub_ℕ a, negsuc-sub_ℕ b)
      (simp difference_laws (sub_ℕ_ext _ _ _ _ (omega (arith, div-add-mod (suc a) (suc b)))))

tmod-pos : (u v : ℕ) → tmod (pos u) (pos v) ≡ pos (u % v)
unfolding tmod
tmod-pos u v = refl

nat_abs-neg_ℤ : (k : ℕ) → nat_abs (neg_ℤ k) ≡ k
nat_abs-neg_ℤ zero = refl
nat_abs-neg_ℤ (suc k) = refl

tmod-lt : (a b : ℤ) → 0 < nat_abs b → nat_abs (tmod a b) < nat_abs b
unfolding tmod
tmod-lt (pos a) b h = mod-lt a h
tmod-lt (negsuc a) b h = rw (nat_abs-neg_ℤ (suc a % nat_abs b)) (mod-lt (suc a) h)

pub remainder-lt :
    (a b : ℤ) (k : ℕ) → nat_abs b ≡ k → 0 < nat_abs b → nat_abs (a -ℤ tdiv a b *ℤ b) < k
remainder-lt a b k e h = rw (tmod_eq a b, ← e) (tmod-lt a b h)

-- The `while (r !== 0n)` loop; the number and its equation name the measure.
inverse_loop : ℤ → (r : ℤ) → ℤ → ℤ → (k : ℕ) → nat_abs r ≡ k → Acc ◌<◌ k → ℤ
inverse_loop old_r (pos zero) old_s s k e (Acc.intro _ smaller) = old_s
inverse_loop old_r (pos (suc c)) old_s s k e (Acc.intro _ smaller) =
    let r : ℤ = pos (suc c) in
    let quotient = tdiv old_r r in
    let rest = old_r -ℤ quotient *ℤ r in
    inverse_loop r rest s (old_s -ℤ quotient *ℤ s) (nat_abs rest) refl
      (smaller (nat_abs rest) (remainder-lt old_r r k e (omega arith)))
inverse_loop old_r (negsuc c) old_s s k e (Acc.intro _ smaller) =
    let r = negsuc c in
    let quotient = tdiv old_r r in
    let rest = old_r -ℤ quotient *ℤ r in
    inverse_loop r rest s (old_s -ℤ quotient *ℤ s) (nat_abs rest) refl
      (smaller (nat_abs rest) (remainder-lt old_r r k e (omega arith)))

unfoldable pub mod_inverse : ℤ → ℤ → ℤ
unfolding inverse_loop Acc-lt
mod_inverse a m =
    mod_twice (inverse_loop a m (pos 1) (pos 0) (nat_abs m) refl (Acc-lt (nat_abs m))) m

-- The copy of the function whose `mod` adds the modulus only to a negative remainder.
unfoldable pub mod_inverse_once : ℤ → ℤ → ℤ
unfolding inverse_loop Acc-lt
mod_inverse_once a m =
    mod_once (inverse_loop a m (pos 1) (pos 0) (nat_abs m) refl (Acc-lt (nat_abs m))) m

pub mod_inverse_once-eq :
    (n : ℕ) (a : ℤ) → 0 < n → mod_inverse_once a (pos n) ≡ mod_inverse a (pos n)
unfolding mod_inverse mod_inverse_once
mod_inverse_once-eq n a n_pos = mod_once-eq-residue n n_pos _ ∙ sym (mod_twice-eq-residue n n_pos _)

-- The inverse is a residue.
pub mod_inverse-eq-residue :
    (n : ℕ) (a : ℤ) → 0 < n → (k : ℕ) × (mod_inverse a (pos n) ≡ pos k) × (k < n)
unfolding mod_inverse
mod_inverse-eq-residue n a n_pos = (
  residue n (inverse_loop a (pos n) (pos 1) (pos 0) n refl (Acc-lt n)),
  mod_twice-eq-residue n n_pos _,
  residue-lt n _ n_pos,
)

inverse_of_three : mod_inverse (pos 3) (pos 7) ≡ pos 5
unfolding mod_inverse mod_twice tdiv tmod ◌-ℤ◌ ◌*ℤ◌ ◌+ℤ◌
inverse_of_three = refl

-- Each row of the loop is the input times its coefficient, up to the modulus.
record Row (m : ℕ) (a r s : ℤ) : Type 0 where
  row : Cong m (s *ℤ a) r

next-Row :
    (m : ℕ) (a old_r r old_s s q : ℤ)
    → Row m a old_r old_s
    → Row m a r s
    → Row m a (old_r -ℤ q *ℤ r) (old_s -ℤ q *ℤ s)
next-Row m a old_r r old_s s q h k = record {
  row =
      Cong-trans (Cong-of_eq (rw (-ℤ-*ℤ old_s (q *ℤ s) a, *ℤ_assoc q s a)))
        (Cong--ℤ h.row (Cong-*ℤ (Cong-of_eq refl) k.row));
}

-- What the loop returns for numbers: a coefficient of a common divisor.
record Bezout (m : ℕ) (a : ℤ) (u v : ℕ) (t : ℤ) : Type 0 where
  divisor : ℕ
  left : divisor ∣ u
  right : divisor ∣ v
  coefficient : Cong m (t *ℤ a) (pos divisor)

inverse_loop-Bezout :
    (m : ℕ) (a old_r r old_s s : ℤ) (k : ℕ) (e : nat_abs r ≡ k) (w : Acc ◌<◌ k) (u v : ℕ)
    → old_r ≡ pos u
    → r ≡ pos v
    → Row m a old_r old_s
    → Row m a r s
    → Bezout m a u v (inverse_loop old_r r old_s s k e w)
unfolding inverse_loop
inverse_loop-Bezout m a old_r (pos zero) old_s s k e (Acc.intro _ smaller) u v eu ev h h' = record {
  divisor = u;
  left = dvd_refl u;
  right = subst (λ t. u ∣ t) (ap nat_abs ev) (dvd-zero u);
  coefficient = Cong-trans h.row (Cong-of_eq eu);
}
inverse_loop-Bezout m a old_r (pos (suc c)) old_s s k e (Acc.intro _ smaller) u v eu ev h h' =
    let r : ℤ = pos (suc c) in
    let q = tdiv old_r r in
    let b =
      inverse_loop-Bezout m a r (old_r -ℤ q *ℤ r) s (old_s -ℤ q *ℤ s) _ refl
        (smaller _ (remainder-lt old_r r k e (omega arith))) v (u % v) ev
        (tmod_eq old_r r ∙ ap₂ tmod eu ev ∙ tmod-pos u v) h'
        (next-Row m a old_r r old_s s q h h') in
    record {
      divisor = b.divisor;
      left = (dvd-mod_iff b.divisor b.left).0 b.right;
      right = b.left;
      coefficient = b.coefficient;
    }
inverse_loop-Bezout m a old_r (negsuc c) old_s s k e (Acc.intro _ smaller) u v eu ev h h' = cc

abbrev pub IsPrime : ℕ → Type 0
IsPrime n = (1 < n) × ((d : ℕ) → d ∣ n → (d ≡ 1) ⊎ (d ≡ n))

coprime : (n x d : ℕ) → IsPrime n → 0 < x → x < n → d ∣ x → d ∣ n → d ≡ 1
coprime n x d prime x_pos x_lt dx dn = elim (prime.1 d dn) [
  | inl one ↦ one
  | inr whole ↦ absurd (omega (arith, le_of_dvd x_pos dx))
]

pub mod_inverse-Cong :
    (n x : ℕ) → IsPrime n → 0 < x → x < n → Cong n (mod_inverse (pos x) (pos n) *ℤ pos x) (pos 1)
unfolding mod_inverse
mod_inverse-Cong n x prime x_pos x_lt =
    let n_pos : 0 < n = omega (arith, prime.0) in
    let b =
      inverse_loop-Bezout n (pos x) (pos x) (pos n) (pos 1) (pos 0) n refl (Acc-lt n) x n refl refl
        (record { row = Cong-of_eq (one-*ℤ (pos x)) })
        (record { row = Cong-trans (Cong-of_eq (zero-*ℤ (pos x))) (Cong-symm (Cong-modulus n)) }) in
    Cong-trans
      (Cong-*ℤ (Cong-trans (Cong-of_eq (mod_twice-eq-residue n n_pos _)) (Cong-residue n _ n_pos))
        (Cong-of_eq refl))
      (Cong-trans b.coefficient
        (Cong-of_eq (ap pos (coprime n x b.divisor prime x_pos x_lt b.left b.right))))

-- Below a prime, the result is the inverse.
pub mod_inverse_lem :
    (n x : ℕ) → IsPrime n → 0 < x → x < n → residue n (mod_inverse (pos x) (pos n) *ℤ pos x) ≡ 1
mod_inverse_lem n x prime x_pos x_lt =
    residue_congr (omega arith) (mod_inverse-Cong n x prime x_pos x_lt) ∙ residue_small n 1 prime.0
