-- ===== src/Dkg/Lagrange.antt =====
-- Lagrange coefficients (src/protocols/dkg/polynomial.ts) solve their defining equation.
use nero_mpc_sdk.Base.{
  ℕ, ◌<◌, ◌≡◌, ◌≢◌, refl, sym, ap, arith, ==_iff, Bool, true, false, ◌==◌, if◌then◌else◌,
  Bool-cases, inl, inr, List, [], ◌∷◌, All,
}
use mathlib.Core.List.{map}
use nero_mpc_sdk.Bigint.{
  ℤ, pos, ◌-ℤ◌, ◌*ℤ◌, ring_laws, residue, residue-lt, Cong, Cong-trans, Cong-symm, Cong-of_eq,
  Cong-+ℤ, Cong--ℤ, Cong-*ℤ, Cong-residue, Cong-modulus, Cong-small, sub-add_cancel_ℤ, zero-+ℤ,
  beq_ℤ,
}
use nero_mpc_sdk.Modular.{mod_twice-eq-residue, mod_inverse-Cong, mod_inverse}
use nero_mpc_sdk.Noble.{Noble, Lawful, order_pos, scalar_nonzero, product_nonzero}
use nero_mpc_sdk.Dkg.{lagrange_loop, compute_lagrange_coefficient}

-- The products over the other parties.
unfoldable pub others : (ℤ → ℤ) → ℤ → List ℤ → ℤ
others f i [] = pos 1
others f i (j ∷ js) = let rest = others f i js in if beq_ℤ j i then rest else f j *ℤ rest

module _ (lib : Noble) (laws : Lawful lib) where
  open lib use {order}

  numerator_step :
      (a j rest : ℤ)
      → Cong order
          (pos (residue order (a *ℤ (pos order -ℤ j))) *ℤ rest)
          (a *ℤ ((pos 0 -ℤ j) *ℤ rest))
  numerator_step a j rest =
      Cong-trans
        (Cong-*ℤ
          (Cong-trans (Cong-residue order (a *ℤ (pos order -ℤ j)) (order_pos lib laws))
            (Cong-*ℤ (Cong-of_eq refl) (Cong--ℤ (Cong-modulus order) (Cong-of_eq refl))))
          (Cong-of_eq refl))
        (Cong-of_eq {b = a *ℤ ((pos 0 -ℤ j) *ℤ rest)} (simp ring_laws))

  denominator_step :
      (a d rest : ℤ)
      → Cong order (pos (residue order (a *ℤ pos (residue order d))) *ℤ rest) (a *ℤ (d *ℤ rest))
  denominator_step a d rest =
      let n_pos = order_pos lib laws in
      Cong-trans
        (Cong-*ℤ
          (Cong-trans (Cong-residue order (a *ℤ pos (residue order d)) n_pos)
            (Cong-*ℤ (Cong-of_eq refl) (Cong-residue order d n_pos)))
          (Cong-of_eq refl))
        (Cong-of_eq {b = a *ℤ (d *ℤ rest)} (simp ring_laws))

  loop_same :
      (i j : ℤ) (js : List ℤ) (a b : ℤ)
      → beq_ℤ j i ≡ true
      → lagrange_loop lib i (j ∷ js) a b ≡ lagrange_loop lib i js a b
  unfolding lagrange_loop
  loop_same i j js a b e = rw e

  loop_other :
      (i j : ℤ) (js : List ℤ) (a b : ℤ)
      → beq_ℤ j i ≡ false
      → lagrange_loop lib i (j ∷ js) a b
        ≡ lagrange_loop lib i js
            (pos (residue order (a *ℤ (pos order -ℤ j))))
            (pos (residue order (b *ℤ pos (residue order (i -ℤ j)))))
  unfolding lagrange_loop
  loop_other i j js a b e =
      let n_pos = order_pos lib laws in
      rw (
        e,
        mod_twice-eq-residue order n_pos (a *ℤ (pos order -ℤ j)),
        mod_twice-eq-residue order n_pos (i -ℤ j),
        mod_twice-eq-residue order n_pos (b *ℤ pos (residue order (i -ℤ j))),
      )

  others_same :
      (f : ℤ → ℤ) (i j : ℤ) (js : List ℤ) → beq_ℤ j i ≡ true → others f i (j ∷ js) ≡ others f i js
  unfolding others
  others_same f i j js e = rw e

  others_other :
      (f : ℤ → ℤ) (i j : ℤ) (js : List ℤ)
      → beq_ℤ j i ≡ false
      → others f i (j ∷ js) ≡ f j *ℤ others f i js
  unfolding others
  others_other f i j js e = rw e

  -- What the loop returns: the two products up to the order, the second one as a residue.
  record Products (i : ℤ) (js : List ℤ) (a : ℤ) (b : ℕ) (r : ℤ × ℤ) : Type 0 where
    divisor : ℕ
    divisor_eq : r.1 ≡ pos divisor
    divisor_lt : divisor < order
    numerator : Cong order r.0 (a *ℤ others (λ j. pos 0 -ℤ j) i js)
    denominator : Cong order (pos divisor) (pos b *ℤ others (λ j. i -ℤ j) i js)

  without_parties :
      (i a : ℤ) (b : ℕ) → b < order → Products i [] a b (lagrange_loop lib i [] a (pos b))
  unfolding lagrange_loop others
  without_parties i a b b_lt = record {
    divisor = b;
    divisor_eq = refl;
    divisor_lt = b_lt;
    numerator = Cong-of_eq (simp ring_laws);
    denominator = Cong-of_eq (simp ring_laws);
  }

  lagrange_loop-Products :
      (i : ℤ) (js : List ℤ) (a : ℤ) (b : ℕ)
      → b < order
      → Products i js a b (lagrange_loop lib i js a (pos b))
  lagrange_loop-Products i [] a b b_lt = without_parties i a b b_lt
  lagrange_loop-Products i (j ∷ js) a b b_lt = elim (Bool-cases (beq_ℤ j i)) [
    | inl e ↦
        let r = lagrange_loop-Products i js a b b_lt in
        record {
          divisor = r.divisor;
          divisor_eq = rw (loop_same i j js a (pos b) e) r.divisor_eq;
          divisor_lt = r.divisor_lt;
          numerator =
              rw (loop_same i j js a (pos b) e, others_same (λ t. pos 0 -ℤ t) i j js e) r.numerator;
          denominator = rw (others_same (λ t. i -ℤ t) i j js e) r.denominator;
        }
    | inr e ↦
        let n_pos = order_pos lib laws in
        let d = residue order (pos b *ℤ pos (residue order (i -ℤ j))) in
        let r =
          lagrange_loop-Products i js (pos (residue order (a *ℤ (pos order -ℤ j)))) d
            (residue-lt order _ n_pos) in
        record {
          divisor = r.divisor;
          divisor_eq = rw (loop_other i j js a (pos b) e) r.divisor_eq;
          divisor_lt = r.divisor_lt;
          numerator =
              rw (loop_other i j js a (pos b) e, others_other (λ t. pos 0 -ℤ t) i j js e)
                (Cong-trans r.numerator (numerator_step a j (others (λ t. pos 0 -ℤ t) i js)));
          denominator = rw (others_other (λ t. i -ℤ t) i j js e) (
              Cong-trans r.denominator
                (denominator_step (pos b) (i -ℤ j) (others (λ t. i -ℤ t) i js)));
        }
  ]

  difference_nonzero :
      (i j : ℕ) → i < order → j < order → (j == i) ≡ false → ¬ (Cong order (pos i -ℤ pos j) (pos 0))
  difference_nonzero i j i_lt j_lt ne c = differ ne (
      (==_iff j i).1 (
        sym (
          Cong-small i_lt j_lt (
            Cong-trans (Cong-of_eq (sym (sub-add_cancel_ℤ (pos i) (pos j))))
              (Cong-trans (Cong-+ℤ c (Cong-of_eq refl)) (Cong-of_eq (zero-+ℤ (pos j))))))))
    where
      differ : {b : Bool} → b ≡ false → b ≡ true → ⊥
      differ e f = cc

  -- A product of two numbers vanishes only where one of them does.
  product_nonzero_ℤ :
      (x y : ℤ)
      → ¬ (Cong order x (pos 0))
      → ¬ (Cong order y (pos 0))
      → ¬ (Cong order (x *ℤ y) (pos 0))
  product_nonzero_ℤ x y hx hy c =
      let n_pos = order_pos lib laws in
      product_nonzero lib laws (residue order x) y
        (positive (residue order x)
          (λ e. hx (Cong-trans (Cong-symm (Cong-residue order x n_pos)) (Cong-of_eq (ap pos e)))))
        (residue-lt order x n_pos) hy
        (Cong-trans (Cong-*ℤ (Cong-residue order x n_pos) (Cong-of_eq refl)) c)
    where
      positive : (k : ℕ) → k ≢ 0 → 0 < k
      positive k h = omega arith

  others_nonzero :
      (i : ℕ) (js : List ℕ)
      → i < order
      → All (λ j. j < order) js
      → ¬ (Cong order (others (λ t. pos i -ℤ t) (pos i) (map pos js)) (pos 0))
  unfolding others
  others_nonzero i [] i_lt h = scalar_nonzero lib laws 1 (omega arith) laws.order_prime.0
  others_nonzero i (j ∷ js) i_lt (j_lt, h) =
      let rest = others_nonzero i js i_lt h in
      elim (Bool-cases (j == i)) [
        | inl e ↦ rw e rest
        | inr e ↦
            rw e (product_nonzero_ℤ (pos i -ℤ pos j) _ (difference_nonzero i j i_lt j_lt e) rest)
      ]

  -- For a party index `i` and participating indices below the order, the coefficient is a residue
  -- `l` with `l * Π (i - j) = Π (0 - j)` up to the order, both products over the participating
  -- indices `j` other than `i`; the first product is not 0 up to the order.
  pub compute_lagrange_coefficient_lem :
      (i : ℕ) (js : List ℕ)
      → i < order
      → All (λ j. j < order) js
      → (l : ℕ) × (compute_lagrange_coefficient lib (pos i) (map pos js) ≡ pos l)
        × (l < order)
        × Cong order
            (pos l *ℤ others (λ j. pos i -ℤ j) (pos i) (map pos js))
            (others (λ j. pos 0 -ℤ j) (pos i) (map pos js))
        × (¬ (Cong order (others (λ j. pos i -ℤ j) (pos i) (map pos js)) (pos 0)))
  unfolding compute_lagrange_coefficient
  compute_lagrange_coefficient_lem i js i_lt h =
      let n_pos = order_pos lib laws in
      let r = lagrange_loop-Products (pos i) (map pos js) (pos 1) 1 laws.order_prime.0 in
      let loop = lagrange_loop lib (pos i) (map pos js) (pos 1) (pos 1) in
      let below = others (λ j. pos i -ℤ j) (pos i) (map pos js) in
      let above = others (λ j. pos 0 -ℤ j) (pos i) (map pos js) in
      let nonzero = others_nonzero i js i_lt h in
      let divisor_below : Cong order (pos r.divisor) below =
        Cong-trans r.denominator (Cong-of_eq (simp ring_laws)) in
      let inverse = mod_inverse (pos r.divisor) (pos order) in
      let inverse_divisor : Cong order (inverse *ℤ pos r.divisor) (pos 1) =
        mod_inverse-Cong order r.divisor laws.order_prime
          (positive r.divisor
            (λ e. nonzero (Cong-trans (Cong-symm divisor_below) (Cong-of_eq (ap pos e)))))
          r.divisor_lt in
      (
        residue order (loop.0 *ℤ inverse),
        rw r.divisor_eq (mod_twice-eq-residue order n_pos _),
        residue-lt order _ n_pos,
        Cong-trans
            (Cong-*ℤ
              (Cong-trans (Cong-residue order (loop.0 *ℤ inverse) n_pos)
                (Cong-*ℤ r.numerator (Cong-of_eq refl)))
              (Cong-symm divisor_below))
            (Cong-trans (Cong-of_eq {b = above *ℤ (inverse *ℤ pos r.divisor)} (simp ring_laws)) (
              Cong-trans (Cong-*ℤ (Cong-of_eq refl) inverse_divisor)
                (Cong-of_eq (simp ring_laws)))),
        nonzero,
      )
    where
      positive : (k : ℕ) → k ≢ 0 → 0 < k
      positive k h = omega arith
