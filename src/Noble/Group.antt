-- ===== src/Noble/Group.antt =====
-- Scalar multiples in the group, by residues of the scalar.
use native.Mathlib.Nat.{div-add-mod}
use nero_mpc_sdk.Base.{
  ℕ, zero, suc, ◌+◌, ◌*◌, ◌/◌, ◌%◌, ◌<◌, ◌≡◌, ◌≢◌, refl, sym, ap, ap₂, ◌∙◌, ◌≡⟨◌⟩◌, ◌∎, arith, some,
}
use nero_mpc_sdk.Bigint.{
  ℤ, pos, ◌+ℤ◌, ◌-ℤ◌, ◌*ℤ◌, residue, residue-pos, residue_congr, residue_small, residue-lt, Cong,
  Cong-trans, Cong-symm, Cong-of_eq, Cong-residue, Cong-+ℤ, Cong-*ℤ, pos-+, pos-*, sub-add_cancel_ℤ,
  Cong-of_residue, Cong-small, zero-+ℤ, one-*ℤ, *ℤ_assoc, *ℤ-zero,
}
use nero_mpc_sdk.Modular.{mod_inverse, mod_inverse-Cong}
use nero_mpc_sdk.Noble.Defs.{Noble, Lawful, times}

-- The multiple by an integer.
unfoldable pub scale : (lib : Noble) → ℤ → lib.Point → lib.Point
scale lib k p = times lib (residue lib.order k) p

module _ (lib : Noble) (laws : Lawful lib) where
  open lib use {Point, base, infinity, add, subtract, multiply, order}

  pub order_pos : 0 < order
  order_pos = omega (arith, laws.order_prime.0)

  add_infinity : (p : Point) → add p infinity ≡ p
  add_infinity p = laws.add_comm p infinity ∙ laws.infinity_add p

  pub times-+ : (j k : ℕ) (p : Point) → times lib (j + k) p ≡ add (times lib j p) (times lib k p)
  unfolding times
  times-+ zero k p = ap (λ t. times lib t p) {y = k} (omega arith) ∙ sym (laws.infinity_add _)
  times-+ (suc j) k p =
      times lib (suc j + k) p
      ≡⟨ ap (λ t. times lib t p) {y = suc (j + k)} (omega arith) ⟩ times lib (suc (j + k)) p
      ≡⟨ ap (add p) (times-+ j k p) ⟩ add p (add (times lib j p) (times lib k p))
      ≡⟨ sym (laws.add_assoc p (times lib j p) (times lib k p)) ⟩
        add (times lib (suc j) p) (times lib k p) ∎

  times-infinity : (k : ℕ) → times lib k infinity ≡ infinity
  unfolding times
  times-infinity zero = refl
  times-infinity (suc k) = laws.infinity_add _ ∙ times-infinity k

  pub times-* : (j k : ℕ) (p : Point) → times lib (j * k) p ≡ times lib j (times lib k p)
  unfolding times
  times-* zero k p = ap (λ t. times lib t p) {y = 0} (omega arith)
  times-* (suc j) k p =
      times lib (suc j * k) p
      ≡⟨ ap (λ t. times lib t p) {y = k + j * k} (omega arith) ⟩ times lib (k + j * k) p
      ≡⟨ times-+ k (j * k) p ⟩ add (times lib k p) (times lib (j * k) p)
      ≡⟨ ap (add (times lib k p)) (times-* j k p) ⟩ times lib (suc j) (times lib k p) ∎

  times-% : (k : ℕ) (p : Point) → times lib k p ≡ times lib (k % order) p
  times-% k p =
      times lib k p
      ≡⟨ ap (λ t. times lib t p) (omega (arith, div-add-mod k order)) ⟩
        times lib (k / order * order + k % order) p
      ≡⟨ times-+ (k / order * order) (k % order) p ⟩
        add (times lib (k / order * order) p) (times lib (k % order) p)
      ≡⟨ ap (λ t. add t (times lib (k % order) p)) vanishes ⟩ add infinity (times lib (k % order) p)
      ≡⟨ laws.infinity_add _ ⟩ times lib (k % order) p ∎
    where
      vanishes : times lib (k / order * order) p ≡ infinity
      vanishes =
          times-* (k / order) order p
          ∙ ap (times lib (k / order)) (laws.times_order p)
          ∙ times-infinity (k / order)

  pub scale_congr : {a b : ℤ} (p : Point) → Cong order a b → scale lib a p ≡ scale lib b p
  unfolding scale
  scale_congr p c = ap (λ t. times lib t p) (residue_congr order_pos c)

  pub scale-pos : (k : ℕ) (p : Point) → scale lib (pos k) p ≡ times lib k p
  unfolding scale
  scale-pos k p = ap (λ t. times lib t p) (residue-pos order k) ∙ sym (times-% k p)

  scale-residue : (a : ℤ) (p : Point) → scale lib a p ≡ times lib (residue order a) p
  unfolding scale
  scale-residue a p = refl

  pub scale-+ℤ : (a b : ℤ) (p : Point) → scale lib (a +ℤ b) p ≡ add (scale lib a p) (scale lib b p)
  scale-+ℤ a b p =
      scale lib (a +ℤ b) p
      ≡⟨ scale_congr p (
          Cong-+ℤ (Cong-symm (Cong-residue order a order_pos))
            (Cong-symm (Cong-residue order b order_pos))) ⟩
        scale lib (pos (residue order a) +ℤ pos (residue order b)) p
      ≡⟨ ap (λ t. scale lib t p) (pos-+ _ _) ∙ scale-pos _ p ⟩
        times lib (residue order a + residue order b) p
      ≡⟨ times-+ _ _ p ⟩ add (times lib (residue order a) p) (times lib (residue order b) p)
      ≡⟨ ap₂ add (sym (scale-residue a p)) (sym (scale-residue b p)) ⟩
        add (scale lib a p) (scale lib b p) ∎

  pub scale-*ℤ : (a b : ℤ) (p : Point) → scale lib (a *ℤ b) p ≡ scale lib a (scale lib b p)
  scale-*ℤ a b p =
      scale lib (a *ℤ b) p
      ≡⟨ scale_congr p (
          Cong-*ℤ (Cong-symm (Cong-residue order a order_pos))
            (Cong-symm (Cong-residue order b order_pos))) ⟩
        scale lib (pos (residue order a) *ℤ pos (residue order b)) p
      ≡⟨ ap (λ t. scale lib t p) (pos-* _ _) ∙ scale-pos _ p ⟩
        times lib (residue order a * residue order b) p
      ≡⟨ times-* _ _ p ⟩ times lib (residue order a) (times lib (residue order b) p)
      ≡⟨ ap (times lib (residue order a)) (sym (scale-residue b p)) ⟩
        times lib (residue order a) (scale lib b p)
      ≡⟨ sym (scale-residue a (scale lib b p)) ⟩ scale lib a (scale lib b p) ∎

  pub scale--ℤ :
      (a b : ℤ) (p : Point) → subtract (scale lib a p) (scale lib b p) ≡ scale lib (a -ℤ b) p
  scale--ℤ a b p =
      ap (λ t. subtract t (scale lib b p))
        (ap (λ t. scale lib t p) (sym (sub-add_cancel_ℤ a b)) ∙ scale-+ℤ (a -ℤ b) b p)
      ∙ laws.add_subtract (scale lib (a -ℤ b) p) (scale lib b p)

  pub scale-zero : (p : Point) → scale lib (pos 0) p ≡ infinity
  unfolding times
  scale-zero p = scale-pos 0 p

  -- Only the multiples of the order take the generator to the point at infinity.
  pub scale-base_zero : (a : ℤ) → scale lib a base ≡ infinity → Cong order a (pos 0)
  scale-base_zero a e = Cong-of_residue order_pos (
      sym (residue_small order (residue order a) (residue-lt order a order_pos))
      ∙ residue-pos order _
      ∙ laws.base_order _ (sym (scale-residue a base) ∙ e)
      ∙ sym (residue_small order 0 order_pos))

  pub scale-base_injective : (a b : ℤ) → scale lib a base ≡ scale lib b base → Cong order a b
  scale-base_injective a b e = Cong-trans (Cong-of_eq (sym (sub-add_cancel_ℤ a b))) (
      Cong-trans (Cong-+ℤ (scale-base_zero (a -ℤ b) difference) (Cong-of_eq refl))
        (Cong-of_eq (zero-+ℤ b)))
    where
      difference : scale lib (a -ℤ b) base ≡ infinity
      difference =
          sym (scale--ℤ a b base)
          ∙ ap (λ t. subtract t (scale lib b base)) (e ∙ sym (laws.infinity_add _))
          ∙ laws.add_subtract infinity (scale lib b base)

  -- `multiply` at a scalar in range.
  pub multiply-scale :
      (p : Point) (k : ℕ) → 0 < k → k < order → lib.multiply p (pos k) ≡ some (scale lib (pos k) p)
  multiply-scale p k h l = laws.multiply_in p k h l ∙ ap some (sym (scale-pos k p))

  pub scalar_nonzero : (k : ℕ) → 0 < k → k < order → ¬ (Cong order (pos k) (pos 0))
  scalar_nonzero k k_pos k_lt c = absurd (omega (arith, Cong-small k_lt order_pos c))

  -- Below a prime, a product with a scalar vanishes only where the other factor does.
  pub product_nonzero :
      (j : ℕ) (x : ℤ)
      → 0 < j
      → j < order
      → ¬ (Cong order x (pos 0))
      → ¬ (Cong order (pos j *ℤ x) (pos 0))
  product_nonzero j x j_pos j_lt ne c =
      let i = mod_inverse (pos j) (pos order) in
      ne (
        Cong-trans (Cong-of_eq (sym (one-*ℤ x))) (
          Cong-trans
            (Cong-*ℤ (Cong-symm (mod_inverse-Cong order j laws.order_prime j_pos j_lt))
              (Cong-of_eq refl))
            (Cong-trans (Cong-of_eq (*ℤ_assoc i (pos j) x))
              (Cong-trans (Cong-*ℤ {a = i} (Cong-of_eq refl) c) (Cong-of_eq (*ℤ-zero i))))))

  pub scale-one : (p : Point) → scale lib (pos 1) p ≡ p
  unfolding times
  scale-one p = scale-pos 1 p ∙ add_infinity p

  pub base_finite : base ≢ infinity
  base_finite e = absurd (
      omega (
        arith,
        laws.order_prime.0,
        Cong-small {a = 1} laws.order_prime.0 order_pos
            (scale-base_zero (pos 1) (scale-one base ∙ e)),
      ))
