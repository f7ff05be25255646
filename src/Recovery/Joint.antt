-- ===== src/Recovery/Joint.antt =====
-- The secret that a recovery puts together (src/core/self-custody-recovery.ts).
use nero_mpc_sdk.Base.{ℕ, ◌≡◌, refl, ap, ap₂, ◌∙◌, arith, false, [], ◌∷◌, some}
use nero_mpc_sdk.Bigint.{
  ℤ, pos, sub_ℕ_ext, by_differences₂, difference_laws, ◌+ℤ◌, ◌-ℤ◌, ◌*ℤ◌, ring_laws, residue,
  residue_congr, Cong-trans, Cong-of_eq, Cong--ℤ, Cong-*ℤ, Cong-residue,
}
use nero_mpc_sdk.Modular.{mod_twice-eq-residue}
use nero_mpc_sdk.Hex.{text, same_text, same_text_self}
use nero_mpc_sdk.Noble.{Noble, Lawful, order_pos, scale, scale_congr}
use nero_mpc_sdk.Dkls.Ot.Laws.{IsScalar, multiply-base}
use nero_mpc_sdk.Dkg.{evaluate_polynomial}
use nero_mpc_sdk.Dkg.Evaluate.{horner, evaluate_polynomial-horner}
use nero_mpc_sdk.Dkg.Feldman.{residue_product-IsScalar}
use nero_mpc_sdk.Dkg.Exchange.{Webcrypto}
use nero_mpc_sdk.Recovery.Blob.{multiplicative, additive}
use nero_mpc_sdk.Recovery.Custody.{Hashing, joint_secret}

other_kind : same_text additive multiplicative ≡ false
unfolding same_text additive multiplicative text
other_kind = refl

difference : (a b : ℤ) → pos 2 *ℤ (a +ℤ b) -ℤ (a +ℤ pos 2 *ℤ b) ≡ a
difference =
    by_differences₂ (λ a b. pos 2 *ℤ (a +ℤ b) -ℤ (a +ℤ pos 2 *ℤ b) ≡ a)
      (λ x y u v. simp difference_laws (sub_ℕ_ext _ _ _ _ (omega arith)))

module _ (lib : Noble) (laws : Lawful lib) (web : Webcrypto) (hashing : Hashing) where
  open lib use {base, order, multiply}

  -- Twice the value at 1 less the value at 2 is the value at 0.
  line : (c0 c1 : ℤ) → pos 2 *ℤ horner (c0 ∷ c1 ∷ []) (pos 1) -ℤ horner (c0 ∷ c1 ∷ []) (pos 2) ≡ c0
  unfolding horner
  line c0 c1 =
      ap₂ (λ a b. pos 2 *ℤ a -ℤ b) {y = c0 +ℤ c1} {v = c0 +ℤ pos 2 *ℤ c1} (simp ring_laws)
        (simp ring_laws)
      ∙ difference c0 c1

  -- With additive sharing, from the values at 1 and at 2 of a polynomial `c0 + c1 * x`, the secret
  -- `c0` is put together, up to the order. With multiplicative sharing, from two scalars, their
  -- product, whose public key is the joint key of the two.
  pub joint_secret_lem :
      (c0 c1 : ℤ) (x y : ℕ)
      → IsScalar order x
      → IsScalar order y
      → (joint_secret lib web hashing additive
            (evaluate_polynomial lib (c0 ∷ c1 ∷ []) (pos 1))
            (evaluate_polynomial lib (c0 ∷ c1 ∷ []) (pos 2))
          ≡ pos (residue order c0))
        × (joint_secret lib web hashing multiplicative (pos x) (pos y)
            ≡ pos (residue order (pos x *ℤ pos y)))
        × (multiply base (joint_secret lib web hashing multiplicative (pos x) (pos y))
            ≡ some (scale lib (pos x *ℤ pos y) base))
  unfolding joint_secret
  joint_secret_lem c0 c1 x y hx hy =
      let n_pos = order_pos lib laws in
      let h1 = horner (c0 ∷ c1 ∷ []) (pos 1) in
      let h2 = horner (c0 ∷ c1 ∷ []) (pos 2) in
      let product : joint_secret lib web hashing multiplicative (pos x) (pos y)
          ≡ pos (residue order (pos x *ℤ pos y)) =
        rw (same_text_self multiplicative, mod_twice-eq-residue order n_pos (pos x *ℤ pos y)) in
      (
        rw
            (
              other_kind,
              evaluate_polynomial-horner lib laws (c0 ∷ c1 ∷ []) (pos 1),
              evaluate_polynomial-horner lib laws (c0 ∷ c1 ∷ []) (pos 2),
              mod_twice-eq-residue order n_pos
                  (pos 2 *ℤ pos (residue order h1) -ℤ pos (residue order h2)),
            )
            (ap pos (
              residue_congr n_pos (
                Cong-trans
                  (Cong--ℤ (Cong-*ℤ (Cong-of_eq refl) (Cong-residue order h1 n_pos))
                    (Cong-residue order h2 n_pos))
                  (Cong-of_eq (line c0 c1))))),
        product,
        ap (multiply base) product
            ∙ multiply-base lib laws _ (residue_product-IsScalar lib laws x y hx hy)
            ∙ ap some (scale_congr lib laws base (Cong-residue order (pos x *ℤ pos y) n_pos)),
      )
