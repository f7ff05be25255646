-- ===== src/Threshold/Combine.antt =====
-- What `combinePartialSignatures` returns (src/protocols/signing/partial-signature.ts).
use nero_mpc_sdk.Base.{
  ℕ, ◌+◌, ◌-◌, ◌/◌, ◌%◌, ◌<◌, ◌≤◌, ◌≡◌, ◌⊎◌, inl, inr, refl, sym, ap, ap₂, ◌∙◌, arith, ltb, ◌==◌,
  Bool, true, false, Bool-cases, if◌then◌else◌, List, [], ◌∷◌,
}
use nero_mpc_sdk.Bigint.{
  ℤ, pos, ◌+ℤ◌, ◌-ℤ◌, tdiv, ltb_ℤ, pos-sub, residue, residue-lt, residue_small, residue_congr,
  ring_laws, Cong-trans, Cong-of_eq, Cong-+ℤ, Cong-residue,
}
use nero_mpc_sdk.Modular.{mod_twice-eq-residue}
use nero_mpc_sdk.Noble.{Noble, Lawful, order_pos}
use nero_mpc_sdk.Threshold.{
  PartialSignatureData, Signature, sum_partials, low_s, combine_partial_signatures,
}

-- The sum of the parts.
unfoldable pub sum_sigma : List PartialSignatureData → ℤ
sum_sigma [] = pos 0
sum_sigma (partial ∷ partials) = partial.sigma +ℤ sum_sigma partials

module _ (lib : Noble) (laws : Lawful lib) where
  open lib use {order}

  sum_partials_lem :
      (partials : List PartialSignatureData) (a : ℤ)
      → sum_partials lib partials (pos (residue order a))
        ≡ pos (residue order (a +ℤ sum_sigma partials))
  unfolding sum_partials sum_sigma
  sum_partials_lem [] a = ap (λ t. pos (residue order t)) {y = a +ℤ pos 0} (simp ring_laws)
  sum_partials_lem (partial ∷ partials) a =
      let n_pos = order_pos lib laws in
      rw
        (
          mod_twice-eq-residue order n_pos (pos (residue order a) +ℤ partial.sigma),
          sum_partials_lem partials (pos (residue order a) +ℤ partial.sigma),
        )
        (ap pos (
          residue_congr n_pos (
            Cong-trans
              (Cong-+ℤ (Cong-+ℤ (Cong-residue order a n_pos) (Cong-of_eq refl)) (Cong-of_eq refl))
              (Cong-of_eq {b = a +ℤ (partial.sigma +ℤ sum_sigma partials)} (simp ring_laws)))))

  -- The two outcomes for a sum `t` below the order.
  abbrev pub IsLowered : ℤ → ℕ → ℕ → Signature → Type 0
  IsLowered r t y signature =
      (s : ℕ) × (signature.r ≡ r)
      × (signature.s ≡ pos s)
      × (s ≤ order / 2)
      × (((s ≡ t) × (signature.v ≡ 27 + y % 2)) ⊎ ((s + t ≡ order) × (signature.v + y % 2 ≡ 28)))

  above_half : (t : ℕ) → ltb_ℤ (tdiv (pos order) (pos 2)) (pos t) ≡ ltb (order / 2) t
  unfolding tdiv
  above_half t = ap₂ ltb {y = order / 2} (omega arith) (omega arith)

  low_s_of :
      (r : ℤ) (t v : ℕ) (b : Bool)
      → ltb (order / 2) t ≡ b
      → low_s lib r (pos t) v ≡ (
          if b
          then record { r = r; s = pos order -ℤ pos t; v = (if v == 27 then 28 else 27) }
          else record { r = r; s = pos t; v = v })
  unfolding low_s
  low_s_of r t v b e = rw (above_half t ∙ e)

  low_s-IsLowered :
      (r : ℤ) (t y : ℕ)
      → t < order
      → IsLowered r t y (low_s lib r (pos t) (if y % 2 == 0 then 27 else 28))
  low_s-IsLowered r t y t_lt = elim (Bool-cases (ltb (order / 2) t)) [
    | inl high ↦ rw (low_s_of r t _ true high) (
      order - t,
      refl,
      pos-sub order t (omega arith),
      ground arith,
      inr (omega arith, ground arith),
    )
    | inr low ↦
        rw (low_s_of r t _ false low) (t, refl, refl, ground arith, inl (refl, ground arith))
  ]

  -- For any parts, the signature keeps `r`, its `s` is at most half the order, and it is the sum of
  -- the parts up to the order with `v` 27 or 28 by the parity of the nonce's `y`, or the order less
  -- that sum with the other `v`.
  pub combine_partial_signatures-IsLowered :
      (partials : List PartialSignatureData) (r : ℤ) (y : ℕ)
      → IsLowered r
          (residue order (sum_sigma partials))
          y
          (combine_partial_signatures lib partials r y)
  unfolding combine_partial_signatures
  combine_partial_signatures-IsLowered partials r y =
      rw
        (
          ap (λ t. sum_partials lib partials (pos t))
              (sym (residue_small order 0 (order_pos lib laws))),
          sum_partials_lem partials (pos 0),
          ap (λ t. residue order t) {x = pos 0 +ℤ sum_sigma partials} {y = sum_sigma partials}
              (simp ring_laws),
        )
        (low_s-IsLowered r (residue order (sum_sigma partials)) y
          (residue-lt order (sum_sigma partials) (order_pos lib laws)))
