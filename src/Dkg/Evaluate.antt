-- ===== src/Dkg/Evaluate.antt =====
-- Evaluation by increasing powers against Horner's rule, and sums of shares (src/protocols/dkg/polynomial.ts).
use mathlib.Core.List.{map}
use nero_mpc_sdk.Base.{◌≡◌, refl, sym, ap, ◌∙◌, List, [], ◌∷◌}
use nero_mpc_sdk.Bigint.{
  ℤ, pos, ◌+ℤ◌, ◌*ℤ◌, ring_laws, residue, residue_small, residue_congr, Cong-trans, Cong-of_eq,
  Cong-+ℤ, Cong-*ℤ, Cong-residue,
}
use nero_mpc_sdk.Modular.{mod_twice-eq-residue}
use nero_mpc_sdk.Noble.{Noble, Lawful, order_pos}
use nero_mpc_sdk.Dkg.{evaluate_loop, evaluate_polynomial, aggregate_shares}

-- The value of a polynomial with the constant coefficient first.
unfoldable pub horner : List ℤ → ℤ → ℤ
horner [] x = pos 0
horner (c ∷ cs) x = c +ℤ x *ℤ horner cs x

-- The sum of the values of polynomials.
unfoldable pub total : List (List ℤ) → ℤ → ℤ
total [] x = pos 0
total (p ∷ ps) x = horner p x +ℤ total ps x

module _ (lib : Noble) (laws : Lawful lib) where
  open lib use {order}

  evaluate_loop_lem :
      (cs : List ℤ) (x a p : ℤ)
      → evaluate_loop lib cs x (pos (residue order a)) p
        ≡ pos (residue order (a +ℤ p *ℤ horner cs x))
  unfolding evaluate_loop horner
  evaluate_loop_lem [] x a p =
      ap (λ t. pos (residue order t)) {y = a +ℤ p *ℤ pos 0} (simp ring_laws)
  evaluate_loop_lem (c ∷ cs) x a p =
      let n_pos = order_pos lib laws in
      let q = pos (residue order (p *ℤ x)) in
      rw
        (
          mod_twice-eq-residue order n_pos (c *ℤ p),
          mod_twice-eq-residue order n_pos (pos (residue order a) +ℤ pos (residue order (c *ℤ p))),
          mod_twice-eq-residue order n_pos (p *ℤ x),
          evaluate_loop_lem cs x (pos (residue order a) +ℤ pos (residue order (c *ℤ p))) q,
        )
        (ap pos (
          residue_congr n_pos (
            Cong-trans
              (Cong-+ℤ (Cong-+ℤ (Cong-residue order a n_pos) (Cong-residue order (c *ℤ p) n_pos))
                (Cong-*ℤ (Cong-residue order (p *ℤ x) n_pos) (Cong-of_eq refl)))
              (Cong-of_eq {b = a +ℤ p *ℤ (c +ℤ x *ℤ horner cs x)} (simp ring_laws)))))

  -- For every list of coefficients and every point, `evaluatePolynomial` returns the value that
  -- Horner's rule gives, reduced by the order.
  pub evaluate_polynomial-horner :
      (cs : List ℤ) (x : ℤ) → evaluate_polynomial lib cs x ≡ pos (residue order (horner cs x))
  unfolding evaluate_polynomial
  evaluate_polynomial-horner cs x =
      ap (λ t. evaluate_loop lib cs x (pos t) (pos 1))
        (sym (residue_small order 0 (order_pos lib laws)))
      ∙ evaluate_loop_lem cs x (pos 0) (pos 1)
      ∙ ap (λ t. pos (residue order t)) {y = horner cs x} (simp ring_laws)

  -- The received evaluations of any polynomials, added to the own one by `aggregateShares`, give the
  -- value of the sum of all the polynomials at the same point, reduced by the order.
  pub aggregate_shares-total :
      (ps : List (List ℤ)) (own x : ℤ)
      → aggregate_shares lib (map (λ p. evaluate_polynomial lib p x) ps) (pos (residue order own))
        ≡ pos (residue order (own +ℤ total ps x))
  unfolding aggregate_shares total
  aggregate_shares-total [] own x =
      ap (λ t. pos (residue order t)) {y = own +ℤ pos 0} (simp ring_laws)
  aggregate_shares-total (p ∷ ps) own x =
      let n_pos = order_pos lib laws in
      rw
        (
          evaluate_polynomial-horner p x,
          mod_twice-eq-residue order n_pos
              (pos (residue order own) +ℤ pos (residue order (horner p x))),
          aggregate_shares-total ps (pos (residue order own) +ℤ pos (residue order (horner p x))) x,
        )
        (ap pos (
          residue_congr n_pos (
            Cong-trans
              (Cong-+ℤ
                (Cong-+ℤ (Cong-residue order own n_pos) (Cong-residue order (horner p x) n_pos))
                (Cong-of_eq refl))
              (Cong-of_eq {b = own +ℤ (horner p x +ℤ total ps x)} (simp ring_laws)))))
