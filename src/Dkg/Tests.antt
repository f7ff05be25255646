-- ===== src/Dkg/Tests.antt =====
-- Sharing in the group of seven elements.
use mathlib.Core.List.{map}
use nero_mpc_sdk.Base.{ℕ, ◌<◌, ◌≡◌, ◌==◌, arith, List, [], ◌∷◌}
use nero_mpc_sdk.Base.Throws.{ok}
use nero_mpc_sdk.Bigint.{pos, ◌+ℤ◌, ◌-ℤ◌, ◌*ℤ◌, residue, Cong}
use nero_mpc_sdk.Hex.{Text}
use nero_mpc_sdk.Noble.Toy.{toy, toy_laws}
use nero_mpc_sdk.Dkg.{
  evaluate_polynomial, compute_commitments, verify_share_against_commitments,
  verify_vsss_commitment, compute_lagrange_coefficient,
}
use nero_mpc_sdk.Dkg.Evaluate.{horner, evaluate_polynomial-horner}
use nero_mpc_sdk.Dkg.Feldman.{verify_share_exact}
use nero_mpc_sdk.Dkg.Lagrange.{others, compute_lagrange_coefficient_lem}
use nero_mpc_sdk.Dkg.Recover.{two_parties_recover}

evaluate_polynomial-horner_example :
    evaluate_polynomial toy (pos 3 ∷ pos 4 ∷ []) (pos 2)
    ≡ pos (residue 7 (horner (pos 3 ∷ pos 4 ∷ []) (pos 2)))
evaluate_polynomial-horner_example =
    evaluate_polynomial-horner toy toy_laws (pos 3 ∷ pos 4 ∷ []) (pos 2)

-- The polynomial 3 + 4 x at 2 is 4.
verify_share_exact_example :
    (texts : List Text) × (compute_commitments toy (map pos (3 ∷ 4 ∷ [])) ≡ ok texts)
    × (verify_share_against_commitments toy (pos 4) (pos 2) texts
        ≡ ok (4 == residue 7 (horner (map pos (3 ∷ 4 ∷ [])) (pos 2))))
    × (verify_vsss_commitment toy texts (pos 4) 2
        ≡ ok (4 == residue 7 (horner (map pos (3 ∷ 4 ∷ [])) (pos 2))))
verify_share_exact_example =
    verify_share_exact toy toy_laws 3 (4 ∷ []) 2 4 (omega arith, (omega arith, tt)) (omega arith)
      (omega arith)

compute_lagrange_coefficient_lem_example :
    (l : ℕ) × (compute_lagrange_coefficient toy (pos 1) (map pos (1 ∷ 2 ∷ 4 ∷ [])) ≡ pos l)
    × (l < 7)
    × Cong 7
        (pos l *ℤ others (λ j. pos 1 -ℤ j) (pos 1) (map pos (1 ∷ 2 ∷ 4 ∷ [])))
        (others (λ j. pos 0 -ℤ j) (pos 1) (map pos (1 ∷ 2 ∷ 4 ∷ [])))
    × (¬ (Cong 7 (others (λ j. pos 1 -ℤ j) (pos 1) (map pos (1 ∷ 2 ∷ 4 ∷ []))) (pos 0)))
compute_lagrange_coefficient_lem_example =
    compute_lagrange_coefficient_lem toy toy_laws 1 (1 ∷ 2 ∷ 4 ∷ []) (omega arith)
      (omega arith, (omega arith, (omega arith, tt)))

two_parties_recover_example :
    Cong 7
      (compute_lagrange_coefficient toy (pos 1) (pos 1 ∷ pos 2 ∷ [])
          *ℤ evaluate_polynomial toy (pos 3 ∷ pos 4 ∷ []) (pos 1)
        +ℤ compute_lagrange_coefficient toy (pos 2) (pos 1 ∷ pos 2 ∷ [])
          *ℤ evaluate_polynomial toy (pos 3 ∷ pos 4 ∷ []) (pos 2))
      (pos 3)
two_parties_recover_example =
    two_parties_recover toy toy_laws 1 2 (pos 3) (pos 4) (omega arith) (omega arith) (omega arith)
