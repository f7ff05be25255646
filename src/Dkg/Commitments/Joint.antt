-- ===== src/Dkg/Commitments/Joint.antt =====
-- The commitments of two parties, read back and combined (src/protocols/dkg/commitments.ts).
use nero_mpc_sdk.Base.{ℕ, ◌≡◌, sym, ap, ◌∙◌, ==_iff, true, false, List, [], ◌∷◌, map, some, All}
use nero_mpc_sdk.Base.Throws.{ok}
use nero_mpc_sdk.Bigint.{pos, ◌+ℤ◌, residue, Cong}
use nero_mpc_sdk.Hex.{Text}
use nero_mpc_sdk.Noble.{Noble, Lawful, scale, scale-+ℤ, scale-base_zero}
use nero_mpc_sdk.Dkls.Ot.Laws.{IsScalar, multiply-base}
use nero_mpc_sdk.Dkg.{compute_commitments, first_point, combine_loop, verify_vsss_commitment}
use nero_mpc_sdk.Dkg.Evaluate.{horner}
use nero_mpc_sdk.Dkg.Feldman.{committed, verify_share_exact}
use nero_mpc_sdk.Dkg.Commitments.{VsssCommitment, combine_vsss_commitments}
use nero_mpc_sdk.Dkg.Commitments.Knowledge.{multiple_text}

same_ok : {a b : List Text} → ok a ≡ ok b → a ≡ b
same_ok e = cc

module _ (lib : Noble) (laws : Lawful lib) where
  open lib use {base, order, from_hex}

  -- The first of a party's commitments is its secret in the exponent.
  pub first_of_commitments :
      (c : ℕ) (cs : List ℕ) (texts : List Text)
      → All (IsScalar order) (c ∷ cs)
      → compute_commitments lib (map pos (c ∷ cs)) ≡ ok texts
      → (first : Text) × (rest : List Text) × (texts ≡ first ∷ rest)
        × (from_hex first ≡ some (scale lib (pos c) base))
  unfolding compute_commitments
  first_of_commitments c cs texts (hc, hcs) h =
      let (first, written, read) = multiple_text lib laws c hc in
      let others = committed lib laws cs c hcs hc in
      let computed : compute_commitments lib (map pos (c ∷ cs)) ≡ ok (first ∷ others.texts) =
        rw (multiply-base lib laws c hc, written, others.written) in
      (first, others.texts, same_ok (sym h ∙ computed), read)

  pub first_point_of_commitments :
      (c : ℕ) (cs : List ℕ) (texts : List Text)
      → All (IsScalar order) (c ∷ cs)
      → compute_commitments lib (map pos (c ∷ cs)) ≡ ok texts
      → first_point lib texts ≡ ok (scale lib (pos c) base)
  unfolding first_point
  first_point_of_commitments c cs texts h written =
      let (first, rest, e, read) = first_of_commitments c cs texts h written in
      ap (first_point lib) e ∙ rw read

  -- The value of the polynomial is accepted against its commitments.
  pub own_value_accepted :
      (c : ℕ) (cs : List ℕ) (texts : List Text) (x s : ℕ)
      → All (IsScalar order) (c ∷ cs)
      → IsScalar order x
      → IsScalar order s
      → s ≡ residue order (horner (map pos (c ∷ cs)) (pos x))
      → compute_commitments lib (map pos (c ∷ cs)) ≡ ok texts
      → verify_vsss_commitment lib texts (pos s) x ≡ ok true
  own_value_accepted c cs texts x s h hx hs e written =
      let (texts', written', shared, checked) = verify_share_exact lib laws c cs x s h hx hs in
      ap (λ t. verify_vsss_commitment lib t (pos s) x) (same_ok (sym written ∙ written'))
      ∙ checked
      ∙ ap ok ((==_iff s _).1 e)

  -- Two parties' secrets, added in the exponent.
  pub combine_vsss_commitments-sum :
      (a b : VsssCommitment) (x y : ℕ)
      → first_point lib a.coefficient_commitments ≡ ok (scale lib (pos x) base)
      → first_point lib b.coefficient_commitments ≡ ok (scale lib (pos y) base)
      → ¬ (Cong order (pos x +ℤ pos y) (pos 0))
      → (key : Text) × (combine_vsss_commitments lib (a ∷ b ∷ []) ≡ ok key)
        × (from_hex key ≡ some (scale lib (pos x +ℤ pos y) base))
  unfolding combine_vsss_commitments combine_loop
  combine_vsss_commitments-sum a b x y ea eb ne =
      let (key, written, read) =
        laws.to_hex_finite false (scale lib (pos x +ℤ pos y) base)
          (λ z. ne (scale-base_zero lib laws (pos x +ℤ pos y) z)) in
      (key, rw (ea, eb, ← scale-+ℤ lib laws (pos x) (pos y) base, written), read)
