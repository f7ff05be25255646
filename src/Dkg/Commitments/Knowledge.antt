-- ===== src/Dkg/Commitments/Knowledge.antt =====
-- Proofs of knowledge of a party's secret (src/protocols/dkg/commitments.ts).
use nero_mpc_sdk.Base.{
  ℕ, zero, suc, ◌<◌, ◌≡◌, refl, arith, ltb, Bool, true, ◌&&◌, if◌then◌else◌, List, ◌∷◌, map, some,
  inl, All,
}
use nero_mpc_sdk.Base.Throws.{Throws, ok, throw, or_throw, ◌>>=◌}
use nero_mpc_sdk.Bigint.{
  pos, ◌+ℤ◌, ◌*ℤ◌, ring_laws, residue, residue-lt, Cong, Cong-trans, Cong-of_eq, Cong-residue,
}
use nero_mpc_sdk.Modular.{mod_twice-eq-residue}
use nero_mpc_sdk.Hex.{Text, scalar_to_hex}
use nero_mpc_sdk.Noble.{
  Noble, Lawful, order_pos, scale, scale-+ℤ, scale_congr, scalar_nonzero, scale-base_zero,
}
use nero_mpc_sdk.Dkls.Ot.Laws.{IsScalar, multiply-base, multiply-multiple}
use nero_mpc_sdk.Dkls.Keygen.Schnorr.{parse-scalar}
use nero_mpc_sdk.Dkg.{compute_commitments}
use nero_mpc_sdk.Dkg.Feldman.{committed}
use nero_mpc_sdk.Dkg.Commitments.{
  KnowledgeProof, compute_challenge, create_proof_of_knowledge, verify_proof_of_knowledge,
  create_vsss_commitments,
}
use nero_mpc_sdk.Dkg.Commitments.Pedersen.{text_challenge-lt}

module _ (lib : Noble) (laws : Lawful lib) where
  open lib use {Point, base, order, multiply, add, equals, to_hex, from_hex}

  -- The text of a multiple of the generator, which reads back.
  pub multiple_text :
      (x : ℕ)
      → IsScalar order x
      → (t : Text) × (to_hex true (scale lib (pos x) base) ≡ some t)
        × (from_hex t ≡ some (scale lib (pos x) base))
  multiple_text x hx =
      laws.to_hex_finite true (scale lib (pos x) base)
        (λ z. scalar_nonzero lib laws x hx.0 hx.1 (scale-base_zero lib laws (pos x) z))

  pub compute_challenge-lt :
      (party_id : ℕ) (commitment r : Text)
      → (e : ℕ) × (compute_challenge lib party_id commitment r ≡ ok (pos e)) × (e < order)
  unfolding compute_challenge
  compute_challenge-lt party_id commitment r = text_challenge-lt lib laws _

  -- The equation of a response, for a response and a challenge that `multiply` takes.
  abbrev response_equation : ℕ → Text → ℕ → ℕ → Throws Bool
  response_equation k public_text e s = do
    left_side ← or_throw (multiply base (pos s)) "multiply"
    public_point ← or_throw (from_hex public_text) "fromHex"
    scaled ← or_throw (multiply public_point (pos e)) "multiply"
    ok (equals left_side (add (scale lib (pos k) base) scaled))

  response_equation_lem :
      (k x e s : ℕ) (public_text : Text)
      → from_hex public_text ≡ some (scale lib (pos x) base)
      → s < order
      → e < order
      → Cong order (pos s) (pos k +ℤ pos e *ℤ pos x)
      → response_equation k public_text e s
        ≡ (if ltb 0 s && ltb 0 e then ok true else throw "multiply")
  response_equation_lem k x e zero public_text read hs he c =
      rw (laws.multiply_out base (pos 0) (inl (omega arith)))
  response_equation_lem k x zero (suc s) public_text read hs he c =
      rw
        (
          multiply-base lib laws (suc s) (omega arith),
          read,
          laws.multiply_out (scale lib (pos x) base) (pos 0) (inl (omega arith)),
        )
        (ground arith)
  response_equation_lem k x (suc e) (suc s) public_text read hs he c =
      rw
        (
          multiply-base lib laws (suc s) (omega arith),
          read,
          multiply-multiple lib laws (pos x) (suc e) (omega arith),
          ← scale-+ℤ lib laws (pos k) (pos (suc e) *ℤ pos x) base,
          scale_congr lib laws base c,
          (laws.equals_iff (scale lib (pos k +ℤ pos (suc e) *ℤ pos x) base) _).1 refl,
        )
        (ground arith)

  -- A party with an identifier, a secret and further coefficients, and a drawn `k`, all but the
  -- identifier from 1 up to the order: its commitments and their proof are made, with the texts of
  -- `computeCommitments`, and the proof is accepted for the first of them if neither its challenge
  -- nor its response is 0; at 0, `multiply` throws.
  pub create_vsss_commitments-verify :
      (k party_id c : ℕ) (cs : List ℕ)
      → IsScalar order k
      → All (IsScalar order) (c ∷ cs)
      → (first : Text) × (rest : List Text) × (proof : KnowledgeProof) × (e s : ℕ)
        × (compute_commitments lib (map pos (c ∷ cs)) ≡ ok (first ∷ rest))
        × (create_vsss_commitments lib (pos k) party_id (map pos (c ∷ cs))
            ≡ ok (record {
              party_id = party_id;
              coefficient_commitments = first ∷ rest;
              proof_of_knowledge = proof;
            }))
        × (compute_challenge lib party_id first proof.r ≡ ok (pos e))
        × (s ≡ residue order (pos k +ℤ pos c *ℤ pos e))
        × (verify_proof_of_knowledge lib proof party_id first
            ≡ (if ltb 0 s && ltb 0 e then ok true else throw "multiply"))
  unfolding compute_commitments create_vsss_commitments create_proof_of_knowledge
      verify_proof_of_knowledge
  create_vsss_commitments-verify k party_id c cs hk (hc, hcs) =
      let n_pos = order_pos lib laws in
      let (first, first_written, first_read) = multiple_text c hc in
      let (r, r_written, r_read) = multiple_text k hk in
      let others = committed lib laws cs k hcs hk in
      let (e, challenge, e_lt) = compute_challenge-lt party_id first r in
      let s = residue order (pos k +ℤ pos c *ℤ pos e) in
      (
        first,
        others.texts,
        record { r = r; s = scalar_to_hex (pos s) },
        e,
        s,
        rw (multiply-base lib laws c hc, first_written, others.written),
        rw (
          multiply-base lib laws c hc,
          first_written,
          others.written,
          multiply-base lib laws k hk,
          r_written,
          challenge,
          mod_twice-eq-residue order n_pos (pos k +ℤ pos c *ℤ pos e),
        ),
        challenge,
        refl,
        rw (r_read, parse-scalar s, challenge)
            (response_equation_lem k c e s first first_read (residue-lt order _ n_pos) e_lt (
              Cong-trans (Cong-residue order _ n_pos)
                (Cong-of_eq {b = pos k +ℤ pos e *ℤ pos c} (simp ring_laws)))),
      )
