-- ===== src/Dkg/Commitments/Tests.antt =====
-- Commitments in the group of seven elements.
use nero_mpc_sdk.Base.{ℕ, ◌≡◌, arith, ltb, ◌&&◌, true, if◌then◌else◌, List, [], ◌∷◌, map}
use nero_mpc_sdk.Base.Throws.{ok, throw}
use nero_mpc_sdk.Bigint.{pos, ◌+ℤ◌, ◌*ℤ◌, residue}
use nero_mpc_sdk.Noble.Toy.{toy, toy_laws}
use nero_mpc_sdk.Hex.{Text}
use nero_mpc_sdk.Dkg.{compute_commitments}
use nero_mpc_sdk.Dkg.Commitments.{
  KnowledgeProof, compute_challenge, create_vsss_commitments, verify_proof_of_knowledge,
}
use nero_mpc_sdk.Dkg.Commitments.Knowledge.{create_vsss_commitments-verify}

create_vsss_commitments-verify_example :
    (first : Text) × (rest : List Text) × (proof : KnowledgeProof) × (e s : ℕ)
    × (compute_commitments toy (map pos (3 ∷ 1 ∷ [])) ≡ ok (first ∷ rest))
    × (create_vsss_commitments toy (pos 4) 1 (map pos (3 ∷ 1 ∷ []))
        ≡ ok (record {
          party_id = 1;
          coefficient_commitments = first ∷ rest;
          proof_of_knowledge = proof;
        }))
    × (compute_challenge toy 1 first proof.r ≡ ok (pos e))
    × (s ≡ residue 7 (pos 4 +ℤ pos 3 *ℤ pos e))
    × (verify_proof_of_knowledge toy proof 1 first
        ≡ (if ltb 0 s && ltb 0 e then ok true else throw "multiply"))
create_vsss_commitments-verify_example =
    create_vsss_commitments-verify toy toy_laws 4 1 3 (1 ∷ []) (omega arith)
      (omega arith, (omega arith, tt))
