-- ===== src/Dkls/Keygen/Tests.antt =====
-- Key generation in the group of seven elements.
use nero_mpc_sdk.Base.{ℕ, ◌≡◌, refl, arith, ltb, ◌&&◌, [], ◌∷◌, none, some}
use nero_mpc_sdk.Base.Throws.{ok}
use nero_mpc_sdk.Bigint.{pos, ◌+ℤ◌, ◌*ℤ◌, residue}
use nero_mpc_sdk.Hex.{Bytes, scalar_to_hex, hex_to_scalar}
use nero_mpc_sdk.Noble.{scale}
use nero_mpc_sdk.Noble.Toy.{toy, toy_laws}
use nero_mpc_sdk.Dkls.Sample.{sample_hash, sample_committed, sample_proof, sample_accepted}
use nero_mpc_sdk.Dkls.Ot.Laws.{IsScalar}
use nero_mpc_sdk.Dkls.Keygen.{
  KeyShare, KeygenClientState, KeygenPublicShare, SchnorrProof, schnorr_challenge,
  generate_schnorr_proof, commit_to_point, verify_schnorr_proof, keygen_complete,
}
use nero_mpc_sdk.Dkls.Keygen.Draw.{random_scalar, random_scalar_first, big_endian}
use nero_mpc_sdk.Dkls.Keygen.Schnorr.{schnorr_honest}
use nero_mpc_sdk.Dkls.Keygen.Laws.{keygen_run, keygen_honest, Completed, keygen_complete-Completed}

-- The block `7` is skipped, the block `256 + 3` gives 0 modulo 7, and `4` is taken.
random_scalar_first_example :
    (random_scalar toy ((7 ∷ []) ∷ (1 ∷ 3 ∷ []) ∷ (4 ∷ []) ∷ []) ≡ some (pos 4)) × IsScalar 7 4
unfolding residue big_endian
random_scalar_first_example =
    random_scalar_first toy toy_laws ((7 ∷ []) ∷ (1 ∷ 3 ∷ []) ∷ []) (4 ∷ []) [] (refl, (refl, tt))
      (omega arith)

schnorr_honest_example :
    (proof : SchnorrProof) × (e : ℕ) × (s : ℕ) × (generate_schnorr_proof toy
        (pos 1)
        (pos 3)
        (scale toy (pos 3) toy.base)
      ≡ ok proof)
    × (schnorr_challenge toy (scale toy (pos 1) toy.base) (scale toy (pos 3) toy.base) ≡ ok (pos e))
    × (s ≡ residue 7 (pos 1 +ℤ pos e *ℤ pos 3))
    × (verify_schnorr_proof toy (scale toy (pos 3) toy.base) proof ≡ (ltb 0 s && ltb 0 e))
schnorr_honest_example = schnorr_honest toy toy_laws 1 3 (omega arith) (omega arith)

keygen_honest_example :
    (share : KeyShare) × (keygen_run toy
        (pos 2)
        (record { party_id = 2; commitment = toy.bytes_to_hex sample_hash })
        (record { party_id = 2; public_share = 3 ∷ []; proof = sample_proof })
      ≡ ok share)
    × (share.party_id ≡ 1)
    × (hex_to_scalar share.secret_share ≡ some (pos 2))
    × (toy.from_hex share.public_share ≡ some (scale toy (pos 2) toy.base))
    × (toy.from_hex share.joint_public_key ≡ some (scale toy (pos 2 *ℤ pos 3) toy.base))
unfolding scale nero_mpc_sdk.Noble.times residue
keygen_honest_example =
    keygen_honest toy toy_laws 2 3 sample_hash (3 ∷ []) sample_proof (omega arith) (omega arith)
      sample_committed refl sample_accepted

abbrev waiting : KeygenClientState toy
waiting = record {
  party_id = 1;
  secret_share = pos 2;
  public_share = scale toy (pos 2) toy.base;
  commitment = sample_hash;
  peer_commitment = some sample_hash;
  peer_public_share = none;
  joint_public_key = none;
}

abbrev backend : KeygenPublicShare
backend = record { party_id = 2; public_share = 3 ∷ []; proof = sample_proof }

abbrev made : KeyShare
made = record {
  party_id = 1;
  secret_share = scalar_to_hex (pos 2);
  public_share = 2 ∷ [];
  joint_public_key = 6 ∷ [];
}

made_by_run : keygen_complete toy waiting backend ≡ ok made
unfolding keygen_complete verify_schnorr_proof nero_mpc_sdk.Dkls.Keygen.verify_commitment
    commit_to_point nero_mpc_sdk.Dkls.Keygen.check_schnorr_proof nero_mpc_sdk.Hex.parse_bigint16
    scalar_to_hex nero_mpc_sdk.Hex.pad_start nero_mpc_sdk.Hex.to_string16 nero_mpc_sdk.Hex.hex_value
    nero_mpc_sdk.Hex.hex_char schnorr_challenge scale nero_mpc_sdk.Noble.times residue
    nero_mpc_sdk.Dkls.Challenge.hash_challenge nero_mpc_sdk.Modular.mod_once
    nero_mpc_sdk.Bigint.tmod nero_mpc_sdk.Dkls.Keygen.check_equation
    nero_mpc_sdk.Dkls.Keygen.same_bytes
made_by_run = refl

keygen_complete-Completed_example : Completed toy waiting backend made
keygen_complete-Completed_example = keygen_complete-Completed toy waiting backend made made_by_run
