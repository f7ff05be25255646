-- ===== src/Dkls/Sample.antt =====
-- Draws for runs over the group of seven elements.
use nero_mpc_sdk.Base.{ℕ, zero, suc, ◌≡◌, refl, arith, replicate, true, [], ◌∷◌}
use nero_mpc_sdk.Base.Throws.{ok}
use nero_mpc_sdk.Bigint.{pos, residue}
use nero_mpc_sdk.Hex.{Bytes, scalar_to_hex}
use nero_mpc_sdk.Noble.{scale}
use nero_mpc_sdk.Noble.Toy.{toy}
use nero_mpc_sdk.Dkls.Keygen.{SchnorrProof, commit_to_point, verify_schnorr_proof}
use nero_mpc_sdk.Dkls.Ot.Laws.{IsFresh}
use nero_mpc_sdk.Dkls.Batch.{bit}
use nero_mpc_sdk.Dkls.Batch.Loops.{Draws, IsGood}

abbrev pub sample_draws : Draws
sample_draws = record { sender_key = λ j. 1; random_t = λ j. 3; receiver_key = λ j. 2 }

one_and_two_IsFresh : (c : ℕ) → IsFresh 7 1 2 c
one_and_two_IsFresh zero = omega arith
one_and_two_IsFresh (suc c) = omega arith

pub sample_draws-IsGood : (b : ℕ) → IsGood 7 sample_draws b
sample_draws-IsGood b = record {
  sender_key = λ j. omega arith;
  random_t = λ j. omega arith;
  receiver_key = λ j. omega arith;
  fresh = λ j. one_and_two_IsFresh (bit (pos b) j);
}

-- The commitment to the point 3.
abbrev pub sample_hash : Bytes
sample_hash = replicate 32 1

pub sample_committed : commit_to_point toy (scale toy (pos 3) toy.base) ≡ ok sample_hash
unfolding commit_to_point scale nero_mpc_sdk.Noble.times residue
sample_committed = refl

-- A proof for the key 3 with the nonce 1.
abbrev pub sample_proof : SchnorrProof
sample_proof = record {
  commitment = 1 ∷ [];
  challenge = scalar_to_hex (pos 1);
  response = scalar_to_hex (pos 4);
}

pub sample_accepted : verify_schnorr_proof toy (scale toy (pos 3) toy.base) sample_proof ≡ true
unfolding verify_schnorr_proof nero_mpc_sdk.Dkls.Keygen.check_schnorr_proof
    nero_mpc_sdk.Hex.parse_bigint16 nero_mpc_sdk.Hex.scalar_to_hex nero_mpc_sdk.Hex.pad_start
    nero_mpc_sdk.Hex.to_string16 nero_mpc_sdk.Hex.hex_value nero_mpc_sdk.Hex.hex_char
    nero_mpc_sdk.Dkls.Keygen.schnorr_challenge scale nero_mpc_sdk.Noble.times
    nero_mpc_sdk.Bigint.residue nero_mpc_sdk.Dkls.Challenge.hash_challenge
    nero_mpc_sdk.Modular.mod_once nero_mpc_sdk.Bigint.tmod nero_mpc_sdk.Dkls.Keygen.check_equation
sample_accepted = refl
