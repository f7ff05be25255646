-- ===== src/Threshold/Tests.antt =====
-- Combining in the group of seven elements.
use nero_mpc_sdk.Base.{
  ℕ, ◌<◌, ◌≡◌, refl, arith, ◌==◌, ltb, ◌&&◌, Bool, true, false, if◌then◌else◌, List, [], ◌∷◌,
  Option, none, some,
}
use nero_mpc_sdk.Base.Throws.{ok, throw}
use nero_mpc_sdk.Bigint.{ℤ, pos, ◌+ℤ◌, ◌*ℤ◌, residue}
use nero_mpc_sdk.Hex.{Text, Bytes, scalar_to_hex, is_empty}
use nero_mpc_sdk.Noble.{scale}
use nero_mpc_sdk.Noble.Toy.{toy, toy_laws}
use nero_mpc_sdk.Threshold.{
  PartialSignatureData, combine_partial_signatures, compute_lagrange_coefficient,
  compute_partial_signature,
}
use nero_mpc_sdk.Threshold.Nonce.{
  NonceCommitment, create_nonce_commitment, compute_nonce_challenge, verify_nonce_proof,
}
use nero_mpc_sdk.Threshold.Nonce.Laws.{create_nonce_commitment-verify}
use nero_mpc_sdk.Threshold.Verify.{verify_partial_signature, compute_partial_signature-verify}
use nero_mpc_sdk.Threshold.Client.{
  FinalSignature, SigningApi, SigningConfig, SigningDraws, SigningResult, sign,
}
use nero_mpc_sdk.Threshold.Client.Laws.{Exchange, sign-Exchange}
use nero_mpc_sdk.Threshold.Combine.{IsLowered, sum_sigma, combine_partial_signatures-IsLowered}

abbrev part : PartialSignatureData
part = record { party_id = 1; sigma = pos 3; public_share = []; nonce_commitment = [] }

-- 3 + 3 lies above 7 / 2.
combine_partial_signatures-IsLowered_example :
    IsLowered toy toy_laws
      (pos 2)
      (residue 7 (sum_sigma (part ∷ part ∷ [])))
      5
      (combine_partial_signatures toy (part ∷ part ∷ []) (pos 2) 5)
combine_partial_signatures-IsLowered_example =
    combine_partial_signatures-IsLowered toy toy_laws (part ∷ part ∷ []) (pos 2) 5

compute_partial_signature-verify_example :
    (partial : PartialSignatureData) × (sigma : ℕ) × (compute_partial_signature toy 1
        (pos 3)
        (pos 2)
        (pos 5)
        (pos 4)
        (1 ∷ 2 ∷ [])
      ≡ ok partial)
    × (partial.sigma ≡ pos sigma)
    × (verify_partial_signature toy partial partial.public_share partial.nonce_commitment
          (pos 4)
          (pos 5)
          (1 ∷ 2 ∷ [])
        ≡ (if sigma == 0
            then ok false
            else if residue 7 (pos 4 *ℤ compute_lagrange_coefficient toy 1 (1 ∷ 2 ∷ [])) == 0
            then throw "multiply"
            else ok true))
compute_partial_signature-verify_example =
    compute_partial_signature-verify toy toy_laws 1 3 2 5 (pos 4) (1 ∷ 2 ∷ []) refl (omega arith)
      (omega arith) (omega arith)

create_nonce_commitment-verify_example :
    (commitment : NonceCommitment) × (e : ℕ) × (create_nonce_commitment toy
        (pos 1)
        (pos 2)
        1
        (record { k = pos 3; gamma = pos 4 })
      ≡ ok commitment)
    × (compute_nonce_challenge toy 1 commitment.d commitment.e commitment.proof.r1
          commitment.proof.r2
        ≡ ok (pos e))
    × (toy.from_hex commitment.d ≡ some (scale toy (pos 4) toy.base))
    × (toy.from_hex commitment.e ≡ some (scale toy (pos 3) toy.base))
    × (verify_nonce_proof toy commitment ≡ (
        ltb 0 (residue 7 (pos 1 +ℤ pos 4 *ℤ pos e))
        && (ltb 0 (residue 7 (pos 2 +ℤ pos 3 *ℤ pos e)) && ltb 0 e)))
create_nonce_commitment-verify_example =
    create_nonce_commitment-verify toy toy_laws 1 2 3 4 1 (omega arith) (omega arith) (omega arith)
      (omega arith)

-- A backend that answers with a partial signature under the number 9, which is not listed.
abbrev backend_nonce : NonceCommitment
backend_nonce = record {
  party_id = 2;
  d = 3 ∷ [];
  e = 2 ∷ [];
  proof = record {
    r1 = 1 ∷ [];
    r2 = 2 ∷ [];
    s1 = scalar_to_hex (pos 3);
    s2 = scalar_to_hex (pos 1);
  };
}

abbrev signature : FinalSignature
signature = record { r = []; s = []; v = 27; full_signature = [] }

abbrev api : SigningApi
api = record {
  signing_init = λ hash. ok ([], backend_nonce);
  signing_nonce = λ session commitment.
      ok (record { party_id = 9; sigma = []; public_share = []; nonce_commitment = [] });
  signing_complete = λ session partial. ok signature;
}

abbrev draws : SigningDraws
draws = record { k_blocks = (3 ∷ []) ∷ []; gamma_blocks = (2 ∷ []) ∷ []; r1 = pos 1; r2 = pos 2 }

abbrev config : SigningConfig
config = record { party_id = 1; private_share = 51 ∷ []; expected_public_shares = (2, 5 ∷ []) ∷ [] }

signed : sign toy draws api config (53 ∷ []) ≡ SigningResult.success signature
unfolding sign nero_mpc_sdk.Threshold.Client.signing_result nero_mpc_sdk.Threshold.Client.sign_steps
    nero_mpc_sdk.Threshold.Nonce.verify_nonce_commitment verify_nonce_proof
    nero_mpc_sdk.Threshold.Nonce.hex_scalar_test scalar_to_hex nero_mpc_sdk.Hex.pad_start
    nero_mpc_sdk.Hex.to_string16 nero_mpc_sdk.Hex.all_hex nero_mpc_sdk.Hex.hex_char
    nero_mpc_sdk.Threshold.Nonce.check_proof nero_mpc_sdk.Hex.parse_bigint16
    nero_mpc_sdk.Hex.hex_value nero_mpc_sdk.Threshold.Nonce.check_responses compute_nonce_challenge
    nero_mpc_sdk.Dkg.Commitments.text_challenge nero_mpc_sdk.Hex.to_string10
    native.Mathlib.Bridge.IsLe native.Mathlib.Decide.dec_le native.Mathlib.Decide.dec_lt
    nero_mpc_sdk.Base.Maps.get nero_mpc_sdk.Base.Order.Acc-lt nero_mpc_sdk.Bigint.sub_ℕ
    nero_mpc_sdk.Bigint.tdiv nero_mpc_sdk.Bigint.tmod ◌*ℤ◌ ◌+ℤ◌ nero_mpc_sdk.Bigint.◌-ℤ◌
    nero_mpc_sdk.Dkg.generate_random_scalar nero_mpc_sdk.Dkls.Keygen.Draw.big_endian
    nero_mpc_sdk.Hex.digits nero_mpc_sdk.Hex.parse_digits nero_mpc_sdk.Hex.decimals is_empty
    nero_mpc_sdk.Hex.same_text nero_mpc_sdk.Hex.text nero_mpc_sdk.Modular.mod_twice
    nero_mpc_sdk.Modular.mod_inverse nero_mpc_sdk.Threshold.Client.backend_partial_valid
    nero_mpc_sdk.Threshold.Client.check_backend_partial nero_mpc_sdk.Threshold.Client.own_partial
    nero_mpc_sdk.Threshold.Client.refuse_invalid
    nero_mpc_sdk.Threshold.Nonce.combine_nonce_commitments
    nero_mpc_sdk.Threshold.Nonce.combine_nonce_loop nero_mpc_sdk.Threshold.Nonce.compute_r
    create_nonce_commitment nero_mpc_sdk.Threshold.Nonce.create_nonce_proof
    nero_mpc_sdk.Threshold.Nonce.generate_nonce_share nero_mpc_sdk.Threshold.Nonce.response_holds
    nero_mpc_sdk.Threshold.Verify.check_partial nero_mpc_sdk.Threshold.Verify.mismatch
    verify_partial_signature compute_lagrange_coefficient compute_partial_signature
    nero_mpc_sdk.Threshold.lagrange_loop nero_mpc_sdk.Threshold.parse_message_hash
signed = refl

sign-Exchange_example : Exchange toy draws api config (53 ∷ []) signature
sign-Exchange_example = sign-Exchange toy draws api config (53 ∷ []) signature signed
