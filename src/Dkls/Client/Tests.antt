-- ===== src/Dkls/Client/Tests.antt =====
-- The client in the group of seven elements.
use nero_mpc_sdk.Base.{ℕ, ◌≡◌, refl, arith, true, false, [], ◌∷◌, none, some}
use nero_mpc_sdk.Base.Throws.{ok}
use nero_mpc_sdk.Bigint.{ℤ, pos, ◌*ℤ◌}
use nero_mpc_sdk.Hex.{Bytes, is_empty, hex_to_scalar}
use nero_mpc_sdk.Noble.{scale}
use nero_mpc_sdk.Noble.Toy.{toy, toy_laws}
use nero_mpc_sdk.Dkls.Sample.{sample_hash, sample_committed, sample_proof, sample_accepted}
use nero_mpc_sdk.Dkls.Address.{derive_ethereum_address}
use nero_mpc_sdk.Dkls.Keygen.{KeyShare}
use nero_mpc_sdk.Dkls.Signing.{MtaDraw}
use nero_mpc_sdk.Dkls.Client.{
  Stored, KeygenApi, DklsClient, new_dkls_client, load_dkls_key_share, execute_keygen,
}
use nero_mpc_sdk.Dkls.Client.Honest.{finished, Answers, execute_keygen_honest}
use nero_mpc_sdk.Dkls.Client.Sign.{Attempt, SignRequest, DklsSigningApi, SigningDraw, dkls_sign}
use nero_mpc_sdk.Dkls.Client.Sign.Laws.{SignRun, dkls_sign-SignRun}

abbrev keygen_api : KeygenApi
keygen_api = record {
  keygen_init = ok (115 ∷ [], record { party_id = 2; commitment = toy.bytes_to_hex sample_hash });
  keygen_commitment = λ session commitment.
      ok (record { party_id = 2; public_share = 3 ∷ []; proof = sample_proof });
  keygen_complete = λ session reveal. ok (48 ∷ []);
}

keygen-Answers : Answers toy keygen_api (115 ∷ []) (48 ∷ []) (3 ∷ []) sample_hash sample_proof
keygen-Answers = record { init = refl; reveal = λ commitment. refl; complete = λ reveal. refl }

session_filled : is_empty (115 ∷ []) ≡ false
unfolding is_empty
session_filled = refl

written : toy.to_hex true (scale toy (pos 3) toy.base) ≡ some (3 ∷ [])
unfolding scale nero_mpc_sdk.Noble.times nero_mpc_sdk.Bigint.residue
written = refl

abbrev keccak : Bytes → Bytes
keccak bytes = bytes

execute_keygen_honest_example :
    (share : KeyShare) × (after : DklsClient toy) × (execute_keygen toy keccak
        (pos 2)
        (pos 4)
        keygen_api
        (new_dkls_client toy none)
      ≡ (
        after,
        finished toy (48 ∷ []) share (derive_ethereum_address toy keccak share.joint_public_key),
      ))
    × (after.keygen_state ≡ none)
    × ((load_dkls_key_share toy (new_dkls_client toy after.stored)).1 ≡ some share)
    × (hex_to_scalar share.secret_share ≡ some (pos 2))
    × (toy.from_hex share.joint_public_key ≡ some (scale toy (pos 2 *ℤ pos 3) toy.base))
execute_keygen_honest_example =
    execute_keygen_honest toy toy_laws keccak 2 3 4 sample_hash (3 ∷ []) sample_proof keygen_api
      (115 ∷ []) (48 ∷ []) (new_dkls_client toy none) (omega arith) (omega arith) (omega arith)
      sample_committed written sample_accepted keygen-Answers session_filled

-- A backend that is busy with another session in the first attempt, and fails in the second.
abbrev busy : ℕ → DklsSigningApi
busy n = record {
  init = λ request. Attempt.failed (record {
    message = "busy";
    code = "SIGNING_SESSION_CONFLICT";
    status_code = 409;
    active_session_id = some (97 ∷ []);
  });
  nonce = λ session commitment.
      Attempt.failed
        (record { message = ""; code = ""; status_code = 0; active_session_id = none });
  mta_round1 = λ session a b.
      Attempt.failed
        (record { message = ""; code = ""; status_code = 0; active_session_id = none });
  mta_round2 = λ session a b. Attempt.done tt;
  partial = λ session p.
      Attempt.failed
        (record { message = ""; code = ""; status_code = 0; active_session_id = none });
}

abbrev mta_draw : MtaDraw
mta_draw = record { session_id = "mta_0"; draw_a = λ i. pos 1; draw_t = λ i. pos 2 }

abbrev signing_draws : ℕ → SigningDraw
signing_draws n = record { nonce_share = pos 2; draw1 = mta_draw; draw2 = mta_draw }

abbrev request : SignRequest
request = record { message_hash = 48 ∷ 49 ∷ []; message_type = []; dkg_session_id = 115 ∷ [] }

abbrev holder : DklsClient toy
holder = new_dkls_client toy (
    some (
      Stored.with_session
        (record {
          party_id = 1;
          secret_share = 50 ∷ [];
          public_share = 2 ∷ [];
          joint_public_key = 6 ∷ [];
        })
        (115 ∷ [])))

dkls_sign-SignRun_example :
    SignRun toy signing_draws busy request holder (dkls_sign toy signing_draws busy request holder)
dkls_sign-SignRun_example = dkls_sign-SignRun toy signing_draws busy request holder
