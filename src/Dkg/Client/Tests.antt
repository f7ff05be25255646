-- ===== src/Dkg/Client/Tests.antt =====
-- A key generation in the group of seven elements: the client with 3 + x, the backend with 2 + x.
use nero_mpc_sdk.Base.{ℕ, zero, suc, ◌≡◌, refl, subst, arith, true, [], ◌∷◌, map, some}
use nero_mpc_sdk.Base.Throws.{ok}
use nero_mpc_sdk.Bigint.{ℤ, pos, ◌+ℤ◌, residue, Cong, Cong-small, Cong-trans, Cong-residue}
use nero_mpc_sdk.Hex.{Text, Bytes, scalar_to_hex}
use nero_mpc_sdk.Noble.{scale}
use nero_mpc_sdk.Noble.Toy.{toy, toy_laws}
use nero_mpc_sdk.Dkg.{compute_commitments}
use nero_mpc_sdk.Dkg.Evaluate.{horner}
use nero_mpc_sdk.Dkg.Commitments.{VsssCommitment, KnowledgeProof, verify_proof_of_knowledge}
use nero_mpc_sdk.Dkg.Exchange.{generate_secure_scalar, encrypt_share}
use nero_mpc_sdk.Dkg.Exchange.Toy.{toy_web, toy-Sealing}
use nero_mpc_sdk.Dkg.Client.{
  DkgClient, DkgInit, DkgApi, DkgDraws, DkgResult, ShareAnswer, first_commitment, new_dkg_client,
  execute,
}
use nero_mpc_sdk.Dkg.Client.Honest.{DrawsWell, AnswersWell, execute_honest}
use nero_mpc_sdk.Dkg.Client.Laws.{Generated, execute-Generated}

abbrev drawn_bytes : Bytes
drawn_bytes = 1 ∷ 0 ∷ []

bytes_drawn : generate_secure_scalar toy drawn_bytes ≡ ok (pos 4)
unfolding generate_secure_scalar nero_mpc_sdk.Hex.parse_bigint16 nero_mpc_sdk.Hex.hex_value
    nero_mpc_sdk.Hex.hex_char nero_mpc_sdk.Modular.mod_twice nero_mpc_sdk.Bigint.tmod ◌+ℤ◌
bytes_drawn = refl

abbrev coefficients : ℕ → ℤ
coefficients zero = pos 3
coefficients (suc i) = pos 1

abbrev draws : DkgDraws
draws = record {
  coefficient = coefficients;
  ephemeral_bytes = drawn_bytes;
  knowledge_nonce = pos 4;
  share_key_bytes = drawn_bytes;
  share_nonce = [];
}

abbrev backend_proof : KnowledgeProof
backend_proof = record { r = 1 ∷ []; s = scalar_to_hex (pos 2) }

abbrev init : DkgInit
init = record {
  session_id = 115 ∷ [];
  backend_commitment = record {
    party_id = 2;
    coefficient_commitments = (2 ∷ []) ∷ (1 ∷ []) ∷ [];
    proof_of_knowledge = backend_proof;
  };
  ephemeral_public_key = 5 ∷ [];
}

abbrev wallet : ShareAnswer
wallet = record { wallet_address = 48 ∷ []; backend_share = 49 ∷ [] }

abbrev api : DkgApi
api = record {
  initiate = ok init;
  submit_commitment =
      λ session message. encrypt_share toy toy_web drawn_bytes [] (pos 3) 2 1 message.public_key;
  submit_share = λ session share. ok wallet;
}

client_draws : DrawsWell toy draws 3 1 4
client_draws = record {
  coefficient0 = refl;
  coefficient1 = refl;
  coefficients = (omega arith, (omega arith, tt));
  knowledge = refl;
  knowledge_scalar = omega arith;
  ephemeral = pos 4;
  ephemeral_drawn = bytes_drawn;
  share_key = pos 4;
  share_key_drawn = bytes_drawn;
  nonce_bytes = tt;
}

first_is :
    (first : Text)
    → first_commitment init.backend_commitment.coefficient_commitments ≡ ok first
    → (2 ∷ []) ≡ first
unfolding first_commitment
first_is first e = cc

proof_accepted : verify_proof_of_knowledge toy backend_proof 2 (2 ∷ []) ≡ ok true
unfolding verify_proof_of_knowledge nero_mpc_sdk.Hex.parse_bigint16 scalar_to_hex
    nero_mpc_sdk.Hex.pad_start nero_mpc_sdk.Hex.to_string16 nero_mpc_sdk.Hex.hex_value
    nero_mpc_sdk.Hex.hex_char nero_mpc_sdk.Dkg.Commitments.compute_challenge
    nero_mpc_sdk.Dkg.Commitments.text_challenge nero_mpc_sdk.Hex.to_string10 nero_mpc_sdk.Hex.text
    nero_mpc_sdk.Modular.mod_twice nero_mpc_sdk.Bigint.tmod ◌+ℤ◌
proof_accepted = refl

commitments_written :
    compute_commitments toy (map pos (2 ∷ 1 ∷ []))
    ≡ ok init.backend_commitment.coefficient_commitments
unfolding compute_commitments
commitments_written = refl

value_at_one : 3 ≡ residue 7 (horner (map pos (2 ∷ 1 ∷ [])) (pos 1))
unfolding residue horner ◌+ℤ◌ nero_mpc_sdk.Bigint.◌*ℤ◌
value_at_one = refl

ephemeral_key : toy.from_hex (5 ∷ []) ≡ some (scale toy (pos 5) toy.base)
unfolding scale nero_mpc_sdk.Noble.times residue
ephemeral_key = refl

abbrev backend_answers : AnswersWell toy toy_web api 2 1 3
backend_answers = record {
  init = init;
  initiated = refl;
  second = refl;
  coefficients = (omega arith, (omega arith, tt));
  value = value_at_one;
  value_scalar = omega arith;
  committed = commitments_written;
  proved = λ first e.
      subst (λ t. verify_proof_of_knowledge toy backend_proof 2 t ≡ ok true) (first_is first e)
        proof_accepted;
  key = 5;
  key_scalar = omega arith;
  key_text = ephemeral_key;
  key_bytes = drawn_bytes;
  nonce = [];
  key_bytes_scalar = pos 4;
  key_drawn = bytes_drawn;
  nonce_bytes = tt;
  encrypts = λ message. refl;
  wallet = wallet;
  takes = λ share. refl;
}

sum_finite : ¬ (Cong 7 (pos 2 +ℤ pos 3) (pos 0))
unfolding ◌+ℤ◌
sum_finite c =
    absurd (omega (arith, Cong-small {n = 7} {a = 5} {b = 0} (omega arith) (omega arith) c))

execute_honest_example :
    (after : DkgClient) × (key : Text) × (execute toy toy_web draws api new_dkg_client
      ≡ (after, DkgResult.success key (48 ∷ []) 1))
    × (toy.from_hex key ≡ some (scale toy (pos 2 +ℤ pos 3) toy.base))
execute_honest_example =
    execute_honest toy toy_laws toy_web toy-Sealing draws api 3 1 4 2 1 3 client_draws
      backend_answers sum_finite

-- The run with the client and the public key that it leaves.
abbrev honest_run :
    (after : DkgClient) × (key : Text) × (execute toy toy_web draws api new_dkg_client
      ≡ (after, DkgResult.success key (48 ∷ []) 1))
    × (toy.from_hex key ≡ some (scale toy (pos 2 +ℤ pos 3) toy.base))
honest_run =
    execute_honest toy toy_laws toy_web toy-Sealing draws api 3 1 4 2 1 3 client_draws
      backend_answers sum_finite

execute-Generated_example : Generated toy toy_web draws api init honest_run.0 honest_run.1
execute-Generated_example =
    execute-Generated toy toy_web draws api init honest_run.0 honest_run.1 (48 ∷ []) 1 refl
      (λ e. absurd (omega (arith, e))) honest_run.2
