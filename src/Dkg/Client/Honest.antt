-- ===== src/Dkg/Client/Honest.antt =====
-- A key generation with an honest backend succeeds (src/protocols/dkg/dkg-client.ts).
use nero_mpc_sdk.Base.{ℕ, ◌≡◌, ap, arith, true, List, [], ◌∷◌, map, some, All}
use nero_mpc_sdk.Base.Throws.{ok}
use nero_mpc_sdk.Base.Maps.{get, set}
use nero_mpc_sdk.Bigint.{ℤ, pos, ◌+ℤ◌, residue, Cong}
use nero_mpc_sdk.Hex.{Text, Bytes}
use nero_mpc_sdk.Noble.{Noble, Lawful, IsByte, scale}
use nero_mpc_sdk.Dkls.Ot.Laws.{IsScalar}
use nero_mpc_sdk.Dkg.{
  polynomial_loop, generate_polynomial, compute_commitments, evaluate_polynomial, aggregate_shares,
}
use nero_mpc_sdk.Dkg.Evaluate.{horner, evaluate_polynomial-horner}
use nero_mpc_sdk.Dkg.Commitments.{
  VsssCommitment, verify_proof_of_knowledge, create_vsss_commitments, combine_vsss_commitments,
}
use nero_mpc_sdk.Dkg.Commitments.Knowledge.{create_vsss_commitments-verify}
use nero_mpc_sdk.Dkg.Commitments.Joint.{
  first_of_commitments, first_point_of_commitments, own_value_accepted,
  combine_vsss_commitments-sum,
}
use nero_mpc_sdk.Dkg.Exchange.{
  Webcrypto, Sealing, EphemeralKeyPair, generate_secure_scalar, generate_ephemeral_key_pair,
  encrypt_share,
}
use nero_mpc_sdk.Dkg.Exchange.Laws.{generate_ephemeral_key_pair-keys, decrypt_share-encrypt_share}
use nero_mpc_sdk.Dkg.Client.{
  DkgClient, DkgInit, DkgApi, DkgDraws, DkgResult, ShareAnswer, CommitmentMessage, new_dkg_client,
  first_commitment, opened_state, completed_state, receive_commitment, receive_share, values,
  share_accepted, initiate_step, commit_step, share_step, execute_steps, dkg_result, execute,
}

-- What the client draws: two coefficients, a nonce for its proof, and bytes for two ephemeral keys
-- and one nonce.
pub record DrawsWell (lib : Noble) (draws : DkgDraws) (c0 c1 k : ℕ) : Type 0 where
  pub coefficient0 : draws.coefficient 0 ≡ pos c0
  pub coefficient1 : draws.coefficient 1 ≡ pos c1
  pub coefficients : All (IsScalar lib.order) (c0 ∷ c1 ∷ [])
  pub knowledge : draws.knowledge_nonce ≡ pos k
  pub knowledge_scalar : IsScalar lib.order k
  pub ephemeral : ℤ
  pub ephemeral_drawn : generate_secure_scalar lib draws.ephemeral_bytes ≡ ok ephemeral
  pub share_key : ℤ
  pub share_key_drawn : generate_secure_scalar lib draws.share_key_bytes ≡ ok share_key
  pub nonce_bytes : All IsByte draws.share_nonce

-- A backend, as party 2 with the polynomial `b0 + b1 * x`, whose value at 1 is the residue `s`: it
-- commits to it, proves its secret, has an ephemeral key, encrypts `s` for the client's ephemeral
-- key, and takes any share.
pub record AnswersWell (lib : Noble) (web : Webcrypto) (api : DkgApi) (b0 b1 s : ℕ) : Type 0 where
  pub init : DkgInit
  pub initiated : api.initiate ≡ ok init
  pub second : init.backend_commitment.party_id ≡ 2
  pub coefficients : All (IsScalar lib.order) (b0 ∷ b1 ∷ [])
  pub value : s ≡ residue lib.order (horner (map pos (b0 ∷ b1 ∷ [])) (pos 1))
  pub value_scalar : IsScalar lib.order s
  pub committed :
      compute_commitments lib (map pos (b0 ∷ b1 ∷ []))
      ≡ ok init.backend_commitment.coefficient_commitments
  pub proved :
      (first : Text)
      → first_commitment init.backend_commitment.coefficient_commitments ≡ ok first
      → verify_proof_of_knowledge lib init.backend_commitment.proof_of_knowledge 2 first ≡ ok true
  pub key : ℕ
  pub key_scalar : IsScalar lib.order key
  pub key_text : lib.from_hex init.ephemeral_public_key ≡ some (scale lib (pos key) lib.base)
  pub key_bytes : Bytes
  pub nonce : Bytes
  pub key_bytes_scalar : ℤ
  pub key_drawn : generate_secure_scalar lib key_bytes ≡ ok key_bytes_scalar
  pub nonce_bytes : All IsByte nonce
  pub encrypts :
      (message : CommitmentMessage)
      → api.submit_commitment init.session_id message
        ≡ encrypt_share lib web key_bytes nonce (pos s) 2 1 message.public_key
  pub wallet : ShareAnswer
  pub takes : (share : _) → api.submit_share init.session_id share ≡ ok wallet

module _ (lib : Noble) (laws : Lawful lib) (web : Webcrypto) (sealing : Sealing lib web)
    (draws : DkgDraws) (api : DkgApi) (c0 c1 k b0 b1 s : ℕ) (client : DrawsWell lib draws c0 c1 k)
    (backend : AnswersWell lib web api b0 b1 s) where
  open lib use {base, order, from_hex}

  abbrev polynomial : List ℤ
  polynomial = pos c0 ∷ pos c1 ∷ []

  drawn : generate_polynomial draws.coefficient (pos 1) ≡ ok polynomial
  unfolding generate_polynomial polynomial_loop
  drawn = rw (client.coefficient0, client.coefficient1)

  -- The client after each step.
  abbrev after_initiate : EphemeralKeyPair → DkgClient
  after_initiate pair = record {
    state = some (opened_state backend.init.session_id);
    polynomial = polynomial;
    ephemeral_key_pair = some pair;
    received_commitments = (2, backend.init.backend_commitment) ∷ [];
    received_shares = [];
  }

  abbrev after_commit : EphemeralKeyPair → VsssCommitment → DkgClient
  after_commit pair own = record (after_initiate pair) {
    received_commitments = (2, backend.init.backend_commitment) ∷ (1, own) ∷ [];
    received_shares = (2, pos s) ∷ (1, evaluate_polynomial lib polynomial (pos 1)) ∷ [];
  }

  initiate_step_honest :
      (pair : EphemeralKeyPair)
      → generate_ephemeral_key_pair lib draws.ephemeral_bytes ≡ ok pair
      → initiate_step lib web draws api new_dkg_client
        ≡ (after_initiate pair, ok (backend.init, pair))
  unfolding initiate_step new_dkg_client receive_commitment set first_commitment
  initiate_step_honest pair paired =
      let (first, rest, texts, read) =
        first_of_commitments lib laws b0 (b1 ∷ []) _ backend.coefficients backend.committed in
      rw (
        backend.initiated,
        drawn,
        paired,
        ap first_commitment texts,
        backend.second,
        backend.proved first (ap first_commitment texts),
      )

  commit_step_honest :
      (pair : EphemeralKeyPair) (e : ℕ) (own : VsssCommitment)
      → pair.private_key ≡ pos e
      → from_hex pair.public_key ≡ some (scale lib (pos e) base)
      → IsScalar order e
      → create_vsss_commitments lib draws.knowledge_nonce 1 polynomial ≡ ok own
      → commit_step lib web draws api backend.init pair (after_initiate pair)
        ≡ (after_commit pair own, ok tt)
  unfolding commit_step receive_commitment receive_share set get share_accepted
  commit_step_honest pair e own private public he made =
      let (sealed, encrypted, to, opened) =
        decrypt_share-encrypt_share lib laws web sealing backend.key_bytes backend.nonce
          backend.key_bytes_scalar e s 2 1 pair.public_key backend.key_drawn backend.nonce_bytes he
          public in
      rw (
        made,
        backend.encrypts (record { vsss = own; public_key = pair.public_key }),
        encrypted,
        private,
        opened,
        backend.second,
        own_value_accepted lib laws b0 (b1 ∷ []) _ 1 s backend.coefficients
            (omega (arith, laws.order_prime.0)) backend.value_scalar backend.value
            backend.committed,
      )

  share_step_honest :
      (pair : EphemeralKeyPair) (own : VsssCommitment) (key : Text)
      → combine_vsss_commitments lib (backend.init.backend_commitment ∷ own ∷ []) ≡ ok key
      → (after : DkgClient) × (share_step lib web draws api backend.init (after_commit pair own)
          ≡ (after, ok (key, backend.wallet.wallet_address)))
  unfolding share_step values combine_vsss_commitments completed_state evaluate_polynomial
  share_step_honest pair own key combined =
      let (sealed, encrypted, to, opened) =
        decrypt_share-encrypt_share lib laws web sealing draws.share_key_bytes draws.share_nonce
          client.share_key backend.key (residue order (horner polynomial (pos 2))) 1 2
          backend.init.ephemeral_public_key client.share_key_drawn client.nonce_bytes
          backend.key_scalar backend.key_text in
      (
        record (after_commit pair own) {
          state = some (
              completed_state
                (aggregate_shares lib (pos s ∷ evaluate_polynomial lib polynomial (pos 1) ∷ [])
                  (pos 0))
                key backend.wallet.backend_share (opened_state backend.init.session_id));
        },
        rw (
          backend.second,
          evaluate_polynomial-horner lib laws polynomial (pos 2),
          encrypted,
          backend.takes sealed,
          combined,
        ),
      )

  -- If the client draws coefficients `c0` and `c1` and scalars as it should, and the backend with
  -- coefficients `b0` and `b1` answers as it should, with `b0 + c0` no multiple of the order: the key
  -- generation of a fresh client succeeds, and the public key is that of the secret `b0 + c0`.
  pub execute_honest :
      ¬ (Cong order (pos b0 +ℤ pos c0) (pos 0))
      → (after : DkgClient) × (key : Text) × (execute lib web draws api new_dkg_client
          ≡ (after, DkgResult.success key backend.wallet.wallet_address 1))
        × (from_hex key ≡ some (scale lib (pos b0 +ℤ pos c0) base))
  unfolding execute execute_steps dkg_result
  execute_honest finite =
      let (pair, e, paired, private, public, he) =
        generate_ephemeral_key_pair-keys lib laws draws.ephemeral_bytes client.ephemeral
          client.ephemeral_drawn in
      let (first, rest, proof, ch, sh, computed, made, challenge, response, verified) =
        create_vsss_commitments-verify lib laws k 1 c0 (c1 ∷ []) client.knowledge_scalar
          client.coefficients in
      let own : VsssCommitment = record {
        party_id = 1;
        coefficient_commitments = first ∷ rest;
        proof_of_knowledge = proof;
      } in
      let (key, combined, read) =
        combine_vsss_commitments-sum lib laws backend.init.backend_commitment own b0 c0
          (first_point_of_commitments lib laws b0 (b1 ∷ []) _ backend.coefficients
            backend.committed)
          (first_point_of_commitments lib laws c0 (c1 ∷ []) _ client.coefficients computed)
          finite in
      let (after, shared) = share_step_honest pair own key combined in
      (
        after,
        key,
        rw (
          initiate_step_honest pair paired,
          commit_step_honest pair e own private public he (rw client.knowledge made),
          shared,
        ),
        read,
      )
