-- ===== src/Dkg/Client/Inversion.antt =====
-- What each step of a key generation has established when it returns (src/protocols/dkg/dkg-client.ts).
use mathlib.Core.Option
use nero_mpc_sdk.Base.{◌≡◌, refl, sym, ap, subst, ◌∙◌, true, not, List, some}
use nero_mpc_sdk.Base.Throws.{ok, throw_if, throw_if-eq-ok}
use nero_mpc_sdk.Base.Steps.{continue-eq-ok, returned_same}
use nero_mpc_sdk.Base.Maps.{get}
use nero_mpc_sdk.Bigint.{ℤ, pos}
use nero_mpc_sdk.Hex.{Text}
use nero_mpc_sdk.Noble.{Noble}
use nero_mpc_sdk.Dkls.Keygen.Laws.{not-eq-false}
use nero_mpc_sdk.Dkg.{generate_polynomial, evaluate_polynomial, aggregate_shares}
use nero_mpc_sdk.Dkg.Commitments.{
  VsssCommitment, verify_proof_of_knowledge, create_vsss_commitments, combine_vsss_commitments,
}
use nero_mpc_sdk.Dkg.Exchange.{
  Webcrypto, EncryptedShare, DecryptedShare, EphemeralKeyPair, generate_ephemeral_key_pair,
  encrypt_share, decrypt_share,
}
use nero_mpc_sdk.Dkg.Client.{
  DkgClient, DkgInit, DkgApi, DkgDraws, ShareAnswer, first_commitment, opened_state,
  completed_state, receive_commitment, receive_share, values, share_accepted, initiate_step,
  commit_step, share_step,
}

module _ (lib : Noble) (web : Webcrypto) (draws : DkgDraws) (api : DkgApi) where
  -- What the first step has established.
  pub record Initiated (before after : DkgClient) (init : DkgInit) (pair : EphemeralKeyPair)
      : Type 0 where
    pub polynomial : List ℤ
    pub first : Text
    pub answered : api.initiate ≡ ok init
    pub drawn : generate_polynomial draws.coefficient (pos 1) ≡ ok polynomial
    pub paired : generate_ephemeral_key_pair lib draws.ephemeral_bytes ≡ ok pair
    pub has_first : first_commitment init.backend_commitment.coefficient_commitments ≡ ok first
    pub proved :
        verify_proof_of_knowledge lib init.backend_commitment.proof_of_knowledge
          init.backend_commitment.party_id first
        ≡ ok true
    pub left :
        after
        ≡ receive_commitment init.backend_commitment.party_id init.backend_commitment
            (record before {
              state = some (opened_state init.session_id);
              polynomial = polynomial;
              ephemeral_key_pair = some pair;
            })

  pub initiate_step-Initiated :
      (before after : DkgClient) (init : DkgInit) (pair : EphemeralKeyPair)
      → initiate_step lib web draws api before ≡ (after, ok (init, pair))
      → Initiated before after init pair
  unfolding initiate_step
  initiate_step-Initiated before after init pair h =
      let (init', e1, h1) = continue-eq-ok (before, api.initiate) _ h in
      let (polynomial, e2, h2) =
        continue-eq-ok
          (
            record before { state = some (opened_state init'.session_id) },
            generate_polynomial draws.coefficient (pos 1),
          )
          _ h1 in
      let (pair', e3, h3) =
        continue-eq-ok
          (
            record before { state = some (opened_state init'.session_id); polynomial = polynomial },
            generate_ephemeral_key_pair lib draws.ephemeral_bytes,
          )
          _ h2 in
      let ready : DkgClient = record before {
        state = some (opened_state init'.session_id);
        polynomial = polynomial;
        ephemeral_key_pair = some pair';
      } in
      let (first, e4, h4) =
        continue-eq-ok (ready, first_commitment init'.backend_commitment.coefficient_commitments) _
          h3 in
      let (accepted, e5, h5) =
        continue-eq-ok
          (
            ready,
            verify_proof_of_knowledge lib init'.backend_commitment.proof_of_knowledge
                init'.backend_commitment.party_id first,
          )
          _ h4 in
      let (u, e6, h6) =
        continue-eq-ok (ready, throw_if (not accepted) "Invalid proof of knowledge from backend") _
          h5 in
      subst (λ r. Initiated before r.0 r.1.0 r.1.1) (returned_same h6)
        (record {
          polynomial = polynomial;
          first = first;
          answered = e1;
          drawn = e2;
          paired = e3;
          has_first = e4;
          proved = e5 ∙ ap ok (not-eq-false accepted (throw_if-eq-ok _ _ e6));
          left = refl;
        })

  -- What the second step has established, for a client with a polynomial.
  pub record Exchanged (before after : DkgClient) (init : DkgInit) (pair : EphemeralKeyPair)
      : Type 0 where
    pub vsss : VsssCommitment
    pub sealed : EncryptedShare
    pub decrypted : DecryptedShare
    pub own : create_vsss_commitments lib draws.knowledge_nonce 1 before.polynomial ≡ ok vsss
    pub answered :
        api.submit_commitment init.session_id (record { vsss = vsss; public_key = pair.public_key })
        ≡ ok sealed
    pub opened : decrypt_share lib web sealed pair.private_key ≡ ok decrypted
    pub checked :
        share_accepted lib web
          (get init.backend_commitment.party_id
            (receive_commitment 1 vsss before).received_commitments)
          decrypted.share
        ≡ ok true
    pub left :
        after
        ≡ receive_share 1 (evaluate_polynomial lib before.polynomial (pos 1)) (
            receive_share init.backend_commitment.party_id decrypted.share
              (receive_commitment 1 vsss before))

  pub commit_step-Exchanged :
      (before after : DkgClient) (init : DkgInit) (pair : EphemeralKeyPair)
      → commit_step lib web draws api init pair before ≡ (after, ok tt)
      → Exchanged before after init pair
  unfolding commit_step
  commit_step-Exchanged before after init pair h =
      let (vsss, e1, h1) =
        continue-eq-ok
          (before, create_vsss_commitments lib draws.knowledge_nonce 1 before.polynomial) _ h in
      let ready : DkgClient = receive_commitment 1 vsss before in
      let (sealed, e2, h2) =
        continue-eq-ok
          (
            ready,
            api.submit_commitment init.session_id
                (record { vsss = vsss; public_key = pair.public_key }),
          )
          _ h1 in
      let (decrypted, e3, h3) =
        continue-eq-ok (ready, decrypt_share lib web sealed pair.private_key) _ h2 in
      let (accepted, e4, h4) =
        continue-eq-ok
          (
            ready,
            share_accepted lib web (get init.backend_commitment.party_id ready.received_commitments)
                decrypted.share,
          )
          _ h3 in
      let (u, e5, h5) =
        continue-eq-ok (ready, throw_if (not accepted) "Invalid share from backend") _ h4 in
      record {
        vsss = vsss;
        sealed = sealed;
        decrypted = decrypted;
        own = e1;
        answered = e2;
        opened = e3;
        checked = e4 ∙ ap ok (not-eq-false accepted (throw_if-eq-ok _ _ e5));
        left = sym (ap (λ r. r.0) h5);
      }

  -- What the third step has established.
  pub record Submitted (before after : DkgClient) (init : DkgInit)
      (public_key wallet_address : Text) : Type 0 where
    pub encrypted : EncryptedShare
    pub answer : ShareAnswer
    pub answered : api.submit_share init.session_id encrypted ≡ ok answer
    pub combined : combine_vsss_commitments lib (values before.received_commitments) ≡ ok public_key
    pub address : wallet_address ≡ answer.wallet_address
    pub left : after ≡ record before {
      state =
          Option.map
            (completed_state
              (aggregate_shares lib (values before.received_shares) (pos 0))
              public_key
              answer.backend_share)
            before.state;
    }

  pub share_step-Submitted :
      (before after : DkgClient) (init : DkgInit) (public_key wallet_address : Text)
      → share_step lib web draws api init before ≡ (after, ok (public_key, wallet_address))
      → Submitted before after init public_key wallet_address
  unfolding share_step
  share_step-Submitted before after init public_key wallet_address h =
      let party = init.backend_commitment.party_id in
      let (encrypted, e1, h1) =
        continue-eq-ok
          (
            before,
            encrypt_share lib web draws.share_key_bytes draws.share_nonce
                (evaluate_polynomial lib before.polynomial (pos party)) 1 party
                init.ephemeral_public_key,
          )
          _ h in
      let (answer, e2, h2) =
        continue-eq-ok (before, api.submit_share init.session_id encrypted) _ h1 in
      let (key, e3, h3) =
        continue-eq-ok (before, combine_vsss_commitments lib (values before.received_commitments)) _
          h2 in
      subst (λ r. Submitted before r.0 init r.1.0 r.1.1) (returned_same h3)
        (record {
          encrypted = encrypted;
          answer = answer;
          answered = e2;
          combined = e3;
          address = refl;
          left = refl;
        })
