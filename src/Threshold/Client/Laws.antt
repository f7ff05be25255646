-- ===== src/Threshold/Client/Laws.antt =====
-- What the client has checked when a signature is returned (src/protocols/signing/signing-client.ts).
use nero_mpc_sdk.Base.{◌≡◌, refl, sym, ap, ◌∙◌, true, false, not, [], ◌∷◌, none, some}
use nero_mpc_sdk.Base.Throws.{Throws, ok, throw, throw_if, >>=-eq-ok, throw_if-eq-ok}
use nero_mpc_sdk.Base.Maps.{get}
use nero_mpc_sdk.Bigint.{ℤ}
use nero_mpc_sdk.Hex.{Text, is_empty}
use nero_mpc_sdk.Noble.{Noble}
use nero_mpc_sdk.Dkls.Keygen.Laws.{not-eq-false}
use nero_mpc_sdk.Threshold.Nonce.{
  NonceShare, NonceCommitment, NoncePoint, generate_nonce_share, create_nonce_commitment,
  verify_nonce_commitment, verify_nonce_proof, combine_nonce_commitments, compute_r,
}
use nero_mpc_sdk.Threshold.Client.{
  SigningConfig, PartialText, FinalSignature, SigningApi, SigningDraws, SigningResult,
  backend_partial_valid, refuse_invalid, check_backend_partial, own_partial, sign_steps,
  signing_result, sign,
}

module _ (lib : Noble) where
  check_backend_partial-valid :
      (share : Text) (config : SigningConfig) (nonce : NonceCommitment) (partial : PartialText)
      (r : ℤ) (message : Text) {u : Unit {0}}
      → is_empty share ≡ false
      → check_backend_partial lib (some share) config nonce partial r message ≡ ok u
      → backend_partial_valid lib config nonce partial share r message ≡ ok true
  unfolding check_backend_partial refuse_invalid
  check_backend_partial-valid share config nonce partial r message filled h =
      let checked : refuse_invalid lib
            (backend_partial_valid lib config nonce partial share r message)
          ≡ ok tt =
        sym (rw filled refl) ∙ h in
      let (valid, e1, h1) =
        >>=-eq-ok (backend_partial_valid lib config nonce partial share r message) _ checked in
      e1 ∙ ap ok (not-eq-false valid (throw_if-eq-ok _ _ h1))

  module _ (draws : SigningDraws) (api : SigningApi) (config : SigningConfig)
      (message_hash : Text) where
    -- The exchange behind a signature.
    pub record Exchange (signature : FinalSignature) : Type 0 where
      pub session_id : Text
      pub backend_nonce : NonceCommitment
      pub nonce_share : NonceShare
      pub own_commitment : NonceCommitment
      pub combined : Text
      pub combined_gamma : Text
      pub point : NoncePoint
      pub backend_partial : PartialText
      pub partial : PartialText
      pub opened : api.signing_init message_hash ≡ ok (session_id, backend_nonce)
      pub nonce_read : verify_nonce_commitment lib backend_nonce ≡ true
      pub nonce_proved : verify_nonce_proof lib backend_nonce ≡ true
      pub committed :
          create_nonce_commitment lib draws.r1 draws.r2 config.party_id nonce_share
          ≡ ok own_commitment
      pub agreed :
          combine_nonce_commitments lib (own_commitment ∷ backend_nonce ∷ [])
          ≡ ok (combined, combined_gamma)
      pub point_read : compute_r lib combined ≡ ok point
      pub answered : api.signing_nonce session_id own_commitment ≡ ok backend_partial
      pub checked :
          (share : Text)
          → get backend_partial.party_id config.expected_public_shares ≡ some share
          → is_empty share ≡ false
          → backend_partial_valid lib config backend_nonce backend_partial share point.r
              message_hash
            ≡ ok true
      pub computed :
          own_partial lib config backend_nonce.party_id nonce_share.k point.r message_hash
          ≡ ok partial
      pub completed : api.signing_complete session_id partial ≡ ok signature

    sign_steps-Exchange :
        (signature : FinalSignature)
        → sign_steps lib draws api config message_hash ≡ ok signature
        → Exchange signature
    unfolding sign_steps
    sign_steps-Exchange signature h =
        let ((session_id, nonce), e1, h1) = >>=-eq-ok (api.signing_init message_hash) _ h in
        let (u, e2, h2) =
          >>=-eq-ok
            (throw_if (not (verify_nonce_commitment lib nonce))
              "Invalid nonce commitment from backend")
            _ h1 in
        let (v, e3, h3) =
          >>=-eq-ok
            (throw_if (not (verify_nonce_proof lib nonce)) "Invalid nonce proof from backend") _
            h2 in
        let (share, e4, h4) =
          >>=-eq-ok (generate_nonce_share lib draws.k_blocks draws.gamma_blocks) _ h3 in
        let (own, e5, h5) =
          >>=-eq-ok (create_nonce_commitment lib draws.r1 draws.r2 config.party_id share) _ h4 in
        let ((combined, gamma), e6, h6) =
          >>=-eq-ok (combine_nonce_commitments lib (own ∷ nonce ∷ [])) _ h5 in
        let (point, e7, h7) = >>=-eq-ok (compute_r lib combined) _ h6 in
        let (answer, e8, h8) = >>=-eq-ok (api.signing_nonce session_id own) _ h7 in
        let (w, e9, h9) =
          >>=-eq-ok
            (check_backend_partial lib (get answer.party_id config.expected_public_shares) config
              nonce answer point.r message_hash)
            _ h8 in
        let (partial, e10, h10) =
          >>=-eq-ok (own_partial lib config nonce.party_id share.k point.r message_hash) _ h9 in
        record {
          session_id = session_id;
          backend_nonce = nonce;
          nonce_share = share;
          own_commitment = own;
          combined = combined;
          combined_gamma = gamma;
          point = point;
          backend_partial = answer;
          partial = partial;
          opened = e1;
          nonce_read = not-eq-false _ (throw_if-eq-ok _ _ e2);
          nonce_proved = not-eq-false _ (throw_if-eq-ok _ _ e3);
          committed = e5;
          agreed = e6;
          point_read = e7;
          answered = e8;
          checked = λ share found filled.
              check_backend_partial-valid share config nonce answer point.r message_hash filled (
                ap (λ o. check_backend_partial lib o config nonce answer point.r message_hash)
                  (sym found)
                ∙ e9);
          computed = e10;
          completed = h10;
        }

    -- Whatever the backend answers: if a signature is returned, then its nonce commitment was readable
    -- and its nonce proof was accepted, its partial signature was found valid if a public share of that
    -- party is expected, and what was sent for completion is the client's partial signature for the
    -- point of both nonces.
    pub sign-Exchange :
        (signature : FinalSignature)
        → sign lib draws api config message_hash ≡ SigningResult.success signature
        → Exchange signature
    unfolding sign signing_result
    sign-Exchange signature h =
        sign_steps-Exchange signature (returned (sign_steps lib draws api config message_hash) h)
      where
        returned :
            (run : Throws FinalSignature)
            → signing_result lib run ≡ SigningResult.success signature
            → run ≡ ok signature
        returned (ok s) h = ap ok (cc)
        returned (throw message) h = cc

  -- A check of a party without an expected share passes, whatever the partial signature.
  pub unlisted_partial_passes :
      (config : SigningConfig) (nonce : NonceCommitment) (partial : PartialText) (r : ℤ)
      (message : Text)
      → get partial.party_id config.expected_public_shares ≡ none
      → check_backend_partial lib
          (get partial.party_id config.expected_public_shares)
          config
          nonce
          partial
          r
          message
        ≡ ok tt
  unfolding check_backend_partial
  unlisted_partial_passes config nonce partial r message e = rw e
