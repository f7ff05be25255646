-- ===== src/Dkg/Client/Laws.antt =====
-- What a key generation that succeeds has checked (src/protocols/dkg/dkg-client.ts).
use mathlib.Core.Option
use nero_mpc_sdk.Base.{
  ℕ, ◌≡◌, ◌≢◌, sym, ap, subst, ◌∙◌, arith, ◌==◌, true, false, List, [], ◌∷◌, some,
}
use nero_mpc_sdk.Base.Throws.{Throws, ok, throw}
use nero_mpc_sdk.Base.Steps.{continue-returns}
use nero_mpc_sdk.Base.Maps.{get, set}
use nero_mpc_sdk.Bigint.{ℤ, pos}
use nero_mpc_sdk.Hex.{Text}
use nero_mpc_sdk.Noble.{Noble}
use nero_mpc_sdk.Dkg.{
  generate_polynomial, evaluate_polynomial, verify_vsss_commitment, aggregate_shares,
}
use nero_mpc_sdk.Dkg.Commitments.{
  VsssCommitment, verify_proof_of_knowledge, create_vsss_commitments, combine_vsss_commitments,
}
use nero_mpc_sdk.Dkg.Exchange.{Webcrypto, EphemeralKeyPair}
use nero_mpc_sdk.Dkg.Client.{
  DkgClient, DkgInit, DkgApi, DkgDraws, DkgResult, new_dkg_client, first_commitment, opened_state,
  completed_state, receive_commitment, receive_share, values, share_accepted, initiate_step,
  commit_step, execute_steps, dkg_result, execute,
}
use nero_mpc_sdk.Dkg.Client.Inversion.{
  Initiated, initiate_step-Initiated, Exchanged, commit_step-Exchanged, Submitted,
  share_step-Submitted,
}

-- The two entries of a map after the backend's key and then the client's.
pub set_both : {V : Type 0} (p : ℕ) (a b : V) → p ≢ 1 → set 1 b (set p a []) ≡ (p, a) ∷ (1, b) ∷ []
unfolding set
set_both p a b ne = rw (other p ne)
  where
    other : (p : ℕ) → p ≢ 1 → (1 == p) ≡ false
    other p ne = ground arith

pub get_first : {V : Type 0} (p : ℕ) (a b : V) → get p ((p, a) ∷ (1, b) ∷ []) ≡ some a
unfolding get
get_first p a b = rw (self p)
  where
    self : (p : ℕ) → (p == p) ≡ true
    self p = ground arith

module _ (lib : Noble) (web : Webcrypto) (draws : DkgDraws) (api : DkgApi) where
  returned :
      (result : DkgClient × Throws (Text × Text)) (after : DkgClient) (key address : Text)
      (party : ℕ)
      → ◌≡◌ {A = DkgClient × DkgResult}
          (result.0, dkg_result lib web result.1)
          (after, DkgResult.success key address party)
      → result ≡ (after, ok (key, address))
  unfolding dkg_result
  returned (s, ok (k, a)) after key address party h = ground arith
  returned (s, throw message) after key address party h = absurd (ground arith)

  -- The outcome of a key generation with the backend as another party than 1.
  pub record Generated (init : DkgInit) (after : DkgClient) (key : Text) : Type 0 where
    pub polynomial : List ℤ
    pub own : VsssCommitment
    pub first : Text
    pub backend_share : ℤ
    pub stored_backend_share : Text
    pub drawn : generate_polynomial draws.coefficient (pos 1) ≡ ok polynomial
    pub committed : create_vsss_commitments lib draws.knowledge_nonce 1 polynomial ≡ ok own
    pub has_first : first_commitment init.backend_commitment.coefficient_commitments ≡ ok first
    pub proved :
        verify_proof_of_knowledge lib init.backend_commitment.proof_of_knowledge
          init.backend_commitment.party_id first
        ≡ ok true
    pub checked :
        verify_vsss_commitment lib init.backend_commitment.coefficient_commitments backend_share 1
        ≡ ok true
    pub combined : combine_vsss_commitments lib (init.backend_commitment ∷ own ∷ []) ≡ ok key
    pub state :
        after.state
        ≡ some (
            completed_state
              (aggregate_shares lib
                (backend_share ∷ evaluate_polynomial lib polynomial (pos 1) ∷ [])
                (pos 0))
              key
              stored_backend_share
              (opened_state init.session_id))

  -- The three steps from a fresh client, put together.
  generated :
      (init : DkgInit) (pair : EphemeralKeyPair) (s1 s2 after : DkgClient) (key address : Text)
      → init.backend_commitment.party_id ≢ 1
      → Initiated lib web draws api new_dkg_client s1 init pair
      → Exchanged lib web draws api s1 s2 init pair
      → Submitted lib web draws api s2 after init key address
      → Generated init after key
  unfolding receive_commitment receive_share values share_accepted new_dkg_client
  generated init pair s1 s2 after key address ne i e s =
      let p = init.backend_commitment.party_id in
      let both = set_both p init.backend_commitment e.vsss ne in
      let polynomial_of : s1.polynomial ≡ i.polynomial = ap (λ c. c.polynomial) i.left in
      let received : s2.received_commitments ≡ (p, init.backend_commitment) ∷ (1, e.vsss) ∷ [] =
        ap (λ c. c.received_commitments) e.left
        ∙ ap (λ c. set 1 e.vsss c.received_commitments) i.left
        ∙ both in
      let shares : s2.received_shares
          ≡ (p, e.decrypted.share) ∷ (1, evaluate_polynomial lib i.polynomial (pos 1)) ∷ [] =
        ap (λ c. c.received_shares) e.left
        ∙ ap
            (λ c.
              set 1 (evaluate_polynomial lib c.polynomial (pos 1))
                (set p e.decrypted.share c.received_shares))
            i.left
        ∙ set_both p e.decrypted.share (evaluate_polynomial lib i.polynomial (pos 1)) ne in
      record {
        polynomial = i.polynomial;
        own = e.vsss;
        first = i.first;
        backend_share = e.decrypted.share;
        stored_backend_share = s.answer.backend_share;
        drawn = i.drawn;
        committed = rw (← polynomial_of) e.own;
        has_first = i.has_first;
        proved = i.proved;
        checked =
            sym (
              ap (λ o. share_accepted lib web o e.decrypted.share)
                (ap (λ c. get p (set 1 e.vsss c.received_commitments)) i.left
                  ∙ ap (get p) both
                  ∙ get_first p init.backend_commitment e.vsss))
            ∙ e.checked;
        combined = ap (λ m. combine_vsss_commitments lib (values m)) (sym received) ∙ s.combined;
        state =
            ap (λ c. c.state) s.left
            ∙ ap
                (λ o.
                  Option.map
                    (completed_state (aggregate_shares lib (values s2.received_shares) (pos 0)) key
                      s.answer.backend_share)
                    o)
                (ap (λ c. c.state) e.left ∙ ap (λ c. c.state) i.left)
            ∙ ap
                (λ m. some (
                  completed_state (aggregate_shares lib (values m) (pos 0)) key
                    s.answer.backend_share (opened_state init.session_id)))
                shares;
      }

  -- Whatever backend answers, under another party number than 1: if a fresh client's key generation
  -- succeeds, then the backend's proof of knowledge was accepted, its share lies on the polynomial
  -- that it committed to, the public key is combined from both parties' commitments, and the private
  -- share is the sum of the backend's share and the client's polynomial at 1.
  pub execute-Generated :
      (init : DkgInit) (after : DkgClient) (key address : Text) (party : ℕ)
      → api.initiate ≡ ok init
      → init.backend_commitment.party_id ≢ 1
      → execute lib web draws api new_dkg_client ≡ (after, DkgResult.success key address party)
      → Generated init after key
  unfolding execute execute_steps
  execute-Generated init after key address party answer ne h =
      let run =
        returned (execute_steps lib web draws api new_dkg_client) after key address party h in
      let (s1, (asked, pair), e1, h1) =
        continue-returns (initiate_step lib web draws api new_dkg_client) _ run in
      let (s2, u, e2, h2) = continue-returns (commit_step lib web draws api asked pair s1) _ h1 in
      let initiated = initiate_step-Initiated lib web draws api new_dkg_client s1 asked pair e1 in
      subst (λ i. i.backend_commitment.party_id ≢ 1 → Generated i after key)
        (same (sym initiated.answered ∙ answer))
        (λ ne'.
          generated asked pair s1 s2 after key address ne' initiated
            (commit_step-Exchanged lib web draws api s1 s2 asked pair e2)
            (share_step-Submitted lib web draws api s2 after asked key address h2))
        ne
    where
      same : {a b : DkgInit} → ok a ≡ ok b → a ≡ b
      same e = cc
