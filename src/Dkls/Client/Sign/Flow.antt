-- ===== src/Dkls/Client/Sign/Flow.antt =====
-- What one attempt of a signature leaves alone, and what its result is made of
-- (src/protocols/dkls/dkls-client.ts).
use nero_mpc_sdk.Base.{◌≡◌, refl, ◌∙◌, subst, some, if◌then◌else◌, Bool-cases, inl, inr}
use nero_mpc_sdk.Base.Throws.{Throws, ok, throw}
use nero_mpc_sdk.Hex.{Text, is_empty, text}
use nero_mpc_sdk.Noble.{Noble}
use nero_mpc_sdk.Dkls.Keygen.{KeyShare, KeygenCommitment}
use nero_mpc_sdk.Dkls.Signing.{
  SigningClientState, PartialSignature, MtaClientState, signing_init,
  signing_store_backend_commitment, signing_process_backend_nonce, init_mta_for_signing,
  process_mta_round2_response, compute_client_partial_signature,
}
use nero_mpc_sdk.Dkls.Mta.Messages.{MtaBobRound2Text}
use nero_mpc_sdk.Dkls.Client.{DklsClient}
use nero_mpc_sdk.Dkls.Client.Sign.{
  Attempt, SignRequest, SignatureAnswer, DklsSigningResult, DklsSigningApi, SigningDraw, Flow,
  go_on, ask, step, with_type, execute_signing_flow,
}

module _ (lib : Noble) where
  -- The stored entry, the loaded share with its session, and a key generation under way.
  unfoldable pub IsKept : DklsClient lib → DklsClient lib → Type 0
  IsKept before after =
      (after.stored ≡ before.stored)
      × (after.key_share ≡ before.key_share)
      × (after.dkg_session_id ≡ before.dkg_session_id)
      × (after.keygen_state ≡ before.keygen_state)

  pub IsKept-trans : (a b c : DklsClient lib) → IsKept a b → IsKept b c → IsKept a c
  unfolding IsKept
  IsKept-trans a b c (s, k, d, g) (s2, k2, d2, g2) = (s2 ∙ s, k2 ∙ k, d2 ∙ d, g2 ∙ g)

  -- A flow that keeps these, and whose value, when it has one, satisfies `P`.
  unfoldable pub Fits : {A : Type 0} → Flow lib A → (A → Type 0) → Type 0
  Fits {A} flow P =
      (client : DklsClient lib)
      → IsKept client (flow client).0 × ((a : A) → (flow client).1 ≡ Attempt.done a → P a)

  continued :
      {A B : Type 0} (P : B → Type 0) (client : DklsClient lib) (first : DklsClient lib × Attempt A)
      (rest : A → Flow lib B)
      → IsKept client first.0
      → ((a : A) → first.1 ≡ Attempt.done a → Fits (rest a) P)
      → IsKept client (go_on lib first rest).0
        × ((b : B) → (go_on lib first rest).1 ≡ Attempt.done b → P b)
  unfolding Fits
  continued P client (mid, Attempt.done a) rest kept fits =
      let (kept2, value) = fits a refl mid in
      (IsKept-trans client mid (rest a mid).0 kept kept2, value)
  continued P client (mid, Attempt.failed e) rest kept fits = (kept, λ b h. absurd (differ h))
    where
      differ : {B : Type 0} {b : B} → Attempt.failed e ≡ Attempt.done b → ⊥
      differ h = cc

  -- An answer of the backend.
  asked :
      {A B : Type 0} (P : B → Type 0) (answer : Attempt A) (rest : A → Flow lib B)
      → ((a : A) → answer ≡ Attempt.done a → Fits (rest a) P)
      → Fits (λ client. go_on lib (client, answer) rest) P
  unfolding Fits IsKept
  asked P answer rest fits client =
      continued P client (client, answer) rest (refl, refl, refl, refl) fits

  -- A step of the protocol.
  stepped :
      {A B : Type 0} (P : B → Type 0) (result : Throws A) (rest : A → Flow lib B)
      → ((a : A) → Fits (rest a) P)
      → Fits (λ client. go_on lib (step lib result client) rest) P
  unfolding Fits IsKept
  stepped P (ok a) rest fits client =
      continued P client (client, Attempt.done a) rest (refl, refl, refl, refl) (λ b e. fits b)
  stepped {A} P (throw message) rest fits client =
      continued {A = A} P client (step lib {A = A} (throw message) client) rest
        (refl, refl, refl, refl) (λ b e. fits b)

  -- An assignment to one of the states of a signature.
  signing_assigned :
      {B : Type 0} (P : B → Type 0) (state : SigningClientState lib) (rest : Flow lib B)
      → Fits rest P
      → Fits (λ client. rest (record client { signing_state = some state })) P
  unfolding Fits IsKept
  signing_assigned P state rest fits client = fits (record client { signing_state = some state })

  mta_assigned :
      {B : Type 0} (P : B → Type 0) (state : MtaClientState lib) (rest : Flow lib B)
      → Fits rest P
      → Fits (λ client. rest (record client { mta_state = some state })) P
  unfolding Fits IsKept
  mta_assigned P state rest fits client = fits (record client { mta_state = some state })

  -- The backend opened a session for the request, with the type "message" when it has none, and the
  -- result is what it answered there to the client's partial signature.
  unfoldable pub IsAnswered : DklsSigningApi → SignRequest → DklsSigningResult → Type 0
  IsAnswered api request result =
      (sent : SignRequest) × (session : Text) × (commitment : KeygenCommitment)
      × (partial : PartialSignature) × (sent.message_hash ≡ request.message_hash)
      × (sent.dkg_session_id ≡ request.dkg_session_id)
      × (sent.message_type
          ≡ (if is_empty request.message_type then text "message" else request.message_type))
      × (api.init sent ≡ Attempt.done (session, commitment))
      × (api.partial session partial ≡ Attempt.done result.answer)
      × (result.message_hash ≡ request.message_hash)

  -- The last line of an attempt.
  finished :
      (P : DklsSigningResult → Type 0) (result : DklsSigningResult)
      → P result
      → Fits (ask lib (Attempt.done result)) P
  unfolding Fits IsKept
  finished P result h client = ((refl, refl, refl, refl), λ other e. subst P (value_of e) h)
    where
      value_of : {x y : DklsSigningResult} → Attempt.done x ≡ Attempt.done y → x ≡ y
      value_of e = cc

  pub execute_signing_flow-Fits :
      (draw : SigningDraw) (api : DklsSigningApi) (share : KeyShare) (request : SignRequest)
      → Fits (execute_signing_flow lib draw api share request) (IsAnswered api request)
  unfolding execute_signing_flow with_type IsAnswered
  execute_signing_flow-Fits draw api share request =
      asked _ (api.init (with_type request)) _ (λ opened opened_as.
        stepped _ (signing_init lib draw.nonce_share share request.message_hash) _ (λ begun.
          signing_assigned _ begun.0 _ (
            stepped _ (signing_store_backend_commitment lib begun.0 opened.1) _ (λ stored.
              signing_assigned _ stored _ (
                asked _ (api.nonce opened.0 begun.1) _ (λ reveal revealed.
                  stepped _ (signing_process_backend_nonce lib stored reveal) _ (λ agreed.
                    signing_assigned _ agreed _ (
                      stepped _ (init_mta_for_signing lib draw.draw1 draw.draw2 agreed) _
                        (λ conversion. mta_assigned _ conversion.0 _ (
                          asked {A = MtaBobRound2Text × MtaBobRound2Text} _
                            (api.mta_round1 opened.0 conversion.1 conversion.2) _
                            (λ responses responded.
                              stepped _
                                (process_mta_round2_response lib conversion.0 responses.0
                                  responses.1)
                                _
                                (λ updated. mta_assigned _ updated.0 _ (
                                  asked _ (api.mta_round2 opened.0 updated.1 updated.2) _
                                    (λ received accepted.
                                      stepped _
                                        (compute_client_partial_signature lib agreed updated.0) _
                                        (λ partial.
                                          asked _ (api.partial opened.0 partial) _
                                            (λ answer answered. finished _ _ (
                                              answered_by opened partial answer opened_as
                                                answered)))))))))))))))))
    where
      sent_as :
          ((with_type request).message_hash ≡ request.message_hash)
          × ((with_type request).dkg_session_id ≡ request.dkg_session_id)
          × ((with_type request).message_type
              ≡ (if is_empty request.message_type then text "message" else request.message_type))
      sent_as = elim (Bool-cases (is_empty request.message_type)) [
        | inl e ↦ rw e (refl, refl, refl)
        | inr e ↦ rw e (refl, refl, refl)
      ]

      answered_by :
          (opened : Text × KeygenCommitment) (partial : PartialSignature) (answer : SignatureAnswer)
          → api.init (with_type request) ≡ Attempt.done opened
          → api.partial opened.0 partial ≡ Attempt.done answer
          → IsAnswered api request (record { answer = answer; message_hash = request.message_hash })
      answered_by opened partial answer opened_as answered =
          let (hash, session, type) = sent_as in
          (
            with_type request,
            opened.0,
            opened.1,
            partial,
            hash,
            session,
            type,
            opened_as,
            answered,
            refl,
          )
