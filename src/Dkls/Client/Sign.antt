-- ===== src/Dkls/Client/Sign.antt =====
-- Signing with the two-party client, with its one retry after a session conflict
-- (src/protocols/dkls/dkls-client.ts). The backend of each attempt is a record of functions, and what
-- is drawn in each attempt are arguments.
pub mod Flow
pub mod Laws
use Prim.Native.String.{String}
use package.text.Mathlib.Text.{◌==◌ as str_eq}
use nero_mpc_sdk.Base.{
  ℕ, ◌==◌, Bool, true, false, ◌&&◌, if◌then◌else◌, List, [], ◌∷◌, ◌++◌, Option, none, some, length,
}
use nero_mpc_sdk.Base.Throws.{Throws, ok, throw}
use nero_mpc_sdk.Bigint.{ℤ}
use nero_mpc_sdk.Hex.{Text, Bytes, is_empty, text, to_string10}
use nero_mpc_sdk.Noble.{Noble}
use nero_mpc_sdk.Dkls.Keygen.{KeyShare, KeygenCommitment}
use nero_mpc_sdk.Dkls.Mta.Messages.{MtaAliceRound1Text, MtaBobRound2Text, MtaAliceRound3Text}
use nero_mpc_sdk.Dkls.Signing.{
  SigningClientState, NonceCommitment, NonceReveal, PartialSignature, MtaClientState, MtaDraw,
  signing_init, signing_store_backend_commitment, signing_process_backend_nonce,
  init_mta_for_signing, process_mta_round2_response, compute_client_partial_signature,
}
use nero_mpc_sdk.Dkls.Client.{DklsClient, load_dkls_key_share}

-- An `SDKError`: its code, status and the session that `details` names; another `Error` has no code.
pub record SdkError : Type 0 where
  pub message : String
  pub code : String
  pub status_code : ℕ
  pub active_session_id : Option Text

pub data Attempt (A : Type 0) : Type 0 where
  done : A → Attempt A
  failed : SdkError → Attempt A

-- An `Error` of the protocol's own steps.
unfoldable pub plain_error : String → SdkError
plain_error message = record {
  message = message;
  code = "";
  status_code = 0;
  active_session_id = none;
}

pub record SignRequest : Type 0 where
  pub message_hash : Text
  pub message_type : Text
  pub dkg_session_id : Text

pub record SignatureAnswer : Type 0 where
  pub signature : Text
  pub r : Text
  pub s : Text
  pub v : ℕ

pub record DklsSigningResult : Type 0 where
  pub answer : SignatureAnswer
  pub message_hash : Text

-- The requests of `apiClient.dkls` in a signature.
pub record DklsSigningApi : Type 0 where
  pub init : SignRequest → Attempt (Text × KeygenCommitment)
  pub nonce : Text → NonceCommitment → Attempt NonceReveal
  pub mta_round1 :
      Text → MtaAliceRound1Text → MtaAliceRound1Text → Attempt (MtaBobRound2Text × MtaBobRound2Text)
  pub mta_round2 : Text → MtaAliceRound3Text → MtaAliceRound3Text → Attempt (Unit {0})
  pub partial : Text → PartialSignature → Attempt SignatureAnswer

pub record SigningDraw : Type 0 where
  pub nonce_share : ℤ
  pub draw1 : MtaDraw
  pub draw2 : MtaDraw

-- `request.messageType || "message"`.
unfoldable pub with_type : SignRequest → SignRequest
with_type request =
    if is_empty request.message_type
    then record request { message_type = text "message" }
    else request

module _ (lib : Noble) where
  abbrev pub Flow : Type 0 → Type 0
  Flow A = DklsClient lib → DklsClient lib × Attempt A

  abbrev pub go_on :
      {A B : Type 0} → DklsClient lib × Attempt A → (A → Flow B) → DklsClient lib × Attempt B
  go_on (client, Attempt.done a) rest = rest a client
  go_on (client, Attempt.failed e) rest = (client, Attempt.failed e)

  infixl 5 ◌>>◌ ◌>>=◌
  abbrev pub ◌>>=◌ : {A B : Type 0} → Flow A → (A → Flow B) → Flow B
  ◌>>=◌ first rest = λ client. go_on (first client) rest

  abbrev pub ◌>>◌ : {B : Type 0} → Flow (Unit {0}) → Flow B → Flow B
  ◌>>◌ first rest = first >>= λ done. rest

  abbrev pub ask : {A : Type 0} → Attempt A → Flow A
  ask answer = λ client. (client, answer)

  abbrev pub step : {A : Type 0} → Throws A → Flow A
  step (ok a) = λ client. (client, Attempt.done a)
  step (throw message) = λ client. (client, Attempt.failed (plain_error message))

  abbrev pub change : (DklsClient lib → DklsClient lib) → Flow (Unit {0})
  change f = λ client. (f client, Attempt.done tt)

  unfoldable pub execute_signing_flow :
      SigningDraw → DklsSigningApi → KeyShare → SignRequest → Flow DklsSigningResult
  execute_signing_flow draw api key_share request = do
    (session_id, backend_commitment) ← ask (api.init (with_type request))
    (state, nonce_commitment) ←
        step (signing_init lib draw.nonce_share key_share request.message_hash)
    change (λ c. record c { signing_state = some state })
    stored ← step (signing_store_backend_commitment lib state backend_commitment)
    change (λ c. record c { signing_state = some stored })
    reveal ← ask (api.nonce session_id nonce_commitment)
    agreed ← step (signing_process_backend_nonce lib stored reveal)
    change (λ c. record c { signing_state = some agreed })
    (mta_state, mta1_setup, mta2_setup) ←
        step (init_mta_for_signing lib draw.draw1 draw.draw2 agreed)
    change (λ c. record c { mta_state = some mta_state })
    (mta1_response, mta2_response) ← ask (api.mta_round1 session_id mta1_setup mta2_setup)
    (updated, mta1_encrypted, mta2_encrypted) ←
        step (process_mta_round2_response lib mta_state mta1_response mta2_response)
    change (λ c. record c { mta_state = some updated })
    ask (api.mta_round2 session_id mta1_encrypted mta2_encrypted)
    partial ← step (compute_client_partial_signature lib agreed updated)
    answer ← ask (api.partial session_id partial)
    ask (Attempt.done (record { answer = answer; message_hash = request.message_hash }))

  unfoldable pub is_conflict : SdkError → Bool
  is_conflict e = e.status_code == 409 && str_eq e.code "SIGNING_SESSION_CONFLICT"

  -- The session whose cancellation is requested; whether it succeeds is ignored.
  unfoldable pub cancelled : Option Text → List Text
  cancelled none = []
  cancelled (some session) = if is_empty session then [] else session ∷ []

  unfoldable pub wrapped : SdkError → SdkError
  wrapped e = record {
    message = e.message;
    code = "DKLS_SIGNING_FAILED";
    status_code = 0;
    active_session_id = none;
  }

  -- What follows a first attempt: its end, or the second attempt. The last component lists the
  -- sessions that are cancelled in between.
  unfoldable pub after_first :
      Flow DklsSigningResult
      → DklsClient lib × Attempt DklsSigningResult
      → DklsClient lib × Attempt DklsSigningResult × List Text
  after_first again (client, Attempt.done result) = (client, Attempt.done result, [])
  after_first again (client, Attempt.failed e) =
      let (later, second) = again client in
      if is_conflict e
      then (later, second, cancelled e.active_session_id)
      else (client, Attempt.failed (wrapped e), [])

  -- The `finally` block.
  unfoldable pub without_states : DklsClient lib → DklsClient lib
  without_states client = record client { signing_state = none; mta_state = none }

  unfoldable pub sign_with :
      (ℕ → SigningDraw)
      → (ℕ → DklsSigningApi)
      → KeyShare
      → SignRequest
      → DklsClient lib
      → DklsClient lib × Attempt DklsSigningResult × List Text
  sign_with draws apis key_share request client =
      let (after, result, sessions) =
        after_first (execute_signing_flow (draws 1) (apis 1) key_share request)
          (execute_signing_flow (draws 0) (apis 0) key_share request client) in
      (without_states after, result, sessions)

  unfoldable pub refused : String → String → SdkError
  refused message code = record {
    message = message;
    code = code;
    status_code = 0;
    active_session_id = none;
  }

  unfoldable pub sign_loaded :
      (ℕ → SigningDraw)
      → (ℕ → DklsSigningApi)
      → SignRequest
      → DklsClient lib × Option KeyShare
      → DklsClient lib × Attempt DklsSigningResult × List Text
  sign_loaded draws apis request (client, none) =
      (client, Attempt.failed (refused "No key share found. Run keygen first." "NO_KEY_SHARE"), [])
  sign_loaded draws apis request (client, some key_share) =
      let run = sign_with draws apis key_share request client in
      if is_empty request.dkg_session_id
      then (
        client,
        Attempt.failed (refused "dkgSessionId is required for signing" "MISSING_DKG_SESSION_ID"),
        [],
      )
      else run

  unfoldable pub dkls_sign :
      (ℕ → SigningDraw)
      → (ℕ → DklsSigningApi)
      → SignRequest
      → DklsClient lib
      → DklsClient lib × Attempt DklsSigningResult × List Text
  dkls_sign draws apis request client =
      sign_loaded draws apis request (load_dkls_key_share lib client)

  -- The hash of a message with its prefix; the first argument is keccak_256.
  unfoldable pub personal_hash : (Bytes → Bytes) → Text → Text
  personal_hash keccak_256 message =
      let prefix = 25 ∷ (text "Ethereum Signed Message:" ++ (10 ∷ to_string10 (length message))) in
      text "0x" ++ lib.bytes_to_hex (keccak_256 (lib.utf8_to_bytes (prefix ++ message)))

  -- A message is signed under the session that was loaded.
  unfoldable pub sign_in_session :
      (ℕ → SigningDraw)
      → (ℕ → DklsSigningApi)
      → Text
      → Text
      → Option Text
      → DklsClient lib
      → DklsClient lib × Attempt DklsSigningResult × List Text
  sign_in_session draws apis hash type none client = (
    client,
    Attempt.failed (refused "No dkgSessionId found. Run keygen first." "NO_DKG_SESSION_ID"),
    [],
  )
  sign_in_session draws apis hash type (some session) client =
      let run =
        dkls_sign draws apis
          (record { message_hash = hash; message_type = type; dkg_session_id = session }) client in
      if is_empty session
      then (
        client,
        Attempt.failed (refused "No dkgSessionId found. Run keygen first." "NO_DKG_SESSION_ID"),
        [],
      )
      else run

  unfoldable pub sign_message :
      (Bytes → Bytes)
      → (ℕ → SigningDraw)
      → (ℕ → DklsSigningApi)
      → Text
      → DklsClient lib
      → DklsClient lib × Attempt DklsSigningResult × List Text
  sign_message keccak_256 draws apis message client =
      let loaded = (load_dkls_key_share lib client).0 in
      sign_in_session draws apis (personal_hash keccak_256 message) (text "message")
        loaded.dkg_session_id loaded
