-- ===== src/Threshold/Client.antt =====
-- The client of the additive signing (src/protocols/signing/signing-client.ts). The backend's answers
-- are the functions of `SigningApi`; what the code draws at random is the record `SigningDraws`.
pub mod Laws
use Prim.Native.String.{String}
use nero_mpc_sdk.Base.{ℕ, Bool, true, false, not, if◌then◌else◌, List, [], ◌∷◌, Option, none, some}
use nero_mpc_sdk.Base.Throws.{Throws, ok, throw, ◌>>=◌, ◌>>◌, throw_if, or_throw}
use nero_mpc_sdk.Base.Maps.{get}
use nero_mpc_sdk.Bigint.{ℤ, pos}
use nero_mpc_sdk.Hex.{Text, Bytes, is_empty, scalar_to_hex, parse_bigint16}
use nero_mpc_sdk.Noble.{Noble}
use nero_mpc_sdk.Threshold.{PartialSignatureData, compute_partial_signature, parse_message_hash}
use nero_mpc_sdk.Threshold.Nonce.{
  NonceShare, NonceCommitment, NoncePoint, generate_nonce_share, create_nonce_commitment,
  verify_nonce_commitment, verify_nonce_proof, combine_nonce_commitments, compute_r,
}
use nero_mpc_sdk.Threshold.Verify.{verify_partial_signature}

-- The fields of the key share that the client reads, and the shares of the other parties.
pub record SigningConfig : Type 0 where
  pub party_id : ℕ
  pub private_share : Text
  pub expected_public_shares : List (ℕ × Text)

-- A partial signature with `sigma` as text.
pub record PartialText : Type 0 where
  pub party_id : ℕ
  pub sigma : Text
  pub public_share : Text
  pub nonce_commitment : Text

pub record FinalSignature : Type 0 where
  pub r : Text
  pub s : Text
  pub v : ℕ
  pub full_signature : Text

-- The three requests of `apiClient.wallet`; `throw` is a rejection.
pub record SigningApi : Type 0 where
  pub signing_init : Text → Throws (Text × NonceCommitment)
  pub signing_nonce : Text → NonceCommitment → Throws PartialText
  pub signing_complete : Text → PartialText → Throws FinalSignature

pub record SigningDraws : Type 0 where
  pub k_blocks : List Bytes
  pub gamma_blocks : List Bytes
  pub r1 : ℤ
  pub r2 : ℤ

pub data SigningResult : Type 0 where
  success : FinalSignature → SigningResult
  failure : String → SigningResult

module _ (lib : Noble) where
  -- `verifyPartialSignature` on the backend's answer.
  unfoldable pub backend_partial_valid :
      SigningConfig → NonceCommitment → PartialText → Text → ℤ → Text → Throws Bool
  backend_partial_valid config backend_nonce partial public_share r message_hash = do
    message ← or_throw (parse_message_hash message_hash) "BigInt"
    sigma ← or_throw (parse_bigint16 partial.sigma) "BigInt"
    verify_partial_signature lib
        (record {
          party_id = partial.party_id;
          sigma = sigma;
          public_share = partial.public_share;
          nonce_commitment = partial.nonce_commitment;
        })
        public_share backend_nonce.e r message (config.party_id ∷ backend_nonce.party_id ∷ [])

  unfoldable pub refuse_invalid : Throws Bool → Throws (Unit {0})
  refuse_invalid valid = do
    is_valid ← valid
    throw_if (not is_valid) "Invalid partial signature from backend"

  -- `if (backendPublicShare) { … }`.
  unfoldable pub check_backend_partial :
      Option Text → SigningConfig → NonceCommitment → PartialText → ℤ → Text → Throws (Unit {0})
  check_backend_partial none config backend_nonce partial r message_hash = ok tt
  check_backend_partial (some public_share) config backend_nonce partial r message_hash =
      let checked =
        refuse_invalid
          (backend_partial_valid config backend_nonce partial public_share r message_hash) in
      if is_empty public_share then ok tt else checked

  -- The client's own partial signature, as it is sent.
  unfoldable pub own_partial : SigningConfig → ℕ → ℤ → ℤ → Text → Throws PartialText
  own_partial config backend_party k r message_hash = do
    message ← or_throw (parse_message_hash message_hash) "BigInt"
    key_share ← or_throw (parse_bigint16 config.private_share) "BigInt"
    partial ←
        compute_partial_signature lib config.party_id key_share k message r
          (config.party_id ∷ backend_party ∷ [])
    ok (record {
      party_id = config.party_id;
      sigma = scalar_to_hex partial.sigma;
      public_share = partial.public_share;
      nonce_commitment = partial.nonce_commitment;
    })

  unfoldable pub sign_steps :
      SigningDraws → SigningApi → SigningConfig → Text → Throws FinalSignature
  sign_steps draws api config message_hash = do
    (session_id, backend_nonce) ← api.signing_init message_hash
    throw_if (not (verify_nonce_commitment lib backend_nonce))
        "Invalid nonce commitment from backend"
    throw_if (not (verify_nonce_proof lib backend_nonce)) "Invalid nonce proof from backend"
    nonce_share ← generate_nonce_share lib draws.k_blocks draws.gamma_blocks
    client_commitment ← create_nonce_commitment lib draws.r1 draws.r2 config.party_id nonce_share
    (combined, combined_gamma) ←
        combine_nonce_commitments lib (client_commitment ∷ backend_nonce ∷ [])
    point ← compute_r lib combined
    backend_partial ← api.signing_nonce session_id client_commitment
    check_backend_partial (get backend_partial.party_id config.expected_public_shares) config
        backend_nonce backend_partial point.r message_hash
    partial ← own_partial config backend_nonce.party_id nonce_share.k point.r message_hash
    api.signing_complete session_id partial

  -- `try { … } catch`.
  unfoldable pub signing_result : Throws FinalSignature → SigningResult
  signing_result (ok signature) = SigningResult.success signature
  signing_result (throw message) = SigningResult.failure message

  unfoldable pub sign : SigningDraws → SigningApi → SigningConfig → Text → SigningResult
  sign draws api config message_hash = signing_result (sign_steps draws api config message_hash)
